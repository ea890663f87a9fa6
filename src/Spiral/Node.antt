-- ===== src/Spiral/Node.antt =====
-- The node functions of workflow/spiral.py. A node is a function of the state and of the outside
-- world, which injected handlers read and change; what it does not write stays as it was.
use Prim.Native.String.{◌++◌ as text_append}
use mathlib.Core.Option.{some-injective}
use talisman_v.Prelude.{
  refl, ◌≡◌, ◌↔◌, ap, true, same_iff, String, Bool, false, Option, none, some, List, [], ◌∷◌, ◌++◌,
  has, same, if◌then◌else◌,
}
use talisman_v.Prelude.Dict.{Dict, get}
use talisman_v.Spiral.State.{
  ApprovalDecision, approve, revise, pause, reject, value, from_value, SpiralState,
}

-- The exceptions that end a run.
pub data Fault : Type 0 where
  value_error type_error key_error recursion_error : Fault
  handler_error : String → Fault

pub data Result {ℓ} (A : Type ℓ) : Type ℓ where
  ok : A → Result A
  err : Fault → Result A

pub record GateInterruptPayload : Type 0 where
  pub project_id : String
  pub gate_id : String
  pub phase : String
  pub summary : String

-- The dict that a node returns: a key that is absent is `none`.
pub record SpiralUpdate : Type 0 where
  pub current_phase : String
  pub completed_phases : Option (List String)
  pub pending_gate_id : Option (Option String)
  pub last_decision : Option String
  pub artifacts : Option (List String)

-- What `interrupt` may hand back when the run is resumed.
pub data ResumeValue : Type 0 where
  decision : ApprovalDecision → ResumeValue
  text : String → ResumeValue
  other : ResumeValue

-- A node returns an update, raises, or calls `interrupt` and goes on with what that returns.
pub data NodeResult : Type 0 where
  update : SpiralUpdate → NodeResult
  raised : Fault → NodeResult
  interrupt : GateInterruptPayload → (ResumeValue → Result SpiralUpdate) → NodeResult

-- `_gate_id`
unfoldable pub gate_id : SpiralState → String → String
gate_id s phase = text_append s.project_id (text_append ":" phase)

-- `_gate_payload`
unfoldable pub gate_payload : SpiralState → String → String → GateInterruptPayload
gate_payload s phase gate = record {
  project_id = s.project_id;
  gate_id = gate;
  phase = phase;
  summary = text_append "Approval required for phase '" (text_append phase "'.");
}

-- A gate id depends on the project and the phase alone.
pub gate_id_congr :
    (s t : SpiralState) (p q : String)
    → s.project_id ≡ t.project_id
    → p ≡ q
    → gate_id s p ≡ gate_id t q
unfolding gate_id
gate_id_congr s t p q h k = cc

pub gate_payload_gate : (s : SpiralState) (p gate : String) → (gate_payload s p gate).gate_id ≡ gate
unfolding gate_payload
gate_payload_gate s p gate = refl

-- `_coerce_approval_decision`
unfoldable pub coerce_approval_decision : ResumeValue → Result ApprovalDecision
unfolding from_value
coerce_approval_decision (decision d) = ok d
coerce_approval_decision (text t) = elim (from_value t) [ none ↦ err value_error | some d ↦ ok d ]
coerce_approval_decision other = err type_error

-- `_complete_phase`
unfoldable pub complete_phase : String → SpiralState → List String
complete_phase phase s =
    if has phase s.completed_phases then s.completed_phases else s.completed_phases ++ phase ∷ []

-- `_decision_update`
unfoldable pub decision_update : String → SpiralState → ApprovalDecision → SpiralUpdate
unfolding complete_phase
decision_update phase s approve = record {
  current_phase = phase;
  completed_phases = some (complete_phase phase s);
  pending_gate_id = some none;
  last_decision = some (value approve);
  artifacts = none;
}
decision_update phase s revise = record {
  current_phase = phase;
  completed_phases = none;
  pending_gate_id = some none;
  last_decision = some (value revise);
  artifacts = none;
}
decision_update phase s pause = record {
  current_phase = phase;
  completed_phases = none;
  pending_gate_id = some s.pending_gate_id;
  last_decision = some (value pause);
  artifacts = none;
}
decision_update phase s reject = record {
  current_phase = phase;
  completed_phases = none;
  pending_gate_id = some none;
  last_decision = some (value reject);
  artifacts = none;
}

abbrev pub is_pending : Option String → String → Bool
is_pending none gate = false
is_pending (some pending) gate = same pending gate

pub is_pending_iff :
    (pending : Option String) (gate : String)
    → (is_pending pending gate ≡ true) ↔ (pending ≡ some gate)
is_pending_iff none gate = (λ e. cc, λ e. cc)
is_pending_iff (some p) gate =
    (λ e. ap some ((same_iff p gate).0 e), λ e. (same_iff p gate).1 (some-injective _ _ e))

-- A handler changes the world `W`, and returns an artifact, nothing, or raises.
abbrev pub PhaseHandler : Type 0 → Type 0
PhaseHandler W = SpiralState → W → Result (Option String) × W

-- the list that `_record_phase_artifact` returns once the handler has
abbrev with_produced : List String → Result (Option String) → Result (List String)
with_produced artifacts (ok none) = ok artifacts
with_produced artifacts (ok (some produced)) = ok (artifacts ++ produced ∷ [])
with_produced artifacts (err e) = err e

abbrev update_or_raise : (List String → SpiralUpdate) → Result (List String) → NodeResult
update_or_raise f (ok artifacts) = update (f artifacts)
update_or_raise f (err e) = raised e

abbrev pub after_decision : String → SpiralState → Result ApprovalDecision → Result SpiralUpdate
after_decision phase s (ok d) = ok (decision_update phase s d)
after_decision phase s (err e) = err e

module _ {W : Type 0} where
  abbrev call_handler : SpiralState → Option (PhaseHandler W) → W → Result (List String) × W
  call_handler s none w = (ok s.artifacts, w)
  call_handler s (some handler) w =
      let (produced, w') = handler s w in (with_produced s.artifacts produced, w')

  -- `_record_phase_artifact`
  unfoldable pub record_phase_artifact :
      String → SpiralState → Option (Dict (PhaseHandler W)) → W → Result (List String) × W
  unfolding get
  record_phase_artifact phase s none w = (ok s.artifacts, w)
  record_phase_artifact phase s (some handlers) w = call_handler s (get handlers phase) w

  -- `run_phase` of `_make_phase_node`
  unfoldable pub run_phase :
      Option (Dict (PhaseHandler W)) → List String → String → SpiralState → W → NodeResult × W
  run_phase handlers gate_phases phase s w =
      if has phase gate_phases
      then (let gate = gate_id s phase in
          if is_pending s.pending_gate_id gate
          then (
            interrupt (gate_payload s phase gate)
                (λ v. after_decision phase s (coerce_approval_decision v)),
            w,
          )
          else (let (artifacts, w') = record_phase_artifact phase s handlers w in
              (
                update_or_raise
                    (λ produced. record {
                      current_phase = phase;
                      completed_phases = none;
                      pending_gate_id = some (some gate);
                      last_decision = none;
                      artifacts = some produced;
                    })
                    artifacts,
                w',
              )))
      else (let (artifacts, w') = record_phase_artifact phase s handlers w in
          (
            update_or_raise
                (λ produced. record {
                  current_phase = phase;
                  completed_phases = some (complete_phase phase s);
                  pending_gate_id = some none;
                  last_decision = none;
                  artifacts = some produced;
                })
                artifacts,
            w',
          ))
