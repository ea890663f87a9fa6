-- ===== src/Tests/Gates.antt =====
-- Concrete gated runs of app/composition.py: one that is rejected, and one that is approved.
use talisman_v.Prelude.{
  ℕ, suc, String, ◌≡◌, ◌≢◌, ◌⊎◌, refl, true, false, Option, none, some, List, [], ◌∷◌, ◌++◌, arith,
  has, same_iff,
}
use talisman_v.Prelude.Int.{pos}
use talisman_v.Prelude.Dict.{Dict}
use talisman_v.Spiral.State.{
  SpiralState, approve, reject, value, next_active_phase, first_uncompleted, spiral_phases,
}
use talisman_v.Spiral.Node.{
  Fault, ok, err, PhaseHandler, gate_id, gate_payload, coerce_approval_decision, decision_update,
  record_phase_artifact, run_phase,
}
use talisman_v.Spiral.Runtime.{CompiledGraph, finished, overwrite}
use talisman_v.Spiral.Reference.{reference}
use talisman_v.Spiral.Order.{remaining}
use talisman_v.Composition.{Approver, LogEvent, resolve_gates, run_gated_project}
use talisman_v.Composition.Gates.{gate_needs_approval}
use talisman_v.Composition.Completion.{finished_in_order}
use talisman_v.Composition.Approved.{approved_run_completes}

-- the world is the number of calls of the plan handler
abbrev handlers : Option (Dict (PhaseHandler ℕ))
handlers = some (("plan", λ s w. (ok (some "plan-artifact"), suc w)) ∷ [])

abbrev gates : List String
gates = "plan" ∷ []

abbrev phases : List String
phases = "interview" ∷ "plan" ∷ "review" ∷ []

graph : CompiledGraph (run_phase handlers gates)
unfolding reference
graph = reference (run_phase handlers gates) 25 (omega arith)

abbrev quiet_log : LogEvent → ℕ → ℕ
quiet_log e w = w

abbrev rejecting : Approver ℕ
rejecting r w = (ok reject, w)

abbrev approving : Approver ℕ
approving r w = (ok approve, w)

abbrev rejected_state : SpiralState
rejected_state = record {
  project_id = "p1";
  tier = "standard";
  phase_sequence = phases;
  current_phase = "plan";
  completed_phases = "interview" ∷ [];
  pending_gate_id = none;
  last_decision = some "reject";
  artifacts = "plan-artifact" ∷ [];
  escalations_today = pos 0;
}

rejected_run :
    run_gated_project handlers gates graph quiet_log rejecting 3 "p1" phases "standard" 0
    ≡ some (finished rejected_state, 1)
unfolding run_gated_project graph run_phase gate_id gate_payload record_phase_artifact overwrite
    coerce_approval_decision decision_update next_active_phase has resolve_gates first_uncompleted
rejected_run = refl

gate_needs_approval_example : has "plan" rejected_state.completed_phases ≡ false
unfolding has
gate_needs_approval_example =
    gate_needs_approval handlers gates "plan" refl "p1" rejecting (λ r w w' e h. cc) graph quiet_log
      3 phases "standard" 0 1 rejected_state rejected_run

finished_in_order_example :
    (rest : List String) × (rejected_state.completed_phases ++ rest ≡ remaining [] phases)
    × ((rejected_state.last_decision ≡ some (value reject)) ⊎ (rest ≡ []))
unfolding has
finished_in_order_example =
    finished_in_order handlers gates graph quiet_log rejecting 3 "p1" phases "standard" 0
      rejected_state 1 refl rejected_run

phases_known : (p : String) → has p phases ≡ true → has p spiral_phases ≡ true
unfolding has
phases_known p h = ground (arith, same_iff p "interview", same_iff p "plan", same_iff p "review")

handlers_quiet :
    (p : String) (s : SpiralState) (w w' : ℕ) (e : Fault)
    → record_phase_artifact p s handlers w ≢ (err e, w')
unfolding record_phase_artifact
handlers_quiet p s w w' e h = ground arith

approved_run_completes_example :
    (s : SpiralState) × (w' : ℕ) × (run_gated_project handlers gates graph quiet_log approving 3
        "p1" phases "standard" 0
      ≡ some (finished s, w'))
    × (s.completed_phases ≡ remaining [] phases)
unfolding graph
approved_run_completes_example =
    approved_run_completes handlers gates phases phases_known handlers_quiet graph quiet_log
      approving (λ r w. refl) (omega arith) 3 "p1" "standard" 0 (omega arith)
