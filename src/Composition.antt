-- ===== src/Composition.antt =====
-- app/composition.py: `TalismanApp.run_project` and `TalismanApp.run_gated_project` over the
-- spiral graph, the deterministic handlers, and the application's default wiring.

pub mod Session
pub mod Completion
mod Live
pub mod Approved
pub mod Gates
use Prim.Native.String.{◌++◌ as text_append}
use talisman_v.Prelude.{ℕ, zero, suc, String, Option, none, some, List, [], map}
use talisman_v.Prelude.Int.{pos}
use talisman_v.Prelude.Dict.{Dict}
use talisman_v.Spiral.State.{ApprovalDecision, value, SpiralState, spiral_phases}
use talisman_v.Spiral.Node.{Result, ok, err, GateInterruptPayload, text, PhaseHandler, run_phase}
use talisman_v.Spiral.Runtime.{CompiledGraph, Outcome, finished, paused, failed}

-- ports/approval.py
pub record ApprovalRequest : Type 0 where
  pub project_id : String
  pub gate_id : String
  pub message : String
  pub idempotency_key : String

-- An approver reads and changes the world, and may raise.
abbrev pub Approver : Type 0 → Type 0
Approver W = ApprovalRequest → W → Result ApprovalDecision × W

pub data LogEvent : Type 0 where
  project_started gated_project_started : String → List String → LogEvent
  project_finished gated_project_finished : String → List String → List String → LogEvent

-- `default_phase_handlers`
unfoldable pub default_phase_handlers : {W : Type 0} → Dict (PhaseHandler W)
default_phase_handlers =
    map (λ phase. (phase, λ s w. (ok (some (text_append phase (text_append ":" s.project_id))), w)))
      spiral_phases

abbrev pub initial_state : String → List String → String → SpiralState
initial_state project_id phase_sequence tier = record {
  project_id = project_id;
  tier = tier;
  phase_sequence = phase_sequence;
  current_phase = "";
  completed_phases = [];
  pending_gate_id = none;
  last_decision = none;
  artifacts = [];
  escalations_today = pos 0;
}

abbrev pub request_of : GateInterruptPayload → ApprovalRequest
request_of payload = record {
  project_id = payload.project_id;
  gate_id = payload.gate_id;
  message = payload.summary;
  idempotency_key = payload.gate_id;
}

-- What is logged once the graph comes back.
abbrev pub log_finished :
    {W : Type 0} → (LogEvent → W → W) → (SpiralState → LogEvent) → Outcome × W → Outcome × W
log_finished log event (finished s, w) = (finished s, log (event s) w)
log_finished log event (o, w) = (o, w)

abbrev pub log_final :
    {W : Type 0}
    → (LogEvent → W → W)
    → (SpiralState → LogEvent)
    → Option (Outcome × W)
    → Option (Outcome × W)
log_final log event none = none
log_final log event (some final) = some (log_finished log event final)

module _ {W : Type 0} (handlers : Option (Dict (PhaseHandler W))) (gates : List String)
    (graph : CompiledGraph (run_phase handlers gates)) (log : LogEvent → W → W) where
  -- `TalismanApp.run_project`
  unfoldable pub run_project : String → List String → String → W → Outcome × W
  run_project project_id phase_sequence tier w =
      let started = log (project_started project_id phase_sequence) w in
      let final =
        graph.run graph.recursion_limit (initial_state project_id phase_sequence tier) started in
      log_finished log (λ s. project_finished project_id s.completed_phases s.artifacts) final

  -- the resumption with the approver's decision, before the loop goes on
  unfoldable pub after_answer :
      (Outcome → W → Option (Outcome × W))
      → SpiralState
      → String
      → Result ApprovalDecision × W
      → Option (Outcome × W)
  after_answer loop s phase (ok d, w) =
      let (o, w') = graph.resume graph.recursion_limit s phase (text (value d)) w in loop o w'
  after_answer loop s phase (err e, w) = some (failed e, w)

  -- The `while` loop of `run_gated_project`: `none` is a loop that goes on after so many rounds.
  unfoldable pub resolve_gates : Approver W → ℕ → Outcome → W → Option (Outcome × W)
  unfolding after_answer
  resolve_gates approver fuel (finished s) w = some (finished s, w)
  resolve_gates approver fuel (failed e) w = some (failed e, w)
  resolve_gates approver zero (paused s phase payload) w = none
  resolve_gates approver (suc fuel) (paused s phase payload) w =
      after_answer (resolve_gates approver fuel) s phase (approver (request_of payload) w)

  -- `TalismanApp.run_gated_project`
  unfoldable pub run_gated_project :
      Approver W → ℕ → String → List String → String → W → Option (Outcome × W)
  run_gated_project approver fuel project_id phase_sequence tier w =
      let started = log (gated_project_started project_id phase_sequence) w in
      let (o, w') =
        graph.run graph.recursion_limit (initial_state project_id phase_sequence tier) started in
      log_final log (λ s. gated_project_finished project_id s.completed_phases s.artifacts)
        (resolve_gates approver fuel o w')
