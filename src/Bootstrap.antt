-- ===== src/Bootstrap.antt =====
-- app/bootstrap.py: the planning run of the program's own next version.
--
-- `decimal` writes a number. The world of the run is an outer world and what the approver has
-- `seen`; a worker changes the outer world or raises.
pub mod Planning
use Prim.Native.String.{◌++◌ as text_append}
use talisman_v.Prelude.{ℕ, String, Option, none, some, List, [], ◌∷◌, ◌++◌, map, length}
use talisman_v.Prelude.Int.{ℤ, pos}
use talisman_v.Prelude.Dict.{Dict}
use talisman_v.Spiral.State.{approve, SpiralState}
use talisman_v.Spiral.Node.{Fault, Result, ok, err, PhaseHandler, run_phase}
use talisman_v.Spiral.Runtime.{CompiledGraph, Outcome, finished, paused, failed}
use talisman_v.Composition.{ApprovalRequest, Approver, LogEvent, run_gated_project}
use talisman_v.Workers.Adapters.{Act, on_ok, ◌>>=◌, pure, WorkerRequest, WorkerResult, Worker}
use talisman_v.ProjectRun.{World}

-- `PROJECT_ID`
abbrev pub project_id : String
project_id = "talisman-v1.1"

-- `V1_1_IMPROVEMENTS`
abbrev pub improvements : List (String × String)
improvements =
    (
      "worker-subprocess-dedup",
      "Extract shared subprocess plumbing from the Claude/Codex worker adapters.",
    )
    ∷ (
      "eventlog-idempotency-ports",
      "Add EventLog and idempotency ports before their first core consumer.",
    )
    ∷ (
      "agent-family-normalize",
      "Normalize unknown agent names (case/whitespace) in review enforcement.",
    )
    ∷ (
      "budget-toctou",
      "Close the budget check-then-record TOCTOU gap if the gateway becomes concurrent.",
    )
    ∷ (
      "egress-squid-reconcile",
      "Reconcile host- vs domain-granular egress allowlists when wiring the proxy.",
    )
    ∷ ("scoped-credentials", "Design host-side scoped/short-lived credential issuance for workers.")
    ∷ (
      "lessons-retrieval", "Build lessons/retrospective retrieval over the existing SQLite tables.",
    )
    ∷ ("live-telegram", "Wire the live Telegram approval bot runtime.")
    ∷ ("live-run", "Full live self-improvement run (real workers, gateway, real spend).")
    ∷ []

-- `PLANNING_PHASES`
abbrev pub planning_phases : List String
planning_phases = "discovery" ∷ "synthesis" ∷ "plan" ∷ "red_team" ∷ "slice_approval" ∷ []

-- `PLANNING_GATES`
abbrev pub planning_gates : List String
planning_gates = "plan" ∷ "slice_approval" ∷ []

-- `_StubWorker.run`
abbrev pub stub_worker : {W : Type 0} → Worker W
stub_worker request = pure (record {
  worker_name = "stub";
  exit_code = pos 0;
  transcript_path = request.prompt_path;
  artifact_paths = [];
  summary = text_append "planned:" request.slice_id;
})

-- `_RecordingApprover`
abbrev pub recording_approver : {V : Type 0} → Approver (World V)
recording_approver request w = (ok approve, (w.0, w.1 ++ request.gate_id ∷ []))

abbrev pub plan_request : SpiralState → WorkerRequest
plan_request state = record {
  project_id = state.project_id;
  slice_id = "v1.1-plan";
  prompt_path = "plan.prompt";
  workspace_path = ".";
  timeout_seconds = 0;
}

abbrev pub planned : {W : Type 0} → WorkerResult → Act W (Option String)
planned result = pure (some (text_append "plan:" result.summary))

module _ {W : Type 0} (decimal : ℕ → String) (worker : Worker W) where
  -- `plan` of `planning_handlers`
  unfoldable pub plan_handler : PhaseHandler W
  plan_handler state = do result ← worker (plan_request state); planned result

  abbrev says : String → PhaseHandler W
  says artifact state = pure (some artifact)

  -- `planning_handlers`
  unfoldable pub planning_handlers : Dict (PhaseHandler W)
  unfolding plan_handler
  planning_handlers =
      (
        "discovery",
        says (text_append "discovery:" (text_append (decimal (length improvements)) "-candidates")),
      )
      ∷ ("synthesis", says "synthesis:grouped-improvements")
      ∷ ("plan", plan_handler)
      ∷ ("red_team", says "red_team:risks-reviewed")
      ∷ []

-- `render_v1_1_backlog`, as its lines
unfoldable pub render_backlog : List String
render_backlog =
    "# TalisMan v1.1 improvement backlog"
    ∷ ""
    ∷ "_Produced by TalisMan's bootstrap self-improvement spiral (slice S14.02)._"
    ∷ ""
    ∷ map
        (λ (entry : String × String).
          text_append "- **" (text_append entry.0 (text_append "** — " entry.1)))
        improvements

pub record SelfImprovementResult : Type 0 where
  pub final_state : SpiralState
  pub gates_fired : List String
  pub backlog_markdown : List String

module _ {V : Type 0} (handlers : Option (Dict (PhaseHandler (World V)))) (gates : List String)
    (graph : CompiledGraph (run_phase handlers gates)) (log : LogEvent → World V → World V) where
  abbrev pub improved : Option (Outcome × World V) → Option (Result SelfImprovementResult × World V)
  improved none = none
  improved (some (finished final, w)) =
      some (
        ok (record { final_state = final; gates_fired = w.1; backlog_markdown = render_backlog }),
        w,
      )
  improved (some (failed e, w)) = some (err e, w)
  improved (some (paused s phase payload, w)) = none

  -- `run_self_improvement_spiral`, on the application of the handlers and the gates
  unfoldable pub run_self_improvement_spiral :
      ℕ → V → Option (Result SelfImprovementResult × World V)
  unfolding render_backlog
  run_self_improvement_spiral fuel v = improved (
      run_gated_project handlers gates graph log recording_approver fuel project_id planning_phases
        "standard" (v, []))
