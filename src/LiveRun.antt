-- ===== src/LiveRun.antt =====
-- app/live_run.py: a project whose phases are worked by a worker.
--
-- `text` is the text of a list of code points. The workspace is the directory's `str`.
pub mod Handler
pub mod Governed
use Prim.Native.String.{◌++◌ as text_append}
use talisman_v.Prelude.{ℕ, String, false, Option, none, some, List, [], ◌∷◌, map}
use talisman_v.Prelude.Dict.{Dict}
use talisman_v.Prelude.Codes.{code_points}
use talisman_v.Prelude.Raises.{Raises, returns, raises}
use talisman_v.Spiral.State.{SpiralState}
use talisman_v.Spiral.Node.{Result, ok, err, Fault, PhaseHandler, run_phase}
use talisman_v.Spiral.Runtime.{CompiledGraph}
use talisman_v.Composition.{LogEvent}
use talisman_v.Prompts.{PromptError, default_context_budget, build_phase_prompt}
use talisman_v.ProjectRun.{
  ProjectSpec, ProjectRunResult, World, RunApprover, RunPorts, run_project_spec,
}
use talisman_v.Workers.Adapters.{
  Act, on_ok, ◌>>=◌, pure, Disk, in_directory, WorkerRequest, WorkerResult, Worker,
}

-- `PHASE_TIMEOUT_SECONDS`
abbrev pub phase_timeout_seconds : ℕ
phase_timeout_seconds = 1800

-- a `ValueError` of the prompt, as an exception of the run
abbrev pub prompt_text :
    {W : Type 0} → (List ℕ → String) → Raises PromptError (List ℕ) → Act W String
prompt_text text (returns prompt) w = (ok (text prompt), w)
prompt_text text (raises e) w = (err Fault.value_error, w)

abbrev pub prompt_path : String → String → String
prompt_path workspace phase = in_directory workspace (text_append phase ".prompt.md")

abbrev pub phase_request : String → String → SpiralState → WorkerRequest
phase_request workspace phase state = record {
  project_id = state.project_id;
  slice_id = phase;
  prompt_path = prompt_path workspace phase;
  workspace_path = workspace;
  timeout_seconds = phase_timeout_seconds;
}

module _ {W : Type 0} (disk : Disk W) (text : List ℕ → String) (goal : String) (worker : Worker W)
    (workspace : String) where
  -- `handler`, which `make_handler` makes
  unfoldable pub live_handler : String → PhaseHandler W
  unfolding build_phase_prompt
  live_handler phase state = do
    prompt ← prompt_text text (
        build_phase_prompt phase (code_points goal) (map code_points state.artifacts)
          default_context_budget)
    _ ← disk.write_text (prompt_path workspace phase) prompt
    result ← worker (phase_request workspace phase state)
    transcript ← disk.read_text result.transcript_path
    pure (some transcript)

  -- `live_phase_handlers`, whose keys are distinct where the phases are
  unfoldable pub live_phase_handlers : List String → Dict (PhaseHandler W)
  unfolding live_handler
  live_phase_handlers [] = []
  live_phase_handlers (phase ∷ phases) = (phase, live_handler phase) ∷ live_phase_handlers phases

-- `run_live_project`, for the gates of the graph that is built from the spec and the handlers
unfoldable pub run_live_project :
    {V : Type 0} (ports : RunPorts V) (disk : Disk (World V)) (text : List ℕ → String)
    (worker : Worker (World V)) (workspace : String) (spec : ProjectSpec)
    → CompiledGraph (
        run_phase
          (some (live_phase_handlers disk text spec.goal worker workspace spec.phases))
          spec.gate_phases)
    → (LogEvent → World V → World V)
    → ℕ
    → Option (RunApprover V)
    → V
    → Option (Result ProjectRunResult × World V)
unfolding run_project_spec live_phase_handlers
run_live_project ports disk text worker workspace spec graph log fuel approver v =
    run_project_spec ports
      (some (live_phase_handlers disk text spec.goal worker workspace spec.phases)) spec.gate_phases
      graph log fuel spec approver false v
