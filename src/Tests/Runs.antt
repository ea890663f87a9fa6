-- ===== src/Tests/Runs.antt =====
-- Runs of app/project_run.py, app/live_run.py, app/live_entrypoint.py and app/bootstrap.py on
-- concrete inputs. The outer world is the files of a disk.
use talisman_v.Prelude.{
  map, ℕ, String, ◌≡◌, refl, ap, true, false, Option, none, some, List, [], ◌∷◌, arith, has,
  same_iff, same_refl,
}
use mathlib.Core.Path.{subst}
use talisman_v.Prelude.Int.{ℤ, pos}
use talisman_v.Prelude.Dict.{Dict, get, put, get-put}
use talisman_v.Prelude.Raises.{returns, raises}
use talisman_v.Spiral.State.{SpiralState, spiral_phases}
use talisman_v.Spiral.Node.{handler_error, Result, ok, err, PhaseHandler, run_phase}
use talisman_v.Spiral.Runtime.{CompiledGraph}
use talisman_v.Spiral.Reference.{reference}
use talisman_v.Composition.{initial_state, LogEvent}
use talisman_v.Workers.{LiveWorkerConfig, keyless_gateway_env}
use talisman_v.Workers.Podman.{podman_run, assignment, is_option}
use talisman_v.Workers.Adapters.{
  universal_newlines, newlines_after, Disk, CommandRunner, Worker, codex,
  build_containerized_worker,
}
use talisman_v.Spiral.Order.{remaining}
use talisman_v.LiveRun.{live_handler, run_live_project}
use talisman_v.LiveRun.Governed.{live_run_completes}
use talisman_v.LiveRun.Handler.{phase_by, live_phase_by_command}
use talisman_v.ProjectRun.{ProjectSpec, ProjectRunResult, World, RunPorts, RunApprover}
use talisman_v.LiveRun.{live_phase_handlers}
use talisman_v.Spiral.State.{next_active_phase, first_uncompleted}
use talisman_v.Spiral.Node.{
  record_phase_artifact, complete_phase, gate_id, gate_payload, coerce_approval_decision,
  decision_update,
}
use talisman_v.Spiral.Runtime.{overwrite}
use talisman_v.Composition.{run_gated_project, resolve_gates}
use talisman_v.ProjectRun.{
  run_project_spec, surface_lessons_at_intake, result_of, generate_retrospective,
}
use talisman_v.ProjectRun.{approve_all}
use talisman_v.ProjectRun.Reported.{gate_ids}
use talisman_v.ProjectRun.Fired.{fired_gates, asked_gates_unreported}
use talisman_v.ProjectRun.Outcomes.{answer, dump_never_masks}

abbrev Files : Type 0
Files = Dict String

abbrev found : Option String → World Files → Result String × World Files
found none w = (err (handler_error "FileNotFoundError"), w)
found (some text) w = (ok (universal_newlines text), w)

abbrev disk : Disk (World Files)
disk = record {
  read_text = λ path w. found (get w.0 path) w;
  write_text = λ path text w. (ok tt, (put w.0 path text, w.1));
  read-write = λ path text w w' e.
      let e' : (put w.0 path text, w.1) ≡ w' = ap (λ r. r.1) e in
      subst (λ x. found (get x.0 path) x ≡ (ok (universal_newlines text), x)) e'
        (rw (get-put w.0 path path text, same_refl path) refl);
}

-- a host whose commands print a verdict and fail
abbrev host_runner : CommandRunner (World Files)
host_runner args cwd seconds stdin_text w =
    (ok (record { exit_code = pos 1; stdout = "verdict" }), w)

abbrev decimal : ℤ → String
decimal n = "1"

abbrev port_text : ℕ → String
port_text n = "8800"

abbrev unsorted : Dict String → Dict String
unsorted env = env

abbrev as_prompt : List ℕ → String
as_prompt codes = "prompt"

abbrev config : LiveWorkerConfig
config = record {
  image = "talisman/worker:latest";
  network = "talisman-internal";
  gateway_host = "talisman-gateway";
  anthropic_port = 8800;
  openai_port = 8801;
}

abbrev worker : Worker (World Files)
worker = build_containerized_worker disk decimal port_text unsorted config codex host_runner

abbrev spec : ProjectSpec
spec = record {
  project_id = "p1";
  phases = "interview" ∷ "plan" ∷ [];
  gate_phases = "plan" ∷ [];
  tier = "standard";
  domain_tags = [];
  goal = "a parser";
}

spec_known : (p : String) → has p spec.phases ≡ true → has p spiral_phases ≡ true
unfolding has
spec_known p h = ground (arith, same_iff p "interview", same_iff p "plan")

abbrev quiet_log : LogEvent → World Files → World Files
quiet_log e w = w

abbrev ports : RunPorts Files
ports = record {
  retrieve_lessons = λ query w. (ok [], w);
  log_surfaced = λ project ids w. w;
  dump = λ project phases e w. (returns [], w);
  decimal = port_text;
}

abbrev live_handlers : Option (Dict (PhaseHandler (World Files)))
live_handlers = some (live_phase_handlers disk as_prompt spec.goal worker "/work" spec.phases)

live_graph : CompiledGraph (run_phase live_handlers spec.gate_phases)
unfolding reference
live_graph = reference (run_phase live_handlers spec.gate_phases) 25 (omega arith)

live_run_completes_example :
    (result : ProjectRunResult) × (w : World Files) × (run_live_project ports disk as_prompt worker
        "/work" spec live_graph quiet_log 2 none []
      ≡ some (ok result, w))
    × (result.final_state.completed_phases ≡ remaining [] spec.phases)
unfolding live_graph
live_run_completes_example =
    live_run_completes ports disk as_prompt decimal port_text unsorted config codex host_runner
      "/work" spec (λ path content w. (tt, _, refl)) (λ args cwd seconds stdin_text w. (_, w, refl))
      spec_known live_graph quiet_log 2 [] (omega arith) (omega arith)

abbrev plan_state : SpiralState
plan_state = initial_state "p1" ("interview" ∷ "plan" ∷ []) "standard"

live_phase_by_command_example :
    (command : List String → List String) × ((args : List String)
      → podman_run (command args)
        ≡ some (record {
          network = some "talisman-internal";
          http_proxy = false;
          env = map assignment (keyless_gateway_env port_text config);
          volumes = "/work:/work:Z" ∷ [];
          workdir = some "/work";
          image = "talisman/worker:latest";
          command = args;
        }))
    × (live_handler disk as_prompt "a parser" worker "/work" "plan" plan_state ([], [])
        ≡ phase_by disk as_prompt decimal port_text unsorted config codex host_runner "a parser"
            "/work" "plan" plan_state command
            ([], []))
live_phase_by_command_example =
    live_phase_by_command disk as_prompt decimal port_text unsorted config codex host_runner
      "a parser" "/work" "plan" plan_state ([], []) (unfold is_option in refl)

-- a goal with the line ends of another system is read with line feeds
read_back : (disk.read_text "goal" (("goal", "a\r\nb\rc") ∷ [], [])).0 ≡ ok "a\nb\nc"
unfolding get newlines_after
read_back = refl

abbrev no_handlers : Option (Dict (PhaseHandler (World Files)))
no_handlers = none

plain_graph : CompiledGraph (run_phase no_handlers spec.gate_phases)
unfolding reference
plain_graph = reference (run_phase no_handlers spec.gate_phases) 25 (omega arith)

abbrev failing : Option (Dict (PhaseHandler (World Files)))
failing = some (("plan", λ s w. (err (handler_error "no worker"), w)) ∷ [])

failing_graph : CompiledGraph (run_phase failing spec.gate_phases)
unfolding reference
failing_graph = reference (run_phase failing spec.gate_phases) 25 (omega arith)

failing_run :
    run_project_spec ports failing spec.gate_phases failing_graph quiet_log 2 spec none false []
    ≡ some (err (handler_error "no worker"), ([], []))
unfolding run_project_spec failing_graph run_phase record_phase_artifact run_gated_project
    resolve_gates next_active_phase first_uncompleted overwrite has get complete_phase gate_id
failing_run = refl

dump_never_masks_example :
    answer (
      run_project_spec
        (record ports {
          dump = λ project phases e w. (raises "disk full", (("dump", "lost") ∷ w.0, w.1));
        })
        failing
        spec.gate_phases
        failing_graph
        quiet_log
        2
        spec
        none
        false
        [])
    ≡ answer (
        run_project_spec ports failing spec.gate_phases failing_graph quiet_log 2 spec none false
          [])
dump_never_masks_example =
    dump_never_masks ports failing spec.gate_phases failing_graph quiet_log 2 spec
      (λ project phases e w. (raises "disk full", (("dump", "lost") ∷ w.0, w.1))) none false []

abbrev unrecorded : RunApprover Files
unrecorded = record { request_approval = approve_all.request_approval; seen = none }

abbrev approved_result : ProjectRunResult
approved_result =
    result_of ports spec unrecorded []
      (record {
        project_id = "p1";
        tier = "standard";
        phase_sequence = "interview" ∷ "plan" ∷ [];
        current_phase = "plan";
        completed_phases = "interview" ∷ "plan" ∷ [];
        pending_gate_id = none;
        last_decision = some "approve";
        artifacts = [];
        escalations_today = pos 0;
      })
      ([], "p1:plan" ∷ [])

unrecorded_run :
    run_project_spec ports no_handlers spec.gate_phases plain_graph quiet_log 2 spec
      (some unrecorded)
      true
      []
    ≡ some (ok approved_result, ([], "p1:plan" ∷ []))
unfolding run_project_spec surface_lessons_at_intake plain_graph run_phase record_phase_artifact
    run_gated_project resolve_gates next_active_phase first_uncompleted overwrite has get
    complete_phase gate_id gate_payload coerce_approval_decision decision_update
unrecorded_run = refl

asked_gates_unreported_example :
    ("p1:plan" ∷ [] ≡ gate_ids spec.gate_phases "p1" ("interview" ∷ "plan" ∷ []))
    × (approved_result.gates_fired ≡ [])
    × (approved_result.retrospective
        ≡ generate_retrospective ports.decimal spec approved_result.final_state [])
unfolding record_phase_artifact
asked_gates_unreported_example =
    asked_gates_unreported no_handlers spec.gate_phases plain_graph quiet_log 2 (λ p s w. refl)
      (λ e w. refl) ports (λ query w. refl) (λ project lessons w. refl) spec true [] approved_result
      ([], "p1:plan" ∷ []) unrecorded_run

abbrev recorded_result : ProjectRunResult
recorded_result =
    result_of ports spec approve_all [] approved_result.final_state ([], "p1:plan" ∷ [])

approved_run :
    run_project_spec ports no_handlers spec.gate_phases plain_graph quiet_log 2 spec none true []
    ≡ some (ok recorded_result, ([], "p1:plan" ∷ []))
unfolding run_project_spec surface_lessons_at_intake plain_graph run_phase record_phase_artifact
    run_gated_project resolve_gates next_active_phase first_uncompleted overwrite has get
    complete_phase gate_id gate_payload coerce_approval_decision decision_update
approved_run = refl

fired_gates_example : recorded_result.gates_fired ≡ "p1:plan" ∷ []
unfolding gate_ids has gate_id record_phase_artifact
fired_gates_example =
    fired_gates no_handlers spec.gate_phases plain_graph quiet_log 2 (λ p s w. refl) (λ e w. refl)
      ports (λ query w. refl) (λ project lessons w. refl) spec true [] recorded_result
      ([], "p1:plan" ∷ []) approved_run
