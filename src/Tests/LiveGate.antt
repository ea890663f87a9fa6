-- ===== src/Tests/LiveGate.antt =====
-- The live run of app/live_entrypoint.py on a concrete input: the operator rejects the first gate.
use talisman_v.Prelude.{String, ◌≡◌, refl, false, Option, none, some, List, [], ◌∷◌, arith, has}
use talisman_v.Prelude.Int.{pos}
use talisman_v.Prelude.Dict.{Dict}
use talisman_v.Prelude.Raises.{returns}
use talisman_v.Spiral.State.{spiral_phases, reject, next_active_phase, first_uncompleted}
use talisman_v.Spiral.Node.{
  Result, ok, PhaseHandler, run_phase, record_phase_artifact, complete_phase, gate_id, gate_payload,
  coerce_approval_decision, decision_update,
}
use talisman_v.Spiral.Runtime.{CompiledGraph, overwrite}
use talisman_v.Spiral.Reference.{reference}
use talisman_v.Composition.{run_gated_project, resolve_gates}
use talisman_v.ProjectRun.{ProjectRunResult, World, RunPorts, run_project_spec}
use talisman_v.Workers.Adapters.{universal_newlines, newlines_after, Disk, CommandRunner, claude}
use talisman_v.Prelude.Dict.{get}
use talisman_v.Prompts.{phase_tasks, build_phase_prompt}
use talisman_v.ProjectRun.{generate_retrospective, all_among}
use talisman_v.Workers.Adapters.{claude_code_run, run_in_container}
use talisman_v.LiveRun.{live_phase_handlers, live_handler, run_live_project}
use talisman_v.LiveEntry.{
  telegram_approver, LiveRunConfig, EntryPorts, build_live_spec, build_live_worker,
  build_live_approver, run_live,
}
use talisman_v.LiveEntry.Gates.{live_gate_holds}

-- The world is the last text that was written; reading gives it.
abbrev written : String → World String → Result (Unit {0}) × World String
written text w = (ok tt, (text, w.1))

abbrev seen_text : World String → Result String × World String
seen_text w = (ok (universal_newlines w.0), w)

last_written :
    (path text : String) (w w' : World String)
    → written text w ≡ (ok tt, w')
    → seen_text w' ≡ (ok (universal_newlines text), w')
last_written path text w w' e = cc

abbrev disk : Disk (World String)
disk = record {
  read_text = λ path. seen_text;
  write_text = λ path. written;
  read-write = last_written;
}

abbrev host_runner : CommandRunner (World String)
host_runner args cwd seconds stdin_text w = (ok (record { exit_code = pos 0; stdout = "done" }), w)

-- the operator rejects
abbrev entry : EntryPorts String Unit
entry = record {
  mkdir = λ path v. (ok tt, v);
  read_text = λ path v. (ok "7", v);
  strip = λ s. s;
  to_int = λ s v. (ok (pos 7), v);
  httpx = record {
    send = λ method url payload timeout w. (returns tt, w);
    raise_for_status = λ response. returns tt;
    updates_of = λ response. returns [];
  };
  shown = λ e. "error";
  sleep = λ w. w;
  strip_codes = λ s. s;
  lower_codes = λ s. s;
  block = λ a request w. (ok reject, w);
}

abbrev ports : RunPorts String
ports = record {
  retrieve_lessons = λ query w. (ok [], w);
  log_surfaced = λ project ids w. w;
  dump = λ project phases e w. (returns [], w);
  decimal = λ n. "5";
}

abbrev config : LiveRunConfig
config = record {
  goal = "a parser";
  workspace = "/work";
  project_id = "live";
  secrets_dir = "/secrets";
  worker_image = "talisman/worker:latest";
  network = "talisman-internal";
  gateway_host = "talisman-gateway";
  family = claude;
}

compile :
    (handlers : Option (Dict (PhaseHandler (World String)))) (gates : List String)
    → CompiledGraph (run_phase handlers gates)
unfolding reference
compile handlers gates = reference (run_phase handlers gates) 25 (omega arith)

abbrev rejected_result : ProjectRunResult
rejected_result = record {
  final_state = record {
    project_id = "live";
    tier = "standard";
    phase_sequence = spiral_phases;
    current_phase = "slice_approval";
    completed_phases = "interview" ∷ "discovery" ∷ "synthesis" ∷ "plan" ∷ "red_team" ∷ [];
    pending_gate_id = none;
    last_decision = some "reject";
    artifacts = "done" ∷ "done" ∷ "done" ∷ "done" ∷ "done" ∷ "done" ∷ [];
    escalations_today = pos 0;
  };
  gates_fired = [];
  retrospective =
      "# Retrospective — live" ∷ "" ∷ "- Outcome: incomplete" ∷ "- Tier: standard"
      ∷ "- Phases completed: interview, discovery, synthesis, plan, red_team"
      ∷ "- Gates fired: (none)" ∷ "- Artifacts produced: 5" ∷ [];
  surfaced_lessons = [];
}

rejected_run :
    run_live entry ports disk
      (λ codes. "prompt")
      (λ n. "0")
      (λ n. "8800")
      (λ env. env)
      host_runner
      compile
      (λ e w. w)
      9
      config
      "seed"
    ≡ some (ok rejected_result, ("done", []))
unfolding run_live compile run_phase record_phase_artifact run_gated_project resolve_gates
    next_active_phase first_uncompleted overwrite has complete_phase gate_id gate_payload
    coerce_approval_decision decision_update build_live_spec build_live_approver run_live_project
    run_project_spec live_phase_handlers live_handler build_phase_prompt phase_tasks get
    build_live_worker claude_code_run run_in_container newlines_after generate_retrospective
    all_among
rejected_run = refl

live_gate_holds_example : has "slice_approval" rejected_result.final_state.completed_phases ≡ false
unfolding has build_live_approver
live_gate_holds_example =
    live_gate_holds entry ports disk (λ codes. "prompt") (λ n. "0") (λ n. "8800") (λ env. env)
      host_runner compile (λ e w. w) 9 config "seed" "seed" "slice_approval"
      (telegram_approver entry "7" (pos 7)) rejected_result ("done", []) refl refl
      (λ r w w' h e. cc) rejected_run
