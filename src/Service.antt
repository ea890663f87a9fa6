-- ===== src/Service.antt =====
-- main.py: the entry point and the service that it runs.
--
-- argparse, the signals and the clock are the outside: `stopped` says whether SIGTERM or SIGINT
-- has been delivered to the handler. The service waits on the outside and takes fuel; `none` is a
-- service that still runs.
pub mod Stops
pub mod Dispatch
use talisman_v.Prelude.{
  ℕ, zero, suc, String, Bool, true, false, Option, none, some, List, [], ◌∷◌, same, if◌then◌else◌,
}
use talisman_v.Prelude.Int.{ℤ, pos, pos_part, ltb_ℤ}
use talisman_v.Spiral.Node.{Fault, Result, ok, err}
use talisman_v.Spiral.State.{SpiralState}
use talisman_v.ProjectRun.{ProjectRunResult}

-- `max(1, heartbeat_seconds)`
abbrev pub heartbeat : ℤ → ℕ
heartbeat seconds = if ltb_ℤ (pos 1) seconds then pos_part seconds else 1

-- What the entry point logs.
pub data ServiceEvent : Type 0 where
  service_started : ℕ → ServiceEvent
  heartbeat_event service_stopped dry_run_ok : ServiceEvent
  run_complete : List String → ServiceEvent

pub record ServicePorts (W : Type 0) : Type 0 where
  pub log : ServiceEvent → W → W
  pub sleep : ℕ → W → W
  pub stopped : W → Bool

module _ {W : Type 0} (ports : ServicePorts W) where
  -- one round of the `while` loop
  abbrev pub beat : ℕ → W → W
  beat seconds w = ports.sleep seconds (ports.log heartbeat_event w)

  unfoldable pub serve : ℕ → ℕ → W → Option W
  serve zero seconds w = none
  serve (suc fuel) seconds w =
      let rest = serve fuel seconds (beat seconds w) in
      if ports.stopped w then some (ports.log service_stopped w) else rest

  abbrev exited : Option W → Option (ℤ × W)
  exited none = none
  exited (some w) = some (pos 0, w)

  -- `_ServiceRunner.run`
  unfoldable pub run_service : ℕ → ℤ → W → Option (ℤ × W)
  unfolding serve
  run_service fuel seconds w =
      exited (serve fuel (heartbeat seconds) (ports.log (service_started (heartbeat seconds)) w))

-- The arguments of the command line that `main` reads.
pub record Args : Type 0 where
  pub dry_run : Bool
  pub serve : Bool
  pub live_project : Bool
  pub heartbeat_seconds : ℤ
  pub goal : Option String
  pub workspace : Option String
  pub project_id : String
  pub secrets_dir : Option String

-- The arguments of `LiveRunConfig` that the command line gives.
pub record LiveArgs : Type 0 where
  pub goal : String
  pub workspace : String
  pub project_id : String
  pub secrets_dir : Option String

-- The exit of the process: a code, a `SystemExit` with a message, or another exception.
pub data Exit : Type 0 where
  code : ℤ → Exit
  system_exit : String → Exit
  uncaught : Fault → Exit

-- an argument that is given and not empty
abbrev pub given : Option String → Option String
given none = none
given (some text) = if same text "" then none else some text

pub record MainPorts (W : Type 0) : Type 0 where
  pub service : ServicePorts W
  -- `run_live`, and the line that is printed after it
  pub run_live : LiveArgs → W → Option (Result ProjectRunResult × W)
  pub print_complete : String → ProjectRunResult → W → W
  -- `build_application`, and the demo run of the application
  pub build_application : W → W
  pub demo : W → Result SpiralState × W

abbrev pub live_args : Args → Option String → Option String → Option LiveArgs
live_args args none workspace = none
live_args args (some goal) none = none
live_args args (some goal) (some workspace) = some (record {
  goal = goal;
  workspace = workspace;
  project_id = args.project_id;
  secrets_dir = given args.secrets_dir;
})

module _ {W : Type 0} (ports : MainPorts W) where
  abbrev after_live : String → Option (Result ProjectRunResult × W) → Option (Exit × W)
  after_live project_id none = none
  after_live project_id (some (err e, w)) = some (uncaught e, w)
  after_live project_id (some (ok result, w)) =
      some (code (pos 0), ports.print_complete project_id result w)

  abbrev pub with_live_args : Args → Option LiveArgs → W → Option (Exit × W)
  with_live_args args none w =
      some (system_exit "--live-project requires --goal and --workspace", w)
  with_live_args args (some live) w = after_live args.project_id (ports.run_live live w)

  -- `_run_live_project`
  unfoldable pub run_live_project : Args → W → Option (Exit × W)
  run_live_project args =
      with_live_args args (live_args args (given args.goal) (given args.workspace))

  abbrev as_exit : Option (ℤ × W) → Option (Exit × W)
  as_exit none = none
  as_exit (some (n, w)) = some (code n, w)

  abbrev after_demo : Result SpiralState × W → Option (Exit × W)
  after_demo (err e, w) = some (uncaught e, w)
  after_demo (ok final, w) =
      some (code (pos 0), ports.service.log (run_complete final.completed_phases) w)

  -- `main`, of the parsed arguments
  unfoldable pub main : ℕ → Args → W → Option (Exit × W)
  unfolding run_live_project run_service
  main fuel args w =
      if args.live_project
      then run_live_project args w
      else (let w' = ports.build_application w in
          if args.dry_run
          then some (code (pos 0), ports.service.log dry_run_ok w')
          else if args.serve
          then as_exit (run_service ports.service fuel args.heartbeat_seconds w')
          else after_demo (ports.demo w'))
