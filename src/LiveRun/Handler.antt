-- ===== src/LiveRun/Handler.antt =====
-- A phase of app/live_run.py, as the command that its worker has the host run.
use Prim.Native.String.{◌++◌ as text_append}
use talisman_v.Prelude.{false, ℕ, String, ◌≡◌, refl, Option, none, some, List, [], ◌∷◌, map}
use talisman_v.Prelude.Int.{ℤ}
use talisman_v.Prelude.Dict.{Dict}
use talisman_v.Prelude.Codes.{code_points}
use talisman_v.Spiral.State.{SpiralState}
use talisman_v.Spiral.Node.{Result, ok, err}
use talisman_v.Prompts.{default_context_budget, build_phase_prompt}
use talisman_v.Workers.{LiveWorkerConfig, build_command, containerized_runner, keyless_gateway_env}
use talisman_v.Workers.Adapters.{
  Act, on_ok, ◌>>=◌, pure, Disk, WorkerResult, CommandResult, CommandRunner, WorkerFamily, claude,
  codex, run_in_container, family_run, claude_code_run, codex_cli_run, transcript_path,
  build_containerized_worker, universal_newlines,
}
use talisman_v.Workers.Podman.{podman_run, is_option, assignment, podman_run-build_command}
use talisman_v.LiveRun.{
  prompt_path, phase_request, phase_timeout_seconds, prompt_text, live_handler,
}

-- The arguments and the standard input of a worker's command, for a prompt.
abbrev pub invocation : WorkerFamily → String → List String × Option String
invocation claude prompt = ("claude" ∷ "-p" ∷ prompt ∷ [], none)
invocation codex prompt = ("codex" ∷ "exec" ∷ "--skip-git-repo-check" ∷ "-" ∷ [], some prompt)

module _ {W : Type 0} (disk : Disk W) where
  -- a handler's last steps: the worker's transcript is its artifact
  abbrev as_artifact : Result WorkerResult × W → Result (Option String) × W
  as_artifact = on_ok (λ (result : WorkerResult). do
    transcript ← disk.read_text result.transcript_path
    pure (some transcript))

  -- a transcript that was just written is read
  transcript_artifact :
      (result : WorkerResult) (stdout : String) (r : Result (Unit {0}) × W) (w : W)
      → disk.write_text result.transcript_path stdout w ≡ r
      → as_artifact (on_ok (λ _. pure result) r)
        ≡ on_ok (λ _. pure (some (universal_newlines stdout))) r
  transcript_artifact result stdout (err e, w') w h = refl
  transcript_artifact result stdout (ok tt, w') w h =
      rw (disk.read-write result.transcript_path stdout w w' h) refl

module _ {W : Type 0} (disk : Disk W) (runner : CommandRunner W) (workspace phase : String)
    (state : SpiralState) where
  abbrev transcript : String
  transcript = transcript_path (phase_request workspace phase state)

  -- the command of a worker, whose output is written and is the artifact
  abbrev pub by_command : List String × Option String → Act W (Option String)
  by_command (args, stdin_text) = do
    result ← runner args workspace phase_timeout_seconds stdin_text
    _ ← disk.write_text transcript result.stdout
    pure (some (universal_newlines result.stdout))

  abbrev with_summary : String → (CommandResult → String) → CommandResult → WorkerResult
  with_summary worker_name summary c = record {
    worker_name = worker_name;
    exit_code = c.exit_code;
    transcript_path = transcript;
    artifact_paths = transcript ∷ [];
    summary = summary c;
  }

  command_artifact :
      (name : String) (summary : CommandResult → String) (r : Result CommandResult × W)
      → as_artifact disk (
          on_ok
            (λ (c : CommandResult). do
              _ ← disk.write_text transcript c.stdout
              pure (with_summary name summary c))
            r)
        ≡ on_ok
            (λ (c : CommandResult). do
              _ ← disk.write_text transcript c.stdout
              pure (some (universal_newlines c.stdout)))
            r
  command_artifact name summary (err e, w) = refl
  command_artifact name summary (ok c, w) =
      transcript_artifact disk (with_summary name summary c) c.stdout
        (disk.write_text transcript c.stdout w) w refl

  -- a worker that finds the prompt is its command
  worker_by_command :
      (decimal : ℤ → String) (family : WorkerFamily) (prompt : String) (w : W)
      → disk.read_text (prompt_path workspace phase) w ≡ (ok prompt, w)
      → as_artifact disk
          (family_run disk decimal family runner (phase_request workspace phase state) w)
        ≡ by_command (invocation family prompt) w
  unfolding claude_code_run codex_cli_run
  worker_by_command decimal claude prompt w h = rw h (command_artifact _ _ _)
  worker_by_command decimal codex prompt w h = rw h (command_artifact _ _ _)

  after_prompt :
      (decimal : ℤ → String) (family : WorkerFamily) (prompt : String) (r : Result (Unit {0}) × W)
      (w : W)
      → disk.write_text (prompt_path workspace phase) prompt w ≡ r
      → on_ok
          (λ _ w1.
            as_artifact disk
              (family_run disk decimal family runner (phase_request workspace phase state) w1))
          r
        ≡ on_ok (λ _. by_command (invocation family (universal_newlines prompt))) r
  after_prompt decimal family prompt (err e, w') w h = refl
  after_prompt decimal family prompt (ok tt, w') w h =
      worker_by_command decimal family (universal_newlines prompt) w'
        (disk.read-write _ prompt w w' h)

module _ {W : Type 0} (disk : Disk W) (text : List ℕ → String) (decimal : ℤ → String)
    (port_text : ℕ → String) (sorted : Dict String → Dict String) (config : LiveWorkerConfig)
    (family : WorkerFamily) (host_runner : CommandRunner W) (goal workspace phase : String)
    (state : SpiralState) where
  -- a phase whose worker's command the host runs through a command line
  abbrev pub phase_by : (List String → List String) → Act W (Option String)
  phase_by command = do
    prompt ← prompt_text text (
        build_phase_prompt phase (code_points goal) (map code_points state.artifacts)
          default_context_budget)
    _ ← disk.write_text (prompt_path workspace phase) prompt
    by_command disk (λ args. host_runner (command args)) workspace phase state
        (invocation family (universal_newlines prompt))

  in_container : CommandRunner W
  unfolding run_in_container
  in_container args cwd =
      host_runner (build_command sorted (containerized_runner port_text config) args cwd) cwd

  handled :
      (r : Result String × W)
      → on_ok
          (λ prompt w'.
            on_ok
              (λ _ w1. as_artifact disk (
                family_run disk decimal family in_container
                  (phase_request workspace phase state)
                  w1))
              (disk.write_text (prompt_path workspace phase) prompt w'))
          r
        ≡ on_ok
            (λ prompt. do
              _ ← disk.write_text (prompt_path workspace phase) prompt
              by_command disk in_container workspace phase state
                  (invocation family (universal_newlines prompt)))
            r
  handled (err e, w') = refl
  handled (ok prompt, w') =
      after_prompt disk in_container workspace phase state decimal family prompt _ w' refl

  pub live_phase_in_container :
      (w : W)
      → live_handler disk text goal
          (build_containerized_worker disk decimal port_text sorted config family host_runner)
          workspace
          phase
          state
          w
        ≡ phase_by
            (λ args. build_command sorted (containerized_runner port_text config) args workspace)
            w
  unfolding live_handler build_containerized_worker run_in_container in_container
      containerized_runner
  live_phase_in_container w = handled (
      prompt_text text
        (build_phase_prompt phase (code_points goal) (map code_points state.artifacts)
          default_context_budget)
        w)

  -- A phase that a container's worker works, in every case: its prompt is built and written, or its
  -- error raised; then the host runs a command line for the worker's command, in the workspace with
  -- the timeout of a phase, and what the command printed is written as the transcript and is the
  -- phase's artifact, whatever its exit code; prompt and artifact are as text mode reads them. An
  -- exception of a step is raised, and no later step runs. Read as podman reads it, the command
  -- line runs the worker's command in a container of the configured image and network, with no
  -- proxy variable of the host, the gateway's keyless variables and no others, and the workspace as
  -- its only volume and its directory. (An image's name begins with no dash.)
  pub live_phase_by_command :
      (w : W)
      → is_option config.image ≡ false
      → (command : List String → List String) × ((args : List String)
          → podman_run (command args)
            ≡ some (record {
              network = some config.network;
              http_proxy = false;
              env = map assignment (sorted (keyless_gateway_env port_text config));
              volumes = text_append workspace (text_append ":" (text_append workspace ":Z")) ∷ [];
              workdir = some workspace;
              image = config.image;
              command = args;
            }))
        × (live_handler disk text goal
              (build_containerized_worker disk decimal port_text sorted config family host_runner)
              workspace
              phase
              state
              w
            ≡ phase_by command w)
  unfolding containerized_runner
  live_phase_by_command w h = (
    λ args. build_command sorted (containerized_runner port_text config) args workspace,
    λ args.
        podman_run-build_command sorted (containerized_runner port_text config) args workspace refl
          h,
    live_phase_in_container w,
  )
