-- ===== src/Workers/Adapters.antt =====
-- workers/claude_code.py, workers/codex_cli.py, workers/_subprocess.py and ports/worker.py, the call of
-- workers/_container.py, and `build_containerized_worker` of app/live_workers.py.
--
-- A call changes the world and returns or raises. The disk, `subprocess.run`, `os.environ` and
-- `str` on a number are parameters; a text in a file is UTF-8.
use Prim.Native.Char.{code}
use Prim.Native.String.{◌++◌ as text_append, [] as end, ◌∷◌ as char_then}
use talisman_v.Prelude.{
  ℕ, String, ◌≡◌, Bool, false, ◌&&◌, ◌==◌, Option, none, some, List, [], ◌∷◌, if◌then◌else◌,
}
use talisman_v.Prelude.Int.{ℤ}
use talisman_v.Prelude.Dict.{Dict}
use talisman_v.Spiral.Node.{Result, ok, err}
use talisman_v.Workers.{
  default_scrubbed_vars, scrub_environment, LiveWorkerConfig, ContainerRunner, build_command,
  containerized_runner,
}

abbrev pub Act : Type 0 → Type 0 → Type 0
Act W A = W → Result A × W

abbrev pub on_ok : {W A B : Type 0} → (A → Act W B) → Result A × W → Result B × W
on_ok f (ok x, w) = f x w
on_ok f (err e, w) = (err e, w)

infixl 5 ◌>>=◌
abbrev pub ◌>>=◌ : {W A B : Type 0} → Act W A → (A → Act W B) → Act W B
(m >>= f) w = on_ok f (m w)

abbrev pub pure : {W A : Type 0} → A → Act W A
pure x w = (ok x, w)

-- Python's universal newlines: a carriage return, with the line feed after it if there is one, is
-- read as a line feed. (The flag says whether the character before was a carriage return.)
unfoldable pub newlines_after : Bool → String → String
newlines_after returned end = end
newlines_after returned (char_then c s) =
    let rest = newlines_after (code c == 13) s in
    if code c == 13
    then text_append "\n" rest
    else if returned && code c == 10
    then rest
    else char_then c rest

abbrev pub universal_newlines : String → String
universal_newlines = newlines_after false

-- `Path.read_text` and `Path.write_text`, in text mode where the line end is a line feed: a text
-- that was written is read with universal newlines.
pub record Disk (W : Type 0) : Type 0 where
  pub read_text : String → Act W String
  pub write_text : String → String → Act W (Unit {0})
  pub read-write :
      (path text : String) (w w' : W)
      → write_text path text w ≡ (ok tt, w')
      → read_text path w' ≡ (ok (universal_newlines text), w')

-- `directory / name`
abbrev pub in_directory : String → String → String
in_directory directory name = text_append directory (text_append "/" name)

pub record WorkerRequest : Type 0 where
  pub project_id : String
  pub slice_id : String
  pub prompt_path : String
  pub workspace_path : String
  pub timeout_seconds : ℕ

pub record WorkerResult : Type 0 where
  pub worker_name : String
  pub exit_code : ℤ
  pub transcript_path : String
  pub artifact_paths : List String
  pub summary : String

-- `WorkerPort.run`
abbrev pub Worker : Type 0 → Type 0
Worker W = WorkerRequest → Act W WorkerResult

pub record CommandResult : Type 0 where
  pub exit_code : ℤ
  pub stdout : String

-- the arguments, the directory, the timeout and the standard input
abbrev pub CommandRunner : Type 0 → Type 0
CommandRunner W = List String → String → ℕ → Option String → Act W CommandResult

-- `default_runner`, for the environment of the process and `subprocess.run` with that environment
unfoldable pub default_runner :
    {W : Type 0} → (W → Dict String) → (Dict String → CommandRunner W) → CommandRunner W
default_runner environ subprocess_run args cwd timeout_seconds stdin_text w =
    subprocess_run (scrub_environment (environ w) default_scrubbed_vars) args cwd timeout_seconds
      stdin_text w

-- `ContainerRunner.__call__`
unfoldable pub run_in_container :
    {W : Type 0} → (Dict String → Dict String) → ContainerRunner → CommandRunner W → CommandRunner W
unfolding build_command
run_in_container sorted self host_runner args cwd timeout_seconds stdin_text =
    host_runner (build_command sorted self args cwd) cwd timeout_seconds stdin_text

abbrev pub transcript_path : WorkerRequest → String
transcript_path request =
    in_directory request.workspace_path (text_append request.slice_id ".transcript.txt")

module _ {W : Type 0} (disk : Disk W) (decimal : ℤ → String) (runner : CommandRunner W) where
  -- the end of `run`: the transcript and the result
  abbrev recorded : String → String → WorkerRequest → CommandResult → Act W WorkerResult
  recorded worker_name label request result = do
    _ ← disk.write_text (transcript_path request) result.stdout
    pure (record {
      worker_name = worker_name;
      exit_code = result.exit_code;
      transcript_path = transcript_path request;
      artifact_paths = transcript_path request ∷ [];
      summary = text_append label (
          text_append " worker finished slice " (
            text_append request.slice_id
              (text_append " with exit code " (text_append (decimal result.exit_code) "."))));
    })

  -- `ClaudeCodeWorker.run`
  unfoldable pub claude_code_run : Worker W
  claude_code_run request = do
    prompt ← disk.read_text request.prompt_path
    result ←
        runner ("claude" ∷ "-p" ∷ prompt ∷ []) request.workspace_path request.timeout_seconds none
    recorded "claude_code" "Claude Code" request result

  -- `CodexCliWorker.run`
  unfoldable pub codex_cli_run : Worker W
  codex_cli_run request = do
    prompt ← disk.read_text request.prompt_path
    result ←
        runner ("codex" ∷ "exec" ∷ "--skip-git-repo-check" ∷ "-" ∷ []) request.workspace_path
          request.timeout_seconds (some prompt)
    recorded "codex_cli" "Codex CLI" request result

pub data WorkerFamily : Type 0 where
  claude codex : WorkerFamily

-- the adapter of a family, with its runner
abbrev pub family_run :
    {W : Type 0} → Disk W → (ℤ → String) → WorkerFamily → CommandRunner W → Worker W
family_run disk decimal codex runner = codex_cli_run disk decimal runner
family_run disk decimal claude runner = claude_code_run disk decimal runner

-- `build_containerized_worker`
unfoldable pub build_containerized_worker :
    {W : Type 0}
    → Disk W
    → (ℤ → String)
    → (ℕ → String)
    → (Dict String → Dict String)
    → LiveWorkerConfig
    → WorkerFamily
    → CommandRunner W
    → Worker W
unfolding claude_code_run codex_cli_run run_in_container containerized_runner
build_containerized_worker disk decimal port_text sorted config family host_runner =
    family_run disk decimal family
      (run_in_container sorted (containerized_runner port_text config) host_runner)
