-- ===== src/LiveEntry.antt =====
-- app/live_entrypoint.py: the live run of the operator, from its configuration.
--
-- `strip`, `lower` and `int` are Python's; the files of the operator are read through the ports,
-- which hold httpx and the clock's sleep too. What a run
-- does with an approver that still waits is up to `block`, which turns the approver into one that
-- has answered; `compile` builds the application's graph.
pub mod Gates
use Prim.Native.String.{◌++◌ as text_append}
use talisman_v.Prelude.{ℕ, String, Option, none, some, List, [], ◌∷◌}
use talisman_v.Prelude.Int.{ℤ}
use talisman_v.Prelude.Dict.{Dict}
use talisman_v.Spiral.State.{spiral_phases}
use talisman_v.Spiral.Node.{Result, ok, err, PhaseHandler, run_phase}
use talisman_v.Spiral.Runtime.{CompiledGraph}
use talisman_v.Composition.{Approver, LogEvent}
use talisman_v.ProjectRun.{ProjectSpec, ProjectRunResult, World, RunApprover, RunPorts}
use talisman_v.Prelude.Codes.{code_points}
use talisman_v.Telegram.{TelegramApprover}
use talisman_v.Telegram.Bot.{Bot, BotError, Httpx, telegram_bot}
use talisman_v.Workers.{LiveWorkerConfig}
use talisman_v.Workers.Adapters.{
  Act, on_ok, ◌>>=◌, pure, Disk, in_directory, CommandRunner, Worker, WorkerFamily,
  build_containerized_worker,
}
use talisman_v.LiveRun.{run_live_project}

-- `DEFAULT_GATE_PHASES`
abbrev pub default_gate_phases : List String
default_gate_phases = "slice_approval" ∷ "implementation" ∷ []

pub record LiveRunConfig : Type 0 where
  pub goal : String
  pub workspace : String
  pub project_id : String
  pub secrets_dir : String
  pub worker_image : String
  pub network : String
  pub gateway_host : String
  pub family : WorkerFamily

-- `build_live_spec`
unfoldable pub build_live_spec : LiveRunConfig → ProjectSpec
build_live_spec config = record {
  project_id = config.project_id;
  phases = spiral_phases;
  gate_phases = default_gate_phases;
  tier = "standard";
  domain_tags = [];
  goal = config.goal;
}

-- the configuration of the worker, with the default ports of the gateway
unfoldable pub live_worker_config : LiveRunConfig → LiveWorkerConfig
live_worker_config config = record {
  image = config.worker_image;
  network = config.network;
  gateway_host = config.gateway_host;
  anthropic_port = 8800;
  openai_port = 8801;
}

-- `build_live_worker`, for the default runner of the host
unfoldable pub build_live_worker :
    {W : Type 0}
    → Disk W
    → (ℤ → String)
    → (ℕ → String)
    → (Dict String → Dict String)
    → CommandRunner W
    → LiveRunConfig
    → Worker W
unfolding live_worker_config build_containerized_worker
build_live_worker disk decimal port_text sorted host_runner config =
    build_containerized_worker disk decimal port_text sorted (live_worker_config config)
      config.family host_runner

-- The operator's files, what the Telegram bot and its approver use of the outside, and the approver
-- that waits.
pub record EntryPorts (V R : Type 0) : Type 0 where
  pub mkdir : String → Act V (Unit {0})
  pub read_text : String → Act V String
  pub strip : String → String
  pub to_int : String → Act V ℤ
  pub httpx : Httpx (World V) R
  pub shown : BotError → String
  pub sleep : World V → World V
  pub strip_codes : List ℕ → List ℕ
  pub lower_codes : List ℕ → List ℕ
  pub block : TelegramApprover (World V) → Approver (World V)

module _ {V R : Type 0} (entry : EntryPorts V R) where
  -- `TelegramBot(token, TelegramAllowlist(frozenset({operator_id})))` and the approver with it,
  -- with their defaults
  unfoldable pub telegram_approver : String → ℤ → TelegramApprover (World V)
  telegram_approver token operator_id = record {
    bot = telegram_bot entry.shown entry.httpx (record {
      token = code_points token;
      base_url = code_points "https://api.telegram.org";
      allowed_user_ids = operator_id ∷ [];
    });
    chat_id = operator_id;
    poll_timeout = 30;
    sleep = entry.sleep;
    strip = entry.strip_codes;
    lower = entry.lower_codes;
  }

  -- `_read_secret`
  unfoldable pub read_secret : String → Act V String
  read_secret path = do text ← entry.read_text path; pure (entry.strip text)

  -- `build_live_approver`: one id is the allowlist and the chat
  unfoldable pub build_live_approver : String → Act V (TelegramApprover (World V))
  unfolding read_secret telegram_approver
  build_live_approver secrets_dir = do
    token ← read_secret (in_directory secrets_dir "telegram.token")
    id_text ← read_secret (in_directory secrets_dir "telegram.operator_id")
    operator_id ← entry.to_int id_text
    pure (telegram_approver token operator_id)

  -- a Telegram approver keeps no record of the gates
  abbrev pub run_approver : TelegramApprover (World V) → RunApprover V
  run_approver approver = record { request_approval = entry.block approver; seen = none }

  module _ (ports : RunPorts V) (disk : Disk (World V)) (text : List ℕ → String)
      (decimal : ℤ → String) (port_text : ℕ → String) (sorted : Dict String → Dict String)
      (host_runner : CommandRunner (World V))
      (compile : (handlers : Option (Dict (PhaseHandler (World V)))) (gates : List String)
        → CompiledGraph (run_phase handlers gates))
      (log : LogEvent → World V → World V) where
    abbrev pub with_approver :
        ℕ
        → LiveRunConfig
        → Result (TelegramApprover (World V)) × V
        → Option (Result ProjectRunResult × World V)
    with_approver fuel config (err e, v) = some (err e, (v, []))
    with_approver fuel config (ok approver, v) =
        run_live_project ports disk text
          (build_live_worker disk decimal port_text sorted host_runner config) config.workspace
          (build_live_spec config) (compile _ _) log fuel (some (run_approver approver)) v

    -- `run_live`
    unfoldable pub run_live : ℕ → LiveRunConfig → V → Option (Result ProjectRunResult × World V)
    unfolding build_live_approver build_live_spec build_live_worker run_live_project
    run_live fuel config v =
        with_approver fuel config
          ((do _ ← entry.mkdir config.workspace; build_live_approver config.secrets_dir) v)
