-- ===== src/Tests/Operator.antt =====
-- The operator's side on concrete inputs: adapters/telegram/bot.py, app/live_entrypoint.py and main.py.
use talisman_v.Prelude.{
  ℕ, zero, suc, ◌+◌, ◌<◌, ◌≤◌, String, ◌≡◌, refl, true, false, none, some, List, [], ◌∷◌, inr,
  arith, ltb, Bool, length,
}
use talisman_v.Prelude.Int.{pos}
use talisman_v.Prelude.Raises.{returns, raises}
use talisman_v.Prelude.Codes.{code_points, has_code}
use talisman_v.Redaction.Secrets.{IsDistinct}
use talisman_v.Composition.{ApprovalRequest}
use talisman_v.Spiral.Node.{value_error, err}
use talisman_v.Telegram.{TelegramApprover, request_approval}
use talisman_v.Telegram.Bot.{
  http_error, BotError, RawUpdate, Httpx, Bot, get_updates, send_message, request,
}
use talisman_v.Telegram.Secrecy.{KeepsSecret, token_never_surfaces}
use talisman_v.Telegram.Textless.{textless_updates_block, live_approver}
use talisman_v.Service.{
  ServicePorts, MainPorts, Args, heartbeat, main, run_service, system_exit, service_started,
  heartbeat_event, service_stopped,
}
use talisman_v.Service.Stops.{Effect, logged, slept, history, traced, service_stops}
use talisman_v.Service.Dispatch.{no_live_run_unasked}

abbrev bot : Bot
bot = record {
  token = code_points "12:abc";
  base_url = code_points "https://api.telegram.org";
  allowed_user_ids = pos 7 ∷ [];
}

token-IsDistinct : IsDistinct bot.token
unfolding has_code
token-IsDistinct = record {
  no_open = refl;
  no_close = refl;
  own = 58;
  has_own = refl;
  own_only = refl;
}

-- a transport whose exception names the URL
abbrev unreachable : Httpx ℕ ℕ
unreachable = record {
  send = λ method url payload timeout w. (raises (http_error url), suc w);
  raise_for_status = λ response. returns tt;
  updates_of = λ response. returns [];
}

token_never_surfaces_example :
    KeepsSecret bot.token (get_updates unreachable bot 0 30 0).0
    × KeepsSecret bot.token (send_message unreachable bot (pos 7) "hello" 0).0
token_never_surfaces_example =
    token_never_surfaces unreachable bot token-IsDistinct 0 30 (pos 7) "hello" 0

-- an update with a photograph, on every poll; the world counts the requests
abbrev photograph : RawUpdate
photograph = record {
  update_id = some 5;
  message = some (record { text = none; from_id = some (pos 7); chat_id = some (pos 7) });
}

abbrev photographs : Httpx ℕ ℕ
photographs = record {
  send = λ method url payload timeout w. (returns w, suc w);
  raise_for_status = λ response. returns tt;
  updates_of = λ response. returns (photograph ∷ []);
}

abbrev shown : BotError → String
shown e = "error"

abbrev approver : TelegramApprover ℕ
approver = record {
  bot = record {
    allowed_user_ids = [];
    get_updates = λ offset timeout w. (returns [], w);
    send_message = λ chat text w. (returns tt, w);
  };
  chat_id = pos 7;
  poll_timeout = 30;
  sleep = λ w. w;
  strip = λ s. s;
  lower = λ s. s;
}

abbrev gate_request : ApprovalRequest
gate_request = record {
  project_id = "live";
  gate_id = "live:implementation";
  message = "review";
  idempotency_key = "live:implementation";
}

textless_updates_block_example :
    request_approval (live_approver shown photographs bot approver 5) 40 gate_request 5 0 ≡ none
unfolding send_message request
textless_updates_block_example =
    textless_updates_block shown photographs bot approver 5 (λ w. Unit)
      (λ timeout w h. record {
        response = w;
        updates = photograph ∷ [];
        world = suc w;
        sent = refl;
        accepted = refl;
        read = refl;
        textless = (refl, tt);
        after = tt;
      })
      (λ w h. tt) (λ text w h. (suc w, refl, tt)) 40 gate_request 0 tt

-- a signal that is delivered in the second sleep
abbrev signalled : List Effect → Bool
signalled w = ltb 4 (length w)

early : (k : ℕ) → k < 2 → signalled (history 30 k) ≡ false
unfolding history
early zero h = refl
early (suc zero) h = refl
early (suc (suc k)) h = absurd (omega (arith, h))

service_stops_example :
    (run_service (traced signalled) 5 (pos 30) []
      ≡ some (
        pos 0,
        logged (service_started 30)
            ∷ logged heartbeat_event
            ∷ slept 30
            ∷ logged heartbeat_event
            ∷ slept 30
            ∷ logged service_stopped
            ∷ [],
      ))
    × (1 ≤ heartbeat (pos 30))
unfolding history
service_stops_example = service_stops signalled 2 5 (pos 30) early refl (omega arith)

-- a service that is stopped after a minute; the world counts the seconds slept
abbrev service : ServicePorts ℕ
service = record { log = λ event w. w; sleep = λ seconds w. w + seconds; stopped = λ w. ltb 50 w }

abbrev asked : Args
asked = record {
  dry_run = false;
  serve = true;
  live_project = true;
  heartbeat_seconds = pos 30;
  goal = some "a parser";
  workspace = some "";
  project_id = "live";
  secrets_dir = none;
}

abbrev main_ports : MainPorts ℕ
main_ports = record {
  service = service;
  run_live = λ args w. some (err value_error, w + 1000);
  print_complete = λ project result w. w;
  build_application = λ w. w;
  demo = λ w. (err value_error, w);
}

no_live_run_unasked_example :
    main (record main_ports { run_live = λ args w. none }) 9 asked 0
    ≡ some (system_exit "--live-project requires --goal and --workspace", 0)
unfolding main
no_live_run_unasked_example =
    no_live_run_unasked main_ports (λ args w. none) 9 asked 0 (inr (inr (inr (inr refl))))
