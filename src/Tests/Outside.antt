-- ===== src/Tests/Outside.antt =====
-- Concrete runs of what faces the outside: the gateway, the proxy, Telegram and the workers.
use talisman_v.Prelude.{
  All, ℕ, suc, ◌+◌, ◌≤◌, String, ◌≡◌, ◌≢◌, ◌↔◌, ◌⊎◌, refl, Bool, true, false, ◌&&◌, Option, none,
  some, List, [], ◌∷◌, ◌++◌, arith, has, leb, if◌then◌else◌,
}
use talisman_v.Prelude.Int.{ℤ, pos}
use talisman_v.Prelude.Dict.{Dict, get}
use talisman_v.Prelude.Raises.{Raises, returns, raises}
use talisman_v.Prelude.Codes.{code_points, has_code, same_codes}
use talisman_v.Gateway.{http_status_error, Retrying, Answer, transport}
use talisman_v.Gateway.Attempts.{transport_answers}
use talisman_v.Egress.{
  default_egress_allowlist, is_allowed, ensure_allowed, egress_denied, normalize_host,
}
use talisman_v.Egress.Boundary.{SomeUnder, passes_iff}
use talisman_v.Egress.Authority.{colon, parse_authority, parse_authority-joined}
use talisman_v.Egress.Proxy.{Proxy, handle, IsRefused, IsConnected, connects_only_allowed}
use talisman_v.Composition.{ApprovalRequest}
use talisman_v.Telegram.{IncomingMessage, TelegramBot, TelegramApprover}
use talisman_v.Workers.{
  scrub_environment, default_scrubbed_vars, LiveWorkerConfig, containerized_runner, build_command,
}
use talisman_v.Workers.Podman.{Container, podman_run, is_option}
use talisman_v.Workers.Isolation.{IsKeyless, get-scrub_environment, container_holds_no_secret}

-- a gateway that is always overloaded; the world counts the requests
abbrev overloaded : Retrying String String ℕ
overloaded = record {
  inner = λ request w. (raises (http_status_error 503 (some "2")), suc w);
  max_attempts = 4;
  base_delay = 500_000;
  max_delay = 30_000_000;
  sleep = λ delay w. (returns tt, w);
  rand = λ w. (0, w);
  parse_float = λ raw. some (pos 2_000_000);
}

transport_answers_example :
    (answer : Answer overloaded) × (transport overloaded "ask" 0 ≡ some answer) × (answer.1 ≤ 0 + 4)
transport_answers_example =
    transport_answers overloaded (λ w. w) (λ request w. omega arith) (λ delay w. refl) (λ w. refl)
      "ask" 0 (omega arith)

abbrev as_it_is : List ℕ → List ℕ
as_it_is s = s

passes_iff_example :
    ((ensure_allowed as_it_is (code_points "evilgithub.com") default_egress_allowlist ≡ returns tt)
      ↔ ((normalize_host as_it_is (code_points "evilgithub.com") ≢ [])
          × SomeUnder as_it_is
              (normalize_host as_it_is (code_points "evilgithub.com"))
              default_egress_allowlist))
    × ((ensure_allowed as_it_is (code_points "evilgithub.com") default_egress_allowlist
          ≡ returns tt)
        ⊎ (ensure_allowed as_it_is (code_points "evilgithub.com") default_egress_allowlist
            ≡ raises (egress_denied (code_points "evilgithub.com"))))
passes_iff_example = passes_iff as_it_is (code_points "evilgithub.com") default_egress_allowlist

abbrev to_int : List ℕ → Option ℤ
to_int s = if same_codes s (code_points "8443") then some (pos 8443) else none

parse_authority-joined_example :
    parse_authority to_int (code_points "pypi.org" ++ colon ∷ code_points "8443")
    ≡ some (code_points "pypi.org", pos 8443)
unfolding has_code same_codes
parse_authority-joined_example =
    parse_authority-joined to_int 112 (code_points "ypi.org") 56 (code_points "443") (pos 8443)
      (refl, (refl, (refl, (refl, (refl, (refl, (refl, (refl, tt)))))))) refl refl

-- the world is what was sent to the client
abbrev proxy : Proxy (List String)
proxy = record {
  is_allowed = λ host. is_allowed as_it_is host default_egress_allowlist;
  upper = as_it_is;
  to_int = to_int;
  create_connection = λ host port w. (true, w);
  respond = λ status w. status ∷ w;
  tunnel = λ w. w;
}

connects_only_allowed_example :
    IsRefused proxy [] (handle proxy (code_points "CONNECT pypi.org:8443 HTTP/1.1") [])
    ⊎ IsConnected proxy
        (code_points "CONNECT pypi.org:8443 HTTP/1.1")
        []
        (handle proxy (code_points "CONNECT pypi.org:8443 HTTP/1.1") [])
connects_only_allowed_example =
    connects_only_allowed proxy (code_points "CONNECT pypi.org:8443 HTTP/1.1") []

abbrev reply : IncomingMessage
reply = record { update_id = 7; user_id = pos 42; chat_id = pos 9; text = code_points "/approve" }

-- the world is whether the gate has been posted, which the reply waits for
abbrev bot : TelegramBot Bool
bot = record {
  allowed_user_ids = pos 42 ∷ [];
  get_updates = λ offset timeout w. (returns (if w && leb offset 7 then reply ∷ [] else []), w);
  send_message = λ chat_id text w. (returns tt, true);
}

abbrev approver : TelegramApprover Bool
approver = record {
  bot = bot;
  chat_id = pos 9;
  poll_timeout = 30;
  sleep = λ w. w;
  strip = as_it_is;
  lower = as_it_is;
}

abbrev request : ApprovalRequest
request = record {
  project_id = "p1";
  gate_id = "p1:plan";
  message = "Approval required";
  idempotency_key = "p1:plan";
}

abbrev host_env : Dict String
host_env = ("PATH", "/bin") ∷ ("GITHUB_TOKEN", "token") ∷ ("GITHUB_TOKEN", "token") ∷ []

get-scrub_environment_example :
    get (scrub_environment host_env default_scrubbed_vars) "GITHUB_TOKEN" ≡ none
unfolding has
get-scrub_environment_example = get-scrub_environment host_env default_scrubbed_vars "GITHUB_TOKEN"

abbrev config : LiveWorkerConfig
config = record {
  image = "worker";
  network = "sealed";
  gateway_host = "talisman-gateway";
  anthropic_port = 8800;
  openai_port = 8801;
}

container_holds_no_secret_example :
    (container : Container) × (podman_run (
        build_command
          (λ env. env)
          (containerized_runner (λ n. "8800") config)
          ("codex" ∷ "exec" ∷ [])
          "/work")
      ≡ some container)
    × (container.network ≡ some "sealed")
    × (container.http_proxy ≡ false)
    × All IsKeyless container.env
unfolding is_option
container_holds_no_secret_example =
    container_holds_no_secret (λ n. "8800") (λ env. env) (λ P env h. h) config
      ("codex" ∷ "exec" ∷ []) "/work" refl
