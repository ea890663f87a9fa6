-- ===== src/Gateway.antt =====
-- adapters/gateway_client.py: the transport that tries again.
--
-- Times are microseconds; a draw of `random` is a number n below 2 ^ 53, which stands for
-- n / 2 ^ 53, and its product with a delay is rounded down. The transport, the clock's `sleep` and
-- `random` are functions over a world; `parse_float` is `float`.
pub mod Attempts
pub mod History
pub mod Delays
use talisman_v.Prelude.{
  ℕ, zero, suc, ◌-◌, ◌*◌, ◌/◌, ◌^◌, String, Bool, not, ◌&&◌, ◌||◌, Option, none, some, leb, ltb,
  ◌==◌, if◌then◌else◌,
}
use talisman_v.Prelude.Int.{ℤ, pos, negsuc, ltb_ℤ}
use talisman_v.Prelude.Raises.{Raises, returns, raises}
use Prim.Native.Nat.{min}

-- The exceptions of a transport: an error status with its Retry-After header, no connection, or
-- any other exception.
pub data GatewayError : Type 0 where
  http_status_error : ℕ → Option String → GatewayError
  transport_error : GatewayError
  other_error : String → GatewayError

-- `_is_retryable_status`
abbrev pub is_retryable_status : ℕ → Bool
is_retryable_status status = status == 429 || (leb 500 status && leb status 599)

-- `_retry_after_seconds`
abbrev pub retry_after_seconds : (String → Option ℤ) → Option String → Option ℤ
retry_after_seconds parse_float none = none
retry_after_seconds parse_float (some raw) = parse_float raw

-- `min(max_delay, base_delay * (2.0 ** (attempt - 1)))`
abbrev pub capped : ℕ → ℕ → ℕ → ℕ
capped base_delay max_delay attempt = min max_delay (base_delay * 2 ^ (attempt - 1))

-- What `retrying_transport` is given.
pub record Retrying (Req Res W : Type 0) : Type 0 where
  pub inner : Req → W → Raises GatewayError Res × W
  pub max_attempts : ℕ
  pub base_delay : ℕ
  pub max_delay : ℕ
  pub sleep : ℤ → W → Raises GatewayError (Unit {0}) × W
  pub rand : W → ℕ × W
  pub parse_float : String → Option ℤ

module _ {Req Res W : Type 0} (cfg : Retrying Req Res W) where
  abbrev pub Answer : Type 0
  Answer = Raises GatewayError Res × W

  abbrev pub delay_for : ℕ → Option ℤ → W → ℤ × W
  delay_for attempt (some seconds) w = (seconds, w)
  delay_for attempt none w =
      let (draw, w') = cfg.rand w in
      (pos (draw * capped cfg.base_delay cfg.max_delay attempt / 2 ^ 53), w')

  abbrev pub slept : (W → Option Answer) → Raises GatewayError (Unit {0}) × W → Option Answer
  slept again (returns _, w) = again w
  slept again (raises e, w) = some (raises e, w)

  abbrev pub pause : (W → Option Answer) → ℕ → Option ℤ → W → Option Answer
  pause again attempt retry_after w =
      let (delay, w') = delay_for attempt retry_after w in slept again (cfg.sleep delay w')

  -- the `except` branches
  abbrev pub failed : (W → Option Answer) → ℕ → GatewayError → W → Option Answer
  failed again attempt (http_status_error status header) w =
      if not (is_retryable_status status) || leb cfg.max_attempts attempt
      then some (raises (http_status_error status header), w)
      else pause again attempt (retry_after_seconds cfg.parse_float header) w
  failed again attempt transport_error w =
      if leb cfg.max_attempts attempt
      then some (raises transport_error, w)
      else pause again attempt none w
  failed again attempt (other_error e) w = some (raises (other_error e), w)

  abbrev pub tried : (W → Option Answer) → ℕ → Answer → Option Answer
  tried again attempt (returns result, w) = some (returns result, w)
  tried again attempt (raises e, w) = failed again attempt e w

  -- the loop of `transport`, from attempt `attempt` on; `none` where the fuel runs out
  unfoldable pub attempts : ℕ → ℕ → Req → W → Option Answer
  attempts zero attempt request w = none
  attempts (suc fuel) attempt request w =
      tried (attempts fuel (suc attempt) request) attempt (cfg.inner request w)

  -- `transport`, once `max_attempts < 1` has not raised
  abbrev pub transport : Req → W → Option Answer
  transport request w = attempts cfg.max_attempts 1 request w

-- `retrying_transport`; `none` is its `ValueError`
unfoldable pub retrying_transport :
    {Req Res W : Type 0}
    → Retrying Req Res W
    → Option (Req → W → Option (Raises GatewayError Res × W))
retrying_transport cfg = if ltb cfg.max_attempts 1 then none else some (transport cfg)
