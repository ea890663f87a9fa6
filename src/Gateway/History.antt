-- ===== src/Gateway/History.antt =====
-- What the retrying transport of adapters/gateway_client.py meets: answers and sleeps, and how they
-- may follow each other.
use talisman_v.Prelude.{
  ℕ, ◌+◌, ◌-◌, ◌*◌, ◌^◌, ◌≤◌, ◌<◌, String, ◌≡◌, ◌≢◌, ◌⊎◌, Option, none, some, List, [], ◌∷◌,
}
use talisman_v.Prelude.Int.{ℤ, pos}
use talisman_v.Prelude.Raises.{Raises, returns, raises}
use talisman_v.Gateway.{GatewayError, http_status_error, transport_error, other_error, Retrying}

-- What happens at the outside of a transport: the inner transport answers, or a sleep is made.
pub data Event (Res : Type 0) : Type 0 where
  answered : Raises GatewayError Res → Event Res
  slept_for : ℤ → Event Res

-- The number of answers of the inner transport.
unfoldable pub answers : {Res : Type 0} → List (Event Res) → ℕ
answers [] = 0
answers (answered a ∷ h) = answers h + 1
answers (slept_for d ∷ h) = answers h

module _ {Req Res W : Type 0} (cfg : Retrying Req Res W) where
  -- The same outside, which keeps its events, the newest first.
  unfoldable pub observed : Retrying Req Res (W × List (Event Res))
  observed = record {
    inner = λ request (w, h). let r = cfg.inner request w in (r.0, (r.1, answered r.0 ∷ h));
    max_attempts = cfg.max_attempts;
    base_delay = cfg.base_delay;
    max_delay = cfg.max_delay;
    sleep = λ delay (w, h). let r = cfg.sleep delay w in (r.0, (r.1, slept_for delay ∷ h));
    rand = λ (w, h). let r = cfg.rand w in (r.0, (r.1, h));
    parse_float = cfg.parse_float;
  }

  -- An exponential delay after an attempt: no longer than the cap, and than the base delay doubled
  -- with each attempt after the first.
  abbrev pub IsBackoff : ℕ → ℤ → Type 0
  IsBackoff attempt delay =
      (n : ℕ) × (delay ≡ pos n) × (n ≤ cfg.max_delay) × (n ≤ cfg.base_delay * 2 ^ (attempt - 1))

  -- The delay that a Retry-After header asks for; without one, or with one that is no number, an
  -- exponential one.
  abbrev pub IsAskedFor : Option String → ℕ → ℤ → Type 0
  IsAskedFor none attempt delay = IsBackoff attempt delay
  IsAskedFor (some raw) attempt delay =
      (cfg.parse_float raw ≡ some delay) ⊎ ((cfg.parse_float raw ≡ none) × IsBackoff attempt delay)

  -- An error that is worth another attempt, and the delay before it.
  abbrev pub IsDue : ℕ → Raises GatewayError Res → ℤ → Type 0
  IsDue attempt (returns result) delay = ⊥
  IsDue attempt (raises (other_error e)) delay = ⊥
  IsDue attempt (raises transport_error) delay =
      (attempt < cfg.max_attempts) × IsBackoff attempt delay
  IsDue attempt (raises (http_status_error status header)) delay =
      (attempt < cfg.max_attempts)
      × ((status ≡ 429) ⊎ ((500 ≤ status) × (status ≤ 599)))
      × IsAskedFor header attempt delay

  -- An answer that is handed on: a result, an error that is not retried, or the last attempt's.
  abbrev pub IsLast : ℕ → Raises GatewayError Res → Type 0
  IsLast attempt (returns result) = Unit
  IsLast attempt (raises (other_error e)) = Unit
  IsLast attempt (raises transport_error) = cfg.max_attempts ≤ attempt
  IsLast attempt (raises (http_status_error status header)) =
      (cfg.max_attempts ≤ attempt) ⊎ ((status ≢ 429) × ((status < 500) ⊎ (599 < status)))

  abbrev pub MayTry : List (Event Res) → Type 0
  MayTry [] = Unit
  MayTry (slept_for d ∷ h) = Unit
  MayTry (answered a ∷ h) = ⊥

  abbrev pub MaySleep : ℤ → List (Event Res) → Type 0
  MaySleep d [] = ⊥
  MaySleep d (slept_for d' ∷ h) = ⊥
  MaySleep d (answered a ∷ h) = IsDue (answers h + 1) a d

  -- Each attempt but the first directly follows a sleep, and each sleep directly follows an error
  -- after which it is due, of the attempt that its place in the history gives.
  abbrev pub IsPaced : List (Event Res) → Type 0
  IsPaced [] = Unit
  IsPaced (answered a ∷ h) = MayTry h × IsPaced h
  IsPaced (slept_for d ∷ h) = MaySleep d h × IsPaced h

  -- How a history ends with the answer of the transport: with that answer of the inner transport,
  -- or with a sleep that raised it.
  abbrev pub EndsWith : Raises GatewayError Res → List (Event Res) → Type 0
  EndsWith answer [] = ⊥
  EndsWith answer (answered a ∷ h) = (answer ≡ a) × IsLast (answers h + 1) a
  EndsWith answer (slept_for d ∷ h) = (e : GatewayError) × (answer ≡ raises e)
