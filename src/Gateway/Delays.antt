-- ===== src/Gateway/Delays.antt =====
-- When the retrying transport of adapters/gateway_client.py tries again, and how long it sleeps.
use talisman_v.Prelude.{ℕ, ◌^◌, ◌<◌, ◌≡◌, Option, none, some, List}
use talisman_v.Prelude.Raises.{Raises}
use talisman_v.Gateway.{GatewayError, Retrying}
use talisman_v.Gateway.History.{Event, answers, MayTry, IsPaced, EndsWith}

module _ {Req Res W : Type 0} (cfg : Retrying Req Res W)
    (draws : (w : W) → (cfg.rand w).0 < 2 ^ 53) where
  abbrev Reply : Type 0
  Reply = Raises GatewayError Res × (W × List (Event Res))

  -- There is an answer, after a history that is paced and ends with it.
  abbrev Good : Option Reply → Type 0
  Good none = ⊥
  Good (some (answer, (w, h))) = IsPaced cfg h × EndsWith cfg answer h

  -- what the next attempt is given
  abbrev GoodAgain : ℕ → (W × List (Event Res) → Option Reply) → Type 0
  GoodAgain answered_by again =
      (w : W) (h : List (Event Res))
      → IsPaced cfg h
      → MayTry cfg h
      → answers h ≡ answered_by
      → Good (again (w, h))
