-- ===== src/Service/Stops.antt =====
-- When the service of main.py stops, and what it has done by then.
use mathlib.Core.Path.{subst}
use talisman_v.Prelude.{
  ℕ, zero, suc, ◌+◌, ◌≤◌, ◌<◌, ◌≡◌, refl, ap, sym, ◌∙◌, Bool, true, false, some, List, [], ◌∷◌,
  ◌++◌, arith,
}
use talisman_v.Prelude.Int.{ℤ, pos}
use talisman_v.Service.{
  ServicePorts, ServiceEvent, heartbeat, heartbeat_event, service_started, service_stopped, serve,
  run_service,
}

-- What the service does to the outside.
pub data Effect : Type 0 where
  logged : ServiceEvent → Effect
  slept : ℕ → Effect

-- The outside as the list of what has been done to it; `stopped` says after which effects a
-- signal has been delivered.
unfoldable pub traced : (List Effect → Bool) → ServicePorts (List Effect)
traced stopped = record {
  log = λ event w. w ++ logged event ∷ [];
  sleep = λ seconds w. w ++ slept seconds ∷ [];
  stopped = stopped;
}

-- A service that has started and made so many heartbeats, each followed by a sleep.
unfoldable pub history : ℕ → ℕ → List Effect
history seconds zero = logged (service_started seconds) ∷ []
history seconds (suc n) = history seconds n ++ logged heartbeat_event ∷ slept seconds ∷ []

module _ (stopped : List Effect → Bool) (seconds : ℕ) where
  appended : (xs : List Effect) (a b : Effect) → (xs ++ a ∷ []) ++ b ∷ [] ≡ xs ++ a ∷ b ∷ []
  appended [] a b = refl
  appended (x ∷ xs) a b = ap (λ ys. x ∷ ys) (appended xs a b)

  serve-history :
      (rounds made fuel : ℕ)
      → ((k : ℕ) → k < made + rounds → stopped (history seconds k) ≡ false)
      → stopped (history seconds (made + rounds)) ≡ true
      → rounds < fuel
      → serve (traced stopped) fuel seconds (history seconds made)
        ≡ some (history seconds (made + rounds) ++ logged service_stopped ∷ [])
  unfolding serve traced
  serve-history rounds made zero running stop h = absurd (omega (arith, h))
  serve-history zero made (suc fuel) running stop h =
      let same : made + 0 ≡ made = omega arith in
      let stop' : stopped (history seconds made) ≡ true =
        subst (λ n. stopped (history seconds n) ≡ true) same stop in
      rw (stop', same) refl
  serve-history (suc rounds) made (suc fuel) running stop h =
      let on : stopped (history seconds made) ≡ false = running made (omega arith) in
      let same : suc made + rounds ≡ made + suc rounds = omega arith in
      let next : (history seconds made ++ logged heartbeat_event ∷ []) ++ slept seconds ∷ []
          ≡ history seconds (suc made) =
        appended (history seconds made) (logged heartbeat_event) (slept seconds)
        ∙ unfold history in refl in
      rw (on, next)
        (serve-history rounds (suc made) fuel (λ k l. running k (omega (arith, l)))
            (subst (λ n. stopped (history seconds n) ≡ true) (sym same) stop) (omega (arith, h))
          ∙ ap (λ n. some (history seconds n ++ logged service_stopped ∷ [])) same)

-- The service runs until it is stopped, and no longer: where the signal is seen once it has made
-- so many heartbeats, and not before, all that it has done when it exits with 0 is to log its
-- start, then that number of times a heartbeat followed by a sleep, and last to log its end. The
-- sleep is at least a second, and more fuel than heartbeats is enough.
pub service_stops :
    (stopped : List Effect → Bool) (heartbeats fuel : ℕ) (seconds : ℤ)
    → ((k : ℕ) → k < heartbeats → stopped (history (heartbeat seconds) k) ≡ false)
    → stopped (history (heartbeat seconds) heartbeats) ≡ true
    → heartbeats < fuel
    → (run_service (traced stopped) fuel seconds []
        ≡ some (pos 0, history (heartbeat seconds) heartbeats ++ logged service_stopped ∷ []))
      × (1 ≤ heartbeat seconds)
unfolding run_service traced history
service_stops stopped heartbeats fuel seconds running stop h =
    let same : 0 + heartbeats ≡ heartbeats = omega arith in
    (
      rw
          (
            serve-history stopped (heartbeat seconds) heartbeats 0 fuel
                (λ k l. running k (omega (arith, l)))
                (subst (λ n. stopped (history (heartbeat seconds) n) ≡ true) (sym same) stop) h,
            same,
          )
          refl,
      ground arith,
    )
