-- ===== src/Gateway/Attempts.antt =====
-- How often the transport of adapters/gateway_client.py tries, and what it answers.
use talisman_v.Prelude.{
  ℕ, zero, suc, ◌+◌, ◌≤◌, ◌<◌, ◌≡◌, refl, Bool, true, false, not, ◌||◌, ◌-◌, Option, none, some,
  arith, leb, if◌then◌else◌,
}
use talisman_v.Prelude.Int.{ℤ}
use talisman_v.Prelude.Raises.{Raises, returns, raises}
use talisman_v.Gateway.{
  GatewayError, http_status_error, transport_error, other_error, Retrying, Answer, attempts,
  transport, tried, failed, pause, slept, delay_for, retry_after_seconds, is_retryable_status,
}

module _ {Req Res W : Type 0} (cfg : Retrying Req Res W) (sent : W → ℕ)
    (one_each : (request : Req) (w : W) → sent (cfg.inner request w).1 ≤ suc (sent w))
    (sleep_sends : (d : ℤ) (w : W) → sent (cfg.sleep d w).1 ≡ sent w)
    (rand_sends : (w : W) → sent (cfg.rand w).1 ≡ sent w) where
  -- There is an answer, after at most `n` more requests than `m`.
  abbrev pub Answers : ℕ → Option (Answer cfg) → Type 0
  Answers n none = ⊥
  Answers n (some (answer, w)) = sent w ≤ n

  abbrev AnswersAgain : ℕ → (W → Option (Answer cfg)) → Type 0
  AnswersAgain left again = (w : W) → Answers (sent w + left) (again w)

  Answers-mono : (m n : ℕ) (o : Option (Answer cfg)) → m ≤ n → Answers m o → Answers n o
  Answers-mono m n none h k = k
  Answers-mono m n (some (answer, w)) h k = omega (arith, k)

  slept-Answers :
      (left n : ℕ) (again : W → Option (Answer cfg)) (s : Raises GatewayError (Unit {0}) × W)
      → AnswersAgain left again
      → sent s.1 + left ≤ n
      → Answers n (slept cfg again s)
  slept-Answers left n again (raises e, w) h k = omega (arith, k)
  slept-Answers left n again (returns _, w) h k = Answers-mono (sent w + left) n (again w) k (h w)

  delay-sends :
      (attempt : ℕ) (retry_after : Option ℤ) (w : W)
      → sent (delay_for cfg attempt retry_after w).1 ≡ sent w
  delay-sends attempt none w = rand_sends w
  delay-sends attempt (some d) w = refl

  pause-Answers :
      (left n attempt : ℕ) (again : W → Option (Answer cfg)) (retry_after : Option ℤ) (w : W)
      → AnswersAgain left again
      → sent w + left ≤ n
      → Answers n (pause cfg again attempt retry_after w)
  pause-Answers left n attempt again retry_after w h k =
      let d = delay_for cfg attempt retry_after w in
      slept-Answers left n again (cfg.sleep d.0 d.1) h
        (omega (arith, k, sleep_sends d.0 d.1, delay-sends attempt retry_after w))

  -- Either the test that surfaces the error holds, or there is an attempt left.
  guarded-Answers :
      (b : Bool) (left n : ℕ) (surfaced paused : Option (Answer cfg))
      → Answers n surfaced
      → (b ≡ false → Answers n paused)
      → Answers n (if b then surfaced else paused)
  guarded-Answers true left n surfaced paused h k = h
  guarded-Answers false left n surfaced paused h k = k refl

  failed-Answers :
      (left n attempt : ℕ) (again : W → Option (Answer cfg)) (e : GatewayError) (w : W)
      → (attempt < cfg.max_attempts → AnswersAgain left again)
      → sent w + left ≤ n
      → Answers n (failed cfg again attempt e w)
  failed-Answers left n attempt again (other_error _) w h k = omega (arith, k)
  failed-Answers left n attempt again transport_error w h k =
      guarded-Answers (leb cfg.max_attempts attempt) left n _ _ (omega (arith, k))
        (λ more. pause-Answers left n attempt again none w (h (ground (arith, more))) k)
  failed-Answers left n attempt again (http_status_error status header) w h k =
      guarded-Answers (not (is_retryable_status status) || leb cfg.max_attempts attempt) left n _ _
        (omega (arith, k))
        (λ more.
          pause-Answers left n attempt again (retry_after_seconds cfg.parse_float header) w
            (h (ground (arith, more))) k)

  tried-Answers :
      (left n attempt : ℕ) (again : W → Option (Answer cfg)) (a : Answer cfg)
      → (attempt < cfg.max_attempts → AnswersAgain left again)
      → sent a.1 + left ≤ n
      → Answers n (tried cfg again attempt a)
  tried-Answers left n attempt again (returns result, w) h k = omega (arith, k)
  tried-Answers left n attempt again (raises e, w) h k = failed-Answers left n attempt again e w h k

  attempts-Answers :
      (left fuel attempt : ℕ) (request : Req) (w : W)
      → left + attempt ≡ cfg.max_attempts
      → left < fuel
      → Answers (sent w + suc left) (attempts cfg fuel attempt request w)
  unfolding attempts
  attempts-Answers left zero attempt request w e h = absurd (omega (arith, h))
  attempts-Answers zero (suc fuel) attempt request w e h =
      tried-Answers zero (sent w + 1) attempt _ (cfg.inner request w)
        (λ more. absurd (omega (arith, e, more))) (omega (arith, one_each request w))
  attempts-Answers (suc left) (suc fuel) attempt request w e h =
      tried-Answers (suc left) (sent w + suc (suc left)) attempt _ (cfg.inner request w)
        (λ more w'. attempts-Answers left fuel (suc attempt) request w' (omega arith) (omega arith))
        (omega (arith, one_each request w))

  given :
      (n : ℕ) (o : Option (Answer cfg))
      → Answers n o
      → (answer : Answer cfg) × (o ≡ some answer) × (sent answer.1 ≤ n)
  given n none h = absurd h
  given n (some (answer, w)) h = ((answer, w), refl, h)

  -- The transport answers, with a result or an exception, after at most `max_attempts` requests,
  -- where that is at least one. (`sent` counts the requests: each call of the inner transport
  -- sends at most one, and the sleeps and draws send none.)
  pub transport_answers :
      (request : Req) (w : W)
      → 1 ≤ cfg.max_attempts
      → (answer : Answer cfg) × (transport cfg request w ≡ some answer)
        × (sent answer.1 ≤ sent w + cfg.max_attempts)
  transport_answers request w h = given (sent w + cfg.max_attempts) (transport cfg request w) (
      Answers-mono (sent w + suc (cfg.max_attempts - 1)) (sent w + cfg.max_attempts)
        (transport cfg request w) (omega arith)
        (attempts-Answers (cfg.max_attempts - 1) cfg.max_attempts 1 request w (omega arith)
          (omega arith)))
