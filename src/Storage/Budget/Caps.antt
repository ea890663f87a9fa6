-- ===== src/Storage/Budget/Caps.antt =====
-- The hard caps of adapters/sqlite/budget.py, for a client that asks before each provider request
-- and records what the request cost.
use talisman_v.Prelude.{ℕ, ◌+◌, ◌≤◌, String, ◌≡◌, refl, Option, List, [], ◌∷◌, ◌++◌, arith, All}
use talisman_v.Prelude.Int.{pos}
use talisman_v.Storage.Budget.{
  BudgetEvent, BudgetTable, Result, ok, err, empty, spend_row, record_spend, sum_cost_since,
  start_of_today, current_daily_spend_usd, current_monthly_spend_usd, require_call_allowed,
}

-- A provider request: its time, its estimate, and what it cost in the end.
pub record Request : Type 0 where
  pub now : ℕ
  pub project_id : Option String
  pub estimated : ℕ
  pub actual : ℕ

abbrev guarded : Request → BudgetTable → Result (Unit {0}) → BudgetTable
guarded r t (ok _) = (record_spend r.now (pos r.actual) r.project_id t).1
guarded r t (err e) = t

sum_cost_since_antitone :
    (c d : ℕ) (rows : List BudgetEvent) → c ≤ d → sum_cost_since d rows ≤ sum_cost_since c rows
unfolding sum_cost_since
sum_cost_since_antitone c d [] h = omega arith
sum_cost_since_antitone c d (r ∷ rs) h = ground (arith, sum_cost_since_antitone c d rs h)

sum_cost_since-snoc :
    (c : ℕ) (rows : List BudgetEvent) (r : BudgetEvent)
    → sum_cost_since c (rows ++ r ∷ []) ≤ sum_cost_since c rows + r.cost_usd
unfolding sum_cost_since
sum_cost_since-snoc c [] r = ground arith
sum_cost_since-snoc c (q ∷ qs) r = ground (arith, sum_cost_since-snoc c qs r)

module _ (start_of_month : ℕ → ℕ)
    (month_mono : (a b : ℕ) → a ≤ b → start_of_month a ≤ start_of_month b)
    (daily_hard monthly_hard : ℕ) where
  abbrev require : Request → BudgetTable → Result (Unit {0})
  require r t =
      require_call_allowed start_of_month r.now t (pos r.estimated) (pos daily_hard)
        (pos monthly_hard)

  -- One request: no call and no record where the breaker is open.
  unfoldable pub after_request : Request → BudgetTable → BudgetTable
  after_request r t = guarded r t (require r t)

  unfoldable pub after_requests : List Request → BudgetTable → BudgetTable
  unfolding after_request
  after_requests [] t = t
  after_requests (r ∷ rs) t = after_requests rs (after_request r t)

  -- In order of time from `last` on, and no dearer than estimated.
  abbrev pub IsTimely : ℕ → List Request → Type 0
  IsTimely last [] = Unit
  IsTimely last (r ∷ rs) = (last ≤ r.now) × (r.actual ≤ r.estimated) × IsTimely r.now rs

  abbrev pub IsWithin : ℕ → BudgetTable → Type 0
  IsWithin now t =
      (current_daily_spend_usd start_of_month now t ≤ daily_hard)
      × (current_monthly_spend_usd start_of_month now t ≤ monthly_hard)

  allowed_sums :
      (r : Request) (t : BudgetTable)
      → require r t ≡ ok tt
      → (current_daily_spend_usd start_of_month r.now t + r.estimated ≤ daily_hard)
        × (current_monthly_spend_usd start_of_month r.now t + r.estimated ≤ monthly_hard)
  unfolding require_call_allowed
  allowed_sums r t e = ground arith

  request_keeps :
      (last now : ℕ) (r : Request) (t : BudgetTable)
      → last ≤ r.now
      → r.actual ≤ r.estimated
      → r.now ≤ now
      → ((later : ℕ) → last ≤ later → IsWithin later t)
      → IsWithin now (after_request r t)
  unfolding after_request record_spend
  request_keeps last now r t order dear later h = by_answer (require r t) refl
    where
      by_answer : (a : Result (Unit {0})) → require r t ≡ a → IsWithin now (guarded r t a)
      by_answer (err e) _ = h now (omega arith)
      by_answer (ok _) e =
          let (daily, monthly) = allowed_sums r t e in
          let row = spend_row r.now r.actual r.project_id t in
          (
            omega (
              arith,
              daily,
              sum_cost_since-snoc (start_of_today now) t.rows row,
              sum_cost_since_antitone (start_of_today r.now) (start_of_today now) t.rows
                  (omega arith),
            ),
            omega (
              arith,
              monthly,
              sum_cost_since-snoc (start_of_month now) t.rows row,
              sum_cost_since_antitone (start_of_month r.now) (start_of_month now) t.rows
                  (month_mono r.now now later),
            ),
          )

  requests_keep :
      (requests : List Request) (last : ℕ) (t : BudgetTable)
      → IsTimely last requests
      → ((later : ℕ) → last ≤ later → IsWithin later t)
      → (now : ℕ) → All (λ (r : Request). r.now ≤ now) requests
      → last ≤ now
      → IsWithin now (after_requests requests t)
  unfolding after_requests
  requests_keep [] last t timely h now past order = h now order
  requests_keep (r ∷ rs) last t (order, dear, timely) h now past _ =
      requests_keep rs r.now (after_request r t) timely
        (λ later k. request_keeps last later r t order dear k h) now past.1 past.0

  -- The circuit breaker. For requests in order of time, each checked before it is made and
  -- recorded with a cost of at most its estimate, the spend recorded since the day began, and the
  -- spend since the month began, are never above the hard caps: after any number of requests on
  -- an empty ledger, at every time from the last request on. (Months begin no earlier for later
  -- times.)
  pub requests_stay_capped :
      (requests : List Request) (now : ℕ)
      → IsTimely 0 requests
      → All (λ (r : Request). r.now ≤ now) requests
      → IsWithin now (after_requests requests empty)
  unfolding sum_cost_since
  requests_stay_capped requests now timely past =
      requests_keep requests 0 empty timely (λ later k. (omega arith, omega arith)) now past
        (omega arith)
