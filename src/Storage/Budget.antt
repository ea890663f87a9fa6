-- ===== src/Storage/Budget.antt =====
-- adapters/sqlite/budget.py: the budget ledger and its circuit breaker. Amounts are exact numbers
-- of a smallest unit, so the sums of the model do not round; NaN and infinities are left out.

pub mod Caps
use talisman_v.Prelude.{
  ℕ, ◌+◌, ◌*◌, ◌/◌, String, Bool, true, false, Option, none, some, List, [], ◌∷◌, ◌++◌, ltb, leb,
  ◌==◌, if◌then◌else◌,
}
use talisman_v.Prelude.Int.{ℤ, pos, negsuc}

pub data BudgetDecision : Type 0 where
  allowed pause_daily pause_monthly : BudgetDecision

-- What the adapter raises.
pub data BudgetError : Type 0 where
  value_error missing_row : BudgetError
  circuit_open : BudgetDecision → BudgetError

pub data Result {ℓ} (A : Type ℓ) : Type ℓ where
  ok : A → Result A
  err : BudgetError → Result A

infixl 5 ◌>>=◌
abbrev pub ◌>>=◌ {ℓ κ} : {A : Type ℓ} {B : Type κ} → Result A → (A → Result B) → Result B
ok a >>= f = f a
err e >>= f = err e

pub record BudgetEvent : Type 0 where
  pub id : ℕ
  pub project_id : Option String
  pub cost_usd : ℕ
  pub created_at : ℕ

pub record BudgetTable : Type 0 where
  pub rows : List BudgetEvent
  pub last_id : ℕ

abbrev pub empty : BudgetTable
empty = record { rows = []; last_id = 0 }

-- `_validate_non_negative`: the amount, which is a natural number then
abbrev pub validate_non_negative : ℤ → Result ℕ
validate_non_negative (pos n) = ok n
validate_non_negative (negsuc n) = err value_error

abbrev pub spend_row : ℕ → ℕ → Option String → BudgetTable → BudgetEvent
spend_row now cost project_id t = record {
  id = t.last_id + 1;
  project_id = project_id;
  cost_usd = cost;
  created_at = now;
}

-- `SELECT ... WHERE id = ?`, the first row; a missing row is the `RuntimeError`
unfoldable pub select_by_id : ℕ → List BudgetEvent → Result BudgetEvent
select_by_id id [] = err missing_row
select_by_id id (r ∷ rs) = if r.id == id then ok r else select_by_id id rs

abbrev pub insert_spend :
    ℕ → Option String → BudgetTable → Result ℕ → Result BudgetEvent × BudgetTable
insert_spend now project_id t (err e) = (err e, t)
insert_spend now project_id t (ok cost) =
    let rows = t.rows ++ spend_row now cost project_id t ∷ [] in
    (select_by_id (t.last_id + 1) rows, record { rows = rows; last_id = t.last_id + 1 })

-- `record_spend`: the inserted row is read back and committed
unfoldable pub record_spend : ℕ → ℤ → Option String → BudgetTable → Result BudgetEvent × BudgetTable
unfolding select_by_id
record_spend now cost_usd project_id t =
    insert_spend now project_id t (validate_non_negative cost_usd)

-- `_sum_cost_since`
unfoldable pub sum_cost_since : ℕ → List BudgetEvent → ℕ
sum_cost_since cutoff [] = 0
sum_cost_since cutoff (r ∷ rs) =
    (if leb cutoff r.created_at then r.cost_usd else 0) + sum_cost_since cutoff rs

-- `_start_of_today_utc`, in seconds
abbrev pub start_of_today : ℕ → ℕ
start_of_today now = now / 86_400 * 86_400

-- The calendar of `datetime`: the first second of the month of a time, as `_start_of_month_utc`
-- takes it.
module _ (start_of_month : ℕ → ℕ) where
  abbrev pub current_daily_spend_usd : ℕ → BudgetTable → ℕ
  current_daily_spend_usd now t = sum_cost_since (start_of_today now) t.rows

  abbrev pub current_monthly_spend_usd : ℕ → BudgetTable → ℕ
  current_monthly_spend_usd now t = sum_cost_since (start_of_month now) t.rows

  abbrev decide : ℕ → BudgetTable → ℕ → ℕ → ℕ → BudgetDecision
  decide now t estimated daily_hard monthly_hard =
      if ltb daily_hard (current_daily_spend_usd now t + estimated)
      then pause_daily
      else if ltb monthly_hard (current_monthly_spend_usd now t + estimated)
      then pause_monthly
      else allowed

  unfoldable pub check_call : ℕ → BudgetTable → ℤ → ℤ → ℤ → Result BudgetDecision
  check_call now t estimated_cost_usd daily_hard_usd monthly_hard_usd = do
    estimated ← validate_non_negative estimated_cost_usd
    daily_hard ← validate_non_negative daily_hard_usd
    monthly_hard ← validate_non_negative monthly_hard_usd
    ok (decide now t estimated daily_hard monthly_hard)

  abbrev or_open : BudgetDecision → Result (Unit {0})
  or_open allowed = ok tt
  or_open pause_daily = err (circuit_open pause_daily)
  or_open pause_monthly = err (circuit_open pause_monthly)

  unfoldable pub require_call_allowed : ℕ → BudgetTable → ℤ → ℤ → ℤ → Result (Unit {0})
  unfolding check_call
  require_call_allowed now t estimated_cost_usd daily_hard_usd monthly_hard_usd = do
    decision ← check_call now t estimated_cost_usd daily_hard_usd monthly_hard_usd
    or_open decision
