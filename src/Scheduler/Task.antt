-- ===== src/Scheduler/Task.antt =====
-- The tasks of scheduler/portfolio.py, their waits and their aging, and the choice of the next.
use talisman_v.Prelude.{
  ℕ, zero, suc, ◌-◌, ◌/◌, String, Bool, false, not, ◌&&◌, ◌||◌, Option, none, some, List, [], ◌∷◌,
  has, same, ltb, leb, if◌then◌else◌,
}
use talisman_v.Prelude.Int.{ℤ, pos, ◌+ℤ◌, ltb_ℤ}

pub record ScheduledTask : Type 0 where
  pub task_id : String
  pub project_id : String
  pub priority : ℤ
  pub enqueued_at : Option ℕ
  pub started_at : Option ℕ
  pub total_wait_seconds : ℕ
  pub last_wait_reason : Option String
  pub blocked_on_user_approval : Bool
  pub aging_promotions_applied : ℕ

abbrev pub waiting_for_slot : String
waiting_for_slot = "waiting_for_slot"

abbrev pub blocked_on_user_approval_reason : String
blocked_on_user_approval_reason = "blocked_on_user_approval"

abbrev pub wait_reason : Bool → String
wait_reason blocked = if blocked then blocked_on_user_approval_reason else waiting_for_slot

-- `_wait_seconds`: `max(0, now - enqueued_at)` is the truncated difference
unfoldable pub wait_seconds : ScheduledTask → ℕ → ℕ
wait_seconds task now = elim task.enqueued_at [
  | none ↦ task.total_wait_seconds
  | some enqueued_at ↦ now - enqueued_at
]

-- full thresholds since a time; a time that is still to come is not past the positive threshold
unfoldable pub windows_since : ℕ → Option ℕ → ℕ → ℕ
windows_since threshold none now = 0
windows_since threshold (some enqueued_at) now =
    if leb (now - enqueued_at) threshold then 0 else (now - enqueued_at) / threshold

-- `_aging_windows`
unfoldable pub aging_windows : ℕ → ScheduledTask → ℕ → ℕ
aging_windows threshold task now = windows_since threshold task.enqueued_at now

abbrev is_waiting_for_slot : Option String → Bool
is_waiting_for_slot none = false
is_waiting_for_slot (some reason) = same reason waiting_for_slot

-- the body of the loop of `apply_aging`: the task and its promotions
unfoldable pub age_task : ℕ → ℕ → List String → ScheduledTask → ScheduledTask × ℕ
unfolding aging_windows
age_task threshold now blocked_ids task =
    if task.blocked_on_user_approval || has task.task_id blocked_ids
    then (record task { last_wait_reason = some blocked_on_user_approval_reason }, 0)
    else (let windows = aging_windows threshold task now in
        if leb windows task.aging_promotions_applied
        then (if is_waiting_for_slot task.last_wait_reason
            then (task, 0)
            else (record task { last_wait_reason = some waiting_for_slot }, 0))
        else (
          record task {
            priority = task.priority +ℤ pos (windows - task.aging_promotions_applied);
            last_wait_reason = some waiting_for_slot;
            aging_promotions_applied = windows;
          },
          windows - task.aging_promotions_applied,
        ))

-- the key `(priority, -i)` of one index is above that of another
abbrev pub key_above : ℤ → ℕ → ℤ → ℕ → Bool
key_above p i q j = ltb_ℤ q p || (not (ltb_ℤ p q) && ltb i j)

-- the loop of `max(range(len(queued)), key=...)`: the tasks from index `i` on, and the best before
unfoldable pub best_index : List ScheduledTask → ℕ → ℕ → ℤ → ℕ
best_index [] i best p = best
best_index (t ∷ ts) i best p =
    let here = key_above t.priority i p best in
    best_index ts (suc i) (if here then i else best) (if here then t.priority else p)

-- `queued.pop(index)`
module _ {ℓ} {A : Type ℓ} where
  abbrev behind : A → Option (A × List A) → Option (A × List A)
  behind x none = none
  behind x (some (y, ys)) = some (y, x ∷ ys)

  unfoldable pub pop : List A → ℕ → Option (A × List A)
  pop [] i = none
  pop (x ∷ xs) zero = some (x, xs)
  pop (x ∷ xs) (suc i) = behind x (pop xs i)
