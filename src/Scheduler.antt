-- ===== src/Scheduler.antt =====
-- scheduler/portfolio.py: the portfolio scheduler. Times are microseconds since the epoch of
-- `datetime`, its resolution; the clock is read by the caller and handed in, where a method reads
-- it. Waits, which the program holds as float seconds, are counted in microseconds too.
pub mod Task
pub mod Selection
pub mod Slots
pub mod Starting
pub mod Sequences
pub mod Aging
pub mod Metrics
pub mod Waits
pub mod Recorded
use talisman_v.Prelude.{
  ℕ, zero, suc, ◌+◌, ◌-◌, String, Bool, true, false, not, ◌&&◌, ◌||◌, Option, none, some, List, [],
  ◌∷◌, ◌++◌, map, has, same, length, ltb, leb, if◌then◌else◌,
}
use Prim.Native.Nat.{max}
use talisman_v.Prelude.Int.{ℤ, pos, pos_part, ltb_ℤ}
use talisman_v.Prelude.Dict
use talisman_v.Prelude.Dict.{Dict, keys, get, put, remove}
use talisman_v.Scheduler.Task.{
  ScheduledTask, waiting_for_slot, blocked_on_user_approval_reason, wait_reason, wait_seconds,
  age_task, best_index, pop,
}

pub record PortfolioScheduler : Type 0 where
  pub limit : ℕ
  pub aging_threshold : ℕ
  pub queued : List ScheduledTask
  pub active : Dict ScheduledTask
  pub started_wait_totals : Dict ℕ
  pub started_wait_longest : Dict ℕ
  pub started_wait_counts : Dict ℕ
  pub last_wait_reasons : Dict (Option String)

abbrev pub ids : List ScheduledTask → List String
ids = map (λ t. t.task_id)

-- `__init__`; `none` is its `ValueError`
unfoldable pub create : ℤ → ℤ → Option PortfolioScheduler
create active_slot_limit aging_threshold =
    if ltb_ℤ active_slot_limit (pos 1)
    then none
    else if not (ltb_ℤ (pos 0) aging_threshold)
    then none
    else some (record {
      limit = pos_part active_slot_limit;
      aging_threshold = pos_part aging_threshold;
      queued = [];
      active = [];
      started_wait_totals = [];
      started_wait_longest = [];
      started_wait_counts = [];
      last_wait_reasons = [];
    })

abbrev pub active_count : PortfolioScheduler → ℕ
active_count s = length s.active

abbrev pub queued_count : PortfolioScheduler → ℕ
queued_count s = length s.queued

abbrev pub has_free_slot : PortfolioScheduler → Bool
has_free_slot s = ltb (active_count s) s.limit

unfoldable pub is_scheduled : PortfolioScheduler → String → Bool
is_scheduled s task_id = has task_id (keys s.active) || has task_id (ids s.queued)

-- the task as `enqueue` appends it
abbrev pub queue_entry : ℕ → ScheduledTask → ScheduledTask
queue_entry now task = record task {
  enqueued_at = some now;
  started_at = none;
  total_wait_seconds = 0;
  last_wait_reason = some (wait_reason task.blocked_on_user_approval);
  aging_promotions_applied = 0;
}

-- `enqueue`; `none` is its `ValueError`
unfoldable pub enqueue : ℕ → ScheduledTask → PortfolioScheduler → Option PortfolioScheduler
enqueue now task s =
    if is_scheduled s task.task_id
    then none
    else some (record s { queued = s.queued ++ queue_entry now task ∷ [] })

abbrev or_zero : Option ℕ → ℕ
or_zero none = 0
or_zero (some n) = n

-- `_record_started_wait`
unfoldable pub record_started_wait : ScheduledTask → PortfolioScheduler → PortfolioScheduler
record_started_wait task s = record s {
  started_wait_totals =
      put s.started_wait_totals task.project_id
        (or_zero (get s.started_wait_totals task.project_id) + task.total_wait_seconds);
  started_wait_longest =
      put s.started_wait_longest task.project_id
        (max (or_zero (get s.started_wait_longest task.project_id)) task.total_wait_seconds);
  started_wait_counts =
      put s.started_wait_counts task.project_id
        (or_zero (get s.started_wait_counts task.project_id) + 1);
  last_wait_reasons = put s.last_wait_reasons task.project_id task.last_wait_reason;
}

-- the started task, once it is popped
unfoldable pub start_task :
    ℕ
    → PortfolioScheduler
    → ScheduledTask
    → List ScheduledTask
    → Option ScheduledTask × PortfolioScheduler
unfolding record_started_wait wait_seconds
start_task now s task rest =
    let started_task = record task {
      started_at = some now;
      total_wait_seconds = wait_seconds task now;
    } in
    (
      some started_task,
      record_started_wait started_task
          (record s { queued = rest; active = put s.active task.task_id started_task }),
    )

abbrev pub start_popped :
    ℕ
    → PortfolioScheduler
    → Option (ScheduledTask × List ScheduledTask)
    → Option ScheduledTask × PortfolioScheduler
start_popped now s none = (none, s)
start_popped now s (some (task, rest)) = start_task now s task rest

-- the body of `start_next`; the queue is split for the test of its emptiness
unfoldable pub start_from :
    ℕ → PortfolioScheduler → List ScheduledTask → Option ScheduledTask × PortfolioScheduler
unfolding start_task
start_from now s [] = (none, s)
start_from now s (t ∷ ts) = start_popped now s (pop (t ∷ ts) (best_index ts 1 0 t.priority))

unfoldable pub start_next : ℕ → PortfolioScheduler → Option ScheduledTask × PortfolioScheduler
unfolding start_from
start_next now s = if has_free_slot s then start_from now s s.queued else (none, s)

unfoldable pub complete : String → PortfolioScheduler → PortfolioScheduler
complete task_id s = record s { active = remove s.active task_id }

abbrev pub mark : Bool → ScheduledTask → ScheduledTask
mark blocked task = record task {
  blocked_on_user_approval = blocked;
  last_wait_reason = some (wait_reason blocked);
}

-- the first queued task of that id, marked
unfoldable pub mark_first : String → Bool → List ScheduledTask → List ScheduledTask
mark_first task_id blocked [] = []
mark_first task_id blocked (t ∷ ts) =
    if same t.task_id task_id then mark blocked t ∷ ts else t ∷ mark_first task_id blocked ts

abbrev pub mark_active :
    String → Bool → PortfolioScheduler → Option ScheduledTask → Option PortfolioScheduler
mark_active task_id blocked s none = none
mark_active task_id blocked s (some task) =
    some (record s { active = put s.active task_id (mark blocked task) })

-- `mark_blocked_on_user_approval`; `none` is its `ValueError`
unfoldable pub mark_blocked_on_user_approval :
    String → Bool → PortfolioScheduler → Option PortfolioScheduler
unfolding mark_first
mark_blocked_on_user_approval task_id blocked s =
    if has task_id (ids s.queued)
    then some (record s { queued = mark_first task_id blocked s.queued })
    else mark_active task_id blocked s (get s.active task_id)

-- the loop of `apply_aging`: the queue and the promotions that were applied
unfoldable pub age_queue : ℕ → ℕ → List String → List ScheduledTask → List ScheduledTask × ℕ
unfolding age_task
age_queue threshold now blocked_ids [] = ([], 0)
age_queue threshold now blocked_ids (t ∷ ts) =
    let (aged, due) = age_task threshold now blocked_ids t in
    let (rest, promotions) = age_queue threshold now blocked_ids ts in
    (aged ∷ rest, due + promotions)

abbrev or_clock : Option ℕ → ℕ → ℕ
or_clock none clock = clock
or_clock (some now) clock = now

unfoldable pub apply_aging :
    ℕ → Option ℕ → List String → PortfolioScheduler → PortfolioScheduler × ℕ
unfolding age_queue
apply_aging clock now blocked_task_ids s =
    let (queue, promotions) =
      age_queue s.aging_threshold (or_clock now clock) blocked_task_ids s.queued in
    (record s { queued = queue }, promotions)
