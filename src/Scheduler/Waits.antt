-- ===== src/Scheduler/Waits.antt =====
-- What the calls of scheduler/portfolio.py start, and the waits that the scheduler keeps of it.
use talisman_v.Prelude.{
  ℕ, ◌+◌, String, ◌≡◌, Bool, Bool-cases, inl, inr, Option, none, some, List, [], ◌∷◌, arith, has,
  same, same_iff, if◌then◌else◌,
}
use talisman_v.Prelude.Dict.{Dict, get, put}
use talisman_v.Scheduler.{
  PortfolioScheduler, is_scheduled, enqueue, or_zero, record_started_wait, start_task, start_popped,
  start_from, start_next, has_free_slot, complete, mark_active, mark_blocked_on_user_approval,
  apply_aging, ids,
}
use talisman_v.Scheduler.Task.{ScheduledTask, wait_seconds}
use talisman_v.Scheduler.Sequences.{
  Call, enqueue_call, start_call, complete_call, mark_call, aging_call, or_unchanged, after_call,
  after_calls,
}
use talisman_v.Scheduler.Metrics.{started_total}

-- what a call to `start_next` returned
abbrev pub returned : Call → PortfolioScheduler → Option ScheduledTask
returned (start_call now) s = (start_next now s).0
returned (enqueue_call now task) s = none
returned (complete_call task_id) s = none
returned (mark_call task_id blocked) s = none
returned (aging_call clock now blocked_ids) s = none

abbrev with_task : Option ScheduledTask → List ScheduledTask → List ScheduledTask
with_task none tasks = tasks
with_task (some task) tasks = task ∷ tasks

-- The tasks that the calls started, as `start_next` returned them, in the order of the calls.
unfoldable pub started_by : List Call → PortfolioScheduler → List ScheduledTask
started_by [] s = []
started_by (c ∷ calls) s = with_task (returned c s) (started_by calls (after_call c s))

-- The sum of the waits of the tasks of a project.
unfoldable pub waits_of : String → List ScheduledTask → ℕ
waits_of project_id [] = 0
waits_of project_id (task ∷ tasks) =
    (if same task.project_id project_id then task.total_wait_seconds else 0)
    + waits_of project_id tasks

started_total-put :
    (project_id key : String) (totals : Dict ℕ) (n : ℕ)
    → started_total project_id (put totals key (or_zero (get totals key) + n))
      ≡ started_total project_id totals + (if same key project_id then n else 0)
unfolding started_total put get
started_total-put project_id key [] n = elim (Bool-cases (same key project_id)) [
  | inl e ↦ rw e (omega arith)
  | inr e ↦ rw e (omega arith)
]
started_total-put project_id key ((id, total) ∷ totals) n =
    let rest = started_total-put project_id key totals n in
    ground (arith, rest, same_iff id key, same_iff id project_id, same_iff key project_id)

-- the waits kept of a project, and those of what a call returned
abbrev kept : String → PortfolioScheduler → ℕ
kept project_id s = started_total project_id s.started_wait_totals

abbrev Adds : String → PortfolioScheduler → Option ScheduledTask × PortfolioScheduler → Type 0
Adds project_id s (started, after) =
    kept project_id after ≡ kept project_id s + waits_of project_id (with_task started [])

nothing_added : (project_id : String) (s : PortfolioScheduler) → Adds project_id s (none, s)
unfolding waits_of
nothing_added project_id s = omega arith

start_popped-Adds :
    (project_id : String) (now : ℕ) (s : PortfolioScheduler)
    (popped : Option (ScheduledTask × List ScheduledTask))
    → Adds project_id s (start_popped now s popped)
unfolding start_task record_started_wait waits_of
start_popped-Adds project_id now s none = omega arith
start_popped-Adds project_id now s (some (task, rest)) =
    let put_total =
      started_total-put project_id task.project_id s.started_wait_totals (wait_seconds task now) in
    omega (arith, put_total)

start_from-Adds :
    (project_id : String) (now : ℕ) (s : PortfolioScheduler) (queue : List ScheduledTask)
    → Adds project_id s (start_from now s queue)
unfolding start_from
start_from-Adds project_id now s [] = nothing_added project_id s
start_from-Adds project_id now s (t ∷ ts) = start_popped-Adds project_id now s _

start_next-Adds :
    (project_id : String) (now : ℕ) (s : PortfolioScheduler) → Adds project_id s (start_next now s)
unfolding start_next
start_next-Adds project_id now s = elim (Bool-cases (has_free_slot s)) [
  | inl e ↦ rw e (start_from-Adds project_id now s s.queued)
  | inr e ↦ rw e (nothing_added project_id s)
]

mark_active-Adds :
    (project_id task_id : String) (blocked : Bool) (s : PortfolioScheduler)
    (task : Option ScheduledTask)
    → Adds project_id s (none, or_unchanged (mark_active task_id blocked s task) s)
mark_active-Adds project_id task_id blocked s none = nothing_added project_id s
mark_active-Adds project_id task_id blocked s (some task) = nothing_added project_id s

after_call-Adds :
    (project_id : String) (c : Call) (s : PortfolioScheduler)
    → Adds project_id s (returned c s, after_call c s)
unfolding after_call enqueue complete mark_blocked_on_user_approval apply_aging
after_call-Adds project_id (enqueue_call now task) s =
    elim (Bool-cases (is_scheduled s task.task_id)) [
      | inl e ↦ rw e (nothing_added project_id s)
      | inr e ↦ rw e (nothing_added project_id s)
    ]
after_call-Adds project_id (start_call now) s = start_next-Adds project_id now s
after_call-Adds project_id (complete_call task_id) s = nothing_added project_id s
after_call-Adds project_id (mark_call task_id blocked) s =
    elim (Bool-cases (has task_id (ids s.queued))) [
      | inl e ↦ rw e (nothing_added project_id s)
      | inr e ↦ rw e (mark_active-Adds project_id task_id blocked s (get s.active task_id))
    ]
after_call-Adds project_id (aging_call clock now blocked_ids) s = nothing_added project_id s

waits-with_task :
    (project_id : String) (started : Option ScheduledTask) (tasks : List ScheduledTask)
    → waits_of project_id (with_task started tasks)
      ≡ waits_of project_id (with_task started []) + waits_of project_id tasks
unfolding waits_of
waits-with_task project_id none tasks = omega arith
waits-with_task project_id (some task) tasks = omega arith

pub kept-after_calls :
    (project_id : String) (calls : List Call) (s : PortfolioScheduler)
    → started_total project_id (after_calls calls s).started_wait_totals
      ≡ started_total project_id s.started_wait_totals + waits_of project_id (started_by calls s)
unfolding after_calls started_by
kept-after_calls project_id [] s = unfold waits_of in omega arith
kept-after_calls project_id (c ∷ calls) s =
    let here = after_call-Adds project_id c s in
    let rest = kept-after_calls project_id calls (after_call c s) in
    let split = waits-with_task project_id (returned c s) (started_by calls (after_call c s)) in
    omega (arith, here, rest, split)
