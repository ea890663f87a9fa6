-- ===== src/Scheduler/Recorded.antt =====
-- The wait metrics of every scheduler of scheduler/portfolio.py that calls can reach.
use talisman_v.Prelude.{
  ℕ, arith, ◌+◌, String, ◌≡◌, ◌≢◌, Bool-cases, inl, inr, Option, none, some, List, [], ◌∷◌, has,
  refl, same, same_refl, All, All-map,
}
use talisman_v.Prelude.Int.{ℤ}
use talisman_v.Prelude.Dict.{Dict, get, put, get-put}
use talisman_v.Prelude.Raises.{returns}
use talisman_v.Scheduler.{
  PortfolioScheduler, create, is_scheduled, enqueue, record_started_wait, start_task, start_popped,
  start_from, start_next, has_free_slot, complete, mark_active, mark_blocked_on_user_approval,
  apply_aging, ids,
}
use talisman_v.Scheduler.Task.{ScheduledTask, wait_seconds}
use talisman_v.Scheduler.Sequences.{
  Call, enqueue_call, start_call, complete_call, mark_call, aging_call, or_unchanged, after_call,
  after_calls,
}
use talisman_v.Scheduler.Metrics.{
  ProjectWaitMetrics, wait_metrics_by_project, accumulator_for, queued_number, queued_total,
  started_total, IsRecorded, metrics_add_up,
}
use talisman_v.Scheduler.Waits.{started_by, waits_of, kept-after_calls}

abbrev AllRecorded : PortfolioScheduler → Type 0
AllRecorded s = IsRecorded s s.started_wait_totals

-- a property of keys goes on to a dictionary with one key more
All-put :
    (P : String → Type 0) (d : Dict ℕ) (k : String) (v : ℕ)
    → All (λ (e : String × ℕ). P e.0) d
    → P k
    → All (λ (e : String × ℕ). P e.0) (put d k v)
unfolding put
All-put P [] k v h p = (p, tt)
All-put P ((j, w) ∷ d) k v (h, hs) p = elim (Bool-cases (same j k)) [
  | inl e ↦ rw e (h, hs)
  | inr e ↦ rw e (h, All-put P d k v hs p)
]

present-put : (d : Dict ℕ) (k j : String) (v : ℕ) → get d j ≢ none → get (put d k v) j ≢ none
present-put d k j v h = elim (Bool-cases (same k j)) [
  | inl e ↦ rw (get-put d k j v, e) (λ n. cc)
  | inr e ↦ rw (get-put d k j v, e) h
]

put-present : (d : Dict ℕ) (k : String) (v : ℕ) → get (put d k v) k ≢ none
put-present d k v = rw (get-put d k k v, same_refl k) (λ n. cc)

record_started_wait-AllRecorded :
    (task : ScheduledTask) (s : PortfolioScheduler)
    → AllRecorded s
    → AllRecorded (record_started_wait task s)
unfolding record_started_wait
record_started_wait-AllRecorded task s h =
    All-put
      (λ id.
        (get (record_started_wait task s).started_wait_counts id ≢ none)
        × (get (record_started_wait task s).started_wait_longest id ≢ none))
      s.started_wait_totals task.project_id _
      (All-map _ _ s.started_wait_totals
        (λ e (c, l). (
          present-put s.started_wait_counts task.project_id e.0 _ c,
          present-put s.started_wait_longest task.project_id e.0 _ l,
        ))
        h)
      (
        put-present s.started_wait_counts task.project_id _,
        put-present s.started_wait_longest task.project_id _,
      )

start_popped-AllRecorded :
    (now : ℕ) (s : PortfolioScheduler) (popped : Option (ScheduledTask × List ScheduledTask))
    → AllRecorded s
    → AllRecorded (start_popped now s popped).1
unfolding start_task
start_popped-AllRecorded now s none h = h
start_popped-AllRecorded now s (some (task, rest)) h =
    let started_task = record task {
      started_at = some now;
      total_wait_seconds = wait_seconds task now;
    } in
    record_started_wait-AllRecorded started_task
      (record s { queued = rest; active = put s.active task.task_id started_task }) h

start_from-AllRecorded :
    (now : ℕ) (s : PortfolioScheduler) (queue : List ScheduledTask)
    → AllRecorded s
    → AllRecorded (start_from now s queue).1
unfolding start_from
start_from-AllRecorded now s [] h = h
start_from-AllRecorded now s (t ∷ ts) h = start_popped-AllRecorded now s _ h

start_next-AllRecorded :
    (now : ℕ) (s : PortfolioScheduler) → AllRecorded s → AllRecorded (start_next now s).1
unfolding start_next
start_next-AllRecorded now s h = elim (Bool-cases (has_free_slot s)) [
  | inl e ↦ rw e (start_from-AllRecorded now s s.queued h)
  | inr e ↦ rw e h
]

mark_active-AllRecorded :
    (task_id : String) (blocked : _) (s : PortfolioScheduler) (task : Option ScheduledTask)
    → AllRecorded s
    → AllRecorded (or_unchanged (mark_active task_id blocked s task) s)
mark_active-AllRecorded task_id blocked s none h = h
mark_active-AllRecorded task_id blocked s (some task) h = h

after_call-AllRecorded :
    (c : Call) (s : PortfolioScheduler) → AllRecorded s → AllRecorded (after_call c s)
unfolding after_call enqueue complete mark_blocked_on_user_approval apply_aging
after_call-AllRecorded (enqueue_call now task) s h =
    elim (Bool-cases (is_scheduled s task.task_id)) [ inl e ↦ rw e h | inr e ↦ rw e h ]
after_call-AllRecorded (start_call now) s h = start_next-AllRecorded now s h
after_call-AllRecorded (complete_call task_id) s h = h
after_call-AllRecorded (mark_call task_id blocked) s h =
    elim (Bool-cases (has task_id (ids s.queued))) [
      | inl e ↦ rw e h
      | inr e ↦ rw e (mark_active-AllRecorded task_id blocked s (get s.active task_id) h)
    ]
after_call-AllRecorded (aging_call clock now blocked_ids) s h = h

after_calls-AllRecorded :
    (calls : List Call) (s : PortfolioScheduler) → AllRecorded s → AllRecorded (after_calls calls s)
unfolding after_calls
after_calls-AllRecorded [] s h = h
after_calls-AllRecorded (c ∷ calls) s h =
    after_calls-AllRecorded calls (after_call c s) (after_call-AllRecorded c s h)

create-AllRecorded :
    (active_slot_limit aging_threshold : ℤ) (s : PortfolioScheduler)
    → create active_slot_limit aging_threshold ≡ some s
    → AllRecorded s
unfolding create
create-AllRecorded active_slot_limit aging_threshold s e =
    let empty : s.started_wait_totals ≡ [] = ground arith in rw empty tt

create-empty :
    (active_slot_limit aging_threshold : ℤ) (s : PortfolioScheduler) (project_id : String)
    → create active_slot_limit aging_threshold ≡ some s
    → started_total project_id s.started_wait_totals ≡ 0
unfolding create started_total
create-empty active_slot_limit aging_threshold s project_id e =
    let empty : s.started_wait_totals ≡ [] = ground arith in rw empty refl

-- After any sequence of calls on a scheduler that its constructor accepted, the wait metrics are
-- computed with no error, and for every project they count the queued tasks of that project, and
-- add up the waits of the tasks of that project that the calls of `start_next` returned, in any
-- order and with any completed since, and the waits of its queued tasks.
pub reachable_metrics_add_up :
    (active_slot_limit aging_threshold : ℤ) (s : PortfolioScheduler) (calls : List Call) (now : ℕ)
    (project_id : String)
    → create active_slot_limit aging_threshold ≡ some s
    → (metrics : Dict ProjectWaitMetrics) × (wait_metrics_by_project now (after_calls calls s)
        ≡ returns metrics)
      × ((accumulator_for metrics project_id).queued_count
          ≡ queued_number project_id (after_calls calls s).queued)
      × ((accumulator_for metrics project_id).total_wait_seconds
          ≡ waits_of project_id (started_by calls s)
            + queued_total now project_id (after_calls calls s).queued)
reachable_metrics_add_up active_slot_limit aging_threshold s calls now project_id e =
    let (metrics, computed, counted, total) = metrics_add_up now (after_calls calls s) project_id (
      after_calls-AllRecorded calls s (create-AllRecorded active_slot_limit aging_threshold s e)) in
    let empty = create-empty active_slot_limit aging_threshold s project_id e in
    let recorded = kept-after_calls project_id calls s in
    (metrics, computed, counted, omega (arith, total, empty, recorded))
