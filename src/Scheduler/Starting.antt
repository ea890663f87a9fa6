-- ===== src/Scheduler/Starting.antt =====
-- `start_next` of scheduler/portfolio.py: which task starts, when none does, and the slots after.
use mathlib.Core.Path.{subst}
use mathlib.Core.List.{map-append}
use talisman_v.Prelude.{
  ℕ, ◌≤◌, ◌<◌, ◌≡◌, ◌≢◌, ◌⊎◌, refl, sym, ap, ◌∙◌, true, Bool-cases, inl, inr, Option, none, some,
  List, [], ◌∷◌, ◌++◌, arith, has, has-middle, distinct, distinct-middle, same_iff, length,
}
use talisman_v.Prelude.Dict.{keys, put, has-keys-put, distinct-put, length-put}
use talisman_v.Scheduler.{
  PortfolioScheduler, ids, has_free_slot, start_task, start_popped, start_from, start_next,
}
use talisman_v.Scheduler.Task.{ScheduledTask, wait_seconds}
use talisman_v.Scheduler.Selection.{IsFirstBest, pop-IsFirstBest}
use talisman_v.Scheduler.Slots.{IsSound}

-- A start: the task that left the queue, and where it went.
pub record IsStart (now : ℕ) (s t : PortfolioScheduler) (started : ScheduledTask) : Type 0 where
  pub task : ScheduledTask
  pub chosen : IsFirstBest s.queued task t.queued
  pub stamped :
      started ≡ record task { started_at = some now; total_wait_seconds = wait_seconds task now }
  pub free : length s.active < s.limit
  pub activated : t.active ≡ put s.active task.task_id started
  pub same_limit : t.limit ≡ s.limit

-- Where a slot is free and the queue is not empty, a task starts: the first of those with the
-- highest priority.
start_from-IsStart :
    (now : ℕ) (s : PortfolioScheduler) (t : ScheduledTask) (ts : List ScheduledTask)
    → s.queued ≡ t ∷ ts
    → length s.active < s.limit
    → (started : ScheduledTask) × ((start_from now s (t ∷ ts)).0 ≡ some started)
      × IsStart now s (start_from now s (t ∷ ts)).1 started
unfolding start_from
start_from-IsStart now s t ts q free =
    let (task, rest, e, chosen) = pop-IsFirstBest t ts in
    let popped : start_from now s (t ∷ ts) ≡ start_task now s task rest =
      ap (start_popped now s) e in
    let started = record task {
      started_at = some now;
      total_wait_seconds = wait_seconds task now;
    } in
    subst
      (λ (r : Option ScheduledTask × PortfolioScheduler).
        (started : ScheduledTask) × (r.0 ≡ some started) × IsStart now s r.1 started)
      (sym popped)
      (
        started,
        refl,
        record {
          task = task;
          chosen = rw q chosen;
          stamped = refl;
          free = free;
          activated = refl;
          same_limit = refl;
        },
      )

-- `start_next`, on every branch. With a free slot and a queue that is not empty it starts the
-- first of the queued tasks with the highest priority: the task leaves the queue, in which the
-- others keep their order, and takes a slot, stamped with the clock and its wait. With no free
-- slot, or with an empty queue, it starts nothing and changes nothing.
pub start_next_starts :
    (now : ℕ) (s : PortfolioScheduler)
    → ((length s.active < s.limit)
        × (s.queued ≢ [])
        × ((started : ScheduledTask) × ((start_next now s).0 ≡ some started)
            × IsStart now s (start_next now s).1 started))
      ⊎ (((s.limit ≤ length s.active) ⊎ (s.queued ≡ [])) × (start_next now s ≡ (none, s)))
unfolding start_next
start_next_starts now s = elim (Bool-cases (has_free_slot s)) [
  | inr full ↦ inr (inl (ground arith), rw full refl)
  | inl free ↦ rw free (by_queue s.queued refl (ground arith))
]
  where
    by_queue :
        (queue : List ScheduledTask)
        → s.queued ≡ queue
        → length s.active < s.limit
        → ((length s.active < s.limit)
            × (s.queued ≢ [])
            × ((started : ScheduledTask) × ((start_from now s s.queued).0 ≡ some started)
                × IsStart now s (start_from now s s.queued).1 started))
          ⊎ (((s.limit ≤ length s.active) ⊎ (s.queued ≡ []))
              × (start_from now s s.queued ≡ (none, s)))
    by_queue [] q free = inr (inr q, ap (start_from now s) q)
    by_queue (t ∷ ts) q free = inl (
      free,
      (λ e. cc),
      subst
          (λ l.
            (started : ScheduledTask) × ((start_from now s l).0 ≡ some started)
            × IsStart now s (start_from now s l).1 started)
          (sym q) (start_from-IsStart now s t ts q free),
    )

-- A start keeps the scheduler sound.
pub IsStart-IsSound :
    (now : ℕ) (s t : PortfolioScheduler) (started : ScheduledTask)
    → IsStart now s t started
    → IsSound s
    → IsSound t
unfolding has
IsStart-IsSound now s t started st h = record {
  positive = rw st.same_limit h.positive;
  capped =
      rw (st.activated, st.same_limit)
        (ground (arith, length-put s.active st.task.task_id started, st.free));
  distinct_active =
      rw st.activated (distinct-put s.active st.task.task_id started h.distinct_active);
  distinct_queued =
      rw left_queue (distinct-middle st.task.task_id (ids before) (ids after) middle).0;
  apart = λ id k. rw left_queue (
      ground (
        arith,
        h.apart id,
        has-middle id st.task.task_id (ids before) (ids after),
        whole_queue,
        ap (has id) whole_queue,
        ap (λ d. has id (keys d)) st.activated,
        has-keys-put s.active st.task.task_id id started,
        same_iff st.task.task_id id,
        same_iff id st.task.task_id,
        (distinct-middle st.task.task_id (ids before) (ids after) middle).1,
      ));
}
  where
    before : List ScheduledTask
    before = st.chosen.before

    after : List ScheduledTask
    after = st.chosen.after

    whole_queue : ids s.queued ≡ ids before ++ st.task.task_id ∷ ids after
    whole_queue =
        ap ids st.chosen.whole
        ∙ map-append (λ (u : ScheduledTask). u.task_id) before (st.task ∷ after)

    left_queue : ids t.queued ≡ ids before ++ ids after
    left_queue =
        ap ids st.chosen.removed ∙ map-append (λ (u : ScheduledTask). u.task_id) before after

    middle : distinct (ids before ++ st.task.task_id ∷ ids after) ≡ true
    middle = rw (← whole_queue) h.distinct_queued
