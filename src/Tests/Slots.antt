-- ===== src/Tests/Slots.antt =====
-- Concrete schedules of scheduler/portfolio.py.
use talisman_v.Prelude.{
  has, length, ◌⊎◌, ◌≢◌, ◌<◌, ◌≤◌, ◌+◌, ◌≡◌, refl, true, false, none, some, List, [], ◌∷◌, String,
  arith,
}
use talisman_v.Prelude.Int.{ℤ, pos, ◌+ℤ◌}
use talisman_v.Scheduler.{
  PortfolioScheduler, create, start_next, start_task, record_started_wait, apply_aging, enqueue,
  is_scheduled,
}
use talisman_v.Scheduler.Task.{ScheduledTask, windows_since, wait_seconds, best_index, pop}
use talisman_v.Scheduler.Slots.{IsSound}
use talisman_v.Scheduler.Starting.{start_next_starts, IsStart}
use talisman_v.Scheduler.Sequences.{
  Call, after_call, enqueue_call, start_call, complete_call, mark_call, aging_call, after_calls,
  after_calls-IsSound,
}
use talisman_v.Prelude.Dict.{Dict, put, get}
use talisman_v.Prelude.Raises.{returns}
use talisman_v.Scheduler.Waits.{started_by, waits_of}
use talisman_v.Scheduler.Recorded.{reachable_metrics_add_up}
use talisman_v.Scheduler.Metrics.{
  ProjectWaitMetrics, accumulator_for, wait_metrics_by_project, queued_total, queued_number,
}
use talisman_v.Scheduler.Aging.{apply_aging_twice}

abbrev task : String → ℤ → ScheduledTask
task id priority = record {
  task_id = id;
  project_id = "p";
  priority = priority;
  enqueued_at = none;
  started_at = none;
  total_wait_seconds = 0;
  last_wait_reason = none;
  blocked_on_user_approval = false;
  aging_promotions_applied = 0;
}

abbrev fresh : PortfolioScheduler
fresh = record {
  limit = 2;
  aging_threshold = 10;
  queued = [];
  active = [];
  started_wait_totals = [];
  started_wait_longest = [];
  started_wait_counts = [];
  last_wait_reasons = [];
}

create-fresh : create (pos 2) (pos 10) ≡ some fresh
unfolding create
create-fresh = refl

abbrev calls : List Call
calls =
    enqueue_call 1 (task "low" (pos 0))
    ∷ enqueue_call 2 (task "high" (pos 5))
    ∷ enqueue_call 3 (task "high" (pos 9))
    ∷ mark_call "low" true
    ∷ aging_call 40 none []
    ∷ start_call 41
    ∷ start_call 42
    ∷ complete_call "high"
    ∷ []

after_calls-IsSound_example : IsSound (after_calls calls fresh)
after_calls-IsSound_example = after_calls-IsSound (pos 2) (pos 10) fresh calls create-fresh

-- two queued tasks, enqueued at 1 and at 2
abbrev loaded : PortfolioScheduler
loaded =
    after_calls (enqueue_call 1 (task "low" (pos 0)) ∷ enqueue_call 2 (task "high" (pos 5)) ∷ [])
      fresh

start_next_starts_example :
    ((length loaded.active < loaded.limit)
      × (loaded.queued ≢ [])
      × ((started : ScheduledTask) × ((start_next 41 loaded).0 ≡ some started)
          × IsStart 41 loaded (start_next 41 loaded).1 started))
    ⊎ (((loaded.limit ≤ length loaded.active) ⊎ (loaded.queued ≡ []))
        × (start_next 41 loaded ≡ (none, loaded)))
start_next_starts_example = start_next_starts 41 loaded

apply_aging_twice_example :
    ((apply_aging 0 (some 45) [] (apply_aging 0 (some 25) [] loaded).0).0
      ≡ (apply_aging 0 (some 45) [] loaded).0)
    × ((apply_aging 0 (some 25) [] loaded).1
          + (apply_aging 0 (some 45) [] (apply_aging 0 (some 25) [] loaded).0).1
        ≡ (apply_aging 0 (some 45) [] loaded).1)
apply_aging_twice_example = apply_aging_twice 0 0 25 45 [] loaded (omega arith)

-- "high" waits 23 at time 25 and 43 at time 45: two promotions, then two more; so does "low"
aging_runs : (apply_aging 0 (some 25) [] loaded).1 ≡ 4
unfolding apply_aging after_calls enqueue windows_since ◌+ℤ◌ is_scheduled has
aging_runs = refl

-- one task started at 41, and one still queued
abbrev half_started : PortfolioScheduler
half_started = after_calls (start_call 41 ∷ []) loaded

reachable_metrics_add_up_example :
    (metrics : Dict ProjectWaitMetrics) × (wait_metrics_by_project 50 half_started
      ≡ returns metrics)
    × ((accumulator_for metrics "p").queued_count ≡ 1)
    × ((accumulator_for metrics "p").total_wait_seconds ≡ 88)
unfolding after_calls enqueue start_next is_scheduled has start_task best_index record_started_wait
    after_call wait_seconds put get started_by waits_of queued_total queued_number pop
reachable_metrics_add_up_example =
    reachable_metrics_add_up (pos 2) (pos 10) fresh
      (enqueue_call 1 (task "low" (pos 0))
        ∷ enqueue_call 2 (task "high" (pos 5))
        ∷ start_call 41
        ∷ [])
      50 "p" create-fresh
