-- ===== src/Scheduler/Metrics.antt =====
-- scheduler/portfolio.py, `wait_metrics_by_project`: what each project has waited so far.
use Prim.Native.Nat.{max}
use talisman_v.Prelude.{
  ℕ, ◌+◌, String, ◌≡◌, ◌≢◌, refl, Bool-cases, inl, inr, Option, none, some, List, [], ◌∷◌, arith,
  same, same_iff, All, if◌then◌else◌,
}
use talisman_v.Prelude.Dict.{Dict, get, put, get-put}
use talisman_v.Prelude.Raises.{Raises, returns, raises, ◌>>=◌}
use talisman_v.Scheduler.{PortfolioScheduler}
use talisman_v.Scheduler.Task.{ScheduledTask, wait_seconds}

-- `_WaitAccumulator` and `ProjectWaitMetrics`, whose project id is their key
pub record ProjectWaitMetrics : Type 0 where
  pub queued_count : ℕ
  pub started_count : ℕ
  pub total_wait_seconds : ℕ
  pub longest_wait_seconds : ℕ
  pub last_wait_reason : Option String

pub data KeyError : Type 0 where
  key_error : KeyError

abbrev pub fresh_metrics : ProjectWaitMetrics
fresh_metrics = record {
  queued_count = 0;
  started_count = 0;
  total_wait_seconds = 0;
  longest_wait_seconds = 0;
  last_wait_reason = none;
}

abbrev pub or_fresh : Option ProjectWaitMetrics → ProjectWaitMetrics
or_fresh none = fresh_metrics
or_fresh (some metrics) = metrics

-- `_accumulator_for`; the caller writes the accumulator back
abbrev pub accumulator_for : Dict ProjectWaitMetrics → String → ProjectWaitMetrics
accumulator_for accumulators project_id = or_fresh (get accumulators project_id)

abbrev at_key : Option ℕ → Raises KeyError ℕ
at_key none = raises key_error
at_key (some n) = returns n

abbrev or_none : Option (Option String) → Option String
or_none none = none
or_none (some reason) = reason

abbrev with_started_entry :
    PortfolioScheduler → String → ℕ → ℕ → ℕ → Dict ProjectWaitMetrics → ProjectWaitMetrics
with_started_entry s project_id total count longest accumulators =
    let accumulator = accumulator_for accumulators project_id in
    record accumulator {
      started_count = count;
      total_wait_seconds = accumulator.total_wait_seconds + total;
      longest_wait_seconds = max accumulator.longest_wait_seconds longest;
      last_wait_reason = or_none (get s.last_wait_reasons project_id);
    }

abbrev with_started :
    PortfolioScheduler → String → ℕ → ℕ → ℕ → Dict ProjectWaitMetrics → Dict ProjectWaitMetrics
with_started s project_id total count longest accumulators =
    put accumulators project_id (with_started_entry s project_id total count longest accumulators)

-- the first loop, over `_started_wait_totals`
unfoldable pub add_started :
    PortfolioScheduler
    → Dict ℕ
    → Dict ProjectWaitMetrics
    → Raises KeyError (Dict ProjectWaitMetrics)
unfolding get put
add_started s [] accumulators = returns accumulators
add_started s ((project_id, total) ∷ totals) accumulators = do
  count ← at_key (get s.started_wait_counts project_id)
  longest ← at_key (get s.started_wait_longest project_id)
  add_started s totals (with_started s project_id total count longest accumulators)

abbrev with_queued_entry : ℕ → ScheduledTask → Dict ProjectWaitMetrics → ProjectWaitMetrics
with_queued_entry now task accumulators =
    let accumulator = accumulator_for accumulators task.project_id in
    let waited = wait_seconds task now in
    record accumulator {
      queued_count = accumulator.queued_count + 1;
      total_wait_seconds = accumulator.total_wait_seconds + waited;
      longest_wait_seconds = max accumulator.longest_wait_seconds waited;
      last_wait_reason = task.last_wait_reason;
    }

abbrev with_queued : ℕ → ScheduledTask → Dict ProjectWaitMetrics → Dict ProjectWaitMetrics
with_queued now task accumulators =
    put accumulators task.project_id (with_queued_entry now task accumulators)

-- the second loop, over the queue
unfoldable pub add_queued :
    ℕ → List ScheduledTask → Dict ProjectWaitMetrics → Dict ProjectWaitMetrics
unfolding get put
add_queued now [] accumulators = accumulators
add_queued now (task ∷ tasks) accumulators =
    add_queued now tasks (with_queued now task accumulators)

-- `wait_metrics_by_project`
unfoldable pub wait_metrics_by_project :
    ℕ → PortfolioScheduler → Raises KeyError (Dict ProjectWaitMetrics)
unfolding add_started add_queued
wait_metrics_by_project now s = do
  accumulators ← add_started s s.started_wait_totals []
  returns (add_queued now s.queued accumulators)

-- What the metrics of a project are to be: sums over the started totals and over the queue.
unfoldable pub started_total : String → Dict ℕ → ℕ
started_total project_id [] = 0
started_total project_id ((id, total) ∷ totals) =
    (if same id project_id then total else 0) + started_total project_id totals

unfoldable pub queued_total : ℕ → String → List ScheduledTask → ℕ
queued_total now project_id [] = 0
queued_total now project_id (task ∷ tasks) =
    (if same task.project_id project_id then wait_seconds task now else 0)
    + queued_total now project_id tasks

unfoldable pub queued_number : String → List ScheduledTask → ℕ
queued_number project_id [] = 0
queued_number project_id (task ∷ tasks) =
    (if same task.project_id project_id then 1 else 0) + queued_number project_id tasks

-- Each project with a started total has a count and a longest wait too.
abbrev pub IsRecorded : PortfolioScheduler → Dict ℕ → Type 0
IsRecorded s totals =
    All
      (λ (e : String × ℕ).
        (get s.started_wait_counts e.0 ≢ none) × (get s.started_wait_longest e.0 ≢ none))
      totals

abbrev Adds : String → ℕ → ℕ → Dict ProjectWaitMetrics → Dict ProjectWaitMetrics → Type 0
Adds project_id number total before after =
    ((accumulator_for after project_id).queued_count
      ≡ (accumulator_for before project_id).queued_count + number)
    × ((accumulator_for after project_id).total_wait_seconds
        ≡ (accumulator_for before project_id).total_wait_seconds + total)

put-Adds :
    (d : Dict ProjectWaitMetrics) (k j : String) (metrics : ProjectWaitMetrics) (number total : ℕ)
    → metrics.queued_count ≡ (accumulator_for d k).queued_count + number
    → metrics.total_wait_seconds ≡ (accumulator_for d k).total_wait_seconds + total
    → Adds j (if same k j then number else 0) (if same k j then total else 0) d (put d k metrics)
put-Adds d k j metrics number total q t = elim (Bool-cases (same k j)) [
  | inl e ↦
      rw (get-put d k j metrics, e) (rw ((same_iff k j).0 e) at q, rw ((same_iff k j).0 e) at t)
  | inr e ↦ rw (get-put d k j metrics, e) (omega arith, omega arith)
]

add_queued-Adds :
    (now : ℕ) (project_id : String) (tasks : List ScheduledTask) (before : Dict ProjectWaitMetrics)
    → Adds project_id
        (queued_number project_id tasks)
        (queued_total now project_id tasks)
        before
        (add_queued now tasks before)
unfolding add_queued queued_number queued_total
add_queued-Adds now project_id [] before = (omega arith, omega arith)
add_queued-Adds now project_id (task ∷ tasks) before =
    let (q, t) =
      put-Adds before task.project_id project_id (with_queued_entry now task before) 1
        (wait_seconds task now) refl refl in
    let (q', t') = add_queued-Adds now project_id tasks (with_queued now task before) in
    (omega (arith, q, q'), omega (arith, t, t'))

add_started-Adds :
    (s : PortfolioScheduler) (project_id : String) (totals : Dict ℕ)
    (before : Dict ProjectWaitMetrics)
    → IsRecorded s totals
    → (after : Dict ProjectWaitMetrics) × (add_started s totals before ≡ returns after)
      × Adds project_id 0 (started_total project_id totals) before after
unfolding add_started started_total
add_started-Adds s project_id [] before h = (before, refl, (omega arith, omega arith))
add_started-Adds s project_id ((id, total) ∷ totals) before ((c, l), h) =
    by_fields (get s.started_wait_counts id) (get s.started_wait_longest id) c l refl refl
      (λ before'. add_started-Adds s project_id totals before' h)
  where
    by_fields :
        (counted longest : Option ℕ)
        → counted ≢ none
        → longest ≢ none
        → get s.started_wait_counts id ≡ counted
        → get s.started_wait_longest id ≡ longest
        → ((before' : Dict ProjectWaitMetrics)
            → (after : Dict ProjectWaitMetrics) × (add_started s totals before' ≡ returns after)
              × Adds project_id 0 (started_total project_id totals) before' after)
        → (after : Dict ProjectWaitMetrics) × (add_started s ((id, total) ∷ totals) before
            ≡ returns after)
          × Adds project_id 0 (started_total project_id ((id, total) ∷ totals)) before after
    by_fields none longest c l e f rest = absurd (c refl)
    by_fields (some count) none c l e f rest = absurd (l refl)
    by_fields (some count) (some longest) c l e f rest =
        let (q, t) =
          put-Adds before id project_id (with_started_entry s id total count longest before) 0 total
            (omega arith) refl in
        let (after, returned, (q', t')) = rest (with_started s id total count longest before) in
        (after, rw (e, f) returned, (grind (arith, q, q'), omega (arith, t, t')))

-- Where each started project has its count and its longest wait recorded, the metrics are
-- computed with no error, and for every project they count the queued tasks of that project, and
-- add up its started waits and the waits of its queued tasks.
pub metrics_add_up :
    (now : ℕ) (s : PortfolioScheduler) (project_id : String)
    → IsRecorded s s.started_wait_totals
    → (metrics : Dict ProjectWaitMetrics) × (wait_metrics_by_project now s ≡ returns metrics)
      × ((accumulator_for metrics project_id).queued_count ≡ queued_number project_id s.queued)
      × ((accumulator_for metrics project_id).total_wait_seconds
          ≡ started_total project_id s.started_wait_totals + queued_total now project_id s.queued)
unfolding wait_metrics_by_project get
metrics_add_up now s project_id h =
    let (started, returned, (q, t)) = add_started-Adds s project_id s.started_wait_totals [] h in
    let (q', t') = add_queued-Adds now project_id s.queued started in
    (add_queued now s.queued started, rw returned refl, omega (arith, q, q'), omega (arith, t, t'))
