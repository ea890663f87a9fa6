-- ===== src/Scheduler/Sequences.antt =====
-- Any sequence of calls on a scheduler of scheduler/portfolio.py.
use talisman_v.Prelude.{ℕ, String, ◌≡◌, refl, Bool, Option, none, some, List, [], ◌∷◌, inl, inr}
use talisman_v.Prelude.Int.{ℤ}
use talisman_v.Scheduler.{
  PortfolioScheduler, create, enqueue, start_next, complete, mark_blocked_on_user_approval,
  apply_aging,
}
use talisman_v.Scheduler.Task.{ScheduledTask}
use talisman_v.Scheduler.Slots.{
  IsSound, create-IsSound, enqueue-IsSound, complete-IsSound, mark_blocked-IsSound,
  apply_aging-IsSound,
}
use talisman_v.Scheduler.Starting.{start_next_starts, IsStart-IsSound}

-- A call of a method that may change the scheduler, with the clock where it is read.
pub data Call : Type 0 where
  enqueue_call : ℕ → ScheduledTask → Call
  start_call : ℕ → Call
  complete_call : String → Call
  mark_call : String → Bool → Call
  aging_call : ℕ → Option ℕ → List String → Call

-- a call that raises leaves the scheduler as it was
abbrev pub or_unchanged : Option PortfolioScheduler → PortfolioScheduler → PortfolioScheduler
or_unchanged none s = s
or_unchanged (some t) s = t

unfoldable pub after_call : Call → PortfolioScheduler → PortfolioScheduler
after_call (enqueue_call now task) s = or_unchanged (enqueue now task s) s
after_call (start_call now) s = (start_next now s).1
after_call (complete_call task_id) s = complete task_id s
after_call (mark_call task_id blocked) s =
    or_unchanged (mark_blocked_on_user_approval task_id blocked s) s
after_call (aging_call clock now blocked_ids) s = (apply_aging clock now blocked_ids s).0

unfoldable pub after_calls : List Call → PortfolioScheduler → PortfolioScheduler
unfolding after_call
after_calls [] s = s
after_calls (c ∷ cs) s = after_calls cs (after_call c s)

or_unchanged-IsSound :
    (o : Option PortfolioScheduler) (s : PortfolioScheduler)
    → IsSound s
    → ((t : PortfolioScheduler) → o ≡ some t → IsSound t)
    → IsSound (or_unchanged o s)
or_unchanged-IsSound none s h k = h
or_unchanged-IsSound (some t) s h k = k t refl

start_next-IsSound : (now : ℕ) (s : PortfolioScheduler) → IsSound s → IsSound (start_next now s).1
start_next-IsSound now s h = elim (start_next_starts now s) [
  | inl (free, some_queued, (started, e, st)) ↦
      IsStart-IsSound now s (start_next now s).1 started st h
  | inr (why, e) ↦ rw e h
]

after_call-IsSound : (c : Call) (s : PortfolioScheduler) → IsSound s → IsSound (after_call c s)
unfolding after_call
after_call-IsSound (enqueue_call now task) s h =
    or_unchanged-IsSound (enqueue now task s) s h (λ t e. enqueue-IsSound now task s t h e)
after_call-IsSound (start_call now) s h = start_next-IsSound now s h
after_call-IsSound (complete_call task_id) s h = complete-IsSound task_id s h
after_call-IsSound (mark_call task_id blocked) s h =
    or_unchanged-IsSound (mark_blocked_on_user_approval task_id blocked s) s h
      (λ t e. mark_blocked-IsSound task_id blocked s t h e)
after_call-IsSound (aging_call clock now blocked_ids) s h =
    apply_aging-IsSound clock now blocked_ids s h

IsSound-after_calls :
    (cs : List Call) (s : PortfolioScheduler) → IsSound s → IsSound (after_calls cs s)
unfolding after_calls
IsSound-after_calls [] s h = h
IsSound-after_calls (c ∷ cs) s h =
    IsSound-after_calls cs (after_call c s) (after_call-IsSound c s h)

-- After any sequence of calls on a scheduler that its constructor accepted, calls that raise
-- among them, the scheduler has at least one slot, no more active tasks than slots, and no task
-- id is scheduled twice: not active twice, not queued twice, and not active and queued.
pub after_calls-IsSound :
    (active_slot_limit aging_threshold : ℤ) (s : PortfolioScheduler) (calls : List Call)
    → create active_slot_limit aging_threshold ≡ some s
    → IsSound (after_calls calls s)
after_calls-IsSound limit threshold s calls e =
    IsSound-after_calls calls s (create-IsSound limit threshold s e)
