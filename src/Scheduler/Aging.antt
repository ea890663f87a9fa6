-- ===== src/Scheduler/Aging.antt =====
-- Aging promotion in scheduler/portfolio.py.
use mathlib.Core.Path.{ap₂}
use talisman_v.Prelude.{
  ℕ, ◌+◌, ◌-◌, ◌/◌, ◌≤◌, String, ◌≡◌, refl, ap, Option, none, some, List, [], ◌∷◌, arith,
}
use talisman_v.Prelude.Int.{ℤ, pos, ◌+ℤ◌, int_laws}
use talisman_v.Scheduler.{PortfolioScheduler, age_queue, apply_aging}
use talisman_v.Scheduler.Task.{ScheduledTask, windows_since, age_task}

div_mono : (a b t : ℕ) → a ≤ b → a / t ≤ b / t
div_mono a b t h = grind arith

windows_since_mono :
    (threshold : ℕ) (at : Option ℕ) (n m : ℕ)
    → n ≤ m
    → windows_since threshold at n ≤ windows_since threshold at m
unfolding windows_since
windows_since_mono threshold none n m h = omega arith
windows_since_mono threshold (some q) n m h = ground (arith, div_mono (n - q) (m - q) threshold)

+ℤ_twice : (p : ℤ) (a b : ℕ) → p +ℤ pos a +ℤ pos b ≡ p +ℤ pos (a + b)
+ℤ_twice p a b = omega int_laws

module _ (threshold n m : ℕ) (h : n ≤ m) (blocked : List String) where
  -- aging a task at two times, and at the later one alone
  age_task_twice :
      (t : ScheduledTask)
      → ((age_task threshold m blocked (age_task threshold n blocked t).0).0
          ≡ (age_task threshold m blocked t).0)
        × ((age_task threshold n blocked t).1
              + (age_task threshold m blocked (age_task threshold n blocked t).0).1
            ≡ (age_task threshold m blocked t).1)
  unfolding age_task
  age_task_twice t =
      let w = windows_since threshold t.enqueued_at in
      ground (
        arith,
        windows_since_mono threshold t.enqueued_at n m h,
        +ℤ_twice t.priority (w n - t.aging_promotions_applied) (w m - w n),
        ap (λ k. t.priority +ℤ pos k) {x = (w n - t.aging_promotions_applied) + (w m - w n)}
            {y = w m - t.aging_promotions_applied},
      )

  age_queue_twice :
      (queue : List ScheduledTask)
      → ((age_queue threshold m blocked (age_queue threshold n blocked queue).0).0
          ≡ (age_queue threshold m blocked queue).0)
        × ((age_queue threshold n blocked queue).1
              + (age_queue threshold m blocked (age_queue threshold n blocked queue).0).1
            ≡ (age_queue threshold m blocked queue).1)
  unfolding age_queue
  age_queue_twice [] = (refl, omega arith)
  age_queue_twice (t ∷ ts) =
      let (same_task, same_due) = age_task_twice t in
      let (same_rest, same_sum) = age_queue_twice ts in
      (ap₂ ◌∷◌ same_task same_rest, omega (arith, same_due, same_sum))

-- Promotion does not depend on how often aging is applied. Aging a scheduler at one time and
-- again at a later one, with the same blocked ids, gives the scheduler that aging it once at the
-- later time gives, and the two numbers of promotions add up to the number of the one call. (At
-- one and the same time: a second call promotes nothing.)
pub apply_aging_twice :
    (clock clock' n m : ℕ) (blocked : List String) (s : PortfolioScheduler)
    → n ≤ m
    → ((apply_aging clock' (some m) blocked (apply_aging clock (some n) blocked s).0).0
        ≡ (apply_aging clock (some m) blocked s).0)
      × ((apply_aging clock (some n) blocked s).1
            + (apply_aging clock' (some m) blocked (apply_aging clock (some n) blocked s).0).1
          ≡ (apply_aging clock (some m) blocked s).1)
unfolding apply_aging
apply_aging_twice clock clock' n m blocked s h =
    let (same_queue, same_sum) = age_queue_twice s.aging_threshold n m h blocked s.queued in
    ((λ i. record s { queued = same_queue i }), same_sum)
