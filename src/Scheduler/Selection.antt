-- ===== src/Scheduler/Selection.antt =====
-- Which task `start_next` of scheduler/portfolio.py starts.
use mathlib.Core.Path.{subst}
use talisman_v.Prelude.{
  ℕ, suc, ◌+◌, ◌<◌, ◌≡◌, refl, true, false, Bool-cases, inl, inr, some, List, [], ◌∷◌, ◌++◌, arith,
  append-nil, append_assoc, All, All-append, All-map, length, length-append,
}
use talisman_v.Prelude.Int.{ℤ, ltb_ℤ, ◌<ℤ◌, ◌≤ℤ◌}
use talisman_v.Scheduler.Task.{ScheduledTask, key_above, best_index, pop}

abbrev pub Below : ScheduledTask → ScheduledTask → Type 0
Below task other = other.priority <ℤ task.priority

abbrev pub NotAbove : ScheduledTask → ScheduledTask → Type 0
NotAbove task other = other.priority ≤ℤ task.priority

-- `task` is the first of the tasks with the highest priority: those before it have a lower one,
-- those after it have none that is higher.
pub record IsFirstBest (queue : List ScheduledTask) (task : ScheduledTask)
    (rest : List ScheduledTask) : Type 0 where
  pub before : List ScheduledTask
  pub after : List ScheduledTask
  pub whole : queue ≡ before ++ task ∷ after
  pub removed : rest ≡ before ++ after
  pub earlier_lower : All (Below task) before
  pub later_not_higher : All (NotAbove task) after

module _ {ℓ} {A : Type ℓ} where
  pub pop-append :
      (before : List A) (x : A) (after : List A)
      → pop (before ++ x ∷ after) (length before) ≡ some (x, before ++ after)
  unfolding pop
  pop-append [] x after = refl
  pop-append (y ∷ ys) x after = rw (pop-append ys x after) refl

-- The best so far, as the loop keeps it.
record IsBestAt (queue : List ScheduledTask) (index : ℕ) : Type 0 where
  before : List ScheduledTask
  task : ScheduledTask
  after : List ScheduledTask
  whole : queue ≡ before ++ task ∷ after
  place : index ≡ length before
  lower : All (Below task) before
  not_higher : All (NotAbove task) after

key_above-later : (p q : ℤ) (i j : ℕ) → j < i → key_above p i q j ≡ ltb_ℤ q p
key_above-later p q i j h = ground arith

lt_of_test : (b t : ScheduledTask) → ltb_ℤ b.priority t.priority ≡ true → Below t b
lt_of_test b t h = ground arith

le_of_test : (b t : ScheduledTask) → ltb_ℤ b.priority t.priority ≡ false → NotAbove b t
le_of_test b t h = ground arith

lower_than_next :
    (before : List ScheduledTask) (b : ScheduledTask) (after : List ScheduledTask)
    (t : ScheduledTask)
    → All (Below b) before
    → All (NotAbove b) after
    → Below t b
    → All (Below t) (before ++ b ∷ after)
lower_than_next before b after t lo up h =
    All-append (Below t) before (b ∷ after)
      (All-map (Below b) (Below t) before (λ u k. omega (arith, h, k)) lo)
      (h, All-map (NotAbove b) (Below t) after (λ u k. omega (arith, h, k)) up)

best_index-IsBestAt :
    (rest before : List ScheduledTask) (b : ScheduledTask) (after : List ScheduledTask) (i k : ℕ)
    → i ≡ length before + 1 + length after
    → k ≡ length before
    → All (Below b) before
    → All (NotAbove b) after
    → IsBestAt (before ++ b ∷ after ++ rest) (best_index rest i k b.priority)
unfolding best_index
best_index-IsBestAt [] before b after i k hi hk lo hi' = record {
  before = before;
  task = b;
  after = after;
  whole = rw append-nil refl;
  place = hk;
  lower = lo;
  not_higher = hi';
}
best_index-IsBestAt (t ∷ ts) before b after i k hi hk lo up =
    elim (Bool-cases (ltb_ℤ b.priority t.priority)) [
      | inl higher ↦
          rw (key_above-later t.priority b.priority i k (omega arith), higher)
            (subst (λ q. IsBestAt q (best_index ts (suc i) i t.priority))
              (append_assoc (before ++ b ∷ after) (t ∷ []) ts)
              (best_index-IsBestAt ts (before ++ b ∷ after) t [] (suc i) i
                (omega (arith, hi, length-append before (b ∷ after)))
                (omega (arith, hi, length-append before (b ∷ after)))
                (lower_than_next before b after t lo up (omega (arith, lt_of_test b t higher))) tt))
      | inr not_higher ↦
          rw (key_above-later t.priority b.priority i k (omega arith), not_higher)
            (subst (λ q. IsBestAt q (best_index ts (suc i) k b.priority)) (simp append_assoc)
              (best_index-IsBestAt ts before b (after ++ t ∷ []) (suc i) k
                (omega (arith, hi, length-append after (t ∷ []))) hk lo
                (All-append (NotAbove b) after (t ∷ []) up (le_of_test b t not_higher, tt))))
    ]

-- The task that is popped at the index that the loop finds is the first of the best.
pub pop-IsFirstBest :
    (t : ScheduledTask) (ts : List ScheduledTask)
    → (task : ScheduledTask) × (rest : List ScheduledTask) × (pop
          (t ∷ ts)
          (best_index ts 1 0 t.priority)
        ≡ some (task, rest))
      × IsFirstBest (t ∷ ts) task rest
pop-IsFirstBest t ts =
    let b = best_index-IsBestAt ts [] t [] 1 0 refl refl tt tt in
    (
      b.task,
      b.before ++ b.after,
      rw (b.whole, b.place) (pop-append b.before b.task b.after),
      record {
        before = b.before;
        after = b.after;
        whole = b.whole;
        removed = refl;
        earlier_lower = b.lower;
        later_not_higher = b.not_higher;
      },
    )
