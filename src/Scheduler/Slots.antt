-- ===== src/Scheduler/Slots.antt =====
-- The slots of scheduler/portfolio.py: the cap, and ids that are scheduled once.
use mathlib.Core.Path.{subst}
use mathlib.Core.Option.{some-injective}
use mathlib.Core.List.{map-append}
use talisman_v.Prelude.{
  ℕ, ◌≤◌, String, ◌≡◌, refl, ap, ◌∙◌, Bool, true, false, Bool-cases, inl, inr, Option, none, some,
  List, [], ◌∷◌, ◌++◌, arith, has, has-append, distinct, distinct-snoc, same_iff, length,
}
use talisman_v.Prelude.Int.{ℤ}
use talisman_v.Prelude.Dict.{
  keys, get, has-keys-put, distinct-put, length-put, has-keys-remove, distinct-remove,
  length-remove, has-keys_iff_get,
}
use talisman_v.Scheduler.{
  mark, mark_active, PortfolioScheduler, ids, create, is_scheduled, enqueue, queue_entry, complete,
  mark_first, mark_blocked_on_user_approval, age_queue, apply_aging,
}
use talisman_v.Scheduler.Task.{ScheduledTask}

-- At least one slot, no more active tasks than slots, and every id scheduled at most once.
pub record IsSound (s : PortfolioScheduler) : Type 0 where
  pub positive : 1 ≤ s.limit
  pub capped : length s.active ≤ s.limit
  pub distinct_active : distinct (keys s.active) ≡ true
  pub distinct_queued : distinct (ids s.queued) ≡ true
  pub apart : (id : String) → has id (keys s.active) ≡ true → has id (ids s.queued) ≡ false

pub create-IsSound :
    (limit threshold : ℤ) (s : PortfolioScheduler) → create limit threshold ≡ some s → IsSound s
unfolding create has distinct
create-IsSound limit threshold s e = record {
  positive = ground arith;
  capped = ground arith;
  distinct_active = ground arith;
  distinct_queued = ground arith;
  apart = λ id. ground arith;
}

-- What soundness reads: an operation that keeps the slots and the ids keeps it.
same_slots-IsSound :
    (s t : PortfolioScheduler)
    → t.limit ≡ s.limit
    → t.active ≡ s.active
    → ids t.queued ≡ ids s.queued
    → IsSound s
    → IsSound t
same_slots-IsSound s t l a q h = record {
  positive = rw l h.positive;
  capped = rw (l, a) h.capped;
  distinct_active = rw a h.distinct_active;
  distinct_queued = rw q h.distinct_queued;
  apart = rw (a, q) h.apart;
}

enqueue_effect :
    (now : ℕ) (task : ScheduledTask) (s t : PortfolioScheduler)
    → enqueue now task s ≡ some t
    → (is_scheduled s task.task_id ≡ false)
      × (t.limit ≡ s.limit)
      × (t.active ≡ s.active)
      × (ids t.queued ≡ ids s.queued ++ task.task_id ∷ [])
unfolding enqueue
enqueue_effect now task s t e = elim (Bool-cases (is_scheduled s task.task_id)) [
  | inl old ↦ absurd (ground arith)
  | inr new ↦ (
    new,
    ground arith,
    ground arith,
    ap ids {x = t.queued} {y = s.queued ++ queue_entry now task ∷ []} (ground arith)
        ∙ map-append (λ (u : ScheduledTask). u.task_id) s.queued (queue_entry now task ∷ []),
  )
]

pub enqueue-IsSound :
    (now : ℕ) (task : ScheduledTask) (s t : PortfolioScheduler)
    → IsSound s
    → enqueue now task s ≡ some t
    → IsSound t
unfolding is_scheduled has
enqueue-IsSound now task s t h e =
    let (new, l, a, q) = enqueue_effect now task s t e in
    record {
      positive = rw l h.positive;
      capped = rw (l, a) h.capped;
      distinct_active = rw a h.distinct_active;
      distinct_queued =
          rw q (distinct-snoc (ids s.queued) task.task_id h.distinct_queued (ground arith));
      apart = λ id k. rw q (
          ground (
            arith,
            has-append id (ids s.queued) (task.task_id ∷ []),
            h.apart id,
            same_iff id task.task_id,
            ap (λ d. has id (keys d)) a,
          ));
    }

pub complete-IsSound :
    (task_id : String) (s : PortfolioScheduler) → IsSound s → IsSound (complete task_id s)
unfolding complete
complete-IsSound task_id s h = record {
  positive = h.positive;
  capped = omega (arith, length-remove s.active task_id, h.capped);
  distinct_active = distinct-remove s.active task_id h.distinct_active;
  distinct_queued = h.distinct_queued;
  apart = λ id k. ground (arith, h.apart id, has-keys-remove s.active task_id id h.distinct_active);
}

ids-mark_first :
    (task_id : String) (blocked : Bool) (queue : List ScheduledTask)
    → ids (mark_first task_id blocked queue) ≡ ids queue
unfolding mark_first
ids-mark_first task_id blocked [] = refl
ids-mark_first task_id blocked (t ∷ ts) = ground (arith, ids-mark_first task_id blocked ts)

pub ids-age_queue :
    (threshold now : ℕ) (blocked_ids : List String) (queue : List ScheduledTask)
    → ids (age_queue threshold now blocked_ids queue).0 ≡ ids queue
unfolding age_queue
ids-age_queue threshold now blocked_ids [] = refl
ids-age_queue threshold now blocked_ids (t ∷ ts) =
    ground (arith, ids-age_queue threshold now blocked_ids ts)

pub apply_aging-IsSound :
    (clock : ℕ) (now : Option ℕ) (blocked_ids : List String) (s : PortfolioScheduler)
    → IsSound s
    → IsSound (apply_aging clock now blocked_ids s).0
unfolding apply_aging
apply_aging-IsSound clock now blocked_ids s h =
    same_slots-IsSound s (apply_aging clock now blocked_ids s).0 refl refl
      (ids-age_queue s.aging_threshold _ blocked_ids s.queued) h

mark_active-IsSound :
    (task_id : String) (blocked : Bool) (s t : PortfolioScheduler) (found : Option ScheduledTask)
    → IsSound s
    → get s.active task_id ≡ found
    → mark_active task_id blocked s found ≡ some t
    → IsSound t
mark_active-IsSound task_id blocked s t none h g e = cc
mark_active-IsSound task_id blocked s t (some task) h g e =
    subst IsSound (some-injective _ _ e) (record {
      positive = h.positive;
      capped = rw (length-put s.active task_id (mark blocked task), present) h.capped;
      distinct_active = distinct-put s.active task_id (mark blocked task) h.distinct_active;
      distinct_queued = h.distinct_queued;
      apart = λ id k. h.apart id (
          ground (
            arith,
            has-keys-put s.active task_id id (mark blocked task),
            present,
            same_iff id task_id,
          ));
    })
  where
    present : has task_id (keys s.active) ≡ true
    present = has-keys_iff_get s.active task_id ∙ rw g refl

pub mark_blocked-IsSound :
    (task_id : String) (blocked : Bool) (s t : PortfolioScheduler)
    → IsSound s
    → mark_blocked_on_user_approval task_id blocked s ≡ some t
    → IsSound t
unfolding mark_blocked_on_user_approval
mark_blocked-IsSound task_id blocked s t h e = elim (Bool-cases (has task_id (ids s.queued))) [
  | inl waits ↦
      same_slots-IsSound s t (ground arith) (ground arith)
        (ap ids {x = t.queued} {y = mark_first task_id blocked s.queued} (ground arith)
          ∙ ids-mark_first task_id blocked s.queued)
        h
  | inr absent ↦
      mark_active-IsSound task_id blocked s t (get s.active task_id) h refl (ground arith)
]
