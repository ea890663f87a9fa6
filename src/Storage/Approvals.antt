-- ===== src/Storage/Approvals.antt =====
-- adapters/sqlite/approval_idempotency.py: the guard that lets an approval advance once.
use talisman_v.Prelude.{
  Bool-cases, inl, inr, ◌∙◌, not, ◌||◌, ap, ℕ, ◌+◌, String, ◌≡◌, refl, Bool, true, false, Option,
  none, some, List, [], ◌∷◌, ◌++◌, map, arith, has, same, same_iff, ◌&&◌, if◌then◌else◌,
}

pub data ApprovalOutcome : Type 0 where
  advanced duplicate ignored : ApprovalOutcome

-- a row of `gate_events`
pub record GateEvent : Type 0 where
  pub event_id : ℕ
  pub project_id : String
  pub gate_name : String
  pub idempotency_key : String
  pub state : String

pub record GateTable : Type 0 where
  pub rows : List GateEvent
  pub last_id : ℕ

-- the arguments of `record_and_advance`
pub record Attempt : Type 0 where
  pub project_id : String
  pub gate_id : String
  pub idempotency_key : String
  pub state : String
  pub current_pending_gate_id : Option String

abbrev pub recorded_keys : GateTable → List String
recorded_keys t = map (λ (r : GateEvent). r.idempotency_key) t.rows

abbrev is_current : Option String → String → Bool
is_current none gate = false
is_current (some pending) gate = same pending gate

-- `INSERT INTO gate_events`
abbrev gate_row : Attempt → GateTable → GateEvent
gate_row a t = record {
  event_id = t.last_id + 1;
  project_id = a.project_id;
  gate_name = a.gate_id;
  idempotency_key = a.idempotency_key;
  state = a.state;
}

abbrev inserted : Attempt → GateTable → GateTable
inserted a t = record { rows = t.rows ++ gate_row a t ∷ []; last_id = t.last_id + 1 }

-- `record_and_advance`; the UNIQUE constraint on `idempotency_key` rejects a second insert
unfoldable pub record_and_advance : Attempt → GateTable → ApprovalOutcome × GateTable
record_and_advance a t =
    if is_current a.current_pending_gate_id a.gate_id
    then (if has a.idempotency_key (recorded_keys t)
        then (duplicate, t)
        else (advanced, inserted a t))
    else (ignored, t)

abbrev is_advanced : ApprovalOutcome → Bool
is_advanced advanced = true
is_advanced _ = false

-- How many of the attempts, made in order, advance under `key`.
unfoldable pub advances : String → List Attempt → GateTable → ℕ
advances key [] t = 0
advances key (a ∷ as_) t =
    let (outcome, t') = record_and_advance a t in
    (if is_advanced outcome && same a.idempotency_key key then 1 else 0) + advances key as_ t'

-- whether some attempt with `key` is for the gate that is pending then
unfoldable pub some_current : String → List Attempt → Bool
some_current key [] = false
some_current key (a ∷ as_) =
    if is_current a.current_pending_gate_id a.gate_id && same a.idempotency_key key
    then true
    else some_current key as_

recorded_keys-snoc :
    (key : String) (rows : List GateEvent) (r : GateEvent)
    → has key (map (λ (q : GateEvent). q.idempotency_key) (rows ++ r ∷ []))
      ≡ has key (map (λ (q : GateEvent). q.idempotency_key) rows) || same key r.idempotency_key
unfolding has
recorded_keys-snoc key [] r = ground arith
recorded_keys-snoc key (q ∷ qs) r = ground (arith, recorded_keys-snoc key qs r)

outcome_advanced :
    (a : Attempt) (t : GateTable)
    → is_advanced (record_and_advance a t).0
      ≡ is_current a.current_pending_gate_id a.gate_id
        && not (has a.idempotency_key (recorded_keys t))
unfolding record_and_advance
outcome_advanced a t = ground arith

keys_after :
    (key : String) (a : Attempt) (t : GateTable)
    → has key (recorded_keys (record_and_advance a t).1) ≡ (
        if is_advanced (record_and_advance a t).0 && same a.idempotency_key key
        then true
        else has key (recorded_keys t))
unfolding record_and_advance
keys_after key a t = elim (Bool-cases (is_current a.current_pending_gate_id a.gate_id)) [
  | inr other ↦ rw other refl
  | inl current ↦ elim (Bool-cases (has a.idempotency_key (recorded_keys t))) [
    | inl old ↦ rw (current, old) refl
    | inr new ↦
        rw (current, new)
          (recorded_keys-snoc key t.rows (gate_row a t)
            ∙ ground (arith, same_iff a.idempotency_key key, same_iff key a.idempotency_key))
  ]
]

-- The number of attempts that advance under one idempotency key, in any sequence of attempts: none
-- where the key is recorded already; else one where some attempt with the key is for the gate
-- that is pending at that attempt, and none where there is no such attempt.
pub advances_once :
    (key : String) (attempts : List Attempt) (t : GateTable)
    → advances key attempts t
      ≡ (if has key (recorded_keys t) then 0 else if some_current key attempts then 1 else 0)
unfolding advances some_current
advances_once key [] t = ground arith
advances_once key (a ∷ as_) t = ground (
  arith,
  advances_once key as_ (record_and_advance a t).1,
  keys_after key a t,
  outcome_advanced a t,
  same_iff a.idempotency_key key,
  ap (λ k. has k (recorded_keys t)) {x = a.idempotency_key} {y = key},
)
