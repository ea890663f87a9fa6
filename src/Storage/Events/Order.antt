-- ===== src/Storage/Events/Order.antt =====
-- What the event log of adapters/sqlite/event_log.py hands back, over any appends.
use talisman_v.Prelude.{
  ℕ, ◌+◌, ◌≤◌, ◌<◌, String, ◌≡◌, refl, Option, some, List, [], ◌∷◌, ◌++◌, arith, same, All,
  All-append, All-map, append-nil, if◌then◌else◌,
}
use talisman_v.Storage.Events.{
  EventRecord, EventTable, empty, select_by_id, append_event, list_events,
}

-- No row has an id past the last one.
abbrev pub IsNumbered : EventTable → Type 0
IsNumbered t = All (λ (r : EventRecord). r.event_id ≤ t.last_id) t.rows

pub record Append : Type 0 where
  pub now : ℕ
  pub project_id : String
  pub event_type : String
  pub payload : Option String

abbrev pub append_call : Append → EventTable → Option EventRecord × EventTable
append_call a = append_event a.now a.project_id a.event_type a.payload

unfoldable pub append_all : List Append → EventTable → EventTable
append_all [] t = t
append_all (a ∷ as_) t = append_all as_ (append_call a t).1

select_by_id-new :
    (id : ℕ) (rows : List EventRecord) (r : EventRecord)
    → All (λ (q : EventRecord). q.event_id < id) rows
    → r.event_id ≡ id
    → select_by_id id (rows ++ r ∷ []) ≡ some r
unfolding select_by_id
select_by_id-new id [] r h e = ground arith
select_by_id-new id (q ∷ qs) r h e = ground (arith, select_by_id-new id qs r h.1 e)

append_event-IsNumbered :
    (a : Append) (t : EventTable) → IsNumbered t → IsNumbered (append_call a t).1
unfolding append_event
append_event-IsNumbered a t h =
    All-append (λ (r : EventRecord). r.event_id ≤ t.last_id + 1) t.rows _
      (All-map (λ (r : EventRecord). r.event_id ≤ t.last_id)
        (λ (r : EventRecord). r.event_id ≤ t.last_id + 1) t.rows (λ r k. omega (arith, k)) h)
      (omega arith, tt)

pub append_all-IsNumbered :
    (appends : List Append) (t : EventTable) → IsNumbered t → IsNumbered (append_all appends t)
unfolding append_all
append_all-IsNumbered [] t h = h
append_all-IsNumbered (a ∷ as_) t h =
    append_all-IsNumbered as_ (append_call a t).1 (append_event-IsNumbered a t h)

list_events-append :
    (project : String) (xs ys : List EventRecord)
    → list_events project (xs ++ ys) ≡ list_events project xs ++ list_events project ys
unfolding list_events
list_events-append project [] ys = refl
list_events-append project (x ∷ xs) ys = ground (arith, list_events-append project xs ys)

-- After any earlier appends, an append returns the row that it stored: the arguments, the time,
-- and an id above that of every earlier row; that row stands last among the events of its
-- project, and the events of every other project are as they were.
pub append_then_list :
    (earlier : List Append) (a : Append) (project : String)
    → (r : EventRecord) × ((append_call a (append_all earlier empty)).0 ≡ some r)
      × (r ≡ record {
        event_id = (append_all earlier empty).last_id + 1;
        project_id = a.project_id;
        event_type = a.event_type;
        payload = a.payload;
        created_at = a.now;
      })
      × All (λ (q : EventRecord). q.event_id < r.event_id) (append_all earlier empty).rows
      × (list_events project (append_call a (append_all earlier empty)).1.rows ≡ (
          if same a.project_id project
          then list_events project (append_all earlier empty).rows ++ r ∷ []
          else list_events project (append_all earlier empty).rows))
unfolding append_event
append_then_list earlier a project =
    let t = append_all earlier empty in
    let r : EventRecord = record {
      event_id = t.last_id + 1;
      project_id = a.project_id;
      event_type = a.event_type;
      payload = a.payload;
      created_at = a.now;
    } in
    let below =
      All-map (λ (q : EventRecord). q.event_id ≤ t.last_id)
        (λ (q : EventRecord). q.event_id < t.last_id + 1) t.rows (λ q k. omega (arith, k))
        (append_all-IsNumbered earlier empty tt) in
    (
      r,
      select_by_id-new (t.last_id + 1) t.rows r below refl,
      refl,
      below,
      unfold list_events in
          ground (
            arith,
            list_events-append project t.rows (r ∷ []),
            append-nil (list_events project t.rows),
          ),
    )
