-- ===== src/Storage/Events.antt =====
-- adapters/sqlite/event_log.py: the append-only project event log.
pub mod Order
use talisman_v.Prelude.{
  ℕ, ◌+◌, String, Option, none, some, List, [], ◌∷◌, ◌++◌, same, ◌==◌, if◌then◌else◌,
}

pub record EventRecord : Type 0 where
  pub event_id : ℕ
  pub project_id : String
  pub event_type : String
  pub payload : Option String
  pub created_at : ℕ

pub record EventTable : Type 0 where
  pub rows : List EventRecord
  pub last_id : ℕ

abbrev pub empty : EventTable
empty = record { rows = []; last_id = 0 }

-- `SELECT ... WHERE event_id = ?`, the first row
unfoldable pub select_by_id : ℕ → List EventRecord → Option EventRecord
select_by_id id [] = none
select_by_id id (r ∷ rs) = if r.event_id == id then some r else select_by_id id rs

-- `append_event`: the inserted row is read back; `none` is the `RuntimeError` where it is missing
unfoldable pub append_event :
    ℕ → String → String → Option String → EventTable → Option EventRecord × EventTable
unfolding select_by_id
append_event now project_id event_type payload t =
    let id = t.last_id + 1 in
    let rows =
      t.rows
      ++ record {
        event_id = id;
        project_id = project_id;
        event_type = event_type;
        payload = payload;
        created_at = now;
      }
        ∷ [] in
    (select_by_id id rows, record { rows = rows; last_id = id })

-- `list_events`: the rows of the project; insertion order is the order of the ids
unfoldable pub list_events : String → List EventRecord → List EventRecord
list_events project_id [] = []
list_events project_id (r ∷ rs) =
    let rest = list_events project_id rs in if same r.project_id project_id then r ∷ rest else rest
