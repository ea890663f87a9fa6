-- ===== src/Storage/Memory.antt =====
-- adapters/sqlite/memory.py and ports/memory.py: lessons and retrospectives.
--
-- A table is the dictionary of its rows under their primary key. The formats of a row are
-- parameters: `dumps` and `loads` of json, and `isoformat` and `fromisoformat` of dates, which are
-- day numbers; so is SQLite's `ORDER BY`. A path is its text.
pub mod Retrieval
pub mod Shelf
use talisman_v.Prelude.{
  ℕ, String, Bool, true, false, ◌||◌, Option, none, some, List, [], ◌∷◌, has, same, take,
  if◌then◌else◌,
}
use talisman_v.Prelude.Int.{ℤ, pos_part}
use talisman_v.Prelude.Dict.{Dict, get, put}
use talisman_v.Prelude.Raises.{Raises, returns, raises, each, ◌>>=◌}

pub data LessonSeverity : Type 0 where
  low medium high critical : LessonSeverity

pub data LessonStatus : Type 0 where
  active retracted superseded : LessonStatus

pub record Lesson : Type 0 where
  pub lesson_id : String
  pub project_id : String
  pub domain_tags : List String
  pub severity : LessonSeverity
  pub statement : String
  pub detail_ref : String
  pub status : LessonStatus
  pub lesson_date : ℕ
  pub supersedes_lesson_id : Option String

pub record LessonQuery : Type 0 where
  pub project_id : Option String
  pub domain_tags : List String
  pub status : LessonStatus
  pub limit : ℤ

pub record Retrospective : Type 0 where
  pub project_id : String
  pub content : String
  pub lesson_ids : List String

pub data ValueError : Type 0 where
  value_error : ValueError

abbrev pub lesson_severity_value : LessonSeverity → String
lesson_severity_value low = "low"
lesson_severity_value medium = "medium"
lesson_severity_value high = "high"
lesson_severity_value critical = "critical"

abbrev pub lesson_status_value : LessonStatus → String
lesson_status_value active = "active"
lesson_status_value retracted = "retracted"
lesson_status_value superseded = "superseded"

abbrev pub lesson_severity_from : String → Raises ValueError LessonSeverity
lesson_severity_from s =
    if same s "low"
    then returns low
    else if same s "medium"
    then returns medium
    else if same s "high"
    then returns high
    else if same s "critical"
    then returns critical
    else raises value_error

abbrev pub lesson_status_from : String → Raises ValueError LessonStatus
lesson_status_from s =
    if same s "active"
    then returns active
    else if same s "retracted"
    then returns retracted
    else if same s "superseded"
    then returns superseded
    else raises value_error

-- a row of `lessons`, without its time of update
pub record LessonRow : Type 0 where
  pub lesson_id : String
  pub project_id : String
  pub domain_tags : String
  pub severity : String
  pub statement : String
  pub detail_ref : String
  pub status : String
  pub date : String
  pub supersedes_lesson_id : Option String

pub record Formats : Type 0 where
  pub dumps : List String → String
  pub loads : String → Raises ValueError (List String)
  pub isoformat : ℕ → String
  pub fromisoformat : String → Raises ValueError ℕ
  pub order_by_date_and_id : List LessonRow → List LessonRow

unfoldable pub keep : {A : Type 0} → (A → Bool) → List A → List A
keep test [] = []
keep test (x ∷ xs) = let rest = keep test xs in if test x then x ∷ rest else rest

unfoldable pub some_common : List String → List String → Bool
unfolding has
some_common wanted [] = false
some_common wanted (tag ∷ tags) = has tag wanted || some_common wanted tags

-- the two filters of `retrieve_lessons`
abbrev pub in_project : Option String → Lesson → Bool
in_project none item = true
in_project (some project_id) item = same item.project_id project_id

abbrev pub in_domain : List String → Lesson → Bool
in_domain [] item = true
in_domain (tag ∷ tags) item = some_common (tag ∷ tags) item.domain_tags

-- `SELECT ... WHERE status = ?`, before its order
unfoldable pub select_by_status : String → Dict LessonRow → List LessonRow
select_by_status status [] = []
select_by_status status ((id, row) ∷ rows) =
    let rest = select_by_status status rows in if same row.status status then row ∷ rest else rest

module _ (formats : Formats) where
  abbrev pub row_of : Lesson → LessonRow
  row_of lesson = record {
    lesson_id = lesson.lesson_id;
    project_id = lesson.project_id;
    domain_tags = formats.dumps lesson.domain_tags;
    severity = lesson_severity_value lesson.severity;
    statement = lesson.statement;
    detail_ref = lesson.detail_ref;
    status = lesson_status_value lesson.status;
    date = formats.isoformat lesson.lesson_date;
    supersedes_lesson_id = lesson.supersedes_lesson_id;
  }

  -- `_lesson_from_row`
  unfoldable pub lesson_from_row : LessonRow → Raises ValueError Lesson
  lesson_from_row row = do
    domain_tags ← formats.loads row.domain_tags
    severity ← lesson_severity_from row.severity
    status ← lesson_status_from row.status
    lesson_date ← formats.fromisoformat row.date
    returns (record {
      lesson_id = row.lesson_id;
      project_id = row.project_id;
      domain_tags = domain_tags;
      severity = severity;
      statement = row.statement;
      detail_ref = row.detail_ref;
      status = status;
      lesson_date = lesson_date;
      supersedes_lesson_id = row.supersedes_lesson_id;
    })

  -- `record_lesson`: the upsert
  unfoldable pub record_lesson : Lesson → Dict LessonRow → Dict LessonRow
  unfolding put
  record_lesson lesson t = put t lesson.lesson_id (row_of lesson)

  -- `retrieve_lessons`
  unfoldable pub retrieve_lessons : LessonQuery → Dict LessonRow → Raises ValueError (List Lesson)
  unfolding select_by_status keep lesson_from_row
  retrieve_lessons query t = do
    lessons ←
        each lesson_from_row
          (formats.order_by_date_and_id (select_by_status (lesson_status_value query.status) t))
    returns (
        take (pos_part query.limit)
          (keep (in_domain query.domain_tags) (keep (in_project query.project_id) lessons)))

  -- `record_retrospective`: the row is the content and the ids
  unfoldable pub record_retrospective :
      Retrospective → Dict (String × String) → Dict (String × String)
  unfolding put
  record_retrospective retrospective t =
      put t retrospective.project_id (retrospective.content, formats.dumps retrospective.lesson_ids)

  abbrev retrospective_from :
      String → Option (String × String) → Raises ValueError (Option Retrospective)
  retrospective_from project_id none = returns none
  retrospective_from project_id (some (content, ids)) = do
    lesson_ids ← formats.loads ids
    returns (some (record { project_id = project_id; content = content; lesson_ids = lesson_ids }))

  -- `load_retrospective`
  unfoldable pub load_retrospective :
      String → Dict (String × String) → Raises ValueError (Option Retrospective)
  unfolding get
  load_retrospective project_id t = retrospective_from project_id (get t project_id)
