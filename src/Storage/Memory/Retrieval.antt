-- ===== src/Storage/Memory/Retrieval.antt =====
-- What adapters/sqlite/memory.py gives back of what was recorded.
use talisman_v.Prelude.{
  ℕ, zero, suc, ◌≤◌, String, ◌≡◌, ap, sym, ◌∙◌, refl, Bool, Bool-cases, inl, inr, true, some, List,
  [], ◌∷◌, same, same_iff, All, All-map, length, length-take-le, take, if◌then◌else◌,
}
use talisman_v.Prelude.Int.{pos_part}
use talisman_v.Prelude.Dict.{Dict, put}
use talisman_v.Prelude.Raises.{Raises, returns, each}
use talisman_v.Storage.Memory.Shelf.{load_after_record}
use talisman_v.Storage.Memory.{
  LessonSeverity, LessonStatus, Lesson, LessonQuery, LessonRow, Retrospective, Formats, low, medium,
  high, critical, active, retracted, superseded, ValueError, lesson_severity_value,
  lesson_severity_from, lesson_status_value, lesson_status_from, keep, in_project, in_domain,
  select_by_status, row_of, lesson_from_row, record_lesson, retrieve_lessons, record_retrospective,
  load_retrospective,
}

severity_from-value :
    (v : LessonSeverity) → lesson_severity_from (lesson_severity_value v) ≡ returns v
severity_from-value low = refl
severity_from-value medium = refl
severity_from-value high = refl
severity_from-value critical = refl

status_from-value : (v : LessonStatus) → lesson_status_from (lesson_status_value v) ≡ returns v
status_from-value active = refl
status_from-value retracted = refl
status_from-value superseded = refl

same_returns :
    (v u : LessonStatus) (x y : Raises ValueError LessonStatus)
    → x ≡ y
    → x ≡ returns v
    → y ≡ returns u
    → v ≡ u
same_returns v u x y e f g = cc

status_value-injective :
    (v u : LessonStatus) → lesson_status_value v ≡ lesson_status_value u → v ≡ u
status_value-injective v u h =
    same_returns v u _ _ (ap lesson_status_from h) (status_from-value v) (status_from-value u)

All-keep :
    {A : Type 0} (P : A → Type 0) (test : A → Bool) (xs : List A)
    → All P xs
    → All (λ x. P x × (test x ≡ true)) (keep test xs)
unfolding keep
All-keep P test [] h = tt
All-keep P test (x ∷ xs) h = elim (Bool-cases (test x)) [
  | inl e ↦ rw e ((h.0, e), All-keep P test xs h.1)
  | inr e ↦ rw e (All-keep P test xs h.1)
]

All-take : {A : Type 0} (P : A → Type 0) (n : ℕ) (xs : List A) → All P xs → All P (take n xs)
All-take P zero xs h = tt
All-take P (suc n) [] h = tt
All-take P (suc n) (x ∷ xs) h = (h.0, All-take P n xs h.1)

All-put :
    {V : Type 0} (P : V → Type 0) (d : Dict V) (k : String) (v : V)
    → P v
    → All (λ (e : String × V). P e.1) d
    → All (λ (e : String × V). P e.1) (put d k v)
unfolding put
All-put P [] k v h g = (h, tt)
All-put P ((j, w) ∷ d) k v h g = elim (Bool-cases (same j k)) [
  | inl e ↦ rw e (h, g.1)
  | inr e ↦ rw e (g.0, All-put P d k v h g.1)
]

-- A lesson that answers a query.
abbrev pub Answers : LessonQuery → Lesson → Type 0
Answers query item =
    (item.status ≡ query.status)
    × (in_project query.project_id item ≡ true)
    × (in_domain query.domain_tags item ≡ true)

module _ (formats : Formats)
    (loads-dumps : (xs : List String) → formats.loads (formats.dumps xs) ≡ returns xs)
    (iso_round_trip : (d : ℕ) → formats.fromisoformat (formats.isoformat d) ≡ returns d)
    (order_keeps : (P : LessonRow → Type 0) (rows : List LessonRow)
      → All P rows
      → All P (formats.order_by_date_and_id rows)) where
  lesson_round_trip : (l : Lesson) → lesson_from_row formats (row_of formats l) ≡ returns l
  unfolding lesson_from_row
  lesson_round_trip l =
      rw
        (
          loads-dumps l.domain_tags,
          severity_from-value l.severity,
          status_from-value l.status,
          iso_round_trip l.lesson_date,
        )
        refl

  -- The row of a lesson with that status.
  abbrev IsRow : LessonRow → Type 0
  IsRow row = (l : Lesson) × (row ≡ row_of formats l)

  abbrev IsRowWith : LessonStatus → LessonRow → Type 0
  IsRowWith status row = (l : Lesson) × (row ≡ row_of formats l) × (l.status ≡ status)

  select-IsRowWith :
      (status : LessonStatus) (t : Dict LessonRow)
      → All (λ (e : String × LessonRow). IsRow e.1) t
      → All (IsRowWith status) (select_by_status (lesson_status_value status) t)
  unfolding select_by_status
  select-IsRowWith status [] h = tt
  select-IsRowWith status ((id, row) ∷ rows) ((l, e), hs) =
      elim (Bool-cases (same row.status (lesson_status_value status))) [
        | inr other ↦ rw other (select-IsRowWith status rows hs)
        | inl equal ↦ rw equal (
          (
            l,
            e,
            status_value-injective l.status status (
                sym (ap (λ r. r.status) e)
                ∙ (same_iff row.status (lesson_status_value status)).0 equal),
          ),
          select-IsRowWith status rows hs,
        )
      ]

  each-returns :
      (status : LessonStatus) (rows : List LessonRow)
      → All (IsRowWith status) rows
      → (ls : List Lesson) × (each (lesson_from_row formats) rows ≡ returns ls)
        × All (λ (l : Lesson). l.status ≡ status) ls
  each-returns status [] h = ([], refl, tt)
  each-returns status (row ∷ rows) ((l, e, s), hs) =
      let (ls, rest, all) = each-returns status rows hs in
      (l ∷ ls, rw (e, lesson_round_trip l, rest) refl, (s, all))

  unfoldable pub record_all : List Lesson → Dict LessonRow → Dict LessonRow
  record_all [] t = t
  record_all (l ∷ ls) t = record_all ls (record_lesson formats l t)

  record_all-IsRow :
      (ls : List Lesson) (t : Dict LessonRow)
      → All (λ (e : String × LessonRow). IsRow e.1) t
      → All (λ (e : String × LessonRow). IsRow e.1) (record_all ls t)
  unfolding record_all record_lesson
  record_all-IsRow [] t h = h
  record_all-IsRow (l ∷ ls) t h =
      record_all-IsRow ls (record_lesson formats l t)
        (All-put IsRow t l.lesson_id (row_of formats l) (l, refl) h)

  -- Whatever lessons were recorded, a query raises nothing: it returns lessons of the status that
  -- it asks for, of its project and with one of its tags where it names them, and at most as many
  -- as its limit.
  pub retrieved_lessons_match :
      (recorded : List Lesson) (query : LessonQuery)
      → (ls : List Lesson) × (retrieve_lessons formats query (record_all recorded []) ≡ returns ls)
        × All (Answers query) ls
        × (length ls ≤ pos_part query.limit)
  unfolding retrieve_lessons
  retrieved_lessons_match recorded query =
      let rows = select_by_status (lesson_status_value query.status) (record_all recorded []) in
      let (ls, e, h) = each-returns query.status (formats.order_by_date_and_id rows) (
        order_keeps (IsRowWith query.status) rows (
          select-IsRowWith query.status (record_all recorded [])
            (record_all-IsRow recorded [] tt))) in
      let mine = keep (in_project query.project_id) ls in
      let kept = keep (in_domain query.domain_tags) mine in
      (
        take (pos_part query.limit) kept,
        rw e refl,
        All-map _ (Answers query) _ (λ l a. (a.0.0, a.0.1, a.1))
            (All-take _ (pos_part query.limit) kept (
              All-keep _ (in_domain query.domain_tags) mine (
                All-keep (λ (l : Lesson). l.status ≡ query.status) (in_project query.project_id) ls
                  h))),
        length-take-le (pos_part query.limit) kept,
      )

  -- A recorded retrospective is loaded as it was, in place of any earlier one of its project; what
  -- is loaded for other projects stays as it was.
  pub load-record_retrospective :
      (r : Retrospective) (project_id : String) (t : Dict (String × String))
      → load_retrospective formats project_id (record_retrospective formats r t) ≡ (
          if same r.project_id project_id
          then returns (some r)
          else load_retrospective formats project_id t)
  load-record_retrospective = load_after_record formats loads-dumps
