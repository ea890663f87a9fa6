-- ===== src/Tests/Lessons.antt =====
-- Concrete lessons, in formats that write a list of texts and a day as one text.
use Prim.Native.Char.{Char, code, char}
use Prim.Native.String.{[] as end, ◌∷◌ as char_then}
use talisman_v.Prelude.{
  ℕ, zero, suc, ◌≤◌, String, ◌≡◌, refl, ap, none, some, List, [], ◌∷◌, All, length, ◌==◌,
  if◌then◌else◌,
}
use talisman_v.Prelude.Int.{pos}
use talisman_v.Prelude.Raises.{returns}
use talisman_v.Storage.Memory.{
  Lesson, LessonQuery, LessonRow, Retrospective, Formats, low, active, retracted, retrieve_lessons,
  load_retrospective,
}
use talisman_v.Storage.Memory.Shelf.{shelve_all, record_all_retrospectives, table_refines_shelf}
use talisman_v.Storage.Memory.Retrieval.{Answers, record_all, retrieved_lessons_match}

-- the mark before a character of a text, and the mark at its end
abbrev mark : Char
mark = char 120 tt

abbrev stop : Char
stop = char 59 tt

abbrev written : String → String → String
written end rest = char_then stop rest
written (char_then c s) rest = char_then mark (char_then c (written s rest))

abbrev dumps : List String → String
dumps [] = end
dumps (s ∷ ss) = written s (dumps ss)

abbrev onto_first : Char → List String → List String
onto_first c [] = []
onto_first c (s ∷ ss) = char_then c s ∷ ss

abbrev texts : String → List String
texts end = []
texts (char_then m end) = end ∷ []
texts (char_then m (char_then c s)) =
    let ended = texts (char_then c s) in
    let longer = texts s in if code m == 59 then end ∷ ended else onto_first c longer

texts-written : (s rest : String) → texts (written s rest) ≡ s ∷ texts rest
texts-written end end = refl
texts-written end (char_then c s) = refl
texts-written (char_then c s) rest = rw (texts-written s rest) refl

loads-dumps : (xs : List String) → texts (dumps xs) ≡ xs
loads-dumps [] = refl
loads-dumps (s ∷ ss) = rw (texts-written s (dumps ss), loads-dumps ss) refl

abbrev iso : ℕ → String
iso zero = end
iso (suc d) = char_then mark (iso d)

abbrev day : String → ℕ
day end = zero
day (char_then c s) = suc (day s)

day-iso : (d : ℕ) → day (iso d) ≡ d
day-iso zero = refl
day-iso (suc d) = ap suc (day-iso d)

abbrev formats : Formats
formats = record {
  dumps = dumps;
  loads = λ s. returns (texts s);
  isoformat = iso;
  fromisoformat = λ s. returns (day s);
  order_by_date_and_id = λ rows. rows;
}

loads_returns : (xs : List String) → formats.loads (formats.dumps xs) ≡ returns xs
loads_returns xs = ap returns (loads-dumps xs)

days_return : (d : ℕ) → formats.fromisoformat (formats.isoformat d) ≡ returns d
days_return d = ap returns (day-iso d)

order_keeps :
    (P : LessonRow → Type 0) (rows : List LessonRow)
    → All P rows
    → All P (formats.order_by_date_and_id rows)
order_keeps P rows h = h

abbrev lesson : String → List String → Lesson
lesson id tags = record {
  lesson_id = id;
  project_id = "p1";
  domain_tags = tags;
  severity = low;
  statement = "Ask first.";
  detail_ref = "docs/lesson.md";
  status = active;
  lesson_date = 3;
  supersedes_lesson_id = none;
}

abbrev recorded : List Lesson
recorded =
    lesson "L1" ("db" ∷ [])
    ∷ lesson "L2" ("web" ∷ "db" ∷ [])
    ∷ record (lesson "L1" ("db" ∷ [])) { status = retracted }
    ∷ []

abbrev query : LessonQuery
query = record { project_id = some "p1"; domain_tags = "db" ∷ []; status = active; limit = pos 10 }

retrieved_lessons_match_example :
    (ls : List Lesson) × (retrieve_lessons formats query
        (record_all formats loads_returns days_return order_keeps recorded [])
      ≡ returns ls)
    × All (Answers query) ls
    × (length ls ≤ 10)
retrieved_lessons_match_example =
    retrieved_lessons_match formats loads_returns days_return order_keeps recorded query

abbrev retrospective : Retrospective
retrospective = record { project_id = "p1"; content = "Done."; lesson_ids = "L1" ∷ "L2" ∷ [] }

abbrev newer : Retrospective
newer = record { project_id = "p1"; content = "Done again."; lesson_ids = [] }

table_refines_shelf_example :
    load_retrospective formats "p1"
      (record_all_retrospectives formats (retrospective ∷ newer ∷ []) [])
    ≡ returns (some newer)
unfolding shelve_all
table_refines_shelf_example =
    table_refines_shelf formats loads_returns (retrospective ∷ newer ∷ []) "p1"
