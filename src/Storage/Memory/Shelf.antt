-- ===== src/Storage/Memory/Shelf.antt =====
-- The retrospectives of adapters/sqlite/memory.py, seen as one text for each project.
use talisman_v.Prelude.{
  String, ◌≡◌, refl, Option, none, some, List, [], ◌∷◌, same, same_iff, sym, if◌then◌else◌, ap, ◌∙◌,
  Bool-cases, inl, inr,
}
use talisman_v.Prelude.Dict.{Dict, get-put}
use talisman_v.Prelude.Raises.{returns}
use talisman_v.Storage.Memory.{Formats, Retrospective, record_retrospective, load_retrospective}

-- What the port promises: the latest retrospective of each project.
abbrev pub Shelf : Type 0
Shelf = String → Option Retrospective

abbrev pub empty_shelf : Shelf
empty_shelf project_id = none

abbrev pub shelve : Retrospective → Shelf → Shelf
shelve r shelf project_id = if same r.project_id project_id then some r else shelf project_id

unfoldable pub shelve_all : List Retrospective → Shelf → Shelf
shelve_all [] shelf = shelf
shelve_all (r ∷ rs) shelf = shelve_all rs (shelve r shelf)

unfoldable pub record_all_retrospectives :
    Formats → List Retrospective → Dict (String × String) → Dict (String × String)
record_all_retrospectives formats [] t = t
record_all_retrospectives formats (r ∷ rs) t =
    record_all_retrospectives formats rs (record_retrospective formats r t)

module _ (formats : Formats)
    (loads-dumps : (xs : List String) → formats.loads (formats.dumps xs) ≡ returns xs) where
  -- a recorded retrospective is loaded, and the others stay
  pub load_after_record :
      (r : Retrospective) (project_id : String) (t : Dict (String × String))
      → load_retrospective formats project_id (record_retrospective formats r t) ≡ (
          if same r.project_id project_id
          then returns (some r)
          else load_retrospective formats project_id t)
  unfolding load_retrospective record_retrospective
  load_after_record r project_id t = elim (Bool-cases (same r.project_id project_id)) [
    | inl e ↦
        rw
          (
            get-put t r.project_id project_id (r.content, formats.dumps r.lesson_ids),
            e,
            loads-dumps r.lesson_ids,
          )
          (ap
            (λ p.
              returns
                (some (record { project_id = p; content = r.content; lesson_ids = r.lesson_ids })))
            (sym ((same_iff r.project_id project_id).0 e)))
    | inr e ↦ rw (get-put t r.project_id project_id (r.content, formats.dumps r.lesson_ids), e) refl
  ]

  -- a table that shows a shelf
  abbrev Shows : Dict (String × String) → Shelf → Type 0
  Shows t shelf =
      (project_id : String) → load_retrospective formats project_id t ≡ returns (shelf project_id)

  record-Shows :
      (r : Retrospective) (t : Dict (String × String)) (shelf : Shelf)
      → Shows t shelf
      → Shows (record_retrospective formats r t) (shelve r shelf)
  record-Shows r t shelf h project_id = elim (Bool-cases (same r.project_id project_id)) [
    | inl e ↦ load_after_record r project_id t ∙ rw e refl
    | inr e ↦ load_after_record r project_id t ∙ rw e (h project_id)
  ]

  record_all-Shows :
      (rs : List Retrospective) (t : Dict (String × String)) (shelf : Shelf)
      → Shows t shelf
      → Shows (record_all_retrospectives formats rs t) (shelve_all rs shelf)
  unfolding record_all_retrospectives shelve_all
  record_all-Shows [] t shelf h = h
  record_all-Shows (r ∷ rs) t shelf h =
      record_all-Shows rs (record_retrospective formats r t) (shelve r shelf)
        (record-Shows r t shelf h)

  -- The table of retrospectives, in which rows are written and their lists of ids encoded, shows
  -- at every moment what the port promises: after any retrospectives were recorded in an empty
  -- table, each project has the last one that was recorded for it, and no other project has one.
  -- (The encoding of a list of ids is decoded to that list.)
  pub table_refines_shelf :
      (rs : List Retrospective) (project_id : String)
      → load_retrospective formats project_id (record_all_retrospectives formats rs [])
        ≡ returns (shelve_all rs empty_shelf project_id)
  table_refines_shelf rs = record_all-Shows rs [] empty_shelf none_yet
    where
      none_yet : Shows [] empty_shelf
      none_yet project_id = unfold load_retrospective in refl
