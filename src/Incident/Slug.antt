-- ===== src/Incident/Slug.antt =====
-- Where observability/incident.py writes: the name of the file.
use talisman_v.Prelude.{
  ℕ, zero, suc, ◌≤◌, ◌≡◌, inl, inr, refl, Bool-cases, true, false, not, List, [], ◌∷◌, arith, All,
  length, length-take-le, take,
}
use talisman_v.Prelude.Codes.{code_points, strip_left, strip_right, All-strip_left, All-strip_right}
use talisman_v.Prelude.Replace.{
  sub_from, sub_from-nil, sub_from-skip, sub_from-match, sub_from-copy,
}
use talisman_v.Redaction.{run_length}
use talisman_v.Incident.{is_safe, is_edge, or_project, unsafe_run, safe_slug}

abbrev pub IsSafe : List ℕ → Type 0
IsSafe = All (λ (c : ℕ). is_safe c ≡ true)

All-take : (P : ℕ → Type 0) (n : ℕ) (s : List ℕ) → All P s → All P (take n s)
All-take P zero s h = tt
All-take P (suc n) [] h = tt
All-take P (suc n) (c ∷ s) h = (h.0, All-take P n s h.1)

safe_stays : (c : ℕ) (s : List ℕ) → is_safe c ≡ true → unsafe_run (c ∷ s) ≡ zero
unfolding run_length
safe_stays c s h = ground (arith, h)

unsafe_goes :
    (c : ℕ) (s : List ℕ)
    → is_safe c ≡ false
    → unsafe_run (c ∷ s) ≡ suc (run_length (λ (d : ℕ). not (is_safe d)) s)
unfolding run_length
unsafe_goes c s h = ground (arith, h)

sub-IsSafe : (skip : ℕ) (s : List ℕ) → IsSafe (sub_from unsafe_run (code_points "_") skip s)
sub-IsSafe skip [] = rw (sub_from-nil unsafe_run (code_points "_") skip) tt
sub-IsSafe (suc skip) (c ∷ s) =
    rw (sub_from-skip unsafe_run (code_points "_") skip c s) (sub-IsSafe skip s)
sub-IsSafe zero (c ∷ s) = elim (Bool-cases (is_safe c)) [
  | inl e ↦
      rw (sub_from-copy unsafe_run (code_points "_") c s (safe_stays c s e)) (e, sub-IsSafe zero s)
  | inr e ↦
      let rest = run_length (λ (d : ℕ). not (is_safe d)) s in
      rw (sub_from-match unsafe_run (code_points "_") c rest s (unsafe_goes c s e))
        (refl, sub-IsSafe rest s)
]

or_project-IsSafe :
    (s : List ℕ)
    → IsSafe s
    → length s ≤ 64
    → IsSafe (or_project s) × (1 ≤ length (or_project s)) × (length (or_project s) ≤ 64)
or_project-IsSafe [] h l =
    ((refl, (refl, (refl, (refl, (refl, (refl, (refl, tt))))))), omega arith, omega arith)
or_project-IsSafe (c ∷ s) h l = (h, omega arith, l)

-- The part of a dump's name that comes from the project: letters, digits, dots, dashes and
-- underscores only, so no separator of paths, and between one and sixty-four characters, whatever
-- the project is called.
pub safe_slug_bounds :
    (project_id : List ℕ)
    → IsSafe (safe_slug project_id)
      × (1 ≤ length (safe_slug project_id))
      × (length (safe_slug project_id) ≤ 64)
safe_slug_bounds project_id =
    let cleaned = sub_from unsafe_run (code_points "_") zero project_id in
    let stripped = strip_right is_edge (strip_left is_edge cleaned) in
    let P = λ (c : ℕ). is_safe c ≡ true in
    unfold safe_slug in
    or_project-IsSafe (take 64 stripped)
      (All-take P 64 stripped (
        All-strip_right is_edge P (strip_left is_edge cleaned)
          (All-strip_left is_edge P cleaned (sub-IsSafe zero project_id))))
      (length-take-le 64 stripped)
