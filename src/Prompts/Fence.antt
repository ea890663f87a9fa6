-- ===== src/Prompts/Fence.antt =====
-- What is left of the fences in a text that policies/phase_prompts.py has defanged.
use talisman_v.Prelude.{
  ℕ, zero, suc, ◌+◌, ◌≤◌, ◌≡◌, refl, true, false, ◌&&◌, List, [], ◌∷◌, ◌++◌, arith, ◌==◌, length,
  Bool-cases, inl, inr,
}
use talisman_v.Prelude.Replace.{
  starts_with, contains, contains-cons, contains-suffix, starts_with-length, replace_from,
  replace_from-hit, replace_from-miss, sub_from-skip, sub_from-nil, occurrence,
}
use talisman_v.Prelude.Codes.{code_points}
use talisman_v.Prompts.{fence_open, fence_close, neutralise_fences}

-- the mark, and what takes its place: `= = =`
abbrev spaced : List ℕ
spaced = 61 ∷ 32 ∷ 61 ∷ 32 ∷ 61 ∷ []

abbrev run : ℕ → List ℕ
run zero = []
run (suc k) = 61 ∷ run k

abbrev defanged : ℕ → List ℕ → List ℕ
defanged = replace_from (run 5) spaced

starts_with_shorter :
    (k j : ℕ) (s : List ℕ) → k ≤ j → starts_with (run j) s ≡ true → starts_with (run k) s ≡ true
unfolding starts_with
starts_with_shorter zero j s h e = refl
starts_with_shorter (suc k) zero s h e = absurd (omega arith)
starts_with_shorter (suc k) (suc j) [] h e = e
starts_with_shorter (suc k) (suc j) (c ∷ s) h e = ground (arith, starts_with_shorter k j s)

-- A run at the start of the result was there before.
run_before :
    (k : ℕ) (s : List ℕ)
    → k ≤ 5
    → starts_with (run k) (defanged zero s) ≡ true
    → starts_with (run k) s ≡ true
unfolding starts_with
run_before zero s h e = refl
run_before (suc k) [] h e = rw (sub_from-nil (occurrence (run 5)) spaced zero) at e
run_before (suc k) (c ∷ s) h e = elim (Bool-cases (starts_with (run 5) (c ∷ s))) [
  | inl hit ↦ starts_with_shorter (suc k) 5 (c ∷ s) h hit
  | inr miss ↦
      let e' : (61 == c && starts_with (run k) (defanged zero s)) ≡ true =
        rw (replace_from-miss (run 5) spaced c s miss) at e in
      ground (arith, e', run_before k s)
]

no_full_run : (s : List ℕ) → starts_with (run 5) (defanged zero s) ≡ false
no_full_run [] = rw (sub_from-nil (occurrence (run 5)) spaced zero) (unfold starts_with in refl)
no_full_run (c ∷ s) = elim (Bool-cases (starts_with (run 5) (c ∷ s))) [
  | inl hit ↦ rw (replace_from-hit 61 (run 4) spaced c s hit) (unfold starts_with in refl)
  | inr miss ↦ elim (Bool-cases (starts_with (run 5) (defanged zero (c ∷ s)))) [
    | inr no_run ↦ no_run
    | inl a_run ↦ let found = run_before 5 (c ∷ s) (omega arith) a_run in cc
  ]
]

-- `T =====`, which both fences hold
abbrev seam : List ℕ
seam = 84 ∷ 32 ∷ run 5

no_seam_after_space : (s : List ℕ) → starts_with (32 ∷ run 5) (defanged zero s) ≡ false
unfolding starts_with
no_seam_after_space [] = rw (sub_from-nil (occurrence (run 5)) spaced zero) refl
no_seam_after_space (c ∷ s) = elim (Bool-cases (starts_with (run 5) (c ∷ s))) [
  | inl hit ↦ rw (replace_from-hit 61 (run 4) spaced c s hit) refl
  | inr miss ↦ rw (replace_from-miss (run 5) spaced c s miss) (ground (arith, no_full_run s))
]

no_seam_start : (c : ℕ) (s : List ℕ) → starts_with seam (c ∷ defanged zero s) ≡ false
unfolding starts_with
no_seam_start c s = ground (arith, no_seam_after_space s)

past_spaced : (s : List ℕ) → contains seam s ≡ false → contains seam (spaced ++ s) ≡ false
unfolding contains starts_with
past_spaced s h = h

no_seam : (skip : ℕ) (s : List ℕ) → contains seam (defanged skip s) ≡ false
no_seam skip [] = rw (sub_from-nil (occurrence (run 5)) spaced skip) (unfold contains in refl)
no_seam (suc skip) (c ∷ s) =
    rw (sub_from-skip (occurrence (run 5)) spaced skip c s) (no_seam skip s)
no_seam zero (c ∷ s) = elim (Bool-cases (starts_with (run 5) (c ∷ s))) [
  | inl hit ↦
      rw (replace_from-hit 61 (run 4) spaced c s hit) (past_spaced (defanged 4 s) (no_seam 4 s))
  | inr miss ↦
      rw (replace_from-miss (run 5) spaced c s miss)
        (contains-cons seam c (defanged zero s) (no_seam_start c s) (no_seam zero s))
]

length-defanged :
    (skip : ℕ) (s : List ℕ) → skip ≤ length s → length (defanged skip s) + skip ≡ length s
length-defanged skip [] h = rw (sub_from-nil (occurrence (run 5)) spaced skip) (omega arith)
length-defanged (suc skip) (c ∷ s) h =
    rw (sub_from-skip (occurrence (run 5)) spaced skip c s)
      (omega (arith, length-defanged skip s (omega arith)))
length-defanged zero (c ∷ s) h = elim (Bool-cases (starts_with (run 5) (c ∷ s))) [
  | inl hit ↦ rw (replace_from-hit 61 (run 4) spaced c s hit) (
      omega (
        arith,
        length-defanged 4 s (omega (arith, starts_with-length (run 5) (c ∷ s) hit)),
        starts_with-length (run 5) (c ∷ s) hit,
      ))
  | inr miss ↦
      rw (replace_from-miss (run 5) spaced c s miss)
        (omega (arith, length-defanged zero s (omega arith)))
]

-- Neither fence occurs in a defanged text, whatever the text was.
pub neutralised_holds_no_fence :
    (s : List ℕ)
    → (contains fence_open (neutralise_fences s) ≡ false)
      × (contains fence_close (neutralise_fences s) ≡ false)
unfolding neutralise_fences fence_open fence_close
neutralised_holds_no_fence s = (
  no_fence (code_points "===== BEGIN UNTRUSTED CONTEX") s,
  no_fence (code_points "===== END UNTRUSTED CONTEX") s,
)
  where
    no_fence : (before s : List ℕ) → contains (before ++ seam) (defanged zero s) ≡ false
    no_fence before s = elim (Bool-cases (contains (before ++ seam) (defanged zero s))) [
      | inr e ↦ e
      | inl e ↦
          let found = contains-suffix before seam (defanged zero s) e in
          let never = no_seam zero s in cc
    ]

pub length-neutralise_fences : (s : List ℕ) → length (neutralise_fences s) ≡ length s
unfolding neutralise_fences
length-neutralise_fences s = omega (arith, length-defanged zero s (omega arith))
