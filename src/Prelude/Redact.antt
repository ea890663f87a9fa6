-- ===== src/Prelude/Redact.antt =====
-- What a text holds once the matches of a pattern are replaced by a marker.
use talisman_v.Prelude.{
  ℕ, zero, suc, ◌≡◌, ◌≢◌, ◌⊎◌, refl, true, false, ◌&&◌, ◌||◌, List, [], ◌∷◌, ◌++◌, append_assoc,
  arith, ◌==◌, Bool-cases, inl, inr,
}
use talisman_v.Prelude.Codes.{has_code}
use talisman_v.Prelude.Replace.{
  starts_with, contains, contains-cons, sub_from, sub_from-skip, sub_from-nil, sub_from-match,
  sub_from-copy,
}

-- A text with a character that `s` does not have is no prefix of `s ++ e ∷ rest`, if it lacks `e`.
starts_with-blocked :
    (t s : List ℕ) (x e : ℕ) (rest : List ℕ)
    → has_code x t ≡ true
    → has_code e t ≡ false
    → has_code x s ≡ false
    → starts_with t (s ++ e ∷ rest) ≡ false
unfolding starts_with has_code
starts_with-blocked [] s x e rest h k l = ground arith
starts_with-blocked (c ∷ t) [] x e rest h k l = ground arith
starts_with-blocked (c ∷ t) (d ∷ s) x e rest h k l =
    ground (arith, starts_with-blocked t s x e rest)

has_code-tail : (x d : ℕ) (s : List ℕ) → has_code x (d ∷ s) ≡ false → has_code x s ≡ false
unfolding has_code
has_code-tail x d s h = ground arith

contains-nil : (t : List ℕ) (x : ℕ) → has_code x t ≡ true → contains t [] ≡ false
unfolding contains has_code
contains-nil [] x h = ground arith
contains-nil (c ∷ t) x h = refl

contains-blocked :
    (t s : List ℕ) (x e : ℕ) (rest : List ℕ)
    → has_code x t ≡ true
    → has_code e t ≡ false
    → has_code x s ≡ false
    → contains t rest ≡ false
    → contains t (s ++ e ∷ rest) ≡ false
unfolding contains
contains-blocked t [] x e rest h k l m = rw (starts_with-blocked t [] x e rest h k l) m
contains-blocked t (d ∷ s) x e rest h k l m =
    rw (starts_with-blocked t (d ∷ s) x e rest h k l)
      (contains-blocked t s x e rest h k (has_code-tail x d s l) m)

starts_with-other :
    (c first : ℕ) (p rest : List ℕ)
    → has_code first (c ∷ p) ≡ false
    → starts_with (c ∷ p) (first ∷ rest) ≡ false
unfolding starts_with has_code
starts_with-other c first p rest h = ground arith

ℕ-cases : (n : ℕ) → (n ≡ zero) ⊎ ((m : ℕ) × (n ≡ suc m))
ℕ-cases zero = inl refl
ℕ-cases (suc m) = inr (m, refl)

module _ (matched : List ℕ → ℕ) (old : List ℕ) where
  abbrev Absent : List ℕ → Type 0
  Absent s = (contains old s ≡ false) ⊎ ((t : List ℕ) → starts_with old t ≡ true → matched t ≢ zero)

  Absent-later : (c : ℕ) (s : List ℕ) → Absent (c ∷ s) → Absent s
  Absent-later c s (inr h) = inr h
  Absent-later c s (inl h) = inl (uncons h)
    where
      uncons : contains old (c ∷ s) ≡ false → contains old s ≡ false
      uncons h =
          let h' : (starts_with old (c ∷ s) || contains old s) ≡ false = unfold contains in h in
          ground (arith, h')

  Absent-here :
      (c : ℕ) (s : List ℕ)
      → matched (c ∷ s) ≡ zero
      → Absent (c ∷ s)
      → starts_with old (c ∷ s) ≡ false
  Absent-here c s e (inl h) =
      let h' : (starts_with old (c ∷ s) || contains old s) ≡ false = unfold contains in h in
      ground (arith, h')
  Absent-here c s e (inr h) = elim (Bool-cases (starts_with old (c ∷ s))) [
    | inr no_start ↦ no_start
    | inl start ↦ absurd (h (c ∷ s) start e)
  ]

-- The replacement begins and ends with characters that the text `old` lacks, and `old` has a
-- character that stands nowhere in between.
module _ (matched : List ℕ → ℕ) (first : ℕ) (middle : List ℕ) (last x : ℕ) (old : List ℕ)
    (lacks_first : has_code first old ≡ false) (lacks_last : has_code last old ≡ false)
    (own : has_code x old ≡ true) (not_between : has_code x (first ∷ middle) ≡ false) where
  abbrev marker : List ℕ
  marker = first ∷ middle ++ last ∷ []

  abbrev result : ℕ → List ℕ → List ℕ
  result = sub_from matched marker

  starts_with-result :
      (p s : List ℕ)
      → has_code first p ≡ false
      → starts_with p (result zero s) ≡ true
      → starts_with p s ≡ true
  unfolding starts_with
  starts_with-result [] s l h = refl
  starts_with-result (c ∷ p) [] l h = rw (sub_from-nil matched marker zero) at h
  starts_with-result (c ∷ p) (d ∷ s) l h = elim (ℕ-cases (matched (d ∷ s))) [
    | inr (n, e) ↦
        let k : starts_with (c ∷ p) (marker ++ result n s) ≡ true =
          rw (sub_from-match matched marker d n s e) at h in
        let never = starts_with-other c first p ((middle ++ last ∷ []) ++ result n s) l in cc
    | inl e ↦
        let k : (c == d && starts_with p (result zero s)) ≡ true =
          rw (sub_from-copy matched marker d s e) at h in
        ground (arith, k, starts_with-result p s (has_code-tail first c p l))
  ]

  -- no new occurrence at a place that is copied
  unchanged_start :
      (c : ℕ) (s : List ℕ)
      → matched (c ∷ s) ≡ zero
      → starts_with old (c ∷ s) ≡ false
      → starts_with old (c ∷ result zero s) ≡ false
  unchanged_start c s e absent = elim (Bool-cases (starts_with old (c ∷ result zero s))) [
    | inr no_start ↦ no_start
    | inl start ↦
        let found =
          starts_with-result old (c ∷ s) lacks_first
            (rw (sub_from-copy matched marker c s e) start) in
        cc
  ]

  -- A text that is not there before the replacement is not there after it. If it is what is
  -- matched, it need not be absent before.
  pub absent-result :
      (skip : ℕ) (s : List ℕ)
      → (contains old s ≡ false) ⊎ ((t : List ℕ) → starts_with old t ≡ true → matched t ≢ zero)
      → contains old (result skip s) ≡ false
  absent-result skip [] h = rw (sub_from-nil matched marker skip) (contains-nil old x own)
  absent-result (suc skip) (c ∷ s) h =
      rw (sub_from-skip matched marker skip c s)
        (absent-result skip s (Absent-later matched old c s h))
  absent-result zero (c ∷ s) h = elim (ℕ-cases (matched (c ∷ s))) [
    | inr (n, e) ↦
        rw (sub_from-match matched marker c n s e, append_assoc middle (last ∷ []) (result n s))
          (contains-blocked old (first ∷ middle) x last (result n s) own lacks_last not_between
            (absent-result n s (Absent-later matched old c s h)))
    | inl e ↦ rw (sub_from-copy matched marker c s e) (
        contains-cons old c (result zero s)
          (unchanged_start c s e (Absent-here matched old c s e h))
          (absent-result zero s (Absent-later matched old c s h)))
  ]
