-- ===== src/Prelude/Codes.antt =====
-- Texts that are taken apart, as lists of the numbers of their characters.
use Prim.Native.Char.{code}
use Prim.Native.String.{[] as end, ◌∷◌ as char_then}
use talisman_v.Prelude.{
  ℕ, String, ◌≡◌, refl, ◌↔◌, inl, inr, Bool, true, false, ◌&&◌, ◌||◌, List, [], ◌∷◌, ◌++◌, arith,
  ◌==◌, ap, Bool-cases, All, if◌then◌else◌,
}

abbrev pub code_points : String → List ℕ
code_points end = []
code_points (char_then c s) = code c ∷ code_points s

-- s == t
unfoldable pub same_codes : List ℕ → List ℕ → Bool
same_codes [] [] = true
same_codes [] (d ∷ t) = false
same_codes (c ∷ s) [] = false
same_codes (c ∷ s) (d ∷ t) = c == d && same_codes s t

pub same_codes_iff : (s t : List ℕ) → (same_codes s t ≡ true) ↔ (s ≡ t)
unfolding same_codes
same_codes_iff [] [] = ground arith
same_codes_iff [] (d ∷ t) = ground arith
same_codes_iff (c ∷ s) [] = ground arith
same_codes_iff (c ∷ s) (d ∷ t) = ground (arith, same_codes_iff s t)

-- s.endswith(t)
unfoldable pub ends_with : List ℕ → List ℕ → Bool
unfolding same_codes
ends_with [] t = same_codes [] t
ends_with (c ∷ s) t = same_codes (c ∷ s) t || ends_with s t

pub ends_with-split : (s t : List ℕ) → ends_with s t ≡ true → (before : List ℕ) × (s ≡ before ++ t)
unfolding ends_with
ends_with-split [] t h = ([], (same_codes_iff [] t).0 h)
ends_with-split (c ∷ s) t h = elim (Bool-cases (same_codes (c ∷ s) t)) [
  | inl e ↦ ([], (same_codes_iff (c ∷ s) t).0 e)
  | inr e ↦
      let (before, split) = ends_with-split s t (ground (arith, e)) in
      (c ∷ before, ap (λ r. c ∷ r) split)
]

pub ends_with-append : (before t : List ℕ) → ends_with (before ++ t) t ≡ true
unfolding ends_with
ends_with-append [] [] = (same_codes_iff [] []).1 refl
ends_with-append [] (d ∷ t) = rw ((same_codes_iff (d ∷ t) (d ∷ t)).1 refl) refl
ends_with-append (c ∷ before) t = ground (arith, ends_with-append before t)

-- c in s
unfoldable pub has_code : ℕ → List ℕ → Bool
has_code c [] = false
has_code c (d ∷ s) = c == d || has_code c s

abbrev pub is_empty : List ℕ → Bool
is_empty [] = true
is_empty (c ∷ s) = false

-- s.lstrip(...) and s.rstrip(...), of the characters that pass a test
module _ (test : ℕ → Bool) where
  unfoldable pub strip_left : List ℕ → List ℕ
  strip_left [] = []
  strip_left (c ∷ s) = let rest = strip_left s in if test c then rest else c ∷ s

  abbrev pub kept : ℕ → List ℕ → List ℕ
  kept c [] = if test c then [] else c ∷ []
  kept c (d ∷ s) = c ∷ d ∷ s

  unfoldable pub strip_right : List ℕ → List ℕ
  strip_right [] = []
  strip_right (c ∷ s) = kept c (strip_right s)

  -- A text with no such character stays as it is.
  pub strip_left-none : (s : List ℕ) → All (λ (c : ℕ). test c ≡ false) s → strip_left s ≡ s
  unfolding strip_left
  strip_left-none [] h = refl
  strip_left-none (c ∷ s) h = ground (arith, h.0)

  pub strip_right-none : (s : List ℕ) → All (λ (c : ℕ). test c ≡ false) s → strip_right s ≡ s
  unfolding strip_right
  strip_right-none [] h = refl
  strip_right-none (c ∷ []) h = rw h.0 refl
  strip_right-none (c ∷ d ∷ s) h = rw (strip_right-none (d ∷ s) h.1) refl

  module _ (P : ℕ → Type 0) where
    pub All-strip_left : (s : List ℕ) → All P s → All P (strip_left s)
    unfolding strip_left
    All-strip_left [] h = tt
    All-strip_left (c ∷ s) h = elim (Bool-cases (test c)) [
      | inl e ↦ rw e (All-strip_left s h.1)
      | inr e ↦ rw e h
    ]

    All-kept : (c : ℕ) (s : List ℕ) → P c → All P s → All P (kept c s)
    All-kept c [] h k = elim (Bool-cases (test c)) [ inl e ↦ rw e tt | inr e ↦ rw e (h, tt) ]
    All-kept c (d ∷ s) h k = (h, k)

    pub All-strip_right : (s : List ℕ) → All P s → All P (strip_right s)
    unfolding strip_right
    All-strip_right [] h = tt
    All-strip_right (c ∷ s) h = All-kept c (strip_right s) h.0 (All-strip_right s h.1)
