-- ===== src/Prelude/Replace.antt =====
-- `str.replace` and `in` of Python, on texts as lists of code points.
use talisman_v.Prelude.{
  ℕ, zero, suc, ◌≤◌, ◌≡◌, refl, Bool, true, false, ◌&&◌, ◌||◌, List, [], ◌∷◌, ◌++◌, arith, ◌==◌,
  length, if◌then◌else◌, Bool-cases, inl, inr,
}

-- s.startswith(t)
unfoldable pub starts_with : List ℕ → List ℕ → Bool
starts_with [] s = true
starts_with (c ∷ t) [] = false
starts_with (c ∷ t) (d ∷ s) = c == d && starts_with t s

-- t in s
unfoldable pub contains : List ℕ → List ℕ → Bool
unfolding starts_with
contains t [] = starts_with t []
contains t (c ∷ s) = starts_with t (c ∷ s) || contains t s

-- `pattern.sub(new, s)`, for the length of the match of the pattern at the start of a text (zero for
-- none): matches are replaced from left to right; `skip` characters of the last one are left.
unfoldable pub sub_from : (List ℕ → ℕ) → List ℕ → ℕ → List ℕ → List ℕ
sub_from matched new skip [] = []
sub_from matched new (suc skip) (c ∷ s) = sub_from matched new skip s
sub_from matched new zero (c ∷ s) = elim (matched (c ∷ s)) [
  | zero ↦ c ∷ sub_from matched new zero s
  | suc rest ↦ new ++ sub_from matched new rest s
]

abbrev pub occurrence : List ℕ → List ℕ → ℕ
occurrence old s = if starts_with old s then length old else 0

abbrev pub replace_from : List ℕ → List ℕ → ℕ → List ℕ → List ℕ
replace_from old = sub_from (occurrence old)

-- s.replace(old, new), where `old` is not empty
unfoldable pub replace : List ℕ → List ℕ → List ℕ → List ℕ
unfolding sub_from starts_with
replace old new s = replace_from old new zero s

pub starts_with-append : (t s : List ℕ) → starts_with t (t ++ s) ≡ true
unfolding starts_with
starts_with-append [] s = refl
starts_with-append (c ∷ t) s = ground (arith, starts_with-append t s)

pub contains-of_starts : (t s : List ℕ) → starts_with t s ≡ true → contains t s ≡ true
unfolding contains
contains-of_starts t [] h = h
contains-of_starts t (c ∷ s) h = rw h refl

pub contains-tail :
    (t : List ℕ) (c : ℕ) (s : List ℕ) → contains t s ≡ true → contains t (c ∷ s) ≡ true
unfolding contains
contains-tail t c s h = ground arith

pub contains-cons :
    (t : List ℕ) (c : ℕ) (s : List ℕ)
    → starts_with t (c ∷ s) ≡ false
    → contains t s ≡ false
    → contains t (c ∷ s) ≡ false
unfolding contains
contains-cons t c s h k = rw h k

pub contains-append : (before t after : List ℕ) → contains t (before ++ t ++ after) ≡ true
contains-append [] t after = contains-of_starts t (t ++ after) (starts_with-append t after)
contains-append (c ∷ before) t after =
    contains-tail t c (before ++ t ++ after) (contains-append before t after)

pub starts_with-length : (t s : List ℕ) → starts_with t s ≡ true → length t ≤ length s
unfolding starts_with
starts_with-length [] s h = omega arith
starts_with-length (c ∷ t) [] h = ground arith
starts_with-length (c ∷ t) (d ∷ s) h = ground (arith, starts_with-length t s)

-- A text that contains `before ++ t` contains `t`.
starts_with-suffix :
    (before t s : List ℕ) → starts_with (before ++ t) s ≡ true → contains t s ≡ true
starts_with-suffix [] t s h = contains-of_starts t s h
starts_with-suffix (c ∷ before) t [] h = absurd (nothing h)
  where
    nothing : starts_with (c ∷ before ++ t) [] ≡ true → ⊥
    nothing h = let h' : false ≡ true = unfold starts_with in h in cc
starts_with-suffix (c ∷ before) t (d ∷ s) h =
    contains-tail t d s (starts_with-suffix before t s (rest h))
  where
    rest : starts_with (c ∷ before ++ t) (d ∷ s) ≡ true → starts_with (before ++ t) s ≡ true
    rest h =
        let h' : (c == d && starts_with (before ++ t) s) ≡ true = unfold starts_with in h in
        ground (arith, h')

pub contains-suffix : (before t s : List ℕ) → contains (before ++ t) s ≡ true → contains t s ≡ true
contains-suffix before t [] h = starts_with-suffix before t [] (unfold contains in h)
contains-suffix before t (d ∷ s) h = elim (Bool-cases (starts_with (before ++ t) (d ∷ s))) [
  | inl e ↦ starts_with-suffix before t (d ∷ s) e
  | inr e ↦ contains-tail t d s (contains-suffix before t s (later e))
]
  where
    later : starts_with (before ++ t) (d ∷ s) ≡ false → contains (before ++ t) s ≡ true
    later e =
        let h' : (starts_with (before ++ t) (d ∷ s) || contains (before ++ t) s) ≡ true =
          unfold contains in h in
        ground (arith, h', e)

pub sub_from-skip :
    (matched : List ℕ → ℕ) (new : List ℕ) (skip c : ℕ) (s : List ℕ)
    → sub_from matched new (suc skip) (c ∷ s) ≡ sub_from matched new skip s
unfolding sub_from
sub_from-skip matched new skip c s = refl

pub sub_from-nil :
    (matched : List ℕ → ℕ) (new : List ℕ) (skip : ℕ) → sub_from matched new skip [] ≡ []
unfolding sub_from
sub_from-nil matched new skip = refl

pub sub_from-match :
    (matched : List ℕ → ℕ) (new : List ℕ) (c rest : ℕ) (s : List ℕ)
    → matched (c ∷ s) ≡ suc rest
    → sub_from matched new zero (c ∷ s) ≡ new ++ sub_from matched new rest s
unfolding sub_from
sub_from-match matched new c rest s h = rw (h, sub_from) refl

pub sub_from-copy :
    (matched : List ℕ → ℕ) (new : List ℕ) (c : ℕ) (s : List ℕ)
    → matched (c ∷ s) ≡ zero
    → sub_from matched new zero (c ∷ s) ≡ c ∷ sub_from matched new zero s
unfolding sub_from
sub_from-copy matched new c s h = rw (h, sub_from) refl

pub replace_from-hit :
    (b : ℕ) (old new : List ℕ) (c : ℕ) (s : List ℕ)
    → starts_with (b ∷ old) (c ∷ s) ≡ true
    → replace_from (b ∷ old) new zero (c ∷ s) ≡ new ++ replace_from (b ∷ old) new (length old) s
replace_from-hit b old new c s h =
    sub_from-match (occurrence (b ∷ old)) new c (length old) s (rw h refl)

pub replace_from-miss :
    (old new : List ℕ) (c : ℕ) (s : List ℕ)
    → starts_with old (c ∷ s) ≡ false
    → replace_from old new zero (c ∷ s) ≡ c ∷ replace_from old new zero s
replace_from-miss old new c s h = sub_from-copy (occurrence old) new c s (rw h refl)
