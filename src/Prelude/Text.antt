-- ===== src/Prelude/Text.antt =====
-- Texts that are compared whole (ids, names), and Python's `in` on a sequence of them.
use Prim.Native.String.{String}
use text.Mathlib.Text.{◌==◌}
use text.Mathlib.TextEquality.{eq_iff}
use mathlib.Core.Path.{◌≡◌, refl}
use mathlib.Core.Logic.{◌↔◌, ◌≢◌}
use mathlib.Core.Bool.{Bool, true, false, not, ◌&&◌, ◌||◌}
use mathlib.Core.List.{List, [], ◌∷◌, ◌++◌}
use native.Mathlib.Omega.{arith}

abbrev pub same : String → String → Bool
same s t = s == t

pub same_iff : (s t : String) → (same s t ≡ true) ↔ (s ≡ t)
same_iff s t = eq_iff s t

pub same_refl : (s : String) → same s s ≡ true
same_refl s = (eq_iff s s).1 refl

pub same_ne : (s t : String) → s ≢ t → same s t ≡ false
same_ne s t h = ground (arith, eq_iff s t)

-- `x in xs`
unfoldable pub has : String → List String → Bool
has x [] = false
has x (y ∷ ys) = same x y || has x ys

pub has-append : (x : String) (ys zs : List String) → has x (ys ++ zs) ≡ has x ys || has x zs
unfolding has
has-append x [] zs = refl
has-append x (y ∷ ys) zs = ground (arith, has-append x ys zs)

-- No id twice.
unfoldable pub distinct : List String → Bool
unfolding has
distinct [] = true
distinct (x ∷ xs) = not (has x xs) && distinct xs

pub has-middle :
    (y x : String) (xs ys : List String) → has y (xs ++ x ∷ ys) ≡ same y x || has y (xs ++ ys)
unfolding has
has-middle y x [] ys = refl
has-middle y x (z ∷ xs) ys = ground (arith, has-middle y x xs ys)

pub distinct-middle :
    (x : String) (xs ys : List String)
    → distinct (xs ++ x ∷ ys) ≡ true
    → (distinct (xs ++ ys) ≡ true) × (has x (xs ++ ys) ≡ false)
unfolding distinct
distinct-middle x [] ys h = ground arith
distinct-middle x (z ∷ xs) ys h =
    ground (arith, distinct-middle x xs ys, has-middle z x xs ys, same_iff z x, same_iff x z)

pub distinct-snoc :
    (xs : List String) (x : String)
    → distinct xs ≡ true
    → has x xs ≡ false
    → distinct (xs ++ x ∷ []) ≡ true
unfolding distinct
distinct-snoc [] x h k = refl
distinct-snoc (z ∷ xs) x h k =
    ground (arith, distinct-snoc xs x, has-append z xs (x ∷ []), same_iff z x, same_iff x z)
