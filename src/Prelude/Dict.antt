-- ===== src/Prelude/Dict.antt =====
-- Python's `dict` with string keys, in insertion order: a write to a present key keeps its place,
-- and a write to a new key stands last.
use talisman_v.Prelude.{
  suc, ◌+◌, String, ◌≡◌, refl, true, false, not, ◌&&◌, ◌||◌, Option, none, some, List, [], ◌∷◌, map,
  arith, same, same_iff, has, distinct, length, if◌then◌else◌,
}

abbrev pub Dict {ℓ} : Type ℓ → Type ℓ
Dict V = List (String × V)

module _ {ℓ} {V : Type ℓ} where
  -- list(d)
  abbrev pub keys : Dict V → List String
  keys = map (λ e. e.0)

  -- d.get(k)
  unfoldable pub get : Dict V → String → Option V
  get [] k = none
  get ((j, v) ∷ d) k = if same j k then some v else get d k

  -- d[k] = v
  unfoldable pub put : Dict V → String → V → Dict V
  put [] k v = (k, v) ∷ []
  put ((j, w) ∷ d) k v = if same j k then (j, v) ∷ d else (j, w) ∷ put d k v

  -- d.pop(k, None)
  unfoldable pub remove : Dict V → String → Dict V
  remove [] k = []
  remove ((j, w) ∷ d) k = if same j k then d else (j, w) ∷ remove d k

  pub get-put :
      (d : Dict V) (k j : String) (v : V)
      → get (put d k v) j ≡ (if same k j then some v else get d j)
  unfolding get put
  get-put [] k j v = refl
  get-put ((i, w) ∷ d) k j v =
      ground (arith, get-put d k j v, same_iff i k, same_iff i j, same_iff k j)

  pub has-keys-put :
      (d : Dict V) (k j : String) (v : V) → has j (keys (put d k v)) ≡ same j k || has j (keys d)
  unfolding put has
  has-keys-put [] k j v = refl
  has-keys-put ((i, w) ∷ d) k j v =
      ground (arith, has-keys-put d k j v, same_iff i k, same_iff i j, same_iff j i, same_iff j k)

  pub distinct-put :
      (d : Dict V) (k : String) (v : V)
      → distinct (keys d) ≡ true
      → distinct (keys (put d k v)) ≡ true
  unfolding put distinct
  distinct-put [] k v h = refl
  distinct-put ((i, w) ∷ d) k v h =
      ground (arith, distinct-put d k v, has-keys-put d k i v, same_iff i k, same_iff k i)

  pub length-put :
      (d : Dict V) (k : String) (v : V)
      → length (put d k v) ≡ (if has k (keys d) then length d else suc (length d))
  unfolding put has
  length-put [] k v = refl
  length-put ((i, w) ∷ d) k v = ground (arith, length-put d k v, same_iff i k, same_iff k i)

  pub has-keys-remove :
      (d : Dict V) (k j : String)
      → distinct (keys d) ≡ true
      → has j (keys (remove d k)) ≡ not (same k j) && has j (keys d)
  unfolding remove distinct
  has-keys-remove [] k j h = ground arith
  has-keys-remove ((i, w) ∷ d) k j h =
      ground (arith, has-keys-remove d k j, same_iff i k, same_iff k j, same_iff j i)

  pub distinct-remove :
      (d : Dict V) (k : String) → distinct (keys d) ≡ true → distinct (keys (remove d k)) ≡ true
  unfolding remove distinct
  distinct-remove [] k h = refl
  distinct-remove ((i, w) ∷ d) k h =
      ground (arith, distinct-remove d k, has-keys-remove d k i, same_iff i k)

  pub length-remove :
      (d : Dict V) (k : String) → length d ≡ length (remove d k) + (if has k (keys d) then 1 else 0)
  unfolding remove has
  length-remove [] k = refl
  length-remove ((i, w) ∷ d) k = ground (arith, length-remove d k, same_iff i k, same_iff k i)

  pub has-keys_iff_get :
      (d : Dict V) (k : String) → has k (keys d) ≡ (elim (get d k) [ none ↦ false | some _ ↦ true ])
  unfolding get has
  has-keys_iff_get [] k = refl
  has-keys_iff_get ((i, w) ∷ d) k = ground (arith, has-keys_iff_get d k, same_iff i k, same_iff k i)
