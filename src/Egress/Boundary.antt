-- ===== src/Egress/Boundary.antt =====
-- What security/egress.py lets through.
use talisman_v.Prelude.{
  ℕ, ◌≡◌, ◌≢◌, ◌↔◌, ◌⊎◌, inl, inr, refl, true, List, [], ◌∷◌, ◌++◌, arith, ap, Bool-cases,
}
use talisman_v.Prelude.Raises.{returns, raises}
use talisman_v.Prelude.Codes.{
  same_codes, same_codes_iff, ends_with, ends_with-split, ends_with-append, is_empty,
}
use talisman_v.Egress.{
  dot, normalize_host, permits, some_permits, is_allowed, ensure_allowed, egress_denied,
}

-- The host is the entry, or a subdomain of it: the entry after a dot.
abbrev pub IsUnder : List ℕ → List ℕ → Type 0
IsUnder host entry =
    (entry ≢ []) × ((host ≡ entry) ⊎ ((sub : List ℕ) × (host ≡ sub ++ dot ∷ entry)))

is_empty_iff : (s : List ℕ) → (is_empty s ≡ true) ↔ (s ≡ [])
is_empty_iff [] = ground arith
is_empty_iff (c ∷ s) = ground arith

module _ (lower : List ℕ → List ℕ) where
  abbrev pub SomeUnder : List ℕ → List (List ℕ) → Type 0
  SomeUnder host [] = ⊥
  SomeUnder host (entry ∷ entries) =
      IsUnder host (normalize_host lower entry) ⊎ SomeUnder host entries

  permits-IsUnder : (host entry : List ℕ) → permits lower host entry ≡ true → IsUnder host entry
  permits-IsUnder host entry h = elim (Bool-cases (same_codes host entry)) [
    | inl e ↦ (ground (arith, is_empty_iff entry), inl ((same_codes_iff host entry).0 e))
    | inr e ↦ (
      ground (arith, is_empty_iff entry),
      inr (ends_with-split host (dot ∷ entry) (ground (arith, e, is_empty_iff entry))),
    )
  ]

  IsUnder-permits : (host entry : List ℕ) → IsUnder host entry → permits lower host entry ≡ true
  IsUnder-permits host entry (some_entry, inl e) =
      ground (arith, is_empty_iff entry, same_codes_iff host entry)
  IsUnder-permits host entry (some_entry, inr (sub, e)) = ground (
    arith,
    is_empty_iff entry,
    ap (λ s. ends_with s (dot ∷ entry)) e,
    ends_with-append sub (dot ∷ entry),
  )

  some_permits_iff :
      (host : List ℕ) (entries : List (List ℕ))
      → (some_permits lower host entries ≡ true) ↔ SomeUnder host entries
  unfolding some_permits
  some_permits_iff host [] = ground arith
  some_permits_iff host (entry ∷ entries) =
      let ih = some_permits_iff host entries in
      elim (Bool-cases (permits lower host (normalize_host lower entry))) [
        | inl e ↦
            rw e ((λ _. inl (permits-IsUnder host (normalize_host lower entry) e)), (λ _. refl))
        | inr e ↦ rw e (
          (λ h. inr (ih.0 h)),
          (λ u. elim u [
            | inl under ↦ ground (arith, e, IsUnder-permits host (normalize_host lower entry) under)
            | inr rest ↦ ih.1 rest
          ]),
        )
      ]

  -- `ensure_allowed` passes a host exactly where, in lower case and without one dot at its end, it
  -- is not empty and is an entry of the allowlist, read the same way, or a subdomain of one; a text
  -- that only ends like an entry is no subdomain. It raises `egress_denied` for every other host.
  pub passes_iff :
      (host : List ℕ) (allowlist : List (List ℕ))
      → ((ensure_allowed lower host allowlist ≡ returns tt)
          ↔ ((normalize_host lower host ≢ []) × SomeUnder (normalize_host lower host) allowlist))
        × ((ensure_allowed lower host allowlist ≡ returns tt)
            ⊎ (ensure_allowed lower host allowlist ≡ raises (egress_denied host)))
  unfolding ensure_allowed is_allowed
  passes_iff host allowlist = ground (
    arith,
    is_empty_iff (normalize_host lower host),
    some_permits_iff (normalize_host lower host) allowlist,
  )
