-- ===== src/Egress/Authority.antt =====
-- adapters/egress_proxy.py, `_parse_authority`: the target of a CONNECT request.
--
-- `to_int` is Python's `int`; `none` is its `ValueError`.
use talisman_v.Prelude.{
  ℕ, ◌≡◌, refl, Bool, false, ◌||◌, Option, none, some, List, [], ◌∷◌, ◌++◌, arith, All, ◌==◌,
  if◌then◌else◌,
}
use talisman_v.Prelude.Int.{ℤ, pos}
use talisman_v.Prelude.Codes.{has_code, strip_left, strip_right, strip_left-none, strip_right-none}

-- `:`, `[` and `]`
abbrev pub colon : ℕ
colon = 58

abbrev pub bracket : ℕ → Bool
bracket c = c == 91 || c == 93

-- the last colon splits the text: before and after it
abbrev later_split : ℕ → List ℕ → Option (List ℕ × List ℕ) → Option (List ℕ × List ℕ)
later_split c s (some (host, port)) = some (c ∷ host, port)
later_split c s none = if c == colon then some ([], s) else none

unfoldable pub rpartition : List ℕ → Option (List ℕ × List ℕ)
rpartition [] = none
rpartition (c ∷ s) = later_split c s (rpartition s)

-- the host, and the text of the port
abbrev pub host_port : List ℕ → Option (List ℕ × List ℕ) → List ℕ × List ℕ
host_port authority none = (authority, [])
host_port authority (some ([], port)) = (authority, [])
host_port authority (some (c ∷ host, port)) = (c ∷ host, port)

-- No bracket in the text.
abbrev pub NoBracket : List ℕ → Type 0
NoBracket = All (λ (c : ℕ). bracket c ≡ false)

module _ (to_int : List ℕ → Option ℤ) where
  abbrev with_port : List ℕ → Option ℤ → Option (List ℕ × ℤ)
  with_port host none = none
  with_port host (some port) = some (host, port)

  abbrev port_of : List ℕ → Option ℤ
  port_of [] = some (pos 443)
  port_of (c ∷ s) = to_int (c ∷ s)

  abbrev checked : List ℕ → List ℕ → Option (List ℕ × ℤ)
  checked [] port = none
  checked (c ∷ host) port = with_port (c ∷ host) (port_of port)

  -- `_parse_authority`; `none` is `(None, 0)`
  unfoldable pub parse_authority : List ℕ → Option (List ℕ × ℤ)
  unfolding rpartition strip_left strip_right
  parse_authority authority =
      let (host, port) = host_port authority (rpartition authority) in
      checked (strip_right bracket (strip_left bracket host)) port

  rpartition-none : (s : List ℕ) → has_code colon s ≡ false → rpartition s ≡ none
  unfolding rpartition has_code
  rpartition-none [] h = refl
  rpartition-none (c ∷ s) h = rw (rpartition-none s (ground arith)) (ground arith)

  rpartition-joined :
      (host port : List ℕ)
      → has_code colon port ≡ false
      → rpartition (host ++ colon ∷ port) ≡ some (host, port)
  unfolding rpartition
  rpartition-joined [] port h = rw (rpartition-none port h) refl
  rpartition-joined (c ∷ host) port h = rw (rpartition-joined host port h) refl

  -- A host that is not empty and has no bracket, a colon, and a text with no colon that `int` reads
  -- as a port, are taken apart into that host and that port; colons in the host do not matter.
  pub parse_authority-joined :
      (c : ℕ) (host : List ℕ) (d : ℕ) (port : List ℕ) (n : ℤ)
      → NoBracket (c ∷ host)
      → has_code colon (d ∷ port) ≡ false
      → to_int (d ∷ port) ≡ some n
      → parse_authority ((c ∷ host) ++ colon ∷ d ∷ port) ≡ some (c ∷ host, n)
  unfolding parse_authority
  parse_authority-joined c host d port n h k e =
      rw
        (
          rpartition-joined (c ∷ host) (d ∷ port) k,
          strip_left-none bracket (c ∷ host) h,
          strip_right-none bracket (c ∷ host) h,
          e,
        )
        refl
