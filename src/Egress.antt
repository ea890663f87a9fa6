-- ===== src/Egress.antt =====
-- security/egress.py: the hosts that the allowlist permits. Texts are lists of code points; `lower`
-- is Python's.
pub mod Boundary
pub mod Proxy
pub mod Authority
use talisman_v.Prelude.{ℕ, String, Bool, true, false, ◌||◌, List, [], ◌∷◌, map, ◌==◌, if◌then◌else◌}
use talisman_v.Prelude.Raises.{Raises, returns, raises}
use talisman_v.Prelude.Codes.{code_points, same_codes, ends_with, is_empty}

-- `.`
abbrev pub dot : ℕ
dot = 46

-- `DEFAULT_EGRESS_ALLOWLIST`
abbrev pub default_egress_allowlist : List (List ℕ)
default_egress_allowlist = map code_points (
    "api.anthropic.com" ∷ "api.openai.com" ∷ "api.telegram.org" ∷ "github.com"
    ∷ "objects.githubusercontent.com" ∷ "raw.githubusercontent.com" ∷ "pypi.org"
    ∷ "files.pythonhosted.org" ∷ "deb.debian.org" ∷ "archive.ubuntu.com" ∷ "security.ubuntu.com"
    ∷ [])

pub data EgressDenied : Type 0 where
  egress_denied : List ℕ → EgressDenied

-- without one dot at the end
unfoldable pub without_dot : List ℕ → List ℕ
without_dot [] = []
without_dot (c ∷ []) = if c == dot then [] else c ∷ []
without_dot (c ∷ d ∷ s) = c ∷ without_dot (d ∷ s)

module _ (lower : List ℕ → List ℕ) where
  -- `_normalize_host`
  unfoldable pub normalize_host : List ℕ → List ℕ
  unfolding without_dot
  normalize_host host = without_dot (lower host)

  -- one turn of the loop: does the entry permit the host
  abbrev pub permits : List ℕ → List ℕ → Bool
  permits normalized_host normalized_entry =
      if is_empty normalized_entry
      then false
      else same_codes normalized_host normalized_entry
        || ends_with normalized_host (dot ∷ normalized_entry)

  unfoldable pub some_permits : List ℕ → List (List ℕ) → Bool
  unfolding normalize_host same_codes ends_with
  some_permits normalized_host [] = false
  some_permits normalized_host (entry ∷ entries) =
      if permits normalized_host (normalize_host entry)
      then true
      else some_permits normalized_host entries

  unfoldable pub is_allowed : List ℕ → List (List ℕ) → Bool
  unfolding some_permits normalize_host
  is_allowed host allowlist =
      if is_empty (normalize_host host) then false else some_permits (normalize_host host) allowlist

  unfoldable pub ensure_allowed : List ℕ → List (List ℕ) → Raises EgressDenied (Unit {0})
  unfolding is_allowed
  ensure_allowed host allowlist =
      if is_allowed host allowlist then returns tt else raises (egress_denied host)
