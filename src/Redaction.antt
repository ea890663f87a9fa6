-- ===== src/Redaction.antt =====
-- security/credentials.py: secrets in free text. Texts are lists of code points; `is_digit` is
-- what `\d` of a regular expression takes for a digit.
--
-- A regular expression is the length of its match at the start of a text, zero for none. Those of
-- this file match greedily, and no shorter match of a part lets them match where this fails.
pub mod Secrets
use talisman_v.Prelude.{
  ℕ, zero, suc, ◌+◌, String, Bool, true, false, ◌&&◌, ◌||◌, Option, none, some, List, [], ◌∷◌, leb,
  ◌==◌, if◌then◌else◌,
}
use talisman_v.Prelude.Dict.{Dict, get}
use talisman_v.Prelude.Codes.{code_points}
use talisman_v.Prelude.Replace.{starts_with, sub_from, replace}

-- `_REDACTED`
abbrev pub redacted : List ℕ
redacted = code_points "[REDACTED]"

abbrev between : ℕ → ℕ → ℕ → Bool
between low high c = leb low c && leb c high

-- `[A-Z]`, `[0-9]`, `[A-Za-z0-9]` and `[A-Za-z0-9_-]`
abbrev pub is_upper : ℕ → Bool
is_upper c = between 65 90 c

abbrev pub is_ascii_digit : ℕ → Bool
is_ascii_digit c = between 48 57 c

abbrev pub is_alphanumeric : ℕ → Bool
is_alphanumeric c = is_upper c || (between 97 122 c || is_ascii_digit c)

abbrev pub is_token : ℕ → Bool
is_token c = is_alphanumeric c || (c == 95 || c == 45)

-- how many characters of the class stand at the start
unfoldable pub run_length : (ℕ → Bool) → List ℕ → ℕ
run_length class [] = 0
run_length class (c ∷ s) = let rest = run_length class s in if class c then suc rest else 0

unfoldable pub drop : ℕ → List ℕ → List ℕ
drop zero s = s
drop (suc n) [] = []
drop (suc n) (c ∷ s) = drop n s

-- a prefix, and then a run of a class of at least some length
abbrev prefixed_run : List ℕ → ℕ → (ℕ → Bool) → ℕ → List ℕ → ℕ
prefixed_run prefix length_of_prefix class least s =
    let run = run_length class (drop length_of_prefix s) in
    if starts_with prefix s && leb least run then length_of_prefix + run else 0

-- `_SECRET_PATTERNS`
unfoldable pub match_api_key : List ℕ → ℕ
unfolding starts_with run_length drop
match_api_key = prefixed_run (code_points "sk-") 3 is_token 16

abbrev is_github_kind : ℕ → Bool
is_github_kind c = c == 112 || (c == 111 || (c == 115 || (c == 114 || c == 117)))

unfoldable pub match_github_token : List ℕ → ℕ
unfolding run_length
match_github_token (g ∷ h ∷ kind ∷ underscore ∷ s) =
    let run = run_length is_alphanumeric s in
    if g == 103 && (h == 104 && (is_github_kind kind && (underscore == 95 && leb 20 run)))
    then 4 + run
    else 0
match_github_token s = 0

unfoldable pub match_aws_key : List ℕ → ℕ
unfolding starts_with run_length drop
match_aws_key s =
    if starts_with (code_points "AKIA") s
      && leb 16 (run_length (λ (c : ℕ). is_upper c || is_ascii_digit c) (drop 4 s))
    then 20
    else 0

abbrev after_digits : ℕ → List ℕ → ℕ
after_digits digits [] = 0
after_digits digits (c ∷ s) =
    let run = run_length is_token s in
    if leb 6 digits && (c == 58 && leb 30 run) then digits + 1 + run else 0

unfoldable pub match_bot_token : (ℕ → Bool) → List ℕ → ℕ
unfolding run_length drop
match_bot_token is_digit s =
    let digits = run_length is_digit s in after_digits digits (drop digits s)

-- `pattern.sub(_REDACTED, ...)` for each pattern in turn
unfoldable pub redact_patterns : (ℕ → Bool) → List ℕ → List ℕ
unfolding sub_from match_api_key match_github_token match_aws_key match_bot_token
redact_patterns is_digit text = sub_from (match_bot_token is_digit) redacted zero (
    sub_from match_aws_key redacted zero
      (sub_from match_github_token redacted zero (sub_from match_api_key redacted zero text)))

abbrev pub redact_value : List ℕ → List ℕ → List ℕ
redact_value [] text = text
redact_value (c ∷ value) text = replace (c ∷ value) redacted text

-- the loop over `secret_values`
unfoldable pub redact_values : List (List ℕ) → List ℕ → List ℕ
unfolding replace
redact_values [] text = text
redact_values (value ∷ values) text = redact_values values (redact_value value text)

-- `redact_secrets`
unfoldable pub redact_secrets : (ℕ → Bool) → List ℕ → List (List ℕ) → List ℕ
unfolding redact_values redact_patterns
redact_secrets is_digit text secret_values =
    redact_patterns is_digit (redact_values secret_values text)

abbrev with_value : Option String → List (List ℕ) → List (List ℕ)
with_value none values = values
with_value (some value) values = elim (code_points value) [ [] ↦ values | c ∷ s ↦ (c ∷ s) ∷ values ]

-- `current_secret_values`, of the environment
unfoldable pub current_secret_values : Dict String → List String → List (List ℕ)
unfolding get
current_secret_values environ [] = []
current_secret_values environ (name ∷ names) =
    with_value (get environ name) (current_secret_values environ names)
