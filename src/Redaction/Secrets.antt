-- ===== src/Redaction/Secrets.antt =====
-- What is not in a text that security/credentials.py has redacted.
use talisman_v.Prelude.{
  ℕ, zero, suc, ◌≤◌, ◌≡◌, ◌≢◌, ◌⊎◌, inl, inr, refl, Bool, true, false, List, [], ◌∷◌, ◌++◌, arith,
  length, All,
}
use talisman_v.Prelude.Codes.{code_points, has_code}
use talisman_v.Prelude.Replace.{starts_with, contains, sub_from, replace, occurrence}
use talisman_v.Prelude.Redact.{absent-result}
use talisman_v.Redaction.{
  redacted, is_token, run_length, drop, match_api_key, match_github_token, match_aws_key,
  match_bot_token, redact_patterns, redact_value, redact_values, redact_secrets,
}

-- A text that the marker cannot hide: without its brackets, and with a character that the marker
-- does not have.
pub record IsDistinct (secret : List ℕ) : Type 0 where
  pub no_open : has_code 91 secret ≡ false
  pub no_close : has_code 93 secret ≡ false
  pub own : ℕ
  pub has_own : has_code own secret ≡ true
  pub own_only : has_code own (code_points "[REDACTED") ≡ false

module _ (secret : List ℕ) (d : IsDistinct secret) where
  sub-absent :
      (matched : List ℕ → ℕ) (s : List ℕ)
      → (contains secret s ≡ false)
        ⊎ ((t : List ℕ) → starts_with secret t ≡ true → matched t ≢ zero)
      → contains secret (sub_from matched redacted zero s) ≡ false
  sub-absent matched s h =
      absent-result matched 91 (code_points "REDACTED") 93 d.own secret d.no_open d.no_close
        d.has_own d.own_only zero s h

  value-absent :
      (value s : List ℕ)
      → contains secret s ≡ false
      → contains secret (redact_value value s) ≡ false
  value-absent [] s h = h
  value-absent (c ∷ value) s h = unfold replace in sub-absent (occurrence (c ∷ value)) s (inl h)

  values-absent :
      (values : List (List ℕ)) (s : List ℕ)
      → contains secret s ≡ false
      → contains secret (redact_values values s) ≡ false
  unfolding redact_values
  values-absent [] s h = h
  values-absent (value ∷ values) s h =
      values-absent values (redact_value value s) (value-absent value s h)

  patterns-absent :
      (is_digit : ℕ → Bool) (s : List ℕ)
      → contains secret s ≡ false
      → contains secret (redact_patterns is_digit s) ≡ false
  unfolding redact_patterns
  patterns-absent is_digit s h = sub-absent (match_bot_token is_digit) _ (
      inl (
        sub-absent match_aws_key _
          (inl (sub-absent match_github_token _ (inl (sub-absent match_api_key s (inl h)))))))

pub own_value-absent :
    (secret : List ℕ)
    → IsDistinct secret
    → (s : List ℕ) → contains secret (redact_value secret s) ≡ false
own_value-absent [] d s = absurd (nothing d.has_own)
  where
    nothing : has_code d.own [] ≡ true → ⊥
    nothing h = let h' : false ≡ true = unfold has_code in h in cc
own_value-absent (c ∷ secret) d s =
    unfold replace in
    sub-absent (c ∷ secret) d (occurrence (c ∷ secret)) s
      (inr (λ t h e. let e' : suc (length secret) ≡ zero = rw h at e in cc))

values-own :
    (secret : List ℕ)
    → IsDistinct secret
    → (before after : List (List ℕ)) (s : List ℕ)
    → contains secret (redact_values (before ++ secret ∷ after) s) ≡ false
unfolding redact_values
values-own secret d [] after s =
    values-absent secret d after (redact_value secret s) (own_value-absent secret d s)
values-own secret d (value ∷ before) after s =
    values-own secret d before after (redact_value value s)

-- A secret value that is redacted does not occur in the text that comes out, whatever the text
-- was, and whatever other values and patterns are replaced before and after it. (The value has no
-- bracket, and some character that the marker does not have.)
pub redacted_value_gone :
    (secret : List ℕ)
    → IsDistinct secret
    → (is_digit : ℕ → Bool) (before after : List (List ℕ)) (text : List ℕ)
    → contains secret (redact_secrets is_digit text (before ++ secret ∷ after)) ≡ false
unfolding redact_secrets
redacted_value_gone secret d is_digit before after text =
    patterns-absent secret d is_digit (redact_values (before ++ secret ∷ after) text)
      (values-own secret d before after text)

abbrev IsTokenText : List ℕ → Type 0
IsTokenText = All (λ (c : ℕ). is_token c ≡ true)

run-of_start :
    (body s : List ℕ)
    → IsTokenText body
    → starts_with body s ≡ true
    → length body ≤ run_length is_token s
unfolding starts_with run_length
run-of_start [] s h e = omega arith
run-of_start (c ∷ body) [] h e = ground arith
run-of_start (c ∷ body) (d ∷ s) h e = ground (arith, run-of_start body s h.1)

key_matches :
    (body t : List ℕ)
    → IsTokenText body
    → 16 ≤ length body
    → starts_with (code_points "sk-" ++ body) t ≡ true
    → match_api_key t ≢ zero
unfolding match_api_key starts_with drop
key_matches body [] h l e z = ground arith
key_matches body (a ∷ []) h l e z = ground arith
key_matches body (a ∷ b ∷ []) h l e z = ground arith
key_matches body (a ∷ b ∷ c ∷ t) h l e z = ground (arith, run-of_start body t h)

token-lacks :
    (c : ℕ) (body : List ℕ) → is_token c ≡ false → IsTokenText body → has_code c body ≡ false
unfolding has_code
token-lacks c [] h k = refl
token-lacks c (d ∷ body) h k = ground (arith, token-lacks c body h k.1)

key-IsDistinct : (body : List ℕ) → IsTokenText body → IsDistinct (code_points "sk-" ++ body)
unfolding has_code
key-IsDistinct body h = record {
  no_open = token-lacks 91 body refl h;
  no_close = token-lacks 93 body refl h;
  own = 107;
  has_own = refl;
  own_only = refl;
}

-- No API key is left: `sk-` and at least sixteen characters of the alphabet of keys never occur in
-- a redacted text, also where the key is not among the secret values.
pub redacted_key_gone :
    (body : List ℕ)
    → IsTokenText body
    → 16 ≤ length body
    → (is_digit : ℕ → Bool) (values : List (List ℕ)) (text : List ℕ)
    → contains (code_points "sk-" ++ body) (redact_secrets is_digit text values) ≡ false
unfolding redact_secrets redact_patterns
redacted_key_gone body h l is_digit values text =
    let gone = sub-absent (code_points "sk-" ++ body) (key-IsDistinct body h) in
    gone (match_bot_token is_digit) _ (
      inl (
        gone match_aws_key _ (
          inl (
            gone match_github_token _ (
              inl (
                gone match_api_key (redact_values values text)
                  (inr (λ t. key_matches body t h l))))))))
