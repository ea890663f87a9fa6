-- ===== src/Review/Closure.antt =====
-- policies/review_enforcement.py: whether a reviewed slice may close.
--
-- `normalize` is `.strip().lower()` and `quote` is `repr`, of Python's texts.
use Prim.Native.String.{◌++◌ as text_append}
use talisman_v.Prelude.{
  not, ◌&&◌, String, ◌≡◌, ◌≢◌, ◌↔◌, Bool, true, false, Option, none, some, List, [], ◌∷◌, ◌++◌, map,
  ap, ◌∙◌, refl, Bool-cases, arith, has, ◌⊎◌, inl, inr, same, same_iff, if◌then◌else◌,
}
use talisman_v.Prelude.Dict.{Dict, get}
use talisman_v.Prelude.Raises.{Raises, returns, raises}
use talisman_v.Review.{
  ReviewResult, ReviewStatus, ReviewRecommendation, recommendation_value, accept, block,
}

abbrev pub known_agent_families : Dict String
known_agent_families =
    ("anthropic", "anthropic")
    ∷ ("claude", "anthropic")
    ∷ ("claude_code", "anthropic")
    ∷ ("claude-code", "anthropic")
    ∷ ("claude code", "anthropic")
    ∷ ("openai", "openai")
    ∷ ("codex", "openai")
    ∷ ("codex_cli", "openai")
    ∷ ("codex-cli", "openai")
    ∷ ("codex cli", "openai")
    ∷ []

pub record ClosureDecision : Type 0 where
  pub allowed : Bool
  pub reason : String

-- the text of a `SliceClosureError`
pub record SliceClosureError : Type 0 where
  pub reason : String

abbrev or_name : String → Option String → String
or_name name none = name
or_name name (some family) = family

abbrev refuse : String → ClosureDecision
refuse reason = record { allowed = false; reason = reason }

abbrev is_block : ReviewStatus → Bool
is_block block = true
is_block _ = false

abbrev is_accept : ReviewRecommendation → Bool
is_accept accept = true
is_accept _ = false

module _ (normalize quote : String → String) where
  unfoldable pub agent_family : String → String
  unfolding get
  agent_family agent_name = or_name agent_name (get known_agent_families (normalize agent_name))

  abbrev family_clash : ReviewResult → String
  family_clash review = text_append "review must be cross-family: " (
      text_append (quote review.lead_agent) (
        text_append " and " (
          text_append (quote review.review_agent)
            (text_append " are both " (quote (agent_family review.lead_agent))))))

  unfoldable pub evaluate_slice_closure : Option ReviewResult → ClosureDecision
  evaluate_slice_closure none = refuse "no review artifact saved"
  evaluate_slice_closure (some review) =
      if same (agent_family review.lead_agent) (agent_family review.review_agent)
      then refuse (family_clash review)
      else if is_accept review.recommendation
      then (if is_block review.status
          then refuse "review status must not be block"
          else record { allowed = true; reason = "accepted cross-family review permits closure" })
      else refuse (
          text_append "review recommendation must be accept: got "
            (quote (recommendation_value review.recommendation)))

  unfoldable pub ensure_slice_may_close : Option ReviewResult → Raises SliceClosureError (Unit {0})
  unfolding evaluate_slice_closure
  ensure_slice_may_close review =
      let decision = evaluate_slice_closure review in
      if decision.allowed then returns tt else raises (record { reason = decision.reason })

-- The names of the agents of the two vendors, written small.
abbrev pub anthropic_names : List String
anthropic_names = "anthropic" ∷ "claude" ∷ "claude_code" ∷ "claude-code" ∷ "claude code" ∷ []

abbrev pub openai_names : List String
openai_names = "openai" ∷ "codex" ∷ "codex_cli" ∷ "codex-cli" ∷ "codex cli" ∷ []

-- the entries of a vendor's names
abbrev of_family : String → List String → Dict String
of_family family names = map (λ name. (name, family)) names

get-of_family :
    (family : String) (names : List String) (d : Dict String) (name : String)
    → get (of_family family names ++ d) name ≡ (if has name names then some family else get d name)
unfolding get has
get-of_family family [] d name = refl
get-of_family family (n ∷ names) d name =
    ground (arith, get-of_family family names d name, same_iff n name, same_iff name n)

known_family :
    (name : String)
    → get known_agent_families name ≡ (
        if has name anthropic_names
        then some "anthropic"
        else if has name openai_names
        then some "openai"
        else none)
unfolding get
known_family name =
    get-of_family "anthropic" anthropic_names (of_family "openai" openai_names) name
    ∙ ap (λ rest. if has name anthropic_names then some "anthropic" else rest)
        (get-of_family "openai" openai_names [] name)

-- no name of the one list is in the other
unfoldable apart : List String → List String → Bool
apart [] others = true
apart (name ∷ names) others = not (has name others) && apart names others

has-apart :
    (name : String) (names others : List String)
    → apart names others ≡ true
    → has name names && has name others ≡ false
unfolding apart has
has-apart name [] others h = refl
has-apart name (n ∷ names) others h = elim (Bool-cases (same name n)) [
  | inl e ↦
      let same_name : name ≡ n = ground (arith, e, same_iff name n) in
      let there : has name others ≡ has n others = ap (λ x. has x others) same_name in
      ground (arith, there, h, e)
  | inr e ↦ ground (arith, has-apart name names others, h, e)
]

one_vendor : (name : String) → has name anthropic_names && has name openai_names ≡ false
unfolding apart has
one_vendor name = has-apart name anthropic_names openai_names refl

-- Two names are of one family: both of a vendor's, however they are written, or one text.
abbrev pub SameFamily : (normalize : String → String) → String → String → Type 0
SameFamily normalize a b =
    ((has (normalize a) anthropic_names ≡ true) × (has (normalize b) anthropic_names ≡ true))
    ⊎ ((has (normalize a) openai_names ≡ true) × (has (normalize b) openai_names ≡ true))
    ⊎ (a ≡ b)

-- What closure asks of a saved review.
abbrev pub MayClose : (normalize : String → String) → Option ReviewResult → Type 0
MayClose normalize none = ⊥
MayClose normalize (some review) =
    (SameFamily normalize review.lead_agent review.review_agent → ⊥)
    × (review.recommendation ≡ accept)
    × (review.status ≢ block)

module _ (normalize quote : String → String) (anthropic_kept : normalize "anthropic" ≡ "anthropic")
    (openai_kept : normalize "openai" ≡ "openai") where
  family_as :
      (a : String)
      → agent_family normalize quote a
        ≡ or_name a (
            if has (normalize a) anthropic_names
            then some "anthropic"
            else if has (normalize a) openai_names
            then some "openai"
            else none)
  unfolding agent_family
  family_as a = ap (or_name a) (known_family (normalize a))

  anthropic_known : has (normalize "anthropic") anthropic_names ≡ true
  unfolding has
  anthropic_known = rw anthropic_kept refl

  openai_known : has (normalize "openai") openai_names ≡ true
  unfolding has
  openai_known = rw openai_kept refl

  family_iff :
      (a b : String)
      → (agent_family normalize quote a ≡ agent_family normalize quote b) ↔ SameFamily normalize a b
  family_iff a b = ground (
    arith,
    family_as a,
    family_as b,
    anthropic_known,
    openai_known,
    one_vendor (normalize a),
    one_vendor (normalize b),
    same_iff "anthropic" "openai",
  )

  -- A slice may close exactly where a review is saved whose two agents are of different families,
  -- which recommends to accept, and whose status is not block; else the check raises an error. Two
  -- agents are of one family where both have names of one vendor, in any case and spacing, or where
  -- their names are the same text. (Normalising leaves the two vendors' own names as they are.)
  pub closes_iff :
      (review : Option ReviewResult)
      → (ensure_slice_may_close normalize quote review ≡ returns tt) ↔ MayClose normalize review
  unfolding ensure_slice_may_close evaluate_slice_closure
  closes_iff none = ground arith
  closes_iff (some review) = ground (
    arith,
    family_iff review.lead_agent review.review_agent,
    same_iff (agent_family normalize quote review.lead_agent)
        (agent_family normalize quote review.review_agent),
  )
