-- ===== src/Review.antt =====
-- domain/review_result.py: reviews, and their form as a plain mapping.
--
-- The values of a mapping are texts, and lists of mappings of texts; `text_of` is what `str` makes
-- of such a list. Other values are left out.
pub mod RoundTrip
pub mod Closure
use talisman_v.Prelude.{String, Option, none, some, List, [], ◌∷◌, map, same, if◌then◌else◌}
use talisman_v.Prelude.Dict.{Dict, get}
use talisman_v.Prelude.Raises.{Raises, returns, raises, each, ◌>>=◌}

pub data ReviewStatus : Type 0 where
  pass pass_with_notes block : ReviewStatus

pub data ReviewRecommendation : Type 0 where
  accept revise reject : ReviewRecommendation

pub data FindingSeverity : Type 0 where
  low medium high blocker : FindingSeverity

pub record Finding : Type 0 where
  pub id : String
  pub severity : FindingSeverity
  pub finding : String
  pub required_fix : String

pub record ReviewResult : Type 0 where
  pub slice_id : String
  pub lead_agent : String
  pub review_agent : String
  pub status : ReviewStatus
  pub recommendation : ReviewRecommendation
  pub findings : List Finding

pub data DataError : Type 0 where
  key_error value_error type_error : DataError

-- the value of a mapping
pub data Data : Type 0 where
  text : String → Data
  items : List (Dict String) → Data

abbrev pub status_value : ReviewStatus → String
status_value pass = "pass"
status_value pass_with_notes = "pass_with_notes"
status_value block = "block"

abbrev pub recommendation_value : ReviewRecommendation → String
recommendation_value accept = "accept"
recommendation_value revise = "revise"
recommendation_value reject = "reject"

abbrev pub severity_value : FindingSeverity → String
severity_value low = "low"
severity_value medium = "medium"
severity_value high = "high"
severity_value blocker = "blocker"

-- `review_to_dict`
abbrev pub finding_to_dict : Finding → Dict String
finding_to_dict f =
    ("id", f.id)
    ∷ ("severity", severity_value f.severity)
    ∷ ("finding", f.finding)
    ∷ ("required_fix", f.required_fix)
    ∷ []

unfoldable pub review_to_dict : ReviewResult → Dict Data
review_to_dict review =
    ("slice_id", text review.slice_id)
    ∷ ("lead_agent", text review.lead_agent)
    ∷ ("review_agent", text review.review_agent)
    ∷ ("status", text (status_value review.status))
    ∷ ("recommendation", text (recommendation_value review.recommendation))
    ∷ ("findings", items (map finding_to_dict review.findings))
    ∷ []

-- `ReviewStatus(...)`, `ReviewRecommendation(...)`, `FindingSeverity(...)`
abbrev pub status_from : String → Raises DataError ReviewStatus
status_from s =
    if same s "pass"
    then returns pass
    else if same s "pass_with_notes"
    then returns pass_with_notes
    else if same s "block"
    then returns block
    else raises value_error

abbrev pub recommendation_from : String → Raises DataError ReviewRecommendation
recommendation_from s =
    if same s "accept"
    then returns accept
    else if same s "revise"
    then returns revise
    else if same s "reject"
    then returns reject
    else raises value_error

abbrev pub severity_from : String → Raises DataError FindingSeverity
severity_from s =
    if same s "low"
    then returns low
    else if same s "medium"
    then returns medium
    else if same s "high"
    then returns high
    else if same s "blocker"
    then returns blocker
    else raises value_error

-- `data[key]`
abbrev pub lookup {ℓ} : {A : Type ℓ} → Option A → Raises DataError A
lookup none = raises key_error
lookup (some a) = returns a

-- an element of the comprehension
unfoldable pub finding_from_dict : Dict String → Raises DataError Finding
unfolding get
finding_from_dict item = do
  id ← lookup (get item "id")
  severity_text ← lookup (get item "severity")
  severity ← severity_from severity_text
  finding ← lookup (get item "finding")
  required_fix ← lookup (get item "required_fix")
  returns (record { id = id; severity = severity; finding = finding; required_fix = required_fix })

-- `data.get("findings", ())`, gone through: a text is gone through by its characters, which have
-- no keys
abbrev pub findings_from : Option Data → Raises DataError (List Finding)
findings_from none = returns []
findings_from (some (text s)) = if same s "" then returns [] else raises type_error
findings_from (some (items rows)) = each finding_from_dict rows

-- an `Enum` of a value that is no text
abbrev pub enum_from {ℓ} : {A : Type ℓ} → (String → Raises DataError A) → Data → Raises DataError A
enum_from from (text s) = from s
enum_from from (items rows) = raises value_error

module _ (text_of : List (Dict String) → String) where
  abbrev pub str : Data → String
  str (text s) = s
  str (items rows) = text_of rows

  -- `review_from_dict`
  unfoldable pub review_from_dict : Dict Data → Raises DataError ReviewResult
  unfolding get
  review_from_dict d = do
    findings ← findings_from (get d "findings")
    slice_id ← lookup (get d "slice_id")
    lead_agent ← lookup (get d "lead_agent")
    review_agent ← lookup (get d "review_agent")
    status_data ← lookup (get d "status")
    status ← enum_from status_from status_data
    recommendation_data ← lookup (get d "recommendation")
    recommendation ← enum_from recommendation_from recommendation_data
    returns (record {
      slice_id = str slice_id;
      lead_agent = str lead_agent;
      review_agent = str review_agent;
      status = status;
      recommendation = recommendation;
      findings = findings;
    })
