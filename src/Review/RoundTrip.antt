-- ===== src/Review/RoundTrip.antt =====
-- The two conversions of domain/review_result.py, one after the other.
use talisman_v.Prelude.{String, ◌≡◌, refl, List, [], ◌∷◌, map}
use talisman_v.Prelude.Dict.{Dict, get}
use talisman_v.Prelude.Raises.{returns, each}
use talisman_v.Review.{
  Finding, ReviewResult, ReviewStatus, ReviewRecommendation, FindingSeverity, low, medium, high,
  blocker, pass, pass_with_notes, block, accept, revise, reject, status_value, recommendation_value,
  severity_value, status_from, recommendation_from, severity_from, finding_to_dict,
  finding_from_dict, review_to_dict, review_from_dict,
}

severity_from-value : (v : FindingSeverity) → severity_from (severity_value v) ≡ returns v
severity_from-value low = refl
severity_from-value medium = refl
severity_from-value high = refl
severity_from-value blocker = refl

status_from-value : (v : ReviewStatus) → status_from (status_value v) ≡ returns v
status_from-value pass = refl
status_from-value pass_with_notes = refl
status_from-value block = refl

recommendation_from-value :
    (v : ReviewRecommendation) → recommendation_from (recommendation_value v) ≡ returns v
recommendation_from-value accept = refl
recommendation_from-value revise = refl
recommendation_from-value reject = refl

finding_round_trip : (f : Finding) → finding_from_dict (finding_to_dict f) ≡ returns f
unfolding finding_from_dict get
finding_round_trip f = rw (severity_from-value f.severity) refl

findings_round_trip :
    (fs : List Finding) → each finding_from_dict (map finding_to_dict fs) ≡ returns fs
findings_round_trip [] = refl
findings_round_trip (f ∷ fs) = rw (finding_round_trip f, findings_round_trip fs) refl

-- A review is read back from its mapping as it was, its findings with it, in their order.
pub review_round_trip :
    (text_of : List (Dict String) → String) (review : ReviewResult)
    → review_from_dict text_of (review_to_dict review) ≡ returns review
unfolding review_from_dict review_to_dict get
review_round_trip text_of review =
    rw
      (
        findings_round_trip review.findings,
        status_from-value review.status,
        recommendation_from-value review.recommendation,
      )
      refl
