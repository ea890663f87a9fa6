-- ===== src/Tests/Reports.antt =====
-- A concrete review, and a concrete health report.
use talisman_v.Prelude.{refl, ◌≤◌, String, ◌≡◌, ◌↔◌, ◌⊎◌, some, List, [], ◌∷◌, All}
use talisman_v.Prelude.Raises.{returns}
use talisman_v.Review.{
  ReviewResult, pass_with_notes, accept, medium, review_to_dict, review_from_dict,
}
use talisman_v.Review.RoundTrip.{review_round_trip}
use talisman_v.Review.Closure.{ensure_slice_may_close, MayClose, closes_iff}
use talisman_v.Health.{
  ComponentHealth, healthy, degraded, down, severity_of, aggregate_health, Occurs, aggregate_worst,
}

abbrev review : ReviewResult
review = record {
  slice_id = "S10.01";
  lead_agent = "claude_code";
  review_agent = "codex";
  status = pass_with_notes;
  recommendation = accept;
  findings =
      record { id = "F1"; severity = medium; finding = "no test"; required_fix = "a test" } ∷ [];
}

review_round_trip_example : review_from_dict (λ rows. "") (review_to_dict review) ≡ returns review
review_round_trip_example = review_round_trip (λ rows. "") review

abbrev as_it_is : String → String
as_it_is s = s

closes_iff_example :
    (ensure_slice_may_close as_it_is as_it_is (some review) ≡ returns tt)
    ↔ MayClose as_it_is (some review)
closes_iff_example = closes_iff as_it_is as_it_is refl refl (some review)

abbrev components : List ComponentHealth
components =
    record { name = "gateway"; state = down; detail = "" }
    ∷ record { name = "scheduler"; state = degraded; detail = "slow" }
    ∷ []

aggregate_worst_example :
    ((aggregate_health components).components ≡ components)
    × All
        (λ (c : ComponentHealth).
          severity_of c.state ≤ severity_of (aggregate_health components).overall)
        components
    × (((aggregate_health components).overall ≡ healthy)
        ⊎ Occurs (aggregate_health components).overall components)
aggregate_worst_example = aggregate_worst components
