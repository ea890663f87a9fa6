-- ===== src/Release/Checklist.antt =====
-- The counts and the rows of the checklist of app/release.py.
use talisman_v.Prelude.{
  ℕ, suc, ◌+◌, ◌≡◌, refl, Bool, true, false, List, [], ◌∷◌, arith, length, if◌then◌else◌,
}
use talisman_v.Release.{
  AcceptanceStatus, pass, component_verified, waived, AcceptanceResult, StatusCounts, add_one,
  count_from, status_counts,
}

abbrev has_status : AcceptanceStatus → AcceptanceStatus → Bool
has_status pass pass = true
has_status component_verified component_verified = true
has_status waived waived = true
has_status _ _ = false

-- how many results have a status
unfoldable pub tally : AcceptanceStatus → List AcceptanceResult → ℕ
tally status [] = 0
tally status (r ∷ results) = (if has_status status r.status then 1 else 0) + tally status results

abbrev Counted : StatusCounts → List AcceptanceResult → StatusCounts → Type 0
Counted before results after =
    (after.pass_count ≡ before.pass_count + tally pass results)
    × (after.component_verified_count
        ≡ before.component_verified_count + tally component_verified results)
    × (after.waived_count ≡ before.waived_count + tally waived results)

-- one result more
Counted-step :
    (status : AcceptanceStatus) (counts after : StatusCounts) (results : List AcceptanceResult)
    → Counted (add_one status counts) results after
    → (after.pass_count
        ≡ counts.pass_count + ((if has_status pass status then 1 else 0) + tally pass results))
      × (after.component_verified_count
          ≡ counts.component_verified_count
            + ((if has_status component_verified status then 1 else 0)
                + tally component_verified results))
      × (after.waived_count
          ≡ counts.waived_count
            + ((if has_status waived status then 1 else 0) + tally waived results))
Counted-step pass counts after results (p, c, w) =
    (omega (arith, p), omega (arith, c), omega (arith, w))
Counted-step component_verified counts after results (p, c, w) =
    (omega (arith, p), omega (arith, c), omega (arith, w))
Counted-step waived counts after results (p, c, w) =
    (omega (arith, p), omega (arith, c), omega (arith, w))

count_from-Counted :
    (counts : StatusCounts) (results : List AcceptanceResult)
    → Counted counts results (count_from counts results)
unfolding count_from tally
count_from-Counted counts [] = (omega arith, omega arith, omega arith)
count_from-Counted counts (r ∷ results) =
    Counted-step r.status counts (count_from (add_one r.status counts) results) results
      (count_from-Counted (add_one r.status counts) results)

tally-total :
    (results : List AcceptanceResult)
    → tally pass results + tally component_verified results + tally waived results ≡ length results
unfolding tally
tally-total [] = refl
tally-total (r ∷ results) = by_status r.status (tally-total results)
  where
    by_status :
        (status : AcceptanceStatus)
        → tally pass results + tally component_verified results + tally waived results
          ≡ length results
        → ((if has_status pass status then 1 else 0) + tally pass results)
            + ((if has_status component_verified status then 1 else 0)
                + tally component_verified results)
            + ((if has_status waived status then 1 else 0) + tally waived results)
          ≡ suc (length results)
    by_status pass h = omega (arith, h)
    by_status component_verified h = omega (arith, h)
    by_status waived h = omega (arith, h)

-- The counts of the checklist: each status is counted as often as results have it, and the
-- three counts add up to all results, so none is left out and none is counted twice.
pub counts_partition :
    (results : List AcceptanceResult)
    → ((status_counts results).pass_count ≡ tally pass results)
      × ((status_counts results).component_verified_count ≡ tally component_verified results)
      × ((status_counts results).waived_count ≡ tally waived results)
      × ((status_counts results).pass_count
            + (status_counts results).component_verified_count
            + (status_counts results).waived_count
          ≡ length results)
unfolding status_counts
counts_partition results =
    let zeros : StatusCounts = record {
      pass_count = 0;
      component_verified_count = 0;
      waived_count = 0;
    } in
    let (p, c, w) = count_from-Counted zeros results in
    (
      omega (arith, p),
      omega (arith, c),
      omega (arith, w),
      omega (arith, p, c, w, tally-total results),
    )
