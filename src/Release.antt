-- ===== src/Release.antt =====
-- app/release.py: the acceptance results, their counts and the checklist, as its lines.
--
-- `decimal` writes a number. The functions read the module's results; here they are an argument,
-- and `Results` has those of the module.
pub mod Results
pub mod Checklist
use Prim.Native.String.{◌++◌ as text_append}
use talisman_v.Prelude.{
  ℕ, suc, ◌+◌, String, Bool, true, false, Option, none, some, List, [], ◌∷◌, ◌++◌, map,
}

pub data AcceptanceStatus : Type 0 where
  pass component_verified waived : AcceptanceStatus

-- `status.value`
abbrev pub status_value : AcceptanceStatus → String
status_value pass = "pass"
status_value component_verified = "component_verified"
status_value waived = "waived"

pub record Waiver : Type 0 where
  pub reason : String
  pub risk : String
  pub compensating_control : String
  pub approval : String

pub record AcceptanceResult : Type 0 where
  pub test_id : String
  pub area : String
  pub status : AcceptanceStatus
  pub evidence : String
  pub waiver : Option Waiver

-- the dict of counts, whose keys are the statuses
pub record StatusCounts : Type 0 where
  pub pass_count : ℕ
  pub component_verified_count : ℕ
  pub waived_count : ℕ

-- `counts[status] += 1`
abbrev pub add_one : AcceptanceStatus → StatusCounts → StatusCounts
add_one pass counts = record counts { pass_count = suc counts.pass_count }
add_one component_verified counts = record counts {
  component_verified_count = suc counts.component_verified_count;
}
add_one waived counts = record counts { waived_count = suc counts.waived_count }

-- the loop of `status_counts`
unfoldable pub count_from : StatusCounts → List AcceptanceResult → StatusCounts
count_from counts [] = counts
count_from counts (result ∷ results) = count_from (add_one result.status counts) results

-- `status_counts`
unfoldable pub status_counts : List AcceptanceResult → StatusCounts
unfolding count_from
status_counts =
    count_from (record { pass_count = 0; component_verified_count = 0; waived_count = 0 })

abbrev concat : List String → String
concat [] = ""
concat (s ∷ ss) = text_append s (concat ss)

-- a row of the table
unfoldable pub table_row : AcceptanceResult → String
table_row r = concat (
    "| "
    ∷ r.test_id
    ∷ " | "
    ∷ r.area
    ∷ " | "
    ∷ status_value r.status
    ∷ " | "
    ∷ r.evidence
    ∷ " |"
    ∷ [])

abbrev waiver_of : AcceptanceResult → Option Waiver → List String
waiver_of r none = []
waiver_of r (some waiver) =
    concat ("### " ∷ r.test_id ∷ " — " ∷ r.area ∷ [])
    ∷ text_append "- **Reason:** " waiver.reason
    ∷ text_append "- **Risk:** " waiver.risk
    ∷ text_append "- **Compensating control:** " waiver.compensating_control
    ∷ text_append "- **Approval:** " waiver.approval
    ∷ ""
    ∷ []

-- the loop over the waived results; a result without a waiver adds nothing
unfoldable pub waiver_lines : List AcceptanceResult → List String
waiver_lines [] = []
waiver_lines (r ∷ results) = waiver_of r r.waiver ++ waiver_lines results

abbrev waiver_section : List String → List String
waiver_section [] = []
waiver_section (line ∷ lines) =
    "" ∷ "## Waivers (approved by founder 2026-06-19)" ∷ "" ∷ line ∷ lines

unfoldable pub checklist_opening : (ℕ → String) → StatusCounts → List String
checklist_opening decimal counts =
    "# TalisMan v1 acceptance checklist — ACCEPTED 2026-06-19"
    ∷ ""
    ∷ "_Produced by slice S15.01 against the AT-01..AT-20 acceptance test plan (corrected after the independent Codex cross-family review blocked over-claimed PASS grades), then formally accepted in S15.02. Founder approval: docs/release/v1-waiver-approval-2026-06-19.md._"
    ∷ ""
    ∷ concat (
        "**Summary:** v1 ACCEPTED (2026-06-19). "
        ∷ decimal counts.pass_count
        ∷ " criteria PASS end-to-end (CI/artifacts) · "
        ∷ decimal counts.component_verified_count
        ∷ " component-verified (several also shown live in the operator walkthrough as prototype evidence; hardening tracked as v1.1-P1) · "
        ∷ decimal counts.waived_count
        ∷ " waived with founder approval."
        ∷ [])
    ∷ ""
    ∷ "**ACCEPTED 2026-06-19** on five end-to-end PASS criteria plus the five founder-approved waivers (durable approval artifact: docs/release/v1-waiver-approval-2026-06-19.md). The operator walkthrough demonstrated several component-verified behaviours using prototype runtime code built live outside governance — recorded as prototype/operator evidence, not reviewed release proof; each flips to PASS as its v1.1-P1 code lands under governance (AT-13 via S16.03, then AT-04 via S16.07, AT-12 via S16.08, AT-16 via S16.11, AT-19 via S16.12, then AT-17 via S16.13)."
    ∷ ""
    ∷ "| Test | Area | Status | Evidence |"
    ∷ "|---|---|---|---|"
    ∷ []

-- `render_acceptance_checklist`, as its lines
unfoldable pub render_acceptance_checklist : (ℕ → String) → List AcceptanceResult → List String
unfolding checklist_opening status_counts table_row waiver_lines
render_acceptance_checklist decimal results =
    checklist_opening decimal (status_counts results)
    ++ map table_row results
    ++ waiver_section (waiver_lines results)
