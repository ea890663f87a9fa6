-- ===== src/Spiral/State.antt =====
-- The state, the router and the phase names of workflow/spiral.py, and ports/approval.py.
use talisman_v.Prelude.{
  String, Bool, false, Option, none, some, List, [], ◌∷◌, has, same, if◌then◌else◌,
}
use talisman_v.Prelude.Int.{ℤ}

pub data ApprovalDecision : Type 0 where
  approve revise pause reject : ApprovalDecision

-- `decision.value`
abbrev pub value : ApprovalDecision → String
value approve = "approve"
value revise = "revise"
value pause = "pause"
value reject = "reject"

-- `ApprovalDecision(text)`; `none` is its `ValueError`
unfoldable pub from_value : String → Option ApprovalDecision
from_value text =
    if same text "approve"
    then some approve
    else if same text "revise"
    then some revise
    else if same text "pause"
    then some pause
    else if same text "reject"
    then some reject
    else none

-- LangGraph's `END`
abbrev pub end_node : String
end_node = "__end__"

abbrev pub spiral_phases : List String
spiral_phases =
    "interview" ∷ "discovery" ∷ "synthesis" ∷ "plan" ∷ "red_team" ∷ "slice_approval"
    ∷ "implementation" ∷ "review" ∷ "retro" ∷ []

pub record SpiralState : Type 0 where
  pub project_id : String
  pub tier : String
  pub phase_sequence : List String
  pub current_phase : String
  pub completed_phases : List String
  pub pending_gate_id : Option String
  pub last_decision : Option String
  pub artifacts : List String
  pub escalations_today : ℤ

-- the `for` loop of `next_active_phase`
unfoldable pub first_uncompleted : List String → List String → String
first_uncompleted [] completed = end_node
first_uncompleted (phase ∷ phases) completed =
    if has phase completed then first_uncompleted phases completed else phase

abbrev pub is_reject : Option String → Bool
is_reject none = false
is_reject (some decision) = same decision (value reject)

unfoldable pub next_active_phase : SpiralState → String
next_active_phase s =
    if is_reject s.last_decision
    then end_node
    else first_uncompleted s.phase_sequence s.completed_phases
