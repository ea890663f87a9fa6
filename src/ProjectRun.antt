-- ===== src/ProjectRun.antt =====
-- app/project_run.py: one project from its intake to its retrospective.
--
-- The world of a run is an outer world and what the default approver has `seen`; a run starts a
-- new one. An exception of the run is a `Fault`.
pub mod Outcomes
pub mod EndToEnd
pub mod Gated
pub mod Reported
pub mod Fired
use Prim.Native.String.{◌++◌ as text_append}
use talisman_v.Prelude.{
  ℕ, String, Bool, true, false, ◌&&◌, Option, none, some, List, [], ◌∷◌, ◌++◌, length, map, has,
  if◌then◌else◌,
}
use talisman_v.Prelude.Dict.{Dict}
use talisman_v.Prelude.Raises.{Raises, returns, raises}
use talisman_v.Prelude.Codes.{code_points}
use talisman_v.Spiral.State.{ApprovalDecision, approve, SpiralState}
use talisman_v.Spiral.Node.{Fault, Result, ok, err, PhaseHandler, run_phase}
use talisman_v.Spiral.Runtime.{CompiledGraph, Outcome, finished, paused, failed}
use talisman_v.Composition.{
  ApprovalRequest, Approver, LogEvent, default_phase_handlers, run_gated_project,
}
use talisman_v.Storage.Memory.{Lesson, LessonQuery, active}
use talisman_v.Prelude.Int.{pos}

pub record ProjectSpec : Type 0 where
  pub project_id : String
  pub phases : List String
  pub gate_phases : List String
  pub tier : String
  pub domain_tags : List String
  pub goal : String

pub record ProjectRunResult : Type 0 where
  pub final_state : SpiralState
  pub gates_fired : List String
  pub retrospective : List String
  pub surfaced_lessons : List Lesson

abbrev pub World : Type 0 → Type 0
World V = V × List String

-- An approver, and its attribute `seen` where it has one.
pub record RunApprover (V : Type 0) : Type 0 where
  pub request_approval : Approver (World V)
  pub seen : Option (World V → List String)

-- `_ApproveAllApprover`
abbrev pub approve_all : {V : Type 0} → RunApprover V
approve_all = record {
  request_approval = λ request w. (ok approve, (w.0, w.1 ++ request.gate_id ∷ []));
  seen = some (λ w. w.1);
}

abbrev pub or_approve_all : {V : Type 0} → Option (RunApprover V) → RunApprover V
or_approve_all none = approve_all
or_approve_all (some approver) = approver

-- `set(spec.phases) <= set(completed)`
unfoldable pub all_among : List String → List String → Bool
unfolding has
all_among [] completed = true
all_among (phase ∷ phases) completed = has phase completed && all_among phases completed

abbrev pub joined_names : List String → String
joined_names [] = ""
joined_names (name ∷ []) = name
joined_names (name ∷ next ∷ names) =
    text_append name (text_append ", " (joined_names (next ∷ names)))

abbrev pub or_none_text : List String → String
or_none_text [] = "(none)"
or_none_text (name ∷ names) = joined_names (name ∷ names)

abbrev pub outcome_of : ProjectSpec → SpiralState → String
outcome_of spec final =
    if all_among spec.phases final.completed_phases then "completed" else "incomplete"

-- `generate_retrospective`, as its lines; `decimal` writes a number
unfoldable pub generate_retrospective :
    (ℕ → String) → ProjectSpec → SpiralState → List String → List String
unfolding all_among
generate_retrospective decimal spec final_state gates_fired =
    text_append "# Retrospective — " spec.project_id
    ∷ ""
    ∷ text_append "- Outcome: " (outcome_of spec final_state)
    ∷ text_append "- Tier: " spec.tier
    ∷ text_append "- Phases completed: " (or_none_text final_state.completed_phases)
    ∷ text_append "- Gates fired: " (or_none_text gates_fired)
    ∷ text_append "- Artifacts produced: " (decimal (length final_state.artifacts))
    ∷ []

-- The memory port, and the outside that a run uses.
pub record RunPorts (V : Type 0) : Type 0 where
  pub retrieve_lessons : LessonQuery → World V → Result (List Lesson) × World V
  pub log_surfaced : String → List String → World V → World V
  -- `write_incident_dump` with the captured logs, for the project, its phases and the error
  pub dump : String → List String → Fault → World V → Raises String (List ℕ) × World V
  pub decimal : ℕ → String

-- `LessonQuery(domain_tags=...)`
abbrev pub intake_query : ProjectSpec → LessonQuery
intake_query spec = record {
  project_id = none;
  domain_tags = spec.domain_tags;
  status = active;
  limit = pos 10;
}

module _ {V : Type 0} (ports : RunPorts V) where
  abbrev surfaced : ProjectSpec → Result (List Lesson) × World V → Result (List Lesson) × World V
  surfaced spec (err e, w) = (err e, w)
  surfaced spec (ok lessons, w) =
      (ok lessons, ports.log_surfaced spec.project_id (map (λ (l : Lesson). l.lesson_id) lessons) w)

  -- `_surface_lessons_at_intake`; `memory` says whether a memory port is there
  unfoldable pub surface_lessons_at_intake :
      ProjectSpec → Bool → World V → Result (List Lesson) × World V
  surface_lessons_at_intake spec false w = (ok [], w)
  surface_lessons_at_intake spec true w =
      surfaced spec (ports.retrieve_lessons (intake_query spec) w)

  abbrev pub seen_by : RunApprover V → World V → List String
  seen_by approver w = elim approver.seen [ none ↦ [] | some seen ↦ seen w ]

  abbrev pub result_of :
      ProjectSpec → RunApprover V → List Lesson → SpiralState → World V → ProjectRunResult
  result_of spec approver lessons final w = record {
    final_state = final;
    gates_fired = seen_by approver w;
    retrospective = generate_retrospective ports.decimal spec final (seen_by approver w);
    surfaced_lessons = lessons;
  }

  -- the `except` branch: whatever the dump does, the error is raised again
  abbrev pub halted : ProjectSpec → Fault → World V → Result ProjectRunResult × World V
  halted spec e w = (err e, (ports.dump spec.project_id spec.phases e w).1)

  -- (the loop over the gates does not end in a paused run)
  abbrev closed :
      ProjectSpec
      → RunApprover V
      → List Lesson
      → Option (Outcome × World V)
      → Option (Result ProjectRunResult × World V)
  closed spec approver lessons none = none
  closed spec approver lessons (some (finished final, w)) =
      some (ok (result_of spec approver lessons final w), w)
  closed spec approver lessons (some (failed e, w)) = some (halted spec e w)
  closed spec approver lessons (some (paused s phase payload, w)) = none

  module _ (handlers : Option (Dict (PhaseHandler (World V)))) (gates : List String)
      (graph : CompiledGraph (run_phase handlers gates)) (log : LogEvent → World V → World V) where
    abbrev after_intake :
        ℕ
        → ProjectSpec
        → RunApprover V
        → Result (List Lesson) × World V
        → Option (Result ProjectRunResult × World V)
    after_intake fuel spec approver (err e, w) = some (err e, w)
    after_intake fuel spec approver (ok lessons, w) = closed spec approver lessons (
        run_gated_project handlers gates graph log approver.request_approval fuel spec.project_id
          spec.phases spec.tier w)

    -- `run_project`, of an application that is built already
    unfoldable pub run_project_spec :
        ℕ
        → ProjectSpec
        → Option (RunApprover V)
        → Bool
        → V
        → Option (Result ProjectRunResult × World V)
    unfolding generate_retrospective surface_lessons_at_intake
    run_project_spec fuel spec approver memory v =
        after_intake fuel spec (or_approve_all approver)
          (surface_lessons_at_intake spec memory (v, []))
