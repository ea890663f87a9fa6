-- ===== src/ProjectRun/Outcomes.antt =====
-- How a run of app/project_run.py ends, and what it reports.
use talisman_v.Prelude.{
  ℕ, String, ◌≡◌, refl, ap, Bool, true, false, Option, none, some, List, [], ◌∙◌,
}
use talisman_v.Prelude.Dict.{Dict}
use talisman_v.Prelude.Raises.{Raises}
use talisman_v.Spiral.Node.{Fault, Result, ok, err, PhaseHandler, run_phase}
use talisman_v.Spiral.Runtime.{CompiledGraph, Outcome, finished, paused, failed}
use talisman_v.Composition.{LogEvent, run_gated_project}
use talisman_v.Storage.Memory.{Lesson}
use talisman_v.ProjectRun.{
  ProjectSpec, ProjectRunResult, World, RunApprover, RunPorts, or_approve_all, closed, after_intake,
  surface_lessons_at_intake, run_project_spec,
}

-- What a caller gets, without the world.
abbrev pub answer :
    {V : Type 0} → Option (Result ProjectRunResult × World V) → Option (Result ProjectRunResult)
answer none = none
answer (some (r, w)) = some r

module _ {V : Type 0} (ports : RunPorts V) (handlers : Option (Dict (PhaseHandler (World V))))
    (gates : List String) (graph : CompiledGraph (run_phase handlers gates))
    (log : LogEvent → World V → World V) (fuel : ℕ) (spec : ProjectSpec) where
  -- A dump of an incident never changes what a run answers: with any two ways to write a dump,
  -- failing ones too, a caller gets the same result or the same exception.
  pub dump_never_masks :
      (dump : String → List String → Fault → World V → Raises String (List ℕ) × World V)
      (approver : Option (RunApprover V)) (memory : Bool) (v : V)
      → answer (
          run_project_spec
            (record ports { dump = dump })
            handlers
            gates
            graph
            log
            fuel
            spec
            approver
            memory
            v)
        ≡ answer (run_project_spec ports handlers gates graph log fuel spec approver memory v)
  unfolding run_project_spec
  dump_never_masks dump approver memory v =
      ap
        (λ r.
          answer
            (after_intake masked handlers gates graph log fuel spec (or_approve_all approver) r))
        (same_intake memory)
      ∙ by_intake (surface_lessons_at_intake ports spec memory (v, []))
    where
      masked : RunPorts V
      masked = record ports { dump = dump }

      same_intake :
          (memory : Bool)
          → surface_lessons_at_intake (record ports { dump = dump }) spec memory (v, [])
            ≡ surface_lessons_at_intake ports spec memory (v, [])
      same_intake true = refl
      same_intake false = refl

      by_run :
          (lessons : List Lesson) (o : Option (Outcome × World V))
          → answer (closed (record ports { dump = dump }) spec (or_approve_all approver) lessons o)
            ≡ answer (closed ports spec (or_approve_all approver) lessons o)
      by_run lessons none = refl
      by_run lessons (some (finished s, w)) = refl
      by_run lessons (some (failed e, w)) = refl
      by_run lessons (some (paused s phase payload, w)) = refl

      by_intake :
          (r : Result (List Lesson) × World V)
          → answer (
              after_intake
                (record ports { dump = dump })
                handlers
                gates
                graph
                log
                fuel
                spec
                (or_approve_all approver)
                r)
            ≡ answer
                (after_intake ports handlers gates graph log fuel spec (or_approve_all approver) r)
      by_intake (err e, w) = refl
      by_intake (ok lessons, w) = by_run lessons (
          run_gated_project handlers gates graph log (or_approve_all approver).request_approval fuel
            spec.project_id spec.phases spec.tier w)
