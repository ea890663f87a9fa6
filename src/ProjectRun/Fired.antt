-- ===== src/ProjectRun/Fired.antt =====
-- The gates that a project run of app/project_run.py reports, and those that it asked for.
use mathlib.Core.Path.{subst}
use talisman_v.Prelude.{
  ℕ, String, ◌≡◌, refl, ap, ◌∙◌, Bool, true, false, Option, none, some, List, [],
}
use talisman_v.Prelude.Dict.{Dict}
use talisman_v.Spiral.State.{SpiralState}
use talisman_v.Spiral.Node.{Result, err, ok, PhaseHandler, record_phase_artifact, run_phase}
use talisman_v.Spiral.Runtime.{CompiledGraph, Outcome, finished, paused, failed}
use talisman_v.Composition.{LogEvent, run_gated_project}
use talisman_v.Storage.Memory.{Lesson, LessonQuery}
use talisman_v.ProjectRun.{
  ProjectSpec, ProjectRunResult, World, RunPorts, RunApprover, approve_all, closed, result_of,
  run_project_spec, surfaced, surface_lessons_at_intake, after_intake, intake_query, seen_by,
  generate_retrospective,
}
use talisman_v.ProjectRun.Reported.{gate_ids, recorded_gates}

module _ {V : Type 0} (handlers : Option (Dict (PhaseHandler (World V)))) (gates : List String)
    (graph : CompiledGraph (run_phase handlers gates)) (log : LogEvent → World V → World V)
    (fuel : ℕ)
    (handlers_keep : (p : String) (s : SpiralState) (w : World V)
      → (record_phase_artifact p s handlers w).1.1 ≡ w.1)
    (log_keeps : (e : LogEvent) (w : World V) → (log e w).1 ≡ w.1) where
  module _ (ports : RunPorts V)
      (retrieval_keeps : (query : LessonQuery) (w : World V)
        → (ports.retrieve_lessons query w).1.1 ≡ w.1)
      (surfacing_keeps : (project : String) (lessons : List String) (w : World V)
        → (ports.log_surfaced project lessons w).1 ≡ w.1)
      (spec : ProjectSpec) (memory : Bool) (v : V) where
    intake-empty : (surface_lessons_at_intake ports spec memory (v, [])).1.1 ≡ []
    unfolding surface_lessons_at_intake
    intake-empty = by_memory memory
      where
        by_lessons : (r : Result (List Lesson) × World V) → (surfaced ports spec r).1.1 ≡ r.1.1
        by_lessons (err e, w) = refl
        by_lessons (ok lessons, w) = surfacing_keeps spec.project_id _ w

        by_memory : (m : Bool) → (surface_lessons_at_intake ports spec m (v, [])).1.1 ≡ []
        by_memory false = refl
        by_memory true =
            by_lessons (ports.retrieve_lessons (intake_query spec) (v, []))
            ∙ retrieval_keeps (intake_query spec) (v, [])

    -- An approver that approves and notes every gate has noted those of the completed phases when
    -- the run returns, whether or not the run reports them.
    noted_gates :
        (seen : Option (World V → List String)) (result : ProjectRunResult) (w : World V)
        → run_project_spec ports handlers gates graph log fuel spec
            (some (record { request_approval = approve_all.request_approval; seen = seen }))
            memory
            v
          ≡ some (ok result, w)
        → (w.1 ≡ gate_ids gates spec.project_id result.final_state.completed_phases)
          × (result.gates_fired ≡ elim seen [ none ↦ [] | some seen ↦ seen w ])
          × (result.retrospective
              ≡ generate_retrospective ports.decimal spec result.final_state result.gates_fired)
    unfolding run_project_spec
    noted_gates seen result w e =
        by_intake (surface_lessons_at_intake ports spec memory (v, [])) intake-empty e
      where
        approver : RunApprover V
        approver = record { request_approval = approve_all.request_approval; seen = seen }

        Noted : ProjectRunResult → Type 0
        Noted r =
            (w.1 ≡ gate_ids gates spec.project_id r.final_state.completed_phases)
            × (r.gates_fired ≡ elim seen [ none ↦ [] | some seen ↦ seen w ])
            × (r.retrospective
                ≡ generate_retrospective ports.decimal spec r.final_state r.gates_fired)

        by_run :
            (lessons : List Lesson) (before : World V)
            → before.1 ≡ []
            → (o : Option (Outcome × World V))
            → run_gated_project handlers gates graph log approve_all.request_approval fuel
                spec.project_id spec.phases spec.tier before
              ≡ o
            → closed ports spec approver lessons o ≡ some (ok result, w)
            → Noted result
        by_run lessons before empty none run e = absurd cc
        by_run lessons before empty (some (failed x, w')) run e = absurd cc
        by_run lessons before empty (some (paused s p payload, w')) run e = absurd cc
        by_run lessons before empty (some (finished s, w')) run e =
            let same : result_of ports spec approver lessons s w' ≡ result = cc in
            let there : w' ≡ w = cc in
            subst Noted same (
              subst
                (λ x.
                  (x.1 ≡ gate_ids gates spec.project_id s.completed_phases)
                  × (seen_by ports approver w' ≡ elim seen [ none ↦ [] | some seen ↦ seen x ])
                  × (generate_retrospective ports.decimal spec s (seen_by ports approver w')
                      ≡ generate_retrospective ports.decimal spec s (seen_by ports approver w')))
                there
                (
                  recorded_gates handlers gates graph log fuel handlers_keep log_keeps
                      spec.project_id spec.phases spec.tier before empty s w' run,
                  refl,
                  refl,
                ))

        by_intake :
            (r : Result (List Lesson) × World V)
            → r.1.1 ≡ []
            → after_intake ports handlers gates graph log fuel spec approver r ≡ some (ok result, w)
            → Noted result
        by_intake (err x, w') empty e = absurd cc
        by_intake (ok lessons, w') empty e = by_run lessons w' empty _ refl e

    -- A run with the default approver, with memory or without, whose handlers, log and memory
    -- leave the record of the gates alone, reports exactly the gates of the gate phases that it
    -- completed, each with its id, in the order in which the phases were completed.
    pub fired_gates :
        (result : ProjectRunResult) (w : World V)
        → run_project_spec ports handlers gates graph log fuel spec none memory v
          ≡ some (ok result, w)
        → result.gates_fired ≡ gate_ids gates spec.project_id result.final_state.completed_phases
    unfolding run_project_spec
    fired_gates result w e =
        let (noted, reported, _) = noted_gates (some (λ w. w.1)) result w e in reported ∙ noted

    -- A run with an approver that approves and notes every gate, just as the default one, but has
    -- no attribute `seen`: when it returns, the approver has been asked for the gate of every gate
    -- phase that was completed, in order, and the report and the retrospective hold none of them.
    pub asked_gates_unreported :
        (result : ProjectRunResult) (w : World V)
        → run_project_spec ports handlers gates graph log fuel spec
            (some (record { request_approval = approve_all.request_approval; seen = none }))
            memory
            v
          ≡ some (ok result, w)
        → (w.1 ≡ gate_ids gates spec.project_id result.final_state.completed_phases)
          × (result.gates_fired ≡ [])
          × (result.retrospective ≡ generate_retrospective ports.decimal spec result.final_state [])
    asked_gates_unreported result w e =
        let (noted, reported, written) = noted_gates none result w e in
        (
          noted,
          reported,
          written ∙ ap (generate_retrospective ports.decimal spec result.final_state) reported,
        )
