-- ===== src/ProjectRun/Gated.antt =====
-- The human gates of a project run of app/project_run.py.
use mathlib.Core.Path.{subst}
use talisman_v.Prelude.{
  ℕ, String, ◌≡◌, ◌≢◌, refl, Bool, true, false, Option, none, some, List, [], has,
}
use talisman_v.Prelude.Dict.{Dict}
use talisman_v.Spiral.State.{approve}
use talisman_v.Spiral.Node.{Result, ok, err, PhaseHandler, gate_id, run_phase}
use talisman_v.Spiral.Runtime.{CompiledGraph, Outcome, finished, paused, failed}
use talisman_v.Composition.{ApprovalRequest, Approver, LogEvent, initial_state, run_gated_project}
use talisman_v.Composition.Gates.{gate_needs_approval}
use talisman_v.Storage.Memory.{Lesson}
use talisman_v.ProjectRun.{
  ProjectSpec, ProjectRunResult, World, RunApprover, RunPorts, closed, after_intake,
  surface_lessons_at_intake, result_of, run_project_spec,
}

-- An approver that never approves the gate of a phase of a project.
abbrev pub Withholds : {W : Type 0} → String → String → Approver W → Type 0
Withholds {W} project_id phase approver =
    (r : ApprovalRequest) (w w' : W)
    → r.gate_id ≡ gate_id (initial_state project_id [] "") phase
    → approver r w ≢ (ok approve, w')

module _ {V : Type 0} (ports : RunPorts V) (handlers : Option (Dict (PhaseHandler (World V))))
    (gates : List String) (graph : CompiledGraph (run_phase handlers gates))
    (log : LogEvent → World V → World V) (fuel : ℕ) (spec : ProjectSpec)
    (approver : RunApprover V) where
  pub project_gate_needs_approval :
      (phase : String) (memory : Bool) (v : V) (result : ProjectRunResult) (w : World V)
      → has phase gates ≡ true
      → Withholds spec.project_id phase approver.request_approval
      → run_project_spec ports handlers gates graph log fuel spec (some approver) memory v
        ≡ some (ok result, w)
      → has phase result.final_state.completed_phases ≡ false
  unfolding run_project_spec
  project_gate_needs_approval phase memory v result w gated never e =
      by_intake (surface_lessons_at_intake ports spec memory (v, [])) e
    where
      by_run :
          (lessons : List Lesson) (w0 : World V) (o : Option (Outcome × World V))
          → run_gated_project handlers gates graph log approver.request_approval fuel
              spec.project_id spec.phases spec.tier w0
            ≡ o
          → closed ports spec approver lessons o ≡ some (ok result, w)
          → has phase result.final_state.completed_phases ≡ false
      by_run lessons w0 none run e = absurd cc
      by_run lessons w0 (some (failed x, w')) run e = absurd cc
      by_run lessons w0 (some (paused s p payload, w')) run e = absurd cc
      by_run lessons w0 (some (finished s, w')) run e =
          let same : result_of ports spec approver lessons s w' ≡ result = cc in
          subst (λ (r : ProjectRunResult). has phase r.final_state.completed_phases ≡ false) same
            (gate_needs_approval handlers gates phase gated spec.project_id
              approver.request_approval never graph log fuel spec.phases spec.tier w0 w' s run)

      by_intake :
          (r : Result (List Lesson) × World V)
          → after_intake ports handlers gates graph log fuel spec approver r ≡ some (ok result, w)
          → has phase result.final_state.completed_phases ≡ false
      by_intake (err x, w') e = absurd cc
      by_intake (ok lessons, w') e = by_run lessons w' _ refl e
