-- ===== src/ProjectRun/EndToEnd.antt =====
-- A whole run of app/project_run.py with the default approver.
use talisman_v.Prelude.{
  ℕ, ◌+◌, ◌≤◌, String, ◌≡◌, ◌≢◌, refl, ap, Bool-cases, inl, inr, true, false, Option, none, some,
  List, [], ◌∷◌, ◌++◌, append_assoc, arith, has, has-append, same_refl, length,
}
use talisman_v.Prelude.Dict.{Dict}
use talisman_v.Spiral.State.{SpiralState, spiral_phases}
use talisman_v.Spiral.Node.{Fault, ok, err, PhaseHandler, record_phase_artifact, run_phase}
use talisman_v.Spiral.Runtime.{CompiledGraph}
use talisman_v.Spiral.Order.{remaining}
use talisman_v.Composition.{LogEvent}
use talisman_v.Composition.Approved.{approved_run_completes}
use talisman_v.ProjectRun.{
  ProjectSpec, ProjectRunResult, World, RunPorts, all_among, outcome_of, approve_all, closed,
  result_of, run_project_spec,
}

has-own : (p : String) → has p (p ∷ []) ≡ true
unfolding has
has-own p = ground (arith, same_refl p)

all_among-append :
    (phases seen : List String) → all_among phases (seen ++ remaining seen phases) ≡ true
unfolding all_among remaining
all_among-append [] seen = refl
all_among-append (p ∷ ps) seen = elim (Bool-cases (has p seen)) [
  | inl e ↦
      rw e (ground (arith, e, has-append p seen (remaining seen ps), all_among-append ps seen))
  | inr e ↦
      rw (e, ← append_assoc seen (p ∷ []) (remaining (seen ++ p ∷ []) ps))
        (ground (
          arith,
          has-append p (seen ++ p ∷ []) (remaining (seen ++ p ∷ []) ps),
          has-append p seen (p ∷ []),
          has-own p,
          all_among-append ps (seen ++ p ∷ []),
        ))
]

-- A run with the default approver, handlers that raise nothing, known phases and room for them
-- in the recursion limit returns a result, whose final state has completed the phases of the
-- project, each once and in order, and whose retrospective reports the outcome completed.
pub default_run_completes :
    {V : Type 0} (ports : RunPorts V) (handlers : Option (Dict (PhaseHandler (World V))))
    (gates : List String) (graph : CompiledGraph (run_phase handlers gates))
    (log : LogEvent → World V → World V) (fuel : ℕ) (spec : ProjectSpec) (v : V)
    → ((p : String) → has p spec.phases ≡ true → has p spiral_phases ≡ true)
    → ((p : String) (s : SpiralState) (w w' : World V) (e : Fault)
        → record_phase_artifact p s handlers w ≢ (err e, w'))
    → length spec.phases + 3 ≤ graph.recursion_limit
    → length spec.phases ≤ fuel
    → (result : ProjectRunResult) × (w : World V) × (run_project_spec ports handlers gates graph log
          fuel spec none false v
        ≡ some (ok result, w))
      × (result.final_state.completed_phases ≡ remaining [] spec.phases)
      × (outcome_of spec result.final_state ≡ "completed")
      × (result.gates_fired ≡ w.1)
unfolding run_project_spec
default_run_completes ports handlers gates graph log fuel spec v known quiet roomy enough =
    let (s, w, e, done) =
      approved_run_completes handlers gates spec.phases known quiet graph log
        approve_all.request_approval (λ r w. refl) roomy fuel spec.project_id spec.tier (v, [])
        enough in
    (
      result_of ports spec approve_all [] s w,
      w,
      ap (closed ports spec approve_all []) e,
      done,
      rw (done, all_among-append spec.phases []) refl,
      refl,
    )
