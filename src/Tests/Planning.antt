-- ===== src/Tests/Planning.antt =====
-- A run of app/bootstrap.py with its stub worker.
use talisman_v.Prelude.{ℕ, String, ◌≡◌, refl, some, [], ◌∷◌, arith}
use talisman_v.Spiral.Node.{ok, run_phase}
use talisman_v.Spiral.Runtime.{CompiledGraph}
use talisman_v.Spiral.Reference.{reference}
use talisman_v.Composition.{LogEvent}
use talisman_v.ProjectRun.{World}
use talisman_v.Bootstrap.{
  planning_handlers, planning_gates, planning_phases, stub_worker, SelfImprovementResult,
  run_self_improvement_spiral,
}
use talisman_v.Bootstrap.Planning.{planning_run_completes}

abbrev port_text : ℕ → String
port_text n = "9"

abbrev planning_log : LogEvent → World ℕ → World ℕ
planning_log e w = w

planning_graph :
    CompiledGraph
      (run_phase (some (planning_handlers {W = World ℕ} port_text stub_worker)) planning_gates)
unfolding reference
planning_graph = reference _ 25 (omega arith)

planning_run_completes_example :
    (result : SelfImprovementResult) × (w : World ℕ) × (run_self_improvement_spiral
        (some (planning_handlers port_text stub_worker))
        planning_gates
        planning_graph
        planning_log
        5
        0
      ≡ some (ok result, w))
    × (result.final_state.completed_phases ≡ planning_phases)
    × (result.gates_fired ≡ "talisman-v1.1:plan" ∷ "talisman-v1.1:slice_approval" ∷ [])
unfolding planning_graph
planning_run_completes_example =
    planning_run_completes port_text stub_worker (λ request w. (_, w, refl)) (λ request w. refl)
      planning_graph planning_log (λ e w. refl) 5 0 (omega arith) (omega arith)
