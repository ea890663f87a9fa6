-- ===== src/Bootstrap/Planning.antt =====
-- The planning run of app/bootstrap.py.
use talisman_v.Prelude.{
  ℕ, ◌≤◌, String, ◌≡◌, refl, ap, ◌∙◌, true, some, [], ◌∷◌, arith, has, same_iff, All,
}
use talisman_v.Spiral.State.{SpiralState, spiral_phases}
use talisman_v.Spiral.Node.{
  Result, err, gate_id, record_phase_artifact, ok, PhaseHandler, run_phase,
}
use talisman_v.Spiral.Runtime.{CompiledGraph}
use talisman_v.Spiral.Order.{remaining}
use talisman_v.Composition.{LogEvent}
use talisman_v.Composition.Approved.{approved_run_completes}
use talisman_v.Workers.Adapters.{WorkerResult, on_ok, Worker, WorkerRequest}
use talisman_v.ProjectRun.Reported.{gate_ids, recorded_gates}
use talisman_v.ProjectRun.{World}
use talisman_v.Spiral.Quiet.{Succeeds, IsSteady, quiet_handlers, keeping_handlers}
use talisman_v.Bootstrap.{
  project_id, plan_request, planned, planning_phases, planning_gates, planning_handlers,
  plan_handler, recording_approver, SelfImprovementResult, improved, run_self_improvement_spiral,
}

planning_known : (p : String) → has p planning_phases ≡ true → has p spiral_phases ≡ true
unfolding has
planning_known p h = ground (
  arith,
  same_iff p "discovery",
  same_iff p "synthesis",
  same_iff p "plan",
  same_iff p "red_team",
  same_iff p "slice_approval",
)

in_order : remaining [] planning_phases ≡ planning_phases
unfolding remaining has
in_order = refl

planning-IsSteady :
    {W : Type 0} (decimal : ℕ → String) (worker : Worker W)
    → ((request : WorkerRequest) → Succeeds (worker request))
    → All (λ (e : String × PhaseHandler W). IsSteady e.1) (planning_handlers decimal worker)
unfolding planning_handlers plan_handler
planning-IsSteady decimal worker steady = (
  λ s w. (_, w, refl),
  (
    λ s w. (_, w, refl),
    (
      λ s w. let (result, w1, e) = steady (plan_request s) w in (_, w1, ap (on_ok planned) e),
      (λ s w. (_, w, refl), tt),
    ),
  ),
)

planned_gates :
    gate_ids planning_gates project_id planning_phases
    ≡ "talisman-v1.1:plan" ∷ "talisman-v1.1:slice_approval" ∷ []
unfolding gate_ids has gate_id
planned_gates = refl

planning_keeps :
    {V : Type 0} (decimal : ℕ → String) (worker : Worker (World V))
    → ((request : WorkerRequest) (w : World V) → (worker request w).1.1 ≡ w.1)
    → (p : String) (s : SpiralState) (w : World V)
    → (record_phase_artifact p s (some (planning_handlers decimal worker)) w).1.1 ≡ w.1
unfolding planning_handlers plan_handler
planning_keeps {V} decimal worker keeps =
    keeping_handlers (λ w. w.1) (planning_handlers decimal worker)
      (
        λ s w. refl,
        (
          λ s w. refl,
          (
            λ s w. after_worker (worker (plan_request s) w) ∙ keeps (plan_request s) w,
            (λ s w. refl, tt),
          ),
        ),
      )
  where
    after_worker : (r : Result WorkerResult × World V) → (on_ok planned r).1.1 ≡ r.1.1
    after_worker (ok result, w) = refl
    after_worker (err e, w) = refl

-- The planning run with any worker that raises nothing, where the worker and the log leave the
-- record of the gates alone, returns: it completes the five planning phases, each once and in
-- order, and reports its two gates, in order.
pub planning_run_completes :
    {V : Type 0} (decimal : ℕ → String) (worker : Worker (World V))
    → ((request : WorkerRequest) → Succeeds (worker request))
    → ((request : WorkerRequest) (w : World V) → (worker request w).1.1 ≡ w.1)
    → (graph : CompiledGraph (run_phase (some (planning_handlers decimal worker)) planning_gates))
      (log : LogEvent → World V → World V)
    → ((e : LogEvent) (w : World V) → (log e w).1 ≡ w.1)
    → (fuel : ℕ) (v : V) → 8 ≤ graph.recursion_limit
    → 5 ≤ fuel
    → (result : SelfImprovementResult) × (w : World V) × (run_self_improvement_spiral
          (some (planning_handlers decimal worker))
          planning_gates
          graph
          log
          fuel
          v
        ≡ some (ok result, w))
      × (result.final_state.completed_phases ≡ planning_phases)
      × (result.gates_fired ≡ "talisman-v1.1:plan" ∷ "talisman-v1.1:slice_approval" ∷ [])
unfolding run_self_improvement_spiral
planning_run_completes decimal worker steady worker_keeps graph log log_keeps fuel v roomy enough =
    let (s, w, e, done) =
      approved_run_completes (some (planning_handlers decimal worker)) planning_gates
        planning_phases planning_known (quiet_handlers _ (planning-IsSteady decimal worker steady))
        graph log recording_approver (λ r w. refl) (omega (arith, roomy)) fuel project_id "standard"
        (v, []) (omega (arith, enough)) in
    (
      _,
      w,
      ap (improved _ planning_gates graph log) e,
      done ∙ in_order,
      recorded_gates (some (planning_handlers decimal worker)) planning_gates graph log fuel
            (planning_keeps decimal worker worker_keeps) log_keeps project_id planning_phases
            "standard" (v, []) refl s w e
          ∙ ap (gate_ids planning_gates project_id) (done ∙ in_order)
          ∙ planned_gates,
    )
