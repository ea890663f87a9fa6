-- ===== src/ProjectRun/Reported.antt =====
-- The gates that the default approver of app/project_run.py has seen.
use mathlib.Core.Path.{subst}
use talisman_v.Prelude.{
  ℕ, String, ◌≡◌, inl, inr, refl, ap, sym, ◌∙◌, Bool-cases, true, false, Option, some, List, [],
  ◌∷◌, ◌++◌, arith, has, if◌then◌else◌,
}
use talisman_v.Prelude.Dict.{Dict}
use talisman_v.Spiral.State.{
  ApprovalDecision, approve, revise, pause, reject, SpiralState, next_active_phase, spiral_phases,
}
use talisman_v.Spiral.Node.{
  ok, GateInterruptPayload, SpiralUpdate, update, PhaseHandler, gate_id, gate_id_congr,
  gate_payload_gate, record_phase_artifact, run_phase, decision_update,
}
use talisman_v.Spiral.Runtime.{CompiledGraph, Outcome, finished, overwrite}
use talisman_v.Spiral.Run.{IsPaused, HoldsIn}
use talisman_v.Spiral.Steps.{
  next-not-completed, ungated_step, gated_step, overwrite-project_id, decision_completed,
}
use talisman_v.Composition.{LogEvent, request_of, initial_state, run_gated_project}
use talisman_v.Composition.Session.{OnRun, run_gated_project-HoldsIn}
use talisman_v.ProjectRun.{World, approve_all}

-- The gate ids of the gate phases among some phases, in their order.
unfoldable pub gate_ids : List String → String → List String → List String
gate_ids gates project_id [] = []
gate_ids gates project_id (phase ∷ phases) =
    let rest = gate_ids gates project_id phases in
    if has phase gates then gate_id (initial_state project_id [] "") phase ∷ rest else rest

module _ (gates : List String) (project_id phase : String) where
  gate_ids-other :
      (phases : List String)
      → has phase gates ≡ false
      → gate_ids gates project_id (phases ++ phase ∷ []) ≡ gate_ids gates project_id phases
  unfolding gate_ids
  gate_ids-other [] h = rw h refl
  gate_ids-other (p ∷ phases) h = ground (arith, gate_ids-other phases h)

  gate_ids-gate :
      (phases : List String)
      → has phase gates ≡ true
      → gate_ids gates project_id (phases ++ phase ∷ [])
        ≡ gate_ids gates project_id phases ++ gate_id (initial_state project_id [] "") phase ∷ []
  unfolding gate_ids
  gate_ids-gate [] h = rw h refl
  gate_ids-gate (p ∷ phases) h = elim (Bool-cases (has p gates)) [
    | inl e ↦ rw (e, gate_ids-gate phases h) refl
    | inr e ↦ rw (e, gate_ids-gate phases h) refl
  ]

module _ {V : Type 0} (handlers : Option (Dict (PhaseHandler (World V)))) (gates : List String)
    (handlers_keep : (p : String) (s : SpiralState) (w : World V)
      → (record_phase_artifact p s handlers w).1.1 ≡ w.1)
    (project_id : String) where
  -- the approver has seen the gates of the completed phases
  record IsReported (s : SpiralState) (w : World V) : Type 0 where
    same_project : s.project_id ≡ project_id
    seen_gates : w.1 ≡ gate_ids gates project_id s.completed_phases

  node_keeps :
      (p : String) (s : SpiralState) (w w' : World V) (u : SpiralUpdate)
      → run_phase handlers gates p s w ≡ (update u, w')
      → w' ≡ (record_phase_artifact p s handlers w).1
  unfolding run_phase
  node_keeps p s w w' u e = ground arith

  step-IsReported :
      (s : SpiralState) (w w' : World V) (u : SpiralUpdate)
      → IsReported s w
      → has (next_active_phase s) spiral_phases ≡ true
      → run_phase handlers gates (next_active_phase s) s w ≡ (update u, w')
      → IsReported (overwrite u s) w'
  step-IsReported s w w' u c known e =
      let kept : w'.1 ≡ w.1 =
        ap (λ x. x.1) (node_keeps (next_active_phase s) s w w' u e)
        ∙ handlers_keep (next_active_phase s) s w in
      record {
        same_project = overwrite-project_id u s ∙ c.same_project;
        seen_gates = kept ∙ c.seen_gates ∙ elim (Bool-cases (has (next_active_phase s) gates)) [
          | inl is_gate ↦
              ap (gate_ids gates project_id)
                (sym ((gated_step handlers gates s w w' u known e is_gate).0))
          | inr no_gate ↦
              sym (gate_ids-other gates project_id (next_active_phase s) s.completed_phases no_gate)
              ∙ ap (gate_ids gates project_id)
                  (sym (ungated_step handlers gates s w w' u known e no_gate))
        ];
      }

  decide-IsReported :
      (s : SpiralState) (p : String) (payload : GateInterruptPayload) (d : ApprovalDecision)
      (w w' : World V)
      → IsReported s w
      → IsPaused gates s p payload
      → approve_all.request_approval (request_of payload) w ≡ (ok d, w')
      → IsReported (overwrite (decision_update p s d) s) w'
  decide-IsReported s p payload revise w w' c at_gate e = absurd cc
  decide-IsReported s p payload pause w w' c at_gate e = absurd cc
  decide-IsReported s p payload reject w w' c at_gate e = absurd cc
  decide-IsReported s p payload approve w w' c at_gate e = record {
    same_project = overwrite-project_id (decision_update p s approve) s ∙ c.same_project;
    seen_gates =
        sym (ap (λ r. r.1.1) e)
        ∙ ap (λ seen. seen ++ payload.gate_id ∷ []) c.seen_gates
        ∙ ap (λ id. gate_ids gates project_id s.completed_phases ++ id ∷ []) the_gate
        ∙ sym (gate_ids-gate gates project_id p s.completed_phases at_gate.gated)
        ∙ ap (gate_ids gates project_id) (sym (decision_completed p s approve open_phase));
  }
    where
      the_gate : payload.gate_id ≡ gate_id (initial_state project_id [] "") p
      the_gate =
          ap (λ q. q.gate_id) at_gate.shown
          ∙ gate_payload_gate s p (gate_id s p)
          ∙ gate_id_congr s (initial_state project_id [] "") p p c.same_project refl

      open_phase : has p s.completed_phases ≡ false
      open_phase =
          rw at_gate.routed at (next-not-completed s (rw (← at_gate.routed) at at_gate.known))

module _ {V : Type 0} (handlers : Option (Dict (PhaseHandler (World V)))) (gates : List String)
    (graph : CompiledGraph (run_phase handlers gates)) (log : LogEvent → World V → World V)
    (fuel : ℕ)
    (handlers_keep : (p : String) (s : SpiralState) (w : World V)
      → (record_phase_artifact p s handlers w).1.1 ≡ w.1)
    (log_keeps : (e : LogEvent) (w : World V) → (log e w).1 ≡ w.1) where
  -- what a finished gated run leaves with an approver that records and approves every gate
  pub recorded_gates :
      (project_id : String) (phases : List String) (tier : String) (w : World V)
      → w.1 ≡ []
      → (s : SpiralState) (w' : World V)
      → run_gated_project handlers gates graph log approve_all.request_approval fuel project_id
          phases tier w
        ≡ some (finished s, w')
      → w'.1 ≡ gate_ids gates project_id s.completed_phases
  recorded_gates project_id phases tier w empty s w' e =
      (subst (OnRun Kept) e run_keeps).0.seen_gates
    where
      none_yet : w.1 ≡ gate_ids gates project_id []
      none_yet = empty ∙ unfold gate_ids in refl

      Kept : Outcome × World V → Type 0
      Kept = HoldsIn gates (IsReported handlers gates handlers_keep project_id)

      run_keeps : OnRun Kept (
          run_gated_project handlers gates graph log approve_all.request_approval fuel project_id
            phases tier w)
      run_keeps =
          run_gated_project-HoldsIn handlers gates graph log approve_all.request_approval
            (IsReported handlers gates handlers_keep project_id)
            (step-IsReported handlers gates handlers_keep project_id)
            (decide-IsReported handlers gates handlers_keep project_id)
            (λ e s w h. record {
              same_project = h.same_project;
              seen_gates = log_keeps e w ∙ h.seen_gates;
            })
            fuel project_id phases tier w (record { same_project = refl; seen_gates = none_yet })
