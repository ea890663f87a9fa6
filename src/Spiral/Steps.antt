-- ===== src/Spiral/Steps.antt =====
-- What one superstep, and what one decision at a gate, does to the state of the spiral.
use talisman_v.Prelude.{
  ℕ, suc, String, ◌≡◌, refl, true, false, Option, some, List, [], ◌∷◌, ◌++◌, arith, has, ap,
  same_iff,
}
use talisman_v.Prelude.Dict.{Dict}
use talisman_v.Spiral.State.{
  ApprovalDecision, approve, SpiralState, next_active_phase, spiral_phases,
}
use talisman_v.Spiral.Node.{
  ok, err, Fault, SpiralUpdate, ResumeValue, update, interrupt, PhaseHandler, gate_id, gate_payload,
  GateInterruptPayload, is_pending_iff, run_phase, decision_update, complete_phase,
  coerce_approval_decision, after_decision,
}
use talisman_v.Spiral.Runtime.{CompiledGraph, failed, overwrite}
use talisman_v.Spiral.Order.{has-remaining, next-remaining}
use talisman_v.Spiral.Run.{IsPaused}

-- The next phase is not completed yet.
pub next-not-completed :
    (s : SpiralState)
    → has (next_active_phase s) spiral_phases ≡ true
    → has (next_active_phase s) s.completed_phases ≡ false
unfolding has
next-not-completed s known =
    let (rest, e) = next-remaining s known in
    (has-remaining s.phase_sequence s.completed_phases (next_active_phase s)
      (rw e (ground (arith, same_iff (next_active_phase s) (next_active_phase s))))).1

module _ {W : Type 0} (handlers : Option (Dict (PhaseHandler W))) (gates : List String)
    (s : SpiralState) (w w' : W) (u : SpiralUpdate)
    (known : has (next_active_phase s) spiral_phases ≡ true)
    (e : run_phase handlers gates (next_active_phase s) s w ≡ (update u, w')) where
  -- A phase that is no gate is completed by its node.
  pub ungated_step :
      has (next_active_phase s) gates ≡ false
      → (overwrite u s).completed_phases ≡ s.completed_phases ++ next_active_phase s ∷ []
  unfolding run_phase overwrite complete_phase
  ungated_step h = ground (arith, next-not-completed s known)

  -- The node of a gate completes nothing: it leaves its gate pending.
  pub gated_step :
      has (next_active_phase s) gates ≡ true
      → ((overwrite u s).completed_phases ≡ s.completed_phases)
        × ((overwrite u s).pending_gate_id ≡ some (gate_id s (next_active_phase s)))
  unfolding run_phase overwrite
  gated_step h = (ground arith, ground arith)

  pub step_decision : (overwrite u s).last_decision ≡ s.last_decision
  unfolding run_phase overwrite
  step_decision = ground arith

pub overwrite-phase_sequence :
    (u : SpiralUpdate) (s : SpiralState) → (overwrite u s).phase_sequence ≡ s.phase_sequence
unfolding overwrite
overwrite-phase_sequence u s = refl

pub overwrite-project_id :
    (u : SpiralUpdate) (s : SpiralState) → (overwrite u s).project_id ≡ s.project_id
unfolding overwrite
overwrite-project_id u s = refl

-- The completed phases after a decision.
pub decision_completed :
    (phase : String) (s : SpiralState) (d : ApprovalDecision)
    → has phase s.completed_phases ≡ false
    → (overwrite (decision_update phase s d) s).completed_phases
      ≡ (elim d [ approve ↦ s.completed_phases ++ phase ∷ [] | _ ↦ s.completed_phases ])
unfolding decision_update overwrite
decision_completed phase s approve h = ground arith
decision_completed phase s _ h = refl

module _ {W : Type 0} (handlers : Option (Dict (PhaseHandler W))) (gates : List String)
    (graph : CompiledGraph (run_phase handlers gates)) (n : ℕ) (s : SpiralState) (phase : String)
    (payload : GateInterruptPayload) (at_gate : IsPaused gates s phase payload) (v : ResumeValue)
    (w : W) where
  -- A paused gate interrupts again at its start, and goes on with the decision.
  pub paused_node : run_phase handlers gates phase s w ≡ (
    interrupt
        (gate_payload s phase (gate_id s phase))
        (λ v. after_decision phase s (coerce_approval_decision v)),
    w,
  )
  unfolding run_phase
  paused_node =
      rw (at_gate.gated, (is_pending_iff s.pending_gate_id (gate_id s phase)).1 at_gate.pending)
        refl

  pub resume_decided :
      (d : ApprovalDecision)
      → coerce_approval_decision v ≡ ok d
      → graph.resume (suc n) s phase v w ≡ graph.run n (overwrite (decision_update phase s d) s) w
  resume_decided d e =
      graph.resume_update n s phase v w w _ _ (decision_update phase s d) paused_node
        (ap (after_decision phase s) e)

  pub resume_refused :
      (x : Fault)
      → coerce_approval_decision v ≡ err x
      → graph.resume (suc n) s phase v w ≡ (failed x, w)
  resume_refused x e =
      graph.resume_raised n s phase v w w _ _ x paused_node (ap (after_decision phase s) e)
