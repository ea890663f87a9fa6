-- ===== src/Composition/Gates.antt =====
-- Gates of `run_gated_project` in app/composition.py: no gate is passed without its approval.
use mathlib.Core.Path.{subst}
use talisman_v.Prelude.{
  ℕ, String, ◌≡◌, ◌≢◌, inl, inr, refl, sym, ap, ◌∙◌, true, false, Bool-cases, Option, some, List,
  [], ◌∷◌, ◌++◌, arith, has, has-append, same, same_iff,
}
use talisman_v.Prelude.Dict.{Dict}
use talisman_v.Spiral.State.{
  ApprovalDecision, approve, revise, pause, reject, SpiralState, next_active_phase, spiral_phases,
}
use talisman_v.Spiral.Node.{
  ok, GateInterruptPayload, SpiralUpdate, update, PhaseHandler, gate_id, gate_id_congr,
  gate_payload_gate, run_phase, decision_update,
}
use talisman_v.Spiral.Runtime.{CompiledGraph, Outcome, finished, overwrite}
use talisman_v.Spiral.Run.{IsPaused, Holds}
use talisman_v.Spiral.Steps.{
  next-not-completed, ungated_step, gated_step, overwrite-project_id, decision_completed,
}
use talisman_v.Composition.{
  ApprovalRequest, Approver, LogEvent, initial_state, request_of, run_gated_project,
}
use talisman_v.Composition.Session.{OnSome, run_gated_project-Holds}

module _ {W : Type 0} (handlers : Option (Dict (PhaseHandler W))) (gates : List String)
    (phase : String) (gated : has phase gates ≡ true) (project_id : String) where
  -- The project's gate at `phase` has not been passed.
  record IsClosed (s : SpiralState) : Type 0 where
    same_project : s.project_id ≡ project_id
    open_phase : has phase s.completed_phases ≡ false

  has-snoc_other :
      (completed : List String) (q : String)
      → has phase completed ≡ false
      → same phase q ≡ false
      → has phase (completed ++ q ∷ []) ≡ false
  unfolding has
  has-snoc_other completed q h k = ground (arith, has-append phase completed (q ∷ []))

  step-IsClosed :
      (s : SpiralState) (w w' : W) (u : SpiralUpdate)
      → IsClosed s
      → has (next_active_phase s) spiral_phases ≡ true
      → run_phase handlers gates (next_active_phase s) s w ≡ (update u, w')
      → IsClosed (overwrite u s)
  step-IsClosed s w w' u c known e = elim (Bool-cases (has (next_active_phase s) gates)) [
    | inl is_gate ↦ record {
      same_project = overwrite-project_id u s ∙ c.same_project;
      open_phase = rw ((gated_step handlers gates s w w' u known e is_gate).0) c.open_phase;
    }
    | inr no_gate ↦ record {
      same_project = overwrite-project_id u s ∙ c.same_project;
      open_phase = rw (ungated_step handlers gates s w w' u known e no_gate) (
          has-snoc_other s.completed_phases (next_active_phase s) c.open_phase (
            ground (
              arith,
              same_iff phase (next_active_phase s),
              ap (λ p. has p gates) {x = phase} {y = next_active_phase s},
            )));
    }
  ]

  module _ (approver : Approver W)
      (unapproved : (r : ApprovalRequest) (w w' : W)
        → r.gate_id ≡ gate_id (initial_state project_id [] "") phase
        → approver r w ≢ (ok approve, w')) where
    decide-IsClosed :
        (s : SpiralState) (p : String) (payload : GateInterruptPayload) (d : ApprovalDecision)
        (w w' : W)
        → IsClosed s
        → IsPaused gates s p payload
        → approver (request_of payload) w ≡ (ok d, w')
        → IsClosed (overwrite (decision_update p s d) s)
    decide-IsClosed s p payload d w w' c at_gate e = record {
      same_project = overwrite-project_id (decision_update p s d) s ∙ c.same_project;
      open_phase =
          rw
            (decision_completed p s d (
              rw at_gate.routed at (next-not-completed s (rw (← at_gate.routed) at at_gate.known))))
            (completed d e);
    }
      where
        the_gate : p ≡ phase → payload.gate_id ≡ gate_id (initial_state project_id [] "") phase
        the_gate k =
            ap (λ q. q.gate_id) at_gate.shown
            ∙ gate_payload_gate s p (gate_id s p)
            ∙ gate_id_congr s (initial_state project_id [] "") p phase c.same_project k

        other : approver (request_of payload) w ≡ (ok approve, w') → same phase p ≡ false
        other answer = elim (Bool-cases (same phase p)) [
          | inl eq ↦ absurd (
              unapproved (request_of payload) w w' (the_gate (sym ((same_iff phase p).0 eq)))
                answer)
          | inr ne ↦ ne
        ]

        completed :
            (d : ApprovalDecision)
            → approver (request_of payload) w ≡ (ok d, w')
            → has phase (elim d [ approve ↦ s.completed_phases ++ p ∷ [] | _ ↦ s.completed_phases ])
              ≡ false
        completed approve e = has-snoc_other s.completed_phases p c.open_phase (other e)
        completed revise e = c.open_phase
        completed pause e = c.open_phase
        completed reject e = c.open_phase

    closed-OnSome :
        {o : Option (Outcome × W)} {s : SpiralState} {w : W}
        → OnSome (Holds gates IsClosed) o
        → o ≡ some (finished s, w)
        → has phase s.completed_phases ≡ false
    closed-OnSome h e = (subst (OnSome (Holds gates IsClosed)) e h).0.open_phase

    -- The human gate. Where the approver never answers approve to the gate of a gate phase, that
    -- phase is not among the completed ones of a finished run, whatever the handlers do, whatever
    -- the answers to other gates are, and however many rounds and supersteps the run takes.
    pub gate_needs_approval :
        (graph : CompiledGraph (run_phase handlers gates)) (log : LogEvent → W → W) (fuel : ℕ)
        (phases : List String) (tier : String) (w w' : W) (s : SpiralState)
        → run_gated_project handlers gates graph log approver fuel project_id phases tier w
          ≡ some (finished s, w')
        → has phase s.completed_phases ≡ false
    unfolding has
    gate_needs_approval graph log fuel phases tier w w' s e =
        closed-OnSome
          (run_gated_project-Holds handlers gates graph log approver IsClosed step-IsClosed
            decide-IsClosed fuel project_id phases tier w
            (record { same_project = refl; open_phase = refl }))
          e
