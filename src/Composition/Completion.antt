-- ===== src/Composition/Completion.antt =====
-- What a finished run of app/composition.py has completed, and in which order.
use mathlib.Core.Path.{subst}
use talisman_v.Prelude.{
  ℕ, String, ◌≡◌, ◌⊎◌, inl, inr, refl, ap, ◌∙◌, true, false, Bool-cases, Option, none, some, List,
  [], ◌∷◌, ◌++◌, arith, has, same_iff, append_assoc,
}
use talisman_v.Prelude.Dict.{Dict}
use talisman_v.Spiral.State.{
  ApprovalDecision, approve, revise, pause, reject, value, SpiralState, next_active_phase, end_node,
  spiral_phases, is_reject,
}
use talisman_v.Spiral.Node.{
  GateInterruptPayload, SpiralUpdate, update, PhaseHandler, run_phase, decision_update,
}
use talisman_v.Spiral.Runtime.{CompiledGraph, finished, overwrite}
use talisman_v.Spiral.Order.{
  remaining, remaining-next, next-remaining, next_active_phase_lem, has-remaining,
}
use talisman_v.Spiral.Run.{IsPaused, Holds}
use talisman_v.Spiral.Steps.{
  next-not-completed, ungated_step, gated_step, overwrite-phase_sequence, decision_completed,
}
use talisman_v.Composition.{Approver, LogEvent, run_gated_project}
use talisman_v.Composition.Session.{OnSome, run_gated_project-Holds}

-- The completed phases are the first of the sequence, each once, and the others remain.
pub record InOrder (phases : List String) (s : SpiralState) : Type 0 where
  pub sequence : s.phase_sequence ≡ phases
  pub split : s.completed_phases ++ remaining s.completed_phases phases ≡ remaining [] phases

module _ (phases : List String) (s : SpiralState) (io : InOrder phases s) where
  -- completing the next phase
  split_next :
      has (next_active_phase s) spiral_phases ≡ true
      → (s.completed_phases ++ next_active_phase s ∷ [])
          ++ remaining (s.completed_phases ++ next_active_phase s ∷ []) phases
        ≡ remaining [] phases
  split_next known =
      let (rest, e) = next-remaining s known in
      let e' : remaining s.completed_phases phases ≡ next_active_phase s ∷ rest =
        subst (λ l. remaining s.completed_phases l ≡ next_active_phase s ∷ rest) io.sequence e in
      rw (remaining-next phases s.completed_phases rest (next_active_phase s) e')
        (append_assoc s.completed_phases (next_active_phase s ∷ []) rest ∙ (rw (← e') io.split))

  module _ {W : Type 0} (handlers : Option (Dict (PhaseHandler W))) (gates : List String) where
    pub step-InOrder :
        (w w' : W) (u : SpiralUpdate)
        → has (next_active_phase s) spiral_phases ≡ true
        → run_phase handlers gates (next_active_phase s) s w ≡ (update u, w')
        → InOrder phases (overwrite u s)
    step-InOrder w w' u known e = record {
      sequence = overwrite-phase_sequence u s ∙ io.sequence;
      split = elim (Bool-cases (has (next_active_phase s) gates)) [
        | inl is_gate ↦ rw ((gated_step handlers gates s w w' u known e is_gate).0) io.split
        | inr no_gate ↦ rw (ungated_step handlers gates s w w' u known e no_gate) (split_next known)
      ];
    }

    pub decide-InOrder :
        (p : String) (payload : GateInterruptPayload) (d : ApprovalDecision)
        → IsPaused gates s p payload
        → InOrder phases (overwrite (decision_update p s d) s)
    decide-InOrder p payload d at_gate = record {
      sequence = overwrite-phase_sequence (decision_update p s d) s ∙ io.sequence;
      split = rw (decision_completed p s d open_phase) (by_decision d);
    }
      where
        known : has (next_active_phase s) spiral_phases ≡ true
        known = rw (← at_gate.routed) at at_gate.known

        open_phase : has p s.completed_phases ≡ false
        open_phase = rw at_gate.routed at (next-not-completed s known)

        by_decision :
            (d : ApprovalDecision)
            → (elim d [ approve ↦ s.completed_phases ++ p ∷ [] | _ ↦ s.completed_phases ])
                ++ remaining
                    (elim d [ approve ↦ s.completed_phases ++ p ∷ [] | _ ↦ s.completed_phases ])
                    phases
              ≡ remaining [] phases
        by_decision approve = rw at_gate.routed at (split_next known)
        by_decision revise = io.split
        by_decision pause = io.split
        by_decision reject = io.split

is_reject_iff : (d : Option String) → is_reject d ≡ true → d ≡ some (value reject)
is_reject_iff none h = cc
is_reject_iff (some d) h = ap some ((same_iff d (value reject)).0 h)

-- The first of the remaining phases is a phase of the sequence.
pub starts :
    (phases seen : List String) (p : String) (ps : List String)
    → remaining seen phases ≡ p ∷ ps
    → has p phases ≡ true
unfolding has
starts phases seen p ps k = (has-remaining phases seen p (rw k (ground (arith, same_iff p p)))).0

-- Where the router ends a run, it was rejected or nothing remains.
pub ended-remaining :
    (s : SpiralState)
    → has end_node s.phase_sequence ≡ false
    → next_active_phase s ≡ end_node
    → (s.last_decision ≡ some (value reject)) ⊎ (remaining s.completed_phases s.phase_sequence ≡ [])
unfolding has
ended-remaining s proper e = elim (Bool-cases (is_reject s.last_decision)) [
  | inl rejected ↦ inl (is_reject_iff s.last_decision rejected)
  | inr goes_on ↦ inr (go (remaining s.completed_phases s.phase_sequence) refl goes_on)
]
  where
    next_p :
        (p : String) (ps : List String)
        → remaining s.completed_phases s.phase_sequence ≡ p ∷ ps
        → is_reject s.last_decision ≡ false
        → next_active_phase s ≡ p
    next_p p ps k h = next_active_phase_lem s ∙ rw (h, k) refl

    go :
        (l : List String)
        → remaining s.completed_phases s.phase_sequence ≡ l
        → is_reject s.last_decision ≡ false
        → remaining s.completed_phases s.phase_sequence ≡ []
    go [] k h = k
    go (p ∷ ps) k h =
        cc (starts s.phase_sequence s.completed_phases p ps k, next_p p ps k h, e, proper)

module _ {W : Type 0} (handlers : Option (Dict (PhaseHandler W))) (gates : List String)
    (graph : CompiledGraph (run_phase handlers gates)) (log : LogEvent → W → W)
    (approver : Approver W) (fuel : ℕ) (project_id : String) (phases : List String) (tier : String)
    (w : W) where
  in_order :
      OnSome
        (Holds gates (InOrder phases))
        (run_gated_project handlers gates graph log approver fuel project_id phases tier w)
  in_order =
      run_gated_project-Holds handlers gates graph log approver (InOrder phases)
        (λ s w w' u io known e. step-InOrder phases s io handlers gates w w' u known e)
        (λ s p payload d w w' io at_gate e.
          decide-InOrder phases s io handlers gates p payload d at_gate)
        fuel project_id phases tier w (record { sequence = refl; split = refl })

  -- A gated run that finishes has completed phases of the given sequence, each once and in the
  -- order in which they first stand there: all of them, unless its last decision was a reject,
  -- when they are the first ones. (The sequence does not hold LangGraph's name for the end.)
  pub finished_in_order :
      (s : SpiralState) (w' : W)
      → has end_node phases ≡ false
      → run_gated_project handlers gates graph log approver fuel project_id phases tier w
        ≡ some (finished s, w')
      → (rest : List String) × (s.completed_phases ++ rest ≡ remaining [] phases)
        × ((s.last_decision ≡ some (value reject)) ⊎ (rest ≡ []))
  finished_in_order s w' proper e =
      let (io, ends) = subst (OnSome (Holds gates (InOrder phases))) e in_order in
      (
        remaining s.completed_phases phases,
        io.split,
        subst (λ l. (s.last_decision ≡ some (value reject)) ⊎ (remaining s.completed_phases l ≡ []))
            io.sequence (ended-remaining s (rw io.sequence proper) ends),
      )
