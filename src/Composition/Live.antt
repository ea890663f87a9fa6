-- ===== src/Composition/Live.antt =====
-- Runs of the spiral graph that were not rejected, whose handlers raise nothing: no superstep fails.
use mathlib.Core.Path.{subst}
use talisman_v.Prelude.{
  ℕ, zero, suc, ◌+◌, ◌-◌, ◌≤◌, String, ◌≡◌, ◌≢◌, inl, inr, refl, sym, ap, ◌∙◌, true, false,
  Bool-cases, Option, some, List, [], ◌∷◌, arith, has, length,
}
use talisman_v.Prelude.Dict.{Dict}
use talisman_v.Spiral.State.{SpiralState, next_active_phase, spiral_phases, is_reject}
use talisman_v.Spiral.Node.{
  Fault, err, GateInterruptPayload, SpiralUpdate, NodeResult, ResumeValue, update, raised,
  interrupt, PhaseHandler, gate_id, gate_payload, gate_id_congr, after_decision,
  coerce_approval_decision, record_phase_artifact, run_phase,
}
use talisman_v.Spiral.Runtime.{CompiledGraph, paused, failed, overwrite}
use talisman_v.Spiral.Order.{
  remaining, remaining-next, next-remaining, head_or_end, next_active_phase_lem,
}
use talisman_v.Spiral.Run.{IsPaused}
use talisman_v.Spiral.Steps.{
  ungated_step, gated_step, step_decision, overwrite-project_id, overwrite-phase_sequence,
  paused_node,
}
use talisman_v.Composition.Completion.{InOrder, step-InOrder, starts}

-- A state on the way: in order, not rejected, and with at most `k` phases to come.
pub record IsLive (phases : List String) (k : ℕ) (s : SpiralState) : Type 0 where
  pub in_order : InOrder phases s
  pub accepted : is_reject s.last_decision ≡ false
  pub left : length (remaining s.completed_phases s.phase_sequence) ≤ k

pub IsLive-weaken :
    (phases : List String) (j k : ℕ) (s : SpiralState)
    → j ≤ k
    → IsLive phases j s
    → IsLive phases k s
IsLive-weaken phases j k s h l = record {
  in_order = l.in_order;
  accepted = l.accepted;
  left = omega (arith, l.left);
}

-- The router of a state that was not rejected.
pub router :
    (s : SpiralState)
    → is_reject s.last_decision ≡ false
    → next_active_phase s ≡ head_or_end (remaining s.completed_phases s.phase_sequence)
router s h = next_active_phase_lem s ∙ rw h refl

module _ {W : Type 0} (handlers : Option (Dict (PhaseHandler W))) (gates : List String)
    (phases : List String) (known : (p : String) → has p phases ≡ true → has p spiral_phases ≡ true)
    (quiet : (p : String) (s : SpiralState) (w w' : W) (e : Fault)
      → record_phase_artifact p s handlers w ≢ (err e, w'))
    (graph : CompiledGraph (run_phase handlers gates)) where
  raised-quiet :
      (p : String) (s : SpiralState) (w w' : W) (x : Fault)
      → run_phase handlers gates p s w ≢ (raised x, w')
  unfolding run_phase
  raised-quiet p s w w' x e = quiet p s w w' x (ground arith)

  routed_known :
      (k : ℕ) (s : SpiralState) (p : String) (ps : List String)
      → IsLive phases k s
      → remaining s.completed_phases s.phase_sequence ≡ p ∷ ps
      → (next_active_phase s ≡ p) × (has (next_active_phase s) spiral_phases ≡ true)
  routed_known k s p ps l e =
      let r : next_active_phase s ≡ p = router s l.accepted ∙ rw e refl in
      (r, rw r (known p (starts phases s.completed_phases p ps (rw l.in_order.sequence at e))))

  -- the node of an ungated phase takes the phase off those to come
  pub ungated-IsLive :
      (k : ℕ) (s : SpiralState) (w w' : W) (u : SpiralUpdate)
      → IsLive phases (suc k) s
      → has (next_active_phase s) spiral_phases ≡ true
      → run_phase handlers gates (next_active_phase s) s w ≡ (update u, w')
      → has (next_active_phase s) gates ≡ false
      → IsLive phases k (overwrite u s)
  ungated-IsLive k s w w' u l kn e no_gate = record {
    in_order = step-InOrder phases s l.in_order handlers gates w w' u kn e;
    accepted = rw (step_decision handlers gates s w w' u kn e) l.accepted;
    left =
        let (rest, r) = next-remaining s kn in
        rw
          (
            overwrite-phase_sequence u s,
            ungated_step handlers gates s w w' u kn e no_gate,
            remaining-next s.phase_sequence s.completed_phases rest (next_active_phase s) r,
          )
          (omega (arith, l.left, ap length r));
  }

  pub gated-IsLive :
      (k : ℕ) (s : SpiralState) (w w' : W) (u : SpiralUpdate)
      → IsLive phases k s
      → has (next_active_phase s) spiral_phases ≡ true
      → run_phase handlers gates (next_active_phase s) s w ≡ (update u, w')
      → has (next_active_phase s) gates ≡ true
      → IsLive phases k (overwrite u s)
  gated-IsLive k s w w' u l kn e is_gate = record {
    in_order = step-InOrder phases s l.in_order handlers gates w w' u kn e;
    accepted = rw (step_decision handlers gates s w w' u kn e) l.accepted;
    left =
        rw (overwrite-phase_sequence u s, (gated_step handlers gates s w w' u kn e is_gate).0)
          l.left;
  }

  -- a gate that was just left pending interrupts in the next superstep
  opened :
      (k : ℕ) (s : SpiralState) (w w' : W) (u : SpiralUpdate)
      → IsLive phases k s
      → has (next_active_phase s) spiral_phases ≡ true
      → run_phase handlers gates (next_active_phase s) s w ≡ (update u, w')
      → has (next_active_phase s) gates ≡ true
      → IsPaused gates (overwrite u s) (next_active_phase s) (
          gate_payload
            (overwrite u s)
            (next_active_phase s)
            (gate_id (overwrite u s) (next_active_phase s)))
  opened k s w w' u l kn e is_gate = record {
    gated = is_gate;
    pending =
        (gated_step handlers gates s w w' u kn e is_gate).1
        ∙ ap some (
            gate_id_congr s (overwrite u s) (next_active_phase s) (next_active_phase s)
              (sym (overwrite-project_id u s)) refl);
    shown = refl;
    routed =
        router (overwrite u s) (gated-IsLive k s w w' u l kn e is_gate).accepted
        ∙ rw (overwrite-phase_sequence u s, (gated_step handlers gates s w w' u kn e is_gate).0)
            (sym (router s l.accepted));
    known = kn;
  }

  paused_run :
      (n : ℕ) (s : SpiralState) (w : W) (p : String) (payload : GateInterruptPayload)
      → IsPaused gates s p payload
      → graph.run (suc n) s w ≡ (paused s p (gate_payload s p (gate_id s p)), w)
  paused_run n s w p payload at_gate =
      subst (λ q. graph.run (suc n) s w ≡ (paused s q (gate_payload s p (gate_id s p)), w))
        at_gate.routed
        (graph.run_interrupt n s w w _ _ (rw at_gate.routed at_gate.known) (
          subst
            (λ q. run_phase handlers gates q s w ≡ (
              interrupt (gate_payload s p (gate_id s p))
                  (λ v. after_decision p s (coerce_approval_decision v)),
              w,
            ))
            (sym at_gate.routed)
            (paused_node handlers gates graph n s p payload at_gate ResumeValue.other w)))

  -- Within as many supersteps as phases are left, and two more, a run does not fail.
  pub run-ne-failed :
      (k n : ℕ) (s : SpiralState) (w : W) (x : Fault)
      → IsLive phases k s
      → k + 2 ≤ n
      → (graph.run n s w).0 ≢ failed x
  run-ne-failed k zero s w x l h = absurd (omega arith)
  run-ne-failed k (suc zero) s w x l h = absurd (omega arith)
  run-ne-failed k (suc (suc n)) s w x l h =
      go (remaining s.completed_phases s.phase_sequence) refl
        (λ u w' l'. run-ne-failed (k - 1) (suc n) (overwrite u s) w' x l')
    where
      by_node :
          (p : String) (ps : List String)
          → remaining s.completed_phases s.phase_sequence ≡ p ∷ ps
          → ((u : SpiralUpdate) (w' : W)
              → IsLive phases (k - 1) (overwrite u s)
              → k - 1 + 2 ≤ suc n
              → (graph.run (suc n) (overwrite u s) w').0 ≢ failed x)
          → has (next_active_phase s) spiral_phases ≡ true
          → (r : NodeResult) (w' : W) → run_phase handlers gates (next_active_phase s) s w ≡ (r, w')
          → (graph.run (suc (suc n)) s w).0 ≢ failed x
      by_node p ps q rest kn (raised y) w' e =
          absurd (raised-quiet (next_active_phase s) s w w' y e)
      by_node p ps q rest kn (interrupt payload k') w' e =
          rw (graph.run_interrupt (suc n) s w w' payload k' kn e) (λ c. cc)
      by_node p ps q rest kn (update u) w' e =
          rw (graph.run_update (suc n) s w w' u kn e)
            (elim (Bool-cases (has (next_active_phase s) gates)) [
              | inl is_gate ↦
                  rw
                    (paused_run n (overwrite u s) w' (next_active_phase s) _
                      (opened k s w w' u l kn e is_gate))
                    (λ c. cc)
              | inr no_gate ↦
                  rest u w'
                    (ungated-IsLive (k - 1) s w w' u
                      (IsLive-weaken phases k (suc (k - 1)) s (omega arith) l) kn e no_gate)
                    (omega (arith, l.left, ap length q))
            ])

      go :
          (r : List String)
          → remaining s.completed_phases s.phase_sequence ≡ r
          → ((u : SpiralUpdate) (w' : W)
              → IsLive phases (k - 1) (overwrite u s)
              → k - 1 + 2 ≤ suc n
              → (graph.run (suc n) (overwrite u s) w').0 ≢ failed x)
          → (graph.run (suc (suc n)) s w).0 ≢ failed x
      go [] e rest =
          rw (graph.run_end (suc (suc n)) s w (router s l.accepted ∙ rw e refl)) (λ c. cc)
      go (p ∷ ps) e rest =
          let r = run_phase handlers gates (next_active_phase s) s w in
          by_node p ps e rest (routed_known k s p ps l e).1 r.0 r.1 refl
