-- ===== src/Spiral/Run.antt =====
-- Proof rules for a run of the spiral graph: what every superstep keeps holds of the outcome.
use talisman_v.Prelude.{
  ℕ, zero, suc, String, ◌≡◌, refl, true, false, Bool-cases, inl, inr, Option, some, List, arith,
  same, same_iff, has,
}
use mathlib.Core.Path.{subst}
use talisman_v.Prelude.Dict.{Dict}
use talisman_v.Spiral.State.{SpiralState, next_active_phase, end_node, spiral_phases}
use talisman_v.Spiral.Node.{
  Result, GateInterruptPayload, SpiralUpdate, ResumeValue, NodeResult, update, raised, interrupt,
  PhaseHandler, gate_id, gate_payload, is_pending_iff, run_phase,
}
use talisman_v.Spiral.Runtime.{CompiledGraph, Outcome, finished, paused, failed, overwrite}

-- A run that stopped at a gate: which gate, and what the human is shown.
pub record IsPaused (gates : List String) (s : SpiralState) (phase : String)
    (payload : GateInterruptPayload) : Type 0 where
  pub gated : has phase gates ≡ true
  pub pending : s.pending_gate_id ≡ some (gate_id s phase)
  pub shown : payload ≡ gate_payload s phase (gate_id s phase)
  pub routed : next_active_phase s ≡ phase
  pub known : has phase spiral_phases ≡ true

abbrev pub Holds : List String → (SpiralState → Type 0) → Outcome → Type 0
Holds gates P (finished s) = P s × (next_active_phase s ≡ end_node)
Holds gates P (paused s phase payload) = P s × IsPaused gates s phase payload
Holds gates P (failed e) = Unit

-- The same, of a state and its world.
abbrev pub HoldsIn : {W : Type 0} → List String → (SpiralState → W → Type 0) → Outcome × W → Type 0
HoldsIn gates P (finished s, w) = P s w × (next_active_phase s ≡ end_node)
HoldsIn gates P (paused s phase payload, w) = P s w × IsPaused gates s phase payload
HoldsIn gates P (failed e, w) = Unit

pub HoldsIn-Holds :
    {W : Type 0} (gates : List String) (P : SpiralState → Type 0) (o : Outcome) (w : W)
    → HoldsIn gates (λ s w. P s) (o, w)
    → Holds gates P o
HoldsIn-Holds gates P (finished s) w h = h
HoldsIn-Holds gates P (paused s phase payload) w h = h
HoldsIn-Holds gates P (failed e) w h = h

module _ {W : Type 0} (handlers : Option (Dict (PhaseHandler W))) (gates : List String)
    (s : SpiralState) (w : W) where
  -- An interrupted node is a gate whose id is pending, and the world is as it was.
  pub interrupt-IsPaused :
      (phase : String) (payload : GateInterruptPayload) (rest : ResumeValue → Result SpiralUpdate)
      (w' : W)
      → next_active_phase s ≡ phase
      → has phase spiral_phases ≡ true
      → run_phase handlers gates phase s w ≡ (interrupt payload rest, w')
      → IsPaused gates s phase payload
  unfolding run_phase
  interrupt-IsPaused phase payload rest w' routed known h = record {
    gated = ground arith;
    pending = ground (arith, is_pending_iff s.pending_gate_id (gate_id s phase));
    shown = ground arith;
    routed = routed;
    known = known;
  }

  interrupt-world :
      (phase : String) (payload : GateInterruptPayload) (rest : ResumeValue → Result SpiralUpdate)
      (w' : W)
      → run_phase handlers gates phase s w ≡ (interrupt payload rest, w')
      → w ≡ w'
  unfolding run_phase
  interrupt-world phase payload rest w' h = ground arith

module _ {W : Type 0} (handlers : Option (Dict (PhaseHandler W))) (gates : List String)
    (graph : CompiledGraph (run_phase handlers gates)) (P : SpiralState → W → Type 0)
    (keep : (s : SpiralState) (w w' : W) (u : SpiralUpdate)
      → P s w
      → has (next_active_phase s) spiral_phases ≡ true
      → run_phase handlers gates (next_active_phase s) s w ≡ (update u, w')
      → P (overwrite u s) w') where
  -- one superstep of a phase of the graph, by what its node does
  step-HoldsIn :
      (n : ℕ) (s : SpiralState) (w : W)
      → ((u : SpiralUpdate) (w' : W)
          → P (overwrite u s) w'
          → HoldsIn gates P (graph.run n (overwrite u s) w'))
      → P s w
      → has (next_active_phase s) spiral_phases ≡ true
      → (r : NodeResult) (w' : W) → run_phase handlers gates (next_active_phase s) s w ≡ (r, w')
      → HoldsIn gates P (graph.run (suc n) s w)
  step-HoldsIn n s w rest p known (update u) w' e =
      rw (graph.run_update n s w w' u known e) (rest u w' (keep s w w' u p known e))
  step-HoldsIn n s w rest p known (raised x) w' e = rw (graph.run_raised n s w w' x known e) tt
  step-HoldsIn n s w rest p known (interrupt payload k) w' e =
      rw (graph.run_interrupt n s w w' payload k known e) (
        subst (P s) (interrupt-world handlers gates s w _ payload k w' e) p,
        interrupt-IsPaused handlers gates s w _ payload k w' refl known e,
      )

  other-HoldsIn :
      (n : ℕ) (s : SpiralState) (w : W)
      → P s w
      → has (next_active_phase s) spiral_phases ≡ false
      → HoldsIn gates P (graph.run n s w)
  other-HoldsIn n s w p unknown = elim (Bool-cases (same (next_active_phase s) end_node)) [
    | inl ends ↦
        let e = (same_iff (next_active_phase s) end_node).0 ends in
        rw (graph.run_end n s w e) (p, e)
    | inr goes_on ↦
        rw
          (graph.run_unknown n s w (λ e. ground (arith, same_iff (next_active_phase s) end_node))
            unknown)
          tt
  ]

  pub run-HoldsIn : (n : ℕ) (s : SpiralState) (w : W) → P s w → HoldsIn gates P (graph.run n s w)
  run-HoldsIn zero s w p = elim (Bool-cases (has (next_active_phase s) spiral_phases)) [
    | inl known ↦ rw (graph.run_limit s w known) tt
    | inr unknown ↦ other-HoldsIn zero s w p unknown
  ]
  run-HoldsIn (suc n) s w p = elim (Bool-cases (has (next_active_phase s) spiral_phases)) [
    | inl known ↦
        let r = run_phase handlers gates (next_active_phase s) s w in
        step-HoldsIn n s w (λ u w' p'. run-HoldsIn n (overwrite u s) w' p') p known r.0 r.1 refl
    | inr unknown ↦ other-HoldsIn (suc n) s w p unknown
  ]

module _ {W : Type 0} (handlers : Option (Dict (PhaseHandler W))) (gates : List String)
    (graph : CompiledGraph (run_phase handlers gates)) (P : SpiralState → Type 0)
    (keep : (s : SpiralState) (w w' : W) (u : SpiralUpdate)
      → P s
      → has (next_active_phase s) spiral_phases ≡ true
      → run_phase handlers gates (next_active_phase s) s w ≡ (update u, w')
      → P (overwrite u s)) where
  pub run-Holds : (n : ℕ) (s : SpiralState) (w : W) → P s → Holds gates P (graph.run n s w).0
  run-Holds n s w p =
      let r = graph.run n s w in
      HoldsIn-Holds gates P r.0 r.1 (run-HoldsIn handlers gates graph (λ s w. P s) keep n s w p)
