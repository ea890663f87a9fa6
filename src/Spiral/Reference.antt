-- ===== src/Spiral/Reference.antt =====
-- A value of the LangGraph interface: its documented behaviour can be met, for any nodes.
use talisman_v.Prelude.{
  ℕ, zero, suc, ◌<◌, String, ◌≡◌, ◌≢◌, refl, ap, ◌∙◌, true, false, same, same_iff, same_ne, has,
  if◌then◌else◌,
}
use talisman_v.Spiral.State.{SpiralState, next_active_phase, end_node, spiral_phases}
use talisman_v.Spiral.Node.{
  key_error, recursion_error, Result, ok, err, SpiralUpdate, ResumeValue, NodeResult, update,
  raised, interrupt,
}
use talisman_v.Spiral.Runtime.{CompiledGraph, Node, Outcome, finished, paused, failed, overwrite}
use talisman_v.Spiral.Order.{end_node-not-phase}

module _ {W : Type 0} (node : Node W) where
  after_node : (SpiralState → W → Outcome × W) → SpiralState → NodeResult × W → Outcome × W
  after_node loop s (update u, w) = loop (overwrite u s) w
  after_node loop s (raised e, w) = (failed e, w)
  after_node loop s (interrupt payload rest, w) = (paused s (next_active_phase s) payload, w)

  routed : SpiralState → W → Outcome × W → Outcome × W
  routed s w known =
      if same (next_active_phase s) end_node
      then (finished s, w)
      else if has (next_active_phase s) spiral_phases
      then known
      else (failed key_error, w)

  run : ℕ → SpiralState → W → Outcome × W
  unfolding routed after_node
  run zero s w = routed s w (failed recursion_error, w)
  run (suc n) s w = routed s w (after_node (run n) s (node (next_active_phase s) s w))

  resumed : (SpiralState → W → Outcome × W) → SpiralState → Result SpiralUpdate → W → Outcome × W
  resumed loop s (ok u) w = loop (overwrite u s) w
  resumed loop s (err e) w = (failed e, w)

  after_resume :
      (SpiralState → W → Outcome × W) → SpiralState → ResumeValue → NodeResult × W → Outcome × W
  unfolding resumed
  after_resume loop s v (interrupt payload rest, w) = resumed loop s (rest v) w
  after_resume loop s v (update u, w) = loop (overwrite u s) w
  after_resume loop s v (raised e, w) = (failed e, w)

  resume : ℕ → SpiralState → String → ResumeValue → W → Outcome × W
  unfolding run after_resume
  resume zero s phase v w = (failed recursion_error, w)
  resume (suc n) s phase v w = after_resume (run n) s v (node phase s w)

  routed_end :
      (s : SpiralState) (w : W) (known : Outcome × W)
      → next_active_phase s ≡ end_node
      → routed s w known ≡ (finished s, w)
  unfolding routed
  routed_end s w known e = rw ((same_iff (next_active_phase s) end_node).1 e) refl

  routed_known :
      (s : SpiralState) (w : W) (known : Outcome × W)
      → has (next_active_phase s) spiral_phases ≡ true
      → routed s w known ≡ known
  unfolding routed
  routed_known s w known e =
      rw
        (
          same_ne (next_active_phase s) end_node
              (λ k. cc (ap (λ p. has p spiral_phases) k, e, end_node-not-phase)),
          e,
        )
        refl

  routed_unknown :
      (s : SpiralState) (w : W) (known : Outcome × W)
      → next_active_phase s ≢ end_node
      → has (next_active_phase s) spiral_phases ≡ false
      → routed s w known ≡ (failed key_error, w)
  unfolding routed
  routed_unknown s w known e k = rw (same_ne (next_active_phase s) end_node e, k) refl

  unfoldable pub reference : (limit : ℕ) → 0 < limit → CompiledGraph node
  unfolding run resume routed_end routed_known routed_unknown
  reference limit positive = record {
    recursion_limit = limit;
    limit_positive = positive;
    run = run;
    resume = resume;
    run_end = elim [ zero ↦ λ s w e. routed_end s w _ e | suc n ↦ λ s w e. routed_end s w _ e ];
    run_limit = λ s w e. routed_known s w _ e;
    run_unknown = elim [
      | zero ↦ λ s w e k. routed_unknown s w _ e k
      | suc n ↦ λ s w e k. routed_unknown s w _ e k
    ];
    run_update = λ n s w w' u known e. routed_known s w _ known ∙ ap (after_node (run n) s) e;
    run_raised = λ n s w w' x known e. routed_known s w _ known ∙ ap (after_node (run n) s) e;
    run_interrupt =
        λ n s w w' payload rest known e. routed_known s w _ known ∙ ap (after_node (run n) s) e;
    resume_update = λ n s phase v w w' payload rest u e k.
        ap (after_resume (run n) s v) e ∙ ap (λ r. resumed (run n) s r w') k;
    resume_raised = λ n s phase v w w' payload rest x e k.
        ap (after_resume (run n) s v) e ∙ ap (λ r. resumed (run n) s r w') k;
  }
