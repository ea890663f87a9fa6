-- ===== src/Composition/Session.antt =====
-- A proof rule for `run_gated_project`: what every superstep and every decision keeps.
use talisman_v.Prelude.{
  ℕ, zero, suc, ◌-◌, String, ◌≡◌, refl, sym, ap, ◌∙◌, true, Option, none, some, List, arith, has,
}
use mathlib.Core.Path.{subst}
use talisman_v.Prelude.Dict.{Dict}
use talisman_v.Spiral.State.{
  ApprovalDecision, approve, revise, pause, reject, value, SpiralState, next_active_phase,
  spiral_phases,
}
use talisman_v.Spiral.Node.{
  Result, ok, err, GateInterruptPayload, SpiralUpdate, Fault, text, update, PhaseHandler, run_phase,
  decision_update, coerce_approval_decision,
}
use talisman_v.Spiral.Runtime.{CompiledGraph, Outcome, finished, paused, failed, overwrite}
use talisman_v.Spiral.Run.{IsPaused, Holds, HoldsIn, HoldsIn-Holds, run-HoldsIn}
use talisman_v.Spiral.Steps.{resume_decided}
use talisman_v.Composition.{
  Approver, LogEvent, gated_project_started, gated_project_finished, request_of, initial_state,
  log_final, after_answer, resolve_gates, run_gated_project,
}

-- Every decision is read back from its text.
pub coerce-value : (d : ApprovalDecision) → coerce_approval_decision (text (value d)) ≡ ok d
unfolding coerce_approval_decision
coerce-value approve = refl
coerce-value revise = refl
coerce-value pause = refl
coerce-value reject = refl

module _ {W : Type 0} (handlers : Option (Dict (PhaseHandler W))) (gates : List String)
    (graph : CompiledGraph (run_phase handlers gates)) where
  pub resume-run :
      (s : SpiralState) (phase : String) (payload : GateInterruptPayload) (d : ApprovalDecision)
      (w : W)
      → IsPaused gates s phase payload
      → graph.resume graph.recursion_limit s phase (text (value d)) w
        ≡ graph.run (graph.recursion_limit - 1) (overwrite (decision_update phase s d) s) w
  resume-run s phase payload d w at_gate =
      let e : graph.recursion_limit ≡ suc (graph.recursion_limit - 1) =
        omega (arith, graph.limit_positive) in
      subst
        (λ n.
          graph.resume n s phase (text (value d)) w
          ≡ graph.run (graph.recursion_limit - 1) (overwrite (decision_update phase s d) s) w)
        (sym e)
        (resume_decided handlers gates graph (graph.recursion_limit - 1) s phase payload at_gate
          (text (value d)) w d (coerce-value d))

abbrev pub OnSome : {W : Type 0} → (Outcome → Type 0) → Option (Outcome × W) → Type 0
OnSome Q none = Unit
OnSome Q (some (o, w)) = Q o

module _ {W : Type 0} (handlers : Option (Dict (PhaseHandler W))) (gates : List String)
    (graph : CompiledGraph (run_phase handlers gates)) (log : LogEvent → W → W)
    (approver : Approver W) (fuel : ℕ) (s : SpiralState) (phase : String)
    (payload : GateInterruptPayload) (w w' : W) where
  pub resolve_gates-decided :
      (d : ApprovalDecision)
      → approver (request_of payload) w ≡ (ok d, w')
      → IsPaused gates s phase payload
      → resolve_gates handlers gates graph log approver (suc fuel) (paused s phase payload) w ≡ (
          let (o, w'') =
            graph.run (graph.recursion_limit - 1) (overwrite (decision_update phase s d) s) w' in
          resolve_gates handlers gates graph log approver fuel o w'')
  unfolding resolve_gates
  resolve_gates-decided d e at_gate =
      ap
        (after_answer handlers gates graph log
          (resolve_gates handlers gates graph log approver fuel) s phase)
        e
      ∙ ap (λ (r : Outcome × W). resolve_gates handlers gates graph log approver fuel r.0 r.1)
          (resume-run handlers gates graph s phase payload d w' at_gate)

  pub resolve_gates-raised :
      (x : Fault)
      → approver (request_of payload) w ≡ (err x, w')
      → resolve_gates handlers gates graph log approver (suc fuel) (paused s phase payload) w
        ≡ some (failed x, w')
  unfolding resolve_gates
  resolve_gates-raised x e =
      ap
        (after_answer handlers gates graph log
          (resolve_gates handlers gates graph log approver fuel) s phase)
        e

abbrev pub OnRun : {W : Type 0} → (Outcome × W → Type 0) → Option (Outcome × W) → Type 0
OnRun Q none = Unit
OnRun Q (some r) = Q r

module _ {W : Type 0} (handlers : Option (Dict (PhaseHandler W))) (gates : List String)
    (graph : CompiledGraph (run_phase handlers gates)) (log : LogEvent → W → W)
    (approver : Approver W) (P : SpiralState → W → Type 0)
    (keep : (s : SpiralState) (w w' : W) (u : SpiralUpdate)
      → P s w
      → has (next_active_phase s) spiral_phases ≡ true
      → run_phase handlers gates (next_active_phase s) s w ≡ (update u, w')
      → P (overwrite u s) w')
    (decide : (s : SpiralState) (phase : String) (payload : GateInterruptPayload)
        (d : ApprovalDecision) (w w' : W)
      → P s w
      → IsPaused gates s phase payload
      → approver (request_of payload) w ≡ (ok d, w')
      → P (overwrite (decision_update phase s d) s) w')
    (logs : (e : LogEvent) (s : SpiralState) (w : W) → P s w → P s (log e w)) where
  resolve_gates-HoldsIn :
      (fuel : ℕ) (o : Outcome) (w : W)
      → HoldsIn gates P (o, w)
      → OnRun (HoldsIn gates P) (resolve_gates handlers gates graph log approver fuel o w)
  unfolding resolve_gates
  resolve_gates-HoldsIn fuel (finished s) w h = h
  resolve_gates-HoldsIn fuel (failed e) w h = tt
  resolve_gates-HoldsIn zero (paused s phase payload) w h = tt
  resolve_gates-HoldsIn (suc fuel) (paused s phase payload) w h =
      answered (approver (request_of payload) w) refl (λ d w'.
        let (o, w'') =
          graph.run (graph.recursion_limit - 1) (overwrite (decision_update phase s d) s) w' in
        resolve_gates-HoldsIn fuel o w'')
    where
      answered :
          (r : Result ApprovalDecision × W)
          → approver (request_of payload) w ≡ r
          → ((d : ApprovalDecision) (w' : W)
              → (let (o, w'') =
                    graph.run
                      (graph.recursion_limit - 1)
                      (overwrite (decision_update phase s d) s)
                      w' in
                  HoldsIn gates P (o, w'')
                  → OnRun
                      (HoldsIn gates P)
                      (resolve_gates handlers gates graph log approver fuel o w'')))
          → OnRun (HoldsIn gates P) (
              resolve_gates handlers gates graph log approver (suc fuel) (paused s phase payload) w)
      answered (ok d, w') e rest =
          subst (OnRun (HoldsIn gates P))
            (sym (
              resolve_gates-decided handlers gates graph log approver fuel s phase payload w w' d e
                h.1))
            (rest d w' (
              run-HoldsIn handlers gates graph P keep (graph.recursion_limit - 1)
                (overwrite (decision_update phase s d) s) w'
                (decide s phase payload d w w' h.0 h.1 e)))
      answered (err x, w') e rest =
          subst (OnRun (HoldsIn gates P))
            (sym (
              resolve_gates-raised handlers gates graph log approver fuel s phase payload w w' x e))
            tt

  -- The rule, with the world: what holds at the start and is kept holds of what the run comes back with.
  pub run_gated_project-HoldsIn :
      (fuel : ℕ) (project_id : String) (phases : List String) (tier : String) (w : W)
      → P (initial_state project_id phases tier) w
      → OnRun
          (HoldsIn gates P)
          (run_gated_project handlers gates graph log approver fuel project_id phases tier w)
  unfolding run_gated_project
  run_gated_project-HoldsIn fuel project_id phases tier w start =
      logged (resolve_gates handlers gates graph log approver fuel o' w') (
        resolve_gates-HoldsIn fuel o' w' (
          run-HoldsIn handlers gates graph P keep graph.recursion_limit
            (initial_state project_id phases tier) (log (gated_project_started project_id phases) w)
            (logs (gated_project_started project_id phases) (initial_state project_id phases tier) w
              start)))
    where
      o' : Outcome
      o' =
          (graph.run graph.recursion_limit (initial_state project_id phases tier)
            (log (gated_project_started project_id phases) w)).0

      w' : W
      w' =
          (graph.run graph.recursion_limit (initial_state project_id phases tier)
            (log (gated_project_started project_id phases) w)).1

      logged :
          (r : Option (Outcome × W))
          → OnRun (HoldsIn gates P) r
          → OnRun (HoldsIn gates P) (
              log_final log
                (λ s. gated_project_finished project_id s.completed_phases s.artifacts)
                r)
      logged none h = tt
      logged (some (finished s, w)) (p, e) =
          (logs (gated_project_finished project_id s.completed_phases s.artifacts) s w p, e)
      logged (some (paused s phase payload, w)) h = h
      logged (some (failed e, w)) h = tt

module _ {W : Type 0} (handlers : Option (Dict (PhaseHandler W))) (gates : List String)
    (graph : CompiledGraph (run_phase handlers gates)) (log : LogEvent → W → W)
    (approver : Approver W) (P : SpiralState → Type 0)
    (keep : (s : SpiralState) (w w' : W) (u : SpiralUpdate)
      → P s
      → has (next_active_phase s) spiral_phases ≡ true
      → run_phase handlers gates (next_active_phase s) s w ≡ (update u, w')
      → P (overwrite u s))
    (decide : (s : SpiralState) (phase : String) (payload : GateInterruptPayload)
        (d : ApprovalDecision) (w w' : W)
      → P s
      → IsPaused gates s phase payload
      → approver (request_of payload) w ≡ (ok d, w')
      → P (overwrite (decision_update phase s d) s)) where
  -- The rule, of the state alone: what holds at the start and is kept holds of what the run comes back with.
  pub run_gated_project-Holds :
      (fuel : ℕ) (project_id : String) (phases : List String) (tier : String) (w : W)
      → P (initial_state project_id phases tier)
      → OnSome
          (Holds gates P)
          (run_gated_project handlers gates graph log approver fuel project_id phases tier w)
  run_gated_project-Holds fuel project_id phases tier w start =
      forget (run_gated_project handlers gates graph log approver fuel project_id phases tier w) (
        run_gated_project-HoldsIn handlers gates graph log approver (λ s w. P s) keep decide
          (λ e s w p. p) fuel project_id phases tier w start)
    where
      forget :
          (r : Option (Outcome × W))
          → OnRun (HoldsIn gates (λ s w. P s)) r
          → OnSome (Holds gates P) r
      forget none h = tt
      forget (some (o, w)) h = HoldsIn-Holds gates P o w h
