-- ===== src/Composition/Approved.antt =====
-- `run_gated_project` of app/composition.py under an approver that approves: the run ends.
use mathlib.Core.Path.{subst}
use talisman_v.Prelude.{
  ℕ, zero, suc, ◌+◌, ◌-◌, ◌≤◌, String, ◌≡◌, ◌≢◌, inl, inr, refl, sym, ap, ◌∙◌, true, false,
  Bool-cases, Option, some, List, [], ◌∷◌, ◌++◌, arith, has, append-nil, length,
}
use talisman_v.Prelude.Dict.{Dict}
use talisman_v.Spiral.State.{
  approve, SpiralState, next_active_phase, end_node, spiral_phases, is_reject,
}
use talisman_v.Spiral.Node.{
  Fault, ok, err, GateInterruptPayload, SpiralUpdate, update, PhaseHandler, record_phase_artifact,
  run_phase, decision_update,
}
use talisman_v.Spiral.Runtime.{CompiledGraph, Outcome, finished, paused, failed, overwrite}
use talisman_v.Spiral.Order.{
  remaining, remaining-next, next-remaining, length-remaining-le, end_node-not-phase,
}
use talisman_v.Spiral.Steps.{next-not-completed, decision_completed}
use talisman_v.Spiral.Run.{IsPaused, Holds, run-Holds}
use talisman_v.Composition.{
  Approver, ApprovalRequest, LogEvent, gated_project_started, gated_project_finished, log_final,
  initial_state, request_of, resolve_gates, run_gated_project,
}
use talisman_v.Composition.Session.{resolve_gates-decided}
use talisman_v.Composition.Completion.{decide-InOrder, ended-remaining}
use talisman_v.Composition.Live.{IsLive, IsLive-weaken, ungated-IsLive, gated-IsLive, run-ne-failed}

module _ {W : Type 0} (handlers : Option (Dict (PhaseHandler W))) (gates : List String)
    (phases : List String) (known : (p : String) → has p phases ≡ true → has p spiral_phases ≡ true)
    (quiet : (p : String) (s : SpiralState) (w w' : W) (e : Fault)
      → record_phase_artifact p s handlers w ≢ (err e, w'))
    (graph : CompiledGraph (run_phase handlers gates)) where
  step-IsLive :
      (k : ℕ) (s : SpiralState) (w w' : W) (u : SpiralUpdate)
      → IsLive phases k s
      → has (next_active_phase s) spiral_phases ≡ true
      → run_phase handlers gates (next_active_phase s) s w ≡ (update u, w')
      → IsLive phases k (overwrite u s)
  step-IsLive k s w w' u l kn e = elim (Bool-cases (has (next_active_phase s) gates)) [
    | inl is_gate ↦ gated-IsLive handlers gates phases known quiet graph k s w w' u l kn e is_gate
    | inr no_gate ↦ IsLive-weaken phases (k - 1) k (overwrite u s) (omega arith) (
        ungated-IsLive handlers gates phases known quiet graph (k - 1) s w w' u
          (IsLive-weaken phases k (suc (k - 1)) s (omega arith) l) kn e no_gate)
  ]

  -- an approval takes the phase off those to come
  approve-IsLive :
      (k : ℕ) (s : SpiralState) (p : String) (payload : GateInterruptPayload)
      → IsLive phases k s
      → IsPaused gates s p payload
      → (1 ≤ k) × IsLive phases (k - 1) (overwrite (decision_update p s approve) s)
  unfolding has overwrite decision_update
  approve-IsLive k s p payload l at_gate =
      let kn : has (next_active_phase s) spiral_phases ≡ true = rw at_gate.routed at_gate.known in
      let (rest, r) = next-remaining s kn in
      let fewer = remaining-next s.phase_sequence s.completed_phases rest (next_active_phase s) r in
      let closed : has p s.completed_phases ≡ false =
        rw at_gate.routed at (next-not-completed s kn) in
      (
        omega (arith, l.left, ap length r),
        record {
          in_order = decide-InOrder phases s l.in_order handlers gates p payload approve at_gate;
          accepted = refl;
          left = rw (decision_completed p s approve closed) (
              subst
                (λ q. length (remaining (s.completed_phases ++ q ∷ []) s.phase_sequence) ≤ k - 1)
                at_gate.routed (rw fewer (omega (arith, l.left, ap length r))));
        },
      )

  -- the end of a sequence of phases of the spiral, without a reject
  all_completed :
      (s : SpiralState)
      → IsLive phases (length phases) s
      → next_active_phase s ≡ end_node
      → s.completed_phases ≡ remaining [] phases
  all_completed s l ends = elim (ended-remaining s proper ends) [
    | inl rejected ↦ absurd (cc (ap is_reject rejected, l.accepted))
    | inr nothing ↦
        sym (append-nil s.completed_phases)
        ∙ rw (rw l.in_order.sequence at nothing) at l.in_order.split
  ]
    where
      proper : has end_node s.phase_sequence ≡ false
      proper = elim (Bool-cases (has end_node s.phase_sequence)) [
        | inl h ↦ absurd (cc (known end_node (rw l.in_order.sequence at h), end_node-not-phase))
        | inr h ↦ h
      ]

  module _ (log : LogEvent → W → W) (approver : Approver W)
      (approves : (r : ApprovalRequest) (w : W) → (approver r w).0 ≡ ok approve)
      (roomy : length phases + 3 ≤ graph.recursion_limit) where
    resolve_gates_finishes :
        (k fuel : ℕ) (o : Outcome) (w : W)
        → k ≤ length phases
        → k ≤ fuel
        → Holds gates (IsLive phases k) o
        → ((x : Fault) → o ≢ failed x)
        → (s : SpiralState) × (w' : W) × (resolve_gates handlers gates graph log approver fuel o w
            ≡ some (finished s, w'))
          × IsLive phases (length phases) s
          × (next_active_phase s ≡ end_node)
    unfolding resolve_gates
    resolve_gates_finishes k fuel (finished s) w short enough h ne =
        (s, w, refl, IsLive-weaken phases k (length phases) s short h.0, h.1)
    resolve_gates_finishes k fuel (failed x) w short enough h ne = absurd (ne x refl)
    resolve_gates_finishes k zero (paused s p payload) w short enough h ne =
        absurd (omega (arith, (approve-IsLive k s p payload h.0 h.1).0))
    resolve_gates_finishes k (suc fuel) (paused s p payload) w short enough h ne =
        let (pos_k, live) = approve-IsLive k s p payload h.0 h.1 in
        let s' = overwrite (decision_update p s approve) s in
        let w' = (approver (request_of payload) w).1 in
        let next = graph.run (graph.recursion_limit - 1) s' w' in
        let (t, w'', e, l, ends) =
          resolve_gates_finishes (k - 1) fuel next.0 next.1 (omega (arith, short))
            (omega (arith, enough))
            (run-Holds handlers gates graph (IsLive phases (k - 1)) (step-IsLive (k - 1))
              (graph.recursion_limit - 1) s' w' live)
            (λ x.
              run-ne-failed handlers gates phases known quiet graph (k - 1)
                (graph.recursion_limit - 1) s' w' x live (omega (arith, short, roomy))) in
        (
          t,
          w'',
          resolve_gates-decided handlers gates graph log approver fuel s p payload w w' approve
                (λ i. (approves (request_of payload) w i, w')) h.1
              ∙ e,
          l,
          ends,
        )

    -- Under an approver that approves every gate, with handlers that raise nothing, phases of the
    -- spiral only and a recursion limit of at least the number of phases and three, a gated run
    -- finishes after at most as many rounds as there are phases, and it has completed every phase
    -- of the sequence, each once and in order.
    pub approved_run_completes :
        (fuel : ℕ) (project_id tier : String) (w : W)
        → length phases ≤ fuel
        → (s : SpiralState) × (w' : W) × (run_gated_project handlers gates graph log approver fuel
              project_id phases tier w
            ≡ some (finished s, w'))
          × (s.completed_phases ≡ remaining [] phases)
    unfolding run_gated_project
    approved_run_completes fuel project_id tier w enough =
        let s0 = initial_state project_id phases tier in
        let w0 = log (gated_project_started project_id phases) w in
        let start : IsLive phases (length phases) s0 = record {
          in_order = record { sequence = refl; split = refl };
          accepted = refl;
          left = length-remaining-le phases [];
        } in
        let first = graph.run graph.recursion_limit s0 w0 in
        let (s, w', e, l, ends) =
          resolve_gates_finishes (length phases) fuel first.0 first.1 (omega arith) enough
            (run-Holds handlers gates graph (IsLive phases (length phases))
              (step-IsLive (length phases)) graph.recursion_limit s0 w0 start)
            (λ x.
              run-ne-failed handlers gates phases known quiet graph (length phases)
                graph.recursion_limit s0 w0 x start (omega (arith, roomy))) in
        (
          s,
          log (gated_project_finished project_id s.completed_phases s.artifacts) w',
          ap (log_final log (λ t. gated_project_finished project_id t.completed_phases t.artifacts))
              e,
          all_completed s l ends,
        )
