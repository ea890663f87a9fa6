-- ===== src/Spiral/Runtime.antt =====
-- LangGraph, which runs the spiral and is not part of the repository: an interface with the
-- documented behaviour of a compiled `StateGraph` with a checkpointer that the program relies on.
-- The nodes are the phases, the router stands behind `START` and behind every node, and a run
-- has a number of supersteps left (`recursion_limit` at each `invoke`).
use talisman_v.Prelude.{◌<◌, ℕ, zero, suc, String, ◌≡◌, ◌≢◌, true, false, Option, none, some, has}
use talisman_v.Spiral.State.{SpiralState, next_active_phase, end_node, spiral_phases}
use talisman_v.Spiral.Node.{
  Fault, key_error, recursion_error, Result, ok, err, GateInterruptPayload, SpiralUpdate,
  ResumeValue, NodeResult, update, raised, interrupt,
}

abbrev or_else {ℓ} : {A : Type ℓ} → Option A → A → A
or_else none old = old
or_else (some new) old = new

-- The keys that an update has replace those of the state: `SpiralState` declares no reducer.
unfoldable pub overwrite : SpiralUpdate → SpiralState → SpiralState
overwrite u s = record s {
  current_phase = u.current_phase;
  completed_phases = or_else u.completed_phases s.completed_phases;
  pending_gate_id = or_else u.pending_gate_id s.pending_gate_id;
  last_decision =
      or_else (elim u.last_decision [ none ↦ none | some d ↦ some (some d) ]) s.last_decision;
  artifacts = or_else u.artifacts s.artifacts;
}

-- What `invoke` comes back with: the final state, the checkpointed state with the interrupted
-- node and its payload, or an exception.
pub data Outcome : Type 0 where
  finished : SpiralState → Outcome
  paused : SpiralState → String → GateInterruptPayload → Outcome
  failed : Fault → Outcome

abbrev pub Node : Type 0 → Type 0
Node W = String → SpiralState → W → NodeResult × W

pub record CompiledGraph {W : Type 0} (node : Node W) : Type 0 where
  pub recursion_limit : ℕ
  pub limit_positive : 0 < recursion_limit
  -- `n` supersteps are left and the router is asked next
  pub run : ℕ → SpiralState → W → Outcome × W
  -- `Command(resume=v)` on a thread that is paused in a node, with `n` supersteps left
  pub resume : ℕ → SpiralState → String → ResumeValue → W → Outcome × W
  pub run_end :
      (n : ℕ) (s : SpiralState) (w : W)
      → next_active_phase s ≡ end_node
      → run n s w ≡ (finished s, w)
  pub run_limit :
      (s : SpiralState) (w : W)
      → has (next_active_phase s) spiral_phases ≡ true
      → run zero s w ≡ (failed recursion_error, w)
  pub run_unknown :
      (n : ℕ) (s : SpiralState) (w : W)
      → next_active_phase s ≢ end_node
      → has (next_active_phase s) spiral_phases ≡ false
      → run n s w ≡ (failed key_error, w)
  pub run_update :
      (n : ℕ) (s : SpiralState) (w w' : W) (u : SpiralUpdate)
      → has (next_active_phase s) spiral_phases ≡ true
      → node (next_active_phase s) s w ≡ (update u, w')
      → run (suc n) s w ≡ run n (overwrite u s) w'
  pub run_raised :
      (n : ℕ) (s : SpiralState) (w w' : W) (e : Fault)
      → has (next_active_phase s) spiral_phases ≡ true
      → node (next_active_phase s) s w ≡ (raised e, w')
      → run (suc n) s w ≡ (failed e, w')
  pub run_interrupt :
      (n : ℕ) (s : SpiralState) (w w' : W) (payload : GateInterruptPayload)
      (rest : ResumeValue → Result SpiralUpdate)
      → has (next_active_phase s) spiral_phases ≡ true
      → node (next_active_phase s) s w ≡ (interrupt payload rest, w')
      → run (suc n) s w ≡ (paused s (next_active_phase s) payload, w')
  -- the node runs again from its start, and `interrupt` returns the resume value
  pub resume_update :
      (n : ℕ) (s : SpiralState) (phase : String) (v : ResumeValue) (w w' : W)
      (payload : GateInterruptPayload) (rest : ResumeValue → Result SpiralUpdate) (u : SpiralUpdate)
      → node phase s w ≡ (interrupt payload rest, w')
      → rest v ≡ ok u
      → resume (suc n) s phase v w ≡ run n (overwrite u s) w'
  pub resume_raised :
      (n : ℕ) (s : SpiralState) (phase : String) (v : ResumeValue) (w w' : W)
      (payload : GateInterruptPayload) (rest : ResumeValue → Result SpiralUpdate) (e : Fault)
      → node phase s w ≡ (interrupt payload rest, w')
      → rest v ≡ err e
      → resume (suc n) s phase v w ≡ (failed e, w')
