-- ===== src/Spiral/Quiet.antt =====
-- Handlers of workflow/spiral.py that never raise.
use talisman_v.Prelude.{
  String, ◌≡◌, ◌≢◌, ◌⊎◌, inl, inr, refl, Bool-cases, Option, none, some, [], ◌∷◌, same, All,
}
use talisman_v.Prelude.Dict.{Dict, get}
use talisman_v.Spiral.State.{SpiralState}
use talisman_v.Spiral.Node.{Fault, Result, ok, err, PhaseHandler, record_phase_artifact}

-- A step that never raises.
abbrev pub Succeeds : {W A : Type 0} → (W → Result A × W) → Type 0
Succeeds {W} {A} m = (w : W) → (x : A) × (w' : W) × (m w ≡ (ok x, w'))

abbrev pub IsSteady : {W : Type 0} → PhaseHandler W → Type 0
IsSteady handler = (s : SpiralState) → Succeeds (handler s)

-- what all handlers have, the one that is called has
get-All :
    {W : Type 0} (P : PhaseHandler W → Type 0) (handlers : Dict (PhaseHandler W)) (p : String)
    → All (λ (e : String × PhaseHandler W). P e.1) handlers
    → (get handlers p ≡ none)
      ⊎ ((handler : PhaseHandler W) × (get handlers p ≡ some handler) × P handler)
unfolding get
get-All P [] p h = inl refl
get-All P ((q, handler) ∷ handlers) p (h, hs) = elim (Bool-cases (same q p)) [
  | inl e ↦ rw e (inr (handler, refl, h))
  | inr e ↦ rw e (get-All P handlers p hs)
]

module _ {W : Type 0} where
  called :
      (handlers : Dict (PhaseHandler W)) (handler : PhaseHandler W) (p : String) (s : SpiralState)
      (w w' w1 : W) (e : Fault) (x : Option String)
      → get handlers p ≡ some handler
      → handler s w ≡ (ok x, w1)
      → record_phase_artifact p s (some handlers) w ≢ (err e, w')
  unfolding record_phase_artifact
  called handlers handler p s w w' w1 e none g q = rw (g, q) (λ r. cc)
  called handlers handler p s w w' w1 e (some x) g q = rw (g, q) (λ r. cc)

  -- The node of a phase raises nothing if no handler does.
  pub quiet_handlers :
      (handlers : Dict (PhaseHandler W))
      → All (λ (e : String × PhaseHandler W). IsSteady e.1) handlers
      → (p : String) (s : SpiralState) (w w' : W) (e : Fault)
      → record_phase_artifact p s (some handlers) w ≢ (err e, w')
  unfolding record_phase_artifact
  quiet_handlers handlers steady p s w w' e = elim (get-All IsSteady handlers p steady) [
    | inl no_handler ↦ rw no_handler (λ r. cc)
    | inr (handler, g, h) ↦ let (x, w1, q) = h s w in called handlers handler p s w w' w1 e x g q
  ]

  -- The node of a phase leaves a part of the world alone if every handler does.
  pub keeping_handlers :
      {A : Type 0} (part : W → A) (handlers : Dict (PhaseHandler W))
      → All
          (λ (e : String × PhaseHandler W). (s : SpiralState) (w : W) → part (e.1 s w).1 ≡ part w)
          handlers
      → (p : String) (s : SpiralState) (w : W)
      → part (record_phase_artifact p s (some handlers) w).1 ≡ part w
  unfolding record_phase_artifact
  keeping_handlers part handlers keep p s w =
      elim (get-All (λ handler. (s : SpiralState) (w : W) → part (handler s w).1 ≡ part w) handlers
        p keep) [ inl no_handler ↦ rw no_handler refl | inr (handler, g, h) ↦ rw g (h s w) ]
