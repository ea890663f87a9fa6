-- ===== src/Spiral/Order.antt =====
-- The order in which the router of workflow/spiral.py hands out phases.
use talisman_v.Prelude.{
  ◌≤◌, String, ◌≡◌, refl, true, false, List, [], ◌∷◌, ◌++◌, arith, same_iff, has, has-append,
  length, if◌then◌else◌,
}
use talisman_v.Spiral.State.{
  SpiralState, first_uncompleted, next_active_phase, end_node, spiral_phases, is_reject,
}

-- The phases of a sequence that are still to come once `seen` are done: each once, where it
-- first stands.
unfoldable pub remaining : List String → List String → List String
remaining seen [] = []
remaining seen (phase ∷ phases) =
    if has phase seen then remaining seen phases else phase ∷ remaining (seen ++ phase ∷ []) phases

abbrev pub head_or_end : List String → String
head_or_end [] = end_node
head_or_end (phase ∷ _) = phase

pub first_uncompleted-remaining :
    (phases completed : List String)
    → first_uncompleted phases completed ≡ head_or_end (remaining completed phases)
unfolding first_uncompleted remaining
first_uncompleted-remaining [] completed = refl
first_uncompleted-remaining (p ∷ ps) completed =
    ground (arith, first_uncompleted-remaining ps completed)

-- Once the first of the remaining phases is done the others remain.
pub remaining-next :
    (phases seen rest : List String) (phase : String)
    → remaining seen phases ≡ phase ∷ rest
    → remaining (seen ++ phase ∷ []) phases ≡ rest
unfolding remaining has
remaining-next [] seen rest phase h = cc
remaining-next (p ∷ ps) seen rest phase h =
    ground
      (arith, remaining-next ps seen rest phase, has-append p seen (phase ∷ []), same_iff p phase)

pub length-remaining-le :
    (phases seen : List String) → length (remaining seen phases) ≤ length phases
unfolding remaining
length-remaining-le [] seen = omega arith
length-remaining-le (p ∷ ps) seen =
    ground (arith, length-remaining-le ps seen, length-remaining-le ps (seen ++ p ∷ []))

-- What remains is in the sequence and is not done.
pub has-remaining :
    (phases seen : List String) (phase : String)
    → has phase (remaining seen phases) ≡ true
    → (has phase phases ≡ true) × (has phase seen ≡ false)
unfolding remaining has
has-remaining [] seen phase h = cc
has-remaining (p ∷ ps) seen phase h = ground (
  arith,
  has-remaining ps seen phase,
  has-remaining ps (seen ++ p ∷ []) phase,
  has-append phase seen (p ∷ []),
  same_iff phase p,
)

-- A phase of the sequence is done or remains.
pub has-done_or_remaining :
    (phases seen : List String) (phase : String)
    → has phase phases ≡ true
    → has phase (seen ++ remaining seen phases) ≡ true
unfolding remaining has
has-done_or_remaining [] seen phase h = cc
has-done_or_remaining (p ∷ ps) seen phase h = ground (
  arith,
  has-done_or_remaining ps seen phase,
  has-done_or_remaining ps (seen ++ p ∷ []) phase,
  has-append phase seen (remaining seen ps),
  has-append phase seen (p ∷ remaining (seen ++ p ∷ []) ps),
  has-append phase (seen ++ p ∷ []) (remaining (seen ++ p ∷ []) ps),
  has-append phase seen (p ∷ []),
  same_iff phase p,
)

-- The router: nothing after a reject, else the first of the remaining phases.
pub next_active_phase_lem :
    (s : SpiralState)
    → next_active_phase s ≡ (
        if is_reject s.last_decision
        then end_node
        else head_or_end (remaining s.completed_phases s.phase_sequence))
unfolding next_active_phase
next_active_phase_lem s = rw first_uncompleted-remaining refl

pub end_node-not-phase : has end_node spiral_phases ≡ false
unfolding has
end_node-not-phase = refl

-- Where the router names a phase of the graph, that phase is the first of the remaining ones.
pub next-remaining :
    (s : SpiralState)
    → has (next_active_phase s) spiral_phases ≡ true
    → (rest : List String) × (remaining s.completed_phases s.phase_sequence
        ≡ next_active_phase s ∷ rest)
next-remaining s h = go (remaining s.completed_phases s.phase_sequence) refl
  where
    go :
        (l : List String)
        → remaining s.completed_phases s.phase_sequence ≡ l
        → (rest : List String) × (remaining s.completed_phases s.phase_sequence
            ≡ next_active_phase s ∷ rest)
    go [] e = ground (arith, next_active_phase_lem s, end_node-not-phase)
    go (p ∷ ps) e = (ps, ground (arith, next_active_phase_lem s, end_node-not-phase))
