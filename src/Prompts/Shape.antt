-- ===== src/Prompts/Shape.antt =====
-- The parts of a prompt of policies/phase_prompts.py, in their order.
use talisman_v.Prelude.{
  ℕ, ◌≤◌, String, ◌≡◌, ◌⊎◌, inl, inr, refl, ap, ◌∙◌, false, Option, none, some, List, [], ◌∷◌, ◌++◌,
  append_assoc, append-nil, arith, length, length-take-le,
}
use mathlib.Core.List.{reverse}
use talisman_v.Prelude.Int.{ℤ, pos_part}
use talisman_v.Prelude.Dict.{get}
use talisman_v.Prelude.Raises.{Raises, returns, raises}
use talisman_v.Prelude.Codes.{code_points}
use talisman_v.Prelude.Replace.{contains}
use talisman_v.Prompts.{
  phase_tasks, newline, join, opening, warning, footer, fenced, bounded_context, fence_open,
  fence_close, neutralise_fences, PromptError, value_error, build_phase_prompt,
}
use talisman_v.Prompts.Fence.{neutralised_holds_no_fence, length-neutralise_fences}

-- Lines, each with its newline.
unfoldable pub terminated : List (List ℕ) → List ℕ
terminated [] = []
terminated (line ∷ lines) = line ++ newline ++ terminated lines

join-terminated :
    (line : List ℕ) (lines : List (List ℕ))
    → join newline (line ∷ lines) ++ newline ≡ terminated (line ∷ lines)
unfolding join terminated
join-terminated line [] = simp (append-nil)
join-terminated line (next ∷ lines) = simp (append_assoc, join-terminated next lines)

terminated-append : (xs ys : List (List ℕ)) → terminated (xs ++ ys) ≡ terminated xs ++ terminated ys
unfolding terminated
terminated-append [] ys = refl
terminated-append (x ∷ xs) ys = simp (terminated-append xs ys, append_assoc)

opening_line :
    (phase : String) (goal : List ℕ) (task : String)
    → (line : List ℕ) × (rest : List (List ℕ)) × (opening phase goal task ≡ line ∷ rest)
unfolding opening
opening_line phase goal task = (_, _, refl)

joined :
    (phase : String) (goal : List ℕ) (task : String) (context : List ℕ)
    → join newline (opening phase goal task ++ fenced context ++ footer phase) ++ newline
      ≡ terminated (opening phase goal task)
        ++ terminated (fenced context)
        ++ terminated (footer phase)
joined phase goal task context =
    let (line, rest, e) = opening_line phase goal task in
    by_opening (opening phase goal task) line rest e
  where
    by_opening :
        (lines : List (List ℕ)) (line : List ℕ) (rest : List (List ℕ))
        → lines ≡ line ∷ rest
        → join newline (lines ++ fenced context ++ footer phase) ++ newline
          ≡ terminated lines ++ terminated (fenced context) ++ terminated (footer phase)
    by_opening lines line rest e = rw e (
        join-terminated line (rest ++ fenced context ++ footer phase)
        ∙ terminated-append ((line ∷ rest) ++ fenced context) (footer phase)
        ∙ ap (λ t. t ++ terminated (footer phase))
            (terminated-append (line ∷ rest) (fenced context)))

pub length-bounded_context :
    (priors : List (List ℕ)) (budget : ℤ) → length (bounded_context priors budget) ≤ pos_part budget
unfolding bounded_context
length-bounded_context priors budget =
    ground (arith, length-take-le (pos_part budget) (join (code_points "\n\n") (reverse priors)))

-- The block between the opening and the footer: nothing, or one text between the fences, which is
-- no longer than the budget and holds no fence.
abbrev pub IsBlock : ℤ → List ℕ → Type 0
IsBlock budget block =
    (block ≡ [])
    ⊎ ((context : List ℕ) × (block
          ≡ terminated (warning ++ fence_open ∷ context ∷ fence_close ∷ []))
        × (length context ≤ pos_part budget)
        × (contains fence_open context ≡ false)
        × (contains fence_close context ≡ false))

fenced-IsBlock :
    (budget : ℤ) (context : List ℕ)
    → length context ≤ pos_part budget
    → IsBlock budget (terminated (fenced context))
unfolding fenced
fenced-IsBlock budget [] h = inl (unfold terminated in refl)
fenced-IsBlock budget (c ∷ context) h =
    let (no_open, no_close) = neutralised_holds_no_fence (c ∷ context) in
    inr (
      neutralise_fences (c ∷ context),
      refl,
      omega (arith, h, length-neutralise_fences (c ∷ context)),
      no_open,
      no_close,
    )

abbrev pub IsPrompt : String → List ℕ → ℤ → Raises PromptError (List ℕ) → Option String → Type 0
IsPrompt phase goal budget built none = built ≡ raises (value_error phase)
IsPrompt phase goal budget built (some task) =
    (block : List ℕ) × (built
      ≡ returns (terminated (opening phase goal task) ++ block ++ terminated (footer phase)))
    × IsBlock budget block

-- The prompt of a phase with a task: an opening and a footer that the earlier artifacts do not
-- change, and between them at most one block of untrusted text, which is no longer than the budget
-- and holds neither fence. A phase with no task raises an error.
pub build_phase_prompt_lem :
    (phase : String) (goal : List ℕ) (priors : List (List ℕ)) (budget : ℤ)
    → IsPrompt phase goal budget
        (build_phase_prompt phase goal priors budget)
        (get phase_tasks phase)
build_phase_prompt_lem phase goal priors budget = by_task (get phase_tasks phase) refl
  where
    by_task :
        (t : Option String)
        → get phase_tasks phase ≡ t
        → IsPrompt phase goal budget (build_phase_prompt phase goal priors budget) t
    by_task none e = unfold build_phase_prompt in rw e refl
    by_task (some task) e = (
      terminated (fenced (bounded_context priors budget)),
      unfold build_phase_prompt in
          rw e (ap returns (joined phase goal task (bounded_context priors budget))),
      fenced-IsBlock budget (bounded_context priors budget) (length-bounded_context priors budget),
    )
