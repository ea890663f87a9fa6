-- ===== src/Service/Dispatch.antt =====
-- When main.py makes a live run, which spends.
use talisman_v.Prelude.{ℕ, String, ◌≡◌, ◌⊎◌, inl, inr, refl, false, Option, none, some}
use talisman_v.Spiral.Node.{Result}
use talisman_v.ProjectRun.{ProjectRunResult}
use talisman_v.Service.{MainPorts, Args, LiveArgs, given, live_args, main}

no_workspace : (args : Args) (goal : Option String) → live_args args goal none ≡ none
no_workspace args none = refl
no_workspace args (some goal) = refl

missing :
    (args : Args)
    → (args.goal ≡ none)
      ⊎ (args.workspace ≡ none)
      ⊎ (args.goal ≡ some "")
      ⊎ (args.workspace ≡ some "")
    → live_args args (given args.goal) (given args.workspace) ≡ none
missing args (inl h) = rw h refl
missing args (inr (inl h)) = rw h (no_workspace args (given args.goal))
missing args (inr (inr (inl h))) = rw h refl
missing args (inr (inr (inr h))) = rw h (no_workspace args (given args.goal))

-- Without the flag for a live project, or without a goal or a workspace for it, or with an empty
-- one, the entry point does the same whatever a live run would do: none is made.
pub no_live_run_unasked :
    {W : Type 0} (ports : MainPorts W)
    (run_live : LiveArgs → W → Option (Result ProjectRunResult × W)) (fuel : ℕ) (args : Args)
    (w : W)
    → (args.live_project ≡ false)
      ⊎ (args.goal ≡ none)
      ⊎ (args.workspace ≡ none)
      ⊎ (args.goal ≡ some "")
      ⊎ (args.workspace ≡ some "")
    → main (record ports { run_live = run_live }) fuel args w ≡ main ports fuel args w
unfolding main
no_live_run_unasked ports run_live fuel args w (inl h) = rw h refl
no_live_run_unasked ports run_live fuel args w (inr h) = rw (missing args h) refl
