-- ===== src/LiveRun/Governed.antt =====
-- A whole live run of app/live_run.py.
use talisman_v.Prelude.{
  ℕ, ◌+◌, ◌≤◌, String, ◌≡◌, refl, ap, sym, ◌∙◌, true, false, Option, none, some, List, [], ◌∷◌, map,
  arith, has, same_refl, All, length,
}
use talisman_v.Prelude.Int.{ℤ}
use talisman_v.Prelude.Dict.{Dict, get, has-keys_iff_get}
use talisman_v.Prelude.Codes.{code_points}
use talisman_v.Spiral.State.{SpiralState, spiral_phases}
use talisman_v.Spiral.Node.{ok, PhaseHandler, run_phase}
use talisman_v.Spiral.Quiet.{Succeeds, IsSteady, quiet_handlers}
use talisman_v.Spiral.Runtime.{CompiledGraph}
use talisman_v.Spiral.Order.{remaining}
use talisman_v.Composition.{LogEvent}
use talisman_v.Prompts.{phase_tasks, with_task, build_phase_prompt, default_context_budget}
use talisman_v.Workers.{LiveWorkerConfig, build_command, containerized_runner}
use talisman_v.Workers.Adapters.{
  Act, on_ok, ◌>>=◌, pure, Worker, Disk, CommandRunner, WorkerFamily, build_containerized_worker,
  universal_newlines,
}
use talisman_v.ProjectRun.{ProjectSpec, ProjectRunResult, World, RunPorts}
use talisman_v.ProjectRun.EndToEnd.{default_run_completes}
use talisman_v.LiveRun.{
  prompt_text, prompt_path, live_handler, live_phase_handlers, run_live_project,
}
use talisman_v.LiveRun.Handler.{live_phase_in_container, invocation, by_command}

>>=-Succeeds :
    {W A B : Type 0} (m : Act W A) (f : A → Act W B)
    → Succeeds m
    → ((x : A) → Succeeds (f x))
    → Succeeds (m >>= f)
>>=-Succeeds m f h k w =
    let (x, w1, e) = h w in let (y, w2, e') = k x w1 in (y, w2, ap (on_ok f) e ∙ e')

pure-Succeeds : {W A : Type 0} (x : A) → Succeeds {W = W} (pure x)
pure-Succeeds x w = (x, w, refl)

has_task :
    (phase : String)
    → has phase spiral_phases ≡ true
    → (task : String) × (get phase_tasks phase ≡ some task)
unfolding phase_tasks
has_task phase h = found (get phase_tasks phase) (sym (has-keys_iff_get phase_tasks phase) ∙ h) refl
  where
    found :
        (task : Option String)
        → (elim task [ none ↦ false | some _ ↦ true ]) ≡ true
        → get phase_tasks phase ≡ task
        → (t : String) × (get phase_tasks phase ≡ some t)
    found (some task) k e = (task, e)
    found none k e = cc

-- the prompt of a known phase is built
prompt-Succeeds :
    {W : Type 0} (text : List ℕ → String) (phase : String) (goal : List ℕ) (priors : List (List ℕ))
    (budget : ℤ)
    → has phase spiral_phases ≡ true
    → Succeeds {W = W} (prompt_text text (build_phase_prompt phase goal priors budget))
unfolding build_phase_prompt
prompt-Succeeds {W} text phase goal priors budget known =
    let (task, e) = has_task phase known in by_task task (get phase_tasks phase) e
  where
    by_task :
        (task : String) (found : Option String)
        → found ≡ some task
        → Succeeds {W = W} (prompt_text text (with_task phase goal priors budget found))
    by_task task none e = absurd cc
    by_task task (some t) e = λ w. (_, w, refl)

module _ {W : Type 0} (disk : Disk W) (text : List ℕ → String) (decimal : ℤ → String)
    (port_text : ℕ → String) (sorted : Dict String → Dict String) (config : LiveWorkerConfig)
    (family : WorkerFamily) (host_runner : CommandRunner W)
    (writable : (path content : String) → Succeeds (disk.write_text path content))
    (steady : (args : List String) (cwd : String) (seconds : ℕ) (stdin_text : Option String)
      → Succeeds (host_runner args cwd seconds stdin_text))
    (goal workspace : String) where
  -- a known phase is worked
  phase-Succeeds :
      (phase : String) (state : SpiralState)
      → has phase spiral_phases ≡ true
      → Succeeds (
          live_handler disk text goal
            (build_containerized_worker disk decimal port_text sorted config family host_runner)
            workspace
            phase
            state)
  phase-Succeeds phase state known w =
      let (x, w', e) = steps w in
      (
        x,
        w',
        live_phase_in_container disk text decimal port_text sorted config family host_runner goal
              workspace phase state w
            ∙ e,
      )
    where
      steps : Succeeds (do
        prompt ← prompt_text text (
            build_phase_prompt phase
              (code_points goal)
              (map code_points state.artifacts)
              default_context_budget)
        _ ← disk.write_text (prompt_path workspace phase) prompt
        by_command disk
            (λ args.
              host_runner
                (build_command sorted (containerized_runner port_text config) args workspace))
            workspace
            phase
            state
            (invocation family (universal_newlines prompt)))
      steps =
          >>=-Succeeds _ _
            (prompt-Succeeds text phase (code_points goal) (map code_points state.artifacts)
              default_context_budget known)
            (λ prompt. >>=-Succeeds _ _ (writable _ prompt) (λ _.
              >>=-Succeeds _ _ (steady _ _ _ _)
                (λ c. >>=-Succeeds _ _ (writable _ c.stdout) (λ _. pure-Succeeds _))))

  abbrev live_worker : Worker W
  live_worker = build_containerized_worker disk decimal port_text sorted config family host_runner

  live-IsSteady :
      (phases : List String)
      → ((p : String) → has p phases ≡ true → has p spiral_phases ≡ true)
      → All
          (λ (e : String × PhaseHandler W). IsSteady e.1)
          (live_phase_handlers disk text goal live_worker workspace phases)
  unfolding live_phase_handlers has
  live-IsSteady [] known = tt
  live-IsSteady (p ∷ phases) known = (
    λ state. phase-Succeeds p state (known p (ground (arith, same_refl p))),
    live-IsSteady phases (λ q h. known q (ground (arith, h))),
  )

-- A live run on containerized workers, with the default approver: where every write to the disk and
-- every command of the host returns, with any exit code, the phases are known and the
-- recursion limit has room for them, the run returns a result, whose final state has completed the
-- phases of the project, each once and in order.
pub live_run_completes :
    {V : Type 0} (ports : RunPorts V) (disk : Disk (World V)) (text : List ℕ → String)
    (decimal : ℤ → String) (port_text : ℕ → String) (sorted : Dict String → Dict String)
    (config : LiveWorkerConfig) (family : WorkerFamily) (host_runner : CommandRunner (World V))
    (workspace : String) (spec : ProjectSpec)
    → ((path content : String) → Succeeds (disk.write_text path content))
    → ((args : List String) (cwd : String) (seconds : ℕ) (stdin_text : Option String)
        → Succeeds (host_runner args cwd seconds stdin_text))
    → ((p : String) → has p spec.phases ≡ true → has p spiral_phases ≡ true)
    → (graph : CompiledGraph (
        run_phase
          (some (
            live_phase_handlers disk text spec.goal
              (build_containerized_worker disk decimal port_text sorted config family host_runner)
              workspace
              spec.phases))
          spec.gate_phases))
      (log : LogEvent → World V → World V) (fuel : ℕ) (v : V)
    → length spec.phases + 3 ≤ graph.recursion_limit
    → length spec.phases ≤ fuel
    → (result : ProjectRunResult) × (w : World V) × (run_live_project ports disk text
          (build_containerized_worker disk decimal port_text sorted config family host_runner)
          workspace
          spec
          graph
          log
          fuel
          none
          v
        ≡ some (ok result, w))
      × (result.final_state.completed_phases ≡ remaining [] spec.phases)
unfolding run_live_project
live_run_completes ports disk text decimal port_text sorted config family host_runner workspace spec
      writable steady known graph log fuel v roomy enough =
    let (result, w, e, done, _, _) =
      default_run_completes ports _ spec.gate_phases graph log fuel spec v known
        (quiet_handlers _ (
          live-IsSteady disk text decimal port_text sorted config family host_runner writable steady
            spec.goal workspace spec.phases known))
        roomy enough in
    (result, w, e, done)
