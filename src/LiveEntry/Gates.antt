-- ===== src/LiveEntry/Gates.antt =====
-- The human gates of app/live_entrypoint.py.
use talisman_v.Prelude.{ℕ, String, ◌≡◌, true, false, Option, some, List, has}
use talisman_v.Prelude.Int.{ℤ}
use talisman_v.Prelude.Dict.{Dict}
use talisman_v.Spiral.Node.{ok, PhaseHandler, run_phase}
use talisman_v.Spiral.Runtime.{CompiledGraph}
use talisman_v.Composition.{LogEvent}
use talisman_v.ProjectRun.{ProjectRunResult, World, RunPorts}
use talisman_v.ProjectRun.Gated.{Withholds, project_gate_needs_approval}
use talisman_v.Telegram.{TelegramApprover}
use talisman_v.Workers.Adapters.{◌>>=◌, Disk, CommandRunner}
use talisman_v.LiveRun.{run_live_project}
use talisman_v.LiveEntry.{
  default_gate_phases, LiveRunConfig, build_live_spec, EntryPorts, build_live_approver,
  run_approver, run_live,
}

module _ {V R : Type 0} (entry : EntryPorts V R) (ports : RunPorts V) (disk : Disk (World V))
    (text : List ℕ → String) (decimal : ℤ → String) (port_text : ℕ → String)
    (sorted : Dict String → Dict String) (host_runner : CommandRunner (World V))
    (compile : (handlers : Option (Dict (PhaseHandler (World V)))) (gates : List String)
      → CompiledGraph (run_phase handlers gates))
    (log : LogEvent → World V → World V) where
  -- The live run of the operator: where the Telegram approver of the secret files never approves
  -- the gate of `slice_approval` or of `implementation`, a run that returns has not completed that
  -- phase, whatever the workers and the host do.
  pub live_gate_holds :
      (fuel : ℕ) (config : LiveRunConfig) (v v' : V) (phase : String)
      (approver : TelegramApprover (World V)) (result : ProjectRunResult) (w : World V)
      → has phase default_gate_phases ≡ true
      → (do _ ← entry.mkdir config.workspace; build_live_approver entry config.secrets_dir) v
        ≡ (ok approver, v')
      → Withholds config.project_id phase (entry.block approver)
      → run_live entry ports disk text decimal port_text sorted host_runner compile log fuel config
          v
        ≡ some (ok result, w)
      → has phase result.final_state.completed_phases ≡ false
  unfolding run_live build_live_spec run_live_project
  live_gate_holds fuel config v v' phase approver result w gated built never e =
      project_gate_needs_approval ports _ default_gate_phases (compile _ _) log fuel
        (build_live_spec config) (run_approver entry approver) phase false v' result w gated never
        (rw built at e)
