-- ===== src/Units.antt =====
-- app/systemd_units.py: the two unit files, as lists of code points. `decimal` writes an integer.
pub mod Lines
pub mod Settings
use talisman_v.Prelude.{ℕ, String, Option, none, some, List, [], ◌∷◌, ◌++◌, map}
use talisman_v.Prelude.Int.{ℤ, pos}
use talisman_v.Prelude.Codes.{code_points}
use talisman_v.Prompts.{join, newline}

abbrev pub Text : Type 0
Text = List ℕ

pub record SystemdUnitConfig : Type 0 where
  pub gateway_unit_name : Text
  pub orchestrator_unit_name : Text
  pub working_directory : Text
  pub talisman_home : Text
  pub gateway_exec_start : Text
  pub orchestrator_exec_start : Text
  pub gateway_restart_sec : ℤ
  pub orchestrator_restart_sec : ℤ
  pub gateway_read_write_paths : List Text
  pub orchestrator_read_write_paths : List Text

-- `SystemdUnitConfig()`
unfoldable pub default_config : SystemdUnitConfig
default_config = record {
  gateway_unit_name = code_points "talisman-gateway.service";
  orchestrator_unit_name = code_points "talisman.service";
  working_directory = code_points "%h/TalisMan";
  talisman_home = code_points "%h/TalisMan";
  gateway_exec_start =
      code_points
        "%h/TalisMan/.venv-gateway/bin/uvicorn TalisMan_gateway:app --app-dir %h/TalisMan/src --host 127.0.0.1 --port 8787";
  orchestrator_exec_start =
      code_points
        "%h/TalisMan/.venv/bin/python -m talisman_core.main --serve --config %h/TalisMan/config/config.yaml";
  gateway_restart_sec = pos 5;
  orchestrator_restart_sec = pos 10;
  gateway_read_write_paths = code_points "%h/TalisMan/state" ∷ code_points "%h/TalisMan/logs" ∷ [];
  orchestrator_read_write_paths = code_points "%h/TalisMan" ∷ [];
}

-- `_resolve_config`
unfoldable pub resolve_config : Option SystemdUnitConfig → SystemdUnitConfig
unfolding default_config
resolve_config none = default_config
resolve_config (some config) = config

-- `_GATEWAY_SECRET_COMMENT`
abbrev gateway_secret_comment : String
gateway_secret_comment =
    "# Secrets are file-based and not committed to Git. For stronger hardening, migrate these to systemd LoadCredential."

module _ (decimal : ℤ → Text) where
  unfoldable pub gateway_lines : SystemdUnitConfig → List Text
  unfolding join
  gateway_lines resolved =
      code_points "[Unit]"
      ∷ code_points "Description=TalisMan host-side credential and budget gateway"
      ∷ code_points "After=network-online.target"
      ∷ code_points "Wants=network-online.target"
      ∷ []
      ∷ code_points "[Service]"
      ∷ code_points "Type=simple"
      ∷ (code_points "WorkingDirectory=" ++ resolved.working_directory)
      ∷ (code_points "ExecStart=" ++ resolved.gateway_exec_start)
      ∷ code_points "Restart=on-failure"
      ∷ (code_points "RestartSec=" ++ decimal resolved.gateway_restart_sec)
      ∷ (code_points "Environment=TALISMAN_HOME=" ++ resolved.talisman_home)
      ∷ []
      ∷ code_points gateway_secret_comment
      ∷ (code_points "ReadWritePaths=" ++ join (code_points " ") resolved.gateway_read_write_paths)
      ∷ code_points "NoNewPrivileges=true"
      ∷ code_points "PrivateTmp=true"
      ∷ []
      ∷ code_points "[Install]"
      ∷ code_points "WantedBy=default.target"
      ∷ []

  unfoldable pub orchestrator_lines : SystemdUnitConfig → List Text
  unfolding join
  orchestrator_lines resolved =
      code_points "[Unit]"
      ∷ code_points "Description=TalisMan orchestration service"
      ∷ (code_points "After=" ++ resolved.gateway_unit_name)
      ∷ (code_points "Wants=" ++ resolved.gateway_unit_name)
      ∷ []
      ∷ code_points "[Service]"
      ∷ code_points "Type=simple"
      ∷ (code_points "WorkingDirectory=" ++ resolved.working_directory)
      ∷ (code_points "ExecStart=" ++ resolved.orchestrator_exec_start)
      ∷ code_points "Restart=on-failure"
      ∷ (code_points "RestartSec=" ++ decimal resolved.orchestrator_restart_sec)
      ∷ code_points "Environment=PYTHONUNBUFFERED=1"
      ∷ []
      ∷ code_points "# Keep the service constrained to the TalisMan workspace."
      ∷ (code_points "ReadWritePaths="
          ++ join (code_points " ") resolved.orchestrator_read_write_paths)
      ∷ code_points "NoNewPrivileges=true"
      ∷ code_points "PrivateTmp=true"
      ∷ []
      ∷ code_points "[Install]"
      ∷ code_points "WantedBy=default.target"
      ∷ []

  -- `render_gateway_unit`
  unfoldable pub render_gateway_unit : Option SystemdUnitConfig → Text
  unfolding gateway_lines resolve_config
  render_gateway_unit config = join newline (gateway_lines (resolve_config config)) ++ newline

  -- `render_orchestrator_unit`
  unfoldable pub render_orchestrator_unit : Option SystemdUnitConfig → Text
  unfolding orchestrator_lines resolve_config
  render_orchestrator_unit config =
      join newline (orchestrator_lines (resolve_config config)) ++ newline

  pub record RenderedSystemdUnits : Type 0 where
    pub gateway_unit_name : Text
    pub gateway_unit : Text
    pub orchestrator_unit_name : Text
    pub orchestrator_unit : Text

  -- `render_systemd_units`
  unfoldable pub render_systemd_units : Option SystemdUnitConfig → RenderedSystemdUnits
  unfolding render_gateway_unit render_orchestrator_unit
  render_systemd_units config =
      let resolved = resolve_config config in
      record {
        gateway_unit_name = resolved.gateway_unit_name;
        gateway_unit = render_gateway_unit (some resolved);
        orchestrator_unit_name = resolved.orchestrator_unit_name;
        orchestrator_unit = render_orchestrator_unit (some resolved);
      }
