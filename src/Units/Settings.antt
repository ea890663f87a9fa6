-- ===== src/Units/Settings.antt =====
-- The settings that systemd reads from the unit files of app/systemd_units.py.
use talisman_v.Prelude.{
  ℕ, ◌≡◌, refl, ap, ◌∙◌, Bool, false, ◌||◌, Option, List, [], ◌∷◌, ◌++◌, arith, ◌==◌, All,
  if◌then◌else◌,
}
use talisman_v.Prelude.Int.{ℤ}
use talisman_v.Prelude.Codes.{code_points, has_code}
use talisman_v.Prompts.{join}
use talisman_v.Units.{
  Text, SystemdUnitConfig, resolve_config, gateway_lines, orchestrator_lines, render_systemd_units,
}
use talisman_v.Units.Lines.{
  IsLine, IsPlain, read_lines, gateway_plain, orchestrator_plain, gateway_read, orchestrator_read,
}

-- whether a line ends with a backslash
unfoldable pub continues : Text → Bool
continues [] = false
continues (c ∷ []) = c == 92
continues (c ∷ d ∷ s) = continues (d ∷ s)

-- a line without its last character
abbrev without_last : Text → Text
without_last [] = []
without_last (c ∷ []) = []
without_last (c ∷ d ∷ s) = c ∷ without_last (d ∷ s)

abbrev onto_next : Text → List Text → List Text
onto_next line [] = without_last line ∷ []
onto_next line (next ∷ lines) = (without_last line ++ 32 ∷ next) ∷ lines

-- The lines of a unit file, where one that ends with a backslash goes on in the next.
unfoldable pub whole_lines : List Text → List Text
unfolding continues
whole_lines [] = []
whole_lines (line ∷ lines) =
    let rest = whole_lines lines in if continues line then onto_next line rest else line ∷ rest

-- A setting of a unit file.
pub record Setting : Type 0 where
  pub section : Text
  pub name : Text
  pub value : Text

-- the text before the first of a character, and the text after it
unfoldable pub before : ℕ → Text → Text
before mark [] = []
before mark (c ∷ s) = let rest = before mark s in if c == mark then [] else c ∷ rest

unfoldable pub after : ℕ → Text → Text
after mark [] = []
after mark (c ∷ s) = let rest = after mark s in if c == mark then s else rest

abbrev is_comment : ℕ → Bool
is_comment c = c == 35 || c == 59

-- The settings of the lines of a unit file, from a section on: empty lines and comments are passed
-- over, and a line in brackets starts a section.
unfoldable pub settings : Text → List Text → List Setting
unfolding before after
settings section [] = []
settings section ([] ∷ lines) = settings section lines
settings section ((c ∷ line) ∷ lines) =
    let here = settings section lines in
    let there = settings (before 93 line) lines in
    if c == 91
    then there
    else if is_comment c
    then here
    else record { section = section; name = before 61 (c ∷ line); value = after 61 (c ∷ line) }
      ∷ here

abbrev pub read_unit : Text → List Setting
read_unit text = settings [] (whole_lines (read_lines text))

abbrev set : Text → Text → Text → Setting
set section name value = record { section = section; name = name; value = value }

abbrev pub in_unit : Text → Text → Setting
in_unit = set (code_points "Unit")

abbrev pub in_service : Text → Text → Setting
in_service = set (code_points "Service")

abbrev pub in_install : Text → Text → Setting
in_install = set (code_points "Install")

continues-line : (line : Text) → IsLine line → continues line ≡ false
unfolding continues has_code
continues-line [] h = refl
continues-line (c ∷ []) h = ground (arith, h)
continues-line (c ∷ d ∷ s) h = continues-line (d ∷ s) (ground (arith, h))

whole_lines-plain : (lines : List Text) → All IsLine lines → whole_lines lines ≡ lines
unfolding whole_lines
whole_lines-plain [] h = refl
whole_lines-plain (line ∷ lines) (h, hs) =
    rw (continues-line line h, whole_lines-plain lines hs) refl

module _ (decimal : ℤ → Text) where
  -- What is meant by a configuration, for the gateway and for the orchestrator.
  unfoldable pub gateway_settings : SystemdUnitConfig → List Setting
  gateway_settings config =
      in_unit (code_points "Description")
        (code_points "TalisMan host-side credential and budget gateway")
      ∷ in_unit (code_points "After") (code_points "network-online.target")
      ∷ in_unit (code_points "Wants") (code_points "network-online.target")
      ∷ in_service (code_points "Type") (code_points "simple")
      ∷ in_service (code_points "WorkingDirectory") config.working_directory
      ∷ in_service (code_points "ExecStart") config.gateway_exec_start
      ∷ in_service (code_points "Restart") (code_points "on-failure")
      ∷ in_service (code_points "RestartSec") (decimal config.gateway_restart_sec)
      ∷ in_service (code_points "Environment")
          (code_points "TALISMAN_HOME=" ++ config.talisman_home)
      ∷ in_service (code_points "ReadWritePaths")
          (join (code_points " ") config.gateway_read_write_paths)
      ∷ in_service (code_points "NoNewPrivileges") (code_points "true")
      ∷ in_service (code_points "PrivateTmp") (code_points "true")
      ∷ in_install (code_points "WantedBy") (code_points "default.target")
      ∷ []

  unfoldable pub orchestrator_settings : (gateway : Text) → SystemdUnitConfig → List Setting
  orchestrator_settings gateway config =
      in_unit (code_points "Description") (code_points "TalisMan orchestration service")
      ∷ in_unit (code_points "After") gateway
      ∷ in_unit (code_points "Wants") gateway
      ∷ in_service (code_points "Type") (code_points "simple")
      ∷ in_service (code_points "WorkingDirectory") config.working_directory
      ∷ in_service (code_points "ExecStart") config.orchestrator_exec_start
      ∷ in_service (code_points "Restart") (code_points "on-failure")
      ∷ in_service (code_points "RestartSec") (decimal config.orchestrator_restart_sec)
      ∷ in_service (code_points "Environment") (code_points "PYTHONUNBUFFERED=1")
      ∷ in_service (code_points "ReadWritePaths")
          (join (code_points " ") config.orchestrator_read_write_paths)
      ∷ in_service (code_points "NoNewPrivileges") (code_points "true")
      ∷ in_service (code_points "PrivateTmp") (code_points "true")
      ∷ in_install (code_points "WantedBy") (code_points "default.target")
      ∷ []

  gateway_lines-settings :
      (config : SystemdUnitConfig)
      → settings [] (gateway_lines decimal config) ≡ gateway_settings config
  unfolding gateway_lines gateway_settings settings
  gateway_lines-settings config = refl

  orchestrator_lines-settings :
      (config : SystemdUnitConfig)
      → settings [] (orchestrator_lines decimal config)
        ≡ orchestrator_settings config.gateway_unit_name config
  unfolding orchestrator_lines orchestrator_settings settings
  orchestrator_lines-settings config = refl

  -- Both unit files of a configuration whose texts hold no line end and no backslash are read as
  -- the settings that are meant, each in its section with the value of the configuration, and as
  -- no others; the orchestrator comes after, and wants, the very unit that the gateway is rendered
  -- as. (The texts of the integers hold no line end and no backslash.)
  pub rendered_settings :
      (config : Option SystemdUnitConfig)
      → ((n : ℤ) → IsLine (decimal n))
      → IsPlain (resolve_config config)
      → (read_unit (render_systemd_units decimal config).gateway_unit
          ≡ gateway_settings (resolve_config config))
        × (read_unit (render_systemd_units decimal config).orchestrator_unit
            ≡ orchestrator_settings
                (render_systemd_units decimal config).gateway_unit_name
                (resolve_config config))
  unfolding render_systemd_units
  rendered_settings config d p = (
    ap (λ lines. settings [] (whole_lines lines)) (gateway_read decimal (resolve_config config) d p)
        ∙ ap (settings []) (
            whole_lines-plain (gateway_lines decimal (resolve_config config))
              (gateway_plain decimal (resolve_config config) d p))
        ∙ gateway_lines-settings (resolve_config config),
    ap (λ lines. settings [] (whole_lines lines))
          (orchestrator_read decimal (resolve_config config) d p)
        ∙ ap (settings []) (
            whole_lines-plain (orchestrator_lines decimal (resolve_config config))
              (orchestrator_plain decimal (resolve_config config) d p))
        ∙ orchestrator_lines-settings (resolve_config config),
  )
