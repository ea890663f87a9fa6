-- ===== src/Incident.antt =====
-- observability/incident.py: the dump that is written when a run halts.
--
-- A path is its text. `mkdir` and `write_text` are functions over a world and may raise an
-- `OSError`; the time, written in its two formats, and the random suffix are handed in.
pub mod Slug
use talisman_v.Prelude.{
  ℕ, zero, suc, ◌+◌, ◌-◌, String, Bool, true, false, not, ◌||◌, List, [], ◌∷◌, ◌++◌, map, take,
  length, ◌==◌, if◌then◌else◌,
}
use talisman_v.Prelude.Raises.{Raises, returns, raises}
use talisman_v.Prelude.Codes.{code_points, strip_left, strip_right}
use talisman_v.Prelude.Replace.{sub_from}
use talisman_v.Prompts.{join, newline}
use talisman_v.Redaction.{is_alphanumeric, run_length, drop, redact_secrets}

abbrev pub max_log_lines : ℕ
max_log_lines = 50

-- `[A-Za-z0-9._-]`, and `._-`
abbrev pub is_safe : ℕ → Bool
is_safe c = is_alphanumeric c || (c == 46 || (c == 95 || c == 45))

abbrev pub is_edge : ℕ → Bool
is_edge c = c == 46 || (c == 95 || c == 45)

abbrev pub or_project : List ℕ → List ℕ
or_project [] = code_points "project"
or_project (c ∷ s) = c ∷ s

-- the matches of `[^A-Za-z0-9._-]+`
abbrev unsafe_run : List ℕ → ℕ
unsafe_run = run_length (λ (c : ℕ). not (is_safe c))

-- `_safe_slug`
unfoldable pub safe_slug : List ℕ → List ℕ
unfolding sub_from strip_left strip_right run_length
safe_slug project_id = or_project (
    take 64 (
      strip_right is_edge
        (strip_left is_edge (sub_from unsafe_run (code_points "_") zero project_id))))

-- `logs[-_MAX_LOG_LINES:]`
unfoldable pub last_lines : List (List ℕ) → List (List ℕ)
last_lines logs = drop_lines (length logs - max_log_lines) logs
  where
    drop_lines : ℕ → List (List ℕ) → List (List ℕ)
    drop_lines zero lines = lines
    drop_lines (suc n) [] = []
    drop_lines (suc n) (line ∷ lines) = drop_lines n lines

-- What the dump is told, beside the project: the phases, the reason and the captured lines.
pub record Incident : Type 0 where
  pub project_id : List ℕ
  pub phases : List (List ℕ)
  pub reason : List ℕ
  pub logs : List (List ℕ)

-- What it reads from the outside.
pub record Surroundings : Type 0 where
  pub is_digit : ℕ → Bool
  pub secret_values : List (List ℕ)
  pub isoformat : List ℕ
  pub stamp : List ℕ
  pub suffix : List ℕ

abbrev pub listed : List (List ℕ) → List ℕ
listed [] = code_points "(none)"
listed (item ∷ items) = join (code_points ", ") (item ∷ items)

abbrev pub bullets : List (List ℕ) → List (List ℕ)
bullets [] = code_points "- (none captured)" ∷ []
bullets (line ∷ lines) = map (λ (l : List ℕ). code_points "- " ++ l) (line ∷ lines)

module _ (around : Surroundings) where
  abbrev pub safe : List ℕ → List ℕ
  safe text = redact_secrets around.is_digit text around.secret_values

  unfoldable pub dump_lines : Incident → List (List ℕ)
  unfolding last_lines join
  dump_lines incident =
      (code_points "# Incident dump — " ++ incident.project_id)
      ∷ []
      ∷ (code_points "- Time (UTC): " ++ around.isoformat)
      ∷ (code_points "- Reason: " ++ safe incident.reason)
      ∷ (code_points "- Phases: " ++ listed incident.phases)
      ∷ []
      ∷ code_points "## Recent log lines"
      ∷ bullets (map safe (last_lines incident.logs))

  unfoldable pub dump_name : List ℕ → List ℕ
  unfolding safe_slug
  dump_name project_id =
      code_points "incident-"
      ++ (safe_slug project_id
          ++ (code_points "-"
              ++ (around.stamp ++ (code_points "-" ++ (around.suffix ++ code_points ".md")))))

  pub record FileSystem (W : Type 0) : Type 0 where
    pub mkdir : List ℕ → W → Raises String (Unit {0}) × W
    pub write_text : List ℕ → List ℕ → W → Raises String (Unit {0}) × W

  abbrev after_write :
      {W : Type 0} → List ℕ → Raises String (Unit {0}) × W → Raises String (List ℕ) × W
  after_write path (returns _, w) = (returns path, w)
  after_write path (raises e, w) = (raises e, w)

  abbrev after_mkdir :
      {W : Type 0}
      → FileSystem W
      → List ℕ
      → Incident
      → Raises String (Unit {0}) × W
      → Raises String (List ℕ) × W
  after_mkdir fs directory incident (raises e, w) = (raises e, w)
  after_mkdir fs directory incident (returns _, w) =
      let path = directory ++ code_points "/" ++ dump_name incident.project_id in
      after_write path (fs.write_text path (join newline (dump_lines incident) ++ newline) w)

  -- `write_incident_dump`
  unfoldable pub write_incident_dump :
      {W : Type 0} → FileSystem W → List ℕ → Incident → W → Raises String (List ℕ) × W
  unfolding dump_lines dump_name join
  write_incident_dump fs directory incident w =
      after_mkdir fs directory incident (fs.mkdir directory w)
