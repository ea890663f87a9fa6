-- ===== src/Units/Lines.antt =====
-- The lines of the unit files of app/systemd_units.py.
use talisman_v.Prelude.{
  ℕ, ◌≡◌, refl, false, ◌||◌, List, [], ◌∷◌, ◌++◌, arith, ◌==◌, All, ap, append_assoc, ◌∙◌,
  if◌then◌else◌,
}
use talisman_v.Prelude.Int.{ℤ}
use talisman_v.Prelude.Codes.{code_points, has_code}
use talisman_v.Prompts.{join, newline}
use talisman_v.Units.{Text, SystemdUnitConfig, gateway_lines, orchestrator_lines}

-- A text with no line end and no backslash, which goes on to the next line at the end of one.
abbrev pub IsLine : Text → Type 0
IsLine line = has_code 10 line || has_code 92 line ≡ false

-- a line that begins with a character
abbrev onto_first : ℕ → List Text → List Text
onto_first c [] = (c ∷ []) ∷ []
onto_first c (line ∷ lines) = (c ∷ line) ∷ lines

-- What a reader of a file takes for its lines: the texts between its line ends.
unfoldable pub read_lines : Text → List Text
read_lines [] = []
read_lines (c ∷ s) = let rest = read_lines s in if c == 10 then [] ∷ rest else onto_first c rest

read_lines-line : (line s : Text) → IsLine line → read_lines (line ++ 10 ∷ s) ≡ line ∷ read_lines s
unfolding read_lines has_code
read_lines-line [] s h = refl
read_lines-line (c ∷ line) s h =
    let (other, plain) = tail h in
    ground (arith, other, ap (onto_first c) (read_lines-line line s plain))
  where
    tail : IsLine (c ∷ line) → ((10 == c) ≡ false) × IsLine line
    tail h =
        let h' : (10 == c || has_code 10 line) || (92 == c || has_code 92 line) ≡ false =
          unfold has_code in h in
        (ground (arith, h'), ground (arith, h'))

-- lines that are joined and ended are read
read_lines-join :
    (line : Text) (lines : List Text)
    → All IsLine (line ∷ lines)
    → read_lines (join newline (line ∷ lines) ++ newline) ≡ line ∷ lines
unfolding join
read_lines-join line [] (h, hs) = read_lines-line line [] h ∙ ap (λ r. line ∷ r) nothing
  where
    nothing : read_lines [] ≡ []
    nothing = unfold read_lines in refl
read_lines-join line (next ∷ lines) (h, hs) =
    ap read_lines (
      append_assoc (line ++ newline) (join newline (next ∷ lines)) newline
      ∙ append_assoc line newline (join newline (next ∷ lines) ++ newline))
    ∙ read_lines-line line (join newline (next ∷ lines) ++ newline) h
    ∙ ap (λ r. line ∷ r) (read_lines-join next lines hs)

IsLine-append : (s t : Text) → IsLine s → IsLine t → IsLine (s ++ t)
unfolding has_code
IsLine-append [] t h k = k
IsLine-append (c ∷ s) t h k =
    let rest : IsLine (s ++ t) = IsLine-append s t (ground (arith, h)) k in ground (arith, h, rest)

IsLine-join : (lines : List Text) → All IsLine lines → IsLine (join (code_points " ") lines)
unfolding join has_code
IsLine-join [] h = refl
IsLine-join (line ∷ []) (h, hs) = h
IsLine-join (line ∷ next ∷ lines) (h, hs) =
    IsLine-append (line ++ code_points " ") (join (code_points " ") (next ∷ lines))
      (IsLine-append line (code_points " ") h refl) (IsLine-join (next ∷ lines) hs)

-- A configuration whose texts hold no line end and no backslash.
pub record IsPlain (config : SystemdUnitConfig) : Type 0 where
  pub gateway_name : IsLine config.gateway_unit_name
  pub directory : IsLine config.working_directory
  pub home : IsLine config.talisman_home
  pub gateway_exec : IsLine config.gateway_exec_start
  pub orchestrator_exec : IsLine config.orchestrator_exec_start
  pub gateway_paths : All IsLine config.gateway_read_write_paths
  pub orchestrator_paths : All IsLine config.orchestrator_read_write_paths

module _ (decimal : ℤ → Text) (config : SystemdUnitConfig) (d : (n : ℤ) → IsLine (decimal n))
    (p : IsPlain config) where
  pub gateway_plain : All IsLine (gateway_lines decimal config)
  unfolding gateway_lines has_code
  gateway_plain = (
    refl,
    (
      refl,
      (
        refl,
        (
          refl,
          (
            refl,
            (
              refl,
              (
                refl,
                (
                  p.directory,
                  (
                    p.gateway_exec,
                    (
                      refl,
                      (
                        d config.gateway_restart_sec,
                        (
                          p.home,
                          (
                            refl,
                            (
                              refl,
                              (
                                IsLine-join config.gateway_read_write_paths p.gateway_paths,
                                (refl, (refl, (refl, (refl, (refl, tt))))),
                              ),
                            ),
                          ),
                        ),
                      ),
                    ),
                  ),
                ),
              ),
            ),
          ),
        ),
      ),
    ),
  )

  pub orchestrator_plain : All IsLine (orchestrator_lines decimal config)
  unfolding orchestrator_lines has_code
  orchestrator_plain = (
    refl,
    (
      refl,
      (
        p.gateway_name,
        (
          p.gateway_name,
          (
            refl,
            (
              refl,
              (
                refl,
                (
                  p.directory,
                  (
                    p.orchestrator_exec,
                    (
                      refl,
                      (
                        d config.orchestrator_restart_sec,
                        (
                          refl,
                          (
                            refl,
                            (
                              refl,
                              (
                                IsLine-join config.orchestrator_read_write_paths
                                    p.orchestrator_paths,
                                (refl, (refl, (refl, (refl, (refl, tt))))),
                              ),
                            ),
                          ),
                        ),
                      ),
                    ),
                  ),
                ),
              ),
            ),
          ),
        ),
      ),
    ),
  )

  pub gateway_read :
      read_lines (join newline (gateway_lines decimal config) ++ newline)
      ≡ gateway_lines decimal config
  gateway_read = unfold gateway_lines in read_lines-join _ _ (unfold gateway_lines in gateway_plain)

  pub orchestrator_read :
      read_lines (join newline (orchestrator_lines decimal config) ++ newline)
      ≡ orchestrator_lines decimal config
  orchestrator_read =
      unfold orchestrator_lines in
      read_lines-join _ _ (unfold orchestrator_lines in orchestrator_plain)
