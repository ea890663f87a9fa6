-- ===== src/Workers/Isolation.antt =====
-- What secrets can reach a worker.
use Prim.Native.Char.{Char, code}
use Prim.Native.String.{◌++◌ as text_append, [] as end, ◌∷◌ as char_then}
use text.Mathlib.TextLemmas.{nil-append, cons-append}
use mathlib.Core.Path.{◌∙◌}
use talisman_v.Prelude.Codes.{code_points, has_code}
use talisman_v.Prelude.{
  ◌==◌, All, Option, map, false, ℕ, String, ◌≡◌, refl, true, none, some, List, [], ◌∷◌, arith, has,
  same_iff, ap, if◌then◌else◌,
}
use talisman_v.Prelude.Dict.{Dict, get}
use talisman_v.Workers.{
  default_scrubbed_vars, scrub_environment, keyless_placeholder_key, LiveWorkerConfig,
  keyless_gateway_env, containerized_runner, build_command,
}
use talisman_v.Workers.Podman.{
  Container, podman_run, is_option, assignment, contained, podman_run-build_command,
}

-- A variable of a scrubbed environment has the value that it had, but for the secret names: they
-- have none, however often and wherever they stand in the environment.
pub get-scrub_environment :
    (base_env : Dict String) (secret_names : List String) (key : String)
    → get (scrub_environment base_env secret_names) key
      ≡ (if has key secret_names then none else get base_env key)
unfolding get scrub_environment
get-scrub_environment [] secret_names key = ground arith
get-scrub_environment ((k, value) ∷ base_env) secret_names key = ground (
  arith,
  get-scrub_environment base_env secret_names key,
  same_iff k key,
  ap (λ s. has s secret_names) {x = k} {y = key},
)

abbrev with_char : Char → Option (String × String) → Option (String × String)
with_char c none = none
with_char c (some (name, value)) = some (char_then c name, value)

-- A variable that podman sets for an assignment: the name before the first equals sign, and the
-- value after it; without one, podman hands on the value of the host.
unfoldable pub read_assignment : String → Option (String × String)
read_assignment end = none
read_assignment (char_then c s) =
    let rest = read_assignment s in if code c == 61 then some ("", s) else with_char c rest

abbrev HoldsOf : Option (String × String) → Type 0
HoldsOf none = ⊥
HoldsOf (some (name, value)) =
    has name default_scrubbed_vars ≡ true → value ≡ keyless_placeholder_key

-- An assignment of a value of its own, which is the placeholder where the host scrubs the name.
abbrev pub IsKeyless : String → Type 0
IsKeyless text = HoldsOf (read_assignment text)

read_assignment-assignment :
    (name value : String)
    → has_code 61 (code_points name) ≡ false
    → read_assignment (assignment (name, value)) ≡ some (name, value)
unfolding read_assignment has_code
read_assignment-assignment end value h =
    ap read_assignment (nil-append (text_append "=" value))
    ∙ ap read_assignment (cons-append _ "" value)
    ∙ ap (λ v. some ("", v)) (nil-append value)
read_assignment-assignment (char_then c name) value h =
    let other : (code c == 61) ≡ false = ground (arith, h) in
    ap read_assignment (cons-append c name (text_append "=" value))
    ∙ rw (other, read_assignment-assignment name value (ground (arith, h))) refl

IsKeyless-assignment :
    (name value : String)
    → has_code 61 (code_points name) ≡ false
    → (has name default_scrubbed_vars ≡ true → value ≡ keyless_placeholder_key)
    → IsKeyless (assignment (name, value))
IsKeyless-assignment name value h k = rw (read_assignment-assignment name value h) k

gateway-IsKeyless :
    (decimal : ℕ → String) (config : LiveWorkerConfig)
    → All (λ (e : String × String). IsKeyless (assignment e)) (keyless_gateway_env decimal config)
unfolding keyless_gateway_env has has_code
gateway-IsKeyless decimal config = (
  IsKeyless-assignment "ANTHROPIC_BASE_URL" _ refl (λ h. cc),
  (
    IsKeyless-assignment "OPENAI_BASE_URL" _ refl (λ h. cc),
    (
      IsKeyless-assignment "ANTHROPIC_API_KEY" _ refl (λ h. refl),
      (IsKeyless-assignment "OPENAI_API_KEY" _ refl (λ h. refl), tt),
    ),
  ),
)

All-assignments :
    (env : Dict String)
    → All (λ (e : String × String). IsKeyless (assignment e)) env
    → All IsKeyless (map assignment env)
All-assignments [] h = tt
All-assignments (e ∷ env) (h, hs) = (h, All-assignments env hs)

-- The command line with which a live worker's command is run, read as podman reads it, starts a
-- container of the configured network that inherits no proxy variable of the host, and all of whose
-- variables are set to a value on the line itself: one whose name the host scrubs, to the
-- placeholder. (Sorting the items of a dict adds none, and an image's name begins with no dash.)
pub container_holds_no_secret :
    (decimal : ℕ → String) (sorted : Dict String → Dict String)
    (sorted_among : (P : String × String → Type 0) (env : Dict String)
      → All P env
      → All P (sorted env))
    (config : LiveWorkerConfig) (args : List String) (workspace : String)
    → is_option config.image ≡ false
    → (container : Container) × (podman_run
          (build_command sorted (containerized_runner decimal config) args workspace)
        ≡ some container)
      × (container.network ≡ some config.network)
      × (container.http_proxy ≡ false)
      × All IsKeyless container.env
unfolding containerized_runner
container_holds_no_secret decimal sorted sorted_among config args workspace h =
    let runner = containerized_runner decimal config in
    (
      contained (sorted runner.env) runner args workspace,
      podman_run-build_command sorted runner args workspace refl h,
      refl,
      refl,
      All-assignments (sorted runner.env) (
          sorted_among (λ e. IsKeyless (assignment e)) runner.env
            (gateway-IsKeyless decimal config)),
    )
