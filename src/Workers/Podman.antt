-- ===== src/Workers/Podman.antt =====
-- The command line of `podman run`, as podman reads it, and what workers/_container.py writes.
--
-- The options are those that the module uses; a word with a dash that is none of them is not read.
use Prim.Native.Char.{code}
use Prim.Native.String.{◌++◌ as text_append, [] as end, ◌∷◌ as char_then}
use talisman_v.Prelude.{
  String, ◌≡◌, refl, ap, ◌∙◌, Bool, true, false, not, ◌&&◌, Option, none, some, List, [], ◌∷◌, ◌++◌,
  map, append-nil, has, same, ◌==◌, if◌then◌else◌,
}
use talisman_v.Prelude.Dict.{Dict}
use talisman_v.Workers.{ContainerRunner, env_flags, build_command}

-- A container that `podman run` starts: its network, whether it inherits the proxy variables of
-- the host, its assignments of variables, its volumes and working directory, its image, and the
-- command in it.
pub record Container : Type 0 where
  pub network : Option String
  pub http_proxy : Bool
  pub env : List String
  pub volumes : List String
  pub workdir : Option String
  pub image : String
  pub command : List String

unfoldable pub is_option : String → Bool
is_option end = false
is_option (char_then c s) = code c == 45

-- the image and the command, with the defaults of the options
abbrev pub plain : String → List String → Container
plain image command = record {
  network = none;
  http_proxy = true;
  env = [];
  volumes = [];
  workdir = none;
  image = image;
  command = command;
}

abbrev pub with_option : (Container → Container) → Option Container → Option Container
with_option f none = none
with_option f (some c) = some (f c)

abbrev pub with_env : List String → Container → Container
with_env assignments c = record c { env = assignments ++ c.env }

-- the words after `podman run`: options up to the image, then the command
unfoldable pub run_options : List String → Option Container
unfolding is_option
run_options [] = none
run_options (word ∷ []) = if is_option word then none else some (plain word [])
run_options (word ∷ next ∷ rest) =
    let after_word = run_options (next ∷ rest) in
    let after_value = run_options rest in
    if not (is_option word)
    then some (plain word (next ∷ rest))
    else if same word "--env"
    then with_option (with_env (next ∷ [])) after_value
    else if same word "--network"
    then with_option (λ c. record c { network = some next }) after_value
    else if same word "--volume"
    then with_option (λ c. record c { volumes = next ∷ c.volumes }) after_value
    else if same word "--workdir"
    then with_option (λ c. record c { workdir = some next }) after_value
    else if same word "--http-proxy=false"
    then with_option (λ c. record c { http_proxy = false }) after_word
    else if has word ("--rm" ∷ "--init" ∷ "--userns=keep-id" ∷ "--interactive" ∷ [])
    then after_word
    else none

-- A whole command line.
unfoldable pub podman_run : List String → Option Container
unfolding run_options
podman_run (podman ∷ run ∷ words) =
    let read = run_options words in if same podman "podman" && same run "run" then read else none
podman_run _ = none

abbrev pub assignment : String × String → String
assignment (key, value) = text_append key (text_append "=" value)

run_options-env :
    (env : Dict String) (words : List String)
    → run_options (env_flags env ++ words)
      ≡ with_option (with_env (map assignment env)) (run_options words)
unfolding run_options env_flags is_option has
run_options-env [] words = by_rest (run_options words)
  where
    by_rest : (o : Option Container) → o ≡ with_option (with_env []) o
    by_rest none = refl
    by_rest (some c) = refl
run_options-env ((key, value) ∷ env) words =
    ap (with_option (with_env (assignment (key, value) ∷ []))) (run_options-env env words)
    ∙ by_rest (run_options words)
  where
    by_rest :
        (o : Option Container)
        → with_option
            (with_env (assignment (key, value) ∷ []))
            (with_option (with_env (map assignment env)) o)
          ≡ with_option (with_env (assignment (key, value) ∷ map assignment env)) o
    by_rest none = refl
    by_rest (some c) = refl

-- the container that a runner's command line is to start
abbrev pub contained : Dict String → ContainerRunner → List String → String → Container
contained env self args workspace = record {
  network = some self.network;
  http_proxy = false;
  env = map assignment env;
  volumes = text_append workspace (text_append ":" (text_append workspace ":Z")) ∷ [];
  workdir = some workspace;
  image = self.image;
  command = args;
}

run_options-image :
    (image : String) (args : List String)
    → is_option image ≡ false
    → run_options (image ∷ args) ≡ some (plain image args)
unfolding run_options
run_options-image image [] h = rw h refl
run_options-image image (arg ∷ args) h = rw h refl

-- the words of `build_command` after the assignments
abbrev placed : ContainerRunner → List String → String → List String
placed self args workspace =
    "--volume"
    ∷ text_append workspace (text_append ":" (text_append workspace ":Z"))
    ∷ "--workdir"
    ∷ workspace
    ∷ "--interactive"
    ∷ self.image
    ∷ args

run_options-placed :
    (self : ContainerRunner) (args : List String) (workspace : String)
    → is_option self.image ≡ false
    → run_options (placed self args workspace)
      ≡ some (record (plain self.image args) {
        volumes = text_append workspace (text_append ":" (text_append workspace ":Z")) ∷ [];
        workdir = some workspace;
      })
unfolding run_options is_option has
run_options-placed self args workspace h =
    ap
      (λ o.
        with_option
          (λ c. record c {
            volumes =
                text_append workspace (text_append ":" (text_append workspace ":Z")) ∷ c.volumes;
          })
          (with_option (λ c. record c { workdir = some workspace }) o))
      (run_options-image self.image args h)

pub podman_run-build_command :
    (sorted : Dict String → Dict String) (self : ContainerRunner) (args : List String)
    (workspace : String)
    → self.podman ≡ "podman"
    → is_option self.image ≡ false
    → podman_run (build_command sorted self args workspace)
      ≡ some (contained (sorted self.env) self args workspace)
unfolding podman_run build_command run_options is_option has
podman_run-build_command sorted self args workspace named h = rw named (
    ap
      (λ o.
        with_option (λ c. record c { http_proxy = false })
          (with_option (λ c. record c { network = some self.network }) o))
      (run_options-env (sorted self.env) (placed self args workspace)
        ∙ ap (with_option (with_env (map assignment (sorted self.env))))
            (run_options-placed self args workspace h))
    ∙ ap (λ env. some (record (contained (sorted self.env) self args workspace) { env = env }))
        (append-nil (map assignment (sorted self.env))))
