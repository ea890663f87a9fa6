-- ===== src/Workers.antt =====
-- security/credentials.py, app/live_workers.py and workers/_container.py: the environment that a
-- worker gets, on the host and in its container.
--
-- `decimal` writes a port. `sorted` on the items of a dict with distinct keys sorts by the keys;
-- it is a parameter, like the directory that `str` names.
pub mod Adapters
pub mod Podman
pub mod Isolation
use Prim.Native.String.{◌++◌ as text_append}
use talisman_v.Prelude.{ℕ, String, Bool, true, false, List, [], ◌∷◌, ◌++◌, has, if◌then◌else◌}
use talisman_v.Prelude.Dict.{Dict}

-- `DEFAULT_SCRUBBED_VARS`
abbrev pub default_scrubbed_vars : List String
default_scrubbed_vars =
    "ANTHROPIC_API_KEY" ∷ "OPENAI_API_KEY" ∷ "AWS_ACCESS_KEY_ID" ∷ "AWS_SECRET_ACCESS_KEY"
    ∷ "GITHUB_TOKEN" ∷ []

-- `scrub_environment`
unfoldable pub scrub_environment : Dict String → List String → Dict String
unfolding has
scrub_environment [] secret_names = []
scrub_environment ((key, value) ∷ base_env) secret_names =
    let rest = scrub_environment base_env secret_names in
    if has key secret_names then rest else (key, value) ∷ rest

-- `KEYLESS_PLACEHOLDER_KEY`
abbrev pub keyless_placeholder_key : String
keyless_placeholder_key = "placeholder-gateway-injects-the-real-key"

pub record LiveWorkerConfig : Type 0 where
  pub image : String
  pub network : String
  pub gateway_host : String
  pub anthropic_port : ℕ
  pub openai_port : ℕ

abbrev gateway_url : (ℕ → String) → LiveWorkerConfig → ℕ → String
gateway_url decimal config port =
    text_append "http://" (text_append config.gateway_host (text_append ":" (decimal port)))

-- `keyless_gateway_env`
unfoldable pub keyless_gateway_env : (ℕ → String) → LiveWorkerConfig → Dict String
keyless_gateway_env decimal config =
    ("ANTHROPIC_BASE_URL", gateway_url decimal config config.anthropic_port)
    ∷ ("OPENAI_BASE_URL", gateway_url decimal config config.openai_port)
    ∷ ("ANTHROPIC_API_KEY", keyless_placeholder_key)
    ∷ ("OPENAI_API_KEY", keyless_placeholder_key)
    ∷ []

-- `ContainerRunner`, without the runner of the host
pub record ContainerRunner : Type 0 where
  pub image : String
  pub network : String
  pub env : Dict String
  pub podman : String

-- the loop over the sorted items
unfoldable pub env_flags : Dict String → List String
env_flags [] = []
env_flags ((key, value) ∷ env) = "--env" ∷ text_append key (text_append "=" value) ∷ env_flags env

-- `build_command`
unfoldable pub build_command :
    (Dict String → Dict String) → ContainerRunner → List String → String → List String
unfolding env_flags
build_command sorted self args workspace =
    self.podman
      ∷ "run"
      ∷ "--rm"
      ∷ "--init"
      ∷ "--userns=keep-id"
      ∷ "--http-proxy=false"
      ∷ "--network"
      ∷ self.network
      ∷ env_flags (sorted self.env)
    ++ "--volume"
      ∷ text_append workspace (text_append ":" (text_append workspace ":Z"))
      ∷ "--workdir"
      ∷ workspace
      ∷ "--interactive"
      ∷ self.image
      ∷ args

-- `containerized_runner`, with the default `podman`
unfoldable pub containerized_runner : (ℕ → String) → LiveWorkerConfig → ContainerRunner
unfolding keyless_gateway_env
containerized_runner decimal config = record {
  image = config.image;
  network = config.network;
  env = keyless_gateway_env decimal config;
  podman = "podman";
}
