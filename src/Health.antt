-- ===== src/Health.antt =====
-- observability/health.py: the health of the system from that of its components.
use talisman_v.Prelude.{
  ℕ, ◌≤◌, String, ◌≡◌, refl, ◌⊎◌, inl, List, [], ◌∷◌, map, arith, All, ltb, if◌then◌else◌,
}

pub data HealthState : Type 0 where
  healthy degraded down : HealthState

pub record ComponentHealth : Type 0 where
  pub name : String
  pub state : HealthState
  pub detail : String

pub record SystemHealth : Type 0 where
  pub overall : HealthState
  pub components : List ComponentHealth

-- `_SEVERITY`
abbrev pub severity_of : HealthState → ℕ
severity_of healthy = 0
severity_of degraded = 1
severity_of down = 2

-- the loop of `aggregate_health`
unfoldable pub worse : HealthState → List ComponentHealth → HealthState
worse overall [] = overall
worse overall (c ∷ cs) =
    worse (if ltb (severity_of overall) (severity_of c.state) then c.state else overall) cs

unfoldable pub aggregate_health : List ComponentHealth → SystemHealth
aggregate_health components = record { overall = worse healthy components; components = components }

-- `state.value`
abbrev pub state_value : HealthState → String
state_value healthy = "ok"
state_value degraded = "degraded"
state_value down = "down"

-- the dict of a component, and that of the system
pub record ComponentPayload : Type 0 where
  pub name : String
  pub status : String
  pub detail : String

pub record StatusPayload : Type 0 where
  pub status : String
  pub components : List ComponentPayload

-- `SystemHealth.to_dict`
unfoldable pub to_dict : SystemHealth → StatusPayload
to_dict self = record {
  status = state_value self.overall;
  components =
      map
        (λ (c : ComponentHealth). record {
          name = c.name;
          status = state_value c.state;
          detail = c.detail;
        })
        self.components;
}

-- Some component is in that state.
abbrev pub Occurs : HealthState → List ComponentHealth → Type 0
Occurs h [] = ⊥
Occurs h (c ∷ cs) = (c.state ≡ h) ⊎ Occurs h cs

worse-IsWorst :
    (h : HealthState) (cs : List ComponentHealth)
    → (severity_of h ≤ severity_of (worse h cs))
      × All (λ (c : ComponentHealth). severity_of c.state ≤ severity_of (worse h cs)) cs
      × ((worse h cs ≡ h) ⊎ Occurs (worse h cs) cs)
unfolding worse
worse-IsWorst h [] = (omega arith, tt, inl refl)
worse-IsWorst h (c ∷ cs) = ground (arith, worse-IsWorst h cs, worse-IsWorst c.state cs)

-- The overall state is that of the worst component: no component is in a worse state, and some
-- component is in that state, or it is `healthy`. The components are reported as they were given.
pub aggregate_worst :
    (cs : List ComponentHealth)
    → ((aggregate_health cs).components ≡ cs)
      × All
          (λ (c : ComponentHealth). severity_of c.state ≤ severity_of (aggregate_health cs).overall)
          cs
      × (((aggregate_health cs).overall ≡ healthy) ⊎ Occurs (aggregate_health cs).overall cs)
unfolding aggregate_health
aggregate_worst cs = let (_, all, some_) = worse-IsWorst healthy cs in (refl, all, some_)
