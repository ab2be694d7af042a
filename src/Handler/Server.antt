-- ===== src/Handler/Server.antt =====
-- What the handlers hold: the world around the service, the cap on targets (none where it is not
-- enabled: its source of plans, which may be absent, and its limits), and the policy connectors.
use target_service.Prelude.{ℕ, Option}
use target_service.Text.{Str}
use target_service.Service.Cap.{MaxTargets}
use target_service.Service.Programs.{Connectors}
use target_service.Service.Env.{Env}

pub record CapConfig : Type 0 where
  pub plans : Option (ℕ → Str)
  pub limits : Option MaxTargets

pub record Server : Type 0 where
  pub env : Env
  pub cap : Option CapConfig
  pub connectors : Connectors
