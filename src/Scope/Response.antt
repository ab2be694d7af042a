-- ===== src/Scope/Response.antt =====
-- ScopeCheckResponse (internal/model/target.go) and its two makers (internal/service/
-- scope_service.go). A reason is one constructor for each message, with the values that it prints, but
-- for the description of a denied address by the dial guard.
use target_service.Prelude.{ℕ, Bool, true, false, List, []}
use target_service.Text.{Str}
use target_service.Store.{Error}
use target_service.Net.{Ip}
use target_service.Model.{TargetStatus, ProgramStatus, Time}

pub data Reason : Type 0 where
  host_or_ip_required : Reason
  target_not_found : Error → Reason
  unrecognized_phase : Str → Reason
  skip_unverified skip_attestation : Reason
  status_not_verified : TargetStatus → Reason
  no_active_authorization : Reason
  invalid_ip denied_ip shared_infra_ip ip_targets_unsupported : Str → Reason
  -- the host, and the error of the resolver
  host_denied host_unresolved : Str → Str → Reason
  host_shared_infra : Str → Ip → Reason
  in_domain_scope : Str → Str → ℕ → Reason
  in_ip_scope : Str → Str → ℕ → Reason
  matches_ip_scope : Str → ℕ → Reason
  outside_scope : ℕ → Reason
  policy_missing : Reason
  program_inactive : Str → Str → ProgramStatus → Reason
  policy_stale : Str → Str → Time → Time → Reason
  excluded_asset : Str → Str → Str → Reason
  no_asset automation_forbidden : Str → Str → Reason
  phase_prohibited : Str → Str → Str → Str → Reason
  program_allowed : Str → Str → Str → Reason

pub record ScopeCheckResponse : Type 0 where
  pub authorized : Bool
  pub reason : Reason
  pub allowed_ips : List Ip

unfoldable pub deny_result : Reason → ScopeCheckResponse
deny_result reason = record { authorized = false; reason = reason; allowed_ips = [] }

unfoldable pub allow_result : Reason → ScopeCheckResponse
allow_result reason = record { authorized = true; reason = reason; allowed_ips = [] }
