-- ===== src/Scope.antt =====
-- internal/service/scope_service.go: the authorization gate.
mod Tests
pub mod Response
pub mod SharedInfra
pub mod AuthScan
pub mod Domain
pub mod Technique
pub mod Program
pub mod Gate
pub mod Verified
