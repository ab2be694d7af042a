-- ===== src/Service.antt =====
-- internal/service: ownership verification, the customer's and the administrator's operations.
mod Tests
pub mod Env
pub mod Token
pub mod Verification
pub mod Dto
pub mod Target
pub mod Admin
pub mod Programs
pub mod System
pub mod Cap
pub mod Assets
pub mod Listing
