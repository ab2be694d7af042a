-- ===== src/Tools.antt =====
-- The free tools: the graders of internal/service that work on what has been fetched.
mod Tests
pub mod Grade
pub mod Headers
pub mod Hostname
pub mod Checker
pub mod Website
pub mod Tls
pub mod Email
