-- ===== src/Config.antt =====
-- The environment that each process validates before it starts, and what it configures from it.
pub mod EnvValidation
pub mod Schemas
pub mod Wiring
pub mod Instance
pub mod Accepted
pub mod Started
pub mod Services
pub mod Deployment
pub mod CommandLine
pub mod DataSources
