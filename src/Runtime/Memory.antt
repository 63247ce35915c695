-- ===== src/Runtime/Memory.antt =====
-- A table in memory as a `Repository`, for concrete requests to the services.
pub mod Search
mod Sorting
pub mod Operations
mod Writes
pub mod Laws
