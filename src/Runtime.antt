-- ===== src/Runtime.antt =====
-- What the TypeScript code uses of its runtime: JavaScript values, promises that are awaited one
-- step at a time, and the exceptions of the frameworks.
pub mod Value
pub mod Async
pub mod Exceptions
pub mod Repository
pub mod Columns
pub mod Validation
pub mod Memory
