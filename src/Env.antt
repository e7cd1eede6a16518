-- ===== src/Env.antt =====
-- src/env: scoped changes of the process environment.
pub mod Validation
pub mod State
pub mod Restore
pub mod Invariant
pub mod Misuse
pub mod Scopes
pub mod Nesting
pub mod Threads
