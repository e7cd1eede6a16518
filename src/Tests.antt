-- ===== src/Tests.antt =====
-- The theorems at concrete inputs.
mod Env
mod Extensions
mod Requests
mod PgWorker
mod WriteFile
mod Cluster
mod Prepare
mod Support
mod Cache
mod Claims
mod Startup
mod Shutdown
