-- ===== src/Lib.antt =====
-- A verification of pg-embed-setup-unpriv, a Rust crate that downloads, installs, starts and cleans
-- up PostgreSQL clusters for tests, without privileges or on behalf of root.
--
-- The crate prepares a cluster under a scoped process environment, takes the server's binaries from a
-- cache or a download, installs the extensions that were asked for, starts the server, and removes
-- what it made. Many test processes do this side by side from one install tree, and each has a data
-- directory of its own, a slot.
--
-- What models which part:
-- - Env.State, Env.Validation: src/env/state/mod.rs and validation.rs. The world is one thread's
--   state with the process environment. Env.Invariant, Env.Restore, Env.Misuse and Env.Nesting are
--   about one call or a few; Env.Scopes is about all calls of one thread, and Env.Threads about all
--   interleavings of the calls of several threads that share the environment and the mutex.
-- - Extensions.Name, Extensions.Layout, Extensions.Digest: src/extensions/name.rs, layout.rs and
--   digest.rs. Extensions.Manifest: src/extensions/manifest/mod.rs and select.rs.
-- - Extensions.Install: src/extensions/install.rs and write.rs. Extensions.Install.Plan is about the
--   first pass over an archive, Extensions.Install.Write and Extensions.Install.Complete about the
--   second, and Extensions.Install.Whole about both. There the write of one file is an answer;
--   Extensions.WriteFile is that write, in write.rs and tree.rs.
-- - Extensions.Config: src/extensions/config.rs and manifest/source.rs. Extensions.Http,
--   Extensions.Archive: src/extensions/http.rs and archive.rs. Extensions.Pipeline:
--   src/extensions/mod.rs and manifest/fetch.rs, which load the manifest, select from it, acquire each
--   archive and install it.
-- - Startup: src/cluster/startup.rs, startup_watch.rs, startup_setup_only.rs, setup_lock.rs and
--   extension_hook.rs. Startup.Lifecycle and Startup.Hook are the synchronous start, Startup.Twins the
--   asynchronous one; Startup.Discipline is about what is done under the setup lock, and
--   Startup.Equivalence (with Startup.Agreement) about the two beside each other. It uses Cache.Use,
--   Installation and Worker, which is src/cluster/worker_operation.rs and worker_invoker/. Bootstrap:
--   the settings of src/bootstrap/mod.rs. Fallible: chains of calls that change a state and may fail.
-- - Shutdown: src/cluster/shutdown.rs, guard.rs and `stop_async` of async_api.rs.
-- - ShutdownHook: src/cluster/shutdown_hook/, the registration of the process-exit hook as steps of
--   several threads; ShutdownHook.Registration is about these. ShutdownHook.Exit: what the hook does,
--   with Process and Waiting for its parts.
-- - Claims: the claim of src/bootstrap/prepare/cluster_slot/mod.rs and the cleanup of
--   src/cluster/cleanup.rs as steps of several processes under the claim guard; Claims.Spec is what
--   they promise, Claims.Probe, Claims.Safety and Claims.Refinement are why they keep it.
-- - Slots: the sweep of src/bootstrap/prepare/cluster_slot/mod.rs with removal.rs, and
--   src/bootstrap/prepare/orphan.rs. Cleanup: src/cluster/cleanup.rs with src/cleanup_helpers.rs and
--   the look for live peers; Cleanup.Paths: paths as the standard library splits them on Unix.
-- - Cache: src/cache/operations/ and src/cluster/cache_integration.rs, with Cache.Populate
--   (and Cache.Merging), Cache.Lookup and Cache.Use for the filling of an entry, the lookup and its use by a start.
-- - Retry: src/test_support/bootstrap_retry/mod.rs. Template: src/cluster/lifecycle_template/mod.rs.
--   Installation: the selection of src/cluster/installation.rs; Installation.Port: its polling of
--   postmaster.pid.
-- - Singleton: src/test_support/shared_singleton_core.rs. Output: src/worker_process/output.rs.
-- - Prepare: src/bootstrap/prepare/mod.rs, layout.rs, root.rs and unix_user.rs, with Prepare.Layout for
--   what is chosen, Prepare.Directories for the effects and Prepare.Flows for their order.
--   Prepare.Password: password.rs and stale_password.rs there. Prepare.Resolution, Prepare.Choice and
--   Prepare.Runs are about their parts, Prepare.Laws about the whole.
-- - PgWorker: src/bin/pg_worker.rs and pg_worker/cleanup.rs.
-- - Error: src/error.rs. Prelude: what the modules share. Tests: the theorems at concrete inputs.
--
-- Texts and paths are their bytes or components, integers are natural numbers with the source's
-- limits and saturation written out, and a method on `&mut self` that may panic keeps what it wrote
-- before the panic. The functions keep the source's names; the body of a loop or of a match is a
-- function of its own where the source has none.
--
-- Fuel: the loop of `retry_transient` has one unit for each attempt and one more, and the wait of the
-- shutdown hook one for each millisecond of its timeout and one more, while each round takes 50. The
-- poll of the port counts its ten attempts down, a download its three, and the search for
-- a free name of a temporary file its sixteen. Every other function recurses on a list or counts down.
--
-- Not modelled: what other crates and the operating system do, which is a parameter or an answer (the
-- gzip, tar and JSON readers, hashes, versions, URLs, locks, processes and files), and logs and
-- metrics. Cache locks, the rest of the configuration, the processes of workers, the watcher
-- of a slot's owner, Windows, the walk that changes owners, and SQL are left out.
pub mod Prelude
pub mod Error
pub mod Bootstrap
pub mod Cache
pub mod Claims
pub mod Cleanup
pub mod Env
pub mod Extensions
pub mod Fallible
pub mod Installation
pub mod Output
pub mod PgWorker
pub mod Prepare
pub mod Retry
pub mod Shutdown
pub mod ShutdownHook
pub mod Singleton
pub mod Slots
pub mod Startup
pub mod Template
pub mod Tests
pub mod Worker
