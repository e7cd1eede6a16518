-- ===== src/Startup/Lifecycle.antt =====
-- src/cluster/startup.rs and startup_setup_only.rs: the synchronous lifecycle.
use pg_embed_setup_unpriv.Prelude.{ℕ, Bool, true, false, Option, none, some}
use pg_embed_setup_unpriv.Error.{Result, ok, err}
use pg_embed_setup_unpriv.Retry.{BootstrapError, note_cached_binaries}
use pg_embed_setup_unpriv.Fallible.{pure, ◌>>=◌, ◌>>◌}
use pg_embed_setup_unpriv.Installation.{ExecutionPrivileges, root, unprivileged}
use pg_embed_setup_unpriv.Installation.Port.{refresh_worker_port}
use pg_embed_setup_unpriv.Cache.Use.{Settings}
use pg_embed_setup_unpriv.Worker.{WorkerOperation, invoke_as_root, invoke}
use pg_embed_setup_unpriv.Startup.{
  LifecycleStep, setup, start, worker_operation, Machine, World, Run, InstallLock, held, run,
  logged, scoped, install_root, acquire_at, after_cache_lookup, look_in_cache,
  watch_for_owner_death, release_owner_watcher,
}
use pg_embed_setup_unpriv.Startup.Hook.{PostSetup, run_post_setup}

-- `bootstrap` is the machine's; the handle holds the settings that it reports.
pub record StartupOutcome (V : Type 0) : Type 0 where
  pub postgres : Option (Settings V)
  pub is_managed_via_worker : Bool

module _ {V : Type 0} (world : World V) where
  unfoldable pub running : WorkerOperation → Machine V → Machine V
  running operation s = logged (run operation s.bootstrap.settings.trust_installation_dir) s

  unfoldable pub invoke_root_operation : LifecycleStep → Run V (Unit {0})
  invoke_root_operation step s = (
    invoke_as_root world.workers s.bootstrap (worker_operation step),
    running (worker_operation step) s,
  )

  unfoldable pub invoke_unprivileged_operation : Settings V → LifecycleStep → Run V (Unit {0})
  invoke_unprivileged_operation embedded step s = (
    invoke world.workers s.bootstrap (worker_operation step)
        (world.future (worker_operation step) embedded),
    running (worker_operation step) s,
  )

  unfoldable pub with_port : Result BootstrapError (Unit {0}) × ℕ → Run V (Unit {0})
  with_port (r, port) s = (r, record s { bootstrap = record s.bootstrap { port = port } })

  unfoldable pub refresh_port : Run V (Unit {0})
  refresh_port s =
      with_port (refresh_worker_port world.read_pid s.bootstrap.privileges s.bootstrap.port) s

  unfoldable pub run_lifecycle_steps :
      PostSetup → (LifecycleStep → Run V (Unit {0})) → Run V (Unit {0})
  run_lifecycle_steps post dispatch =
      dispatch setup >> run_post_setup world post >> dispatch start >> refresh_port

  unfoldable pub invoke_lifecycle_root : PostSetup → Run V (Unit {0})
  invoke_lifecycle_root post = run_lifecycle_steps post invoke_root_operation

  unfoldable pub invoke_lifecycle : PostSetup → Settings V → Run V (Unit {0})
  invoke_lifecycle post embedded = run_lifecycle_steps post (invoke_unprivileged_operation embedded)

  unfoldable pub prepare_postgres_handle : Bool → Settings V → Run V (Option (Settings V))
  prepare_postgres_handle true embedded s = (ok none, s)
  prepare_postgres_handle false embedded s =
      let settings = world.reported embedded in
      (ok (some settings), record s { bootstrap = record s.bootstrap { settings = settings } })

  unfoldable pub lifecycle_as :
      ExecutionPrivileges → Settings V → PostSetup → Run V (StartupOutcome V)
  lifecycle_as root embedded post =
      invoke_lifecycle_root post >> pure (record { postgres = none; is_managed_via_worker = true })
  lifecycle_as unprivileged embedded post =
      invoke_lifecycle post embedded >> prepare_postgres_handle false embedded >>= λ handle.
      pure (record { postgres = handle; is_managed_via_worker = false })

  unfoldable pub handle_privilege_lifecycle : PostSetup → Run V (StartupOutcome V)
  handle_privilege_lifecycle post s =
      lifecycle_as s.bootstrap.privileges s.bootstrap.settings post s

  -- `inspect_err` and `map_err` of the lifecycle's result.
  unfoldable pub after_lifecycle :
      Bool
      → Result BootstrapError (StartupOutcome V) × Machine V
      → Result BootstrapError (StartupOutcome V) × Machine V
  after_lifecycle cache_hit (ok outcome, s) = (ok outcome, s)
  after_lifecycle cache_hit (err e, s) = (
    err (note_cached_binaries cache_hit (world.version_text s.bootstrap.settings.version) e),
    release_owner_watcher world s,
  )

  unfoldable pub lifecycle_after_lookup : Bool → InstallLock → Run V (StartupOutcome V)
  lifecycle_after_lookup cache_hit install_lock s =
      after_lifecycle cache_hit (
        handle_privilege_lifecycle (record { cache_hit = cache_hit; install_lock = install_lock })
          s)

  unfoldable pub start_postgres : Run V (StartupOutcome V)
  start_postgres = install_root world >>= λ install_root.
      acquire_at world install_root
      >> scoped (
          look_in_cache world >>= λ cache_hit.
          after_cache_lookup world cache_hit install_root >>= λ install_lock.
          watch_for_owner_death world >> lifecycle_after_lookup cache_hit install_lock)

  unfoldable pub setup_as : ExecutionPrivileges → Settings V → Run V (Unit {0})
  setup_as root embedded = invoke_root_operation setup
  setup_as unprivileged embedded = invoke_unprivileged_operation embedded setup

  unfoldable pub setup_with_privileges : Run V (Unit {0})
  setup_with_privileges s = setup_as s.bootstrap.privileges s.bootstrap.settings s

  -- `setup_lifecycle`: the lock is held to the end.
  unfoldable pub setup_lifecycle : Run V (Unit {0})
  setup_lifecycle = install_root world >>= λ install_root.
      acquire_at world install_root
      >> scoped (
          look_in_cache world >>= λ cache_hit.
          setup_with_privileges
          >> run_post_setup world (record { cache_hit = cache_hit; install_lock = held }))
