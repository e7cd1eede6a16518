-- ===== src/Startup/Twins.antt =====
-- src/cluster/startup.rs and extension_hook.rs: the asynchronous lifecycle. Its awaits are where
-- another task may run; what it does to this start's state is the same sequence.
use pg_embed_setup_unpriv.Prelude.{Bool, true, false, Option, none, some}
use pg_embed_setup_unpriv.Prelude.Texts.{Text}
use pg_embed_setup_unpriv.Error.{Result, ok, err}
use pg_embed_setup_unpriv.Retry.{BootstrapError}
use pg_embed_setup_unpriv.Fallible.{pure, ◌>>=◌, ◌>>◌}
use pg_embed_setup_unpriv.Installation.{ExecutionPrivileges, root, unprivileged}
use pg_embed_setup_unpriv.Cache.Use.{Settings}
use pg_embed_setup_unpriv.Bootstrap.{ExtensionRequest}
use pg_embed_setup_unpriv.Worker.{invoke_async}
use pg_embed_setup_unpriv.Startup.{
  LifecycleStep, setup, start, worker_operation, Machine, World, Run, InstallLock, held, released,
  scoped, install_root, acquire_at, after_cache_lookup, look_in_cache, watch_for_owner_death,
  release_owner_watcher,
}
use pg_embed_setup_unpriv.Startup.Hook.{
  PostSetup, refresh_dir, populate_cache_on_miss, extension_target, install_into,
}
use pg_embed_setup_unpriv.Startup.Lifecycle.{
  StartupOutcome, running, refresh_port, prepare_postgres_handle,
}

module _ {V : Type 0} (world : World V) where
  unfoldable pub for_hook_async : {A : Type 0} → InstallLock → Run V A → Run V A
  for_hook_async held body = body
  for_hook_async (released install_root) body = acquire_at world install_root >> scoped body

  unfoldable pub install_declared_async :
      PostSetup → Option (ExtensionRequest × Text) → Run V (Unit {0})
  install_declared_async post none = pure tt
  install_declared_async post (some (request, dir)) =
      for_hook_async post.install_lock (install_into world request dir)

  unfoldable pub run_post_setup_async : PostSetup → Run V (Unit {0})
  run_post_setup_async post =
      refresh_dir world
      >> populate_cache_on_miss world post
      >> extension_target world
      >>= install_declared_async post

  -- `AsyncInvoker::invoke` of a step; the worker ignores the future, which is a no-op there.
  unfoldable pub invoke_step_async : Settings V → LifecycleStep → Run V (Unit {0})
  invoke_step_async embedded step s = (
    invoke_async world.workers s.bootstrap (worker_operation step)
        (world.future (worker_operation step) embedded),
    running world (worker_operation step) s,
  )

  unfoldable pub invoke_lifecycle_async : PostSetup → Settings V → Run V (Unit {0})
  invoke_lifecycle_async post embedded =
      invoke_step_async embedded setup
      >> run_post_setup_async post
      >> invoke_step_async embedded start
      >> refresh_port world

  unfoldable pub invoke_lifecycle_root_async : PostSetup → Settings V → Run V (Unit {0})
  invoke_lifecycle_root_async post embedded =
      invoke_step_async embedded setup
      >> run_post_setup_async post
      >> invoke_step_async embedded start
      >> refresh_port world

  unfoldable pub lifecycle_async_as :
      ExecutionPrivileges → Settings V → PostSetup → Run V (StartupOutcome V)
  lifecycle_async_as root embedded post =
      invoke_lifecycle_root_async post embedded
      >> pure (record { postgres = none; is_managed_via_worker = true })
  lifecycle_async_as unprivileged embedded post =
      invoke_lifecycle_async post embedded
      >> prepare_postgres_handle world false embedded
      >>= λ handle. pure (record { postgres = handle; is_managed_via_worker = false })

  -- `inspect_err` of the lifecycle's result.
  unfoldable pub after_lifecycle_async :
      Result BootstrapError (StartupOutcome V) × Machine V
      → Result BootstrapError (StartupOutcome V) × Machine V
  after_lifecycle_async (ok outcome, s) = (ok outcome, s)
  after_lifecycle_async (err e, s) = (err e, release_owner_watcher world s)

  unfoldable pub lifecycle_after_lookup_async : Bool → InstallLock → Run V (StartupOutcome V)
  lifecycle_after_lookup_async cache_hit install_lock s = after_lifecycle_async (
      lifecycle_async_as s.bootstrap.privileges s.bootstrap.settings
        (record { cache_hit = cache_hit; install_lock = install_lock }) s)

  unfoldable pub start_postgres_async : Run V (StartupOutcome V)
  start_postgres_async = install_root world >>= λ install_root.
      acquire_at world install_root
      >> scoped (
          look_in_cache world >>= λ cache_hit.
          after_cache_lookup world cache_hit install_root >>= λ install_lock.
          watch_for_owner_death world >> lifecycle_after_lookup_async cache_hit install_lock)
