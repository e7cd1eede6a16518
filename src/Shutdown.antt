-- ===== src/Shutdown.antt =====
-- src/cluster/shutdown.rs, guard.rs, async_api.rs (`stop_async`) and cleanup.rs: how a cluster ends.
-- The state is the guard's; what a stop or a drop does is a list of events, oldest first. What the
-- worker, the server's stop, the runtime and the file system answer are parameters. A task that is
-- spawned counts as run to its end, or, without a runtime, as not run at all.
pub mod Laws
use pg_embed_setup_unpriv.Prelude.{
  ℕ, Bool, true, false, not, ◌&&◌, Option, none, some, List, [], ◌∷◌, ◌++◌, map, if◌then◌else◌,
}
use pg_embed_setup_unpriv.Error.{Result, ok, err}
use pg_embed_setup_unpriv.Retry.{BootstrapError}
use pg_embed_setup_unpriv.Bootstrap.{other_error}
use pg_embed_setup_unpriv.Cleanup.{
  CleanupMode, data_only, full, keep, Settings, Host, plan_cleanup, cleanup_in_process,
}
use pg_embed_setup_unpriv.Cleanup.Paths.{FilePath}
use pg_embed_setup_unpriv.Worker.{WorkerOperation, stop, cleanup, cleanup_full}

-- How `timeout(postgres.stop())` ends.
pub data StopOutcome : Type 0 where
  stopped failed timed_out : StopOutcome

-- `stop_attempt` says whether the server is known to have stopped.
pub data Event : Type 0 where
  stop_attempt : Bool → Event
  release_watcher : Event
  worker_cleanup : WorkerOperation → Event
  remove_dir_all : FilePath → Event

-- `first` and `second` are the file system's answers when a cleanup by the worker is planned, and
-- when one in this process is. `can_spawn` says whether there is a runtime to spawn a task on, and
-- `can_build` whether a runtime can be made.
pub record Env : Type 0 where
  pub worker_stop : Result BootstrapError (Unit {0})
  pub stop_outcome : StopOutcome
  pub first : Host
  pub second : Host
  pub can_spawn : Bool
  pub can_build : Bool

-- What the guard knows of its cluster; `postgres` says whether it still has the handle.
pub record Guard : Type 0 where
  pub is_async : Bool
  pub postgres : Bool
  pub is_managed_via_worker : Bool
  pub cleanup_mode : CleanupMode
  pub settings : Settings

unfoldable pub cleanup_operation : CleanupMode → Option WorkerOperation
cleanup_operation data_only = some cleanup
cleanup_operation full = some cleanup_full
cleanup_operation keep = none

unfoldable pub by_worker : Option WorkerOperation → List Event
by_worker none = []
by_worker (some operation) = worker_cleanup operation ∷ []

abbrev pub is_ok : Result BootstrapError (Unit {0}) → Bool
is_ok (ok u) = true
is_ok (err e) = false

module _ (env : Env) (guard : Guard) where
  unfoldable pub cleanup_worker_managed_with_runtime : List Event
  cleanup_worker_managed_with_runtime =
      release_watcher
      ∷ by_worker
          (cleanup_operation (plan_cleanup env.first guard.cleanup_mode guard.settings).mode)

  -- `cleanup_in_process`, with the end of the watcher.
  unfoldable pub clean_in_process : List Event
  clean_in_process =
      release_watcher
      ∷ map remove_dir_all (cleanup_in_process env.second guard.cleanup_mode guard.settings)

  unfoldable pub after_worker_stop :
      Result BootstrapError (Unit {0}) → Result BootstrapError (Unit {0}) × List Event
  after_worker_stop (err e) = (err e, stop_attempt false ∷ [])
  after_worker_stop (ok u) =
      (ok tt, stop_attempt true ∷ (cleanup_worker_managed_with_runtime ++ clean_in_process))

  unfoldable pub stop_worker_managed_with_runtime : Result BootstrapError (Unit {0}) × List Event
  stop_worker_managed_with_runtime = after_worker_stop env.worker_stop

  unfoldable pub stop_via_worker_sync : Result BootstrapError (Unit {0}) × List Event
  stop_via_worker_sync =
      if env.can_build then stop_worker_managed_with_runtime else (err other_error, [])

  unfoldable pub after_stop : StopOutcome → Result BootstrapError (Unit {0}) × List Event
  after_stop stopped = (ok tt, stop_attempt true ∷ clean_in_process)
  after_stop failed = (err other_error, stop_attempt false ∷ [])
  after_stop timed_out = (err other_error, stop_attempt false ∷ [])

  unfoldable pub stop_in_process_async : Result BootstrapError (Unit {0}) × List Event
  stop_in_process_async = after_stop env.stop_outcome

  unfoldable pub drop_unmanaged_sync : Bool → List Event
  drop_unmanaged_sync false = []
  drop_unmanaged_sync true = (after_stop env.stop_outcome).1

  unfoldable pub drop_sync_cluster : List Event
  drop_sync_cluster =
      if guard.is_managed_via_worker
      then stop_worker_managed_with_runtime.1
      else drop_unmanaged_sync guard.postgres

  -- `worker_stop_sync`, which the spawned task runs.
  unfoldable pub worker_stop_sync : List Event
  worker_stop_sync = if env.can_build then stop_worker_managed_with_runtime.1 else []

  unfoldable pub drop_async_worker_managed : List Event
  drop_async_worker_managed = if env.can_spawn then worker_stop_sync else []

  unfoldable pub drop_async_in_process : List Event
  drop_async_in_process = if env.can_spawn then (after_stop env.stop_outcome).1 else []

  unfoldable pub drop_async_cluster : List Event
  drop_async_cluster =
      if guard.is_managed_via_worker
      then drop_async_worker_managed
      else if guard.postgres
      then drop_async_in_process
      else []

  unfoldable pub should_skip_shutdown : Bool
  should_skip_shutdown = not guard.postgres && not guard.is_managed_via_worker

  unfoldable pub perform_shutdown : List Event
  perform_shutdown = if guard.is_async then drop_async_cluster else drop_sync_cluster

  -- `Drop::drop` of the guard.
  unfoldable pub drop : List Event
  drop = if should_skip_shutdown then [] else perform_shutdown

pub data StopAsyncPath : Type 0 where
  worker_managed in_process noop : StopAsyncPath

-- The path, and the guard after `postgres.take()`.
unfoldable pub stop_async_path : Guard → StopAsyncPath × Guard
stop_async_path guard =
    if guard.is_managed_via_worker
    then (worker_managed, guard)
    else if guard.postgres
    then (in_process, record guard { postgres = false })
    else (noop, guard)

unfoldable pub along : Env → StopAsyncPath × Guard → Result BootstrapError (Unit {0}) × List Event
along env (worker_managed, guard) = stop_via_worker_sync env guard
along env (in_process, guard) = stop_in_process_async env guard
along env (noop, guard) = (ok tt, [])

-- The result, and the events up to it; the guard is dropped at the end of the call.
unfoldable pub stop_async : Env → Guard → Result BootstrapError (Unit {0}) × List Event × List Event
stop_async env guard =
    let path = stop_async_path guard in
    let (result, events) = along env path in (result, events, drop env path.1)
