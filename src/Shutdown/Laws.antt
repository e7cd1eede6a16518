-- ===== src/Shutdown/Laws.antt =====
-- Nothing is removed before the server is known to have stopped.
use pg_embed_setup_unpriv.Prelude.{
  ◌≡◌, refl, Bool, true, false, ◌||◌, Option, none, some, List, [], ◌∷◌, ◌++◌, map, All,
  if◌then◌else◌,
}
use pg_embed_setup_unpriv.Error.{Result, ok, err}
use pg_embed_setup_unpriv.Retry.{BootstrapError}
use pg_embed_setup_unpriv.Cleanup.{plan_cleanup}
use pg_embed_setup_unpriv.Cleanup.Paths.{FilePath}
use pg_embed_setup_unpriv.Cleanup.Removal.{IsRemovable, cleanup_in_process-IsRemovable}
use pg_embed_setup_unpriv.Worker.{WorkerOperation}
use pg_embed_setup_unpriv.Shutdown.{
  StopOutcome, stopped, failed, timed_out, Event, stop_attempt, release_watcher, worker_cleanup,
  remove_dir_all, Env, Guard, cleanup_operation, by_worker, cleanup_worker_managed_with_runtime,
  clean_in_process, after_worker_stop, stop_worker_managed_with_runtime, after_stop,
  drop_unmanaged_sync, drop_sync_cluster, worker_stop_sync, drop_async_worker_managed,
  drop_async_in_process, drop_async_cluster, should_skip_shutdown, perform_shutdown, drop,
}

module _ (env : Env) (guard : Guard) where
  -- From a point where the server is known to have stopped or not: the watcher is released and trees
  -- are removed only behind a successful stop, and only those that a cleanup may remove.
  abbrev pub InOrder : Bool → List Event → Type 0
  InOrder is_stopped [] = Unit
  InOrder is_stopped (stop_attempt b ∷ events) = InOrder (is_stopped || b) events
  InOrder is_stopped (release_watcher ∷ events) = (is_stopped ≡ true) × InOrder is_stopped events
  InOrder is_stopped (worker_cleanup operation ∷ events) =
      (is_stopped ≡ true) × InOrder is_stopped events
  InOrder is_stopped (remove_dir_all path ∷ events) =
      (is_stopped ≡ true)
      × IsRemovable env.second guard.cleanup_mode guard.settings path
      × InOrder is_stopped events

  removals-InOrder :
      (paths : List FilePath)
      → All (IsRemovable env.second guard.cleanup_mode guard.settings) paths
      → InOrder true (map remove_dir_all paths)
  removals-InOrder [] h = tt
  removals-InOrder (path ∷ paths) (h, hs) = (refl, h, removals-InOrder paths hs)

  clean_in_process-InOrder : InOrder true (clean_in_process env guard)
  unfolding clean_in_process
  clean_in_process-InOrder = (
    refl,
    removals-InOrder _
        (cleanup_in_process-IsRemovable env.second guard.cleanup_mode guard.settings),
  )

  worker_cleanup-InOrder :
      (operation : Option WorkerOperation) (events : List Event)
      → InOrder true events
      → InOrder true (by_worker operation ++ events)
  unfolding by_worker
  worker_cleanup-InOrder none events h = h
  worker_cleanup-InOrder (some operation) events h = (refl, h)

  after_worker_stop-InOrder :
      (r : Result BootstrapError Unit) → InOrder false (after_worker_stop env guard r).1
  unfolding after_worker_stop cleanup_worker_managed_with_runtime
  after_worker_stop-InOrder (err e) = tt
  after_worker_stop-InOrder (ok u) = (
    refl,
    worker_cleanup-InOrder
        (cleanup_operation (plan_cleanup env.first guard.cleanup_mode guard.settings).mode)
        (clean_in_process env guard) clean_in_process-InOrder,
  )

  after_stop-InOrder : (outcome : StopOutcome) → InOrder false (after_stop env guard outcome).1
  unfolding after_stop
  after_stop-InOrder stopped = clean_in_process-InOrder
  after_stop-InOrder failed = tt
  after_stop-InOrder timed_out = tt

  either :
      (b : Bool) (xs ys : List Event)
      → InOrder false xs
      → InOrder false ys
      → InOrder false (if b then xs else ys)
  either true xs ys h k = h
  either false xs ys h k = k

  -- However a cluster's guard is dropped, a cleanup is made only after the server, or the worker
  -- that manages it, has reported a successful stop: before it no watcher is released, no cleanup
  -- is given to the worker and no tree is removed; and each tree that is removed in this process is
  -- one that a cleanup may remove.
  pub drop-InOrder : InOrder false (drop env guard)
  unfolding drop perform_shutdown drop_async_cluster drop_sync_cluster drop_async_worker_managed
      worker_stop_sync drop_async_in_process stop_worker_managed_with_runtime drop_unmanaged_sync
  drop-InOrder =
      let by_worker_stop = after_worker_stop-InOrder env.worker_stop in
      let by_stop = after_stop-InOrder env.stop_outcome in
      either (should_skip_shutdown env guard) _ _ tt (
        either guard.is_async _ _
          (either guard.is_managed_via_worker _ _
            (either env.can_spawn _ _ (either env.can_build _ _ by_worker_stop tt) tt)
            (either guard.postgres _ _ (either env.can_spawn _ _ by_stop tt) tt))
          (either guard.is_managed_via_worker _ _ by_worker_stop (unmanaged guard.postgres)))
    where
      unmanaged : (b : Bool) → InOrder false (drop_unmanaged_sync env guard b)
      unmanaged true = after_stop-InOrder env.stop_outcome
      unmanaged false = tt

-- The events of one stop: the watcher is released next if it succeeds, else nothing comes after.
abbrev pub Stops : Bool → List Event → Type 0
Stops succeeds events =
    (rest : List Event) × (events
      ≡ stop_attempt succeeds ∷ (if succeeds then release_watcher ∷ rest else []))

abbrev pub is_stop : StopOutcome → Bool
is_stop stopped = true
is_stop _ = false
