-- ===== src/Worker.antt =====
-- src/cluster/worker_operation.rs and worker_invoker: how one operation of a start or a stop is run,
-- in this process with a time limit or by the worker. The worker's run and the futures of
-- `postgresql_embedded` are parameters; spans and logs are left out, and so are panics.
pub mod Laws
use pg_embed_setup_unpriv.Prelude.{
  ℕ, Bool, true, false, not, Option, none, some, List, [], ◌∷◌, leb, if◌then◌else◌,
}
use pg_embed_setup_unpriv.Prelude.Texts.{Text, codes}
use pg_embed_setup_unpriv.Error.{other, Result, ok, err}
use pg_embed_setup_unpriv.Retry.{
  EmbeddedError, BootstrapError, lifecycle_timeout, embedded, other_cause,
}
use pg_embed_setup_unpriv.Installation.{ExecutionPrivileges, root, unprivileged}
use pg_embed_setup_unpriv.Bootstrap.{
  ExecutionMode, in_process, subprocess, TestBootstrapSettings, other_error,
}

pub data WorkerOperation : Type 0 where
  setup start stop cleanup cleanup_full : WorkerOperation

unfoldable pub as_str : WorkerOperation → Text
as_str setup = codes "setup"
as_str start = codes "start"
as_str stop = codes "stop"
as_str cleanup = codes "cleanup"
as_str cleanup_full = codes "cleanup-full"

unfoldable pub timeout : {V : Type 0} → WorkerOperation → TestBootstrapSettings V → ℕ
timeout setup bootstrap = bootstrap.setup_timeout
timeout start bootstrap = bootstrap.start_timeout
timeout stop bootstrap = bootstrap.shutdown_timeout
timeout cleanup bootstrap = bootstrap.shutdown_timeout
timeout cleanup_full bootstrap = bootstrap.shutdown_timeout

-- A future: how long it takes, and the error that it ends with, if any.
pub record Future : Type 0 where
  pub takes : ℕ
  pub fails : Option EmbeddedError

-- What the platform can do, and how a worker's run goes.
pub record Workers : Type 0 where
  pub drop_supported : Bool
  pub run : Text → WorkerOperation → ℕ → Result BootstrapError (Unit {0})

abbrev pub timeout_error : BootstrapError
timeout_error = record { kind = other; report = lifecycle_timeout ∷ [] }

-- `.context(ctx)` puts a cause above the error.
abbrev pub in_context : EmbeddedError → BootstrapError
in_context e = record { kind = other; report = other_cause ∷ embedded e ∷ [] }

unfoldable pub outcome_of : Option EmbeddedError → Result BootstrapError (Unit {0})
outcome_of none = ok tt
outcome_of (some e) = err (in_context e)

-- `run_with_timeout` and what is made of its result.
unfoldable pub invoke_unprivileged : ℕ → Future → Result BootstrapError (Unit {0})
invoke_unprivileged limit future =
    if leb future.takes limit then outcome_of future.fails else err timeout_error

module _ {V : Type 0} (workers : Workers) (bootstrap : TestBootstrapSettings V) where
  unfoldable pub run_worker : Option Text → WorkerOperation → Result BootstrapError (Unit {0})
  run_worker none operation = err other_error
  run_worker (some worker) operation = workers.run worker operation (timeout operation bootstrap)

  unfoldable pub spawn_worker_inner : WorkerOperation → Result BootstrapError (Unit {0})
  spawn_worker_inner operation = run_worker bootstrap.worker_binary operation

  unfoldable pub in_mode : ExecutionMode → WorkerOperation → Result BootstrapError (Unit {0})
  in_mode in_process operation = err other_error
  in_mode subprocess operation = spawn_worker_inner operation

  unfoldable pub execute_root_operation : WorkerOperation → Result BootstrapError (Unit {0})
  execute_root_operation operation =
      if not workers.drop_supported
      then err other_error
      else in_mode bootstrap.execution_mode operation

  unfoldable pub invoke_as_root : WorkerOperation → Result BootstrapError (Unit {0})
  invoke_as_root operation = execute_root_operation operation

  unfoldable pub dispatch_operation :
      ExecutionPrivileges → WorkerOperation → Future → Result BootstrapError (Unit {0})
  dispatch_operation unprivileged operation future =
      invoke_unprivileged (timeout operation bootstrap) future
  dispatch_operation root operation future = invoke_as_root operation

  unfoldable pub invoke : WorkerOperation → Future → Result BootstrapError (Unit {0})
  invoke operation future = dispatch_operation bootstrap.privileges operation future

  unfoldable pub dispatch_operation_async :
      ExecutionPrivileges → WorkerOperation → Future → Result BootstrapError (Unit {0})
  dispatch_operation_async unprivileged operation future =
      invoke_unprivileged (timeout operation bootstrap) future
  dispatch_operation_async root operation future = execute_root_operation operation

  -- `AsyncInvoker::invoke`.
  unfoldable pub invoke_async : WorkerOperation → Future → Result BootstrapError (Unit {0})
  invoke_async operation future = dispatch_operation_async bootstrap.privileges operation future
