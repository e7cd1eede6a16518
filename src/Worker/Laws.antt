-- ===== src/Worker/Laws.antt =====
-- The two invokers run an operation alike.
use pg_embed_setup_unpriv.Prelude.{◌≡◌, refl}
use pg_embed_setup_unpriv.Installation.{ExecutionPrivileges, root, unprivileged}
use pg_embed_setup_unpriv.Bootstrap.{TestBootstrapSettings}
use pg_embed_setup_unpriv.Worker.{
  WorkerOperation, Future, Workers, invoke_as_root, dispatch_operation, invoke,
  dispatch_operation_async, invoke_async,
}

module _ {V : Type 0} (workers : Workers) (bootstrap : TestBootstrapSettings V) where
  dispatch_operation_async-eq :
      (privileges : ExecutionPrivileges) (operation : WorkerOperation) (future : Future)
      → dispatch_operation_async workers bootstrap privileges operation future
        ≡ dispatch_operation workers bootstrap privileges operation future
  unfolding dispatch_operation_async dispatch_operation invoke_as_root
  dispatch_operation_async-eq unprivileged operation future = refl
  dispatch_operation_async-eq root operation future = refl

  pub invoke_async-eq :
      (operation : WorkerOperation) (future : Future)
      → invoke_async workers bootstrap operation future ≡ invoke workers bootstrap operation future
  unfolding invoke_async invoke
  invoke_async-eq operation future =
      dispatch_operation_async-eq bootstrap.privileges operation future
