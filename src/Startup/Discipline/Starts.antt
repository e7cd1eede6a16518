-- ===== src/Startup/Discipline/Starts.antt =====
-- The lifecycle steps keep the discipline.
use pg_embed_setup_unpriv.Prelude.{refl, sym, subst, Bool}
use pg_embed_setup_unpriv.Fallible.{Post-of, Triple, Triple-bind, Triple-then}
use pg_embed_setup_unpriv.Installation.{ExecutionPrivileges, root, unprivileged}
use pg_embed_setup_unpriv.Cache.Use.{Settings}
use pg_embed_setup_unpriv.Startup.{LifecycleStep, setup, start, worker_operation, World, Run}
use pg_embed_setup_unpriv.Startup.Hook.{PostSetup, run_post_setup}
use pg_embed_setup_unpriv.Startup.Lifecycle.{
  running, invoke_root_operation, invoke_unprivileged_operation, with_port, refresh_port,
  run_lifecycle_steps, invoke_lifecycle_root, invoke_lifecycle, prepare_postgres_handle,
  lifecycle_as,
}
use pg_embed_setup_unpriv.Startup.Discipline.{Kept, Ready, Runs}
use pg_embed_setup_unpriv.Startup.Discipline.Hook.{setup_Ready, run_post_setup-Kept}

module _ {V : Type 0} (world : World V) (armed : Bool) where
  refresh_port-Kept : Triple (Kept armed) (refresh_port world) (λ _. Kept armed) (Kept armed)
  unfolding refresh_port with_port
  refresh_port-Kept s h =
      let after : Kept armed (refresh_port world s).1 = record {
        watch = h.watch;
        guarded = h.guarded;
        pristine = h.pristine;
      } in
      Post-of (λ _. Kept armed) (Kept armed) _ _ (λ _. after) after

  start-Kept :
      (dispatch : LifecycleStep → Run V (Unit {0}))
      → Runs world dispatch
      → Triple (Kept armed) (dispatch start) (λ _. Kept armed) (Kept armed)
  unfolding running worker_operation
  start-Kept dispatch runs s h =
      let after : Kept armed (dispatch start s).1 =
        subst (Kept armed) (sym (runs start s))
          (record { watch = h.watch; guarded = (tt, h.guarded); pristine = h.pristine }) in
      Post-of (λ _. Kept armed) (Kept armed) (dispatch start s).0 (dispatch start s).1 (λ _. after)
        after

  run_lifecycle_steps-Kept :
      (post : PostSetup) (dispatch : LifecycleStep → Run V (Unit {0}))
      → Runs world dispatch
      → Triple
          (Ready armed post)
          (run_lifecycle_steps world post dispatch)
          (λ _. Kept armed)
          (Kept armed)
  unfolding run_lifecycle_steps
  run_lifecycle_steps-Kept post dispatch runs =
      Triple-then (Ready armed post) (Kept armed) (λ _. Kept armed) (Kept armed) _ _
        (Triple-then (Ready armed post) (Kept armed) (λ _. Kept armed) (Kept armed) _ _
          (Triple-then (Ready armed post) (Ready armed post) (λ _. Kept armed) (Kept armed)
            (dispatch setup) (run_post_setup world post)
            (setup_Ready world armed post dispatch runs) (run_post_setup-Kept world armed post))
          (start-Kept dispatch runs))
        refresh_port-Kept

  pub lifecycle_as-Kept :
      (privileges : ExecutionPrivileges) (embedded : Settings V) (post : PostSetup)
      → Triple
          (Ready armed post)
          (lifecycle_as world privileges embedded post)
          (λ _. Kept armed)
          (Kept armed)
  unfolding lifecycle_as invoke_lifecycle_root invoke_lifecycle invoke_root_operation
      invoke_unprivileged_operation prepare_postgres_handle
  lifecycle_as-Kept root embedded post =
      Triple-then (Ready armed post) (Kept armed) (λ _. Kept armed) (Kept armed) _ _
        (run_lifecycle_steps-Kept post _ (λ step s. refl)) (λ s h. h)
  lifecycle_as-Kept unprivileged embedded post =
      Triple-bind (Ready armed post) (λ _. Kept armed) (λ _. Kept armed) (Kept armed) _ _
        (Triple-then (Ready armed post) (Kept armed) (λ _. Kept armed) (Kept armed) _ _
          (run_lifecycle_steps-Kept post _ (λ step s. refl))
          (λ s h. record { watch = h.watch; guarded = h.guarded; pristine = h.pristine }))
        (λ handle s h. h)
