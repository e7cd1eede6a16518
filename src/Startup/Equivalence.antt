-- ===== src/Startup/Equivalence.antt =====
-- The asynchronous start does what the synchronous one does, but for the mark on its errors.
use pg_embed_setup_unpriv.Prelude.{◌≡◌, refl, ap, subst, ◌∙◌, ◌⊎◌, inl, inr, Bool, true, false}
use pg_embed_setup_unpriv.Prelude.Texts.{Text}
use pg_embed_setup_unpriv.Error.{Result, ok, err}
use pg_embed_setup_unpriv.Retry.{BootstrapError, note_cached_binaries}
use pg_embed_setup_unpriv.Fallible.{continue, Post-of, Post-always, continue-eq}
use pg_embed_setup_unpriv.Installation.{ExecutionPrivileges, root, unprivileged}
use pg_embed_setup_unpriv.Cache.Use.{Settings}
use pg_embed_setup_unpriv.Worker.{invoke, dispatch_operation}
use pg_embed_setup_unpriv.Worker.Laws.{invoke_async-eq}
use pg_embed_setup_unpriv.Startup.{
  LifecycleStep, setup, worker_operation, Machine, World, Run, InstallLock, drop_lock,
  unlocked_at_end, install_root, acquire_at, after_cache_lookup, look_in_cache,
  watch_for_owner_death,
}
use pg_embed_setup_unpriv.Startup.Hook.{PostSetup}
use pg_embed_setup_unpriv.Startup.Lifecycle.{
  StartupOutcome, running, invoke_root_operation, invoke_unprivileged_operation,
  invoke_lifecycle_root, invoke_lifecycle, lifecycle_as, handle_privilege_lifecycle,
  after_lifecycle, lifecycle_after_lookup, start_postgres,
}
use pg_embed_setup_unpriv.Startup.Twins.{
  invoke_step_async, invoke_lifecycle_async, invoke_lifecycle_root_async, lifecycle_async_as,
  after_lifecycle_async, lifecycle_after_lookup_async, start_postgres_async,
}
use pg_embed_setup_unpriv.Startup.Agreement.{steps-eq, IsAs, run_post_setup-KeepsAs}

module _ {V : Type 0} (world : World V) where
  invoke_step_async-unprivileged :
      (embedded : Settings V) (step : LifecycleStep) (s : Machine V)
      → invoke_step_async world embedded step s
        ≡ invoke_unprivileged_operation world embedded step s
  unfolding invoke_step_async invoke_unprivileged_operation
  invoke_step_async-unprivileged embedded step s =
      ap (λ r. (r, running world (worker_operation step) s))
        (invoke_async-eq world.workers s.bootstrap (worker_operation step)
          (world.future (worker_operation step) embedded))

  invoke_step_async-root :
      (embedded : Settings V) (step : LifecycleStep) (s : Machine V)
      → IsAs world root s
      → invoke_step_async world embedded step s ≡ invoke_root_operation world step s
  unfolding invoke_step_async invoke_root_operation invoke dispatch_operation
  invoke_step_async-root embedded step s h =
      let operation = worker_operation step in
      let future = world.future operation embedded in
      ap (λ r. (r, running world operation s))
        (invoke_async-eq world.workers s.bootstrap operation future
          ∙ ap (λ p. dispatch_operation world.workers s.bootstrap p operation future) h)

  running-KeepsAs :
      (p : ExecutionPrivileges) (operation : _) (s : Machine V)
      → IsAs world p s
      → IsAs world p (running world operation s)
  unfolding running
  running-KeepsAs p operation s h = h

  lifecycle_async_as-eq :
      (p : ExecutionPrivileges) (embedded : Settings V) (post : PostSetup) (s : Machine V)
      → IsAs world p s
      → lifecycle_as world p embedded post s ≡ lifecycle_async_as world p embedded post s
  unfolding lifecycle_as lifecycle_async_as invoke_lifecycle_root invoke_lifecycle
      invoke_lifecycle_root_async invoke_lifecycle_async invoke_root_operation
  lifecycle_async_as-eq root embedded post s h =
      continue-eq _ _ _ _
        (steps-eq world (IsAs world root) post (invoke_root_operation world)
          (invoke_step_async world embedded) (λ step t i. invoke_step_async-root embedded step t i)
          (λ t i.
            Post-of (λ _. IsAs world root) (λ _. Unit {0}) (invoke_root_operation world setup t).0
              (invoke_root_operation world setup t).1
              (λ _. running-KeepsAs root (worker_operation setup) t i) tt)
          (run_post_setup-KeepsAs world root post) s h)
        (Post-always _ _ (λ _ _. refl))
  lifecycle_async_as-eq unprivileged embedded post s h =
      continue-eq _ _ _ _
        (continue-eq _ _ _ _
          (steps-eq world (λ _. Unit) post (invoke_unprivileged_operation world embedded)
            (invoke_step_async world embedded)
            (λ step t _. invoke_step_async-unprivileged embedded step t)
            (λ t _. Post-always _ _ (λ _ _. tt)) (λ t _. Post-always _ _ (λ _ _. tt)) s tt)
          (Post-always _ _ (λ _ _. refl)))
        (Post-always _ _ (λ _ _. refl))

-- The errors are the same, or the synchronous one bears the mark of cached binaries.
abbrev pub TwinResults : {A : Type 0} → Result BootstrapError A → Result BootstrapError A → Type 0
TwinResults (ok a) (ok b) = a ≡ b
TwinResults (err e) (err f) =
    (e ≡ f) ⊎ ((version : Text) × (e ≡ note_cached_binaries true version f))
TwinResults _ _ = ⊥

TwinResults-refl : {A : Type 0} (r : Result BootstrapError A) → TwinResults r r
TwinResults-refl (ok a) = refl
TwinResults-refl (err e) = inl refl

-- What the synchronous run gives, beside what the asynchronous one gives: the same state.
abbrev pub Twins :
    {V A : Type 0}
    → Result BootstrapError A × Machine V
    → Result BootstrapError A × Machine V
    → Type 0
Twins (r, s) (q, t) = (s ≡ t) × TwinResults r q

module _ {V : Type 0} where
  Twins-of : {A : Type 0} (r q : Result BootstrapError A × Machine V) → r ≡ q → Twins r q
  Twins-of (r, s) q e = subst (Twins (r, s)) e (refl, TwinResults-refl r)

  -- A chain gives twins if what follows its common part does.
  continue-Twins :
      {A B : Type 0} (r : Result BootstrapError A × Machine V) (next next' : A → Run V B)
      → ((a : A) (s : Machine V) → Twins (next a s) (next' a s))
      → Twins (continue r next) (continue r next')
  continue-Twins (ok a, s) next next' h = h a s
  continue-Twins (err e, s) next next' h = (refl, inl refl)

  scoped-Twins :
      {A : Type 0} (r q : Result BootstrapError A × Machine V)
      → Twins r q
      → Twins (unlocked_at_end r) (unlocked_at_end q)
  scoped-Twins (r, s) (q, t) (e, h) = (ap drop_lock e, h)

module _ {V : Type 0} (world : World V) where
  after_lifecycle-Twins :
      (hit : Bool) (r : Result BootstrapError (StartupOutcome V) × Machine V)
      → Twins (after_lifecycle world hit r) (after_lifecycle_async world r)
  unfolding after_lifecycle after_lifecycle_async note_cached_binaries
  after_lifecycle-Twins hit (ok outcome, s) = (refl, refl)
  after_lifecycle-Twins true (err e, s) =
      (refl, inr (world.version_text s.bootstrap.settings.version, refl))
  after_lifecycle-Twins false (err e, s) = (refl, inl refl)

  lifecycle_after_lookup-Twins :
      (hit : Bool) (lock : InstallLock) (s : Machine V)
      → Twins
          (lifecycle_after_lookup world hit lock s)
          (lifecycle_after_lookup_async world hit lock s)
  unfolding lifecycle_after_lookup lifecycle_after_lookup_async handle_privilege_lifecycle
  lifecycle_after_lookup-Twins hit lock s =
      let post : PostSetup = record { cache_hit = hit; install_lock = lock } in
      let embedded = s.bootstrap.settings in
      let p = s.bootstrap.privileges in
      subst
        (λ q.
          Twins (after_lifecycle world hit (lifecycle_as world p embedded post s))
            (after_lifecycle_async world q))
        (lifecycle_async_as-eq world p embedded post s refl)
        (after_lifecycle-Twins hit (lifecycle_as world p embedded post s))

  -- From the same state and with the same answers, the asynchronous start leaves the same state as
  -- the synchronous one and gives the same outcome or the same error, except that the error of a
  -- synchronous start may bear the mark of cached binaries, which the asynchronous one never adds.
  pub start_postgres-Twins :
      (s : Machine V) → Twins (start_postgres world s) (start_postgres_async world s)
  unfolding start_postgres start_postgres_async
  start_postgres-Twins s = continue-Twins (install_root world s) _ _ (λ dir s1.
      continue-Twins (acquire_at world dir s1) _ _ (λ _ s2. scoped-Twins _ _ (
        continue-Twins (look_in_cache world s2) _ _ (λ hit s3.
          continue-Twins (after_cache_lookup world hit dir s3) _ _ (λ lock s4.
            continue-Twins (watch_for_owner_death world s4) _ _
              (λ _ s5. lifecycle_after_lookup-Twins hit lock s5))))))
