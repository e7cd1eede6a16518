-- ===== src/Startup/Discipline.antt =====
-- The setup lock is held while the install tree is written, and a start never waits for itself:
-- what that means of a log.
pub mod Hook
pub mod Starts
pub mod Whole
use pg_embed_setup_unpriv.Prelude.{
  ◌≡◌, refl, sym, ap, subst, ◌∙◌, ◌⊎◌, inl, inr, Bool, true, false, Option, none, some, List, [],
  ◌∷◌, All, if◌then◌else◌, arith, Bool-cases,
}
use pg_embed_setup_unpriv.Prelude.Texts.{Text}
use pg_embed_setup_unpriv.Error.{Result, ok, err}
use pg_embed_setup_unpriv.Retry.{BootstrapError}
use pg_embed_setup_unpriv.Fallible.{Post, Post-of, Triple, Triple-bind, Triple-then, Post-weaken}
use pg_embed_setup_unpriv.Installation.{ExecutionPrivileges, root, unprivileged}
use pg_embed_setup_unpriv.Installation.Port.{refresh_worker_port}
use pg_embed_setup_unpriv.Cache.Use.{
  Settings, Host, try_use_binary_cache, try_use_binary_cache-IsUse,
}
use pg_embed_setup_unpriv.Bootstrap.{ExtensionRequest, InstalledExtension, TestBootstrapSettings}
use pg_embed_setup_unpriv.Worker.{WorkerOperation}
use pg_embed_setup_unpriv.Startup.{
  LifecycleStep, setup, start, worker_operation, Event, take_lock, use_cache, populate, install,
  run, Logged, Machine, World, Run, InstallLock, held, released, logged, drop_lock, unlocked_at_end,
  scoped, install_root, taken, acquire_at, after_cache_lookup, cache_lookup, look_in_cache,
  watch_for_owner_death, release_owner_watcher,
}
use pg_embed_setup_unpriv.Startup.Hook.{
  PostSetup, with_dir, refresh_dir, populate_cache_on_miss, extension_target, for_hook, installed,
  install_into, install_declared, run_post_setup,
}
use pg_embed_setup_unpriv.Startup.Lifecycle.{
  StartupOutcome, running, invoke_root_operation, invoke_unprivileged_operation, with_port,
  refresh_port, run_lifecycle_steps, invoke_lifecycle_root, invoke_lifecycle,
  prepare_postgres_handle, lifecycle_as, handle_privilege_lifecycle, after_lifecycle,
  lifecycle_after_lookup, start_postgres, setup_as, setup_with_privileges, setup_lifecycle,
}

-- The lock is held at each use of the cache, each installation of extensions, each population of the
-- cache, and each `Setup` that may fill the tree; it is not held when this start waits for it.
abbrev pub Guarded : Logged → Type 0
Guarded (take_lock _, locked) = locked ≡ false
Guarded (use_cache dir, locked) = locked ≡ true
Guarded (populate dir, locked) = locked ≡ true
Guarded (install dir, locked) = locked ≡ true
Guarded (run WorkerOperation.setup trusted, locked) = (locked ≡ true) ⊎ (trusted ≡ true)
Guarded (run operation trusted, locked) = Unit

-- No extension was installed so far.
abbrev pub NotInstall : Logged → Type 0
NotInstall (install dir, locked) = ⊥
NotInstall _ = Unit

-- Whenever the cache is filled from the tree, no extension was installed into it before.
abbrev pub Pristine : List Logged → Type 0
Pristine [] = Unit
Pristine ((populate dir, locked) ∷ log) = All NotInstall log × Pristine log
Pristine (_ ∷ log) = Pristine log

abbrev pub LockIs : InstallLock → Bool → Type 0
LockIs held locked = locked ≡ true
LockIs (released _) locked = locked ≡ false

module _ {V : Type 0} where
  -- What holds all the time; `armed` is the state of the watcher.
  pub record Kept (armed : Bool) (s : Machine V) : Type 0 where
    pub watch : s.watching ≡ armed
    pub guarded : All Guarded s.log
    pub pristine : Pristine s.log

  -- What holds from the lookup in the cache to the extensions.
  pub record Ready (armed : Bool) (post : PostSetup) (s : Machine V) : Type 0 where
    pub kept : Kept armed s
    pub early : All NotInstall s.log
    pub lock : LockIs post.install_lock s.locked
    pub fills : (s.locked ≡ true) ⊎ (s.bootstrap.settings.trust_installation_dir ≡ true)
    pub miss : post.cache_hit ≡ false → s.locked ≡ true

-- An action that runs one operation, whatever comes of it.
abbrev pub Runs : {V : Type 0} → World V → (LifecycleStep → Run V (Unit {0})) → Type 0
Runs world dispatch =
    (step : LifecycleStep) (s : _) → (dispatch step s).1 ≡ running world (worker_operation step) s

module _ {V : Type 0} (armed armed_on_error : Bool) where
  kept_dropped : (a : Bool) (s : Machine V) → Kept a s → Kept a (drop_lock s)
  kept_dropped a s k = record { watch = k.watch; guarded = k.guarded; pristine = k.pristine }

  -- The end of the scope drops the lock, however the scope ends.
  pub unlocked_at_end-Kept :
      {A : Type 0} (r : Result BootstrapError A × Machine V)
      → Post (λ _. Kept armed) (Kept armed_on_error) r
      → Post
          (λ _ s. Kept armed s × (s.locked ≡ false))
          (λ s. Kept armed_on_error s × (s.locked ≡ false))
          (unlocked_at_end r)
  unlocked_at_end-Kept (ok a, s) k = (kept_dropped armed s k, refl)
  unlocked_at_end-Kept (err e, s) k = (kept_dropped armed_on_error s k, refl)
