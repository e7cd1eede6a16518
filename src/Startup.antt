-- ===== src/Startup.antt =====
-- src/cluster/startup.rs, startup_watch.rs, startup_setup_only.rs, setup_lock.rs and
-- extension_hook.rs: what a start does to the shared install tree, and under which lock. The state is
-- the bootstrap, whether this start holds the setup lock, whether its owner's watcher is armed, and
-- the log of what it did. What the lock, the cache, the worker, the server, the disk and the
-- extension installation answer are parameters. Timing and the process's own logs are left out.
pub mod Hook
pub mod Lifecycle
pub mod Twins
pub mod Discipline
pub mod Agreement
pub mod Equivalence
use pg_embed_setup_unpriv.Prelude.{
  ℕ, Bool, true, false, Option, none, some, List, [], ◌∷◌, if◌then◌else◌,
}
use pg_embed_setup_unpriv.Prelude.Texts.{Text}
use pg_embed_setup_unpriv.Error.{Result, ok, err}
use pg_embed_setup_unpriv.Retry.{BootstrapError}
use pg_embed_setup_unpriv.Fallible.{Action}
use pg_embed_setup_unpriv.Installation.{Semver, Entry}
use pg_embed_setup_unpriv.Installation.Port.{PidFile}
use pg_embed_setup_unpriv.Cache.Use.{Settings, Host, try_use_binary_cache}
use pg_embed_setup_unpriv.Bootstrap.{
  ExtensionRequest, InstalledExtension, TestBootstrapSettings, other_error,
}
use pg_embed_setup_unpriv.Worker.{WorkerOperation, Future, Workers}

pub data LifecycleStep : Type 0 where
  setup start : LifecycleStep

unfoldable pub worker_operation : LifecycleStep → WorkerOperation
worker_operation setup = WorkerOperation.setup
worker_operation start = WorkerOperation.start

-- A step that another process could notice. `run` says whether the settings trust the install tree.
pub data Event : Type 0 where
  take_lock use_cache populate install : Text → Event
  run : WorkerOperation → Bool → Event

-- An event, and whether the setup lock was held when it happened.
abbrev pub Logged : Type 0
Logged = Event × Bool

-- The newest event comes first in the log.
pub record Machine (V : Type 0) : Type 0 where
  pub bootstrap : TestBootstrapSettings V
  pub locked : Bool
  pub watching : Bool
  pub log : List Logged

-- `has_bin` and `listing` are those of the install tree after `Setup`; `reported` is what a
-- `PostgreSQL` says of its settings after it was started with some.
pub record World (V : Type 0) : Type 0 where
  pub semver : Semver V
  pub version_text : (V → Bool) → Text
  pub cache : Host V
  pub take_lock : Text → List Logged → Result BootstrapError (Unit {0})
  pub can_watch : Bool
  pub workers : Workers
  pub future : WorkerOperation → Settings V → Future
  pub has_bin : Text → Bool
  pub listing : Text → Option (List (Option Entry))
  pub install_extensions : ExtensionRequest → Text → Result BootstrapError (List InstalledExtension)
  pub read_pid : ℕ → PidFile
  pub reported : Settings V → Settings V

-- `&mut` bootstrap and the rest of the machine, with the errors of a bootstrap.
abbrev pub Run : Type 0 → Type 0 → Type 0
Run V A = Action (Machine V) BootstrapError A

module _ {V : Type 0} where
  abbrev pub logged : Event → Machine V → Machine V
  logged e s = record s { log = (e, s.locked) ∷ s.log }

  abbrev pub drop_lock : Machine V → Machine V
  drop_lock s = record s { locked = false }

  abbrev pub unlocked_at_end :
      {A : Type 0} → Result BootstrapError A × Machine V → Result BootstrapError A × Machine V
  unlocked_at_end (r, s) = (r, drop_lock s)

  -- A block that owns the lock, which is dropped at its end.
  abbrev pub scoped : {A : Type 0} → Run V A → Run V A
  scoped m s = unlocked_at_end (m s)

-- How the hook finds the lock: still held, or released after a cache hit.
pub data InstallLock : Type 0 where
  held : InstallLock
  released : Text → InstallLock

module _ {V : Type 0} (world : World V) where
  -- `SetupLock::install_root`: the installation directory, if it is UTF-8.
  unfoldable pub install_root : Run V Text
  install_root s =
      let dir = s.bootstrap.settings.installation_dir in
      (if world.cache.is_utf8 dir then ok dir else err other_error, s)

  unfoldable pub taken : Result BootstrapError (Unit {0}) → Run V (Unit {0})
  taken (ok u) s = (ok tt, record s { locked = true })
  taken (err e) s = (err e, s)

  -- `SetupLock::acquire_at`, with the attempt in the log.
  unfoldable pub acquire_at : Text → Run V (Unit {0})
  acquire_at root s = taken (world.take_lock root s.log) (logged (take_lock root) s)

  unfoldable pub after_cache_lookup : Bool → Text → Run V InstallLock
  after_cache_lookup true root s = (ok (released root), drop_lock s)
  after_cache_lookup false root s = (ok held, s)

  unfoldable pub cache_lookup : Bool × Settings V → Run V Bool
  cache_lookup (hit, settings) s =
      (ok hit, record s { bootstrap = record s.bootstrap { settings = settings } })

  -- The call of `try_use_binary_cache`, which may copy a version into the install tree.
  unfoldable pub look_in_cache : Run V Bool
  look_in_cache s =
      cache_lookup (try_use_binary_cache world.cache world.semver s.bootstrap.settings)
        (logged (use_cache s.bootstrap.settings.installation_dir) s)

  unfoldable pub watch_for_owner_death : Run V (Unit {0})
  watch_for_owner_death s = (ok tt, record s { watching = world.can_watch })

  unfoldable pub release_owner_watcher : Machine V → Machine V
  release_owner_watcher s = record s { watching = false }
