-- ===== src/ShutdownHook.antt =====
-- src/cluster/shutdown_hook/mod.rs: the registration of the process-exit hook, by threads that share
-- its state behind a mutex. A step of a thread is one stretch that it holds the mutex for, or its
-- work between two of them. The condition variable is no state: a thread that finds the registration
-- under way stays where it is and may look again. ShutdownHook.Exit: what the hook does.
pub mod Registration
pub mod Exit
use pg_embed_setup_unpriv.Prelude.{
  ℕ, ◌+◌, ◌≡◌, ◌⊎◌, Bool, true, false, Option, none, some, ◌==◌, nat_eq, if◌then◌else◌,
}
use pg_embed_setup_unpriv.Error.{other, BootstrapErrorKind, BootstrapResult, ok, err}
use pg_embed_setup_unpriv.Cleanup.{CleanupMode, Settings}

-- The timeout is in milliseconds.
pub record ShutdownWork : Type 0 where
  pub settings : Settings
  pub shutdown_timeout : ℕ
  pub cleanup_mode : CleanupMode

pub data ShutdownRegistrationState : Type 0 where
  empty registering : ShutdownRegistrationState
  registered : ShutdownWork → ShutdownRegistrationState

-- What a thread does about the hook.
pub data Call : Type 0 where
  idle : Call
  reserving building built : ShutdownWork → Call
  failed : BootstrapErrorKind → Call
  returned : BootstrapResult (Unit {0}) → Call

-- `callbacks` counts the callbacks that the C runtime took.
pub record Process : Type 0 where
  pub state : ShutdownRegistrationState
  pub callbacks : ℕ
  pub call : ℕ → Call

unfoldable pub set_call : ℕ → Call → (ℕ → Call) → ℕ → Call
set_call p new call q = if q == p then new else call q

-- One look at the state.
unfoldable pub reserve_shutdown_registration :
    ℕ → ShutdownWork → ShutdownRegistrationState → Process → Process
reserve_shutdown_registration p work empty s = record s {
  state = registering;
  call = set_call p (building work) s.call;
}
reserve_shutdown_registration p work (registered other_work) s = record s {
  call = set_call p (returned (ok tt)) s.call;
}
reserve_shutdown_registration p work registering s = s

-- By what the process file gives, and whether `atexit` takes the callback.
unfoldable pub build_shutdown_state :
    ℕ → ShutdownWork → BootstrapResult (Option ℕ) → Bool → Process → Process
build_shutdown_state p work (err e) taken s = record s { call = set_call p (failed e) s.call }
build_shutdown_state p work (ok file) false s = record s { call = set_call p (failed other) s.call }
build_shutdown_state p work (ok file) true s = record s {
  callbacks = s.callbacks + 1;
  call = set_call p (built work) s.call;
}

unfoldable pub commit_shutdown_registration : ℕ → ShutdownWork → Process → Process
commit_shutdown_registration p work s = record s {
  state = registered work;
  call = set_call p (returned (ok tt)) s.call;
}

unfoldable pub rollback_shutdown_registration : ℕ → BootstrapErrorKind → Process → Process
rollback_shutdown_registration p e s = record s {
  state = empty;
  call = set_call p (returned (err e)) s.call;
}

-- One step of thread `p` in `register_shutdown_hook`, which it may call again.
pub data Step (s : Process) : Process → Type 0 where
  enter :
      (p : ℕ) (work : ShutdownWork)
      → (s.call p ≡ idle) ⊎ ((r : BootstrapResult (Unit {0})) × (s.call p ≡ returned r))
      → Step s (record s { call = set_call p (reserving work) s.call })
  reserve :
      (p : ℕ) (work : ShutdownWork)
      → s.call p ≡ reserving work
      → Step s (reserve_shutdown_registration p work s.state s)
  build :
      (p : ℕ) (work : ShutdownWork) (file : BootstrapResult (Option ℕ)) (taken : Bool)
      → s.call p ≡ building work
      → Step s (build_shutdown_state p work file taken s)
  commit :
      (p : ℕ) (work : ShutdownWork)
      → s.call p ≡ built work
      → Step s (commit_shutdown_registration p work s)
  rollback :
      (p : ℕ) (e : BootstrapErrorKind)
      → s.call p ≡ failed e
      → Step s (rollback_shutdown_registration p e s)

pub data Reach (s : Process) : Process → Type 0 where
  here : Reach s s
  next : {t u : Process} → Reach s t → Step t u → Reach s u
