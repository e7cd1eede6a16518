-- ===== src/ShutdownHook/Exit.antt =====
-- src/cluster/shutdown_hook/mod.rs, pidfile.rs, cleanup.rs and, for Unix, platform.rs: what the hook
-- does when the process exits. The n-th probe of the server and the clock's n-th reading are
-- parameters. Times are milliseconds.
pub mod Process
pub mod Waiting
pub mod Laws
use pg_embed_setup_unpriv.Prelude.{
  ℕ, suc, zero, ◌+◌, Bool, true, false, not, Option, none, some, List, [], ◌∷◌, ◌++◌, leb, ltb, map,
  if◌then◌else◌,
}
use pg_embed_setup_unpriv.Prelude.Texts.{Text, trim, is_empty}
use pg_embed_setup_unpriv.Error.{other, BootstrapResult, ok, err, ok_or, ◌>>=◌}
use pg_embed_setup_unpriv.Installation.Port.{
  PidFile, contents, not_found, unreadable_pid, lines, parse_number,
}
use pg_embed_setup_unpriv.Cleanup.{Host, cleanup_in_process}
use pg_embed_setup_unpriv.Cleanup.Paths.{FilePath}
use pg_embed_setup_unpriv.ShutdownHook.{
  ShutdownWork, ShutdownRegistrationState, empty, registering, registered,
}

-- `i32::MAX`, of `pid_t`.
abbrev pub pid_max : ℕ
pid_max = 2147483647

-- A negative number is no result either way.
unfoldable pub positive : Option ℕ → Option ℕ
positive none = none
positive (some pid) = if ltb 0 pid then some pid else none

unfoldable pub parse_pid : Text → Option ℕ
parse_pid raw = positive (parse_number pid_max (trim raw))

unfoldable pub parse_postmaster_process : List Text → Option ℕ
parse_postmaster_process [] = none
parse_postmaster_process (first_line ∷ more) = parse_pid first_line

unfoldable pub read_postmaster_pid_file : PidFile → BootstrapResult Text
read_postmaster_pid_file (contents text) = ok text
read_postmaster_pid_file not_found = ok []
read_postmaster_pid_file unreadable_pid = err other

unfoldable pub process_of : Option ℕ → BootstrapResult (Option ℕ)
process_of none = err other
process_of (some pid) = ok (some pid)

unfoldable pub process_in : Text → BootstrapResult (Option ℕ)
process_in text =
    if is_empty (trim text) then ok none else process_of (parse_postmaster_process (lines text))

unfoldable pub read_postmaster_process_from_dir : PidFile → BootstrapResult (Option ℕ)
read_postmaster_process_from_dir file = read_postmaster_pid_file file >>= process_in

-- What signal 0 gives.
pub data Probe : Type 0 where
  exists no_such_process probe_failed : Probe

unfoldable pub probed : Probe → BootstrapResult Bool
probed exists = ok true
probed no_such_process = ok false
probed probe_failed = err other

unfoldable pub process_is_running_for_platform : ℕ → Probe → BootstrapResult Bool
process_is_running_for_platform pid probe = if leb pid 0 then ok false else probed probe

unfoldable pub or_running : BootstrapResult Bool → Bool
or_running (ok running) = running
or_running (err e) = true

unfoldable pub postmaster_process_is_running_for_shutdown : ℕ → Probe → Bool
postmaster_process_is_running_for_shutdown pid probe =
    or_running (process_is_running_for_platform pid probe)

pub data Event : Type 0 where
  sigterm sigkill : ℕ → Event
  remove_dir_all : FilePath → Event

unfoldable pub send_signal : (ℕ → Event) → ℕ → List Event
send_signal signal pid = if leb pid 0 then [] else signal pid ∷ []

-- What `try_lock` gives.
pub data TryLock : Type 0 where
  locked poisoned : ShutdownRegistrationState → TryLock
  would_block : TryLock

unfoldable pub work_of : ShutdownRegistrationState → Option ShutdownWork
work_of (registered work) = some work
work_of empty = none
work_of registering = none

unfoldable pub shutdown_work : TryLock → Option ShutdownWork
shutdown_work (locked state) = work_of state
shutdown_work (poisoned state) = work_of state
shutdown_work would_block = none

-- The clock is read when the wait starts, and after each probe.
pub record World : Type 0 where
  pub file : PidFile
  pub probe : ℕ → Probe
  pub start : ℕ
  pub now : ℕ → ℕ
  pub host : Host

module _ (world : World) where
  unfoldable pub best_effort_cleanup : ShutdownWork → List Event
  best_effort_cleanup work =
      map remove_dir_all (cleanup_in_process world.host work.cleanup_mode work.settings)

  -- From the n-th probe; none if the fuel runs out.
  unfoldable pub wait_for_exit : ℕ → ℕ → ℕ → ℕ → Option Bool
  wait_for_exit zero pid deadline n = none
  wait_for_exit (suc fuel) pid deadline n =
      let rest = wait_for_exit fuel pid deadline (suc n) in
      if not (postmaster_process_is_running_for_shutdown pid (world.probe n))
      then some true
      else if leb deadline (world.now n)
      then some false
      else rest

  unfoldable pub after_wait : ℕ → Option Bool → Option (List Event)
  after_wait pid none = none
  after_wait pid (some true) = some (send_signal sigterm pid)
  after_wait pid (some false) = some (send_signal sigterm pid ++ send_signal sigkill pid)

  unfoldable pub stop_postmaster : ℕ → ShutdownWork → Option (List Event)
  stop_postmaster pid work =
      after_wait pid
        (wait_for_exit (suc work.shutdown_timeout) pid (world.start + work.shutdown_timeout) 1)

  unfoldable pub then_clean : ShutdownWork → Option (List Event) → Option (List Event)
  then_clean work none = none
  then_clean work (some events) = some (events ++ best_effort_cleanup work)

  unfoldable pub shut_down : ShutdownWork → BootstrapResult (Option ℕ) → Option (List Event)
  shut_down work (err e) = some []
  shut_down work (ok none) = some (best_effort_cleanup work)
  shut_down work (ok (some pid)) =
      if not (postmaster_process_is_running_for_shutdown pid (world.probe 0))
      then some (best_effort_cleanup work)
      else then_clean work (stop_postmaster pid work)

  unfoldable pub with_work : Option ShutdownWork → Option (List Event)
  with_work none = some []
  with_work (some work) = shut_down work (read_postmaster_process_from_dir world.file)

  unfoldable pub shutdown_callback : TryLock → Option (List Event)
  shutdown_callback lock = with_work (shutdown_work lock)
