-- ===== src/ShutdownHook/Exit/Laws.antt =====
-- What is cleaned up at the exit, and which signals are sent.
use pg_embed_setup_unpriv.Prelude.{
  ℕ, suc, zero, ◌+◌, ◌≤◌, ◌<◌, ◌≡◌, refl, Bool, true, false, not, nat_eq, Option, none, some, List,
  [], ◌∷◌, leb, map, if◌then◌else◌, arith,
}
use pg_embed_setup_unpriv.Error.{BootstrapResult, ok, err}
use pg_embed_setup_unpriv.ShutdownHook.{ShutdownWork, empty, registering, registered}
use pg_embed_setup_unpriv.Cleanup.{cleanup_in_process}
use pg_embed_setup_unpriv.ShutdownHook.Exit.{
  read_postmaster_process_from_dir, postmaster_process_is_running_for_shutdown, Event, sigterm,
  sigkill, send_signal, TryLock, locked, poisoned, would_block, shutdown_work, work_of,
  remove_dir_all, World, best_effort_cleanup, wait_for_exit, after_wait, stop_postmaster,
  then_clean, shut_down, with_work, shutdown_callback,
}
use pg_embed_setup_unpriv.ShutdownHook.Exit.Process.{
  IsPid, IsBlank, IsNamed, IsMalformed, ReadOf, read-ReadOf,
}
use pg_embed_setup_unpriv.ShutdownHook.Exit.Waiting.{
  Runs, IsThere, IsAway, Runs-IsThere, IsGone-IsAway, IsClock, Waited, wait_for_exit-Found,
}

module _ (world : World) where
  -- The removals of a cleanup of the hook's mode.
  abbrev pub cleaned : ShutdownWork → List Event
  cleaned work = map remove_dir_all (cleanup_in_process world.host work.cleanup_mode work.settings)

  -- How the exit of a process with a registered hook goes.
  pub data IsExit (work : ShutdownWork) : List Event → Type 0 where
    unknown : IsMalformed world.file → IsExit work []
    no_server : IsBlank world.file → IsExit work (cleaned work)
    gone_before : (pid : ℕ) → IsNamed world.file pid → IsAway world 0 → IsExit work (cleaned work)
    stopped :
        (pid n : ℕ)
        → IsNamed world.file pid
        → 1 ≤ n
        → IsAway world n
        → ((j : ℕ) → j < n → IsThere world j)
        → IsExit work (sigterm pid ∷ cleaned work)
    killed :
        (pid n : ℕ)
        → IsNamed world.file pid
        → world.start + work.shutdown_timeout ≤ world.now n
        → ((j : ℕ) → j ≤ n → IsThere world j)
        → IsExit work (sigterm pid ∷ sigkill pid ∷ cleaned work)

  abbrev pub Outcome : TryLock → List Event → Type 0
  Outcome (locked (registered work)) events = IsExit work events
  Outcome (poisoned (registered work)) events = IsExit work events
  Outcome _ events = events ≡ []

  stop-IsExit :
      (work : ShutdownWork) (pid : ℕ)
      → IsClock world
      → IsNamed world.file pid
      → IsPid pid
      → Runs world pid 0
      → (events : List Event) × (then_clean world work (stop_postmaster world pid work)
          ≡ some events)
        × IsExit work events
  unfolding stop_postmaster then_clean after_wait send_signal best_effort_cleanup
  stop-IsExit work pid clock f valid r =
      let deadline = world.start + work.shutdown_timeout in
      let (gone, e, w) =
        wait_for_exit-Found world pid deadline clock work.shutdown_timeout 1
          (omega (arith, clock.first)) in
      let signals : leb pid 0 ≡ false = ground (arith, valid.0) in by_wait gone e w signals
    where
      from_zero : (P : ℕ → Type 0) → P 0 → ((j : ℕ) → 1 ≤ j → P j) → (j : ℕ) → P j
      from_zero P z s zero = z
      from_zero P z s (suc j) = s (suc j) (omega arith)

      by_wait :
          (gone : Bool)
          → wait_for_exit world
              (suc work.shutdown_timeout)
              pid
              (world.start + work.shutdown_timeout)
              1
            ≡ some gone
          → Waited world pid (world.start + work.shutdown_timeout) 1 gone
          → leb pid 0 ≡ false
          → (events : List Event) × (then_clean world work (stop_postmaster world pid work)
              ≡ some events)
            × IsExit work events
      by_wait true e (n, h, g, all) s = (
        sigterm pid ∷ cleaned work,
        rw e (rw s refl),
        stopped pid n f h (IsGone-IsAway world pid n valid g) (
            from_zero (λ j. j < n → IsThere world j) (λ _. Runs-IsThere world pid 0 valid r)
              (λ j k l. Runs-IsThere world pid j valid (all j k l))),
      )
      by_wait false e (n, h, d, all) s = (
        sigterm pid ∷ sigkill pid ∷ cleaned work,
        rw e (rw s refl),
        killed pid n f d (
            from_zero (λ j. j ≤ n → IsThere world j) (λ _. Runs-IsThere world pid 0 valid r)
              (λ j k l. Runs-IsThere world pid j valid (all j k l))),
      )

  shut_down-IsExit :
      (work : ShutdownWork)
      → IsClock world
      → (events : List Event) × (shut_down world work (read_postmaster_process_from_dir world.file)
          ≡ some events)
        × IsExit work events
  unfolding shut_down best_effort_cleanup
  shut_down-IsExit work clock =
      by_file (read_postmaster_process_from_dir world.file) (read-ReadOf world.file)
    where
      by_probe :
          (pid : ℕ) (running : Bool)
          → IsNamed world.file pid
          → IsPid pid
          → postmaster_process_is_running_for_shutdown pid (world.probe 0) ≡ running
          → (events : List Event) × ((if not running
                then some (best_effort_cleanup world work)
                else then_clean world work (stop_postmaster world pid work))
              ≡ some events)
            × IsExit work events
      by_probe pid true f valid r = stop-IsExit work pid clock f valid r
      by_probe pid false f valid r =
          (cleaned work, refl, gone_before pid f (IsGone-IsAway world pid 0 valid r))

      by_file :
          (file : BootstrapResult (Option ℕ))
          → ReadOf world.file file
          → (events : List Event) × (shut_down world work file ≡ some events) × IsExit work events
      by_file (err e) f = ([], refl, unknown f)
      by_file (ok none) f = (cleaned work, refl, no_server f)
      by_file (ok (some pid)) (text, e, (first, more, l, p, valid)) =
          by_probe pid (postmaster_process_is_running_for_shutdown pid (world.probe 0))
            (text, e, (first, more, l, p, valid)) valid refl

  -- With a clock that goes on while the hook sleeps, the hook comes to an end. Without a registration
  -- it does nothing, and where the process file cannot be read or is malformed it sends no signal and
  -- removes nothing. Else it cleans up, but only once the file is missing or blank, a probe found the
  -- server gone, or it was killed: that comes after the deadline and a first signal, with every probe
  -- up to then finding it there or failing. A signal goes to a positive identifier only.
  pub shutdown_callback-Outcome :
      (lock : TryLock)
      → IsClock world
      → (events : List Event) × (shutdown_callback world lock ≡ some events) × Outcome lock events
  unfolding shutdown_callback with_work shutdown_work work_of
  shutdown_callback-Outcome (locked (registered work)) clock = shut_down-IsExit work clock
  shutdown_callback-Outcome (poisoned (registered work)) clock = shut_down-IsExit work clock
  shutdown_callback-Outcome (locked empty) clock = ([], refl, refl)
  shutdown_callback-Outcome (locked registering) clock = ([], refl, refl)
  shutdown_callback-Outcome (poisoned empty) clock = ([], refl, refl)
  shutdown_callback-Outcome (poisoned registering) clock = ([], refl, refl)
  shutdown_callback-Outcome would_block clock = ([], refl, refl)
