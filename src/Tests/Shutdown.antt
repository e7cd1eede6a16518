-- ===== src/Tests/Shutdown.antt =====
-- The end of a cluster that the worker manages, and whose data directory is the only slot
-- (src/cluster/shutdown.rs, src/cluster/async_api.rs), and the exit of a process that has registered
-- the hook, with a server that does not stop in time (src/cluster/shutdown_hook/mod.rs).
use pg_embed_setup_unpriv.Prelude.{
  ℕ, ◌+◌, ◌*◌, ◌≡◌, inl, refl, true, false, some, List, [], ◌∷◌, arith,
}
use pg_embed_setup_unpriv.Prelude.Texts.{codes}
use pg_embed_setup_unpriv.Error.{ok}
use pg_embed_setup_unpriv.Slots.{free, named}
use pg_embed_setup_unpriv.Cleanup.{Host, file, full}
use pg_embed_setup_unpriv.Extensions.Layout.{root_dir, normal}
use pg_embed_setup_unpriv.Shutdown.{stopped, Env, Guard, drop}
use pg_embed_setup_unpriv.Installation.Port.{contents}
use pg_embed_setup_unpriv.ShutdownHook.{
  ShutdownWork, registered, Process, Reach, here, next, enter, reserve, build, commit, set_call,
  reserving, reserve_shutdown_registration, build_shutdown_state, commit_shutdown_registration,
}
use pg_embed_setup_unpriv.ShutdownHook.Registration.{initial, IsConsistent, Reach-IsConsistent}
use pg_embed_setup_unpriv.ShutdownHook.Exit.{Event, exists, locked, World, shutdown_callback}
use pg_embed_setup_unpriv.ShutdownHook.Exit.Waiting.{IsClock}
use pg_embed_setup_unpriv.ShutdownHook.Exit.Laws.{Outcome, shutdown_callback-Outcome}
use pg_embed_setup_unpriv.Shutdown.Laws.{InOrder, drop-InOrder}

abbrev host : Host
host = record {
  metadata = λ dir name. file;
  can_guard = λ dir. true;
  read_dir = λ dir. some (named (some (codes "b.lock")) ∷ []);
  lock = λ dir name. free;
}

abbrev env : Env
env = record {
  worker_stop = ok tt;
  stop_outcome = stopped;
  first = host;
  second = host;
  can_spawn = true;
  can_build = true;
}

abbrev guard : Guard
guard = record {
  is_async = true;
  postgres = false;
  is_managed_via_worker = true;
  cleanup_mode = full;
  settings = record {
    data_dir = root_dir ∷ normal (codes "r") ∷ normal (codes "data") ∷ normal (codes "b") ∷ [];
    installation_dir = root_dir ∷ normal (codes "r") ∷ normal (codes "install") ∷ [];
    password_file = root_dir ∷ normal (codes "r") ∷ normal (codes "b.pgpass") ∷ [];
  };
}

drop-InOrder_example : InOrder env guard false (drop env guard)
drop-InOrder_example = drop-InOrder env guard

abbrev work : ShutdownWork
work = record { settings = guard.settings; shutdown_timeout = 120; cleanup_mode = full }

-- The server answers every probe.
abbrev world : World
world = record {
  file = contents (codes "4242\n/srv/data\n");
  probe = λ n. exists;
  start = 7;
  now = λ n. 7 + 50 * n;
  host = host;
}

world-IsClock : IsClock world
world-IsClock = record { first = omega arith; passes = λ n. omega arith }

shutdown_callback-Outcome_example :
    (events : List Event) × (shutdown_callback world (locked (registered work)) ≡ some events)
    × Outcome world (locked (registered work)) events
shutdown_callback-Outcome_example =
    shutdown_callback-Outcome world (locked (registered work)) world-IsClock

-- Thread 1 reserves, builds and commits, after thread 2 has asked for the same.
abbrev calls : ℕ → Process → Process
calls p s = record s { call = set_call p (reserving work) s.call }

abbrev reserved : Process
reserved = reserve_shutdown_registration 1 work initial.state (calls 2 (calls 1 initial))

abbrev ready : Process
ready = build_shutdown_state 1 work (ok (some 4242)) true reserved

reach : Reach initial (commit_shutdown_registration 1 work ready)
unfolding set_call reserve_shutdown_registration build_shutdown_state
reach =
    next
      (next
        (next (next (next here (enter 1 work (inl refl))) (enter 2 work (inl refl)))
          (reserve 1 work refl))
        (build 1 work (ok (some 4242)) true refl))
      (commit 1 work refl)

Reach-IsConsistent_example : IsConsistent (commit_shutdown_registration 1 work ready)
Reach-IsConsistent_example = Reach-IsConsistent (commit_shutdown_registration 1 work ready) reach
