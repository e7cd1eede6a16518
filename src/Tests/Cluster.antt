-- ===== src/Tests/Cluster.antt =====
-- Retries, templates, slots, cleanups and installations, at concrete inputs.
use pg_embed_setup_unpriv.Prelude.{
  ℕ, ◌≡◌, inr, refl, Bool, true, false, Option, none, some, List, [], ◌∷◌, arith, All, nat_eq,
  list_eq, if◌then◌else◌, ◌==◌, leb,
}
use pg_embed_setup_unpriv.Prelude.Exec.{done, panicked}
use pg_embed_setup_unpriv.Prelude.Texts.{Text, codes}
use pg_embed_setup_unpriv.Error.{other, Result, ok, err}
use pg_embed_setup_unpriv.Retry.{lifecycle_timeout, embedded, io_error, BootstrapError}
use pg_embed_setup_unpriv.Template.{TemplateCreationOps, ensure_template_exists_with_lock}
use pg_embed_setup_unpriv.Template.Laws.{Contract, IsClean, ensure_template_exists-Clean}
use pg_embed_setup_unpriv.Slots.{
  is_free, free, held, System, Files, data_dir, DirEntry, named, lock_stem, strip_suffix, nonempty,
  classify, server_state, sweep_dead_slots,
}
use pg_embed_setup_unpriv.Slots.Sweep.{
  IsDead, Swept, sweep_dead_slots-Swept, sweep_dead_slots-removes,
}
use pg_embed_setup_unpriv.Cleanup.{
  full, Settings, Host, file, plan_cleanup, cleanup_in_process, plan_guarded, claim_guard_for,
  guard_for, slot_lookup, slot_lookup_at, lookup_of, has_live_peers, peers_of, any_slot_held,
  held_in, any_entry_held, entry_held, stem_held, differs,
}
use pg_embed_setup_unpriv.Cleanup.Paths.{parent, file_name, is_root}
use pg_embed_setup_unpriv.Cleanup.Laws.{IsAlone, plan_cleanup-full}
use pg_embed_setup_unpriv.Cleanup.Removal.{IsRemovable, cleanup_in_process-IsRemovable}
use pg_embed_setup_unpriv.Extensions.Layout.{root_dir, normal}
use pg_embed_setup_unpriv.Installation.{Semver, Entry, select_versioned_installation}
use pg_embed_setup_unpriv.Installation.Laws.{
  IsOrder, IsSelection, select_versioned_installation-best,
}

-- A time-out, then an I/O error of a download, then success.
abbrev attempts : ℕ → Result BootstrapError ℕ
attempts n =
    if leb n 1
    then err (record { kind = other; report = lifecycle_timeout ∷ [] })
    else if leb n 2
    then err (record { kind = other; report = embedded io_error ∷ [] })
    else ok 5432

-- A server with one template, and whether its setup is complete; a first setup panics half way.
abbrev Server : Type 0
Server = Bool × Bool

abbrev ops : TemplateCreationOps Server
ops = record {
  database_exists = λ s. done (ok s.0) s;
  create_database = λ s. done (ok tt) (true, false);
  drop_database = λ s. done (ok tt) (false, false);
  setup_fn = λ s. panicked s;
}

abbrev present : Server → Bool
present s = s.0

abbrev ready : Server → Bool
ready s = s.1

ops-Contract : Contract ops present ready
ops-Contract = record {
  asks = λ s. refl;
  reads = λ s s' b e. ground arith;
  creates = λ s s' e. ground arith;
  refuses = λ s s' f e. ground arith;
  drops = λ s s' e. ground arith;
  sets_up = λ s s' e. (cc, cc);
}

ensure_template_exists-Clean_example :
    IsClean ops present ready (ensure_template_exists_with_lock ops (false, false))
ensure_template_exists-Clean_example =
    ensure_template_exists-Clean ops present ready ops-Contract (false, false) refl

-- Slot "a" is held; slot "b" is dead, with a server that can be stopped.
abbrev sys : System
sys = record {
  lock = λ name. if name == codes "a" then held else free;
  postmaster_pid = λ name. some 42;
  process_alive = λ pid. true;
  is_server_for = λ pid name. some true;
  stop = λ pid. true;
  can_remove = λ which name. true;
}

abbrev files : Files
files = record { present = λ which name. true; signalled = [] }

abbrev lock_a : DirEntry
lock_a = named (some (codes "a.lock"))

abbrev lock_b : DirEntry
lock_b = named (some (codes "b.lock"))

lock_b-stem : lock_stem lock_b ≡ some (codes "b")
unfolding lock_stem strip_suffix nonempty list_eq
lock_b-stem = refl

b-IsDead : IsDead sys (codes "b")
unfolding server_state classify list_eq
b-IsDead = (refl, inr (42, (refl, refl, refl), refl))

sweep_dead_slots-Swept_example :
    Swept sys files (sweep_dead_slots sys (lock_a ∷ lock_b ∷ []) files).1
sweep_dead_slots-Swept_example = sweep_dead_slots-Swept sys (lock_a ∷ lock_b ∷ []) files

sweep_dead_slots-removes_example :
    (sweep_dead_slots sys (lock_a ∷ lock_b ∷ []) files).1.present data_dir (codes "b") ≡ false
sweep_dead_slots-removes_example =
    sweep_dead_slots-removes sys (lock_a ∷ []) [] lock_b files data_dir (codes "b") lock_b-stem
      b-IsDead refl

abbrev settings : Settings
settings = record {
  data_dir = root_dir ∷ normal (codes "r") ∷ normal (codes "data") ∷ normal (codes "b") ∷ [];
  installation_dir = root_dir ∷ normal (codes "r") ∷ normal (codes "install") ∷ [];
  password_file = root_dir ∷ normal (codes "r") ∷ normal (codes "b.pgpass") ∷ [];
}

-- The cluster's slot is the only one.
abbrev alone : Host
alone = record {
  metadata = λ dir name. file;
  can_guard = λ dir. true;
  read_dir = λ dir. some (lock_b ∷ []);
  lock = λ dir name. held;
}

alone-full : (plan_cleanup alone full settings).mode ≡ full
unfolding plan_cleanup plan_guarded claim_guard_for guard_for slot_lookup slot_lookup_at lookup_of
    parent file_name is_root has_live_peers peers_of any_slot_held held_in any_entry_held entry_held
    stem_held differs is_free lock_stem strip_suffix nonempty list_eq
alone-full = refl

plan_cleanup-full_example :
    (full ≡ full) × IsAlone alone settings (plan_cleanup alone full settings).guard
plan_cleanup-full_example = plan_cleanup-full alone full settings alone-full

cleanup_in_process-IsRemovable_example :
    All (IsRemovable alone full settings) (cleanup_in_process alone full settings)
cleanup_in_process-IsRemovable_example = cleanup_in_process-IsRemovable alone full settings

-- Versions are numbers of one digit.
abbrev digit : Text → Option ℕ
digit [] = none
digit (c ∷ _) = if leb 48 c then some c else none

abbrev semver : Semver ℕ
semver = record { parse = digit; leb = leb }

semver-IsOrder : IsOrder semver
semver-IsOrder = record { total = λ a b h. ground arith; trans = λ a b c h k. ground arith }

abbrev listing : List (Option Entry)
listing =
    some (record { is_dir = true; has_bin = true; name = some (codes "6"); path = codes "6" })
    ∷ some (record { is_dir = true; has_bin = true; name = some (codes "7"); path = codes "7" })
    ∷ none
    ∷ []

select_versioned_installation-best_example :
    IsSelection semver
      (λ v. leb v 54)
      listing
      (select_versioned_installation semver (λ v. leb v 54) (some listing))
select_versioned_installation-best_example =
    select_versioned_installation-best semver semver-IsOrder (λ v. leb v 54) listing
