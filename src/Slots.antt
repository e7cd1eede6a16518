-- ===== src/Slots.antt =====
-- src/bootstrap/prepare/cluster_slot/mod.rs (the sweep) and removal.rs, with
-- src/bootstrap/prepare/orphan.rs. A slot is called by its name. What the operating system answers is
-- a parameter: who holds a lock, what `postmaster.pid` holds, which processes live, which server a
-- process is, whether a stop works, and which files it lets the code remove.
pub mod Sweep
use pg_embed_setup_unpriv.Prelude.{
  ℕ, zero, suc, ◌+◌, Bool, true, false, not, ◌&&◌, ◌||◌, Option, none, some, List, [], ◌∷◌, ◌++◌,
  map, ltb, ◌==◌, nat_eq, list_eq, if◌then◌else◌,
}
use pg_embed_setup_unpriv.Prelude.Texts.{Text, codes, is_empty}

-- What an attempt to take a lock file's lock without blocking gives.
pub data LockFile : Type 0 where
  free held unusable : LockFile

pub data ServerState : Type 0 where
  absent : ServerState
  running unconfirmed : ℕ → ServerState

-- An entry of the slot parent: unreadable, or with its file name, if that is UTF-8.
pub data DirEntry : Type 0 where
  unreadable : DirEntry
  named : Option Text → DirEntry

-- The three things that a slot consists of.
pub data SlotFile : Type 0 where
  data_dir password_file lock_file : SlotFile

pub record System : Type 0 where
  pub lock : Text → LockFile
  pub postmaster_pid : Text → Option ℕ
  pub process_alive : ℕ → Bool
  pub is_server_for : ℕ → Text → Option Bool
  pub stop : ℕ → Bool
  pub can_remove : SlotFile → Text → Bool

-- Which files of which slots exist, and the processes that were asked to stop.
pub record Files : Type 0 where
  pub present : SlotFile → Text → Bool
  pub signalled : List ℕ

-- `str::strip_suffix`.
unfoldable pub strip_suffix : Text → Text → Option Text
unfolding list_eq
strip_suffix suffix [] = if suffix == [] then some [] else none
strip_suffix suffix (c ∷ text) =
    let rest = strip_suffix suffix text in
    if suffix == c ∷ text then some [] else elim rest [ none ↦ none | some stem ↦ some (c ∷ stem) ]

unfoldable pub nonempty : Option Text → Option Text
nonempty none = none
nonempty (some stem) = if is_empty stem then none else some stem

unfoldable pub lock_stem : DirEntry → Option Text
lock_stem unreadable = none
lock_stem (named none) = none
lock_stem (named (some file_name)) = nonempty (strip_suffix (codes ".lock") file_name)

-- `remove_slot_files`: every removal is attempted, and one that fails leaves its file.
unfoldable pub remove_files :
    (SlotFile → Text → Bool) → Text → (SlotFile → Text → Bool) → SlotFile → Text → Bool
unfolding list_eq
remove_files can_remove name present file other =
    present file other && not (other == name && can_remove file other)

unfoldable pub is_free : LockFile → Bool
is_free free = true
is_free held = false
is_free unusable = false

module _ (sys : System) where
  unfoldable pub take_dead_lock : Text → Bool
  take_dead_lock name = is_free (sys.lock name)

  unfoldable pub classify : Text → Option ℕ → ServerState
  classify name none = absent
  classify name (some pid) =
      if not (sys.process_alive pid) then absent else elim (sys.is_server_for pid name) [
        | some true ↦ running pid
        | some false ↦ absent
        | none ↦ unconfirmed pid
      ]

  unfoldable pub server_state : Text → ServerState
  server_state name = classify name (sys.postmaster_pid name)

  -- Whether the directory is free to remove, and the processes that were asked to stop.
  unfoldable pub stop_orphaned_server : ServerState → Bool × List ℕ
  stop_orphaned_server absent = (true, [])
  stop_orphaned_server (unconfirmed pid) = (false, [])
  stop_orphaned_server (running pid) = (sys.stop pid, pid ∷ [])

  unfoldable pub remove_slot : Text → Files → Files
  remove_slot name files = record files { present = remove_files sys.can_remove name files.present }

  unfoldable pub finish_sweep : Text → Bool × List ℕ → Files → Bool × Files
  finish_sweep name (false, pids) files =
      (false, record files { signalled = files.signalled ++ pids })
  finish_sweep name (true, pids) files =
      (true, remove_slot name (record files { signalled = files.signalled ++ pids }))

  unfoldable pub sweep_locked : Text → Bool → Files → Bool × Files
  sweep_locked name false files = (false, files)
  sweep_locked name true files = finish_sweep name (stop_orphaned_server (server_state name)) files

  unfoldable pub sweep_one : Text → Files → Bool × Files
  sweep_one name files = sweep_locked name (take_dead_lock name) files

  unfoldable pub count : Bool → ℕ → ℕ
  count true swept = suc swept
  count false swept = swept

  -- The loop of `sweep_dead_slots` over the entries that are locks.
  unfoldable pub sweep_entry : Option Text → Files → Bool × Files
  sweep_entry none files = (false, files)
  sweep_entry (some name) files = sweep_one name files

  unfoldable pub sweep_dead_slots : List DirEntry → Files → ℕ × Files
  sweep_dead_slots [] files = (0, files)
  sweep_dead_slots (entry ∷ entries) files =
      let (removed, files') = sweep_entry (lock_stem entry) files in
      let (swept, final) = sweep_dead_slots entries files' in (count removed swept, final)
