-- ===== src/Cleanup.antt =====
-- src/cluster/cleanup.rs and src/cleanup_helpers.rs, with what they ask of
-- src/bootstrap/prepare/cluster_slot/mod.rs. Paths are those of Unix, as the standard library splits
-- them. The file system's answers are a parameter; logs and the watcher are left out.
pub mod Paths
pub mod Laws
pub mod Removal
use pg_embed_setup_unpriv.Prelude.{
  ℕ, Bool, true, false, not, ◌&&◌, ◌||◌, Option, none, some, List, [], ◌∷◌, ◌++◌, ◌==◌, list_eq,
  nat_eq, if◌then◌else◌,
}
use pg_embed_setup_unpriv.Prelude.Texts.{Text, codes}
use pg_embed_setup_unpriv.Slots.{LockFile, is_free, DirEntry, unreadable, named, lock_stem}
use pg_embed_setup_unpriv.Cleanup.Paths.{
  FilePath, parent, file_name, join, beq_path, starts_with, has_parent_dir, is_empty_or_root,
  is_dangerous_cleanup_path,
}

pub data CleanupMode : Type 0 where
  data_only full keep : CleanupMode

pub record Settings : Type 0 where
  pub data_dir : FilePath
  pub installation_dir : FilePath
  pub password_file : FilePath

-- What `metadata` says of a slot's lock file.
pub data Metadata : Type 0 where
  file not_file not_found unreadable_metadata : Metadata

-- `can_guard` says whether the claim guard of a slot parent can be taken.
pub record Host : Type 0 where
  pub metadata : FilePath → Text → Metadata
  pub can_guard : FilePath → Bool
  pub read_dir : FilePath → Option (List DirEntry)
  pub lock : FilePath → Text → LockFile

pub data SlotLookup : Type 0 where
  slot : FilePath → SlotLookup
  not_slot unknown : SlotLookup

-- A plan, and whether it holds the claim guard.
pub record CleanupPlan : Type 0 where
  pub mode : CleanupMode
  pub guard : Bool

unfoldable pub lookup_of : FilePath → Metadata → SlotLookup
lookup_of dir file = slot dir
lookup_of dir not_file = not_slot
lookup_of dir not_found = not_slot
lookup_of dir unreadable_metadata = unknown

unfoldable pub differs : Text → Option Text → Bool
unfolding list_eq
differs name none = true
differs name (some own) = not (name == own)

module _ (host : Host) where
  unfoldable pub slot_lookup_at : Option FilePath → Option Text → SlotLookup
  slot_lookup_at (some dir) (some own) = lookup_of dir (host.metadata dir own)
  slot_lookup_at _ _ = not_slot

  unfoldable pub slot_lookup : FilePath → SlotLookup
  slot_lookup data_dir = slot_lookup_at (parent data_dir) (file_name data_dir)

  unfoldable pub guard_for : SlotLookup → Option Bool
  guard_for not_slot = none
  guard_for (slot dir) = some (host.can_guard dir)
  guard_for unknown = some false

  -- None for no slot, and otherwise whether the guard could be taken.
  unfoldable pub claim_guard_for : FilePath → Option Bool
  claim_guard_for data_dir = guard_for (slot_lookup data_dir)

  unfoldable pub stem_held : FilePath → Option Text → Option Text → Bool
  stem_held dir own none = false
  stem_held dir own (some name) = differs name own && not (is_free (host.lock dir name))

  unfoldable pub entry_held : FilePath → Option Text → DirEntry → Bool
  entry_held dir own unreadable = true
  entry_held dir own (named name) = stem_held dir own (lock_stem (named name))

  unfoldable pub any_entry_held : FilePath → Option Text → List DirEntry → Bool
  any_entry_held dir own [] = false
  any_entry_held dir own (entry ∷ entries) =
      entry_held dir own entry || any_entry_held dir own entries

  unfoldable pub held_in : FilePath → Option Text → Option (List DirEntry) → Bool
  held_in dir own none = true
  held_in dir own (some entries) = any_entry_held dir own entries

  unfoldable pub any_slot_held : FilePath → Option Text → Bool
  any_slot_held dir own = held_in dir own (host.read_dir dir)

  unfoldable pub peers_of : SlotLookup → Option Text → Bool
  peers_of not_slot own = false
  peers_of unknown own = true
  peers_of (slot dir) none = false
  peers_of (slot dir) (some own) = any_slot_held dir (some own)

  unfoldable pub has_live_peers : FilePath → Bool
  has_live_peers data_dir = peers_of (slot_lookup data_dir) (file_name data_dir)

  unfoldable pub has_live_slots_in : FilePath → Bool
  has_live_slots_in dir = any_slot_held dir none

-- The directory, or the one it is in, that is called `install`.
unfoldable pub named_install : Option FilePath → Bool
unfolding list_eq
named_install none = false
named_install (some dir) = elim (file_name dir) [
  | none ↦ false
  | some name ↦ name == codes "install"
]

unfoldable pub data_beside : Option FilePath → Option FilePath
data_beside none = none
data_beside (some root) = some (join root (codes "data"))

unfoldable pub derived_from : FilePath → Bool → Bool → Option FilePath
derived_from install_dir true _ = data_beside (parent install_dir)
derived_from install_dir false true = elim (parent install_dir) [
  | none ↦ none
  | some root ↦ data_beside (parent root)
]
derived_from install_dir false false = none

unfoldable pub derived_slot_parent : FilePath → Option FilePath
derived_slot_parent install_dir =
    derived_from install_dir (named_install (some install_dir)) (named_install (parent install_dir))

abbrev pub kept : CleanupPlan
kept = record { mode = data_only; guard = false }

module _ (host : Host) where
  -- The derived slot parent, unless it is the data directory itself.
  unfoldable pub shared_parent : FilePath → Option FilePath → Option FilePath
  shared_parent data_dir none = none
  shared_parent data_dir (some dir) = if beq_path dir data_dir then none else some dir

  unfoldable pub plan_beside : Option FilePath → CleanupPlan
  plan_beside none = record { mode = full; guard = false }
  plan_beside (some dir) =
      if host.can_guard dir && not (has_live_slots_in host dir)
      then record { mode = full; guard = true }
      else kept

  unfoldable pub plan_for_unslotted : Settings → CleanupPlan
  plan_for_unslotted settings =
      plan_beside (shared_parent settings.data_dir (derived_slot_parent settings.installation_dir))

  unfoldable pub plan_guarded : Settings → Option Bool → CleanupPlan
  plan_guarded settings none = plan_for_unslotted settings
  plan_guarded settings (some guard) =
      if guard && not (has_live_peers host settings.data_dir)
      then record { mode = full; guard = true }
      else kept

  unfoldable pub plan_cleanup : CleanupMode → Settings → CleanupPlan
  plan_cleanup full settings = plan_guarded settings (claim_guard_for host settings.data_dir)
  plan_cleanup requested settings = record { mode = requested; guard = false }

unfoldable pub should_remove_data : CleanupMode → Bool
should_remove_data data_only = true
should_remove_data full = true
should_remove_data keep = false

unfoldable pub should_remove_install : CleanupMode → Bool
should_remove_install full = true
should_remove_install _ = false

unfoldable pub should_remove_install_root : FilePath → Settings → Bool
should_remove_install_root dir settings =
    not (beq_path dir settings.installation_dir)
    && not (has_parent_dir dir)
    && starts_with dir settings.installation_dir

-- The removals that are attempted: `guard_removal_path` refuses the rest.
unfoldable pub remove_dir_all_if_exists : FilePath → List FilePath
remove_dir_all_if_exists dir =
    if is_dangerous_cleanup_path dir || (is_empty_or_root dir || has_parent_dir dir)
    then []
    else dir ∷ []

unfoldable pub cleanup_data_dir : CleanupMode → Settings → List FilePath
cleanup_data_dir mode settings =
    if should_remove_data mode then remove_dir_all_if_exists settings.data_dir else []

unfoldable pub cleanup_install_root : Option FilePath → Settings → List FilePath
cleanup_install_root none settings = []
cleanup_install_root (some dir) settings =
    if should_remove_install_root dir settings then remove_dir_all_if_exists dir else []

unfoldable pub cleanup_install_dir : CleanupMode → Settings → List FilePath
cleanup_install_dir mode settings =
    if should_remove_install mode
    then remove_dir_all_if_exists settings.installation_dir
      ++ cleanup_install_root (parent settings.password_file) settings
    else []

-- `cleanup_in_process` as the list of the trees that it removes, in order.
unfoldable pub cleanup_with : CleanupMode → Settings → List FilePath
cleanup_with keep settings = []
cleanup_with mode settings = cleanup_data_dir mode settings ++ cleanup_install_dir mode settings

unfoldable pub cleanup_in_process : Host → CleanupMode → Settings → List FilePath
cleanup_in_process host requested settings =
    cleanup_with (plan_cleanup host requested settings).mode settings
