-- ===== src/Cache.antt =====
-- src/cache/operations/lookup.rs, populate.rs and the top of copy.rs, with
-- src/cluster/cache_integration.rs: the cache of server binaries. Versions are the semver crate's.
-- What the file system answers to each copy, write and lock is a parameter.
pub mod Merging
pub mod Populate
pub mod Lookup
pub mod Use
use pg_embed_setup_unpriv.Prelude.{
  ℕ, Bool, true, false, not, ◌&&◌, ◌||◌, Option, none, some, List, [], ◌∷◌, ◌++◌, ◌==◌, nat_eq,
  list_eq, if◌then◌else◌,
}
use pg_embed_setup_unpriv.Prelude.Texts.{Text, codes}

pub data FileKind : Type 0 where
  regular_file folder link : FileKind

-- An entry of a version's directory: what stands under each name, the length of the file that is
-- reached there, if one is, and whether all below it is known to have the source's contents.
pub record VersionDir : Type 0 where
  pub kind : Text → Option FileKind
  pub file_size : Text → Option ℕ
  pub whole : Text → Bool

pub record Item : Type 0 where
  pub name : Text
  pub item_kind : FileKind
  pub size : ℕ

-- How the copy of one item goes: it may fail with a part of it in place.
pub data CopyAnswer : Type 0 where
  copied cut_short refused : CopyAnswer

abbrev pub completion_marker : Text
completion_marker = codes ".complete"

unfoldable pub exists : Option FileKind → Bool
exists none = false
exists (some kind) = true

unfoldable pub is_folder : Option FileKind → Bool
is_folder (some folder) = true
is_folder _ = false

unfoldable pub is_cache_entry_complete : VersionDir → Bool
is_cache_entry_complete dir =
    exists (dir.kind completion_marker) && is_folder (dir.kind (codes "bin"))

unfoldable pub is_regular : FileKind → Bool
is_regular regular_file = true
is_regular _ = false

unfoldable pub has_size : ℕ → Option ℕ → Bool
has_size size none = false
has_size size (some other) = other == size

unfoldable pub is_already_installed : Item → VersionDir → Bool
is_already_installed item dir =
    exists (dir.kind item.name) && has_size item.size (dir.file_size item.name)

-- What a copy puts at the item's name, wholly or in part.
unfoldable pub place : Item → Bool → VersionDir → VersionDir
unfolding list_eq
place item whole dir = record {
  kind = λ other. if other == item.name then some item.item_kind else dir.kind other;
  file_size = λ other.
      if other == item.name
      then if is_regular item.item_kind && whole then some item.size else none
      else dir.file_size other;
  whole = λ other. if other == item.name then whole else dir.whole other;
}

-- A folder is copied into one that is already there, whose files of the source's lengths stay as
-- they are; a link that is there is replaced unless it is the same.
unfoldable pub is_replaced : Item → VersionDir → Bool
is_replaced item dir = not (is_folder (some item.item_kind) && exists (dir.kind item.name))

abbrev pub marker : Item
marker = record { name = completion_marker; item_kind = regular_file; size = 0 }

module _ (answer : Text → CopyAnswer) where
  unfoldable pub copied_item :
      CopyAnswer → Item → (VersionDir → Bool × VersionDir) → VersionDir → Bool × VersionDir
  copied_item copied item next dir =
      next (place item (is_replaced item dir || dir.whole item.name) dir)
  copied_item cut_short item next dir = (false, place item false dir)
  copied_item refused item next dir = (false, dir)

  -- One round of the loop of `copy_dir_recursive`; `next` is the rest. A regular file is left alone
  -- where one of its length stands.
  unfoldable pub copy_item :
      CopyAnswer → Item → (VersionDir → Bool × VersionDir) → VersionDir → Bool × VersionDir
  copy_item a item next dir = elim (is_regular item.item_kind && is_already_installed item dir) [
    | true ↦ next dir
    | false ↦ copied_item a item next dir
  ]

  unfoldable pub copy_dir : List Item → VersionDir → Bool × VersionDir
  copy_dir [] dir = (true, dir)
  copy_dir (item ∷ items) dir = copy_item (answer item.name) item (copy_dir items) dir

  module _ (can_mark : Bool) where
    unfoldable pub write_completion_marker : Bool × VersionDir → Bool × VersionDir
    write_completion_marker (false, dir) = (false, dir)
    write_completion_marker (true, dir) =
        if can_mark then (true, place marker true dir) else (false, dir)

    -- The source's items, or none where it cannot be listed.
    unfoldable pub populate_cache : Option (List Item) → VersionDir → Bool × VersionDir
    populate_cache none dir = (false, dir)
    populate_cache (some items) dir = write_completion_marker (copy_dir items dir)

    -- `installed` is the listing of the directory that was resolved, if there is one; `before` is
    -- the entry as it is found first, and `again` as it is found under the exclusive lock.
    unfoldable pub try_populate_binary_cache :
        Option (Option (List Item)) → Bool → VersionDir → Bool → VersionDir → Bool → VersionDir
    try_populate_binary_cache none is_version before locked again is_utf8 = again
    try_populate_binary_cache (some source) is_version before locked again is_utf8 =
        if not is_version
        then again
        else if is_cache_entry_complete before
        then again
        else if not locked
        then again
        else if is_cache_entry_complete again
        then again
        else if not is_utf8
        then again
        else (populate_cache source again).1
