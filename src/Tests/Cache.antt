-- ===== src/Tests/Cache.antt =====
-- A cache of one complete entry (src/cache/, src/cluster/cache_integration.rs).
use pg_embed_setup_unpriv.Prelude.{
  ℕ, ◌≡◌, refl, true, false, Option, none, some, List, [], ◌∷◌, nat_eq, list_eq, if◌then◌else◌, leb,
  All, arith,
}
use pg_embed_setup_unpriv.Prelude.Texts.{Text, codes}
use pg_embed_setup_unpriv.Installation.{Semver}
use pg_embed_setup_unpriv.Installation.Laws.{IsOrder}
use pg_embed_setup_unpriv.Cache.{
  regular_file, folder, VersionDir, completion_marker, Item, CopyAnswer, copied, exists, is_folder,
  is_cache_entry_complete, is_regular, is_already_installed, is_replaced, place, copied_item,
  copy_item, copy_dir, write_completion_marker, populate_cache,
}
use pg_embed_setup_unpriv.Cache.Merging.{IsCopied}
use pg_embed_setup_unpriv.Cache.Populate.{NotMarker, populate_cache-IsCopied}
use pg_embed_setup_unpriv.Cache.Lookup.{CacheEntry, find_matching_cached_version}
use pg_embed_setup_unpriv.Cache.Lookup.Laws.{IsHighest, find_matching_cached_version-IsHighest}
use pg_embed_setup_unpriv.Cache.Use.{
  Settings, Host, IsUse, try_use_binary_cache, try_use_binary_cache-IsUse,
}

abbrev empty_dir : VersionDir
empty_dir = record { kind = λ name. none; file_size = λ name. none; whole = λ name. false }

abbrev items : List Item
items =
    record { name = codes "bin"; item_kind = folder; size = 0 }
    ∷ record { name = codes "COPYRIGHT"; item_kind = regular_file; size = 3 }
    ∷ []

abbrev always : Text → CopyAnswer
always name = copied

filled : is_cache_entry_complete (populate_cache always true (some items) empty_dir).1 ≡ true
unfolding is_cache_entry_complete populate_cache write_completion_marker copy_dir copy_item
    copied_item is_regular is_already_installed is_replaced place exists is_folder list_eq
filled = refl

items-NotMarker : All NotMarker items
unfolding list_eq
items-NotMarker = (refl, (refl, tt))

no_marker : exists (empty_dir.kind completion_marker) ≡ false
unfolding exists
no_marker = refl

populate_cache-IsCopied_example :
    All (IsCopied empty_dir (populate_cache always true (some items) empty_dir).1) items
populate_cache-IsCopied_example =
    populate_cache-IsCopied always true items empty_dir items-NotMarker no_marker filled

-- Versions are numbers of one digit.
abbrev digit : Text → Option ℕ
digit [] = none
digit (c ∷ _) = if leb 48 c then some c else none

abbrev semver : Semver ℕ
semver = record { parse = digit; leb = leb }

semver-IsOrder : IsOrder semver
semver-IsOrder = record { total = λ a b h. ground arith; trans = λ a b c h k. ground arith }

abbrev listing : List (Option CacheEntry)
listing =
    some (record {
      dir_name = some (codes "6");
      dir = (populate_cache always true (some items) empty_dir).1;
    })
    ∷ some (record { dir_name = some (codes "7"); dir = empty_dir })
    ∷ none
    ∷ []

find_matching_cached_version-IsHighest_example :
    IsHighest semver
      (λ v. true)
      listing
      (find_matching_cached_version semver (λ v. true) (some listing))
find_matching_cached_version-IsHighest_example =
    find_matching_cached_version-IsHighest semver semver-IsOrder (λ v. true) listing

abbrev host : Host ℕ
host = record {
  read_dir = some listing;
  can_lock = λ version. true;
  under_lock = λ version. (populate_cache always true (some items) empty_dir).1;
  is_utf8 = λ path. true;
  can_copy = λ version target. true;
  exact = λ version. some (λ v. leb v 54);
}

abbrev settings : Settings ℕ
settings = record {
  installation_dir = codes "/install";
  trust_installation_dir = false;
  version = λ v. true;
}

try_use_binary_cache-IsUse_example :
    IsUse host settings
      (find_matching_cached_version semver settings.version host.read_dir)
      (try_use_binary_cache host semver settings)
try_use_binary_cache-IsUse_example = try_use_binary_cache-IsUse host semver settings
