-- ===== src/Cache/Lookup.antt =====
-- src/cache/operations/lookup.rs: which cached version is used. The semver crate's parser, order, `matches` and printer are
-- parameters.
pub mod Laws
use mathlib.Core.List.{Mem, mem-cons_self, mem-cons_of_mem}
use mathlib.Core.Option.{some-injective}
use pg_embed_setup_unpriv.Prelude.{
  ◌≡◌, refl, subst, inl, inr, Bool, true, false, ◌&&◌, Option, none, some, List, [], ◌∷◌, ◌==◌,
  nat_eq, list_eq, if◌then◌else◌, All, arith, Bool-cases, Option-cases,
}
use pg_embed_setup_unpriv.Prelude.Texts.{Text}
use pg_embed_setup_unpriv.Installation.{Semver}
use pg_embed_setup_unpriv.Installation.Laws.{IsOrder}
use pg_embed_setup_unpriv.Cache.{VersionDir, is_cache_entry_complete}

-- An entry of the cache: its name, if that is UTF-8, and its directory.
pub record CacheEntry : Type 0 where
  pub dir_name : Option Text
  pub dir : VersionDir

unfoldable pub starts_with_dot : Text → Bool
starts_with_dot [] = false
starts_with_dot (c ∷ _) = c == b'.'

module _ {V : Type 0} (semver : Semver V) (matches : V → Bool) where
  unfoldable pub accept_version : VersionDir → Text → Option V → Option (V × Text)
  accept_version dir name none = none
  accept_version dir name (some version) =
      if matches version && is_cache_entry_complete dir then some (version, name) else none

  unfoldable pub try_parse_name : VersionDir → Option Text → Option (V × Text)
  try_parse_name dir none = none
  try_parse_name dir (some name) =
      if starts_with_dot name then none else accept_version dir name (semver.parse name)

  -- None is an entry that cannot be read.
  unfoldable pub try_parse_cache_entry : Option CacheEntry → Option (V × Text)
  try_parse_cache_entry none = none
  try_parse_cache_entry (some entry) = try_parse_name entry.dir entry.dir_name

  -- `Iterator::max_by`: of equal entries the last.
  unfoldable pub better : Option (V × Text) → Option (V × Text) → Option (V × Text)
  better best none = best
  better none (some x) = some x
  better (some b) (some x) = if semver.leb b.0 x.0 then some x else some b

  unfoldable pub max_version : Option (V × Text) → List (Option CacheEntry) → Option (V × Text)
  max_version best [] = best
  max_version best (entry ∷ entries) =
      max_version (better best (try_parse_cache_entry entry)) entries

  -- None is a cache directory that cannot be read.
  unfoldable pub find_matching_cached_version :
      Option (List (Option CacheEntry)) → Option (V × Text)
  find_matching_cached_version none = none
  find_matching_cached_version (some entries) = max_version none entries
