-- ===== src/Extensions/Archive.antt =====
-- src/extensions/archive.rs: a verified copy of an archive, from the cache or from the network.
-- `of_bytes` is the hash of bytes. What stands at the entry's path, and what the file system lets the
-- code do, are parameters; what stands there afterwards is part of the result.
pub mod Laws
pub mod Success
use pg_embed_setup_unpriv.Prelude.{
  ℕ, Bool, true, false, not, ◌&&◌, ◌||◌, Option, none, some, List, [], length, ◌==◌, nat_eq,
  list_eq, if◌then◌else◌,
}
use pg_embed_setup_unpriv.Prelude.Texts.{Text}
use pg_embed_setup_unpriv.Error.{
  BootstrapResult, ok, err, extension_archive_unavailable, extension_archive_digest_mismatch,
}
use pg_embed_setup_unpriv.Extensions.Manifest.{ManifestArtifact}
use pg_embed_setup_unpriv.Extensions.Http.{Network, http_get}

-- What stands at a path, links not followed; a regular file may be unreadable.
pub data Entry : Type 0 where
  absent uninspectable folder other_kind : Entry
  regular : Option (List ℕ) → Entry

pub data CachedState : Type 0 where
  valid missing corrupt unreadable : CachedState

pub data ArchiveOrigin : Type 0 where
  cached downloaded : ArchiveOrigin

unfoldable pub blocks_rename : Entry → Bool
blocks_rename folder = true
blocks_rename _ = false

-- What the file system lets the code do in the cache. A file never replaces a folder.
pub record Disk : Type 0 where
  pub can_create_dir : Bool
  pub can_lock : Bool
  pub can_remove : Bool
  pub can_create_temp : Bool
  pub can_write : Bool
  pub can_persist : Bool

module _ (of_bytes : List ℕ → Text) where
  unfoldable pub cached_state : Entry → Text → CachedState
  unfolding list_eq
  cached_state absent expected = missing
  cached_state uninspectable expected = unreadable
  cached_state folder expected = unreadable
  cached_state other_kind expected = unreadable
  cached_state (regular none) expected = unreadable
  cached_state (regular (some bytes)) expected =
      if of_bytes bytes == expected then valid else corrupt

  module _ (disk : Disk) where
    unfoldable pub removed : Entry → BootstrapResult (Unit {0}) × Entry
    removed entry =
        if disk.can_remove then (ok tt, absent) else (err extension_archive_unavailable, entry)

    unfoldable pub clear_unusable_entry : Entry → BootstrapResult (Unit {0}) × Entry
    clear_unusable_entry absent = (ok tt, absent)
    clear_unusable_entry uninspectable = (err extension_archive_unavailable, uninspectable)
    clear_unusable_entry (regular bytes) = (ok tt, regular bytes)
    clear_unusable_entry folder = removed folder
    clear_unusable_entry other_kind = removed other_kind

    -- A download that went through, before and after its verification.
    unfoldable pub verified : ManifestArtifact → List ℕ → Entry → BootstrapResult (Unit {0}) × Entry
    unfolding list_eq
    verified artifact bytes entry =
        if not (length bytes == artifact.size) || not (of_bytes bytes == artifact.sha256)
        then (err extension_archive_digest_mismatch, entry)
        else if disk.can_persist && not (blocks_rename entry)
        then (ok tt, regular (some bytes))
        else (err extension_archive_unavailable, entry)

    unfoldable pub received :
        ManifestArtifact → Option (List ℕ) → Entry → BootstrapResult (Unit {0}) × Entry
    received artifact none entry = (err extension_archive_unavailable, entry)
    received artifact (some bytes) entry =
        if disk.can_write
        then verified artifact bytes entry
        else (err extension_archive_unavailable, entry)

    module _ (net : Network) where
      unfoldable pub download : ManifestArtifact → Entry → BootstrapResult (Unit {0}) × Entry
      download artifact entry =
          if disk.can_create_temp
          then received artifact (http_get net artifact.url artifact.size) entry
          else (err extension_archive_unavailable, entry)

      unfoldable pub as_downloaded :
          BootstrapResult (Unit {0}) × Entry → BootstrapResult ArchiveOrigin × Entry
      as_downloaded (err e, entry) = (err e, entry)
      as_downloaded (ok u, entry) = (ok downloaded, entry)

      unfoldable pub after_clear :
          ManifestArtifact
          → BootstrapResult (Unit {0}) × Entry
          → BootstrapResult ArchiveOrigin × Entry
      after_clear artifact (err e, entry) = (err e, entry)
      after_clear artifact (ok u, entry) = as_downloaded (download artifact entry)

      unfoldable pub by_state :
          ManifestArtifact → Entry → CachedState → BootstrapResult ArchiveOrigin × Entry
      by_state artifact entry valid = (ok cached, entry)
      by_state artifact entry state = after_clear artifact (clear_unusable_entry entry)

      -- `acquire`: the origin, and what stands at the entry's path then.
      unfoldable pub acquire : ManifestArtifact → Entry → BootstrapResult ArchiveOrigin × Entry
      acquire artifact entry =
          if disk.can_create_dir && disk.can_lock
          then by_state artifact entry (cached_state entry artifact.sha256)
          else (err extension_archive_unavailable, entry)
