-- ===== src/Extensions/Archive/Laws.antt =====
-- An archive that was acquired is the one that the manifest describes.
use pg_embed_setup_unpriv.Prelude.{
  ℕ, ◌≡◌, refl, ◌∙◌, ◌⊎◌, inl, inr, Bool, true, false, not, ◌&&◌, ◌||◌, Option, none, some, List,
  length, ◌==◌, ==_iff, nat_eq, list_eq, if◌then◌else◌, Bool-cases, arith,
}
use pg_embed_setup_unpriv.Prelude.Texts.{Text}
use pg_embed_setup_unpriv.Error.{BootstrapResult, ok, err, extension_archive_unavailable}
use pg_embed_setup_unpriv.Extensions.Manifest.{ManifestArtifact}
use pg_embed_setup_unpriv.Extensions.Http.{Network, http_get}
use pg_embed_setup_unpriv.Extensions.Archive.{
  Entry, absent, uninspectable, folder, other_kind, regular, CachedState, valid, missing, corrupt,
  unreadable, ArchiveOrigin, cached, downloaded, Disk, blocks_rename, cached_state, removed,
  clear_unusable_entry, verified, received, download, as_downloaded, after_clear, by_state, acquire,
}

module _ (of_bytes : List ℕ → Text) (disk : Disk) (net : Network)
    (artifact : ManifestArtifact) where
  -- Where a successful acquisition leaves bytes with the digest of the manifest: those that were
  -- there, or those that the URL gave, of the size of the manifest.
  abbrev pub IsAcquired : Entry → ArchiveOrigin → Entry → Type 0
  IsAcquired before origin after =
      (bytes : List ℕ) × (after ≡ regular (some bytes))
      × (of_bytes bytes ≡ artifact.sha256)
      × (((origin ≡ cached) × (before ≡ after))
          ⊎ ((origin ≡ downloaded)
              × (length bytes ≡ artifact.size)
              × (http_get net artifact.url artifact.size ≡ some bytes)))

  -- Nothing new: what was there, or nothing.
  abbrev pub Untouched : Entry → Entry → Type 0
  Untouched before after = (after ≡ before) ⊎ (after ≡ absent)

  -- What `acquire` leaves: an archive as above, or after an error nothing new.
  abbrev pub Acquisition : Entry → BootstrapResult ArchiveOrigin × Entry → Type 0
  Acquisition before (ok origin, after) = IsAcquired before origin after
  Acquisition before (err e, after) = Untouched before after

  abbrev Download : Entry → BootstrapResult Unit × Entry → Type 0
  Download entry (ok u, after) =
      (bytes : List ℕ) × (after ≡ regular (some bytes))
      × (of_bytes bytes ≡ artifact.sha256)
      × (length bytes ≡ artifact.size)
      × (http_get net artifact.url artifact.size ≡ some bytes)
  Download entry (err e, after) = after ≡ entry

  verified-Download :
      (bytes : List ℕ) (entry : Entry)
      → http_get net artifact.url artifact.size ≡ some bytes
      → Download entry (verified of_bytes disk artifact bytes entry)
  unfolding verified list_eq
  verified-Download bytes entry h =
      elim (Bool-cases
        (not (length bytes == artifact.size) || not (of_bytes bytes == artifact.sha256))) [
          | inl e ↦ rw e refl
          | inr e ↦ rw e (
              persisted ((==_iff (of_bytes bytes) artifact.sha256).0 (ground (arith, e)))
                (ground (arith, e)) (disk.can_persist && not (blocks_rename entry)))
        ]
    where
      persisted :
          of_bytes bytes ≡ artifact.sha256
          → length bytes ≡ artifact.size
          → (b : Bool)
          → Download entry (
              if b
              then (ok tt, regular (some bytes))
              else (err extension_archive_unavailable, entry))
      persisted d l true = (bytes, refl, d, l, h)
      persisted d l false = refl

  received-Download :
      (reply : Option (List ℕ)) (entry : Entry)
      → http_get net artifact.url artifact.size ≡ reply
      → Download entry (received of_bytes disk artifact reply entry)
  unfolding received
  received-Download none entry h = refl
  received-Download (some bytes) entry h = written disk.can_write
    where
      written :
          (b : Bool)
          → Download entry (
              if b
              then verified of_bytes disk artifact bytes entry
              else (err extension_archive_unavailable, entry))
      written true = verified-Download bytes entry h
      written false = refl

  download-Download : (entry : Entry) → Download entry (download of_bytes disk net artifact entry)
  unfolding download
  download-Download entry = with_temp disk.can_create_temp
    where
      with_temp :
          (b : Bool)
          → Download entry (
              if b
              then received of_bytes disk artifact (http_get net artifact.url artifact.size) entry
              else (err extension_archive_unavailable, entry))
      with_temp true = received-Download (http_get net artifact.url artifact.size) entry refl
      with_temp false = refl

  as_downloaded-Acquisition :
      (before entry : Entry) (r : BootstrapResult Unit × Entry)
      → Untouched before entry
      → Download entry r
      → Acquisition before (as_downloaded of_bytes disk net r)
  unfolding as_downloaded
  as_downloaded-Acquisition before entry (ok u, after) c (bytes, e, d, l, h) =
      (bytes, e, d, inr (refl, l, h))
  as_downloaded-Acquisition before entry (err e, after) c h = elim c [
    | inl a ↦ inl (h ∙ a)
    | inr a ↦ inr (h ∙ a)
  ]

  after_clear-Acquisition :
      (before : Entry) (r : BootstrapResult Unit × Entry)
      → Untouched before r.1
      → Acquisition before (after_clear of_bytes disk net artifact r)
  unfolding after_clear
  after_clear-Acquisition before (ok u, entry) c =
      as_downloaded-Acquisition before entry _ c (download-Download entry)
  after_clear-Acquisition before (err e, entry) c = c

  removed-Untouched : (entry : Entry) → Untouched entry (removed of_bytes disk entry).1
  unfolding removed
  removed-Untouched entry = if_removed disk.can_remove
    where
      if_removed :
          (b : Bool)
          → Untouched entry
              (if◌then◌else◌ {A = BootstrapResult Unit × Entry} b
                (ok tt, absent)
                (err extension_archive_unavailable, entry)).1
      if_removed true = inr refl
      if_removed false = inl refl

  clear_unusable_entry-Untouched :
      (entry : Entry) → Untouched entry (clear_unusable_entry of_bytes disk entry).1
  unfolding clear_unusable_entry
  clear_unusable_entry-Untouched absent = inl refl
  clear_unusable_entry-Untouched uninspectable = inl refl
  clear_unusable_entry-Untouched (regular bytes) = inl refl
  clear_unusable_entry-Untouched folder = removed-Untouched folder
  clear_unusable_entry-Untouched other_kind = removed-Untouched other_kind

  pub cached_state-valid :
      (entry : Entry)
      → cached_state of_bytes entry artifact.sha256 ≡ valid
      → (bytes : List ℕ) × (entry ≡ regular (some bytes)) × (of_bytes bytes ≡ artifact.sha256)
  unfolding cached_state list_eq
  cached_state-valid absent h = cc
  cached_state-valid uninspectable h = cc
  cached_state-valid folder h = cc
  cached_state-valid other_kind h = cc
  cached_state-valid (regular none) h = cc
  cached_state-valid (regular (some bytes)) h =
      (bytes, refl, (==_iff (of_bytes bytes) artifact.sha256).0 (ground (arith, h)))

  by_state-Acquisition :
      (entry : Entry) (state : CachedState)
      → cached_state of_bytes entry artifact.sha256 ≡ state
      → Acquisition entry (by_state of_bytes disk net artifact entry state)
  unfolding by_state
  by_state-Acquisition entry valid h =
      let (bytes, e, d) = cached_state-valid entry h in (bytes, e, d, inl (refl, refl))
  by_state-Acquisition entry missing h =
      after_clear-Acquisition entry _ (clear_unusable_entry-Untouched entry)
  by_state-Acquisition entry corrupt h =
      after_clear-Acquisition entry _ (clear_unusable_entry-Untouched entry)
  by_state-Acquisition entry unreadable h =
      after_clear-Acquisition entry _ (clear_unusable_entry-Untouched entry)

  -- An acquisition of an archive either succeeds and leaves at the cache's path a regular file with
  -- the digest of the manifest: the file that was there before, or what the URL gave, which then has
  -- the size of the manifest; or it fails and leaves there what there was before, or nothing.
  pub acquire-Acquisition :
      (entry : Entry) → Acquisition entry (acquire of_bytes disk net artifact entry)
  unfolding acquire
  acquire-Acquisition entry = in_cache (disk.can_create_dir && disk.can_lock)
    where
      in_cache :
          (b : Bool)
          → Acquisition entry (
              if b
              then by_state of_bytes disk net artifact entry
                  (cached_state of_bytes entry artifact.sha256)
              else (err extension_archive_unavailable, entry))
      in_cache true = by_state-Acquisition entry (cached_state of_bytes entry artifact.sha256) refl
      in_cache false = inl refl
