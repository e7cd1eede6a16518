-- ===== src/Extensions/Archive/Success.antt =====
-- When an archive is acquired.
use pg_embed_setup_unpriv.Prelude.{
  ℕ, ◌≡◌, ◌≢◌, refl, sym, subst, ◌∙◌, true, false, ◌&&◌, some, List, length, ==_refl, nat_eq,
  list_eq, if◌then◌else◌, arith, ◌⊎◌, inl, inr,
}
use pg_embed_setup_unpriv.Prelude.Texts.{Text}
use pg_embed_setup_unpriv.Error.{BootstrapResult, ok, err, extension_archive_unavailable}
use pg_embed_setup_unpriv.Extensions.Manifest.{ManifestArtifact}
use pg_embed_setup_unpriv.Extensions.Http.{Network, http_get}
use pg_embed_setup_unpriv.Extensions.Archive.Laws.{cached_state-valid}
use pg_embed_setup_unpriv.Extensions.Archive.{
  Entry, absent, uninspectable, folder, other_kind, regular, CachedState, valid, missing, corrupt,
  unreadable, ArchiveOrigin, cached, downloaded, Disk, blocks_rename, cached_state, removed,
  clear_unusable_entry, verified, received, download, as_downloaded, after_clear, by_state, acquire,
}

module _ (of_bytes : List ℕ → Text) (disk : Disk) (net : Network)
    (artifact : ManifestArtifact) where
  -- The cache's directory can be made, locked and written to.
  pub record IsWritable : Type 0 where
    pub can_create_dir : disk.can_create_dir ≡ true
    pub can_lock : disk.can_lock ≡ true
    pub can_remove : disk.can_remove ≡ true
    pub can_create_temp : disk.can_create_temp ≡ true
    pub can_write : disk.can_write ≡ true
    pub can_persist : disk.can_persist ≡ true

  -- The URL gives the bytes that the manifest describes.
  pub record IsServed (bytes : List ℕ) : Type 0 where
    pub reply : http_get net artifact.url artifact.size ≡ some bytes
    pub digest : of_bytes bytes ≡ artifact.sha256
    pub size : length bytes ≡ artifact.size

  download-succeeds :
      (bytes : List ℕ) (entry : Entry)
      → IsWritable
      → IsServed bytes
      → blocks_rename entry ≡ false
      → download of_bytes disk net artifact entry ≡ (ok tt, regular (some bytes))
  unfolding download received verified list_eq
  download-succeeds bytes entry w s f = rw (w.can_create_temp) (
      rw (s.reply) (
        rw (w.can_write) (
          rw (w.can_persist) (
            rw f (
              rw (s.digest)
                (rw (s.size) (rw (==_refl artifact.sha256) (rw (==_refl artifact.size) refl))))))))

  clear_unusable_entry-succeeds :
      (entry : Entry)
      → IsWritable
      → entry ≢ uninspectable
      → ((clear_unusable_entry of_bytes disk entry).0 ≡ ok tt)
        × (blocks_rename (clear_unusable_entry of_bytes disk entry).1 ≡ false)
  unfolding clear_unusable_entry removed blocks_rename
  clear_unusable_entry-succeeds absent w n = (refl, refl)
  clear_unusable_entry-succeeds uninspectable w n = absurd (n refl)
  clear_unusable_entry-succeeds (regular bytes) w n = (refl, refl)
  clear_unusable_entry-succeeds folder w n = rw (w.can_remove) (refl, refl)
  clear_unusable_entry-succeeds other_kind w n = rw (w.can_remove) (refl, refl)

  after_clear-succeeds :
      (bytes : List ℕ) (r : BootstrapResult Unit × Entry)
      → IsWritable
      → IsServed bytes
      → (r.0 ≡ ok tt) × (blocks_rename r.1 ≡ false)
      → after_clear of_bytes disk net artifact r ≡ (ok downloaded, regular (some bytes))
  unfolding after_clear as_downloaded
  after_clear-succeeds bytes (ok u, entry) w s (h, f) =
      rw (download-succeeds bytes entry w s f) refl
  after_clear-succeeds bytes (err e, entry) w s (h, f) = cc

  -- A regular file with the digest that the manifest states.
  abbrev pub HasDigest : Entry → Type 0
  HasDigest entry =
      (held : List ℕ) × (entry ≡ regular (some held)) × (of_bytes held ≡ artifact.sha256)

  HasDigest-valid :
      (entry : Entry) → HasDigest entry → cached_state of_bytes entry artifact.sha256 ≡ valid
  unfolding cached_state list_eq
  HasDigest-valid entry (held, e, d) = rw e (rw d (rw (==_refl artifact.sha256) refl))

  -- How an acquisition succeeds from what was at the cache's path: with the file that is there, or
  -- with the one that is served.
  abbrev pub Succeeds : List ℕ → Entry → BootstrapResult ArchiveOrigin × Entry → Type 0
  Succeeds bytes entry r =
      (HasDigest entry × (r ≡ (ok cached, entry)))
      ⊎ ((¬ HasDigest entry) × (r ≡ (ok downloaded, regular (some bytes))))

  not_missing : ◌≡◌ {A = CachedState} valid missing → ⊥
  not_missing k = cc

  not_corrupt : ◌≡◌ {A = CachedState} valid corrupt → ⊥
  not_corrupt k = cc

  not_unreadable : ◌≡◌ {A = CachedState} valid unreadable → ⊥
  not_unreadable k = cc

  by_state-Succeeds :
      (bytes : List ℕ) (entry : Entry) (state : CachedState)
      → cached_state of_bytes entry artifact.sha256 ≡ state
      → IsWritable
      → IsServed bytes
      → entry ≢ uninspectable
      → Succeeds bytes entry (by_state of_bytes disk net artifact entry state)
  unfolding by_state
  by_state-Succeeds bytes entry valid h w s n =
      inl (cached_state-valid of_bytes disk net artifact entry h, refl)
  by_state-Succeeds bytes entry missing h w s n = inr (
    λ d. not_missing (sym (HasDigest-valid entry d) ∙ h),
    after_clear-succeeds bytes _ w s (clear_unusable_entry-succeeds entry w n),
  )
  by_state-Succeeds bytes entry corrupt h w s n = inr (
    λ d. not_corrupt (sym (HasDigest-valid entry d) ∙ h),
    after_clear-succeeds bytes _ w s (clear_unusable_entry-succeeds entry w n),
  )
  by_state-Succeeds bytes entry unreadable h w s n = inr (
    λ d. not_unreadable (sym (HasDigest-valid entry d) ∙ h),
    after_clear-succeeds bytes _ w s (clear_unusable_entry-succeeds entry w n),
  )

  -- Where the cache can be written to, the URL gives the bytes that the manifest describes, and what
  -- stands at the cache's path can be inspected, an acquisition succeeds: a file with the digest is
  -- used as it is, and anything else is replaced by those bytes.
  pub acquire-Succeeds :
      (bytes : List ℕ) (entry : Entry)
      → IsWritable
      → IsServed bytes
      → entry ≢ uninspectable
      → Succeeds bytes entry (acquire of_bytes disk net artifact entry)
  unfolding acquire
  acquire-Succeeds bytes entry w s n =
      subst
        (λ b. Succeeds bytes entry (
          if b
          then by_state of_bytes disk net artifact entry
              (cached_state of_bytes entry artifact.sha256)
          else (err extension_archive_unavailable, entry)))
        (sym usable)
        (by_state-Succeeds bytes entry (cached_state of_bytes entry artifact.sha256) refl w s n)
    where
      usable : (disk.can_create_dir && disk.can_lock) ≡ true
      usable = ground (arith, w.can_create_dir, w.can_lock)
