-- ===== src/Extensions/Pipeline/Loading.antt =====
-- What a manifest that was loaded is.
use pg_embed_setup_unpriv.Prelude.{
  ℕ, ◌+◌, ◌≤◌, ◌≡◌, ap, subst, ◌∙◌, Option, none, some, List, take, length, leb, ==_iff, nat_eq,
  list_eq, Bool-cases, inl, inr, arith,
}
use pg_embed_setup_unpriv.Prelude.Texts.{Text}
use pg_embed_setup_unpriv.Error.{BootstrapResult, ok, err, >>=-eq-ok, extension_manifest_invalid}
use pg_embed_setup_unpriv.Extensions.Manifest.{Externals, Manifest, validate}
use pg_embed_setup_unpriv.Extensions.Http.{http_get}
use pg_embed_setup_unpriv.Extensions.Config.{ManifestSource, url, path}
use pg_embed_setup_unpriv.Extensions.Pipeline.{
  manifest_size_cap, Site, check_size, capped, read_path, fetched, fetch_url, bytes_of, pin_of,
  verify_digest, parse_manifest, load,
}

module _ (ext : Externals) (site : Site ext) where
  check_size-ok :
      (bytes result : List ℕ)
      → check_size ext site bytes ≡ ok result
      → length result ≤ manifest_size_cap
  unfolding check_size
  check_size-ok bytes result h = elim (Bool-cases (leb (length bytes) manifest_size_cap)) [
    | inl e ↦
        let same : bytes ≡ result = kept (rw e at h) in
        subst (λ l. length l ≤ manifest_size_cap) same (ground (arith, e))
    | inr e ↦ absurd (refused (rw e at h))
  ]
    where
      kept : ◌≡◌ {A = BootstrapResult (List ℕ)} (ok bytes) (ok result) → bytes ≡ result
      kept k = cc

      refused : ◌≡◌ {A = BootstrapResult (List ℕ)} (err extension_manifest_invalid) (ok result) → ⊥
      refused k = cc

  bytes_of-small :
      (source : ManifestSource) (bytes : List ℕ)
      → bytes_of ext site source ≡ ok bytes
      → length bytes ≤ manifest_size_cap
  unfolding bytes_of fetch_url read_path fetched capped
  bytes_of-small (url location sha256) bytes =
      of_reply (http_get site.net location manifest_size_cap)
    where
      of_reply :
          (r : Option (List ℕ)) → fetched ext site r ≡ ok bytes → length bytes ≤ manifest_size_cap
      of_reply none h = cc
      of_reply (some b) h = check_size-ok b bytes h
  bytes_of-small (path file sha256) bytes = of_file (site.read_file file)
    where
      of_file :
          (r : Option (List ℕ)) → capped ext site r ≡ ok bytes → length bytes ≤ manifest_size_cap
      of_file none h = cc
      of_file (some b) h = check_size-ok (take (manifest_size_cap + 1) b) bytes h

  -- The bytes of a manifest that was loaded: within the limit, with the digest of the pin if there is
  -- one, and accepted as a manifest.
  pub record Loaded (source : ManifestSource) (manifest : Manifest) : Type 0 where
    pub bytes : List ℕ
    pub small : length bytes ≤ manifest_size_cap
    pub origin : bytes_of ext site source ≡ ok bytes
    pub pinned :
        (expected : Text) → pin_of ext site source ≡ some expected → site.of_bytes bytes ≡ expected
    pub decoded : site.decode bytes ≡ some manifest
    pub accepted : validate ext manifest ≡ ok tt

  verify_digest-pinned :
      (pin : Option Text) (bytes : List ℕ) (u : Unit)
      → verify_digest ext site pin bytes ≡ ok u
      → (expected : Text) → pin ≡ some expected
      → site.of_bytes bytes ≡ expected
  unfolding verify_digest list_eq
  verify_digest-pinned none bytes u h expected e = cc
  verify_digest-pinned (some pin) bytes u h expected e =
      let same : pin ≡ expected = cc in
      (==_iff (site.of_bytes bytes) pin).0 (ground (arith, h)) ∙ same

  parse_manifest-ok :
      (decoded : Option Manifest) (manifest : Manifest)
      → parse_manifest ext site decoded ≡ ok manifest
      → (decoded ≡ some manifest) × (validate ext manifest ≡ ok tt)
  unfolding parse_manifest
  parse_manifest-ok none manifest h = cc
  parse_manifest-ok (some m) manifest h =
      let (u, v, k) = >>=-eq-ok (validate ext m) _ h in
      let same : m ≡ manifest = cc in (ap some same, subst (λ x. validate ext x ≡ ok tt) same v)

  pub load-Loaded :
      (source : ManifestSource) (manifest : Manifest)
      → load ext site source ≡ ok manifest
      → Loaded source manifest
  unfolding load
  load-Loaded source manifest h =
      let (bytes, b, k) = >>=-eq-ok (bytes_of ext site source) _ h in
      let (u, v, l) = >>=-eq-ok (verify_digest ext site (pin_of ext site source) bytes) _ k in
      let (d, a) = parse_manifest-ok (site.decode bytes) manifest l in
      record {
        bytes = bytes;
        small = bytes_of-small source bytes b;
        origin = b;
        pinned = verify_digest-pinned (pin_of ext site source) bytes u v;
        decoded = d;
        accepted = a;
      }
