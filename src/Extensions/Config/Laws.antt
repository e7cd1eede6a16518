-- ===== src/Extensions/Config/Laws.antt =====
-- What a request that was accepted asks for.
use pg_embed_setup_unpriv.Prelude.{
  ◌≡◌, refl, subst, ◌∙◌, ◌⊎◌, inl, inr, Bool, true, false, Option, none, some, List, [], ◌∷◌, map,
  contains, nat_eq, list_eq, if◌then◌else◌, Bool-cases, All,
}
use mathlib.Core.Option.{some-injective}
use pg_embed_setup_unpriv.Prelude.Texts.{Text, codes, is_empty, trim, split, NonEmpty}
use pg_embed_setup_unpriv.Error.{
  Result, BootstrapResult, ok, err, extension_config_invalid, ◌>>=◌, >>=-eq-ok,
}
use pg_embed_setup_unpriv.Extensions.Digest.{parse}
use pg_embed_setup_unpriv.Extensions.Config.{
  ManifestSource, url, path, ExtensionRequest, PgEnvCfg, parse_names, filled, config_digest,
  parse_digest, has_infix, pinned_url, source_of, source_at, parse_manifest_source, unwrap_or,
  request_of, from_config,
}
use pg_embed_setup_unpriv.Extensions.Config.Names.{AreNames, Covered, parse_items-Parsed}

module _ (is_permitted_url : Text → Bool) (default_cache_dir : Text) where
  -- The value is set, and not blank: `raw` is what it is without the blanks around it.
  abbrev pub IsGiven : Option Text → Text → Type 0
  IsGiven value raw = (text : Text) × (value ≡ some text) × (trim text ≡ raw) × NonEmpty raw

  abbrev pub IsUnset : Option Text → Type 0
  IsUnset value = (value ≡ none) ⊎ ((text : Text) × (value ≡ some text) × (trim text ≡ []))

  -- A manifest at a permitted URL is pinned by the configured digest; one at a path is, if there is
  -- a digest.
  abbrev pub IsPinned : Option Text → ManifestSource → Type 0
  IsPinned digest (url location sha256) =
      (is_permitted_url location ≡ true)
      × ((raw : Text) × IsGiven digest raw × (parse raw ≡ ok sha256))
  IsPinned digest (path location sha256) =
      (is_permitted_url location ≡ false)
      × (has_infix (codes "://") location ≡ false)
      × (((raw : Text) × (pin : Text) × IsGiven digest raw
            × (parse raw ≡ ok pin)
            × (sha256 ≡ some pin))
          ⊎ (IsUnset digest × (sha256 ≡ none)))

  filled-IsGiven : (value : Option Text) (raw : Text) → filled value ≡ some raw → IsGiven value raw
  unfolding filled
  filled-IsGiven none raw h = cc
  filled-IsGiven (some text) raw h = by_trim (trim text) refl h
    where
      by_trim :
          (t : Text)
          → trim text ≡ t
          → (if is_empty t then none else some t) ≡ some raw
          → IsGiven (some text) raw
      by_trim [] e k = cc
      by_trim (c ∷ t) e k =
          let same : c ∷ t ≡ raw = some-injective _ _ k in
          (text, refl, e ∙ same, subst NonEmpty same tt)

  filled-IsUnset : (value : Option Text) → filled value ≡ none → IsUnset value
  unfolding filled
  filled-IsUnset none h = inl refl
  filled-IsUnset (some text) h = by_trim (trim text) refl h
    where
      by_trim :
          (t : Text)
          → trim text ≡ t
          → (if is_empty t then none else some t) ≡ none
          → IsUnset (some text)
      by_trim [] e k = inr (text, refl, e)
      by_trim (c ∷ t) e k = cc

  parse_digest-none : (digest : Option Text) → parse_digest digest ≡ ok none → digest ≡ none
  unfolding parse_digest config_digest
  parse_digest-none none h = refl
  parse_digest-none (some raw) h = absurd (parsed (parse raw) h)
    where
      parsed : (r : Result Text Text) → (config_digest r >>= λ d. ok (some d)) ≡ ok none → ⊥
      parsed (ok d) k = cc
      parsed (err v) k = cc

  parse_digest-some :
      (digest : Option Text) (sha256 : Text)
      → parse_digest digest ≡ ok (some sha256)
      → (raw : Text) × (digest ≡ some raw) × (parse raw ≡ ok sha256)
  unfolding parse_digest config_digest
  parse_digest-some none sha256 h = cc
  parse_digest-some (some raw) sha256 h = (raw, refl, parsed (parse raw) h)
    where
      parsed :
          (r : Result Text Text)
          → (config_digest r >>= λ d. ok (some d)) ≡ ok (some sha256)
          → r ≡ ok sha256
      parsed (ok d) k = cc
      parsed (err v) k = cc

  pinned_path :
      (digest pin : Option Text)
      → parse_digest (filled digest) ≡ ok pin
      → ((raw : Text) × (sha256 : Text) × IsGiven digest raw
          × (parse raw ≡ ok sha256)
          × (pin ≡ some sha256))
        ⊎ (IsUnset digest × (pin ≡ none))
  pinned_path digest none h =
      inr (filled-IsUnset digest (parse_digest-none (filled digest) h), refl)
  pinned_path digest (some sha256) h =
      let (raw, e, k) = parse_digest-some (filled digest) sha256 h in
      inl (raw, sha256, filled-IsGiven digest raw e, k, refl)

  source_of-IsPinned :
      (location : Text) (raw pinned : Option Text) (source : ManifestSource)
      → parse_digest (filled raw) ≡ ok pinned
      → source_of is_permitted_url default_cache_dir location pinned ≡ ok source
      → IsPinned raw source
  unfolding source_of pinned_url
  source_of-IsPinned location raw pinned source d =
      permitted (is_permitted_url location) pinned refl d
    where
      permitted :
          (b : Bool) (pin : Option Text)
          → is_permitted_url location ≡ b
          → parse_digest (filled raw) ≡ ok pin
          → (if b
              then pinned_url is_permitted_url default_cache_dir location pin
              else if has_infix (codes "://") location
              then err extension_config_invalid
              else ok (path location pin))
            ≡ ok source
          → IsPinned raw source
      permitted true none e pin h = cc
      permitted true (some sha256) e pin h =
          let same : url location sha256 ≡ source = cc in
          let (text, f, k) = parse_digest-some (filled raw) sha256 pin in
          subst (IsPinned raw) same (e, (text, filled-IsGiven raw text f, k))
      permitted false pin e p h = elim (Bool-cases (has_infix (codes "://") location)) [
        | inl g ↦ absurd (refused (rw g at h))
        | inr g ↦
            let same : path location pin ≡ source = at_path (rw g at h) in
            subst (IsPinned raw) same (e, g, pinned_path raw pin p)
      ]
        where
          refused :
              ◌≡◌ {A = BootstrapResult ManifestSource} (err extension_config_invalid) (ok source)
              → ⊥
          refused k = cc

          at_path :
              ◌≡◌ {A = BootstrapResult ManifestSource} (ok (path location pin)) (ok source)
              → path location pin ≡ source
          at_path k = cc

  source_at-IsPinned :
      (location raw : Option Text) (source : ManifestSource)
      → source_at is_permitted_url default_cache_dir location (filled raw) ≡ ok source
      → IsPinned raw source
  unfolding source_at
  source_at-IsPinned none raw source h = cc
  source_at-IsPinned (some location) raw source h =
      let (pinned, d, k) = >>=-eq-ok (parse_digest (filled raw)) _ h in
      source_of-IsPinned location raw pinned source d k

  -- What an accepted configuration asks for.
  pub record IsRequest (cfg : PgEnvCfg) (request : ExtensionRequest) : Type 0 where
    pub asked : NonEmpty request.names
    pub are_names : AreNames request.names
    pub covers : All (Covered request.names) (map trim (split b',' (unwrap_or cfg.extensions [])))
    pub only :
        (name : Text)
        → contains request.names name ≡ true
        → contains (map trim (split b',' (unwrap_or cfg.extensions []))) name ≡ true
    pub pinned : IsPinned cfg.extensions_manifest_sha256 request.manifest

  request_of-IsRequest :
      (cfg : PgEnvCfg) (names : List Text) (request : ExtensionRequest)
      → parse_names (unwrap_or cfg.extensions []) ≡ ok names
      → request_of is_permitted_url default_cache_dir cfg names ≡ ok (some request)
      → IsRequest cfg request
  unfolding request_of parse_manifest_source parse_names
  request_of-IsRequest cfg [] request h k = cc
  request_of-IsRequest cfg (name ∷ names) request h k =
      let (source, e, made) =
        >>=-eq-ok
          (parse_manifest_source is_permitted_url default_cache_dir cfg.extensions_manifest
            cfg.extensions_manifest_sha256)
          _ k in
      let parsed = parse_items-Parsed _ [] (name ∷ names) h in
      subst (IsRequest cfg) (same source made) (record {
        asked = tt;
        are_names = parsed.are_names (tt, tt);
        covers = parsed.covers;
        only = λ other there. elim (parsed.only other there) [ inl a ↦ cc | inr b ↦ b ];
        pinned =
            source_at-IsPinned (filled cfg.extensions_manifest) cfg.extensions_manifest_sha256
              source e;
      })
    where
      same :
          (source : ManifestSource)
          → ◌≡◌ {A = BootstrapResult (Option ExtensionRequest)}
              (ok (
                some (record {
                  names = name ∷ names;
                  manifest = source;
                  cache_dir = unwrap_or cfg.extensions_cache_dir default_cache_dir;
                })))
              (ok (some request))
          → record {
            names = name ∷ names;
            manifest = source;
            cache_dir = unwrap_or cfg.extensions_cache_dir default_cache_dir;
          }
            ≡ request
      same source made = cc

  -- An accepted configuration that asks for extensions asks for valid names, at least one and none
  -- twice: exactly the items between the commas that are not blank. Its manifest is at a permitted
  -- URL and pinned by the configured digest, or at a path without a scheme and pinned if a digest is
  -- configured.
  pub from_config-IsRequest :
      (cfg : PgEnvCfg) (request : ExtensionRequest)
      → from_config is_permitted_url default_cache_dir cfg ≡ ok (some request)
      → IsRequest cfg request
  unfolding from_config
  from_config-IsRequest cfg request h =
      let (names, e, k) = >>=-eq-ok (parse_names (unwrap_or cfg.extensions [])) _ h in
      request_of-IsRequest cfg names request e k
