-- ===== src/Extensions/Config.antt =====
-- src/extensions/config.rs and manifest/source.rs: the request that the environment asks for. Which
-- URLs are permitted, and the default of the cache directory, are parameters.
pub mod Names
pub mod Laws
use pg_embed_setup_unpriv.Prelude.{
  ℕ, Bool, true, false, not, ◌&&◌, ◌||◌, Option, none, some, List, [], ◌∷◌, ◌++◌, map, take, length,
  contains, ◌==◌, nat_eq, list_eq, if◌then◌else◌,
}
use pg_embed_setup_unpriv.Prelude.Texts.{Text, codes, is_empty, trim, split}
use pg_embed_setup_unpriv.Error.{Result, BootstrapResult, ok, err, extension_config_invalid, ◌>>=◌}
use pg_embed_setup_unpriv.Extensions.Name.{new}
use pg_embed_setup_unpriv.Extensions.Digest.{parse}

-- Where the manifest is, with the digest that pins it.
pub data ManifestSource : Type 0 where
  url : Text → Text → ManifestSource
  path : Text → Option Text → ManifestSource

pub record ExtensionRequest : Type 0 where
  pub names : List Text
  pub manifest : ManifestSource
  pub cache_dir : Text

-- The part of `PgEnvCfg` that the request is made of.
pub record PgEnvCfg : Type 0 where
  pub extensions : Option Text
  pub extensions_manifest : Option Text
  pub extensions_manifest_sha256 : Option Text
  pub extensions_cache_dir : Option Text

-- `if !names.contains(&name) { names.push(name) }`.
unfoldable pub push_name : Text → List Text → List Text
unfolding list_eq
push_name name names = if contains names name then names else names ++ (name ∷ [])

unfoldable pub named :
    BootstrapResult Text → (Text → BootstrapResult (List Text)) → BootstrapResult (List Text)
named (err e) next = err e
named (ok name) next = next name

-- The loop of `parse_names` over the trimmed items.
unfoldable pub parse_items : List Text → List Text → BootstrapResult (List Text)
parse_items [] names = ok names
parse_items ([] ∷ items) names = parse_items items names
parse_items ((c ∷ item) ∷ items) names =
    named (new (c ∷ item)) (λ name. parse_items items (push_name name names))

unfoldable pub parse_names : Text → BootstrapResult (List Text)
parse_names raw = parse_items (map trim (split b',' raw)) []

-- `.map(str::trim).filter(|value| !value.is_empty())`.
unfoldable pub filled : Option Text → Option Text
filled none = none
filled (some value) = if is_empty (trim value) then none else some (trim value)

unfoldable pub config_digest : Result Text Text → BootstrapResult Text
config_digest (ok digest) = ok digest
config_digest (err value) = err extension_config_invalid

-- `.map(parse_digest).transpose()`.
unfoldable pub parse_digest : Option Text → BootstrapResult (Option Text)
parse_digest none = ok none
parse_digest (some value) = config_digest (parse value) >>= λ digest. ok (some digest)

unfoldable pub has_infix : Text → Text → Bool
unfolding list_eq take
has_infix part [] = is_empty part
has_infix part (c ∷ text) =
    let rest = has_infix part text in take (length part) (c ∷ text) == part || rest

unfoldable pub unwrap_or : Option Text → Text → Text
unwrap_or none default = default
unwrap_or (some value) default = value

module _ (is_permitted_url : Text → Bool) (default_cache_dir : Text) where
  unfoldable pub pinned_url : Text → Option Text → BootstrapResult ManifestSource
  pinned_url location none = err extension_config_invalid
  pinned_url location (some sha256) = ok (url location sha256)

  unfoldable pub source_of : Text → Option Text → BootstrapResult ManifestSource
  source_of location pinned =
      if is_permitted_url location
      then pinned_url location pinned
      else if has_infix (codes "://") location
      then err extension_config_invalid
      else ok (path location pinned)

  unfoldable pub source_at : Option Text → Option Text → BootstrapResult ManifestSource
  source_at none digest = err extension_config_invalid
  source_at (some location) digest = parse_digest digest >>= source_of location

  unfoldable pub parse_manifest_source : Option Text → Option Text → BootstrapResult ManifestSource
  parse_manifest_source raw_location digest = source_at (filled raw_location) (filled digest)

  unfoldable pub request_of : PgEnvCfg → List Text → BootstrapResult (Option ExtensionRequest)
  request_of cfg [] = ok none
  request_of cfg (name ∷ names) =
      parse_manifest_source cfg.extensions_manifest cfg.extensions_manifest_sha256 >>= λ source.
      ok (
        some (record {
          names = name ∷ names;
          manifest = source;
          cache_dir = unwrap_or cfg.extensions_cache_dir default_cache_dir;
        }))

  -- `ExtensionRequest::from_config`.
  unfoldable pub from_config : PgEnvCfg → BootstrapResult (Option ExtensionRequest)
  from_config cfg = parse_names (unwrap_or cfg.extensions []) >>= request_of cfg
