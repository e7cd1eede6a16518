-- ===== src/Cache/Use.antt =====
-- src/cluster/cache_integration.rs: what a start takes from the cache. The answers of the file system
-- are parameters: whether the shared lock is taken, the entry as it is found under the lock, whether
-- the installation directory is UTF-8, and whether the copy succeeds. `exact` parses "=" and a
-- version as a requirement.
use mathlib.Core.Option.{some-injective}
use pg_embed_setup_unpriv.Prelude.{
  ◌≡◌, refl, sym, ◌∙◌, ◌⊎◌, inl, inr, Bool, true, false, ◌&&◌, Option, none, some, List, ◌∷◌, ◌++◌,
  if◌then◌else◌, arith, Bool-cases,
}
use pg_embed_setup_unpriv.Prelude.Texts.{Text}
use pg_embed_setup_unpriv.Installation.{Semver}
use pg_embed_setup_unpriv.Cache.{VersionDir, is_cache_entry_complete}
use pg_embed_setup_unpriv.Cache.Lookup.{CacheEntry, find_matching_cached_version}

pub record Settings (V : Type 0) : Type 0 where
  pub installation_dir : Text
  pub trust_installation_dir : Bool
  pub version : V → Bool

pub record Host (V : Type 0) : Type 0 where
  pub read_dir : Option (List (Option CacheEntry))
  pub can_lock : Text → Bool
  pub under_lock : Text → VersionDir
  pub is_utf8 : Text → Bool
  pub can_copy : Text → Text → Bool
  pub exact : Text → Option (V → Bool)

-- `check_cache`.
pub data CacheLookupResult : Type 0 where
  hit miss : CacheLookupResult

unfoldable pub check_cache : VersionDir → CacheLookupResult
check_cache dir = if is_cache_entry_complete dir then hit else miss

module _ {V : Type 0} (host : Host V) where
  unfoldable pub version_dir : Text → Text → Text
  version_dir dir version = dir ++ (b'/' ∷ version)

  -- The settings with the copied tree, or none where the copy is not made.
  unfoldable pub copy_cached_binaries : Text → Settings V → Option (Settings V)
  copy_cached_binaries version settings =
      let target = version_dir settings.installation_dir version in
      if host.is_utf8 settings.installation_dir && host.can_copy version target
      then some (record settings { installation_dir = target; trust_installation_dir = true })
      else none

  unfoldable pub exactly : Option (V → Bool) → Settings V → Settings V
  exactly none settings = settings
  exactly (some requirement) settings = record settings { version = requirement }

  unfoldable pub set_exact_version : Settings V → Text → Settings V
  set_exact_version settings version = exactly (host.exact version) settings

  unfoldable pub finish_apply : Text → Settings V → Option (Settings V) → Bool × Settings V
  finish_apply version settings none = (false, settings)
  finish_apply version settings (some copied) = (true, set_exact_version copied version)

  unfoldable pub apply_cached_binaries : Text → Settings V → Bool × Settings V
  apply_cached_binaries version settings =
      finish_apply version settings (copy_cached_binaries version settings)

  unfoldable pub use_if_hit : Text → Settings V → CacheLookupResult → Bool × Settings V
  use_if_hit version settings hit = apply_cached_binaries version settings
  use_if_hit version settings miss = (false, settings)

  unfoldable pub use_found : Settings V → Option (V × Text) → Bool × Settings V
  use_found settings none = (false, settings)
  use_found settings (some (_, version)) =
      if host.can_lock version
      then use_if_hit version settings (check_cache (host.under_lock version))
      else (false, settings)

  unfoldable pub try_use_binary_cache : Semver V → Settings V → Bool × Settings V
  try_use_binary_cache semver settings =
      use_found settings (find_matching_cached_version semver settings.version host.read_dir)

  -- The binaries of `version` were copied from an entry that is complete under its lock, and the
  -- settings point at the copy, trust it, and ask for that version where it parses as an exact one.
  pub record Used (settings after : Settings V) (version : Text) : Type 0 where
    pub locked : host.can_lock version ≡ true
    pub complete : is_cache_entry_complete (host.under_lock version) ≡ true
    pub copied : host.can_copy version after.installation_dir ≡ true
    pub target : after.installation_dir ≡ settings.installation_dir ++ (b'/' ∷ version)
    pub trusted : after.trust_installation_dir ≡ true
    pub pinned :
        (requirement : V → Bool)
        → host.exact version ≡ some requirement
        → after.version ≡ requirement

  -- What the use of the cache may give: a copy of the version that was found, or the settings as
  -- they were.
  abbrev pub IsUse : Settings V → Option (V × Text) → Bool × Settings V → Type 0
  IsUse settings found result =
      ((result.0 ≡ true)
        × ((v : V) × (version : Text) × (found ≡ some (v, version))
            × Used settings result.1 version))
      ⊎ ((result.0 ≡ false) × (result.1 ≡ settings))

  module _ (version : Text) (settings : Settings V) where
    abbrev target_dir : Text
    target_dir = settings.installation_dir ++ (b'/' ∷ version)

    exactly-Used :
        (requirement : Option (V → Bool))
        → host.exact version ≡ requirement
        → host.can_lock version ≡ true
        → is_cache_entry_complete (host.under_lock version) ≡ true
        → host.can_copy version target_dir ≡ true
        → Used settings
            (exactly requirement
              (record settings { installation_dir = target_dir; trust_installation_dir = true }))
            version
    unfolding exactly
    exactly-Used none e l c k = record {
      locked = l;
      complete = c;
      copied = k;
      target = refl;
      trusted = refl;
      pinned = λ r h. cc;
    }
    exactly-Used (some requirement) e l c k = record {
      locked = l;
      complete = c;
      copied = k;
      target = refl;
      trusted = refl;
      pinned = λ r h. some-injective _ _ (sym e ∙ h);
    }

    apply-IsUse :
        (v : V)
        → host.can_lock version ≡ true
        → is_cache_entry_complete (host.under_lock version) ≡ true
        → IsUse settings (some (v, version)) (apply_cached_binaries version settings)
    unfolding apply_cached_binaries finish_apply copy_cached_binaries set_exact_version version_dir
    apply-IsUse v l c =
        elim (Bool-cases
          (host.is_utf8 settings.installation_dir && host.can_copy version target_dir)) [
            | inl e ↦ rw e (
                inl (
                  refl,
                  (
                    v,
                    version,
                    refl,
                    exactly-Used (host.exact version) refl l c (ground (arith, e)),
                  ),
                ))
            | inr e ↦ rw e (inr (refl, refl))
          ]

    hit-IsUse :
        (v : V)
        → host.can_lock version ≡ true
        → IsUse settings
            (some (v, version))
            (use_if_hit version settings (check_cache (host.under_lock version)))
    unfolding use_if_hit check_cache
    hit-IsUse v l = elim (Bool-cases (is_cache_entry_complete (host.under_lock version))) [
      | inl e ↦ rw e (apply-IsUse v l e)
      | inr e ↦ rw e (inr (refl, refl))
    ]

  use_found-IsUse :
      (settings : Settings V) (found : Option (V × Text))
      → IsUse settings found (use_found settings found)
  unfolding use_found
  use_found-IsUse settings none = inr (refl, refl)
  use_found-IsUse settings (some (v, version)) = elim (Bool-cases (host.can_lock version)) [
    | inl e ↦ rw e (hit-IsUse version settings v e)
    | inr e ↦ rw e (inr (refl, refl))
  ]

-- A start either copies the cached version that the lookup found, from an entry that is complete
-- under the shared lock, and points the settings at the copy, trusts it and pins its version; or it
-- reports a miss and leaves the settings as they were.
pub try_use_binary_cache-IsUse :
    {V : Type 0} (host : Host V) (semver : Semver V) (settings : Settings V)
    → IsUse host settings
        (find_matching_cached_version semver settings.version host.read_dir)
        (try_use_binary_cache host semver settings)
unfolding try_use_binary_cache
try_use_binary_cache-IsUse host semver settings =
    use_found-IsUse host settings
      (find_matching_cached_version semver settings.version host.read_dir)
