-- ===== src/Extensions/Manifest.antt =====
-- src/extensions/manifest/mod.rs and select.rs. The JSON decoder (serde), `Version::parse` (semver)
-- and `is_permitted_url` (the url crate) are not of this repository: a manifest starts here as the
-- decoded record, and the other two are the operations of `Externals`.
pub mod Laws
use pg_embed_setup_unpriv.Prelude.{
  ℕ, ◌*◌, Bool, true, false, not, ◌&&◌, ◌||◌, Option, none, some, List, [], ◌∷◌, contains, find,
  ltb, ◌==◌, nat_eq, list_eq, if◌then◌else◌,
}
use pg_embed_setup_unpriv.Prelude.Texts.{Text, codes, is_empty}
use pg_embed_setup_unpriv.Error.{
  BootstrapResult, Result, ok, err, ensure, ok_or, extension_manifest_invalid,
  extension_unavailable, ◌>>=◌, ◌>>◌,
}
use pg_embed_setup_unpriv.Extensions.Name

pub record Externals : Type 1 where
  pub Version : Type 0
  pub parse_version : Text → Option Version
  pub major : Version → ℕ
  pub minor : Version → ℕ
  pub is_permitted_url : Text → Bool

abbrev pub supported_schema_version : ℕ
supported_schema_version = 1

abbrev pub archive_size_cap : ℕ
archive_size_cap = 256 * 1024 * 1024

pub record ManifestArtifact : Type 0 where
  pub postgresql : Text
  pub target : Text
  pub file : Text
  pub url : Text
  pub sha256 : Text
  pub size : ℕ
  pub files : List Text

pub record ManifestSourceInfo : Type 0 where
  pub repository : Text
  pub tag : Text
  pub commit : Text

pub record ManifestExtension : Type 0 where
  pub name : Text
  pub package_name : Text
  pub version : Text
  pub source : ManifestSourceInfo
  pub artifacts : List ManifestArtifact

pub record Manifest : Type 0 where
  pub schema_version : ℕ
  pub release : Text
  pub generated_at : Text
  pub extensions : List ManifestExtension

unfoldable pub is_single_component : Text → Bool
unfolding list_eq
is_single_component file =
    not (is_empty file)
    && not (contains file b'/')
    && not (contains file 0x5c)
    && not (file == codes ".")
    && not (file == codes "..")

abbrev no_files : List Text → Bool
no_files [] = true
no_files (_ ∷ _) = false

-- `Selection`: the extension and its artefact.
pub record Selection : Type 0 where
  pub extension : ManifestExtension
  pub artifact : ManifestArtifact

module _ (ext : Externals) where
  unfoldable pub artifact_version : ManifestArtifact → Option ext.Version
  artifact_version artifact = ext.parse_version artifact.postgresql

  unfoldable pub validate_artifact : ManifestArtifact → BootstrapResult (Unit {0})
  validate_artifact artifact = do
    ok_or (artifact_version artifact) extension_manifest_invalid
    ensure (is_single_component artifact.file) extension_manifest_invalid
    ensure (not (artifact.size == 0 || ltb archive_size_cap artifact.size))
        extension_manifest_invalid
    ensure (not (no_files artifact.files)) extension_manifest_invalid
    ensure (ext.is_permitted_url artifact.url) extension_manifest_invalid

  unfoldable pub validate_artifacts : List ManifestArtifact → BootstrapResult (Unit {0})
  validate_artifacts [] = ok tt
  validate_artifacts (artifact ∷ rest) = do validate_artifact artifact; validate_artifacts rest

  -- `map_err(invalid)` on the name's error.
  name_error : BootstrapResult Text → BootstrapResult (Unit {0})
  name_error (ok _) = ok tt
  name_error (err _) = err extension_manifest_invalid

  unfoldable pub validate_extensions : List ManifestExtension → BootstrapResult (Unit {0})
  unfolding name_error
  validate_extensions [] = ok tt
  validate_extensions (extension ∷ rest) = do
    name_error (Name.new extension.name)
    validate_artifacts extension.artifacts
    validate_extensions rest

  unfoldable pub validate : Manifest → BootstrapResult (Unit {0})
  validate manifest = do
    ensure (manifest.schema_version == supported_schema_version) extension_manifest_invalid
    validate_extensions manifest.extensions

  built_for : ext.Version → Option ext.Version → Bool
  built_for running none = false
  built_for running (some built) =
      ext.major built == ext.major running && ext.minor built == ext.minor running

  unfoldable pub artifact_matches : ManifestArtifact → ext.Version → Text → Bool
  unfolding built_for list_eq
  artifact_matches artifact running target =
      built_for running (artifact_version artifact) && artifact.target == target

  unfoldable pub select : Manifest → Text → ext.Version → Text → BootstrapResult Selection
  unfolding list_eq
  select manifest name running target = do
    extension ←
        ok_or (find (λ extension. extension.name == name) manifest.extensions) extension_unavailable
    artifact ←
        ok_or (find (λ artifact. artifact_matches artifact running target) extension.artifacts)
          extension_unavailable
    ok (record { extension = extension; artifact = artifact })
