-- ===== src/Extensions/Pipeline.antt =====
-- src/extensions/mod.rs and manifest/fetch.rs: the installation of all extensions of a request. The
-- decoder of the manifest, the hash, the network, the disk, the running release and the entries of an
-- archive are answers of `Site`. An archive's file is read again when it is installed, so what it
-- then holds is an answer too.
pub mod Loading
pub mod Each
pub mod Laws
use pg_embed_setup_unpriv.Prelude.{
  ℕ, ◌+◌, ◌*◌, Bool, true, false, not, Option, none, some, List, [], ◌∷◌, take, length, leb, ◌==◌,
  nat_eq, list_eq, if◌then◌else◌,
}
use pg_embed_setup_unpriv.Prelude.Texts.{Text}
use pg_embed_setup_unpriv.Error.{
  BootstrapResult, ok, err, ok_or, ensure, ◌>>=◌, ◌>>◌, extension_manifest_unavailable,
  extension_manifest_digest_mismatch, extension_manifest_invalid,
}
use pg_embed_setup_unpriv.Extensions.Manifest.{
  Externals, Manifest, ManifestArtifact, Selection, validate, select,
}
use pg_embed_setup_unpriv.Extensions.Install.{PlannedFile, TarEntry, Log, install_archive}
use pg_embed_setup_unpriv.Extensions.Http.{Network, http_get}
use pg_embed_setup_unpriv.Extensions.Archive.{Entry, ArchiveOrigin, Disk, acquire}
use pg_embed_setup_unpriv.Extensions.Config.{ManifestSource, url, path, ExtensionRequest}

abbrev pub manifest_size_cap : ℕ
manifest_size_cap = 1024 * 1024

pub record InstalledExtension : Type 0 where
  pub name : Text
  pub version : Text
  pub postgresql : Text
  pub target : Text
  pub archive_sha256 : Text
  pub origin : ArchiveOrigin
  pub files : List Text

pub record Site (ext : Externals) : Type 0 where
  pub of_bytes : List ℕ → Text
  pub decode : List ℕ → Option Manifest
  pub read_file : Text → Option (List ℕ)
  pub net : Network
  pub disk : Disk
  pub entry : ManifestArtifact → Entry
  pub archive : ManifestArtifact → Option (List ℕ)
  pub entries : List ℕ → List (Option TarEntry)
  pub write_file : PlannedFile → List ℕ → Bool
  pub running_version : Text → BootstrapResult ext.Version
  pub compile_target : Text

module _ (ext : Externals) (site : Site ext) where
  unfoldable pub check_size : List ℕ → BootstrapResult (List ℕ)
  check_size bytes =
      if leb (length bytes) manifest_size_cap then ok bytes else err extension_manifest_invalid

  unfoldable pub capped : Option (List ℕ) → BootstrapResult (List ℕ)
  capped none = err extension_manifest_unavailable
  capped (some contents) = check_size (take (manifest_size_cap + 1) contents)

  unfoldable pub read_path : Text → BootstrapResult (List ℕ)
  read_path file = capped (site.read_file file)

  unfoldable pub fetched : Option (List ℕ) → BootstrapResult (List ℕ)
  fetched none = err extension_manifest_unavailable
  fetched (some bytes) = check_size bytes

  unfoldable pub fetch_url : Text → BootstrapResult (List ℕ)
  fetch_url location = fetched (http_get site.net location manifest_size_cap)

  -- The bytes, before they are compared with the digest.
  unfoldable pub bytes_of : ManifestSource → BootstrapResult (List ℕ)
  bytes_of (url location sha256) = fetch_url location
  bytes_of (path file sha256) = read_path file

  abbrev pub pin_of : ManifestSource → Option Text
  pin_of (url location sha256) = some sha256
  pin_of (path file sha256) = sha256

  unfoldable pub verify_digest : Option Text → List ℕ → BootstrapResult (Unit {0})
  unfolding list_eq
  verify_digest none bytes = ok tt
  verify_digest (some expected) bytes =
      if site.of_bytes bytes == expected then ok tt else err extension_manifest_digest_mismatch

  -- `Manifest::parse`.
  unfoldable pub parse_manifest : Option Manifest → BootstrapResult Manifest
  parse_manifest none = err extension_manifest_invalid
  parse_manifest (some manifest) = validate ext manifest >> ok manifest

  unfoldable pub load : ManifestSource → BootstrapResult Manifest
  load source = bytes_of source >>= λ bytes.
      verify_digest (pin_of source) bytes >> parse_manifest (site.decode bytes)

  module _ (manifest : Manifest) (running : ext.Version) where
    unfoldable pub select_all : List Text → BootstrapResult (List Selection)
    select_all [] = ok []
    select_all (name ∷ names) =
        select ext manifest name running site.compile_target >>= λ selection.
        select_all names >>= λ rest. ok (selection ∷ rest)

  unfoldable pub report :
      Text
      → Selection
      → ArchiveOrigin
      → BootstrapResult (List Text)
      → BootstrapResult InstalledExtension
  report name selection origin (err e) = err e
  report name selection origin (ok files) = ok (record {
    name = name;
    version = selection.extension.version;
    postgresql = selection.artifact.postgresql;
    target = selection.artifact.target;
    archive_sha256 = selection.artifact.sha256;
    origin = origin;
    files = files;
  })

  -- With what was written.
  unfoldable pub install_acquired :
      Text → Selection → BootstrapResult ArchiveOrigin → BootstrapResult InstalledExtension × Log
  install_acquired name selection (err e) = (err e, [])
  install_acquired name selection (ok origin) =
      let (files, log) =
        install_archive site.of_bytes site.entries site.write_file (site.archive selection.artifact)
          selection.artifact in
      (report name selection origin files, log)

  unfoldable pub install_one : Text → Selection → BootstrapResult InstalledExtension × Log
  install_one name selection =
      install_acquired name selection
        (acquire site.of_bytes site.disk site.net selection.artifact
          (site.entry selection.artifact)).0

  abbrev pub Outcome : Type 0
  Outcome = BootstrapResult (List InstalledExtension) × List Log

  unfoldable pub collected : InstalledExtension → Log → Outcome → Outcome
  collected extension log (err e, logs) = (err e, log ∷ logs)
  collected extension log (ok rest, logs) = (ok (extension ∷ rest), log ∷ logs)

  -- The first installation that fails ends the iteration; `next` is the rest.
  unfoldable pub after_one : BootstrapResult InstalledExtension × Log → Outcome → Outcome
  after_one (err e, log) next = (err e, log ∷ [])
  after_one (ok extension, log) next = collected extension log next

  -- `names.zip(selections).map(install_one).collect()`.
  unfoldable pub install_all : List Text → List Selection → Outcome
  install_all [] selections = (ok [], [])
  install_all (name ∷ names) [] = (ok [], [])
  install_all (name ∷ names) (selection ∷ selections) =
      after_one (install_one name selection) (install_all names selections)

  unfoldable pub install_selected : List Text → BootstrapResult (List Selection) → Outcome
  install_selected names (err e) = (err e, [])
  install_selected names (ok selections) = install_all names selections

  unfoldable pub selections_of : ExtensionRequest → Text → BootstrapResult (List Selection)
  selections_of request install_dir = load request.manifest >>= λ manifest.
      site.running_version install_dir >>= λ running. select_all manifest running request.names

  unfoldable pub install_extensions_blocking : ExtensionRequest → Text → Outcome
  install_extensions_blocking request install_dir =
      install_selected request.names (selections_of request install_dir)
