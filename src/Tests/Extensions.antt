-- ===== src/Tests/Extensions.antt =====
-- An archive, its plan and its installation (src/extensions/), at a concrete archive.
use mathlib.Core.List.{Nodup, Perm}
use pg_embed_setup_unpriv.Prelude.{
  ℕ, ◌≡◌, ◌≤◌, ◌↔◌, refl, Bool, true, not, Option, none, some, List, [], ◌∷◌, arith, All, nat_eq,
  list_eq, if◌then◌else◌, ◌==◌, take, FirstOf, find,
}
use pg_embed_setup_unpriv.Prelude.Texts.{Text, codes, join, split, is_empty}
use pg_embed_setup_unpriv.Prelude.Sorting.{sort_by, insert_sorted, text_leb}
use pg_embed_setup_unpriv.Error.{ok}
use pg_embed_setup_unpriv.Extensions.Layout.{
  classify_entry_path, components, normal_components, later_components, plain_component, leading,
  pieces, piece, is_allowed_layout,
}
use pg_embed_setup_unpriv.Extensions.Layout.Laws.{IsInstallPath, classify_entry_path_iff}
use pg_embed_setup_unpriv.Extensions.Manifest.{
  Externals, Manifest, ManifestArtifact, ManifestExtension, validate, select, artifact_version,
  artifact_matches,
}
use pg_embed_setup_unpriv.Extensions.Manifest.Laws.{
  IsValidExtension, Suits, validate_iff, select-FirstOf,
}
use pg_embed_setup_unpriv.Extensions.Install.{
  PlannedFile, TarEntry, regular, directory, Log, read_verified, first_is_lib, starts_with_lib,
  plan_entry, check_decompressed_caps, push_planned, plan_loop, check_against_manifest, plan,
  relatives, read_entry_bounded, planned_at, planned_for, log_write, write_contents, write_entry,
  write_loop, write_all, install_archive, archive_decompressed_cap,
}
use pg_embed_setup_unpriv.Extensions.Install.Plan.{IsInstallFile, plan-exact}
use pg_embed_setup_unpriv.Extensions.Install.Write.{IsSafeWrite, bytes_written}
use pg_embed_setup_unpriv.Extensions.Install.Whole.{
  Installed, install_archive-bounded, install_archive-Installed,
}

abbrev library : TarEntry
library = record {
  kind = regular;
  size = some 2;
  name = codes "lib/vector.so";
  contents = some (1 ∷ 2 ∷ []);
}

abbrev folder : TarEntry
folder = record { kind = directory; size = some 0; name = codes "share/"; contents = some [] }

abbrev control : TarEntry
control = record {
  kind = regular;
  size = some 1;
  name = codes "./share/extension/vector.control";
  contents = some (3 ∷ []);
}

abbrev pub entries : List ℕ → List (Option TarEntry)
entries bytes = some folder ∷ some control ∷ some library ∷ []

abbrev pub digest : List ℕ → Text
digest bytes = codes "digest"

abbrev pub archive : List ℕ
archive = 9 ∷ 8 ∷ 7 ∷ []

abbrev pub artifact : ManifestArtifact
artifact = record {
  postgresql = codes "17.4.0";
  target = codes "linux";
  file = codes "vector.tar.gz";
  url = codes "https://example.org/vector.tar.gz";
  sha256 = codes "digest";
  size = 3;
  files = codes "share/extension/vector.control" ∷ codes "lib/vector.so" ∷ [];
}

abbrev pub planned_files : List PlannedFile
planned_files =
    record { relative = codes "lib/vector.so"; mode = 0o755 }
    ∷ record { relative = codes "share/extension/vector.control"; mode = 0o644 }
    ∷ []

plan-computes : plan (entries archive) artifact ≡ ok planned_files
unfolding plan plan_loop push_planned plan_entry classify_entry_path normal_components
    later_components plain_component components leading pieces piece split join is_allowed_layout
    starts_with_lib first_is_lib check_decompressed_caps check_against_manifest sort_by
    insert_sorted text_leb list_eq
plan-computes = refl

plan-exact_example :
    All IsInstallFile planned_files
    × Nodup (relatives planned_files)
    × Perm (relatives planned_files) artifact.files
plan-exact_example = plan-exact (entries archive) artifact planned_files plan-computes

abbrev pub always : PlannedFile → List ℕ → Bool
always file contents = true

abbrev pub written : Log
written =
    (record { relative = codes "share/extension/vector.control"; mode = 0o644 }, 3 ∷ [])
    ∷ (record { relative = codes "lib/vector.so"; mode = 0o755 }, 1 ∷ 2 ∷ [])
    ∷ []

install-computes :
    install_archive digest entries always (some archive) artifact
    ≡ (ok (relatives planned_files), written)
unfolding install_archive read_verified plan plan_loop push_planned plan_entry classify_entry_path
    normal_components later_components plain_component components leading pieces piece split join
    is_allowed_layout starts_with_lib first_is_lib check_decompressed_caps check_against_manifest
    sort_by insert_sorted text_leb list_eq take read_entry_bounded planned_at planned_for log_write
    write_contents write_entry write_loop write_all find
install-computes = refl

install_archive-Installed_example :
    Installed digest entries (some archive) artifact (relatives planned_files) written
install_archive-Installed_example =
    install_archive-Installed digest entries always (some archive) artifact
      (relatives planned_files) written (omega arith) install-computes

install_archive-bounded_example :
    All IsSafeWrite (install_archive digest entries always (some archive) artifact).1
    × (bytes_written (install_archive digest entries always (some archive) artifact).1
        ≤ archive_decompressed_cap)
install_archive-bounded_example =
    install_archive-bounded digest entries always (some archive) artifact

classify_entry_path_iff_example :
    (classify_entry_path (codes "lib/vector.so") ≡ some (codes "lib/vector.so"))
    ↔ IsInstallPath (codes "lib/vector.so")
classify_entry_path_iff_example = classify_entry_path_iff (codes "lib/vector.so")

-- A version is its major and minor numbers, and every version is read as 17.4.
abbrev pub externals : Externals
externals = record {
  Version = ℕ × ℕ;
  parse_version = λ s. if is_empty s then none else some (17, 4);
  major = λ v. v.0;
  minor = λ v. v.1;
  is_permitted_url = λ url. not (is_empty url);
}

abbrev extension : ManifestExtension
extension = record {
  name = codes "vector";
  package_name = codes "pgvector";
  version = codes "0.8.0";
  source = record { repository = codes "r"; tag = codes "t"; commit = codes "c" };
  artifacts = artifact ∷ [];
}

abbrev pub manifest : Manifest
manifest = record {
  schema_version = 1;
  release = codes "r1";
  generated_at = codes "now";
  extensions = extension ∷ [];
}

validate_iff_example :
    (validate externals manifest ≡ ok tt)
    ↔ ((manifest.schema_version ≡ 1) × All (IsValidExtension externals) manifest.extensions)
validate_iff_example = validate_iff externals manifest

select-computes :
    select externals manifest (codes "vector") (17, 4) (codes "linux")
    ≡ ok (record { extension = extension; artifact = artifact })
unfolding select find artifact_matches artifact_version list_eq
select-computes = refl

select-FirstOf_example :
    FirstOf (λ (e : ManifestExtension). e.name == codes "vector") manifest.extensions extension
    × FirstOf
        (λ a. artifact_matches externals a (17, 4) (codes "linux"))
        extension.artifacts
        artifact
    × (extension.name ≡ codes "vector")
    × Suits externals (17, 4) (codes "linux") artifact
select-FirstOf_example =
    select-FirstOf externals manifest (codes "vector") (17, 4) (codes "linux") _ select-computes
