-- ===== src/Extensions/Install.antt =====
-- src/extensions/install.rs and write.rs. The gzip and tar readers and the hash function are other
-- crates': an archive's bytes are read by `entries`, and digests by `of_bytes`. The tree is the
-- sequence of the writes made to it; whether one succeeds is the file system's answer.
pub mod Plan
pub mod Write
pub mod Complete
pub mod Whole
use pg_embed_setup_unpriv.Prelude.{
  ℕ, suc, ◌+◌, ◌-◌, ◌*◌, ◌^◌, min, ◌≡◌, Bool, true, false, not, ◌&&◌, ◌||◌, Option, none, some,
  List, [], ◌∷◌, ◌++◌, map, contains, find, length, take, ltb, ◌==◌, nat_eq, list_eq, if◌then◌else◌,
}
use pg_embed_setup_unpriv.Prelude.Texts.{Text, codes}
use pg_embed_setup_unpriv.Prelude.Sorting.{sort_by, text_leb}
use pg_embed_setup_unpriv.Error.{
  BootstrapResult, ok, err, ensure, ok_or, extension_archive_invalid,
  extension_archive_digest_mismatch, extension_install_failed, ◌>>=◌, ◌>>◌,
}
use pg_embed_setup_unpriv.Extensions.Layout.{components, normal, Component, classify_entry_path}
use pg_embed_setup_unpriv.Extensions.Manifest.{ManifestArtifact}

abbrev pub lib_mode : ℕ
lib_mode = 0o755

abbrev pub share_mode : ℕ
share_mode = 0o644

abbrev pub entry_decompressed_cap : ℕ
entry_decompressed_cap = 64 * 1024 * 1024

abbrev pub archive_decompressed_cap : ℕ
archive_decompressed_cap = 256 * 1024 * 1024

abbrev pub u64_max : ℕ
u64_max = 2 ^ 64 - 1

pub record PlannedFile : Type 0 where
  pub relative : Text
  pub mode : ℕ

-- The tar crate's entry types, as far as the code tells them apart.
pub data EntryType : Type 0 where
  regular directory special : EntryType

-- An entry of the archive. The header's size may be unreadable, and so may the contents.
pub record TarEntry : Type 0 where
  pub kind : EntryType
  pub size : Option ℕ
  pub name : Text
  pub contents : Option (List ℕ)

-- The first file bytes that `read_verified` takes, one more than the manifest's size.
unfoldable pub read_verified :
    (List ℕ → Text) → Option (List ℕ) → ManifestArtifact → BootstrapResult (List ℕ)
unfolding list_eq take
read_verified of_bytes file artifact = do
  content ← ok_or file extension_archive_invalid
  let bytes = take (min (artifact.size + 1) u64_max) content
  if not (length bytes == artifact.size) || not (of_bytes bytes == artifact.sha256)
      then err extension_archive_digest_mismatch
      else ok bytes

-- `relative.starts_with("lib")`, which compares components.
unfoldable pub first_is_lib : List Component → Bool
unfolding list_eq
first_is_lib (normal first ∷ _) = first == codes "lib"
first_is_lib _ = false

unfoldable pub starts_with_lib : Text → Bool
starts_with_lib relative = first_is_lib (components relative)

unfoldable pub plan_entry : EntryType → Text → BootstrapResult (Option PlannedFile)
plan_entry directory name = ok none
plan_entry special name = err extension_archive_invalid
plan_entry regular name = do
  relative ← ok_or (classify_entry_path name) extension_archive_invalid
  ok (
      some (record {
        relative = relative;
        mode = if starts_with_lib relative then lib_mode else share_mode;
      }))

unfoldable pub check_decompressed_caps : ℕ → ℕ → BootstrapResult ℕ
check_decompressed_caps size declared = do
  ensure (not (ltb entry_decompressed_cap size)) extension_archive_invalid
  let total = min (declared + size) u64_max
  ensure (not (ltb archive_decompressed_cap total)) extension_archive_invalid
  ok total

-- The body of `if let Some(file)` in the loop of `plan`; `next` is the rest of the loop.
unfoldable pub push_planned :
    ℕ
    → Option PlannedFile
    → List Text
    → ℕ
    → (List Text → ℕ → BootstrapResult (List PlannedFile))
    → BootstrapResult (List PlannedFile)
push_planned size none seen declared next = next seen declared
push_planned size (some file) seen declared next = do
  ensure (not (contains seen file.relative)) extension_archive_invalid
  total ← check_decompressed_caps size declared
  files ← next (file.relative ∷ seen) total
  ok (file ∷ files)

-- The loop of `plan`; the files are returned in the order in which they are pushed.
unfoldable pub plan_loop :
    List (Option TarEntry) → List Text → ℕ → BootstrapResult (List PlannedFile)
plan_loop [] seen declared = ok []
plan_loop (none ∷ rest) seen declared = err extension_archive_invalid
plan_loop (some entry ∷ rest) seen declared = do
  size ← ok_or entry.size extension_archive_invalid
  planned ← plan_entry entry.kind entry.name
  push_planned size planned seen declared (plan_loop rest)

unfoldable pub check_against_manifest :
    List PlannedFile → ManifestArtifact → BootstrapResult (Unit {0})
unfolding list_eq
check_against_manifest files artifact =
    let expected = sort_by text_leb artifact.files in
    let actual = map (λ (f : PlannedFile). f.relative) files in
    ensure (actual == expected) extension_archive_invalid

unfoldable pub plan : List (Option TarEntry) → ManifestArtifact → BootstrapResult (List PlannedFile)
plan entries artifact = do
  files ← plan_loop entries [] 0
  let sorted = sort_by (λ (a b : PlannedFile). text_leb a.relative b.relative) files
  check_against_manifest sorted artifact
  ok sorted

abbrev pub Log : Type 0
Log = List (PlannedFile × List ℕ)

-- `read_entry_bounded`: the contents and the budget that is left.
unfoldable pub read_entry_bounded : Option (List ℕ) → ℕ → BootstrapResult (List ℕ × ℕ)
unfolding take
read_entry_bounded none budget = err extension_archive_invalid
read_entry_bounded (some entry) budget =
    let limit = min entry_decompressed_cap budget in
    let contents = take (limit + 1) entry in
    if ltb limit (length contents)
    then err extension_archive_invalid
    else ok (contents, budget - length contents)

-- The lookup of the plan of an entry; `classify_entry_path` is called again in the second pass.
unfoldable pub planned_at : List PlannedFile → Option Text → Option PlannedFile
unfolding list_eq
planned_at planned none = none
planned_at planned (some file) = find (λ (p : PlannedFile). p.relative == file) planned

unfoldable pub planned_for : List PlannedFile → Text → Option PlannedFile
planned_for planned name = planned_at planned (classify_entry_path name)

module _ (planned : List PlannedFile) (write_file : PlannedFile → List ℕ → Bool) where
  -- The log lists the writes in order, a failing one included; `next` is the rest of the loop.
  unfoldable pub log_write :
      PlannedFile → List ℕ → Bool → BootstrapResult Unit × Log → BootstrapResult Unit × Log
  log_write file contents false next = (err extension_install_failed, (file, contents) ∷ [])
  log_write file contents true (result, log) = (result, (file, contents) ∷ log)

  unfoldable pub write_contents :
      PlannedFile
      → BootstrapResult (List ℕ × ℕ)
      → (ℕ → BootstrapResult Unit × Log)
      → BootstrapResult Unit × Log
  write_contents file (err e) next = (err e, [])
  write_contents file (ok (contents, left)) next =
      log_write file contents (write_file file contents) (next left)

  unfoldable pub write_entry :
      Option PlannedFile
      → Option (List ℕ)
      → ℕ
      → (ℕ → BootstrapResult Unit × Log)
      → BootstrapResult Unit × Log
  write_entry none contents budget next = next budget
  write_entry (some file) contents budget next =
      write_contents file (read_entry_bounded contents budget) next

  -- The loop of `write_all`.
  unfoldable pub write_loop : List (Option TarEntry) → ℕ → BootstrapResult Unit × Log
  write_loop [] budget = (ok tt, [])
  write_loop (none ∷ rest) budget = (err extension_archive_invalid, [])
  write_loop (some entry ∷ rest) budget =
      write_entry (planned_for planned entry.name) entry.contents budget (write_loop rest)

  unfoldable pub write_all : List (Option TarEntry) → BootstrapResult Unit × Log
  write_all entries = write_loop entries archive_decompressed_cap

abbrev pub relatives : List PlannedFile → List Text
relatives = map (λ (f : PlannedFile). f.relative)

-- A failure of `entries()` itself is an unreadable first entry: both are the same error.
module _ (of_bytes : List ℕ → Text) (entries : List ℕ → List (Option TarEntry))
    (write_file : PlannedFile → List ℕ → Bool) where
  abbrev write_planned :
      List ℕ → BootstrapResult (List PlannedFile) → BootstrapResult (List Text) × Log
  write_planned bytes (err e) = (err e, [])
  write_planned bytes (ok planned) =
      let (result, log) = write_all planned write_file (entries bytes) in
      ((do result; ok (relatives planned)), log)

  abbrev install_verified :
      ManifestArtifact → BootstrapResult (List ℕ) → BootstrapResult (List Text) × Log
  install_verified artifact (err e) = (err e, [])
  install_verified artifact (ok bytes) = write_planned bytes (plan (entries bytes) artifact)

  unfoldable pub install_archive :
      Option (List ℕ) → ManifestArtifact → BootstrapResult (List Text) × Log
  install_archive file artifact = install_verified artifact (read_verified of_bytes file artifact)
