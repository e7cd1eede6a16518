-- ===== src/Extensions/Install/Whole.antt =====
-- What an installation does as a whole, src/extensions/install.rs's `install_archive`.
use pg_embed_setup_unpriv.Prelude.{
  ℕ, ◌≤◌, ◌≡◌, refl, ap, sym, subst, ◌∙◌, Bool, Option, some, List, map, length, nat_eq, list_eq,
  All, arith,
}
use pg_embed_setup_unpriv.Prelude.Texts.{Text}
use pg_embed_setup_unpriv.Error.{BootstrapResult, ok, err, ◌>>◌}
use pg_embed_setup_unpriv.Extensions.Manifest.{ManifestArtifact, archive_size_cap}
use pg_embed_setup_unpriv.Extensions.Install.{
  PlannedFile, TarEntry, Log, archive_decompressed_cap, read_verified, write_loop, write_all, plan,
  install_archive, install_verified, write_planned, relatives,
}
use pg_embed_setup_unpriv.Extensions.Install.Plan.{plan-exact}
use pg_embed_setup_unpriv.Extensions.Install.Complete.{
  IsWhole, IsWritten, plan-FromEntry, write_loop_complete, planned_writes-IsWhole,
}
use pg_embed_setup_unpriv.Extensions.Install.Write.{
  IsSafe, IsSafeWrite, bytes_written, planned_writes, read_verified-whole, write_loop-IsSafe,
  write_loop-ok,
}

-- Whatever the outcome of an installation, even one that fails half way: it writes only files that
-- stay under `lib` or `share/extension`, none above the limit for one file, and together no more
-- than the limit for one archive.
pub install_archive-bounded :
    (of_bytes : List ℕ → Text) (entries : List ℕ → List (Option TarEntry))
    (write_file : PlannedFile → List ℕ → Bool) (file : Option (List ℕ))
    (artifact : ManifestArtifact)
    → let log = (install_archive of_bytes entries write_file file artifact).1 in
      All IsSafeWrite log × (bytes_written log ≤ archive_decompressed_cap)
unfolding install_archive write_all
install_archive-bounded of_bytes entries write_file file artifact =
    verified (read_verified of_bytes file artifact)
  where
    planned :
        (bytes : List ℕ) (p : BootstrapResult (List PlannedFile))
        → plan (entries bytes) artifact ≡ p
        → IsSafe archive_decompressed_cap
            (ok tt, (write_planned of_bytes entries write_file bytes p).1)
    planned bytes (err e) h = (tt, omega arith)
    planned bytes (ok files) h =
        write_loop-IsSafe files write_file (plan-exact (entries bytes) artifact files h).0
          (entries bytes) archive_decompressed_cap

    verified :
        (v : BootstrapResult (List ℕ))
        → IsSafe archive_decompressed_cap
            (ok tt, (install_verified of_bytes entries write_file artifact v).1)
    verified (err e) = (tt, omega arith)
    verified (ok bytes) = planned bytes (plan (entries bytes) artifact) refl

-- What a successful installation of `artifact` did.
pub record Installed (of_bytes : List ℕ → Text) (entries : List ℕ → List (Option TarEntry))
    (file : Option (List ℕ)) (artifact : ManifestArtifact) (names : List Text) (log : Log)
    : Type 0 where
  pub bytes : List ℕ
  pub planned : List PlannedFile
  pub verified :
      (file ≡ some bytes) × (length bytes ≡ artifact.size) × (of_bytes bytes ≡ artifact.sha256)
  pub accepted : plan (entries bytes) artifact ≡ ok planned
  pub reported : names ≡ map (λ (f : PlannedFile). f.relative) planned
  pub written : log ≡ planned_writes planned (entries bytes)
  pub complete : All (IsWritten log) planned
  pub whole : All (IsWhole (entries bytes)) log

-- An installation of an artifact of a valid size succeeds only on the file that the manifest
-- describes, whole, by size and digest. It then reports the planned files and has made a write at
-- the path of each of them, and each write that it made is the whole of an entry of the archive whose
-- path it has.
pub install_archive-Installed :
    (of_bytes : List ℕ → Text) (entries : List ℕ → List (Option TarEntry))
    (write_file : PlannedFile → List ℕ → Bool) (file : Option (List ℕ))
    (artifact : ManifestArtifact) (names : List Text) (log : Log)
    → artifact.size ≤ archive_size_cap
    → install_archive of_bytes entries write_file file artifact ≡ (ok names, log)
    → Installed of_bytes entries file artifact names log
unfolding install_archive write_all
install_archive-Installed of_bytes entries write_file file artifact names log small =
    verified (read_verified of_bytes file artifact) refl
  where
    report :
        (bytes : List ℕ) (files : List PlannedFile) (r : BootstrapResult Unit × Log)
        → read_verified of_bytes file artifact ≡ ok bytes
        → plan (entries bytes) artifact ≡ ok files
        → write_loop files write_file (entries bytes) archive_decompressed_cap ≡ r
        → ◌≡◌ {A = BootstrapResult (List Text) × Log}
            (r.0 >> ok (relatives files), r.1)
            (ok names, log)
        → Installed of_bytes entries file artifact names log
    report bytes files (err e, l) v h w k =
        absurd (ground (arith, ap (λ (p : BootstrapResult (List Text) × Log). p.0) k))
    report bytes files (ok u, l) v h w k =
        let same : l ≡ log = ap (λ (p : BootstrapResult (List Text) × Log). p.1) k in
        let logged =
          sym same ∙ write_loop-ok files write_file (entries bytes) archive_decompressed_cap l w in
        record {
          bytes = bytes;
          planned = files;
          verified = read_verified-whole of_bytes file artifact bytes small v;
          accepted = h;
          reported = ground (arith, ap (λ (p : BootstrapResult (List Text) × Log). p.0) k);
          written = logged;
          complete =
              subst (λ x. All (IsWritten x) files) same
                (write_loop_complete files write_file (entries bytes) archive_decompressed_cap l
                  (plan-FromEntry (entries bytes) artifact files h) w);
          whole =
              subst (All (IsWhole (entries bytes))) (sym logged)
                (planned_writes-IsWhole files write_file (entries bytes));
        }

    planned :
        (bytes : List ℕ) (p : BootstrapResult (List PlannedFile))
        → read_verified of_bytes file artifact ≡ ok bytes
        → plan (entries bytes) artifact ≡ p
        → write_planned of_bytes entries write_file bytes p ≡ (ok names, log)
        → Installed of_bytes entries file artifact names log
    planned bytes (err e) v h w =
        absurd (ground (arith, ap (λ (p : BootstrapResult (List Text) × Log). p.0) w))
    planned bytes (ok files) v h w =
        report bytes files (write_loop files write_file (entries bytes) archive_decompressed_cap) v
          h refl w

    verified :
        (v : BootstrapResult (List ℕ))
        → read_verified of_bytes file artifact ≡ v
        → install_verified of_bytes entries write_file artifact v ≡ (ok names, log)
        → Installed of_bytes entries file artifact names log
    verified (err e) v w =
        absurd (ground (arith, ap (λ (p : BootstrapResult (List Text) × Log). p.0) w))
    verified (ok bytes) v w = planned bytes (plan (entries bytes) artifact) v refl w
