-- ===== src/Extensions/Install/Write.antt =====
-- What the second pass writes, and what is known before it writes anything.
use pg_embed_setup_unpriv.Prelude.{
  ℕ, take-all, zero, suc, ◌+◌, ◌-◌, ◌≤◌, ◌≡◌, refl, ap, sym, ◌∙◌, min, Bool, true, false, Option,
  none, some, List, [], ◌∷◌, find-eq-some_iff, All-middle, length, take, ◌==◌, ==_iff, nat_eq,
  list_eq, All, arith,
}
use pg_embed_setup_unpriv.Prelude.Texts.{Text}
use pg_embed_setup_unpriv.Error.{
  BootstrapResult, ok, err, ok_or, >>=-eq-ok, ok_or-eq-ok, extension_archive_invalid,
}
use pg_embed_setup_unpriv.Extensions.Layout.{classify_entry_path}
use pg_embed_setup_unpriv.Extensions.Manifest.{ManifestArtifact, archive_size_cap}
use pg_embed_setup_unpriv.Extensions.Install.{
  PlannedFile, TarEntry, Log, entry_decompressed_cap, u64_max, read_verified, read_entry_bounded,
  planned_at, planned_for, log_write, write_contents, write_entry, write_loop,
}
use pg_embed_setup_unpriv.Extensions.Install.Plan.{IsInstallFile}

-- A prefix that does not reach the limit is everything.
length-take {ℓ} : {A : Type ℓ} (n : ℕ) (xs : List A) → length (take n xs) ≤ n
unfolding take
length-take zero xs = omega arith
length-take (suc n) [] = omega arith
length-take (suc n) (x ∷ xs) = omega (arith, length-take n xs)

-- The bytes that are installed from are the whole file, of the size and the digest that the
-- manifest states.
pub read_verified-whole :
    (of_bytes : List ℕ → Text) (file : Option (List ℕ)) (artifact : ManifestArtifact)
    (bytes : List ℕ)
    → artifact.size ≤ archive_size_cap
    → read_verified of_bytes file artifact ≡ ok bytes
    → (file ≡ some bytes) × (length bytes ≡ artifact.size) × (of_bytes bytes ≡ artifact.sha256)
unfolding read_verified
read_verified-whole of_bytes file artifact bytes small h =
    let (content, e, h1) = >>=-eq-ok (ok_or file extension_archive_invalid) _ h in
    let cap : min (artifact.size + 1) u64_max ≡ suc artifact.size = omega arith in
    let found : file ≡ some content = ok_or-eq-ok file _ e in
    let e1 = rw cap at h1 in
    let same : take (suc artifact.size) content ≡ bytes = ground arith in
    let size : length (take (suc artifact.size) content) ≡ artifact.size = ground arith in
    let whole : take (suc artifact.size) content ≡ content =
      take-all artifact.size content (omega (arith, size)) in
    let digest : of_bytes bytes == artifact.sha256 ≡ true = ground arith in
    (
      found ∙ ap some (sym whole ∙ same),
      sym (ap length same) ∙ size,
      (==_iff (of_bytes bytes) artifact.sha256).0 digest,
    )

pub read_entry_bounded-inv :
    (entry : Option (List ℕ)) (budget : ℕ) (contents : List ℕ) (left : ℕ)
    → read_entry_bounded entry budget ≡ ok (contents, left)
    → (entry ≡ some contents)
      × (length contents ≤ entry_decompressed_cap)
      × (left + length contents ≡ budget)
unfolding read_entry_bounded
read_entry_bounded-inv none budget contents left h = cc
read_entry_bounded-inv (some entry) budget contents left h =
    let limit = min entry_decompressed_cap budget in
    let fits : length (take (suc limit) entry) ≤ limit = ground arith in
    let same : take (suc limit) entry ≡ contents = ground arith in
    let rest : budget - length (take (suc limit) entry) ≡ left = ground arith in
    (
      ap some (sym (take-all limit entry fits) ∙ same),
      omega (arith, fits, ap length same),
      omega (arith, fits, ap length same, rest),
    )

abbrev pub bytes_written : Log → ℕ
bytes_written [] = 0
bytes_written ((file, contents) ∷ log) = length contents + bytes_written log

-- A write puts a file where the plan allows one, and it is within the limit for one file.
abbrev pub IsSafeWrite : PlannedFile × List ℕ → Type 0
IsSafeWrite (file, contents) = IsInstallFile file × (length contents ≤ entry_decompressed_cap)

planned_at-IsInstallFile :
    (planned : List PlannedFile) (path : Option Text) (file : PlannedFile)
    → All IsInstallFile planned
    → planned_at planned path ≡ some file
    → IsInstallFile file
unfolding planned_at
planned_at-IsInstallFile planned none file h e = cc
planned_at-IsInstallFile planned (some path) file h e =
    let first = (find-eq-some_iff _ planned file).0 e in
    All-middle IsInstallFile first.before first.after (rw first.splits at h)

planned_for-IsInstallFile :
    (planned : List PlannedFile) (name : Text) (file : PlannedFile)
    → All IsInstallFile planned
    → planned_for planned name ≡ some file
    → IsInstallFile file
unfolding planned_for
planned_for-IsInstallFile planned name = planned_at-IsInstallFile planned (classify_entry_path name)

-- What the rest of the loop may do with the budget that is left.
abbrev pub IsSafe : ℕ → BootstrapResult Unit × Log → Type 0
IsSafe budget (result, log) = All IsSafeWrite log × (bytes_written log ≤ budget)

-- The writes that a whole run makes: each planned file with the whole contents of its entry.
abbrev pub kept : Option PlannedFile → Option (List ℕ) → Log → Log
kept (some file) (some contents) log = (file, contents) ∷ log
kept _ _ log = log

abbrev pub planned_writes : List PlannedFile → List (Option TarEntry) → Log
planned_writes planned [] = []
planned_writes planned (none ∷ rest) = planned_writes planned rest
planned_writes planned (some entry ∷ rest) =
    kept (planned_for planned entry.name) entry.contents (planned_writes planned rest)

module _ (planned : List PlannedFile) (write_file : PlannedFile → List ℕ → Bool) where
  log_write-IsSafe :
      (file : PlannedFile) (contents : List ℕ) (written : Bool) (next : BootstrapResult Unit × Log)
      (left budget : ℕ)
      → IsInstallFile file
      → length contents ≤ entry_decompressed_cap
      → left + length contents ≡ budget
      → IsSafe left next
      → IsSafe budget (log_write planned write_file file contents written next)
  unfolding log_write
  log_write-IsSafe file contents false next left budget valid small sum _ =
      (((valid, small), tt), omega (arith, sum))
  log_write-IsSafe file contents true (result, log) left budget valid small sum (h, k) =
      (((valid, small), h), omega (arith, sum, k))

  write_contents-IsSafe :
      (file : PlannedFile) (entry : Option (List ℕ)) (r : BootstrapResult (List ℕ × ℕ))
      (next : ℕ → BootstrapResult Unit × Log) (budget : ℕ)
      → IsInstallFile file
      → read_entry_bounded entry budget ≡ r
      → ((left : ℕ) → IsSafe left (next left))
      → IsSafe budget (write_contents planned write_file file r next)
  unfolding write_contents
  write_contents-IsSafe file entry (err e) next budget valid read ih = (tt, omega arith)
  write_contents-IsSafe file entry (ok (contents, left)) next budget valid read ih =
      let (_, small, sum) = read_entry_bounded-inv entry budget contents left read in
      log_write-IsSafe file contents (write_file file contents) (next left) left budget valid small
        sum (ih left)

  write_entry-IsSafe :
      (file : Option PlannedFile) (entry : Option (List ℕ)) (next : ℕ → BootstrapResult Unit × Log)
      (budget : ℕ)
      → ((f : PlannedFile) → file ≡ some f → IsInstallFile f)
      → ((left : ℕ) → IsSafe left (next left))
      → IsSafe budget (write_entry planned write_file file entry budget next)
  unfolding write_entry
  write_entry-IsSafe none entry next budget valid ih = ih budget
  write_entry-IsSafe (some file) entry next budget valid ih =
      write_contents-IsSafe file entry (read_entry_bounded entry budget) next budget
        (valid file refl) refl ih

  pub write_loop-IsSafe :
      All IsInstallFile planned
      → (entries : List (Option TarEntry)) (budget : ℕ)
      → IsSafe budget (write_loop planned write_file entries budget)
  unfolding write_loop
  write_loop-IsSafe valid [] budget = (tt, omega arith)
  write_loop-IsSafe valid (none ∷ rest) budget = (tt, omega arith)
  write_loop-IsSafe valid (some entry ∷ rest) budget =
      write_entry-IsSafe (planned_for planned entry.name) entry.contents
        (write_loop planned write_file rest) budget
        (λ f. planned_for-IsInstallFile planned entry.name f valid) (write_loop-IsSafe valid rest)

  log_write-ok :
      (file : PlannedFile) (contents : List ℕ) (written : Bool) (next : BootstrapResult Unit × Log)
      (log expected : Log)
      → ((log : Log) → next ≡ (ok tt, log) → log ≡ expected)
      → log_write planned write_file file contents written next ≡ (ok tt, log)
      → log ≡ (file, contents) ∷ expected
  unfolding log_write
  log_write-ok file contents false next log expected ih h =
      absurd (ground (arith, ap (λ (p : BootstrapResult Unit × Log). p.0) h))
  log_write-ok file contents true (result, rest) log expected ih h =
      let done : result ≡ ok tt = ap (λ (p : BootstrapResult Unit × Log). p.0) h in
      sym (ap (λ (p : BootstrapResult Unit × Log). p.1) h)
      ∙ ap (λ (l : Log). (file, contents) ∷ l) (ih rest (ap (λ r. (r, rest)) done))

  write_contents-ok :
      (file : PlannedFile) (entry : Option (List ℕ)) (r : BootstrapResult (List ℕ × ℕ))
      (next : ℕ → BootstrapResult Unit × Log) (budget : ℕ) (log expected : Log)
      → read_entry_bounded entry budget ≡ r
      → ((left : ℕ) (log : Log) → next left ≡ (ok tt, log) → log ≡ expected)
      → write_contents planned write_file file r next ≡ (ok tt, log)
      → log ≡ kept (some file) entry expected
  unfolding write_contents
  write_contents-ok file entry (err e) next budget log expected read ih h =
      absurd (ground (arith, ap (λ (p : BootstrapResult Unit × Log). p.0) h))
  write_contents-ok file entry (ok (contents, left)) next budget log expected read ih h =
      let (whole, _, _) = read_entry_bounded-inv entry budget contents left read in
      log_write-ok file contents (write_file file contents) (next left) log expected (ih left) h
      ∙ ap (λ (o : Option (List ℕ)). kept (some file) o expected) (sym whole)

  write_entry-ok :
      (file : Option PlannedFile) (entry : Option (List ℕ)) (next : ℕ → BootstrapResult Unit × Log)
      (budget : ℕ) (log expected : Log)
      → ((left : ℕ) (log : Log) → next left ≡ (ok tt, log) → log ≡ expected)
      → write_entry planned write_file file entry budget next ≡ (ok tt, log)
      → log ≡ kept file entry expected
  unfolding write_entry
  write_entry-ok none entry next budget log expected ih h = ih budget log h
  write_entry-ok (some file) entry next budget log expected ih h =
      write_contents-ok file entry (read_entry_bounded entry budget) next budget log expected refl
        ih h

  pub write_loop-ok :
      (entries : List (Option TarEntry)) (budget : ℕ) (log : Log)
      → write_loop planned write_file entries budget ≡ (ok tt, log)
      → log ≡ planned_writes planned entries
  unfolding write_loop
  write_loop-ok [] budget log h = ap (λ (p : BootstrapResult Unit × Log). p.1) (sym h)
  write_loop-ok (none ∷ rest) budget log h =
      absurd (ground (arith, ap (λ (p : BootstrapResult Unit × Log). p.0) h))
  write_loop-ok (some entry ∷ rest) budget log h =
      write_entry-ok (planned_for planned entry.name) entry.contents
        (write_loop planned write_file rest) budget log (planned_writes planned rest)
        (write_loop-ok rest) h
