-- ===== src/Extensions/Install/Complete.antt =====
-- A run of the second pass that succeeds writes every planned file, whole.
use mathlib.Core.List.{append_assoc}
use mathlib.Core.Option.{some-injective}
use pg_embed_setup_unpriv.Prelude.{
  ℕ, ◌≡◌, refl, sym, ap, subst, ◌∙◌, inl, inr, Bool, true, false, not, Option, none, some, List, [],
  ◌∷◌, ◌++◌, ◌==◌, ==_iff, ==_refl, contains, find-eq-none, find-eq-some_iff, nat_eq, list_eq, All,
  All-middle, Option-cases, arith,
}
use pg_embed_setup_unpriv.Prelude.Texts.{Text}
use pg_embed_setup_unpriv.Prelude.Sorting.{sort_by, sort_by-All, All-weaken, text_leb}
use pg_embed_setup_unpriv.Error.{
  BootstrapResult, ok, err, ok_or, ensure, >>=-eq-ok, ok_or-eq-ok, extension_archive_invalid,
}
use pg_embed_setup_unpriv.Extensions.Layout.{classify_entry_path}
use pg_embed_setup_unpriv.Extensions.Manifest.{ManifestArtifact}
use pg_embed_setup_unpriv.Extensions.Install.{
  EntryType, directory, regular, special, PlannedFile, TarEntry, Log, plan_entry, push_planned,
  check_decompressed_caps, plan_loop, plan, check_against_manifest, read_entry_bounded, planned_at,
  planned_for, log_write, write_contents, write_entry, write_loop,
}
use pg_embed_setup_unpriv.Extensions.Install.Write.{kept, planned_writes, read_entry_bounded-inv}

-- The entry is in the archive, and its path is the given one.
abbrev pub IsEntryAt : List (Option TarEntry) → Text → TarEntry → Type 0
IsEntryAt entries relative entry =
    ((before : List (Option TarEntry)) × (after : List (Option TarEntry)) × (entries
        ≡ before ++ (some entry ∷ after)))
    × (classify_entry_path entry.name ≡ some relative)

-- The file is planned for a regular file of the archive.
abbrev pub FromEntry : List (Option TarEntry) → PlannedFile → Type 0
FromEntry entries file =
    (entry : TarEntry) × IsEntryAt entries file.relative entry × (entry.kind ≡ regular)

-- The contents are the whole of an entry that has the file's path.
abbrev pub IsWhole : List (Option TarEntry) → PlannedFile × List ℕ → Type 0
IsWhole entries (file, contents) =
    (entry : TarEntry) × IsEntryAt entries file.relative entry × (entry.contents ≡ some contents)

-- The log has a write at the file's path.
abbrev pub IsWritten : Log → PlannedFile → Type 0
IsWritten log file =
    (written : PlannedFile) × (contents : List ℕ) × (before : Log) × (after : Log) × (log
      ≡ before ++ ((written, contents) ∷ after))
    × (written.relative ≡ file.relative)

later :
    (first : Option TarEntry) (entries : List (Option TarEntry)) (relative : Text)
    (entry : TarEntry)
    → IsEntryAt entries relative entry
    → IsEntryAt (first ∷ entries) relative entry
later first entries relative entry ((before, after, e), c) =
    ((first ∷ before, after, ap (λ l. first ∷ l) e), c)

plan_entry-some :
    (kind : EntryType) (name : Text) (file : PlannedFile)
    → plan_entry kind name ≡ ok (some file)
    → (kind ≡ regular) × (classify_entry_path name ≡ some file.relative)
unfolding plan_entry
plan_entry-some directory name file h = cc
plan_entry-some special name file h = cc
plan_entry-some regular name file h =
    let (relative, found, e) =
      >>=-eq-ok (ok_or (classify_entry_path name) extension_archive_invalid) _ h in
    let same : relative ≡ file.relative = ap path_of e in
    (refl, ok_or-eq-ok _ _ found ∙ ap some same)
  where
    path_of : BootstrapResult (Option PlannedFile) → Text
    path_of (ok (some f)) = f.relative
    path_of _ = []

plan_loop-FromEntry :
    (entries : List (Option TarEntry)) (seen : List Text) (declared : ℕ) (files : List PlannedFile)
    → plan_loop entries seen declared ≡ ok files
    → All (FromEntry entries) files
unfolding plan_loop push_planned
plan_loop-FromEntry [] seen declared files h =
    let same : [] ≡ files = ground arith in subst (All (FromEntry [])) same tt
plan_loop-FromEntry (none ∷ rest) seen declared files h = cc
plan_loop-FromEntry (some entry ∷ rest) seen declared files h =
    let (size, sized, h1) = >>=-eq-ok (ok_or entry.size extension_archive_invalid) _ h in
    let (planned, e, h2) = >>=-eq-ok (plan_entry entry.kind entry.name) _ h1 in
    pushed size planned e h2 (λ s d fs k.
      All-weaken (λ f (x, at, r). (x, later (some entry) rest f.relative x at, r)) fs
        (plan_loop-FromEntry rest s d fs k))
  where
    pushed :
        (size : ℕ) (planned : Option PlannedFile)
        → plan_entry entry.kind entry.name ≡ ok planned
        → push_planned size planned seen declared (plan_loop rest) ≡ ok files
        → ((s : List Text) (d : ℕ) (fs : List PlannedFile)
            → plan_loop rest s d ≡ ok fs
            → All (FromEntry (some entry ∷ rest)) fs)
        → All (FromEntry (some entry ∷ rest)) files
    pushed size none e k ih = ih seen declared files k
    pushed size (some file) e k ih =
        let (u, fresh, h1) =
          >>=-eq-ok (ensure (not (contains seen file.relative)) extension_archive_invalid) _ k in
        let (total, capped, h2) = >>=-eq-ok (check_decompressed_caps size declared) _ h1 in
        let (files', planned, h3) = >>=-eq-ok (plan_loop rest (file.relative ∷ seen) total) _ h2 in
        let listed : file ∷ files' ≡ files = ground arith in
        let (reg, path) = plan_entry-some entry.kind entry.name file e in
        subst (All (FromEntry (some entry ∷ rest))) listed
          ((entry, (([], rest, refl), path), reg), ih (file.relative ∷ seen) total files' planned)

pub plan-FromEntry :
    (entries : List (Option TarEntry)) (artifact : ManifestArtifact) (files : List PlannedFile)
    → plan entries artifact ≡ ok files
    → All (FromEntry entries) files
unfolding plan
plan-FromEntry entries artifact files h =
    let by_path = λ (a b : PlannedFile). text_leb a.relative b.relative in
    let (planned, e, h1) = >>=-eq-ok (plan_loop entries [] 0) _ h in
    let (u, listed, h2) =
      >>=-eq-ok (check_against_manifest (sort_by by_path planned) artifact) _ h1 in
    let same : sort_by by_path planned ≡ files = ground arith in
    subst (All (FromEntry entries)) same
      (sort_by-All by_path (FromEntry entries) planned (plan_loop-FromEntry entries [] 0 planned e))

-- What holds at every place of a list holds of all its entries.
All-places :
    {A : Type 0} (P : A → Type 0) (all first rest : List A)
    → all ≡ first ++ rest
    → ((before after : List A) (x : A) → all ≡ before ++ (x ∷ after) → P x)
    → All P rest
All-places P all first [] e h = tt
All-places P all first (x ∷ rest) e h = (
  h first rest x e,
  All-places P all (first ++ (x ∷ [])) rest (e ∙ sym (append_assoc first (x ∷ []) rest)) h,
)

module _ (planned : List PlannedFile) (write_file : PlannedFile → List ℕ → Bool) where
  planned_for-path :
      (name : Text) (file : PlannedFile)
      → planned_for planned name ≡ some file
      → classify_entry_path name ≡ some file.relative
  unfolding planned_for planned_at list_eq
  planned_for-path name file h = by_path (classify_entry_path name) refl h
    where
      by_path :
          (o : Option Text)
          → classify_entry_path name ≡ o
          → planned_at planned o ≡ some file
          → classify_entry_path name ≡ some file.relative
      by_path none e k = cc
      by_path (some path) e k =
          let first =
            (find-eq-some_iff (λ (p : PlannedFile). p.relative == path) planned file).0 k in
          e ∙ ap some (sym ((==_iff file.relative path).0 first.passes))

  -- A planned file's path is found in the plan, if perhaps with another entry of it.
  found_for :
      (before after : List PlannedFile) (file : PlannedFile) (name : Text)
      → planned ≡ before ++ (file ∷ after)
      → classify_entry_path name ≡ some file.relative
      → (found : PlannedFile) × (planned_for planned name ≡ some found)
        × (found.relative ≡ file.relative)
  unfolding planned_for planned_at list_eq
  found_for before after file name e c = elim (Option-cases (planned_for planned name)) [
    | inl n ↦
        let nowhere =
          find-eq-none (λ (p : PlannedFile). p.relative == file.relative) planned (rw c at n) in
        let here =
          All-middle (λ (p : PlannedFile). (p.relative == file.relative) ≡ false) before after
            (subst (All (λ (p : PlannedFile). (p.relative == file.relative) ≡ false)) e nowhere) in
        absurd (clash (sym here ∙ ==_refl file.relative))
    | inr (found, f) ↦ (found, f, some-injective _ _ (sym (planned_for-path name found f) ∙ c))
  ]
    where
      clash : ◌≡◌ {A = Bool} false true → ⊥
      clash k = cc

  pub planned_writes-IsWhole :
      (entries : List (Option TarEntry)) → All (IsWhole entries) (planned_writes planned entries)
  planned_writes-IsWhole [] = tt
  planned_writes-IsWhole (none ∷ rest) =
      All-weaken (λ (file, c) (x, at, e). (x, later none rest file.relative x at, e))
        (planned_writes planned rest) (planned_writes-IsWhole rest)
  planned_writes-IsWhole (some entry ∷ rest) =
      by_plan (planned_for planned entry.name) entry.contents refl refl (
        All-weaken (λ (file, c) (x, at, e). (x, later (some entry) rest file.relative x at, e))
          (planned_writes planned rest) (planned_writes-IsWhole rest))
    where
      by_plan :
          (o : Option PlannedFile) (contents : Option (List ℕ))
          → planned_for planned entry.name ≡ o
          → entry.contents ≡ contents
          → All (IsWhole (some entry ∷ rest)) (planned_writes planned rest)
          → All (IsWhole (some entry ∷ rest)) (kept o contents (planned_writes planned rest))
      by_plan none contents e f h = h
      by_plan (some file) none e f h = h
      by_plan (some file) (some c) e f h =
          ((entry, (([], rest, refl), planned_for-path entry.name file e), f), h)

  log_write-next :
      (file : PlannedFile) (contents : List ℕ) (written : Bool) (next : BootstrapResult Unit × Log)
      (log : Log)
      → log_write planned write_file file contents written next ≡ (ok tt, log)
      → (rest : Log) × (next ≡ (ok tt, rest)) × (log ≡ (file, contents) ∷ rest)
  unfolding log_write
  log_write-next file contents false next log h =
      absurd (ground (arith, ap (λ (p : BootstrapResult Unit × Log). p.0) h))
  log_write-next file contents true (result, rest) log h =
      let done : result ≡ ok tt = ap (λ (p : BootstrapResult Unit × Log). p.0) h in
      (rest, ap (λ r. (r, rest)) done, sym (ap (λ (p : BootstrapResult Unit × Log). p.1) h))

  -- A run that goes on to the end has written the entry, whole, if it is planned.
  write_contents-next :
      (file : PlannedFile) (entry : Option (List ℕ)) (budget : ℕ)
      (next : ℕ → BootstrapResult Unit × Log) (log : Log)
      → write_contents planned write_file file (read_entry_bounded entry budget) next ≡ (ok tt, log)
      → (contents : List ℕ) × (left : ℕ) × (rest : Log) × (entry ≡ some contents)
        × (next left ≡ (ok tt, rest))
        × (log ≡ (file, contents) ∷ rest)
  unfolding write_contents
  write_contents-next file entry budget next log h =
      by_read (read_entry_bounded entry budget) refl h
    where
      by_read :
          (r : BootstrapResult (List ℕ × ℕ))
          → read_entry_bounded entry budget ≡ r
          → write_contents planned write_file file r next ≡ (ok tt, log)
          → (contents : List ℕ) × (left : ℕ) × (rest : Log) × (entry ≡ some contents)
            × (next left ≡ (ok tt, rest))
            × (log ≡ (file, contents) ∷ rest)
      by_read (err e) read k =
          absurd (ground (arith, ap (λ (p : BootstrapResult Unit × Log). p.0) k))
      by_read (ok (contents, left)) read k =
          let (whole, _, _) = read_entry_bounded-inv entry budget contents left read in
          let (rest, n, l) =
            log_write-next file contents (write_file file contents) (next left) log k in
          (contents, left, rest, whole, n, l)

  write_entry-next :
      (o : Option PlannedFile) (entry : Option (List ℕ)) (budget : ℕ)
      (next : ℕ → BootstrapResult Unit × Log) (log : Log)
      → write_entry planned write_file o entry budget next ≡ (ok tt, log)
      → (left : ℕ) × (added : Log) × (rest : Log) × (next left ≡ (ok tt, rest))
        × (log ≡ added ++ rest)
  unfolding write_entry
  write_entry-next none entry budget next log h = (budget, [], log, h, refl)
  write_entry-next (some file) entry budget next log h =
      let (contents, left, rest, _, n, l) = write_contents-next file entry budget next log h in
      (left, (file, contents) ∷ [], rest, n, l)

  write_loop-writes :
      (before after : List (Option TarEntry)) (entry : TarEntry) (file : PlannedFile) (budget : ℕ)
      (log : Log)
      → planned_for planned entry.name ≡ some file
      → write_loop planned write_file (before ++ (some entry ∷ after)) budget ≡ (ok tt, log)
      → IsWritten log file
  unfolding write_loop write_contents write_entry
  write_loop-writes [] after entry file budget log p h =
      let (contents, left, rest, _, _, l) =
        write_contents-next file entry.contents budget (write_loop planned write_file after) log (
          subst
            (λ o.
              write_entry planned write_file o entry.contents budget
                (write_loop planned write_file after)
              ≡ (ok tt, log))
            p h) in
      (file, contents, [], rest, l, refl)
  write_loop-writes (none ∷ before) after entry file budget log p h =
      absurd (ground (arith, ap (λ (r : BootstrapResult Unit × Log). r.0) h))
  write_loop-writes (some other ∷ before) after entry file budget log p h =
      let (left, added, rest, n, l) =
        write_entry-next (planned_for planned other.name) other.contents budget
          (write_loop planned write_file (before ++ (some entry ∷ after))) log h in
      let (written, contents, first, last, e, same) =
        write_loop-writes before after entry file left rest p n in
      (
        written,
        contents,
        added ++ first,
        last,
        l ∙ ap (λ r. added ++ r) e ∙ sym (append_assoc added first ((written, contents) ∷ last)),
        same,
      )

  -- Where each planned file comes from an entry, a run that succeeds has written each of them.
  pub write_loop_complete :
      (entries : List (Option TarEntry)) (budget : ℕ) (log : Log)
      → All (FromEntry entries) planned
      → write_loop planned write_file entries budget ≡ (ok tt, log)
      → All (IsWritten log) planned
  write_loop_complete entries budget log from h =
      All-places (IsWritten log) planned [] planned refl (λ before after file e.
        let (entry, ((first, last, at), c), _) =
          All-middle (FromEntry entries) before after (subst (All (FromEntry entries)) e from) in
        let (found, p, same) = found_for before after file entry.name e c in
        let (written, contents, b, a, l, s) =
          write_loop-writes first last entry found budget log p
            (subst (λ es. write_loop planned write_file es budget ≡ (ok tt, log)) at h) in
        (written, contents, b, a, l, s ∙ same))
