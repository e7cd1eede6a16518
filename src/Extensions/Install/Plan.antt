-- ===== src/Extensions/Install/Plan.antt =====
-- What the first pass over an archive establishes before anything is written.
use mathlib.Core.List.{Perm, Nodup, Mem, Nodup-cons, Nodup-nil, mem-cons, not-mem-nil}
use mathlib.Core.HLevel.{⊥_prop}
use mathlib.Core.List.Perm
use mathlib.Core.Logic.Or
use mathlib.Core.Option.{some-injective}
use pg_embed_setup_unpriv.Prelude.{
  ℕ, ◌+◌, ◌≤◌, ◌≡◌, ◌⊎◌, inl, inr, refl, ap, sym, subst, ◌∙◌, Bool, true, false, not, Option, none,
  some, List, [], ◌∷◌, map, contains, ◌==◌, ==_iff, ==_refl, nat_eq, list_eq, if◌then◌else◌, All,
  arith,
}
use pg_embed_setup_unpriv.Prelude.Texts.{Text, codes}
use pg_embed_setup_unpriv.Prelude.Sorting.{sort_by, sort_by-perm, sort_by-All, text_leb}
use pg_embed_setup_unpriv.Error.{
  ok, ensure, ok_or, >>=-eq-ok, ok_or-eq-ok, ensure-eq-ok, extension_archive_invalid,
}
use pg_embed_setup_unpriv.Extensions.Layout.{normal, classify_entry_path}
use pg_embed_setup_unpriv.Extensions.Layout.Laws.{
  IsInstallPath, classify_entry_path-IsInstallPath, components-join, NonEmpty-allowed,
}
use pg_embed_setup_unpriv.Extensions.Manifest.{ManifestArtifact}
use pg_embed_setup_unpriv.Extensions.Install.{
  PlannedFile, EntryType, regular, directory, special, TarEntry, lib_mode, share_mode,
  entry_decompressed_cap, archive_decompressed_cap, first_is_lib, push_planned, starts_with_lib,
  plan_entry, check_decompressed_caps, plan_loop, check_against_manifest, plan, relatives,
}

abbrev pub is_under_lib : List Text → Bool
is_under_lib [] = false
is_under_lib (first ∷ _) = first == codes "lib"

first_is_lib-map : (parts : List Text) → first_is_lib (map normal parts) ≡ is_under_lib parts
unfolding first_is_lib
first_is_lib-map [] = refl
first_is_lib-map (part ∷ parts) = refl

starts_with_lib-eq :
    (path : Text) (i : IsInstallPath path) → starts_with_lib path ≡ is_under_lib i.parts
unfolding starts_with_lib
starts_with_lib-eq path i =
    ap starts_with_lib i.joined
    ∙ ap first_is_lib (components-join i.parts (NonEmpty-allowed i.parts i.allowed) i.plain)
    ∙ first_is_lib-map i.parts

-- A planned file stays in its directories, and its mode says which of the two it is under.
pub record IsInstallFile (f : PlannedFile) : Type 0 where
  pub path : IsInstallPath f.relative
  pub mode : f.mode ≡ (if is_under_lib path.parts then 0o755 else 0o644)

plan_entry-inv :
    (kind : EntryType) (name : Text) (planned : Option PlannedFile)
    → plan_entry kind name ≡ ok planned
    → ((kind ≡ directory) × (planned ≡ none))
      ⊎ ((kind ≡ regular) × ((file : PlannedFile) × (planned ≡ some file) × IsInstallFile file))
unfolding plan_entry
plan_entry-inv directory name planned h = inl (refl, ground arith)
plan_entry-inv special name planned h = cc
plan_entry-inv regular name planned h =
    let (relative, found, e) =
      >>=-eq-ok (ok_or (classify_entry_path name) extension_archive_invalid) _ h in
    inr (
      refl,
      (
        record {
          relative = relative;
          mode = if starts_with_lib relative then lib_mode else share_mode;
        },
        ground arith,
        record {
          path = stays relative found;
          mode =
              ap (λ b. if b then lib_mode else share_mode)
                (starts_with_lib-eq relative (stays relative found));
        },
      ),
    )
  where
    stays :
        (relative : Text)
        → ok_or (classify_entry_path name) extension_archive_invalid ≡ ok relative
        → IsInstallPath relative
    stays relative found = classify_entry_path-IsInstallPath name relative (ok_or-eq-ok _ _ found)

check_decompressed_caps-inv :
    (size declared total : ℕ)
    → check_decompressed_caps size declared ≡ ok total
    → (size ≤ entry_decompressed_cap)
      × (total ≡ declared + size)
      × (total ≤ archive_decompressed_cap)
unfolding check_decompressed_caps
check_decompressed_caps-inv size declared total h = ground arith

-- Only regular files and directories, and no file above the limit for one entry.
abbrev pub IsAcceptable : Option TarEntry → Type 0
IsAcceptable none = ⊥
IsAcceptable (some entry) =
    (entry.kind ≡ directory)
    ⊎ ((entry.kind ≡ regular)
        × ((size : ℕ) × (entry.size ≡ some size) × (size ≤ entry_decompressed_cap)))

abbrev file_size : EntryType → Option ℕ → ℕ
file_size regular (some size) = size
file_size _ _ = 0

-- The sum of the sizes that the headers of the regular files declare.
abbrev pub declared_size : List (Option TarEntry) → ℕ
declared_size [] = 0
declared_size (none ∷ rest) = declared_size rest
declared_size (some entry ∷ rest) = file_size entry.kind entry.size + declared_size rest

abbrev NoRepeat : List Text → List PlannedFile → Type 0
NoRepeat seen [] = Unit
NoRepeat seen (file ∷ files) =
    (contains seen file.relative ≡ false) × NoRepeat (file.relative ∷ seen) files

record Facts (entries : List (Option TarEntry)) (seen : List Text) (declared : ℕ)
    (files : List PlannedFile) : Type 0 where
  acceptable : All IsAcceptable entries
  valid : All IsInstallFile files
  distinct : NoRepeat seen files
  bounded : declared + declared_size entries ≤ archive_decompressed_cap

push_planned-Facts :
    (entry : TarEntry) (rest : List (Option TarEntry)) (size : ℕ) (planned : Option PlannedFile)
    (seen : List Text) (declared : ℕ) (files : List PlannedFile)
    → ((seen : List Text) (declared : ℕ) (files : List PlannedFile)
        → declared ≤ archive_decompressed_cap
        → plan_loop rest seen declared ≡ ok files
        → Facts rest seen declared files)
    → declared ≤ archive_decompressed_cap
    → entry.size ≡ some size
    → plan_entry entry.kind entry.name ≡ ok planned
    → push_planned size planned seen declared (plan_loop rest) ≡ ok files
    → Facts (some entry ∷ rest) seen declared files
unfolding push_planned
push_planned-Facts entry rest size none seen declared files ih low sized e h =
    elim (plan_entry-inv entry.kind entry.name none e) [
      | inl (dir, _) ↦
          let f = ih seen declared files low h in
          record {
            acceptable = (inl dir, f.acceptable);
            valid = f.valid;
            distinct = f.distinct;
            bounded = ground (arith, f.bounded, dir);
          }
      | inr (_, (_, impossible, _)) ↦ cc
    ]
push_planned-Facts entry rest size (some file) seen declared files ih low sized e h =
    let (u, fresh, h1) =
      >>=-eq-ok (ensure (not (contains seen file.relative)) extension_archive_invalid) _ h in
    let (total, capped, h2) = >>=-eq-ok (check_decompressed_caps size declared) _ h1 in
    let (files', planned, h3) = >>=-eq-ok (plan_loop rest (file.relative ∷ seen) total) _ h2 in
    let (small, sum, low') = check_decompressed_caps-inv size declared total capped in
    let f = ih (file.relative ∷ seen) total files' low' planned in
    elim (plan_entry-inv entry.kind entry.name (some file) e) [
      | inl (_, impossible) ↦ cc
      | inr (reg, (file', same, valid)) ↦
          let here : file' ≡ file = sym (some-injective _ _ same) in
          let listed : file ∷ files' ≡ files = ground arith in
          subst (Facts (some entry ∷ rest) seen declared) listed (record {
            acceptable = (inr (reg, (size, sized, small)), f.acceptable);
            valid = (subst IsInstallFile here valid, f.valid);
            distinct = (ground arith, f.distinct);
            bounded = ground (arith, f.bounded, reg, sized, sum);
          })
    ]

plan_loop-Facts :
    (entries : List (Option TarEntry)) (seen : List Text) (declared : ℕ) (files : List PlannedFile)
    → declared ≤ archive_decompressed_cap
    → plan_loop entries seen declared ≡ ok files
    → Facts entries seen declared files
unfolding plan_loop
plan_loop-Facts [] seen declared files low h =
    let same : [] ≡ files = ground arith in
    subst (Facts [] seen declared) same
      (record { acceptable = tt; valid = tt; distinct = tt; bounded = omega arith })
plan_loop-Facts (none ∷ rest) seen declared files low h = cc
plan_loop-Facts (some entry ∷ rest) seen declared files low h =
    let (size, sized, h1) = >>=-eq-ok (ok_or entry.size extension_archive_invalid) _ h in
    let (planned, e, h2) = >>=-eq-ok (plan_entry entry.kind entry.name) _ h1 in
    push_planned-Facts entry rest size planned seen declared files (plan_loop-Facts rest) low
      (ok_or-eq-ok _ _ sized) e h2

repeated :
    (seen : List Text) (f : PlannedFile) (x : Text)
    → contains seen f.relative ≡ false
    → contains seen x ≡ true
    → x ≡ f.relative
    → ⊥
repeated seen f x n h e = cc (n, h, ap (contains seen) e)

NoRepeat-fresh :
    (seen : List Text) (files : List PlannedFile) (x : Text)
    → NoRepeat seen files
    → contains seen x ≡ true
    → ¬ Mem x (relatives files)
NoRepeat-fresh seen [] x n h m = not-mem-nil m
NoRepeat-fresh seen (f ∷ files) x n h m =
    Or.elim ⊥_prop (mem-cons.0 m) (λ e. repeated seen f x n.0 h e)
      (NoRepeat-fresh (f.relative ∷ seen) files x n.1 (ground arith))

NoRepeat-Nodup :
    (seen : List Text) (files : List PlannedFile) → NoRepeat seen files → Nodup (relatives files)
NoRepeat-Nodup seen [] n = Nodup-nil
NoRepeat-Nodup seen (f ∷ files) (_, n) = Nodup-cons.1 (
  NoRepeat-fresh (f.relative ∷ seen) files f.relative n (ground (arith, ==_refl f.relative)),
  NoRepeat-Nodup (f.relative ∷ seen) files n,
)

abbrev by_path : PlannedFile → PlannedFile → Bool
by_path a b = text_leb a.relative b.relative

-- A plan holds only files that stay under `lib` or `share/extension`, with the mode of their
-- directory, none twice, and exactly the files that the manifest lists.
pub plan-exact :
    (entries : List (Option TarEntry)) (artifact : ManifestArtifact) (files : List PlannedFile)
    → plan entries artifact ≡ ok files
    → All IsInstallFile files × Nodup (relatives files) × Perm (relatives files) artifact.files
unfolding plan check_against_manifest
plan-exact entries artifact files h =
    let (planned, e, h1) = >>=-eq-ok (plan_loop entries [] 0) _ h in
    let sorted = sort_by by_path planned in
    let (u, listed, h2) = >>=-eq-ok (check_against_manifest sorted artifact) _ h1 in
    let same : sorted ≡ files = ground arith in
    let f = plan_loop-Facts entries [] 0 planned (omega arith) e in
    let perm : Perm sorted planned = sort_by-perm by_path planned in
    let expected : relatives sorted ≡ sort_by text_leb artifact.files =
      (==_iff (relatives sorted) (sort_by text_leb artifact.files)).0 (ensure-eq-ok _ _ listed) in
    subst
      (λ (l : List PlannedFile).
        All IsInstallFile l × Nodup (relatives l) × Perm (relatives l) artifact.files)
      same
      (
        sort_by-All by_path IsInstallFile planned f.valid,
        Perm.nodup (Perm.symm (Perm.map _ perm)) (NoRepeat-Nodup [] planned f.distinct),
        rw expected (sort_by-perm text_leb artifact.files),
      )

-- An archive is planned only if each entry is a directory or a regular file within the limit for
-- one file, and the declared sizes together are within the limit for one archive.
pub plan-IsAcceptable :
    (entries : List (Option TarEntry)) (artifact : ManifestArtifact) (files : List PlannedFile)
    → plan entries artifact ≡ ok files
    → All IsAcceptable entries × (declared_size entries ≤ archive_decompressed_cap)
unfolding plan
plan-IsAcceptable entries artifact files h =
    let (planned, e, _) = >>=-eq-ok (plan_loop entries [] 0) _ h in
    let f = plan_loop-Facts entries [] 0 planned (omega arith) e in
    (f.acceptable, ground (arith, f.bounded))
