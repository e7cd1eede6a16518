-- ===== src/ShutdownHook/Exit/Process.antt =====
-- The process identifier that is read from the process file is one that a signal may go to.
use mathlib.Core.Option.{some-injective}
use pg_embed_setup_unpriv.Prelude.{
  ℕ, ◌+◌, ◌-◌, ◌*◌, ◌≤◌, ◌<◌, ◌≡◌, ◌≢◌, refl, sym, ap, ◌∙◌, ◌⊎◌, inl, inr, false, ◌&&◌, ◌==◌,
  nat_eq, Option, none, some, List, [], ◌∷◌, leb, ltb, if◌then◌else◌, Bool-cases, arith,
}
use pg_embed_setup_unpriv.Prelude.Texts.{Text, trim, is_empty}
use pg_embed_setup_unpriv.Error.{BootstrapResult, ok, err}
use pg_embed_setup_unpriv.Installation.Port.{
  PidFile, contents, not_found, unreadable_pid, lines, is_digit, parse_digits, parse_unsigned,
  parse_number,
}
use pg_embed_setup_unpriv.ShutdownHook.Exit.{
  pid_max, positive, parse_pid, parse_postmaster_process, process_of, process_in,
  read_postmaster_pid_file, read_postmaster_process_from_dir,
}

-- A process identifier that stands for one process.
abbrev pub IsPid : ℕ → Type 0
IsPid pid = (0 < pid) × (pid ≤ pid_max)

parse_digits-bounded :
    (limit n : ℕ) (text : Text) (m : ℕ) → n ≤ limit → parse_digits limit n text ≡ some m → m ≤ limit
unfolding parse_digits
parse_digits-bounded limit n [] m h e = ground (arith, h, e)
parse_digits-bounded limit n (c ∷ text) m h e =
    elim (Bool-cases (is_digit c && leb (10 * n + (c - b'0')) limit)) [
      | inl t ↦
          parse_digits-bounded limit (10 * n + (c - b'0')) text m (ground (arith, t)) (rw t at e)
      | inr t ↦ absurd (clash (rw t at e))
    ]
  where
    clash : none ≡ some m → ⊥
    clash k = cc

parse_number-bounded :
    (limit : ℕ) (text : Text) (m : ℕ) → parse_number limit text ≡ some m → m ≤ limit
unfolding parse_number parse_unsigned
parse_number-bounded limit [] m e = cc
parse_number-bounded limit (c ∷ text) m e = elim (Bool-cases (c == b'+')) [
  | inl t ↦ unsigned text (rw t at e)
  | inr t ↦ unsigned (c ∷ text) (rw t at e)
]
  where
    unsigned : (digits : Text) → parse_unsigned limit digits ≡ some m → m ≤ limit
    unsigned [] k = cc
    unsigned (d ∷ digits) k = parse_digits-bounded limit 0 (d ∷ digits) m (omega arith) k

-- The first line of the text is a process identifier, in decimal digits.
abbrev pub Names : Text → ℕ → Type 0
Names text pid =
    (first : Text) × (more : List Text) × (lines text ≡ first ∷ more)
    × (parse_number pid_max (trim first) ≡ some pid)
    × IsPid pid

-- There is no process file, or it is blank.
abbrev pub IsBlank : PidFile → Type 0
IsBlank file = (file ≡ not_found) ⊎ ((text : Text) × (file ≡ contents text) × (trim text ≡ []))

-- The file names a process.
abbrev pub IsNamed : PidFile → ℕ → Type 0
IsNamed file pid = (text : Text) × (file ≡ contents text) × Names text pid

-- The file cannot be read, or it holds something else.
abbrev pub IsMalformed : PidFile → Type 0
IsMalformed file =
    (file ≡ unreadable_pid)
    ⊎ ((text : Text) × (file ≡ contents text) × (trim text ≢ []) × ((pid : ℕ) → ¬ Names text pid))

abbrev pub ReadOf : PidFile → BootstrapResult (Option ℕ) → Type 0
ReadOf file (ok none) = IsBlank file
ReadOf file (ok (some pid)) = IsNamed file pid
ReadOf file (err e) = IsMalformed file

positive-ReadOf :
    (text first : Text) (more : List Text) (number : Option ℕ)
    → trim text ≢ []
    → lines text ≡ first ∷ more
    → parse_number pid_max (trim first) ≡ number
    → ReadOf (contents text) (process_of (positive number))
unfolding process_of positive
positive-ReadOf text first more none n l p =
    inr (text, refl, n, λ pid (f, m, e, q, _). nothing pid f (sym l ∙ e) q)
  where
    nothing :
        (pid : ℕ) (f : Text) {m : List Text}
        → first ∷ more ≡ f ∷ m
        → parse_number pid_max (trim f) ≡ some pid
        → ⊥
    nothing pid f e q =
        let same : first ≡ f = cc in
        none_some (sym p ∙ ap (λ t. parse_number pid_max (trim t)) same ∙ q)
      where
        none_some : none ≡ some pid → ⊥
        none_some k = cc
positive-ReadOf text first more (some pid) n l p = elim (Bool-cases (ltb 0 pid)) [
  | inl e ↦ rw e (
    text,
    refl,
    (first, more, l, p, (ground (arith, e), parse_number-bounded pid_max (trim first) pid p)),
  )
  | inr e ↦
      rw e (inr (text, refl, n, λ wanted (f, m, h, q, small). zero_pid e wanted f h q small.0))
]
  where
    zero_pid :
        ltb 0 pid ≡ false
        → (wanted : ℕ) (f : Text) {m : List Text} → lines text ≡ f ∷ m
        → parse_number pid_max (trim f) ≡ some wanted
        → 0 < wanted
        → ⊥
    zero_pid e wanted f h q pos =
        let heads : first ∷ more ≡ f ∷ _ = sym l ∙ h in
        let same : first ≡ f = cc in
        let number : pid ≡ wanted =
          some-injective _ _ (sym p ∙ ap (λ t. parse_number pid_max (trim t)) same ∙ q) in
        ground (arith, e, number, pos)

lines-ReadOf :
    (text : Text) (all : List Text)
    → trim text ≢ []
    → lines text ≡ all
    → ReadOf (contents text) (process_of (parse_postmaster_process all))
unfolding parse_postmaster_process parse_pid process_of
lines-ReadOf text [] n l = inr (text, refl, n, λ pid (f, m, e, _, _). clash f (sym l ∙ e))
  where
    clash : (f : Text) {m : List Text} → [] ≡ f ∷ m → ⊥
    clash f k = cc
lines-ReadOf text (first ∷ more) n l =
    positive-ReadOf text first more (parse_number pid_max (trim first)) n l refl

-- What the read of the file gives says what stands in it.
pub read-ReadOf : (file : PidFile) → ReadOf file (read_postmaster_process_from_dir file)
unfolding read_postmaster_process_from_dir read_postmaster_pid_file process_in trim
read-ReadOf not_found = inl refl
read-ReadOf unreadable_pid = inl refl
read-ReadOf (contents text) = by_trim (trim text) refl
  where
    by_trim :
        (blank : Text)
        → trim text ≡ blank
        → ReadOf
            (contents text)
            (if is_empty blank then ok none else process_of (parse_postmaster_process (lines text)))
    by_trim [] e = inr (text, refl, e)
    by_trim (c ∷ t) e = lines-ReadOf text (lines text) (λ k. clash (sym e ∙ k)) refl
      where
        clash : c ∷ t ≡ [] → ⊥
        clash k = cc
