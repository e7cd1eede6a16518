-- ===== src/Prepare/Password/Laws.antt =====
-- Which password a bootstrap takes over from an existing cluster.
use pg_embed_setup_unpriv.Prelude.{
  ℕ, ◌+◌, ◌≤◌, ◌≡◌, refl, sym, ap, subst, ◌∙◌, ◌⊎◌, inl, inr, Bool, true, false, Option, none, some,
  List, [], ◌∷◌, ◌++◌, take, take-all, take_of_short, length, reverse, ltb, nat_eq, Bool-cases,
  arith,
}
use pg_embed_setup_unpriv.Prelude.Texts.{Text}
use pg_embed_setup_unpriv.Error.{Result, BootstrapErrorKind, BootstrapResult, ok, err, ◌>>=◌}
use pg_embed_setup_unpriv.Prepare.Password.{
  max_password_file_bytes, Probe, is_file, is_other, not_found, failed, StoredFile, missing,
  unopenable, unstattable, irregular, file, ReadError, file_not_found, unreadable_file,
  PasswordReuseOutcome, reused, explicit_password, no_cluster, has_cluster_marker, drop_newlines,
  trim_newlines, bounded, read_contents, read_bounded, not_empty, stored_of, read_stored_password,
  stored_if, query_stored_password, reuse_found, reuse_existing_password,
}
use pg_embed_setup_unpriv.Prepare.Password.Trimming.{
  IsTrimmed, IsTrimming, trim_newlines-append, trim_newlines-IsTrimming,
}

-- What stands at the password file, where it holds a password.
module _ (is_utf8 : List ℕ → Bool) where
  -- A regular file, no longer than the limit, of UTF-8 text: the password and then newlines.
  pub record IsStored (stored : StoredFile) (password : Text) : Type 0 where
    pub size : ℕ
    pub raw : List ℕ
    pub at : stored ≡ file size (some raw)
    pub small_size : size ≤ max_password_file_bytes
    pub small : length raw ≤ max_password_file_bytes
    pub is_text : is_utf8 raw ≡ true
    pub trimming : IsTrimming raw password

  read_bounded-IsStored :
      (stored : StoredFile) (password : Text)
      → IsStored stored password
      → (raw : Text) × (read_bounded is_utf8 stored ≡ ok raw) × IsTrimming raw password
  unfolding read_bounded read_contents bounded
  read_bounded-IsStored stored password s =
      let whole = take_of_short (max_password_file_bytes + 1) s.raw (omega (arith, s.small)) in
      (
        s.raw,
        rw (s.at) (elim (Bool-cases (ltb max_password_file_bytes s.size)) [
          | inl e ↦ absurd (ground (arith, e, s.small_size))
          | inr e ↦ rw e (rw whole (ground (arith, s.is_text, s.small)))
        ]),
        s.trimming,
      )

  read_stored_password-IsStored :
      (stored : StoredFile) (password : Text)
      → IsStored stored password
      → read_stored_password is_utf8 stored ≡ ok password
  unfolding read_stored_password stored_of not_empty
  read_stored_password-IsStored stored password s =
      let (raw, e, t) = read_bounded-IsStored stored password s in
      ap (stored_of is_utf8) e
      ∙ ap (not_empty is_utf8) (
          ap trim_newlines t.whole
          ∙ trim_newlines-append password t.newlines t.is_trimmed t.are_newlines)
      ∙ filled password t.is_trimmed
    where
      filled : (p : Text) → IsTrimmed p → not_empty is_utf8 p ≡ ok p
      filled [] t = absurd (nothing t.before t.last t.ends)
        where
          nothing : (before : Text) (c : ℕ) → [] ≡ before ++ (c ∷ []) → ⊥
          nothing [] c h = cc
          nothing (b ∷ before) c h = cc
      filled (c ∷ p) t = refl

  stored_of-ok :
      (r : Result ReadError Text) (password : Text)
      → stored_of is_utf8 r ≡ ok password
      → (raw : Text) × (r ≡ ok raw) × IsTrimming raw password
  unfolding stored_of trim_newlines not_empty
  stored_of-ok (err file_not_found) password h = cc
  stored_of-ok (err unreadable_file) password h = cc
  stored_of-ok (ok raw) password h = (raw, refl, trimmed (drop_newlines (reverse raw)) refl h)
    where
      same : (text : Text) → not_empty is_utf8 text ≡ ok password → text ≡ password
      same [] k = cc
      same (c ∷ text) k = cc

      trimmed :
          (kept : Text)
          → drop_newlines (reverse raw) ≡ kept
          → not_empty is_utf8 (reverse kept) ≡ ok password
          → IsTrimming raw password
      trimmed [] e k = cc
      trimmed (c ∷ rest) e k =
          subst (IsTrimming raw) (same (reverse (c ∷ rest)) k)
            (trim_newlines-IsTrimming raw c rest e)

  read_contents-ok :
      (bytes : Option (List ℕ)) (raw : Text)
      → read_contents is_utf8 bytes ≡ ok raw
      → (bytes ≡ some raw) × (length raw ≤ max_password_file_bytes) × (is_utf8 raw ≡ true)
  unfolding read_contents bounded
  read_contents-ok none raw h = cc
  read_contents-ok (some bytes) raw h = checked (take (max_password_file_bytes + 1) bytes) refl h
    where
      checked :
          (taken : List ℕ)
          → take (max_password_file_bytes + 1) bytes ≡ taken
          → bounded is_utf8 taken ≡ ok raw
          → (some bytes ≡ some raw) × (length raw ≤ max_password_file_bytes) × (is_utf8 raw ≡ true)
      checked taken e k =
          let small : length taken ≤ max_password_file_bytes = ground (arith, k) in
          let same : taken ≡ raw = ground (arith, k) in
          let whole : take (max_password_file_bytes + 1) bytes ≡ bytes =
            take-all max_password_file_bytes bytes
              (subst (λ l. length l ≤ max_password_file_bytes) (sym e) small) in
          (
            ap some (sym whole ∙ e ∙ same),
            subst (λ l. length l ≤ max_password_file_bytes) same small,
            ground (arith, k),
          )

  read_bounded-ok :
      (stored : StoredFile) (raw : Text)
      → read_bounded is_utf8 stored ≡ ok raw
      → (size : ℕ) × (stored ≡ file size (some raw))
        × (size ≤ max_password_file_bytes)
        × (length raw ≤ max_password_file_bytes)
        × (is_utf8 raw ≡ true)
  unfolding read_bounded
  read_bounded-ok missing raw h = cc
  read_bounded-ok unopenable raw h = cc
  read_bounded-ok unstattable raw h = cc
  read_bounded-ok irregular raw h = cc
  read_bounded-ok (file size bytes) raw h = elim (Bool-cases (ltb max_password_file_bytes size)) [
    | inl e ↦ absurd (clash (rw e at h))
    | inr e ↦
        let (b, small, text) = read_contents-ok bytes raw (rw e at h) in
        (size, ap (file size) b, ground (arith, e), small, text)
  ]
    where
      clash : ◌≡◌ {A = Result ReadError Text} (err unreadable_file) (ok raw) → ⊥
      clash k = cc

  read_stored_password-ok :
      (stored : StoredFile) (password : Text)
      → read_stored_password is_utf8 stored ≡ ok password
      → IsStored stored password
  unfolding read_stored_password
  read_stored_password-ok stored password h =
      let (raw, r, t) = stored_of-ok (read_bounded is_utf8 stored) password h in
      let (size, e, small_size, small, text) = read_bounded-ok stored raw r in
      record {
        size = size;
        raw = raw;
        at = e;
        small_size = small_size;
        small = small;
        is_text = text;
        trimming = t;
      }

  -- What the outcome says of the data directory and its password file.
  abbrev pub Reuse :
      Text → Probe → StoredFile → Bool → BootstrapResult (Text × PasswordReuseOutcome) → Type 0
  Reuse password probe stored explicit (ok (final, explicit_password)) =
      (explicit ≡ true) × (final ≡ password)
  Reuse password probe stored explicit (ok (final, no_cluster)) =
      (explicit ≡ false) × ((probe ≡ not_found) ⊎ (probe ≡ is_other)) × (final ≡ password)
  Reuse password probe stored explicit (ok (final, reused)) =
      (explicit ≡ false) × (probe ≡ is_file) × IsStored stored final
  Reuse password probe stored explicit (err kind) =
      (explicit ≡ false)
      × ((probe ≡ failed) ⊎ ((probe ≡ is_file) × ((text : Text) → ¬ IsStored stored text)))

  -- A password that is set explicitly is kept, and so is the generated one where the data directory
  -- holds no cluster. Of an existing cluster the password is that of the password file, a regular
  -- file within the limit of UTF-8 text, without the newlines at its end; it fails exactly if the
  -- marker cannot be probed, or the password file holds no such text.
  pub reuse_existing_password-Reuse :
      (password : Text) (probe : Probe) (stored : StoredFile) (explicit : Bool)
      → Reuse password probe stored explicit
          (reuse_existing_password is_utf8 password probe stored explicit)
  unfolding reuse_existing_password query_stored_password has_cluster_marker stored_if reuse_found
  reuse_existing_password-Reuse password probe stored true = (refl, refl)
  reuse_existing_password-Reuse password failed stored false = (refl, inl refl)
  reuse_existing_password-Reuse password not_found stored false = (refl, inl refl, refl)
  reuse_existing_password-Reuse password is_other stored false = (refl, inr refl, refl)
  reuse_existing_password-Reuse password is_file stored false =
      by_read (read_stored_password is_utf8 stored) refl
    where
      clash : (kind : BootstrapErrorKind) (text : Text) → err kind ≡ ok text → ⊥
      clash kind text k = cc

      by_read :
          (r : BootstrapResult Text)
          → read_stored_password is_utf8 stored ≡ r
          → Reuse password is_file stored false
              (r >>= (λ t. ok (some t)) >>= reuse_found is_utf8 password)
      by_read (ok text) e = (refl, refl, read_stored_password-ok stored text e)
      by_read (err kind) e = (
        refl,
        inr (refl, λ text s. clash kind text (sym e ∙ read_stored_password-IsStored stored text s)),
      )
