-- ===== src/Prepare/Password.antt =====
-- src/bootstrap/prepare/password.rs and stale_password.rs: the password of the cluster that a data
-- directory holds. What `metadata` says of the marker file, what stands at the password file, and
-- which bytes are UTF-8 are parameters.
pub mod Trimming
pub mod Laws
use pg_embed_setup_unpriv.Prelude.{
  ℕ, ◌+◌, Bool, true, false, not, ◌||◌, Option, none, some, List, [], ◌∷◌, take, length, reverse,
  ltb, ◌==◌, nat_eq, if◌then◌else◌,
}
use pg_embed_setup_unpriv.Prelude.Texts.{Text}
use pg_embed_setup_unpriv.Error.{
  Result, BootstrapErrorKind, cluster_password_missing, cluster_password_unreadable,
  cluster_password_empty, BootstrapResult, ok, err, ◌>>=◌,
}

abbrev pub max_password_file_bytes : ℕ
max_password_file_bytes = 4096

-- What `metadata` says of `PG_VERSION`.
pub data Probe : Type 0 where
  is_file is_other not_found failed : Probe

-- The password file: a regular file has the length that its metadata says, and the bytes that a
-- read gives, if one can be made.
pub data StoredFile : Type 0 where
  missing unopenable unstattable irregular : StoredFile
  file : ℕ → Option (List ℕ) → StoredFile

-- The errors of a read, as far as the code tells them apart.
pub data ReadError : Type 0 where
  file_not_found unreadable_file : ReadError

pub data PasswordReuseOutcome : Type 0 where
  reused explicit_password no_cluster : PasswordReuseOutcome

-- What comes of the removal of a file.
pub data Removal : Type 0 where
  removed nothing_there refused : Removal

unfoldable pub has_cluster_marker : Probe → BootstrapResult Bool
has_cluster_marker is_file = ok true
has_cluster_marker is_other = ok false
has_cluster_marker not_found = ok false
has_cluster_marker failed = err cluster_password_unreadable

unfoldable pub is_newline : ℕ → Bool
is_newline c = c == b'\n' || c == b'\r'

unfoldable pub drop_newlines : Text → Text
drop_newlines [] = []
drop_newlines (c ∷ text) = if is_newline c then drop_newlines text else c ∷ text

-- `trim_end_matches(['\n', '\r'])`.
unfoldable pub trim_newlines : Text → Text
trim_newlines text = reverse (drop_newlines (reverse text))

module _ (is_utf8 : List ℕ → Bool) where
  -- `raw` is what `take(MAX_PASSWORD_FILE_BYTES + 1)` lets through.
  unfoldable pub bounded : List ℕ → Result ReadError Text
  bounded raw =
      if not (is_utf8 raw) || ltb max_password_file_bytes (length raw)
      then err unreadable_file
      else ok raw

  unfoldable pub read_contents : Option (List ℕ) → Result ReadError Text
  read_contents none = err unreadable_file
  read_contents (some bytes) = bounded (take (max_password_file_bytes + 1) bytes)

  unfoldable pub read_bounded : StoredFile → Result ReadError Text
  read_bounded missing = err file_not_found
  read_bounded unopenable = err unreadable_file
  read_bounded unstattable = err unreadable_file
  read_bounded irregular = err unreadable_file
  read_bounded (file size bytes) =
      if ltb max_password_file_bytes size then err unreadable_file else read_contents bytes

  unfoldable pub not_empty : Text → BootstrapResult Text
  not_empty [] = err cluster_password_empty
  not_empty (c ∷ text) = ok (c ∷ text)

  unfoldable pub stored_of : Result ReadError Text → BootstrapResult Text
  stored_of (err file_not_found) = err cluster_password_missing
  stored_of (err unreadable_file) = err cluster_password_unreadable
  stored_of (ok raw) = not_empty (trim_newlines raw)

  unfoldable pub read_stored_password : StoredFile → BootstrapResult Text
  read_stored_password stored = stored_of (read_bounded stored)

  unfoldable pub stored_if : Bool → StoredFile → BootstrapResult (Option Text)
  stored_if false stored = ok none
  stored_if true stored = read_stored_password stored >>= λ password. ok (some password)

  unfoldable pub query_stored_password : Probe → StoredFile → BootstrapResult (Option Text)
  query_stored_password probe stored = has_cluster_marker probe >>= λ holds. stored_if holds stored

  -- The password that the settings have then, and the outcome.
  unfoldable pub reuse_found : Text → Option Text → BootstrapResult (Text × PasswordReuseOutcome)
  reuse_found password none = ok (password, no_cluster)
  reuse_found password (some stored) = ok (stored, reused)

  unfoldable pub reuse_existing_password :
      Text → Probe → StoredFile → Bool → BootstrapResult (Text × PasswordReuseOutcome)
  reuse_existing_password password probe stored true = ok (password, explicit_password)
  reuse_existing_password password probe stored false =
      query_stored_password probe stored >>= reuse_found password

unfoldable pub discarded : Removal → BootstrapResult Bool
discarded removed = ok true
discarded nothing_there = ok false
discarded refused = err cluster_password_unreadable

-- Whether the removal is tried, by the marker's probe.
unfoldable pub discard_if : Bool → Removal → BootstrapResult Bool
discard_if true outcome = ok false
discard_if false outcome = discarded outcome

unfoldable pub discard_orphaned_password_file : Probe → Removal → BootstrapResult Bool
discard_orphaned_password_file probe outcome =
    has_cluster_marker probe >>= λ holds. discard_if holds outcome
