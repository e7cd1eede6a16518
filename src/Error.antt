-- ===== src/Error.antt =====
-- src/error.rs: the kinds of a bootstrap error. Of an error's report only the markers that the code
-- reads are kept (Startup, Retry); its text is not modelled.
use pg_embed_setup_unpriv.Prelude.{◌≡◌, refl, Bool, true, false, Option, none, some, arith}

pub data BootstrapErrorKind : Type 0 where
  other worker_binary_missing worker_binary_path_non_utf8 : BootstrapErrorKind
  cluster_password_missing cluster_password_unreadable cluster_password_empty : BootstrapErrorKind
  extension_config_invalid extension_manifest_unavailable : BootstrapErrorKind
  extension_manifest_digest_mismatch extension_manifest_invalid : BootstrapErrorKind
  extension_unavailable extension_archive_unavailable : BootstrapErrorKind
  extension_archive_digest_mismatch extension_archive_invalid : BootstrapErrorKind
  extension_install_failed : BootstrapErrorKind

unfoldable pub is_extension : BootstrapErrorKind → Bool
is_extension extension_config_invalid = true
is_extension extension_manifest_unavailable = true
is_extension extension_manifest_digest_mismatch = true
is_extension extension_manifest_invalid = true
is_extension extension_unavailable = true
is_extension extension_archive_unavailable = true
is_extension extension_archive_digest_mismatch = true
is_extension extension_archive_invalid = true
is_extension extension_install_failed = true
is_extension _ = false

-- `Result<A, E>`.
pub data Result {ℓ} (E A : Type ℓ) : Type ℓ where
  ok : A → Result E A
  err : E → Result E A

abbrev pub BootstrapResult : Type 0 → Type 0
BootstrapResult A = Result BootstrapErrorKind A

infixl 10 ◌>>=◌ ◌>>◌
abbrev pub ◌>>=◌ {ℓ} : {E A B : Type ℓ} → Result E A → (A → Result E B) → Result E B
err e >>= next = err e
ok a >>= next = next a

abbrev pub ◌>>◌ {ℓ} : {E A B : Type ℓ} → Result E A → Result E B → Result E B
first >> second = first >>= λ _. second

-- `if !test { return Err(e) }`.
abbrev pub ensure : {E : Type 0} → Bool → E → Result E (Unit {0})
ensure true e = ok tt
ensure false e = err e

-- `Option::ok_or`.
abbrev pub ok_or {ℓ} : {E A : Type ℓ} → Option A → E → Result E A
ok_or (some a) e = ok a
ok_or none e = err e

-- Inversion of a successful chain.
pub >>=-eq-ok {ℓ} :
    {E A B : Type ℓ} (first : Result E A) (then : A → Result E B) {final : B}
    → (first >>= then) ≡ ok final
    → (x : A) × (first ≡ ok x) × (then x ≡ ok final)
>>=-eq-ok (err e) then h = cc
>>=-eq-ok (ok x) then h = (x, refl, h)

pub ok_or-eq-ok {ℓ} : {E A : Type ℓ} (o : Option A) (e : E) {a : A} → ok_or o e ≡ ok a → o ≡ some a
ok_or-eq-ok o e h = ground arith

pub ensure-eq-ok : {E : Type 0} (b : Bool) (e : E) {u : Unit} → ensure b e ≡ ok u → b ≡ true
ensure-eq-ok b e h = ground arith
