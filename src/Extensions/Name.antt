-- ===== src/Extensions/Name.antt =====
-- src/extensions/name.rs. A name is its bytes; `new` keeps a valid one as it is.
use pg_embed_setup_unpriv.Prelude.{
  ℕ, ◌≤◌, ◌≡◌, ◌≢◌, ◌⊎◌, ◌↔◌, inl, inr, Bool-cases, All, [], ◌∷◌, refl, Bool, not, ◌&&◌, ◌||◌, true,
  all, leb, ◌==◌, nat_eq, if◌then◌else◌, arith,
}
use pg_embed_setup_unpriv.Prelude.Texts.{Text, is_empty}
use pg_embed_setup_unpriv.Error.{BootstrapResult, ok, err, extension_config_invalid}

unfoldable pub is_name_byte : ℕ → Bool
is_name_byte byte =
    (leb b'a' byte && leb byte b'z') || (leb b'0' byte && leb byte b'9') || byte == b'_'

unfoldable pub new : Text → BootstrapResult Text
new value =
    if is_empty value || not (all is_name_byte value)
    then err extension_config_invalid
    else ok value

-- A lower-case letter, a digit or an underscore.
abbrev pub IsNameByte : ℕ → Type 0
IsNameByte b = ((97 ≤ b) × (b ≤ 122)) ⊎ ((48 ≤ b) × (b ≤ 57)) ⊎ (b ≡ 95)

abbrev pub IsName : Text → Type 0
IsName name = (name ≢ []) × All IsNameByte name

is_name_byte_iff : (b : ℕ) → (is_name_byte b ≡ true) ↔ IsNameByte b
unfolding is_name_byte
is_name_byte_iff b = (λ h. ground arith, λ h. ground arith)

all-is_name_byte : (s : Text) → all is_name_byte s ≡ true → All IsNameByte s
all-is_name_byte [] h = tt
all-is_name_byte (b ∷ s) h =
    ((is_name_byte_iff b).0 (ground arith), all-is_name_byte s (ground arith))

All-IsNameByte : (s : Text) → All IsNameByte s → all is_name_byte s ≡ true
All-IsNameByte [] h = refl
All-IsNameByte (b ∷ s) (h, hs) = ground (arith, (is_name_byte_iff b).1 h, All-IsNameByte s hs)

-- A name is accepted exactly if it is not empty and has only lower-case letters, digits and
-- underscores; it is kept as it is, and anything else is an invalid configuration.
pub new-eq :
    (name : Text)
    → ((new name ≡ ok name) × IsName name)
      ⊎ ((new name ≡ err extension_config_invalid) × ¬ IsName name)
unfolding new
new-eq [] = inr (refl, λ h. h.0 refl)
new-eq (b ∷ s) = elim (Bool-cases (all is_name_byte (b ∷ s))) [
  | inl e ↦ inl (rw e, (λ h. cc, all-is_name_byte (b ∷ s) e))
  | inr e ↦ inr (rw e, λ h. cc (e, All-IsNameByte (b ∷ s) h.1))
]
