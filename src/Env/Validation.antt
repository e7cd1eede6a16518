-- ===== src/Env/Validation.antt =====
-- src/env/state/validation.rs. An `OsString` is its bytes (the unix variants of the byte tests).
use pg_embed_setup_unpriv.Prelude.{
  ◌≡◌, Bool, true, false, not, ◌&&◌, Option, none, some, [], ◌∷◌, arith, contains, nat_eq,
  if◌then◌else◌,
}
use pg_embed_setup_unpriv.Prelude.Texts.{Text}

abbrev pub OsString : Type 0
OsString = Text

abbrev is_empty : OsString → Bool
is_empty [] = true
is_empty (_ ∷ _) = false

contains_equals : OsString → Bool
contains_equals key = contains key b'='

contains_nul : OsString → Bool
contains_nul value = contains value 0

unfoldable pub is_valid_env_key : OsString → Bool
unfolding contains_equals contains_nul
is_valid_env_key key = not (is_empty key) && not (contains_nul key) && not (contains_equals key)

unfoldable pub is_valid_env_value : Option OsString → Bool
unfolding contains_nul
is_valid_env_value none = true
is_valid_env_value (some value) = not (contains_nul value)

-- `validate_env_key` and `validate_env_value`: the result says whether every assertion passes.
unfoldable pub validate_env_key : OsString → Bool
unfolding contains_equals contains_nul
validate_env_key key =
    if is_empty key then false else if contains_nul key then false else not (contains_equals key)

unfoldable pub validate_env_value : Option OsString → Bool
unfolding contains_nul
validate_env_value (some env_value) = not (contains_nul env_value)
validate_env_value none = true

-- The assertions of `enter_scope` are the ones that the debug assertions repeat.
pub validate_env_key-eq-is_valid_env_key :
    (key : OsString) → validate_env_key key ≡ is_valid_env_key key
unfolding validate_env_key is_valid_env_key
validate_env_key-eq-is_valid_env_key key = ground arith

pub validate_env_value-eq-is_valid_env_value :
    (value : Option OsString) → validate_env_value value ≡ is_valid_env_value value
unfolding validate_env_value is_valid_env_value
validate_env_value-eq-is_valid_env_value value = ground arith
