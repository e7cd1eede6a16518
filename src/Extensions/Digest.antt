-- ===== src/Extensions/Digest.antt =====
-- src/extensions/digest.rs. A digest is the text of its hex characters. The hash function is the
-- sha2 crate's: here a digest is encoded from any 32 bytes.
use pg_embed_setup_unpriv.Prelude.{
  ℕ, ◌+◌, ◌*◌, ◌/◌, ◌%◌, ◌<◌, ◌≡◌, refl, Bool, true, ◌&&◌, ◌||◌, List, [], ◌∷◌, All, all, length,
  take, leb, ltb, ◌==◌, nat_eq, if◌then◌else◌, arith, ◌-◌,
}
use pg_embed_setup_unpriv.Prelude.Texts.{Text}
use pg_embed_setup_unpriv.Error.{Result, ok, err}

unfoldable pub is_hex_byte : ℕ → Bool
is_hex_byte byte = (leb b'0' byte && leb byte b'9') || (leb b'a' byte && leb byte b'f')

-- `Sha256Hex::parse`; the error carries at most 80 characters of the value.
unfoldable pub parse : Text → Result Text Text
unfolding is_hex_byte
parse value = if length value == 64 && all is_hex_byte value then ok value else err (take 80 value)

unfoldable pub lower_hex_digit : ℕ → ℕ
lower_hex_digit nibble = if ltb nibble 10 then b'0' + nibble else b'a' + nibble - 10

-- `Sha256Hex::from_hasher`, from the finished hash.
unfoldable pub from_hash : List ℕ → Text
from_hash [] = []
from_hash (byte ∷ bytes) =
    lower_hex_digit (byte / 16) ∷ lower_hex_digit (byte % 16) ∷ from_hash bytes

abbrev pub IsByte : ℕ → Type 0
IsByte b = b < 256

digit-is_hex_byte : (n : ℕ) → n < 16 → is_hex_byte (lower_hex_digit n) ≡ true
unfolding is_hex_byte lower_hex_digit
digit-is_hex_byte n h = ground arith

all-from_hash : (bytes : List ℕ) → All IsByte bytes → all is_hex_byte (from_hash bytes) ≡ true
unfolding from_hash
all-from_hash [] h = refl
all-from_hash (b ∷ bs) (h, hs) =
    ground (arith, digit-is_hex_byte (b / 16), digit-is_hex_byte (b % 16), all-from_hash bs hs)

length-from_hash : (bytes : List ℕ) → length (from_hash bytes) ≡ 2 * length bytes
unfolding from_hash
length-from_hash [] = omega arith
length-from_hash (b ∷ bs) = omega (arith, length-from_hash bs)

-- The text of 32 bytes of a hash is a digest that a manifest may state: `parse` keeps it.
pub parse-from_hash :
    (bytes : List ℕ)
    → All IsByte bytes
    → length bytes ≡ 32
    → parse (from_hash bytes) ≡ ok (from_hash bytes)
unfolding parse
parse-from_hash bytes h len =
    let long : length (from_hash bytes) ≡ 64 = omega (arith, length-from_hash bytes) in
    rw (long, all-from_hash bytes h)

digit_injective : (n m : ℕ) → n < 16 → m < 16 → lower_hex_digit n ≡ lower_hex_digit m → n ≡ m
unfolding lower_hex_digit
digit_injective n m hn hm e = ground arith

-- Two hashes, as lists of bytes, with the same text are the same.
pub from_hash_injective :
    (xs ys : List ℕ) → All IsByte xs → All IsByte ys → from_hash xs ≡ from_hash ys → xs ≡ ys
unfolding from_hash
from_hash_injective [] [] hx hy e = refl
from_hash_injective [] (y ∷ ys) hx hy e = cc
from_hash_injective (x ∷ xs) [] hx hy e = cc
from_hash_injective (x ∷ xs) (y ∷ ys) (hx, hxs) (hy, hys) e = ground (
  arith,
  from_hash_injective xs ys hxs hys,
  digit_injective (x / 16) (y / 16),
  digit_injective (x % 16) (y % 16),
)
