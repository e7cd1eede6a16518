-- ===== src/Prelude/Texts.antt =====
-- Texts as lists of code points; of ASCII text these are the bytes.
use Prim.Native.Char.{code}
use Prim.Native.Nat.{ℕ}
use Prim.Native.String.{String}
use mathlib.Core.Bool.{Bool, true, false, ◌&&◌, ◌||◌}
use mathlib.Core.List.{List, [], ◌∷◌, ◌++◌, reverse}
use mathlib.Core.Path.{◌≡◌, refl, ◌∙◌, ap}
use native.Mathlib.Omega.{arith}
use pg_embed_setup_unpriv.Prelude.Tests.{leb, ◌==◌, nat_eq, if◌then◌else◌}
use pg_embed_setup_unpriv.Prelude.Lists.{contains, All}

abbrev pub Text : Type 0
Text = List ℕ

-- The code points of a literal.
abbrev pub codes : String → Text
codes String.[] = []
codes (String.◌∷◌ c s) = code c ∷ codes s

-- `char::is_whitespace`: the code points with the Unicode property White_Space.
unfoldable pub is_whitespace : ℕ → Bool
is_whitespace c =
    (leb 9 c && leb c 13)
    || c == 32
    || c == 0x85
    || c == 0xa0
    || c == 0x1680
    || (leb 0x2000 c && leb c 0x200a)
    || c == 0x2028
    || c == 0x2029
    || c == 0x202f
    || c == 0x205f
    || c == 0x3000

unfoldable pub trim_start : Text → Text
trim_start [] = []
trim_start (c ∷ s) = if is_whitespace c then trim_start s else c ∷ s

unfoldable pub trim_end : Text → Text
unfolding trim_start
trim_end s = reverse (trim_start (reverse s))

unfoldable pub trim : Text → Text
unfolding trim_end
trim s = trim_end (trim_start s)

abbrev pub is_empty : Text → Bool
is_empty [] = true
is_empty (_ ∷ _) = false

abbrev grow : ℕ → List Text → List Text
grow c [] = (c ∷ []) ∷ []
grow c (part ∷ parts) = (c ∷ part) ∷ parts

-- `str::split` on a character.
unfoldable pub split : ℕ → Text → List Text
split sep [] = [] ∷ []
split sep (c ∷ s) = let rest = split sep s in if c == sep then [] ∷ rest else grow c rest

-- `[&str]::join` with a one-character separator.
unfoldable pub join : ℕ → List Text → Text
join sep [] = []
join sep (part ∷ []) = part
join sep (part ∷ next ∷ parts) = part ++ (sep ∷ join sep (next ∷ parts))

abbrev pub NonEmpty {ℓ} : {A : Type ℓ} → List A → Type 0
NonEmpty [] = ⊥
NonEmpty (_ ∷ _) = Unit

split_of_part : (sep : ℕ) (part : Text) → contains part sep ≡ false → split sep part ≡ part ∷ []
unfolding split
split_of_part sep [] h = refl
split_of_part sep (c ∷ s) h = ground (arith, split_of_part sep s)

pub split-part :
    (sep : ℕ) (part rest : Text)
    → contains part sep ≡ false
    → split sep (part ++ (sep ∷ rest)) ≡ part ∷ split sep rest
unfolding split
split-part sep [] rest h = ground arith
split-part sep (c ∷ s) rest h = ground (arith, split-part sep s rest)

-- Splitting undoes joining, where no part holds the separator.
pub split-join :
    (sep : ℕ) (parts : List Text)
    → NonEmpty parts
    → All (λ part. contains part sep ≡ false) parts
    → split sep (join sep parts) ≡ parts
unfolding join
split-join sep [] h _ = elim h [ ]
split-join sep (part ∷ []) _ (h, _) = split_of_part sep part h
split-join sep (part ∷ next ∷ parts) _ (h, hs) =
    split-part sep part (join sep (next ∷ parts)) h
    ∙ ap (λ (rest : List Text). part ∷ rest) (split-join sep (next ∷ parts) tt hs)
