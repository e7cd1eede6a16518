-- ===== src/Extensions/Layout.antt =====
-- src/extensions/layout.rs, and `Path::components` as it reads a unix path.
pub mod Laws
use pg_embed_setup_unpriv.Prelude.{
  ℕ, ◌≡◌, ◌≢◌, refl, ap, ◌∙◌, Bool, true, false, not, ◌&&◌, ◌||◌, Option, none, some, List, [], ◌∷◌,
  All, contains, ◌==◌, ==_iff, nat_eq, list_eq, if◌then◌else◌, arith,
}
use pg_embed_setup_unpriv.Prelude.Texts.{Text, codes, split, join, split-join, NonEmpty}

pub data Component : Type 0 where
  root_dir cur_dir parent_dir : Component
  normal : Text → Component

-- One piece between separators, after the first.
unfoldable pub piece : Text → List Component → List Component
piece part rest =
    if part == [] || part == codes "."
    then rest
    else if part == codes ".."
    then parent_dir ∷ rest
    else normal part ∷ rest

unfoldable pub pieces : List Text → List Component
pieces [] = []
pieces (part ∷ parts) = piece part (pieces parts)

unfoldable pub leading : List Text → List Component
leading [] = []
leading (part ∷ parts) =
    if part == codes "." then cur_dir ∷ pieces parts else piece part (pieces parts)

unfoldable pub components : Text → List Component
unfolding piece pieces leading list_eq split
components [] = []
components (c ∷ s) =
    if c == b'/' then root_dir ∷ pieces (split b'/' s) else leading (split b'/' (c ∷ s))

unfoldable pub plain_component : Text → Option Text
plain_component part =
    if not (contains part 0x5c) && not (contains part b'/') then some part else none

infixl 10 ◌>>=◌
abbrev pub ◌>>=◌ : {A B : Type 0} → Option A → (A → Option B) → Option B
none >>= f = none
some a >>= f = f a

-- The loop of `normal_components` after the first component: a `CurDir` is refused there.
unfoldable pub later_components : List Component → Option (List Text)
unfolding plain_component
later_components [] = some []
later_components (normal part ∷ rest) = do
  p ← plain_component part
  ps ← later_components rest
  some (p ∷ ps)
later_components (_ ∷ rest) = none

unfoldable pub normal_components : List Component → Option (List Text)
unfolding later_components
normal_components (cur_dir ∷ rest) = later_components rest
normal_components cs = later_components cs

unfoldable pub is_allowed_layout : List Text → Bool
unfolding list_eq
is_allowed_layout (first ∷ _ ∷ []) = first == codes "lib"
is_allowed_layout (first ∷ second ∷ _ ∷ _) = first == codes "share" && second == codes "extension"
is_allowed_layout _ = false

unfoldable pub classify_entry_path : Text → Option Text
classify_entry_path raw = do
  parts ← normal_components (components raw)
  if is_allowed_layout parts then some (join b'/' parts) else none
