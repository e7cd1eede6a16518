-- ===== src/Cleanup/Paths.antt =====
-- `std::path::Path` on Unix as the list of its components, and src/cleanup_helpers.rs on it.
use pg_embed_setup_unpriv.Prelude.{
  ◌≡◌, refl, ap, Bool, true, false, not, ◌&&◌, ◌||◌, Option, none, some, List, [], ◌∷◌, ◌++◌, ◌==◌,
  ==_iff, ==_refl, list_eq, nat_eq, if◌then◌else◌, arith,
}
use pg_embed_setup_unpriv.Prelude.Texts.{Text}
use pg_embed_setup_unpriv.Extensions.Layout.{Component, root_dir, cur_dir, parent_dir, normal}

abbrev pub FilePath : Type 0
FilePath = List Component

unfoldable pub is_root : Component → Bool
is_root root_dir = true
is_root _ = false

unfoldable pub parent : FilePath → Option FilePath
parent [] = none
parent (part ∷ []) = if is_root part then none else some []
parent (part ∷ next ∷ rest) =
    let above = parent (next ∷ rest) in
    elim above [ none ↦ none | some parts ↦ some (part ∷ parts) ]

unfoldable pub file_name : FilePath → Option Text
file_name [] = none
file_name (normal name ∷ []) = some name
file_name (_ ∷ []) = none
file_name (_ ∷ next ∷ rest) = file_name (next ∷ rest)

-- `join` with a plain name.
unfoldable pub join : FilePath → Text → FilePath
join dir name = dir ++ (normal name ∷ [])

unfoldable pub beq_part : Component → Component → Bool
unfolding list_eq
beq_part root_dir root_dir = true
beq_part cur_dir cur_dir = true
beq_part parent_dir parent_dir = true
beq_part (normal a) (normal b) = a == b
beq_part _ _ = false

unfoldable pub beq_path : FilePath → FilePath → Bool
beq_path [] [] = true
beq_path (a ∷ p) (b ∷ q) = beq_part a b && beq_path p q
beq_path _ _ = false

-- Whether the first path starts with the second.
unfoldable pub starts_with : FilePath → FilePath → Bool
starts_with p [] = true
starts_with [] (b ∷ q) = false
starts_with (a ∷ p) (b ∷ q) = beq_part a b && starts_with p q

unfoldable pub is_parent_dir : Component → Bool
is_parent_dir parent_dir = true
is_parent_dir _ = false

unfoldable pub has_parent_dir : FilePath → Bool
has_parent_dir [] = false
has_parent_dir (part ∷ rest) = is_parent_dir part || has_parent_dir rest

unfoldable pub is_nothing : FilePath → Bool
is_nothing [] = true
is_nothing _ = false

unfoldable pub is_empty_or_root : FilePath → Bool
is_empty_or_root [] = true
is_empty_or_root (cur_dir ∷ rest) = is_nothing rest
is_empty_or_root (root_dir ∷ rest) = is_nothing rest
is_empty_or_root (_ ∷ rest) = false

-- `is_absolute`.
unfoldable pub is_absolute : FilePath → Bool
is_absolute [] = false
is_absolute (part ∷ rest) = is_root part

unfoldable pub has_parent : Option FilePath → Bool
has_parent none = false
has_parent (some dir) = true

unfoldable pub is_dangerous_cleanup_path : FilePath → Bool
is_dangerous_cleanup_path path =
    is_nothing path || (is_absolute path && not (has_parent (parent path)))

beq_part_sound : (a b : Component) → beq_part a b ≡ true → a ≡ b
unfolding beq_part list_eq
beq_part_sound root_dir root_dir h = refl
beq_part_sound cur_dir cur_dir h = refl
beq_part_sound parent_dir parent_dir h = refl
beq_part_sound (normal a) (normal b) h = ap normal ((==_iff a b).0 h)
beq_part_sound root_dir (normal b) h = cc
beq_part_sound cur_dir (normal b) h = cc
beq_part_sound parent_dir (normal b) h = cc
beq_part_sound (normal a) root_dir h = cc
beq_part_sound (normal a) cur_dir h = cc
beq_part_sound (normal a) parent_dir h = cc
beq_part_sound root_dir cur_dir h = cc
beq_part_sound root_dir parent_dir h = cc
beq_part_sound cur_dir root_dir h = cc
beq_part_sound cur_dir parent_dir h = cc
beq_part_sound parent_dir root_dir h = cc
beq_part_sound parent_dir cur_dir h = cc

pub beq_path_sound : (p q : FilePath) → beq_path p q ≡ true → p ≡ q
unfolding beq_path
beq_path_sound [] [] h = refl
beq_path_sound [] (b ∷ q) h = cc
beq_path_sound (a ∷ p) [] h = cc
beq_path_sound (a ∷ p) (b ∷ q) h = ground (arith, beq_part_sound a b, beq_path_sound p q)

beq_part_refl : (a : Component) → beq_part a a ≡ true
unfolding beq_part list_eq
beq_part_refl root_dir = refl
beq_part_refl cur_dir = refl
beq_part_refl parent_dir = refl
beq_part_refl (normal a) = ==_refl a

pub starts_with_refl : (p : FilePath) → starts_with p p ≡ true
unfolding starts_with
starts_with_refl [] = refl
starts_with_refl (a ∷ p) = ground (arith, beq_part_refl a, starts_with_refl p)

pub beq_path_refl : (p : FilePath) → beq_path p p ≡ true
unfolding beq_path
beq_path_refl [] = refl
beq_path_refl (a ∷ p) = ground (arith, beq_part_refl a, beq_path_refl p)
