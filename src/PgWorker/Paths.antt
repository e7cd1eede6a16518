-- ===== src/PgWorker/Paths.antt =====
-- Paths as `components` gives them, and which of them are not removed.
use pg_embed_setup_unpriv.Prelude.{
  ◌≡◌, refl, sym, ap, subst, ◌∙◌, Bool, true, false, not, ◌||◌, none, some, [], ◌∷◌, nat_eq,
  list_eq, if◌then◌else◌, All,
}
use mathlib.Core.Option.{some-injective}
use pg_embed_setup_unpriv.Extensions.Layout.{Component, root_dir, cur_dir, parent_dir, normal}
use pg_embed_setup_unpriv.Cleanup.{remove_dir_all_if_exists}
use pg_embed_setup_unpriv.Cleanup.Paths.{
  FilePath, parent, beq_path, beq_path_sound, is_empty_or_root, is_nothing, is_absolute, is_root,
  has_parent, is_dangerous_cleanup_path,
}

-- Only the first component of a path can be the root.
abbrev pub AllPlain : FilePath → Type 0
AllPlain parts = All (λ part. is_root part ≡ false) parts

abbrev pub IsPath : FilePath → Type 0
IsPath [] = Unit
IsPath (part ∷ rest) = AllPlain rest

parent-AllPlain :
    (part : Component) (rest : FilePath)
    → is_root part ≡ false
    → AllPlain rest
    → (dir : FilePath) × (parent (part ∷ rest) ≡ some dir) × AllPlain dir
unfolding parent
parent-AllPlain part [] h a = ([], rw h refl, tt)
parent-AllPlain part (next ∷ rest) h (n, a) =
    let (dir, e, d) = parent-AllPlain next rest n a in (part ∷ dir, rw e refl, (h, d))

parent-some :
    (part next : Component) (rest : FilePath)
    → AllPlain (next ∷ rest)
    → (dir : FilePath) × (parent (part ∷ next ∷ rest) ≡ some (part ∷ dir)) × AllPlain dir
unfolding parent
parent-some part next rest (n, a) =
    let (dir, e, d) = parent-AllPlain next rest n a in (dir, rw e refl, d)

pub parent-IsPath : (path dir : FilePath) → IsPath path → parent path ≡ some dir → IsPath dir
unfolding parent
parent-IsPath [] dir h e = cc
parent-IsPath (part ∷ []) dir h e = alone (is_root part) e
  where
    alone : (b : Bool) → (if b then none else some []) ≡ some dir → IsPath dir
    alone true k = cc
    alone false k = subst IsPath (some-injective _ _ k) tt
parent-IsPath (part ∷ next ∷ rest) dir h e =
    let (above, f, a) = parent-some part next rest h in
    subst IsPath (some-injective _ _ (sym f ∙ e)) a

pub is_dangerous-is_empty_or_root :
    (path : FilePath)
    → IsPath path
    → is_dangerous_cleanup_path path ≡ true
    → is_empty_or_root path ≡ true
unfolding is_dangerous_cleanup_path is_empty_or_root is_nothing is_absolute is_root has_parent
    parent
is_dangerous-is_empty_or_root [] p h = refl
is_dangerous-is_empty_or_root (root_dir ∷ []) p h = refl
is_dangerous-is_empty_or_root (root_dir ∷ part ∷ rest) p h =
    let (above, f, a) = parent-some root_dir part rest p in
    absurd (clash (ap (λ o. not (has_parent o)) (sym f) ∙ h))
  where
    clash : ◌≡◌ {A = Bool} false true → ⊥
    clash k = cc
is_dangerous-is_empty_or_root (cur_dir ∷ rest) p h = cc
is_dangerous-is_empty_or_root (parent_dir ∷ rest) p h = cc
is_dangerous-is_empty_or_root (normal name ∷ rest) p h = cc

pub is_nothing-refused :
    (path : FilePath)
    → (is_nothing path || beq_path path (root_dir ∷ [])) ≡ true
    → remove_dir_all_if_exists path ≡ []
unfolding remove_dir_all_if_exists is_nothing is_empty_or_root is_dangerous_cleanup_path is_absolute
    is_root has_parent parent
is_nothing-refused [] h = refl
is_nothing-refused (part ∷ rest) h =
    subst (λ path. remove_dir_all_if_exists path ≡ [])
      (sym (beq_path_sound (part ∷ rest) (root_dir ∷ []) h)) refl

pub beq_path_swap : (p q : FilePath) → beq_path p q ≡ true → beq_path q p ≡ true
beq_path_swap p q h =
    let e = beq_path_sound p q h in
    subst (λ x. beq_path q x ≡ true) (sym e) (subst (λ x. beq_path x q ≡ true) e h)
