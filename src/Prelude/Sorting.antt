-- ===== src/Prelude/Sorting.antt =====
-- Sorting by a Boolean order, as `slice::sort_by` leaves a list: the same entries, in order.
use mathlib.Core.List.{Perm}
use mathlib.Core.List.Perm
use mathlib.Core.Path.{◌≡◌, refl, sym, ◌∙◌}
use mathlib.Core.Option.{Option, none, some}
use mathlib.Core.Bool.{Bool, true, false, ◌&&◌, ◌||◌}
use mathlib.Core.List.{List, [], ◌∷◌}
use native.Mathlib.Omega.{arith}
use pg_embed_setup_unpriv.Prelude.Tests.{ltb, ◌==◌, nat_eq, if◌then◌else◌, Bool-cases}
use pg_embed_setup_unpriv.Prelude.Lists.{All}
use pg_embed_setup_unpriv.Prelude.Texts.{Text}
use mathlib.Core.Logic.{inl, inr}

-- `Ord` on `str`: byte by byte, a prefix first.
unfoldable pub text_leb : Text → Text → Bool
text_leb [] t = true
text_leb (_ ∷ _) [] = false
text_leb (a ∷ s) (b ∷ t) = ltb a b || (a == b && text_leb s t)

module _ {ℓ} {A : Type ℓ} where
  -- `Vec::pop`.
  unfoldable pub pop : List A → Option A
  pop [] = none
  pop (x ∷ []) = some x
  pop (x ∷ y ∷ ys) = pop (y ∷ ys)

module _ {ℓ} {A : Type ℓ} (le : A → A → Bool) where
  unfoldable pub insert_sorted : A → List A → List A
  insert_sorted x [] = x ∷ []
  insert_sorted x (y ∷ ys) = if le x y then x ∷ y ∷ ys else y ∷ insert_sorted x ys

  unfoldable pub sort_by : List A → List A
  unfolding insert_sorted
  sort_by [] = []
  sort_by (x ∷ xs) = insert_sorted x (sort_by xs)

  insert_sorted-perm : (x : A) (ys : List A) → Perm (insert_sorted x ys) (x ∷ ys)
  unfolding insert_sorted
  insert_sorted-perm x [] = Perm.refl _
  insert_sorted-perm x (y ∷ ys) = elim (Bool-cases (le x y)) [
    | inl e ↦ rw e (Perm.refl _)
    | inr e ↦ rw e (Perm.trans (Perm.cons y (insert_sorted-perm x ys)) (Perm.swap x y ys))
  ]

  pub sort_by-perm : (xs : List A) → Perm (sort_by xs) xs
  unfolding sort_by
  sort_by-perm [] = Perm.refl _
  sort_by-perm (x ∷ xs) =
      Perm.trans (insert_sorted-perm x (sort_by xs)) (Perm.cons x (sort_by-perm xs))

  module _ {κ} (P : A → Type κ) where
    insert_sorted-All : (x : A) (ys : List A) → P x → All P ys → All P (insert_sorted x ys)
    unfolding insert_sorted
    insert_sorted-All x [] p h = (p, tt)
    insert_sorted-All x (y ∷ ys) p (q, h) = elim (Bool-cases (le x y)) [
      | inl e ↦ rw e (p, (q, h))
      | inr e ↦ rw e (q, insert_sorted-All x ys p h)
    ]

    pub sort_by-All : (xs : List A) → All P xs → All P (sort_by xs)
    unfolding sort_by
    sort_by-All [] h = tt
    sort_by-All (x ∷ xs) (p, h) = insert_sorted-All x (sort_by xs) p (sort_by-All xs h)

  -- The last entry is above every entry.
  abbrev pub Upper : List A → Type ℓ
  Upper xs = (m : A) → pop xs ≡ some m → All (λ z. le z m ≡ true) xs

  insert_sorted-member :
      (P : A → Type 0) (x : A) (ys : List A) → All P (insert_sorted x ys) → P x × All P ys
  unfolding insert_sorted
  insert_sorted-member P x [] h = h
  insert_sorted-member P x (y ∷ ys) h = elim (Bool-cases (le x y)) [
    | inl e ↦ rw e at h
    | inr e ↦
        let (p, rest) = rw e at h in
        let (q, others) = insert_sorted-member P x ys rest in (q, (p, others))
  ]

  sort_by-member : (P : A → Type 0) (xs : List A) → All P (sort_by xs) → All P xs
  unfolding sort_by
  sort_by-member P [] h = tt
  sort_by-member P (x ∷ xs) h =
      let (p, rest) = insert_sorted-member P x (sort_by xs) h in (p, sort_by-member P xs rest)

  insert_sorted-nonempty : (x : A) (ys : List A) → insert_sorted x ys ≡ [] → ⊥
  unfolding insert_sorted
  insert_sorted-nonempty x [] e = cc
  insert_sorted-nonempty x (y ∷ ys) e = elim (Bool-cases (le x y)) [
    | inl b ↦ cc (rw b at e)
    | inr b ↦ cc (rw b at e)
  ]

  pop-none : (xs : List A) → pop xs ≡ none → xs ≡ []
  unfolding pop
  pop-none [] e = refl
  pop-none (x ∷ []) e = cc
  pop-none (x ∷ y ∷ ys) e = cc (pop-none (y ∷ ys) e)

  pub pop-sort_by-none : (xs : List A) → pop (sort_by xs) ≡ none → xs ≡ []
  unfolding sort_by
  pop-sort_by-none [] e = refl
  pop-sort_by-none (x ∷ xs) e = absurd (insert_sorted-nonempty x (sort_by xs) (pop-none _ e))

  pop-insert_sorted :
      (x y : A) (ys : List A) → pop (y ∷ insert_sorted x ys) ≡ pop (insert_sorted x ys)
  unfolding pop insert_sorted
  pop-insert_sorted x y [] = refl
  pop-insert_sorted x y (z ∷ ys) = elim (Bool-cases (le x z)) [
    | inl e ↦ rw e refl
    | inr e ↦ rw e refl
  ]

  Upper-tail : (y : A) (ys : List A) → Upper (y ∷ ys) → Upper ys
  unfolding pop
  Upper-tail y [] h m e = tt
  Upper-tail y (z ∷ ys) h m e = (h m e).1

  module _ (total : (a b : A) → le a b ≡ false → le b a ≡ true)
      (trans : (a b c : A) → le a b ≡ true → le b c ≡ true → le a c ≡ true) where
    reflexive : (a : A) → le a a ≡ true
    reflexive a = elim (Bool-cases (le a a)) [ inl e ↦ e | inr e ↦ total a a e ]

    insert_sorted-Upper : (x : A) (ys : List A) → Upper ys → Upper (insert_sorted x ys)
    unfolding pop insert_sorted
    insert_sorted-Upper x [] h m e = (ground (arith, reflexive x), tt)
    insert_sorted-Upper x (y ∷ ys) h m p = elim (Bool-cases (le x y)) [
      | inl e ↦ let above = h m (rw e at p) in rw e (trans x y m e above.0, above)
      | inr e ↦
          let rest =
            insert_sorted-Upper x ys (Upper-tail y ys h) m
              (sym (pop-insert_sorted x y ys) ∙ (rw e at p)) in
          rw e (
            trans y x m (total x y e) (insert_sorted-member (λ z. le z m ≡ true) x ys rest).0,
            rest,
          )
    ]

    sort_by-Upper : (xs : List A) → Upper (sort_by xs)
    unfolding sort_by
    sort_by-Upper [] m e = tt
    sort_by-Upper (x ∷ xs) m e = insert_sorted-Upper x (sort_by xs) (sort_by-Upper xs) m e

pub text_leb_total : (s t : Text) → text_leb s t ≡ false → text_leb t s ≡ true
unfolding text_leb
text_leb_total [] t h = cc
text_leb_total (_ ∷ _) [] h = refl
text_leb_total (a ∷ s) (b ∷ t) h = ground (arith, text_leb_total s t)

pub text_leb_trans :
    (s t u : Text) → text_leb s t ≡ true → text_leb t u ≡ true → text_leb s u ≡ true
unfolding text_leb
text_leb_trans [] t u h k = refl
text_leb_trans (_ ∷ _) [] u h k = cc
text_leb_trans (_ ∷ _) (_ ∷ _) [] h k = cc
text_leb_trans (a ∷ s) (b ∷ t) (c ∷ u) h k = ground (arith, text_leb_trans s t u)

pub All-weaken {ℓ} :
    {A : Type ℓ} {P Q : A → Type 0} (f : (z : A) → P z → Q z) (xs : List A) → All P xs → All Q xs
All-weaken f [] h = tt
All-weaken f (x ∷ xs) (p, h) = (f x p, All-weaken f xs h)

pop-All {ℓ κ} :
    {A : Type ℓ} (P : A → Type κ) (xs : List A) (m : A) → All P xs → pop xs ≡ some m → P m
unfolding pop
pop-All P [] m h e = cc
pop-All P (x ∷ []) m h e = ground (arith, h)
pop-All P (x ∷ y ∷ ys) m h e = pop-All P (y ∷ ys) m h.1 e

-- The entry that is popped from a sorted list has what all have, and is above all others.
pub pop-sort_by {ℓ κ} :
    {A : Type ℓ} (le : A → A → Bool)
    → ((a b : A) → le a b ≡ false → le b a ≡ true)
    → ((a b c : A) → le a b ≡ true → le b c ≡ true → le a c ≡ true)
    → (P : A → Type κ) (xs : List A) (m : A) → All P xs
    → pop (sort_by le xs) ≡ some m
    → P m × All (λ z. le z m ≡ true) xs
pop-sort_by le total trans P xs m h e = (
  pop-All P (sort_by le xs) m (sort_by-All le P xs h) e,
  sort_by-member le (λ z. le z m ≡ true) xs (sort_by-Upper le total trans xs m e),
)
