-- ===== src/Prelude/Lists.antt =====
-- Lists measured by the native numbers, and predicates on lists that compute.
use Prim.Native.Nat.{ℕ, zero, suc, ◌+◌, ◌≤◌}
use mathlib.Core.Path.{◌≡◌, refl, ap}
use mathlib.Core.Logic.{◌↔◌, inl, inr}
use mathlib.Core.Bool.{Bool, true, false, ◌&&◌, ◌||◌}
use mathlib.Core.Option.{Option, none, some}
use mathlib.Core.List.{List, [], ◌∷◌, ◌++◌}
use native.Mathlib.Omega.{arith}
use pg_embed_setup_unpriv.Prelude.Tests.{Equality, ◌==◌, ==_iff, if◌then◌else◌, Bool-cases}

module _ {ℓ} {A : Type ℓ} where
  abbrev pub length : List A → ℕ
  length [] = 0
  length (x ∷ xs) = suc (length xs)

  abbrev pub all : (A → Bool) → List A → Bool
  all p [] = true
  all p (x ∷ xs) = p x && all p xs

  unfoldable pub take : ℕ → List A → List A
  take zero xs = []
  take (suc n) [] = []
  take (suc n) (x ∷ xs) = x ∷ take n xs

  -- The first entry that passes the test, as `Iterator::find`.
  unfoldable pub find : (A → Bool) → List A → Option A
  find p [] = none
  find p (x ∷ xs) = if p x then some x else find p xs

  pub length-append : (xs ys : List A) → length (xs ++ ys) ≡ length xs + length ys
  length-append [] ys = omega arith
  length-append (x ∷ xs) ys = omega (arith, length-append xs ys)

pub take-all {ℓ} :
    {A : Type ℓ} (n : ℕ) (xs : List A) → length (take (suc n) xs) ≤ n → take (suc n) xs ≡ xs
unfolding take
take-all n [] h = refl
take-all zero (x ∷ xs) h = absurd (omega arith)
take-all (suc n) (x ∷ xs) h = ap (λ (l : List _). x ∷ l) (take-all n xs (omega arith))

pub take_of_short {ℓ} : {A : Type ℓ} (n : ℕ) (xs : List A) → length xs ≤ n → take n xs ≡ xs
unfolding take
take_of_short zero [] h = refl
take_of_short zero (x ∷ xs) h = absurd (omega arith)
take_of_short (suc n) [] h = refl
take_of_short (suc n) (x ∷ xs) h = ap (λ (l : List _). x ∷ l) (take_of_short n xs (omega arith))

module _ {ℓ κ} {A : Type ℓ} (P : A → Type κ) where
  abbrev pub All : List A → Type κ
  All [] = Unit
  All (x ∷ xs) = P x × All xs

  pub All-append : (xs ys : List A) → All xs → All ys → All (xs ++ ys)
  All-append [] ys _ h = h
  All-append (x ∷ xs) ys (p, h) k = (p, All-append xs ys h k)

-- `x` is the first entry that passes the test.
pub record FirstOf {ℓ} {A : Type ℓ} (p : A → Bool) (xs : List A) (x : A) : Type ℓ where
  pub before : List A
  pub after : List A
  pub splits : xs ≡ before ++ (x ∷ after)
  pub passes : p x ≡ true
  pub fail : All (λ y. p y ≡ false) before

module _ {ℓ} {A : Type ℓ} (p : A → Bool) where
  find-of_FirstOf :
      (before after : List A) (x : A)
      → p x ≡ true
      → All (λ y. p y ≡ false) before
      → find p (before ++ (x ∷ after)) ≡ some x
  unfolding find
  find-of_FirstOf [] after x h _ = rw h
  find-of_FirstOf (y ∷ before) after x h (no_y, rest) =
      rw no_y (find-of_FirstOf before after x h rest)

  find-FirstOf : (xs : List A) (x : A) → find p xs ≡ some x → FirstOf p xs x
  unfolding find
  find-FirstOf [] x h = cc
  find-FirstOf (y ∷ xs) x h = elim (Bool-cases (p y)) [
    | inl e ↦ record {
      before = [];
      after = xs;
      splits = ground arith;
      passes = ground arith;
      fail = tt;
    }
    | inr e ↦
        let r = find-FirstOf xs x (rw e at h) in
        record {
          before = y ∷ r.before;
          after = r.after;
          splits = ap (λ (l : List A). y ∷ l) r.splits;
          passes = r.passes;
          fail = (e, r.fail);
        }
  ]

  pub find-eq-some_iff : (xs : List A) (x : A) → (find p xs ≡ some x) ↔ FirstOf p xs x
  find-eq-some_iff xs x =
      (find-FirstOf xs x, λ r. rw r.splits (find-of_FirstOf r.before r.after x r.passes r.fail))

  pub find-eq-none : (xs : List A) → find p xs ≡ none → All (λ y. p y ≡ false) xs
  unfolding find
  find-eq-none [] h = tt
  find-eq-none (y ∷ xs) h = (ground arith, find-eq-none xs (ground arith))

-- What holds of every entry holds of one in the middle.
pub All-middle {ℓ κ} :
    {A : Type ℓ} (P : A → Type κ) (before after : List A) {x : A}
    → All P (before ++ (x ∷ after))
    → P x
All-middle P [] after (h, _) = h
All-middle P (y ∷ before) after (_, h) = All-middle P before after h

module _ {ℓ} {A : Type ℓ} ⦃e : Equality A⦄ where
  abbrev pub contains : List A → A → Bool
  contains [] a = false
  contains (x ∷ xs) a = x == a || contains xs a

  unfoldable pub list_beq : List A → List A → Bool
  list_beq [] [] = true
  list_beq [] (_ ∷ _) = false
  list_beq (_ ∷ _) [] = false
  list_beq (x ∷ xs) (y ∷ ys) = x == y && list_beq xs ys

  list_beq_sound : (xs ys : List A) → list_beq xs ys ≡ true → xs ≡ ys
  unfolding list_beq
  list_beq_sound [] [] h = refl
  list_beq_sound [] (_ ∷ _) h = cc
  list_beq_sound (_ ∷ _) [] h = cc
  list_beq_sound (x ∷ xs) (y ∷ ys) h = ground (arith, ==_iff x y, list_beq_sound xs ys)

  list_beq_refl : (xs : List A) → list_beq xs xs ≡ true
  unfolding list_beq
  list_beq_refl [] = refl
  list_beq_refl (x ∷ xs) = ground (arith, ==_iff x x, list_beq_refl xs)

  pub list_beq_iff : (xs ys : List A) → (list_beq xs ys ≡ true) ↔ (xs ≡ ys)
  list_beq_iff xs ys = (list_beq_sound xs ys, λ p. rw p (list_beq_refl ys))

  instance unfoldable pub list_eq : Equality (List A)
  unfolding list_beq
  list_eq = record { test = list_beq; test_iff = list_beq_iff }
