-- ===== src/Prelude/Exec.antt =====
-- Methods on `&mut self` that may panic: the state comes back on both paths, since what was written
-- before a panic stays written.
use mathlib.Core.Bool.{Bool, true, false}

pub data Outcome {ℓ} (S A : Type ℓ) : Type ℓ where
  done : A → S → Outcome S A
  panicked : S → Outcome S A

abbrev pub Exec {ℓ} : Type ℓ → Type ℓ → Type ℓ
Exec S A = S → Outcome S A

module _ {ℓ} {S A : Type ℓ} where
  abbrev pub pure : A → Exec S A
  pure a s = done a s

  abbrev pub panic : Exec S A
  panic s = panicked s

  abbrev pub gets : (S → A) → Exec S A
  gets f s = done (f s) s

  -- The state that an execution leaves, whether it returned or panicked.
  abbrev pub final : Outcome S A → S
  final (done a s) = s
  final (panicked s) = s

module _ {S : Type 0} where
  abbrev pub modify : (S → S) → Exec S (Unit {0})
  modify f s = done tt (f s)

  -- `assert!` and `debug_assert!`, with the debug assertions compiled in.
  abbrev pub assert : (S → Bool) → Exec S (Unit {0})
  assert test s = elim (test s) [ true ↦ done tt s | false ↦ panicked s ]

module _ {ℓ} {S A B : Type ℓ} where
  infixl 10 ◌>>=◌ ◌>>◌
  abbrev pub continue : Outcome S A → (A → Exec S B) → Outcome S B
  continue (done a s) f = f a s
  continue (panicked s) f = panicked s

  abbrev pub ◌>>=◌ : Exec S A → (A → Exec S B) → Exec S B
  ◌>>=◌ m f s = continue (m s) f

  abbrev pub ◌>>◌ : Exec S A → Exec S B → Exec S B
  ◌>>◌ m n s = continue (m s) (λ _. n)
