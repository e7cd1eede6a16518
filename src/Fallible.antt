-- ===== src/Fallible.antt =====
-- Functions on `&mut` state that return a `Result`: the state comes back on both paths, since what
-- was changed before an error stays changed. With the rules to reason about their chains.
use pg_embed_setup_unpriv.Prelude.{◌≡◌, refl, subst}
use pg_embed_setup_unpriv.Error.{Result, ok, err}

-- `S` is the state and `E` the error.
abbrev pub Action : Type 0 → Type 0 → Type 0 → Type 0
Action S E A = S → Result E A × S

module _ {S E A B : Type 0} where
  abbrev pub continue : Result E A × S → (A → Action S E B) → Result E B × S
  continue (ok a, s) next = next a s
  continue (err e, s) next = (err e, s)

  infixl 10 ◌>>=◌ ◌>>◌
  abbrev pub ◌>>=◌ : Action S E A → (A → Action S E B) → Action S E B
  ◌>>=◌ m next s = continue (m s) next

  abbrev pub ◌>>◌ : Action S E A → Action S E B → Action S E B
  ◌>>◌ m next s = continue (m s) (λ _. next)

module _ {S E A : Type 0} where
  abbrev pub pure : A → Action S E A
  pure a s = (ok a, s)

  -- What holds after a run: one thing of its value and the state, or another of the error's state.
  abbrev pub Post : (A → S → Type 0) → (S → Type 0) → Result E A × S → Type 0
  Post done failed (ok a, s) = done a s
  Post done failed (err e, s) = failed s

  -- From every state with `before`, a run ends as `Post` says.
  abbrev pub Triple : (S → Type 0) → Action S E A → (A → S → Type 0) → (S → Type 0) → Type 0
  Triple before m done failed = (s : S) → before s → Post done failed (m s)

  pub Post-of :
      (done : A → S → Type 0) (failed : S → Type 0) (r : Result E A) (s : S)
      → ((a : A) → done a s)
      → failed s
      → Post done failed (r, s)
  Post-of done failed (ok a) s h k = h a
  Post-of done failed (err e) s h k = k

  pub Post-always :
      (done : A → S → Type 0) (r : Result E A × S)
      → ((a : A) (s : S) → done a s)
      → Post done (λ _. Unit) r
  Post-always done (ok a, s) h = h a s
  Post-always done (err e, s) h = tt

  pub Post-weaken :
      (done done' : A → S → Type 0) (failed failed' : S → Type 0) (r : Result E A × S)
      → Post done failed r
      → ((a : A) (s : S) → done a s → done' a s)
      → ((s : S) → failed s → failed' s)
      → Post done' failed' r
  Post-weaken done done' failed failed' (ok a, s) h f g = f a s h
  Post-weaken done done' failed failed' (err e, s) h f g = g s h

module _ {S E A B : Type 0} where
  pub Post-continue :
      (middle : A → S → Type 0) (done : B → S → Type 0) (failed : S → Type 0) (r : Result E A × S)
      (next : A → Action S E B)
      → Post middle failed r
      → ((a : A) → Triple (middle a) (next a) done failed)
      → Post done failed (continue r next)
  Post-continue middle done failed (ok a, s) next h rest = rest a s h
  Post-continue middle done failed (err e, s) next h rest = h

  -- The rule of a chain.
  pub Triple-bind :
      (before : S → Type 0) (middle : A → S → Type 0) (done : B → S → Type 0) (failed : S → Type 0)
      (m : Action S E A) (next : A → Action S E B)
      → Triple before m middle failed
      → ((a : A) → Triple (middle a) (next a) done failed)
      → Triple before (m >>= next) done failed
  Triple-bind before middle done failed m next first rest s h =
      Post-continue middle done failed (m s) next (first s h) rest

  pub Triple-then :
      (before middle : S → Type 0) (done : B → S → Type 0) (failed : S → Type 0) (m : Action S E A)
      (next : Action S E B)
      → Triple before m (λ _. middle) failed
      → Triple middle next done failed
      → Triple before (m >> next) done failed
  Triple-then before middle done failed m next first rest s h =
      Post-continue (λ _. middle) done failed (m s) (λ _. next) (first s h) (λ _. rest)

  -- Chains agree where their parts do.
  pub continue-eq :
      (r r' : Result E A × S) (next next' : A → Action S E B)
      → r ≡ r'
      → Post (λ a s. next a s ≡ next' a s) (λ _. Unit) r
      → continue r next ≡ continue r' next'
  continue-eq (ok a, s) r' next next' e h = subst (λ x. next a s ≡ continue x next') e h
  continue-eq (err f, s) r' next next' e h =
      subst (λ (x : Result E A × S). (err f, s) ≡ continue x next') e refl
