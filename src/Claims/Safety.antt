-- ===== src/Claims/Safety.antt =====
-- While a process removes the install tree, nobody else has a slot.
use pg_embed_setup_unpriv.Prelude.{
  ℕ, ◌≡◌, ◌≢◌, refl, sym, ap, subst, ◌∙◌, Bool, false, Option, none, some, List, [], ◌∷◌, ◌==◌,
  ==_iff, ==_refl, nat_eq, All, inl, inr, Bool-cases, arith,
}
use mathlib.Core.Option.{some-injective}
use pg_embed_setup_unpriv.Prelude.Texts.{Text, NonEmpty}
use pg_embed_setup_unpriv.Error.{BootstrapResult, ok, err}
use pg_embed_setup_unpriv.Cleanup.{CleanupMode, data_only, full, keep, plan_cleanup}
use pg_embed_setup_unpriv.Cleanup.Paths.{FilePath}
use pg_embed_setup_unpriv.Claims.{
  Claim, Phase, idle, claiming, planning, removing, Shared, slot_name, set_phase, acquire, release,
  lock_new_slot, claim_locked, claim_slot, planned, remove_tree, without, guard_without, die, Step,
  begin_claim, end_claim, provision, begin_cleanup, plan, remove, death, Reach, here, next,
}
use pg_embed_setup_unpriv.Claims.Spec.{IsOwn}
use pg_embed_setup_unpriv.Claims.Probe.{plan_cleanup-alone}

abbrev pub IsBusy : Phase → Type 0
IsBusy idle = ⊥
IsBusy _ = Unit

abbrev pub IsNamed : Claim → Type 0
IsNamed claim = NonEmpty claim.name

pub record Safe (s : Shared) : Type 0 where
  pub exclusive : (p : ℕ) → IsBusy (s.phase p) → s.guard ≡ some p
  pub alone : (p : ℕ) (own : Option Text) → s.phase p ≡ removing own → All (IsOwn own) s.claims
  pub named : All IsNamed s.claims

abbrev pub initial : Shared
initial = record { guard = none; claims = []; tree = false; phase = λ p. idle }

initial-Safe : Safe initial
initial-Safe = record { exclusive = λ p h. elim h [ ]; alone = λ p own h. tt; named = tt }

set_phase_self : (p : ℕ) (new : Phase) (phase : ℕ → Phase) → set_phase p new phase p ≡ new
unfolding set_phase
set_phase_self p new phase = rw (==_refl p) refl

set_phase-cases :
    (p : ℕ) (new : Phase) (phase : ℕ → Phase) (P : ℕ → Phase → Type 0)
    → P p new
    → ((q : ℕ) → q ≢ p → P q (phase q))
    → (q : ℕ) → P q (set_phase p new phase q)
unfolding set_phase
set_phase-cases p new phase P h k q = elim (Bool-cases (q == p)) [
  | inl e ↦ rw e (subst (λ i. P i new) (sym ((==_iff q p).0 e)) h)
  | inr e ↦ rw e (k q (λ i. absurd (ground (arith, e, i))))
]

-- The claims and the tree may change under the guard: nobody else is in the middle of anything.
release-Safe :
    (s : Shared) (p : ℕ) (claims : List Claim) (present : Bool)
    → Safe s
    → s.guard ≡ some p
    → All IsNamed claims
    → Safe (release p (record s { claims = claims; tree = present }))
unfolding release
release-Safe s p claims present h g named = record {
  exclusive = λ q b. absurd (nobody q b);
  alone = λ q own e. absurd (nobody q (subst IsBusy (sym e) tt));
  named = named;
}
  where
    nobody : (q : ℕ) → IsBusy (set_phase p idle s.phase q) → ⊥
    nobody =
        set_phase-cases p idle s.phase (λ q phase. IsBusy phase → ⊥) (λ b. b)
          (λ q apart b. apart (some-injective _ _ (sym (h.exclusive q b) ∙ g)))

acquire-Safe :
    (s : Shared) (p : ℕ) (new : Phase)
    → Safe s
    → s.guard ≡ none
    → ((own : Option Text) → new ≢ removing own)
    → Safe (acquire p new s)
unfolding acquire
acquire-Safe s p new h g calm = record {
  exclusive =
      set_phase-cases p new s.phase (λ q phase. IsBusy phase → some p ≡ some q) (λ b. refl)
        (λ q apart b. absurd (unguarded q b));
  alone = λ q own.
      set_phase-cases p new s.phase (λ r phase. phase ≡ removing own → All (IsOwn own) s.claims)
        (λ e. absurd (calm own e)) (λ r apart e. h.alone r own e) q;
  named = h.named;
}
  where
    unguarded : (q : ℕ) → IsBusy (s.phase q) → ⊥
    unguarded q b = let clash : none ≡ some q = sym g ∙ h.exclusive q b in cc

claim_locked-Safe :
    (s : Shared) (p : ℕ) (name : Text) (r : BootstrapResult Unit)
    → Safe s
    → s.guard ≡ some p
    → NonEmpty name
    → Safe (claim_locked p name r s).1
unfolding claim_locked
claim_locked-Safe s p name (err e) h g n = release-Safe s p s.claims s.tree h g h.named
claim_locked-Safe s p name (ok u) h g n =
    release-Safe s p (record { owner = p; name = name } ∷ s.claims) s.tree h g (n, h.named)

slot_name-NonEmpty : (pid nanos count : Text) → NonEmpty (slot_name pid nanos count)
unfolding slot_name
slot_name-NonEmpty [] nanos count = tt
slot_name-NonEmpty (c ∷ pid) nanos count = tt

removing-Safe :
    (s : Shared) (p : ℕ) (own : Option Text)
    → Safe s
    → s.guard ≡ some p
    → All (IsOwn own) s.claims
    → Safe (record s { phase = set_phase p (removing own) s.phase })
removing-Safe s p own h g alone = record {
  exclusive =
      set_phase-cases p (removing own) s.phase (λ q phase. IsBusy phase → s.guard ≡ some q) (λ b. g)
        (λ q apart b. h.exclusive q b);
  alone = λ q other.
      set_phase-cases p (removing own) s.phase
        (λ r phase. phase ≡ removing other → All (IsOwn other) s.claims)
        (λ e. subst (λ o. All (IsOwn o) s.claims) (removing-injective own other e) alone)
        (λ r apart e. h.alone r other e) q;
  named = h.named;
}
  where
    removing-injective : (a b : Option Text) → removing a ≡ removing b → a ≡ b
    removing-injective a b e = cc

without-All :
    (P : Claim → Type 0) (p : ℕ) (claims : List Claim) → All P claims → All P (without p claims)
unfolding without
without-All P p [] h = tt
without-All P p (claim ∷ claims) (h, hs) = elim (Bool-cases (claim.owner == p)) [
  | inl e ↦ rw e (without-All P p claims hs)
  | inr e ↦ rw e (h, without-All P p claims hs)
]

guard_without-other : (p q : ℕ) → q ≢ p → guard_without p (some q) ≡ some q
unfolding guard_without
guard_without-other p q apart = elim (Bool-cases (q == p)) [
  | inl e ↦ absurd (apart ((==_iff q p).0 e))
  | inr e ↦ rw e refl
]

die-Safe : (s : Shared) (p : ℕ) → Safe s → Safe (die p s)
unfolding die
die-Safe s p h = record {
  exclusive =
      set_phase-cases p idle s.phase (λ q phase. IsBusy phase → guard_without p s.guard ≡ some q)
        (λ b. elim b [ ])
        (λ q apart b. ap (guard_without p) (h.exclusive q b) ∙ guard_without-other p q apart);
  alone = λ q own.
      set_phase-cases p idle s.phase
        (λ r phase. phase ≡ removing own → All (IsOwn own) (without p s.claims)) (λ e. cc)
        (λ r apart e. without-All (IsOwn own) p s.claims (h.alone r own e)) q;
  named = without-All IsNamed p s.claims h.named;
}

busy_guard :
    (s : Shared) (p : ℕ) (phase : Phase)
    → Safe s
    → s.phase p ≡ phase
    → IsBusy phase
    → s.guard ≡ some p
busy_guard s p phase h e b = h.exclusive p (subst IsBusy (sym e) b)

planned-Safe :
    (s : Shared) (p : ℕ) (own : Option Text) (mode : CleanupMode)
    → Safe s
    → s.guard ≡ some p
    → (mode ≡ full → All (IsOwn own) s.claims)
    → Safe (planned p own mode s)
unfolding planned
planned-Safe s p own full h g alone = removing-Safe s p own h g (alone refl)
planned-Safe s p own data_only h g alone = release-Safe s p s.claims s.tree h g h.named
planned-Safe s p own keep h g alone = release-Safe s p s.claims s.tree h g h.named

module _ (dir : FilePath) where
  pub Step-Safe : {s t : Shared} → Step dir s t → Safe s → Safe t
  unfolding claim_slot remove_tree
  Step-Safe {s = s} (begin_claim p g) h = acquire-Safe s p claiming h g (λ own e. cc)
  Step-Safe {s = s} (end_claim p pid nanos count (err e) new c) h =
      release-Safe s p s.claims s.tree h (busy_guard s p claiming h c tt) h.named
  Step-Safe {s = s} (end_claim p pid nanos count (ok swept) new c) h =
      claim_locked-Safe s p (slot_name pid nanos count) (lock_new_slot new) h
        (busy_guard s p claiming h c tt) (slot_name-NonEmpty pid nanos count)
  Step-Safe {s = s} (provision p before after name e) h = record {
    exclusive = h.exclusive;
    alone = h.alone;
    named = h.named;
  }
  Step-Safe {s = s} (begin_cleanup p g) h = acquire-Safe s p planning h g (λ own e. cc)
  Step-Safe {s = s} (plan p host settings own c belongs shows) h =
      planned-Safe s p own (plan_cleanup host full settings).mode h (busy_guard s p planning h c tt)
        (plan_cleanup-alone dir host settings own s.claims belongs shows h.named)
  Step-Safe {s = s} (remove p own c) h =
      release-Safe s p s.claims false h (busy_guard s p (removing own) h c tt) h.named
  Step-Safe {s = s} (death p) h = die-Safe s p h

  pub Reach-Safe : {s : Shared} → Reach dir initial s → Safe s
  Reach-Safe here = initial-Safe
  Reach-Safe (next before step) = Step-Safe step (Reach-Safe before)
