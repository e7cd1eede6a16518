-- ===== src/Claims/Probe.antt =====
-- A probe for live peers sees every other slot that is locked all the while.
use mathlib.Core.Option.{some-injective}
use pg_embed_setup_unpriv.Prelude.{
  ◌≡◌, refl, sym, ap, subst, ◌∙◌, inl, inr, Bool, false, Option, none, some, List, [], ◌∷◌, ◌++◌,
  ◌==◌, ==_iff, ==_refl, list_eq, nat_eq, All, All-middle, arith, Bool-cases, ℕ, length,
  length-append,
}
use pg_embed_setup_unpriv.Prelude.Texts.{Text, NonEmpty}
use pg_embed_setup_unpriv.Slots.{
  LockFile, free, held, unusable, named, strip_suffix, nonempty, lock_stem,
}
use pg_embed_setup_unpriv.Cleanup.{full, Settings, Host, slot, not_slot, plan_cleanup}
use pg_embed_setup_unpriv.Cleanup.Paths.{FilePath}
use pg_embed_setup_unpriv.Cleanup.Laws.{NotHeld, NoneHeld, IsAlone, plan_cleanup-full}
use pg_embed_setup_unpriv.Claims.{Claim, lock_suffix, Shows, Belongs}
use pg_embed_setup_unpriv.Claims.Spec.{IsOwn}

strip_suffix_self : (suffix : Text) → strip_suffix suffix suffix ≡ some []
unfolding strip_suffix list_eq
strip_suffix_self [] = refl
strip_suffix_self (c ∷ suffix) = rw (==_refl (c ∷ suffix)) refl

longer : (c : ℕ) (name suffix : Text) → (suffix == c ∷ (name ++ suffix)) ≡ false
longer c name suffix = elim (Bool-cases (suffix == c ∷ (name ++ suffix))) [
  | inl e ↦ absurd (
      omega
        (arith, ap length ((==_iff suffix (c ∷ (name ++ suffix))).0 e), length-append name suffix))
  | inr e ↦ e
]

strip_suffix-append : (suffix name : Text) → strip_suffix suffix (name ++ suffix) ≡ some name
unfolding strip_suffix list_eq
strip_suffix-append suffix [] = strip_suffix_self suffix
strip_suffix-append suffix (c ∷ name) =
    rw (strip_suffix-append suffix name) (rw (longer c name suffix) refl)

lock_stem-slot :
    (name : Text) → NonEmpty name → lock_stem (named (some (name ++ lock_suffix))) ≡ some name
unfolding lock_stem nonempty
lock_stem-slot [] h = elim h [ ]
lock_stem-slot (c ∷ name) h = rw (strip_suffix-append lock_suffix (c ∷ name)) refl

slot-injective : (a b : FilePath) → slot a ≡ slot b → a ≡ b
slot-injective a b h = cc

slot-is_not-not_slot : (a : FilePath) → slot a ≡ not_slot → ⊥
slot-is_not-not_slot a h = cc

not_both : (lock : LockFile) → lock ≡ free → lock ≡ held → ⊥
not_both free h k = cc
not_both held h k = cc
not_both unusable h k = cc

module _ (dir : FilePath) (host : Host) where
  seen :
      (own : Option Text) (claims : List Claim)
      → Shows dir host claims
      → All (λ (c : Claim). NonEmpty c.name) claims
      → NoneHeld host dir own
      → All (IsOwn own) claims
  seen own [] shows h none_held = tt
  seen own (claim ∷ claims) shows (h, hs) (entries, listed, unheld) =
      let ((before, after, e), is_held) = (shows entries listed).0 in
      (
        elim (All-middle (NotHeld host dir own) before after
            (subst (All (NotHeld host dir own)) e unheld) claim.name
            (lock_stem-slot claim.name h)) [
              | inl o ↦ o
              | inr f ↦ absurd (not_both (host.lock dir claim.name) f is_held)
            ],
        seen own claims (λ es l. (shows es l).1) hs (entries, listed, unheld),
      )

  -- A full plan is made only if all slots that are locked are the cleanup's own.
  pub plan_cleanup-alone :
      (settings : Settings) (own : Option Text) (claims : List Claim)
      → Belongs dir host settings own
      → Shows dir host claims
      → All (λ (c : Claim). NonEmpty c.name) claims
      → (plan_cleanup host full settings).mode ≡ full
      → All (IsOwn own) claims
  plan_cleanup-alone settings own claims belongs shows names h =
      both (plan_cleanup host full settings).guard belongs
        (plan_cleanup-full host full settings h).1
    where
      both :
          (guard : Bool)
          → Belongs dir host settings own
          → IsAlone host settings guard
          → All (IsOwn own) claims
      both guard (inl (b, o)) (inl (other, e, _, _, unheld)) =
          let same : other ≡ dir = slot-injective other dir (sym e ∙ b) in
          seen own claims shows names
            (subst (λ d. NoneHeld host d own) same (subst (NoneHeld host other) o unheld))
      both guard (inl (b, o)) (inr (e, _)) = absurd (slot-is_not-not_slot dir (sym b ∙ e))
      both guard (inr (b, _, _, _)) (inl (other, e, _, _, _)) =
          absurd (slot-is_not-not_slot other (sym e ∙ b))
      both guard (inr (b, d, apart, o)) (inr (_, inl (other, e, _, _, _, unheld))) =
          let same : other ≡ dir = some-injective _ _ (sym e ∙ d) in
          seen own claims shows names
            (subst (NoneHeld host dir) (sym o) (subst (λ x. NoneHeld host x none) same unheld))
      both guard (inr (b, d, apart, o)) (inr (_, inr (inl e, _))) = absurd (nothing (sym e ∙ d))
        where
          nothing : none ≡ some dir → ⊥
          nothing k = cc
      both guard (inr (b, d, apart, o)) (inr (_, inr (inr e, _))) =
          absurd (apart (some-injective _ _ (sym d ∙ e)))
