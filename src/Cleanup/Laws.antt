-- ===== src/Cleanup/Laws.antt =====
-- A cleanup never removes the install tree that another live cluster runs from.
use pg_embed_setup_unpriv.Prelude.{
  ◌≡◌, ◌≢◌, refl, sym, ap, subst, ◌∙◌, ◌⊎◌, inl, inr, Bool, true, false, not, ◌&&◌, Option, none,
  some, List, [], ◌∷◌, ◌==◌, ==_iff, list_eq, nat_eq, if◌then◌else◌, All, arith, Bool-cases,
}
use pg_embed_setup_unpriv.Prelude.Texts.{Text}
use pg_embed_setup_unpriv.Slots.{LockFile, free, is_free, DirEntry, unreadable, named, lock_stem}
use pg_embed_setup_unpriv.Cleanup.{
  CleanupMode, data_only, full, keep, Settings, Host, SlotLookup, slot, not_slot, unknown, differs,
  slot_lookup_at, slot_lookup, guard_for, claim_guard_for, stem_held, entry_held, any_entry_held,
  held_in, any_slot_held, peers_of, has_live_peers, has_live_slots_in, derived_slot_parent, kept,
  shared_parent, plan_beside, plan_for_unslotted, plan_guarded, plan_cleanup,
}
use pg_embed_setup_unpriv.Cleanup.Paths.{
  FilePath, parent, file_name, beq_path, beq_path_sound, beq_path_refl,
}

module _ (host : Host) where
  -- An entry that was read and is no slot, `own` slot, or a slot without an owner.
  abbrev pub NotHeld : FilePath → Option Text → DirEntry → Type 0
  NotHeld dir own unreadable = ⊥
  NotHeld dir own (named name) =
      (stem : Text)
      → lock_stem (named name) ≡ some stem
      → (some stem ≡ own) ⊎ (host.lock dir stem ≡ free)

  -- No other live cluster has a slot in the directory, as far as a complete listing shows.
  abbrev pub NoneHeld : FilePath → Option Text → Type 0
  NoneHeld dir own =
      (entries : List DirEntry) × (host.read_dir dir ≡ some entries) × All (NotHeld dir own) entries

  -- The install tree has a slot parent beside it, apart from the data directory; then its guard is
  -- held and no live slot is in it. Or it has none, and then no guard is held.
  abbrev pub Beside : FilePath → Option FilePath → Bool → Type 0
  Beside data_dir derived guard =
      ((dir : FilePath) × (derived ≡ some dir)
        × (dir ≢ data_dir)
        × (guard ≡ true)
        × (host.can_guard dir ≡ true)
        × NoneHeld dir none)
      ⊎ (((derived ≡ none) ⊎ (derived ≡ some data_dir)) × (guard ≡ false))

  -- The data directory is a slot, the guard of its parent is held, and no other live slot is in that;
  -- or it is no slot, and the slot parent beside the install tree is so.
  abbrev pub IsAlone : Settings → Bool → Type 0
  IsAlone settings guard =
      ((dir : FilePath) × (slot_lookup host settings.data_dir ≡ slot dir)
        × (guard ≡ true)
        × (host.can_guard dir ≡ true)
        × NoneHeld dir (file_name settings.data_dir))
      ⊎ ((slot_lookup host settings.data_dir ≡ not_slot)
          × Beside settings.data_dir (derived_slot_parent settings.installation_dir) guard)

  is_free-free : (state : LockFile) → is_free state ≡ true → state ≡ free
  unfolding is_free
  is_free-free state h = ground arith

  stem_held-false :
      (dir : FilePath) (own : Option Text) (stem : Text)
      → stem_held host dir own (some stem) ≡ false
      → (some stem ≡ own) ⊎ (host.lock dir stem ≡ free)
  unfolding stem_held differs list_eq
  stem_held-false dir none stem h = inr (is_free-free (host.lock dir stem) (ground arith))
  stem_held-false dir (some own) stem h = elim (Bool-cases (stem == own)) [
    | inl e ↦ inl (ap some ((==_iff stem own).0 e))
    | inr e ↦ inr (is_free-free (host.lock dir stem) (ground (arith, e)))
  ]

  any_entry_held-false :
      (dir : FilePath) (own : Option Text) (entries : List DirEntry)
      → any_entry_held host dir own entries ≡ false
      → All (NotHeld dir own) entries
  unfolding any_entry_held entry_held
  any_entry_held-false dir own [] h = tt
  any_entry_held-false dir own (unreadable ∷ entries) h = cc
  any_entry_held-false dir own (named name ∷ entries) h =
      let first : stem_held host dir own (lock_stem (named name)) ≡ false = ground arith in
      (
        λ stem e. stem_held-false dir own stem (rw e at first),
        any_entry_held-false dir own entries (ground arith),
      )

  any_slot_held-false :
      (dir : FilePath) (own : Option Text) → any_slot_held host dir own ≡ false → NoneHeld dir own
  unfolding any_slot_held held_in
  any_slot_held-false dir own h = listed (host.read_dir dir) refl h
    where
      listed :
          (r : Option (List DirEntry))
          → host.read_dir dir ≡ r
          → held_in host dir own r ≡ false
          → NoneHeld dir own
      listed none e g = cc
      listed (some entries) e g = (entries, e, any_entry_held-false dir own entries g)

  slot_lookup_at-named :
      (above : Option FilePath) (own : Option Text) (dir : FilePath)
      → slot_lookup_at host above own ≡ slot dir
      → (name : Text) × (own ≡ some name)
  unfolding slot_lookup_at
  slot_lookup_at-named (some above) (some own) dir h = (own, refl)
  slot_lookup_at-named (some above) none dir h = cc
  slot_lookup_at-named none own dir h = cc

  no_peers :
      (dir : FilePath) (own : Option Text) (name : Text)
      → own ≡ some name
      → peers_of host (slot dir) own ≡ false
      → NoneHeld dir own
  unfolding peers_of
  no_peers dir none name e h = cc
  no_peers dir (some own) name e h = any_slot_held-false dir (some own) h

  guarded-full :
      (b : Bool)
      → (if b then record { mode = full; guard = true } else kept).mode ≡ full
      → (b ≡ true) × ((if b then record { mode = full; guard = true } else kept).guard ≡ true)
  guarded-full true h = (refl, refl)
  guarded-full false h = cc

  beside :
      (data_dir : FilePath) (derived : Option FilePath)
      → (plan_beside host (shared_parent host data_dir derived)).mode ≡ full
      → Beside data_dir derived (plan_beside host (shared_parent host data_dir derived)).guard
  unfolding shared_parent plan_beside has_live_slots_in
  beside data_dir none h = inr (inl refl, refl)
  beside data_dir (some dir) h = elim (Bool-cases (beq_path dir data_dir)) [
    | inl b ↦ rw b (inr (inr (ap some (beq_path_sound dir data_dir b)), refl))
    | inr b ↦
        let (both, guard) =
          guarded-full (host.can_guard dir && not (any_slot_held host dir none)) (rw b at h) in
        rw b (
          inl (
            dir,
            refl,
            (λ e. clash (sym b ∙ subst (λ d. beq_path dir d ≡ true) e (beq_path_refl dir))),
            guard,
            ground (arith, both),
            any_slot_held-false dir none (ground (arith, both)),
          ))
  ]
    where
      clash : ◌≡◌ {A = Bool} false true → ⊥
      clash k = cc

  plan_guarded-full :
      (settings : Settings) (lookup : SlotLookup)
      → slot_lookup host settings.data_dir ≡ lookup
      → (plan_guarded host settings (guard_for host lookup)).mode ≡ full
      → IsAlone settings (plan_guarded host settings (guard_for host lookup)).guard
  unfolding plan_guarded guard_for has_live_peers plan_for_unslotted slot_lookup
  plan_guarded-full settings not_slot e h =
      inr (e, beside settings.data_dir (derived_slot_parent settings.installation_dir) h)
  plan_guarded-full settings unknown e h = cc
  plan_guarded-full settings (slot dir) e h =
      let (both, guard) =
        guarded-full (host.can_guard dir && not (has_live_peers host settings.data_dir)) h in
      let peers : peers_of host (slot_lookup host settings.data_dir) (file_name settings.data_dir)
          ≡ false =
        ground (arith, both) in
      let (name, own) =
        slot_lookup_at-named (parent settings.data_dir) (file_name settings.data_dir) dir e in
      inl (
        dir,
        e,
        guard,
        ground (arith, both),
        no_peers dir (file_name settings.data_dir) name own
            (subst (λ l. peers_of host l (file_name settings.data_dir) ≡ false) e peers),
      )

-- A cleanup is planned as a full one only if a full one was asked for. If the data directory is a
-- slot, the plan then holds the claim guard of its parent, and a complete listing of that shows no
-- other slot whose lock is held. If it is no slot, the same holds of the slot parent beside the
-- install tree; only if there is none apart from the data directory, the plan holds no guard and
-- lists nothing.
pub plan_cleanup-full :
    (host : Host) (requested : CleanupMode) (settings : Settings)
    → (plan_cleanup host requested settings).mode ≡ full
    → (requested ≡ full) × IsAlone host settings (plan_cleanup host requested settings).guard
unfolding plan_cleanup claim_guard_for
plan_cleanup-full host full settings h =
    (refl, plan_guarded-full host settings (slot_lookup host settings.data_dir) refl h)
plan_cleanup-full host data_only settings h = cc
plan_cleanup-full host keep settings h = cc
