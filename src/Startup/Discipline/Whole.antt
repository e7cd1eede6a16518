-- ===== src/Startup/Discipline/Whole.antt =====
-- A whole start keeps the discipline, and leaves neither its lock nor, if it fails, its watcher.
use pg_embed_setup_unpriv.Prelude.{
  ◌≡◌, refl, sym, subst, inl, inr, Bool, true, false, [], All, arith,
}
use pg_embed_setup_unpriv.Prelude.Texts.{Text}
use pg_embed_setup_unpriv.Error.{Result, ok, err}
use pg_embed_setup_unpriv.Retry.{BootstrapError}
use pg_embed_setup_unpriv.Fallible.{◌>>=◌, ◌>>◌, Post, Post-of, Triple, Triple-bind, Triple-then}
use pg_embed_setup_unpriv.Installation.{ExecutionPrivileges, root, unprivileged}
use pg_embed_setup_unpriv.Cache.Use.{Settings, try_use_binary_cache, try_use_binary_cache-IsUse}
use pg_embed_setup_unpriv.Startup.{
  take_lock, Machine, World, InstallLock, held, logged, install_root, taken, acquire_at,
  after_cache_lookup, cache_lookup, look_in_cache, watch_for_owner_death, release_owner_watcher,
}
use pg_embed_setup_unpriv.Startup.Hook.{PostSetup, run_post_setup}
use pg_embed_setup_unpriv.Startup.Lifecycle.{
  StartupOutcome, invoke_root_operation, invoke_unprivileged_operation, lifecycle_as,
  handle_privilege_lifecycle, after_lifecycle, lifecycle_after_lookup, start_postgres, setup_as,
  setup_with_privileges, setup_lifecycle,
}
use pg_embed_setup_unpriv.Startup.Discipline.{
  Guarded, NotInstall, Pristine, Kept, Ready, unlocked_at_end-Kept,
}
use pg_embed_setup_unpriv.Startup.Discipline.Hook.{
  setup_Ready, acquire_at-locked, run_post_setup-Kept,
}
use pg_embed_setup_unpriv.Startup.Discipline.Starts.{lifecycle_as-Kept}

-- What the lookup in the cache leaves: after a hit the settings trust the tree.
record Looked {V : Type 0} (hit : Bool) (s : Machine V) : Type 0 where
  kept : Kept false s
  early : All NotInstall s.log
  lock : s.locked ≡ true
  trusted : hit ≡ true → s.bootstrap.settings.trust_installation_dir ≡ true

-- A start before its first step.
pub record Fresh {V : Type 0} (s : Machine V) : Type 0 where
  pub unlocked : s.locked ≡ false
  pub unwatched : s.watching ≡ false
  pub nothing : s.log ≡ []

module _ {V : Type 0} (world : World V) where
  used_trusted :
      (settings : Settings V)
      → (try_use_binary_cache world.cache world.semver settings).0 ≡ true
      → (try_use_binary_cache world.cache world.semver settings).1.trust_installation_dir ≡ true
  used_trusted settings h = elim (try_use_binary_cache-IsUse world.cache world.semver settings) [
    | inl (_, (v, version, found, used)) ↦ used.trusted
    | inr (miss, _) ↦ absurd (ground (arith, h, miss))
  ]

  look_in_cache-Looked :
      Triple
        (λ s. Kept false s × All NotInstall s.log × (s.locked ≡ true))
        (look_in_cache world)
        Looked
        (Kept false)
  unfolding look_in_cache cache_lookup
  look_in_cache-Looked s (h, early, l) = record {
    kept = record { watch = h.watch; guarded = (l, h.guarded); pristine = h.pristine };
    early = (tt, early);
    lock = l;
    trusted = used_trusted s.bootstrap.settings;
  }

  abbrev LookedLock : Bool → InstallLock → Machine V → Type 0
  LookedLock hit lock = Ready false (record { cache_hit = hit; install_lock = lock })

  after_cache_lookup-Ready :
      (dir : Text) (hit : Bool)
      → Triple (Looked hit) (after_cache_lookup world hit dir) (LookedLock hit) (Kept false)
  unfolding after_cache_lookup
  after_cache_lookup-Ready dir true s h = record {
    kept = record { watch = h.kept.watch; guarded = h.kept.guarded; pristine = h.kept.pristine };
    early = h.early;
    lock = refl;
    fills = inr (h.trusted refl);
    miss = λ e. cc;
  }
  after_cache_lookup-Ready dir false s h = record {
    kept = h.kept;
    early = h.early;
    lock = h.lock;
    fills = inl h.lock;
    miss = λ e. h.lock;
  }

  abbrev armed : Bool
  armed = world.can_watch

  watch-Ready :
      (post : PostSetup)
      → Triple (Ready false post) (watch_for_owner_death world) (λ _. Ready armed post) (Kept false)
  unfolding watch_for_owner_death
  watch-Ready post s h = record {
    kept = record { watch = refl; guarded = h.kept.guarded; pristine = h.kept.pristine };
    early = h.early;
    lock = h.lock;
    fills = h.fills;
    miss = h.miss;
  }

  after_lifecycle-Kept :
      (hit : Bool) (r : Result BootstrapError (StartupOutcome V) × Machine V)
      → Post (λ _. Kept armed) (Kept armed) r
      → Post (λ _. Kept armed) (Kept false) (after_lifecycle world hit r)
  unfolding after_lifecycle release_owner_watcher
  after_lifecycle-Kept hit (ok outcome, s) h = h
  after_lifecycle-Kept hit (err e, s) h = record {
    watch = refl;
    guarded = h.guarded;
    pristine = h.pristine;
  }

  lifecycle_after_lookup-Kept :
      (hit : Bool) (lock : InstallLock)
      → Triple
          (Ready armed (record { cache_hit = hit; install_lock = lock }))
          (lifecycle_after_lookup world hit lock)
          (λ _. Kept armed)
          (Kept false)
  unfolding lifecycle_after_lookup handle_privilege_lifecycle
  lifecycle_after_lookup-Kept hit lock s h =
      after_lifecycle-Kept hit
        (lifecycle_as world s.bootstrap.privileges s.bootstrap.settings
          (record { cache_hit = hit; install_lock = lock }) s)
        (lifecycle_as-Kept world armed s.bootstrap.privileges s.bootstrap.settings
          (record { cache_hit = hit; install_lock = lock }) s h)

  -- The part of the start that owns the lock.
  locked_part-Kept :
      (dir : Text)
      → Triple
          (λ s. Kept false s × All NotInstall s.log × (s.locked ≡ true))
          (look_in_cache world >>= λ cache_hit.
            after_cache_lookup world cache_hit dir >>= λ install_lock.
            watch_for_owner_death world >> lifecycle_after_lookup world cache_hit install_lock)
          (λ _. Kept armed)
          (Kept false)
  locked_part-Kept dir =
      Triple-bind (λ s. Kept false s × All NotInstall s.log × (s.locked ≡ true)) Looked
        (λ _. Kept armed) (Kept false) (look_in_cache world) _ look_in_cache-Looked
        (λ hit.
          Triple-bind (Looked hit) (LookedLock hit) (λ _. Kept armed) (Kept false)
            (after_cache_lookup world hit dir) _ (after_cache_lookup-Ready dir hit)
            (λ lock.
              Triple-then (LookedLock hit lock)
                (Ready armed (record { cache_hit = hit; install_lock = lock })) (λ _. Kept armed)
                (Kept false) (watch_for_owner_death world) (lifecycle_after_lookup world hit lock)
                (watch-Ready (record { cache_hit = hit; install_lock = lock }))
                (lifecycle_after_lookup-Kept hit lock)))

  abbrev pub IsEnd : Bool → Machine V → Type 0
  IsEnd watched s = Kept watched s × (s.locked ≡ false)

  Fresh-Kept : (s : Machine V) → Fresh s → Kept false s × All NotInstall s.log
  Fresh-Kept s h = (
    record {
      watch = h.unwatched;
      guarded = subst (All Guarded) (sym h.nothing) tt;
      pristine = subst Pristine (sym h.nothing) tt;
    },
    subst (All NotInstall) (sym h.nothing) tt,
  )

  -- No step that takes the lock installs anything.
  acquire_at-early :
      (dir : Text) (s : Machine V)
      → All NotInstall s.log
      → All NotInstall (acquire_at world dir s).1.log
  unfolding acquire_at taken
  acquire_at-early dir s h = outcome (world.take_lock dir s.log)
    where
      outcome :
          (r : Result BootstrapError Unit)
          → All NotInstall (taken world r (logged (take_lock dir) s)).1.log
      outcome (ok u) = (tt, h)
      outcome (err e) = (tt, h)

  first_lock :
      (dir : Text)
      → Triple Fresh
          (acquire_at world dir)
          (λ _ s. Kept false s × All NotInstall s.log × (s.locked ≡ true))
          (IsEnd false)
  first_lock dir s h =
      let (kept, early) = Fresh-Kept s h in
      both (acquire_at world dir s) (acquire_at-locked world false dir s (kept, h.unlocked))
        (acquire_at-early dir s early)
    where
      both :
          (r : Result BootstrapError Unit × Machine V)
          → Post (λ _ t. Kept false t × (t.locked ≡ true)) (IsEnd false) r
          → All NotInstall r.1.log
          → Post (λ _ t. Kept false t × All NotInstall t.log × (t.locked ≡ true)) (IsEnd false) r
      both (ok u, t) (k, l) e = (k, e, l)
      both (err e, t) k _ = k

  install_root-Fresh : Triple Fresh (install_root world) (λ _. Fresh) (IsEnd false)
  unfolding install_root
  install_root-Fresh s h =
      Post-of (λ _. Fresh) (IsEnd false) _ s (λ _. h) ((Fresh-Kept s h).0, h.unlocked)

  -- A start uses the cache, fills the cache and installs extensions only while it holds the setup
  -- lock, and runs `Setup` only then or with an install tree that the settings trust. It never waits
  -- for the lock while it holds it, and it fills the cache only before it installs extensions. When
  -- it returns, with a server or with an error at any step, it does not hold the lock; after an
  -- error its watcher is not armed, and with a server the watcher is armed where that is possible.
  pub start_postgres-IsEnd :
      (s : Machine V)
      → Fresh s
      → Post (λ _. IsEnd world.can_watch) (IsEnd false) (start_postgres world s)
  unfolding start_postgres
  start_postgres-IsEnd =
      Triple-bind Fresh (λ _. Fresh) (λ _. IsEnd armed) (IsEnd false) (install_root world) _
        install_root-Fresh
        (λ dir.
          Triple-then Fresh (λ s. Kept false s × All NotInstall s.log × (s.locked ≡ true))
            (λ _. IsEnd armed) (IsEnd false) (acquire_at world dir) _ (first_lock dir)
            (λ s h. unlocked_at_end-Kept armed false _ (locked_part-Kept dir s h)))

  setup_as-Ready :
      (post : PostSetup) (privileges : ExecutionPrivileges) (embedded : Settings V)
      → Triple
          (Ready false post)
          (setup_as world privileges embedded)
          (λ _. Ready false post)
          (Kept false)
  unfolding setup_as invoke_root_operation invoke_unprivileged_operation
  setup_as-Ready post root embedded =
      setup_Ready world false post (invoke_root_operation world) (λ step s. refl)
  setup_as-Ready post unprivileged embedded =
      setup_Ready world false post (invoke_unprivileged_operation world embedded) (λ step s. refl)

  Looked-Ready :
      (hit : Bool) (s : Machine V)
      → Looked hit s
      → Ready false (record { cache_hit = hit; install_lock = held }) s
  Looked-Ready hit s h = record {
    kept = h.kept;
    early = h.early;
    lock = h.lock;
    fills = inl h.lock;
    miss = λ e. h.lock;
  }

  -- A setup without a start keeps the same discipline: it ends without the lock and arms no watcher.
  setup_lifecycle-IsEnd :
      (s : Machine V) → Fresh s → Post (λ _. IsEnd false) (IsEnd false) (setup_lifecycle world s)
  unfolding setup_lifecycle setup_with_privileges
  setup_lifecycle-IsEnd =
      Triple-bind Fresh (λ _. Fresh) (λ _. IsEnd false) (IsEnd false) (install_root world) _
        install_root-Fresh
        (λ dir.
          Triple-then Fresh (λ s. Kept false s × All NotInstall s.log × (s.locked ≡ true))
            (λ _. IsEnd false) (IsEnd false) (acquire_at world dir) _ (first_lock dir)
            (λ s h. unlocked_at_end-Kept false false _ (
              Triple-bind (λ s. Kept false s × All NotInstall s.log × (s.locked ≡ true)) Looked
                (λ _. Kept false) (Kept false) (look_in_cache world) _ look_in_cache-Looked
                (λ hit.
                  let post : PostSetup = record { cache_hit = hit; install_lock = held } in
                  Triple-then (Looked hit) (Ready false post) (λ _. Kept false) (Kept false)
                    (setup_with_privileges world) (run_post_setup world post)
                    (λ t l.
                      setup_as-Ready post t.bootstrap.privileges t.bootstrap.settings t
                        (Looked-Ready hit t l))
                    (run_post_setup-Kept world false post))
                s h)))
