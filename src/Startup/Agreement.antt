-- ===== src/Startup/Agreement.antt =====
-- The asynchronous start does what the synchronous one does, but for the mark on its errors.
use pg_embed_setup_unpriv.Prelude.{
  ◌≡◌, refl, sym, ap, Bool, true, false, Option, none, some, List, if◌then◌else◌,
}
use pg_embed_setup_unpriv.Prelude.Texts.{Text}
use pg_embed_setup_unpriv.Error.{Result, ok, err}
use pg_embed_setup_unpriv.Retry.{BootstrapError}
use pg_embed_setup_unpriv.Fallible.{
  ◌>>◌, Post, Post-of, Post-always, Post-weaken, Triple, Triple-bind, Triple-then, continue-eq,
}
use pg_embed_setup_unpriv.Installation.{ExecutionPrivileges}
use pg_embed_setup_unpriv.Bootstrap.{ExtensionRequest, InstalledExtension}
use pg_embed_setup_unpriv.Startup.{
  LifecycleStep, setup, start, Machine, World, Run, InstallLock, held, released, logged, populate,
  install, take_lock, unlocked_at_end, scoped, taken, acquire_at,
}
use pg_embed_setup_unpriv.Startup.Hook.{
  PostSetup, with_dir, refresh_dir, populate_cache_on_miss, extension_target, for_hook, installed,
  install_into, install_declared, run_post_setup,
}
use pg_embed_setup_unpriv.Startup.Lifecycle.{refresh_port, run_lifecycle_steps}
use pg_embed_setup_unpriv.Startup.Twins.{
  for_hook_async, install_declared_async, run_post_setup_async,
}

module _ {V : Type 0} (world : World V) where
  for_hook_async-eq :
      {A : Type 0} (lock : InstallLock) (body : Run V A)
      → for_hook_async world lock body ≡ for_hook world lock body
  unfolding for_hook_async for_hook
  for_hook_async-eq held body = refl
  for_hook_async-eq (released dir) body = refl

  install_declared_async-eq :
      (post : PostSetup) (target : Option (ExtensionRequest × Text))
      → install_declared_async world post target ≡ install_declared world post target
  unfolding install_declared_async install_declared
  install_declared_async-eq post none = refl
  install_declared_async-eq post (some (request, dir)) =
      for_hook_async-eq post.install_lock (install_into world request dir)

  run_post_setup_async-eq :
      (post : PostSetup) (s : Machine V)
      → run_post_setup_async world post s ≡ run_post_setup world post s
  unfolding run_post_setup_async run_post_setup
  run_post_setup_async-eq post s =
      let prefix =
        (refresh_dir world >> populate_cache_on_miss world post >> extension_target world) s in
      continue-eq prefix prefix (install_declared_async world post) (install_declared world post)
        refl
        (Post-always _ prefix (λ target t. ap (λ f. f t) (install_declared_async-eq post target)))

  -- The steps of a lifecycle agree if its operations do, where `I` holds.
  module _ (I : Machine V → Type 0) (post : PostSetup)
      (d d' : LifecycleStep → Run V (Unit {0})) where
    abbrev KeptBy : {A : Type 0} → Run V A → Type 0
    KeptBy m = Triple I m (λ _. I) (λ _. Unit)

    pub steps-eq :
        ((step : LifecycleStep) (s : Machine V) → I s → d' step s ≡ d step s)
        → KeptBy (d setup)
        → KeptBy (run_post_setup world post)
        → (s : Machine V) → I s
        → run_lifecycle_steps world post d s
          ≡ (d' setup >> run_post_setup_async world post >> d' start >> refresh_port world) s
    unfolding run_lifecycle_steps
    steps-eq same first second s h =
        continue-eq _ _ (λ _. refresh_port world) (λ _. refresh_port world)
          (continue-eq _ _ (λ _. d start) (λ _. d' start)
            (continue-eq (d setup s) (d' setup s) (λ _. run_post_setup world post)
              (λ _. run_post_setup_async world post) (sym (same setup s h))
              (Post-always _ (d setup s) (λ _ t. sym (run_post_setup_async-eq post t))))
            (Post-weaken (λ _. I) (λ _ t. d start t ≡ d' start t) (λ _. Unit) (λ _. Unit)
              ((d setup >> run_post_setup world post) s)
              (Triple-then I I (λ _. I) (λ _. Unit) (d setup) (run_post_setup world post) first
                second s h)
              (λ _ t i. sym (same start t i)) (λ _ _. tt)))
          (Post-always _ _ (λ _ _. refl))

  abbrev pub IsAs : ExecutionPrivileges → Machine V → Type 0
  IsAs privileges s = s.bootstrap.privileges ≡ privileges

  -- Nothing before `Start` changes the privileges.
  module _ (p : ExecutionPrivileges) where
    abbrev KeepsAs : {A : Type 0} → Run V A → Type 0
    KeepsAs m = Triple (IsAs p) m (λ _. IsAs p) (λ _. Unit)

    install_into-KeepsAs :
        (request : ExtensionRequest) (dir : Text) → KeepsAs (install_into world request dir)
    unfolding install_into installed
    install_into-KeepsAs request dir s h = outcome (world.install_extensions request dir)
      where
        outcome :
            (r : Result BootstrapError (List InstalledExtension))
            → Post (λ _. IsAs p) (λ _. Unit) (installed world r (logged (install dir) s))
        outcome (ok extensions) = h
        outcome (err e) = tt

    acquire_at-KeepsAs : (dir : Text) → KeepsAs (acquire_at world dir)
    unfolding acquire_at taken
    acquire_at-KeepsAs dir s h = outcome (world.take_lock dir s.log)
      where
        outcome :
            (r : Result BootstrapError Unit)
            → Post (λ _. IsAs p) (λ _. Unit) (taken world r (logged (take_lock dir) s))
        outcome (ok u) = h
        outcome (err e) = tt

    scoped-KeepsAs : {A : Type 0} (m : Run V A) → KeepsAs m → KeepsAs (scoped m)
    scoped-KeepsAs {A = A} m h s i = dropped (m s) (h s i)
      where
        dropped :
            (r : Result BootstrapError A × Machine V)
            → Post (λ _. IsAs p) (λ _. Unit) r
            → Post (λ _. IsAs p) (λ _. Unit) (unlocked_at_end r)
        dropped (ok a, t) k = k
        dropped (err e, t) k = tt

    install_declared-KeepsAs :
        (post : PostSetup) (target : Option (ExtensionRequest × Text))
        → KeepsAs (install_declared world post target)
    unfolding install_declared for_hook
    install_declared-KeepsAs post none = λ s h. h
    install_declared-KeepsAs post (some (request, dir)) = hooked post.install_lock
      where
        hooked :
            (lock : InstallLock) → KeepsAs (for_hook world lock (install_into world request dir))
        hooked held = install_into-KeepsAs request dir
        hooked (released other) =
            Triple-then (IsAs p) (IsAs p) (λ _. IsAs p) (λ _. Unit) (acquire_at world other)
              (scoped (install_into world request dir)) (acquire_at-KeepsAs other)
              (scoped-KeepsAs _ (install_into-KeepsAs request dir))

    populate-KeepsAs : (post : PostSetup) → KeepsAs (populate_cache_on_miss world post)
    unfolding populate_cache_on_miss
    populate-KeepsAs post s h = populated post.cache_hit
      where
        populated :
            (hit : Bool)
            → IsAs p (if hit then s else logged (populate s.bootstrap.settings.installation_dir) s)
        populated true = h
        populated false = h

    pub run_post_setup-KeepsAs : (post : PostSetup) → KeepsAs (run_post_setup world post)
    unfolding run_post_setup refresh_dir with_dir extension_target
    run_post_setup-KeepsAs post =
        Triple-bind (IsAs p) (λ _. IsAs p) (λ _. IsAs p) (λ _. Unit) _ (install_declared world post)
          (Triple-then (IsAs p) (IsAs p) (λ _. IsAs p) (λ _. Unit) _ (extension_target world)
            (Triple-then (IsAs p) (IsAs p) (λ _. IsAs p) (λ _. Unit) (refresh_dir world)
              (populate_cache_on_miss world post) (λ s h. h) (populate-KeepsAs post))
            (λ s h. Post-of (λ _. IsAs p) (λ _. Unit) _ s (λ _. h) tt))
          (install_declared-KeepsAs post)
