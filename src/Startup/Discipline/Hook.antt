-- ===== src/Startup/Discipline/Hook.antt =====
-- The hook between `Setup` and `Start` keeps the discipline.
use pg_embed_setup_unpriv.Prelude.{
  ◌≡◌, refl, sym, subst, Bool, true, false, Option, none, some, List, if◌then◌else◌,
}
use pg_embed_setup_unpriv.Prelude.Texts.{Text}
use pg_embed_setup_unpriv.Error.{Result, ok, err}
use pg_embed_setup_unpriv.Retry.{BootstrapError}
use pg_embed_setup_unpriv.Fallible.{Post, Post-of, Triple, Triple-bind, Triple-then, Post-weaken}
use pg_embed_setup_unpriv.Bootstrap.{ExtensionRequest, InstalledExtension}
use pg_embed_setup_unpriv.Startup.{
  LifecycleStep, setup, worker_operation, take_lock, populate, install, World, Run, InstallLock,
  held, released, logged, unlocked_at_end, scoped, taken, acquire_at,
}
use pg_embed_setup_unpriv.Startup.Hook.{
  PostSetup, with_dir, refresh_dir, populate_cache_on_miss, extension_target, for_hook, installed,
  install_into, install_declared, run_post_setup,
}
use pg_embed_setup_unpriv.Startup.Lifecycle.{running}
use pg_embed_setup_unpriv.Startup.Discipline.{Kept, LockIs, Ready, Runs, unlocked_at_end-Kept}

module _ {V : Type 0} (world : World V) (armed : Bool) where
  pub acquire_at-locked :
      (dir : Text)
      → Triple
          (λ s. Kept armed s × (s.locked ≡ false))
          (acquire_at world dir)
          (λ _ s. Kept armed s × (s.locked ≡ true))
          (λ s. Kept armed s × (s.locked ≡ false))
  unfolding acquire_at taken
  acquire_at-locked dir s (h, free) = outcome (world.take_lock dir s.log)
    where
      waits : Kept armed (logged (take_lock dir) s)
      waits = record { watch = h.watch; guarded = (free, h.guarded); pristine = h.pristine }

      outcome :
          (r : Result BootstrapError Unit)
          → Post
              (λ _ t. Kept armed t × (t.locked ≡ true))
              (λ t. Kept armed t × (t.locked ≡ false))
              (taken world r (logged (take_lock dir) s))
      outcome (ok u) =
          (record { watch = waits.watch; guarded = waits.guarded; pristine = waits.pristine }, refl)
      outcome (err e) = (waits, free)

module _ {V : Type 0} (world : World V) (armed : Bool) (post : PostSetup) where
  pub setup_Ready :
      (dispatch : LifecycleStep → Run V (Unit {0}))
      → Runs world dispatch
      → Triple (Ready armed post) (dispatch setup) (λ _. Ready armed post) (Kept armed)
  unfolding running worker_operation
  setup_Ready dispatch runs s h =
      let after : Ready armed post (dispatch setup s).1 =
        subst (Ready armed post) (sym (runs setup s)) (record {
          kept = record {
            watch = h.kept.watch;
            guarded = (h.fills, h.kept.guarded);
            pristine = h.kept.pristine;
          };
          early = (tt, h.early);
          lock = h.lock;
          fills = h.fills;
          miss = h.miss;
        }) in
      Post-of (λ _. Ready armed post) (Kept armed) (dispatch setup s).0 (dispatch setup s).1
        (λ _. after) after.kept

  refresh_dir-Ready :
      Triple (Ready armed post) (refresh_dir world) (λ _. Ready armed post) (Kept armed)
  unfolding refresh_dir with_dir
  refresh_dir-Ready s h = record {
    kept = record { watch = h.kept.watch; guarded = h.kept.guarded; pristine = h.kept.pristine };
    early = h.early;
    lock = h.lock;
    fills = h.fills;
    miss = h.miss;
  }

  populate-Ready :
      Triple
        (Ready armed post)
        (populate_cache_on_miss world post)
        (λ _. Ready armed post)
        (Kept armed)
  unfolding populate_cache_on_miss
  populate-Ready s h = populated post.cache_hit h.miss
    where
      populated :
          (hit : Bool)
          → (hit ≡ false → s.locked ≡ true)
          → Ready armed post
              (if hit then s else logged (populate s.bootstrap.settings.installation_dir) s)
      populated true miss = h
      populated false miss = record {
        kept = record {
          watch = h.kept.watch;
          guarded = (miss refl, h.kept.guarded);
          pristine = (h.early, h.kept.pristine);
        };
        early = (tt, h.early);
        lock = h.lock;
        fills = h.fills;
        miss = h.miss;
      }

  extension_target-Ready :
      Triple (Ready armed post) (extension_target world) (λ _. Ready armed post) (Kept armed)
  unfolding extension_target
  extension_target-Ready s h = Post-of (λ _. Ready armed post) (Kept armed) _ s (λ _. h) h.kept

  install_into-Kept :
      (request : ExtensionRequest) (dir : Text)
      → Triple
          (λ s. Kept armed s × (s.locked ≡ true))
          (install_into world request dir)
          (λ _. Kept armed)
          (Kept armed)
  unfolding install_into installed
  install_into-Kept request dir s (h, l) = outcome (world.install_extensions request dir)
    where
      writes : Kept armed (logged (install dir) s)
      writes = record { watch = h.watch; guarded = (l, h.guarded); pristine = h.pristine }

      outcome :
          (r : Result BootstrapError (List InstalledExtension))
          → Post (λ _. Kept armed) (Kept armed) (installed world r (logged (install dir) s))
      outcome (ok extensions) = record {
        watch = writes.watch;
        guarded = writes.guarded;
        pristine = writes.pristine;
      }
      outcome (err e) = writes

  for_hook-Kept :
      (lock : InstallLock) (body : Run V (Unit {0}))
      → Triple (λ s. Kept armed s × (s.locked ≡ true)) body (λ _. Kept armed) (Kept armed)
      → Triple
          (λ s. Kept armed s × LockIs lock s.locked)
          (for_hook world lock body)
          (λ _. Kept armed)
          (Kept armed)
  unfolding for_hook
  for_hook-Kept held body h = h
  for_hook-Kept (released dir) body h =
      Triple-then (λ s. Kept armed s × (s.locked ≡ false)) (λ s. Kept armed s × (s.locked ≡ true))
        (λ _. Kept armed) (Kept armed) (acquire_at world dir) (scoped body)
        (λ s b.
          Post-weaken _ _ _ _ (acquire_at world dir s) (acquire_at-locked world armed dir s b)
            (λ a t k. k) (λ t k. k.0))
        (λ s b.
          Post-weaken _ _ _ _ (unlocked_at_end (body s))
            (unlocked_at_end-Kept armed armed (body s) (h s b)) (λ a t k. k.0) (λ t k. k.0))

  install_declared-Kept :
      (target : Option (ExtensionRequest × Text))
      → Triple
          (Ready armed post)
          (install_declared world post target)
          (λ _. Kept armed)
          (Kept armed)
  unfolding install_declared
  install_declared-Kept none s h = h.kept
  install_declared-Kept (some (request, dir)) s h =
      for_hook-Kept post.install_lock (install_into world request dir)
        (install_into-Kept request dir) s (h.kept, h.lock)

  pub run_post_setup-Kept :
      Triple (Ready armed post) (run_post_setup world post) (λ _. Kept armed) (Kept armed)
  unfolding run_post_setup
  run_post_setup-Kept =
      Triple-bind (Ready armed post) (λ _. Ready armed post) (λ _. Kept armed) (Kept armed) _
        (install_declared world post)
        (Triple-then (Ready armed post) (Ready armed post) (λ _. Ready armed post) (Kept armed) _
          (extension_target world)
          (Triple-then (Ready armed post) (Ready armed post) (λ _. Ready armed post) (Kept armed)
            (refresh_dir world) (populate_cache_on_miss world post) refresh_dir-Ready
            populate-Ready)
          extension_target-Ready)
        install_declared-Kept
