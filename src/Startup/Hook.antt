-- ===== src/Startup/Hook.antt =====
-- src/cluster/extension_hook.rs: what happens between `Setup` and `Start`.
use pg_embed_setup_unpriv.Prelude.{Bool, Option, none, some, List, [], ◌∷◌, if◌then◌else◌}
use pg_embed_setup_unpriv.Prelude.Texts.{Text}
use pg_embed_setup_unpriv.Error.{extension_install_failed, Result, ok, err}
use pg_embed_setup_unpriv.Retry.{BootstrapError, other_cause}
use pg_embed_setup_unpriv.Fallible.{pure, ◌>>=◌, ◌>>◌}
use pg_embed_setup_unpriv.Installation.{resolve_installed_dir, refresh_worker_installation_dir}
use pg_embed_setup_unpriv.Installation
use pg_embed_setup_unpriv.Cache.Use.{Settings}
use pg_embed_setup_unpriv.Bootstrap.{ExtensionRequest, InstalledExtension, TestBootstrapSettings}
use pg_embed_setup_unpriv.Startup.{
  World, Run, InstallLock, held, released, populate, install, logged, scoped, acquire_at,
}

pub record PostSetup : Type 0 where
  pub cache_hit : Bool
  pub install_lock : InstallLock

abbrev pub install_failed : BootstrapError
install_failed = record { kind = extension_install_failed; report = other_cause ∷ [] }

module _ {V : Type 0} (world : World V) where
  abbrev pub installation : Settings V → Installation.Settings V
  installation settings = record {
    installation_dir = settings.installation_dir;
    trust_installation_dir = settings.trust_installation_dir;
    matches = settings.version;
  }

  -- `resolve_installed_dir`, as the disk is after `Setup`.
  unfoldable pub installed_dir : Settings V → Option Text
  installed_dir settings =
      (resolve_installed_dir world.semver (installation settings)
        (world.has_bin settings.installation_dir) (world.listing settings.installation_dir)).0

  unfoldable pub with_dir : TestBootstrapSettings V → Text → TestBootstrapSettings V
  with_dir bootstrap dir = record bootstrap {
    settings = record bootstrap.settings { installation_dir = dir };
  }

  unfoldable pub refresh_dir : Run V (Unit {0})
  refresh_dir s =
      let settings = s.bootstrap.settings in
      let fresh =
        refresh_worker_installation_dir s.bootstrap.privileges (installed_dir settings)
          (installation settings) in
      (ok tt, record s { bootstrap = with_dir s.bootstrap fresh.installation_dir })

  -- The call of `try_populate_binary_cache` is an event.
  unfoldable pub populate_cache_on_miss : PostSetup → Run V (Unit {0})
  populate_cache_on_miss post s = (
    ok tt,
    if post.cache_hit then s else logged (populate s.bootstrap.settings.installation_dir) s,
  )

  unfoldable pub resolved_target :
      ExtensionRequest → Option Text → Result BootstrapError (Option (ExtensionRequest × Text))
  resolved_target request none = err install_failed
  resolved_target request (some dir) =
      if world.cache.is_utf8 dir then ok (some (request, dir)) else err install_failed

  unfoldable pub target_of :
      Option ExtensionRequest
      → Settings V
      → Result BootstrapError (Option (ExtensionRequest × Text))
  target_of none settings = ok none
  target_of (some request) settings = resolved_target request (installed_dir settings)

  unfoldable pub extension_target : Run V (Option (ExtensionRequest × Text))
  extension_target s = (target_of s.bootstrap.extensions s.bootstrap.settings, s)

  -- `InstallLock::for_hook` around what the lock it gives is held for.
  unfoldable pub for_hook : {A : Type 0} → InstallLock → Run V A → Run V A
  for_hook held body = body
  for_hook (released root) body = acquire_at world root >> scoped body

  unfoldable pub installed : Result BootstrapError (List InstalledExtension) → Run V (Unit {0})
  installed (err e) s = (err e, s)
  installed (ok extensions) s =
      (ok tt, record s { bootstrap = record s.bootstrap { installed_extensions = extensions } })

  -- The call of `install_extensions`, which writes into the install tree.
  unfoldable pub install_into : ExtensionRequest → Text → Run V (Unit {0})
  install_into request dir s =
      installed (world.install_extensions request dir) (logged (install dir) s)

  unfoldable pub install_declared : PostSetup → Option (ExtensionRequest × Text) → Run V (Unit {0})
  install_declared post none = pure tt
  install_declared post (some (request, dir)) =
      for_hook post.install_lock (install_into request dir)

  unfoldable pub run_post_setup : PostSetup → Run V (Unit {0})
  run_post_setup post =
      refresh_dir >> populate_cache_on_miss post >> extension_target >>= install_declared post
