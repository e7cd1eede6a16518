-- ===== src/Prepare/Flows.antt =====
-- src/bootstrap/prepare/mod.rs and root.rs: the preparation of a bootstrap, as root and without.
use pg_embed_setup_unpriv.Prelude.{ℕ, ltb, ◌==◌, nat_eq, false, [], ◌∷◌, if◌then◌else◌}
use pg_embed_setup_unpriv.Prelude.Texts.{Text, codes}
use pg_embed_setup_unpriv.Error.{other, BootstrapResult, ok, err}
use pg_embed_setup_unpriv.Fallible.{◌>>=◌, ◌>>◌, pure}
use pg_embed_setup_unpriv.Installation.{ExecutionPrivileges, root, unprivileged}
use pg_embed_setup_unpriv.Cleanup.Paths.{FilePath}
use pg_embed_setup_unpriv.Prepare.{
  DataLayout, PathCfg, Settings, SettingsPaths, TimezoneEnv, XdgDirs, TestBootstrapEnvironment,
  PreparedBootstrap, chown_tree, Host, Step, lift,
}
use pg_embed_setup_unpriv.Prepare.Layout.{
  Choice, resolve_settings_paths_for_uid, claim_derived_slot, adopt_password,
}
use pg_embed_setup_unpriv.Prepare.Directories.{
  if_default, ensure_parents_for_paths, perform, ensure_pgpass_permissions, ensure_dir_with_mode,
  ensure_dir_for_user, make_data_dir_private, ensure_pgpass_for_user, ensure_parent_exists,
  ensure_parent_for_user, discard_orphaned, ensure_slot_lock_owned_by_user, prepare_xdg_dirs,
  ensure_xdg_dirs_owned_by_user,
}

unfoldable pub from_components : XdgDirs → FilePath → TimezoneEnv → TestBootstrapEnvironment
from_components xdg pgpass_file timezone = record {
  home = xdg.home;
  xdg_cache_home = xdg.cache;
  xdg_runtime_dir = xdg.runtime;
  pgpass_file = pgpass_file;
  tz_dir = timezone.dir;
  timezone = timezone.zone;
}

unfoldable pub prepared : Settings → SettingsPaths → XdgDirs → TimezoneEnv → Step PreparedBootstrap
prepared settings paths xdg timezone =
    pure (record {
      settings = settings;
      environment = from_components xdg paths.password_file timezone;
    })

unfoldable pub root_bind_host : Text → Text
root_bind_host [] = codes "127.0.0.1"
root_bind_host (c ∷ host) = if c == b'/' then codes "127.0.0.1" else c ∷ host

unfoldable pub use_port : Settings → BootstrapResult ℕ → BootstrapResult Settings
use_port settings (err e) = err e
use_port settings (ok port) = ok (record settings { port = port })

module _ (host : Host) where
  -- What both flows do first.
  unfoldable pub choose : FilePath → Settings → PathCfg → DataLayout → Step Choice
  choose user_root settings cfg layout =
      lift (resolve_settings_paths_for_uid host user_root settings cfg)
      >>= claim_derived_slot host layout
      >>= λ choice. lift (adopt_password host cfg choice)

  unfoldable pub prepare_unprivileged : Choice → Step PreparedBootstrap
  prepare_unprivileged (settings, paths, has_slot) =
      ensure_parents_for_paths (ensure_parent_exists host) paths
      >> ensure_dir_with_mode host paths.install_dir 0o755
      >> ensure_dir_with_mode host paths.data_dir 0o700
      >> discard_orphaned host paths
      >> ensure_pgpass_permissions host paths.password_file
      >> lift host.timezone
      >>= λ timezone.
          prepare_xdg_dirs host paths.install_dir >>= λ xdg. prepared settings paths xdg timezone

  unfoldable pub bootstrap_unprivileged : Settings → PathCfg → DataLayout → Step PreparedBootstrap
  bootstrap_unprivileged settings cfg layout =
      choose host.own_root settings cfg layout >>= prepare_unprivileged

  unfoldable pub ensure_root_port : Settings → BootstrapResult Settings
  ensure_root_port settings =
      if ltb 0 settings.port
      then ok settings
      else use_port settings (host.free_port (root_bind_host settings.host))

  unfoldable pub prepare_root : Choice → Step PreparedBootstrap
  prepare_root (settings, paths, has_slot) =
      ensure_parents_for_paths (ensure_parent_for_user host) paths
      >> ensure_dir_for_user host paths.install_dir 0o755
      >> make_data_dir_private host paths.data_dir
      >> lift host.timezone
      >>= λ timezone. prepare_xdg_dirs host paths.install_dir >>= λ xdg.
          ensure_xdg_dirs_owned_by_user host xdg
          >> discard_orphaned host paths
          >> ensure_pgpass_for_user host paths.password_file
          >> if_default has_slot (ensure_slot_lock_owned_by_user host paths.data_dir)
          >> perform host (chown_tree paths.install_dir)
          >> if_default paths.data_default (perform host (chown_tree paths.data_dir))
          >> prepared settings paths xdg timezone

  unfoldable pub bootstrap_with_root : Settings → PathCfg → DataLayout → Step PreparedBootstrap
  bootstrap_with_root settings cfg layout =
      lift (ensure_root_port (record settings { temporary = false })) >>= λ ported.
      lift host.nobody_root >>= λ user_root. choose user_root ported cfg layout >>= prepare_root

  unfoldable pub prepare_bootstrap :
      ExecutionPrivileges → Settings → PathCfg → DataLayout → Step PreparedBootstrap
  prepare_bootstrap root settings cfg layout log =
      if host.is_drop_supported
      then bootstrap_with_root settings cfg layout log
      else (err other, log)
  prepare_bootstrap unprivileged settings cfg layout log =
      bootstrap_unprivileged settings cfg layout log
