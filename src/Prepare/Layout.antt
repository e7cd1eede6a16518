-- ===== src/Prepare/Layout.antt =====
-- src/bootstrap/prepare/mod.rs and layout.rs: the directories, the slot and the password that are
-- chosen before anything is prepared.
use pg_embed_setup_unpriv.Prelude.{
  Bool, true, false, ◌&&◌, Option, none, some, [], ◌∷◌, ◌++◌, if◌then◌else◌,
}
use pg_embed_setup_unpriv.Prelude.Texts.{Text, codes}
use pg_embed_setup_unpriv.Error.{other, BootstrapResult, ok, err, ◌>>=◌}
use pg_embed_setup_unpriv.Cleanup.Paths.{FilePath, join}
use pg_embed_setup_unpriv.Prepare.Password.{PasswordReuseOutcome, reuse_existing_password}
use pg_embed_setup_unpriv.Prepare.{
  DataLayout, per_cluster, persistent, PathCfg, Settings, SettingsPaths, ClusterSlot, claim, Host,
  Step, is_some,
}

-- The default root, unless one is configured.
unfoldable pub root_or : Option FilePath → FilePath → FilePath
root_or none default = default
root_or (some configured) default = configured

unfoldable pub default_paths_under : FilePath → FilePath × FilePath
default_paths_under base = (join base (codes "install"), join base (codes "data"))

-- What the settings have, where a directory is configured, and the default elsewhere; and whether
-- it is the default.
unfoldable pub or_default : Option FilePath → FilePath → FilePath → FilePath × Bool
or_default none default current = (default, true)
or_default (some configured) default current = (current, false)

-- The settings, the paths and whether a slot is claimed.
abbrev pub Choice : Type 0
Choice = Settings × SettingsPaths × Bool

unfoldable pub use_password : Choice → Text × PasswordReuseOutcome → Choice
use_password (settings, paths, has_slot) (password, outcome) =
    (record settings { password = password }, paths, has_slot)

unfoldable pub paths_of : Settings → Bool → Bool → FilePath → Settings × SettingsPaths
paths_of settings install_default data_default password_file = (
  record settings { password_file = password_file },
  record {
    install_dir = settings.installation_dir;
    data_dir = settings.data_dir;
    password_file = password_file;
    install_default = install_default;
    data_default = data_default;
  },
)

unfoldable pub use_slot : Settings × SettingsPaths → ClusterSlot → Choice
use_slot (settings, paths) slot = (
  record settings { data_dir = slot.data_dir; password_file = slot.password_file },
  record paths { data_dir = slot.data_dir; password_file = slot.password_file },
  true,
)

module _ (host : Host) where
  unfoldable pub settings_paths_from_settings :
      Settings → Bool → Bool → BootstrapResult (Settings × SettingsPaths)
  settings_paths_from_settings settings install_default data_default =
      if host.is_utf8_path settings.installation_dir && host.is_utf8_path settings.data_dir
      then ok (
          paths_of settings install_default data_default
            (join settings.installation_dir (codes ".pgpass")))
      else err other

  -- `user_root` is `default_root_for(uid)`.
  unfoldable pub resolve_settings_paths_for_uid :
      FilePath → Settings → PathCfg → BootstrapResult (Settings × SettingsPaths)
  resolve_settings_paths_for_uid user_root settings cfg =
      let (default_install, default_data) =
        default_paths_under (root_or cfg.embed_root user_root) in
      let (install, install_default) =
        or_default cfg.runtime_dir default_install settings.installation_dir in
      let (directory, data_default) = or_default cfg.data_dir default_data settings.data_dir in
      settings_paths_from_settings
        (record settings { installation_dir = install; data_dir = directory }) install_default
        data_default

  unfoldable pub claimed_slot : Settings × SettingsPaths → BootstrapResult ClusterSlot → Step Choice
  claimed_slot found (err e) log = (err e, log)
  claimed_slot found (ok slot) log = (ok (use_slot found slot), log ++ (claim slot.data_dir ∷ []))

  unfoldable pub claim_derived_slot : DataLayout → Settings × SettingsPaths → Step Choice
  claim_derived_slot persistent (settings, paths) log = (ok (settings, paths, false), log)
  claim_derived_slot per_cluster (settings, paths) log =
      if paths.data_default
      then claimed_slot (settings, paths) (host.claim_slot paths.data_dir) log
      else (ok (settings, paths, false), log)

  unfoldable pub adopt_password : PathCfg → Choice → BootstrapResult Choice
  adopt_password cfg (settings, paths, has_slot) =
      reuse_existing_password host.is_utf8 settings.password (host.marker paths.data_dir)
        (host.stored paths.password_file) (is_some cfg.password)
      >>= λ reuse. ok (use_password (settings, paths, has_slot) reuse)
