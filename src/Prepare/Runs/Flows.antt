-- ===== src/Prepare/Runs/Flows.antt =====
-- What the two flows keep, once the paths are chosen.
use pg_embed_setup_unpriv.Prelude.{◌≡◌, refl, Bool, true, false}
use pg_embed_setup_unpriv.Fallible.{◌>>=◌, ◌>>◌}
use pg_embed_setup_unpriv.Prepare.{
  Settings, SettingsPaths, TimezoneEnv, XdgDirs, PreparedBootstrap, chown_tree, chown_lock, Host,
  Step, lift,
}
use pg_embed_setup_unpriv.Prepare.Directories.{
  if_default, ensure_parents_for_paths, perform, ensure_pgpass_permissions, ensure_dir_with_mode,
  ensure_dir_for_user, make_data_dir_private, ensure_pgpass_for_user, ensure_parent_exists,
  ensure_parent_for_user, discard_orphaned, ensure_slot_lock_owned_by_user, prepare_xdg_dirs,
  ensure_xdg_dirs_owned_by_user,
}
use pg_embed_setup_unpriv.Prepare.Flows.{
  prepared, from_components, prepare_unprivileged, prepare_root,
}
use pg_embed_setup_unpriv.Prepare.Runs.{
  Runs, Fine, Runs-bind, Runs-then, Runs-pure, Runs-lift, perform-Runs, ensure_dir_with_mode-Runs,
  ensure_dir_for_user-Runs, ensure_dir_with_mode-Private, make_data_dir_private-Private,
  if_default-Runs, parents_exist-Runs, parents_for_user-Runs,
}
use pg_embed_setup_unpriv.Prepare.Runs.Files.{
  ensure_pgpass_permissions-Runs, ensure_pgpass_for_user-Runs, discard_orphaned-Runs,
  prepare_xdg_dirs-Runs, ensure_xdg_dirs_owned_by_user-Runs,
}

module _ (host : Host) where
  -- The settings come through, and the environment is that of the paths.
  pub record IsPrepared (settings : Settings) (paths : SettingsPaths) (p : PreparedBootstrap)
      : Type 0 where
    pub same_settings : p.settings ≡ settings
    pub pgpass_file : p.environment.pgpass_file ≡ paths.password_file
    pub home : p.environment.home ≡ paths.install_dir

  module _ (settings : Settings) (paths : SettingsPaths) where
    prepared-Runs :
        (xdg : XdgDirs) (timezone : TimezoneEnv)
        → xdg.home ≡ paths.install_dir
        → Runs host paths true true
            (prepared settings paths xdg timezone)
            (IsPrepared settings paths)
    unfolding prepared from_components
    prepared-Runs xdg timezone h =
        Runs-pure host paths true
          (record {
            settings = settings;
            environment = from_components xdg paths.password_file timezone;
          })
          (IsPrepared settings paths)
          (record { same_settings = refl; pgpass_file = refl; home = h })

    pub prepare_unprivileged-Runs :
        (has_slot : Bool)
        → Runs host paths false true
            (prepare_unprivileged host (settings, paths, has_slot))
            (IsPrepared settings paths)
    unfolding prepare_unprivileged
    prepare_unprivileged-Runs has_slot =
        let fine = Fine host paths in
        let parents = ensure_parents_for_paths (ensure_parent_exists host) paths in
        let install = ensure_dir_with_mode host paths.install_dir 0o755 in
        let directory = ensure_dir_with_mode host paths.data_dir 0o700 in
        let orphaned = discard_orphaned host paths in
        let pgpass = ensure_pgpass_permissions host paths.password_file in
        let last = λ (timezone : TimezoneEnv).
          prepare_xdg_dirs host paths.install_dir >>= λ xdg. prepared settings paths xdg timezone in
        Runs-bind host paths false true true
          (parents >> install >> directory >> orphaned >> pgpass >> lift host.timezone) last
          (λ _. Unit) (IsPrepared settings paths)
          (Runs-then host paths false true true
            (parents >> install >> directory >> orphaned >> pgpass) (lift host.timezone) (λ _. Unit)
            (Runs-then host paths false true true (parents >> install >> directory >> orphaned)
              pgpass fine
              (Runs-then host paths false true true (parents >> install >> directory) orphaned fine
                (Runs-then host paths false false true (parents >> install) directory fine
                  (Runs-then host paths false false false parents install fine
                    (parents_exist-Runs host paths false)
                    (ensure_dir_with_mode-Runs host paths false paths.install_dir 0o755))
                  (ensure_dir_with_mode-Private host paths))
                (discard_orphaned-Runs host paths true))
              (ensure_pgpass_permissions-Runs host paths true paths.password_file))
            (Runs-lift host paths true host.timezone))
          (λ timezone _.
            Runs-bind host paths true true true (prepare_xdg_dirs host paths.install_dir)
              (λ xdg. prepared settings paths xdg timezone) (λ xdg. xdg.home ≡ paths.install_dir)
              (IsPrepared settings paths) (prepare_xdg_dirs-Runs host paths true paths.install_dir)
              (λ xdg h. prepared-Runs xdg timezone h))

    -- What follows once the directories are there.
    abbrev hand_over : Bool → TimezoneEnv → XdgDirs → Step PreparedBootstrap
    hand_over has_slot timezone xdg =
        ensure_xdg_dirs_owned_by_user host xdg
        >> discard_orphaned host paths
        >> ensure_pgpass_for_user host paths.password_file
        >> if_default has_slot (ensure_slot_lock_owned_by_user host paths.data_dir)
        >> perform host (chown_tree paths.install_dir)
        >> if_default paths.data_default (perform host (chown_tree paths.data_dir))
        >> prepared settings paths xdg timezone

    handed-Runs :
        (has_slot : Bool) (timezone : TimezoneEnv) (xdg : XdgDirs)
        → xdg.home ≡ paths.install_dir
        → Runs host paths true true (hand_over has_slot timezone xdg) (IsPrepared settings paths)
    unfolding ensure_slot_lock_owned_by_user
    handed-Runs has_slot timezone xdg h =
        let fine = Fine host paths in
        let owned = ensure_xdg_dirs_owned_by_user host xdg in
        let orphaned = discard_orphaned host paths in
        let pgpass = ensure_pgpass_for_user host paths.password_file in
        let lock = if_default has_slot (ensure_slot_lock_owned_by_user host paths.data_dir) in
        let tree = perform host (chown_tree paths.install_dir) in
        let data_tree = if_default paths.data_default (perform host (chown_tree paths.data_dir)) in
        Runs-then host paths true true true
          (owned >> orphaned >> pgpass >> lock >> tree >> data_tree)
          (prepared settings paths xdg timezone) (IsPrepared settings paths)
          (Runs-then host paths true true true (owned >> orphaned >> pgpass >> lock >> tree)
            data_tree fine
            (Runs-then host paths true true true (owned >> orphaned >> pgpass >> lock) tree fine
              (Runs-then host paths true true true (owned >> orphaned >> pgpass) lock fine
                (Runs-then host paths true true true (owned >> orphaned) pgpass fine
                  (Runs-then host paths true true true owned orphaned fine
                    (ensure_xdg_dirs_owned_by_user-Runs host paths true xdg)
                    (discard_orphaned-Runs host paths true))
                  (ensure_pgpass_for_user-Runs host paths true paths.password_file))
                (if_default-Runs host paths true has_slot
                  (ensure_slot_lock_owned_by_user host paths.data_dir)
                  (perform-Runs host paths true (chown_lock paths.data_dir) tt)))
              (perform-Runs host paths true (chown_tree paths.install_dir) tt))
            (if_default-Runs host paths true paths.data_default
              (perform host (chown_tree paths.data_dir))
              (perform-Runs host paths true (chown_tree paths.data_dir) tt)))
          (prepared-Runs xdg timezone h)

    pub prepare_root-Runs :
        (has_slot : Bool)
        → Runs host paths false true
            (prepare_root host (settings, paths, has_slot))
            (IsPrepared settings paths)
    unfolding prepare_root
    prepare_root-Runs has_slot =
        let fine = Fine host paths in
        let parents = ensure_parents_for_paths (ensure_parent_for_user host) paths in
        let install = ensure_dir_for_user host paths.install_dir 0o755 in
        let private = make_data_dir_private host paths.data_dir in
        Runs-bind host paths false true true (parents >> install >> private >> lift host.timezone)
          (λ timezone.
            prepare_xdg_dirs host paths.install_dir >>= λ xdg. hand_over has_slot timezone xdg)
          (λ _. Unit) (IsPrepared settings paths)
          (Runs-then host paths false true true (parents >> install >> private) (lift host.timezone)
            (λ _. Unit)
            (Runs-then host paths false false true (parents >> install) private fine
              (Runs-then host paths false false false parents install fine
                (parents_for_user-Runs host paths false)
                (ensure_dir_for_user-Runs host paths false paths.install_dir 0o755))
              (make_data_dir_private-Private host paths))
            (Runs-lift host paths true host.timezone))
          (λ timezone _.
            Runs-bind host paths true true true (prepare_xdg_dirs host paths.install_dir)
              (λ xdg. hand_over has_slot timezone xdg) (λ xdg. xdg.home ≡ paths.install_dir)
              (IsPrepared settings paths) (prepare_xdg_dirs-Runs host paths true paths.install_dir)
              (λ xdg h. handed-Runs has_slot timezone xdg h))
