-- ===== src/Prepare/Directories.antt =====
-- src/bootstrap/prepare/mod.rs, root.rs and unix_user.rs: the effects on the directories and on the
-- password file.
use pg_embed_setup_unpriv.Prelude.{
  ℕ, Bool, true, false, Option, none, some, [], ◌∷◌, ◌++◌, if◌then◌else◌,
}
use pg_embed_setup_unpriv.Prelude.Texts.{codes}
use pg_embed_setup_unpriv.Error.{other, BootstrapResult, ok, err}
use pg_embed_setup_unpriv.Fallible.{◌>>◌, pure}
use pg_embed_setup_unpriv.Cleanup.Paths.{FilePath, parent, has_parent, join}
use pg_embed_setup_unpriv.Prepare.Password.{
  Probe, is_file, is_other, not_found, failed, discard_orphaned_password_file,
}
use pg_embed_setup_unpriv.Prepare.{
  SettingsPaths, XdgDirs, Effect, create_dir, chown, chown_lock, discard, set_mode, Answer, done,
  absent, refused, Host, Step,
}

abbrev pub pgpass_mode : ℕ
pgpass_mode = 0o600

unfoldable pub if_default : Bool → Step (Unit {0}) → Step (Unit {0})
if_default true step log = step log
if_default false step log = (ok tt, log)

unfoldable pub ensure_parents_for_paths :
    (FilePath → Step (Unit {0})) → SettingsPaths → Step (Unit {0})
ensure_parents_for_paths ensure_parent paths =
    if_default paths.install_default (ensure_parent paths.install_dir)
    >> if_default paths.data_default (ensure_parent paths.data_dir)

unfoldable pub for_parent : Option FilePath → (FilePath → Step (Unit {0})) → Step (Unit {0})
for_parent none step log = (ok tt, log)
for_parent (some above) step log = step above log

unfoldable pub discarding : FilePath → BootstrapResult Bool → Step (Unit {0})
discarding path (err e) log = (err e, log)
discarding path (ok false) log = (ok tt, log)
discarding path (ok true) log = (ok tt, log ++ (discard path ∷ []))

unfoldable pub after_answer : Effect → Answer → Step (Unit {0})
after_answer effect done log = (ok tt, log ++ (effect ∷ []))
after_answer effect absent log = (err other, log)
after_answer effect refused log = (err other, log)

-- A file that is not there is no error here.
unfoldable pub after_optional : Effect → Answer → Step (Unit {0})
after_optional effect absent log = (ok tt, log)
after_optional effect done log = (ok tt, log ++ (effect ∷ []))
after_optional effect refused log = (err other, log)

module _ (host : Host) where
  unfoldable pub perform : Effect → Step (Unit {0})
  perform effect = after_answer effect (host.answer effect)

  unfoldable pub ensure_pgpass_permissions : FilePath → Step (Unit {0})
  ensure_pgpass_permissions path =
      after_optional (set_mode path pgpass_mode) (host.answer (set_mode path pgpass_mode))

  unfoldable pub ensure_dir_with_mode : FilePath → ℕ → Step (Unit {0})
  ensure_dir_with_mode path mode = perform (create_dir path) >> perform (set_mode path mode)

  unfoldable pub ensure_dir_for_user : FilePath → ℕ → Step (Unit {0})
  ensure_dir_for_user path mode =
      perform (create_dir path) >> perform (chown path) >> perform (set_mode path mode)

  unfoldable pub make_data_dir_private : FilePath → Step (Unit {0})
  make_data_dir_private dir = ensure_dir_for_user dir 0o700

  -- What is found at the password file, if it has a name.
  unfoldable pub handed_over : FilePath → Probe → Step (Unit {0})
  handed_over path not_found log = (ok tt, log)
  handed_over path failed log = (err other, log)
  handed_over path is_other log = (err other, log)
  handed_over path is_file log = (perform (chown path) >> perform (set_mode path pgpass_mode)) log

  unfoldable pub ensure_pgpass_for_user : FilePath → Step (Unit {0})
  ensure_pgpass_for_user path log =
      if has_parent (parent path) then handed_over path (host.pgpass path) log else (err other, log)

  unfoldable pub ensure_parent_exists : FilePath → Step (Unit {0})
  ensure_parent_exists path = for_parent (parent path) (λ above. perform (create_dir above))

  unfoldable pub ensure_parent_for_user : FilePath → Step (Unit {0})
  ensure_parent_for_user path = for_parent (parent path) (λ above. ensure_dir_for_user above 0o755)

  -- `discard_orphaned_password_file`, with its effect.
  unfoldable pub discard_orphaned : SettingsPaths → Step (Unit {0})
  discard_orphaned paths = discarding paths.password_file (
      discard_orphaned_password_file (host.marker_later paths.data_dir)
        (host.removal paths.password_file))

  unfoldable pub ensure_slot_lock_owned_by_user : FilePath → Step (Unit {0})
  ensure_slot_lock_owned_by_user data_dir = perform (chown_lock data_dir)

  unfoldable pub prepare_xdg_dirs : FilePath → Step XdgDirs
  prepare_xdg_dirs install_dir =
      ensure_dir_with_mode (join install_dir (codes "cache")) 0o755
      >> ensure_dir_with_mode (join install_dir (codes "run")) 0o700
      >> pure (record {
        home = install_dir;
        cache = join install_dir (codes "cache");
        runtime = join install_dir (codes "run");
      })

  unfoldable pub ensure_xdg_dirs_owned_by_user : XdgDirs → Step (Unit {0})
  ensure_xdg_dirs_owned_by_user xdg =
      ensure_dir_for_user xdg.cache 0o755 >> ensure_dir_for_user xdg.runtime 0o700
