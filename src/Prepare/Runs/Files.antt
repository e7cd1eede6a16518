-- ===== src/Prepare/Runs/Files.antt =====
-- The steps of a preparation that handle files in the directories.
use pg_embed_setup_unpriv.Prelude.{
  ◌≡◌, refl, sym, inl, inr, Bool, true, false, List, if◌then◌else◌, All,
}
use pg_embed_setup_unpriv.Prelude.Texts.{codes}
use pg_embed_setup_unpriv.Error.{other, err}
use pg_embed_setup_unpriv.Fallible.{◌>>◌, pure, Post}
use pg_embed_setup_unpriv.Cleanup.Paths.{FilePath, parent, has_parent, join}
use pg_embed_setup_unpriv.Prepare.Password.{
  Probe, is_file, is_other, not_found, failed, Removal, has_cluster_marker, discard_if, discarded,
  discard_orphaned_password_file,
}
use pg_embed_setup_unpriv.Prepare.{
  SettingsPaths, XdgDirs, Effect, chown, discard, set_mode, Answer, done, absent, refused, Host,
}
use pg_embed_setup_unpriv.Prepare.Directories.{
  pgpass_mode, discarding, after_optional, perform, ensure_pgpass_permissions, ensure_dir_with_mode,
  ensure_dir_for_user, handed_over, ensure_pgpass_for_user, discard_orphaned, prepare_xdg_dirs,
  ensure_xdg_dirs_owned_by_user,
}
use pg_embed_setup_unpriv.Prepare.Runs.{
  NoCluster, Allowed, Kept, Kept-Allowed, Kept-append, Runs, Fine, Runs-then, Runs-pure,
  perform-Runs, ensure_dir_with_mode-Runs, ensure_dir_for_user-Runs,
}

module _ (host : Host) (paths : SettingsPaths) (b : Bool) where
  pub ensure_pgpass_permissions-Runs :
      (path : FilePath)
      → Runs host paths b b (ensure_pgpass_permissions host path) (Fine host paths)
  unfolding ensure_pgpass_permissions after_optional
  ensure_pgpass_permissions-Runs path = by_answer (host.answer (set_mode path pgpass_mode))
    where
      by_answer :
          (answer : Answer)
          → Runs host paths b b
              (after_optional (set_mode path pgpass_mode) answer)
              (Fine host paths)
      by_answer done = record {
        run = λ log k. (tt, Kept-append host paths b log (set_mode path pgpass_mode) tt k);
      }
      by_answer absent = record { run = λ log k. (tt, k) }
      by_answer refused = record { run = λ log k. Kept-Allowed host paths b log k }

  handed_over-Runs :
      (path : FilePath) (probe : Probe)
      → Runs host paths b b (handed_over host path probe) (Fine host paths)
  unfolding handed_over
  handed_over-Runs path not_found = record { run = λ log k. (tt, k) }
  handed_over-Runs path failed = record { run = λ log k. Kept-Allowed host paths b log k }
  handed_over-Runs path is_other = record { run = λ log k. Kept-Allowed host paths b log k }
  handed_over-Runs path is_file = record {
    run = λ log k.
        (Runs-then host paths b b b (perform host (chown path))
            (perform host (set_mode path pgpass_mode)) (Fine host paths)
            (perform-Runs host paths b (chown path) tt)
            (perform-Runs host paths b (set_mode path pgpass_mode) tt)).run
          log k;
  }

  pub ensure_pgpass_for_user-Runs :
      (path : FilePath) → Runs host paths b b (ensure_pgpass_for_user host path) (Fine host paths)
  unfolding ensure_pgpass_for_user
  ensure_pgpass_for_user-Runs path = record {
    run = λ log k. by_name (has_parent (parent path)) log k;
  }
    where
      by_name :
          (named : Bool) (log : List Effect)
          → Kept host paths b log
          → Post
              (λ a s. Unit × Kept host paths b s)
              (λ s. All (Allowed host paths) s)
              (if named then handed_over host path (host.pgpass path) log else (err other, log))
      by_name true log k = (handed_over-Runs path (host.pgpass path)).run log k
      by_name false log k = Kept-Allowed host paths b log k

  discarded-Runs :
      (outcome : Removal)
      → NoCluster (host.marker_later paths.data_dir)
      → Runs host paths b b (discarding paths.password_file (discarded outcome)) (Fine host paths)
  unfolding discarding discarded
  discarded-Runs Removal.removed n = record {
    run = λ log k. (tt, Kept-append host paths b log (discard paths.password_file) (refl, n) k);
  }
  discarded-Runs Removal.nothing_there n = record { run = λ log k. (tt, k) }
  discarded-Runs Removal.refused n = record { run = λ log k. Kept-Allowed host paths b log k }

  discard_orphaned-by :
      (probe : Probe) (outcome : Removal)
      → probe ≡ host.marker_later paths.data_dir
      → Runs host paths b b
          (discarding paths.password_file (discard_orphaned_password_file probe outcome))
          (Fine host paths)
  unfolding discarding discard_orphaned_password_file has_cluster_marker discard_if discarded
  discard_orphaned-by failed outcome e = record { run = λ log k. Kept-Allowed host paths b log k }
  discard_orphaned-by is_file outcome e = record { run = λ log k. (tt, k) }
  discard_orphaned-by not_found outcome e = discarded-Runs outcome (inl (sym e))
  discard_orphaned-by is_other outcome e = discarded-Runs outcome (inr (sym e))

  pub discard_orphaned-Runs : Runs host paths b b (discard_orphaned host paths) (Fine host paths)
  unfolding discard_orphaned
  discard_orphaned-Runs =
      discard_orphaned-by (host.marker_later paths.data_dir) (host.removal paths.password_file) refl

  pub prepare_xdg_dirs-Runs :
      (dir : FilePath) → Runs host paths b b (prepare_xdg_dirs host dir) (λ xdg. xdg.home ≡ dir)
  unfolding prepare_xdg_dirs
  prepare_xdg_dirs-Runs dir =
      let cache = ensure_dir_with_mode host (join dir (codes "cache")) 0o755 in
      let runtime = ensure_dir_with_mode host (join dir (codes "run")) 0o700 in
      Runs-then host paths b b b (cache >> runtime)
        (pure (record {
          home = dir;
          cache = join dir (codes "cache");
          runtime = join dir (codes "run");
        }))
        (λ xdg. xdg.home ≡ dir)
        (Runs-then host paths b b b cache runtime (Fine host paths)
          (ensure_dir_with_mode-Runs host paths b (join dir (codes "cache")) 0o755)
          (ensure_dir_with_mode-Runs host paths b (join dir (codes "run")) 0o700))
        (Runs-pure host paths b
          (record {
            home = dir;
            cache = join dir (codes "cache");
            runtime = join dir (codes "run");
          })
          (λ xdg. xdg.home ≡ dir) refl)

  pub ensure_xdg_dirs_owned_by_user-Runs :
      (xdg : XdgDirs)
      → Runs host paths b b (ensure_xdg_dirs_owned_by_user host xdg) (Fine host paths)
  unfolding ensure_xdg_dirs_owned_by_user
  ensure_xdg_dirs_owned_by_user-Runs xdg =
      Runs-then host paths b b b (ensure_dir_for_user host xdg.cache 0o755)
        (ensure_dir_for_user host xdg.runtime 0o700) (Fine host paths)
        (ensure_dir_for_user-Runs host paths b xdg.cache 0o755)
        (ensure_dir_for_user-Runs host paths b xdg.runtime 0o700)
