-- ===== src/Tests/PgWorker.antt =====
-- A worker that is started for a full cleanup (src/bin/pg_worker.rs).
use pg_embed_setup_unpriv.Prelude.{◌≡◌, refl, true, false, some, [], ◌∷◌}
use pg_embed_setup_unpriv.Prelude.Texts.{codes}
use pg_embed_setup_unpriv.Error.{ok}
use pg_embed_setup_unpriv.Extensions.Layout.{root_dir, normal}
use pg_embed_setup_unpriv.Cleanup.{full, Settings, cleanup_with}
use pg_embed_setup_unpriv.Cleanup.Paths.{FilePath, is_root}
use pg_embed_setup_unpriv.Worker.{cleanup_full, as_str}
use pg_embed_setup_unpriv.Shutdown.{cleanup_operation}
use pg_embed_setup_unpriv.PgWorker.{Machine, run_worker}
use pg_embed_setup_unpriv.PgWorker.Laws.{IsSettings, run_worker-cleanup_with}

abbrev install : FilePath
install = root_dir ∷ normal (codes "pg") ∷ normal (codes "install") ∷ []

abbrev settings : Settings
settings = record {
  data_dir = root_dir ∷ normal (codes "pg") ∷ normal (codes "data") ∷ [];
  installation_dir = install;
  password_file =
      root_dir
      ∷ normal (codes "pg")
      ∷ normal (codes "install")
      ∷ normal (codes "secret")
      ∷ normal (codes "pgpass")
      ∷ [];
}

-- Nothing can be removed.
abbrev machine : Machine
machine = record {
  load_payload = λ config. ok (some settings);
  is_utf8_arg = λ config. true;
  is_utf8 = λ file. true;
  can_remove = λ file. false;
  serve = λ operation given. ok tt;
}

settings-IsSettings : IsSettings machine settings
unfolding is_root
settings-IsSettings = record {
  data_dir = (refl, (refl, tt));
  installation_dir = (refl, (refl, tt));
  password_file = (refl, (refl, (refl, (refl, tt))));
  utf8_data = refl;
  utf8_installation = refl;
  utf8_password = refl;
}

full-operation : cleanup_operation full ≡ some cleanup_full
unfolding cleanup_operation
full-operation = refl

run_worker-cleanup_with_example :
    (run_worker machine (codes "pg_worker" ∷ as_str cleanup_full ∷ codes "/c.json" ∷ [])).1
    ≡ cleanup_with full settings
run_worker-cleanup_with_example =
    run_worker-cleanup_with machine full cleanup_full (codes "pg_worker") (codes "/c.json") settings
      full-operation refl refl settings-IsSettings
