-- ===== src/Tests/Prepare.antt =====
-- A preparation of a slot in which a cluster stands already, and one as root that fails.
use pg_embed_setup_unpriv.Prelude.{ℕ, true, false, none, some, List, [], ◌∷◌, ◌++◌, nat_eq, list_eq}
use pg_embed_setup_unpriv.Prelude.Texts.{codes}
use pg_embed_setup_unpriv.Error.{ok}
use pg_embed_setup_unpriv.Installation.{unprivileged}
use pg_embed_setup_unpriv.Extensions.Layout.{root_dir, normal}
use pg_embed_setup_unpriv.Cleanup.Paths.{FilePath, join}
use pg_embed_setup_unpriv.Prepare.Password.{is_file, file, nothing_there}
use pg_embed_setup_unpriv.Prepare.Password.Laws.{Reuse, reuse_existing_password-Reuse}
use pg_embed_setup_unpriv.Prepare.{
  per_cluster, PathCfg, Settings, Effect, done, absent, Answer, Host,
}
use pg_embed_setup_unpriv.Prepare.Flows.{prepare_bootstrap}
use pg_embed_setup_unpriv.Prepare.Laws.{Outcome, prepare_bootstrap-Outcome}
use pg_embed_setup_unpriv.Prepare.Password.{reuse_existing_password}

abbrev secret : List ℕ
secret = codes "s3cret"

abbrev base : FilePath
base = root_dir ∷ normal (codes "srv") ∷ []

abbrev answer : Effect → Answer
answer (Effect.chown path) = absent
answer effect = done

abbrev host : Host
host = record {
  is_drop_supported = true;
  own_root = base;
  nobody_root = ok base;
  free_port = λ _. ok 5433;
  is_utf8_path = λ _. true;
  is_utf8 = λ _. true;
  claim_slot = λ dir. ok (record {
    data_dir = join dir (codes "1-1-0");
    password_file = join dir (codes "1-1-0.pgpass");
  });
  marker = λ _. is_file;
  stored = λ _. file 7 (some (secret ++ (b'\n' ∷ [])));
  marker_later = λ _. is_file;
  removal = λ _. nothing_there;
  pgpass = λ _. is_file;
  answer = answer;
  timezone = ok (record { dir = none; zone = codes "UTC" });
}

abbrev settings : Settings
settings = record {
  installation_dir = [];
  data_dir = [];
  password_file = [];
  password = codes "generated";
  host = codes "localhost";
  port = 0;
  temporary = true;
}

abbrev cfg : PathCfg
cfg = record { embed_root = none; runtime_dir = none; data_dir = none; password = none }

reuse_existing_password-Reuse_example :
    Reuse
      (λ _. true)
      (codes "generated")
      is_file
      (file 7 (some (secret ++ (b'\n' ∷ []))))
      false
      (reuse_existing_password
        (λ _. true)
        (codes "generated")
        is_file
        (file 7 (some (secret ++ (b'\n' ∷ []))))
        false)
reuse_existing_password-Reuse_example =
    reuse_existing_password-Reuse (λ _. true) (codes "generated") is_file
      (file 7 (some (secret ++ (b'\n' ∷ [])))) false

prepare_bootstrap-Outcome_example :
    Outcome host unprivileged settings cfg per_cluster
      (prepare_bootstrap host unprivileged settings cfg per_cluster [])
prepare_bootstrap-Outcome_example =
    prepare_bootstrap-Outcome host unprivileged settings cfg per_cluster
