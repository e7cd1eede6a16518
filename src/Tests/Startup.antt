-- ===== src/Tests/Startup.antt =====
-- A start as root whose server writes its port file before the third read (src/cluster/startup.rs,
-- src/cluster/installation.rs).
use pg_embed_setup_unpriv.Prelude.{
  ℕ, ◌≡◌, refl, true, false, none, some, [], ◌∷◌, ltb, nat_eq, list_eq, if◌then◌else◌, arith, leb,
}
use pg_embed_setup_unpriv.Prelude.Texts.{codes}
use pg_embed_setup_unpriv.Error.{ok}
use pg_embed_setup_unpriv.Fallible.{Post}
use pg_embed_setup_unpriv.Installation.{root}
use pg_embed_setup_unpriv.Installation.Port.{
  PidFile, contents, not_found, read_pid_file_contents, port_of, read_postmaster_port,
  refresh_worker_port, is_digit, u16_max,
}
use pg_embed_setup_unpriv.Installation.Port.Parsing.{pid_file, IsPort, decimal_from}
use pg_embed_setup_unpriv.Installation.Port.Laws.{Silent, refresh_worker_port-finds}
use pg_embed_setup_unpriv.Bootstrap.{subprocess}
use pg_embed_setup_unpriv.Extensions.Config.{path}
use pg_embed_setup_unpriv.Startup.{Machine, World}
use pg_embed_setup_unpriv.Startup.Lifecycle.{start_postgres}
use pg_embed_setup_unpriv.Startup.Twins.{start_postgres_async}
use pg_embed_setup_unpriv.Startup.Equivalence.{Twins, start_postgres-Twins}
use pg_embed_setup_unpriv.Startup.Discipline.Whole.{Fresh, IsEnd, start_postgres-IsEnd}

abbrev read : ℕ → PidFile
read n =
    if ltb n 2
    then not_found
    else contents
        (pid_file (codes "42") (codes "/d") (codes "1700000000") (codes "54321") (codes "x"))

Silent-reads : Silent read 0 2
unfolding read_postmaster_port port_of read_pid_file_contents
Silent-reads j a b = ground (arith, b)

digits-IsPort : IsPort (codes "54321") 54321
unfolding is_digit decimal_from u16_max
digits-IsPort = record {
  some_digit = (53, codes "4321", refl);
  are_digits = refl;
  number = refl;
  small = omega arith;
}

refresh_worker_port-finds_example : refresh_worker_port read root 0 ≡ (ok tt, 54321)
refresh_worker_port-finds_example =
    refresh_worker_port-finds read 0 2 54321 (codes "42") (codes "/d") (codes "1700000000")
      (codes "54321") (codes "x") (omega arith) Silent-reads refl refl refl refl digits-IsPort

abbrev world : World ℕ
world = record {
  semver = record { parse = λ name. none; leb = leb };
  version_text = λ requirement. codes "*";
  cache = record {
    read_dir = some [];
    can_lock = λ version. true;
    under_lock =
        λ version. record { kind = λ name. none; file_size = λ name. none; whole = λ name. false };
    is_utf8 = λ text. true;
    can_copy = λ source target. true;
    exact = λ version. none;
  };
  take_lock = λ dir log. ok tt;
  can_watch = true;
  workers = record { drop_supported = true; run = λ worker operation limit. ok tt };
  future = λ operation settings. record { takes = 1; fails = none };
  has_bin = λ dir. true;
  listing = λ dir. some [];
  install_extensions = λ request dir. ok [];
  read_pid = read;
  reported = λ settings. settings;
}

abbrev machine : Machine ℕ
machine = record {
  bootstrap = record {
    privileges = root;
    execution_mode = subprocess;
    settings = record {
      installation_dir = codes "/r/install";
      trust_installation_dir = false;
      version = λ v. true;
    };
    port = 0;
    worker_binary = some (codes "/bin/pg_worker");
    setup_timeout = 180;
    start_timeout = 60;
    shutdown_timeout = 15;
    extensions = some (record {
      names = codes "vector" ∷ [];
      manifest = path (codes "/srv/manifest.json") none;
      cache_dir = codes "/c";
    });
    installed_extensions = [];
  };
  locked = false;
  watching = false;
  log = [];
}

machine-Fresh : Fresh machine
machine-Fresh = record { unlocked = refl; unwatched = refl; nothing = refl }

start_postgres-IsEnd_example :
    Post (λ _. IsEnd world true) (IsEnd world false) (start_postgres world machine)
start_postgres-IsEnd_example = start_postgres-IsEnd world machine machine-Fresh

start_postgres-Twins_example :
    Twins (start_postgres world machine) (start_postgres_async world machine)
start_postgres-Twins_example = start_postgres-Twins world machine
