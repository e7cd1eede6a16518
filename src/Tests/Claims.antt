-- ===== src/Tests/Claims.antt =====
-- A process claims a slot, sets the tree up, and removes it in a full cleanup
-- (src/bootstrap/prepare/cluster_slot/mod.rs, src/cluster/cleanup.rs).
use pg_embed_setup_unpriv.Prelude.{true, Option, some, [], ◌∷◌, nat_eq}
use pg_embed_setup_unpriv.Prelude.Texts.{Text, codes}
use pg_embed_setup_unpriv.Error.{ok}
use pg_embed_setup_unpriv.Slots.{free, held, DirEntry, named}
use pg_embed_setup_unpriv.Cleanup.{full, Settings, Host, file, plan_cleanup}
use pg_embed_setup_unpriv.Cleanup.Paths.{FilePath}
use pg_embed_setup_unpriv.Extensions.Layout.{root_dir, normal}
use pg_embed_setup_unpriv.Claims.{
  claiming, planning, Shared, slot_name, acquire, created, claim_slot, planned,
}
use pg_embed_setup_unpriv.Claims.Safety.{initial}

abbrev slots : FilePath
slots = root_dir ∷ normal (codes "r") ∷ normal (codes "data") ∷ []

abbrev settings : Settings
settings = record {
  data_dir = root_dir ∷ normal (codes "r") ∷ normal (codes "data") ∷ normal (codes "1-2-3") ∷ [];
  installation_dir = root_dir ∷ normal (codes "r") ∷ normal (codes "install") ∷ [];
  password_file = root_dir ∷ normal (codes "r") ∷ normal (codes "1-2-3.pgpass") ∷ [];
}

abbrev own_lock : DirEntry
own_lock = named (some (codes "1-2-3.lock"))

abbrev host : Host
host = record {
  metadata = λ dir name. file;
  can_guard = λ dir. true;
  read_dir = λ dir. some (own_lock ∷ []);
  lock = λ dir name. held;
}

abbrev own : Option Text
own = some (codes "1-2-3")

abbrev waiting : Shared
waiting = acquire 1 claiming initial

abbrev claimed : Shared
claimed =
    (claim_slot 1 (slot_name (codes "1") (codes "2") (codes "3")) (ok 0) (created free) waiting).1

abbrev provided : Shared
provided = record claimed { tree = true }

abbrev probing : Shared
probing = acquire 1 planning provided

abbrev decided : Shared
decided = planned 1 own (plan_cleanup host full settings).mode probing
