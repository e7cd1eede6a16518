-- ===== src/Tests/WriteFile.antt =====
-- One file written over an older one with other bytes (src/extensions/write.rs).
use pg_embed_setup_unpriv.Prelude.{[], ◌∷◌, none, true}
use pg_embed_setup_unpriv.Prelude.Texts.{codes}
use pg_embed_setup_unpriv.Extensions.WriteFile.{
  File, Owner, regular, real_dir, opened, Calls, write_file,
}
use pg_embed_setup_unpriv.Extensions.WriteFile.Laws.{Written, write_file-Written}

abbrev old : File
old = record { bytes = 1 ∷ []; mode = 0o600; uid = 0; gid = 0 }

abbrev owner : Owner
owner = record { uid = 1000; gid = 1000 }

abbrev calls : Calls
calls = record {
  of_bytes = λ bytes. bytes;
  parent = λ current. real_dir;
  can_open = true;
  can_inspect = true;
  can_read = true;
  can_create_parents = true;
  open_new = λ attempt. opened;
  fresh = record { bytes = []; mode = 0o600; uid = 0; gid = 0 };
  written = none;
  can_set_mode = true;
  can_stat = true;
  can_chown = true;
  can_rename = true;
  can_remove = true;
}

write_file-Written_example : Written calls owner 0o755 (1 ∷ 2 ∷ []) (regular old) (
    write_file calls owner 0o755
      (codes "lib" ∷ codes "vector.so" ∷ [])
      (1 ∷ 2 ∷ [])
      (record { destination = regular old; temp = none }))
write_file-Written_example =
    write_file-Written calls owner 0o755 (codes "lib" ∷ codes "vector.so" ∷ []) (1 ∷ 2 ∷ [])
      (regular old)
