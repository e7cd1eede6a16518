-- ===== src/Extensions/WriteFile.antt =====
-- `write_file` of src/extensions/write.rs, with what it calls of tree.rs: one planned file is written
-- into the installation tree. `Calls` says what the operating system answers. A path relative to the
-- tree is its components. The state is what stands at the destination, and the temporary file.
pub mod Stamp
pub mod Laws
use pg_embed_setup_unpriv.Prelude.{
  ℕ, zero, suc, ◌-◌, Bool, true, false, ◌&&◌, Option, none, some, List, [], ◌∷◌, ◌++◌, take, length,
  ◌==◌, nat_eq, list_eq, if◌then◌else◌,
}
use pg_embed_setup_unpriv.Prelude.Texts.{Text}
use pg_embed_setup_unpriv.Error.{Result, ok, err}
use pg_embed_setup_unpriv.Fallible.{Action, ◌>>=◌, ◌>>◌}

pub record File : Type 0 where
  pub bytes : List ℕ
  pub mode : ℕ
  pub uid : ℕ
  pub gid : ℕ

pub record Owner : Type 0 where
  pub uid : ℕ
  pub gid : ℕ

-- What stands at a destination, links not followed.
pub data Standing : Type 0 where
  nothing irregular : Standing
  regular : File → Standing

pub data Destination : Type 0 where
  identical : File → Destination
  absent not_regular different unreadable : Destination

-- What is found at a parent of the destination.
pub data Parent : Type 0 where
  real_dir other_kind missing unknown : Parent

-- What comes of the creation of a new file.
pub data OpenNew : Type 0 where
  opened already_exists refused : OpenNew

-- `written` is none if all bytes can be written, and else how many are.
pub record Calls : Type 0 where
  pub of_bytes : List ℕ → Text
  pub parent : List Text → Parent
  pub can_open : Bool
  pub can_inspect : Bool
  pub can_read : Bool
  pub can_create_parents : Bool
  pub open_new : ℕ → OpenNew
  pub fresh : File
  pub written : Option ℕ
  pub can_set_mode : Bool
  pub can_stat : Bool
  pub can_chown : Bool
  pub can_rename : Bool
  pub can_remove : Bool

pub record Tree : Type 0 where
  pub destination : Standing
  pub temp : Option File

abbrev pub temp_name_attempts : ℕ
temp_name_attempts = 16

module _ (calls : Calls) where
  abbrev pub Outcome : Type 0
  Outcome = Result (Unit {0}) (Unit {0})

  abbrev pub lift : Outcome → Action Tree (Unit {0}) (Unit {0})
  lift r tree = (r, tree)

  unfoldable pub after_parent : Parent → Outcome → Outcome
  after_parent real_dir next = next
  after_parent other_kind next = err tt
  after_parent missing next = ok tt
  after_parent unknown next = err tt

  -- The loop; `current` is the path so far.
  unfoldable pub check_parents : List Text → List Text → Outcome
  check_parents current [] = ok tt
  check_parents current (part ∷ parts) =
      after_parent (calls.parent (current ++ (part ∷ [])))
        (check_parents (current ++ (part ∷ [])) parts)

  unfoldable pub require_real_parents : List Text → Outcome
  unfolding take
  require_real_parents relative = check_parents [] (take (length relative - 1) relative)

  unfoldable pub create_parents : List Text → Outcome
  create_parents [] = ok tt
  create_parents (name ∷ []) = ok tt
  create_parents (part ∷ name ∷ rest) = if calls.can_create_parents then ok tt else err tt

  unfoldable pub compare_digest : File → List ℕ → Destination
  unfolding list_eq
  compare_digest file bytes =
      if calls.can_read
      then if calls.of_bytes file.bytes == calls.of_bytes bytes then identical file else different
      else unreadable

  -- What is opened, as `require_regular` and `compare_digest` see it.
  unfoldable pub require_regular : Standing → List ℕ → Destination
  require_regular nothing bytes = absent
  require_regular irregular bytes = if calls.can_inspect then not_regular else unreadable
  require_regular (regular file) bytes =
      if calls.can_inspect then compare_digest file bytes else unreadable

  unfoldable pub inspect_destination : Standing → List ℕ → Destination
  inspect_destination nothing bytes = absent
  inspect_destination irregular bytes =
      if calls.can_open then require_regular irregular bytes else unreadable
  inspect_destination (regular file) bytes =
      if calls.can_open then require_regular (regular file) bytes else unreadable

  unfoldable pub after_open : OpenNew → Outcome → Outcome
  after_open opened next = ok tt
  after_open already_exists next = next
  after_open refused next = err tt

  unfoldable pub open_loop : ℕ → ℕ → Outcome
  open_loop zero attempt = err tt
  open_loop (suc left) attempt = after_open (calls.open_new attempt) (open_loop left (suc attempt))

  unfoldable pub new_file : Outcome → Action Tree (Unit {0}) File
  new_file (err e) tree = (err e, tree)
  new_file (ok u) tree = (
    ok (record calls.fresh { bytes = [] }),
    record tree { temp = some (record calls.fresh { bytes = [] }) },
  )

  unfoldable pub create_temp_beside : Action Tree (Unit {0}) File
  create_temp_beside tree = new_file (open_loop temp_name_attempts 0) tree

  unfoldable pub discard_temp : Tree → Tree
  discard_temp tree = if calls.can_remove then record tree { temp = none } else tree

  unfoldable pub set_mode : ℕ → Action File (Unit {0}) (Unit {0})
  set_mode mode file =
      if calls.can_set_mode then (ok tt, record file { mode = mode }) else (err tt, file)

  unfoldable pub apply_owner : Owner → Action File (Unit {0}) (Unit {0})
  apply_owner owner file =
      if calls.can_stat
      then if (file.uid == owner.uid) && (file.gid == owner.gid)
        then (ok tt, file)
        else if calls.can_chown
        then (ok tt, record file { uid = owner.uid; gid = owner.gid })
        else (err tt, file)
      else (err tt, file)

  -- Into the new file, all bytes or a part of them.
  unfoldable pub write_bytes : List ℕ → Option ℕ → Action File (Unit {0}) (Unit {0})
  unfolding take
  write_bytes bytes none file = (ok tt, record file { bytes = bytes })
  write_bytes bytes (some n) file = (err tt, record file { bytes = take n bytes })

  module _ (owner : Owner) (mode : ℕ) where
    unfoldable pub repair_existing : Action File (Unit {0}) (Unit {0})
    repair_existing = set_mode mode >> apply_owner owner

    unfoldable pub fill_temp : List ℕ → Action File (Unit {0}) (Unit {0})
    fill_temp bytes = write_bytes bytes calls.written >> set_mode mode >> apply_owner owner

    -- The rename, after the temporary file is filled, and the removal if either failed.
    unfoldable pub place : Outcome × File → Action Tree (Unit {0}) (Unit {0})
    place (err e, file) tree = (err e, discard_temp (record tree { temp = some file }))
    place (ok u, file) tree =
        if calls.can_rename
        then (ok tt, record { destination = regular file; temp = none })
        else (err tt, discard_temp (record tree { temp = some file }))

    unfoldable pub write_afresh : List Text → List ℕ → Action Tree (Unit {0}) (Unit {0})
    write_afresh relative bytes = lift (create_parents relative) >> create_temp_beside >>= λ file.
        place (fill_temp bytes file)

    unfoldable pub repaired : Outcome × File → Action Tree (Unit {0}) (Unit {0})
    repaired (r, file) tree = (r, record tree { destination = regular file })

    unfoldable pub write_over : List Text → List ℕ → Destination → Action Tree (Unit {0}) (Unit {0})
    write_over relative bytes (identical file) = repaired (repair_existing file)
    write_over relative bytes _ = write_afresh relative bytes

    unfoldable pub write_file : List Text → List ℕ → Action Tree (Unit {0}) (Unit {0})
    write_file relative bytes = lift (require_real_parents relative) >> λ tree.
        write_over relative bytes (inspect_destination tree.destination bytes) tree
