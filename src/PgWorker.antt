-- ===== src/PgWorker.antt =====
-- src/bin/pg_worker.rs and pg_worker/cleanup.rs: the worker's arguments and its cleanups. How the
-- payload is read, what the paths are encoded as, what can be removed and how the operations on the
-- server end are parameters. Errors keep their kind, and a failed cleanup what it could not remove.
pub mod Paths
pub mod Laws
use pg_embed_setup_unpriv.Prelude.{
  Bool, true, false, not, ◌||◌, Option, none, some, List, [], ◌∷◌, ◌++◌, ◌==◌, nat_eq, list_eq,
  if◌then◌else◌,
}
use pg_embed_setup_unpriv.Prelude.Texts.{Text, codes}
use pg_embed_setup_unpriv.Error.{Result, ok, err}
use pg_embed_setup_unpriv.Extensions.Layout.{root_dir}
use pg_embed_setup_unpriv.Cleanup.{Settings}
use pg_embed_setup_unpriv.Cleanup.Paths.{
  FilePath, parent, beq_path, starts_with, has_parent_dir, is_empty_or_root, is_nothing,
}

pub data Operation : Type 0 where
  setup start stop cleanup cleanup_full : Operation

pub data WorkerError : Type 0 where
  invalid_args config_read config_parse settings_conversion runtime_init : WorkerError
  postgres_operation data_dir_recovery : WorkerError
  cleanup_failed : List FilePath → WorkerError

-- `load_payload` gives the settings before their conversion, which may fail.
pub record Machine : Type 0 where
  pub load_payload : Text → Result WorkerError (Option Settings)
  pub is_utf8_arg : Text → Bool
  pub is_utf8 : FilePath → Bool
  pub can_remove : FilePath → Bool
  pub serve : Operation → Settings → Result WorkerError (Unit {0})

unfoldable pub parse : Text → Result WorkerError Operation
unfolding list_eq
parse arg =
    if arg == codes "setup"
    then ok setup
    else if arg == codes "start"
    then ok start
    else if arg == codes "stop"
    then ok stop
    else if arg == codes "cleanup"
    then ok cleanup
    else if arg == codes "cleanup-full"
    then ok cleanup_full
    else err invalid_args

-- What could not be removed, and what was tried: `guard_removal_path` refuses the rest.
pub record Removals : Type 0 where
  pub failures : List FilePath
  pub tried : List FilePath

-- The end of a run, and the trees whose removal it tried.
abbrev pub Run : Type 0
Run = Result WorkerError (Unit {0}) × List FilePath

module _ (machine : Machine) where
  unfoldable pub collect_removal_error : FilePath → Removals → Removals
  collect_removal_error path removals =
      if is_empty_or_root path || has_parent_dir path
      then record removals { failures = removals.failures ++ (path ∷ []) }
      else if machine.can_remove path
      then record removals { tried = removals.tried ++ (path ∷ []) }
      else record {
        failures = removals.failures ++ (path ∷ []);
        tried = removals.tried ++ (path ∷ []);
      }

  unfoldable pub collect_install : Option FilePath → Removals → Removals
  collect_install none removals = removals
  collect_install (some path) removals = collect_removal_error path removals

  -- `install_dir.is_some_and(|install_path| install_path == path)`.
  unfoldable pub is_removed : Option FilePath → FilePath → Bool
  is_removed none path = false
  is_removed (some install_path) path = beq_path install_path path

  unfoldable pub collect_root : Option FilePath → Option FilePath → Removals → Removals
  collect_root install_dir none removals = removals
  collect_root install_dir (some path) removals =
      if is_removed install_dir path then removals else collect_removal_error path removals

  unfoldable pub joined : List FilePath → Result WorkerError (Unit {0})
  joined [] = ok tt
  joined (path ∷ paths) = err (cleanup_failed (path ∷ paths))

  unfoldable pub execute_cleanup : FilePath → Option FilePath → Option FilePath → Run
  execute_cleanup data_dir install_dir install_root =
      let removals = collect_root install_dir install_root (
        collect_install install_dir
          (collect_removal_error data_dir (record { failures = []; tried = [] }))) in
      (joined removals.failures, removals.tried)

  unfoldable pub root_of : Option FilePath → FilePath → Option FilePath
  root_of none install_dir = none
  root_of (some dir) install_dir =
      if is_nothing dir || beq_path dir (root_dir ∷ [])
      then none
      else if beq_path dir install_dir || (has_parent_dir dir || not (starts_with dir install_dir))
      then none
      else some dir

  unfoldable pub extract_install_root : Settings → FilePath → Result WorkerError (Option FilePath)
  extract_install_root settings install_dir =
      if machine.is_utf8 settings.password_file
      then ok (root_of (parent settings.password_file) install_dir)
      else err settings_conversion

  unfoldable pub full_cleanup : Settings → Result WorkerError (Option FilePath) → Run
  full_cleanup settings (err e) = (err e, [])
  full_cleanup settings (ok install_root) =
      execute_cleanup settings.data_dir (some settings.installation_dir) install_root

  unfoldable pub run_op : Operation → Settings → Run
  run_op cleanup settings = execute_cleanup settings.data_dir none none
  run_op cleanup_full settings =
      if machine.is_utf8 settings.installation_dir
      then full_cleanup settings (extract_install_root settings settings.installation_dir)
      else (err settings_conversion, [])
  run_op op settings = (machine.serve op settings, [])

  unfoldable pub run_payload : Operation → Result WorkerError (Option Settings) → Run
  run_payload op (err e) = (err e, [])
  run_payload op (ok none) = (err settings_conversion, [])
  run_payload op (ok (some settings)) =
      if machine.is_utf8 settings.data_dir
      then run_op op settings
      else (err settings_conversion, [])

  -- The rest of `parse_args`, after the operation.
  unfoldable pub parse_path : Operation → List Text → Result WorkerError (Operation × Text)
  parse_path op [] = err invalid_args
  parse_path op (path ∷ rest) = if machine.is_utf8_arg path then last_arg rest else err invalid_args
    where
      last_arg : List Text → Result WorkerError (Operation × Text)
      last_arg [] = ok (op, path)
      last_arg (more ∷ rest) = err invalid_args

  unfoldable pub parse_op :
      Result WorkerError Operation → List Text → Result WorkerError (Operation × Text)
  parse_op (err e) rest = err e
  parse_op (ok op) rest = parse_path op rest

  unfoldable pub parse_args : List Text → Result WorkerError (Operation × Text)
  parse_args [] = err invalid_args
  parse_args (program ∷ []) = err invalid_args
  parse_args (program ∷ op ∷ rest) = parse_op (parse op) rest

  unfoldable pub run_parsed : Result WorkerError (Operation × Text) → Run
  run_parsed (err e) = (err e, [])
  run_parsed (ok (op, path)) = run_payload op (machine.load_payload path)

  unfoldable pub run_worker : List Text → Run
  run_worker args = run_parsed (parse_args args)
