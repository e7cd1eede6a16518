-- ===== src/PgWorker/Laws.antt =====
-- A cleanup by the worker beside one in the process.
use pg_embed_setup_unpriv.Prelude.{
  ◌≡◌, refl, sym, ap, subst, ◌∙◌, inl, inr, Bool, true, false, not, ◌&&◌, ◌||◌, Option, none, some,
  [], ◌∷◌, ◌++◌, nat_eq, list_eq, if◌then◌else◌, Bool-cases, arith,
}
use mathlib.Core.Option.{some-injective}
use mathlib.Core.List.{append-nil, append_assoc}
use pg_embed_setup_unpriv.Prelude.Texts.{Text}
use pg_embed_setup_unpriv.Error.{ok}
use pg_embed_setup_unpriv.Extensions.Layout.{root_dir}
use pg_embed_setup_unpriv.Cleanup.{
  CleanupMode, data_only, full, keep, Settings, should_remove_data, should_remove_install,
  should_remove_install_root, remove_dir_all_if_exists, cleanup_data_dir, cleanup_install_root,
  cleanup_install_dir, cleanup_with,
}
use pg_embed_setup_unpriv.Cleanup.Paths.{
  FilePath, parent, beq_path, starts_with, has_parent_dir, is_empty_or_root, is_nothing,
  is_dangerous_cleanup_path,
}
use pg_embed_setup_unpriv.Worker.{WorkerOperation, as_str}
use pg_embed_setup_unpriv.Shutdown.{cleanup_operation}
use pg_embed_setup_unpriv.PgWorker.{
  Machine, Removals, parse, collect_removal_error, collect_install, is_removed, collect_root,
  execute_cleanup, root_of, extract_install_root, full_cleanup, run_op, run_payload, parse_path,
  parse_op, parse_args, run_parsed, run_worker,
}
use pg_embed_setup_unpriv.PgWorker.Paths.{
  IsPath, parent-IsPath, is_dangerous-is_empty_or_root, is_nothing-refused, beq_path_swap,
}

module _ (machine : Machine) where
  collect_removal_error-tried :
      (path : FilePath) (removals : Removals)
      → IsPath path
      → (collect_removal_error machine path removals).tried
        ≡ removals.tried ++ remove_dir_all_if_exists path
  unfolding collect_removal_error remove_dir_all_if_exists
  collect_removal_error-tried path removals p =
      tried (is_dangerous_cleanup_path path) (is_empty_or_root path || has_parent_dir path)
        (machine.can_remove path) (λ h. ground (arith, is_dangerous-is_empty_or_root path p h))
    where
      tried :
          (danger bad can : Bool)
          → (danger ≡ true → bad ≡ true)
          → (if◌then◌else◌ {A = Removals} bad
              (record removals { failures = removals.failures ++ (path ∷ []) })
              (if can then record removals { tried = removals.tried ++ (path ∷ []) } else record {
                failures = removals.failures ++ (path ∷ []);
                tried = removals.tried ++ (path ∷ []);
              })).tried
            ≡ removals.tried ++ (if danger || bad then [] else path ∷ [])
      tried true true can h = sym (append-nil removals.tried)
      tried true false can h = absurd (clash (h refl))
        where
          clash : ◌≡◌ {A = Bool} false true → ⊥
          clash k = cc
      tried false true can h = sym (append-nil removals.tried)
      tried false false true h = refl
      tried false false false h = refl

  collect_root-tried :
      (settings : Settings) (dir : Option FilePath) (removals : Removals)
      → ((path : FilePath) → dir ≡ some path → IsPath path)
      → (collect_root machine
          (some settings.installation_dir)
          (root_of machine dir settings.installation_dir)
          removals).tried
        ≡ removals.tried ++ cleanup_install_root dir settings
  unfolding collect_root root_of is_removed cleanup_install_root should_remove_install_root
  collect_root-tried settings none removals p = sym (append-nil removals.tried)
  collect_root-tried settings (some dir) removals p =
      kept (is_nothing dir || beq_path dir (root_dir ∷ [])) (beq_path dir settings.installation_dir)
        (has_parent_dir dir) (starts_with dir settings.installation_dir) (is_nothing-refused dir)
        refl
    where
      not_again :
          beq_path dir settings.installation_dir ≡ false
          → beq_path settings.installation_dir dir ≡ false
      not_again h = elim (Bool-cases (beq_path settings.installation_dir dir)) [
        | inl e ↦ absurd (clash (sym h ∙ beq_path_swap settings.installation_dir dir e))
        | inr e ↦ e
      ]
        where
          clash : ◌≡◌ {A = Bool} false true → ⊥
          clash k = cc

      kept :
          (bare same up inside : Bool)
          → (bare ≡ true → remove_dir_all_if_exists dir ≡ [])
          → beq_path dir settings.installation_dir ≡ same
          → (collect_root machine
              (some settings.installation_dir)
              (if bare then none else if same || (up || not inside) then none else some dir)
              removals).tried
            ≡ removals.tried
              ++ (if not same && not up && inside then remove_dir_all_if_exists dir else [])
      kept true false false true h e =
          sym (append-nil removals.tried) ∙ ap (λ l. removals.tried ++ l) (sym (h refl))
      kept true true up inside h e = sym (append-nil removals.tried)
      kept true false true inside h e = sym (append-nil removals.tried)
      kept true false false false h e = sym (append-nil removals.tried)
      kept false true up inside h e = sym (append-nil removals.tried)
      kept false false true inside h e = sym (append-nil removals.tried)
      kept false false false false h e = sym (append-nil removals.tried)
      kept false false false true h e =
          rw (not_again e) (collect_removal_error-tried dir removals (p dir refl))

  -- The paths of the settings are as `components` gives them, and they are UTF-8.
  pub record IsSettings (settings : Settings) : Type 0 where
    pub data_dir : IsPath settings.data_dir
    pub installation_dir : IsPath settings.installation_dir
    pub password_file : IsPath settings.password_file
    pub utf8_data : machine.is_utf8 settings.data_dir ≡ true
    pub utf8_installation : machine.is_utf8 settings.installation_dir ≡ true
    pub utf8_password : machine.is_utf8 settings.password_file ≡ true

  data_only-tried :
      (settings : Settings)
      → IsSettings settings
      → (execute_cleanup machine settings.data_dir none none).1 ≡ cleanup_with data_only settings
  unfolding execute_cleanup collect_root collect_install cleanup_with cleanup_data_dir
      cleanup_install_dir should_remove_data should_remove_install
  data_only-tried settings s =
      collect_removal_error-tried settings.data_dir (record { failures = []; tried = [] })
        s.data_dir
      ∙ sym (append-nil (remove_dir_all_if_exists settings.data_dir))

  full-tried :
      (settings : Settings)
      → IsSettings settings
      → (execute_cleanup machine settings.data_dir
          (some settings.installation_dir)
          (root_of machine (parent settings.password_file) settings.installation_dir)).1
        ≡ cleanup_with full settings
  unfolding execute_cleanup collect_install cleanup_with cleanup_data_dir cleanup_install_dir
      should_remove_data should_remove_install
  full-tried settings s =
      let start : Removals = record { failures = []; tried = [] } in
      let first = collect_removal_error machine settings.data_dir start in
      let install = collect_removal_error machine settings.installation_dir first in
      let root = cleanup_install_root (parent settings.password_file) settings in
      collect_root-tried settings (parent settings.password_file) install
        (λ path e. parent-IsPath settings.password_file path s.password_file e)
      ∙ ap (λ l. l ++ root)
          (collect_removal_error-tried settings.installation_dir first s.installation_dir)
      ∙ ap (λ l. (l ++ remove_dir_all_if_exists settings.installation_dir) ++ root)
          (collect_removal_error-tried settings.data_dir start s.data_dir)
      ∙ append_assoc (remove_dir_all_if_exists settings.data_dir)
          (remove_dir_all_if_exists settings.installation_dir) root

  -- Where the payload loads, and the paths are UTF-8 and have a root only in front, the worker that
  -- is run for the operation of a cleanup's mode tries to remove the same trees, in the same order,
  -- as a cleanup in the process with that mode.
  pub run_worker-cleanup_with :
      (mode : CleanupMode) (operation : WorkerOperation) (program config : Text)
      (settings : Settings)
      → cleanup_operation mode ≡ some operation
      → machine.is_utf8_arg config ≡ true
      → machine.load_payload config ≡ ok (some settings)
      → IsSettings settings
      → (run_worker machine (program ∷ as_str operation ∷ config ∷ [])).1
        ≡ cleanup_with mode settings
  unfolding run_worker run_parsed parse_args parse_op parse_path parse as_str run_payload run_op
      full_cleanup extract_install_root cleanup_operation list_eq
  run_worker-cleanup_with data_only operation program config settings h u l s =
      subst
        (λ op.
          (run_worker machine (program ∷ as_str op ∷ config ∷ [])).1
          ≡ cleanup_with data_only settings)
        (some-injective _ _ h) (rw u (rw l (rw (s.utf8_data) (data_only-tried settings s))))
  run_worker-cleanup_with full operation program config settings h u l s =
      subst
        (λ op.
          (run_worker machine (program ∷ as_str op ∷ config ∷ [])).1 ≡ cleanup_with full settings)
        (some-injective _ _ h)
        (rw u (
          rw l (
            rw (s.utf8_data)
              (rw (s.utf8_installation) (rw (s.utf8_password) (full-tried settings s))))))
  run_worker-cleanup_with keep operation program config settings h u l s = cc
