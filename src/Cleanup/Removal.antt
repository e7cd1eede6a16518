-- ===== src/Cleanup/Removal.antt =====
-- Which trees a cleanup removes.
use pg_embed_setup_unpriv.Prelude.{
  ◌≡◌, refl, ◌⊎◌, inl, inr, true, false, ◌||◌, Option, none, some, list_eq, nat_eq, All, All-append,
  arith, Bool-cases,
}
use pg_embed_setup_unpriv.Cleanup.{
  CleanupMode, data_only, full, keep, Settings, Host, plan_cleanup, should_remove_data,
  should_remove_install, should_remove_install_root, remove_dir_all_if_exists, cleanup_data_dir,
  cleanup_install_root, cleanup_install_dir, cleanup_with, cleanup_in_process,
}
use pg_embed_setup_unpriv.Cleanup.Paths.{
  FilePath, parent, starts_with, starts_with_refl, has_parent_dir, is_empty_or_root,
  is_dangerous_cleanup_path,
}
use pg_embed_setup_unpriv.Cleanup.Laws.{IsAlone, plan_cleanup-full}

-- A path that a cleanup may remove: not empty, not the root, without `..`, and the cluster's data
-- directory, or in the install tree, of a cleanup that was asked to be full and whose plan holds the
-- claim guard as `IsAlone` says.
abbrev pub IsRemovable : Host → CleanupMode → Settings → FilePath → Type 0
IsRemovable host requested settings path =
    (is_empty_or_root path ≡ false)
    × (has_parent_dir path ≡ false)
    × ((path ≡ settings.data_dir)
        ⊎ ((starts_with path settings.installation_dir ≡ true)
            × (requested ≡ full)
            × IsAlone host settings (plan_cleanup host requested settings).guard))

module _ (P : FilePath → Type 0) where
  removed-All :
      (dir : FilePath)
      → ((is_empty_or_root dir ≡ false) → (has_parent_dir dir ≡ false) → P dir)
      → All P (remove_dir_all_if_exists dir)
  unfolding remove_dir_all_if_exists
  removed-All dir p =
      elim (Bool-cases
        (is_dangerous_cleanup_path dir || (is_empty_or_root dir || has_parent_dir dir))) [
          | inl e ↦ rw e tt
          | inr e ↦ rw e (p (ground (arith, e)) (ground (arith, e)), tt)
        ]

data_dir-All :
    (host : Host) (requested mode : CleanupMode) (settings : Settings)
    → All (IsRemovable host requested settings) (cleanup_data_dir mode settings)
unfolding cleanup_data_dir
data_dir-All host requested mode settings = elim (Bool-cases (should_remove_data mode)) [
  | inl e ↦ rw e (
      removed-All (IsRemovable host requested settings) settings.data_dir (λ a b. (a, b, inl refl)))
  | inr e ↦ rw e tt
]

install_root-All :
    (host : Host) (requested : CleanupMode) (settings : Settings) (dir : Option FilePath)
    → requested ≡ full
    → IsAlone host settings (plan_cleanup host requested settings).guard
    → All (IsRemovable host requested settings) (cleanup_install_root dir settings)
unfolding cleanup_install_root should_remove_install_root
install_root-All host requested settings none r alone = tt
install_root-All host requested settings (some dir) r alone =
    elim (Bool-cases (should_remove_install_root dir settings)) [
      | inl e ↦ rw e (
          removed-All (IsRemovable host requested settings) dir
            (λ a b. (a, b, inr (ground (arith, e), r, alone))))
      | inr e ↦ rw e tt
    ]

install_dir-All :
    (host : Host) (requested mode : CleanupMode) (settings : Settings)
    → (mode ≡ full
        → (requested ≡ full) × IsAlone host settings (plan_cleanup host requested settings).guard)
    → All (IsRemovable host requested settings) (cleanup_install_dir mode settings)
unfolding cleanup_install_dir should_remove_install
install_dir-All host requested data_only settings h = tt
install_dir-All host requested keep settings h = tt
install_dir-All host requested full settings h =
    All-append (IsRemovable host requested settings)
      (remove_dir_all_if_exists settings.installation_dir)
      (cleanup_install_root (parent settings.password_file) settings)
      (removed-All (IsRemovable host requested settings) settings.installation_dir
        (λ a b. (a, b, inr (starts_with_refl _, (h refl).0, (h refl).1))))
      (install_root-All host requested settings (parent settings.password_file) (h refl).0
        (h refl).1)

cleanup_with-All :
    (host : Host) (requested mode : CleanupMode) (settings : Settings)
    → (mode ≡ full
        → (requested ≡ full) × IsAlone host settings (plan_cleanup host requested settings).guard)
    → All (IsRemovable host requested settings) (cleanup_with mode settings)
unfolding cleanup_with
cleanup_with-All host requested keep settings h = tt
cleanup_with-All host requested data_only settings h =
    All-append (IsRemovable host requested settings) (cleanup_data_dir data_only settings)
      (cleanup_install_dir data_only settings) (data_dir-All host requested data_only settings)
      (install_dir-All host requested data_only settings h)
cleanup_with-All host requested full settings h =
    All-append (IsRemovable host requested settings) (cleanup_data_dir full settings)
      (cleanup_install_dir full settings) (data_dir-All host requested full settings)
      (install_dir-All host requested full settings h)

-- Every tree that a cleanup removes is a path that is not empty, not the root and without `..`. It is
-- the cluster's own data directory, or it lies in the install tree; and then a full cleanup was
-- asked for, and where the data directory is a slot, or else the install tree has a slot parent
-- beside it apart from the data directory, the claim guard of that slot parent is held and a complete
-- listing of it shows no other slot whose lock is held.
pub cleanup_in_process-IsRemovable :
    (host : Host) (requested : CleanupMode) (settings : Settings)
    → All (IsRemovable host requested settings) (cleanup_in_process host requested settings)
unfolding cleanup_in_process
cleanup_in_process-IsRemovable host requested settings =
    cleanup_with-All host requested (plan_cleanup host requested settings).mode settings
      (plan_cleanup-full host requested settings)
