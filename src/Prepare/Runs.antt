-- ===== src/Prepare/Runs.antt =====
-- What the steps of a preparation keep of the list of effects.
pub mod Files
pub mod Flows
use pg_embed_setup_unpriv.Prelude.{
  ℕ, ◌≡◌, refl, sym, ap, ◌∙◌, ◌⊎◌, inl, inr, Bool, true, false, Option, none, some, List, [], ◌∷◌,
  ◌++◌, if◌then◌else◌, All, All-append,
}
use mathlib.Core.List.{append_assoc}
use pg_embed_setup_unpriv.Error.{Result, BootstrapErrorKind, other, BootstrapResult, ok, err}
use pg_embed_setup_unpriv.Fallible.{Action, ◌>>=◌, ◌>>◌, pure, Post, Post-continue}
use pg_embed_setup_unpriv.Cleanup.Paths.{FilePath, parent, has_parent, join}
use pg_embed_setup_unpriv.Prepare.Password.{
  Probe, is_file, is_other, not_found, failed, Removal, has_cluster_marker, discard_if, discarded,
  discard_orphaned_password_file,
}
use pg_embed_setup_unpriv.Prepare.{
  SettingsPaths, XdgDirs, Effect, claim, create_dir, chown, chown_tree, chown_lock, discard,
  set_mode, Answer, done, absent, refused, Host, Step, lift,
}
use pg_embed_setup_unpriv.Prepare.Directories.{
  pgpass_mode, if_default, ensure_parents_for_paths, for_parent, discarding, after_answer,
  after_optional, perform, ensure_pgpass_permissions, ensure_dir_with_mode, ensure_dir_for_user,
  make_data_dir_private, handed_over, ensure_pgpass_for_user, ensure_parent_exists,
  ensure_parent_for_user, discard_orphaned, ensure_slot_lock_owned_by_user, prepare_xdg_dirs,
  ensure_xdg_dirs_owned_by_user,
}

-- The marker file was looked for and is not there.
abbrev pub NoCluster : Probe → Type 0
NoCluster probe = (probe ≡ not_found) ⊎ (probe ≡ is_other)

module _ (host : Host) (paths : SettingsPaths) where
  -- Only the password file is discarded, and only if its data directory holds no cluster.
  abbrev pub Allowed : Effect → Type 0
  Allowed (discard path) =
      (path ≡ paths.password_file) × NoCluster (host.marker_later paths.data_dir)
  Allowed (claim path) = Unit
  Allowed (create_dir path) = Unit
  Allowed (chown path) = Unit
  Allowed (chown_tree path) = Unit
  Allowed (chown_lock path) = Unit
  Allowed (set_mode path mode) = Unit

  -- The data directory was made private.
  abbrev pub Private : List Effect → Type 0
  Private log =
      (before : List Effect) × (after : List Effect) × (log
        ≡ before ++ (set_mode paths.data_dir 0o700 ∷ after))

  abbrev pub Kept : Bool → List Effect → Type 0
  Kept false log = All Allowed log
  Kept true log = All Allowed log × Private log

  pub Kept-Allowed : (b : Bool) (log : List Effect) → Kept b log → All Allowed log
  Kept-Allowed false log k = k
  Kept-Allowed true log (k, p) = k

  pub Kept-append :
      (b : Bool) (log : List Effect) (effect : Effect)
      → Allowed effect
      → Kept b log
      → Kept b (log ++ (effect ∷ []))
  Kept-append false log effect a k = All-append Allowed log (effect ∷ []) k (a, tt)
  Kept-append true log effect a (k, (before, after, e)) = (
    All-append Allowed log (effect ∷ []) k (a, tt),
    (
      before,
      after ++ (effect ∷ []),
      ap (λ l. l ++ (effect ∷ [])) e
          ∙ append_assoc before (set_mode paths.data_dir 0o700 ∷ after) (effect ∷ []),
    ),
  )

  -- From a list with `Kept b` a step ends in one with `Kept c` and a value as `good` says, or fails
  -- with allowed effects.
  pub record Runs (b c : Bool) {A : Type 0} (m : Step A) (good : A → Type 0) : Type 0 where
    pub run :
        (log : List Effect)
        → Kept b log
        → Post (λ a s. good a × Kept c s) (λ s. All Allowed s) (m log)

  abbrev pub Fine : Unit {0} → Type 0
  Fine u = Unit

  pub Runs-bind :
      {A B : Type 0} (b c d : Bool) (m : Step A) (next : A → Step B) (good : A → Type 0)
      (good' : B → Type 0)
      → Runs b c m good
      → ((a : A) → good a → Runs c d (next a) good')
      → Runs b d (m >>= next) good'
  Runs-bind b c d m next good good' first rest = record {
    run = λ log k.
        Post-continue (λ a s. good a × Kept c s) (λ a s. good' a × Kept d s) (λ s. All Allowed s)
          (m log) next (first.run log k) (λ a s h. (rest a h.0).run s h.1);
  }

  pub Runs-then :
      {B : Type 0} (b c d : Bool) (m : Step (Unit {0})) (next : Step B) (good : B → Type 0)
      → Runs b c m Fine
      → Runs c d next good
      → Runs b d (m >> next) good
  Runs-then b c d m next good first rest =
      Runs-bind b c d m (λ _. next) Fine good first (λ _ _. rest)

  pub Runs-pure :
      {A : Type 0} (b : Bool) (a : A) (good : A → Type 0) → good a → Runs b b (pure a) good
  Runs-pure b a good g = record { run = λ log k. (g, k) }

  pub Runs-lift : {A : Type 0} (b : Bool) (r : BootstrapResult A) → Runs b b (lift r) (λ _. Unit)
  Runs-lift b (ok a) = record { run = λ log k. (tt, k) }
  Runs-lift b (err e) = record { run = λ log k. Kept-Allowed b log k }

  after_answer-Runs :
      (b : Bool) (effect : Effect) (answer : Answer)
      → Allowed effect
      → Runs b b (after_answer effect answer) Fine
  unfolding after_answer
  after_answer-Runs b effect done a = record { run = λ log k. (tt, Kept-append b log effect a k) }
  after_answer-Runs b effect absent a = record { run = λ log k. Kept-Allowed b log k }
  after_answer-Runs b effect refused a = record { run = λ log k. Kept-Allowed b log k }

  pub perform-Runs :
      (b : Bool) (effect : Effect) → Allowed effect → Runs b b (perform host effect) Fine
  unfolding perform
  perform-Runs b effect a = after_answer-Runs b effect (host.answer effect) a

  private-Runs :
      (b : Bool) (answer : Answer)
      → Runs b true (after_answer (set_mode paths.data_dir 0o700) answer) Fine
  unfolding after_answer
  private-Runs b done = record {
    run = λ log k. (
      tt,
      (
        All-append Allowed log (set_mode paths.data_dir 0o700 ∷ []) (Kept-Allowed b log k) (tt, tt),
        (log, [], refl),
      ),
    );
  }
  private-Runs b absent = record { run = λ log k. Kept-Allowed b log k }
  private-Runs b refused = record { run = λ log k. Kept-Allowed b log k }

  pub ensure_dir_with_mode-Runs :
      (b : Bool) (path : FilePath) (mode : ℕ) → Runs b b (ensure_dir_with_mode host path mode) Fine
  unfolding ensure_dir_with_mode
  ensure_dir_with_mode-Runs b path mode =
      Runs-then b b b (perform host (create_dir path)) (perform host (set_mode path mode)) Fine
        (perform-Runs b (create_dir path) tt) (perform-Runs b (set_mode path mode) tt)

  pub ensure_dir_for_user-Runs :
      (b : Bool) (path : FilePath) (mode : ℕ) → Runs b b (ensure_dir_for_user host path mode) Fine
  unfolding ensure_dir_for_user
  ensure_dir_for_user-Runs b path mode =
      Runs-then b b b (perform host (create_dir path) >> perform host (chown path))
        (perform host (set_mode path mode)) Fine
        (Runs-then b b b (perform host (create_dir path)) (perform host (chown path)) Fine
          (perform-Runs b (create_dir path) tt) (perform-Runs b (chown path) tt))
        (perform-Runs b (set_mode path mode) tt)

  -- The data directory is made private, without and with its owner.
  pub ensure_dir_with_mode-Private :
      Runs false true (ensure_dir_with_mode host paths.data_dir 0o700) Fine
  unfolding ensure_dir_with_mode perform
  ensure_dir_with_mode-Private =
      Runs-then false false true (perform host (create_dir paths.data_dir))
        (perform host (set_mode paths.data_dir 0o700)) Fine
        (perform-Runs false (create_dir paths.data_dir) tt)
        (private-Runs false (host.answer (set_mode paths.data_dir 0o700)))

  pub make_data_dir_private-Private :
      Runs false true (make_data_dir_private host paths.data_dir) Fine
  unfolding make_data_dir_private ensure_dir_for_user perform
  make_data_dir_private-Private =
      Runs-then false false true
        (perform host (create_dir paths.data_dir) >> perform host (chown paths.data_dir))
        (perform host (set_mode paths.data_dir 0o700)) Fine
        (Runs-then false false false (perform host (create_dir paths.data_dir))
          (perform host (chown paths.data_dir)) Fine
          (perform-Runs false (create_dir paths.data_dir) tt)
          (perform-Runs false (chown paths.data_dir) tt))
        (private-Runs false (host.answer (set_mode paths.data_dir 0o700)))

  pub if_default-Runs :
      (b test : Bool) (step : Step (Unit {0}))
      → Runs b b step Fine
      → Runs b b (if_default test step) Fine
  unfolding if_default
  if_default-Runs b true step h = record { run = λ log k. h.run log k }
  if_default-Runs b false step h = record { run = λ log k. (tt, k) }

  for_parent-Runs :
      (b : Bool) (above : Option FilePath) (step : FilePath → Step (Unit {0}))
      → ((path : FilePath) → Runs b b (step path) Fine)
      → Runs b b (for_parent above step) Fine
  unfolding for_parent
  for_parent-Runs b none step h = record { run = λ log k. (tt, k) }
  for_parent-Runs b (some above) step h = record { run = λ log k. (h above).run log k }

  ensure_parents_for_paths-Runs :
      (b : Bool) (step : FilePath → Step (Unit {0}))
      → ((path : FilePath) → Runs b b (step path) Fine)
      → Runs b b (ensure_parents_for_paths step paths) Fine
  unfolding ensure_parents_for_paths
  ensure_parents_for_paths-Runs b step h =
      Runs-then b b b (if_default paths.install_default (step paths.install_dir))
        (if_default paths.data_default (step paths.data_dir)) Fine
        (if_default-Runs b paths.install_default (step paths.install_dir) (h paths.install_dir))
        (if_default-Runs b paths.data_default (step paths.data_dir) (h paths.data_dir))

  pub parents_exist-Runs :
      (b : Bool) → Runs b b (ensure_parents_for_paths (ensure_parent_exists host) paths) Fine
  unfolding ensure_parent_exists
  parents_exist-Runs b = ensure_parents_for_paths-Runs b (ensure_parent_exists host) (λ path.
      for_parent-Runs b (parent path) (λ above. perform host (create_dir above))
        (λ above. perform-Runs b (create_dir above) tt))

  pub parents_for_user-Runs :
      (b : Bool) → Runs b b (ensure_parents_for_paths (ensure_parent_for_user host) paths) Fine
  unfolding ensure_parent_for_user
  parents_for_user-Runs b = ensure_parents_for_paths-Runs b (ensure_parent_for_user host) (λ path.
      for_parent-Runs b (parent path) (λ above. ensure_dir_for_user host above 0o755)
        (λ above. ensure_dir_for_user-Runs b above 0o755))
