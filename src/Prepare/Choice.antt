-- ===== src/Prepare/Choice.antt =====
-- What a preparation chooses: directories, slot, password file and password.
use pg_embed_setup_unpriv.Prelude.{
  ◌≡◌, refl, sym, subst, ◌∙◌, ◌⊎◌, inl, inr, Bool, true, false, none, some, List, [], ◌∷◌,
  if◌then◌else◌, Bool-cases,
}
use pg_embed_setup_unpriv.Prelude.Texts.{Text, codes}
use pg_embed_setup_unpriv.Error.{BootstrapResult, ok, err, ◌>>=◌}
use pg_embed_setup_unpriv.Fallible.{Post, Post-continue, continue}
use pg_embed_setup_unpriv.Cleanup.Paths.{FilePath, join}
use pg_embed_setup_unpriv.Prepare.Password.{PasswordReuseOutcome, reuse_existing_password}
use pg_embed_setup_unpriv.Prepare.Password.Laws.{Reuse, reuse_existing_password-Reuse}
use pg_embed_setup_unpriv.Prepare.{
  DataLayout, per_cluster, persistent, PathCfg, Settings, SettingsPaths, ClusterSlot, Effect, claim,
  Host, lift, is_some,
}
use pg_embed_setup_unpriv.Prepare.Layout.{
  root_or, use_password, use_slot, resolve_settings_paths_for_uid, claimed_slot, claim_derived_slot,
  adopt_password,
}
use pg_embed_setup_unpriv.Prepare.Flows.{choose}
use pg_embed_setup_unpriv.Prepare.Resolution.{IsDirectory, IsResolved, resolve-IsResolved}

-- Nothing was done, or a slot was claimed and nothing else was done.
abbrev pub IsEarly : List Effect → Type 0
IsEarly log = (log ≡ []) ⊎ ((dir : FilePath) × (log ≡ claim dir ∷ []))

module _ (host : Host) (user_root : FilePath) (settings : Settings) (cfg : PathCfg) where
  -- Where the cluster is, by the layout.
  pub data IsPlaced (layout : DataLayout) (paths : SettingsPaths) : Type 0 where
    in_slot :
        (slot : ClusterSlot)
        → layout ≡ per_cluster
        → cfg.data_dir ≡ none
        → host.claim_slot (join (root_or cfg.embed_root user_root) (codes "data")) ≡ ok slot
        → paths.data_dir ≡ slot.data_dir
        → paths.password_file ≡ slot.password_file
        → IsPlaced layout paths
    derived :
        layout ≡ persistent
        → cfg.data_dir ≡ none
        → paths.data_dir ≡ join (root_or cfg.embed_root user_root) (codes "data")
        → paths.password_file ≡ join paths.install_dir (codes ".pgpass")
        → IsPlaced layout paths
    given :
        (dir : FilePath)
        → cfg.data_dir ≡ some dir
        → paths.data_dir ≡ settings.data_dir
        → paths.password_file ≡ join paths.install_dir (codes ".pgpass")
        → IsPlaced layout paths

  -- The settings and the paths that belong to the configuration, and the password of the cluster
  -- that is there.
  pub record IsChosen (layout : DataLayout) (chosen : Settings) (paths : SettingsPaths)
      : Type 0 where
    pub install :
        IsDirectory host user_root settings cfg cfg.runtime_dir
          (codes "install")
          settings.installation_dir
          paths.install_dir
    pub place : IsPlaced layout paths
    pub same_install : chosen.installation_dir ≡ paths.install_dir
    pub same_data : chosen.data_dir ≡ paths.data_dir
    pub same_file : chosen.password_file ≡ paths.password_file
    pub same_temporary : chosen.temporary ≡ settings.temporary
    pub same_port : chosen.port ≡ settings.port
    pub outcome : PasswordReuseOutcome
    pub reuse :
        Reuse host.is_utf8 settings.password
          (host.marker paths.data_dir)
          (host.stored paths.password_file)
          (is_some cfg.password)
          (ok (chosen.password, outcome))

  record IsClaimed (layout : DataLayout) (chosen : Settings) (paths : SettingsPaths) : Type 0 where
    pub install :
        IsDirectory host user_root settings cfg cfg.runtime_dir
          (codes "install")
          settings.installation_dir
          paths.install_dir
    pub place : IsPlaced layout paths
    pub same_install : chosen.installation_dir ≡ paths.install_dir
    pub same_data : chosen.data_dir ≡ paths.data_dir
    pub same_file : chosen.password_file ≡ paths.password_file
    pub same_password : chosen.password ≡ settings.password
    pub same_temporary : chosen.temporary ≡ settings.temporary
    pub same_port : chosen.port ≡ settings.port

  abbrev Claimed : DataLayout → Settings × SettingsPaths × Bool → Type 0
  Claimed layout (chosen, paths, has_slot) = IsClaimed layout chosen paths

  abbrev pub Chosen : DataLayout → Settings × SettingsPaths × Bool → Type 0
  Chosen layout (chosen, paths, has_slot) = IsChosen layout chosen paths

  unslotted :
      (layout : DataLayout) (chosen : Settings) (paths : SettingsPaths)
      → IsResolved host user_root settings cfg (chosen, paths)
      → IsPlaced layout paths
      → IsClaimed layout chosen paths
  unslotted layout chosen paths r place = record {
    install = r.install;
    place = place;
    same_install = r.same_install;
    same_data = r.same_data;
    same_file = r.same_file;
    same_password = r.same_password;
    same_temporary = r.same_temporary;
    same_port = r.same_port;
  }

  -- The data directory below the root, where none is configured.
  derived_dir :
      (chosen : Settings) (paths : SettingsPaths)
      → IsResolved host user_root settings cfg (chosen, paths)
      → cfg.data_dir ≡ none
      → paths.data_dir ≡ join (root_or cfg.embed_root user_root) (codes "data")
  derived_dir chosen paths r c = elim (r.data_dir) [
    | inl (_, e) ↦ e
    | inr (dir, e, _) ↦ absurd (clash dir (sym c ∙ e))
  ]
    where
      clash : (dir : FilePath) → none ≡ some dir → ⊥
      clash dir k = cc

  given_dir :
      (layout : DataLayout) (chosen : Settings) (paths : SettingsPaths)
      → IsResolved host user_root settings cfg (chosen, paths)
      → (dir : FilePath) → cfg.data_dir ≡ some dir
      → IsPlaced layout paths
  given_dir layout chosen paths r dir c = elim (r.data_dir) [
    | inl (e, _) ↦ absurd (clash (sym e ∙ c))
    | inr (_, _, e) ↦ given dir c e r.password_file
  ]
    where
      clash : none ≡ some dir → ⊥
      clash k = cc

  claim-IsClaimed :
      (layout : DataLayout) (chosen : Settings) (paths : SettingsPaths)
      → IsResolved host user_root settings cfg (chosen, paths)
      → Post
          (λ c log. Claimed layout c × IsEarly log)
          IsEarly
          (claim_derived_slot host layout (chosen, paths) [])
  unfolding claim_derived_slot claimed_slot use_slot
  claim-IsClaimed persistent chosen paths r = (
    unslotted persistent chosen paths r (elim (Bool-cases paths.data_default) [
      | inl d ↦
          derived refl (r.derived d) (derived_dir chosen paths r (r.derived d)) r.password_file
      | inr d ↦ let (dir, c) = r.given d in given_dir persistent chosen paths r dir c
    ]),
    inl refl,
  )
  claim-IsClaimed per_cluster chosen paths r = by_default paths.data_default refl
    where
      by_slot :
          cfg.data_dir ≡ none
          → (claim : BootstrapResult ClusterSlot) → host.claim_slot paths.data_dir ≡ claim
          → Post
              (λ c log. Claimed per_cluster c × IsEarly log)
              IsEarly
              (claimed_slot host (chosen, paths) claim [])
      by_slot n (err e) h = inl refl
      by_slot n (ok slot) h = (
        record {
          install = r.install;
          place =
              in_slot slot refl n
                (subst (λ dir. host.claim_slot dir ≡ ok slot) (derived_dir chosen paths r n) h) refl
                refl;
          same_install = r.same_install;
          same_data = refl;
          same_file = refl;
          same_password = r.same_password;
          same_temporary = r.same_temporary;
          same_port = r.same_port;
        },
        inr (slot.data_dir, refl),
      )

      by_default :
          (test : Bool)
          → paths.data_default ≡ test
          → Post
              (λ c log. Claimed per_cluster c × IsEarly log)
              IsEarly
              (if test
                then claimed_slot host (chosen, paths) (host.claim_slot paths.data_dir) []
                else (ok (chosen, paths, false), []))
      by_default true d = by_slot (r.derived d) (host.claim_slot paths.data_dir) refl
      by_default false d =
          let (dir, c) = r.given d in
          (
            unslotted per_cluster chosen paths r (given_dir per_cluster chosen paths r dir c),
            inl refl,
          )

  adopt-IsChosen :
      (layout : DataLayout) (chosen : Settings) (paths : SettingsPaths) (has_slot : Bool)
      (log : List Effect)
      → IsClaimed layout chosen paths
      → IsEarly log
      → Post
          (λ c log. Chosen layout c × IsEarly log)
          IsEarly
          (lift (adopt_password host cfg (chosen, paths, has_slot)) log)
  unfolding adopt_password use_password
  adopt-IsChosen layout chosen paths has_slot log c early =
      by_reuse
        (reuse_existing_password host.is_utf8 chosen.password (host.marker paths.data_dir)
          (host.stored paths.password_file) (is_some cfg.password))
        (subst
          (λ password.
            Reuse host.is_utf8 settings.password (host.marker paths.data_dir)
              (host.stored paths.password_file) (is_some cfg.password)
              (reuse_existing_password host.is_utf8 password (host.marker paths.data_dir)
                (host.stored paths.password_file) (is_some cfg.password)))
          (sym c.same_password)
          (reuse_existing_password-Reuse host.is_utf8 settings.password (host.marker paths.data_dir)
            (host.stored paths.password_file) (is_some cfg.password)))
    where
      by_reuse :
          (r : BootstrapResult (Text × PasswordReuseOutcome))
          → Reuse host.is_utf8 settings.password
              (host.marker paths.data_dir)
              (host.stored paths.password_file)
              (is_some cfg.password)
              r
          → Post
              (λ c log. Chosen layout c × IsEarly log)
              IsEarly
              (lift (r >>= λ reuse. ok (use_password (chosen, paths, has_slot) reuse)) log)
      by_reuse (err e) u = early
      by_reuse (ok (password, outcome)) u = (
        record {
          install = c.install;
          place = c.place;
          same_install = c.same_install;
          same_data = c.same_data;
          same_file = c.same_file;
          same_temporary = c.same_temporary;
          same_port = c.same_port;
          outcome = outcome;
          reuse = u;
        },
        early,
      )

  pub choose-Chosen :
      (layout : DataLayout)
      → Post
          (λ c log. Chosen layout c × IsEarly log)
          IsEarly
          (choose host user_root settings cfg layout [])
  unfolding choose
  choose-Chosen layout = by_paths (resolve_settings_paths_for_uid host user_root settings cfg) refl
    where
      by_paths :
          (r : BootstrapResult (Settings × SettingsPaths))
          → resolve_settings_paths_for_uid host user_root settings cfg ≡ r
          → Post
              (λ c log. Chosen layout c × IsEarly log)
              IsEarly
              (continue
                (continue (lift r []) (claim_derived_slot host layout))
                (λ choice. lift (adopt_password host cfg choice)))
      by_paths (err e) h = inl refl
      by_paths (ok (chosen, paths)) h =
          Post-continue (λ c log. Claimed layout c × IsEarly log)
            (λ c log. Chosen layout c × IsEarly log) IsEarly
            (claim_derived_slot host layout (chosen, paths) [])
            (λ choice. lift (adopt_password host cfg choice))
            (claim-IsClaimed layout chosen paths
              (resolve-IsResolved host user_root settings cfg (chosen, paths) h))
            (λ (s, p, slot) log (c, early). adopt-IsChosen layout s p slot log c early)
