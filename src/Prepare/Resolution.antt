-- ===== src/Prepare/Resolution.antt =====
-- The directories that the configuration leads to, before a slot is claimed.
use pg_embed_setup_unpriv.Prelude.{
  ◌≡◌, refl, sym, ap, subst, ◌∙◌, ◌⊎◌, inl, inr, Bool, true, false, ◌&&◌, Option, none, some,
  Bool-cases,
}
use pg_embed_setup_unpriv.Prelude.Texts.{Text, codes}
use pg_embed_setup_unpriv.Error.{other, BootstrapResult, ok, err}
use pg_embed_setup_unpriv.Cleanup.Paths.{FilePath, join}
use pg_embed_setup_unpriv.Prepare.{PathCfg, Settings, SettingsPaths, Host}
use pg_embed_setup_unpriv.Prepare.Layout.{
  root_or, default_paths_under, or_default, paths_of, settings_paths_from_settings,
  resolve_settings_paths_for_uid,
}

or_default-cases :
    (configured : Option FilePath) (default current : FilePath)
    → ((configured ≡ none) × (or_default configured default current ≡ (default, true)))
      ⊎ ((dir : FilePath) × (configured ≡ some dir)
          × (or_default configured default current ≡ (current, false)))
unfolding or_default
or_default-cases none default current = inl (refl, refl)
or_default-cases (some dir) default current = inr (dir, refl, refl)

module _ (host : Host) (user_root : FilePath) (settings : Settings) (cfg : PathCfg) where
  -- A directory with the name below the root, unless it is configured.
  abbrev pub IsDirectory : Option FilePath → Text → FilePath → FilePath → Type 0
  IsDirectory configured name current dir =
      ((configured ≡ none) × (dir ≡ join (root_or cfg.embed_root user_root) name))
      ⊎ ((given : FilePath) × (configured ≡ some given) × (dir ≡ current))

  or_default-IsDirectory :
      (configured : Option FilePath) (name : Text) (current : FilePath)
      → IsDirectory configured name current
          (or_default configured (join (root_or cfg.embed_root user_root) name) current).0
  unfolding or_default
  or_default-IsDirectory none name current = inl (refl, refl)
  or_default-IsDirectory (some dir) name current = inr (dir, refl, refl)

  pub record IsResolved (found : Settings × SettingsPaths) : Type 0 where
    pub install :
        IsDirectory cfg.runtime_dir (codes "install") settings.installation_dir found.1.install_dir
    pub data_dir : IsDirectory cfg.data_dir (codes "data") settings.data_dir found.1.data_dir
    pub derived : found.1.data_default ≡ true → cfg.data_dir ≡ none
    pub given : found.1.data_default ≡ false → (dir : FilePath) × (cfg.data_dir ≡ some dir)
    pub password_file : found.1.password_file ≡ join found.1.install_dir (codes ".pgpass")
    pub same_install : found.0.installation_dir ≡ found.1.install_dir
    pub same_data : found.0.data_dir ≡ found.1.data_dir
    pub same_file : found.0.password_file ≡ found.1.password_file
    pub same_password : found.0.password ≡ settings.password
    pub same_temporary : found.0.temporary ≡ settings.temporary
    pub same_port : found.0.port ≡ settings.port

  pub resolve-IsResolved :
      (found : Settings × SettingsPaths)
      → resolve_settings_paths_for_uid host user_root settings cfg ≡ ok found
      → IsResolved found
  unfolding resolve_settings_paths_for_uid settings_paths_from_settings paths_of default_paths_under
  resolve-IsResolved found h =
      let base = root_or cfg.embed_root user_root in
      let install =
        or_default cfg.runtime_dir (join base (codes "install")) settings.installation_dir in
      let directory = or_default cfg.data_dir (join base (codes "data")) settings.data_dir in
      elim (Bool-cases (host.is_utf8_path install.0 && host.is_utf8_path directory.0)) [
        | inl e ↦ subst IsResolved (some_ok (rw e at h)) (record {
          install =
              or_default-IsDirectory cfg.runtime_dir (codes "install") settings.installation_dir;
          data_dir = or_default-IsDirectory cfg.data_dir (codes "data") settings.data_dir;
          derived = λ d.
              elim (or_default-cases cfg.data_dir (join base (codes "data")) settings.data_dir) [
                | inl (c, f) ↦ c
                | inr (dir, c, f) ↦ absurd (clash (sym d ∙ ap (λ p. p.1) f))
              ];
          given = λ d.
              elim (or_default-cases cfg.data_dir (join base (codes "data")) settings.data_dir) [
                | inl (c, f) ↦ absurd (clash (sym (ap (λ p. p.1) f) ∙ d))
                | inr (dir, c, f) ↦ (dir, c)
              ];
          password_file = refl;
          same_install = refl;
          same_data = refl;
          same_file = refl;
          same_password = refl;
          same_temporary = refl;
          same_port = refl;
        })
        | inr e ↦ absurd (failure (rw e at h))
      ]
    where
      clash : ◌≡◌ {A = Bool} true false → ⊥
      clash k = cc

      failure : ◌≡◌ {A = BootstrapResult (Settings × SettingsPaths)} (err other) (ok found) → ⊥
      failure k = cc

      some_ok :
          {x : Settings × SettingsPaths}
          → ◌≡◌ {A = BootstrapResult (Settings × SettingsPaths)} (ok x) (ok found)
          → x ≡ found
      some_ok k = cc
