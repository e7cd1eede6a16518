-- ===== src/Prepare/Laws.antt =====
-- What a preparation leaves behind, on success and on failure.
use pg_embed_setup_unpriv.Prelude.{
  ℕ, ltb, ◌<◌, ◌≡◌, refl, sym, ◌⊎◌, inl, inr, Bool, true, false, List, [], All, if◌then◌else◌,
  subst, arith,
}
use pg_embed_setup_unpriv.Error.{Result, BootstrapErrorKind, other, BootstrapResult, ok, err}
use pg_embed_setup_unpriv.Fallible.{continue, Post}
use pg_embed_setup_unpriv.Installation.{ExecutionPrivileges, root, unprivileged}
use pg_embed_setup_unpriv.Cleanup.Paths.{FilePath}
use pg_embed_setup_unpriv.Prepare.{
  DataLayout, PathCfg, Settings, SettingsPaths, PreparedBootstrap, Effect, Host, Step, lift,
}
use pg_embed_setup_unpriv.Prepare.Layout.{Choice}
use pg_embed_setup_unpriv.Prepare.Flows.{
  root_bind_host, use_port, choose, prepare_unprivileged, bootstrap_unprivileged, ensure_root_port,
  prepare_root, bootstrap_with_root, prepare_bootstrap,
}
use pg_embed_setup_unpriv.Prepare.Choice.{IsEarly, IsChosen, Chosen, choose-Chosen}
use pg_embed_setup_unpriv.Prepare.Runs.{Allowed, Private, Kept, Runs}
use pg_embed_setup_unpriv.Prepare.Runs.Flows.{
  IsPrepared, prepare_unprivileged-Runs, prepare_root-Runs,
}

module _ (host : Host) where
  -- The default root and the settings that the paths are chosen from: as root those of `nobody`,
  -- with the data kept, and with a port.
  pub data Starts : ExecutionPrivileges → Settings → FilePath → Settings → Type 0 where
    as_self : (settings : Settings) → Starts unprivileged settings host.own_root settings
    as_nobody :
        (settings : Settings) (user_root : FilePath) (port : ℕ)
        → host.is_drop_supported ≡ true
        → host.nobody_root ≡ ok user_root
        → ((0 < settings.port) × (port ≡ settings.port))
          ⊎ ((settings.port ≡ 0) × (host.free_port (root_bind_host settings.host) ≡ ok port))
        → Starts root settings user_root (record settings { temporary = false; port = port })

  module _ (privileges : ExecutionPrivileges) (settings : Settings) (cfg : PathCfg)
      (layout : DataLayout) where
    abbrev pub Outcome : Result BootstrapErrorKind PreparedBootstrap × List Effect → Type 0
    Outcome (ok p, log) =
        (user_root : FilePath) × (start : Settings) × (paths : SettingsPaths) × Starts privileges
          settings user_root start
        × IsChosen host user_root start cfg layout p.settings paths
        × (p.environment.pgpass_file ≡ paths.password_file)
        × (p.environment.home ≡ paths.install_dir)
        × Private host paths log
        × All (Allowed host paths) log
    Outcome (err e, log) =
        IsEarly log
        ⊎ ((user_root : FilePath) × (start : Settings) × (chosen : Settings)
            × (paths : SettingsPaths) × Starts privileges settings user_root start
            × IsChosen host user_root start cfg layout chosen paths
            × All (Allowed host paths) log)

    chosen-Outcome :
        (user_root : FilePath) (start : Settings)
        → Starts privileges settings user_root start
        → (step : Choice → Step PreparedBootstrap)
        → ((chosen : Settings) (paths : SettingsPaths) (has_slot : Bool)
            → Runs host paths false true
                (step (chosen, paths, has_slot))
                (IsPrepared host chosen paths))
        → Outcome (continue (choose host user_root start cfg layout []) step)
    chosen-Outcome user_root start s step runs =
        by_choice (choose host user_root start cfg layout [])
          (choose-Chosen host user_root start cfg layout)
      where
        early :
            (paths : SettingsPaths) (log : List Effect) → IsEarly log → All (Allowed host paths) log
        early paths log (inl e) = subst (λ l. All (Allowed host paths) l) (sym e) tt
        early paths log (inr (dir, e)) = subst (λ l. All (Allowed host paths) l) (sym e) (tt, tt)

        by_run :
            (chosen : Settings) (paths : SettingsPaths)
            → IsChosen host user_root start cfg layout chosen paths
            → (r : Result BootstrapErrorKind PreparedBootstrap × List Effect)
            → Post
                (λ p log. IsPrepared host chosen paths p × Kept host paths true log)
                (λ log. All (Allowed host paths) log)
                r
            → Outcome r
        by_run chosen paths c (err e, log) h = inr (user_root, start, chosen, paths, s, c, h)
        by_run chosen paths c (ok p, log) (k, (all, private)) = (
          user_root,
          start,
          paths,
          s,
          subst (λ x. IsChosen host user_root start cfg layout x paths) (sym k.same_settings) c,
          k.pgpass_file,
          k.home,
          private,
          all,
        )

        by_choice :
            (r : Result BootstrapErrorKind Choice × List Effect)
            → Post (λ c log. Chosen host user_root start cfg layout c × IsEarly log) IsEarly r
            → Outcome (continue r step)
        by_choice (err e, log) h = inl h
        by_choice (ok (chosen, paths, has_slot), log) (c, e) =
            by_run chosen paths c (step (chosen, paths, has_slot) log)
              ((runs chosen paths has_slot).run log (early paths log e))

  prepare_unprivileged-Outcome :
      (settings : Settings) (cfg : PathCfg) (layout : DataLayout)
      → Outcome unprivileged settings cfg layout
          (bootstrap_unprivileged host settings cfg layout [])
  unfolding bootstrap_unprivileged
  prepare_unprivileged-Outcome settings cfg layout =
      chosen-Outcome unprivileged settings cfg layout host.own_root settings (as_self settings)
        (prepare_unprivileged host) (prepare_unprivileged-Runs host)

  -- The port of the settings, or one that the system gives.
  ensure_root_port-eq-ok :
      (settings ported : Settings)
      → ensure_root_port host settings ≡ ok ported
      → (port : ℕ) × (ported ≡ record settings { port = port })
        × (((0 < settings.port) × (port ≡ settings.port))
            ⊎ ((settings.port ≡ 0) × (host.free_port (root_bind_host settings.host) ≡ ok port)))
  unfolding ensure_root_port use_port
  ensure_root_port-eq-ok settings ported h = by_port (ltb 0 settings.port) refl h
    where
      by_free :
          (r : BootstrapResult ℕ)
          → use_port settings r ≡ ok ported
          → (port : ℕ) × (ported ≡ record settings { port = port }) × (r ≡ ok port)
      by_free (err e) k = cc
      by_free (ok port) k = (port, cc, refl)

      by_port :
          (test : Bool)
          → ltb 0 settings.port ≡ test
          → (if test
              then ok settings
              else use_port settings (host.free_port (root_bind_host settings.host)))
            ≡ ok ported
          → (port : ℕ) × (ported ≡ record settings { port = port })
            × (((0 < settings.port) × (port ≡ settings.port))
                ⊎ ((settings.port ≡ 0) × (host.free_port (root_bind_host settings.host) ≡ ok port)))
      by_port true t k = (settings.port, cc, inl (ground (arith, t), refl))
      by_port false t k =
          let (port, e, f) = by_free (host.free_port (root_bind_host settings.host)) k in
          (port, e, inr (ground (arith, t), f))

  bootstrap_with_root-Outcome :
      (settings : Settings) (cfg : PathCfg) (layout : DataLayout)
      → host.is_drop_supported ≡ true
      → Outcome root settings cfg layout (bootstrap_with_root host settings cfg layout [])
  unfolding bootstrap_with_root
  bootstrap_with_root-Outcome settings cfg layout supported =
      by_port (ensure_root_port host (record settings { temporary = false })) refl
    where
      by_root :
          (port : ℕ)
          → ((0 < settings.port) × (port ≡ settings.port))
            ⊎ ((settings.port ≡ 0) × (host.free_port (root_bind_host settings.host) ≡ ok port))
          → (r : BootstrapResult FilePath) → host.nobody_root ≡ r
          → Outcome root settings cfg layout (
              continue (lift r []) (λ user_root s.
                continue
                  (choose host user_root
                    (record settings { temporary = false; port = port })
                    cfg
                    layout
                    s)
                  (prepare_root host)))
      by_root port p (err e) h = inl (inl refl)
      by_root port p (ok user_root) h =
          chosen-Outcome root settings cfg layout user_root
            (record settings { temporary = false; port = port })
            (as_nobody settings user_root port supported h p) (prepare_root host)
            (prepare_root-Runs host)

      by_port :
          (r : BootstrapResult Settings)
          → ensure_root_port host (record settings { temporary = false }) ≡ r
          → Outcome root settings cfg layout (
              continue (lift r []) (λ ported s. continue (lift host.nobody_root s) (λ user_root s.
                continue (choose host user_root ported cfg layout s) (prepare_root host))))
      by_port (err e) h = inl (inl refl)
      by_port (ok ported) h =
          let (port, e, p) =
            ensure_root_port-eq-ok (record settings { temporary = false }) ported h in
          subst
            (λ x. Outcome root settings cfg layout (
              continue (lift host.nobody_root []) (λ user_root s.
                continue (choose host user_root x cfg layout s) (prepare_root host))))
            (sym e) (by_root port p host.nobody_root refl)

  -- On success the settings are those chosen for the configuration: an explicit directory is kept, a
  -- default one is below the root, and of the per-cluster layout a claimed slot. The password is the
  -- explicit one, that of the cluster in the data directory, or, without a cluster, the generated
  -- one. The environment names the password file and the installation, and the data directory was
  -- given mode 0700. As root the data are kept, and there is a port. On every path, errors included,
  -- nothing but the chosen password file is discarded, and only if the later probe finds no cluster;
  -- a failure before the paths are chosen leaves at most a claimed slot.
  pub prepare_bootstrap-Outcome :
      (privileges : ExecutionPrivileges) (settings : Settings) (cfg : PathCfg) (layout : DataLayout)
      → Outcome privileges settings cfg layout
          (prepare_bootstrap host privileges settings cfg layout [])
  unfolding prepare_bootstrap
  prepare_bootstrap-Outcome root settings cfg layout = by_support host.is_drop_supported refl
    where
      by_support :
          (test : Bool)
          → host.is_drop_supported ≡ test
          → Outcome root settings cfg layout
              (if test then bootstrap_with_root host settings cfg layout [] else (err other, []))
      by_support true h = bootstrap_with_root-Outcome settings cfg layout h
      by_support false h = inl (inl refl)
  prepare_bootstrap-Outcome unprivileged settings cfg layout =
      prepare_unprivileged-Outcome settings cfg layout
