-- ===== src/Prepare.antt =====
-- src/bootstrap/prepare/mod.rs, layout.rs and root.rs: the paths, the password and the directories of
-- a cluster before it is set up. `Host` answers for the operating system, the claim of a slot and the
-- time zone. The state is the list of the effects that went through, oldest first; one that fails is
-- not in it.
pub mod Password
pub mod Layout
pub mod Directories
pub mod Flows
pub mod Resolution
pub mod Choice
pub mod Runs
pub mod Laws
use pg_embed_setup_unpriv.Prelude.{
  ℕ, ltb, Bool, true, false, not, ◌&&◌, ◌||◌, Option, none, some, List, [], ◌∷◌, ◌++◌, ◌==◌, nat_eq,
  if◌then◌else◌,
}
use pg_embed_setup_unpriv.Prelude.Texts.{Text, codes}
use pg_embed_setup_unpriv.Error.{BootstrapErrorKind, other, Result, BootstrapResult, ok, err}
use pg_embed_setup_unpriv.Fallible.{Action, ◌>>=◌, ◌>>◌}
use pg_embed_setup_unpriv.Installation.{ExecutionPrivileges, root, unprivileged}
use pg_embed_setup_unpriv.Cleanup.Paths.{FilePath, parent, join}
use pg_embed_setup_unpriv.Prepare.Password.{
  Probe, StoredFile, Removal, PasswordReuseOutcome, reuse_existing_password,
  discard_orphaned_password_file,
}

pub data DataLayout : Type 0 where
  per_cluster persistent : DataLayout

-- The part of `PgEnvCfg` that the preparation reads.
pub record PathCfg : Type 0 where
  pub embed_root : Option FilePath
  pub runtime_dir : Option FilePath
  pub data_dir : Option FilePath
  pub password : Option Text

pub record Settings : Type 0 where
  pub installation_dir : FilePath
  pub data_dir : FilePath
  pub password_file : FilePath
  pub password : Text
  pub host : Text
  pub port : ℕ
  pub temporary : Bool

pub record SettingsPaths : Type 0 where
  pub install_dir : FilePath
  pub data_dir : FilePath
  pub password_file : FilePath
  pub install_default : Bool
  pub data_default : Bool

pub record ClusterSlot : Type 0 where
  pub data_dir : FilePath
  pub password_file : FilePath

pub record TimezoneEnv : Type 0 where
  pub dir : Option FilePath
  pub zone : Text

pub record XdgDirs : Type 0 where
  pub home : FilePath
  pub cache : FilePath
  pub runtime : FilePath

pub record TestBootstrapEnvironment : Type 0 where
  pub home : FilePath
  pub xdg_cache_home : FilePath
  pub xdg_runtime_dir : FilePath
  pub pgpass_file : FilePath
  pub tz_dir : Option FilePath
  pub timezone : Text

pub record PreparedBootstrap : Type 0 where
  pub settings : Settings
  pub environment : TestBootstrapEnvironment

pub data Effect : Type 0 where
  claim create_dir chown chown_tree chown_lock discard : FilePath → Effect
  set_mode : FilePath → ℕ → Effect

-- What comes of an effect.
pub data Answer : Type 0 where
  done absent refused : Answer

-- `marker` is the probe of a data directory before its password is read, and `marker_later` the one
-- before its password file is discarded; `pgpass` is what is found when the password file is opened to
-- be handed over.
pub record Host : Type 0 where
  pub is_drop_supported : Bool
  pub own_root : FilePath
  pub nobody_root : BootstrapResult FilePath
  pub free_port : Text → BootstrapResult ℕ
  pub is_utf8_path : FilePath → Bool
  pub is_utf8 : List ℕ → Bool
  pub claim_slot : FilePath → BootstrapResult ClusterSlot
  pub marker : FilePath → Probe
  pub stored : FilePath → StoredFile
  pub marker_later : FilePath → Probe
  pub removal : FilePath → Removal
  pub pgpass : FilePath → Probe
  pub answer : Effect → Answer
  pub timezone : BootstrapResult TimezoneEnv

abbrev pub Step : Type 0 → Type 0
Step A = Action (List Effect) BootstrapErrorKind A

abbrev pub lift : {A : Type 0} → BootstrapResult A → Step A
lift r log = (r, log)

abbrev pub is_some : {A : Type 0} → Option A → Bool
is_some none = false
is_some (some a) = true
