-- ===== src/Bootstrap.antt =====
-- src/bootstrap/mod.rs and mode.rs: what a bootstrap hands to a start, and how a start is run.
-- Durations are nanoseconds. Of the settings of
-- the server what the start reads and changes is kept.
use pg_embed_setup_unpriv.Prelude.{ℕ, Option, List, [], ◌∷◌}
use pg_embed_setup_unpriv.Prelude.Texts.{Text}
use pg_embed_setup_unpriv.Error.{other}
use pg_embed_setup_unpriv.Retry.{BootstrapError, other_cause}
use pg_embed_setup_unpriv.Installation.{ExecutionPrivileges}
use pg_embed_setup_unpriv.Cache.Use.{Settings}
pub use pg_embed_setup_unpriv.Extensions.Config.{ExtensionRequest}
pub use pg_embed_setup_unpriv.Extensions.Pipeline.{InstalledExtension}

pub data ExecutionMode : Type 0 where
  in_process subprocess : ExecutionMode

pub record TestBootstrapSettings (V : Type 0) : Type 0 where
  pub privileges : ExecutionPrivileges
  pub execution_mode : ExecutionMode
  pub settings : Settings V
  pub port : ℕ
  pub worker_binary : Option Text
  pub setup_timeout : ℕ
  pub start_timeout : ℕ
  pub shutdown_timeout : ℕ
  pub extensions : Option ExtensionRequest
  pub installed_extensions : List InstalledExtension

-- `BootstrapError::from` a report that no other code tells apart.
abbrev pub other_error : BootstrapError
other_error = record { kind = other; report = other_cause ∷ [] }
