-- ===== src/Template.antt =====
-- src/cluster/lifecycle_template/mod.rs: the creation of a missing template database. The databases
-- are a state that the caller's operations change, each of which may fail or panic. The
-- per-template lock is held around the whole operation, so it is one step here; logs are left out,
-- and of an error only its kind is kept.
pub mod Laws
use pg_embed_setup_unpriv.Prelude.{Bool, true, false}
use pg_embed_setup_unpriv.Prelude.Exec.{Outcome, done, panicked, Exec}
use pg_embed_setup_unpriv.Error.{BootstrapErrorKind, other, BootstrapResult, ok, err}

pub record TemplateCreationOps (S : Type 0) : Type 0 where
  pub database_exists : Exec S (BootstrapResult Bool)
  pub create_database : Exec S (BootstrapResult (Unit {0}))
  pub drop_database : Exec S (BootstrapResult (Unit {0}))
  pub setup_fn : Exec S (BootstrapResult (Unit {0}))

-- A report that is turned into an error again has the kind `Other`.
unfoldable pub template_setup_rollback_error :
    BootstrapErrorKind → BootstrapErrorKind → BootstrapErrorKind
template_setup_rollback_error setup_error rollback_error = other

unfoldable pub template_setup_panic_rollback_error : BootstrapErrorKind → BootstrapErrorKind
template_setup_panic_rollback_error rollback_error = other

module _ {S : Type 0} where
  unfoldable pub after_rollback :
      BootstrapErrorKind → Outcome S (BootstrapResult Unit) → Outcome S (BootstrapResult Unit)
  after_rollback setup_error (done (ok u) s) = done (err setup_error) s
  after_rollback setup_error (done (err e) s) =
      done (err (template_setup_rollback_error setup_error e)) s
  after_rollback setup_error (panicked s) = panicked s

  unfoldable pub after_panic_rollback :
      Outcome S (BootstrapResult Unit) → Outcome S (BootstrapResult Unit)
  after_panic_rollback (done (ok u) s) = panicked s
  after_panic_rollback (done (err e) s) = done (err (template_setup_panic_rollback_error e)) s
  after_panic_rollback (panicked s) = panicked s

module _ {S : Type 0} (ops : TemplateCreationOps S) where
  unfoldable pub rollback_after_setup_error : BootstrapErrorKind → Exec S (BootstrapResult Unit)
  rollback_after_setup_error setup_error s = after_rollback setup_error (ops.drop_database s)

  unfoldable pub resume_or_report_rollback_failure : Exec S (BootstrapResult Unit)
  resume_or_report_rollback_failure s = after_panic_rollback (ops.drop_database s)

  -- The match on what `catch_unwind` gives.
  unfoldable pub setup_or_rollback :
      Outcome S (BootstrapResult Unit) → Outcome S (BootstrapResult Unit)
  setup_or_rollback (done (ok u) s) = done (ok tt) s
  setup_or_rollback (done (err setup_error) s) = rollback_after_setup_error setup_error s
  setup_or_rollback (panicked s) = resume_or_report_rollback_failure s

  unfoldable pub setup_template_or_rollback : Exec S (BootstrapResult Unit)
  setup_template_or_rollback s = setup_or_rollback (ops.setup_fn s)

  unfoldable pub after_create : Outcome S (BootstrapResult Unit) → Outcome S (BootstrapResult Unit)
  after_create (done (ok u) s) = setup_template_or_rollback s
  after_create (done (err e) s) = done (err e) s
  after_create (panicked s) = panicked s

  unfoldable pub create_and_setup_template : Exec S (BootstrapResult Unit)
  create_and_setup_template s = after_create (ops.create_database s)

  unfoldable pub after_exists : Outcome S (BootstrapResult Bool) → Outcome S (BootstrapResult Unit)
  after_exists (done (ok true) s) = done (ok tt) s
  after_exists (done (ok false) s) = create_and_setup_template s
  after_exists (done (err e) s) = done (err e) s
  after_exists (panicked s) = panicked s

  unfoldable pub ensure_template_exists_with_lock : Exec S (BootstrapResult Unit)
  ensure_template_exists_with_lock s = after_exists (ops.database_exists s)
