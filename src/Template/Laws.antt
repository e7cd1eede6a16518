-- ===== src/Template/Laws.antt =====
-- A template is there and set up, or it is not there.
use pg_embed_setup_unpriv.Prelude.{◌≡◌, refl, ap, ◌∙◌, ◌⊎◌, inl, inr, Bool, true, false}
use pg_embed_setup_unpriv.Prelude.Exec.{Outcome, done, panicked, final}
use pg_embed_setup_unpriv.Error.{BootstrapErrorKind, BootstrapResult, ok, err}
use pg_embed_setup_unpriv.Template.{
  TemplateCreationOps, after_rollback, after_panic_rollback, rollback_after_setup_error,
  resume_or_report_rollback_failure, setup_or_rollback, setup_template_or_rollback, after_create,
  create_and_setup_template, after_exists, ensure_template_exists_with_lock,
}

-- What the database server does: `present` says whether the template exists, and `ready` whether
-- its setup has been completed. Any of its answers may be an error or a panic: then a question and
-- a failed creation leave it as it was, and nothing is known after a creation that panics, or after
-- a drop or a setup that does not succeed.
pub record Contract {S : Type 0} (ops : TemplateCreationOps S) (present ready : S → Bool)
    : Type 0 where
  pub asks : (s : S) → present (final (ops.database_exists s)) ≡ present s
  pub reads : (s s' : S) (b : Bool) → ops.database_exists s ≡ done (ok b) s' → present s ≡ b
  pub creates : (s s' : S) → ops.create_database s ≡ done (ok tt) s' → present s' ≡ true
  pub refuses :
      (s s' : S) (e : BootstrapErrorKind)
      → ops.create_database s ≡ done (err e) s'
      → present s' ≡ present s
  pub drops : (s s' : S) → ops.drop_database s ≡ done (ok tt) s' → present s' ≡ false
  pub sets_up :
      (s s' : S) → ops.setup_fn s ≡ done (ok tt) s' → (present s' ≡ present s) × (ready s' ≡ true)

-- Whether a run returned `Ok(())`.
abbrev pub succeeded : {S : Type 0} → Outcome S (BootstrapResult (Unit {0})) → Bool
succeeded (done (ok u) s) = true
succeeded _ = false

-- The template as a run must leave it that started without one and ended in the outcome `o`.
abbrev pub IsClean :
    {S : Type 0}
    → TemplateCreationOps S
    → (S → Bool)
    → (S → Bool)
    → Outcome S (BootstrapResult (Unit {0}))
    → Type 0
IsClean {S} ops present ready o =
    ((succeeded o ≡ true) × (present (final o) ≡ true) × (ready (final o) ≡ true))
    ⊎ ((succeeded o ≡ false)
        × ((present (final o) ≡ false)
            ⊎ ((s : S) × (ops.create_database s ≡ panicked (final o)))
            ⊎ ((s : S) × (succeeded (ops.drop_database s) ≡ false)
                × (final (ops.drop_database s) ≡ final o))))

module _ {S : Type 0} (ops : TemplateCreationOps S) (present ready : S → Bool)
    (c : Contract ops present ready) where
  abbrev Clean : Outcome S (BootstrapResult Unit) → Type 0
  Clean o = IsClean ops present ready o

  rollback-Clean :
      (e : BootstrapErrorKind) (s : S) (o : Outcome S (BootstrapResult Unit))
      → ops.drop_database s ≡ o
      → Clean (after_rollback e o)
  unfolding after_rollback
  rollback-Clean e s (done (ok u) s') h = inr (refl, inl (c.drops s s' h))
  rollback-Clean e s (done (err f) s') h = inr (refl, inr (inr (s, ap succeeded h, ap final h)))
  rollback-Clean e s (panicked s') h = inr (refl, inr (inr (s, ap succeeded h, ap final h)))

  resume-Clean :
      (s : S) (o : Outcome S (BootstrapResult Unit))
      → ops.drop_database s ≡ o
      → Clean (after_panic_rollback o)
  unfolding after_panic_rollback
  resume-Clean s (done (ok u) s') h = inr (refl, inl (c.drops s s' h))
  resume-Clean s (done (err f) s') h = inr (refl, inr (inr (s, ap succeeded h, ap final h)))
  resume-Clean s (panicked s') h = inr (refl, inr (inr (s, ap succeeded h, ap final h)))

  setup_or_rollback-Clean :
      (s : S) (o : Outcome S (BootstrapResult Unit))
      → ops.setup_fn s ≡ o
      → present s ≡ true
      → Clean (setup_or_rollback ops o)
  unfolding setup_or_rollback rollback_after_setup_error resume_or_report_rollback_failure
  setup_or_rollback-Clean s (done (ok u) s') h there =
      let (kept, is_ready) = c.sets_up s s' h in inl (refl, kept ∙ there, is_ready)
  setup_or_rollback-Clean s (done (err e) s') h there =
      rollback-Clean e s' (ops.drop_database s') refl
  setup_or_rollback-Clean s (panicked s') h there = resume-Clean s' (ops.drop_database s') refl

  after_create-Clean :
      (s : S) (o : Outcome S (BootstrapResult Unit))
      → ops.create_database s ≡ o
      → present s ≡ false
      → Clean (after_create ops o)
  unfolding after_create setup_template_or_rollback
  after_create-Clean s (done (ok u) s') h absent =
      setup_or_rollback-Clean s' (ops.setup_fn s') refl (c.creates s s' h)
  after_create-Clean s (done (err e) s') h absent = inr (refl, inl (c.refuses s s' e h ∙ absent))
  after_create-Clean s (panicked s') h absent = inr (refl, inr (inl (s, h)))

  after_exists-Clean :
      (s : S) (o : Outcome S (BootstrapResult Bool))
      → ops.database_exists s ≡ o
      → present s ≡ false
      → present (final o) ≡ false
      → Clean (after_exists ops o)
  unfolding after_exists create_and_setup_template
  after_exists-Clean s (done (ok true) s') h absent same = absurd (cc (c.reads s s' true h, absent))
  after_exists-Clean s (done (ok false) s') h absent same =
      after_create-Clean s' (ops.create_database s') refl same
  after_exists-Clean s (done (err e) s') h absent same = inr (refl, inl same)
  after_exists-Clean s (panicked s') h absent same = inr (refl, inl same)

-- On a server that keeps the contract, where the template does not exist: `Ok(())` leaves it there
-- with its setup completed. After any other end, an error or a panic, there is no template, or the
-- creation itself panicked, or the drop that undoes it did not succeed.
pub ensure_template_exists-Clean :
    {S : Type 0} (ops : TemplateCreationOps S) (present ready : S → Bool)
    (c : Contract ops present ready) (s : S)
    → present s ≡ false
    → IsClean ops present ready (ensure_template_exists_with_lock ops s)
unfolding ensure_template_exists_with_lock
ensure_template_exists-Clean ops present ready c s absent =
    after_exists-Clean ops present ready c s (ops.database_exists s) refl absent (c.asks s ∙ absent)
