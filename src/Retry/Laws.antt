-- ===== src/Retry/Laws.antt =====
-- How often an attempt is made, what is waited, and what is returned.
use pg_embed_setup_unpriv.Prelude.{
  ℕ, suc, zero, ◌+◌, ◌≤◌, ◌<◌, ◌≡◌, refl, ◌⊎◌, Bool, true, false, Option, some, List, [], ◌∷◌,
  arith,
}
use pg_embed_setup_unpriv.Prelude.Texts.{Text}
use pg_embed_setup_unpriv.Error.{BootstrapErrorKind, is_extension, Result, ok, err}
use pg_embed_setup_unpriv.Retry.{
  Cause, lifecycle_timeout, cached_binaries_used, embedded, failed_after, other_cause, any,
  is_unavailable, is_transient_cause, note_cached_binaries, BootstrapError, RetryPolicy,
  delay_after, is_transient, exhausted,
}

module _ {A : Type 0} (policy : RetryPolicy) (attempt : ℕ → Result BootstrapError A) where
  abbrev pub delays : ℕ → ℕ → List ℕ
  delays made zero = []
  delays made (suc n) = delay_after policy made ∷ delays (made + 1) n

  abbrev pub Failed : ℕ → Type 0
  Failed made = (e : BootstrapError) × (attempt made ≡ err e) × (is_transient e ≡ true)

  -- What attempt `made` decides, as the last one.
  abbrev pub Decides : ℕ → Result BootstrapError A → Type 0
  Decides made result =
      ((value : A) × (attempt made ≡ ok value) × (result ≡ ok value))
      ⊎ (((e : BootstrapError) × (attempt made ≡ err e)
            × (is_transient e ≡ false)
            × (result ≡ err e))
          ⊎ ((e : BootstrapError) × (attempt made ≡ err e)
              × (is_transient e ≡ true)
              × (policy.attempts ≤ made)
              × (result ≡ err (exhausted e made))))

  -- From attempt `first` on, `retries` attempts failed before the last one.
  pub record Retried (first : ℕ) (result : Result BootstrapError A) (waited : List ℕ) : Type 0 where
    pub retries : ℕ
    pub earlier : (i : ℕ) → first ≤ i → i < first + retries → Failed i
    pub bounded : (retries ≡ 0) ⊎ (first + retries ≤ policy.attempts)
    pub waits : waited ≡ delays first retries
    pub decides : Decides (first + retries) result

  abbrev Run : ℕ → Option (Result BootstrapError A × List ℕ) → Type 0
  Run first r =
      (result : Result BootstrapError A) × (waited : List ℕ) × (r ≡ some (result, waited))
      × Retried first result waited

abbrev pub is_timeout : Cause → Bool
is_timeout lifecycle_timeout = true
is_timeout _ = false

only_timeout : (cause : Cause) → is_transient_cause true cause ≡ is_timeout cause
unfolding is_transient_cause
only_timeout lifecycle_timeout = refl
only_timeout (embedded e) = refl
only_timeout (cached_binaries_used version) = refl
only_timeout (failed_after n) = refl
only_timeout other_cause = refl

any-only_timeout :
    (causes : List Cause) → any (is_transient_cause true) causes ≡ any is_timeout causes
any-only_timeout [] = refl
any-only_timeout (cause ∷ causes) = ground (arith, only_timeout cause, any-only_timeout causes)

not-is_unavailable :
    (kind : BootstrapErrorKind) → is_extension kind ≡ false → is_unavailable kind ≡ false
unfolding is_extension
not-is_unavailable kind h = ground arith

-- A failure that is no extension's and ran binaries from the cache is retried only if a timeout is
-- among its causes, whatever I/O or archive errors are.
pub is_transient-note_cached_binaries :
    (version : Text) (e : BootstrapError)
    → is_extension e.kind ≡ false
    → is_transient (note_cached_binaries true version e) ≡ any is_timeout e.report
unfolding is_transient note_cached_binaries is_transient_cause
is_transient-note_cached_binaries version e h =
    rw (h, not-is_unavailable e.kind h) (any-only_timeout e.report)

-- The count that the last attempt adds changes neither an error's kind nor whether it is transient.
pub is_transient-exhausted :
    (e : BootstrapError) (made : ℕ)
    → ((exhausted e made).kind ≡ e.kind) × (is_transient (exhausted e made) ≡ is_transient e)
unfolding exhausted is_transient is_transient_cause
is_transient-exhausted e made = (refl, refl)
