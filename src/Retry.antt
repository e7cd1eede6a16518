-- ===== src/Retry.antt =====
-- src/test_support/bootstrap_retry/mod.rs, with src/cluster/cache_integration.rs's
-- `note_cached_binaries`. A report is the chain of its causes, outermost first; of another crate's
-- error it keeps what the code asks for. Durations are nanoseconds. The n-th call of `attempt` gives
-- `attempt n`, and the delays that `sleep` is called with are listed.
pub mod Laws
use pg_embed_setup_unpriv.Prelude.{
  ℕ, suc, zero, ◌+◌, ◌-◌, ◌*◌, ◌^◌, min, Bool, true, false, not, ◌&&◌, ◌||◌, Option, none, some,
  List, [], ◌∷◌, leb, if◌then◌else◌,
}
use pg_embed_setup_unpriv.Prelude.Texts.{Text}
use pg_embed_setup_unpriv.Error.{
  BootstrapErrorKind, extension_archive_unavailable, is_extension, Result, ok, err,
}

-- The errors of `postgresql_archive` and `postgresql_embedded` that the code tells apart.
pub data ArchiveError : Type 0 where
  archive_io repository_failure other_archive : ArchiveError

pub data EmbeddedError : Type 0 where
  io_error : EmbeddedError
  archive_error : ArchiveError → EmbeddedError
  other_embedded : EmbeddedError

pub data Cause : Type 0 where
  lifecycle_timeout : Cause
  cached_binaries_used : Text → Cause
  embedded : EmbeddedError → Cause
  failed_after : ℕ → Cause
  other_cause : Cause

pub record BootstrapError : Type 0 where
  pub kind : BootstrapErrorKind
  pub report : List Cause

pub record RetryPolicy : Type 0 where
  pub attempts : ℕ
  pub first_delay : ℕ

abbrev pub shared_cluster : RetryPolicy
shared_cluster = record { attempts = 3; first_delay = 1000000000 }

abbrev pub u32_max : ℕ
u32_max = 2 ^ 32 - 1

-- `Duration::MAX`.
abbrev pub duration_max : ℕ
duration_max = (2 ^ 64 - 1) * 1000000000 + 999999999

-- `saturating_sub`, `saturating_pow` and `saturating_mul`.
unfoldable pub delay_after : RetryPolicy → ℕ → ℕ
delay_after policy made = min (policy.first_delay * min (2 ^ (made - 1)) u32_max) duration_max

unfoldable pub is_transient_embedded : EmbeddedError → Bool
is_transient_embedded io_error = true
is_transient_embedded (archive_error archive_io) = true
is_transient_embedded (archive_error repository_failure) = true
is_transient_embedded (archive_error other_archive) = false
is_transient_embedded other_embedded = false

unfoldable pub is_transient_cause : Bool → Cause → Bool
is_transient_cause from_cache lifecycle_timeout = true
is_transient_cause from_cache (embedded e) = not from_cache && is_transient_embedded e
is_transient_cause from_cache _ = false

-- `Iterator::any`.
abbrev pub any {ℓ} : {A : Type ℓ} → (A → Bool) → List A → Bool
any p [] = false
any p (x ∷ xs) = p x || any p xs

-- `downcast_ref::<CachedBinariesUsed>`.
abbrev pub is_cached_marker : Cause → Bool
is_cached_marker (cached_binaries_used version) = true
is_cached_marker _ = false

abbrev pub is_unavailable : BootstrapErrorKind → Bool
is_unavailable extension_archive_unavailable = true
is_unavailable _ = false

unfoldable pub is_transient : BootstrapError → Bool
is_transient e =
    let from_cache = any is_cached_marker e.report in
    is_unavailable e.kind || any (is_transient_cause from_cache) e.report

unfoldable pub exhausted : BootstrapError → ℕ → BootstrapError
exhausted e made = record { kind = e.kind; report = failed_after made ∷ e.report }

unfoldable pub note_cached_binaries : Bool → Text → BootstrapError → BootstrapError
note_cached_binaries cache_hit version e =
    if not cache_hit || is_extension e.kind
    then e
    else record { kind = e.kind; report = cached_binaries_used version ∷ e.report }

module _ {A : Type 0} where
  unfoldable pub slept :
      ℕ → Option (Result BootstrapError A × List ℕ) → Option (Result BootstrapError A × List ℕ)
  slept delay none = none
  slept delay (some (result, delays)) = some (result, delay ∷ delays)

module _ {A : Type 0} (policy : RetryPolicy) where
  -- The body after attempt `made`; `next` is the loop from a later attempt on.
  unfoldable pub after_failure :
      ℕ
      → BootstrapError
      → Bool
      → Bool
      → (ℕ → Option (Result BootstrapError A × List ℕ))
      → Option (Result BootstrapError A × List ℕ)
  after_failure made e false last next = some (err e, [])
  after_failure made e true true next = some (err (exhausted e made), [])
  after_failure made e true false next = slept (delay_after policy made) (next (made + 1))

  unfoldable pub after_attempt :
      ℕ
      → Result BootstrapError A
      → (ℕ → Option (Result BootstrapError A × List ℕ))
      → Option (Result BootstrapError A × List ℕ)
  after_attempt made (ok value) next = some (ok value, [])
  after_attempt made (err e) next =
      after_failure made e (is_transient e) (leb policy.attempts made) next

module _ {A : Type 0} (policy : RetryPolicy) (attempt : ℕ → Result BootstrapError A) where
  -- The loop from attempt `made` on, with its fuel; none when the fuel runs out.
  unfoldable pub retry_loop : ℕ → ℕ → Option (Result BootstrapError A × List ℕ)
  retry_loop zero made = none
  retry_loop (suc fuel) made = after_attempt policy made (attempt made) (retry_loop fuel)

  -- The loop runs at most once for each attempt of the policy, and once for a policy of none.
  unfoldable pub retry_transient : Option (Result BootstrapError A × List ℕ)
  retry_transient = retry_loop (suc policy.attempts) 1
