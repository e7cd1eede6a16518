-- ===== src/Singleton.antt =====
-- src/test_support/shared_singleton_core.rs: the cluster that a process shares is initialised lazily,
-- and the outcome is kept. The lock around the state makes each call one step. Besides its result a
-- call gives the number of initialisers that it ran.
use pg_embed_setup_unpriv.Prelude.{ℕ, ◌+◌, ◌≡◌, refl, List, [], ◌∷◌, map}
use pg_embed_setup_unpriv.Error.{Result, ok, err}

pub data SharedInitState (T C : Type 0) : Type 0 where
  uninitialized : SharedInitState T C
  initialized : T → SharedInitState T C
  failed : C → SharedInitState T C

module _ {T C E : Type 0} (cached_error : C → E) where
  unfoldable pub after_init : Result (C × E) T → Result E T × SharedInitState T C × ℕ
  after_init (ok value) = (ok value, initialized value, 1)
  after_init (err (cached, e)) = (err e, failed cached, 1)

  -- `init` is the outcome of the call's initialiser, which only an uninitialised state asks for.
  unfoldable pub get_or_try_init_shared :
      SharedInitState T C → Result (C × E) T → Result E T × SharedInitState T C × ℕ
  get_or_try_init_shared (initialized value) init = (ok value, initialized value, 0)
  get_or_try_init_shared (failed cached) init = (err (cached_error cached), failed cached, 0)
  get_or_try_init_shared uninitialized init = after_init init

  -- The calls of a process, each with its own initialiser: their results, and how many ran.
  unfoldable pub run_calls : SharedInitState T C → List (Result (C × E) T) → List (Result E T) × ℕ
  run_calls state [] = ([], 0)
  run_calls state (init ∷ inits) =
      let (result, next, ran) = get_or_try_init_shared state init in
      let (results, more) = run_calls next inits in (result ∷ results, ran + more)

  abbrev pub first_result : Result (C × E) T → Result E T
  first_result (ok value) = ok value
  first_result (err (cached, e)) = err e

  abbrev pub later_result : Result (C × E) T → Result E T
  later_result (ok value) = ok value
  later_result (err (cached, e)) = err (cached_error cached)

  run_calls-initialized :
      (value : T) (inits : List (Result (C × E) T))
      → run_calls (initialized value) inits ≡ (map (λ _. ok value) inits, 0)
  unfolding run_calls get_or_try_init_shared
  run_calls-initialized value [] = refl
  run_calls-initialized value (init ∷ inits) = rw (run_calls-initialized value inits) refl

  run_calls-failed :
      (cached : C) (inits : List (Result (C × E) T))
      → run_calls (failed cached) inits ≡ (map (λ _. err (cached_error cached)) inits, 0)
  unfolding run_calls get_or_try_init_shared
  run_calls-failed cached [] = refl
  run_calls-failed cached (init ∷ inits) = rw (run_calls-failed cached inits) refl

  -- However often the shared cluster is asked for, exactly the first initialiser runs. If it
  -- succeeds all calls give its value; if it fails the first call gives its error and the later
  -- ones the error that is made of what was kept of it.
  pub run_calls-eq :
      (first : Result (C × E) T) (rest : List (Result (C × E) T))
      → run_calls uninitialized (first ∷ rest)
        ≡ (first_result first ∷ map (λ _. later_result first) rest, 1)
  unfolding run_calls get_or_try_init_shared after_init
  run_calls-eq (ok value) rest = rw (run_calls-initialized value rest) refl
  run_calls-eq (err (cached, e)) rest = rw (run_calls-failed cached rest) refl
