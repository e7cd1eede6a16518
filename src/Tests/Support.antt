-- ===== src/Tests/Support.antt =====
-- The shared cluster and the output of a worker, at concrete inputs.
use pg_embed_setup_unpriv.Prelude.{ℕ, ◌+◌, ◌≡◌, List, [], ◌∷◌, map}
use pg_embed_setup_unpriv.Error.{Result, ok, err}
use pg_embed_setup_unpriv.Singleton.{
  uninitialized, run_calls, first_result, later_result, run_calls-eq,
}

abbrev failure : Result (ℕ × ℕ) ℕ
failure = err (7, 8)

abbrev later : List (Result (ℕ × ℕ) ℕ)
later = ok 3 ∷ []

run_calls-eq_example :
    run_calls (λ n. n + 1) uninitialized (failure ∷ later)
    ≡ (first_result (λ n. n + 1) failure ∷ map (λ _. later_result (λ n. n + 1) failure) later, 1)
run_calls-eq_example = run_calls-eq (λ n. n + 1) failure later
