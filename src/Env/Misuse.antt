-- ===== src/Env/Misuse.antt =====
-- What a thread's state does on misuse: rejected names and values, and indices that are not open.
use pg_embed_setup_unpriv.Prelude.{
  ℕ, ◌-◌, ◌≡◌, refl, Bool, true, false, ◌&&◌, none, some, List, [], ◌∷◌, arith, All, nat_eq,
  if◌then◌else◌, ◌⊎◌, inl, inr, Bool-cases, Option-cases,
}
use pg_embed_setup_unpriv.Prelude.Exec.{done, panicked}
use pg_embed_setup_unpriv.Env.Validation.{validate_env_key, validate_env_value}
use pg_embed_setup_unpriv.Env.State.{
  Vars, ProcessEnv, World, GuardState, is_empty, validate_all, enter_scope, exit_scope,
  finish_scope, get_scope, guard_mut, restore_saved, restore_all, force_restore_and_reset,
  ensure_lock_for_restore,
}
use pg_embed_setup_unpriv.Env.Restore.{IsAccepted}
use pg_embed_setup_unpriv.Env.Invariant.{unwind, IsOpen}

abbrev pub accepted : Vars → Bool
accepted [] = true
accepted ((key, value) ∷ vars) = validate_env_key key && validate_env_value value && accepted vars

pub All-IsAccepted : (vars : Vars) → accepted vars ≡ true → All IsAccepted vars
All-IsAccepted [] h = tt
All-IsAccepted ((key, value) ∷ vars) h =
    ((ground arith, ground arith), All-IsAccepted vars (ground arith))

validate_all-panics :
    (vars : Vars) (w : World) → accepted vars ≡ false → validate_all vars w ≡ panicked w
unfolding validate_all
validate_all-panics [] w h = cc
validate_all-panics ((key, value) ∷ vars) w h = ground (arith, validate_all-panics vars w)

-- One bad name or value panics before anything has changed.
pub enter_scope-rejected :
    (vars : Vars) (w : World) → accepted vars ≡ false → enter_scope vars w ≡ panicked w
unfolding enter_scope
enter_scope-rejected vars w h = rw (validate_all-panics vars w h)

abbrev pub reset : World → World
reset w = record {
  env = unwind w.stack w.env;
  poisoned = if w.lock then w.poisoned else (if is_empty w.stack then w.poisoned else false);
  depth = 0;
  lock = false;
  stack = [];
}

restore_all-eq :
    (stack : List GuardState) (w : World)
    → w.lock ≡ true
    → w.stack ≡ stack
    → restore_all stack w ≡ done tt (record w { stack = []; env = unwind stack w.env })
unfolding restore_all guard_mut
restore_all-eq [] w h e = ground arith
restore_all-eq (g ∷ rest) w h e = ground (
  arith,
  restore_all-eq rest (record w { stack = rest; env = restore_saved g.saved w.env }) h refl,
)

unwind-nil :
    (stack : List GuardState) (env : ProcessEnv)
    → is_empty stack ≡ true
    → (stack ≡ []) × (unwind stack env ≡ env)
unfolding is_empty
unwind-nil [] env h = (refl, refl)
unwind-nil (g ∷ rest) env h = (cc, cc)

-- Whatever state the scopes are in, a forced reset undoes all of them and frees the mutex.
pub force_restore_and_reset-eq : (w : World) → force_restore_and_reset w ≡ done tt (reset w)
unfolding force_restore_and_reset ensure_lock_for_restore is_empty
force_restore_and_reset-eq w = ground (
  arith,
  unwind-nil w.stack w.env,
  restore_all-eq w.stack w,
  restore_all-eq w.stack (record w { lock = true; poisoned = false }),
)

not-IsOpen :
    (index : ℕ) (stack : List GuardState)
    → ¬ IsOpen index stack
    → (get_scope index stack ≡ none)
      ⊎ ((g : GuardState) × (get_scope index stack ≡ some g) × (g.finished ≡ true))
not-IsOpen index stack h = elim (Option-cases (get_scope index stack)) [
  | inl missing ↦ inl missing
  | inr (g, found) ↦ elim (Bool-cases g.finished) [
    | inl e ↦ inr (g, found, e)
    | inr e ↦ absurd (h (g, found, e))
  ]
]

-- Leaving a scope that is not open forces the reset.
pub exit_scope-misused :
    (index : ℕ) (w : World) → ¬ IsOpen index w.stack → exit_scope index w ≡ done tt (reset w)
unfolding exit_scope finish_scope
exit_scope-misused index w h = ground (
  arith,
  force_restore_and_reset-eq w,
  force_restore_and_reset-eq (record w { depth = w.depth - 1 }),
  not-IsOpen index w.stack h,
)
