-- ===== src/Env/Invariant.antt =====
-- The invariant of a thread's scopes, and what `enter_scope` and `exit_scope` do under it.
use pg_embed_setup_unpriv.Prelude.{
  ℕ, ◌+◌, ◌-◌, ◌≡◌, ◌<◌, refl, ap, ◌∙◌, true, false, not, some, List, [], ◌∷◌, arith, All, length,
  if◌then◌else◌, ◌==◌, nat_eq,
}
use pg_embed_setup_unpriv.Prelude.Exec.{done}
use pg_embed_setup_unpriv.Env.State.{
  Vars, ProcessEnv, World, GuardState, last_finished, is_empty, enter_scope, exit_scope,
  apply_env_vars, guard_mut, acquire_lock_if_needed, restore_saved, restore_finished,
  restore_finished_scopes, get_scope, mark_finished, finish_scope, release_outermost_lock,
  ensure_lock_for_restore,
}
use pg_embed_setup_unpriv.Env.Restore.{
  assign_all, saved_of, restore_saved-assign_all, IsAccepted, validate_all-eq, apply_each-eq,
}

-- The environment that is left when every scope on the stack has been restored, newest first.
abbrev pub unwind : List GuardState → ProcessEnv → ProcessEnv
unwind [] env = env
unwind (g ∷ rest) env = unwind rest (restore_saved g.saved env)

-- The scopes that are still entered.
abbrev pub open_count : List GuardState → ℕ
open_count [] = 0
open_count (g ∷ rest) = (if g.finished then 0 else 1) + open_count rest

-- The depth counts the scopes that are not finished, the newest scope is not finished, and the
-- mutex is held exactly while a scope is open.
pub record IsValid (w : World) : Type 0 where
  pub counted : w.depth ≡ open_count w.stack
  pub top : last_finished w.stack ≡ false
  pub locked : w.lock ≡ not (w.depth == 0)

-- The scope with this index is on the stack and still entered.
abbrev pub IsOpen : ℕ → List GuardState → Type 0
IsOpen index stack = (g : GuardState) × (get_scope index stack ≡ some g) × (g.finished ≡ false)

abbrev pub entered : Vars → World → World
entered vars w = record {
  env = assign_all vars w.env;
  poisoned = if w.depth == 0 then false else w.poisoned;
  depth = w.depth + 1;
  lock = true;
  stack = (record { saved = saved_of vars w.env; finished = false }) ∷ w.stack;
}

acquire-eq :
    (w : World)
    → IsValid w
    → acquire_lock_if_needed w
      ≡ done tt (record w { poisoned = if w.depth == 0 then false else w.poisoned; lock = true })
unfolding acquire_lock_if_needed
acquire-eq w v = ground arith

-- Entering a scope with acceptable names and values succeeds, and does exactly this.
pub enter_scope-eq :
    (vars : Vars) (w : World)
    → All IsAccepted vars
    → IsValid w
    → enter_scope vars w ≡ done (length w.stack) (entered vars w)
unfolding enter_scope apply_env_vars guard_mut
enter_scope-eq vars w h v =
    rw (validate_all-eq vars w h) (rw (acquire-eq w v) (rw (apply_each-eq vars _ h)))

pub entered-IsValid : (vars : Vars) (w : World) → IsValid w → IsValid (entered vars w)
unfolding last_finished
entered-IsValid vars w v = ground arith

pub unwind-entered :
    (vars : Vars) (w : World)
    → unwind (entered vars w).stack (entered vars w).env ≡ unwind w.stack w.env
unwind-entered vars w = ap (unwind w.stack) (restore_saved-assign_all vars w.env)

-- The stack and the environment once the finished scopes at the top are restored.
abbrev pub settled : List GuardState → List GuardState
settled [] = []
settled (g ∷ rest) = if g.finished then settled rest else (g ∷ rest)

abbrev pub settled_env : List GuardState → ProcessEnv → ProcessEnv
settled_env [] env = env
settled_env (g ∷ rest) env =
    if g.finished then settled_env rest (restore_saved g.saved env) else env

restore_finished-eq :
    (stack : List GuardState) (w : World)
    → w.lock ≡ true
    → w.stack ≡ stack
    → restore_finished stack w
      ≡ done tt (record w { stack = settled stack; env = settled_env stack w.env })
unfolding restore_finished guard_mut
restore_finished-eq [] w h e = ground arith
restore_finished-eq (g ∷ rest) w h e = ground (
  arith,
  restore_finished-eq rest (record w { stack = rest; env = restore_saved g.saved w.env }) h refl,
)

unwind-settled :
    (stack : List GuardState) (env : ProcessEnv)
    → unwind (settled stack) (settled_env stack env) ≡ unwind stack env
unwind-settled [] env = refl
unwind-settled (g ∷ rest) env = ground (arith, unwind-settled rest (restore_saved g.saved env))

last_finished-settled : (stack : List GuardState) → last_finished (settled stack) ≡ false
unfolding last_finished
last_finished-settled [] = refl
last_finished-settled (g ∷ rest) = ground (arith, last_finished-settled rest)

open_count-settled : (stack : List GuardState) → open_count (settled stack) ≡ open_count stack
open_count-settled [] = refl
open_count-settled (g ∷ rest) = ground (arith, open_count-settled rest)

open_count-mark_finished :
    (index : ℕ) (stack : List GuardState)
    → IsOpen index stack
    → open_count (mark_finished index stack) + 1 ≡ open_count stack
unfolding mark_finished get_scope
open_count-mark_finished index [] (g, e, h) = cc
open_count-mark_finished index (x ∷ rest) (g, e, h) =
    ground
      (arith, λ (p : get_scope index rest ≡ some g). open_count-mark_finished index rest (g, p, h))

unwind-mark_finished :
    (index : ℕ) (stack : List GuardState) (env : ProcessEnv)
    → unwind (mark_finished index stack) env ≡ unwind stack env
unfolding mark_finished
unwind-mark_finished index [] env = refl
unwind-mark_finished index (x ∷ rest) env =
    ground (arith, unwind-mark_finished index rest (restore_saved x.saved env))

pub settled-eq : (stack : List GuardState) → last_finished stack ≡ false → settled stack ≡ stack
unfolding last_finished
settled-eq [] h = refl
settled-eq (g ∷ rest) h = ground arith

pub settled_env-eq :
    (stack : List GuardState) (env : ProcessEnv)
    → last_finished stack ≡ false
    → settled_env stack env ≡ env
unfolding last_finished
settled_env-eq [] env h = refl
settled_env-eq (g ∷ rest) env h = ground arith

restore_finished_scopes-eq :
    (w : World)
    → w.lock ≡ true
    → restore_finished_scopes w
      ≡ done tt (record w { stack = settled w.stack; env = settled_env w.stack w.env })
unfolding restore_finished_scopes ensure_lock_for_restore
restore_finished_scopes-eq w h = ground (arith, restore_finished-eq w.stack w h refl)

open_count-pos : (index : ℕ) (stack : List GuardState) → IsOpen index stack → 0 < open_count stack
unfolding get_scope
open_count-pos index [] (g, e, h) = cc
open_count-pos index (x ∷ rest) (g, e, h) =
    ground (arith, λ (p : get_scope index rest ≡ some g). open_count-pos index rest (g, p, h))

is_empty-of_open_count :
    (stack : List GuardState)
    → last_finished stack ≡ false
    → open_count stack ≡ 0
    → is_empty stack ≡ true
unfolding last_finished is_empty
is_empty-of_open_count [] h e = refl
is_empty-of_open_count (g ∷ rest) h e = ground arith

abbrev pub exited : ℕ → World → World
exited index w = record {
  env = settled_env (mark_finished index w.stack) w.env;
  poisoned = w.poisoned;
  depth = w.depth - 1;
  lock = not (w.depth - 1 == 0);
  stack = settled (mark_finished index w.stack);
}

-- Leaving an entered scope succeeds, and does exactly this.
pub exit_scope-eq :
    (index : ℕ) (w : World)
    → IsValid w
    → IsOpen index w.stack
    → exit_scope index w ≡ done tt (exited index w)
unfolding exit_scope finish_scope release_outermost_lock
exit_scope-eq index w v (g, e, f) = ground (
  arith,
  open_count-pos index w.stack (g, e, f),
  restore_finished_scopes-eq
      (record w { depth = w.depth - 1; stack = mark_finished index w.stack }),
  open_count-mark_finished index w.stack (g, e, f),
  open_count-settled (mark_finished index w.stack),
  last_finished-settled (mark_finished index w.stack),
  is_empty-of_open_count (settled (mark_finished index w.stack)),
)

pub exited-IsValid :
    (index : ℕ) (w : World) → IsValid w → IsOpen index w.stack → IsValid (exited index w)
exited-IsValid index w v o = ground (
  arith,
  open_count-mark_finished index w.stack o,
  open_count-settled (mark_finished index w.stack),
  last_finished-settled (mark_finished index w.stack),
)

pub unwind-exited :
    (index : ℕ) (w : World)
    → unwind (exited index w).stack (exited index w).env ≡ unwind w.stack w.env
unwind-exited index w =
    unwind-settled (mark_finished index w.stack) w.env ∙ unwind-mark_finished index w.stack w.env
