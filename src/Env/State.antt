-- ===== src/Env/State.antt =====
-- src/env/state/mod.rs: `ThreadStateCore` over `StdEnvLock`. The world is the state of one thread
-- together with the process environment and the mutex's poison flag; `lock` says whether the
-- thread's `Option<Guard>` is full. `lock_env_mutex` blocks until the mutex is free, so it returns
-- here at once. The stack has its newest scope at the head: the scope with `index` stands above
-- `index` older ones.
use pg_embed_setup_unpriv.Prelude.{
  ℕ, ◌-◌, ◌+◌, Bool, true, false, not, ◌&&◌, Option, none, some, List, [], ◌∷◌, reverse, length,
  nat_eq, list_eq, ◌==◌, if◌then◌else◌,
}
use pg_embed_setup_unpriv.Prelude.Exec.{done, Exec, pure, gets, modify, assert, ◌>>=◌, ◌>>◌}
use pg_embed_setup_unpriv.Env.Validation.{
  OsString, is_valid_env_key, is_valid_env_value, validate_env_key, validate_env_value,
}

abbrev pub Vars : Type 0
Vars = List (OsString × Option OsString)

abbrev pub ProcessEnv : Type 0
ProcessEnv = OsString → Option OsString

pub record GuardState : Type 0 where
  pub saved : Vars
  pub finished : Bool

pub record World : Type 0 where
  pub env : ProcessEnv
  pub poisoned : Bool
  pub depth : ℕ
  pub lock : Bool
  pub stack : List GuardState

-- `env::set_var` and `env::remove_var`.
unfoldable pub assign : OsString → Option OsString → ProcessEnv → ProcessEnv
unfolding list_eq
assign key value env = λ j. if j == key then value else env j

-- `ensure_lock_is_clean`.
abbrev ensure_lock_is_clean : Exec World Unit
ensure_lock_is_clean w = done tt (if w.poisoned then record w { poisoned = false } else w)

-- `guard_mut`: the guard, or a panic with the caller's context.
unfoldable pub guard_mut : Exec World Unit
guard_mut = assert (λ w. w.lock)

unfoldable pub acquire_lock_if_needed : Exec World Unit
acquire_lock_if_needed w =
    if not (w.depth == 0)
    then done tt w
    else (do assert (λ w. not w.lock); ensure_lock_is_clean; modify (λ w. record w { lock = true }))
        w

unfoldable pub apply_single_var : OsString → Option OsString → Exec World (Option OsString)
apply_single_var key new_value = do
  assert (λ w. is_valid_env_key key)
  assert (λ w. is_valid_env_value new_value)
  previous ← gets (λ w. w.env key)
  modify (λ w. record w { env = assign key new_value w.env })
  pure previous

-- The loop of `apply_env_vars`.
unfoldable pub apply_each : Vars → Exec World Vars
apply_each [] = pure []
apply_each ((key, new_value) ∷ vars) = do
  previous ← apply_single_var key new_value
  saved ← apply_each vars
  pure ((key, previous) ∷ saved)

unfoldable pub apply_env_vars : Vars → Exec World Vars
apply_env_vars vars = do guard_mut; apply_each vars

unfoldable pub validate_all : Vars → Exec World Unit
validate_all [] = pure tt
validate_all ((key, value) ∷ vars) = do
  assert (λ w. validate_env_key key)
  assert (λ w. validate_env_value value)
  validate_all vars

unfoldable pub enter_scope : Vars → Exec World ℕ
enter_scope env_vars = do
  validate_all env_vars
  acquire_lock_if_needed
  modify (λ w. record w { depth = w.depth + 1 })
  saved ← apply_env_vars env_vars
  index ← gets (λ w. length w.stack)
  modify (λ w. record w { stack = (record { saved = saved; finished = false }) ∷ w.stack })
  pure index

unfoldable pub restore_each : Vars → ProcessEnv → ProcessEnv
restore_each [] env = env
restore_each ((key, value) ∷ rest) env = restore_each rest (assign key value env)

unfoldable pub restore_saved : Vars → ProcessEnv → ProcessEnv
unfolding restore_each
restore_saved saved env = restore_each (reverse saved) env

unfoldable pub ensure_lock_for_restore : Exec World Unit
ensure_lock_for_restore w =
    if w.lock
    then done tt w
    else (do ensure_lock_is_clean; modify (λ w. record w { lock = true })) w

-- The pop and the write of one scope, in both restoring loops.
unfoldable pub restore_one : GuardState → List GuardState → Exec World Unit
restore_one g rest = do
  modify (λ w. record w { stack = rest })
  guard_mut
  modify (λ w. record w { env = restore_saved g.saved w.env })

-- The loop of `restore_finished_scopes`, over the stack that is left.
unfoldable pub restore_finished : List GuardState → Exec World Unit
unfolding restore_one
restore_finished [] = pure tt
restore_finished (g ∷ rest) = elim g.finished [
  | false ↦ pure tt
  | true ↦ do restore_one g rest; restore_finished rest
]

unfoldable pub last_finished : List GuardState → Bool
last_finished [] = false
last_finished (g ∷ _) = g.finished

unfoldable pub restore_finished_scopes : Exec World Unit
unfolding last_finished
restore_finished_scopes = do
  last ← gets (λ w. last_finished w.stack)
  if last then ensure_lock_for_restore else pure tt
  stack ← gets (λ w. w.stack)
  restore_finished stack

-- The loop of `restore_all_scopes`.
unfoldable pub restore_all : List GuardState → Exec World Unit
unfolding restore_one
restore_all [] = pure tt
restore_all (g ∷ rest) = do restore_one g rest; restore_all rest

unfoldable pub is_empty : List GuardState → Bool
is_empty [] = true
is_empty (_ ∷ _) = false

unfoldable pub restore_all_scopes : Exec World Unit
restore_all_scopes w =
    if is_empty w.stack
    then done tt w
    else (do ensure_lock_for_restore; stack ← gets (λ w. w.stack); restore_all stack) w

unfoldable pub reset_depth_and_unlock : Exec World Unit
reset_depth_and_unlock = modify (λ w. record w { depth = 0; lock = false })

unfoldable pub force_restore_and_reset : Exec World Unit
unfolding is_empty restore_all_scopes reset_depth_and_unlock
force_restore_and_reset w =
    if is_empty w.stack
    then (if w.lock then reset_depth_and_unlock w else done tt (record w { depth = 0 }))
    else (do ensure_lock_for_restore; restore_all_scopes; reset_depth_and_unlock) w

-- `stack.get_mut(index)`, read and written.
unfoldable pub get_scope : ℕ → List GuardState → Option GuardState
get_scope index [] = none
get_scope index (g ∷ rest) = if index == length rest then some g else get_scope index rest

unfoldable pub mark_finished : ℕ → List GuardState → List GuardState
mark_finished index [] = []
mark_finished index (g ∷ rest) =
    if index == length rest
    then record g { finished = true } ∷ rest
    else g ∷ mark_finished index rest

reject_scope : Exec World Bool
reject_scope = do force_restore_and_reset; pure false

accept_scope : ℕ → Exec World Bool
accept_scope index = do
  modify (λ w. record w { stack = mark_finished index w.stack })
  restore_finished_scopes
  pure true

unfoldable pub finish_scope : ℕ → Exec World Bool
unfolding reject_scope accept_scope
finish_scope index w = elim (get_scope index w.stack) [
  | none ↦ reject_scope w
  | some state ↦ if state.finished then reject_scope w else accept_scope index w
]

unfoldable pub release_outermost_lock : Exec World Unit
unfolding is_empty
release_outermost_lock = do
  assert (λ w. is_empty w.stack)
  assert (λ w. w.lock)
  modify (λ w. record w { lock = false })

unfoldable pub exit_scope : ℕ → Exec World Unit
exit_scope index w =
    if w.depth == 0
    then force_restore_and_reset w
    else (do
      modify (λ w. record w { depth = w.depth - 1 })
      finished ← finish_scope index
      depth ← gets (λ w. w.depth)
      if finished && depth == 0 then release_outermost_lock else pure tt)
        w
