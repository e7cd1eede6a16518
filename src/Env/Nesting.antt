-- ===== src/Env/Nesting.antt =====
-- Scopes that are dropped in order and out of order.
use pg_embed_setup_unpriv.Prelude.{
  ℕ, suc, ◌+◌, ◌<◌, ◌≡◌, refl, false, List, [], ◌∷◌, arith, All, length, ◌==◌, nat_eq,
  if◌then◌else◌,
}
use pg_embed_setup_unpriv.Prelude.Exec.{Exec, done, final, ◌>>=◌, ◌>>◌}
use pg_embed_setup_unpriv.Env.State.{
  Vars, World, GuardState, enter_scope, exit_scope, last_finished, get_scope, mark_finished,
}
use pg_embed_setup_unpriv.Env.Restore.{IsAccepted, saved_of, restore_saved-assign_all}
use pg_embed_setup_unpriv.Env.Invariant.{
  IsValid, IsOpen, entered, enter_scope-eq, entered-IsValid, exited, exit_scope-eq, exited-IsValid,
  settled_env, settled-eq, settled_env-eq,
}

-- The world after scopes have come and gone: acquiring the free mutex clears its poison.
abbrev pub cleaned : World → World
cleaned w = record w { poisoned = if w.depth == 0 then false else w.poisoned }

get_scope-newest : (vars : Vars) (w : World) → IsOpen (length w.stack) (entered vars w).stack
unfolding get_scope
get_scope-newest vars w =
    (record { saved = saved_of vars w.env; finished = false }, ground arith, refl)

exited-entered :
    (vars : Vars) (w : World) → IsValid w → exited (length w.stack) (entered vars w) ≡ cleaned w
unfolding mark_finished
exited-entered vars w v = ground (
  arith,
  settled-eq w.stack v.top,
  restore_saved-assign_all vars w.env,
  settled_env-eq w.stack w.env v.top,
)

-- In a well-formed state, entering a scope with acceptable names and values and dropping it gives back
-- the environment and the thread's whole state; only the mutex's poison may have been cleared.
pub exit_scope-enter_scope :
    (vars : Vars) (w : World)
    → All IsAccepted vars
    → IsValid w
    → (enter_scope vars >>= exit_scope) w ≡ done tt (cleaned w)
exit_scope-enter_scope vars w h v = rw (enter_scope-eq vars w h v) (
    rw
      (exit_scope-eq (length w.stack) (entered vars w) (entered-IsValid vars w v)
        (get_scope-newest vars w))
      (rw (exited-entered vars w v)))

settled_env-older :
    (index : ℕ) (stack : List GuardState) (w : World)
    → last_finished stack ≡ false
    → index + 1 < length stack
    → settled_env (mark_finished index stack) w.env ≡ w.env
unfolding mark_finished last_finished
settled_env-older index [] w h lt = refl
settled_env-older index (g ∷ rest) w h lt = ground arith

-- In a well-formed state, dropping an open scope that is not the newest on the stack changes no
-- variable.
pub exit_scope-older :
    (index : ℕ) (w : World)
    → IsValid w
    → IsOpen index w.stack
    → index + 1 < length w.stack
    → (final (exit_scope index w)).env ≡ w.env
exit_scope-older index w v o lt =
    rw (exit_scope-eq index w v o) (settled_env-older index w.stack w v.top lt)

unfoldable pub out_of_order : Vars → Vars → Exec World Unit
out_of_order outer inner = do
  i ← enter_scope outer
  j ← enter_scope inner
  exit_scope i
  exit_scope j

module _ (outer inner : Vars) (w : World) (v : IsValid w) where
  abbrev older : World
  older = entered outer w

  abbrev both : World
  both = entered inner older

  older-IsOpen : IsOpen (length w.stack) both.stack
  unfolding get_scope
  older-IsOpen = (record { saved = saved_of outer w.env; finished = false }, ground arith, refl)

  both-IsValid : IsValid both
  both-IsValid = entered-IsValid inner older (entered-IsValid outer w v)

  newer-IsOpen : IsOpen (length older.stack) (exited (length w.stack) both).stack
  unfolding get_scope mark_finished
  newer-IsOpen = (record { saved = saved_of inner older.env; finished = false }, ground arith, refl)

  exited-exited : exited (length older.stack) (exited (length w.stack) both) ≡ cleaned w
  unfolding mark_finished
  exited-exited = ground (
    arith,
    settled-eq w.stack v.top,
    restore_saved-assign_all outer w.env,
    restore_saved-assign_all inner older.env,
    settled_env-eq w.stack w.env v.top,
  )

-- In a well-formed state, two scopes with acceptable names and values that are dropped in the order
-- in which they were entered give back the environment and the thread's whole state, as if they had
-- been dropped the other way round; only the mutex's poison may have been cleared.
pub out_of_order-restores :
    (outer inner : Vars) (w : World)
    → All IsAccepted outer
    → All IsAccepted inner
    → IsValid w
    → out_of_order outer inner w ≡ done tt (cleaned w)
unfolding out_of_order
out_of_order-restores outer inner w ho hi v =
    let b = both-IsValid outer inner w v in
    let o = older-IsOpen outer inner w v in
    rw (enter_scope-eq outer w ho v) (
      rw (enter_scope-eq inner (entered outer w) hi (entered-IsValid outer w v)) (
        rw (exit_scope-eq (length w.stack) (entered inner (entered outer w)) b o) (
          rw
            (exit_scope-eq (suc (length w.stack))
              (exited (length w.stack) (entered inner (entered outer w)))
              (exited-IsValid (length w.stack) (entered inner (entered outer w)) b o)
              (newer-IsOpen outer inner w v))
            (rw (exited-exited outer inner w v)))))
