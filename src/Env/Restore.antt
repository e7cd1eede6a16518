-- ===== src/Env/Restore.antt =====
-- What a scope saves is exactly what undoes it.
use mathlib.Core.List.{reverse-cons}
use pg_embed_setup_unpriv.Prelude.{
  ◌≡◌, refl, ap, fun_ext, ◌∙◌, true, Option, [], ◌∷◌, ◌++◌, reverse, arith, All, ==_iff, list_eq,
  nat_eq,
}
use pg_embed_setup_unpriv.Prelude.Exec.{done}
use pg_embed_setup_unpriv.Env.Validation.{
  OsString, validate_env_key, validate_env_value, validate_env_key-eq-is_valid_env_key,
  validate_env_value-eq-is_valid_env_value,
}
use pg_embed_setup_unpriv.Env.State.{
  Vars, ProcessEnv, World, assign, apply_single_var, apply_each, validate_all, restore_each,
  restore_saved,
}

-- The environment after the assignments, and the list of previous values.
pub assign_all : Vars → ProcessEnv → ProcessEnv
assign_all [] env = env
assign_all ((key, value) ∷ vars) env = assign_all vars (assign key value env)

pub saved_of : Vars → ProcessEnv → Vars
saved_of [] env = []
saved_of ((key, value) ∷ vars) env = (key, env key) ∷ saved_of vars (assign key value env)

assign-assign :
    (key : OsString) (value : Option OsString) (env : ProcessEnv)
    → assign key (env key) (assign key value env) ≡ env
unfolding assign
assign-assign key value env = fun_ext λ j. ground (arith, ==_iff j key)

restore_each-append :
    (xs ys : Vars) (env : ProcessEnv)
    → restore_each (xs ++ ys) env ≡ restore_each ys (restore_each xs env)
unfolding restore_saved
restore_each-append [] ys env = refl
restore_each-append ((key, value) ∷ xs) ys env = restore_each-append xs ys (assign key value env)

restore_saved-cons :
    (key : OsString) (value : Option OsString) (saved : Vars) (env : ProcessEnv)
    → restore_saved ((key, value) ∷ saved) env ≡ assign key value (restore_saved saved env)
unfolding restore_saved
restore_saved-cons key value saved env =
    ap (λ xs. restore_each xs env) (reverse-cons (key, value) saved)
    ∙ restore_each-append (reverse saved) ((key, value) ∷ []) env

pub restore_saved-assign_all :
    (vars : Vars) (env : ProcessEnv) → restore_saved (saved_of vars env) (assign_all vars env) ≡ env
unfolding assign_all saved_of
restore_saved-assign_all [] env = unfold restore_saved in refl
restore_saved-assign_all ((key, value) ∷ vars) env =
    restore_saved-cons key (env key) (saved_of vars (assign key value env)) _
    ∙ ap (assign key (env key)) (restore_saved-assign_all vars (assign key value env))
    ∙ assign-assign key value env

-- A change that passes the assertions on its name and value.
abbrev pub IsAccepted : OsString × Option OsString → Type 0
IsAccepted (key, value) = (validate_env_key key ≡ true) × (validate_env_value value ≡ true)

pub validate_all-eq :
    (vars : Vars) (w : World) → All IsAccepted vars → validate_all vars w ≡ done tt w
unfolding validate_all
validate_all-eq [] w h = refl
validate_all-eq ((key, value) ∷ vars) w ((hk, hv), h) = rw (hk, hv) (validate_all-eq vars w h)

pub apply_each-eq :
    (vars : Vars) (w : World)
    → All IsAccepted vars
    → apply_each vars w ≡ done (saved_of vars w.env) (record w { env = assign_all vars w.env })
unfolding apply_each apply_single_var assign_all saved_of
apply_each-eq [] w h = refl
apply_each-eq ((key, value) ∷ vars) w ((hk, hv), h) =
    rw
      (← validate_env_key-eq-is_valid_env_key key, ← validate_env_value-eq-is_valid_env_value value)
      (rw (hk, hv) (rw (apply_each-eq vars (record w { env = assign key value w.env }) h)))
