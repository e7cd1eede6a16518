-- ===== src/Tests/Env.antt =====
-- Scopes that are entered and dropped (src/env/mod.rs), at concrete variables.
use pg_embed_setup_unpriv.Prelude.{
  ℕ, ◌≡◌, ◌≢◌, refl, true, false, none, some, [], ◌∷◌, All, length, nat_eq, if◌then◌else◌, ◌==◌,
}
use pg_embed_setup_unpriv.Prelude.Exec.{done, final, ◌>>=◌}
use pg_embed_setup_unpriv.Prelude.Texts.{codes}
use pg_embed_setup_unpriv.Env.State.{Vars, ProcessEnv, World, enter_scope, exit_scope, get_scope}
use pg_embed_setup_unpriv.Env.Validation.{
  validate_env_key, validate_env_value, is_valid_env_key, is_valid_env_value,
}
use pg_embed_setup_unpriv.Env.Restore.{IsAccepted, saved_of}
use pg_embed_setup_unpriv.Env.Invariant.{
  IsValid, IsOpen, entered, exited, enter_scope-eq, exit_scope-eq, entered-IsValid,
}
use pg_embed_setup_unpriv.Env.Misuse.{reset, exit_scope-misused}
use pg_embed_setup_unpriv.Env.Scopes.{
  Reach, here, next, enter, exit, fresh, fresh-Guards, Reach-restores,
}
use pg_embed_setup_unpriv.Env.Nesting.{
  cleaned, out_of_order, exit_scope-enter_scope, out_of_order-restores,
}
use pg_embed_setup_unpriv.Env.Threads.{
  System, initial, Free, put, view, Reach-restores_all, Step-keeps_env,
}
use pg_embed_setup_unpriv.Env.Threads

abbrev base : ProcessEnv
base = λ key. if length key == 4 then some (codes "/home") else none

abbrev outer_vars : Vars
outer_vars = (codes "PGPORT", some (codes "5433")) ∷ (codes "HOME", none) ∷ []

abbrev inner_vars : Vars
inner_vars = (codes "HOME", some (codes "/tmp")) ∷ []

outer-IsAccepted : All IsAccepted outer_vars
unfolding validate_env_key validate_env_value is_valid_env_key is_valid_env_value
outer-IsAccepted = ((refl, refl), ((refl, refl), tt))

inner-IsAccepted : All IsAccepted inner_vars
unfolding validate_env_key validate_env_value is_valid_env_key is_valid_env_value
inner-IsAccepted = ((refl, refl), tt)

abbrev start : World
start = fresh base

start-IsValid : IsValid start
start-IsValid = (fresh-Guards base).valid

abbrev one_open : World
one_open = final (enter_scope inner_vars start)

abbrev none_open : World
none_open = final (exit_scope 0 one_open)

run : Reach start none_open
run = next (next here (enter inner_vars)) (exit 0)

newest-IsOpen : IsOpen 0 (entered inner_vars start).stack
unfolding get_scope
newest-IsOpen = (record { saved = saved_of inner_vars base; finished = false }, refl, refl)

none_open-eq : none_open ≡ exited 0 (entered inner_vars start)
none_open-eq = rw (enter_scope-eq inner_vars start inner-IsAccepted start-IsValid) (
    rw (
      exit_scope-eq 0 (entered inner_vars start) (entered-IsValid inner_vars start start-IsValid)
        newest-IsOpen))

none_open-depth : none_open.depth ≡ 0
none_open-depth = rw none_open-eq

Reach-restores_example : (none_open.env ≡ base) × (none_open.lock ≡ false) × (none_open.stack ≡ [])
Reach-restores_example = Reach-restores base none_open run none_open-depth

exit_scope-enter_scope_example :
    (enter_scope outer_vars >>= exit_scope) start ≡ done tt (cleaned start)
exit_scope-enter_scope_example =
    exit_scope-enter_scope outer_vars start outer-IsAccepted start-IsValid

out_of_order-restores_example : out_of_order outer_vars inner_vars start ≡ done tt (cleaned start)
out_of_order-restores_example =
    out_of_order-restores outer_vars inner_vars start outer-IsAccepted inner-IsAccepted
      start-IsValid

abbrev outer_open : World
outer_open = entered outer_vars start

abbrev two_open : World
two_open = entered inner_vars outer_open

older-IsOpen : IsOpen 0 two_open.stack
unfolding get_scope
older-IsOpen = (record { saved = saved_of outer_vars base; finished = false }, refl, refl)

not-IsOpen : ¬ IsOpen 5 two_open.stack
unfolding get_scope
not-IsOpen (g, e, h) = cc

exit_scope-misused_example : exit_scope 5 two_open ≡ done tt (reset two_open)
exit_scope-misused_example = exit_scope-misused 5 two_open not-IsOpen

idle : (t u : ℕ) → Free (initial base) t
idle t u u' ne = refl

abbrev system : System
system = put (initial base) 0 one_open

system-Reach : Threads.Reach (initial base) system
system-Reach = Threads.next 0 Threads.here (Threads.enter inner_vars (λ h u ne. refl))

system-depth : (system.threads 0).depth ≢ 0
system-depth = rw (enter_scope-eq inner_vars start inner-IsAccepted start-IsValid) (λ h. cc)

Step-keeps_env_example : (put system 1 (final (exit_scope 0 (view system 1)))).env ≡ system.env
Step-keeps_env_example =
    Step-keeps_env base system 0 1 _ system-Reach system-depth (λ h. cc) (Threads.exit 0)

Reach-restores_all_example :
    ((t u : ℕ) → (system.threads t).lock ≡ true → (system.threads u).lock ≡ true → t ≡ u)
    × (((t : ℕ) → (system.threads t).depth ≡ 0) → system.env ≡ base)
Reach-restores_all_example = Reach-restores_all base system system-Reach
