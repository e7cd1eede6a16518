-- ===== src/Env/Scopes.antt =====
-- Sequences of `ScopedEnv::apply` and drops on one thread (src/env/mod.rs), in any order and with
-- any arguments.
use pg_embed_setup_unpriv.Prelude.{
  ℕ, ◌≡◌, refl, ◌∙◌, false, List, [], ◌∷◌, arith, nat_eq, Bool-cases, inl, inr, ◌⊎◌, Option-cases,
}
use pg_embed_setup_unpriv.Prelude.Exec.{done, final}
use pg_embed_setup_unpriv.Env.State.{
  Vars, ProcessEnv, World, GuardState, enter_scope, exit_scope, last_finished, get_scope,
}
use pg_embed_setup_unpriv.Env.Invariant.{
  unwind, open_count, IsValid, IsOpen, enter_scope-eq, entered-IsValid, unwind-entered, exited,
  exit_scope-eq, exited-IsValid, unwind-exited,
}
use pg_embed_setup_unpriv.Env.Misuse.{
  accepted, All-IsAccepted, enter_scope-rejected, reset, exit_scope-misused,
}

-- `ThreadState::new` in a process with this environment.
abbrev pub fresh : ProcessEnv → World
fresh env = record { env = env; poisoned = false; depth = 0; lock = false; stack = [] }

-- One call: the state that it leaves, also where it panics.
pub data Step (w : World) : World → Type 0 where
  enter : (vars : Vars) → Step w (final (enter_scope vars w))
  exit : (index : ℕ) → Step w (final (exit_scope index w))

pub data Reach (w : World) : World → Type 0 where
  here : Reach w w
  next : {u v : World} → Reach w u → Step u v → Reach w v

-- The scopes are well formed, and undoing them all gives the base environment.
pub record Guards (base : ProcessEnv) (w : World) : Type 0 where
  pub valid : IsValid w
  pub undo : unwind w.stack w.env ≡ base

IsOpen-cases : (index : ℕ) (stack : List GuardState) → IsOpen index stack ⊎ (¬ IsOpen index stack)
IsOpen-cases index stack = elim (Option-cases (get_scope index stack)) [
  | inl missing ↦ inr (λ o. ground (arith, o))
  | inr (g, found) ↦ elim (Bool-cases g.finished) [
    | inl e ↦ inr (λ o. ground (arith, o))
    | inr e ↦ inl (g, found, e)
  ]
]

pub enter-Guards :
    (base : ProcessEnv) (vars : Vars) (w : World)
    → Guards base w
    → Guards base (final (enter_scope vars w))
enter-Guards base vars w g = elim (Bool-cases (accepted vars)) [
  | inl yes_all ↦
      rw (enter_scope-eq vars w (All-IsAccepted vars yes_all) g.valid)
        (record { valid = entered-IsValid vars w g.valid; undo = unwind-entered vars w ∙ g.undo })
  | inr bad ↦ rw (enter_scope-rejected vars w bad) g
]

pub exit-Guards :
    (base : ProcessEnv) (index : ℕ) (w : World)
    → Guards base w
    → Guards base (final (exit_scope index w))
unfolding last_finished
exit-Guards base index w g = elim (IsOpen-cases index w.stack) [
  | inl live ↦ rw (exit_scope-eq index w g.valid live) (record {
    valid = exited-IsValid index w g.valid live;
    undo = unwind-exited index w ∙ g.undo;
  })
  | inr stale ↦
      rw (exit_scope-misused index w stale) (record { valid = ground arith; undo = g.undo })
]

Step-Guards : (base : ProcessEnv) {w v : World} → Step w v → Guards base w → Guards base v
Step-Guards base {w = w} (enter vars) g = enter-Guards base vars w g
Step-Guards base {w = w} (exit index) g = exit-Guards base index w g

pub fresh-Guards : (base : ProcessEnv) → Guards base (fresh base)
unfolding last_finished
fresh-Guards base = record { valid = ground arith; undo = refl }

-- After any calls from a fresh thread, with any names, values and indices, the state is well
-- formed and undoing the open scopes gives the environment before the first call.
pub Reach-Guards : (base : ProcessEnv) {w : World} → Reach (fresh base) w → Guards base w
Reach-Guards base here = fresh-Guards base
Reach-Guards base (next r st) = Step-Guards base st (Reach-Guards base r)

pub all_closed :
    (stack : List GuardState) → last_finished stack ≡ false → open_count stack ≡ 0 → stack ≡ []
unfolding last_finished
all_closed [] h e = refl
all_closed (g ∷ rest) h e = ground arith

-- After any calls from a fresh thread, once no scope is open the environment is the one before
-- the first call, the mutex is free and nothing is left on the stack.
pub Reach-restores :
    (base : ProcessEnv) (w : World)
    → Reach (fresh base) w
    → w.depth ≡ 0
    → (w.env ≡ base) × (w.lock ≡ false) × (w.stack ≡ [])
Reach-restores base w r h =
    let g = Reach-Guards base r in
    let e = all_closed w.stack g.valid.top (ground (arith, g.valid)) in
    (ground (arith, e, g.undo), ground (arith, g.valid), e)

-- After any calls from a fresh thread no drop panics, whatever its index.
pub exit_scope-returns :
    (base : ProcessEnv) (w : World) (index : ℕ)
    → Reach (fresh base) w
    → (v : World) × (exit_scope index w ≡ done tt v)
exit_scope-returns base w index r = elim (IsOpen-cases index w.stack) [
  | inl live ↦ (exited index w, exit_scope-eq index w (Reach-Guards base r).valid live)
  | inr stale ↦ (reset w, exit_scope-misused index w stale)
]
