-- ===== src/Env/Threads.antt =====
-- Several threads share the process environment and `ENV_LOCK`; each has its own `ThreadState`.
use pg_embed_setup_unpriv.Prelude.{
  ℕ, ◌≡◌, ◌≢◌, refl, ap, sym, Bool, true, false, List, [], arith, ◌==◌, nat_eq, if◌then◌else◌,
  Bool-cases, inl, inr, ==_iff, ==_refl, fun_ext,
}
use pg_embed_setup_unpriv.Prelude.Exec.{final}
use pg_embed_setup_unpriv.Env.State.{
  Vars, ProcessEnv, World, GuardState, enter_scope, exit_scope, is_empty, get_scope,
}
use pg_embed_setup_unpriv.Env.Invariant.{unwind, IsValid}
use pg_embed_setup_unpriv.Env.Misuse.{exit_scope-misused}
use pg_embed_setup_unpriv.Env.Scopes.{all_closed, Guards, enter-Guards, exit-Guards, fresh-Guards}

pub record ThreadState : Type 0 where
  pub depth : ℕ
  pub lock : Bool
  pub stack : List GuardState

pub record System : Type 0 where
  pub env : ProcessEnv
  pub poisoned : Bool
  pub threads : ℕ → ThreadState

-- What one thread sees of the system.
abbrev pub view : System → ℕ → World
view s t = record {
  env = s.env;
  poisoned = s.poisoned;
  depth = (s.threads t).depth;
  lock = (s.threads t).lock;
  stack = (s.threads t).stack;
}

abbrev pub own : World → ThreadState
own w = record { depth = w.depth; lock = w.lock; stack = w.stack }

-- The system after thread `t` has left its world as `w`.
abbrev pub put : System → ℕ → World → System
put s t w = record {
  env = w.env;
  poisoned = w.poisoned;
  threads = λ u. if u == t then own w else s.threads u;
}

-- No thread but `t` holds the mutex.
abbrev pub Free : System → ℕ → Type 0
Free s t = (u : ℕ) → u ≢ t → (s.threads u).lock ≡ false

-- A call by thread `t`. The first scope of a thread waits for the mutex.
pub data Step (s : System) (t : ℕ) : System → Type 0 where
  enter :
      (vars : Vars)
      → ((s.threads t).depth ≡ 0 → Free s t)
      → Step s t (put s t (final (enter_scope vars (view s t))))
  exit : (index : ℕ) → Step s t (put s t (final (exit_scope index (view s t))))

pub data Reach (s : System) : System → Type 0 where
  here : Reach s s
  next : {u v : System} (t : ℕ) → Reach s u → Step u t v → Reach s v

-- `base` is the environment without any scope: it is there when the mutex is free, and the holder
-- of the mutex gets back to it.
pub record IsIsolated (base : ProcessEnv) (s : System) : Type 0 where
  pub valid : (t : ℕ) → IsValid (view s t)
  pub exclusive : (t u : ℕ) → (s.threads t).lock ≡ true → (s.threads u).lock ≡ true → t ≡ u
  pub undo : (t : ℕ) → (s.threads t).lock ≡ true → unwind (s.threads t).stack s.env ≡ base
  pub clean : ((t : ℕ) → (s.threads t).lock ≡ false) → s.env ≡ base

abbrev pub initial : ProcessEnv → System
initial base = record {
  env = base;
  poisoned = false;
  threads = λ t. record { depth = 0; lock = false; stack = [] };
}

initial-IsIsolated : (base : ProcessEnv) → IsIsolated base (initial base)
initial-IsIsolated base = record {
  valid = λ t. (fresh-Guards base).valid;
  exclusive = λ t u h k. cc;
  undo = λ t h. cc;
  clean = λ h. refl;
}

closed_depth : (w : World) → IsValid w → w.lock ≡ false → w.depth ≡ 0
closed_depth w v h = ground (arith, v.locked)

unlocked : (w : World) → IsValid w → w.lock ≡ false → (w.depth ≡ 0) × (w.stack ≡ [])
unlocked w v h =
    let e = closed_depth w v h in (e, all_closed w.stack v.top (ground (arith, v.counted)))

module _ (base : ProcessEnv) (s : System) (i : IsIsolated base s) (t : ℕ) where
  none_locked : (s.threads t).lock ≡ false → Free s t → (u : ℕ) → (s.threads u).lock ≡ false
  none_locked h free u = ground (arith, ==_iff u t, free u)

  idle-undo : (s.threads t).lock ≡ false → Free s t → unwind (s.threads t).stack s.env ≡ base
  idle-undo h free = rw ((unlocked (view s t) (i.valid t) h).1) (i.clean (none_locked h free))

  view-Guards : Free s t → Guards base (view s t)
  view-Guards free = elim (Bool-cases (s.threads t).lock) [
    | inl mine ↦ record { valid = i.valid t; undo = i.undo t mine }
    | inr open_lock ↦ record { valid = i.valid t; undo = idle-undo open_lock free }
  ]

  released : (w : World) → Guards base w → w.lock ≡ false → w.env ≡ base
  released w g h = rw ((unlocked w g.valid h).1) at g.undo

  put-IsIsolated : (w : World) → Free s t → Guards base w → IsIsolated base (put s t w)
  put-IsIsolated w free g = record {
    valid = λ u. ground (arith, ==_iff u t, i.valid u, g.valid);
    exclusive = λ u v h k. ground (arith, ==_iff u t, ==_iff v t, free u, free v);
    undo = λ u h. ground (arith, ==_iff u t, free u, g.undo);
    clean = λ h. released w g (rw (==_refl t) at (h t));
  }

  own_thread : (u : ℕ) → (if u == t then own (view s t) else s.threads u) ≡ s.threads u
  own_thread u = ground (arith, ==_iff u t)

  put-view : put s t (view s t) ≡ s
  put-view = ap (λ (f : ℕ → ThreadState). record s { threads = f }) (fun_ext own_thread)

  Free-of_lock : (s.threads t).lock ≡ true → Free s t
  Free-of_lock h u ne = elim (Bool-cases (s.threads u).lock) [
    | inl e ↦ absurd (ne (i.exclusive u t e h))
    | inr e ↦ e
  ]

  enter-IsIsolated :
      (vars : Vars)
      → ((s.threads t).depth ≡ 0 → Free s t)
      → IsIsolated base (put s t (final (enter_scope vars (view s t))))
  enter-IsIsolated vars waits = elim (Bool-cases (s.threads t).lock) [
    | inl mine ↦ taken (Free-of_lock mine)
    | inr idle ↦ taken (waits (unlocked (view s t) (i.valid t) idle).0)
  ]
    where
      taken : Free s t → IsIsolated base (put s t (final (enter_scope vars (view s t))))
      taken free = put-IsIsolated _ free (enter-Guards base vars _ (view-Guards free))

  idle_exit :
      (index : ℕ) → (s.threads t).lock ≡ false → final (exit_scope index (view s t)) ≡ view s t
  unfolding is_empty get_scope
  idle_exit index idle =
      let (shallow, empty) = unlocked (view s t) (i.valid t) idle in
      rw (exit_scope-misused index (view s t) (λ o. ground (arith, o, empty)))
        (ground (arith, shallow, empty))

  exit-IsIsolated : (index : ℕ) → IsIsolated base (put s t (final (exit_scope index (view s t))))
  exit-IsIsolated index = elim (Bool-cases (s.threads t).lock) [
    | inl mine ↦
        let free = Free-of_lock mine in
        put-IsIsolated _ free (exit-Guards base index _ (view-Guards free))
    | inr idle ↦ rw (idle_exit index idle) (rw put-view i)
  ]

Step-IsIsolated :
    (base : ProcessEnv) {s : System} (t : ℕ) {v : System}
    → Step s t v
    → IsIsolated base s
    → IsIsolated base v
Step-IsIsolated base {s = s} t (enter vars waits) i = enter-IsIsolated base s i t vars waits
Step-IsIsolated base {s = s} t (exit index) i = exit-IsIsolated base s i t index

pub Reach-IsIsolated : (base : ProcessEnv) {s : System} → Reach (initial base) s → IsIsolated base s
Reach-IsIsolated base here = initial-IsIsolated base
Reach-IsIsolated base (next t r st) = Step-IsIsolated base t st (Reach-IsIsolated base r)

-- However the calls of the threads interleave, no two threads hold the mutex, and once no thread
-- has an open scope the environment is the one before all of them.
pub Reach-restores_all :
    (base : ProcessEnv) (s : System)
    → Reach (initial base) s
    → ((t u : ℕ) → (s.threads t).lock ≡ true → (s.threads u).lock ≡ true → t ≡ u)
      × (((t : ℕ) → (s.threads t).depth ≡ 0) → s.env ≡ base)
Reach-restores_all base s r =
    let i = Reach-IsIsolated base r in
    (i.exclusive, λ closed. i.clean (λ t. ground (arith, closed t, (i.valid t).locked)))

others_idle :
    (base : ProcessEnv) (s : System) (i : IsIsolated base s) (t u : ℕ)
    → (s.threads t).depth ≢ 0
    → u ≢ t
    → ((s.threads t).lock ≡ true) × ((s.threads u).lock ≡ false)
others_idle base s i t u busy ne =
    let mine : (s.threads t).lock ≡ true = ground (arith, (i.valid t).locked) in
    (mine, Free-of_lock base s i t mine u ne)

held : {b : Bool} → b ≡ true → b ≡ false → ⊥
held h k = cc

-- In every system that calls of the threads lead to: while a thread has an open scope, no call of
-- another thread changes any variable.
pub Step-keeps_env :
    (base : ProcessEnv) (s : System) (t u : ℕ) (v : System)
    → Reach (initial base) s
    → (s.threads t).depth ≢ 0
    → u ≢ t
    → Step s u v
    → v.env ≡ s.env
Step-keeps_env base s t u v r busy ne (enter vars waits) =
    let i = Reach-IsIsolated base r in
    let (mine, idle) = others_idle base s i t u busy ne in
    absurd (held mine (waits (unlocked (view s u) (i.valid u) idle).0 t (λ e. ne (sym e))))
Step-keeps_env base s t u v r busy ne (exit index) =
    let i = Reach-IsIsolated base r in
    let idle = (others_idle base s i t u busy ne).1 in
    ap (λ (w : World). w.env) (idle_exit base s i u index idle)
