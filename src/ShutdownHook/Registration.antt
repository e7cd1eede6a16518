-- ===== src/ShutdownHook/Registration.antt =====
-- The hook is registered once, and by one thread at a time.
use pg_embed_setup_unpriv.Prelude.{
  ℕ, ◌+◌, ◌≡◌, ◌≢◌, refl, sym, ap, subst, ◌∙◌, ◌⊎◌, inl, inr, Bool, true, false, Option, ◌==◌,
  ==_iff, ==_refl, nat_eq, Bool-cases, arith,
}
use pg_embed_setup_unpriv.Error.{other, BootstrapResult, ok, err}
use pg_embed_setup_unpriv.ShutdownHook.{
  ShutdownWork, ShutdownRegistrationState, empty, registering, registered, Call, idle, reserving,
  building, built, failed, returned, Process, set_call, reserve_shutdown_registration,
  build_shutdown_state, commit_shutdown_registration, rollback_shutdown_registration, Step, enter,
  reserve, build, commit, rollback, Reach, here, next,
}

-- The thread is between its reservation and the end of it.
abbrev pub IsBusy : Call → Type 0
IsBusy (building work) = Unit
IsBusy (built work) = Unit
IsBusy (failed e) = Unit
IsBusy _ = ⊥

-- The call has reported success.
abbrev pub IsDone : Call → Type 0
IsDone (returned (ok u)) = Unit
IsDone _ = ⊥

-- The callbacks that a thread with a reservation has made the C runtime take.
abbrev pub taken_by : Call → ℕ
taken_by (built work) = 1
taken_by _ = 0

-- Nothing is registered and nobody is about to; one thread is, and no callback is there before it has
-- built its state; or the hook is there, with its one callback.
pub data IsConsistent (s : Process) : Type 0 where
  unregistered :
      s.state ≡ empty
      → s.callbacks ≡ 0
      → ((q : ℕ) → ¬ IsBusy (s.call q))
      → ((q : ℕ) → ¬ IsDone (s.call q))
      → IsConsistent s
  under_way :
      (p : ℕ)
      → s.state ≡ registering
      → IsBusy (s.call p)
      → ((q : ℕ) → IsBusy (s.call q) → q ≡ p)
      → s.callbacks ≡ taken_by (s.call p)
      → ((q : ℕ) → ¬ IsDone (s.call q))
      → IsConsistent s
  in_place :
      (work : ShutdownWork)
      → s.state ≡ registered work
      → s.callbacks ≡ 1
      → ((q : ℕ) → ¬ IsBusy (s.call q))
      → IsConsistent s

abbrev pub initial : Process
initial = record { state = empty; callbacks = 0; call = λ p. idle }

set_call-cases :
    (p : ℕ) (new : Call) (call : ℕ → Call) (P : ℕ → Call → Type 0)
    → P p new
    → ((q : ℕ) → q ≢ p → P q (call q))
    → (q : ℕ) → P q (set_call p new call q)
unfolding set_call
set_call-cases p new call P h k q = elim (Bool-cases (q == p)) [
  | inl e ↦ rw e (subst (λ i. P i new) (sym ((==_iff q p).0 e)) h)
  | inr e ↦ rw e (k q (λ i. absurd (ground (arith, e, i))))
]

set_call-own : (p : ℕ) (new : Call) (call : ℕ → Call) → set_call p new call p ≡ new
unfolding set_call
set_call-own p new call = rw (==_refl p) refl

-- A thread that is not busy goes on to where it is not busy either.
calm-IsConsistent :
    (s : Process) (p : ℕ) (new : Call)
    → IsConsistent s
    → ¬ IsBusy (s.call p)
    → ¬ IsBusy new
    → (¬ IsDone new) ⊎ ((work : ShutdownWork) × (s.state ≡ registered work))
    → IsConsistent (record s { call = set_call p new s.call })
calm-IsConsistent s p new (unregistered e c busy done) b n (inl d) =
    unregistered e c (set_call-cases p new s.call (λ q x. ¬ IsBusy x) n (λ q _. busy q))
      (set_call-cases p new s.call (λ q x. ¬ IsDone x) d (λ q _. done q))
calm-IsConsistent s p new (unregistered e c busy done) b n (inr (work, r)) =
    absurd (clash (sym e ∙ r))
  where
    clash : empty ≡ registered work → ⊥
    clash k = cc
calm-IsConsistent s p new (under_way h e hb only c done) b n (inr (work, r)) =
    absurd (clash (sym e ∙ r))
  where
    clash : registering ≡ registered work → ⊥
    clash k = cc
calm-IsConsistent s p new (under_way h e hb only c done) b n (inl d) =
    let kept : set_call p new s.call h ≡ s.call h =
      set_call-cases p new s.call (λ q x. q ≡ h → x ≡ s.call h)
        (λ i. absurd (b (subst (λ q. IsBusy (s.call q)) (sym i) hb))) (λ q _ i. ap s.call i) h
        refl in
    under_way h e (subst IsBusy (sym kept) hb)
      (set_call-cases p new s.call (λ q x. IsBusy x → q ≡ h) (λ k. absurd (n k)) (λ q _. only q))
      (c ∙ ap taken_by (sym kept))
      (set_call-cases p new s.call (λ q x. ¬ IsDone x) d (λ q _. done q))
calm-IsConsistent s p new (in_place work e c busy) b n d =
    in_place work e c (set_call-cases p new s.call (λ q x. ¬ IsBusy x) n (λ q _. busy q))

-- The one thread that is busy.
pub record IsHolder (s : Process) (p : ℕ) : Type 0 where
  pub state : s.state ≡ registering
  pub only : (q : ℕ) → IsBusy (s.call q) → q ≡ p
  pub count : s.callbacks ≡ taken_by (s.call p)
  pub not_done : (q : ℕ) → ¬ IsDone (s.call q)

busy-IsHolder : (s : Process) (p : ℕ) → IsConsistent s → IsBusy (s.call p) → IsHolder s p
busy-IsHolder s p (unregistered e c busy done) b = absurd (busy p b)
busy-IsHolder s p (in_place work e c busy) b = absurd (busy p b)
busy-IsHolder s p (under_way h e hb only c done) b =
    let same : p ≡ h = only p b in
    subst (IsHolder s) (sym same) (record { state = e; only = only; count = c; not_done = done })

-- Once it is not busy any more, nobody is.
nobody_else :
    (s : Process) (p : ℕ) (new : Call)
    → IsHolder s p
    → ¬ IsBusy new
    → (q : ℕ) → ¬ IsBusy (set_call p new s.call q)
nobody_else s p new h n =
    set_call-cases p new s.call (λ q x. ¬ IsBusy x) n (λ q apart b. apart (h.only q b))

-- It stays busy.
busy-IsConsistent :
    (s : Process) (p count : ℕ) (new : Call)
    → IsHolder s p
    → IsBusy new
    → ¬ IsDone new
    → count ≡ taken_by new
    → IsConsistent (record s { callbacks = count; call = set_call p new s.call })
busy-IsConsistent s p count new h b d c =
    let own = set_call-own p new s.call in
    under_way p h.state (subst IsBusy (sym own) b)
      (set_call-cases p new s.call (λ q x. IsBusy x → q ≡ p) (λ _. refl) (λ q _. h.only q))
      (c ∙ ap taken_by (sym own))
      (set_call-cases p new s.call (λ q x. ¬ IsDone x) d (λ q _. h.not_done q))

reserve-IsConsistent :
    (s : Process) (p : ℕ) (work : ShutdownWork) (state : ShutdownRegistrationState)
    → IsConsistent s
    → s.call p ≡ reserving work
    → s.state ≡ state
    → IsConsistent (reserve_shutdown_registration p work state s)
unfolding reserve_shutdown_registration
reserve-IsConsistent s p work registering c e k = c
reserve-IsConsistent s p work (registered other_work) c e k =
    calm-IsConsistent s p (returned (ok tt)) c (λ b. subst IsBusy e b) (λ b. b)
      (inr (other_work, k))
reserve-IsConsistent s p work empty (in_place w f count busy) e k = absurd (clash (sym f ∙ k))
  where
    clash : registered w ≡ empty → ⊥
    clash i = cc
reserve-IsConsistent s p work empty (under_way h f hb only count done) e k =
    absurd (clash (sym f ∙ k))
  where
    clash : registering ≡ empty → ⊥
    clash i = cc
reserve-IsConsistent s p work empty (unregistered f count busy done) e k =
    let own = set_call-own p (building work) s.call in
    under_way p refl (subst IsBusy (sym own) tt)
      (set_call-cases p (building work) s.call (λ q x. IsBusy x → q ≡ p) (λ _. refl)
        (λ q _ b. absurd (busy q b)))
      (count ∙ ap taken_by (sym own))
      (set_call-cases p (building work) s.call (λ q x. ¬ IsDone x) (λ d. d) (λ q _. done q))

build-IsConsistent :
    (s : Process) (p : ℕ) (work : ShutdownWork) (file : BootstrapResult (Option ℕ)) (taken : Bool)
    → IsHolder s p
    → s.call p ≡ building work
    → IsConsistent (build_shutdown_state p work file taken s)
unfolding build_shutdown_state
build-IsConsistent s p work (err e) taken h k =
    busy-IsConsistent s p s.callbacks (failed e) h tt (λ d. d) (h.count ∙ ap taken_by k)
build-IsConsistent s p work (ok file) false h k =
    busy-IsConsistent s p s.callbacks (failed other) h tt (λ d. d) (h.count ∙ ap taken_by k)
build-IsConsistent s p work (ok file) true h k =
    busy-IsConsistent s p (s.callbacks + 1) (built work) h tt (λ d. d)
      (ap (λ n. n + 1) (h.count ∙ ap taken_by k))

Step-IsConsistent : (s t : Process) → IsConsistent s → Step s t → IsConsistent t
unfolding commit_shutdown_registration rollback_shutdown_registration
Step-IsConsistent s _ c (enter p work calm) =
    calm-IsConsistent s p (reserving work) c (not_busy calm) (λ b. b) (inl (λ d. d))
  where
    not_busy :
        (s.call p ≡ idle) ⊎ ((r : BootstrapResult (Unit {0})) × (s.call p ≡ returned r))
        → ¬ IsBusy (s.call p)
    not_busy (inl e) b = subst IsBusy e b
    not_busy (inr (r, e)) b = subst IsBusy e b
Step-IsConsistent s _ c (reserve p work e) = reserve-IsConsistent s p work s.state c e refl
Step-IsConsistent s _ c (build p work file taken e) =
    build-IsConsistent s p work file taken (busy-IsHolder s p c (subst IsBusy (sym e) tt)) e
Step-IsConsistent s _ c (commit p work e) =
    let h = busy-IsHolder s p c (subst IsBusy (sym e) tt) in
    in_place work refl (h.count ∙ ap taken_by e) (nobody_else s p (returned (ok tt)) h (λ b. b))
Step-IsConsistent s _ c (rollback p f e) =
    let h = busy-IsHolder s p c (subst IsBusy (sym e) tt) in
    unregistered refl (h.count ∙ ap taken_by e) (nobody_else s p (returned (err f)) h (λ b. b)) (
      set_call-cases p (returned (err f)) s.call (λ q x. ¬ IsDone x) (λ d. d) (λ q _. h.not_done q))

-- However the calls of the threads interleave, at most one of them is registering the hook, and one
-- is exactly while the state says so. The C runtime has one callback if the hook is registered, or if
-- that thread has built its state, and none otherwise; and no call has succeeded before the hook is
-- registered.
pub Reach-IsConsistent : (s : Process) → Reach initial s → IsConsistent s
Reach-IsConsistent _ here = unregistered refl refl (λ q b. b) (λ q d. d)
Reach-IsConsistent s (next {t = t} r k) = Step-IsConsistent t s (Reach-IsConsistent t r) k
