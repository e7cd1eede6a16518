-- ===== src/Slots/Sweep.antt =====
-- What a sweep removes, and what it leaves alone.
use mathlib.Core.List.{append-nil, append_assoc}
use pg_embed_setup_unpriv.Prelude.{
  ℕ, ◌≡◌, refl, sym, ap, subst, ◌∙◌, ◌⊎◌, inl, inr, Bool, true, false, not, if◌then◌else◌, ◌&&◌,
  Option, none, some, List, [], ◌∷◌, ◌++◌, ◌==◌, ==_iff, ==_refl, list_eq, nat_eq, All, All-append,
  arith, Bool-cases,
}
use pg_embed_setup_unpriv.Prelude.Texts.{Text}
use pg_embed_setup_unpriv.Slots.{
  LockFile, free, ServerState, absent, running, unconfirmed, SlotFile, System, Files, DirEntry,
  lock_stem, remove_files, is_free, take_dead_lock, classify, server_state, stop_orphaned_server,
  remove_slot, finish_sweep, sweep_locked, sweep_one, sweep_entry, sweep_dead_slots,
}

module _ (sys : System) where
  -- No process is recorded for the slot, or one that does not live, or that is not its server.
  abbrev pub HasNoServer : Text → Type 0
  HasNoServer name =
      (sys.postmaster_pid name ≡ none)
      ⊎ ((pid : ℕ) × (sys.postmaster_pid name ≡ some pid)
          × ((sys.process_alive pid ≡ false) ⊎ (sys.is_server_for pid name ≡ some false)))

  -- The process that is recorded for the slot lives, and it is confirmed as its server.
  abbrev pub IsServer : Text → ℕ → Type 0
  IsServer name pid =
      (sys.postmaster_pid name ≡ some pid)
      × (sys.process_alive pid ≡ true)
      × (sys.is_server_for pid name ≡ some true)

  -- The owner is gone, and no server can be left in the slot's directory.
  abbrev pub IsDead : Text → Type 0
  IsDead name =
      (sys.lock name ≡ free)
      × (HasNoServer name ⊎ ((pid : ℕ) × IsServer name pid × (sys.stop pid ≡ true)))

  -- The process is the server of a slot whose owner is gone.
  abbrev pub IsOrphan : ℕ → Type 0
  IsOrphan pid = (name : Text) × (sys.lock name ≡ free) × IsServer name pid

  -- What a state that was found says of the processes.
  abbrev Means : Text → Option ℕ → ServerState → Type 0
  Means name found absent =
      (found ≡ none)
      ⊎ ((pid : ℕ) × (found ≡ some pid)
          × ((sys.process_alive pid ≡ false) ⊎ (sys.is_server_for pid name ≡ some false)))
  Means name found (running pid) =
      (found ≡ some pid) × (sys.process_alive pid ≡ true) × (sys.is_server_for pid name ≡ some true)
  Means name found (unconfirmed pid) = Unit

  classify-Means : (name : Text) (found : Option ℕ) → Means name found (classify sys name found)
  unfolding classify
  classify-Means name none = inl refl
  classify-Means name (some pid) = by_life (sys.process_alive pid) refl
    where
      by_server :
          (answer : Option Bool)
          → sys.is_server_for pid name ≡ answer
          → sys.process_alive pid ≡ true
          → Means name (some pid) (elim answer [
            | some true ↦ running pid
            | some false ↦ absent
            | none ↦ unconfirmed pid
          ])
      by_server (some true) e l = (refl, l, e)
      by_server (some false) e l = inr (pid, refl, inr e)
      by_server none e l = tt

      by_life :
          (alive : Bool)
          → sys.process_alive pid ≡ alive
          → Means name (some pid) (
              if not alive then absent else elim (sys.is_server_for pid name) [
                | some true ↦ running pid
                | some false ↦ absent
                | none ↦ unconfirmed pid
              ])
      by_life true l = by_server (sys.is_server_for pid name) refl l
      by_life false l = inr (pid, refl, inl l)

  state-Means :
      (name : Text) (state : ServerState)
      → server_state sys name ≡ state
      → Means name (sys.postmaster_pid name) state
  unfolding server_state
  state-Means name state h =
      subst (Means name (sys.postmaster_pid name)) h (classify-Means name (sys.postmaster_pid name))

  HasNoServer-absent : (name : Text) → HasNoServer name → server_state sys name ≡ absent
  unfolding server_state classify
  HasNoServer-absent name (inl h) = rw h refl
  HasNoServer-absent name (inr (pid, h, inl l)) = rw h (rw l refl)
  HasNoServer-absent name (inr (pid, h, inr s)) = rw h (rw s (by_life (sys.process_alive pid)))
    where
      by_life : (alive : Bool) → (if not alive then absent else absent) ≡ absent
      by_life true = refl
      by_life false = refl

  IsServer-running :
      (name : Text) (pid : ℕ) → IsServer name pid → server_state sys name ≡ running pid
  unfolding server_state classify
  IsServer-running name pid (h, l, s) = rw h (rw l (rw s refl))

  -- What one step of a sweep may do.
  pub record Swept (before after : Files) : Type 0 where
    pub only_dead :
        (file : SlotFile) (name : Text)
        → (after.present file name ≡ before.present file name)
          ⊎ (IsDead name × (after.present file name ≡ false))
    pub stopped : (pids : List ℕ) × (after.signalled ≡ before.signalled ++ pids) × All IsOrphan pids

  same : (files : Files) → Swept files files
  same files = record {
    only_dead = λ file name. inl refl;
    stopped = ([], sym (append-nil files.signalled), tt);
  }

  join : {a b c : Files} → Swept a b → Swept b c → Swept a c
  join {a} {b} {c} s t = record {
    only_dead = λ file name. elim (t.only_dead file name) [
      | inl e ↦ elim (s.only_dead file name) [
        | inl e' ↦ inl (e ∙ e')
        | inr (dead, gone) ↦ inr (dead, e ∙ gone)
      ]
      | inr d ↦ inr d
    ];
    stopped =
        let (pids, e, orphans) = s.stopped in
        let (pids', e', orphans') = t.stopped in
        (
          pids ++ pids',
          e' ∙ ap (λ (l : List ℕ). l ++ pids') e ∙ append_assoc a.signalled pids pids',
          All-append IsOrphan pids pids' orphans orphans',
        );
  }

  removed :
      (name : Text) (files : Files) (file : SlotFile) (other : Text)
      → IsDead name
      → (remove_files sys.can_remove name files.present file other ≡ files.present file other)
        ⊎ (IsDead other × (remove_files sys.can_remove name files.present file other ≡ false))
  unfolding remove_files
  removed name files file other dead =
      elim (Bool-cases (other == name && sys.can_remove file other)) [
        | inl e ↦
            let here : name ≡ other = sym ((==_iff other name).0 (ground (arith, e))) in
            inr (subst IsDead here dead, ground (arith, e))
        | inr e ↦ inl (ground (arith, e))
      ]

  finish-Swept :
      (name : Text) (files : Files) (state : ServerState)
      → sys.lock name ≡ free
      → server_state sys name ≡ state
      → Swept files (finish_sweep sys name (stop_orphaned_server sys state) files).1
  unfolding finish_sweep stop_orphaned_server remove_slot
  finish-Swept name files absent unlocked h = record {
    only_dead =
        λ file other. removed name files file other (unlocked, inl (state-Means name absent h));
    stopped = ([], refl, tt);
  }
  finish-Swept name files (unconfirmed pid) unlocked h = record {
    only_dead = λ file other. inl refl;
    stopped = ([], refl, tt);
  }
  finish-Swept name files (running pid) unlocked h = elim (Bool-cases (sys.stop pid)) [
    | inl e ↦ rw e (record {
      only_dead = λ file other.
          removed name files file other (unlocked, inr (pid, state-Means name (running pid) h, e));
      stopped = (pid ∷ [], refl, ((name, unlocked, state-Means name (running pid) h), tt));
    })
    | inr e ↦ rw e (record {
      only_dead = λ file other. inl refl;
      stopped = (pid ∷ [], refl, ((name, unlocked, state-Means name (running pid) h), tt));
    })
  ]

  is_free-free : (state : LockFile) → is_free state ≡ true → state ≡ free
  unfolding is_free
  is_free-free state h = ground arith

  sweep_locked-Swept :
      (name : Text) (files : Files) (taken : Bool)
      → is_free (sys.lock name) ≡ taken
      → Swept files (sweep_locked sys name taken files).1
  unfolding sweep_locked
  sweep_locked-Swept name files false h = same files
  sweep_locked-Swept name files true h =
      finish-Swept name files (server_state sys name) (is_free-free _ h) refl

  sweep_entry-Swept :
      (stem : Option Text) (files : Files) → Swept files (sweep_entry sys stem files).1
  unfolding sweep_entry sweep_one take_dead_lock
  sweep_entry-Swept none files = same files
  sweep_entry-Swept (some name) files = sweep_locked-Swept name files (is_free (sys.lock name)) refl

  sweep-Swept :
      (entries : List DirEntry) (files : Files) → Swept files (sweep_dead_slots sys entries files).1
  unfolding sweep_dead_slots
  sweep-Swept [] files = same files
  sweep-Swept (entry ∷ entries) files =
      join (sweep_entry-Swept (lock_stem entry) files) (sweep-Swept entries _)

  removes :
      (name : Text) (files : Files) (file : SlotFile)
      → sys.can_remove file name ≡ true
      → remove_files sys.can_remove name files.present file name ≡ false
  unfolding remove_files
  removes name files file allowed = ground (arith, allowed, ==_refl name)

  finish-removes :
      (name : Text) (files : Files) (file : SlotFile) (pids : List ℕ)
      → sys.can_remove file name ≡ true
      → (finish_sweep sys name (true, pids) files).1.present file name ≡ false
  unfolding finish_sweep remove_slot
  finish-removes name files file pids allowed = removes name files file allowed

  stop-dead :
      (name : Text)
      → IsDead name
      → (pids : List ℕ) × (stop_orphaned_server sys (server_state sys name) ≡ (true, pids))
  unfolding stop_orphaned_server
  stop-dead name (_, inl h) = ([], ap (stop_orphaned_server sys) (HasNoServer-absent name h))
  stop-dead name (_, inr (pid, h, stopped)) = (
    pid ∷ [],
    ap (stop_orphaned_server sys) (IsServer-running name pid h) ∙ ap (λ b. (b, pid ∷ [])) stopped,
  )

  sweep_one-removes :
      (name : Text) (files : Files) (file : SlotFile)
      → IsDead name
      → sys.can_remove file name ≡ true
      → (sweep_one sys name files).1.present file name ≡ false
  unfolding sweep_one take_dead_lock sweep_locked is_free
  sweep_one-removes name files file dead allowed =
      let (pids, e) = stop-dead name dead in
      let taken : is_free (sys.lock name) ≡ true = ap is_free dead.0 in
      subst (λ b. (sweep_locked sys name b files).1.present file name ≡ false) (sym taken)
        (subst (λ r. (finish_sweep sys name r files).1.present file name ≡ false) (sym e)
          (finish-removes name files file pids allowed))

  stays_removed :
      (entries : List DirEntry) (files : Files) (file : SlotFile) (name : Text)
      → files.present file name ≡ false
      → (sweep_dead_slots sys entries files).1.present file name ≡ false
  stays_removed entries files file name gone =
      elim ((sweep-Swept entries files).only_dead file name) [ inl e ↦ e ∙ gone | inr (_, e) ↦ e ]

  sweep-removes_listed :
      (before after : List DirEntry) (entry : DirEntry) (files : Files) (file : SlotFile)
      (name : Text)
      → lock_stem entry ≡ some name
      → IsDead name
      → sys.can_remove file name ≡ true
      → (sweep_dead_slots sys (before ++ (entry ∷ after)) files).1.present file name ≡ false
  unfolding sweep_dead_slots sweep_entry
  sweep-removes_listed [] after entry files file name stem dead allowed =
      stays_removed after _ file name (rw stem (sweep_one-removes name files file dead allowed))
  sweep-removes_listed (e ∷ before) after entry files file name stem dead allowed =
      sweep-removes_listed before after entry _ file name stem dead allowed

-- A sweep removes files only of slots whose lock nobody holds and in which no server can be left
-- running: none is recorded there, or it was stopped. It asks only the servers of slots without an
-- owner to stop. Every other slot keeps all its files.
pub sweep_dead_slots-Swept :
    (sys : System) (entries : List DirEntry) (files : Files)
    → Swept sys files (sweep_dead_slots sys entries files).1
sweep_dead_slots-Swept = sweep-Swept

-- A dead slot whose lock file is listed loses every file that the system lets the code remove,
-- whatever happens to the other slots of the sweep.
pub sweep_dead_slots-removes :
    (sys : System) (before after : List DirEntry) (entry : DirEntry) (files : Files)
    (file : SlotFile) (name : Text)
    → lock_stem entry ≡ some name
    → IsDead sys name
    → sys.can_remove file name ≡ true
    → (sweep_dead_slots sys (before ++ (entry ∷ after)) files).1.present file name ≡ false
sweep_dead_slots-removes = sweep-removes_listed
