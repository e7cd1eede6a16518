-- ===== src/Claims.antt =====
-- src/bootstrap/prepare/cluster_slot/mod.rs (the claim and its guard) against src/cluster/cleanup.rs:
-- processes that claim slots under one slot parent, and processes that remove the install tree
-- beside it. Who holds the guard and which slots have a live owner is the state that they share. A
-- cleanup's probe is `plan_cleanup` with the answers that the operating system gives meanwhile.
pub mod Spec
pub mod Probe
pub mod Safety
pub mod Refinement
use pg_embed_setup_unpriv.Prelude.{
  ℕ, ◌≡◌, ◌≢◌, ◌⊎◌, Bool, true, false, Option, none, some, List, [], ◌∷◌, ◌++◌, ◌==◌, nat_eq,
  if◌then◌else◌, All, not,
}
use pg_embed_setup_unpriv.Prelude.Texts.{Text, codes}
use pg_embed_setup_unpriv.Error.{BootstrapErrorKind, other, BootstrapResult, ok, err}
use pg_embed_setup_unpriv.Slots.{LockFile, free, held, unusable, DirEntry, named}
use pg_embed_setup_unpriv.Cleanup.{
  CleanupMode, data_only, full, keep, Settings, Host, slot, not_slot, slot_lookup,
  derived_slot_parent, plan_cleanup,
}
use pg_embed_setup_unpriv.Cleanup.Paths.{FilePath, file_name}

-- `slot_name`, from the texts of the process identifier, the time and the counter.
unfoldable pub slot_name : Text → Text → Text → Text
slot_name pid nanos count = pid ++ (b'-' ∷ (nanos ++ (b'-' ∷ count)))

abbrev pub lock_suffix : Text
lock_suffix = codes ".lock"

-- A slot that is locked, and the process that holds its lock.
pub record Claim : Type 0 where
  pub owner : ℕ
  pub name : Text

-- What a process is doing; all but `idle` are under the claim guard. A cleanup knows its own slot,
-- if it has one.
pub data Phase : Type 0 where
  idle claiming planning : Phase
  removing : Option Text → Phase

-- `tree` says whether the install tree is there.
pub record Shared : Type 0 where
  pub guard : Option ℕ
  pub claims : List Claim
  pub tree : Bool
  pub phase : ℕ → Phase

unfoldable pub set_phase : ℕ → Phase → (ℕ → Phase) → ℕ → Phase
set_phase p new phase q = if q == p then new else phase q

-- `ClaimGuard::acquire`, once nobody holds it.
unfoldable pub acquire : ℕ → Phase → Shared → Shared
acquire p new s = record s { guard = some p; phase = set_phase p new s.phase }

-- The guard is dropped.
unfoldable pub release : ℕ → Shared → Shared
release p s = record s { guard = none; phase = set_phase p idle s.phase }

-- How the new slot's lock file is created, and what the attempt to lock it gives.
pub data NewLock : Type 0 where
  not_created : NewLock
  created : LockFile → NewLock

unfoldable pub lock_new_slot : NewLock → BootstrapResult (Unit {0})
lock_new_slot not_created = err other
lock_new_slot (created free) = ok tt
lock_new_slot (created held) = err other
lock_new_slot (created unusable) = err other

unfoldable pub claim_locked :
    ℕ → Text → BootstrapResult (Unit {0}) → Shared → BootstrapResult Text × Shared
claim_locked p name (err e) s = (err e, release p s)
claim_locked p name (ok u) s =
    (ok name, release p (record s { claims = record { owner = p; name = name } ∷ s.claims }))

-- `claim_slot_with_hooks` once it has the guard; the sweep may fail.
unfoldable pub claim_slot :
    ℕ → Text → BootstrapResult ℕ → NewLock → Shared → BootstrapResult Text × Shared
claim_slot p name (err e) new s = (err e, release p s)
claim_slot p name (ok swept) new s = claim_locked p name (lock_new_slot new) s

-- The plan decides whether the guard is kept for a removal.
unfoldable pub planned : ℕ → Option Text → CleanupMode → Shared → Shared
planned p own full s = record s { phase = set_phase p (removing own) s.phase }
planned p own mode s = release p s

-- The removal of the install tree, and the end of the plan that holds the guard.
unfoldable pub remove_tree : ℕ → Shared → Shared
remove_tree p s = release p (record s { tree = false })

unfoldable pub without : ℕ → List Claim → List Claim
without p [] = []
without p (claim ∷ claims) =
    let rest = without p claims in if claim.owner == p then rest else claim ∷ rest

unfoldable pub guard_without : ℕ → Option ℕ → Option ℕ
guard_without p none = none
guard_without p (some q) = if q == p then none else some q

-- The kernel releases all locks of a process that dies.
unfoldable pub die : ℕ → Shared → Shared
die p s = record s {
  guard = guard_without p s.guard;
  claims = without p s.claims;
  phase = set_phase p idle s.phase;
}

module _ (dir : FilePath) where
  -- The lock file of the slot is among the entries.
  abbrev pub Lists : List DirEntry → Text → Type 0
  Lists entries name =
      (before after : List DirEntry) × (entries
        ≡ before ++ (named (some (name ++ lock_suffix)) ∷ after))

  -- What the kernel and the file system promise: a slot that is locked through the probe is listed
  -- by any listing, and an attempt to lock it finds it held.
  abbrev pub Shows : Host → List Claim → Type 0
  Shows host claims =
      (entries : List DirEntry)
      → host.read_dir dir ≡ some entries
      → All (λ (c : Claim). Lists entries c.name × (host.lock dir c.name ≡ held)) claims

  -- The cleanup belongs to the slot parent: its data directory is a slot in it, called `own`, or it
  -- is no slot and its install tree is the one beside the slot parent.
  abbrev pub Belongs : Host → Settings → Option Text → Type 0
  Belongs host settings own =
      ((slot_lookup host settings.data_dir ≡ slot dir) × (file_name settings.data_dir ≡ own))
      ⊎ ((slot_lookup host settings.data_dir ≡ not_slot)
          × (derived_slot_parent settings.installation_dir ≡ some dir)
          × (dir ≢ settings.data_dir)
          × (own ≡ none))

  -- One step of process `p`. The guard is waited for; a process that holds a slot may set the tree up.
  pub data Step (s : Shared) : Shared → Type 0 where
    begin_claim : (p : ℕ) → s.guard ≡ none → Step s (acquire p claiming s)
    end_claim :
        (p : ℕ) (pid nanos count : Text) (sweep : BootstrapResult ℕ) (new : NewLock)
        → s.phase p ≡ claiming
        → Step s (claim_slot p (slot_name pid nanos count) sweep new s).1
    provision :
        (p : ℕ) (before after : List Claim) (name : Text)
        → s.claims ≡ before ++ (record { owner = p; name = name } ∷ after)
        → Step s (record s { tree = true })
    begin_cleanup : (p : ℕ) → s.guard ≡ none → Step s (acquire p planning s)
    plan :
        (p : ℕ) (host : Host) (settings : Settings) (own : Option Text)
        → s.phase p ≡ planning
        → Belongs host settings own
        → Shows host s.claims
        → Step s (planned p own (plan_cleanup host full settings).mode s)
    remove : (p : ℕ) (own : Option Text) → s.phase p ≡ removing own → Step s (remove_tree p s)
    death : (p : ℕ) → Step s (die p s)

  pub data Reach (s : Shared) : Shared → Type 0 where
    here : Reach s s
    next : {t u : Shared} → Reach s t → Step t u → Reach s u
