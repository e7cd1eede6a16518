-- ===== src/Extensions/WriteFile/Stamp.antt =====
-- What a file holds after its bytes, its mode and its owner were set.
use pg_embed_setup_unpriv.Prelude.{
  ℕ, ◌≡◌, refl, Bool, true, false, ◌&&◌, Option, none, some, List, ◌==◌, nat_eq, list_eq,
  if◌then◌else◌, arith,
}
use pg_embed_setup_unpriv.Error.{ok, err}
use pg_embed_setup_unpriv.Fallible.{Post, Post-weaken, Triple, Triple-then, ◌>>◌}
use pg_embed_setup_unpriv.Extensions.WriteFile.{
  File, Owner, Calls, set_mode, apply_owner, write_bytes, repair_existing, fill_temp,
}

module _ (calls : Calls) (owner : Owner) (mode : ℕ) where
  abbrev pub Holds : List ℕ → File → Type 0
  Holds bytes file = file.bytes ≡ bytes

  abbrev HasMode : List ℕ → File → Type 0
  HasMode bytes file = (file.bytes ≡ bytes) × (file.mode ≡ mode)

  -- The bytes, and the mode and the owner that were asked for.
  pub record IsStamped (bytes : List ℕ) (file : File) : Type 0 where
    pub contents : file.bytes ≡ bytes
    pub has_mode : file.mode ≡ mode
    pub has_uid : file.uid ≡ owner.uid
    pub has_gid : file.gid ≡ owner.gid

  set_mode-HasMode :
      (bytes : List ℕ)
      → Triple (Holds bytes) (set_mode calls mode) (λ _. HasMode bytes) (Holds bytes)
  unfolding set_mode
  set_mode-HasMode bytes file h = set calls.can_set_mode
    where
      set :
          (b : Bool)
          → Post
              (λ (u : Unit). HasMode bytes)
              (Holds bytes)
              (if b then (ok tt, record file { mode = mode }) else (err tt, file))
      set true = (h, refl)
      set false = h

  apply_owner-IsStamped :
      (bytes : List ℕ)
      → Triple (HasMode bytes) (apply_owner calls owner) (λ _. IsStamped bytes) (Holds bytes)
  unfolding apply_owner
  apply_owner-IsStamped bytes file (h, m) =
      owned calls.can_stat calls.can_chown ((file.uid == owner.uid) && (file.gid == owner.gid)) refl
    where
      owned :
          (stat chown same : Bool)
          → ((file.uid == owner.uid) && (file.gid == owner.gid)) ≡ same
          → Post
              (λ (u : Unit). IsStamped bytes)
              (Holds bytes)
              (if stat
                then if same
                  then (ok tt, file)
                  else if chown
                  then (ok tt, record file { uid = owner.uid; gid = owner.gid })
                  else (err tt, file)
                else (err tt, file))
      owned true chown true e = record {
        contents = h;
        has_mode = m;
        has_uid = ground (arith, e);
        has_gid = ground (arith, e);
      }
      owned true true false e = record {
        contents = h;
        has_mode = m;
        has_uid = refl;
        has_gid = refl;
      }
      owned true false false e = h
      owned false chown same e = h

  pub repair_existing-IsStamped :
      (bytes : List ℕ)
      → Triple (Holds bytes) (repair_existing calls owner mode) (λ _. IsStamped bytes) (Holds bytes)
  unfolding repair_existing
  repair_existing-IsStamped bytes =
      Triple-then (Holds bytes) (HasMode bytes) (λ _. IsStamped bytes) (Holds bytes)
        (set_mode calls mode) (apply_owner calls owner) (set_mode-HasMode bytes)
        (apply_owner-IsStamped bytes)

  pub fill_temp-IsStamped :
      (bytes : List ℕ) (file : File)
      → Post (λ _. IsStamped bytes) (λ _. Unit) (fill_temp calls owner mode bytes file)
  unfolding fill_temp write_bytes repair_existing
  fill_temp-IsStamped bytes file = filled calls.written
    where
      filled :
          (written : Option ℕ)
          → Post
              (λ (u : Unit). IsStamped bytes)
              (λ _. Unit)
              ((write_bytes calls bytes written >> set_mode calls mode >> apply_owner calls owner)
                file)
      filled none =
          Post-weaken (λ _. IsStamped bytes) (λ _. IsStamped bytes) (Holds bytes) (λ _. Unit)
            (repair_existing calls owner mode (record file { bytes = bytes }))
            (repair_existing-IsStamped bytes (record file { bytes = bytes }) refl) (λ u f h. h)
            (λ f h. tt)
      filled (some n) = tt
