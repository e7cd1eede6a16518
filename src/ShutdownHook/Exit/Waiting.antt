-- ===== src/ShutdownHook/Exit/Waiting.antt =====
-- The wait of the hook ends, with the server gone or with the deadline past.
use pg_embed_setup_unpriv.Prelude.{
  ℕ, suc, zero, ◌+◌, ◌≤◌, ◌<◌, ◌≡◌, refl, subst, ◌⊎◌, inl, inr, Bool, true, false, ◌==◌, nat_eq,
  Option, some, leb, Bool-cases, arith,
}
use pg_embed_setup_unpriv.ShutdownHook.Exit.Process.{IsPid}
use pg_embed_setup_unpriv.ShutdownHook.Exit.{
  Probe, exists, no_such_process, probe_failed, probed, process_is_running_for_platform, or_running,
  postmaster_process_is_running_for_shutdown, World, wait_for_exit,
}

module _ (world : World) where
  -- The n-th probe finds the server, or it fails.
  abbrev pub IsThere : ℕ → Type 0
  IsThere n = (world.probe n ≡ exists) ⊎ (world.probe n ≡ probe_failed)

  -- The n-th probe finds that there is no such process.
  abbrev pub IsAway : ℕ → Type 0
  IsAway n = world.probe n ≡ no_such_process

  abbrev pub Runs : ℕ → ℕ → Type 0
  Runs pid n = postmaster_process_is_running_for_shutdown pid (world.probe n) ≡ true

  abbrev pub IsGone : ℕ → ℕ → Type 0
  IsGone pid n = postmaster_process_is_running_for_shutdown pid (world.probe n) ≡ false

  pub Runs-IsThere : (pid n : ℕ) → IsPid pid → Runs pid n → IsThere n
  unfolding postmaster_process_is_running_for_shutdown process_is_running_for_platform probed
      or_running
  Runs-IsThere pid n (pos, _) = by_probe (world.probe n)
    where
      signalled : leb pid 0 ≡ false
      signalled = ground (arith, pos)

      by_probe :
          (probe : Probe)
          → postmaster_process_is_running_for_shutdown pid probe ≡ true
          → (probe ≡ exists) ⊎ (probe ≡ probe_failed)
      by_probe exists h = inl refl
      by_probe probe_failed h = inr refl
      by_probe no_such_process h = absurd (clash (rw signalled at h))
        where
          clash : ◌≡◌ {A = Bool} false true → ⊥
          clash k = cc

  pub IsGone-IsAway : (pid n : ℕ) → IsPid pid → IsGone pid n → IsAway n
  unfolding postmaster_process_is_running_for_shutdown process_is_running_for_platform probed
      or_running
  IsGone-IsAway pid n (pos, _) = by_probe (world.probe n)
    where
      signalled : leb pid 0 ≡ false
      signalled = ground (arith, pos)

      clash : ◌≡◌ {A = Bool} true false → ⊥
      clash k = cc

      by_probe :
          (probe : Probe)
          → postmaster_process_is_running_for_shutdown pid probe ≡ false
          → probe ≡ no_such_process
      by_probe no_such_process h = refl
      by_probe exists h = absurd (clash (rw signalled at h))
      by_probe probe_failed h = absurd (clash (rw signalled at h))

  -- A look at the clock comes 50 ms or more after the one before.
  pub record IsClock : Type 0 where
    pub first : world.start ≤ world.now 1
    pub passes : (n : ℕ) → world.now n + 50 ≤ world.now (suc n)

  -- What the wait from the n-th probe on has found: the server gone, or the deadline past.
  abbrev pub Waited : ℕ → ℕ → ℕ → Bool → Type 0
  Waited pid deadline n true =
      (m : ℕ) × (n ≤ m) × IsGone pid m × ((j : ℕ) → n ≤ j → j < m → Runs pid j)
  Waited pid deadline n false =
      (m : ℕ) × (n ≤ m) × (deadline ≤ world.now m) × ((j : ℕ) → n ≤ j → j ≤ m → Runs pid j)

  extend-Waited :
      (pid deadline n : ℕ) (gone : Bool)
      → Runs pid n
      → Waited pid deadline (suc n) gone
      → Waited pid deadline n gone
  extend-Waited pid deadline n true r (m, h, g, all) = (
    m,
    omega (arith, h),
    g,
    λ j k l. elim (Bool-cases (j == n)) [
      | inl e ↦ subst (Runs pid) (ground (arith, e)) r
      | inr e ↦ all j (ground (arith, e, k)) l
    ],
  )
  extend-Waited pid deadline n false r (m, h, d, all) = (
    m,
    omega (arith, h),
    d,
    λ j k l. elim (Bool-cases (j == n)) [
      | inl e ↦ subst (Runs pid) (ground (arith, e)) r
      | inr e ↦ all j (ground (arith, e, k)) l
    ],
  )

  abbrev pub Found : ℕ → ℕ → ℕ → Option Bool → Type 0
  Found pid deadline n result = (gone : Bool) × (result ≡ some gone) × Waited pid deadline n gone

  look-Found :
      (pid deadline fuel n : ℕ)
      → (leb deadline (world.now n) ≡ false
          → Found pid deadline (suc n) (wait_for_exit world fuel pid deadline (suc n)))
      → Found pid deadline n (wait_for_exit world (suc fuel) pid deadline n)
  unfolding wait_for_exit
  look-Found pid deadline fuel n later =
      elim (Bool-cases (postmaster_process_is_running_for_shutdown pid (world.probe n))) [
        | inr g ↦ (true, rw g refl, (n, omega arith, g, λ j k l. absurd (omega (arith, k, l))))
        | inl r ↦ elim (Bool-cases (leb deadline (world.now n))) [
          | inl d ↦ (
            false,
            rw r (rw d refl),
            (n, omega arith, ground (arith, d), λ j k l. subst (Runs pid) (omega (arith, k, l)) r),
          )
          | inr d ↦
              let (gone, e, w) = later d in
              (gone, rw r (rw d e), extend-Waited pid deadline n gone r w)
        ]
      ]

  pub wait_for_exit-Found :
      (pid deadline : ℕ)
      → IsClock
      → (fuel n : ℕ) → deadline ≤ world.now n + fuel
      → Found pid deadline n (wait_for_exit world (suc fuel) pid deadline n)
  wait_for_exit-Found pid deadline clock zero n h =
      look-Found pid deadline zero n (λ d. absurd (ground (arith, h, d)))
  wait_for_exit-Found pid deadline clock (suc fuel) n h =
      look-Found pid deadline (suc fuel) n (λ d.
        wait_for_exit-Found pid deadline clock fuel (suc n) (omega (arith, h, clock.passes n)))
