-- ===== src/Installation/Port/Laws.antt =====
-- What polling `postmaster.pid` finds.
use pg_embed_setup_unpriv.Prelude.{
  ℕ, suc, zero, ◌+◌, ◌≤◌, ◌<◌, ◌≡◌, ◌≢◌, refl, none, some, ◌==◌, ==_iff, nat_eq, list_eq, length,
  arith, Bool-cases, inl, inr, ◌⊎◌,
}
use pg_embed_setup_unpriv.Prelude.Texts.{Text}
use pg_embed_setup_unpriv.Error.{ok}
use pg_embed_setup_unpriv.Installation.{root}
use pg_embed_setup_unpriv.Installation.Port.{
  PidFile, contents, read_postmaster_port, Poll, slept, after_read, poll,
  read_postmaster_port_with_retry, keep_or_set, refresh_worker_port, postmaster_port_attempts,
}
use pg_embed_setup_unpriv.Installation.Port.Parsing.{
  pid_file, OneLine, IsPort, read_postmaster_port-IsPort,
}

-- What the reads up to the last one that is made have in common: nothing to report.
abbrev pub Silent : (ℕ → PidFile) → ℕ → ℕ → Type 0
Silent read from upto = (j : ℕ) → from ≤ j → j < upto → read_postmaster_port (read j) ≡ ok none

-- The poll makes `count` delays: each read before gives nothing, and the next one ends the poll, or
-- the attempts are used up.
pub record IsPoll (read : ℕ → PidFile) (left from : ℕ) (result : Poll) : Type 0 where
  pub bounded : length result.1 ≤ left
  pub silent : Silent read from (from + length result.1)
  pub ends :
      ((length result.1 ≡ left) × (result.0 ≡ ok none))
      ⊎ ((length result.1 < left)
          × (read_postmaster_port (read (from + length result.1)) ≡ result.0)
          × (result.0 ≢ ok none))

poll_finds :
    (read : ℕ → PidFile) (left n m port : ℕ)
    → n ≤ m
    → m < n + left
    → Silent read n m
    → read_postmaster_port (read m) ≡ ok (some port)
    → (poll read left n).0 ≡ ok (some port)
unfolding poll after_read slept
poll_finds read zero n m port l u s h = absurd (omega (arith, l, u))
poll_finds read (suc left) n m port l u s h = elim (Bool-cases (n == m)) [
  | inl e ↦ rw ((==_iff n m).0 e) (rw h refl)
  | inr e ↦
      let less : n < m = ground (arith, l, e) in
      rw (s n (omega arith) less) (
        poll_finds read left (suc n) m port less (omega (arith, u))
          (λ j a b. s j (omega (arith, a)) b) h)
]

-- A start as root takes over the port that the server writes into `postmaster.pid`, if one of the
-- first ten reads finds the file with its port line, and the reads before that find no file or no
-- port in it.
pub refresh_worker_port-finds :
    (read : ℕ → PidFile) (before k port : ℕ) (pid dir start digits more : Text)
    → k < postmaster_port_attempts
    → Silent read 0 k
    → read k ≡ contents (pid_file pid dir start digits more)
    → OneLine pid
    → OneLine dir
    → OneLine start
    → IsPort digits port
    → refresh_worker_port read root before ≡ (ok tt, port)
unfolding refresh_worker_port keep_or_set read_postmaster_port_with_retry
refresh_worker_port-finds read before k port pid dir start digits more l s e a b c h =
    set_to (poll read postmaster_port_attempts 0) (
      poll_finds read postmaster_port_attempts 0 k port (omega arith) (omega (arith, l)) s
        (rw e (read_postmaster_port-IsPort pid dir start digits more port a b c h)))
  where
    set_to : (r : Poll) → r.0 ≡ ok (some port) → keep_or_set read before r ≡ (ok tt, port)
    set_to (r, delays) g = rw g refl
