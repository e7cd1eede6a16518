-- ===== src/Installation/Port.antt =====
-- src/cluster/installation.rs: the port that `postmaster.pid` states. The n-th read of the file is a
-- parameter. Delays are milliseconds, and they are listed.
pub mod Parsing
pub mod Laws
use pg_embed_setup_unpriv.Prelude.{
  ℕ, suc, zero, ◌+◌, ◌*◌, ◌-◌, Bool, true, false, not, ◌&&◌, ◌||◌, Option, none, some, List, [],
  ◌∷◌, ◌++◌, leb, ltb, ◌==◌, nat_eq, list_eq, if◌then◌else◌, reverse, map,
}
use pg_embed_setup_unpriv.Prelude.Texts.{Text, split, trim, is_empty}
use pg_embed_setup_unpriv.Error.{other, Result, ok, err}
use pg_embed_setup_unpriv.Retry.{BootstrapError, other_cause}
use pg_embed_setup_unpriv.Installation.{ExecutionPrivileges, root, unprivileged}

-- What an attempt to read the file gives.
pub data PidFile : Type 0 where
  contents : Text → PidFile
  not_found unreadable_pid : PidFile

abbrev pub postmaster_port_attempts : ℕ
postmaster_port_attempts = 10

abbrev pub postmaster_port_delay : ℕ
postmaster_port_delay = 100

-- A line without the carriage return that may end it.
unfoldable pub strip_return : Text → Text
unfolding list_eq
strip_return [] = []
strip_return (c ∷ line) =
    let rest = strip_return line in if c ∷ line == b'\r' ∷ [] then [] else c ∷ rest

-- What stands behind the last line feed is a line if it is not empty.
unfoldable pub lines_of : List Text → List Text
lines_of [] = []
lines_of (last ∷ []) = if is_empty last then [] else last ∷ []
lines_of (line ∷ next ∷ more) = strip_return line ∷ lines_of (next ∷ more)

-- `str::lines`.
unfoldable pub lines : Text → List Text
lines text = lines_of (split b'\n' text)

-- `Iterator::nth`.
unfoldable pub nth {ℓ} : {A : Type ℓ} → ℕ → List A → Option A
nth n [] = none
nth zero (x ∷ xs) = some x
nth (suc n) (x ∷ xs) = nth n xs

unfoldable pub is_digit : ℕ → Bool
is_digit c = leb b'0' c && leb c b'9'

unfoldable pub u16_max : ℕ
u16_max = 65535

-- The digits after a number that was read, with the overflow that `checked_mul` and `checked_add`
-- find: `limit` is the type's greatest number.
unfoldable pub parse_digits : ℕ → ℕ → Text → Option ℕ
parse_digits limit n [] = some n
parse_digits limit n (c ∷ text) =
    let m = 10 * n + (c - b'0') in
    let rest = parse_digits limit m text in if is_digit c && leb m limit then rest else none

unfoldable pub parse_unsigned : ℕ → Text → Option ℕ
parse_unsigned limit [] = none
parse_unsigned limit (c ∷ text) = parse_digits limit 0 (c ∷ text)

-- `str::parse` into a type without negative numbers.
unfoldable pub parse_number : ℕ → Text → Option ℕ
parse_number limit [] = none
parse_number limit (c ∷ text) =
    if c == b'+' then parse_unsigned limit text else parse_unsigned limit (c ∷ text)

unfoldable pub parse_port_line : Option Text → Option ℕ
parse_port_line none = none
parse_port_line (some port_line) = parse_number u16_max (trim port_line)

unfoldable pub parse_port_from_pid_contents : Text → Option ℕ
parse_port_from_pid_contents text = parse_port_line (nth 3 (lines text))

abbrev pub pid_error : BootstrapError
pid_error = record { kind = other; report = other_cause ∷ [] }

unfoldable pub read_pid_file_contents : PidFile → Result BootstrapError (Option Text)
read_pid_file_contents (contents text) = ok (some text)
read_pid_file_contents not_found = ok none
read_pid_file_contents unreadable_pid = err pid_error

unfoldable pub port_of : Result BootstrapError (Option Text) → Result BootstrapError (Option ℕ)
port_of (err e) = err e
port_of (ok none) = ok none
port_of (ok (some text)) = ok (parse_port_from_pid_contents text)

unfoldable pub read_postmaster_port : PidFile → Result BootstrapError (Option ℕ)
read_postmaster_port file = port_of (read_pid_file_contents file)

-- What is read in the end, and the delays before that.
abbrev pub Poll : Type 0
Poll = Result BootstrapError (Option ℕ) × List ℕ

unfoldable pub slept : Poll → Poll
slept (result, delays) = (result, postmaster_port_delay ∷ delays)

-- The body of the loop after read `n`; `next` is the loop from a later read on.
unfoldable pub after_read : ℕ → Result BootstrapError (Option ℕ) → (ℕ → Poll) → Poll
after_read n (err e) next = (err e, [])
after_read n (ok (some port)) next = (ok (some port), [])
after_read n (ok none) next = slept (next (suc n))

module _ (read : ℕ → PidFile) where
  -- The loop from read `n` on, with `left` attempts.
  unfoldable pub poll : ℕ → ℕ → Poll
  poll zero n = (ok none, [])
  poll (suc left) n = after_read n (read_postmaster_port (read n)) (poll left)

  unfoldable pub read_postmaster_port_with_retry : Poll
  read_postmaster_port_with_retry = poll postmaster_port_attempts 0

  unfoldable pub keep_or_set : ℕ → Poll → Result BootstrapError (Unit {0}) × ℕ
  keep_or_set port (err e, _) = (err e, port)
  keep_or_set port (ok none, _) = (ok tt, port)
  keep_or_set port (ok (some found), _) = (ok tt, found)

  -- The outcome, and the port of the settings after it.
  unfoldable pub refresh_worker_port :
      ExecutionPrivileges → ℕ → Result BootstrapError (Unit {0}) × ℕ
  refresh_worker_port unprivileged port = (ok tt, port)
  refresh_worker_port root port = keep_or_set port read_postmaster_port_with_retry
