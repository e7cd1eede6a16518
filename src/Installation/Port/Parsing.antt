-- ===== src/Installation/Port/Parsing.antt =====
-- A well-formed `postmaster.pid` is read back: its fourth line is the port.
use pg_embed_setup_unpriv.Prelude.{
  ℕ, ◌+◌, ◌*◌, ◌-◌, ◌≤◌, ◌≡◌, refl, sym, ap, subst, ◌∙◌, true, false, some, List, [], ◌∷◌, ◌++◌,
  leb, ◌==◌, nat_eq, list_eq, contains, reverse, arith, Bool-cases, inl, inr, all,
}
use mathlib.Core.List.{reverse-cons, reverse-reverse}
use pg_embed_setup_unpriv.Prelude.Texts.{
  Text, is_whitespace, split, trim, trim_start, trim_end, split-part,
}
use pg_embed_setup_unpriv.Error.{ok}
use pg_embed_setup_unpriv.Installation.Port.{
  contents, lines, lines_of, strip_return, nth, parse_port_line, parse_port_from_pid_contents,
  read_pid_file_contents, port_of, read_postmaster_port, is_digit, u16_max, parse_digits,
  parse_unsigned, parse_number,
}

-- The number that a text of decimal digits stands for.
unfoldable pub decimal_from : ℕ → Text → ℕ
decimal_from n [] = n
decimal_from n (c ∷ text) = decimal_from (10 * n + (c - b'0')) text

decimal_from_grows : (n : ℕ) (text : Text) → n ≤ decimal_from n text
unfolding decimal_from
decimal_from_grows n [] = omega arith
decimal_from_grows n (c ∷ text) = omega (arith, decimal_from_grows (10 * n + (c - b'0')) text)

parse_digits-decimal :
    (limit n : ℕ) (text : Text)
    → all is_digit text ≡ true
    → decimal_from n text ≤ limit
    → parse_digits limit n text ≡ some (decimal_from n text)
unfolding parse_digits decimal_from
parse_digits-decimal limit n [] h k = refl
parse_digits-decimal limit n (c ∷ text) h k =
    let small : leb (10 * n + (c - b'0')) limit ≡ true =
      ground (arith, decimal_from_grows (10 * n + (c - b'0')) text, k) in
    ground
      (arith, small, h, parse_digits-decimal limit (10 * n + (c - b'0')) text (ground (arith, h)) k)

-- `postmaster.pid`: process, data directory, start time, port, and more.
abbrev pub pid_file : Text → Text → Text → Text → Text → Text
pid_file pid dir start port more =
    pid ++ (b'\n' ∷ (dir ++ (b'\n' ∷ (start ++ (b'\n' ∷ (port ++ (b'\n' ∷ more)))))))

abbrev pub OneLine : Text → Type 0
OneLine line = contains line b'\n' ≡ false

digits-OneLine : (text : Text) → all is_digit text ≡ true → OneLine text
unfolding is_digit
digits-OneLine [] h = refl
digits-OneLine (c ∷ text) h = ground (arith, digits-OneLine text)

digits-strip_return : (text : Text) → all is_digit text ≡ true → strip_return text ≡ text
unfolding strip_return is_digit list_eq
digits-strip_return [] h = refl
digits-strip_return (c ∷ text) h = ground (arith, digits-strip_return text)

split_cons : (text : Text) → (line : Text) × (more : List Text) × (split b'\n' text ≡ line ∷ more)
unfolding split
split_cons [] = ([], [], refl)
split_cons (c ∷ text) =
    let (line, more, e) = split_cons text in
    elim (Bool-cases (c == b'\n')) [
      | inl h ↦ ([], line ∷ more, ground (arith, e, h))
      | inr h ↦ (c ∷ line, more, ground (arith, e, h))
    ]

nth-lines :
    (pid dir start port more : Text)
    → OneLine pid
    → OneLine dir
    → OneLine start
    → OneLine port
    → nth 3 (lines (pid_file pid dir start port more)) ≡ some (strip_return port)
unfolding nth lines lines_of
nth-lines pid dir start port more a b c d =
    let (line, rest, e) = split_cons more in
    let lines_eq : split b'\n' (pid_file pid dir start port more)
        ≡ pid ∷ dir ∷ start ∷ port ∷ line ∷ rest =
      rw (split-part b'\n' pid (dir ++ (b'\n' ∷ (start ++ (b'\n' ∷ (port ++ (b'\n' ∷ more)))))) a) (
        rw (split-part b'\n' dir (start ++ (b'\n' ∷ (port ++ (b'\n' ∷ more)))) b) (
          rw (split-part b'\n' start (port ++ (b'\n' ∷ more)) c)
            (rw (split-part b'\n' port more d) (rw e refl)))) in
    rw lines_eq refl

all-append :
    (xs ys : Text)
    → all is_digit xs ≡ true
    → all is_digit ys ≡ true
    → all is_digit (xs ++ ys) ≡ true
all-append [] ys h k = k
all-append (x ∷ xs) ys h k = ground (arith, all-append xs ys (ground (arith, h)) k)

all-reverse : (xs : Text) → all is_digit xs ≡ true → all is_digit (reverse xs) ≡ true
all-reverse [] h = refl
all-reverse (x ∷ xs) h =
    subst (λ l. all is_digit l ≡ true) (sym (reverse-cons x xs))
      (all-append (reverse xs) (x ∷ []) (all-reverse xs (ground (arith, h))) (ground (arith, h)))

digits-trim_start : (text : Text) → all is_digit text ≡ true → trim_start text ≡ text
unfolding trim_start is_whitespace is_digit
digits-trim_start [] h = refl
digits-trim_start (c ∷ text) h = ground (arith, h)

digits-trim : (text : Text) → all is_digit text ≡ true → trim text ≡ text
unfolding trim trim_end
digits-trim text h =
    rw (digits-trim_start text h)
      (rw (digits-trim_start (reverse text) (all-reverse text h)) (reverse-reverse text))

-- The text of a port number, as the server writes it.
pub record IsPort (digits : Text) (port : ℕ) : Type 0 where
  pub some_digit : (c : ℕ) × (rest : Text) × (digits ≡ c ∷ rest)
  pub are_digits : all is_digit digits ≡ true
  pub number : decimal_from 0 digits ≡ port
  pub small : port ≤ u16_max

digit_no_sign : (c : ℕ) → is_digit c ≡ true → c == b'+' ≡ false
unfolding is_digit
digit_no_sign c h = ground (arith, h)

parse_number-IsPort :
    (digits : Text) (port : ℕ) → IsPort digits port → parse_number u16_max digits ≡ some port
unfolding parse_number parse_unsigned
parse_number-IsPort [] port h = let (c, rest, e) = h.some_digit in cc
parse_number-IsPort (c ∷ text) port h =
    let parsed =
      parse_digits-decimal u16_max 0 (c ∷ text) h.are_digits
        (subst (λ n. n ≤ u16_max) (sym h.number) h.small) in
    rw (no_sign c text h.are_digits) (parsed ∙ ap some h.number)
  where
    no_sign : (c : ℕ) (text : Text) → all is_digit (c ∷ text) ≡ true → c == b'+' ≡ false
    no_sign c text k = digit_no_sign c (ground (arith, k))

pub read_postmaster_port-IsPort :
    (pid dir start digits more : Text) (port : ℕ)
    → OneLine pid
    → OneLine dir
    → OneLine start
    → IsPort digits port
    → read_postmaster_port (contents (pid_file pid dir start digits more)) ≡ ok (some port)
unfolding read_postmaster_port port_of read_pid_file_contents parse_port_from_pid_contents
    parse_port_line
read_postmaster_port-IsPort pid dir start digits more port a b c h =
    rw (nth-lines pid dir start digits more a b c (digits-OneLine digits h.are_digits)) (
      rw (digits-strip_return digits h.are_digits)
        (rw (digits-trim digits h.are_digits) (rw (parse_number-IsPort digits port h) refl)))
