-- ===== src/Output.antt =====
-- src/worker_process/output.rs: the output of a worker in an error's text is cut after 2,048
-- characters. A text is its characters.
use mathlib.Core.List.{append_assoc}
use pg_embed_setup_unpriv.Prelude.{
  ℕ, zero, suc, ◌≤◌, ◌<◌, ◌≡◌, ◌⊎◌, inl, inr, refl, ◌∙◌, [], ◌∷◌, ◌++◌, length, take, arith, ltb,
  Bool-cases,
}
use pg_embed_setup_unpriv.Prelude.Texts.{Text, codes}

abbrev pub output_char_limit : ℕ
output_char_limit = 2048

-- "… [truncated]".
abbrev pub truncation_suffix : Text
truncation_suffix = 0x2026 ∷ codes " [truncated]"

-- The check of `chars.next()` after the loop.
unfoldable pub after_limit : Text → Text → Text → Text
after_limit text out [] = text
after_limit text out (_ ∷ _) = out ++ truncation_suffix

-- The loop over the first `n` characters of what is left of `chars`.
unfoldable pub push_chars : ℕ → Text → Text → Text → Text
push_chars zero text out chars = after_limit text out chars
push_chars (suc n) text out [] = text
push_chars (suc n) text out (c ∷ chars) = push_chars n text (out ++ (c ∷ [])) chars

unfoldable pub truncate_output : Text → Text
truncate_output text = push_chars output_char_limit text [] text

push_chars-short :
    (n : ℕ) (text out chars : Text) → length chars ≤ n → push_chars n text out chars ≡ text
unfolding push_chars after_limit
push_chars-short zero text out [] h = refl
push_chars-short zero text out (c ∷ chars) h = absurd (omega (arith, h))
push_chars-short (suc n) text out [] h = refl
push_chars-short (suc n) text out (c ∷ chars) h =
    push_chars-short n text (out ++ (c ∷ [])) chars (omega (arith, h))

push_chars-long :
    (n : ℕ) (text out chars : Text)
    → n < length chars
    → push_chars n text out chars ≡ out ++ (take n chars ++ truncation_suffix)
unfolding push_chars after_limit take
push_chars-long zero text out [] h = absurd (omega (arith, h))
push_chars-long zero text out (c ∷ chars) h = refl
push_chars-long (suc n) text out [] h = absurd (omega (arith, h))
push_chars-long (suc n) text out (c ∷ chars) h =
    push_chars-long n text (out ++ (c ∷ [])) chars (omega (arith, h))
    ∙ append_assoc out (c ∷ []) (take n chars ++ truncation_suffix)

-- A text of at most 2,048 characters is kept; of a longer one the first 2,048 are kept, and the mark
-- is put behind them.
pub truncate_output-eq :
    (text : Text)
    → ((length text ≤ output_char_limit) × (truncate_output text ≡ text))
      ⊎ ((output_char_limit < length text)
          × (truncate_output text ≡ take output_char_limit text ++ truncation_suffix))
unfolding truncate_output
truncate_output-eq text = elim (Bool-cases (ltb output_char_limit (length text))) [
  | inl e ↦
      inr (ground (arith, e), push_chars-long output_char_limit text [] text (ground (arith, e)))
  | inr e ↦
      inl (ground (arith, e), push_chars-short output_char_limit text [] text (ground (arith, e)))
]
