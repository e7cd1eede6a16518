-- ===== src/Prepare/Password/Trimming.antt =====
-- What `trim_newlines` leaves.
use pg_embed_setup_unpriv.Prelude.{
  ℕ, ◌≡◌, refl, sym, ap, subst, ◌∙◌, inl, inr, true, false, [], ◌∷◌, ◌++◌, reverse, nat_eq,
  Bool-cases, All, All-append,
}
use mathlib.Core.List.{reverse-append, reverse-reverse, reverse-cons}
use pg_embed_setup_unpriv.Prelude.Texts.{Text}
use pg_embed_setup_unpriv.Prepare.Password.{is_newline, drop_newlines, trim_newlines}

abbrev pub IsNewline : ℕ → Type 0
IsNewline c = is_newline c ≡ true

-- A text with a last character that is no newline.
pub record IsTrimmed (text : Text) : Type 0 where
  pub before : Text
  pub last : ℕ
  pub ends : text ≡ before ++ (last ∷ [])
  pub plain : is_newline last ≡ false

-- What `drop_newlines` drops, and what it keeps.
record IsDropped (text : Text) : Type 0 where
  dropped : Text
  whole : text ≡ dropped ++ drop_newlines text
  newlines : All IsNewline dropped

drop_newlines-IsDropped : (text : Text) → IsDropped text
unfolding drop_newlines
drop_newlines-IsDropped [] = record { dropped = []; whole = refl; newlines = tt }
drop_newlines-IsDropped (c ∷ text) = elim (Bool-cases (is_newline c)) [
  | inl e ↦
      let rest = drop_newlines-IsDropped text in
      record {
        dropped = c ∷ rest.dropped;
        whole = rw e (ap (λ t. c ∷ t) rest.whole);
        newlines = (e, rest.newlines);
      }
  | inr e ↦ record { dropped = []; whole = rw e refl; newlines = tt }
]

drop_newlines-plain :
    (text : Text) (c : ℕ) (rest : Text) → drop_newlines text ≡ c ∷ rest → is_newline c ≡ false
unfolding drop_newlines
drop_newlines-plain [] c rest h = cc
drop_newlines-plain (d ∷ text) c rest h = elim (Bool-cases (is_newline d)) [
  | inl e ↦ drop_newlines-plain text c rest (rw e at h)
  | inr e ↦ kept (rw e at h) e
]
  where
    kept : d ∷ text ≡ c ∷ rest → is_newline d ≡ false → is_newline c ≡ false
    kept k e = let same : d ≡ c = cc in subst (λ x. is_newline x ≡ false) same e

drop_newlines-append :
    (newlines rest : Text)
    → All IsNewline newlines
    → drop_newlines (newlines ++ rest) ≡ drop_newlines rest
unfolding drop_newlines
drop_newlines-append [] rest h = refl
drop_newlines-append (c ∷ newlines) rest (e, h) = rw e (drop_newlines-append newlines rest h)

All-reverse : (text : Text) → All IsNewline text → All IsNewline (reverse text)
All-reverse [] h = tt
All-reverse (c ∷ text) (e, h) =
    rw (reverse-cons c text)
      (All-append IsNewline (reverse text) (c ∷ []) (All-reverse text h) (e, tt))

pub trim_newlines-append :
    (text newlines : Text)
    → IsTrimmed text
    → All IsNewline newlines
    → trim_newlines (text ++ newlines) ≡ text
unfolding trim_newlines drop_newlines
trim_newlines-append text newlines t h =
    ap (λ x. reverse (drop_newlines x)) (reverse-append text newlines)
    ∙ ap reverse (drop_newlines-append (reverse newlines) (reverse text) (All-reverse newlines h))
    ∙ ap (λ x. reverse (drop_newlines (reverse x))) t.ends
    ∙ ap (λ x. reverse (drop_newlines x)) (reverse-append t.before (t.last ∷ []))
    ∙ stops
    ∙ ap reverse (sym (reverse-append t.before (t.last ∷ [])))
    ∙ reverse-reverse (t.before ++ (t.last ∷ []))
    ∙ sym t.ends
  where
    stops :
        reverse (drop_newlines (t.last ∷ reverse t.before)) ≡ reverse (t.last ∷ reverse t.before)
    stops = rw (t.plain) refl

-- What is trimmed, where something is left.
pub record IsTrimming (text trimmed : Text) : Type 0 where
  pub newlines : Text
  pub whole : text ≡ trimmed ++ newlines
  pub are_newlines : All IsNewline newlines
  pub is_trimmed : IsTrimmed trimmed

pub trim_newlines-IsTrimming :
    (text : Text) (c : ℕ) (rest : Text)
    → drop_newlines (reverse text) ≡ c ∷ rest
    → IsTrimming text (reverse (c ∷ rest))
trim_newlines-IsTrimming text c rest h =
    let d = drop_newlines-IsDropped (reverse text) in
    record {
      newlines = reverse d.dropped;
      whole =
          sym (reverse-reverse text)
          ∙ ap reverse (d.whole ∙ ap (λ x. d.dropped ++ x) h)
          ∙ reverse-append d.dropped (c ∷ rest);
      are_newlines = All-reverse d.dropped d.newlines;
      is_trimmed = record {
        before = reverse rest;
        last = c;
        ends = reverse-cons c rest;
        plain = drop_newlines-plain (reverse text) c rest h;
      };
    }
