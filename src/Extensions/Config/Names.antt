-- ===== src/Extensions/Config/Names.antt =====
-- The names that an accepted list of extensions gives.
use pg_embed_setup_unpriv.Prelude.{
  ◌≡◌, refl, sym, ap, subst, ◌∙◌, ◌⊎◌, inl, inr, true, false, ◌||◌, List, [], ◌∷◌, ◌++◌, contains,
  ◌==◌, ==_iff, ==_refl, nat_eq, list_eq, Bool-cases, All, All-append, arith,
}
use pg_embed_setup_unpriv.Prelude.Texts.{Text}
use pg_embed_setup_unpriv.Error.{BootstrapResult, ok, err, extension_config_invalid}
use pg_embed_setup_unpriv.Extensions.Name.{new, IsName, new-eq}
use pg_embed_setup_unpriv.Extensions.Config.{push_name, named, parse_items}

abbrev pub Distinct : List Text → Type 0
Distinct [] = Unit
Distinct (name ∷ names) = (contains names name ≡ false) × Distinct names

contains-append :
    (names : List Text) (name other : Text)
    → contains (names ++ (name ∷ [])) other ≡ contains names other || name == other
contains-append [] name other = ground arith
contains-append (n ∷ names) name other = ground (arith, contains-append names name other)

Distinct-append :
    (names : List Text) (name : Text)
    → Distinct names
    → contains names name ≡ false
    → Distinct (names ++ (name ∷ []))
Distinct-append [] name h absent = (refl, tt)
Distinct-append (n ∷ names) name (first, h) absent = (
  contains-append names name n ∙ ground (arith, first, absent, ==_iff n name, ==_iff name n),
  Distinct-append names name h (ground (arith, absent)),
)

-- Valid names, none twice.
abbrev pub AreNames : List Text → Type 0
AreNames names = All IsName names × Distinct names

push_name-AreNames :
    (name : Text) (names : List Text)
    → IsName name
    → AreNames names
    → AreNames (push_name name names)
unfolding push_name
push_name-AreNames name names v (h, d) = elim (Bool-cases (contains names name)) [
  | inl e ↦ rw e (h, d)
  | inr e ↦ rw e (All-append IsName names (name ∷ []) h (v, tt), Distinct-append names name d e)
]

push_name-contains :
    (name : Text) (names : List Text) (other : Text)
    → contains (push_name name names) other ≡ contains names other || name == other
unfolding push_name
push_name-contains name names other = elim (Bool-cases (contains names name)) [
  | inl e ↦ rw e (present (Bool-cases (name == other)) e)
  | inr e ↦ rw e (contains-append names name other)
]
  where
    present :
        ((name == other) ≡ true) ⊎ ((name == other) ≡ false)
        → contains names name ≡ true
        → contains names other ≡ (contains names other || name == other)
    present (inl g) e =
        let there : contains names other ≡ true =
          subst (λ n. contains names n ≡ true) ((==_iff name other).0 g) e in
        ground (arith, there)
    present (inr g) e = ground (arith, g)

-- An item that names nothing, or one whose name is asked for.
abbrev pub Covered : List Text → Text → Type 0
Covered names item = (item ≡ []) ⊎ (contains names item ≡ true)

pub record Parsed (items before after : List Text) : Type 0 where
  pub are_names : AreNames before → AreNames after
  pub keeps : (name : Text) → contains before name ≡ true → contains after name ≡ true
  pub covers : All (Covered after) items
  pub only :
      (name : Text)
      → contains after name ≡ true
      → (contains before name ≡ true) ⊎ (contains items name ≡ true)

named-ok :
    (item : Text) (next : Text → BootstrapResult (List Text)) (result : List Text)
    → named (new item) next ≡ ok result
    → IsName item × (next item ≡ ok result)
unfolding named
named-ok item next result h = elim (new-eq item) [
  | inl (e, v) ↦ (v, ap (λ r. named r next) (sym e) ∙ h)
  | inr (e, _) ↦ absurd (refused (ap (λ r. named r next) (sym e) ∙ h))
]
  where
    refused : ◌≡◌ {A = BootstrapResult (List Text)} (err extension_config_invalid) (ok result) → ⊥
    refused k = cc

pub parse_items-Parsed :
    (items before after : List Text)
    → parse_items items before ≡ ok after
    → Parsed items before after
unfolding parse_items
parse_items-Parsed [] before after h =
    let same : before ≡ after = cc in
    record {
      are_names = subst AreNames same;
      keeps = λ name k. subst (λ l. contains l name ≡ true) same k;
      covers = tt;
      only = λ name k. inl (subst (λ l. contains l name ≡ true) (sym same) k);
    }
parse_items-Parsed ([] ∷ items) before after h =
    let rest = parse_items-Parsed items before after h in
    record {
      are_names = rest.are_names;
      keeps = rest.keeps;
      covers = (inl refl, rest.covers);
      only = λ name k. elim (rest.only name k) [ inl a ↦ inl a | inr b ↦ inr (ground (arith, b)) ];
    }
parse_items-Parsed ((c ∷ item) ∷ items) before after h =
    let (v, k) = named-ok (c ∷ item) (λ name. parse_items items (push_name name before)) after h in
    let rest = parse_items-Parsed items (push_name (c ∷ item) before) after k in
    let pushed = push_name-contains (c ∷ item) before in
    record {
      are_names = λ a. rest.are_names (push_name-AreNames (c ∷ item) before v a);
      keeps = λ name there. rest.keeps name (pushed name ∙ ground (arith, there));
      covers = (
        inr (rest.keeps (c ∷ item) (pushed (c ∷ item) ∙ ground (arith, ==_refl (c ∷ item)))),
        rest.covers,
      );
      only = λ name there. elim (rest.only name there) [
        | inl a ↦ either name (sym (pushed name) ∙ a)
        | inr b ↦ inr (ground (arith, b))
      ];
    }
  where
    either :
        (name : Text)
        → (contains before name || (c ∷ item) == name) ≡ true
        → (contains before name ≡ true) ⊎ (contains ((c ∷ item) ∷ items) name ≡ true)
    either name e = elim (Bool-cases (contains before name)) [
      | inl a ↦ inl a
      | inr b ↦ inr (ground (arith, e, b))
    ]
