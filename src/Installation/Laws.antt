-- ===== src/Installation/Laws.antt =====
-- Which of the eligible installations is selected.
use mathlib.Core.List.{Mem, mem-cons_self, mem-cons_of_mem}
use mathlib.Core.Option.{some-injective}
use pg_embed_setup_unpriv.Prelude.{
  ◌≡◌, refl, sym, subst, ap, ◌∙◌, ◌⊎◌, inl, inr, Bool, true, false, ◌&&◌, Option, none, some, List,
  [], ◌∷◌, All, arith, Bool-cases,
}
use pg_embed_setup_unpriv.Prelude.Texts.{Text}
use pg_embed_setup_unpriv.Prelude.Sorting.{
  sort_by, pop, text_leb, pop-sort_by, pop-sort_by-none, All-weaken, text_leb_total, text_leb_trans,
}
use pg_embed_setup_unpriv.Installation.{
  Semver, Entry, Outcome, versioned, unversioned, not_found, Candidate, option_leb, candidate_leb,
  versioned_candidate, named_candidate, candidate, keep_some, candidates_of, eligible_candidates,
  outcome_of, select_versioned_installation,
}

-- The semver crate's order on versions is total and transitive.
pub record IsOrder {V : Type 0} (semver : Semver V) : Type 0 where
  pub total : (a b : V) → semver.leb a b ≡ false → semver.leb b a ≡ true
  pub trans : (a b c : V) → semver.leb a b ≡ true → semver.leb b c ≡ true → semver.leb a c ≡ true

module _ {V : Type 0} (semver : Semver V) (order : IsOrder semver) where
  option_leb_total : (a b : Option V) → option_leb semver a b ≡ false → option_leb semver b a ≡ true
  unfolding option_leb
  option_leb_total none b h = cc
  option_leb_total (some a) none h = refl
  option_leb_total (some a) (some b) h = order.total a b h

  option_leb_trans :
      (a b c : Option V)
      → option_leb semver a b ≡ true
      → option_leb semver b c ≡ true
      → option_leb semver a c ≡ true
  unfolding option_leb
  option_leb_trans none b c h k = refl
  option_leb_trans (some a) none c h k = cc
  option_leb_trans (some a) (some b) none h k = cc
  option_leb_trans (some a) (some b) (some c) h k = order.trans a b c h k

  candidate_leb_total :
      (x y : Candidate V) → candidate_leb semver x y ≡ false → candidate_leb semver y x ≡ true
  unfolding candidate_leb
  candidate_leb_total (a, p) (b, q) h =
      ground (arith, option_leb_total a b, option_leb_total b a, text_leb_total p q)

  candidate_leb_trans :
      (x y z : Candidate V)
      → candidate_leb semver x y ≡ true
      → candidate_leb semver y z ≡ true
      → candidate_leb semver x z ≡ true
  unfolding candidate_leb
  candidate_leb_trans (a, p) (b, q) (c, r) h k = ground (
    arith,
    option_leb_trans a b c,
    option_leb_trans c a b,
    option_leb_trans b c a,
    option_leb_total a b,
    option_leb_total b c,
    text_leb_trans p q r,
  )

-- A directory that the code may install from: it has a `bin`, and its name is a version that the
-- requirement accepts, or no version at all.
pub record IsEligible {V : Type 0} (semver : Semver V) (matches : V → Bool)
    (entries : List (Option Entry)) (c : Candidate V) : Type 0 where
  pub entry : Entry
  pub listed : Mem (some entry) entries
  pub has_bin : entry.is_dir && entry.has_bin ≡ true
  pub path : entry.path ≡ c.1
  pub version :
      ((name : Text) × (v : V) × (entry.name ≡ some name)
        × (semver.parse name ≡ some v)
        × (matches v ≡ true)
        × (c.0 ≡ some v))
      ⊎ ((c.0 ≡ none)
          × ((entry.name ≡ none)
              ⊎ ((name : Text) × (entry.name ≡ some name) × (semver.parse name ≡ none))))

-- The entry is a directory that the code may install from, as this candidate.
pub record Offers {V : Type 0} (semver : Semver V) (matches : V → Bool) (entry : Option Entry)
    (c : Candidate V) : Type 0 where
  pub found : Entry
  pub here : entry ≡ some found
  pub is_dir : found.is_dir ≡ true
  pub has_bin : found.has_bin ≡ true
  pub path : found.path ≡ c.1
  pub version :
      ((name : Text) × (v : V) × (found.name ≡ some name)
        × (semver.parse name ≡ some v)
        × (matches v ≡ true)
        × (c.0 ≡ some v))
      ⊎ ((c.0 ≡ none)
          × ((found.name ≡ none)
              ⊎ ((name : Text) × (found.name ≡ some name) × (semver.parse name ≡ none))))

Offers-candidate :
    {V : Type 0} (semver : Semver V) (matches : V → Bool) (entry : Option Entry) (c : Candidate V)
    → Offers semver matches entry c
    → candidate semver matches entry ≡ some c
unfolding candidate named_candidate versioned_candidate
Offers-candidate semver matches entry c o =
    rw (o.here) (rw (o.is_dir) (rw (o.has_bin) (by_version o.version)))
  where
    by_version :
        ((name : Text) × (v : _) × (o.found.name ≡ some name)
            × (semver.parse name ≡ some v)
            × (matches v ≡ true)
            × (c.0 ≡ some v))
          ⊎ ((c.0 ≡ none)
              × ((o.found.name ≡ none)
                  ⊎ ((name : Text) × (o.found.name ≡ some name) × (semver.parse name ≡ none))))
        → named_candidate semver matches o.found.path o.found.name ≡ some c
    by_version (inl (name, v, n, p, m, e)) =
        rw n
          (rw p (rw m (ap some (ap (λ x. (x, o.found.path)) (sym e) ∙ ap (λ x. (c.0, x)) o.path))))
    by_version (inr (e, inl n)) =
        rw n (ap some (ap (λ x. (x, o.found.path)) (sym e) ∙ ap (λ x. (c.0, x)) o.path))
    by_version (inr (e, inr (name, n, p))) =
        rw n (rw p (ap some (ap (λ x. (x, o.found.path)) (sym e) ∙ ap (λ x. (c.0, x)) o.path)))

abbrev pub label : {V : Type 0} → Option V → Outcome
label none = unversioned
label (some v) = versioned

outcome_of-label :
    {V : Type 0} (semver : Semver V) (matches : V → Bool) (c : Candidate V)
    → outcome_of semver matches (some c) ≡ (some c.1, label c.0)
unfolding outcome_of
outcome_of-label semver matches (none, path) = refl
outcome_of-label semver matches (some v, path) = refl

-- What is not above the choice: with a version the highest wins, and a name that is no version is
-- chosen only where there is no version, and then by its path.
abbrev pub NotAbove : {V : Type 0} → Semver V → Candidate V → Candidate V → Type 0
NotAbove semver (some v, p) (some w, q) = semver.leb w v ≡ true
NotAbove semver (some v, p) (none, q) = Unit
NotAbove semver (none, p) (some w, q) = ⊥
NotAbove semver (none, p) (none, q) = text_leb q p ≡ true

module _ {V : Type 0} (semver : Semver V) (matches : V → Bool) where
  versioned_candidate-inv :
      (entry : Entry) (entries : List (Option Entry)) (name : Text) (parsed : Option V)
      (c : Candidate V)
      → Mem (some entry) entries
      → entry.is_dir && entry.has_bin ≡ true
      → entry.name ≡ some name
      → semver.parse name ≡ parsed
      → versioned_candidate semver matches entry.path parsed ≡ some c
      → IsEligible semver matches entries c
  unfolding versioned_candidate
  versioned_candidate-inv entry entries name none c m b n p h =
      let same : (none, entry.path) ≡ c = some-injective _ _ h in
      record {
        entry = entry;
        listed = m;
        has_bin = b;
        path = ap (λ (c : Candidate V). c.1) same;
        version = inr (sym (ap (λ (c : Candidate V). c.0) same), inr (name, n, p));
      }
  versioned_candidate-inv entry entries name (some v) c m b n p h = elim (Bool-cases (matches v)) [
    | inl e ↦
        let same : (some v, entry.path) ≡ c = some-injective _ _ (rw e at h) in
        record {
          entry = entry;
          listed = m;
          has_bin = b;
          path = ap (λ (c : Candidate V). c.1) same;
          version = inl (name, v, n, p, e, sym (ap (λ (c : Candidate V). c.0) same));
        }
    | inr e ↦ cc (rw e at h)
  ]

  named_candidate-inv :
      (entry : Entry) (entries : List (Option Entry)) (name : Option Text) (c : Candidate V)
      → Mem (some entry) entries
      → entry.is_dir && entry.has_bin ≡ true
      → entry.name ≡ name
      → named_candidate semver matches entry.path name ≡ some c
      → IsEligible semver matches entries c
  unfolding named_candidate
  named_candidate-inv entry entries none c m b n h =
      let same : (none, entry.path) ≡ c = some-injective _ _ h in
      record {
        entry = entry;
        listed = m;
        has_bin = b;
        path = ap (λ (c : Candidate V). c.1) same;
        version = inr (sym (ap (λ (c : Candidate V). c.0) same), inl n);
      }
  named_candidate-inv entry entries (some name) c m b n h =
      versioned_candidate-inv entry entries name (semver.parse name) c m b n refl h

  candidate-IsEligible :
      (entries : List (Option Entry)) (entry : Option Entry) (c : Candidate V)
      → Mem entry entries
      → candidate semver matches entry ≡ some c
      → IsEligible semver matches entries c
  unfolding candidate
  candidate-IsEligible entries none c m h = cc
  candidate-IsEligible entries (some entry) c m h =
      elim (Bool-cases (entry.is_dir && entry.has_bin)) [
        | inl e ↦ named_candidate-inv entry entries entry.name c m e refl (rw e at h)
        | inr e ↦ cc (rw e at h)
      ]

  module _ (P : Candidate V → Type 0) where
    keep_some-All :
        (c : Option (Candidate V)) (rest : List (Candidate V))
        → ((d : Candidate V) → c ≡ some d → P d)
        → All P rest
        → All P (keep_some semver matches c rest)
    unfolding keep_some
    keep_some-All none rest p h = h
    keep_some-All (some c) rest p h = (p c refl, h)

    keep_some-inv :
        (c : Option (Candidate V)) (rest : List (Candidate V))
        → All P (keep_some semver matches c rest)
        → ((d : Candidate V) → c ≡ some d → P d) × All P rest
    unfolding keep_some
    keep_some-inv none rest h = (λ d e. cc, h)
    keep_some-inv (some c) rest (p, h) = (λ d e. subst P (some-injective _ _ e) p, h)

    candidates_of-All :
        (entries : List (Option Entry))
        → ((entry : Option Entry)
            → Mem entry entries
            → (d : Candidate V) → candidate semver matches entry ≡ some d
            → P d)
        → All P (candidates_of semver matches entries)
    unfolding candidates_of
    candidates_of-All [] p = tt
    candidates_of-All (entry ∷ entries) p =
        keep_some-All (candidate semver matches entry) (candidates_of semver matches entries)
          (p entry mem-cons_self) (candidates_of-All entries (λ e m. p e (mem-cons_of_mem entry m)))

    candidates_of-inv :
        (entries : List (Option Entry))
        → All P (candidates_of semver matches entries)
        → All (λ entry. (d : Candidate V) → candidate semver matches entry ≡ some d → P d) entries
    unfolding candidates_of
    candidates_of-inv [] h = tt
    candidates_of-inv (entry ∷ entries) h =
        let (p, rest) =
          keep_some-inv (candidate semver matches entry) (candidates_of semver matches entries) h in
        (p, candidates_of-inv entries rest)

NotAbove-of_leb :
    {V : Type 0} (semver : Semver V) (c d : Candidate V)
    → candidate_leb semver d c ≡ true
    → NotAbove semver c d
unfolding candidate_leb option_leb
NotAbove-of_leb semver (some v, p) (some w, q) h = ground (arith, h)
NotAbove-of_leb semver (some v, p) (none, q) h = tt
NotAbove-of_leb semver (none, p) (some w, q) h = cc
NotAbove-of_leb semver (none, p) (none, q) h = h

-- What a selection may give: an eligible directory that no candidate is above, or none where no
-- entry is a candidate.
abbrev pub IsSelection :
    {V : Type 0} → Semver V → (V → Bool) → List (Option Entry) → Option Text × Outcome → Type 0
IsSelection semver matches entries result =
    ((c : Candidate _) × (result ≡ (some c.1, label c.0))
      × IsEligible semver matches entries c
      × All (λ entry. (d : Candidate _) → Offers semver matches entry d → NotAbove semver c d)
          entries)
    ⊎ ((result ≡ (none, not_found))
        × All (λ entry. (d : Candidate _) → ¬ Offers semver matches entry d) entries)

-- Where the order of versions is total and transitive, the selection among the directories of an
-- install tree gives an eligible one with the highest
-- version that the requirement accepts. Without such a version it gives the directory with the last
-- path among those whose name is no version, and it gives none only where there is no candidate.
pub select_versioned_installation-best :
    {V : Type 0} (semver : Semver V) (order : IsOrder semver) (matches : V → Bool)
    (entries : List (Option Entry))
    → IsSelection semver matches entries
        (select_versioned_installation semver matches (some entries))
unfolding select_versioned_installation eligible_candidates outcome_of
select_versioned_installation-best {V} semver order matches entries =
    popped (pop (sort_by (candidate_leb semver) found)) refl
  where
    found : List (Candidate V)
    found = candidates_of semver matches entries

    popped :
        (r : Option (Candidate V))
        → pop (sort_by (candidate_leb semver) found) ≡ r
        → IsSelection semver matches entries (outcome_of semver matches r)
    popped none e = inr (
      refl,
      All-weaken (λ entry h d o. h d (Offers-candidate semver matches entry d o)) entries
          (candidates_of-inv semver matches (λ d. ⊥) entries
            (rw (pop-sort_by-none (candidate_leb semver) found e) tt)),
    )
    popped (some c) e =
        let (eligible, below) =
          pop-sort_by (candidate_leb semver) (candidate_leb_total semver order)
            (candidate_leb_trans semver order) (IsEligible semver matches entries) found c
            (candidates_of-All semver matches (IsEligible semver matches entries) entries
              (λ entry m d h. candidate-IsEligible semver matches entries entry d m h))
            e in
        inl (
          c,
          outcome_of-label semver matches c,
          eligible,
          All-weaken (λ entry h d o. h d (Offers-candidate semver matches entry d o)) entries
              (candidates_of-inv semver matches (NotAbove semver c) entries
                (All-weaken (λ d. NotAbove-of_leb semver c d) found below)),
        )
