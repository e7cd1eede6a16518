-- ===== src/Cache/Lookup/Laws.antt =====
-- Which cached version a lookup gives.
use mathlib.Core.List.{Mem, mem-cons_self, mem-cons_of_mem}
use mathlib.Core.Option.{some-injective}
use pg_embed_setup_unpriv.Prelude.{
  ◌≡◌, refl, ap, subst, ◌==◌, ==_iff, inl, inr, Bool, true, false, ◌&&◌, Option, none, some, List,
  [], ◌∷◌, nat_eq, list_eq, All, arith, Bool-cases,
}
use pg_embed_setup_unpriv.Prelude.Texts.{Text, codes}
use pg_embed_setup_unpriv.Installation.{Semver}
use pg_embed_setup_unpriv.Installation.Laws.{IsOrder}
use pg_embed_setup_unpriv.Cache.{
  FileKind, regular_file, folder, link, VersionDir, completion_marker, exists, is_folder,
  is_cache_entry_complete,
}
use pg_embed_setup_unpriv.Cache.Lookup.{
  CacheEntry, starts_with_dot, accept_version, try_parse_name, try_parse_cache_entry, better,
  max_version, find_matching_cached_version,
}

-- The entry has its completion marker and its folder of binaries.
abbrev pub IsComplete : VersionDir → Type 0
IsComplete dir =
    ((kind : FileKind) × (dir.kind completion_marker ≡ some kind))
    × (dir.kind (codes "bin") ≡ some folder)

entry-IsComplete : (dir : VersionDir) → is_cache_entry_complete dir ≡ true → IsComplete dir
unfolding is_cache_entry_complete exists is_folder
entry-IsComplete dir h = (
  marked (dir.kind completion_marker) (ground (arith, h)),
  has_bin (dir.kind (codes "bin")) (ground (arith, h)),
)
  where
    marked : (o : Option FileKind) → exists o ≡ true → (kind : FileKind) × (o ≡ some kind)
    marked none k = cc
    marked (some kind) k = (kind, refl)

    has_bin : (o : Option FileKind) → is_folder o ≡ true → o ≡ some folder
    has_bin none k = cc
    has_bin (some folder) k = refl
    has_bin (some regular_file) k = cc
    has_bin (some link) k = cc

complete_entry : (dir : VersionDir) → IsComplete dir → is_cache_entry_complete dir ≡ true
unfolding is_cache_entry_complete exists is_folder
complete_entry dir ((kind, e), f) = rw e (rw f refl)

abbrev pub IsHidden : Text → Type 0
IsHidden name = (rest : Text) × (name ≡ b'.' ∷ rest)

not_dot-visible : (name : Text) → starts_with_dot name ≡ false → ¬ IsHidden name
unfolding starts_with_dot
not_dot-visible name h (rest, e) = clash (rw e at h)
  where
    clash : ◌≡◌ {A = Bool} true false → ⊥
    clash k = cc

visible-not_dot : (name : Text) → ¬ IsHidden name → starts_with_dot name ≡ false
unfolding starts_with_dot
visible-not_dot [] h = refl
visible-not_dot (c ∷ name) h = elim (Bool-cases (c == b'.')) [
  | inl e ↦ absurd (h (name, ap (λ x. x ∷ name) ((==_iff c b'.').0 e)))
  | inr e ↦ e
]

-- A version that may be used: accepted by the requirement, not hidden, and in a complete entry.
pub record IsUsable {V : Type 0} (semver : Semver V) (matches : V → Bool)
    (entry : Option CacheEntry) (x : V × Text) : Type 0 where
  pub found : CacheEntry
  pub here : entry ≡ some found
  pub named : found.dir_name ≡ some x.1
  pub visible : ¬ IsHidden x.1
  pub parsed : semver.parse x.1 ≡ some x.0
  pub matched : matches x.0 ≡ true
  pub complete : IsComplete found.dir

module _ {V : Type 0} (semver : Semver V) (order : IsOrder semver) (matches : V → Bool) where
  accept_version-IsUsable :
      (entry : CacheEntry) (name : Text) (parsed : Option V) (x : V × Text)
      → entry.dir_name ≡ some name
      → starts_with_dot name ≡ false
      → semver.parse name ≡ parsed
      → accept_version semver matches entry.dir name parsed ≡ some x
      → IsUsable semver matches (some entry) x
  unfolding accept_version
  accept_version-IsUsable entry name none x n v p h = cc
  accept_version-IsUsable entry name (some version) x n v p h =
      elim (Bool-cases (matches version && is_cache_entry_complete entry.dir)) [
        | inl e ↦
            subst (IsUsable semver matches (some entry)) (some-injective _ _ (rw e at h)) (record {
              found = entry;
              here = refl;
              named = n;
              visible = not_dot-visible name v;
              parsed = p;
              matched = ground (arith, e);
              complete = entry-IsComplete entry.dir (ground (arith, e));
            })
        | inr e ↦ cc (rw e at h)
      ]

  try_parse_name-IsUsable :
      (entry : CacheEntry) (name : Option Text) (x : V × Text)
      → entry.dir_name ≡ name
      → try_parse_name semver matches entry.dir name ≡ some x
      → IsUsable semver matches (some entry) x
  unfolding try_parse_name
  try_parse_name-IsUsable entry none x n h = cc
  try_parse_name-IsUsable entry (some name) x n h = elim (Bool-cases (starts_with_dot name)) [
    | inl e ↦ cc (rw e at h)
    | inr e ↦ accept_version-IsUsable entry name (semver.parse name) x n e refl (rw e at h)
  ]

  try_parse_cache_entry-IsUsable :
      (entry : Option CacheEntry) (x : V × Text)
      → try_parse_cache_entry semver matches entry ≡ some x
      → IsUsable semver matches entry x
  unfolding try_parse_cache_entry
  try_parse_cache_entry-IsUsable none x h = cc
  try_parse_cache_entry-IsUsable (some entry) x h =
      try_parse_name-IsUsable entry entry.dir_name x refl h

  IsUsable-try_parse :
      (entry : Option CacheEntry) (x : V × Text)
      → IsUsable semver matches entry x
      → try_parse_cache_entry semver matches entry ≡ some x
  unfolding try_parse_cache_entry try_parse_name accept_version
  IsUsable-try_parse entry x u = rw (u.here) (
      rw (u.named) (
        rw (visible-not_dot x.1 u.visible)
          (rw (u.parsed) (rw (u.matched) (rw (complete_entry u.found.dir u.complete) refl)))))

  -- The best so far is at least as good as an earlier one.
  abbrev AtLeast : Option (V × Text) → Option (V × Text) → Type 0
  AtLeast none best = Unit
  AtLeast (some x) none = ⊥
  AtLeast (some x) (some best) = semver.leb x.0 best.0 ≡ true

  AtLeast-refl : (a : Option (V × Text)) → AtLeast a a
  AtLeast-refl none = tt
  AtLeast-refl (some a) = elim (Bool-cases (semver.leb a.0 a.0)) [
    | inl e ↦ e
    | inr e ↦ order.total a.0 a.0 e
  ]

  better-AtLeast :
      (best x : Option (V × Text))
      → AtLeast best (better semver matches best x) × AtLeast x (better semver matches best x)
  unfolding better
  better-AtLeast best none = (AtLeast-refl best, tt)
  better-AtLeast none (some x) = (tt, AtLeast-refl (some x))
  better-AtLeast (some b) (some x) = elim (Bool-cases (semver.leb b.0 x.0)) [
    | inl e ↦ rw e (e, AtLeast-refl (some x))
    | inr e ↦ rw e (AtLeast-refl (some b), order.total b.0 x.0 e)
  ]

  AtLeast-trans : (a b c : Option (V × Text)) → AtLeast a b → AtLeast b c → AtLeast a c
  AtLeast-trans none b c h k = tt
  AtLeast-trans (some a) none c h k = absurd h
  AtLeast-trans (some a) (some b) none h k = absurd k
  AtLeast-trans (some a) (some b) (some c) h k = order.trans a.0 b.0 c.0 h k

  max_version-AtLeast :
      (best : Option (V × Text)) (entries : List (Option CacheEntry))
      → AtLeast best (max_version semver matches best entries)
        × All
            (λ entry.
              AtLeast
                (try_parse_cache_entry semver matches entry)
                (max_version semver matches best entries))
            entries
  unfolding max_version
  max_version-AtLeast best [] = (AtLeast-refl best, tt)
  max_version-AtLeast best (entry ∷ entries) =
      let x = try_parse_cache_entry semver matches entry in
      let (above, all_above) = max_version-AtLeast (better semver matches best x) entries in
      let (b, c) = better-AtLeast best x in
      (AtLeast-trans best _ _ b above, (AtLeast-trans x _ _ c above, all_above))

  module _ (P : V × Text → Type 0) where
    Holds : Option (V × Text) → Type 0
    Holds best = (x : V × Text) → best ≡ some x → P x

    better-Holds :
        (best x : Option (V × Text)) → Holds best → Holds x → Holds (better semver matches best x)
    unfolding better Holds
    better-Holds best none h k = h
    better-Holds none (some x) h k = k
    better-Holds (some b) (some x) h k = elim (Bool-cases (semver.leb b.0 x.0)) [
      | inl e ↦ rw e k
      | inr e ↦ rw e h
    ]

    max_version-Holds :
        (best : Option (V × Text)) (entries : List (Option CacheEntry))
        → Holds best
        → ((entry : Option CacheEntry)
            → Mem entry entries
            → Holds (try_parse_cache_entry semver matches entry))
        → Holds (max_version semver matches best entries)
    unfolding max_version
    max_version-Holds best [] h p = h
    max_version-Holds best (entry ∷ entries) h p =
        max_version-Holds (better semver matches best (try_parse_cache_entry semver matches entry))
          entries
          (better-Holds best (try_parse_cache_entry semver matches entry) h (p entry mem-cons_self))
          (λ e m. p e (mem-cons_of_mem entry m))

-- What a lookup may give: a usable version than which no usable one is higher, or none where no
-- entry is usable.
abbrev pub IsHighest :
    {V : Type 0} → Semver V → (V → Bool) → List (Option CacheEntry) → Option (V × Text) → Type 0
IsHighest semver matches entries (some x) =
    ((entry : Option CacheEntry) × Mem entry entries × IsUsable semver matches entry x)
    × All (λ entry. (y : _ × Text) → IsUsable semver matches entry y → semver.leb y.0 x.0 ≡ true)
        entries
IsHighest semver matches entries none =
    All (λ entry. (y : _ × Text) → ¬ IsUsable semver matches entry y) entries

-- Where the order of versions is total and transitive, a lookup gives the highest version that the requirement accepts among the complete entries that
-- are not hidden, and none only where there is no such entry.
pub find_matching_cached_version-IsHighest :
    {V : Type 0} (semver : Semver V) (order : IsOrder semver) (matches : V → Bool)
    (entries : List (Option CacheEntry))
    → IsHighest semver matches entries (find_matching_cached_version semver matches (some entries))
unfolding find_matching_cached_version Holds
find_matching_cached_version-IsHighest {V} semver order matches entries =
    go (max_version semver matches none entries) refl
      (max_version-AtLeast semver order matches none entries).1
  where
    above :
        (best : Option (V × Text)) (es : List (Option CacheEntry))
        → All
            (λ entry.
              AtLeast semver order matches (try_parse_cache_entry semver matches entry) best)
            es
        → (x : V × Text) → best ≡ some x
        → All
            (λ entry. (y : V × Text) → IsUsable semver matches entry y → semver.leb y.0 x.0 ≡ true)
            es
    above best [] h x e = tt
    above best (entry ∷ es) (a, h) x e = (
      λ y t.
          subst (λ o. AtLeast semver order matches o (some x))
            (IsUsable-try_parse semver order matches entry y t)
            (subst (AtLeast semver order matches (try_parse_cache_entry semver matches entry)) e a),
      above best es h x e,
    )

    missing :
        (es : List (Option CacheEntry))
        → All
            (λ entry.
              AtLeast semver order matches (try_parse_cache_entry semver matches entry) none)
            es
        → All (λ entry. (y : V × Text) → ¬ IsUsable semver matches entry y) es
    missing [] h = tt
    missing (entry ∷ es) (a, h) = (
      λ y u.
          subst (λ o. AtLeast semver order matches o none)
            (IsUsable-try_parse semver order matches entry y u) a,
      missing es h,
    )

    go :
        (best : Option (V × Text))
        → max_version semver matches none entries ≡ best
        → All
            (λ entry.
              AtLeast semver order matches
                (try_parse_cache_entry semver matches entry)
                (max_version semver matches none entries))
            entries
        → IsHighest semver matches entries best
    go none e h = missing entries (
        subst
          (λ b.
            All
              (λ entry. AtLeast semver order matches (try_parse_cache_entry semver matches entry) b)
              entries)
          e h)
    go (some x) e h = (
      max_version-Holds semver order matches
          (λ x. (entry : Option CacheEntry) × Mem entry entries × IsUsable semver matches entry x)
          none entries (λ y n. cc)
          (λ entry m y t. (entry, m, try_parse_cache_entry-IsUsable semver order matches entry y t))
          x e,
      above _ entries h x e,
    )
