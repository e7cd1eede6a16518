-- ===== src/Extensions/Layout/Laws.antt =====
-- Which paths an archive entry may be installed under.
use mathlib.Core.Option.{some-injective}
use pg_embed_setup_unpriv.Prelude.{
  subst, ◌↔◌, ℕ, ◌≡◌, ◌≢◌, refl, ap, ◌∙◌, true, false, Option, none, some, List, [], ◌∷◌, map, All,
  contains, ◌==◌, ==_iff, nat_eq, list_eq, arith,
}
use pg_embed_setup_unpriv.Prelude.Texts.{Text, codes, split, join, split-join, NonEmpty}
use pg_embed_setup_unpriv.Extensions.Layout.{
  Component, cur_dir, normal, piece, pieces, leading, components, plain_component, later_components,
  ◌>>=◌, normal_components, is_allowed_layout, classify_entry_path,
}

-- A file or directory name that stays in its directory: not empty, not "." or "..", and without
-- a separator of any platform.
pub record IsPlain (part : Text) : Type 0 where
  pub non_empty : part ≢ []
  pub not_current : part ≢ codes "."
  pub not_parent : part ≢ codes ".."
  pub no_slash : contains part b'/' ≡ false
  pub no_backslash : contains part 0x5c ≡ false

-- One name below `lib`, or at least one below `share/extension`.
abbrev pub IsAllowed : List Text → Type 0
IsAllowed (first ∷ name ∷ []) = first ≡ codes "lib"
IsAllowed (first ∷ second ∷ name ∷ more) = (first ≡ codes "share") × (second ≡ codes "extension")
IsAllowed _ = ⊥

-- A relative path of plain names directly under `lib` or at any depth under `share/extension`.
pub record IsInstallPath (path : Text) : Type 0 where
  pub parts : List Text
  pub joined : path ≡ join b'/' parts
  pub plain : All IsPlain parts
  pub allowed : IsAllowed parts

abbrev IsProper : Component → Type 0
IsProper (normal part) = (part ≢ []) × (part ≢ codes ".") × (part ≢ codes "..")
IsProper _ = Unit

piece-IsProper :
    (part : Text) (rest : List Component) → All IsProper rest → All IsProper (piece part rest)
unfolding piece
piece-IsProper part rest h =
    ground (arith, ==_iff part [], ==_iff part (codes "."), ==_iff part (codes ".."))

pieces-IsProper : (parts : List Text) → All IsProper (pieces parts)
unfolding pieces
pieces-IsProper [] = tt
pieces-IsProper (part ∷ parts) = piece-IsProper part (pieces parts) (pieces-IsProper parts)

leading-IsProper : (parts : List Text) → All IsProper (leading parts)
unfolding leading
leading-IsProper [] = tt
leading-IsProper (part ∷ parts) =
    ground
      (arith, pieces-IsProper parts, piece-IsProper part (pieces parts) (pieces-IsProper parts))

components-IsProper : (path : Text) → All IsProper (components path)
unfolding components
components-IsProper [] = tt
components-IsProper (c ∷ s) =
    ground (arith, pieces-IsProper (split b'/' s), leading-IsProper (split b'/' (c ∷ s)))

>>=-eq-some :
    {A B : Type 0} (m : Option A) (f : A → Option B) {b : B}
    → (m >>= f) ≡ some b
    → (a : A) × (m ≡ some a) × (f a ≡ some b)
>>=-eq-some (some a) f h = (a, refl, h)
>>=-eq-some none f h = cc

plain_component-IsPlain :
    (part p : Text)
    → (part ≢ []) × (part ≢ codes ".") × (part ≢ codes "..")
    → plain_component part ≡ some p
    → IsPlain p
unfolding plain_component
plain_component-IsPlain part p h e = ground arith

later_components-IsPlain :
    (cs : List Component) (parts : List Text)
    → All IsProper cs
    → later_components cs ≡ some parts
    → All IsPlain parts
unfolding later_components
later_components-IsPlain [] parts h e = ground arith
later_components-IsPlain (normal part ∷ rest) parts (h, hs) e =
    let (p, e1, e2) = >>=-eq-some (plain_component part) _ e in
    let (ps, e3, e4) = >>=-eq-some (later_components rest) _ e2 in
    let same : p ∷ ps ≡ parts = some-injective _ _ e4 in
    subst (All IsPlain) same
      (plain_component-IsPlain part p h e1, later_components-IsPlain rest ps hs e3)
later_components-IsPlain (_ ∷ rest) parts h e = cc

normal_components-IsPlain :
    (cs : List Component) (parts : List Text)
    → All IsProper cs
    → normal_components cs ≡ some parts
    → All IsPlain parts
unfolding normal_components
normal_components-IsPlain (cur_dir ∷ rest) parts (_, h) e = later_components-IsPlain rest parts h e
normal_components-IsPlain cs parts h e = later_components-IsPlain cs parts h e

is_allowed_layout-IsAllowed : (parts : List Text) → is_allowed_layout parts ≡ true → IsAllowed parts
unfolding is_allowed_layout
is_allowed_layout-IsAllowed [] h = cc
is_allowed_layout-IsAllowed (first ∷ []) h = cc
is_allowed_layout-IsAllowed (first ∷ name ∷ []) h = (==_iff first (codes "lib")).0 h
is_allowed_layout-IsAllowed (first ∷ second ∷ name ∷ more) h = (
  (==_iff first (codes "share")).0 (ground (arith, h)),
  (==_iff second (codes "extension")).0 (ground (arith, h)),
)

IsAllowed-is_allowed_layout : (parts : List Text) → IsAllowed parts → is_allowed_layout parts ≡ true
unfolding is_allowed_layout
IsAllowed-is_allowed_layout [] h = absurd h
IsAllowed-is_allowed_layout (first ∷ []) h = absurd h
IsAllowed-is_allowed_layout (first ∷ name ∷ []) h = (==_iff first (codes "lib")).1 h
IsAllowed-is_allowed_layout (first ∷ second ∷ name ∷ more) (h, k) =
    ground (arith, (==_iff first (codes "share")).1 h, (==_iff second (codes "extension")).1 k)

-- Whatever the entry is called, a path that is accepted stays inside the two directories.
pub classify_entry_path-IsInstallPath :
    (raw path : Text) → classify_entry_path raw ≡ some path → IsInstallPath path
unfolding classify_entry_path
classify_entry_path-IsInstallPath raw path h =
    let (ps, e1, e2) = >>=-eq-some (normal_components (components raw)) _ h in
    record {
      parts = ps;
      joined = ground arith;
      plain = normal_components-IsPlain _ ps (components-IsProper raw) e1;
      allowed = is_allowed_layout-IsAllowed ps (ground arith);
    }

pieces-map : (parts : List Text) → All IsPlain parts → pieces parts ≡ map normal parts
unfolding pieces piece
pieces-map [] h = refl
pieces-map (part ∷ parts) (p, h) = ground (
  arith,
  pieces-map parts h,
  ==_iff part [],
  ==_iff part (codes "."),
  ==_iff part (codes ".."),
  p,
)

leading-map : (parts : List Text) → All IsPlain parts → leading parts ≡ map normal parts
unfolding leading piece
leading-map [] h = refl
leading-map (part ∷ parts) (p, h) = ground (
  arith,
  pieces-map parts h,
  ==_iff part [],
  ==_iff part (codes "."),
  ==_iff part (codes ".."),
  p,
)

All-no_slash :
    (parts : List Text) → All IsPlain parts → All (λ part. contains part b'/' ≡ false) parts
All-no_slash [] h = tt
All-no_slash (part ∷ parts) (p, h) = (p.no_slash, All-no_slash parts h)

components-relative :
    (c : ℕ) (s : Text) → c == b'/' ≡ false → components (c ∷ s) ≡ leading (split b'/' (c ∷ s))
unfolding components
components-relative c s h = rw h

not_slash : (c : ℕ) (s : Text) → contains (c ∷ s) b'/' ≡ false → c == b'/' ≡ false
not_slash c s h = ground arith

pub components-join :
    (parts : List Text)
    → NonEmpty parts
    → All IsPlain parts
    → components (join b'/' parts) ≡ map normal parts
unfolding join
components-join [] ne h = elim ne [ ]
components-join ([] ∷ parts) ne (p, h) = absurd (p.non_empty refl)
components-join ((c ∷ s) ∷ []) ne h =
    components-relative c s (not_slash c s h.0.no_slash)
    ∙ ap leading (split-join b'/' ((c ∷ s) ∷ []) tt (All-no_slash ((c ∷ s) ∷ []) h))
    ∙ leading-map _ h
components-join ((c ∷ s) ∷ next ∷ parts) ne h =
    components-relative c _ (not_slash c s h.0.no_slash)
    ∙ ap leading
        (split-join b'/' ((c ∷ s) ∷ next ∷ parts) tt (All-no_slash ((c ∷ s) ∷ next ∷ parts) h))
    ∙ leading-map _ h

later_components-map :
    (parts : List Text) → All IsPlain parts → later_components (map normal parts) ≡ some parts
unfolding later_components plain_component
later_components-map [] h = refl
later_components-map (part ∷ parts) (p, h) = ground (arith, later_components-map parts h, p)

pub NonEmpty-allowed : (parts : List Text) → IsAllowed parts → NonEmpty parts
NonEmpty-allowed [] h = absurd h
NonEmpty-allowed (_ ∷ _) h = tt

normal_components-map :
    (parts : List Text) → All IsPlain parts → normal_components (map normal parts) ≡ some parts
unfolding normal_components
normal_components-map [] h = refl
normal_components-map (part ∷ parts) h = later_components-map (part ∷ parts) h

classify_entry_path_self : (path : Text) → IsInstallPath path → classify_entry_path path ≡ some path
unfolding classify_entry_path
classify_entry_path_self path i = rw i.joined (
    rw (components-join i.parts (NonEmpty-allowed i.parts i.allowed) i.plain) (
      rw (normal_components-map i.parts i.plain)
        (rw (IsAllowed-is_allowed_layout i.parts i.allowed))))

-- Exactly the paths of plain names with one name below `lib`, or with one or more below
-- `share/extension`, are classified as themselves.
pub classify_entry_path_iff :
    (path : Text) → (classify_entry_path path ≡ some path) ↔ IsInstallPath path
classify_entry_path_iff path =
    (classify_entry_path-IsInstallPath path path, classify_entry_path_self path)
