-- ===== src/Extensions/Manifest/Laws.antt =====
-- What a validated manifest promises, and which artefact is selected.
use mathlib.Core.Option
use pg_embed_setup_unpriv.Prelude.{
  ◌≤◌, ◌≡◌, subst, ◌≢◌, ◌↔◌, ◌⊎◌, inl, inr, refl, true, false, none, some, List, [], ◌∷◌, All, find,
  FirstOf, find-eq-some_iff, find-eq-none, All-middle, ◌==◌, ==_iff, nat_eq, list_eq, arith,
  Option-cases,
}
use pg_embed_setup_unpriv.Prelude.Texts.{Text, codes}
use pg_embed_setup_unpriv.Error.{
  BootstrapResult, BootstrapErrorKind, ok, err, extension_unavailable,
}
use pg_embed_setup_unpriv.Extensions.Name.{new, IsName, new-eq}
use pg_embed_setup_unpriv.Extensions.Layout.Laws.{IsPlain}
use pg_embed_setup_unpriv.Extensions.Manifest.{
  Externals, ManifestArtifact, ManifestExtension, Manifest, Selection, archive_size_cap,
  is_single_component, artifact_version, validate_artifact, validate_artifacts, name_error,
  validate_extensions, validate, artifact_matches, select,
}

is_single_component_iff : (file : Text) → (is_single_component file ≡ true) ↔ IsPlain file
unfolding is_single_component
is_single_component_iff [] = (λ h. cc, λ h. absurd (h.non_empty refl))
is_single_component_iff (c ∷ s) = (
  λ h. ground (arith, ==_iff (c ∷ s) (codes "."), ==_iff (c ∷ s) (codes "..")),
  λ h. ground (
    arith,
    ==_iff (c ∷ s) (codes "."),
    ==_iff (c ∷ s) (codes ".."),
    h.not_current,
    h.not_parent,
    h.no_slash,
    h.no_backslash,
  ),
)

module _ (ext : Externals) where
  -- An artefact names a version, a bare file of a bounded size, some files, and a permitted URL.
  pub record IsValidArtifact (a : ManifestArtifact) : Type 0 where
    pub versioned : artifact_version ext a ≢ none
    pub bare : IsPlain a.file
    pub smallest : 1 ≤ a.size
    pub largest : a.size ≤ archive_size_cap
    pub lists_files : a.files ≢ []
    pub permitted : ext.is_permitted_url a.url ≡ true

  abbrev pub IsValidExtension : ManifestExtension → Type 0
  IsValidExtension e = IsName e.name × All IsValidArtifact e.artifacts

  validate_artifact-IsValid :
      (a : ManifestArtifact) → validate_artifact ext a ≡ ok tt → IsValidArtifact a
  unfolding validate_artifact
  validate_artifact-IsValid a h = record {
    versioned = ground arith;
    bare = (is_single_component_iff a.file).0 (ground arith);
    smallest = ground arith;
    largest = ground arith;
    lists_files = ground arith;
    permitted = ground arith;
  }

  IsValid-validate_artifact :
      (a : ManifestArtifact) → IsValidArtifact a → validate_artifact ext a ≡ ok tt
  unfolding validate_artifact
  IsValid-validate_artifact a v =
      ground
        (arith, (is_single_component_iff a.file).1 v.bare, v.versioned, v.lists_files, v.permitted)

  ok_unit : (r : BootstrapResult Unit) → (r ≡ ok tt) ⊎ ((e : BootstrapErrorKind) × (r ≡ err e))
  ok_unit (ok tt) = inl refl
  ok_unit (err e) = inr (e, refl)

  validate_artifacts-All :
      (arts : List ManifestArtifact)
      → validate_artifacts ext arts ≡ ok tt
      → All IsValidArtifact arts
  unfolding validate_artifacts
  validate_artifacts-All [] h = tt
  validate_artifacts-All (a ∷ arts) h =
      (validate_artifact-IsValid a (ground arith), validate_artifacts-All arts (ground arith))

  All-validate_artifacts :
      (arts : List ManifestArtifact)
      → All IsValidArtifact arts
      → validate_artifacts ext arts ≡ ok tt
  unfolding validate_artifacts
  All-validate_artifacts [] h = refl
  All-validate_artifacts (a ∷ arts) (v, h) =
      rw (IsValid-validate_artifact a v) (All-validate_artifacts arts h)

  name_error_iff : (name : Text) → (name_error ext (new name) ≡ ok tt) ↔ IsName name
  unfolding name_error
  name_error_iff name = elim (new-eq name) [
    | inl (e, valid) ↦ (λ h. valid, λ v. rw e)
    | inr (e, bad) ↦ (λ h. cc (e, h), λ v. absurd (bad v))
  ]

  validate_extensions-All :
      (extensions : List ManifestExtension)
      → validate_extensions ext extensions ≡ ok tt
      → All IsValidExtension extensions
  unfolding validate_extensions
  validate_extensions-All [] h = tt
  validate_extensions-All (e ∷ rest) h = (
    ((name_error_iff e.name).0 (ground arith), validate_artifacts-All e.artifacts (ground arith)),
    validate_extensions-All rest (ground arith),
  )

  All-validate_extensions :
      (extensions : List ManifestExtension)
      → All IsValidExtension extensions
      → validate_extensions ext extensions ≡ ok tt
  unfolding validate_extensions
  All-validate_extensions [] h = refl
  All-validate_extensions (e ∷ rest) ((n, arts), h) =
      rw ((name_error_iff e.name).1 n, All-validate_artifacts e.artifacts arts)
        (All-validate_extensions rest h)

  -- A manifest is accepted exactly if its schema is 1 and every extension has a valid name and
  -- only valid artefacts.
  pub validate_iff :
      (m : Manifest)
      → (validate ext m ≡ ok tt) ↔ ((m.schema_version ≡ 1) × All IsValidExtension m.extensions)
  unfolding validate
  validate_iff m = (
    λ h. (ground arith, validate_extensions-All m.extensions (ground arith)),
    λ h. ground (arith, All-validate_extensions m.extensions h.1),
  )

  -- The archive was built for the same major and minor release and for the same target.
  pub record Suits (running : ext.Version) (target : Text) (a : ManifestArtifact) : Type 0 where
    pub same_target : a.target ≡ target
    pub major : Option.map ext.major (ext.parse_version a.postgresql) ≡ some (ext.major running)
    pub minor : Option.map ext.minor (ext.parse_version a.postgresql) ≡ some (ext.minor running)

  artifact_matches_iff :
      (a : ManifestArtifact) (running : ext.Version) (target : Text)
      → (artifact_matches ext a running target ≡ true) ↔ Suits running target a
  unfolding artifact_matches artifact_version
  artifact_matches_iff a running target = (
    λ h. record {
      same_target = ground (arith, ==_iff a.target target);
      major = ground arith;
      minor = ground arith;
    },
    λ s. ground (arith, ==_iff a.target target, s.same_target, s.major, s.minor),
  )

  -- A selection is the first extension of that name and its first artefact for the running
  -- release and target, and that artefact suits them.
  pub select-FirstOf :
      (m : Manifest) (name : Text) (running : ext.Version) (target : Text) (s : Selection)
      → select ext m name running target ≡ ok s
      → FirstOf (λ e. e.name == name) m.extensions s.extension
        × FirstOf (λ a. artifact_matches ext a running target) s.extension.artifacts s.artifact
        × (s.extension.name ≡ name)
        × Suits running target s.artifact
  unfolding select
  select-FirstOf m name running target s h =
      let e = (find-eq-some_iff _ m.extensions s.extension).0 (ground arith) in
      let a = (find-eq-some_iff _ s.extension.artifacts s.artifact).0 (ground arith) in
      (
        e,
        a,
        (==_iff s.extension.name name).0 e.passes,
        (artifact_matches_iff s.artifact running target).0 a.passes,
      )

  All-mismatch :
      (arts : List ManifestArtifact) (running : ext.Version) (target : Text)
      → All (λ a. artifact_matches ext a running target ≡ false) arts
      → All (λ a. ¬ Suits running target a) arts
  All-mismatch [] running target h = tt
  All-mismatch (a ∷ arts) running target (h, hs) = (
    λ s. cc (h, (artifact_matches_iff a running target).1 s),
    All-mismatch arts running target hs,
  )

  -- Selection fails only with that one kind, and only if no extension has the name or the first
  -- that has it offers no artefact that suits.
  pub select-unavailable :
      (m : Manifest) (name : Text) (running : ext.Version) (target : Text) (k : BootstrapErrorKind)
      → select ext m name running target ≡ err k
      → (k ≡ extension_unavailable)
        × (All (λ e. (e.name == name) ≡ false) m.extensions
            ⊎ ((e : ManifestExtension) × FirstOf (λ e. e.name == name) m.extensions e
                × All (λ a. ¬ Suits running target a) e.artifacts))
  unfolding select
  select-unavailable m name running target k h =
      elim (Option-cases (find (λ e. e.name == name) m.extensions)) [
        | inl missing ↦ (ground arith, inl (find-eq-none _ m.extensions missing))
        | inr (e, found) ↦ (
          ground arith,
          inr (
            e,
            (find-eq-some_iff _ m.extensions e).0 found,
            All-mismatch e.artifacts running target (find-eq-none _ e.artifacts (ground arith)),
          ),
        )
      ]

  -- What is selected from an accepted manifest is a valid artefact.
  pub select-IsValidArtifact :
      (m : Manifest) (name : Text) (running : ext.Version) (target : Text) (s : Selection)
      → validate ext m ≡ ok tt
      → select ext m name running target ≡ ok s
      → IsValidArtifact s.artifact
  select-IsValidArtifact m name running target s valid h =
      let (e, a, _, _) = select-FirstOf m name running target s h in
      let all_valid = ((validate_iff m).0 valid).1 in
      let own =
        All-middle IsValidExtension e.before e.after
          (subst (All IsValidExtension) e.splits all_valid) in
      All-middle IsValidArtifact a.before a.after (subst (All IsValidArtifact) a.splits own.1)
