-- ===== src/Extensions/Pipeline/Each.antt =====
-- What an installation of one extension, and then of the rest, has checked.
use pg_embed_setup_unpriv.Prelude.{◌≡◌, refl, sym, ap, subst, ◌∙◌, List, [], ◌∷◌, nat_eq, list_eq}
use pg_embed_setup_unpriv.Prelude.Texts.{Text}
use pg_embed_setup_unpriv.Error.{BootstrapResult, ok, err}
use pg_embed_setup_unpriv.Extensions.Manifest.{Externals, Manifest, Selection, validate, select}
use pg_embed_setup_unpriv.Extensions.Manifest.Laws.{
  IsValidArtifact, Suits, select-FirstOf, select-IsValidArtifact,
}
use pg_embed_setup_unpriv.Extensions.Install.{Log, install_archive}
use pg_embed_setup_unpriv.Extensions.Install.Whole.{Installed, install_archive-Installed}
use pg_embed_setup_unpriv.Extensions.Archive.{ArchiveOrigin, acquire}
use pg_embed_setup_unpriv.Extensions.Pipeline.{
  InstalledExtension, Site, report, install_acquired, install_one, Outcome, collected, after_one,
}

module _ (ext : Externals) (site : Site ext) where
  -- One extension as it is reported, and what was written for it: what the manifest offers for the
  -- running release and this target, out of an archive with the size and the digest that it states.
  pub record IsInstalled (manifest : Manifest) (running : ext.Version) (name : Text)
      (installed : InstalledExtension) (log : Log) : Type 0 where
    pub selection : Selection
    pub selected : select ext manifest name running site.compile_target ≡ ok selection
    pub is_valid : IsValidArtifact ext selection.artifact
    pub suits : Suits ext running site.compile_target selection.artifact
    pub named : installed.name ≡ name
    pub digest : installed.archive_sha256 ≡ selection.artifact.sha256
    pub written :
        Installed site.of_bytes site.entries
          (site.archive selection.artifact)
          selection.artifact
          installed.files
          log

  -- Each name has its report and its writes, in order, and nothing else has.
  abbrev pub AllInstalled :
      Manifest → ext.Version → List Text → List InstalledExtension → List Log → Type 0
  AllInstalled manifest running [] [] [] = Unit
  AllInstalled manifest running (name ∷ names) (extension ∷ extensions) (log ∷ logs) =
      IsInstalled manifest running name extension log
      × AllInstalled manifest running names extensions logs
  AllInstalled manifest running _ _ _ = ⊥

  report-ok :
      (name : Text) (selection : Selection) (origin : ArchiveOrigin) (files : List Text)
      (extension : InstalledExtension)
      → report ext site name selection origin (ok files) ≡ ok extension
      → (extension.name ≡ name)
        × (extension.archive_sha256 ≡ selection.artifact.sha256)
        × (extension.files ≡ files)
  unfolding report
  report-ok name selection origin files extension h = (cc, cc, cc)

  module _ (manifest : Manifest) (running : ext.Version)
      (accepted : validate ext manifest ≡ ok tt) where
    pub install_one-IsInstalled :
        (name : Text) (selection : Selection) (extension : InstalledExtension) (log : Log)
        → select ext manifest name running site.compile_target ≡ ok selection
        → install_one ext site name selection ≡ (ok extension, log)
        → IsInstalled manifest running name extension log
    unfolding install_one install_acquired report
    install_one-IsInstalled name selection extension log s =
        by_origin
          (acquire site.of_bytes site.disk site.net selection.artifact
            (site.entry selection.artifact)).0
      where
        is_valid : IsValidArtifact ext selection.artifact
        is_valid =
            select-IsValidArtifact ext manifest name running site.compile_target selection accepted
              s

        reported :
            (origin : ArchiveOrigin) (r : BootstrapResult (List Text) × Log)
            → install_archive site.of_bytes site.entries site.write_file
                (site.archive selection.artifact)
                selection.artifact
              ≡ r
            → ◌≡◌ {A = BootstrapResult InstalledExtension × Log}
                (report ext site name selection origin r.0, r.1)
                (ok extension, log)
            → IsInstalled manifest running name extension log
        reported origin (err e, l) i h =
            let clash : ◌≡◌ {A = BootstrapResult InstalledExtension} (err e) (ok extension) =
              ap (λ (p : BootstrapResult InstalledExtension × Log). p.0) h in
            cc
        reported origin (ok files, l) i h =
            let (n, d, f) =
              report-ok name selection origin files extension
                (ap (λ (p : BootstrapResult InstalledExtension × Log). p.0) h) in
            let same_log : l ≡ log = ap (λ (p : BootstrapResult InstalledExtension × Log). p.1) h in
            record {
              selection = selection;
              selected = s;
              is_valid = is_valid;
              suits = (select-FirstOf ext manifest name running site.compile_target selection s).3;
              named = n;
              digest = d;
              written =
                  subst
                    (λ names.
                      Installed site.of_bytes site.entries (site.archive selection.artifact)
                        selection.artifact names log)
                    (sym f)
                    (install_archive-Installed site.of_bytes site.entries site.write_file
                      (site.archive selection.artifact) selection.artifact files log
                      is_valid.largest (i ∙ ap (λ (x : Log). (ok files, x)) same_log));
            }

        by_origin :
            (a : BootstrapResult ArchiveOrigin)
            → install_acquired ext site name selection a ≡ (ok extension, log)
            → IsInstalled manifest running name extension log
        by_origin (err e) h =
            let clash : ◌≡◌ {A = BootstrapResult InstalledExtension} (err e) (ok extension) =
              ap (λ (p : BootstrapResult InstalledExtension × Log). p.0) h in
            cc
        by_origin (ok origin) h = reported origin _ refl h

    pub after_one-AllInstalled :
        (name : Text) (names : List Text) (first : BootstrapResult InstalledExtension × Log)
        (rest : Outcome ext site) (extensions : List InstalledExtension) (logs : List Log)
        → ((extension : InstalledExtension) (log : Log)
            → first ≡ (ok extension, log)
            → IsInstalled manifest running name extension log)
        → ((others : List InstalledExtension) (more : List Log)
            → rest ≡ (ok others, more)
            → AllInstalled manifest running names others more)
        → after_one ext site first rest ≡ (ok extensions, logs)
        → AllInstalled manifest running (name ∷ names) extensions logs
    unfolding after_one collected
    after_one-AllInstalled name names (err e, log) rest extensions logs f r h =
        absurd (failed (ap (λ (p : Outcome ext site). p.0) h))
      where
        failed : ◌≡◌ {A = BootstrapResult (List InstalledExtension)} (err e) (ok extensions) → ⊥
        failed k = cc
    after_one-AllInstalled name names (ok extension, log) (err e, more) extensions logs f r h =
        absurd (failed (ap (λ (p : Outcome ext site). p.0) h))
      where
        failed : ◌≡◌ {A = BootstrapResult (List InstalledExtension)} (err e) (ok extensions) → ⊥
        failed k = cc
    after_one-AllInstalled name names (ok extension, log) (ok others, more) extensions logs f r h =
        let same_log : log ∷ more ≡ logs = ap (λ (p : Outcome ext site). p.1) h in
        let same : extension ∷ others ≡ extensions =
          all_of (ap (λ (p : Outcome ext site). p.0) h) in
        subst (λ es. AllInstalled manifest running (name ∷ names) es logs) same
          (subst (AllInstalled manifest running (name ∷ names) (extension ∷ others)) same_log
            (f extension log refl, r others more refl))
      where
        all_of :
            ◌≡◌ {A = BootstrapResult (List InstalledExtension)}
              (ok (extension ∷ others))
              (ok extensions)
            → extension ∷ others ≡ extensions
        all_of k = cc
