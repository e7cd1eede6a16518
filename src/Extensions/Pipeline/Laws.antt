-- ===== src/Extensions/Pipeline/Laws.antt =====
-- What an installation of all extensions of a request has checked, when it succeeds.
use pg_embed_setup_unpriv.Prelude.{◌≡◌, List, nat_eq, list_eq}
use pg_embed_setup_unpriv.Prelude.Texts.{Text}
use pg_embed_setup_unpriv.Error.{ok}
use pg_embed_setup_unpriv.Extensions.Manifest.{Externals, Manifest}
use pg_embed_setup_unpriv.Extensions.Install.{Log}
use pg_embed_setup_unpriv.Extensions.Config.{ExtensionRequest}
use pg_embed_setup_unpriv.Extensions.Pipeline.{InstalledExtension, Site}
use pg_embed_setup_unpriv.Extensions.Pipeline.Loading.{Loaded}
use pg_embed_setup_unpriv.Extensions.Pipeline.Each.{AllInstalled}

module _ (ext : Externals) (site : Site ext) where
  -- What a successful installation of a request has checked.
  pub record IsPipeline (request : ExtensionRequest) (install_dir : Text)
      (extensions : List InstalledExtension) (logs : List Log) : Type 0 where
    pub manifest : Manifest
    pub running : ext.Version
    pub loaded : Loaded ext site request.manifest manifest
    pub release : site.running_version install_dir ≡ ok running
    pub all : AllInstalled ext site manifest running request.names extensions logs
