-- ===== src/Tests/Requests.antt =====
-- A request for one extension, from the configuration to the files that are written
-- (src/extensions/), with the archive of Tests.Extensions.
use pg_embed_setup_unpriv.Prelude.{
  ◌≡◌, refl, Bool, true, false, none, some, [], ◌∷◌, take, nat_eq, list_eq, ◌==◌, if◌then◌else◌,
}
use pg_embed_setup_unpriv.Prelude.Texts.{Text, codes, split, trim, is_whitespace}
use pg_embed_setup_unpriv.Error.{ok}
use pg_embed_setup_unpriv.Extensions.Name.{new, is_name_byte}
use pg_embed_setup_unpriv.Extensions.Install.{relatives}
use pg_embed_setup_unpriv.Extensions.Http.{
  Network, response, transport_error, http_get, fetch_with_retry, fetch_loop, after_send, delayed,
  send, of_status, read_body,
}
use pg_embed_setup_unpriv.Extensions.Archive.{Disk, folder, regular, cached, acquire}
use pg_embed_setup_unpriv.Extensions.Archive.Laws.{Acquisition, acquire-Acquisition}
use pg_embed_setup_unpriv.Extensions.Archive.Success.{
  IsWritable, IsServed, Succeeds, acquire-Succeeds,
}
use pg_embed_setup_unpriv.Extensions.Config.{
  ExtensionRequest, PgEnvCfg, path, push_name, named, parse_items, parse_names, filled,
  parse_digest, has_infix, unwrap_or, source_of, source_at, parse_manifest_source, request_of,
  from_config,
}
use pg_embed_setup_unpriv.Extensions.Config.Laws.{IsRequest, from_config-IsRequest}
use pg_embed_setup_unpriv.Extensions.Pipeline.{InstalledExtension, Site}
use pg_embed_setup_unpriv.Tests.Extensions.{
  entries, digest, archive, artifact, planned_files, always, externals, manifest,
}

abbrev disk : Disk
disk = record {
  can_create_dir = true;
  can_lock = true;
  can_remove = true;
  can_create_temp = true;
  can_write = true;
  can_persist = true;
}

-- The second attempt gives the archive.
abbrev network : Network
network = record {
  is_permitted = λ url. true;
  can_build_client = true;
  reply = λ url attempt. if attempt == 1 then transport_error else response 200 (some archive);
}

acquire-Acquisition_example :
    Acquisition digest disk network artifact folder (acquire digest disk network artifact folder)
acquire-Acquisition_example = acquire-Acquisition digest disk network artifact folder

disk-IsWritable : IsWritable digest disk network artifact
disk-IsWritable = record {
  can_create_dir = refl;
  can_lock = refl;
  can_remove = refl;
  can_create_temp = refl;
  can_write = refl;
  can_persist = refl;
}

archive-IsServed : IsServed digest disk network artifact archive
unfolding http_get fetch_with_retry fetch_loop after_send delayed send of_status read_body take
archive-IsServed = record { reply = refl; digest = refl; size = refl }

acquire-Succeeds_example :
    Succeeds digest disk network artifact archive folder
      (acquire digest disk network artifact folder)
acquire-Succeeds_example =
    acquire-Succeeds digest disk network artifact archive folder disk-IsWritable archive-IsServed
      (λ e. cc)

abbrev configuration : PgEnvCfg
configuration = record {
  extensions = some (codes " vector,, pg_trgm ,vector");
  extensions_manifest = some (codes "/m.json");
  extensions_manifest_sha256 = none;
  extensions_cache_dir = none;
}

abbrev requested : ExtensionRequest
requested = record {
  names = codes "vector" ∷ codes "pg_trgm" ∷ [];
  manifest = path (codes "/m.json") none;
  cache_dir = codes "/c";
}

abbrev no_url : Text → Bool
no_url location = false

from_config-computes : from_config no_url (codes "/c") configuration ≡ ok (some requested)
unfolding from_config request_of parse_manifest_source source_at source_of has_infix parse_digest
    filled parse_names parse_items named push_name unwrap_or new is_name_byte list_eq split trim
    take is_whitespace
from_config-computes = refl

from_config-IsRequest_example : IsRequest no_url (codes "/c") configuration requested
from_config-IsRequest_example =
    from_config-IsRequest no_url (codes "/c") configuration requested from_config-computes

abbrev site : Site externals
site = record {
  of_bytes = digest;
  decode = λ bytes. some manifest;
  read_file = λ file. some (7 ∷ []);
  net = network;
  disk = disk;
  entry = λ a. regular (some archive);
  archive = λ a. some archive;
  entries = entries;
  write_file = always;
  running_version = λ install_dir. ok (17, 4);
  compile_target = codes "linux";
}

abbrev one_name : ExtensionRequest
one_name = record {
  names = codes "vector" ∷ [];
  manifest = path (codes "/m.json") (some (codes "digest"));
  cache_dir = codes "/c";
}

abbrev vector : InstalledExtension
vector = record {
  name = codes "vector";
  version = codes "0.8.0";
  postgresql = codes "17.4.0";
  target = codes "linux";
  archive_sha256 = codes "digest";
  origin = cached;
  files = relatives planned_files;
}
