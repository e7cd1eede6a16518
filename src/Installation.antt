-- ===== src/Installation.antt =====
-- src/cluster/installation.rs: which directory an installation is taken from (the port in Port). Versions and version
-- requirements are the semver crate's, whose parser, order and `matches` are parameters. Directory
-- entries come with what the file system says of them, in the order in which it lists them.
pub mod Laws
pub mod Port
use pg_embed_setup_unpriv.Prelude.{
  Bool, true, false, not, ◌&&◌, ◌||◌, Option, none, some, List, [], ◌∷◌, if◌then◌else◌,
}
use pg_embed_setup_unpriv.Prelude.Texts.{Text}
use pg_embed_setup_unpriv.Prelude.Sorting.{sort_by, pop, text_leb}

-- The version type, its parser and its order.
pub record Semver (V : Type 0) : Type 0 where
  pub parse : Text → Option V
  pub leb : V → V → Bool

-- `name` is the file name, if it is UTF-8; siblings are ordered by the bytes of their paths.
pub record Entry : Type 0 where
  pub is_dir : Bool
  pub has_bin : Bool
  pub name : Option Text
  pub path : Text

pub record Settings (V : Type 0) : Type 0 where
  pub installation_dir : Text
  pub trust_installation_dir : Bool
  pub matches : V → Bool

pub data ExecutionPrivileges : Type 0 where
  root unprivileged : ExecutionPrivileges

pub data Outcome : Type 0 where
  direct trusted versioned unversioned not_found : Outcome

abbrev pub Candidate : Type 0 → Type 0
Candidate V = Option V × Text

module _ {V : Type 0} (semver : Semver V) where
  -- `Option<Version>::cmp`: none comes first.
  unfoldable pub option_leb : Option V → Option V → Bool
  option_leb none _ = true
  option_leb (some a) none = false
  option_leb (some a) (some b) = semver.leb a b

  -- `left.0.cmp(&right.0).then_with(|| left.1.cmp(&right.1))` is not `Greater`.
  unfoldable pub candidate_leb : Candidate V → Candidate V → Bool
  candidate_leb (a, p) (b, q) = option_leb a b && (not (option_leb b a) || text_leb p q)

  module _ (matches : V → Bool) where
    unfoldable pub versioned_candidate : Text → Option V → Option (Candidate V)
    versioned_candidate path none = some (none, path)
    versioned_candidate path (some version) =
        if matches version then some (some version, path) else none

    unfoldable pub named_candidate : Text → Option Text → Option (Candidate V)
    named_candidate path none = some (none, path)
    named_candidate path (some name) = versioned_candidate path (semver.parse name)

    -- An entry that cannot be read is none.
    unfoldable pub candidate : Option Entry → Option (Candidate V)
    candidate none = none
    candidate (some entry) =
        if entry.is_dir && entry.has_bin then named_candidate entry.path entry.name else none

    unfoldable pub keep_some : Option (Candidate V) → List (Candidate V) → List (Candidate V)
    keep_some none rest = rest
    keep_some (some c) rest = c ∷ rest

    unfoldable pub candidates_of : List (Option Entry) → List (Candidate V)
    candidates_of [] = []
    candidates_of (entry ∷ entries) = keep_some (candidate entry) (candidates_of entries)

    -- None stands for a directory that cannot be listed.
    unfoldable pub eligible_candidates : Option (List (Option Entry)) → List (Candidate V)
    eligible_candidates none = []
    eligible_candidates (some entries) = candidates_of entries

    unfoldable pub outcome_of : Option (Candidate V) → Option Text × Outcome
    outcome_of (some (some version, path)) = (some path, versioned)
    outcome_of (some (none, path)) = (some path, unversioned)
    outcome_of none = (none, not_found)

    unfoldable pub select_versioned_installation :
        Option (List (Option Entry)) → Option Text × Outcome
    select_versioned_installation listing =
        outcome_of (pop (sort_by candidate_leb (eligible_candidates listing)))

  -- `resolve_installed_dir`, with its outcome for the log.
  unfoldable pub resolve_installed_dir :
      Settings V → Bool → Option (List (Option Entry)) → Option Text × Outcome
  resolve_installed_dir settings has_bin listing =
      if has_bin
      then (some settings.installation_dir, direct)
      else if settings.trust_installation_dir
      then (some settings.installation_dir, trusted)
      else select_versioned_installation settings.matches listing

unfoldable pub moved : {V : Type 0} → Settings V → Option Text → Settings V
moved settings none = settings
moved settings (some installed_dir) = record settings { installation_dir = installed_dir }

-- `resolved` is what `resolve_installed_dir` finds.
unfoldable pub refresh_worker_installation_dir :
    {V : Type 0} → ExecutionPrivileges → Option Text → Settings V → Settings V
refresh_worker_installation_dir unprivileged resolved settings = settings
refresh_worker_installation_dir root resolved settings = moved settings resolved
