-- ===== src/Policy/Live.antt =====
-- policy/live-controller.ts and `parsePolicyYaml` of policy/loader.ts: the policy in memory, its file,
-- and the update of both. The YAML reader with the shape of the document, and SHA-256, are parameters.
-- The file system is the content of the policy's file and of the temporary files beside it; `Writing`
-- says which of the calls on it throw. A source has no lone
-- surrogates, which writing it as UTF-8 would replace. Another process may write between two updates, not within one.
pub mod Updates
use agent_permission_guard.Base.{
  ltb, if◌then◌else◌, Text, text_eq, utf8_length, ℕ, ◌*◌, Bool, true, false, ◌&&◌, not, Option,
  none, some, List, ◌∷◌,
}
use agent_permission_guard.Policy.Schema.{PolicyDocument, is_valid_document}

-- What the calls of one update on the file system do.
pub record Writing : Type 0 where
  pub reads : Bool
  pub opens : Bool
  pub writes : Bool
  pub syncs : Bool
  pub closes : Bool
  pub renames : Bool
  pub unlinks : Bool
  -- What a write that throws has left.
  pub partial : Text

pub record Disk : Type 0 where
  pub file : Text
  pub temporaries : List Text

pub record Controller : Type 0 where
  pub policy : PolicyDocument
  pub source : Text
  pub revision : Text

-- `PolicyView`
pub record PolicyView : Type 0 where
  pub source : Text
  pub revision : Text

pub data UpdateOutcome : Type 0 where
  updated : PolicyView → UpdateOutcome
  conflict_in_memory conflict_on_disk invalid_policy io_failed : UpdateOutcome

pub record Updated : Type 0 where
  pub outcome : UpdateOutcome
  pub controller : Controller
  pub disk : Disk

abbrev pub checked : Option PolicyDocument → Option PolicyDocument
checked none = none
checked (some p) = if is_valid_document p then some p else none

abbrev pub get_view : Controller → PolicyView
get_view c = record { source = c.source; revision = c.revision }

abbrev pub get_approval_ttl_ms : Controller → ℕ
get_approval_ttl_ms c = c.policy.approval_ttl_seconds * 1000

-- The `finally` that unlinks the temporary file, or leaves it with its content.
abbrev pub cleaned : Writing → Text → Disk → Disk
cleaned w left d = if w.unlinks then d else record d { temporaries = left ∷ d.temporaries }

-- From the temporary file to the rename: whether it threw, and the disk behind it.
unfoldable pub replace_file : Writing → Text → Disk → Bool × Disk
replace_file w source d =
    if not w.opens
    then (false, d)
    else if not w.writes
    then (false, cleaned w w.partial d)
    else if not (w.syncs && w.closes && w.renames)
    then (false, cleaned w source d)
    else (true, record d { file = source })

unfoldable pub parse_policy_yaml : (Text → Option PolicyDocument) → Text → Option PolicyDocument
unfolding is_valid_document utf8_length
parse_policy_yaml read_yaml source =
    if ltb 1048576 (utf8_length source) then none else checked (read_yaml source)

module _ (read_yaml : Text → Option PolicyDocument) (hash_source : Text → Text) where
  abbrev loaded : Text → Option PolicyDocument → Option Controller
  loaded source none = none
  loaded source (some p) =
      some (record { policy = p; source = source; revision = hash_source source })

  -- The constructor, on a path that is a regular file or not.
  unfoldable pub open_controller : Bool → Disk → Option Controller
  unfolding parse_policy_yaml
  open_controller is_regular d =
      if is_regular then loaded d.file (parse_policy_yaml read_yaml d.file) else none

  abbrev pub installed : Controller → Text → PolicyDocument → Bool × Disk → Updated
  installed c source p (false, d) = record { outcome = io_failed; controller = c; disk = d }
  installed c source p (true, d) =
      let next : Controller = record {
        policy = p;
        source = source;
        revision = hash_source source;
      } in
      record { outcome = updated (get_view next); controller = next; disk = d }

  abbrev pub refused : UpdateOutcome → Controller → Disk → Updated
  refused o c d = record { outcome = o; controller = c; disk = d }

  abbrev pub update_parsed : Writing → Text → Controller → Disk → Option PolicyDocument → Updated
  update_parsed w source c d none = refused invalid_policy c d
  update_parsed w source c d (some p) =
      if not w.reads
      then refused io_failed c d
      else if not (text_eq (hash_source d.file) c.revision)
      then refused conflict_on_disk c d
      else installed c source p (replace_file w source d)

  unfoldable pub update : Writing → Text → Text → Controller → Disk → Updated
  unfolding parse_policy_yaml replace_file
  update w source expected c d =
      if not (text_eq expected c.revision)
      then refused conflict_in_memory c d
      else update_parsed w source c d (parse_policy_yaml read_yaml source)
