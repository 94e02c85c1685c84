-- ===== src/Install/Machine.antt =====
-- What the planner (install/execution-plan.ts) and the verifier (install/verifier.ts) see of the
-- machine, and `snapshotKnownInstallFiles`. The state of the files is the same throughout one call.
use agent_permission_guard.Base.Outcome.{Outcome, ok, throws, refuse, ◌>>=◌, ◌>>◌}
use agent_permission_guard.Base.{
  ltb, Text, codes, text_eq, ℕ, Bool, true, false, ◌&&◌, ◌||◌, not, Option, none, some, List, [],
  ◌∷◌,
}
use agent_permission_guard.Json.{Value}

-- What `stat` says of a file or directory.
pub record Stat : Type 0 where
  pub is_file : Bool
  pub is_directory : Bool
  pub size : ℕ
  pub device : ℕ
  pub inode : ℕ

-- `stat`, `realpath`, `readFile` and `access` of node:fs/promises, which reject with `none` or `false`.
pub record Machine : Type 0 where
  pub stat : Text → Option Stat
  pub real_path : Text → Option Text
  pub read_file : Text → Option Text
  pub is_executable : Text → Bool

-- A URL as `new URL` parses it, and as `toString` prints it.
pub record Url : Type 0 where
  pub protocol : Text
  pub username : Text
  pub password : Text
  pub search : Text
  pub hash : Text
  pub printed : Text

-- `join` of node:path, SHA-256 of bytes in hexadecimal, JSON.stringify, JSON.parse of UTF-8 bytes, Date.parse
-- in milliseconds, `new URL`, base64 and String.prototype.toLowerCase.
pub record Platform : Type 0 where
  pub join : Text → Text → Text
  pub sha256 : Text → Text
  pub stringify : Value → Text
  pub parse_json : Text → Option Value
  pub parse_date : Text → Option ℕ
  pub parse_url : Text → Option Url
  pub decode_base64 : Text → List ℕ
  pub encode_base64 : List ℕ → Text
  pub lower_case : Text → Text

-- The errors of the planner and the verifier. `io_failed` is what `stat`, `realpath` or `readFile` throws.
pub data PlanError : Type 0 where
  io_failed unsafe_snapshot : PlanError
  timeout_out_of_range metadata_mismatch unsupported_options evidence_expired : PlanError
  url_missing url_invalid url_unsafe integrity_invalid : PlanError
  not_a_directory project_npmrc no_package_json : PlanError
  no_path no_executable no_binary ambiguous_binary : PlanError
  plan_identity directory_changed executable_changed files_changed npmrc_appeared : PlanError

abbrev pub Planned {ℓ} : Type ℓ → Type ℓ
Planned A = Outcome PlanError A

abbrev pub or_failed {ℓ} : {A : Type ℓ} → PlanError → Option A → Planned A
or_failed e none = throws e
or_failed e (some a) = ok a

abbrev pub is_none : {A : Type 0} → Option A → Bool
is_none none = true
is_none (some a) = false

-- `InstallFileSnapshot`; a file that exists has a hash.
pub record Snapshot : Type 0 where
  pub relative_path : Text
  pub sha256 : Option Text

abbrev pub is_digest : Option Text → Option Text → Bool
is_digest none none = true
is_digest (some a) (some b) = text_eq a b
is_digest _ _ = false

-- Whether JSON.stringify prints the same.
abbrev pub is_snapshot : Snapshot → Snapshot → Bool
is_snapshot a b = text_eq a.relative_path b.relative_path && is_digest a.sha256 b.sha256

unfoldable pub are_snapshots : List Snapshot → List Snapshot → Bool
unfolding text_eq
are_snapshots [] [] = true
are_snapshots (x ∷ xs) (y ∷ ys) = is_snapshot x y && are_snapshots xs ys
are_snapshots _ _ = false

-- `KNOWN_FILES`
abbrev pub known_files : List Text
known_files = codes "package.json" ∷ codes "package-lock.json" ∷ codes "npm-shrinkwrap.json" ∷ []

module _ (p : Platform) (m : Machine) where
  -- The snapshot of a file, from its `stat`.
  abbrev pub snapshot_of : Text → Text → Option Stat → Planned Snapshot
  snapshot_of name path none = ok (record { relative_path = name; sha256 = none })
  snapshot_of name path (some s) = do
    refuse (not s.is_file || ltb 5000000 s.size) unsafe_snapshot
    bytes ← or_failed io_failed (m.read_file path)
    ok (record { relative_path = name; sha256 = some (p.sha256 bytes) })

  unfoldable pub snapshots : Text → List Text → Planned (List Snapshot)
  snapshots directory [] = ok []
  snapshots directory (name ∷ names) = do
    one ← snapshot_of name (p.join directory name) (m.stat (p.join directory name))
    rest ← snapshots directory names
    ok (one ∷ rest)

  -- `snapshotKnownInstallFiles`
  unfoldable pub snapshot_known_install_files : Text → Planned (List Snapshot)
  unfolding snapshots
  snapshot_known_install_files directory = snapshots directory known_files
