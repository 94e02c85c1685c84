-- ===== src/Install/Planner.antt =====
-- install/execution-plan.ts: `LocalInstallExecutionPlanner.create`.
pub mod Made
use agent_permission_guard.Base.Outcome.{ok, throws, refuse, ◌>>=◌, ◌>>◌}
use agent_permission_guard.Base.{
  ltb, ◌==◌, if◌then◌else◌, length, any, drop, Text, codes, text_eq, text_mem, sort_by,
  text_compare, split_on, is_empty_text, ℕ, suc, ◌-◌, Bool, true, false, ◌&&◌, ◌||◌, not, Option,
  none, some, List, [], ◌∷◌, ◌++◌, map,
}
use agent_permission_guard.Install.{
  Runner, npm, npx, InstallRequest, PackageMetadata, is_exact_version, skip_run,
}
use agent_permission_guard.Install.Parser.{is_package_name, last_index_of, supported_options}
use agent_permission_guard.Stage.Integrity.{
  integrity_invalid, behind_prefix, is_base64_char, is_padding,
}
use agent_permission_guard.Install.Machine.{
  Stat, Machine, Platform, io_failed, timeout_out_of_range, metadata_mismatch, unsupported_options,
  evidence_expired, url_missing, url_invalid, url_unsafe, integrity_invalid, not_a_directory,
  project_npmrc, no_package_json, no_path, no_executable, no_binary, ambiguous_binary, Planned,
  or_failed, is_none, snapshot_known_install_files,
}
use agent_permission_guard.Install.Plan.{Executable, PlanBody, Plan, runner_name, hash_of}

-- The environment, with the delimiter of its PATH, and whether the platform is win32.
pub record Environment : Type 0 where
  pub path : Option Text
  pub path_ext : Option Text
  pub is_windows : Bool
  pub delimiter : ℕ

-- `new Set(options).size !== options.length`
unfoldable pub has_repeated : List Text → Bool
unfolding text_mem
has_repeated [] = false
has_repeated (o ∷ os) = text_mem o os || has_repeated os

abbrev pub sort_texts : List Text → List Text
sort_texts = sort_by text_compare

unfoldable pub texts_eq : List Text → List Text → Bool
unfolding text_eq
texts_eq [] [] = true
texts_eq (s ∷ ss) (t ∷ ts) = text_eq s t && texts_eq ss ts
texts_eq _ _ = false

-- `validateOptions`
unfoldable pub validate_options : Runner → List Text → Planned (Unit {0})
unfolding supported_options text_mem has_repeated texts_eq
validate_options runner options =
    refuse
      (any (λ o. not (text_mem o (supported_options runner))) options
        || has_repeated options
        || not (texts_eq options (sort_texts options)))
      unsupported_options

-- The name of a package without its scope.
abbrev pub behind_slash : Text → Option ℕ → Text
behind_slash name none = name
behind_slash name (some i) = drop (suc i) name

abbrev pub only_name : List Text → Planned Text
only_name (name ∷ []) = ok name
only_name _ = throws ambiguous_binary

-- `selectExecutableBin`, whose result is none only where there is no bin to select.
unfoldable pub select_executable_bin : Text → Option (List (Text × Text)) → Planned Text
unfolding text_mem last_index_of
select_executable_bin package_name none = throws no_binary
select_executable_bin package_name (some bins) =
    let names = sort_texts (map (λ (b : Text × Text). b.0) bins) in
    let preferred = behind_slash package_name (last_index_of 47 package_name) in
    if text_mem preferred names then ok preferred else only_name names

-- `buildArguments`
unfoldable pub build_arguments :
    InstallRequest → PackageMetadata → Text → Option Text → Planned (List Text)
build_arguments request metadata registry bin = for_runner request.runner bin
  where
    exact : Text
    exact = request.package_name ++ 64 ∷ metadata.version

    for_runner : Runner → Option Text → Planned (List Text)
    for_runner npm bin = ok (
        codes "install"
        ∷ codes "--no-audit"
        ∷ codes "--no-fund"
        ∷ (codes "--registry=" ++ registry)
        ∷ (request.options ++ exact ∷ []))
    for_runner npx none = throws no_binary
    for_runner npx (some b) = ok (
        codes "--yes"
        ∷ (codes "--registry=" ++ registry)
        ∷ (codes "--package=" ++ exact)
        ∷ codes "--"
        ∷ b
        ∷ [])

abbrev pub is_plain_file : Option Stat → Bool
is_plain_file none = false
is_plain_file (some s) = s.is_file

-- `isValidSha512Integrity` of a text that is there
unfoldable pub is_encoded : Platform → Option Text → Bool
unfolding skip_run text_eq
is_encoded p none = false
is_encoded p (some encoded) =
    is_padding (skip_run is_base64_char encoded)
    && length (p.decode_base64 encoded) == 64
    && text_eq (p.encode_base64 (p.decode_base64 encoded)) encoded

unfoldable pub is_valid_sha512_integrity : Platform → Text → Bool
unfolding behind_prefix is_encoded
is_valid_sha512_integrity p value = is_encoded p (behind_prefix (codes "sha512-") value)

-- `validateHttpsUrl`
unfoldable pub validate_https_url : Platform → Option Text → Planned Text
unfolding text_eq
validate_https_url p none = throws url_missing
validate_https_url p (some input) = do
  url ← or_failed url_invalid (p.parse_url input)
  refuse
      (not (text_eq url.protocol (codes "https:"))
        || not (is_empty_text url.username)
        || not (is_empty_text url.password)
        || not (is_empty_text url.search)
        || not (is_empty_text url.hash))
      url_unsafe
  ok url.printed

abbrev pub valid_integrity : Platform → Option Text → Planned Text
valid_integrity p none = throws integrity_invalid
valid_integrity p (some value) =
    refuse (not (is_valid_sha512_integrity p value)) integrity_invalid >> ok value

-- Whether the evidence is from the future or older than five minutes.
abbrev pub is_expired : ℕ → ℕ → Bool
is_expired now observed = ltb now observed || ltb 300000 (now - observed)

module _ (p : Platform) (m : Machine) where
  abbrev pub identity : Text → Option Text → Option Executable
  identity path none = none
  identity path (some bytes) = some (record { path = path; sha256 = p.sha256 bytes })

  -- A candidate for an executable, which is passed over if anything about it fails.
  abbrev pub candidate_file : Text → Option Stat → Option Executable
  candidate_file path none = none
  candidate_file path (some s) =
      if not s.is_file || ltb 20000000 s.size then none else identity path (m.read_file path)

  abbrev pub at_real_path : Option Text → Option Executable
  at_real_path none = none
  at_real_path (some path) = candidate_file path (m.stat path)

  unfoldable pub candidate : Text → Option Executable
  candidate path = if m.is_executable path then at_real_path (m.real_path path) else none

  unfoldable pub first_candidate : List Text → Option Executable
  unfolding candidate
  first_candidate [] = none
  first_candidate (path ∷ paths) = elim (candidate path) [
    | some e ↦ some e
    | none ↦ first_candidate paths
  ]

  -- The names to try, in the order of the directories of the PATH, and in each that of the suffixes.
  unfoldable pub candidate_paths : Text → List Text → List Text → List Text
  candidate_paths name suffixes [] = []
  candidate_paths name suffixes (directory ∷ directories) =
      let rest = candidate_paths name suffixes directories in
      if is_empty_text directory
      then rest
      else map (λ s. p.join directory (name ++ p.lower_case s)) suffixes ++ rest

  abbrev pub default_suffixes : Option Text → Text
  default_suffixes none = codes ".EXE;.CMD;.BAT"
  default_suffixes (some t) = t

  abbrev pub suffixes_of : Environment → List Text
  suffixes_of e = if e.is_windows then split_on 59 (default_suffixes e.path_ext) else [] ∷ []

  -- `resolveExecutableIdentity`
  unfoldable pub resolve_executable_identity : Text → Environment → Planned Executable
  unfolding first_candidate candidate_paths
  resolve_executable_identity name e = do
    path ← or_failed no_path e.path
    or_failed no_executable
        (first_candidate (candidate_paths name (suffixes_of e) (split_on e.delimiter path)))

  abbrev pub bin_of : InstallRequest → PackageMetadata → Runner → Planned (Option Text)
  bin_of request metadata npm = ok none
  bin_of request metadata npx =
      select_executable_bin request.package_name metadata.executable_bins >>= λ b. ok (some b)

  -- A project that npm installs into has a package.json.
  abbrev pub lacks_package_json : Runner → Text → Bool
  lacks_package_json npm directory =
      not (is_plain_file (m.stat (p.join directory (codes "package.json"))))
  lacks_package_json npx directory = false

  -- `create`, with the clock in milliseconds; none is a clock that is not finite.
  unfoldable pub create :
      Environment → Option ℕ → InstallRequest → PackageMetadata → ℕ → Planned Plan
  unfolding is_package_name is_exact_version text_eq validate_options validate_https_url
      is_valid_sha512_integrity resolve_executable_identity build_arguments select_executable_bin
      snapshot_known_install_files hash_of
  create environment clock request metadata timeout_ms = do
    refuse (ltb timeout_ms 1000 || ltb 900000 timeout_ms) timeout_out_of_range
    refuse
        (not (is_package_name request.package_name)
          || not (text_eq request.package_name metadata.package_name)
          || not (is_exact_version metadata.version))
        metadata_mismatch
    validate_options request.runner request.options
    now ← or_failed evidence_expired clock
    observed ← or_failed evidence_expired (p.parse_date metadata.observed_at)
    refuse (is_expired now observed) evidence_expired
    registry ← validate_https_url p (some metadata.registry)
    tarball_url ← validate_https_url p metadata.tarball_url
    integrity ← valid_integrity p metadata.integrity
    directory ← or_failed io_failed (m.real_path request.working_directory)
    stats ← or_failed io_failed (m.stat directory)
    refuse (not stats.is_directory) not_a_directory
    refuse (not (is_none (m.stat (p.join directory (codes ".npmrc"))))) project_npmrc
    refuse (lacks_package_json request.runner directory) no_package_json
    environment_path ← or_failed no_path environment.path
    executable ← resolve_executable_identity (runner_name request.runner) environment
    runtime ← resolve_executable_identity (codes "node") environment
    bin ← bin_of request metadata request.runner
    arguments ← build_arguments request metadata registry bin
    before_files ← snapshot_known_install_files p m directory
    let body : PlanBody = record {
      runner = request.runner;
      executable = executable;
      runtime_executable = runtime;
      environment_path = environment_path;
      arguments = arguments;
      package_name = request.package_name;
      original_specifier = request.requested_specifier;
      resolved_version = metadata.version;
      tarball_url = tarball_url;
      integrity = integrity;
      executable_bin = bin;
      options = request.options;
      working_directory = directory;
      working_directory_device = stats.device;
      working_directory_inode = stats.inode;
      registry = registry;
      metadata_observed_at = metadata.observed_at;
      lifecycle_scripts = metadata.lifecycle_scripts;
      timeout_ms = timeout_ms;
      before_files = before_files;
    }
    ok (record { plan_hash = hash_of p body; body = body })
