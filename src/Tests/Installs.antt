-- ===== src/Tests/Installs.antt =====
-- A plan of an installation, its preconditions and its verification on a concrete machine.
use agent_permission_guard.Base.Outcome.{ok}
use agent_permission_guard.Base.{
  if◌then◌else◌, Text, codes, text_eq, text_mem, sort_by, ◌≡◌, refl, ◌⊎◌, true, false, Option, none,
  some, [], ◌∷◌, ◌++◌,
}
use agent_permission_guard.Json.{Value, text, object, end, entry}
use agent_permission_guard.Audit.Chain.Tampering.{Collision}
use agent_permission_guard.Install.{npm, InstallRequest, PackageMetadata}
use agent_permission_guard.Install.Machine.{Stat, Machine, Platform}
use agent_permission_guard.Install.Plan.{PlanBody, Plan}
use agent_permission_guard.Install.Planner.{Environment, create}
use agent_permission_guard.Install.Verifier.{
  validate_install_plan_preconditions, verified, Verification, verify_install_execution,
}
use agent_permission_guard.Install.Verifier.Fresh.{create-validate}
use agent_permission_guard.Install.Verifier.Unchanged.{IsUnchanged, create-validate-IsUnchanged}
use agent_permission_guard.Install.Verifier.Recorded.{IsListed, verify-IsListed}

-- 64 units, which stand for 64 bytes.
abbrev some_bytes : Text
some_bytes = codes "AAAAAAAAAAAAAAAAAAAAAAAAAAAAAAAAAAAAAAAAAAAAAAAAAAAAAAAAAAAAAAAA"

abbrev some_integrity : Text
some_integrity = codes "sha512-" ++ some_bytes

abbrev some_lockfile : Value
some_lockfile = object (
    entry (codes "packages")
      (object (
        entry (codes "node_modules/x")
          (object (
            entry (codes "version") (text (codes "1.2.3"))
              (entry (codes "integrity") (text some_integrity) end)))
          end))
      end)

-- Digests that are the text, and a parser that reads every file as the lockfile.
abbrev test_platform : Platform
test_platform = record {
  join = λ s t. s ++ 47 ∷ t;
  sha256 = λ s. s;
  stringify = λ v. codes "{}";
  parse_json = λ s. some some_lockfile;
  parse_date = λ s. some 1000;
  parse_url = λ s. some (record {
    protocol = codes "https:";
    username = [];
    password = [];
    search = [];
    hash = [];
    printed = s;
  });
  decode_base64 = λ s. s;
  encode_base64 = λ s. s;
  lower_case = λ s. s;
}

abbrev a_file : Stat
a_file = record { is_file = true; is_directory = false; size = 9; device = 1; inode = 2 }

abbrev a_directory : Stat
a_directory = record { is_file = false; is_directory = true; size = 0; device = 1; inode = 3 }

-- A project with a package.json, beside npm and node.
abbrev test_stat : Text → Option Stat
test_stat path =
    if text_eq path (codes "/p")
    then some a_directory
    else if text_mem path (codes "/p/package.json" ∷ codes "/b/npm" ∷ codes "/b/node" ∷ [])
    then some a_file
    else none

abbrev test_machine : Machine
test_machine = record {
  stat = test_stat;
  real_path = λ s. some s;
  read_file = λ s. some s;
  is_executable = λ s. true;
}

abbrev test_environment : Environment
test_environment = record {
  path = some (codes "/b");
  path_ext = none;
  is_windows = false;
  delimiter = 58;
}

abbrev test_request : InstallRequest
test_request = record {
  runner = npm;
  package_name = codes "x";
  requested_specifier = codes "latest";
  options = codes "--save-exact" ∷ [];
  working_directory = codes "/p";
}

abbrev test_metadata : PackageMetadata
test_metadata = record {
  package_name = codes "x";
  version = codes "1.2.3";
  registry = codes "https://r/";
  observed_at = codes "t";
  lifecycle_scripts = [];
  tarball_url = some (codes "https://r/x.tgz");
  integrity = some some_integrity;
  executable_bins = none;
  advisories = [];
  possible_typosquat = false;
  package_is_new = false;
  publisher_is_new = false;
  repository_missing = false;
  provenance_inconsistent = false;
  mutable_source = false;
  evidence_complete = true;
}

abbrev test_body : PlanBody
test_body = record {
  runner = npm;
  executable = record { path = codes "/b/npm"; sha256 = codes "/b/npm" };
  runtime_executable = record { path = codes "/b/node"; sha256 = codes "/b/node" };
  environment_path = codes "/b";
  arguments =
      codes "install"
      ∷ codes "--no-audit"
      ∷ codes "--no-fund"
      ∷ codes "--registry=https://r/"
      ∷ codes "--save-exact"
      ∷ codes "x@1.2.3"
      ∷ [];
  package_name = codes "x";
  original_specifier = codes "latest";
  resolved_version = codes "1.2.3";
  tarball_url = codes "https://r/x.tgz";
  integrity = some_integrity;
  executable_bin = none;
  options = codes "--save-exact" ∷ [];
  working_directory = codes "/p";
  working_directory_device = 1;
  working_directory_inode = 3;
  registry = codes "https://r/";
  metadata_observed_at = codes "t";
  lifecycle_scripts = [];
  timeout_ms = 60000;
  before_files =
      record { relative_path = codes "package.json"; sha256 = some (codes "/p/package.json") }
      ∷ record { relative_path = codes "package-lock.json"; sha256 = none }
      ∷ record { relative_path = codes "npm-shrinkwrap.json"; sha256 = none }
      ∷ [];
}

abbrev test_plan : Plan
test_plan = record { plan_hash = codes "{}"; body = test_body }

test-made :
    create test_platform test_machine test_environment (some 2000) test_request test_metadata 60000
    ≡ ok test_plan
unfolding create sort_by
test-made = refl

create-validate_example :
    validate_install_plan_preconditions test_platform test_machine test_plan ≡ ok tt
create-validate_example =
    create-validate test_platform test_machine (λ s t h. refl) test_environment (some 2000)
      test_request test_metadata 60000 test_plan test-made

test-passes : validate_install_plan_preconditions test_platform test_machine test_plan ≡ ok tt
unfolding validate_install_plan_preconditions text_mem
test-passes = refl

create-validate-IsUnchanged_example :
    Collision test_platform.sha256 ⊎ IsUnchanged test_platform test_machine test_machine test_plan
create-validate-IsUnchanged_example =
    create-validate-IsUnchanged test_platform test_machine test_machine test_environment (some 2000)
      test_request test_metadata 60000 test_plan test-made test-passes

abbrev test_verification : Verification
test_verification = record {
  status = verified;
  observed = record { exact_package_version = true; approved_integrity = true };
  changed_files = [];
  reason_codes = [];
}

test-verified :
    verify_install_execution test_platform test_machine test_plan true ≡ ok test_verification
unfolding verify_install_execution text_mem
test-verified = refl

verify-IsListed_example :
    (true ≡ true)
    × (test_plan.body.runner ≡ npm)
    × IsListed test_platform test_machine test_plan.body
verify-IsListed_example =
    verify-IsListed test_platform test_machine test_plan true test_verification test-verified refl
