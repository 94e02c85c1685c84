-- ===== src/Install.antt =====
-- The data of install/types.ts and the exact versions of install/service.ts.
pub mod Risk
pub mod Policy
pub mod Service
pub mod Parser
pub mod Machine
pub mod Plan
pub mod Planner
pub mod Verifier
use agent_permission_guard.Base.{
  leb, ◌==◌, if◌then◌else◌, Text, ℕ, Bool, true, false, ◌&&◌, ◌||◌, Option, none, some, List, [],
  ◌∷◌,
}

pub data Runner : Type 0 where
  npm npx : Runner

pub record InstallRequest : Type 0 where
  pub runner : Runner
  pub package_name : Text
  pub requested_specifier : Text
  pub options : List Text
  pub working_directory : Text

pub data AdvisorySeverity : Type 0 where
  low_severity moderate_severity high_severity critical_severity : AdvisorySeverity

pub record Advisory : Type 0 where
  pub id : Text
  pub severity : AdvisorySeverity

pub record PackageMetadata : Type 0 where
  pub package_name : Text
  pub version : Text
  pub registry : Text
  pub observed_at : Text
  pub lifecycle_scripts : List Text
  pub tarball_url : Option Text
  pub integrity : Option Text
  pub executable_bins : Option (List (Text × Text))
  pub advisories : List Advisory
  pub possible_typosquat : Bool
  pub package_is_new : Bool
  pub publisher_is_new : Bool
  pub repository_missing : Bool
  pub provenance_inconsistent : Bool
  pub mutable_source : Bool
  pub evidence_complete : Bool

-- `InstallResolution`; a resolution without metadata has a reason.
pub data Resolution : Type 0 where
  resolved : PackageMetadata → Resolution
  unresolved unavailable contradictory : Text → Resolution

-- The rest behind the longest run of one or more characters of a class.
unfoldable pub skip_all : (ℕ → Bool) → Text → Text
skip_all p [] = []
skip_all p (c ∷ s) = let rest = skip_all p s in if p c then rest else c ∷ s

unfoldable pub skip_run : (ℕ → Bool) → Text → Option Text
unfolding skip_all
skip_run p [] = none
skip_run p (c ∷ s) = if p c then some (skip_all p s) else none

unfoldable pub skip_char : ℕ → Text → Option Text
skip_char c [] = none
skip_char c (d ∷ s) = if d == c then some s else none

-- An optional part: a mark and a run of the class.
unfoldable pub skip_part : ℕ → (ℕ → Bool) → Text → Option Text
unfolding skip_run
skip_part c p [] = some []
skip_part c p (d ∷ s) = if d == c then skip_run p s else some (d ∷ s)

abbrev pub is_digit : ℕ → Bool
is_digit c = leb 48 c && leb c 57

-- `[0-9A-Za-z.-]`
abbrev pub is_version_char : ℕ → Bool
is_version_char c =
    is_digit c || leb 65 c && leb c 90 || leb 97 c && leb c 122 || c == 46 || c == 45

abbrev pub is_end : Option Text → Bool
is_end (some []) = true
is_end _ = false

infixl 5 ◌>>=◌
abbrev pub ◌>>=◌ : Option Text → (Text → Option Text) → Option Text
none >>= f = none
some s >>= f = f s

-- What is left of a text behind an exact version.
unfoldable pub version_rest : Text → Option Text
unfolding skip_run skip_char skip_part
version_rest s = do
  major ← skip_run is_digit s
  first ← skip_char 46 major
  minor ← skip_run is_digit first
  second ← skip_char 46 minor
  patch ← skip_run is_digit second
  pre_release ← skip_part 45 is_version_char patch
  skip_part 43 is_version_char pre_release

-- `EXACT_VERSION.test`: the marks `-` and `+` are not in the digits, and `+` not in the class, so
-- the longest runs are those of the regular expression.
unfoldable pub is_exact_version : Text → Bool
unfolding version_rest
is_exact_version s = is_end (version_rest s)
