-- ===== src/Install/Parser.antt =====
-- install/parser.ts: the request of `install npm` and `install npx`. `isAbsolute` of node:path is a
-- parameter; the texts of the errors are constructors.
pub mod Targets
pub mod Requests
use agent_permission_guard.Base.Outcome.{Outcome, ok, throws, refuse, ◌>>=◌, ◌>>◌}
use agent_permission_guard.Install.{Runner, npm, npx, InstallRequest}
use agent_permission_guard.Base.{
  ltb, leb, ◌==◌, if◌then◌else◌, length, any, all, take, drop, Text, codes, text_mem, sort_by,
  text_compare, split_on, is_empty_text, has_unit, begins_with, ℕ, suc, ◌+◌, ◌-◌, ◌*◌, ◌/◌, ◌^◌,
  ◌<◌, Bool, true, false, ◌&&◌, ◌||◌, not, Option, none, some, List, [], ◌∷◌, ◌++◌, map,
}

-- The reasons of an `InstallParseError`.
pub data ParseError : Type 0 where
  relative_directory unsafe_argument unsupported_option not_one_target : ParseError
  not_a_registry_name local_or_url invalid_package_name invalid_version_or_tag : ParseError

abbrev pub Parsed {ℓ} : Type ℓ → Type ℓ
Parsed A = Outcome ParseError A

-- `UNSAFE_TOKEN`
abbrev pub is_unsafe : ℕ → Bool
is_unsafe c = any (λ d. d == c) (codes ";&|`$<>" ++ 0x0a ∷ 0x0d ∷ 0 ∷ [])

abbrev pub is_lower_alnum : ℕ → Bool
is_lower_alnum c = (leb 0x61 c && leb c 0x7a) || (leb 0x30 c && leb c 0x39)

-- `[a-z0-9._-]`
abbrev pub is_name_unit : ℕ → Bool
is_name_unit c = is_lower_alnum c || c == 0x2e || c == 0x5f || c == 0x2d

-- `[a-z0-9][a-z0-9._-]*`
unfoldable pub is_name_part : Text → Bool
is_name_part [] = false
is_name_part (c ∷ s) = is_lower_alnum c && all is_name_unit s

abbrev pub are_two_parts : List Text → Bool
are_two_parts (a ∷ b ∷ []) = is_name_part a && is_name_part b
are_two_parts _ = false

-- `PACKAGE_NAME`
unfoldable pub is_package_name : Text → Bool
unfolding is_name_part split_on
is_package_name [] = false
is_package_name (c ∷ s) =
    if c == 0x40 then are_two_parts (split_on 0x2f s) else is_name_part (c ∷ s)

-- `[a-zA-Z0-9*^~<>=|.+-]`
abbrev pub is_specifier_unit : ℕ → Bool
is_specifier_unit c =
    is_lower_alnum c || (leb 0x41 c && leb c 0x5a) || any (λ d. d == c) (codes "*^~<>=|.+-")

abbrev pub one_further : Option ℕ → Option ℕ
one_further none = none
one_further (some i) = some (suc i)

unfoldable pub index_of : ℕ → Text → Option ℕ
index_of c [] = none
index_of c (d ∷ s) = let rest = index_of c s in if d == c then some 0 else one_further rest

unfoldable pub last_index_of : ℕ → Text → Option ℕ
last_index_of c [] = none
last_index_of c (d ∷ s) = elim (last_index_of c s) [
  | some i ↦ some (suc i)
  | none ↦ if d == c then some 0 else none
]

abbrev pub lower : ℕ → ℕ
lower c = if leb 0x41 c && leb c 0x5a then c + 0x20 else c

-- `/^(?:file|git|https?|github):/i`
unfoldable pub has_source_prefix : Text → Bool
unfolding begins_with
has_source_prefix target =
    any (λ w. begins_with (w ++ 0x3a ∷ []) (map lower target))
      (codes "file" ∷ codes "git" ∷ codes "http" ∷ codes "https" ∷ codes "github" ∷ [])

abbrev pub is_scoped : Text → Bool
is_scoped = begins_with (codes "@")

abbrev pub is_behind : Option ℕ → Option ℕ → Bool
is_behind none j = false
is_behind (some i) none = true
is_behind (some i) (some j) = ltb j i

-- The separator, if there is a specifier behind it.
unfoldable pub separator_of : Text → Option ℕ
unfolding index_of last_index_of begins_with
separator_of target =
    if is_scoped target
    then if is_behind (last_index_of 0x40 target) (index_of 0x2f target)
      then last_index_of 0x40 target
      else none
    else if is_behind (index_of 0x40 target) (some 0)
    then index_of 0x40 target
    else none

abbrev pub split_at : Text → Option ℕ → Text × Text
split_at target none = (target, codes "latest")
split_at target (some i) = (take i target, drop (suc i) target)

unfoldable pub parse_registry_package_spec : Text → Parsed (Text × Text)
unfolding has_source_prefix separator_of is_package_name
parse_registry_package_spec target = do
  refuse (ltb 343 (length target) || (has_unit 0x2f target && not (is_scoped target)))
      not_a_registry_name
  refuse
      (has_source_prefix target || begins_with (codes ".") target || begins_with (codes "/") target)
      local_or_url
  let (name, specifier) = split_at target (separator_of target)
  refuse (ltb 214 (length name) || not (is_package_name name)) invalid_package_name
  refuse
      (is_empty_text specifier
        || ltb 128 (length specifier)
        || not (all is_specifier_unit specifier))
      invalid_version_or_tag
  ok (name, specifier)

-- `NPM_OPTIONS` and `NPX_OPTIONS`
unfoldable pub supported_options : Runner → List Text
supported_options npm = codes "--save-dev" ∷ codes "--save-exact" ∷ codes "--ignore-scripts" ∷ []
supported_options npx = codes "--yes" ∷ []

-- The options and the targets that the loop has collected.
pub record Tokens : Type 0 where
  pub options : List Text
  pub targets : List Text

unfoldable pub add_token : Runner → Text → Tokens → Parsed Tokens
unfolding supported_options begins_with text_mem
add_token runner token s = do
  refuse (is_empty_text token || any is_unsafe token) unsafe_argument
  if begins_with (codes "-") token
      then refuse (not (text_mem token (supported_options runner))) unsupported_option
        >> ok (record s {
          options = if text_mem token s.options then s.options else s.options ++ token ∷ [];
        })
      else ok (record s { targets = s.targets ++ token ∷ [] })

unfoldable pub add_tokens : Runner → List Text → Tokens → Parsed Tokens
unfolding add_token
add_tokens runner [] s = ok s
add_tokens runner (t ∷ ts) s = add_token runner t s >>= add_tokens runner ts

abbrev pub only_target : List Text → Parsed Text
only_target (t ∷ []) = ok t
only_target _ = throws not_one_target

unfoldable pub parse_install_request :
    (Text → Bool) → Runner → List Text → Text → Parsed InstallRequest
unfolding add_tokens parse_registry_package_spec
parse_install_request is_absolute runner argv directory = do
  refuse (not (is_absolute directory)) relative_directory
  tokens ← add_tokens runner argv (record { options = []; targets = [] })
  target ← only_target tokens.targets
  (name, specifier) ← parse_registry_package_spec target
  ok (record {
    runner = runner;
    package_name = name;
    requested_specifier = specifier;
    options = sort_by text_compare tokens.options;
    working_directory = directory;
  })
