-- ===== src/Install/Parser/Requests.antt =====
-- What a request that the parser accepts has in it.
use agent_permission_guard.Base.{
  sort_by, mem-sort, sort-IsSorted, text_compare-IsOrder, In-All, All-In, refl, sort_by, In-All,
  Bool, ltb, Bool-cases, or-false, not-not, not-below, length, any, all, All, All-append, Text,
  codes, text_mem, IsSorted, text_compare, is_empty_text, has_unit, begins_with, ◌≤◌, ◌≡◌, subst,
  inl, inr, true, false, ◌&&◌, ◌||◌, not, List, [], ◌∷◌,
}
use agent_permission_guard.Base.Outcome.{ok, refuse-eq-ok, bind-eq-ok, ok-injective}
use agent_permission_guard.Install.{Runner, InstallRequest}
use agent_permission_guard.Install.Parser.{
  only_target, relative_directory, parse_install_request, unsafe_argument, unsupported_option,
  not_a_registry_name, local_or_url, invalid_package_name, invalid_version_or_tag, is_unsafe,
  is_package_name, is_specifier_unit, has_source_prefix, is_scoped, separator_of, split_at,
  parse_registry_package_spec, supported_options, Tokens, add_token, add_tokens,
}

abbrev pub IsSupported : Runner → Text → Type 0
IsSupported runner o = text_mem o (supported_options runner) ≡ true

add_token-IsSupported :
    (runner : Runner) (token : Text) (s t : Tokens)
    → All (IsSupported runner) s.options
    → add_token runner token s ≡ ok t
    → All (IsSupported runner) t.options
unfolding add_token
add_token-IsSupported runner token s t v h =
    let (_, h1) = refuse-eq-ok (is_empty_text token || any is_unsafe token) unsafe_argument _ h in
    elim (Bool-cases (begins_with (codes "-") token)) [
      | inr e ↦
          let h2 = rw e at h1 in
          subst (λ (x : Tokens). All (IsSupported runner) x.options) (ok-injective h2) v
      | inl e ↦
          let h2 = rw e at h1 in
          let (known, h3) =
            refuse-eq-ok (not (text_mem token (supported_options runner))) unsupported_option _
              h2 in
          subst (λ (x : Tokens). All (IsSupported runner) x.options) (ok-injective h3)
            (elim (Bool-cases (text_mem token s.options)) [
              | inl m ↦ rw m v
              | inr m ↦
                  rw m
                    (All-append (IsSupported runner) s.options (token ∷ []) v (not-not _ known, tt))
            ])
    ]

add_tokens-IsSupported :
    (runner : Runner) (ts : List Text) (s t : Tokens)
    → All (IsSupported runner) s.options
    → add_tokens runner ts s ≡ ok t
    → All (IsSupported runner) t.options
unfolding add_tokens
add_tokens-IsSupported runner [] s t v h =
    subst (λ (x : Tokens). All (IsSupported runner) x.options) (ok-injective h) v
add_tokens-IsSupported runner (token ∷ ts) s t v h =
    let (next, one, rest) = bind-eq-ok (add_token runner token s) _ h in
    add_tokens-IsSupported runner ts next t (add_token-IsSupported runner token s next v one) rest

-- What holds of a request.
pub record IsClean (runner : Runner) (r : InstallRequest) : Type 0 where
  pub supported : All (IsSupported runner) r.options
  pub sorted : IsSorted text_compare r.options
  pub named : is_package_name r.package_name ≡ true
  pub short : length r.package_name ≤ 214
  pub specified : all is_specifier_unit r.requested_specifier ≡ true
  pub some_unit : is_empty_text r.requested_specifier ≡ false

spec-checked :
    (target name specifier : Text)
    → parse_registry_package_spec target ≡ ok (name, specifier)
    → (is_package_name name ≡ true)
      × (length name ≤ 214)
      × (all is_specifier_unit specifier ≡ true)
      × (is_empty_text specifier ≡ false)
unfolding parse_registry_package_spec
spec-checked target name specifier h =
    let (_, h1) =
      refuse-eq-ok (ltb 343 (length target) || (has_unit 0x2f target && not (is_scoped target)))
        not_a_registry_name _ h in
    let (_, h2) =
      refuse-eq-ok
        (has_source_prefix target
          || begins_with (codes ".") target
          || begins_with (codes "/") target)
        local_or_url _ h1 in
    let parts = split_at target (separator_of target) in
    let (a, h3) =
      refuse-eq-ok (ltb 214 (length parts.0) || not (is_package_name parts.0)) invalid_package_name
        _ h2 in
    let (b, h4) =
      refuse-eq-ok
        (is_empty_text parts.1 || ltb 128 (length parts.1) || not (all is_specifier_unit parts.1))
        invalid_version_or_tag _ h3 in
    let (long, bad) = or-false _ (not (is_package_name parts.0)) a in
    let (empty, odd) = or-false _ (not (all is_specifier_unit parts.1)) b in
    subst
      (λ (p : Text × Text).
        (is_package_name p.0 ≡ true)
        × (length p.0 ≤ 214)
        × (all is_specifier_unit p.1 ≡ true)
        × (is_empty_text p.1 ≡ false))
      (ok-injective h4)
      (
        not-not _ bad,
        not-below _ _ long,
        not-not _ odd,
        (or-false (is_empty_text parts.1) _ empty).0,
      )

-- A request that is accepted has only options that the runner supports, in sorted order, a package name
-- of the form that the parser allows and of at most 214 units, and a specifier of allowed units that is
-- not empty; its directory is absolute and the one given.
pub parse_install_request-IsClean :
    (is_absolute : Text → Bool) (runner : Runner) (argv : List Text) (directory : Text)
    (r : InstallRequest)
    → parse_install_request is_absolute runner argv directory ≡ ok r
    → IsClean runner r × (is_absolute directory ≡ true) × (r.working_directory ≡ directory)
unfolding parse_install_request
parse_install_request-IsClean is_absolute runner argv directory r h =
    let (here, h1) = refuse-eq-ok (not (is_absolute directory)) relative_directory _ h in
    let (tokens, read, h2) =
      bind-eq-ok (add_tokens runner argv (record { options = []; targets = [] })) _ h1 in
    let (target, _, h3) = bind-eq-ok (only_target tokens.targets) _ h2 in
    let ((name, specifier), found, h4) = bind-eq-ok (parse_registry_package_spec target) _ h3 in
    let (named, short, specified, some_unit) = spec-checked target name specifier found in
    let supported =
      add_tokens-IsSupported runner argv (record { options = []; targets = [] }) tokens tt read in
    subst
      (λ (x : InstallRequest).
        IsClean runner x × (is_absolute directory ≡ true) × (x.working_directory ≡ directory))
      (ok-injective h4)
      (
        record {
          supported = In-All (IsSupported runner) (sort_by text_compare tokens.options) (λ o m.
              All-In (IsSupported runner) tokens.options supported
                ((mem-sort text_compare o tokens.options).0 m));
          sorted = sort-IsSorted text_compare text_compare-IsOrder tokens.options;
          named = named;
          short = short;
          specified = specified;
          some_unit = some_unit;
        },
        not-not _ here,
        refl,
      )
