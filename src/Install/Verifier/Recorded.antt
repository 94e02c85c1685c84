-- ===== src/Install/Verifier/Recorded.antt =====
-- What a verified installation says of the lockfiles.
use agent_permission_guard.Base.Outcome.{ok, bind-eq-ok, ok-injective}
use agent_permission_guard.Base.{
  Bool-cases, Option-cases, and-true, In, Text, codes, text_eq_iff, ◌≡◌, refl, ap, ◌∙◌, ◌⊎◌, inl,
  inr, Bool, true, false, ◌&&◌, false≢true, Option, none, some, List, [], ◌∷◌, ◌++◌,
}
use agent_permission_guard.Json.{Value, null, bool, number, text, array, object, Fields}
use agent_permission_guard.Install.{Runner, npm, npx}
use agent_permission_guard.Install.Machine.{Machine, Platform, snapshot_known_install_files}
use agent_permission_guard.Install.Plan.{PlanBody, Plan}
use agent_permission_guard.Install.Verifier.{
  verified, Observed, Verification, as_record, property, is_text, changed_files_of, seen_in,
  observed_in, lockfiles, parsed_file, inspect_lockfiles, inspect_lockfile_identity,
  verification_of, verify_install_execution,
}

-- A record has the version and the integrity of the plan.
abbrev pub IsApproved : PlanBody → Option Fields → Type 0
IsApproved b entry_of =
    (property (codes "version") entry_of ≡ some (text b.resolved_version))
    × (property (codes "integrity") entry_of ≡ some (text b.integrity))

-- The entry of the package in a lockfile: below `packages`, or below `dependencies`.
abbrev pub packages_entry : PlanBody → Option Fields → Option Fields
packages_entry b lockfile = as_record (
    property (codes "node_modules/" ++ b.package_name)
      (as_record (property (codes "packages") lockfile)))

abbrev pub dependencies_entry : PlanBody → Option Fields → Option Fields
dependencies_entry b lockfile =
    as_record (property b.package_name (as_record (property (codes "dependencies") lockfile)))

abbrev pub IsListedIn : PlanBody → Option Fields → Type 0
IsListedIn b lockfile =
    IsApproved b (packages_entry b lockfile) ⊎ IsApproved b (dependencies_entry b lockfile)

is_text-text : (o : Option Value) (s : Text) → is_text o s ≡ true → o ≡ some (text s)
is_text-text (some (text t)) s h = ap (λ z. some (text z)) ((text_eq_iff t s).0 h)
is_text-text (some null) s h = absurd (false≢true h)
is_text-text (some (bool b)) s h = absurd (false≢true h)
is_text-text (some (number n)) s h = absurd (false≢true h)
is_text-text (some (array vs)) s h = absurd (false≢true h)
is_text-text (some (object fs)) s h = absurd (false≢true h)
is_text-text none s h = absurd (false≢true h)

some-injective : {a b : Observed} → some a ≡ some b → a ≡ b
some-injective h = cc

seen_in-IsApproved :
    (b : PlanBody) (e : Option Fields) (o : Observed)
    → is_text (property (codes "version") e) b.resolved_version ≡ true
    → some (seen_in b e) ≡ some o
    → o.approved_integrity ≡ true
    → IsApproved b e
seen_in-IsApproved b e o v h i = (
  is_text-text (property (codes "version") e) b.resolved_version v,
  is_text-text (property (codes "integrity") e) b.integrity
      (ap (λ (x : Observed). x.approved_integrity) (some-injective h) ∙ i),
)

observed_in-IsListedIn :
    (b : PlanBody) (lockfile : Option Fields) (o : Observed)
    → observed_in b lockfile ≡ some o
    → o.approved_integrity ≡ true
    → IsListedIn b lockfile
unfolding observed_in
observed_in-IsListedIn b lockfile o h i =
    elim (Bool-cases
      (is_text (property (codes "version") (packages_entry b lockfile)) b.resolved_version)) [
        | inl k ↦ inl (seen_in-IsApproved b (packages_entry b lockfile) o k (rw k at h) i)
        | inr k ↦
            elim (Bool-cases (
              is_text (property (codes "version") (dependencies_entry b lockfile))
                b.resolved_version)) [
                  | inl l ↦
                      inr (
                        seen_in-IsApproved b (dependencies_entry b lockfile) o l (rw (k, l) at h) i)
                  | inr l ↦ let n = rw (k, l) at h in absurd (cc)
                ]
      ]

module _ (p : Platform) (m : Machine) where
  -- The record that a lockfile has been read as.
  abbrev pub lockfile_of : PlanBody → Text → Option Fields
  lockfile_of b name = as_record (parsed_file p m (m.read_file (p.join b.working_directory name)))

  -- A lockfile lists the package with the version and the integrity of the plan.
  abbrev pub IsListed : PlanBody → Type 0
  IsListed b = (name : Text) × In name lockfiles × IsListedIn b (lockfile_of b name)

  inspect-IsListed :
      (b : PlanBody) (names : List Text)
      → (inspect_lockfiles p m b names).approved_integrity ≡ true
      → (name : Text) × In name names × IsListedIn b (lockfile_of b name)
  unfolding inspect_lockfiles
  inspect-IsListed b [] h = absurd (false≢true h)
  inspect-IsListed b (name ∷ names) h = elim (Option-cases (observed_in b (lockfile_of b name))) [
    | inl k ↦
        let (other, i, listed) = inspect-IsListed b names (rw (k, inspect_lockfiles) at h) in
        (other, inr i, listed)
    | inr (o, k) ↦ (
      name,
      inl refl,
      observed_in-IsListedIn b (lockfile_of b name) o k (rw (k, inspect_lockfiles) at h),
    )
  ]

  verified-IsListed :
      (b : PlanBody) (changed : List Text) (completed : Bool) (runner : Runner)
      → (verification_of p m b changed completed runner).status ≡ verified
      → (completed ≡ true) × (runner ≡ npm) × IsListed b
  unfolding inspect_lockfile_identity
  verified-IsListed b changed false runner h = absurd (cc)
  verified-IsListed b changed true npx h = absurd (cc)
  verified-IsListed b changed true npm h =
      let o = inspect_lockfiles p m b lockfiles in
      elim (Bool-cases (o.exact_package_version && o.approved_integrity)) [
        | inl k ↦
            (refl, refl, inspect-IsListed b lockfiles (and-true o.exact_package_version _ k).1)
        | inr k ↦ let n = rw k at h in absurd (cc)
      ]

  -- If `verifyInstallExecution` reports `verified`, the process had completed, the runner was npm, and
  -- one of the two lockfiles lists the package with the version and the integrity of the plan.
  pub verify-IsListed :
      (plan : Plan) (completed : Bool) (v : Verification)
      → verify_install_execution p m plan completed ≡ ok v
      → v.status ≡ verified
      → (completed ≡ true) × (plan.body.runner ≡ npm) × IsListed plan.body
  unfolding verify_install_execution
  verify-IsListed plan completed v h s =
      let (after, _, h1) =
        bind-eq-ok (snapshot_known_install_files p m plan.body.working_directory) _ h in
      verified-IsListed plan.body (changed_files_of after plan.body.before_files) completed
        plan.body.runner (ap (λ (x : Verification). x.status) (ok-injective h1) ∙ s)
