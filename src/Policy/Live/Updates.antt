-- ===== src/Policy/Live/Updates.antt =====
-- What an update of the live policy leaves in memory and on disk.
use agent_permission_guard.Base.{
  if◌then◌else◌, Bool-cases, Option-cases, Text, text_eq, text_eq_iff, ◌≡◌, refl, sym, ap, ◌∙◌,
  subst, ◌≢◌, ◌⊎◌, inl, inr, Bool, true, false, ◌&&◌, false≢true, Option, none, some, List, [], ◌∷◌,
}
use agent_permission_guard.Policy.Schema.{PolicyDocument}
use agent_permission_guard.Policy.Live.{
  Writing, Disk, Controller, UpdateOutcome, updated, conflict_in_memory, conflict_on_disk,
  invalid_policy, io_failed, Updated, get_view, cleaned, replace_file, parse_policy_yaml,
  open_controller, installed, refused, update,
}

module _ (read_yaml : Text → Option PolicyDocument) (hash_source : Text → Text) where
  -- The policy in memory is that of its source, under the source's digest.
  pub record IsCoherent (c : Controller) : Type 0 where
    pub parsed : parse_policy_yaml read_yaml c.source ≡ some c.policy
    pub hashed : c.revision ≡ hash_source c.source

  -- Whether every call that replaces the file returns.
  abbrev pub replaces : Writing → Bool
  replaces w = w.opens && w.writes && (w.syncs && w.closes && w.renames)

  -- Whether every call on the file system that an update needs returns.
  abbrev pub succeeds : Writing → Bool
  succeeds w = w.reads && replaces w

  -- An update that took effect, in memory and on disk.
  pub record IsInstalled (expected source : Text) (c : Controller) (d : Disk) (u : Updated)
      : Type 0 where
    pub seen : u.outcome ≡ updated (get_view u.controller)
    pub saved : u.disk.file ≡ source
    pub current : u.controller.source ≡ source
    pub coherent : IsCoherent u.controller
    pub expected_revision : expected ≡ c.revision
    pub same_on_disk : hash_source d.file ≡ c.revision

  -- What an update throws, and when.
  pub data Refusal (w : Writing) (expected source : Text) (c : Controller) (d : Disk)
      : UpdateOutcome → Type 0 where
    stale : expected ≢ c.revision → Refusal w expected source c d conflict_in_memory
    malformed :
        expected ≡ c.revision
        → parse_policy_yaml read_yaml source ≡ none
        → Refusal w expected source c d invalid_policy
    overwritten :
        expected ≡ c.revision
        → hash_source d.file ≢ c.revision
        → Refusal w expected source c d conflict_on_disk
    failed : succeeds w ≡ false → Refusal w expected source c d io_failed

  -- An update that threw; its temporary file is left only if it could not be unlinked.
  pub record IsRefused (w : Writing) (expected source : Text) (c : Controller) (d : Disk)
      (u : Updated) : Type 0 where
    pub thrown : Refusal w expected source c d u.outcome
    pub unchanged : u.controller ≡ c
    pub same_file : u.disk.file ≡ d.file
    pub cleaned_up : w.unlinks ≡ true → u.disk.temporaries ≡ d.temporaries

  -- An update for which every call on the file system returned, and which left no temporary file.
  abbrev pub IsSaved : Writing → Text → Text → Controller → Disk → Updated → Type 0
  IsSaved w expected source c d u =
      IsInstalled expected source c d u × (succeeds w ≡ true) × (u.disk.temporaries ≡ d.temporaries)

  -- An update took effect or threw.
  abbrev IsEither : Writing → Text → Text → Controller → Disk → Updated → Type 0
  IsEither w expected source c d u =
      IsSaved w expected source c d u ⊎ IsRefused w expected source c d u

  cleaned-file : (w : Writing) (left : Text) (d : Disk) → (cleaned w left d).file ≡ d.file
  cleaned-file w left d = elim (Bool-cases w.unlinks) [ inl e ↦ rw e | inr e ↦ rw e ]

  cleaned-temporaries :
      (w : Writing) (left : Text) (d : Disk)
      → w.unlinks ≡ true
      → (cleaned w left d).temporaries ≡ d.temporaries
  cleaned-temporaries w left d e = rw e

  -- What replacing the file has done: all of it, or nothing to the file.
  pub record Replaced (w : Writing) (source : Text) (d : Disk) (r : Bool × Disk) : Type 0 where
    pub whether : r.0 ≡ replaces w
    pub content : r.1.file ≡ (if r.0 then source else d.file)
    pub left : (r.0 ≡ true) ⊎ (w.unlinks ≡ true) → r.1.temporaries ≡ d.temporaries

  replace_file-Replaced :
      (w : Writing) (source : Text) (d : Disk) → Replaced w source d (replace_file w source d)
  unfolding replace_file
  replace_file-Replaced w source d = elim (Bool-cases w.opens) [
    | inr o ↦ rw o (record { whether = refl; content = refl; left = λ k. refl })
    | inl o ↦ elim (Bool-cases w.writes) [
      | inr e ↦
          rw (o, e)
            (record {
              whether = refl;
              content = cleaned-file w w.partial d;
              left = λ k. elim k [
                | inl n ↦ absurd (false≢true n)
                | inr u ↦ cleaned-temporaries w w.partial d u
              ];
            })
      | inl e ↦ elim (Bool-cases (w.syncs && w.closes && w.renames)) [
        | inr k ↦
            rw (o, e, k)
              (record {
                whether = sym k;
                content = cleaned-file w source d;
                left = λ q. elim q [
                  | inl n ↦ absurd (false≢true n)
                  | inr u ↦ cleaned-temporaries w source d u
                ];
              })
        | inl k ↦ rw (o, e, k) (record { whether = sym k; content = refl; left = λ q. refl })
      ]
    ]
  ]

  installed-cases :
      (w : Writing) (c : Controller) (d : Disk) (expected source : Text) (p : PolicyDocument)
      (r : Bool × Disk)
      → parse_policy_yaml read_yaml source ≡ some p
      → expected ≡ c.revision
      → hash_source d.file ≡ c.revision
      → w.reads ≡ true
      → Replaced w source d r
      → IsEither w expected source c d (installed read_yaml hash_source c source p r)
  installed-cases w c d expected source p (true, e) parsed same disk reads v = inl (
    record {
      seen = refl;
      saved = v.content;
      current = refl;
      coherent = record { parsed = parsed; hashed = refl };
      expected_revision = same;
      same_on_disk = disk;
    },
    ap (λ b. b && replaces w) reads ∙ sym v.whether,
    v.left (inl refl),
  )
  installed-cases w c d expected source p (false, e) parsed same disk reads v = inr (record {
    thrown = failed (ap (λ b. b && replaces w) reads ∙ sym v.whether);
    unchanged = refl;
    same_file = v.content;
    cleaned_up = λ u. v.left (inr u);
  })

  refused-IsRefused :
      (w : Writing) (expected source : Text) (c : Controller) (d : Disk) (o : UpdateOutcome)
      → Refusal w expected source c d o
      → IsRefused w expected source c d (refused read_yaml hash_source o c d)
  refused-IsRefused w expected source c d o t = record {
    thrown = t;
    unchanged = refl;
    same_file = refl;
    cleaned_up = λ u. refl;
  }

  not-equal : (s t : Text) → text_eq s t ≡ false → s ≢ t
  not-equal s t h e = false≢true (sym h ∙ (text_eq_iff s t).1 e)

  -- An update is all or nothing. Either it returns the view of a policy that is now in memory and in the
  -- file, parsed from the source given and under its digest, where the caller's revision was that in
  -- memory and that of the file, and every call on the file system returned; or it throws, and the
  -- memory and the file are as before. It throws a conflict where the caller's revision is not that in
  -- memory, or the file's digest is not; the parser's error where the source is no policy; and the
  -- error of the file system where a call on it threw. No temporary file is left unless it could not
  -- be unlinked.
  pub update-all_or_nothing :
      (w : Writing) (source expected : Text) (c : Controller) (d : Disk)
      → IsSaved w expected source c d (update read_yaml hash_source w source expected c d)
        ⊎ IsRefused w expected source c d (update read_yaml hash_source w source expected c d)
  unfolding update
  update-all_or_nothing w source expected c d =
      let Either : Updated → Type 0 = IsEither w expected source c d in
      elim (Bool-cases (text_eq expected c.revision)) [
        | inr e ↦ subst Either (rw (e, update) refl) (
            inr (
              refused-IsRefused w expected source c d conflict_in_memory
                (stale (not-equal expected c.revision e))))
        | inl e ↦
            let same = (text_eq_iff expected c.revision).0 e in
            elim (Option-cases (parse_policy_yaml read_yaml source)) [
              | inl n ↦
                  subst Either (rw (e, n, update) refl) (
                    inr (refused-IsRefused w expected source c d invalid_policy (malformed same n)))
              | inr (p, parsed) ↦ elim (Bool-cases w.reads) [
                | inr f ↦ subst Either (rw (e, parsed, f, update) refl) (
                    inr (
                      refused-IsRefused w expected source c d io_failed
                        (failed (ap (λ b. b && replaces w) f))))
                | inl f ↦ elim (Bool-cases (text_eq (hash_source d.file) c.revision)) [
                  | inr g ↦ subst Either (rw (e, parsed, f, g, update) refl) (
                      inr (
                        refused-IsRefused w expected source c d conflict_on_disk
                          (overwritten same (not-equal (hash_source d.file) c.revision g))))
                  | inl g ↦ subst Either (rw (e, parsed, f, g, update) refl) (
                      installed-cases w c d expected source p (replace_file w source d) parsed same
                        ((text_eq_iff (hash_source d.file) c.revision).0 g) f
                        (replace_file-Replaced w source d))
                ]
              ]
            ]
      ]

  -- What happens to the controller and its file: an update, or another program's write.
  pub data Event : Type 0 where
    update_with : Writing → Text → Text → Event
    written_outside : Text → Event

  unfoldable pub happen : Event → Controller × Disk → Controller × Disk
  unfolding update
  happen (update_with w source expected) (c, d) =
      let u = update read_yaml hash_source w source expected c d in (u.controller, u.disk)
  happen (written_outside text) (c, d) = (c, record d { file = text })

  unfoldable pub happen_all : List Event → Controller × Disk → Controller × Disk
  unfolding happen
  happen_all [] s = s
  happen_all (e ∷ es) s = happen_all es (happen e s)

  happen-IsCoherent :
      (e : Event) (s : Controller × Disk) → IsCoherent s.0 → IsCoherent (happen e s).0
  unfolding happen
  happen-IsCoherent (update_with w source expected) (c, d) h =
      elim (update-all_or_nothing w source expected c d) [
        | inl (i, _, _) ↦ i.coherent
        | inr r ↦ subst IsCoherent (sym r.unchanged) h
      ]
  happen-IsCoherent (written_outside text) (c, d) h = h

  happen_all-IsCoherent :
      (es : List Event) (s : Controller × Disk) → IsCoherent s.0 → IsCoherent (happen_all es s).0
  unfolding happen_all
  happen_all-IsCoherent [] s h = h
  happen_all-IsCoherent (e ∷ es) s h =
      happen_all-IsCoherent es (happen e s) (happen-IsCoherent e s h)

  some-injective : {a b : Controller} → some a ≡ some b → a ≡ b
  some-injective h = cc

  open-IsCoherent :
      (d : Disk) (c : Controller)
      → open_controller read_yaml hash_source true d ≡ some c
      → IsCoherent c
  unfolding open_controller
  open-IsCoherent d c h = elim (Option-cases (parse_policy_yaml read_yaml d.file)) [
    | inl n ↦ let k = rw (n, open_controller) at h in absurd (cc)
    | inr (p, parsed) ↦
        subst IsCoherent (some-injective (rw (parsed, open_controller) at h))
          (record { parsed = parsed; hashed = refl })
  ]

  -- From a controller opened on a policy's file, through any updates and other programs' writes, the
  -- policy in memory is the one that the source in memory parses to, and the revision is its digest.
  pub open-happen_all-IsCoherent :
      (es : List Event) (d : Disk) (c : Controller)
      → open_controller read_yaml hash_source true d ≡ some c
      → IsCoherent (happen_all es (c, d)).0
  open-happen_all-IsCoherent es d c h = happen_all-IsCoherent es (c, d) (open-IsCoherent d c h)

  -- Of two updates that expect the same revision at most one takes effect: if the first is to a source
  -- with another digest and is installed, the second is refused as a conflict, whatever other programs
  -- wrote to the file in between, and changes neither the memory nor the file.
  pub update-update_stale :
      (w v : Writing) (source other expected between : Text) (c : Controller) (d : Disk)
      → IsInstalled expected source c d (update read_yaml hash_source w source expected c d)
      → hash_source source ≢ expected
      → let u = update read_yaml hash_source w source expected c d in
        let e = record u.disk { file = between } in
        update read_yaml hash_source v other expected u.controller e
        ≡ refused read_yaml hash_source conflict_in_memory u.controller e
  unfolding update
  update-update_stale w v source other expected between c d i differs =
      let u = update read_yaml hash_source w source expected c d in
      let revision = i.coherent.hashed ∙ ap hash_source i.current in
      elim (Bool-cases (text_eq expected u.controller.revision)) [
        | inl e ↦
            absurd (differs (sym ((text_eq_iff expected u.controller.revision).0 e ∙ revision)))
        | inr e ↦ rw (e, update)
      ]
