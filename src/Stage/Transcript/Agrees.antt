-- ===== src/Stage/Transcript/Agrees.antt =====
-- What a transcript of an archive says of the archive's bytes.
use agent_permission_guard.Base.{
  ◌==◌, ==_iff, Bool-cases, Option-cases, and-true, or-false, not-not, not-other, length, drop, In,
  Text, codes, text_eq, text_eq_iff, begins_with, ℕ, ◌≡◌, refl, sym, ap, ◌∙◌, subst, inl, inr, Bool,
  true, false, ◌||◌, not, false≢true, Option, none, some, List, [], ◌∷◌, ◌++◌, map, arith,
}
use agent_permission_guard.Stage.Results.{
  artifact_cancelled, archive_invalid, ok, StageLimits, bind-eq-ok, refuse-eq-ok, ok-injective,
}
use agent_permission_guard.Stage.Archive.{
  EntryKind, file, directory, other_kind, ValidatedEntry, Preflight, PolicyState, preflight,
}
use agent_permission_guard.Stage.Archive.Safe.{IsSafe, preflight-IsSafe}
use agent_permission_guard.Stage.Tar.{Bytes, RawEntry, inspect_exact_ustar}
use agent_permission_guard.Stage.Tar.Layout.{IsArchive}
use agent_permission_guard.Stage.Tar.Exact.{inspect_exact_ustar-IsArchive}
use agent_permission_guard.Stage.Gzip.{
  decode_exact_gzip_member, IsMember, decode_exact_gzip_member-ok,
}
use agent_permission_guard.Stage.Transcript.{
  CandidateEntry, TranscriptEntry, Transcript, same_kind, same_digest, assert_archive_limits,
  strip_package_root, normalized_at, described, body_digest, parse_with_candidate, differs,
  assert_candidate_matches_raw, looked_up, transcript_entry, transcript_entries, new_policy_state,
  Readers, inspect_archive,
}

same_kind-eq : (a b : EntryKind) → same_kind a b ≡ true → a ≡ b
same_kind-eq file file h = refl
same_kind-eq directory directory h = refl
same_kind-eq other_kind other_kind h = refl
same_kind-eq file directory h = absurd (false≢true h)
same_kind-eq file other_kind h = absurd (false≢true h)
same_kind-eq directory file h = absurd (false≢true h)
same_kind-eq directory other_kind h = absurd (false≢true h)
same_kind-eq other_kind file h = absurd (false≢true h)
same_kind-eq other_kind directory h = absurd (false≢true h)

same_digest-eq : (a b : Option Text) → same_digest a b ≡ true → a ≡ b
same_digest-eq none none h = refl
same_digest-eq (some a) (some b) h = ap some ((text_eq_iff a b).0 h)
same_digest-eq none (some b) h = absurd (false≢true h)
same_digest-eq (some a) none h = absurd (false≢true h)

-- A text that begins with another is the other and the rest.
begins-drop : (w s : Text) → begins_with w s ≡ true → w ++ drop (length w) s ≡ s
unfolding begins_with
begins-drop [] s h = refl
begins-drop (a ∷ w) [] h = absurd (false≢true h)
begins-drop (a ∷ w) (c ∷ s) h =
    let (e, k) = and-true (a == c) _ h in rw ((==_iff a c).0 e) (ap (◌∷◌ c) (begins-drop w s k))

-- An entry of this path and size that the policy accepted.
abbrev pub IsListed : List ValidatedEntry → Text → ℕ → Type 0
IsListed vs p size = (v : ValidatedEntry) × In v vs × ((v.relative_path ≡ p) × (v.size ≡ size))

some-injective : {a b : ValidatedEntry} → some a ≡ some b → a ≡ b
some-injective h = cc

normalized_at-listed :
    (p : Text) (vs : List ValidatedEntry) (v : ValidatedEntry)
    → normalized_at p vs ≡ some v
    → In v vs × (v.relative_path ≡ p)
unfolding normalized_at
normalized_at-listed p [] v h = absurd (cc)
normalized_at-listed p (w ∷ vs) v h = elim (Option-cases (normalized_at p vs)) [
  | inl e ↦ elim (Bool-cases (text_eq p w.relative_path)) [
    | inl q ↦
        let same : w ≡ v = some-injective (rw (e, q, normalized_at) at h) in
        (
          inl (sym same),
          ap (λ (x : ValidatedEntry). x.relative_path) (sym same)
              ∙ sym ((text_eq_iff p w.relative_path).0 q),
        )
    | inr q ↦ let k = rw (e, q, normalized_at) at h in absurd (cc)
  ]
  | inr (u, e) ↦
      let same : u ≡ v = some-injective (rw (e, normalized_at) at h) in
      let (m, q) = normalized_at-listed p vs v (e ∙ ap some same) in (inr m, q)
]

-- A transcript's entry and the entry that the loop read from the bytes.
pub record Describes (sha256 : Bytes → Text) (vs : List ValidatedEntry) (t : TranscriptEntry)
    (r : RawEntry) : Type 0 where
  pub path : t.archive_path ≡ r.header.archive_path
  pub below : codes "package/" ++ t.relative_path ≡ t.archive_path
  pub same : t.kind ≡ r.header.kind
  pub declared : t.declared_size ≡ r.header.size
  pub observed : t.observed_size ≡ r.header.size
  pub digest : t.body_sha256 ≡ body_digest sha256 r.header.kind r.body
  pub listed : IsListed vs t.relative_path t.declared_size

looked_up-some : (o : Option ValidatedEntry) (v : ValidatedEntry) → looked_up o ≡ ok v → o ≡ some v
looked_up-some none v h = absurd (cc)
looked_up-some (some w) v h = ap some (ok-injective h)

-- The same relation at every place of two lists of one length.
abbrev pub Pairs : {A : Type 0} {B : Type 0} → (A → B → Type 0) → List A → List B → Type 0
Pairs R [] [] = Unit
Pairs R (a ∷ xs) (b ∷ ys) = R a b × Pairs R xs ys
Pairs R _ _ = ⊥

six-guards :
    (a b c d e f : Bool)
    → (not a || not b || not c || not d || not e || not f) ≡ false
    → (a ≡ true) × (b ≡ true) × (c ≡ true) × (d ≡ true) × (e ≡ true) × (f ≡ true)
six-guards a b c d e f h =
    (ground arith, ground arith, ground arith, ground arith, ground arith, ground arith)

module _ (sha256 : Bytes → Text) where
  IsMatch : RawEntry → CandidateEntry → Type 0
  IsMatch r c = differs sha256 r c ≡ false

  matches-Pairs :
      (rs : List RawEntry) (cs : List CandidateEntry)
      → assert_candidate_matches_raw sha256 rs cs ≡ ok tt
      → Pairs IsMatch rs cs
  unfolding assert_candidate_matches_raw IsMatch
  matches-Pairs [] [] h = tt
  matches-Pairs [] (c ∷ cs) h = absurd (cc)
  matches-Pairs (r ∷ rs) [] h = absurd (cc)
  matches-Pairs (r ∷ rs) (c ∷ cs) h =
      let (same, rest) = refuse-eq-ok (differs sha256 r c) archive_invalid _ h in
      (same, matches-Pairs rs cs rest)

  transcript_entry-Describes :
      (vs : List ValidatedEntry) (r : RawEntry) (c : CandidateEntry) (t : TranscriptEntry)
      → IsMatch r c
      → transcript_entry vs c ≡ ok t
      → Describes sha256 vs t r
  unfolding transcript_entry IsMatch differs strip_package_root IsListed
  transcript_entry-Describes vs r c t m h =
      let (path, kind, size, _, observed, digest) =
        six-guards (text_eq c.archive_path r.header.archive_path) (same_kind c.kind r.header.kind)
          (c.size == r.header.size) (c.mode == r.header.mode) (c.observed_size == r.header.size)
          (same_digest c.body_sha256 (body_digest sha256 r.header.kind r.body)) m in
      let (relative, stripped, h1) = bind-eq-ok (strip_package_root c.archive_path) _ h in
      let (rooted, below) =
        refuse-eq-ok (not (begins_with (codes "package/") c.archive_path)) archive_invalid _
          stripped in
      let (v, found, h2) = bind-eq-ok (looked_up (normalized_at relative vs)) _ h1 in
      let (fits, h3) =
        refuse-eq-ok (not (same_kind v.kind c.kind) || not (v.size == c.size)) archive_invalid _
          h2 in
      let found_at = looked_up-some (normalized_at relative vs) v found in
      let (member, at) = normalized_at-listed relative vs v found_at in
      subst (λ x. Describes sha256 vs x r) (ok-injective h3)
        (record {
          path = (text_eq_iff c.archive_path r.header.archive_path).0 path;
          below =
              ap (codes "package/" ++◌) (sym (ok-injective below))
              ∙ begins-drop (codes "package/") c.archive_path (not-not _ rooted);
          same = same_kind-eq c.kind r.header.kind kind;
          declared = (==_iff c.size r.header.size).0 size;
          observed = (==_iff c.observed_size r.header.size).0 observed;
          digest = same_digest-eq _ _ digest;
          listed = (v, member, (at, not-other v.size c.size (or-false _ _ fits).1));
        })

  transcript_entries-Pairs :
      (vs : List ValidatedEntry) (rs : List RawEntry) (cs : List CandidateEntry)
      (ts : List TranscriptEntry)
      → Pairs IsMatch rs cs
      → transcript_entries vs cs ≡ ok ts
      → Pairs (Describes sha256 vs) ts rs
  unfolding transcript_entries
  transcript_entries-Pairs vs [] [] ts m h =
      subst (λ x. Pairs (Describes sha256 vs) x []) (ok-injective h) tt
  transcript_entries-Pairs vs [] (c ∷ cs) ts m h = absurd m
  transcript_entries-Pairs vs (r ∷ rs) [] ts m h = absurd m
  transcript_entries-Pairs vs (r ∷ rs) (c ∷ cs) ts (m, ms) h =
      let (t, one, h1) = bind-eq-ok (transcript_entry vs c) _ h in
      let (us, rest, h2) = bind-eq-ok (transcript_entries vs cs) _ h1 in
      subst (λ x. Pairs (Describes sha256 vs) x (r ∷ rs)) (ok-injective h2)
        (transcript_entry-Describes vs r c t m one, transcript_entries-Pairs vs rs cs us ms rest)

module _ (readers : Readers) (limits : StageLimits) where
  -- What holds of an archive's bytes, its transcript, and the entries read from it.
  pub record Agrees (compressed : Bytes) (t : Transcript) (raw : List RawEntry) : Type 0 where
    pub expanded : Bytes
    pub member : IsMember readers.inflate limits compressed expanded
    pub archive : IsArchive readers.decode_utf8 limits 0 0 expanded raw
    pub accepted : Preflight
    pub state : PolicyState
    pub safe :
        IsSafe readers.to_nfc readers.to_lower limits new_policy_state
          (map described raw)
          accepted
          state
    pub described_by : Pairs (Describes readers.sha256 accepted.entries) t.entries raw

  -- A transcript that `inspectArchive` returns describes, entry by entry and in order, the entries of
  -- the archive that is the whole of what the compressed bytes inflate to, with their paths below the
  -- package's root, kinds, sizes and digests; each is an entry that the policy of archives accepted.
  pub inspect_archive-Agrees :
      (aborted : ℕ → Bool) (compressed : Bytes) (t : Transcript) (raw : List RawEntry)
      → inspect_archive readers limits aborted compressed ≡ ok (t, raw)
      → Agrees compressed t raw
  unfolding inspect_archive
  inspect_archive-Agrees aborted compressed t raw h =
      let (_, _, h1) = bind-eq-ok (assert_archive_limits limits) _ h in
      let (_, h2) = refuse-eq-ok (aborted 0) artifact_cancelled _ h1 in
      let (expanded, member, h3) =
        bind-eq-ok (decode_exact_gzip_member readers.inflate limits compressed) _ h2 in
      let (_, h4) = refuse-eq-ok (aborted 1) artifact_cancelled _ h3 in
      let (rs, found, h5) =
        bind-eq-ok (inspect_exact_ustar readers.decode_utf8 limits expanded) _ h4 in
      let (cs, _, h6) =
        bind-eq-ok (parse_with_candidate readers.sha256 limits (readers.tar_events expanded)) _
          h5 in
      let (_, h7) = refuse-eq-ok (aborted 2) artifact_cancelled _ h6 in
      let (_, same, h8) = bind-eq-ok (assert_candidate_matches_raw readers.sha256 rs cs) _ h7 in
      let ((accepted, state), checked, h9) =
        bind-eq-ok
          (preflight readers.to_nfc readers.to_lower limits new_policy_state (map described rs)) _
          h8 in
      let (ts, written, h10) = bind-eq-ok (transcript_entries accepted.entries cs) _ h9 in
      let pair = ok-injective h10 in
      subst (λ (p : Transcript × List RawEntry). Agrees compressed p.0 p.1) pair
        (record {
          expanded = expanded;
          member = decode_exact_gzip_member-ok readers.inflate limits compressed expanded member;
          archive = (inspect_exact_ustar-IsArchive readers.decode_utf8 limits expanded rs found).1;
          accepted = accepted;
          state = state;
          safe =
              preflight-IsSafe readers.to_nfc readers.to_lower limits new_policy_state
                (map described rs) accepted state (omega arith) checked;
          described_by =
              transcript_entries-Pairs readers.sha256 accepted.entries rs cs ts
                (matches-Pairs readers.sha256 rs cs same) written;
        })
