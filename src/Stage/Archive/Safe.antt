-- ===== src/Stage/Archive/Safe.antt =====
-- What the policy of stage/archive-policy.ts accepts.
use agent_permission_guard.Base.{
  ltb, length, any, all, length-append, All, All-append, Text, codes, text_eq, text_eq_iff,
  text_mem, sort_by, text_compare, split_on, join_with, lacks, split-lacks, split-join, ℕ, suc, ◌+◌,
  ◌≤◌, ◌≡◌, refl, sym, ◌∙◌, subst, true, false, ◌&&◌, ◌||◌, not, List, [], ◌∷◌, ◌++◌, arith,
}
use agent_permission_guard.Stage.Results.{
  ok, refuse-eq-ok, bind-eq-ok, ok-injective, archive_invalid, archive_limit_exceeded, StageLimits,
}
use agent_permission_guard.Stage.Archive.{
  ArchiveEntry, ValidatedEntry, Preflight, PolicyState, Scan, is_file, is_other, has_bad_shape,
  is_dots, validated, file_bytes, is_bad_path, below_root, archive_relative_path, check_entry,
  check_entries, preflight,
}
use agent_permission_guard.Stage.Archive.Listings.{
  is_plain, IsPortable, listings, total_size, listings-append, total_size-append, listings-sort,
  length-sort, total_size-sort, All-sort, plain-segments,
}

-- The bytes of the files that are described.
unfoldable pub described_bytes : List ArchiveEntry → ℕ
described_bytes [] = 0
described_bytes (e ∷ es) = file_bytes e + described_bytes es

-- A path that is listed has been added to the set.
abbrev Tracks : List Text → List ValidatedEntry → Type 0
Tracks paths vs = (p : Text) → text_mem p paths ≡ false → listings p vs ≡ 0

module _ (to_nfc to_lower : Text → Text) (limits : StageLimits) where
  below_root-ok :
      (parts out : List Text)
      → below_root to_nfc to_lower limits parts ≡ ok out
      → (all (lacks 0x2f) parts ≡ true)
      → (split_on 0x2f (join_with 0x2f out) ≡ out) × (any is_dots out ≡ false)
  unfolding below_root
  below_root-ok [] out h k = absurd (cc)
  below_root-ok (root ∷ []) out h k = absurd (ground arith)
  below_root-ok (root ∷ q ∷ qs) out h k =
      let (fine, same) =
        refuse-eq-ok
          (not (text_eq root (codes "package"))
            || ltb (suc (length (q ∷ qs))) 2
            || ltb limits.path_depth (length (q ∷ qs))
            || any is_dots (root ∷ q ∷ qs))
          archive_invalid (ok (q ∷ qs)) h in
      let e : (q ∷ qs) ≡ out = ok-injective same in
      rw (← e) (split-join 0x2f q qs (ground arith), ground arith)

  archive_relative_path-ok :
      (path out : Text)
      → archive_relative_path to_nfc to_lower limits path ≡ ok out
      → any is_dots (split_on 0x2f out) ≡ false
  unfolding archive_relative_path
  archive_relative_path-ok path out h =
      let (_, rest) = refuse-eq-ok (is_bad_path to_nfc to_lower limits path) archive_invalid _ h in
      let (segments, below, same) =
        bind-eq-ok (below_root to_nfc to_lower limits (split_on 0x2f path)) _ rest in
      let (splits, plain) =
        below_root-ok (split_on 0x2f path) segments below (split-lacks 0x2f path) in
      let e : join_with 0x2f segments ≡ out = ok-injective same in rw (← e, splits) plain

  -- The invariant of the loop over the entries.
  record ScanInv (s : PolicyState) (scan : Scan) : Type 0 where
    portable : All IsPortable scan.entries
    unique : (p : Text) → listings p scan.entries ≤ 1
    tracked : Tracks scan.exact_paths scan.entries
    sum : scan.expanded_bytes ≡ total_size scan.entries
    within : scan.expanded_bytes ≤ limits.uncompressed_artifact_bytes
    within_all : s.aggregate_expanded_bytes + scan.expanded_bytes ≤ limits.total_uncompressed_bytes

  added : Text → ArchiveEntry → Scan → Scan
  added relative e scan = record {
    entries = scan.entries ++ validated relative e ∷ [];
    exact_paths = relative ∷ scan.exact_paths;
    portable_paths = to_lower relative ∷ scan.portable_paths;
    expanded_bytes = scan.expanded_bytes + file_bytes e;
  }

  added-Inv :
      (s : PolicyState) (e : ArchiveEntry) (relative : Text) (scan : Scan)
      → ScanInv s scan
      → all is_plain (split_on 0x2f relative) ≡ true
      → text_mem relative scan.exact_paths ≡ false
      → scan.expanded_bytes + file_bytes e ≤ limits.uncompressed_artifact_bytes
      → s.aggregate_expanded_bytes + (scan.expanded_bytes + file_bytes e)
        ≤ limits.total_uncompressed_bytes
      → ScanInv s (added relative e scan)
  unfolding added listings total_size text_mem
  added-Inv s e relative scan v plain fresh fits fits_all = record {
    portable = All-append IsPortable scan.entries _ v.portable (plain, tt);
    unique = λ p. ground (
      arith,
      listings-append p scan.entries (validated relative e ∷ []),
      v.unique p,
      v.tracked relative fresh,
      text_eq_iff p relative,
    );
    tracked = λ p h.
        ground (arith, listings-append p scan.entries (validated relative e ∷ []), v.tracked p);
    sum = ground (arith, total_size-append scan.entries (validated relative e ∷ []), v.sum);
    within = fits;
    within_all = fits_all;
  }

  check_entry-Inv :
      (s : PolicyState) (e : ArchiveEntry) (scan out : Scan)
      → ScanInv s scan
      → check_entry to_nfc to_lower limits s e scan ≡ ok out
      → ScanInv s out
        × (length out.entries ≡ suc (length scan.entries))
        × (out.expanded_bytes ≡ scan.expanded_bytes + file_bytes e)
  unfolding check_entry added
  check_entry-Inv s e scan out v h =
      let (_, h1) = refuse-eq-ok (is_other e.kind) archive_invalid _ h in
      let (_, h2) = refuse-eq-ok (has_bad_shape e) archive_invalid _ h1 in
      let (relative, found, h3) =
        bind-eq-ok (archive_relative_path to_nfc to_lower limits e.path) _ h2 in
      let segments = split_on 0x2f relative in
      let (names, h4) =
        refuse-eq-ok
          (text_mem (codes "node_modules") segments || text_mem (codes ".npmrc") segments)
          archive_invalid _ h3 in
      let (fresh, h5) =
        refuse-eq-ok
          (text_mem relative scan.exact_paths || text_mem (to_lower relative) scan.portable_paths)
          archive_invalid _ h4 in
      let (_, h6) =
        refuse-eq-ok (is_file e.kind && ltb limits.regular_file_bytes e.size) archive_limit_exceeded
          _ h5 in
      let (fits, same) =
        refuse-eq-ok
          (ltb limits.uncompressed_artifact_bytes (scan.expanded_bytes + file_bytes e)
            || ltb limits.total_uncompressed_bytes
                (s.aggregate_expanded_bytes + (scan.expanded_bytes + file_bytes e)))
          archive_limit_exceeded _ h6 in
      let plain = plain-segments segments (archive_relative_path-ok e.path relative found) names in
      subst
        (λ (x : Scan).
          ScanInv s x
          × (length x.entries ≡ suc (length scan.entries))
          × (x.expanded_bytes ≡ scan.expanded_bytes + file_bytes e))
        (ok-injective same)
        (
          added-Inv s e relative scan v plain (ground (arith, fresh)) (ground (arith, fits))
              (ground (arith, fits)),
          omega (arith, length-append scan.entries (validated relative e ∷ [])),
          refl,
        )

  check_entries-Inv :
      (s : PolicyState) (es : List ArchiveEntry) (scan out : Scan)
      → ScanInv s scan
      → check_entries to_nfc to_lower limits s es scan ≡ ok out
      → ScanInv s out
        × (length out.entries ≡ length scan.entries + length es)
        × (out.expanded_bytes ≡ scan.expanded_bytes + described_bytes es)
  unfolding check_entries described_bytes
  check_entries-Inv s [] scan out v h =
      subst
        (λ (x : Scan).
          ScanInv s x
          × (length x.entries ≡ length scan.entries + 0)
          × (x.expanded_bytes ≡ scan.expanded_bytes + 0))
        (ok-injective h) (v, omega arith, omega arith)
  check_entries-Inv s (e ∷ es) scan out v h =
      let (next, one, rest) = bind-eq-ok (check_entry to_nfc to_lower limits s e scan) _ h in
      let (inv, count, bytes) = check_entry-Inv s e scan next v one in
      let (all_inv, all_count, all_bytes) = check_entries-Inv s es next out inv rest in
      (all_inv, omega (arith, count, all_count), omega (arith, bytes, all_bytes))

  -- What holds of an accepted archive, and of the counters behind it, given those before and the
  -- entries that were described.
  pub record IsSafe (s : PolicyState) (es : List ArchiveEntry) (r : Preflight) (t : PolicyState)
      : Type 0 where
    pub portable : All IsPortable r.entries
    pub unique : (p : Text) → listings p r.entries ≤ 1
    pub sum : r.expanded_bytes ≡ total_size r.entries
    pub within : r.expanded_bytes ≤ limits.uncompressed_artifact_bytes
    pub within_all : t.aggregate_expanded_bytes ≤ limits.total_uncompressed_bytes
    pub described : r.expanded_bytes ≡ described_bytes es
    pub listed : r.entry_count ≡ length r.entries
    pub counted : r.entry_count ≡ length es
    pub more_bytes : t.aggregate_expanded_bytes ≡ s.aggregate_expanded_bytes + r.expanded_bytes
    pub more_entries : t.aggregate_entries ≡ s.aggregate_entries + r.entry_count
    pub few : t.aggregate_entries ≤ limits.archive_entries

  sealed-IsSafe :
      (s : PolicyState) (es : List ArchiveEntry) (scan : Scan)
      → ScanInv s scan
      → length scan.entries ≡ 0 + length es
      → scan.expanded_bytes ≡ 0 + described_bytes es
      → s.aggregate_entries + length scan.entries ≤ limits.archive_entries
      → IsSafe s es
          (record {
            entries =
                sort_by
                  (λ (a : ValidatedEntry) (b : ValidatedEntry).
                    text_compare a.relative_path b.relative_path)
                  scan.entries;
            entry_count = length scan.entries;
            expanded_bytes = scan.expanded_bytes;
          })
          (record {
            aggregate_expanded_bytes = s.aggregate_expanded_bytes + scan.expanded_bytes;
            aggregate_entries = s.aggregate_entries + length scan.entries;
          })
  sealed-IsSafe s es scan v count bytes few = record {
    portable = All-sort _ IsPortable scan.entries v.portable;
    unique = λ p. omega (arith, listings-sort _ p scan.entries, v.unique p);
    sum = v.sum ∙ sym (total_size-sort _ scan.entries);
    within = v.within;
    within_all = v.within_all;
    described = omega (arith, bytes);
    listed = sym (length-sort _ scan.entries);
    counted = omega (arith, count);
    more_bytes = refl;
    more_entries = refl;
    few = few;
  }

  start-Inv :
      (s : PolicyState)
      → s.aggregate_expanded_bytes ≤ limits.total_uncompressed_bytes
      → ScanInv s
          (record { entries = []; exact_paths = []; portable_paths = []; expanded_bytes = 0 })
  unfolding listings total_size
  start-Inv s k = record {
    portable = tt;
    unique = λ p. omega arith;
    tracked = λ p h. refl;
    sum = refl;
    within = omega arith;
    within_all = omega (arith, k);
  }

  pub preflight-IsSafe :
      (s : PolicyState) (es : List ArchiveEntry) (r : Preflight) (t : PolicyState)
      → s.aggregate_expanded_bytes ≤ limits.total_uncompressed_bytes
      → preflight to_nfc to_lower limits s es ≡ ok (r, t)
      → IsSafe s es r t
  unfolding preflight
  preflight-IsSafe s [] r t k h = absurd (cc)
  preflight-IsSafe s (e ∷ es) r t k h =
      let start : Scan = record {
        entries = [];
        exact_paths = [];
        portable_paths = [];
        expanded_bytes = 0;
      } in
      let (scan, found, rest) =
        bind-eq-ok (check_entries to_nfc to_lower limits s (e ∷ es) start) _ h in
      let (few, same) =
        refuse-eq-ok
          (ltb limits.archive_entries (length scan.entries)
            || ltb limits.archive_entries (s.aggregate_entries + length scan.entries))
          archive_limit_exceeded _ rest in
      let (v, count, bytes) = check_entries-Inv s (e ∷ es) start scan (start-Inv s k) found in
      let pair = ok-injective same in
      let sealed = sealed-IsSafe s (e ∷ es) scan v count bytes (ground (arith, few)) in
      subst (λ (q : Preflight × PolicyState). IsSafe s (e ∷ es) q.0 q.1) pair sealed
