-- ===== src/Stage/Transcript.antt =====
-- stage/tar-archive-parser.ts: `inspectArchive`, which reads an archive by its own loop and by the
-- parser of the package `tar`, compares the two, and applies the policy of archives. The inflation, the
-- events of the package's parser, the digests, NFC and lower case are parameters; `aborted` says at
-- which of its three looks the signal is set. The digest over the transcript itself is left out.
pub mod Agrees
use agent_permission_guard.Base.{
  ltb, ◌==◌, if◌then◌else◌, length, drop, Text, codes, text_eq, begins_with, ℕ, ◌+◌, ◌-◌, ◌/◌, Bool,
  true, false, ◌||◌, not, Option, none, some, List, [], ◌∷◌, ◌++◌, map,
}
use agent_permission_guard.Stage.Results.{
  artifact_cancelled, archive_invalid, archive_limit_exceeded, Result, ok, throws, ◌>>=◌, ◌>>◌,
  refuse, StageLimits, hard_ceilings, is_safe,
}
use agent_permission_guard.Stage.Archive.{
  EntryKind, file, directory, other_kind, ArchiveEntry, ValidatedEntry, PolicyState, is_directory,
  is_other, normalized_mode, validated, preflight,
}
use agent_permission_guard.Stage.Tar.{Bytes, RawEntry, inspect_exact_ustar}
use agent_permission_guard.Stage.Gzip.{Inflated, decode_exact_gzip_member}

-- An entry of the package's parser at its end, with the data that it emitted.
pub record ParsedEntry : Type 0 where
  pub path : Text
  pub type_name : Text
  pub meta : Bool
  pub ignore : Bool
  pub unsupported : Bool
  pub has_extended : Bool
  pub has_global_extended : Bool
  pub has_linkpath : Bool
  pub size : ℕ
  pub mode : Option ℕ
  pub chunks : List Bytes

-- What the parser of the package reports, in order.
pub data ParserEvent : Type 0 where
  entry_end : ParsedEntry → ParserEvent
  entry_error warn error ignored_entry meta_entry null_block eof end thrown : ParserEvent

-- `CandidateEntry`
pub record CandidateEntry : Type 0 where
  pub archive_path : Text
  pub kind : EntryKind
  pub size : ℕ
  pub mode : ℕ
  pub observed_size : ℕ
  pub body_sha256 : Option Text

-- The variables of `parseWithCandidate`.
pub record CandidateRun : Type 0 where
  pub entries : List CandidateEntry
  pub parser_failed : Bool
  pub parser_ended : Bool
  pub null_blocks : ℕ
  pub eof_events : ℕ

-- `TarArchiveTranscriptEntry`
pub record TranscriptEntry : Type 0 where
  pub archive_path : Text
  pub relative_path : Text
  pub kind : EntryKind
  pub declared_size : ℕ
  pub observed_size : ℕ
  pub normalized_mode : ℕ
  pub body_sha256 : Option Text

-- `TarArchiveTranscript`, without its constants.
pub record Transcript : Type 0 where
  pub artifact_sha512 : Text
  pub compressed_bytes : ℕ
  pub expanded_bytes : ℕ
  pub entries : List TranscriptEntry
  pub entry_count : ℕ

unfoldable pub flat : List Bytes → Bytes
flat [] = []
flat (b ∷ bs) = b ++ flat bs

unfoldable pub kind_of_type : Text → EntryKind
kind_of_type t =
    if text_eq t (codes "File") || text_eq t (codes "OldFile")
    then file
    else if text_eq t (codes "Directory")
    then directory
    else other_kind

abbrev pub mode_or_zero : Option ℕ → ℕ
mode_or_zero none = 0
mode_or_zero (some m) = m

abbrev pub same_kind : EntryKind → EntryKind → Bool
same_kind file file = true
same_kind directory directory = true
same_kind other_kind other_kind = true
same_kind _ _ = false

abbrev pub same_digest : Option Text → Option Text → Bool
same_digest none none = true
same_digest (some a) (some b) = text_eq a b
same_digest _ _ = false

abbrev failed_run : CandidateRun → CandidateRun
failed_run s = record s { parser_failed = true }

-- `assertArchiveLimits`
unfoldable pub is_bad_limit : (StageLimits → ℕ) → StageLimits → Bool
is_bad_limit f limits =
    not (is_safe (f limits)) || f limits == 0 || ltb (f hard_ceilings) (f limits)

unfoldable pub assert_archive_limits : StageLimits → Result (Unit {0})
unfolding is_bad_limit
assert_archive_limits limits = do
  refuse
      (is_bad_limit (λ l. l.graph_nodes) limits
        || is_bad_limit (λ l. l.compressed_artifact_bytes) limits
        || is_bad_limit (λ l. l.total_compressed_bytes) limits
        || is_bad_limit (λ l. l.uncompressed_artifact_bytes) limits
        || is_bad_limit (λ l. l.total_uncompressed_bytes) limits
        || is_bad_limit (λ l. l.regular_file_bytes) limits
        || is_bad_limit (λ l. l.archive_entries) limits
        || is_bad_limit (λ l. l.relative_path_bytes) limits
        || is_bad_limit (λ l. l.path_depth) limits)
      archive_limit_exceeded
  refuse
      (ltb limits.total_compressed_bytes limits.compressed_artifact_bytes
        || ltb limits.total_uncompressed_bytes limits.uncompressed_artifact_bytes
        || ltb limits.uncompressed_artifact_bytes limits.regular_file_bytes)
      archive_limit_exceeded

unfoldable pub strip_package_root : Text → Result Text
strip_package_root path = do
  refuse (not (begins_with (codes "package/") path)) archive_invalid
  ok (drop 8 path)

-- `new Map(…)` by relative path, of which the last entry wins.
unfoldable pub normalized_at : Text → List ValidatedEntry → Option ValidatedEntry
normalized_at p [] = none
normalized_at p (v ∷ vs) = elim (normalized_at p vs) [
  | some w ↦ some w
  | none ↦ if text_eq p v.relative_path then some v else none
]

-- The entry that the policy is asked about.
abbrev pub described : RawEntry → ArchiveEntry
described r = record {
  path = r.header.archive_path;
  kind = r.header.kind;
  size = r.header.size;
  mode = r.header.mode;
  link_target = none;
  sparse = false;
  has_extended_attributes = false;
}

module _ (sha256 : Bytes → Text) where
  abbrev pub body_digest : EntryKind → Bytes → Option Text
  body_digest kind body = if is_directory kind then none else some (sha256 body)

  unfoldable pub on_event : StageLimits → CandidateRun → ParserEvent → CandidateRun
  unfolding flat kind_of_type
  on_event limits s (entry_end e) =
      let kind = kind_of_type e.type_name in
      let observed = length (flat e.chunks) in
      if is_other kind
        || e.meta
        || e.ignore
        || e.unsupported
        || e.has_extended
        || e.has_global_extended
        || e.has_linkpath
        || ltb limits.regular_file_bytes observed
      then failed_run s
      else record s {
        entries =
            s.entries
            ++ record {
              archive_path = e.path;
              kind = kind;
              size = e.size;
              mode = mode_or_zero e.mode;
              observed_size = observed;
              body_sha256 = body_digest kind (flat e.chunks);
            }
              ∷ [];
      }
  on_event limits s null_block = record s { null_blocks = s.null_blocks + 1 }
  on_event limits s eof = record s { eof_events = s.eof_events + 1 }
  on_event limits s end = record s { parser_ended = true }
  on_event limits s _ = failed_run s

  unfoldable pub on_events : StageLimits → CandidateRun → List ParserEvent → CandidateRun
  unfolding on_event
  on_events limits s [] = s
  on_events limits s (e ∷ es) = on_events limits (on_event limits s e) es

  unfoldable pub parse_with_candidate :
      StageLimits → List ParserEvent → Result (List CandidateEntry)
  unfolding on_events
  parse_with_candidate limits events = do
    let s =
        on_events limits
          (record {
            entries = [];
            parser_failed = false;
            parser_ended = false;
            null_blocks = 0;
            eof_events = 0;
          })
          events
    refuse
        (s.parser_failed
          || not s.parser_ended
          || not (s.null_blocks == 1)
          || not (s.eof_events == 1))
        archive_invalid
    ok s.entries

  unfoldable pub differs : RawEntry → CandidateEntry → Bool
  differs r c =
      not (text_eq c.archive_path r.header.archive_path)
      || not (same_kind c.kind r.header.kind)
      || not (c.size == r.header.size)
      || not (c.mode == r.header.mode)
      || not (c.observed_size == r.header.size)
      || not (same_digest c.body_sha256 (body_digest r.header.kind r.body))

  -- `assertCandidateMatchesRaw`: lists of different lengths differ.
  unfoldable pub assert_candidate_matches_raw :
      List RawEntry → List CandidateEntry → Result (Unit {0})
  unfolding differs
  assert_candidate_matches_raw [] [] = ok tt
  assert_candidate_matches_raw [] (c ∷ cs) = throws archive_invalid
  assert_candidate_matches_raw (r ∷ rs) [] = throws archive_invalid
  assert_candidate_matches_raw (r ∷ rs) (c ∷ cs) =
      refuse (differs r c) archive_invalid >> assert_candidate_matches_raw rs cs

abbrev pub looked_up : Option ValidatedEntry → Result ValidatedEntry
looked_up none = throws archive_invalid
looked_up (some v) = ok v

unfoldable pub transcript_entry : List ValidatedEntry → CandidateEntry → Result TranscriptEntry
unfolding strip_package_root normalized_at
transcript_entry validated c = do
  relative ← strip_package_root c.archive_path
  v ← looked_up (normalized_at relative validated)
  refuse (not (same_kind v.kind c.kind) || not (v.size == c.size)) archive_invalid
  ok (record {
    archive_path = c.archive_path;
    relative_path = relative;
    kind = c.kind;
    declared_size = c.size;
    observed_size = c.observed_size;
    normalized_mode = v.normalized_mode;
    body_sha256 = c.body_sha256;
  })

unfoldable pub transcript_entries :
    List ValidatedEntry → List CandidateEntry → Result (List TranscriptEntry)
unfolding transcript_entry
transcript_entries validated [] = ok []
transcript_entries validated (c ∷ cs) = do
  t ← transcript_entry validated c
  ts ← transcript_entries validated cs
  ok (t ∷ ts)

abbrev pub new_policy_state : PolicyState
new_policy_state = record { aggregate_expanded_bytes = 0; aggregate_entries = 0 }

-- What the archive is read with, outside this program.
pub record Readers : Type 0 where
  pub inflate : Bytes → ℕ → Inflated
  pub tar_events : Bytes → List ParserEvent
  pub sha256 : Bytes → Text
  pub sha512 : Bytes → Text
  pub decode_utf8 : Bytes → Option Text
  pub to_nfc : Text → Text
  pub to_lower : Text → Text

module _ (readers : Readers) (limits : StageLimits) where
  unfoldable pub inspect_archive : (ℕ → Bool) → Bytes → Result (Transcript × List RawEntry)
  unfolding assert_archive_limits decode_exact_gzip_member inspect_exact_ustar parse_with_candidate
      assert_candidate_matches_raw preflight transcript_entries
  inspect_archive aborted compressed = do
    assert_archive_limits limits
    refuse (aborted 0) artifact_cancelled
    expanded ← decode_exact_gzip_member readers.inflate limits compressed
    refuse (aborted 1) artifact_cancelled
    raw ← inspect_exact_ustar readers.decode_utf8 limits expanded
    candidates ← parse_with_candidate readers.sha256 limits (readers.tar_events expanded)
    refuse (aborted 2) artifact_cancelled
    assert_candidate_matches_raw readers.sha256 raw candidates
    (accepted, state) ←
        preflight readers.to_nfc readers.to_lower limits new_policy_state (map described raw)
    entries ← transcript_entries accepted.entries candidates
    ok (
      record {
        artifact_sha512 = codes "sha512-" ++ readers.sha512 compressed;
        compressed_bytes = length compressed;
        expanded_bytes = accepted.expanded_bytes;
        entries = entries;
        entry_count = length entries;
      },
      raw,
    )
