-- ===== src/Stage/Archive.antt =====
-- stage/archive-policy.ts: the policy on the entries of an archive. Unicode's normal form C and the
-- lower case are parameters.
pub mod Listings
pub mod Safe
use agent_permission_guard.Base.{
  ltb, leb, ◌==◌, if◌then◌else◌, length, any, Text, codes, text_eq, text_mem, sort_by, text_compare,
  split_on, join_with, is_empty_text, has_unit, begins_with, utf8_length, ℕ, suc, ◌+◌, ◌/◌, Bool,
  true, false, ◌&&◌, ◌||◌, not, Option, none, some, List, [], ◌∷◌, ◌++◌,
}
use agent_permission_guard.Stage.Results.{
  archive_invalid, archive_limit_exceeded, Result, ok, throws, ◌>>=◌, ◌>>◌, refuse, StageLimits,
  is_safe,
}
use Prim.Native.Nat.{bit_and}

pub data EntryKind : Type 0 where
  file directory other_kind : EntryKind

-- `ArchiveEntryDescription`; `assertEntryShape` refuses any other field.
pub record ArchiveEntry : Type 0 where
  pub path : Text
  pub kind : EntryKind
  pub size : ℕ
  pub mode : ℕ
  pub link_target : Option Text
  pub sparse : Bool
  pub has_extended_attributes : Bool

pub record ValidatedEntry : Type 0 where
  pub relative_path : Text
  pub kind : EntryKind
  pub size : ℕ
  pub normalized_mode : ℕ

pub record Preflight : Type 0 where
  pub entries : List ValidatedEntry
  pub entry_count : ℕ
  pub expanded_bytes : ℕ

-- The private counters of a `PortableArchivePolicy`.
pub record PolicyState : Type 0 where
  pub aggregate_expanded_bytes : ℕ
  pub aggregate_entries : ℕ

-- The variables of the loop over the entries.
pub record Scan : Type 0 where
  pub entries : List ValidatedEntry
  pub exact_paths : List Text
  pub portable_paths : List Text
  pub expanded_bytes : ℕ

abbrev pub is_directory : EntryKind → Bool
is_directory directory = true
is_directory _ = false

abbrev pub is_file : EntryKind → Bool
is_file file = true
is_file _ = false

abbrev pub is_other : EntryKind → Bool
is_other other_kind = true
is_other _ = false

abbrev pub is_given : Option Text → Bool
is_given none = false
is_given (some _) = true

unfoldable pub has_bad_shape : ArchiveEntry → Bool
has_bad_shape e =
    e.sparse
    || e.has_extended_attributes
    || is_given e.link_target
    || not (is_safe e.size)
    || not (leb e.mode 0o7777)
    || not (bit_and e.mode 0o6000 == 0)
    || (is_directory e.kind && not (e.size == 0))

-- `[\u0000-\u001f\u007f]`
abbrev pub is_control : ℕ → Bool
is_control c = leb c 0x1f || c == 0x7f

abbrev pub is_dots : Text → Bool
is_dots s = is_empty_text s || text_eq s (codes ".") || text_eq s (codes "..")

unfoldable pub normalized_mode : EntryKind → ℕ → ℕ
normalized_mode directory mode = 0o755
normalized_mode _ mode = if bit_and mode 0o111 == 0 then 0o644 else 0o755

abbrev pub validated : Text → ArchiveEntry → ValidatedEntry
validated relative e = record {
  relative_path = relative;
  kind = e.kind;
  size = e.size;
  normalized_mode = normalized_mode e.kind e.mode;
}

-- The bytes that an entry adds.
abbrev pub file_bytes : ArchiveEntry → ℕ
file_bytes e = if is_file e.kind then e.size else 0

module _ (to_nfc : Text → Text) (to_lower : Text → Text) (limits : StageLimits) where
  unfoldable pub is_bad_path : Text → Bool
  is_bad_path path =
      is_empty_text path
      || begins_with (codes "/") path
      || has_unit 0x5c path
      || has_unit 0 path
      || any is_control path
      || not (text_eq (to_nfc path) path)
      || ltb limits.relative_path_bytes (utf8_length path)

  -- Behind the root `package`.
  unfoldable pub below_root : List Text → Result (List Text)
  below_root [] = throws archive_invalid
  below_root (root ∷ segments) = do
    refuse
        (not (text_eq root (codes "package"))
          || ltb (suc (length segments)) 2
          || ltb limits.path_depth (length segments)
          || any is_dots (root ∷ segments))
        archive_invalid
    ok segments

  unfoldable pub archive_relative_path : Text → Result Text
  unfolding is_bad_path below_root
  archive_relative_path path = do
    refuse (is_bad_path path) archive_invalid
    segments ← below_root (split_on 0x2f path)
    ok (join_with 0x2f segments)

  unfoldable pub check_entry : PolicyState → ArchiveEntry → Scan → Result Scan
  unfolding archive_relative_path has_bad_shape
  check_entry s e scan = do
    refuse (is_other e.kind) archive_invalid
    refuse (has_bad_shape e) archive_invalid
    relative ← archive_relative_path e.path
    let segments = split_on 0x2f relative
    refuse (text_mem (codes "node_modules") segments || text_mem (codes ".npmrc") segments)
        archive_invalid
    refuse (text_mem relative scan.exact_paths || text_mem (to_lower relative) scan.portable_paths)
        archive_invalid
    refuse (is_file e.kind && ltb limits.regular_file_bytes e.size) archive_limit_exceeded
    let expanded = scan.expanded_bytes + file_bytes e
    refuse
        (ltb limits.uncompressed_artifact_bytes expanded
          || ltb limits.total_uncompressed_bytes (s.aggregate_expanded_bytes + expanded))
        archive_limit_exceeded
    ok (record {
      entries = scan.entries ++ validated relative e ∷ [];
      exact_paths = relative ∷ scan.exact_paths;
      portable_paths = to_lower relative ∷ scan.portable_paths;
      expanded_bytes = expanded;
    })

  unfoldable pub check_entries : PolicyState → List ArchiveEntry → Scan → Result Scan
  unfolding check_entry
  check_entries s [] scan = ok scan
  check_entries s (e ∷ es) scan = check_entry s e scan >>= check_entries s es

  unfoldable pub preflight : PolicyState → List ArchiveEntry → Result (Preflight × PolicyState)
  unfolding check_entries
  preflight s [] = throws archive_invalid
  preflight s (e ∷ es) = do
    scan ←
        check_entries s (e ∷ es)
          (record { entries = []; exact_paths = []; portable_paths = []; expanded_bytes = 0 })
    let count = length scan.entries
    refuse
        (ltb limits.archive_entries count
          || ltb limits.archive_entries (s.aggregate_entries + count))
        archive_limit_exceeded
    ok (
      record {
        entries = sort_by (λ a b. text_compare a.relative_path b.relative_path) scan.entries;
        entry_count = count;
        expanded_bytes = scan.expanded_bytes;
      },
      record {
        aggregate_expanded_bytes = s.aggregate_expanded_bytes + scan.expanded_bytes;
        aggregate_entries = s.aggregate_entries + count;
      },
    )
