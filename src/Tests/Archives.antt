-- ===== src/Tests/Archives.antt =====
-- Archives and install targets on concrete inputs.
use agent_permission_guard.Install.{npm, InstallRequest}
use agent_permission_guard.Stage.Peers.{
  specifier_invalid, Version, caret, parse_version, between, comparisons_of, holds,
}
use agent_permission_guard.Stage.Peers.Versions.{print, parse_version-print}
use agent_permission_guard.Stage.Peers.Ranges.{comparisons_of-allows}
use agent_permission_guard.Install.Parser.Requests.{IsClean, parse_install_request-IsClean}
use agent_permission_guard.Base.{
  all, true, ◌==◌, length, take, Text, codes, text_eq, text_mem, sort_by, split_on, join_with,
  begins_with, utf8_length, ℕ, ◌-◌, ◌/◌, ◌%◌, ◌≡◌, refl, false, none, some, [], ◌∷◌, ◌++◌, arith,
}
use agent_permission_guard.Stage.Results.{ok, hard_ceilings}
use agent_permission_guard.Stage.Archive.{
  file, ArchiveEntry, Preflight, PolicyState, normalized_mode,
}
use agent_permission_guard.Stage.Tar.{
  Bytes, replicate, parse_canonical_octal, sum_bytes, RawEntry, inspect_exact_ustar,
}
use agent_permission_guard.Stage.Tar.Octal.{octal, octal_bound, parse_canonical_octal-octal}
use agent_permission_guard.Stage.Tar.Layout.{IsArchive}
use agent_permission_guard.Stage.Tar.Exact.{
  inspect_exact_ustar-IsArchive, inspect_exact_ustar-accepts,
}
use agent_permission_guard.Stage.Gzip.{inflated, crc32}
use agent_permission_guard.Stage.Transcript.{
  ParserEvent, entry_end, null_block, eof, Transcript, Readers, inspect_archive,
}
use agent_permission_guard.Stage.Transcript.Agrees.{Agrees, inspect_archive-Agrees}
use agent_permission_guard.Install.Parser.{
  parse_install_request, is_package_name, parse_registry_package_spec,
}
use agent_permission_guard.Install.Parser.Targets.{parse_registry_package_spec-print}

abbrev same_text : Text → Text
same_text t = t

abbrev listed_file : ArchiveEntry
listed_file = record {
  path = codes "package/lib/a.js";
  kind = file;
  size = 3;
  mode = 0o644;
  link_target = none;
  sparse = false;
  has_extended_attributes = false;
}

abbrev accepted_file : Preflight
accepted_file = record {
  entries =
      record { relative_path = codes "lib/a.js"; kind = file; size = 3; normalized_mode = 0o644 }
      ∷ [];
  entry_count = 1;
  expanded_bytes = 3;
}

abbrev after_file : PolicyState
after_file = record { aggregate_expanded_bytes = 3; aggregate_entries = 1 }

parse_canonical_octal-octal_example :
    parse_canonical_octal (octal 3 0o644 ++ 0x20 ∷ 0 ∷ []) ≡ ok 0o644
unfolding octal_bound
parse_canonical_octal-octal_example =
    parse_canonical_octal-octal 2 0o644 (0x20 ∷ 0 ∷ []) (omega arith) (omega arith) refl

-- A file of three bytes as `tar` writes it, with a sum in the header's field of the checksum.
abbrev filled : ℕ → Bytes → Bytes
filled n bs = bs ++ replicate (n - length bs) 0

abbrev with_sum : Bytes → Bytes
with_sum sum =
    filled 100 (codes "package/a.js")
    ++ octal 7 0o644
    ++ 0 ∷ octal 7 0
    ++ 0 ∷ octal 7 0
    ++ 0 ∷ octal 11 3
    ++ 0 ∷ octal 11 0
    ++ 0 ∷ sum
    ++ 0x30 ∷ replicate 100 0
    ++ codes "ustar"
    ++ 0 ∷ codes "00"
    ++ replicate 247 0

abbrev header_block : Bytes
header_block = with_sum (octal 6 (sum_bytes (with_sum (replicate 8 0x20))) ++ 0 ∷ 0x20 ∷ [])

abbrev small_archive : Bytes
small_archive = header_block ++ filled 512 (codes "abc") ++ replicate 1024 0

abbrev small_entry : RawEntry
small_entry = record {
  header = record { archive_path = codes "package/a.js"; kind = file; size = 3; mode = 0o644 };
  body = codes "abc";
}

inspect_exact_ustar-IsArchive_example :
    ((length (small_entry ∷ []) == 0) ≡ false)
    × IsArchive some hard_ceilings 0 0 small_archive (small_entry ∷ [])
unfolding inspect_exact_ustar octal text_eq
inspect_exact_ustar-IsArchive_example =
    inspect_exact_ustar-IsArchive some hard_ceilings small_archive (small_entry ∷ []) refl

inspect_exact_ustar-accepts_example :
    inspect_exact_ustar some hard_ceilings small_archive ≡ ok (small_entry ∷ [])
unfolding inspect_exact_ustar octal text_eq
inspect_exact_ustar-accepts_example =
    inspect_exact_ustar-accepts some hard_ceilings small_archive (small_entry ∷ []) refl
      (inspect_exact_ustar-IsArchive some hard_ceilings small_archive (small_entry ∷ []) refl).1

-- The archive as a member of gzip, with a stand-in for its stream of a hundred bytes.
abbrev little_endian : ℕ → Bytes
little_endian n = n % 256 ∷ n / 256 % 256 ∷ n / 65536 % 256 ∷ n / 16777216 % 256 ∷ []

abbrev small_member : Bytes
small_member =
    0x1f ∷ 0x8b ∷ 8 ∷ 0 ∷ replicate 6 0
    ++ replicate 100 1
    ++ little_endian (crc32 small_archive)
    ++ little_endian (length small_archive)

abbrev small_event : ParserEvent
small_event = entry_end (record {
  path = codes "package/a.js";
  type_name = codes "File";
  meta = false;
  ignore = false;
  unsupported = false;
  has_extended = false;
  has_global_extended = false;
  has_linkpath = false;
  size = 3;
  mode = some 0o644;
  chunks = codes "ab" ∷ codes "c" ∷ [];
})

abbrev small_readers : Readers
small_readers = record {
  inflate = λ bytes limit. inflated small_archive 100;
  tar_events = λ bytes. small_event ∷ null_block ∷ eof ∷ ParserEvent.end ∷ [];
  sha256 = same_text;
  sha512 = take 4;
  decode_utf8 = some;
  to_nfc = same_text;
  to_lower = same_text;
}

abbrev small_transcript : Transcript
small_transcript = record {
  artifact_sha512 = codes "sha512-" ++ 0x1f ∷ 0x8b ∷ 8 ∷ 0 ∷ [];
  compressed_bytes = 118;
  expanded_bytes = 3;
  entries =
      record {
        archive_path = codes "package/a.js";
        relative_path = codes "a.js";
        kind = file;
        declared_size = 3;
        observed_size = 3;
        normalized_mode = 0o644;
        body_sha256 = some (codes "abc");
      }
      ∷ [];
  entry_count = 1;
}

inspect_archive-Agrees_example :
    Agrees small_readers hard_ceilings small_member small_transcript (small_entry ∷ [])
unfolding inspect_archive text_eq octal begins_with utf8_length split_on text_mem join_with sort_by
    normalized_mode
inspect_archive-Agrees_example =
    inspect_archive-Agrees small_readers hard_ceilings (λ n. false) small_member small_transcript
      (small_entry ∷ []) refl

parse_registry_package_spec-print_example :
    parse_registry_package_spec (codes "@types/node@^20.1.0")
    ≡ ok (codes "@types/node", codes "^20.1.0")
unfolding is_package_name
parse_registry_package_spec-print_example =
    parse_registry_package_spec-print (codes "@types/node") (codes "^20.1.0") refl (omega arith)
      refl refl (omega arith)

abbrev typed_request : InstallRequest
typed_request = record {
  runner = npm;
  package_name = codes "@types/node";
  requested_specifier = codes "20.1.0";
  options = codes "--ignore-scripts" ∷ codes "--save-dev" ∷ [];
  working_directory = codes "/work";
}

parse_install_request-IsClean_example :
    IsClean npm typed_request
    × (begins_with (codes "/") (codes "/work") ≡ true)
    × (typed_request.working_directory ≡ codes "/work")
unfolding parse_install_request text_eq sort_by
parse_install_request-IsClean_example =
    parse_install_request-IsClean (begins_with (codes "/")) npm
      (codes "--save-dev" ∷ codes "@types/node@20.1.0" ∷ codes "--ignore-scripts" ∷ [])
      (codes "/work") typed_request refl

-- `^1.2.3` allows 1.9.0.
abbrev caret_low : Version
caret_low = record { major = 1; minor = 2; patch = 3 }

abbrev caret_high : Version
caret_high = record { major = 2; minor = 0; patch = 0 }

abbrev later : Version
later = record { major = 1; minor = 9; patch = 0 }

comparisons_of-allows_example : all (holds later) (between caret_low caret_high) ≡ true
unfolding comparisons_of
comparisons_of-allows_example =
    comparisons_of-allows caret caret_low later (between caret_low caret_high) refl

parse_version-print_example : parse_version specifier_invalid (print later) ≡ ok later
parse_version-print_example =
    parse_version-print specifier_invalid later (omega arith) (omega arith) (omega arith)
