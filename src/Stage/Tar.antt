-- ===== src/Stage/Tar.antt =====
-- stage/tar-archive-parser.ts: the fields of a USTAR header and the loop over the blocks. A buffer at
-- an offset is the list of the bytes behind it; an offset within a buffer is a safe integer, so that
-- check is left to the comparison with the buffer's length. The decoder of UTF-8 is a parameter.
pub mod Octal
pub mod Layout
pub mod Exact
use agent_permission_guard.Base.{
  ltb, leb, ◌==◌, if◌then◌else◌, length, all, take, drop, Text, codes, text_eq, is_empty_text, ℕ,
  zero, suc, ◌+◌, ◌-◌, ◌*◌, ◌/◌, ◌%◌, Bool, true, false, ◌&&◌, ◌||◌, not, Option, none, some, List,
  [], ◌∷◌, ◌++◌,
}
use agent_permission_guard.Stage.Results.{
  archive_invalid, archive_limit_exceeded, Result, ok, throws, ◌>>=◌, ◌>>◌, refuse, StageLimits,
  is_safe,
}
use agent_permission_guard.Stage.Archive.{
  EntryKind, file, directory, other_kind, is_file, is_directory,
}

abbrev pub Bytes : Type 0
Bytes = List ℕ

-- `isZeroBlock` and `isZeroFilledField`
abbrev pub is_zero_block : Bytes → Bool
is_zero_block = all (λ b. b == 0)

abbrev pub slice : ℕ → ℕ → Bytes → Bytes
slice first last bytes = take (last - first) (drop first bytes)

abbrev pub replicate : ℕ → ℕ → Bytes
replicate zero b = []
replicate (suc n) b = b ∷ replicate n b

-- NUL and the space end a number.
abbrev pub is_pad : ℕ → Bool
is_pad b = b == 0 || b == 0x20

unfoldable pub trim_pad : Bytes → Bytes
trim_pad [] = []
trim_pad (b ∷ bs) =
    let rest = trim_pad bs in if is_empty_text rest && is_pad b then [] else b ∷ rest

abbrev pub is_octal : ℕ → Bool
is_octal b = leb 0x30 b && leb b 0x37

-- `Number.parseInt(digits, 8)`
unfoldable pub read_octal : ℕ → Bytes → ℕ
read_octal acc [] = acc
read_octal acc (b ∷ bs) = read_octal (acc * 8 + (b - 0x30)) bs

unfoldable pub parse_canonical_octal : Bytes → Result ℕ
unfolding trim_pad read_octal
parse_canonical_octal field = do
  let digits = trim_pad field
  refuse
      (is_empty_text digits
        || not (all is_octal digits)
        || not (all is_pad (drop (length digits) field)))
      archive_invalid
  refuse (not (is_safe (read_octal 0 digits))) archive_invalid
  ok (read_octal 0 digits)

unfoldable pub sum_bytes : Bytes → ℕ
sum_bytes [] = 0
sum_bytes (b ∷ bs) = b + sum_bytes bs

abbrev pub is_result : ℕ → Result ℕ → Bool
is_result n (ok m) = m == n
is_result n (throws _) = false

-- `checksumIsValid`: the sum is taken with spaces in the field of the checksum.
unfoldable pub checksum_is_valid : Bytes → Bool
unfolding parse_canonical_octal sum_bytes
checksum_is_valid header =
    is_result (sum_bytes (take 148 header ++ replicate 8 0x20 ++ drop 156 header))
      (parse_canonical_octal (slice 148 156 header))

unfoldable pub before_zero : Bytes → Bytes
before_zero [] = []
before_zero (b ∷ bs) = let rest = before_zero bs in if b == 0 then [] else b ∷ rest

unfoldable pub type_of_flag : ℕ → EntryKind
type_of_flag b = if b == 0 || b == 0x30 then file else if b == 0x35 then directory else other_kind

abbrev pub is_kind : EntryKind → Bool
is_kind other_kind = false
is_kind _ = true

pub record Header : Type 0 where
  pub archive_path : Text
  pub kind : EntryKind
  pub size : ℕ
  pub mode : ℕ

pub record RawEntry : Type 0 where
  pub header : Header
  pub body : Bytes

-- `Math.ceil(size / 512) * 512`
abbrev pub padded : ℕ → ℕ
padded size = (size + 511) / 512 * 512

abbrev pub added_bytes : Header → ℕ
added_bytes h = if is_file h.kind then h.size else 0

abbrev pub exceeds : StageLimits → Header → ℕ → ℕ → Bool
exceeds limits h bytes count =
    ltb limits.regular_file_bytes h.size
    || ltb limits.uncompressed_artifact_bytes bytes
    || ltb limits.archive_entries count

module _ (decode_utf8 : Bytes → Option Text) where
  abbrev pub decoded : Option Text → Result Text
  decoded none = throws archive_invalid
  decoded (some s) = ok s

  unfoldable pub decode_canonical_text_field : Bytes → Result Text
  unfolding before_zero
  decode_canonical_text_field field = do
    let name = before_zero field
    refuse (not (is_zero_block (drop (length name) field))) archive_invalid
    decoded (decode_utf8 name)

  abbrev pub joined_path : Text → Text → Text
  joined_path prefix name = if is_empty_text prefix then name else prefix ++ 0x2f ∷ name

  -- The checks on a block that is not zero, up to the bounds of its body.
  unfoldable pub read_header : Bytes → Result Header
  unfolding checksum_is_valid decode_canonical_text_field parse_canonical_octal type_of_flag
  read_header header = do
    refuse
        (not (text_eq (slice 257 263 header) (codes "ustar" ++ 0 ∷ []))
          || not (text_eq (slice 263 265 header) (codes "00"))
          || not (checksum_is_valid header)
          || not (is_zero_block (slice 157 257 header)))
        archive_invalid
    -- The one byte at 156.
    let kind = type_of_flag (sum_bytes (slice 156 157 header))
    refuse (not (is_kind kind)) archive_invalid
    name ← decode_canonical_text_field (slice 0 100 header)
    prefix ← decode_canonical_text_field (slice 345 500 header)
    size ← parse_canonical_octal (slice 124 136 header)
    mode ← parse_canonical_octal (slice 100 108 header)
    refuse (is_empty_text (joined_path prefix name) || (is_directory kind && not (size == 0)))
        archive_invalid
    ok (record { archive_path = joined_path prefix name; kind = kind; size = size; mode = mode })

  -- The loop, at the bytes behind the offset, with the bytes of the files and the entries so far.
  unfoldable pub inspect_from : ℕ → StageLimits → Bytes → ℕ → List RawEntry → Result (List RawEntry)
  unfolding read_header
  inspect_from zero limits bytes file_bytes entries = throws archive_invalid
  inspect_from (suc fuel) limits bytes file_bytes entries = elim (ltb (length bytes) 512) [
    | true ↦ throws archive_invalid
    | false ↦ elim (is_zero_block (take 512 bytes)) [
      | true ↦ do
        refuse (not (length bytes == 1024) || not (is_zero_block (drop 512 bytes))) archive_invalid
        refuse (length entries == 0) archive_invalid
        ok entries
      | false ↦ do
        h ← read_header (take 512 bytes)
        refuse (ltb (length bytes) (512 + padded h.size + 1024)) archive_invalid
        let behind = drop 512 bytes
        refuse (not (is_zero_block (slice h.size (padded h.size) behind))) archive_invalid
        refuse (exceeds limits h (file_bytes + added_bytes h) (length entries + 1))
            archive_limit_exceeded
        inspect_from fuel limits (drop (padded h.size) behind) (file_bytes + added_bytes h)
            (entries ++ record { header = h; body = take h.size behind } ∷ [])
    ]
  ]

  -- `inspectExactUstar`; each round takes at least one block, so the fuel is enough.
  unfoldable pub inspect_exact_ustar : StageLimits → Bytes → Result (List RawEntry)
  unfolding inspect_from
  inspect_exact_ustar limits expanded = do
    refuse (ltb (length expanded) 1024 || not (length expanded % 512 == 0)) archive_invalid
    inspect_from (length expanded) limits expanded 0 []
