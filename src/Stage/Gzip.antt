-- ===== src/Stage/Gzip.antt =====
-- stage/tar-archive-parser.ts: `decodeExactGzipMember` and the checksum of the trailer. `inflateRawSync`
-- of node:zlib is a parameter.
use agent_permission_guard.Base.{
  ltb, ◌==◌, if◌then◌else◌, or-false, not-below, not-other, length, take, drop, text_eq, ℕ, zero,
  suc, ◌+◌, ◌-◌, ◌*◌, ◌/◌, ◌%◌, ◌^◌, ◌≤◌, ◌≡◌, ap, ◌∙◌, subst, ◌||◌, not, [], ◌∷◌,
}
use agent_permission_guard.Stage.Results.{
  archive_invalid, archive_limit_exceeded, Result, ok, throws, ◌>>◌, refuse, StageLimits, is_safe,
  refuse-eq-ok, ok-injective,
}
use agent_permission_guard.Stage.Tar.{Bytes}
use Prim.Native.Nat.{bit_and, bit_xor}

-- What `inflateRawSync` does: the bytes with the number of bytes it read, or one of its errors.
pub data Inflated : Type 0 where
  inflated : Bytes → ℕ → Inflated
  buffer_too_large bad_deflate : Inflated

-- An element of `CRC32_TABLE`, after so many of its eight rounds.
unfoldable pub crc32_rounds : ℕ → ℕ → ℕ
crc32_rounds zero value = value
crc32_rounds (suc n) value =
    crc32_rounds n (if value % 2 == 1 then bit_xor 0xedb88320 (value / 2) else value / 2)

unfoldable pub crc32_from : ℕ → Bytes → ℕ
unfolding crc32_rounds
crc32_from value [] = bit_xor value 0xffffffff
crc32_from value (b ∷ bs) =
    crc32_from (bit_xor (crc32_rounds 8 (bit_and (bit_xor value b) 0xff)) (value / 256)) bs

unfoldable pub crc32 : Bytes → ℕ
unfolding crc32_from
crc32 bytes = crc32_from 0xffffffff bytes

-- `readUInt32LE` at the front of the bytes.
unfoldable pub read_uint32_le : Bytes → ℕ
read_uint32_le (a ∷ b ∷ c ∷ d ∷ bs) = a + b * 256 + c * 65536 + d * 16777216
read_uint32_le bs = 0

abbrev pub maximum_tar_bytes : StageLimits → ℕ
maximum_tar_bytes limits =
    limits.uncompressed_artifact_bytes + limits.archive_entries * (512 * 2 - 1) + 512 * 2

-- The checks behind the inflation; the ten bytes of the header stand before the stream, the eight of
-- the trailer behind it.
unfoldable pub check_inflated : StageLimits → Bytes → Inflated → Result Bytes
unfolding crc32 read_uint32_le
check_inflated limits compressed buffer_too_large = throws archive_limit_exceeded
check_inflated limits compressed bad_deflate = throws archive_invalid
check_inflated limits compressed (inflated expanded written) = do
  refuse (not (is_safe written) || written == 0 || not (10 + written + 8 == length compressed))
      archive_invalid
  refuse
      (ltb (maximum_tar_bytes limits) (length expanded)
        || ltb (20 * length compressed) (length expanded))
      archive_limit_exceeded
  let trailer = drop (10 + written) compressed
  refuse
      (not (read_uint32_le trailer == crc32 expanded)
        || not (read_uint32_le (drop 4 trailer) == length expanded % 2 ^ 32))
      archive_invalid
  ok expanded

unfoldable pub decode_exact_gzip_member :
    (Bytes → ℕ → Inflated) → StageLimits → Bytes → Result Bytes
unfolding check_inflated
decode_exact_gzip_member inflate limits compressed = do
  refuse (ltb limits.compressed_artifact_bytes (length compressed)) archive_limit_exceeded
  refuse
      (ltb (length compressed) (10 + 8)
        || not (text_eq (take 4 compressed) (0x1f ∷ 0x8b ∷ 0x08 ∷ 0x00 ∷ [])))
      archive_invalid
  refuse (not (is_safe (maximum_tar_bytes limits))) archive_limit_exceeded
  check_inflated limits compressed (inflate (drop 10 compressed) (maximum_tar_bytes limits + 1))

-- What an accepted member says of itself: a stream that ends where the trailer begins, with the
-- checksum and the length of what it inflates to, which is at most twenty times as long.
pub record IsMember (inflate : Bytes → ℕ → Inflated) (limits : StageLimits)
    (compressed expanded : Bytes) : Type 0 where
  pub written : ℕ
  pub stream :
      inflate (drop 10 compressed) (maximum_tar_bytes limits + 1) ≡ inflated expanded written
  pub ends : 10 + written + 8 ≡ length compressed
  pub short : length compressed ≤ limits.compressed_artifact_bytes
  pub ratio : length expanded ≤ 20 * length compressed
  pub checksum : read_uint32_le (drop (10 + written) compressed) ≡ crc32 expanded

check_inflated-ok :
    (limits : StageLimits) (compressed : Bytes) (r : Inflated) (expanded : Bytes)
    → check_inflated limits compressed r ≡ ok expanded
    → (written : ℕ) × (r ≡ inflated expanded written)
      × (10 + written + 8 ≡ length compressed)
      × (length expanded ≤ 20 * length compressed)
      × (read_uint32_le (drop (10 + written) compressed) ≡ crc32 expanded)
unfolding check_inflated
check_inflated-ok limits compressed buffer_too_large expanded h = absurd (cc)
check_inflated-ok limits compressed bad_deflate expanded h = absurd (cc)
check_inflated-ok limits compressed (inflated out written) expanded h =
    let (a, h1) =
      refuse-eq-ok
        (not (is_safe written) || written == 0 || not (10 + written + 8 == length compressed))
        archive_invalid _ h in
    let (b, h2) =
      refuse-eq-ok
        (ltb (maximum_tar_bytes limits) (length out) || ltb (20 * length compressed) (length out))
        archive_limit_exceeded _ h1 in
    let trailer = drop (10 + written) compressed in
    let (c, h3) =
      refuse-eq-ok
        (not (read_uint32_le trailer == crc32 out)
          || not (read_uint32_le (drop 4 trailer) == length out % 2 ^ 32))
        archive_invalid _ h2 in
    let same = ok-injective h3 in
    let (_, ends) = or-false (not (is_safe written) || written == 0) _ a in
    (
      written,
      ap (λ x. inflated x written) same,
      not-other _ _ ends,
      subst (λ x. length x ≤ 20 * length compressed) same
          (not-below _ _ (or-false _ (ltb (20 * length compressed) (length out)) b).1),
      not-other _ _ (or-false _ _ c).0 ∙ ap crc32 same,
    )

pub decode_exact_gzip_member-ok :
    (inflate : Bytes → ℕ → Inflated) (limits : StageLimits) (compressed expanded : Bytes)
    → decode_exact_gzip_member inflate limits compressed ≡ ok expanded
    → IsMember inflate limits compressed expanded
unfolding decode_exact_gzip_member
decode_exact_gzip_member-ok inflate limits compressed expanded h =
    let (short, h1) =
      refuse-eq-ok (ltb limits.compressed_artifact_bytes (length compressed)) archive_limit_exceeded
        _ h in
    let (_, h2) =
      refuse-eq-ok
        (ltb (length compressed) (10 + 8)
          || not (text_eq (take 4 compressed) (0x1f ∷ 0x8b ∷ 0x08 ∷ 0x00 ∷ [])))
        archive_invalid _ h1 in
    let (_, h3) =
      refuse-eq-ok (not (is_safe (maximum_tar_bytes limits))) archive_limit_exceeded _ h2 in
    let (written, stream, ends, ratio, checksum) =
      check_inflated-ok limits compressed
        (inflate (drop 10 compressed) (maximum_tar_bytes limits + 1)) expanded h3 in
    record {
      written = written;
      stream = stream;
      ends = ends;
      short = not-below _ _ short;
      ratio = ratio;
      checksum = checksum;
    }
