-- ===== src/Stage/Tar/Exact.antt =====
-- `inspectExactUstar` returns the entries of the bytes exactly if the bytes have the shape.
use agent_permission_guard.Base.{
  ltb, ◌==◌, Bool-cases, and-true, not-not, not-below, not-below_false, length, all, take, drop,
  length-append, take-append-drop, append_nil, append_assoc, all-take-drop, take-length,
  drop-length, length-take, drop-drop, length-drop, Text, ℕ, zero, suc, ◌+◌, ◌-◌, ◌%◌, ◌≤◌, ◌≡◌,
  sym, ap, ◌∙◌, subst, inl, inr, Bool, true, false, ◌||◌, not, Option, List, [], ◌∷◌, ◌++◌, arith,
}
use agent_permission_guard.Stage.Results.{
  archive_invalid, archive_limit_exceeded, Result, ok, StageLimits, bind-eq-ok, refuse-eq-ok,
  ok-injective,
}
use agent_permission_guard.Stage.Tar.{
  Bytes, is_zero_block, slice, Header, RawEntry, padded, added_bytes, exceeds, read_header,
  inspect_from, inspect_exact_ustar,
}
use agent_permission_guard.Stage.Tar.Layout.{Member, IsArchive, pieces, IsArchive-length}

padded-above : (n : ℕ) → n ≤ padded n
padded-above n = omega arith

around-slice : (n m : ℕ) (xs : Bytes) → n ≤ m → take n xs ++ (slice n m xs ++ drop m xs) ≡ xs
around-slice n m xs h =
    ap (λ z. take n xs ++ (slice n m xs ++ z))
      (ap (λ k. drop k xs) (omega (arith, h)) ∙ sym (drop-drop n (m - n) xs))
    ∙ ap (take n xs ++◌) (take-append-drop (m - n) (drop n xs))
    ∙ take-append-drop n xs

size-and-zeros : (n k : ℕ) (b : Bool) → (not (n == k) || not b) ≡ false → (n ≡ k) × (b ≡ true)
size-and-zeros n k b h = (ground arith, ground arith)

take-at : (n : ℕ) (xs ys : Bytes) → length xs ≡ n → take n (xs ++ ys) ≡ xs
take-at n xs ys h = sym (ap (λ k. take k (xs ++ ys)) h) ∙ take-length xs ys

drop-at : (n : ℕ) (xs ys : Bytes) → length xs ≡ n → drop n (xs ++ ys) ≡ ys
drop-at n xs ys h = sym (ap (λ k. drop k (xs ++ ys)) h) ∙ drop-length xs ys

both_ap :
    (f : Bytes → Bytes → Result (List RawEntry)) {a b c d : Bytes} → a ≡ b → c ≡ d → f a c ≡ f b d
both_ap f p q = λ i. f (p i) (q i)

module _ (decode_utf8 : Bytes → Option Text) (limits : StageLimits) where
  Member-found :
      (used count : ℕ) (bytes : Bytes) (h : Header)
      → (is_zero_block (take 512 bytes) ≡ false)
      → (read_header decode_utf8 (take 512 bytes) ≡ ok h)
      → (512 + padded h.size + 1024 ≤ length bytes)
      → (is_zero_block (slice h.size (padded h.size) (drop 512 bytes)) ≡ true)
      → (exceeds limits h used count ≡ false)
      → Member decode_utf8 limits used count
          (record { header = h; body = take h.size (drop 512 bytes) })
          bytes
          (drop (padded h.size) (drop 512 bytes))
  Member-found used count bytes h not_end described room zeros within =
      let behind = drop 512 bytes in
      let long : padded h.size ≤ length behind = omega (arith, length-drop 512 bytes, room) in
      let size_le = padded-above h.size in
      let body_len = length-take h.size behind (omega (arith, long, size_le)) in
      record {
        block = take 512 bytes;
        padding = slice h.size (padded h.size) behind;
        laid_out =
            sym (take-append-drop 512 bytes)
            ∙ ap (take 512 bytes ++◌) (sym (around-slice h.size (padded h.size) behind size_le));
        block_size = length-take 512 bytes (omega (arith, room));
        not_end = not_end;
        described = described;
        body_size = body_len;
        padded_size = omega (
          arith,
          body_len,
          length-take (padded h.size - h.size) (drop h.size behind)
              (omega (arith, length-drop h.size behind, long)),
          size_le,
        );
        padding_zero = zeros;
        within = within;
      }

  -- What the loop returned lies behind the entries it began with, in the bytes it began at.
  inspect_from-IsArchive :
      (fuel used : ℕ) (bytes : Bytes) (before all : List RawEntry)
      → inspect_from decode_utf8 fuel limits bytes used before ≡ ok all
      → (es : List RawEntry) × (all ≡ before ++ es)
        × ((length all == 0) ≡ false)
        × IsArchive decode_utf8 limits used (length before) bytes es
  unfolding inspect_from
  inspect_from-IsArchive zero used bytes before all h = absurd (cc)
  inspect_from-IsArchive (suc fuel) used bytes before all h =
      elim (Bool-cases (ltb (length bytes) 512)) [
        | inl short ↦ let h1 = rw (short, inspect_from) at h in absurd (cc)
        | inr enough ↦
            let h1 = rw (enough, inspect_from) at h in
            elim (Bool-cases (is_zero_block (take 512 bytes))) [
              | inl is_end ↦
                  let h2 = rw is_end at h1 in
                  let (ends, h3) =
                    refuse-eq-ok
                      (not (length bytes == 1024) || not (is_zero_block (drop 512 bytes)))
                      archive_invalid _ h2 in
                  let (any_before, h4) = refuse-eq-ok (length before == 0) archive_invalid _ h3 in
                  let (size, zeros) = size-and-zeros (length bytes) 1024 _ ends in
                  let same = ok-injective h4 in
                  (
                    [],
                    sym same ∙ sym (append_nil before),
                    rw (← same) any_before,
                    (size, all-take-drop _ 512 bytes ∙ rw (is_end, zeros)),
                  )
              | inr not_end ↦
                  let h2 = rw not_end at h1 in
                  let (hd, described, h3) =
                    bind-eq-ok (read_header decode_utf8 (take 512 bytes)) _ h2 in
                  let (room, h4) =
                    refuse-eq-ok (ltb (length bytes) (512 + padded hd.size + 1024)) archive_invalid
                      _ h3 in
                  let behind = drop 512 bytes in
                  let (zeros, h5) =
                    refuse-eq-ok (not (is_zero_block (slice hd.size (padded hd.size) behind)))
                      archive_invalid _ h4 in
                  let (within, h6) =
                    refuse-eq-ok (exceeds limits hd (used + added_bytes hd) (length before + 1))
                      archive_limit_exceeded _ h5 in
                  let e : RawEntry = record { header = hd; body = take hd.size behind } in
                  let (es, same, some_entry, rest) =
                    inspect_from-IsArchive fuel (used + added_bytes hd)
                      (drop (padded hd.size) behind) (before ++ e ∷ []) all h6 in
                  (
                    e ∷ es,
                    same ∙ append_assoc before (e ∷ []) es,
                    some_entry,
                    (
                      drop (padded hd.size) behind,
                      Member-found (used + added_bytes hd) (length before + 1) bytes hd not_end
                          described (not-below (length bytes) _ room) (not-not _ zeros) within,
                      subst
                          (λ k.
                            IsArchive decode_utf8 limits (used + added_bytes hd) k
                              (drop (padded hd.size) behind) es)
                          (length-append before (e ∷ []) ∙ omega arith) rest,
                    ),
                  )
            ]
      ]

  -- The blocks of an entry, as the loop cuts them out of the bytes.
  module _ (used count : ℕ) (e : RawEntry) (bytes rest : Bytes)
      (m : Member decode_utf8 limits used count e bytes rest) where
    first-block : take 512 bytes ≡ m.block
    first-block = ap (take 512) m.laid_out ∙ take-at 512 m.block _ m.block_size

    behind-block : drop 512 bytes ≡ e.body ++ (m.padding ++ rest)
    behind-block = ap (drop 512) m.laid_out ∙ drop-at 512 m.block _ m.block_size

    body-cut : take e.header.size (drop 512 bytes) ≡ e.body
    body-cut = ap (take e.header.size) behind-block ∙ take-at e.header.size e.body _ m.body_size

    padding-cut : slice e.header.size (padded e.header.size) (drop 512 bytes) ≡ m.padding
    padding-cut =
        ap (slice e.header.size (padded e.header.size)) behind-block
        ∙ ap (take (padded e.header.size - e.header.size))
            (drop-at e.header.size e.body _ m.body_size)
        ∙ take-at _ m.padding rest (omega (arith, m.padded_size, m.body_size))

    rest-cut : drop (padded e.header.size) (drop 512 bytes) ≡ rest
    rest-cut =
        ap (drop (padded e.header.size)) (behind-block ∙ sym (append_assoc e.body m.padding rest))
        ∙ drop-at _ (e.body ++ m.padding) rest (length-append e.body m.padding ∙ m.padded_size)

  inspect_from-accepts :
      (fuel used : ℕ) (bytes : Bytes) (before es : List RawEntry)
      → IsArchive decode_utf8 limits used (length before) bytes es
      → length bytes ≤ fuel
      → ((length (before ++ es)) == 0) ≡ false
      → inspect_from decode_utf8 fuel limits bytes used before ≡ ok (before ++ es)
  unfolding inspect_from
  inspect_from-accepts zero used bytes before es h k some_entry =
      absurd (omega (arith, k, (IsArchive-length decode_utf8 limits used _ bytes es h).0))
  inspect_from-accepts (suc fuel) used bytes before [] (size, zeros) k some_entry =
      let (front, back) =
        and-true (is_zero_block (take 512 bytes)) _ (sym (all-take-drop _ 512 bytes) ∙ zeros) in
      let nonempty : (length before == 0) ≡ false =
        ap (λ xs. length xs == 0) (sym (append_nil before)) ∙ some_entry in
      rw (ap (λ n. ltb n 512) size, front, ap (λ n. n == 1024) size, back, nonempty, inspect_from)
        (ap ok (sym (append_nil before)))
  inspect_from-accepts (suc fuel) used bytes before (e ∷ es) (rest, m, h) k some_entry =
      let size = pieces decode_utf8 limits _ _ e bytes rest m in
      let first = first-block _ _ e bytes rest m in
      let long = (IsArchive-length decode_utf8 limits _ _ rest es h).0 in
      rw
        (
          not-below_false (length bytes) 512 (omega (arith, size)),
          ap is_zero_block first ∙ m.not_end,
          ap (read_header decode_utf8) first ∙ m.described,
          not-below_false (length bytes) (512 + padded e.header.size + 1024)
              (omega (arith, size, long)),
          ap is_zero_block (padding-cut _ _ e bytes rest m) ∙ m.padding_zero,
          m.within,
          inspect_from,
        )
        (both_ap
            (λ r c.
              inspect_from decode_utf8 fuel limits r (used + added_bytes e.header)
                (before ++ record { header = e.header; body = c } ∷ []))
            (rest-cut _ _ e bytes rest m) (body-cut _ _ e bytes rest m)
          ∙ inspect_from-accepts fuel (used + added_bytes e.header) rest (before ++ e ∷ []) es
              (subst (λ n. IsArchive decode_utf8 limits (used + added_bytes e.header) n rest es)
                (sym (length-append before (e ∷ []) ∙ omega arith)) h)
              (omega (arith, size, k))
              (ap (λ xs. length xs == 0) (append_assoc before (e ∷ []) es) ∙ some_entry)
          ∙ ap ok (append_assoc before (e ∷ []) es))

  -- Entries that `inspectExactUstar` returns are all there is in the bytes: there is at least one, each
  -- is a header block that reads as the entry's header, its body, and zeros up to a block, within the
  -- limits, and behind the last one are two zero blocks and nothing more.
  pub inspect_exact_ustar-IsArchive :
      (bytes : Bytes) (es : List RawEntry)
      → inspect_exact_ustar decode_utf8 limits bytes ≡ ok es
      → ((length es == 0) ≡ false) × IsArchive decode_utf8 limits 0 0 bytes es
  unfolding inspect_exact_ustar
  inspect_exact_ustar-IsArchive bytes es h =
      let (_, found) =
        refuse-eq-ok (ltb (length bytes) 1024 || not (length bytes % 512 == 0)) archive_invalid _
          h in
      let (all, same, some_entry, archive) =
        inspect_from-IsArchive (length bytes) 0 bytes [] es found in
      (some_entry, subst (IsArchive decode_utf8 limits 0 0 bytes) (sym same) archive)

  -- The loop of `inspectExactUstar` ends with the entries of every archive that has that shape: the
  -- fuel of one round for each byte is enough, and no guard refuses such an archive.
  pub inspect_exact_ustar-accepts :
      (bytes : Bytes) (es : List RawEntry)
      → ((length es == 0) ≡ false)
      → IsArchive decode_utf8 limits 0 0 bytes es
      → inspect_exact_ustar decode_utf8 limits bytes ≡ ok es
  unfolding inspect_exact_ustar
  inspect_exact_ustar-accepts bytes es some_entry archive =
      let (long, whole) = IsArchive-length decode_utf8 limits 0 0 bytes es archive in
      rw (not-below_false (length bytes) 1024 long, ap (λ n. n == 0) whole)
        (inspect_from-accepts (length bytes) 0 bytes [] es archive (omega arith) some_entry)
