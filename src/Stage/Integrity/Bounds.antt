-- ===== src/Stage/Integrity/Bounds.antt =====
-- What the integrity authority has authenticated.
use agent_permission_guard.Base.{
  ltb, ◌==◌, Bool-cases, length, append_nil, append_assoc, In, Text, text_eq, text_eq_iff, text_mem,
  ℕ, ◌+◌, ◌≤◌, ◌≡◌, refl, sym, ap, ◌∙◌, subst, inl, inr, Bool, true, false, ◌&&◌, ◌||◌, not, Option,
  none, some, List, [], ◌∷◌, ◌++◌, arith,
}
use agent_permission_guard.Stage.Integrity.{
  ArtifactNode, VerifiedArtifact, Limits, IntegrityAuthority, new_integrity_authority, Chunk, chunk,
  no_bytes, stream_error, Received, received, refused, receive, verified, parse_sha512_integrity,
  check_digest, verify_expected, verify,
}

unfoldable pub total_bytes : List VerifiedArtifact → ℕ
total_bytes [] = 0
total_bytes (a ∷ as_) = a.compressed_bytes + total_bytes as_

-- The sizes are within the limits, and add up to the aggregate.
pub record IsBounded (a : IntegrityAuthority) : Type 0 where
  pub sum : a.aggregate_bytes ≡ total_bytes a.authenticated
  pub total : a.aggregate_bytes ≤ a.limits.total_compressed_bytes
  pub each :
      (x : VerifiedArtifact)
      → In x a.authenticated
      → x.compressed_bytes ≤ a.limits.compressed_artifact_bytes

some-inj : {a b : IntegrityAuthority} → some a ≡ some b → a ≡ b
some-inj e = cc

pub new-IsBounded :
    (l : Limits) (a : IntegrityAuthority) → new_integrity_authority l ≡ some a → IsBounded a
unfolding new_integrity_authority total_bytes
new-IsBounded l a h =
    elim (Bool-cases (
      l.compressed_artifact_bytes == 0
      || ltb l.total_compressed_bytes l.compressed_artifact_bytes)) [
        | inl e ↦ absurd (let q = rw (e, new_integrity_authority) at h in cc)
        | inr e ↦
            subst IsBounded (some-inj (rw (e, new_integrity_authority) at h))
              (record { sum = refl; total = omega arith; each = λ x m. absurd m })
      ]

abbrev too_large : IntegrityAuthority → ℕ → Bool
too_large a n =
    ltb a.limits.compressed_artifact_bytes n
    || ltb a.limits.total_compressed_bytes (a.aggregate_bytes + n)

within :
    (a : IntegrityAuthority) (n : ℕ)
    → too_large a n ≡ false
    → (n ≤ a.limits.compressed_artifact_bytes)
      × (a.aggregate_bytes + n ≤ a.limits.total_compressed_bytes)
within a n h = ground arith

-- The bytes of a stream, one chunk behind the other.
unfoldable pub bytes_of : List Chunk → List ℕ
bytes_of [] = []
bytes_of (chunk aborted more ∷ chunks) = more ++ bytes_of chunks
bytes_of (no_bytes aborted ∷ chunks) = bytes_of chunks
bytes_of (stream_error aborted ∷ chunks) = bytes_of chunks

-- Every item of a stream is a chunk of bytes, and none came when the signal was aborted.
unfoldable pub is_complete : List Chunk → Bool
is_complete [] = true
is_complete (chunk aborted more ∷ chunks) = not aborted && is_complete chunks
is_complete (no_bytes aborted ∷ chunks) = false
is_complete (stream_error aborted ∷ chunks) = false

-- What is received is all that came, in its order.
receive-bytes_of :
    (a : IntegrityAuthority) (chunks : List Chunk) (bytes out : List ℕ)
    → receive a chunks bytes ≡ received out
    → (out ≡ bytes ++ bytes_of chunks) × (is_complete chunks ≡ true)
unfolding receive bytes_of is_complete
receive-bytes_of a [] bytes out e =
    let same : bytes ≡ out = cc in (sym same ∙ sym (append_nil bytes), refl)
receive-bytes_of a (chunk aborted more ∷ chunks) bytes out e = elim (Bool-cases aborted) [
  | inl q ↦ absurd (let r = rw (q, receive) at e in cc)
  | inr q ↦ elim (Bool-cases (too_large a (length (bytes ++ more)))) [
    | inl f ↦ absurd (let r = rw (q, f, receive) at e in cc)
    | inr f ↦
        let (same, complete) =
          receive-bytes_of a chunks (bytes ++ more) out (rw (q, f, receive) at e) in
        (same ∙ append_assoc bytes more (bytes_of chunks), rw (q, complete) refl)
  ]
]
receive-bytes_of a (no_bytes aborted ∷ chunks) bytes out e = absurd (ground arith)
receive-bytes_of a (stream_error aborted ∷ chunks) bytes out e = absurd (ground arith)

receive-bounded :
    (a : IntegrityAuthority) (chunks : List Chunk) (bytes out : List ℕ)
    → length bytes ≤ a.limits.compressed_artifact_bytes
    → a.aggregate_bytes + length bytes ≤ a.limits.total_compressed_bytes
    → receive a chunks bytes ≡ received out
    → (length out ≤ a.limits.compressed_artifact_bytes)
      × (a.aggregate_bytes + length out ≤ a.limits.total_compressed_bytes)
unfolding receive
receive-bounded a [] bytes out h k e = let same : bytes ≡ out = cc in rw (← same) (h, k)
receive-bounded a (chunk aborted more ∷ chunks) bytes out h k e = elim (Bool-cases aborted) [
  | inl q ↦ absurd (let r = rw (q, receive) at e in cc)
  | inr q ↦ elim (Bool-cases (too_large a (length (bytes ++ more)))) [
    | inl f ↦ absurd (let r = rw (q, f, receive) at e in cc)
    | inr f ↦
        let fits = within a (length (bytes ++ more)) f in
        receive-bounded a chunks (bytes ++ more) out fits.0 fits.1 (rw (q, f, receive) at e)
  ]
]
receive-bounded a (no_bytes aborted ∷ chunks) bytes out h k e = absurd (ground arith)
receive-bounded a (stream_error aborted ∷ chunks) bytes out h k e = absurd (ground arith)

verified-parts :
    {x y : VerifiedArtifact} {a b : IntegrityAuthority}
    → verified x a ≡ verified y b
    → (x ≡ y) × (a ≡ b)
verified-parts e = (cc, cc)

module _ (sha512 : List ℕ → List ℕ) where
  -- The artifact has the node, and the size of the bytes, whose digest is the expected one; and it is
  -- added to those that were there.
  pub record Accepted (a : IntegrityAuthority) (n : ArtifactNode) (expected bytes : List ℕ)
      (x : VerifiedArtifact) (b : IntegrityAuthority) : Type 0 where
    pub bounded : IsBounded b
    pub node : x.node ≡ n
    pub size : x.compressed_bytes ≡ length bytes
    pub digest : sha512 bytes ≡ expected
    pub limits : b.limits ≡ a.limits
    pub authenticated : b.authenticated ≡ x ∷ a.authenticated
    pub verified_paths : b.verified_paths ≡ n.install_path ∷ a.verified_paths
    pub aggregate : b.aggregate_bytes ≡ a.aggregate_bytes + length bytes

  add-Accepted :
      (a : IntegrityAuthority) (n : ArtifactNode) (expected bytes : List ℕ) (x : VerifiedArtifact)
      → IsBounded a
      → (length bytes ≤ a.limits.compressed_artifact_bytes)
        × (a.aggregate_bytes + length bytes ≤ a.limits.total_compressed_bytes)
      → sha512 bytes ≡ expected
      → x ≡ record { node = n; compressed_bytes = length bytes }
      → Accepted a n expected bytes x (record a {
        authenticated = x ∷ a.authenticated;
        verified_paths = n.install_path ∷ a.verified_paths;
        aggregate_bytes = a.aggregate_bytes + length bytes;
      })
  unfolding total_bytes
  add-Accepted a n expected bytes x v fits digest same =
      let size : x.compressed_bytes ≡ length bytes = ap (λ y. y.compressed_bytes) same in
      record {
        bounded = record {
          sum = omega (arith, v.sum, size);
          total = fits.1;
          each = λ y m. elim m [ inl e ↦ rw (e, size) fits.0 | inr k ↦ v.each y k ];
        };
        node = ap (λ y. y.node) same;
        size = size;
        digest = digest;
        limits = refl;
        authenticated = refl;
        verified_paths = refl;
        aggregate = refl;
      }

  check_digest-Accepted :
      (a : IntegrityAuthority) (n : ArtifactNode) (expected : List ℕ) (aborted : Bool)
      (r : Received) (x : VerifiedArtifact) (b : IntegrityAuthority)
      → IsBounded a
      → ((out : List ℕ)
          → r ≡ received out
          → (length out ≤ a.limits.compressed_artifact_bytes)
            × (a.aggregate_bytes + length out ≤ a.limits.total_compressed_bytes))
      → check_digest sha512 a n expected aborted r ≡ verified x b
      → (bytes : List ℕ) × (r ≡ received bytes) × Accepted a n expected bytes x b
  unfolding check_digest
  check_digest-Accepted a n expected aborted (refused q) x b v fits e = absurd (cc)
  check_digest-Accepted a n expected aborted (received bytes) x b v fits e =
      elim (Bool-cases aborted) [
        | inl f ↦ absurd (let q = rw (f, check_digest) at e in cc)
        | inr f ↦ elim (Bool-cases (text_eq (sha512 bytes) expected)) [
          | inr g ↦ absurd (let q = rw (f, g, check_digest) at e in cc)
          | inl g ↦
              let q = rw (f, g, check_digest) at e in
              let (ex, eb) = verified-parts q in
              let art : VerifiedArtifact = record { node = n; compressed_bytes = length bytes } in
              (
                bytes,
                refl,
                subst (λ y. Accepted a n expected bytes y b) ex
                    (subst (λ c. Accepted a n expected bytes art c) eb
                      (add-Accepted a n expected bytes art v (fits bytes refl)
                        ((text_eq_iff (sha512 bytes) expected).0 g) refl)),
              )
        ]
      ]

  verify_expected-Accepted :
      (a : IntegrityAuthority) (n : ArtifactNode) (chunks : List Chunk) (aborted : Bool)
      (o : Option (List ℕ)) (x : VerifiedArtifact) (b : IntegrityAuthority)
      → IsBounded a
      → verify_expected sha512 a n chunks aborted o ≡ verified x b
      → (expected : List ℕ) × (o ≡ some expected)
        × (is_complete chunks ≡ true)
        × Accepted a n expected (bytes_of chunks) x b
  unfolding verify_expected
  verify_expected-Accepted a n chunks aborted none x b v e = absurd (cc)
  verify_expected-Accepted a n chunks aborted (some expected) x b v e =
      let (bytes, found, accepted) =
        check_digest-Accepted a n expected aborted (receive a chunks []) x b v
          (λ out q. receive-bounded a chunks [] out (omega arith) (omega (arith, v.total)) q) e in
      let (same, complete) = receive-bytes_of a chunks [] bytes found in
      (expected, refl, complete, subst (λ z. Accepted a n expected z x b) same accepted)

  -- If `verify` returns an artifact, and the sizes of the authority are within the limits and add up to
  -- its aggregate, then the path was not verified before, every item of the stream was a chunk of
  -- bytes and none came after an abort, the digest of the chunks in their order is the one that the
  -- integrity of the node names, the artifact has that node and the size of the chunks, the authority
  -- has gained this artifact, its path and its size and nothing else, and its sizes are within the
  -- limits and add up to its aggregate still.
  pub verify-Accepted :
      (decode_base64 : Text → List ℕ) (encode_base64 : List ℕ → Text) (a : IntegrityAuthority)
      (n : ArtifactNode) (chunks : List Chunk) (aborted : Bool) (x : VerifiedArtifact)
      (b : IntegrityAuthority)
      → IsBounded a
      → verify sha512 decode_base64 encode_base64 a n chunks aborted ≡ verified x b
      → (text_mem n.install_path a.verified_paths ≡ false)
        × ((expected : List ℕ) × (parse_sha512_integrity decode_base64 encode_base64
                n.sha512_integrity
              ≡ some expected)
            × (is_complete chunks ≡ true)
            × Accepted a n expected (bytes_of chunks) x b)
  unfolding verify
  verify-Accepted decode_base64 encode_base64 a n chunks aborted x b v e =
      elim (Bool-cases (text_mem n.install_path a.verified_paths)) [
        | inl f ↦ absurd (let q = rw (f, verify) at e in cc)
        | inr f ↦ (
          f,
          verify_expected-Accepted a n chunks aborted
              (parse_sha512_integrity decode_base64 encode_base64 n.sha512_integrity) x b v
              (rw (f, verify) at e),
        )
      ]
