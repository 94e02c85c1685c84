-- ===== src/Stage/Integrity.antt =====
-- stage/integrity.ts: the authority that verifies downloaded artifacts, with `parseSha512Integrity`
-- of stage/profile.ts. The digest and base64 are parameters.
pub mod Bounds
use agent_permission_guard.Base.{
  ltb, leb, ◌==◌, if◌then◌else◌, length, Text, codes, text_eq, text_mem, ℕ, ◌+◌, ◌-◌, Bool, false,
  ◌&&◌, ◌||◌, not, Option, none, some, List, [], ◌∷◌, ◌++◌,
}
use agent_permission_guard.Install.{skip_run, is_digit}

pub record ArtifactNode : Type 0 where
  pub install_path : Text
  pub tarball_url : Text
  pub sha512_integrity : Text

pub record VerifiedArtifact : Type 0 where
  pub node : ArtifactNode
  pub compressed_bytes : ℕ

pub record Limits : Type 0 where
  pub compressed_artifact_bytes : ℕ
  pub total_compressed_bytes : ℕ

pub record IntegrityAuthority : Type 0 where
  pub limits : Limits
  -- The artifacts that were authenticated, the newest first, and the sum of their sizes.
  pub authenticated : List VerifiedArtifact
  pub verified_paths : List Text
  pub aggregate_bytes : ℕ

-- The constructor, which throws for limits that do not fit; safe integers are the type's.
unfoldable pub new_integrity_authority : Limits → Option IntegrityAuthority
new_integrity_authority l =
    if l.compressed_artifact_bytes == 0 || ltb l.total_compressed_bytes l.compressed_artifact_bytes
    then none
    else some (record { limits = l; authenticated = []; verified_paths = []; aggregate_bytes = 0 })

-- What the stream gives next: the bytes of a chunk, something else, or an exception; and whether the
-- signal is aborted then.
pub data Chunk : Type 0 where
  chunk : Bool → List ℕ → Chunk
  no_bytes stream_error : Bool → Chunk

pub data IntegrityError : Type 0 where
  artifact_cancelled integrity_invalid artifact_too_large integrity_mismatch : IntegrityError

pub data Received : Type 0 where
  received : List ℕ → Received
  refused : IntegrityError → Received

-- The loop over the stream, behind the bytes received so far.
unfoldable pub receive : IntegrityAuthority → List Chunk → List ℕ → Received
receive a [] bytes = received bytes
receive a (chunk aborted more ∷ chunks) bytes =
    let all_bytes = bytes ++ more in
    let rest = receive a chunks all_bytes in
    if aborted
    then refused artifact_cancelled
    else if ltb a.limits.compressed_artifact_bytes (length all_bytes)
        || ltb a.limits.total_compressed_bytes (a.aggregate_bytes + length all_bytes)
    then refused artifact_too_large
    else rest
receive a (no_bytes aborted ∷ chunks) bytes =
    if aborted then refused artifact_cancelled else refused integrity_invalid
receive a (stream_error aborted ∷ chunks) bytes =
    if aborted then refused artifact_cancelled else refused integrity_invalid

pub data Verified : Type 0 where
  verified : VerifiedArtifact → IntegrityAuthority → Verified
  rejected : IntegrityError → Verified

unfoldable pub behind_prefix : Text → Text → Option Text
behind_prefix [] s = some s
behind_prefix (c ∷ p) [] = none
behind_prefix (c ∷ p) (d ∷ s) = let rest = behind_prefix p s in if c == d then rest else none

-- `[A-Za-z0-9+/]`
abbrev pub is_base64_char : ℕ → Bool
is_base64_char c = is_digit c || leb 65 c && leb c 90 || leb 97 c && leb c 122 || c == 43 || c == 47

abbrev pub is_padding : Option Text → Bool
is_padding none = false
is_padding (some s) = text_eq s [] || text_eq s (61 ∷ []) || text_eq s (61 ∷ 61 ∷ [])

module _ (decode_base64 : Text → List ℕ) (encode_base64 : List ℕ → Text) where
  unfoldable pub decode_integrity : Option Text → Option (List ℕ)
  unfolding skip_run
  decode_integrity none = none
  decode_integrity (some encoded) =
      let decoded = decode_base64 encoded in
      if not (is_padding (skip_run is_base64_char encoded))
        || not (length decoded == 64)
        || not (text_eq (encode_base64 decoded) encoded)
      then none
      else some decoded

  unfoldable pub parse_sha512_integrity : Text → Option (List ℕ)
  unfolding behind_prefix decode_integrity
  parse_sha512_integrity integrity = decode_integrity (behind_prefix (codes "sha512-") integrity)

module _ (sha512 : List ℕ → List ℕ) where
  -- Behind the stream.
  unfoldable pub check_digest :
      IntegrityAuthority → ArtifactNode → List ℕ → Bool → Received → Verified
  check_digest a n expected aborted (refused e) = rejected e
  check_digest a n expected aborted (received bytes) =
      let artifact : VerifiedArtifact = record { node = n; compressed_bytes = length bytes } in
      if aborted
      then rejected artifact_cancelled
      else if not (text_eq (sha512 bytes) expected)
      then rejected integrity_mismatch
      else verified artifact (record a {
        authenticated = artifact ∷ a.authenticated;
        verified_paths = n.install_path ∷ a.verified_paths;
        aggregate_bytes = a.aggregate_bytes + length bytes;
      })

  unfoldable pub verify_expected :
      IntegrityAuthority → ArtifactNode → List Chunk → Bool → Option (List ℕ) → Verified
  unfolding receive check_digest
  verify_expected a n chunks aborted none = rejected integrity_invalid
  verify_expected a n chunks aborted (some expected) =
      check_digest a n expected aborted (receive a chunks [])

  -- `verify`; `aborted` is the signal's state behind the stream.
  unfoldable pub verify :
      (Text → List ℕ)
      → (List ℕ → Text)
      → IntegrityAuthority
      → ArtifactNode
      → List Chunk
      → Bool
      → Verified
  unfolding verify_expected parse_sha512_integrity
  verify decode_base64 encode_base64 a n chunks aborted =
      if text_mem n.install_path a.verified_paths
      then rejected integrity_invalid
      else verify_expected a n chunks aborted
          (parse_sha512_integrity decode_base64 encode_base64 n.sha512_integrity)
