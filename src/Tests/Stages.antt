-- ===== src/Tests/Stages.antt =====
-- The stage of the packages on concrete inputs.
use agent_permission_guard.Base.{
  Text, codes, text_eq, text_mem, ℕ, zero, suc, ◌≡◌, refl, inl, inr, true, false, some, List, [],
  ◌∷◌,
}
use agent_permission_guard.Stage.States.{
  StageState, metadata_confirming, plan_ready, stage_approval_pending, downloading,
  artifacts_verified, archives_preflighted, materializing, tree_verified, ready_to_commit, ready,
  state_number, transitions,
}
use agent_permission_guard.Stage.States.Checkpoints.{visits, ready-visits}
use agent_permission_guard.Stage.Integrity.{
  ArtifactNode, VerifiedArtifact, Limits, IntegrityAuthority, new_integrity_authority, chunk,
  parse_sha512_integrity, verify,
}
use agent_permission_guard.Stage.Integrity.Bounds.{
  IsBounded, bytes_of, is_complete, Accepted, new-IsBounded, verify-Accepted,
}

abbrev to_ready : List StageState
to_ready =
    metadata_confirming ∷ plan_ready ∷ stage_approval_pending ∷ downloading ∷ artifacts_verified
    ∷ archives_preflighted ∷ materializing ∷ tree_verified ∷ ready_to_commit ∷ ready ∷ []

ready-visits_example : visits stage_approval_pending to_ready ≡ true
unfolding transitions state_number
ready-visits_example =
    ready-visits to_ready ready refl refl stage_approval_pending (inr (inr (inl refl)))

abbrev small_limits : Limits
small_limits = record { compressed_artifact_bytes = 100; total_compressed_bytes = 200 }

abbrev empty_authority : IntegrityAuthority
empty_authority = record {
  limits = small_limits;
  authenticated = [];
  verified_paths = [];
  aggregate_bytes = 0;
}

abbrev repeat : ℕ → ℕ → List ℕ
repeat zero n = []
repeat (suc k) n = n ∷ repeat k n

-- Stand-ins for the digest and for base64.
abbrev a_digest : List ℕ → List ℕ
a_digest bytes = repeat 64 7

abbrev a_decoder : Text → List ℕ
a_decoder s = repeat 64 7

abbrev an_encoder : List ℕ → Text
an_encoder bytes = codes "BwcH"

abbrev a_node : ArtifactNode
a_node = record {
  install_path = codes "node_modules/a";
  tarball_url = codes "https://registry.npmjs.org/a.tgz";
  sha512_integrity = codes "sha512-BwcH";
}

abbrev an_artifact : VerifiedArtifact
an_artifact = record { node = a_node; compressed_bytes = 3 }

abbrev next_authority : IntegrityAuthority
next_authority = record {
  limits = small_limits;
  authenticated = an_artifact ∷ [];
  verified_paths = codes "node_modules/a" ∷ [];
  aggregate_bytes = 3;
}

empty_authority-IsBounded : IsBounded empty_authority
unfolding new_integrity_authority
empty_authority-IsBounded = new-IsBounded small_limits empty_authority refl

verify-Accepted_example :
    (text_mem (codes "node_modules/a") [] ≡ false)
    × ((expected : List ℕ) × (parse_sha512_integrity a_decoder an_encoder (codes "sha512-BwcH")
          ≡ some expected)
        × (is_complete (chunk false (1 ∷ 2 ∷ []) ∷ chunk false (3 ∷ []) ∷ []) ≡ true)
        × Accepted a_digest empty_authority a_node expected
            (bytes_of (chunk false (1 ∷ 2 ∷ []) ∷ chunk false (3 ∷ []) ∷ []))
            an_artifact
            next_authority)
unfolding verify text_mem text_eq
verify-Accepted_example =
    verify-Accepted a_digest a_decoder an_encoder empty_authority a_node
      (chunk false (1 ∷ 2 ∷ []) ∷ chunk false (3 ∷ []) ∷ []) false an_artifact next_authority
      empty_authority-IsBounded refl
