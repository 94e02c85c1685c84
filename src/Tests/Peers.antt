-- ===== src/Tests/Peers.antt =====
-- The peer dependencies of packages on concrete inputs.
use agent_permission_guard.Stage.Peers.Graph.Passes.{IsRanking, assert_ordinary_dag-passes}
use agent_permission_guard.Stage.Peers.Graph.{Graph, targets, closure, assert_ordinary_dag}
use agent_permission_guard.Base.{
  if◌then◌else◌, Bool-cases, or-true, Text, codes, text_eq, text_eq_iff, text_mem, sort_by, ℕ, ◌≡◌,
  refl, ◌↔◌, inl, inr, true, false, false≢true, none, some, List, [], ◌∷◌, arith,
}
use agent_permission_guard.Base.Outcome.{ok}
use agent_permission_guard.Stage.Peers.{Version, at_least, Range}
use agent_permission_guard.Stage.Peers.Resolution.{Ready}
use agent_permission_guard.Stage.Peers.Graph.{Graph, targets, closure, assert_ordinary_dag}
use agent_permission_guard.Stage.Peers.Graph.Closure.{Reach, closure-Reach}
use agent_permission_guard.Stage.Peers.Analysis.{Analysis, analyze_ready}
use agent_permission_guard.Stage.Peers.Analysis.Sound.{IsAnalyzed}
use agent_permission_guard.Stage.Peers.Analysis.Accepted.{analyze_ready-IsAnalyzed}

abbrev a_path : Text
a_path = codes "node_modules/a"

abbrev b_path : Text
b_path = codes "node_modules/b"

abbrev c_path : Text
c_path = codes "node_modules/c"

abbrev version_1_2_3 : Version
version_1_2_3 = record { major = 1; minor = 2; patch = 3 }

abbrev from_1_2_3 : Range
from_1_2_3 = (record { operator = at_least; version = version_1_2_3 } ∷ []) ∷ []

-- The root depends on a, which depends on b, and b has c as a mandatory peer.
abbrev three_nodes : List Ready
three_nodes =
    record {
      path = a_path;
      name = codes "a";
      version = version_1_2_3;
      ordinary = (codes "b", from_1_2_3) ∷ [];
      peers = (codes "x", (true, from_1_2_3)) ∷ [];
      peer_flag = none;
    }
    ∷ record {
      path = b_path;
      name = codes "b";
      version = version_1_2_3;
      ordinary = [];
      peers = (codes "c", (false, from_1_2_3)) ∷ [];
      peer_flag = none;
    }
    ∷ record {
      path = c_path;
      name = codes "c";
      version = version_1_2_3;
      ordinary = [];
      peers = [];
      peer_flag = some true;
    }
    ∷ []

abbrev root_on_a : List (Text × Range)
root_on_a = (codes "a", from_1_2_3) ∷ []

abbrev three_analysed : Analysis
three_analysed = record {
  production_paths = a_path ∷ b_path ∷ [];
  required_paths = a_path ∷ b_path ∷ c_path ∷ [];
  peer_requirements =
      record { source = a_path; name = codes "x"; optional = true; target_path = none }
      ∷ record { source = b_path; name = codes "c"; optional = false; target_path = some c_path }
      ∷ [];
}

three-analyzed : analyze_ready three_nodes root_on_a ≡ ok three_analysed
unfolding analyze_ready sort_by
three-analyzed = refl

analyze_ready-IsAnalyzed_example : IsAnalyzed three_nodes root_on_a three_analysed
analyze_ready-IsAnalyzed_example =
    analyze_ready-IsAnalyzed three_nodes root_on_a three_analysed three-analyzed

-- a and b depend on each other, and a on c.
abbrev cyclic : Graph
cyclic = (a_path, b_path ∷ c_path ∷ []) ∷ (b_path, a_path ∷ []) ∷ (c_path, []) ∷ []

closure-Reach_example :
    (out : List Text) × (closure cyclic (a_path ∷ []) ≡ some out)
    × ((p : Text) → (text_mem p out ≡ true) ↔ Reach cyclic (a_path ∷ []) p)
closure-Reach_example = closure-Reach cyclic (a_path ∷ [])

-- a depends on b alone.
abbrev chain : Graph
chain = (codes "a", codes "b" ∷ []) ∷ (codes "b", []) ∷ []

abbrev chain_nodes : List Text
chain_nodes = codes "a" ∷ codes "b" ∷ []

abbrev chain_height : Text → ℕ
chain_height p = if text_eq p (codes "a") then 1 else 0

chain-IsRanking : IsRanking chain chain_nodes chain_height
unfolding text_mem targets
chain-IsRanking = record {
  falls = λ u v m n h. elim (Bool-cases (text_eq u (codes "a"))) [
    | inl e ↦ elim (or-true (text_eq v (codes "b")) false (rw (e, targets) at h)) [
      | inl s ↦ rw (e, (text_eq_iff v (codes "b")).0 s) (omega arith)
      | inr s ↦ absurd (false≢true s)
    ]
    | inr e ↦ elim (Bool-cases (text_eq u (codes "b"))) [
      | inl k ↦ absurd (false≢true (rw (e, k, targets) at h))
      | inr k ↦ absurd (false≢true (rw (e, k, targets) at h))
    ]
  ];
  low = λ u m. ground arith;
}

assert_ordinary_dag-passes_example :
    (out : List Text) × (assert_ordinary_dag chain chain_nodes ≡ ok out)
assert_ordinary_dag-passes_example =
    assert_ordinary_dag-passes chain chain_nodes chain_height chain-IsRanking
