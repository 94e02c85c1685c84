-- ===== src/Stage/Peers/Analysis.antt =====
-- stage/peer-dependency-semantics.ts: `analyzePeerDependencySemantics`.
pub mod Walks
pub mod Loop
pub mod Sound
pub mod Accepted
use agent_permission_guard.Base.{
  ltb, leb, ◌==◌, if◌then◌else◌, ltb→lt, lt→ltb, leb→le, ==_iff, ==_refl, tests, Bool-cases,
  Option-cases, and-true, or-true, or-false, not-not, not-below, not-below_false, not-other,
  or_left, or_right, length, get_elem?, any, all, keep, take, drop, length-append, any-append,
  take-append-drop, all-append, append_nil, append_assoc, all-take-drop, take-length, drop-length,
  length-take, drop-drop, length-drop, length-take-le, All, All-append, In, All-In, In-All, all-In,
  Text, codes, text_eq, text_eq_refl, text_eq_iff, text_mem, decimal, read_decimal, read-decimal,
  is_digit, starts_nonzero, decimal-digits, decimal-starts, decimal_zero, ℤ, pos, negsuc, pos_part,
  neg_part, compare_ℤ, flip, then_by, IsOrder, then_by-IsOrder, reverse-IsOrder, insert_by, sort_by,
  IsSorted, mem-sort, sort-IsSorted, compare-IsOrder, compare_ℤ-IsOrder, key-IsOrder, text_compare,
  text_compare-separates, text_compare-IsOrder, to_first, split_on, join_with, is_empty_text,
  has_unit, begins_with, utf8_length, join-split, lacks, split-lacks, split-join, ℕ, zero, suc, ◌+◌,
  ◌-◌, ◌*◌, ◌/◌, ◌%◌, ◌^◌, ◌≤◌, ◌<◌, min, max, compare, Ordering, String, ◌≡◌, refl, sym, ap, ◌∙◌,
  subst, ◌≢◌, ◌↔◌, ◌⊎◌, inl, inr, Bool, true, false, ◌&&◌, ◌||◌, not, false≢true, Option, none,
  some, List, [], ◌∷◌, ◌++◌, map, arith,
}
use agent_permission_guard.Base.Outcome.{Outcome, ok, throws, refuse, ◌>>=◌, ◌>>◌}
use agent_permission_guard.Json.{Value, object, array}
use agent_permission_guard.Stage.Peers.{
  PeerError, version_invalid, specifier_invalid, budget_exceeded, shape_invalid, peer_shape_invalid,
  peer_meta_invalid, role_type_invalid, prohibited_role, prohibited_field, overlap,
  ordinary_resolution, ordinary_range, ordinary_cycle, self_peer, peer_local, peer_missing,
  peer_conflict, closure_incomplete, role_mismatch, Checked, Version, Operator, below, at_most,
  above, at_least, exactly, Comparison, Range, Prefix, plain, caret, tilde, is_canonical,
  version_of, parse_version, strip_prefix, increment, raised_index, between, comparisons_of, Budget,
  parse_branch, parse_branches, split_bars, atoms_of, is_empty_branch, ends_in_space, parse_range,
  compare_versions, fits, holds, satisfies,
}
use agent_permission_guard.Stage.Peers.Paths.{
  node_modules, slash, is_scope, is_package, are_packages, valid_path, depth, child_path,
  before_package, is_line_end, matched, parent_path, last_name, path_name,
}
use agent_permission_guard.Stage.Peers.Nodes.{
  own_record_or_empty, own_record, bounded_string, package_name, string_map, by_key, keys, field,
  Entries, Node, parse_node, items_of, entries_of, Peer, role_flags, field_rejections, node_keys,
  check_flag, check_flags, flag_of, optional_of, peers_of, peer_map,
}
use agent_permission_guard.Stage.Peers.Resolution.{
  Ready, ranges_of, peer_ranges_of, ready_nodes, find_node, resolve_from, resolve_nearest, found,
  ordinary_targets, ordinary_edges, root_targets,
}
use agent_permission_guard.Stage.Peers.Graph.{
  Graph, targets, sort_paths, absent, closure_loop, edge_count, closure, visit_all, visit,
  assert_ordinary_dag, Required, include_all, added, include_required,
}

-- `PeerRequirementOutcome`
pub record Requirement : Type 0 where
  pub source : Text
  pub name : Text
  pub optional : Bool
  pub target_path : Option Text

-- `PeerSemanticsAnalysis`
pub record Analysis : Type 0 where
  pub production_paths : List Text
  pub required_paths : List Text
  pub peer_requirements : List Requirement

-- The variables of the loop over the required nodes.
pub record Walk : Type 0 where
  pub required : Required
  pub processed : List Text
  pub outcomes : List Requirement

abbrev pub is_found : Option Ready → Bool
is_found none = false
is_found (some n) = true

abbrev pub or_root : Option Text → Text
or_root none = []
or_root (some p) = p

abbrev pub noted : Requirement → Walk → Walk
noted r w = record w { outcomes = w.outcomes ++ r ∷ [] }

abbrev pub dequeued : List Text → Walk → Walk
dequeued queue w = record w { required = record { paths = w.required.paths; queue = queue } }

abbrev pub taken : Text → List Text → Walk → Walk
taken u queue w = record (dequeued queue w) { processed = w.processed ++ u ∷ [] }

module _ (nodes : List Ready) (g : Graph) where
  -- `includeRequired` of a mandatory peer.
  abbrev pub demanded : Bool → Ready → Walk → Walk
  demanded true target w = w
  demanded false target w = record w {
    required = include_required (length nodes) g w.required target.path;
  }

  -- What the lookup of a peer leads to.
  unfoldable pub with_peer : Ready → Text → Bool → Range → Option Ready → Walk → Checked Walk
  unfolding satisfies text_eq include_required
  with_peer node name optional range none w = do
    refuse (not optional) peer_missing
    ok (noted (record { source = node.path; name = name; optional = true; target_path = none }) w)
  with_peer node name optional range (some target) w = do
    refuse (text_eq target.path node.path) self_peer
    refuse (not (satisfies target.version range)) peer_conflict
    ok (
        demanded optional target (
          noted
            (record {
              source = node.path;
              name = name;
              optional = optional;
              target_path = some target.path;
            })
            w))

  -- The loop over the peers of a node.
  unfoldable pub process_peers : Ready → List (Text × (Bool × Range)) → Walk → Checked Walk
  unfolding with_peer find_node child_path resolve_nearest parent_path
  process_peers node [] w = ok w
  process_peers node ((name, (optional, range)) ∷ rest) w = do
    refuse (text_eq name node.name) self_peer
    refuse (is_found (find_node (child_path node.path name) nodes)) peer_local
    next ←
        with_peer node name optional range
          (resolve_nearest nodes (or_root (parent_path node.path)) name) w
    process_peers node rest next

  abbrev pub process_found : Option Ready → Walk → Checked Walk
  process_found none w = ok w
  process_found (some node) w = process_peers node node.peers w

  -- A round of the loop, for the path that was first in the queue.
  unfoldable pub process : Text → List Text → Walk → Checked Walk
  unfolding process_peers find_node text_mem
  process u queue w = elim (text_mem u w.processed) [
    | true ↦ ok (dequeued queue w)
    | false ↦ process_found (find_node u nodes) (taken u queue w)
  ]

  abbrev pub next_round : (Walk → Checked Walk) → List Text → Walk → Checked Walk
  next_round more [] w = ok w
  next_round more (u ∷ queue) w = process u queue w >>= more

  -- The `while` loop on the queue, of which each round takes the first in the order of paths. A path is
  -- queued when it comes into the set, so there are at most as many rounds as nodes.
  unfoldable pub peers_loop : ℕ → Walk → Checked Walk
  unfolding process
  peers_loop zero w = ok w
  peers_loop (suc fuel) w = next_round (peers_loop fuel) (sort_paths w.required.queue) w

abbrev pub or_incomplete : Option (List Text) → Checked (List Text)
or_incomplete none = throws closure_incomplete
or_incomplete (some ps) = ok ps

abbrev pub has_other_role : Option Bool → Bool → Bool
has_other_role none expected = false
has_other_role (some true) expected = not expected
has_other_role (some false) expected = expected

-- The check of the `peer` flags.
unfoldable pub has_wrong_role : List Text → List Text → Ready → Bool
unfolding text_mem
has_wrong_role production required n =
    has_other_role n.peer_flag (text_mem n.path required && not (text_mem n.path production))

abbrev pub unwalked : Required → Walk
unwalked s = record { required = s; processed = []; outcomes = [] }

abbrev pub compare_requirements : Requirement → Requirement → Ordering
compare_requirements a b = text_compare (a.source ++ 0 ∷ a.name) (b.source ++ 0 ∷ b.name)

-- From the nodes with their ranges to the result.
unfoldable pub analyze_ready : List Ready → List (Text × Range) → Checked Analysis
unfolding ordinary_edges root_targets closure assert_ordinary_dag include_required include_all
    peers_loop has_wrong_role
analyze_ready nodes root = do
  g ← ordinary_edges nodes nodes
  roots ← root_targets nodes root
  production ← or_incomplete (closure g roots)
  assert_ordinary_dag g production >>= λ order. ok tt
  let start =
      include_all (include_required (length nodes) g) (record { paths = []; queue = [] }) production
  w ← peers_loop nodes g (length nodes) (unwalked start)
  assert_ordinary_dag g w.required.paths >>= λ order. ok tt
  refuse (not (length w.required.paths == length nodes)) closure_incomplete
  refuse (any (has_wrong_role production w.required.paths) nodes) role_mismatch
  ok (record {
    production_paths = sort_paths production;
    required_paths = sort_paths w.required.paths;
    peer_requirements = sort_by compare_requirements w.outcomes;
  })

-- The counts of the requirements, before the nodes are read.
unfoldable pub check_budget : ℕ → ℕ → List Entries → Checked (Unit {0})
unfolding field
check_budget peer_count requirement_count [] = ok tt
check_budget peer_count requirement_count (raw ∷ rest) = do
  dependencies ← own_record_or_empty shape_invalid (field (codes "dependencies") raw)
  peers ← own_record_or_empty peer_shape_invalid (field (codes "peerDependencies") raw)
  refuse (ltb 64 (length peers)) budget_exceeded
  let peer_total = peer_count + length peers
  let total = requirement_count + (length dependencies + length peers)
  refuse (ltb 2048 peer_total || ltb 4096 total) budget_exceeded
  check_budget peer_total total rest

-- The raw nodes with their paths.
unfoldable pub shallow_nodes : List Value → Checked (List (Text × Entries))
unfolding field
shallow_nodes [] = ok []
shallow_nodes (v ∷ vs) = do
  raw ← own_record shape_invalid (some v)
  path ← bounded_string shape_invalid (field (codes "installPath") raw)
  rest ← shallow_nodes vs
  ok ((path, raw) ∷ rest)

-- The nodes in the order of their paths, each path once.
unfoldable pub parse_nodes : List Text → List (Text × Entries) → Checked (List Node)
unfolding parse_node text_mem
parse_nodes seen [] = ok []
parse_nodes seen ((path, raw) ∷ rest) = do
  node ← parse_node raw
  refuse (text_mem node.path seen) shape_invalid
  others ← parse_nodes (node.path ∷ seen) rest
  ok (node ∷ others)

abbrev pub lacks_parent : List Text → Option Text → Bool
lacks_parent paths none = false
lacks_parent paths (some p) = not (is_empty_text p) && not (text_mem p paths)

unfoldable pub check_names : List Text → Checked (Unit {0})
unfolding package_name
check_names [] = ok tt
check_names (name ∷ names) = package_name (some (Value.text name)) >>= λ n. check_names names

abbrev pub array_of : Option Value → Checked (List Value)
array_of (some (array vs)) = ok (items_of vs)
array_of _ = throws shape_invalid

-- `analyzePeerDependencySemantics`
unfoldable pub analyze_peer_dependency_semantics : Option Value → Checked Analysis
unfolding field check_budget shallow_nodes check_names parse_nodes parent_path ready_nodes ranges_of
    analyze_ready string_map text_mem
analyze_peer_dependency_semantics input = do
  input_record ← own_record shape_invalid input
  refuse
      (any (λ k. not (text_mem k (codes "rootDependencies" ∷ codes "nodes" ∷ [])))
        (keys input_record))
      shape_invalid
  root ← own_record shape_invalid (field (codes "rootDependencies") input_record)
  raw_nodes ← array_of (field (codes "nodes") input_record)
  refuse (ltb 256 (length raw_nodes)) budget_exceeded
  shallow ← shallow_nodes raw_nodes
  refuse (ltb 4096 (length root)) budget_exceeded
  check_budget 0 (length root) (map (λ (s : Text × Entries). s.1) shallow)
  root_dependencies ← string_map shape_invalid root
  check_names (keys root_dependencies)
  nodes ← parse_nodes [] (by_key shallow)
  let paths = map (λ (n : Node). n.path) nodes
  refuse (any (λ (n : Node). lacks_parent paths (parent_path n.path)) nodes) shape_invalid
  root_ranges ← ranges_of (by_key root_dependencies)
  ready ← ready_nodes nodes
  analyze_ready ready root_ranges
