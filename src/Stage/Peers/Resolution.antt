-- ===== src/Stage/Peers/Resolution.antt =====
-- stage/peer-dependency-semantics.ts: `resolveNearest`, which looks for a package beside a path and
-- then above it, and the edges that it gives.
pub mod Nearest
pub mod Complete
use agent_permission_guard.Base.{
  ltb, leb, ◌==◌, if◌then◌else◌, ltb→lt, lt→ltb, leb→le, ==_iff, ==_refl, tests, Bool-cases,
  Option-cases, and-true, or-true, or-false, not-not, not-below, not-below_false, not-other,
  or_left, or_right, length, get_elem?, any, all, keep, take, drop, length-append, any-append,
  take-append-drop, all-append, append_nil, append_assoc, all-take-drop, take-length, drop-length,
  length-take, drop-drop, length-drop, length-take-le, All, All-append, In, All-In, In-All, all-In,
  Text, codes, text_eq, text_eq_refl, text_eq_iff, text_mem, decimal, read_decimal, read-decimal,
  is_digit, starts_nonzero, decimal-digits, decimal-starts, decimal_zero, ℤ, pos, negsuc, pos_part,
  neg_part, compare_ℤ, flip, then_by, IsOrder, then_by-IsOrder, reverse-IsOrder, insert_by, sort_by,
  IsSorted, mem-sort, sort-IsSorted, compare-IsOrder, compare_ℤ-IsOrder, key-IsOrder, text_compare,
  text_compare-separates, text_compare-IsOrder, to_first, split_on, join_with, is_empty_text,
  has_unit, begins_with, utf8_length, join-split, lacks, split-lacks, split-join, ℕ, zero, suc, ◌+◌,
  ◌-◌, ◌*◌, ◌/◌, ◌%◌, ◌^◌, ◌≤◌, ◌<◌, min, max, compare, Ordering, String, ◌≡◌, refl, sym, ap, ◌∙◌,
  subst, ◌≢◌, ◌↔◌, ◌⊎◌, inl, inr, Bool, true, false, ◌&&◌, ◌||◌, not, false≢true, Option, none,
  some, List, [], ◌∷◌, ◌++◌, map, arith,
}
use agent_permission_guard.Base.Outcome.{
  Outcome, ok, throws, refuse, ◌>>=◌, ◌>>◌, refuse-eq-ok, bind-eq-ok, ok-injective,
}
use agent_permission_guard.Stage.Peers.{
  PeerError, version_invalid, specifier_invalid, budget_exceeded, shape_invalid, peer_shape_invalid,
  peer_meta_invalid, role_type_invalid, prohibited_role, prohibited_field, overlap,
  ordinary_resolution, ordinary_range, ordinary_cycle, self_peer, peer_local, peer_missing,
  peer_conflict, closure_incomplete, role_mismatch, Checked, Version, Operator, below, at_most,
  above, at_least, exactly, Comparison, Range, Prefix, plain, caret, tilde, is_canonical,
  version_of, parse_version, strip_prefix, increment, raised_index, between, comparisons_of, Budget,
  parse_branch, parse_branches, split_bars, atoms_of, is_empty_branch, ends_in_space, parse_range,
  compare_versions, fits, holds, satisfies,
}
use agent_permission_guard.Stage.Peers.Paths.{
  node_modules, slash, is_scope, is_package, are_packages, valid_path, depth, child_path,
  before_package, is_line_end, matched, parent_path, last_name, path_name,
}
use agent_permission_guard.Stage.Peers.Nodes.{
  Entries, entries_of, items_of, field, keys, by_key, own_record, own_record_or_empty,
  bounded_string, package_name, string_map, Peer, Node, role_flags, field_rejections, node_keys,
  check_flag, check_flags, flag_of, optional_of, peers_of, peer_map, parse_node,
}
use agent_permission_guard.Stage.Peers.Graph.{
  Graph, targets, sort_paths, absent, closure_loop, edge_count, closure, visit_all, visit,
  assert_ordinary_dag, Required, include_all, added, include_required,
}

-- A node with its ranges parsed, in the order of the names.
pub record Ready : Type 0 where
  pub path : Text
  pub name : Text
  pub version : Version
  pub ordinary : List (Text × Range)
  -- Whether the peer is optional, and its range.
  pub peers : List (Text × (Bool × Range))
  pub peer_flag : Option Bool

unfoldable pub ranges_of : List (Text × Text) → Checked (List (Text × Range))
unfolding parse_range
ranges_of [] = ok []
ranges_of ((name, range) ∷ rest) = do
  parsed ← parse_range range
  others ← ranges_of rest
  ok ((name, parsed) ∷ others)

unfoldable pub peer_ranges_of : List (Text × Peer) → Checked (List (Text × (Bool × Range)))
unfolding parse_range
peer_ranges_of [] = ok []
peer_ranges_of ((name, peer) ∷ rest) = do
  parsed ← parse_range peer.range
  others ← peer_ranges_of rest
  ok ((name, (peer.optional, parsed)) ∷ others)

unfoldable pub ready_nodes : List Node → Checked (List Ready)
unfolding ranges_of peer_ranges_of
ready_nodes [] = ok []
ready_nodes (n ∷ ns) = do
  ordinary ← ranges_of (by_key n.dependencies)
  peers ← peer_ranges_of (by_key n.peers)
  rest ← ready_nodes ns
  ok (
      record {
        path = n.path;
        name = n.name;
        version = n.version;
        ordinary = ordinary;
        peers = peers;
        peer_flag = n.peer_flag;
      }
      ∷ rest)

-- `nodes.get(path)`
unfoldable pub find_node : Text → List Ready → Option Ready
unfolding text_eq
find_node p [] = none
find_node p (n ∷ ns) = let rest = find_node p ns in if text_eq p n.path then some n else rest

-- The loop of `resolveNearest`; a parent's path is shorter.
unfoldable pub resolve_from : ℕ → List Ready → Text → Text → Option Ready
unfolding find_node child_path parent_path
resolve_from zero nodes context name = none
resolve_from (suc fuel) nodes context name = elim (find_node (child_path context name) nodes) [
  | some target ↦ some target
  | none ↦ elim (parent_path context) [
    | none ↦ none
    | some higher ↦ resolve_from fuel nodes higher name
  ]
]

unfoldable pub resolve_nearest : List Ready → Text → Text → Option Ready
unfolding resolve_from
resolve_nearest nodes start name = resolve_from (suc (length start)) nodes start name

abbrev pub found : PeerError → Option Ready → Checked Ready
found e none = throws e
found e (some n) = ok n

-- The targets of a node's dependencies, each of which has a version in the range.
unfoldable pub ordinary_targets : List Ready → Text → List (Text × Range) → Checked (List Text)
unfolding resolve_nearest satisfies
ordinary_targets nodes path [] = ok []
ordinary_targets nodes path ((name, range) ∷ rest) = do
  target ← found ordinary_resolution (resolve_nearest nodes path name)
  refuse (not (satisfies target.version range)) ordinary_range
  others ← ordinary_targets nodes path rest
  ok (target.path ∷ others)

unfoldable pub ordinary_edges : List Ready → List Ready → Checked Graph
unfolding ordinary_targets
ordinary_edges nodes [] = ok []
ordinary_edges nodes (n ∷ ns) = do
  ts ← ordinary_targets nodes n.path n.ordinary
  rest ← ordinary_edges nodes ns
  ok ((n.path, ts) ∷ rest)

-- The targets of the root, which stand at the top.
unfoldable pub root_targets : List Ready → List (Text × Range) → Checked (List Text)
unfolding find_node child_path satisfies
root_targets nodes [] = ok []
root_targets nodes ((name, range) ∷ rest) = do
  target ← found ordinary_resolution (find_node (child_path [] name) nodes)
  refuse (not (satisfies target.version range)) ordinary_range
  others ← root_targets nodes rest
  ok (target.path ∷ others)
