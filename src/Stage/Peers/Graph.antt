-- ===== src/Stage/Peers/Graph.antt =====
-- stage/peer-dependency-semantics.ts: the walks over the ordinary dependencies. A graph lists the
-- targets of each path; a node is its path.
pub mod Sets
pub mod Closure
pub mod Acyclic
pub mod Passes
pub mod Included
use agent_permission_guard.Base.{
  ltb, leb, ◌==◌, if◌then◌else◌, ltb→lt, lt→ltb, leb→le, ==_iff, ==_refl, tests, Bool-cases,
  Option-cases, and-true, or-true, or-false, not-not, not-below, not-below_false, not-other, length,
  get_elem?, any, all, keep, take, drop, length-append, any-append, take-append-drop, all-append,
  append_nil, append_assoc, all-take-drop, take-length, drop-length, length-take, drop-drop,
  length-drop, length-take-le, All, All-append, In, All-In, In-All, all-In, Text, codes, text_eq,
  text_eq_refl, text_eq_iff, text_mem, decimal, read_decimal, read-decimal, is_digit,
  starts_nonzero, decimal-digits, decimal-starts, decimal_zero, ℤ, pos, negsuc, pos_part, neg_part,
  compare_ℤ, flip, then_by, IsOrder, then_by-IsOrder, reverse-IsOrder, insert_by, sort_by, IsSorted,
  mem-sort, sort-IsSorted, compare-IsOrder, compare_ℤ-IsOrder, key-IsOrder, text_compare,
  text_compare-separates, text_compare-IsOrder, to_first, split_on, join_with, is_empty_text,
  has_unit, begins_with, utf8_length, join-split, lacks, split-lacks, split-join, ℕ, zero, suc, ◌+◌,
  ◌-◌, ◌*◌, ◌/◌, ◌%◌, ◌^◌, ◌≤◌, ◌<◌, min, max, compare, Ordering, String, ◌≡◌, refl, sym, ap, ◌∙◌,
  subst, ◌≢◌, ◌↔◌, ◌⊎◌, inl, inr, Bool, true, false, ◌&&◌, ◌||◌, not, false≢true, Option, none,
  some, List, [], ◌∷◌, ◌++◌, map, arith,
}
use agent_permission_guard.Base.Outcome.{Outcome, ok, throws, refuse, ◌>>=◌, ◌>>◌}
use agent_permission_guard.Stage.Peers.{PeerError, ordinary_cycle, Checked}

-- `Map<string, Map<string, Node>>`, by the paths of the nodes.
abbrev pub Graph : Type 0
Graph = List (Text × List Text)

-- `edges.get(node.path)?.values() ?? []`
unfoldable pub targets : Graph → Text → List Text
unfolding text_eq
targets [] u = []
targets ((p, ts) ∷ g) u = let rest = targets g u in if text_eq u p then ts else rest

abbrev pub sort_paths : List Text → List Text
sort_paths = sort_by text_compare

abbrev pub absent : List Text → Text → Bool
absent seen p = not (text_mem p seen)

-- The `while` loop of `closure`, on a sorted queue.
unfoldable pub closure_loop : ℕ → Graph → List Text → List Text → Option (List Text)
unfolding targets
closure_loop zero g [] result = some result
closure_loop zero g (u ∷ queue) result = none
closure_loop (suc fuel) g [] result = some result
closure_loop (suc fuel) g (u ∷ queue) result = elim (text_mem u result) [
  | true ↦ closure_loop fuel g queue result
  | false ↦
      let found = result ++ u ∷ [] in
      closure_loop fuel g (sort_paths (queue ++ keep (absent found) (targets g u))) found
]

unfoldable pub edge_count : Graph → ℕ
edge_count [] = 0
edge_count ((p, ts) ∷ g) = length ts + edge_count g

-- `closure`: a round takes a path off the queue, and each edge puts at most one on it.
unfoldable pub closure : Graph → List Text → Option (List Text)
unfolding closure_loop edge_count
closure g initial = closure_loop (length initial + edge_count g) g (sort_paths initial) []

-- A call for each path in turn, until one throws.
unfoldable pub visit_all :
    (List Text → Text → Checked (List Text)) → List Text → List Text → Checked (List Text)
visit_all f done [] = ok done
visit_all f done (u ∷ us) = f done u >>= λ next. visit_all f next us

-- `visit` of `assertOrdinaryDag`, with the paths that are being visited, and those done, the last
-- first. No path is visited below itself, so the depth is at most the number of paths.
unfoldable pub visit : ℕ → Graph → List Text → List Text → List Text → Text → Checked (List Text)
unfolding targets visit_all
visit zero g nodes visiting done u = throws ordinary_cycle
visit (suc fuel) g nodes visiting done u = do
  refuse (text_mem u visiting) ordinary_cycle
  elim (text_mem u done) [
    | true ↦ ok done
    | false ↦
        visit_all (visit fuel g nodes (u ∷ visiting)) done
          (keep (λ t. text_mem t nodes) (targets g u))
        >>= λ next. ok (u ∷ next)
  ]

-- `assertOrdinaryDag`, which gives the order in which the paths were done.
unfoldable pub assert_ordinary_dag : Graph → List Text → Checked (List Text)
unfolding visit
assert_ordinary_dag g nodes =
    visit_all (visit (suc (length nodes)) g nodes []) [] (sort_paths nodes)

-- The set `required` and the queue of paths whose peers are still to be looked at.
pub record Required : Type 0 where
  pub paths : List Text
  pub queue : List Text

unfoldable pub include_all : (Required → Text → Required) → Required → List Text → Required
include_all f s [] = s
include_all f s (u ∷ us) = include_all f (f s u) us

abbrev pub added : Text → Required → Required
added u s = record { paths = s.paths ++ u ∷ []; queue = s.queue ++ u ∷ [] }

-- `includeRequired`; each path on the way down was not in the set before.
unfoldable pub include_required : ℕ → Graph → Required → Text → Required
unfolding targets include_all
include_required zero g s u = s
include_required (suc fuel) g s u = elim (text_mem u s.paths) [
  | true ↦ s
  | false ↦ include_all (include_required fuel g) (added u s) (targets g u)
]
