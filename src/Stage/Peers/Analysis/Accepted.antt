-- ===== src/Stage/Peers/Analysis/Accepted.antt =====
-- From the loops of the analysis to what its result says.
use agent_permission_guard.Stage.Peers.Resolution.Complete.{resolve_nearest-none}
use agent_permission_guard.Stage.Peers.Graph.Acyclic.{assert_ordinary_dag-acyclic}
use agent_permission_guard.Base.{
  ◌==◌, not-not, not-other, length, any, All, In, Text, text_eq_iff, text_mem, sort_by, ◌≡◌, refl,
  sym, ap, ◌∙◌, subst, ◌↔◌, ◌⊎◌, inl, inr, Bool, true, false, ◌&&◌, not, false≢true, Option, none,
  some, List, [], ◌∷◌, arith,
}
use agent_permission_guard.Base.Outcome.{ok, ◌>>=◌, refuse-eq-ok, bind-eq-ok, ok-injective}
use agent_permission_guard.Stage.Peers.{
  ordinary_resolution, ordinary_range, closure_incomplete, role_mismatch, Range, fits, satisfies,
}
use agent_permission_guard.Stage.Peers.Paths.{child_path}
use agent_permission_guard.Stage.Peers.Resolution.{
  Ready, find_node, found, ordinary_edges, root_targets,
}
use agent_permission_guard.Stage.Peers.Resolution.Nearest.{
  found-some, AreLed, AreLed-nil, AreLed-cons, resolve_nearest-IsNearest, find-path, IsEdges,
  ordinary_edges-IsEdges, IsEdges-IsWhole, resolve_nearest-has_path,
}
use agent_permission_guard.Stage.Peers.Graph.{
  Graph, sort_paths, closure, assert_ordinary_dag, Required, include_all, include_required,
}
use agent_permission_guard.Stage.Peers.Graph.Sets.{
  mem-sort_paths, length-sort_paths, All-mem, mem-All, has_path, paths_left-le,
}
use agent_permission_guard.Stage.Peers.Graph.Closure.{Reach, starts, follows, closure-Reach}
use agent_permission_guard.Stage.Peers.Graph.Included.{
  Grown, include_all-Grown, include_required-Grown,
}
use agent_permission_guard.Stage.Peers.Analysis.{
  Analysis, Walk, peers_loop, or_incomplete, has_other_role, has_wrong_role, unwalked,
  compare_requirements, analyze_ready,
}
use agent_permission_guard.Stage.Peers.Analysis.Walks.{Needed, used, depended, WalkInv}
use agent_permission_guard.Stage.Peers.Analysis.Loop.{peers_loop-Inv}
use agent_permission_guard.Stage.Peers.Analysis.Sound.{
  IsSame, Needed-same, Below-same, All-IsMet-same, at_top, IsRootMet, IsAnalyzed, nothing_required,
}

closure-found :
    (found : Option (List Text)) (out ps : List Text)
    → found ≡ some out
    → or_incomplete found ≡ ok ps
    → out ≡ ps
closure-found none out ps h e = absurd (cc)
closure-found (some xs) out ps h e = cc

module _ (nodes : List Ready) (g : Graph) (edges : IsEdges nodes nodes g) where
  -- What the root leads to has edges of its own.
  root_targets-listed :
      (root : List (Text × Range)) (ts : List Text)
      → root_targets nodes root ≡ ok ts
      → All (λ v. has_path g v ≡ true) ts
        × AreLed (at_top nodes) root ts
        × All (IsRootMet nodes) root
  unfolding root_targets
  root_targets-listed [] ts h =
      subst (λ xs. All (λ v. has_path g v ≡ true) xs × AreLed (at_top nodes) [] xs × Unit {0})
        (ok-injective h) (tt, AreLed-nil (at_top nodes), tt)
  root_targets-listed ((name, range) ∷ es) ts h =
      let (t, one, h1) =
        bind-eq-ok (found ordinary_resolution (find_node (child_path [] name) nodes)) _ h in
      let (fits, h2) = refuse-eq-ok (not (satisfies t.version range)) ordinary_range _ h1 in
      let (others, rest, h3) = bind-eq-ok (root_targets nodes es) _ h2 in
      let at = found-some ordinary_resolution (find_node (child_path [] name) nodes) t one in
      let same =
        (text_eq_iff (child_path [] name) t.path).0
          (find-path nodes (child_path [] name) nodes t at) in
      let (listed, led, met) = root_targets-listed es others rest in
      subst
        (λ xs.
          All (λ v. has_path g v ≡ true) xs
          × AreLed (at_top nodes) ((name, range) ∷ es) xs
          × All (IsRootMet nodes) ((name, range) ∷ es))
        (ok-injective h3)
        (
          (ap (has_path g) (sym same) ∙ edges.has (child_path [] name) t at, listed),
          AreLed-cons (at_top nodes) name range t es others at led,
          ((t, at, not-not _ fits), met),
        )

  Reach-listed :
      (roots : List Text) (p : Text)
      → All (λ v. has_path g v ≡ true) roots
      → Reach g roots p
      → has_path g p ≡ true
  Reach-listed roots p a (starts h) = mem-All (λ v. has_path g v ≡ true) roots p a h
  Reach-listed roots p a (follows {u} r h) = IsEdges-IsWhole nodes g edges u p h

  module _ (production : List Text)
      (listed : (p : Text) → text_mem p production ≡ true → has_path g p ≡ true) where
    started : Required
    started = include_all (include_required (length nodes) g) nothing_required production

    started-Grown :
        Grown g (Needed nodes g production) nothing_required started
        × All (λ u. text_mem u started.paths ≡ true) production
    unfolding started
    started-Grown =
        let whole = IsEdges-IsWhole nodes g edges in
        include_all-Grown g (Needed nodes g production) whole (λ x v. depended {p = x} {q = v})
          (length nodes) (include_required (length nodes) g) nothing_required production
          (include_required-Grown g (Needed nodes g production) whole
            (λ x v. depended {p = x} {q = v}) (length nodes))
          (All-mem (λ v. (has_path g v ≡ true) × Needed nodes g production v) production
            (λ v m. (listed v m, used m)))
          (omega (arith, paths_left-le g [], edges.size))

    started-Inv :
        WalkInv nodes g production
          (IsEdges-IsWhole nodes g edges)
          edges.size
          (resolve_nearest-has_path nodes g edges)
          (unwalked started)
    unfolding text_mem
    started-Inv =
        let (grown, there) = started-Grown in
        record {
          closed = λ u v m h. grown.closed u v m refl h;
          waits = λ p m. inl (ground (arith, grown.queued p, m));
          begun = λ p m. mem-All (λ u. text_mem u started.paths ≡ true) production p there m;
          met = λ p m. absurd (false≢true m);
          needed = λ p m. grown.has p m refl;
          queued = λ p m. ground (arith, grown.queued p, m);
        }

    -- At the end of the loop nothing waits.
    finished-Inv :
        (w : Walk)
        → peers_loop nodes g (length nodes) (unwalked started) ≡ ok w
        → WalkInv nodes g production
            (IsEdges-IsWhole nodes g edges)
            edges.size
            (resolve_nearest-has_path nodes g edges)
            w
          × (length w.required.queue ≡ 0)
    finished-Inv w h =
        let (grown, there) = started-Grown in
        peers_loop-Inv nodes g production (IsEdges-IsWhole nodes g edges) edges.size
          (resolve_nearest-has_path nodes g edges) (length nodes) (unwalked started) w started-Inv
          (omega (arith, grown.room, paths_left-le g [], edges.size)) h

-- The paths of a walk in which nothing waits have all been processed.
all-processed :
    (p : Text) (queue processed : List Text)
    → length queue ≡ 0
    → (text_mem p queue ≡ true) ⊎ (text_mem p processed ≡ true)
    → text_mem p processed ≡ true
unfolding text_mem
all-processed p [] processed e (inl m) = absurd (false≢true m)
all-processed p (u ∷ us) processed e (inl m) = absurd (omega (arith, e))
all-processed p queue processed e (inr m) = m

any-none :
    (p : Ready → Bool) (xs : List Ready) (x : Ready) → any p xs ≡ false → In x xs → p x ≡ false
any-none p [] x h i = absurd i
any-none p (y ∷ ys) x h (inl e) = ap p e ∙ ground (arith, h)
any-none p (y ∷ ys) x h (inr i) = any-none p ys x (ground (arith, h)) i

role-agrees :
    (flag : Option Bool) (expected b : Bool)
    → has_other_role flag expected ≡ false
    → flag ≡ some b
    → b ≡ expected
role-agrees none expected b h e = absurd (cc)
role-agrees (some true) true b h e = cc
role-agrees (some true) false b h e = absurd (false≢true (sym h))
role-agrees (some false) true b h e = absurd (false≢true (sym h))
role-agrees (some false) false b h e = cc

-- What the last steps make of a walk in which nothing waits.
result-IsAnalyzed :
    (nodes : List Ready) (root : List (Text × Range)) (g : Graph) (roots production : List Text)
    → (edges : IsEdges nodes nodes g) → AreLed (at_top nodes) root roots
    → All (IsRootMet nodes) root
    → ((p : Text) → (text_mem p production ≡ true) ↔ Reach g roots p)
    → (w : Walk) (order : List Text)
    → WalkInv nodes g production
        (IsEdges-IsWhole nodes g edges)
        edges.size
        (resolve_nearest-has_path nodes g edges)
        w
    → length w.required.queue ≡ 0
    → assert_ordinary_dag g w.required.paths ≡ ok order
    → any (has_wrong_role production w.required.paths) nodes ≡ false
    → length w.required.paths ≡ length nodes
    → IsAnalyzed nodes root (record {
      production_paths = sort_paths production;
      required_paths = sort_paths w.required.paths;
      peer_requirements = sort_by compare_requirements w.outcomes;
    })
unfolding has_wrong_role
result-IsAnalyzed nodes root g roots production edges led met produced w order v done dag roles
      many =
    let paths = w.required.paths in
    let same : IsSame paths (sort_paths paths) = λ p. sym (mem-sort_paths p paths) in
    let used_same : IsSame production (sort_paths production) =
      λ p. sym (mem-sort_paths p production) in
    record {
      graph = g;
      roots = roots;
      edges = edges;
      nearest = resolve_nearest-IsNearest nodes;
      unresolved = resolve_nearest-none nodes;
      rooted = led;
      roots_met = met;
      produced =
          λ p. (λ m. (produced p).0 (used_same p ∙ m), λ r. sym (used_same p) ∙ (produced p).1 r);
      closed = λ x y m k. sym (same y) ∙ v.closed x y (same x ∙ m) k;
      includes = λ p m. sym (same p) ∙ v.begun p (used_same p ∙ m);
      needed = λ p m.
          Needed-same nodes g production (sort_paths production) used_same p
            (v.needed p (same p ∙ m));
      peers_met = λ p m n at. All-IsMet-same nodes n paths (sort_paths paths) n.peers same (
          v.met p (all-processed p w.required.queue w.processed done (v.waits p (same p ∙ m))) n
            at);
      acyclic = λ u m b.
          assert_ordinary_dag-acyclic g paths order u dag (same u ∙ m)
            (Below-same g (sort_paths paths) paths u u (λ p. sym (same p)) b);
      roles = λ n i b e.
          role-agrees n.peer_flag _ b (any-none (has_wrong_role production paths) nodes n roles i) e
          ∙ ap (λ c. c && not (text_mem n.path production)) (same n.path)
          ∙ ap (λ c. text_mem n.path (sort_paths paths) && not c) (used_same n.path);
      counted = length-sort_paths paths ∙ many;
    }

-- If the analysis accepts the nodes: there is an edge from a node to another exactly where one of its
-- dependencies names the other as the nearest of its name, and every dependency is in range of the node
-- it leads to, also those of the root, which lead to the top; the production paths are those that
-- can be reached from the root's, the required paths hold those with their dependencies and
-- the mandatory peers of what they hold and nothing that is not needed for that; each peer of a
-- required node is met by the nearest node from its parent upwards, unless it is optional and there is
-- none; no required node depends on itself through dependencies; a `peer` flag says whether the node
-- is required but not for production; and there are as many required paths as nodes.
pub analyze_ready-IsAnalyzed :
    (nodes : List Ready) (root : List (Text × Range)) (a : Analysis)
    → analyze_ready nodes root ≡ ok a
    → IsAnalyzed nodes root a
unfolding analyze_ready started
analyze_ready-IsAnalyzed nodes root a h =
    let (g, one, h1) = bind-eq-ok (ordinary_edges nodes nodes) _ h in
    let edges = ordinary_edges-IsEdges nodes nodes g one in
    let (roots, two, h2) = bind-eq-ok (root_targets nodes root) _ h1 in
    let (production, three, h3) = bind-eq-ok (or_incomplete (closure g roots)) _ h2 in
    let (out, ends, reached) = closure-Reach g roots in
    let same = closure-found (closure g roots) out production ends three in
    let produced : (p : Text) → (text_mem p production ≡ true) ↔ Reach g roots p =
      subst (λ ps. (p : Text) → (text_mem p ps ≡ true) ↔ Reach g roots p) same reached in
    let (_, _, h4) = bind-eq-ok (assert_ordinary_dag g production >>= λ order. ok tt) _ h3 in
    let (w, five, h5) = bind-eq-ok (peers_loop nodes g (length nodes) _) _ h4 in
    let (_, six, h6) =
      bind-eq-ok (assert_ordinary_dag g w.required.paths >>= λ order. ok tt) _ h5 in
    let (order, dag, _) = bind-eq-ok (assert_ordinary_dag g w.required.paths) _ six in
    let (many, h7) =
      refuse-eq-ok (not (length w.required.paths == length nodes)) closure_incomplete _ h6 in
    let (roles, h8) =
      refuse-eq-ok (any (has_wrong_role production w.required.paths) nodes) role_mismatch _ h7 in
    let (listed, led, met) = root_targets-listed nodes g edges root roots two in
    let (v, done) =
      finished-Inv nodes g edges production
        (λ p m. Reach-listed nodes g edges roots p listed ((produced p).0 m)) w five in
    subst (IsAnalyzed nodes root) (ok-injective h8) (
      result-IsAnalyzed nodes root g roots production edges led met produced w order v done dag
        roles (not-other (length w.required.paths) (length nodes) many))
