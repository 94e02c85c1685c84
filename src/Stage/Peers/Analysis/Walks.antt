-- ===== src/Stage/Peers/Analysis/Walks.antt =====
-- What a round of the loop over the required nodes does, and its invariant.
use agent_permission_guard.Base.{
  Bool-cases, and-true, or-true, not-not, or_left, or_right, length, All, In, Text, text_eq,
  text_eq_iff, text_mem, ◌≡◌, refl, sym, ap, ◌∙◌, subst, ◌⊎◌, inl, inr, Bool, true, false, not,
  Option, none, some, List, [], ◌∷◌, arith,
}
use agent_permission_guard.Base.Outcome.{ok, refuse-eq-ok, bind-eq-ok, ok-injective}
use agent_permission_guard.Stage.Peers.{
  self_peer, peer_local, peer_missing, peer_conflict, Range, fits, satisfies,
}
use agent_permission_guard.Stage.Peers.Paths.{child_path, parent_path}
use agent_permission_guard.Stage.Peers.Resolution.{Ready, find_node, resolve_nearest, found}
use agent_permission_guard.Stage.Peers.Graph.{Graph, targets, sort_paths}
use agent_permission_guard.Stage.Peers.Graph.Sets.{
  mem_last, mem-sort_paths, has_path, paths_left-le,
}
use agent_permission_guard.Stage.Peers.Graph.Included.{
  IsWhole, Grown, Grown-refl, Grown-trans, include_required-Grown,
}
use agent_permission_guard.Stage.Peers.Analysis.{
  Requirement, Walk, is_found, or_root, noted, taken, demanded, with_peer, process_peers,
}

-- A peer of a node, with the required paths: it is optional and there is none, or the nearest from
-- the node's parent satisfies the range, is another node, and is required if it is mandatory.
abbrev pub IsMet : List Ready → List Text → Ready → Text × (Bool × Range) → Type 0
IsMet nodes required n (name, (optional, range)) =
    ((optional ≡ true) × (resolve_nearest nodes (or_root (parent_path n.path)) name ≡ none))
    ⊎ ((t : Ready) × (resolve_nearest nodes (or_root (parent_path n.path)) name ≡ some t)
        × (satisfies t.version range ≡ true)
        × ((optional ≡ true) ⊎ (text_mem t.path required ≡ true)))

-- A path that is needed: it can be reached from the root, or it is a dependency or a mandatory peer of
-- one that is needed.
pub data Needed (nodes : List Ready) (g : Graph) (production : List Text) : Text → Type 0 where
  used : {p : Text} → text_mem p production ≡ true → Needed nodes g production p
  depended :
      {p q : Text}
      → Needed nodes g production p
      → text_mem q (targets g p) ≡ true
      → Needed nodes g production q
  demanded_by :
      {p : Text} {n t : Ready}
      → Needed nodes g production p
      → find_node p nodes ≡ some n
      → (name : Text) (range : Range) → In (name, (false, range)) n.peers
      → resolve_nearest nodes (or_root (parent_path n.path)) name ≡ some t
      → Needed nodes g production t.path

module _ (nodes : List Ready) (g : Graph) (production : List Text) (whole : IsWhole g)
    (size : length g ≡ length nodes)
    (listed : (context name : Text) (t : Ready)
      → resolve_nearest nodes context name ≡ some t
      → has_path g t.path ≡ true) where
  -- The peers of a path are met.
  abbrev AreMet : List Text → Text → Type 0
  AreMet required p =
      (n : Ready) → find_node p nodes ≡ some n → All (IsMet nodes required n) n.peers

  -- The invariant of the loop.
  pub record WalkInv (w : Walk) : Type 0 where
    pub closed :
        (u v : Text)
        → text_mem u w.required.paths ≡ true
        → text_mem v (targets g u) ≡ true
        → text_mem v w.required.paths ≡ true
    pub waits :
        (p : Text)
        → text_mem p w.required.paths ≡ true
        → (text_mem p w.required.queue ≡ true) ⊎ (text_mem p w.processed ≡ true)
    pub begun : (p : Text) → text_mem p production ≡ true → text_mem p w.required.paths ≡ true
    pub met : (p : Text) → text_mem p w.processed ≡ true → AreMet w.required.paths p
    pub needed : (p : Text) → text_mem p w.required.paths ≡ true → Needed nodes g production p
    pub queued :
        (p : Text) → text_mem p w.required.queue ≡ true → text_mem p w.required.paths ≡ true

  -- What processing peers does to a walk.
  pub record Walked (w x : Walk) : Type 0 where
    pub grown : Grown g (Needed nodes g production) w.required x.required
    pub same : x.processed ≡ w.processed

  pub Walked-refl : (w x : Walk) → x.required ≡ w.required → x.processed ≡ w.processed → Walked w x
  Walked-refl w x e f = record {
    grown =
        subst (Grown g (Needed nodes g production) w.required) (sym e)
          (Grown-refl g (Needed nodes g production) w.required);
    same = f;
  }

  demanded-Walked :
      (node target : Ready) (r : Requirement) (w : Walk)
      → has_path g target.path ≡ true
      → Needed nodes g production target.path
      → Walked w (demanded nodes g false target (noted r w))
        × (text_mem target.path (demanded nodes g false target (noted r w)).required.paths ≡ true)
  demanded-Walked node target r w k n =
      let (grown, there) =
        include_required-Grown g (Needed nodes g production) whole (λ x v. depended {p = x} {q = v})
          (length nodes) w.required target.path k n
          (omega (arith, paths_left-le g w.required.paths, size)) in
      (record { grown = grown; same = refl }, there)

  with_peer-Walked :
      (node target : Ready) (name : Text) (optional : Bool) (range : Range) (w x : Walk)
      → has_path g target.path ≡ true
      → (optional ≡ false → Needed nodes g production target.path)
      → with_peer nodes g node name optional range (some target) w ≡ ok x
      → Walked w x
        × (satisfies target.version range ≡ true)
        × ((optional ≡ true) ⊎ (text_mem target.path x.required.paths ≡ true))
  unfolding with_peer
  with_peer-Walked node target name true range w x k n h =
      let (_, h1) = refuse-eq-ok (text_eq target.path node.path) self_peer _ h in
      let (fits, h2) = refuse-eq-ok (not (satisfies target.version range)) peer_conflict _ h1 in
      subst
        (λ (y : Walk).
          Walked w y
          × (satisfies target.version range ≡ true)
          × ((true ≡ true) ⊎ (text_mem target.path y.required.paths ≡ true)))
        (ok-injective h2) (Walked-refl w _ refl refl, not-not _ fits, inl refl)
  with_peer-Walked node target name false range w x k n h =
      let (_, h1) = refuse-eq-ok (text_eq target.path node.path) self_peer _ h in
      let (fits, h2) = refuse-eq-ok (not (satisfies target.version range)) peer_conflict _ h1 in
      let (walked, there) = demanded-Walked node target _ w k (n refl) in
      subst
        (λ (y : Walk).
          Walked w y
          × (satisfies target.version range ≡ true)
          × ((false ≡ true) ⊎ (text_mem target.path y.required.paths ≡ true)))
        (ok-injective h2) (walked, not-not _ fits, inr there)

  Walked-trans : (w x y : Walk) → Walked w x → Walked x y → Walked w y
  Walked-trans w x y a b = record {
    grown =
        Grown-trans g (Needed nodes g production) w.required x.required y.required a.grown b.grown;
    same = b.same ∙ a.same;
  }

  IsMet-more :
      (n : Ready) (e : Text × (Bool × Range)) (w x : Walk)
      → Walked w x
      → IsMet nodes w.required.paths n e
      → IsMet nodes x.required.paths n e
  IsMet-more n (name, (optional, range)) w x a (inl m) = inl m
  IsMet-more n (name, (optional, range)) w x a (inr (t, found, fits, inl m)) =
      inr (t, found, fits, inl m)
  IsMet-more n (name, (optional, range)) w x a (inr (t, found, fits, inr m)) =
      inr (t, found, fits, inr (a.grown.kept t.path m))

  AreMet-more :
      (n : Ready) (es : List (Text × (Bool × Range))) (w x : Walk)
      → Walked w x
      → All (IsMet nodes w.required.paths n) es
      → All (IsMet nodes x.required.paths n) es
  AreMet-more n [] w x a m = tt
  AreMet-more n (e ∷ es) w x a (m, ms) = (IsMet-more n e w x a m, AreMet-more n es w x a ms)

  module _ (p : Text) (node : Ready) (at : find_node p nodes ≡ some node)
      (needed : Needed nodes g production p) where
    peer-IsMet :
        (name : Text) (optional : Bool) (range : Range) (r : Option Ready) (w x : Walk)
        → resolve_nearest nodes (or_root (parent_path node.path)) name ≡ r
        → In (name, (optional, range)) node.peers
        → with_peer nodes g node name optional range r w ≡ ok x
        → Walked w x × IsMet nodes x.required.paths node (name, (optional, range))
    unfolding with_peer
    peer-IsMet name optional range none w x found i h =
        let (must, same) = refuse-eq-ok (not optional) peer_missing _ h in
        subst
          (λ (y : Walk). Walked w y × IsMet nodes y.required.paths node (name, (optional, range)))
          (ok-injective same) (Walked-refl w _ refl refl, inl (not-not _ must, found))
    peer-IsMet name optional range (some t) w x found i h =
        let (walked, fits, there) =
          with_peer-Walked node t name optional range w x
            (listed (or_root (parent_path node.path)) name t found)
            (λ e.
              demanded_by needed at name range (subst (λ b. In (name, (b, range)) node.peers) e i)
                found)
            h in
        (walked, inr (t, found, fits, there))

    pub process_peers-Walked :
        (es : List (Text × (Bool × Range))) (w x : Walk)
        → ((e : Text × (Bool × Range)) → In e es → In e node.peers)
        → process_peers nodes g node es w ≡ ok x
        → Walked w x × All (IsMet nodes x.required.paths node) es
    unfolding process_peers
    process_peers-Walked [] w x i h =
        subst (λ (y : Walk). Walked w y × Unit {0}) (ok-injective h) (Walked-refl w w refl refl, tt)
    process_peers-Walked ((name, (optional, range)) ∷ es) w x i h =
        let (_, h1) = refuse-eq-ok (text_eq name node.name) self_peer _ h in
        let (_, h2) =
          refuse-eq-ok (is_found (find_node (child_path node.path name) nodes)) peer_local _ h1 in
        let (next, one, h3) =
          bind-eq-ok
            (with_peer nodes g node name optional range
              (resolve_nearest nodes (or_root (parent_path node.path)) name) w)
            _ h2 in
        let (first, met) =
          peer-IsMet name optional range
            (resolve_nearest nodes (or_root (parent_path node.path)) name) w next refl
            (i (name, (optional, range)) (inl refl)) one in
        let (rest, all_met) = process_peers-Walked es next x (λ e m. i e (inr m)) h3 in
        (
          Walked-trans w next x first rest,
          (IsMet-more node (name, (optional, range)) next x rest met, all_met),
        )

  met-more :
      (p : Text) (w x : Walk) → Walked w x → AreMet w.required.paths p → AreMet x.required.paths p
  met-more p w x a m n e = AreMet-more n n.peers w x a (m n e)

  -- The queue of a walk, and the sorted one that a round takes apart.
  pub same-queue :
      (u : Text) (queue : List Text) (w : Walk)
      → sort_paths w.required.queue ≡ u ∷ queue
      → (p : Text) → text_mem p w.required.queue ≡ text_mem p (u ∷ queue)
  same-queue u queue w e p = sym (mem-sort_paths p w.required.queue) ∙ ap (text_mem p) e

  pub processed-Inv :
      (u : Text) (queue : List Text) (w x : Walk)
      → sort_paths w.required.queue ≡ u ∷ queue
      → WalkInv w
      → Walked (taken u queue w) x
      → AreMet x.required.paths u
      → WalkInv x
  unfolding text_mem
  processed-Inv u queue w x e v a here =
      let known = same-queue u queue w e in
      record {
        closed = λ y z m h. elim (Bool-cases (text_mem y w.required.paths)) [
          | inl i ↦ a.grown.kept z (v.closed y z i h)
          | inr i ↦ a.grown.closed y z m i h
        ];
        waits = λ p m. elim (Bool-cases (text_mem p w.required.paths)) [
          | inr i ↦ inl (ground (arith, a.grown.queued p, m, i))
          | inl i ↦ elim (v.waits p i) [
            | inr d ↦
                inr (ap (text_mem p) a.same ∙ mem_last p w.processed u ∙ or_left _ (text_eq p u) d)
            | inl q ↦ elim (or-true (text_eq p u) _ (sym (known p) ∙ q)) [
              | inl s ↦
                  inr
                    (ap (text_mem p) a.same ∙ mem_last p w.processed u ∙ or_right _ (text_eq p u) s)
              | inr k ↦ inl (a.grown.queued p ∙ or_left _ _ k)
            ]
          ]
        ];
        begun = λ p m. a.grown.kept p (v.begun p m);
        met = λ p m.
            elim (or-true (text_mem p w.processed) _
              (sym (ap (text_mem p) a.same ∙ mem_last p w.processed u) ∙ m)) [
                | inl d ↦ met-more p (taken u queue w) x a (v.met p d)
                | inr s ↦ subst (AreMet x.required.paths) (sym ((text_eq_iff p u).0 s)) here
              ];
        needed = λ p m. elim (Bool-cases (text_mem p w.required.paths)) [
          | inl i ↦ v.needed p i
          | inr i ↦ a.grown.has p m i
        ];
        queued = λ p m. elim (or-true (text_mem p queue) _ (sym (a.grown.queued p) ∙ m)) [
          | inl q ↦ a.grown.kept p (v.queued p (known p ∙ or_right (text_eq p u) _ q))
          | inr q ↦ (and-true (text_mem p x.required.paths) _ q).0
        ];
      }
