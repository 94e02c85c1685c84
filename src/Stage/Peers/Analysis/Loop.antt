-- ===== src/Stage/Peers/Analysis/Loop.antt =====
-- The loop over the required nodes ends with all their peers met.
use agent_permission_guard.Base.{
  Bool-cases, or-true, length, All, Text, text_eq, text_eq_iff, text_mem, ℕ, zero, suc, ◌+◌, ◌≤◌,
  ◌<◌, ◌≡◌, refl, sym, ap, ◌∙◌, subst, inl, inr, true, Option, none, some, List, [], ◌∷◌, arith,
}
use agent_permission_guard.Base.Outcome.{ok, bind-eq-ok, ok-injective}
use agent_permission_guard.Stage.Peers.Resolution.{Ready, find_node, resolve_nearest}
use agent_permission_guard.Stage.Peers.Graph.{Graph, sort_paths}
use agent_permission_guard.Stage.Peers.Graph.Sets.{
  length-sort_paths, mem_head, mem_tail, paths_left, has_path,
}
use agent_permission_guard.Stage.Peers.Graph.Included.{IsWhole}
use agent_permission_guard.Stage.Peers.Analysis.{
  Walk, dequeued, taken, process_found, process, next_round, peers_loop,
}
use agent_permission_guard.Stage.Peers.Analysis.Walks.{
  IsMet, WalkInv, Walked-refl, process_peers-Walked, same-queue, processed-Inv,
}

some-injective : {a b : Ready} → some a ≡ some b → a ≡ b
some-injective h = cc

module _ (nodes : List Ready) (g : Graph) (production : List Text) (whole : IsWhole g)
    (size : length g ≡ length nodes)
    (listed : (context name : Text) (t : Ready)
      → resolve_nearest nodes context name ≡ some t
      → has_path g t.path ≡ true) where
  -- The work that is left of a walk.
  work : Walk → ℕ
  work w = length w.required.queue + paths_left g w.required.paths

  queue-length :
      (u : Text) (queue : List Text) (w : Walk)
      → sort_paths w.required.queue ≡ u ∷ queue
      → length w.required.queue ≡ suc (length queue)
  queue-length u queue w e = sym (length-sort_paths w.required.queue) ∙ ap length e

  process_found-Inv :
      (u : Text) (queue : List Text) (r : Option Ready) (w x : Walk)
      → find_node u nodes ≡ r
      → sort_paths w.required.queue ≡ u ∷ queue
      → WalkInv nodes g production whole size listed w
      → process_found nodes g r (taken u queue w) ≡ ok x
      → WalkInv nodes g production whole size listed x × (work x < work w)
  unfolding work text_mem
  process_found-Inv u queue none w x at e v h =
      let same = ok-injective h in
      subst (λ (y : Walk). WalkInv nodes g production whole size listed y × (work y < work w)) same
        (
          processed-Inv nodes g production whole size listed u queue w (taken u queue w) e v
              (Walked-refl nodes g production whole size listed (taken u queue w) (taken u queue w)
                refl refl)
              (λ n k. let both = sym at ∙ k in absurd (cc)),
          omega (arith, queue-length u queue w e),
        )
  process_found-Inv u queue (some node) w x at e v h =
      let known = same-queue nodes g production whole size listed u queue w e u in
      let needed = v.needed u (v.queued u (known ∙ mem_head u queue)) in
      let (walked, met) =
        process_peers-Walked nodes g production whole size listed u node at needed node.peers
          (taken u queue w) x (λ y m. m) h in
      (
        processed-Inv nodes g production whole size listed u queue w x e v walked (λ n k.
            subst (λ m. All (IsMet nodes x.required.paths m) m.peers) (some-injective (sym at ∙ k))
              met),
        omega (arith, walked.grown.room, queue-length u queue w e),
      )

  dequeued-Inv :
      (u : Text) (queue : List Text) (w : Walk)
      → sort_paths w.required.queue ≡ u ∷ queue
      → text_mem u w.processed ≡ true
      → WalkInv nodes g production whole size listed w
      → WalkInv nodes g production whole size listed (dequeued queue w)
  unfolding text_mem
  dequeued-Inv u queue w e done v =
      let known = same-queue nodes g production whole size listed u queue w e in
      record {
        closed = v.closed;
        waits = λ p m. elim (v.waits p m) [
          | inr d ↦ inr d
          | inl q ↦ elim (or-true (text_eq p u) _ (sym (known p) ∙ q)) [
            | inl s ↦ inr (ap (λ z. text_mem z w.processed) ((text_eq_iff p u).0 s) ∙ done)
            | inr k ↦ inl k
          ]
        ];
        begun = v.begun;
        met = v.met;
        needed = v.needed;
        queued = λ p m. v.queued p (known p ∙ mem_tail p u queue m);
      }

  process-Inv :
      (u : Text) (queue : List Text) (w x : Walk)
      → sort_paths w.required.queue ≡ u ∷ queue
      → WalkInv nodes g production whole size listed w
      → process nodes g u queue w ≡ ok x
      → WalkInv nodes g production whole size listed x × (work x < work w)
  unfolding process work
  process-Inv u queue w x e v h = elim (Bool-cases (text_mem u w.processed)) [
    | inl d ↦
        subst (λ (y : Walk). WalkInv nodes g production whole size listed y × (work y < work w))
          (ok-injective (rw (d, process) at h))
          (dequeued-Inv u queue w e d v, omega (arith, queue-length u queue w e))
    | inr d ↦ process_found-Inv u queue (find_node u nodes) w x refl e v (rw (d, process) at h)
  ]

  -- A round, given what the rest of the loop does.
  next_round-Inv :
      (fuel : ℕ) (queue : List Text) (w x : Walk)
      → ((y z : Walk)
          → WalkInv nodes g production whole size listed y
          → work y ≤ fuel
          → peers_loop nodes g fuel y ≡ ok z
          → WalkInv nodes g production whole size listed z × (length z.required.queue ≡ 0))
      → sort_paths w.required.queue ≡ queue
      → WalkInv nodes g production whole size listed w
      → work w ≤ suc fuel
      → next_round nodes g (peers_loop nodes g fuel) queue w ≡ ok x
      → WalkInv nodes g production whole size listed x × (length x.required.queue ≡ 0)
  next_round-Inv fuel [] w x more e v few h =
      subst
        (λ (y : Walk).
          WalkInv nodes g production whole size listed y × (length y.required.queue ≡ 0))
        (ok-injective h) (v, sym (length-sort_paths w.required.queue) ∙ ap length e)
  next_round-Inv fuel (u ∷ queue) w x more e v few h =
      let (y, one, rest) = bind-eq-ok (process nodes g u queue w) _ h in
      let (inv, less) = process-Inv u queue w y e v one in
      more y x inv (omega (arith, few, less)) rest

  pub peers_loop-Inv :
      (fuel : ℕ) (w x : Walk)
      → WalkInv nodes g production whole size listed w
      → length w.required.queue + paths_left g w.required.paths ≤ fuel
      → peers_loop nodes g fuel w ≡ ok x
      → WalkInv nodes g production whole size listed x × (length x.required.queue ≡ 0)
  unfolding peers_loop work
  peers_loop-Inv zero w x v few h =
      subst
        (λ (y : Walk).
          WalkInv nodes g production whole size listed y × (length y.required.queue ≡ 0))
        (ok-injective h) (v, omega (arith, few))
  peers_loop-Inv (suc fuel) w x v few h =
      next_round-Inv fuel (sort_paths w.required.queue) w x (peers_loop-Inv fuel) refl v few h
