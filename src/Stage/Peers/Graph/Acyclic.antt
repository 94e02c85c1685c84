-- ===== src/Stage/Peers/Graph/Acyclic.antt =====
-- `assertOrdinaryDag` passes exactly where no path depends on itself.
use agent_permission_guard.Base.{
  if◌then◌else◌, Bool-cases, length, keep, All, Text, text_eq, text_eq_iff, text_mem, ℕ, zero, suc,
  ◌≤◌, ◌<◌, ◌≡◌, sym, ap, ◌∙◌, subst, inl, inr, true, false, false≢true, List, [], ◌∷◌, arith,
}
use agent_permission_guard.Base.Outcome.{ok, refuse-eq-ok, bind-eq-ok, ok-injective}
use agent_permission_guard.Stage.Peers.{ordinary_cycle, Checked}
use agent_permission_guard.Stage.Peers.Graph.{
  Graph, targets, sort_paths, visit_all, visit, assert_ordinary_dag,
}
use agent_permission_guard.Stage.Peers.Graph.Sets.{
  mem-sort_paths, mem-keep, mem_head, mem_tail, mem-All, mem-differs,
}

-- The targets within the nodes.
abbrev pub inner : Graph → List Text → Text → List Text
inner g nodes u = keep (λ t. text_mem t nodes) (targets g u)

-- A list in which every path stands once, before all paths that it depends on.
abbrev pub IsOrdered : Graph → List Text → List Text → Type 0
IsOrdered g nodes [] = Unit
IsOrdered g nodes (u ∷ us) =
    (text_mem u us ≡ false)
    × All (λ t. text_mem t us ≡ true) (inner g nodes u)
    × IsOrdered g nodes us

-- What a visit does to the paths that are done.
record Visited (g : Graph) (nodes visiting done out : List Text) : Type 0 where
  ordered : IsOrdered g nodes out
  kept : (p : Text) → text_mem p done ≡ true → text_mem p out ≡ true
  apart : (p : Text) → text_mem p visiting ≡ true → text_mem p done ≡ false → text_mem p out ≡ false

other-absent :
    (u p : Text) (visiting next : List Text)
    → text_mem u visiting ≡ false
    → text_mem p visiting ≡ true
    → text_mem p next ≡ false
    → text_mem p (u ∷ next) ≡ false
unfolding text_mem
other-absent u p visiting next fresh m k = rw (mem-differs p u visiting fresh m) k

module _ (g : Graph) (nodes : List Text) where
  -- A call that visits, on any paths that are done.
  Visits : List Text → (List Text → Text → Checked (List Text)) → Type 0
  Visits visiting f =
      (done : List Text) (u : Text) (out : List Text)
      → IsOrdered g nodes done
      → f done u ≡ ok out
      → Visited g nodes visiting done out × (text_mem u out ≡ true)

  visit_all-Visited :
      (visiting : List Text) (f : List Text → Text → Checked (List Text))
      → Visits visiting f
      → (done us out : List Text) → IsOrdered g nodes done
      → visit_all f done us ≡ ok out
      → Visited g nodes visiting done out × All (λ t. text_mem t out ≡ true) us
  unfolding visit_all Visits
  visit_all-Visited visiting f v done [] out o h = (
    subst (Visited g nodes visiting done) (ok-injective h)
        (record { ordered = o; kept = λ p m. m; apart = λ p m k. k }),
    tt,
  )
  visit_all-Visited visiting f v done (u ∷ us) out o h =
      let (next, one, rest) = bind-eq-ok (f done u) _ h in
      let (first, here) = v done u next o one in
      let (others, all_there) = visit_all-Visited visiting f v next us out first.ordered rest in
      (
        record {
          ordered = others.ordered;
          kept = λ p m. others.kept p (first.kept p m);
          apart = λ p m k. others.apart p m (first.apart p m k);
        },
        (others.kept u here, all_there),
      )

  visit-Visited : (fuel : ℕ) (visiting : List Text) → Visits visiting (visit fuel g nodes visiting)
  unfolding visit Visits text_mem
  visit-Visited zero visiting done u out o h = absurd (cc)
  visit-Visited (suc fuel) visiting done u out o h =
      let (fresh, h1) = refuse-eq-ok (text_mem u visiting) ordinary_cycle _ h in
      elim (Bool-cases (text_mem u done)) [
        | inl e ↦
            let same = ok-injective (rw (e) at h1) in
            subst (λ x. Visited g nodes visiting done x × (text_mem u x ≡ true)) same
              (record { ordered = o; kept = λ p m. m; apart = λ p m k. k }, e)
        | inr e ↦
            let h2 = rw (e) at h1 in
            let (next, below, h3) =
              bind-eq-ok (visit_all (visit fuel g nodes (u ∷ visiting)) done (inner g nodes u)) _
                h2 in
            let (v, there) =
              visit_all-Visited (u ∷ visiting) (visit fuel g nodes (u ∷ visiting))
                (visit-Visited fuel (u ∷ visiting)) done (inner g nodes u) next o below in
            subst (λ x. Visited g nodes visiting done x × (text_mem u x ≡ true)) (ok-injective h3)
              (
                record {
                  ordered = (v.apart u (mem_head u visiting) e, there, v.ordered);
                  kept = λ p m. mem_tail p u next (v.kept p m);
                  apart = λ p m k.
                      other-absent u p visiting next fresh m
                        (v.apart p (mem_tail p u visiting m) k);
                },
                mem_head u next,
              )
      ]

-- Where a path stands, from the end of the list.
unfoldable pub rank : List Text → Text → ℕ
rank [] p = 0
rank (u ∷ us) p = if text_eq p u then suc (length us) else rank us p

rank-le : (us : List Text) (p : Text) → rank us p ≤ length us
unfolding rank
rank-le [] p = omega arith
rank-le (u ∷ us) p = ground (arith, rank-le us p)

-- `v` is a dependency of `u` among the nodes, or one of its dependencies, and so on.
pub data Below (g : Graph) (nodes : List Text) (u : Text) : Text → Type 0 where
  direct :
      {v : Text} → text_mem v nodes ≡ true → text_mem v (targets g u) ≡ true → Below g nodes u v
  further :
      {v w : Text}
      → Below g nodes u v
      → text_mem w nodes ≡ true
      → text_mem w (targets g v) ≡ true
      → Below g nodes u w

module _ (g : Graph) (nodes : List Text) where
  inner-mem :
      (out : List Text) (u v : Text)
      → All (λ t. text_mem t out ≡ true) (inner g nodes u)
      → text_mem v nodes ≡ true
      → text_mem v (targets g u) ≡ true
      → text_mem v out ≡ true
  inner-mem out u v there n h =
      mem-All (λ t. text_mem t out ≡ true) (inner g nodes u) v there
        (mem-keep (λ t. text_mem t nodes) v (targets g u) ∙ rw (n, h))

  ordered-closed :
      (out : List Text) (u v : Text)
      → IsOrdered g nodes out
      → text_mem u out ≡ true
      → text_mem v nodes ≡ true
      → text_mem v (targets g u) ≡ true
      → text_mem v out ≡ true
  unfolding text_mem
  ordered-closed [] u v o m n h = absurd (false≢true m)
  ordered-closed (x ∷ out) u v (fresh, there, o) m n h = elim (Bool-cases (text_eq u x)) [
    | inl e ↦ mem_tail v x out (
        inner-mem out x v there n
          (sym (ap (λ z. text_mem v (targets g z)) ((text_eq_iff u x).0 e)) ∙ h))
    | inr e ↦ mem_tail v x out (ordered-closed out u v o (rw e at m) n h)
  ]

  rank-lt :
      (out : List Text) (u v : Text)
      → IsOrdered g nodes out
      → text_mem u out ≡ true
      → text_mem v nodes ≡ true
      → text_mem v (targets g u) ≡ true
      → rank out v < rank out u
  unfolding rank text_mem
  rank-lt [] u v o m n h = absurd (false≢true m)
  rank-lt (x ∷ out) u v (fresh, there, o) m n h = elim (Bool-cases (text_eq u x)) [
    | inl e ↦
        let here =
          inner-mem out x v there n
            (sym (ap (λ z. text_mem v (targets g z)) ((text_eq_iff u x).0 e)) ∙ h) in
        rw (e, mem-differs v x out fresh here) (omega (arith, rank-le out v))
    | inr e ↦
        let inside = rw e at m in
        let here = ordered-closed out u v o inside n h in
        rw (e, mem-differs v x out fresh here) (rank-lt out u v o inside n h)
  ]

  Below-rank :
      (out : List Text) (u v : Text)
      → IsOrdered g nodes out
      → text_mem u out ≡ true
      → Below g nodes u v
      → (rank out v < rank out u) × (text_mem v out ≡ true)
  Below-rank out u v o m (direct n h) = (rank-lt out u v o m n h, ordered-closed out u v o m n h)
  Below-rank out u v o m (further {v = w} b n h) =
      let (lower, inside) = Below-rank out u w o m b in
      (omega (arith, lower, rank-lt out w v o inside n h), ordered-closed out w v o inside n h)

  sorted-there :
      (out : List Text) (u : Text)
      → All (λ t. text_mem t out ≡ true) (sort_paths nodes)
      → text_mem u nodes ≡ true
      → text_mem u out ≡ true
  sorted-there out u a m =
      mem-All (λ t. text_mem t out ≡ true) (sort_paths nodes) u a (mem-sort_paths u nodes ∙ m)

  -- If `assertOrdinaryDag` passes, no node depends on itself, directly or through other nodes.
  pub assert_ordinary_dag-acyclic :
      (out : List Text) (u : Text)
      → assert_ordinary_dag g nodes ≡ ok out
      → text_mem u nodes ≡ true
      → ¬ Below g nodes u u
  unfolding assert_ordinary_dag Visits
  assert_ordinary_dag-acyclic out u h m b =
      let (v, a) =
        visit_all-Visited g nodes [] (visit (suc (length nodes)) g nodes [])
          (visit-Visited g nodes (suc (length nodes)) []) [] (sort_paths nodes) out tt h in
      omega (arith, (Below-rank out u u v.ordered (sorted-there out u a m) b).0)
