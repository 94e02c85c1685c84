-- ===== src/Stage/Peers/Graph/Passes.antt =====
-- `assertOrdinaryDag` passes where the paths have ranks.
use agent_permission_guard.Base.{
  Bool-cases, and-true, length, Text, text_eq, text_eq_iff, text_mem, ℕ, zero, suc, ◌≤◌, ◌<◌, ◌≡◌,
  refl, sym, ap, ◌∙◌, subst, inl, inr, true, false, false≢true, List, [], ◌∷◌, arith,
}
use agent_permission_guard.Base.Outcome.{ok, ◌>>=◌}
use agent_permission_guard.Stage.Peers.{Checked}
use agent_permission_guard.Stage.Peers.Graph.{
  Graph, targets, sort_paths, visit_all, visit, assert_ordinary_dag,
}
use agent_permission_guard.Stage.Peers.Graph.Sets.{mem-sort_paths, mem-keep, mem_head, mem_tail}
use agent_permission_guard.Stage.Peers.Graph.Acyclic.{inner}

module _ (g : Graph) (nodes : List Text) where
  -- Ranks of the nodes by which every dependency is below what depends on it.
  pub record IsRanking (height : Text → ℕ) : Type 0 where
    pub falls :
        (u v : Text)
        → text_mem u nodes ≡ true
        → text_mem v nodes ≡ true
        → text_mem v (targets g u) ≡ true
        → height v < height u
    pub low : (u : Text) → text_mem u nodes ≡ true → height u ≤ length nodes

  module _ (height : Text → ℕ) (r : IsRanking height) where
    IsAbove : ℕ → List Text → Type 0
    IsAbove n visiting = (x : Text) → text_mem x visiting ≡ true → n < height x

    visit_all-ends :
        (f : List Text → Text → Checked (List Text)) (us : List Text)
        → ((u : Text)
            → text_mem u us ≡ true
            → (done : List Text) → (out : List Text) × (f done u ≡ ok out))
        → (done : List Text) → (out : List Text) × (visit_all f done us ≡ ok out)
    unfolding visit_all
    visit_all-ends f [] e done = (done, refl)
    visit_all-ends f (u ∷ us) e done =
        let (next, one) = e u (mem_head u us) done in
        let (out, rest) = visit_all-ends f us (λ x m. e x (mem_tail x u us m)) next in
        (out, ap (λ z. z >>= λ s. visit_all f s us) one ∙ rest)

    not-visiting :
        (visiting : List Text) (u : Text)
        → IsAbove (height u) visiting
        → text_mem u visiting ≡ false
    unfolding IsAbove
    not-visiting visiting u above = elim (Bool-cases (text_mem u visiting)) [
      | inl e ↦ absurd (omega (arith, above u e))
      | inr e ↦ e
    ]

    IsAbove-below :
        (u v : Text) (visiting : List Text)
        → height v < height u
        → IsAbove (height u) visiting
        → IsAbove (height v) (u ∷ visiting)
    unfolding IsAbove text_mem
    IsAbove-below u v visiting lower above x m = elim (Bool-cases (text_eq x u)) [
      | inl e ↦ subst (λ z. height v < height z) (sym ((text_eq_iff x u).0 e)) lower
      | inr e ↦ omega (arith, lower, above x (rw e at m))
    ]

    visit-ends :
        (fuel : ℕ) (visiting : List Text) (u : Text)
        → IsAbove (height u) visiting
        → text_mem u nodes ≡ true
        → height u < fuel
        → (done : List Text) → (out : List Text) × (visit fuel g nodes visiting done u ≡ ok out)
    unfolding visit IsAbove
    visit-ends zero visiting u above m low done = absurd (omega (arith, low))
    visit-ends (suc fuel) visiting u above m low done = elim (Bool-cases (text_mem u done)) [
      | inl e ↦ (done, rw (not-visiting visiting u above, e))
      | inr e ↦
          let (out, ends) =
            visit_all-ends (visit fuel g nodes (u ∷ visiting)) (inner g nodes u)
              (λ v k.
                let (n, h) =
                  and-true (text_mem v nodes) _
                    (sym (mem-keep (λ t. text_mem t nodes) v (targets g u)) ∙ k) in
                let lower = r.falls u v m n h in
                visit-ends fuel (u ∷ visiting) v (IsAbove-below u v visiting lower above) n
                  (omega (arith, low, lower)))
              done in
          (u ∷ out, rw (not-visiting visiting u above, e) (ap (λ z. z >>= λ s. ok (u ∷ s)) ends))
    ]

  -- Where the nodes have ranks, of at most their number, by which every dependency among them is below
  -- what depends on it, `assertOrdinaryDag` passes: the depth that its visits are given is enough.
  pub assert_ordinary_dag-passes :
      (height : Text → ℕ)
      → IsRanking height
      → (out : List Text) × (assert_ordinary_dag g nodes ≡ ok out)
  unfolding assert_ordinary_dag IsAbove text_mem
  assert_ordinary_dag-passes height r =
      visit_all-ends height r (visit (suc (length nodes)) g nodes []) (sort_paths nodes)
        (λ u m done.
          let inside = sym (mem-sort_paths u nodes) ∙ m in
          visit-ends height r (suc (length nodes)) [] u (λ x k. absurd (false≢true k)) inside
            (omega (arith, r.low u inside)) done)
        []
