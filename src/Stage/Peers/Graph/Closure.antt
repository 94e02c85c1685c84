-- ===== src/Stage/Peers/Graph/Closure.antt =====
-- `closure` ends, and gives the paths that can be reached.
use agent_permission_guard.Base.{
  Bool-cases, and-true, or-true, or_left, or_right, length, keep, length-append, Text, text_eq,
  text_eq_refl, text_eq_iff, text_mem, ℕ, zero, suc, ◌+◌, ◌≤◌, ◌≡◌, refl, sym, ap, ◌∙◌, subst, ◌↔◌,
  inl, inr, Bool, true, ◌&&◌, ◌||◌, not, false≢true, some, List, [], ◌∷◌, ◌++◌, arith,
}
use agent_permission_guard.Stage.Peers.Graph.{
  Graph, targets, sort_paths, absent, closure_loop, edge_count, closure,
}
use agent_permission_guard.Stage.Peers.Graph.Sets.{
  mem-append, mem_last, mem-sort_paths, length-sort_paths, mem-keep, length-keep_le, edges_left,
  edges_left-last, edges_left-le,
}

-- The paths along edges from the given ones.
pub data Reach (g : Graph) (initial : List Text) : Text → Type 0 where
  starts : {u : Text} → text_mem u initial ≡ true → Reach g initial u
  follows : {u v : Text} → Reach g initial u → text_mem v (targets g u) ≡ true → Reach g initial v

known : List Text → List Text → Text → Bool
known queue result p = text_mem p queue || text_mem p result

-- A path that was known is known behind a round.
skip-known :
    (u p : Text) (queue result : List Text)
    → text_mem u result ≡ true
    → known (u ∷ queue) result p ≡ true
    → known queue result p ≡ true
unfolding known text_mem
skip-known u p queue result h k = elim (Bool-cases (text_eq p u)) [
  | inl e ↦
      or_right (text_mem p queue) (text_mem p result)
        (ap (λ x. text_mem x result) ((text_eq_iff p u).0 e) ∙ h)
  | inr e ↦ ground arith
]

next_queue : Graph → Text → List Text → List Text → List Text
next_queue g u queue result = sort_paths (queue ++ keep (absent (result ++ u ∷ [])) (targets g u))

mem-next_queue :
    (g : Graph) (u p : Text) (queue result : List Text)
    → text_mem p (next_queue g u queue result)
      ≡ (text_mem p queue || (not (text_mem p (result ++ u ∷ [])) && text_mem p (targets g u)))
unfolding next_queue
mem-next_queue g u p queue result =
    mem-sort_paths p (queue ++ keep (absent (result ++ u ∷ [])) (targets g u))
    ∙ mem-append p queue (keep (absent (result ++ u ∷ [])) (targets g u))
    ∙ ap (λ b. text_mem p queue || b) (mem-keep (absent (result ++ u ∷ [])) p (targets g u))

step-known :
    (g : Graph) (u p : Text) (queue result : List Text)
    → known (u ∷ queue) result p ≡ true
    → known (next_queue g u queue result) (result ++ u ∷ []) p ≡ true
unfolding known text_mem
step-known g u p queue result h =
    ground (arith, mem-next_queue g u p queue result, mem_last p result u)

target-known :
    (g : Graph) (u p : Text) (queue result : List Text)
    → text_mem p (targets g u) ≡ true
    → known (next_queue g u queue result) (result ++ u ∷ []) p ≡ true
unfolding known
target-known g u p queue result h = ground (arith, mem-next_queue g u p queue result)

module _ (g : Graph) (initial : List Text) where
  record ClosureInv (queue result : List Text) : Type 0 where
    queued : (p : Text) → text_mem p queue ≡ true → Reach g initial p
    sound : (p : Text) → text_mem p result ≡ true → Reach g initial p
    begun : (p : Text) → text_mem p initial ≡ true → known queue result p ≡ true
    closed :
        (u v : Text)
        → text_mem u result ≡ true
        → text_mem v (targets g u) ≡ true
        → known queue result v ≡ true

  closure_loop-ends :
      (fuel : ℕ) (queue result : List Text)
      → length queue + edges_left g result ≤ fuel
      → (out : List Text) × (closure_loop fuel g queue result ≡ some out)
  unfolding closure_loop
  closure_loop-ends zero [] result h = (result, refl)
  closure_loop-ends zero (u ∷ queue) result h = absurd (omega (arith, h))
  closure_loop-ends (suc fuel) [] result h = (result, refl)
  closure_loop-ends (suc fuel) (u ∷ queue) result h = elim (Bool-cases (text_mem u result)) [
    | inl e ↦
        let (out, ends) = closure_loop-ends fuel queue result (omega (arith, h)) in
        (out, rw (e, closure_loop) ends)
    | inr e ↦
        let found = result ++ u ∷ [] in
        let next = queue ++ keep (absent found) (targets g u) in
        let (out, ends) = closure_loop-ends fuel (sort_paths next) found (
          omega (
            arith,
            h,
            length-sort_paths next,
            length-append queue (keep (absent found) (targets g u)),
            length-keep_le (absent found) (targets g u),
            edges_left-last g result u e,
          )) in
        (out, rw (e, closure_loop) ends)
  ]

  ClosureInv-skip :
      (u : Text) (queue result : List Text)
      → text_mem u result ≡ true
      → ClosureInv (u ∷ queue) result
      → ClosureInv queue result
  unfolding text_mem
  ClosureInv-skip u queue result e v = record {
    queued = λ p h. v.queued p (or_right (text_eq p u) (text_mem p queue) h);
    sound = v.sound;
    begun = λ p h. skip-known u p queue result e (v.begun p h);
    closed = λ x y h k. skip-known u y queue result e (v.closed x y h k);
  }

  ClosureInv-step :
      (u : Text) (queue result : List Text)
      → ClosureInv (u ∷ queue) result
      → ClosureInv (next_queue g u queue result) (result ++ u ∷ [])
  unfolding text_mem
  ClosureInv-step u queue result v =
      let to_u : Reach g initial u = v.queued u (or_left (text_eq u u) _ (text_eq_refl u)) in
      record {
        queued = λ p h.
            elim (or-true (text_mem p queue) _ (sym (mem-next_queue g u p queue result) ∙ h)) [
              | inl q ↦ v.queued p (or_right (text_eq p u) (text_mem p queue) q)
              | inr q ↦ follows to_u (and-true (not (text_mem p (result ++ u ∷ []))) _ q).1
            ];
        sound = λ p h. elim (or-true (text_mem p result) _ (sym (mem_last p result u) ∙ h)) [
          | inl m ↦ v.sound p m
          | inr e ↦ subst (Reach g initial) (sym ((text_eq_iff p u).0 e)) to_u
        ];
        begun = λ p h. step-known g u p queue result (v.begun p h);
        closed = λ x y h k. elim (or-true (text_mem x result) _ (sym (mem_last x result u) ∙ h)) [
          | inl m ↦ step-known g u y queue result (v.closed x y m k)
          | inr e ↦
              target-known g u y queue result
                (ap (λ z. text_mem y (targets g z)) (sym ((text_eq_iff x u).0 e)) ∙ k)
        ];
      }

  closure_loop-Reach :
      (fuel : ℕ) (queue result out : List Text)
      → ClosureInv queue result
      → closure_loop fuel g queue result ≡ some out
      → ClosureInv [] out
  unfolding closure_loop next_queue
  closure_loop-Reach zero [] result out v h = subst (ClosureInv []) (cc) v
  closure_loop-Reach zero (u ∷ queue) result out v h = absurd (cc)
  closure_loop-Reach (suc fuel) [] result out v h = subst (ClosureInv []) (cc) v
  closure_loop-Reach (suc fuel) (u ∷ queue) result out v h = elim (Bool-cases (text_mem u result)) [
    | inl e ↦
        closure_loop-Reach fuel queue result out (ClosureInv-skip u queue result e v)
          (rw (e, closure_loop) at h)
    | inr e ↦
        closure_loop-Reach fuel (next_queue g u queue result) (result ++ u ∷ []) out
          (ClosureInv-step u queue result v) (rw (e, closure_loop) at h)
  ]

  ClosureInv-start : ClosureInv (sort_paths initial) []
  unfolding text_mem known
  ClosureInv-start = record {
    queued = λ p h. starts (sym (mem-sort_paths p initial) ∙ h);
    sound = λ p h. absurd (false≢true h);
    begun = λ p h. or_left _ _ (mem-sort_paths p initial ∙ h);
    closed = λ x y h k. absurd (false≢true h);
  }

  closed-Reach :
      (out : List Text) → ClosureInv [] out → (p : Text) → Reach g initial p → text_mem p out ≡ true
  unfolding known text_mem
  closed-Reach out v p (starts h) = v.begun p h
  closed-Reach out v p (follows {u} r h) = v.closed u p (closed-Reach out v u r) h

  -- `closure` ends, whatever cycles the dependencies have, and gives exactly the paths that can be
  -- reached from the given ones.
  pub closure-Reach :
      (out : List Text) × (closure g initial ≡ some out)
      × ((p : Text) → (text_mem p out ≡ true) ↔ Reach g initial p)
  unfolding closure
  closure-Reach =
      let (out, ends) =
        closure_loop-ends (length initial + edge_count g) (sort_paths initial) []
          (omega (arith, length-sort_paths initial, edges_left-le g [])) in
      let v =
        closure_loop-Reach (length initial + edge_count g) (sort_paths initial) [] out
          ClosureInv-start ends in
      (out, ends, λ p. (v.sound p, closed-Reach out v p))
