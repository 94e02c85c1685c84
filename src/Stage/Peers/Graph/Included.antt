-- ===== src/Stage/Peers/Graph/Included.antt =====
-- `includeRequired` puts a path into the set with all that it depends on.
use agent_permission_guard.Base.{
  Bool-cases, or_left, length, length-append, All, Text, text_eq, text_eq_refl, text_eq_iff,
  text_mem, ℕ, zero, suc, ◌+◌, ◌≤◌, ◌≡◌, sym, ap, ◌∙◌, subst, inl, inr, true, false, ◌&&◌, ◌||◌,
  not, false≢true, List, [], ◌∷◌, arith,
}
use agent_permission_guard.Stage.Peers.Graph.{
  Graph, targets, Required, include_all, added, include_required,
}
use agent_permission_guard.Stage.Peers.Graph.Sets.{
  mem_last, All-mem, mem-All, mem_self, paths_left, has_path, paths_left-more, paths_left-last,
}

-- Every target of a path has edges of its own in the graph.
abbrev pub IsWhole : Graph → Type 0
IsWhole g = (u v : Text) → text_mem v (targets g u) ≡ true → has_path g v ≡ true

-- What has come into the set from one state to another. `P` is what the paths that come in have.
pub record Grown (g : Graph) (P : Text → Type 0) (s t : Required) : Type 0 where
  pub kept : (p : Text) → text_mem p s.paths ≡ true → text_mem p t.paths ≡ true
  pub closed :
      (x v : Text)
      → text_mem x t.paths ≡ true
      → text_mem x s.paths ≡ false
      → text_mem v (targets g x) ≡ true
      → text_mem v t.paths ≡ true
  pub queued :
      (p : Text)
      → text_mem p t.queue
        ≡ (text_mem p s.queue || (text_mem p t.paths && not (text_mem p s.paths)))
  pub left : paths_left g t.paths ≤ paths_left g s.paths
  pub room : length t.queue + paths_left g t.paths ≤ length s.queue + paths_left g s.paths
  pub has : (p : Text) → text_mem p t.paths ≡ true → text_mem p s.paths ≡ false → P p

module _ (g : Graph) (P : Text → Type 0) where
  pub Grown-refl : (s : Required) → Grown g P s s
  Grown-refl s = record {
    kept = λ p m. m;
    closed = λ x v m n h. absurd (false≢true (sym n ∙ m));
    queued = λ p. ground arith;
    left = omega arith;
    room = omega arith;
    has = λ p m n. absurd (false≢true (sym n ∙ m));
  }

  pub Grown-trans : (s t u : Required) → Grown g P s t → Grown g P t u → Grown g P s u
  Grown-trans s t u a b = record {
    kept = λ p m. b.kept p (a.kept p m);
    closed = λ x v m n h. elim (Bool-cases (text_mem x t.paths)) [
      | inl e ↦ b.kept v (a.closed x v e n h)
      | inr e ↦ b.closed x v m e h
    ];
    queued = λ p. ground (arith, a.queued p, b.queued p, a.kept p, b.kept p);
    left = omega (arith, a.left, b.left);
    room = omega (arith, a.room, b.room);
    has = λ p m n. elim (Bool-cases (text_mem p t.paths)) [
      | inl e ↦ a.has p e n
      | inr e ↦ b.has p m e
    ];
  }

  module _ (whole : IsWhole g)
      (follow : (x v : Text) → P x → text_mem v (targets g x) ≡ true → P v) where
    -- A call that puts paths in, while so few are left outside.
    abbrev pub Includes : ℕ → (Required → Text → Required) → Type 0
    Includes n f =
        (s : Required) (u : Text)
        → has_path g u ≡ true
        → P u
        → paths_left g s.paths ≤ n
        → Grown g P s (f s u) × (text_mem u (f s u).paths ≡ true)

    pub include_all-Grown :
        (n : ℕ) (f : Required → Text → Required) (s : Required) (us : List Text)
        → Includes n f
        → All (λ u. (has_path g u ≡ true) × P u) us
        → paths_left g s.paths ≤ n
        → Grown g P s (include_all f s us)
          × All (λ u. text_mem u (include_all f s us).paths ≡ true) us
    unfolding include_all
    include_all-Grown n f s [] i a few = (Grown-refl s, tt)
    include_all-Grown n f s (u ∷ us) i ((k, p), a) few =
        let (one, here) = i s u k p few in
        let (rest, there) = include_all-Grown n f (f s u) us i a (omega (arith, one.left, few)) in
        (Grown-trans s (f s u) (include_all f (f s u) us) one rest, (rest.kept u here, there))

    added-Grown :
        (s t : Required) (u : Text)
        → text_mem u s.paths ≡ false
        → has_path g u ≡ true
        → P u
        → Grown g P (added u s) t
        → All (λ v. text_mem v t.paths ≡ true) (targets g u)
        → Grown g P s t × (text_mem u t.paths ≡ true)
    added-Grown s t u fresh k p a there = (
      record {
        kept = λ x m. a.kept x (mem_last x s.paths u ∙ or_left _ (text_eq x u) m);
        closed = λ x v m n h. elim (Bool-cases (text_eq x u)) [
          | inl e ↦
              mem-All (λ z. text_mem z t.paths ≡ true) (targets g u) v there
                (sym (ap (λ z. text_mem v (targets g z)) ((text_eq_iff x u).0 e)) ∙ h)
          | inr e ↦ a.closed x v m (mem_last x s.paths u ∙ rw (n, e)) h
        ];
        queued = λ x. elim (Bool-cases (text_eq x u)) [
          | inl e ↦
              let same = (text_eq_iff x u).0 e in
              rw same (
                ground (
                  arith,
                  a.queued u,
                  mem_last u s.queue u,
                  mem_last u s.paths u,
                  text_eq_refl u,
                  a.kept u (mem_self u s.paths u (text_eq_refl u)),
                  fresh,
                ))
          | inr e ↦ ground (arith, a.queued x, mem_last x s.queue u, mem_last x s.paths u)
        ];
        left = omega (arith, a.left, paths_left-more g s.paths u);
        room =
            omega
              (arith, a.room, length-append s.queue (u ∷ []), paths_left-last g s.paths u fresh k);
        has = λ x m n. elim (Bool-cases (text_eq x u)) [
          | inl e ↦ subst P (sym ((text_eq_iff x u).0 e)) p
          | inr e ↦ a.has x m (mem_last x s.paths u ∙ rw (n, e))
        ];
      },
      a.kept u (mem_self u s.paths u (text_eq_refl u)),
    )

    pub include_required-Grown : (fuel : ℕ) → Includes fuel (include_required fuel g)
    unfolding include_required
    include_required-Grown zero s u k p few = elim (Bool-cases (text_mem u s.paths)) [
      | inl e ↦ (Grown-refl s, e)
      | inr e ↦ absurd (omega (arith, few, paths_left-last g s.paths u e k))
    ]
    include_required-Grown (suc fuel) s u k p few = elim (Bool-cases (text_mem u s.paths)) [
      | inl e ↦ rw (e, include_required) (Grown-refl s, e)
      | inr e ↦
          let (grown, there) =
            include_all-Grown fuel (include_required fuel g) (added u s) (targets g u)
              (include_required-Grown fuel)
              (All-mem (λ v. (has_path g v ≡ true) × P v) (targets g u)
                (λ v m. (whole u v m, follow u v p m)))
              (omega (arith, few, paths_left-last g s.paths u e k)) in
          rw (e, include_required)
            (added-Grown s (include_all (include_required fuel g) (added u s) (targets g u)) u e k p
              grown there)
    ]
