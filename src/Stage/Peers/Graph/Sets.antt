-- ===== src/Stage/Peers/Graph/Sets.antt =====
-- Lists of paths as sets, and what is left of a graph outside of one.
use agent_permission_guard.Base.{
  subst, All, if◌then◌else◌, Bool-cases, or_left, or_right, length, keep, any-append, Text, text_eq,
  text_eq_refl, text_eq_iff, text_mem, insert_by, sort_by, text_compare, ℕ, suc, ◌+◌, ◌≤◌, ◌≡◌,
  refl, sym, ap, ◌∙◌, inl, inr, Bool, true, false, ◌&&◌, ◌||◌, false≢true, List, [], ◌∷◌, ◌++◌,
  arith,
}
use agent_permission_guard.Stage.Peers.Graph.{Graph, targets, sort_paths, edge_count}

pub mem-append :
    (p : Text) (xs ys : List Text) → text_mem p (xs ++ ys) ≡ (text_mem p xs || text_mem p ys)
unfolding text_mem
mem-append p xs ys = any-append (text_eq p) xs ys

pub mem_last :
    (p : Text) (xs : List Text) (u : Text)
    → text_mem p (xs ++ u ∷ []) ≡ (text_mem p xs || text_eq p u)
unfolding text_mem
mem_last p xs u = any-append (text_eq p) xs (u ∷ []) ∙ ground arith

mem-insert :
    (p x : Text) (ys : List Text)
    → text_mem p (insert_by text_compare x ys) ≡ (text_eq p x || text_mem p ys)
unfolding text_mem insert_by
mem-insert p x [] = refl
mem-insert p x (y ∷ ys) = ground (arith, mem-insert p x ys)

pub mem-sort_paths : (p : Text) (xs : List Text) → text_mem p (sort_paths xs) ≡ text_mem p xs
unfolding text_mem sort_by
mem-sort_paths p [] = refl
mem-sort_paths p (x ∷ xs) = mem-insert p x (sort_paths xs) ∙ ground (arith, mem-sort_paths p xs)

length-insert : (x : Text) (ys : List Text) → length (insert_by text_compare x ys) ≡ suc (length ys)
unfolding insert_by
length-insert x [] = refl
length-insert x (y ∷ ys) = ground (arith, length-insert x ys)

pub length-sort_paths : (xs : List Text) → length (sort_paths xs) ≡ length xs
unfolding sort_by
length-sort_paths [] = refl
length-sort_paths (x ∷ xs) = length-insert x (sort_paths xs) ∙ ap suc (length-sort_paths xs)

pub mem-keep :
    (q : Text → Bool) (p : Text) (xs : List Text) → text_mem p (keep q xs) ≡ (q p && text_mem p xs)
unfolding text_mem
mem-keep q p [] = ground arith
mem-keep q p (x ∷ xs) = elim (Bool-cases (text_eq p x)) [
  | inl e ↦ rw ((text_eq_iff p x).0 e) (ground (arith, mem-keep q x xs, text_eq_refl x))
  | inr e ↦ ground (arith, mem-keep q p xs)
]

pub length-keep_le : (q : Text → Bool) (xs : List Text) → length (keep q xs) ≤ length xs
length-keep_le q [] = omega arith
length-keep_le q (x ∷ xs) = ground (arith, length-keep_le q xs)

pub mem_head : (u : Text) (us : List Text) → text_mem u (u ∷ us) ≡ true
unfolding text_mem
mem_head u us = or_left (text_eq u u) _ (text_eq_refl u)

pub mem_tail : (p u : Text) (us : List Text) → text_mem p us ≡ true → text_mem p (u ∷ us) ≡ true
unfolding text_mem
mem_tail p u us h = or_right (text_eq p u) _ h

pub All-mem :
    (P : Text → Type 0) (ts : List Text) → ((v : Text) → text_mem v ts ≡ true → P v) → All P ts
All-mem P [] f = tt
All-mem P (t ∷ ts) f = (f t (mem_head t ts), All-mem P ts (λ v m. f v (mem_tail v t ts m)))

pub mem-All :
    (P : Text → Type 0) (ts : List Text) (v : Text) → All P ts → text_mem v ts ≡ true → P v
unfolding text_mem
mem-All P [] v a h = absurd (false≢true h)
mem-All P (t ∷ ts) v a h = elim (Bool-cases (text_eq v t)) [
  | inl e ↦ subst P (sym ((text_eq_iff v t).0 e)) a.0
  | inr e ↦ mem-All P ts v a.1 (rw e at h)
]

-- A path of the set is none that is not.
pub mem-differs :
    (p u : Text) (us : List Text)
    → text_mem u us ≡ false
    → text_mem p us ≡ true
    → text_eq p u ≡ false
mem-differs p u us fresh m = elim (Bool-cases (text_eq p u)) [
  | inl e ↦
      absurd (false≢true (sym fresh ∙ sym (ap (λ x. text_mem x us) ((text_eq_iff p u).0 e)) ∙ m))
  | inr e ↦ e
]

pub text_eq_swap : (s t : Text) → text_eq s t ≡ false → text_eq t s ≡ false
text_eq_swap s t h = elim (Bool-cases (text_eq t s)) [
  | inl e ↦ absurd (false≢true (sym h ∙ (text_eq_iff s t).1 (sym ((text_eq_iff t s).0 e))))
  | inr e ↦ e
]

pub mem_self :
    (p : Text) (seen : List Text) (u : Text)
    → text_eq u p ≡ true
    → text_mem p (seen ++ u ∷ []) ≡ true
mem_self p seen u e =
    let same : text_eq p u ≡ true = (text_eq_iff p u).1 (sym ((text_eq_iff u p).0 e)) in
    ground (arith, mem_last p seen u)

-- The edges from paths outside of the set, and the number of those paths.
pub edges_left : Graph → List Text → ℕ
edges_left [] seen = 0
edges_left ((p, ts) ∷ g) seen = (if text_mem p seen then 0 else length ts) + edges_left g seen

pub paths_left : Graph → List Text → ℕ
paths_left [] seen = 0
paths_left ((p, ts) ∷ g) seen = (if text_mem p seen then 0 else 1) + paths_left g seen

edges_left-more :
    (g : Graph) (seen : List Text) (u : Text) → edges_left g (seen ++ u ∷ []) ≤ edges_left g seen
unfolding edges_left
edges_left-more [] seen u = omega arith
edges_left-more ((p, ts) ∷ g) seen u = ground (arith, mem_last p seen u, edges_left-more g seen u)

pub edges_left-last :
    (g : Graph) (seen : List Text) (u : Text)
    → text_mem u seen ≡ false
    → edges_left g (seen ++ u ∷ []) + length (targets g u) ≤ edges_left g seen
unfolding edges_left targets
edges_left-last [] seen u h = omega arith
edges_left-last ((p, ts) ∷ g) seen u h = elim (Bool-cases (text_eq u p)) [
  | inl e ↦
      let same = (text_eq_iff u p).0 e in
      rw (mem_self p seen u e, sym (ap (λ x. text_mem x seen) same) ∙ h, e)
        (omega (arith, edges_left-more g seen u))
  | inr e ↦ rw e (ground (arith, mem_last p seen u, text_eq_swap u p e, edges_left-last g seen u h))
]

unfoldable pub has_path : Graph → Text → Bool
has_path [] u = false
has_path ((p, ts) ∷ g) u = text_eq u p || has_path g u

pub paths_left-more :
    (g : Graph) (seen : List Text) (u : Text) → paths_left g (seen ++ u ∷ []) ≤ paths_left g seen
unfolding paths_left
paths_left-more [] seen u = omega arith
paths_left-more ((p, ts) ∷ g) seen u = ground (arith, mem_last p seen u, paths_left-more g seen u)

pub paths_left-last :
    (g : Graph) (seen : List Text) (u : Text)
    → text_mem u seen ≡ false
    → has_path g u ≡ true
    → paths_left g (seen ++ u ∷ []) + 1 ≤ paths_left g seen
unfolding paths_left has_path
paths_left-last [] seen u h k = absurd (false≢true k)
paths_left-last ((p, ts) ∷ g) seen u h k = elim (Bool-cases (text_eq u p)) [
  | inl e ↦
      let same = (text_eq_iff u p).0 e in
      rw (mem_self p seen u e, sym (ap (λ x. text_mem x seen) same) ∙ h)
        (omega (arith, paths_left-more g seen u))
  | inr e ↦ ground (arith, mem_last p seen u, text_eq_swap u p e, paths_left-last g seen u h)
]

pub paths_left-le : (g : Graph) (seen : List Text) → paths_left g seen ≤ length g
unfolding paths_left
paths_left-le [] seen = omega arith
paths_left-le ((p, ts) ∷ g) seen = ground (arith, paths_left-le g seen)

pub edges_left-le : (g : Graph) (seen : List Text) → edges_left g seen ≤ edge_count g
unfolding edges_left edge_count
edges_left-le [] seen = omega arith
edges_left-le ((p, ts) ∷ g) seen = ground (arith, edges_left-le g seen)
