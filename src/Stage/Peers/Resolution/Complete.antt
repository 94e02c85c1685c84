-- ===== src/Stage/Peers/Resolution/Complete.antt =====
-- `resolveNearest` finds a node whenever there is one beside its start or above it.
use agent_permission_guard.Base.{
  Bool-cases, Option-cases, length, any, length-append, Text, split_on, join_with, join-split, ℕ,
  zero, suc, ◌+◌, ◌≤◌, ◌<◌, ◌≡◌, refl, subst, inl, inr, true, false≢true, Option, none, some, List,
  [], ◌∷◌, arith,
}
use agent_permission_guard.Stage.Peers.Paths.{
  slash, is_package, before_package, is_line_end, matched, parent_path,
}
use agent_permission_guard.Stage.Peers.Resolution.{Ready, resolve_from, resolve_nearest}
use agent_permission_guard.Stage.Peers.Resolution.Nearest.{IsNearest, beside, higher}

join-cons :
    (s : Text) (ss : List Text)
    → (length s ≤ length (join_with slash (s ∷ ss)))
      × (0 < length ss
          → length (join_with slash (s ∷ ss)) ≡ suc (length s + length (join_with slash ss)))
unfolding join_with
join-cons s [] = (omega arith, λ h. absurd (omega (arith, h)))
join-cons s (t ∷ ts) =
    let same = length-append s (slash ∷ join_with slash (t ∷ ts)) in
    (omega (arith, same), λ h. omega (arith, same))

is_package-length : (ss : List Text) → is_package ss ≡ true → 1 < length ss
is_package-length [] h = absurd (false≢true h)
is_package-length (a ∷ []) h = absurd (false≢true h)
is_package-length (a ∷ b ∷ ss) h = omega arith

joined-shorter :
    (s : Text) (ss pre : List Text)
    → 0 < length ss
    → length (join_with slash pre) < length (join_with slash ss)
    → length (join_with slash (s ∷ pre)) < length (join_with slash (s ∷ ss))
unfolding join_with
joined-shorter s ss [] some_ss h = omega (arith, (join-cons s ss).1 some_ss)
joined-shorter s ss (p ∷ pre) some_ss h =
    omega (arith, h, (join-cons s ss).1 some_ss, (join-cons s (p ∷ pre)).1 (omega arith))

inj : {A : Type 0} {a b : A} → some a ≡ some b → a ≡ b
inj h = cc

before_package-shorter :
    (ss pre : List Text)
    → before_package ss ≡ some pre
    → (0 < length ss) × (length (join_with slash pre) < length (join_with slash ss))
unfolding before_package join_with
before_package-shorter [] pre h = absurd (cc)
before_package-shorter (s ∷ ss) pre h = elim (Bool-cases (is_package (s ∷ ss))) [
  | inl e ↦
      let many = is_package-length (s ∷ ss) e in
      let same : [] ≡ pre = inj (rw (e, before_package) at h) in
      (
        omega arith,
        subst (λ ps. length (join_with slash ps) < length (join_with slash (s ∷ ss))) same
            (omega (arith, many, (join-cons s ss).1 (omega (arith, many)))),
      )
  | inr e ↦ elim (Option-cases (before_package ss)) [
    | inl n ↦ let k = rw (e, n, before_package) at h in absurd (cc)
    | inr (rest, f) ↦
        let same : (s ∷ rest) ≡ pre = inj (rw (e, f, before_package) at h) in
        let (some_ss, less) = before_package-shorter ss rest f in
        (
          omega arith,
          subst (λ ps. length (join_with slash ps) < length (join_with slash (s ∷ ss))) same
              (joined-shorter s ss rest some_ss less),
        )
  ]
]

matched-shorter :
    (n : ℕ) (o : Option (List Text)) (p : Text)
    → ((pre : List Text) → o ≡ some pre → length (join_with slash pre) < n)
    → matched o ≡ some p
    → length p < n
matched-shorter n none p f h = absurd (cc)
matched-shorter n (some pre) p f h = elim (Bool-cases (any is_line_end (join_with slash pre))) [
  | inl e ↦ let k = rw e at h in absurd (cc)
  | inr e ↦ subst (λ t. length t < n) (inj (rw e at h)) (f pre refl)
]

-- A parent's path is shorter.
parent_path-shorter : (path p : Text) → parent_path path ≡ some p → length p < length path
unfolding parent_path
parent_path-shorter [] p h = absurd (cc)
parent_path-shorter (c ∷ s) p h = elim (Bool-cases (is_package (split_on slash (c ∷ s)))) [
  | inl e ↦ subst (λ t. length t < suc (length s)) (inj (rw e at h)) (omega arith)
  | inr e ↦
      matched-shorter (length (c ∷ s)) (before_package (split_on slash (c ∷ s))) p
        (λ pre k.
          subst (λ t. length (join_with slash pre) < length t) (join-split slash (c ∷ s))
            (before_package-shorter (split_on slash (c ∷ s)) pre k).1)
        (rw e at h)
]

module _ (nodes : List Ready) where
  resolve_from-none :
      (fuel : ℕ) (context name : Text) (t : Ready)
      → length context < fuel
      → resolve_from fuel nodes context name ≡ none
      → ¬ IsNearest nodes name t context
  unfolding resolve_from
  resolve_from-none zero context name t few h n = omega (arith, few)
  resolve_from-none (suc fuel) context name t few h (beside at) =
      let k = rw (at, resolve_from) at h in cc
  resolve_from-none (suc fuel) context name t few h (higher {parent = p} none_here at n) =
      resolve_from-none fuel p name t (omega (arith, few, parent_path-shorter context p at))
        (rw (none_here, at, resolve_from) at h) n

  -- If `resolveNearest` finds nothing, there is nothing beside the start or beside a path above it.
  pub resolve_nearest-none :
      (start name : Text) (t : Ready)
      → resolve_nearest nodes start name ≡ none
      → ¬ IsNearest nodes name t start
  unfolding resolve_nearest
  resolve_nearest-none start name t h n =
      resolve_from-none (suc (length start)) start name t (omega arith) h n
