-- ===== src/Stage/Peers/Ranges.antt =====
-- What the ranges `^` and `~` mean, and versions printed and read back.
use agent_permission_guard.Base.{
  ltb, leb, ◌==◌, if◌then◌else◌, Bool-cases, all, ℕ, ◌+◌, ◌≡◌, refl, sym, ap, ◌∙◌, inl, inr, Bool,
  true, false, ◌&&◌, ◌||◌, not, List, arith,
}
use agent_permission_guard.Base.Outcome.{ok, ◌>>=◌, refuse-eq-ok, bind-eq-ok, ok-injective}
use agent_permission_guard.Stage.Results.{max_safe_integer}
use agent_permission_guard.Stage.Peers.{
  specifier_invalid, Version, Operator, below, at_most, above, at_least, exactly, Comparison,
  Prefix, plain, caret, tilde, increment, raised_index, between, comparisons_of, compare_versions,
  fits, holds,
}

-- No part up to the first that is not 0 changes.
abbrev pub keeps_first : Version → Version → Bool
keeps_first low v =
    if ltb 0 low.major
    then v.major == low.major
    else if ltb 0 low.minor
    then v.major == low.major && v.minor == low.minor
    else v.major == low.major && v.minor == low.minor && v.patch == low.patch

abbrev pub is_from : Version → Version → Bool
is_from low v =
    ltb low.major v.major
    || (low.major == v.major
        && (ltb low.minor v.minor || (low.minor == v.minor && leb low.patch v.patch)))

at_least-is_from : (low v : Version) → fits at_least (compare_versions v low) ≡ is_from low v
unfolding compare_versions
at_least-is_from low v = ground arith

below-is_from : (high v : Version) → fits below (compare_versions v high) ≡ not (is_from high v)
unfolding compare_versions
below-is_from high v = ground arith

and_true : (a b : Bool) → (a && (b && true)) ≡ (a && b)
and_true true true = refl
and_true true false = refl
and_true false b = refl

between-holds :
    (low high v : Version)
    → all (holds v) (between low high) ≡ (is_from low v && not (is_from high v))
unfolding holds
between-holds low high v =
    rw (at_least-is_from low v, below-is_from high v)
      (and_true (is_from low v) (not (is_from high v)))

-- The versions from one on, below that one with a part raised.
raised_major :
    (low v : Version)
    → (is_from low v && not (is_from (record { major = low.major + 1; minor = 0; patch = 0 }) v))
      ≡ (is_from low v && v.major == low.major)
raised_major low v = ground arith

raised_minor :
    (low v : Version)
    → (is_from low v
        && not (is_from (record { major = low.major; minor = low.minor + 1; patch = 0 }) v))
      ≡ (is_from low v && (v.major == low.major && v.minor == low.minor))
raised_minor low v = ground arith

raised_patch :
    (low v : Version)
    → (is_from low v
        && not (is_from (record { major = low.major; minor = low.minor; patch = low.patch + 1 }) v))
      ≡ (is_from low v && (v.major == low.major && v.minor == low.minor && v.patch == low.patch))
raised_patch low v = ground arith

at_most-is_from : (low v : Version) → fits at_most (compare_versions v low) ≡ is_from v low
unfolding compare_versions
at_most-is_from low v = ground arith

above-is_from : (low v : Version) → fits above (compare_versions v low) ≡ not (is_from v low)
unfolding compare_versions
above-is_from low v = ground arith

exactly-equal :
    (low v : Version)
    → fits exactly (compare_versions v low)
      ≡ (v.major == low.major && v.minor == low.minor && v.patch == low.patch)
unfolding compare_versions
exactly-equal low v = ground arith

-- What an atom means: `^1.2.3` allows the versions from that one on in which no part up to its first
-- that is not 0 differs, `~1.2.3` those in which the first two do not, and the others compare.
abbrev pub allows : Prefix → Version → Version → Bool
allows caret low v = is_from low v && keeps_first low v
allows tilde low v = is_from low v && (v.major == low.major && v.minor == low.minor)
allows (plain at_least) low v = is_from low v
allows (plain below) low v = not (is_from low v)
allows (plain at_most) low v = is_from v low
allows (plain above) low v = not (is_from v low)
allows (plain exactly) low v = v.major == low.major && v.minor == low.minor && v.patch == low.patch

single_true : (a : Bool) → (a && true) ≡ a
single_true true = refl
single_true false = refl

between-allows :
    (low high v : Version) (cs : List Comparison) (b : Bool)
    → between low high ≡ cs
    → (is_from low v && not (is_from high v)) ≡ b
    → all (holds v) cs ≡ b
between-allows low high v cs b h k = ap (all (holds v)) (sym h) ∙ between-holds low high v ∙ k

raised-allows :
    (p : Prefix) (low v : Version) (cs : List Comparison) (i : ℕ) (b : Bool)
    → ((high : Version) → increment low i ≡ ok high → (is_from low v && not (is_from high v)) ≡ b)
    → (increment low i >>= λ high. ok (between low high)) ≡ ok cs
    → all (holds v) cs ≡ b
raised-allows p low v cs i b f h =
    let (high, found, same) = bind-eq-ok (increment low i) _ h in
    between-allows low high v cs b (ok-injective same) (f high found)

increment-major :
    (low v high : Version)
    → increment low 0 ≡ ok high
    → (is_from low v && not (is_from high v)) ≡ (is_from low v && v.major == low.major)
unfolding increment
increment-major low v high h =
    let (_, same) = refuse-eq-ok (low.major == max_safe_integer) specifier_invalid _ h in
    ap (λ x. is_from low v && not (is_from x v)) (sym (ok-injective same)) ∙ raised_major low v

increment-minor :
    (low v high : Version)
    → increment low 1 ≡ ok high
    → (is_from low v && not (is_from high v))
      ≡ (is_from low v && (v.major == low.major && v.minor == low.minor))
unfolding increment
increment-minor low v high h =
    let (_, same) = refuse-eq-ok (low.minor == max_safe_integer) specifier_invalid _ h in
    ap (λ x. is_from low v && not (is_from x v)) (sym (ok-injective same)) ∙ raised_minor low v

increment-patch :
    (low v high : Version)
    → increment low 2 ≡ ok high
    → (is_from low v && not (is_from high v))
      ≡ (is_from low v && (v.major == low.major && v.minor == low.minor && v.patch == low.patch))
unfolding increment
increment-patch low v high h =
    let (_, same) = refuse-eq-ok (low.patch == max_safe_integer) specifier_invalid _ h in
    ap (λ x. is_from low v && not (is_from x v)) (sym (ok-injective same)) ∙ raised_patch low v

increment-caret :
    (low v high : Version)
    → increment low (raised_index caret low) ≡ ok high
    → (is_from low v && not (is_from high v)) ≡ (is_from low v && keeps_first low v)
increment-caret low v high h = elim (Bool-cases (ltb 0 low.major)) [
  | inl e ↦ rw e (increment-major low v high (rw e at h))
  | inr e ↦ elim (Bool-cases (ltb 0 low.minor)) [
    | inl f ↦ rw (e, f) (increment-minor low v high (rw (e, f) at h))
    | inr f ↦ rw (e, f) (increment-patch low v high (rw (e, f) at h))
  ]
]

-- The comparisons of an atom with any prefix, `=`, `<`, `<=`, `>`, `>=`, `^` or `~`, hold of exactly the
-- versions that the atom allows, if there are such comparisons, that is if no part that is raised is
-- the greatest safe integer.
pub comparisons_of-allows :
    (p : Prefix) (low v : Version) (cs : List Comparison)
    → comparisons_of p low ≡ ok cs
    → all (holds v) cs ≡ allows p low v
unfolding comparisons_of holds
comparisons_of-allows caret low v cs h =
    raised-allows caret low v cs (raised_index caret low) _ (increment-caret low v) h
comparisons_of-allows tilde low v cs h = raised-allows tilde low v cs 1 _ (increment-minor low v) h
comparisons_of-allows (plain o) low v cs h =
    ap (all (holds v)) (sym (ok-injective h))
    ∙ single_true (fits o (compare_versions v low))
    ∙ plain-allows o
  where
    plain-allows : (o : Operator) → fits o (compare_versions v low) ≡ allows (plain o) low v
    plain-allows at_least = at_least-is_from low v
    plain-allows below = below-is_from low v
    plain-allows at_most = at_most-is_from low v
    plain-allows above = above-is_from low v
    plain-allows exactly = exactly-equal low v
