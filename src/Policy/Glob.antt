-- ===== src/Policy/Glob.antt =====
-- `matchSpecificity` of policy/matcher.ts: a pattern with `*`, as the regular expression into which
-- the source turns it. That has no flag `s`, so `.` stops at a line terminator.
use agent_permission_guard.Base.{
  ◌==◌, if◌then◌else◌, ==_iff, ==_refl, Bool-cases, and-true, or-true, any, Text, text_eq, ℕ, ◌≡◌,
  refl, sym, subst, ◌≢◌, ◌↔◌, inl, inr, Bool, true, false, ◌&&◌, ◌||◌, not, Option, none, some, [],
  ◌∷◌, arith,
}

abbrev pub star : ℕ
star = b'*'

-- What `.` does not match: LF, CR, U+2028, U+2029.
unfoldable pub is_line_terminator : ℕ → Bool
is_line_terminator c = c == 0x0a || c == 0x0d || c == 0x2028 || c == 0x2029

pub literal : ℕ → (Text → Bool) → Text → Bool
literal c k [] = false
literal c k (x ∷ s) = x == c && k s

-- `.*` and then the rest of the expression.
pub any_run : (Text → Bool) → Text → Bool
any_run k [] = k []
any_run k (x ∷ s) = k (x ∷ s) || (not (is_line_terminator x) && any_run k s)

unfoldable pub glob : Text → Text → Bool
unfolding literal any_run is_line_terminator
glob [] [] = true
glob [] (_ ∷ _) = false
glob (c ∷ p) s = if c == star then any_run (glob p) s else literal c (glob p) s

unfoldable pub match_specificity : Text → Text → Option ℕ
unfolding glob
match_specificity pattern value =
    if text_eq pattern value
    then some 2
    else if any (λ c. c == star) pattern
    then (if glob pattern value then some 1 else none)
    else none

-- The texts that a pattern covers: each `*` stands for a run without line terminators.
pub data Covers : Text → Text → Type 0 where
  done : Covers [] []
  same : {c : ℕ} {p s : Text} → c ≢ star → Covers p s → Covers (c ∷ p) (c ∷ s)
  stop : {c : ℕ} {p s : Text} → c ≡ star → Covers p s → Covers (c ∷ p) s
  more :
      {c x : ℕ} {p s : Text}
      → c ≡ star
      → is_line_terminator x ≡ false
      → Covers (c ∷ p) s
      → Covers (c ∷ p) (x ∷ s)

run_sound :
    (p s : Text)
    → ((t : Text) → glob p t ≡ true → Covers p t)
    → any_run (glob p) s ≡ true
    → Covers (star ∷ p) s
unfolding any_run
run_sound p [] ih h = stop refl (ih [] h)
run_sound p (x ∷ s) ih h = elim (or-true (glob p (x ∷ s)) _ h) [
  | inl here ↦ stop refl (ih (x ∷ s) here)
  | inr later ↦ more refl (ground (arith, later)) (run_sound p s ih (ground (arith, later)))
]

literal_sound :
    (c : ℕ) (p s : Text)
    → c ≢ star
    → ((t : Text) → glob p t ≡ true → Covers p t)
    → literal c (glob p) s ≡ true
    → Covers (c ∷ p) s
unfolding literal
literal_sound c p [] n ih h = cc
literal_sound c p (x ∷ s) n ih h =
    let (eq, rest) = and-true (x == c) (glob p s) h in
    subst (λ k. Covers (c ∷ p) (k ∷ s)) (sym ((==_iff x c).0 eq)) (same n (ih s rest))

literal_complete :
    (c : ℕ) (p s : Text)
    → c ≢ star
    → ((t : Text) → Covers p t → glob p t ≡ true)
    → Covers (c ∷ p) s
    → literal c (glob p) s ≡ true
unfolding literal
literal_complete c p [] n ih (stop e h) = absurd (n e)
literal_complete c p (x ∷ s) n ih (same _ h) = rw (==_refl x) (ih s h)
literal_complete c p (x ∷ s) n ih (stop e h) = absurd (n e)
literal_complete c p (x ∷ s) n ih (more e l h) = absurd (n e)

not-Covers : (x : ℕ) (s : Text) → Covers [] (x ∷ s) → false ≡ true
not-Covers x s h = elim h [ ]

glob_sound : (p s : Text) → glob p s ≡ true → Covers p s
unfolding glob
glob_sound [] [] h = done
glob_sound [] (x ∷ s) h = cc
glob_sound (c ∷ p) s h = elim (Bool-cases (c == star)) [
  | inl e ↦
      let is_star = (==_iff c star).0 e in
      subst (λ k. Covers (k ∷ p) s) (sym is_star) (run_sound p s (glob_sound p) (rw e at h))
  | inr e ↦ literal_sound c p s (λ k. ground (arith, k)) (glob_sound p) (rw e at h)
]

run_complete :
    (c : ℕ) (p s : Text)
    → c ≡ star
    → ((t : Text) → Covers p t → glob p t ≡ true)
    → Covers (c ∷ p) s
    → any_run (glob p) s ≡ true
unfolding any_run
run_complete c p [] e ih (stop _ h) = ih [] h
run_complete c p (x ∷ s) e ih (same n h) = absurd (n e)
run_complete c p (x ∷ s) e ih (stop _ h) = rw (ih (x ∷ s) h)
run_complete c p (x ∷ s) e ih (more _ l h) = ground (arith, l, run_complete c p s e ih h)

glob_complete : (p s : Text) → Covers p s → glob p s ≡ true
unfolding glob
glob_complete [] [] h = refl
glob_complete [] (x ∷ s) h = not-Covers x s h
glob_complete (c ∷ p) s h = elim (Bool-cases (c == star)) [
  | inl e ↦ rw e (run_complete c p s ((==_iff c star).0 e) (glob_complete p) h)
  | inr e ↦ rw e (literal_complete c p s (λ k. ground (arith, k)) (glob_complete p) h)
]

-- The regular expression that is built from a pattern accepts exactly the texts that it covers.
pub glob_iff : (p s : Text) → (glob p s ≡ true) ↔ Covers p s
glob_iff p s = (glob_sound p s, glob_complete p s)
