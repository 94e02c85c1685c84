-- ===== src/Base/Splitting.antt =====
-- `split` and `join` at one separator, prefixes, and the length in UTF-8.
use Prim.Native.Nat.{ℕ, ◌+◌}
use mathlib.Core.Path.{◌≡◌, refl, ap, ◌∙◌}
use mathlib.Core.Bool.{not, Bool, true, false, ◌&&◌, false≢true}
use mathlib.Core.List.{List, [], ◌∷◌, ◌++◌}
use mathlib.Core.Logic.{inl, inr}
use native.Mathlib.Omega.{arith}
use agent_permission_guard.Base.Tests.{==_refl, ltb, leb, ◌==◌, if◌then◌else◌, ==_iff, Bool-cases}
use agent_permission_guard.Base.Lists.{any, all}
use agent_permission_guard.Base.Strings.{Text}

-- A unit goes to the front of the first part.
abbrev pub to_first : ℕ → List Text → List Text
to_first d [] = (d ∷ []) ∷ []
to_first d (p ∷ ps) = (d ∷ p) ∷ ps

-- `s.split(c)` for a separator of one unit.
unfoldable pub split_on : ℕ → Text → List Text
split_on c [] = [] ∷ []
split_on c (d ∷ s) = let rest = split_on c s in if d == c then [] ∷ rest else to_first d rest

-- `parts.join(c)`.
unfoldable pub join_with : ℕ → List Text → Text
join_with c [] = []
join_with c (p ∷ []) = p
join_with c (p ∷ q ∷ ps) = p ++ c ∷ join_with c (q ∷ ps)

abbrev pub is_empty_text : Text → Bool
is_empty_text [] = true
is_empty_text (_ ∷ _) = false

abbrev pub has_unit : ℕ → Text → Bool
has_unit c = any (λ d. d == c)

-- `s.startsWith(w)`.
unfoldable pub begins_with : Text → Text → Bool
begins_with [] s = true
begins_with (a ∷ w) [] = false
begins_with (a ∷ w) (c ∷ s) = a == c && begins_with w s

abbrev is_high_surrogate : ℕ → Bool
is_high_surrogate c = leb 0xd800 c && leb c 0xdbff

abbrev is_low_surrogate : ℕ → Bool
is_low_surrogate c = leb 0xdc00 c && leb c 0xdfff

utf8_length_behind : Bool → Text → ℕ
utf8_length_behind high [] = 0
utf8_length_behind high (c ∷ s) =
    (if ltb c 0x80
      then 1
      else if ltb c 0x800
      then 2
      else if high && is_low_surrogate c
      then 1
      else 3)
    + utf8_length_behind (is_high_surrogate c) s

-- `Buffer.byteLength(s, 'utf8')`: the second unit of a pair adds one byte to the three of the first,
-- and a surrogate that stands alone is replaced by a character of three bytes.
unfoldable pub utf8_length : Text → ℕ
unfolding utf8_length_behind
utf8_length s = utf8_length_behind false s

join-to_first :
    (c d : ℕ) (s : Text) (ps : List Text)
    → join_with c ps ≡ s
    → (any (λ (x : Text). true) ps) ≡ true
    → join_with c (to_first d ps) ≡ d ∷ s
unfolding join_with
join-to_first c d s [] h k = absurd (false≢true k)
join-to_first c d s (p ∷ []) h k = ap (◌∷◌ d) h
join-to_first c d s (p ∷ q ∷ ps) h k = ap (◌∷◌ d) h

abbrev is_some_list : List Text → Bool
is_some_list = any (λ (x : Text). true)

split-nonempty : (c : ℕ) (s : Text) → is_some_list (split_on c s) ≡ true
unfolding split_on join_with
split-nonempty c [] = refl
split-nonempty c (d ∷ s) = ground (arith, split-nonempty c s)

join-cons :
    (c : ℕ) (ps : List Text) → is_some_list ps ≡ true → join_with c ([] ∷ ps) ≡ c ∷ join_with c ps
unfolding join_with
join-cons c [] h = absurd (false≢true h)
join-cons c (p ∷ ps) h = refl

-- Joining undoes splitting.
pub join-split : (c : ℕ) (s : Text) → join_with c (split_on c s) ≡ s
unfolding split_on join_with
join-split c [] = refl
join-split c (d ∷ s) = elim (Bool-cases (d == c)) [
  | inl e ↦
      rw (e, split_on)
        (join-cons c (split_on c s) (split-nonempty c s)
          ∙ rw ((==_iff d c).0 e) (ap (◌∷◌ c) (join-split c s)))
  | inr e ↦
      rw (e, split_on) (join-to_first c d s (split_on c s) (join-split c s) (split-nonempty c s))
]

-- No part of a split has the separator.
abbrev pub lacks : ℕ → Text → Bool
lacks c = all (λ d. not (d == c))

to_first-lacks :
    (c d : ℕ) (ps : List Text)
    → (d == c) ≡ false
    → all (lacks c) ps ≡ true
    → all (lacks c) (to_first d ps) ≡ true
to_first-lacks c d [] h k = ground arith
to_first-lacks c d (p ∷ ps) h k = ground arith

pub split-lacks : (c : ℕ) (s : Text) → all (lacks c) (split_on c s) ≡ true
unfolding split_on
split-lacks c [] = refl
split-lacks c (d ∷ s) = ground (arith, split-lacks c s, to_first-lacks c d (split_on c s))

split-part : (c : ℕ) (p : Text) → lacks c p ≡ true → split_on c p ≡ p ∷ []
unfolding split_on
split-part c [] h = refl
split-part c (d ∷ p) h = ground (arith, split-part c p)

split-append : (c : ℕ) (p s : Text) → lacks c p ≡ true → split_on c (p ++ c ∷ s) ≡ p ∷ split_on c s
unfolding split_on
split-append c [] s h = rw (==_refl c)
split-append c (d ∷ p) s h = ground (arith, split-append c p s)

-- Splitting undoes joining of parts without the separator.
pub split-join :
    (c : ℕ) (p : Text) (ps : List Text)
    → all (lacks c) (p ∷ ps) ≡ true
    → split_on c (join_with c (p ∷ ps)) ≡ p ∷ ps
unfolding join_with
split-join c p [] h = split-part c p (ground arith)
split-join c p (q ∷ ps) h =
    split-append c p (join_with c (q ∷ ps)) (ground arith)
    ∙ ap (◌∷◌ p) (split-join c q ps (ground arith))
