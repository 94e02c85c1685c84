-- ===== src/Base/Strings.antt =====
-- Text as a list of UTF-16 code units, the unit in which the program's regular expressions, `length`
-- and `slice` work. A literal is `codes "…"`, for ASCII literals only.
use Prim.Native.Nat.{ℕ, zero, suc, ◌+◌, ◌-◌, ◌*◌, ◌/◌, ◌%◌, ◌<◌}
use Prim.Native.Char.{code}
use Prim.Native.String.{String}
use mathlib.Core.Path.{◌≡◌, refl}
use mathlib.Core.Logic.{◌↔◌}
use mathlib.Core.Bool.{false≢true, not, Bool, true, false, ◌&&◌}
use mathlib.Core.List.{List, [], ◌∷◌, ◌++◌}
use mathlib.Core.Logic.{inl, inr}
use native.Mathlib.Omega.{arith}
use agent_permission_guard.Base.Tests.{leb, ltb, ◌==◌, if◌then◌else◌, Bool-cases}
use agent_permission_guard.Base.Lists.{all-append, all, any}

abbrev pub Text : Type 0
Text = List ℕ

abbrev pub codes : String → Text
codes String.[] = []
codes (String.◌∷◌ c s) = code c ∷ codes s

-- `===` on strings.
unfoldable pub text_eq : Text → Text → Bool
text_eq [] [] = true
text_eq [] (_ ∷ _) = false
text_eq (_ ∷ _) [] = false
text_eq (a ∷ s) (b ∷ t) = a == b && text_eq s t

text_eq_sound : (s t : Text) → text_eq s t ≡ true → s ≡ t
unfolding text_eq
text_eq_sound [] [] h = refl
text_eq_sound (a ∷ s) (b ∷ t) h = ground (arith, text_eq_sound s t)
text_eq_sound _ _ h = ground arith

pub text_eq_refl : (s : Text) → text_eq s s ≡ true
unfolding text_eq
text_eq_refl [] = refl
text_eq_refl (a ∷ s) = ground (arith, text_eq_refl s)

pub text_eq_iff : (s t : Text) → (text_eq s t ≡ true) ↔ (s ≡ t)
text_eq_iff s t = (text_eq_sound s t, λ e. rw e (text_eq_refl t))

unfoldable pub text_mem : Text → List Text → Bool
text_mem s = any (text_eq s)

-- The decimal digits of a number, as a template literal prints it.
digits_of : ℕ → ℕ → Text
digits_of zero n = []
digits_of (suc fuel) n =
    let rest = digits_of fuel (n / 10) in
    if ltb n 10 then (48 + n) ∷ [] else rest ++ (48 + n % 10) ∷ []

unfoldable pub decimal : ℕ → Text
unfolding digits_of
decimal n = digits_of (suc n) n

-- The number that decimal digits stand for.
unfoldable pub read_decimal : ℕ → Text → ℕ
read_decimal acc [] = acc
read_decimal acc (c ∷ s) = read_decimal (acc * 10 + (c - 48)) s

read_decimal-append :
    (acc c : ℕ) (s : Text) → read_decimal acc (s ++ c ∷ []) ≡ read_decimal acc s * 10 + (c - 48)
unfolding read_decimal
read_decimal-append acc c [] = refl
read_decimal-append acc c (d ∷ s) = read_decimal-append (acc * 10 + (d - 48)) c s

read-digits_of : (fuel n : ℕ) → n < fuel → read_decimal 0 (digits_of fuel n) ≡ n
unfolding digits_of read_decimal
read-digits_of zero n h = absurd (omega arith)
read-digits_of (suc fuel) n h = elim (Bool-cases (ltb n 10)) [
  | inl e ↦ rw e (omega arith)
  | inr e ↦
      rw (e, read_decimal-append 0 (48 + n % 10) (digits_of fuel (n / 10)))
        (ground (arith, read-digits_of fuel (n / 10)))
]

-- The fuel is enough: the digits read back as the number.
pub read-decimal : (n : ℕ) → read_decimal 0 (decimal n) ≡ n
unfolding decimal
read-decimal n = read-digits_of (suc n) n (omega arith)

-- Decimal digits are digits, and the first of more than one is not 0.
abbrev pub is_digit : ℕ → Bool
is_digit c = leb 48 c && leb c 57

abbrev pub starts_nonzero : Text → Bool
starts_nonzero [] = false
starts_nonzero (c ∷ s) = not (c == 48)

digits_of-digits : (fuel n : ℕ) → all is_digit (digits_of fuel n) ≡ true
unfolding digits_of
digits_of-digits zero n = refl
digits_of-digits (suc fuel) n = elim (Bool-cases (ltb n 10)) [
  | inl e ↦ rw e (ground arith)
  | inr e ↦
      rw
        (
          e,
          all-append is_digit (digits_of fuel (n / 10)) ((48 + n % 10) ∷ []),
          digits_of-digits fuel (n / 10),
        )
        (ground arith)
]

starts-append : (s t : Text) → starts_nonzero s ≡ true → starts_nonzero (s ++ t) ≡ true
starts-append [] t h = absurd (false≢true h)
starts-append (c ∷ s) t h = h

digits_of-starts : (fuel n : ℕ) → n < fuel → 0 < n → starts_nonzero (digits_of fuel n) ≡ true
unfolding digits_of
digits_of-starts zero n h k = absurd (omega arith)
digits_of-starts (suc fuel) n h k = elim (Bool-cases (ltb n 10)) [
  | inl e ↦ rw e (ground arith)
  | inr e ↦ rw e (
      starts-append (digits_of fuel (n / 10)) _
        (digits_of-starts fuel (n / 10) (ground arith) (ground arith)))
]

pub decimal-digits : (n : ℕ) → all is_digit (decimal n) ≡ true
unfolding decimal
decimal-digits n = digits_of-digits (suc n) n

pub decimal-starts : (n : ℕ) → 0 < n → starts_nonzero (decimal n) ≡ true
unfolding decimal
decimal-starts n h = digits_of-starts (suc n) n (omega arith) h

pub decimal_zero : decimal 0 ≡ 48 ∷ []
unfolding decimal digits_of
decimal_zero = refl
