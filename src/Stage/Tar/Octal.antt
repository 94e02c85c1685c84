-- ===== src/Stage/Tar/Octal.antt =====
-- The octal numbers of a USTAR header, printed and read back.
use agent_permission_guard.Base.{
  leb, all, all-append, drop-length, is_empty_text, ℕ, zero, suc, ◌+◌, ◌-◌, ◌*◌, ◌/◌, ◌%◌, ◌≤◌, ◌<◌,
  ◌≡◌, refl, ◌∙◌, true, false, [], ◌∷◌, ◌++◌, arith,
}
use agent_permission_guard.Stage.Results.{ok, max_safe_integer}
use agent_permission_guard.Stage.Tar.{
  Bytes, is_pad, trim_pad, is_octal, read_octal, parse_canonical_octal,
}

-- The lowest digits of a number, as many as asked for, as `tar` writes them.
unfoldable pub octal : ℕ → ℕ → Bytes
octal zero n = []
octal (suc w) n = octal w (n / 8) ++ (0x30 + n % 8) ∷ []

-- 8 ^ w
unfoldable pub octal_bound : ℕ → ℕ
octal_bound zero = 1
octal_bound (suc w) = octal_bound w * 8

read-append :
    (acc b : ℕ) (bs : Bytes) → read_octal acc (bs ++ b ∷ []) ≡ read_octal acc bs * 8 + (b - 0x30)
unfolding read_octal
read-append acc b [] = refl
read-append acc b (d ∷ bs) = read-append (acc * 8 + (d - 0x30)) b bs

read-octal : (w n : ℕ) → n < octal_bound w → read_octal 0 (octal w n) ≡ n
unfolding read_octal octal octal_bound
read-octal zero n h = omega arith
read-octal (suc w) n h =
    read-append 0 (0x30 + n % 8) (octal w (n / 8))
    ∙ omega (arith, read-octal w (n / 8) (omega arith))

octal-digits : (w n : ℕ) → all is_octal (octal w n) ≡ true
unfolding octal
octal-digits zero n = refl
octal-digits (suc w) n =
    all-append is_octal (octal w (n / 8)) _ ∙ rw (octal-digits w (n / 8)) (ground arith)

trim-pads : (bs : Bytes) → all is_pad bs ≡ true → trim_pad bs ≡ []
unfolding trim_pad
trim-pads [] h = refl
trim-pads (b ∷ bs) h = ground (arith, trim-pads bs)

trim-digits :
    (ds bs : Bytes) → all is_octal ds ≡ true → all is_pad bs ≡ true → trim_pad (ds ++ bs) ≡ ds
unfolding trim_pad
trim-digits [] bs h k = trim-pads bs k
trim-digits (d ∷ ds) bs h k = ground (arith, trim-digits ds bs)

octal-nonempty : (w n : ℕ) → is_empty_text (octal (suc w) n) ≡ false
unfolding octal
octal-nonempty w n = after-nonempty (octal w (n / 8)) (0x30 + n % 8)
  where
    after-nonempty : (bs : Bytes) (b : ℕ) → is_empty_text (bs ++ b ∷ []) ≡ false
    after-nonempty [] b = refl
    after-nonempty (c ∷ bs) b = refl

le-leb : (n m : ℕ) → n ≤ m → leb n m ≡ true
le-leb n m h = ground arith

-- A number printed in enough octal digits, with any NULs and spaces behind it, reads back as the
-- number, if it is a safe integer.
pub parse_canonical_octal-octal :
    (w n : ℕ) (pads : Bytes)
    → n < octal_bound (suc w)
    → n ≤ max_safe_integer
    → all is_pad pads ≡ true
    → parse_canonical_octal (octal (suc w) n ++ pads) ≡ ok n
unfolding parse_canonical_octal
parse_canonical_octal-octal w n pads h small k = rw (
  trim-digits (octal (suc w) n) pads (octal-digits (suc w) n) k,
  octal-nonempty w n,
  octal-digits (suc w) n,
  drop-length (octal (suc w) n) pads,
  k,
  read-octal (suc w) n h,
  le-leb n max_safe_integer small,
)
