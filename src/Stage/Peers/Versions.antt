-- ===== src/Stage/Peers/Versions.antt =====
-- Versions, printed and read back.
use agent_permission_guard.Base.{
  leb, all, is_digit, starts_nonzero, decimal, decimal-digits, decimal-starts, decimal_zero,
  read-decimal, Text, join_with, split-join, lacks, ℕ, zero, suc, ◌≤◌, ◌≡◌, refl, ap, ◌∙◌, Bool,
  true, ◌&&◌, [], ◌∷◌, arith,
}
use agent_permission_guard.Base.Outcome.{ok}
use agent_permission_guard.Stage.Results.{max_safe_integer, is_safe}
use agent_permission_guard.Stage.Peers.{Version, PeerError, is_canonical, parse_version, version_of}

-- A version as it is printed, `1.2.3`.
unfoldable pub print : Version → Text
print v = join_with 0x2e (decimal v.major ∷ decimal v.minor ∷ decimal v.patch ∷ [])

canonical-digits :
    (s : Text) → all is_digit s ≡ true → starts_nonzero s ≡ true → is_canonical s ≡ true
unfolding is_canonical
canonical-digits [] h k = k
canonical-digits (c ∷ s) h k = ground arith

canonical-decimal : (n : ℕ) → is_canonical (decimal n) ≡ true
unfolding is_canonical
canonical-decimal zero = rw decimal_zero
canonical-decimal (suc n) =
    canonical-digits (decimal (suc n)) (decimal-digits (suc n))
      (decimal-starts (suc n) (omega arith))

digits-lacks : (s : Text) → all is_digit s ≡ true → lacks 0x2e s ≡ true
digits-lacks [] h = refl
digits-lacks (c ∷ s) h = ground (arith, digits-lacks s)

decimal-lacks : (n : ℕ) → lacks 0x2e (decimal n) ≡ true
decimal-lacks n = digits-lacks (decimal n) (decimal-digits n)

safe-le : (n : ℕ) → n ≤ max_safe_integer → is_safe n ≡ true
safe-le n h = leb-le n max_safe_integer h
  where
    leb-le : (n m : ℕ) → n ≤ m → leb n m ≡ true
    leb-le n m h = ground arith

three : (a b c : Bool) → a ≡ true → b ≡ true → c ≡ true → (a && (b && (c && true))) ≡ true
three a b c h k l = rw (h, k, l)

-- Every version whose parts are safe integers is read back from its print, whichever predicate a wrong
-- form would fail with.
pub parse_version-print :
    (e : PeerError) (v : Version)
    → v.major ≤ max_safe_integer
    → v.minor ≤ max_safe_integer
    → v.patch ≤ max_safe_integer
    → parse_version e (print v) ≡ ok v
unfolding parse_version print
parse_version-print e v h k l =
    let parts = decimal v.major ∷ decimal v.minor ∷ decimal v.patch ∷ [] in
    let clean : all (lacks 0x2e) parts ≡ true =
      three (lacks 0x2e (decimal v.major)) (lacks 0x2e (decimal v.minor))
        (lacks 0x2e (decimal v.patch)) (decimal-lacks v.major) (decimal-lacks v.minor)
        (decimal-lacks v.patch) in
    let split = split-join 0x2e (decimal v.major) (decimal v.minor ∷ decimal v.patch ∷ []) clean in
    ap (version_of e) split
    ∙ rw (
      canonical-decimal v.major,
      canonical-decimal v.minor,
      canonical-decimal v.patch,
      read-decimal v.major,
      read-decimal v.minor,
      read-decimal v.patch,
      safe-le v.major h,
      safe-le v.minor k,
      safe-le v.patch l,
    )
