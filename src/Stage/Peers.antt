-- ===== src/Stage/Peers.antt =====
-- stage/peer-dependency-semantics.ts: versions, ranges, and when a version satisfies a range.
pub mod Ranges
pub mod Versions
pub mod Paths
pub mod Nodes
pub mod Graph
pub mod Resolution
pub mod Analysis
use Prim.Native.Nat.{lt, eq, gt}
use agent_permission_guard.Base.{
  is_digit, ltb, leb, ◌==◌, if◌then◌else◌, length, any, all, keep, Text, codes, text_eq,
  read_decimal, to_first, split_on, is_empty_text, begins_with, utf8_length, ℕ, zero, suc, ◌+◌, ◌*◌,
  compare, Ordering, Bool, true, false, ◌&&◌, ◌||◌, not, List, [], ◌∷◌, ◌++◌, map,
}
use agent_permission_guard.Base.Outcome.{Outcome, ok, throws, refuse, ◌>>=◌, ◌>>◌}
use agent_permission_guard.Stage.Results.{max_safe_integer, is_safe}

-- The predicates that a `PeerDependencySemanticsError` carries.
pub data PeerError : Type 0 where
  version_invalid specifier_invalid budget_exceeded shape_invalid peer_shape_invalid : PeerError
  peer_meta_invalid role_type_invalid prohibited_role prohibited_field overlap : PeerError
  ordinary_resolution ordinary_range ordinary_cycle self_peer peer_local peer_missing : PeerError
  peer_conflict closure_incomplete role_mismatch : PeerError

abbrev pub Checked : Type 0 → Type 0
Checked A = Outcome PeerError A

pub record Version : Type 0 where
  pub major : ℕ
  pub minor : ℕ
  pub patch : ℕ

-- The operators of a comparison.
pub data Operator : Type 0 where
  below at_most above at_least exactly : Operator

pub record Comparison : Type 0 where
  pub operator : Operator
  pub version : Version

-- One of the branches has all its comparisons hold.
abbrev pub Range : Type 0
Range = List (List Comparison)

-- What stands before the version in an atom.
pub data Prefix : Type 0 where
  plain : Operator → Prefix
  caret tilde : Prefix

-- `0|[1-9]\d*`
unfoldable pub is_canonical : Text → Bool
is_canonical [] = false
is_canonical (c ∷ s) = if c == 0x30 then is_empty_text s else is_digit c && all is_digit s

abbrev pub version_of : PeerError → List Text → Checked Version
version_of e (a ∷ b ∷ c ∷ []) = do
  refuse (not (is_canonical a && is_canonical b && is_canonical c)) e
  let v : Version = record {
    major = read_decimal 0 a;
    minor = read_decimal 0 b;
    patch = read_decimal 0 c;
  } in
      refuse (not (is_safe v.major) || not (is_safe v.minor) || not (is_safe v.patch))
        version_invalid
      >> ok v
version_of e _ = throws e

-- `parseVersion`; where the form is wrong it fails with the predicate given.
unfoldable pub parse_version : PeerError → Text → Checked Version
unfolding split_on is_canonical read_decimal
parse_version e value = version_of e (split_on 0x2e value)

-- The prefix of an atom, and the rest.
unfoldable pub strip_prefix : Text → Prefix × Text
strip_prefix (c ∷ d ∷ s) =
    if c == 0x3d
    then (plain exactly, d ∷ s)
    else if c == 0x3c && d == 0x3d
    then (plain at_most, s)
    else if c == 0x3e && d == 0x3d
    then (plain at_least, s)
    else if c == 0x3c
    then (plain below, d ∷ s)
    else if c == 0x3e
    then (plain above, d ∷ s)
    else if c == 0x5e
    then (caret, d ∷ s)
    else if c == 0x7e
    then (tilde, d ∷ s)
    else (plain exactly, c ∷ d ∷ s)
strip_prefix s = (plain exactly, s)

-- `increment` at an index: the part is raised and the parts behind it are 0.
unfoldable pub increment : Version → ℕ → Checked Version
increment v zero = do
  refuse (v.major == max_safe_integer) specifier_invalid
  ok (record { major = v.major + 1; minor = 0; patch = 0 })
increment v (suc zero) = do
  refuse (v.minor == max_safe_integer) specifier_invalid
  ok (record { major = v.major; minor = v.minor + 1; patch = 0 })
increment v (suc (suc zero)) = do
  refuse (v.patch == max_safe_integer) specifier_invalid
  ok (record { major = v.major; minor = v.minor; patch = v.patch + 1 })
increment v _ = throws specifier_invalid

-- Which part a prefix lets vary: the one behind the first that is not 0, or the patch.
abbrev pub raised_index : Prefix → Version → ℕ
raised_index tilde v = 1
raised_index _ v = if ltb 0 v.major then 0 else if ltb 0 v.minor then 1 else 2

abbrev pub between : Version → Version → List Comparison
between low high =
    record { operator = at_least; version = low } ∷ record { operator = below; version = high } ∷ []

unfoldable pub comparisons_of : Prefix → Version → Checked (List Comparison)
unfolding increment
comparisons_of (plain o) v = ok (record { operator = o; version = v } ∷ [])
comparisons_of caret v = increment v (raised_index caret v) >>= λ high. ok (between v high)
comparisons_of tilde v = increment v (raised_index tilde v) >>= λ high. ok (between v high)

-- The atoms and comparisons so far.
pub record Budget : Type 0 where
  pub atoms : ℕ
  pub comparisons : ℕ

unfoldable pub parse_branch : Budget → List Text → Checked (List Comparison × Budget)
unfolding strip_prefix parse_version comparisons_of
parse_branch b [] = ok ([], b)
parse_branch b (atom ∷ atoms) = do
  refuse (ltb 16 (b.atoms + 1)) budget_exceeded
  let (prefix, rest) = strip_prefix atom
  v ← parse_version specifier_invalid rest
  cs ← comparisons_of prefix v
  refuse (ltb 32 (b.comparisons + length cs)) budget_exceeded
  (ds, final) ←
      parse_branch (record { atoms = b.atoms + 1; comparisons = b.comparisons + length cs }) atoms
  ok (cs ++ ds, final)

unfoldable pub parse_branches : Budget → List (List Text) → Checked Range
unfolding parse_branch
parse_branches b [] = ok []
parse_branches b (branch ∷ branches) = do
  (cs, next) ← parse_branch b branch
  rest ← parse_branches next branches
  ok (cs ∷ rest)

-- `value.split(/ *\|\| */)`, before the spaces around the branches are taken off.
unfoldable pub split_bars : Text → List Text
split_bars [] = [] ∷ []
split_bars (c ∷ []) = (c ∷ []) ∷ []
split_bars (c ∷ d ∷ s) =
    let behind = split_bars s in
    let next = split_bars (d ∷ s) in if c == 0x7c && d == 0x7c then [] ∷ behind else to_first c next

-- The atoms of a branch, parted by spaces.
abbrev pub atoms_of : Text → List Text
atoms_of branch = keep (λ s. not (is_empty_text s)) (split_on 0x20 branch)

abbrev pub is_empty_branch : List Text → Bool
is_empty_branch [] = true
is_empty_branch (_ ∷ _) = false

unfoldable pub ends_in_space : Text → Bool
ends_in_space [] = false
ends_in_space (c ∷ []) = c == 0x20
ends_in_space (c ∷ d ∷ s) = ends_in_space (d ∷ s)

unfoldable pub parse_range : Text → Checked Range
unfolding parse_branches split_bars ends_in_space
parse_range value = do
  refuse
      (ltb 256 (utf8_length value)
        || is_empty_text value
        || begins_with (codes " ") value
        || ends_in_space value
        || any (λ c. not (leb 0x20 c && leb c 0x7e)) value)
      specifier_invalid
  let branches = map atoms_of (split_bars value) in
      if text_eq value (codes "*")
      then ok ([] ∷ [])
      else refuse (ltb 8 (length branches) || any is_empty_branch branches) specifier_invalid
        >> parse_branches (record { atoms = 0; comparisons = 0 }) branches

-- The sign of the difference of the first parts that differ.
unfoldable pub compare_versions : Version → Version → Ordering
compare_versions l r =
    if l.major == r.major
    then if l.minor == r.minor then compare l.patch r.patch else compare l.minor r.minor
    else compare l.major r.major

abbrev pub fits : Operator → Ordering → Bool
fits below lt = true
fits below _ = false
fits at_most gt = false
fits at_most _ = true
fits above gt = true
fits above _ = false
fits at_least lt = false
fits at_least _ = true
fits exactly eq = true
fits exactly _ = false

unfoldable pub holds : Version → Comparison → Bool
unfolding compare_versions
holds v c = fits c.operator (compare_versions v c.version)

unfoldable pub satisfies : Version → Range → Bool
unfolding holds
satisfies v = any (all (holds v))
