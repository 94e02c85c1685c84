-- ===== src/Install/Parser/Targets.antt =====
-- The targets `name@specifier` of an install request.
use agent_permission_guard.Base.Outcome.{ok}
use agent_permission_guard.Base.{
  ltb, ◌==◌, ==_iff, ==_refl, Bool-cases, and-true, not-below_false, length, all, drop,
  length-append, all-append, append_assoc, take-length, Text, codes, split_on, join_with,
  is_empty_text, has_unit, begins_with, join-split, lacks, ℕ, suc, ◌≤◌, ◌≡◌, refl, sym, ap, ◌∙◌,
  subst, inl, inr, Bool, true, false, ◌&&◌, not, false≢true, none, some, List, [], ◌∷◌, ◌++◌, map,
  arith,
}
use agent_permission_guard.Install.Parser.{
  is_lower_alnum, is_name_unit, is_name_part, are_two_parts, is_package_name, is_specifier_unit,
  index_of, last_index_of, lower, has_source_prefix, is_scoped, separator_of,
  parse_registry_package_spec,
}

-- `lastIndexOf` at the last of a separator's occurrences, `indexOf` at the first.
last_index_of-none : (c : ℕ) (s : Text) → lacks c s ≡ true → last_index_of c s ≡ none
unfolding last_index_of
last_index_of-none c [] h = refl
last_index_of-none c (d ∷ s) h =
    rw (last_index_of-none c s (ground arith), last_index_of) (ground arith)

last_index_of-append :
    (c : ℕ) (p s : Text) → lacks c s ≡ true → last_index_of c (p ++ c ∷ s) ≡ some (length p)
unfolding last_index_of
last_index_of-append c [] s h = rw (last_index_of-none c s h, ==_refl c, last_index_of)
last_index_of-append c (d ∷ p) s h = rw (last_index_of-append c p s h, last_index_of)

index_of-append :
    (c : ℕ) (p s : Text) → lacks c p ≡ true → index_of c (p ++ c ∷ s) ≡ some (length p)
unfolding index_of
index_of-append c [] s h = rw (==_refl c)
index_of-append c (d ∷ p) s h =
    let (a, b) = and-true (not (d == c)) (lacks c p) h in
    rw (index_of-append c p s b) (ground arith)

-- The units of names and specifiers are none of the separators.
unit-other : (p : ℕ → Bool) (c d : ℕ) → p d ≡ false → p c ≡ true → not (c == d) ≡ true
unit-other p c d h k = elim (Bool-cases (c == d)) [
  | inl e ↦ absurd (false≢true (sym h ∙ sym (ap p ((==_iff c d).0 e)) ∙ k))
  | inr e ↦ rw e
]

all-lacks : (p : ℕ → Bool) (d : ℕ) (s : Text) → p d ≡ false → all p s ≡ true → lacks d s ≡ true
all-lacks p d [] h k = refl
all-lacks p d (c ∷ s) h k =
    let (a, b) = and-true (p c) (all p s) k in rw (unit-other p c d h a) (all-lacks p d s h b)

name_part-units : (s : Text) → is_name_part s ≡ true → all is_name_unit s ≡ true
unfolding is_name_part
name_part-units (c ∷ s) h = ground arith
name_part-units [] h = absurd (false≢true h)

lacks-append : (d : ℕ) (s t : Text) → lacks d s ≡ true → lacks d t ≡ true → lacks d (s ++ t) ≡ true
lacks-append d s t h k = all-append (λ c. not (c == d)) s t ∙ rw (h, k)

lacks-has_unit : (d : ℕ) (s : Text) → lacks d s ≡ true → has_unit d s ≡ false
lacks-has_unit d [] h = refl
lacks-has_unit d (c ∷ s) h = ground (arith, lacks-has_unit d s)

lower-lacks : (s : Text) → lacks 0x3a s ≡ true → lacks 0x3a (map lower s) ≡ true
lower-lacks [] h = refl
lower-lacks (c ∷ s) h = ground (arith, lower-lacks s)

-- A text without a colon begins with no source.
begins-lacks : (d : ℕ) (w s : Text) → lacks d s ≡ true → begins_with (w ++ d ∷ []) s ≡ false
unfolding begins_with
begins-lacks d [] [] h = refl
begins-lacks d [] (c ∷ s) h = ground arith
begins-lacks d (a ∷ w) [] h = refl
begins-lacks d (a ∷ w) (c ∷ s) h = ground (arith, begins-lacks d w s)

has_source_prefix-lacks : (s : Text) → lacks 0x3a s ≡ true → has_source_prefix s ≡ false
unfolding has_source_prefix
has_source_prefix-lacks s h =
    let k = lower-lacks s h in
    rw (
      begins-lacks 0x3a (codes "file") (map lower s) k,
      begins-lacks 0x3a (codes "git") (map lower s) k,
      begins-lacks 0x3a (codes "http") (map lower s) k,
      begins-lacks 0x3a (codes "https") (map lower s) k,
      begins-lacks 0x3a (codes "github") (map lower s) k,
    )

drop-behind : (p s : Text) (c : ℕ) → drop (suc (length p)) (p ++ c ∷ s) ≡ s
drop-behind [] s c = refl
drop-behind (d ∷ p) s c = drop-behind p s c

-- What the parser sees of a target.
record IsReadable (name specifier : Text) : Type 0 where
  plain : lacks 0x3a name ≡ true
  registry :
      (has_unit 0x2f (name ++ 0x40 ∷ specifier) && not (is_scoped (name ++ 0x40 ∷ specifier)))
      ≡ false
  no_dot : begins_with (codes ".") (name ++ 0x40 ∷ specifier) ≡ false
  no_slash : begins_with (codes "/") (name ++ 0x40 ∷ specifier) ≡ false
  separated : separator_of (name ++ 0x40 ∷ specifier) ≡ some (length name)

first-other : (c d : ℕ) → is_lower_alnum d ≡ false → is_lower_alnum c ≡ true → (d == c) ≡ false
first-other c d h k = ground (arith, unit-other is_lower_alnum c d h k)

begins-other : (c d : ℕ) (s : Text) → (d == c) ≡ false → begins_with (d ∷ []) (c ∷ s) ≡ false
unfolding begins_with
begins-other c d s h = rw h

and_false : (a : Bool) → (a && false) ≡ false
and_false true = refl
and_false false = refl

shorter : (a b : Text) (c : ℕ) → ltb (suc (length a)) (suc (length (a ++ c ∷ b))) ≡ true
shorter a b c = ground (arith, length-append a (c ∷ b))

above-zero : (n : ℕ) → ltb 0 (suc n) ≡ true
above-zero n = ground arith

unscoped-IsReadable :
    (c : ℕ) (s specifier : Text)
    → is_name_part (c ∷ s) ≡ true
    → all is_specifier_unit specifier ≡ true
    → IsReadable (c ∷ s) specifier
unfolding is_name_part separator_of index_of begins_with
unscoped-IsReadable c s specifier h k =
    let units = name_part-units (c ∷ s) h in
    let (first, _) = and-true (is_lower_alnum c) _ h in
    let slashes =
      lacks-append 0x2f (c ∷ s) (0x40 ∷ specifier) (all-lacks is_name_unit 0x2f (c ∷ s) refl units)
        (all-lacks is_specifier_unit 0x2f specifier refl k) in
    record {
      plain = all-lacks is_name_unit 0x3a (c ∷ s) refl units;
      registry = rw (lacks-has_unit 0x2f ((c ∷ s) ++ 0x40 ∷ specifier) slashes);
      no_dot = begins-other c 0x2e (s ++ 0x40 ∷ specifier) (first-other c 0x2e refl first);
      no_slash = begins-other c 0x2f (s ++ 0x40 ∷ specifier) (first-other c 0x2f refl first);
      separated = rw (
        begins-other c 0x40 (s ++ 0x40 ∷ specifier) (first-other c 0x40 refl first),
        index_of-append 0x40 (c ∷ s) specifier (all-lacks is_name_unit 0x40 (c ∷ s) refl units),
        above-zero (length s),
        separator_of,
      );
    }

scoped-IsReadable :
    (a b specifier : Text)
    → is_name_part a ≡ true
    → is_name_part b ≡ true
    → all is_specifier_unit specifier ≡ true
    → IsReadable (0x40 ∷ (a ++ 0x2f ∷ b)) specifier
unfolding separator_of begins_with
scoped-IsReadable a b specifier h k l =
    let left = name_part-units a h in
    let right = name_part-units b k in
    let name = 0x40 ∷ (a ++ 0x2f ∷ b) in
    record {
      plain =
          lacks-append 0x3a a (0x2f ∷ b) (all-lacks is_name_unit 0x3a a refl left)
            (all-lacks is_name_unit 0x3a b refl right);
      registry = and_false (has_unit 0x2f (name ++ 0x40 ∷ specifier));
      no_dot = refl;
      no_slash = refl;
      separated = rw (
        last_index_of-append 0x40 name specifier
            (all-lacks is_specifier_unit 0x40 specifier refl l),
        ap (λ t. index_of 0x2f (0x40 ∷ t)) (append_assoc a (0x2f ∷ b) (0x40 ∷ specifier))
            ∙ index_of-append 0x2f (0x40 ∷ a) (b ++ 0x40 ∷ specifier)
                (all-lacks is_name_unit 0x2f a refl left),
        shorter a b 0x2f,
        separator_of,
      );
    }

two-parts :
    (ps : List Text)
    → are_two_parts ps ≡ true
    → (a : Text) × (b : Text) × (ps ≡ a ∷ b ∷ [])
      × (is_name_part a ≡ true)
      × (is_name_part b ≡ true)
two-parts [] h = absurd (false≢true h)
two-parts (a ∷ []) h = absurd (false≢true h)
two-parts (a ∷ b ∷ []) h = let (l, r) = and-true (is_name_part a) _ h in (a, b, refl, l, r)
two-parts (a ∷ b ∷ c ∷ ps) h = absurd (false≢true h)

package_name-IsReadable :
    (name specifier : Text)
    → is_package_name name ≡ true
    → all is_specifier_unit specifier ≡ true
    → IsReadable name specifier
unfolding is_package_name join_with
package_name-IsReadable [] specifier h k = absurd (false≢true h)
package_name-IsReadable (c ∷ s) specifier h k = elim (Bool-cases (c == 0x40)) [
  | inl e ↦
      let (a, b, same, l, r) = two-parts (split_on 0x2f s) (rw (e, is_package_name) at h) in
      let whole : a ++ 0x2f ∷ b ≡ s = ap (join_with 0x2f) (sym same) ∙ join-split 0x2f s in
      subst (λ t. IsReadable t specifier) (λ i. sym ((==_iff c 0x40).0 e) i ∷ whole i)
        (scoped-IsReadable a b specifier l r k)
  | inr e ↦ unscoped-IsReadable c s specifier (rw (e, is_package_name) at h) k
]

-- A target that is printed from a package name and a specifier is read back as the two: names of at
-- most 214 units, with a scope or without, and specifiers of 1 to 128 units, of the forms that the
-- parser allows.
pub parse_registry_package_spec-print :
    (name specifier : Text)
    → is_package_name name ≡ true
    → length name ≤ 214
    → all is_specifier_unit specifier ≡ true
    → is_empty_text specifier ≡ false
    → length specifier ≤ 128
    → parse_registry_package_spec (name ++ 0x40 ∷ specifier) ≡ ok (name, specifier)
unfolding parse_registry_package_spec
parse_registry_package_spec-print name specifier h short k some_unit short_too =
    let m = package_name-IsReadable name specifier h k in
    let colons =
      lacks-append 0x3a name (0x40 ∷ specifier) m.plain
        (all-lacks is_specifier_unit 0x3a specifier refl k) in
    rw (
      not-below_false 343 (length (name ++ 0x40 ∷ specifier))
          (omega (arith, length-append name (0x40 ∷ specifier))),
      m.registry,
      has_source_prefix-lacks (name ++ 0x40 ∷ specifier) colons,
      m.no_dot,
      m.no_slash,
      m.separated,
      take-length name (0x40 ∷ specifier),
      drop-behind name specifier 0x40,
      not-below_false 214 (length name) short,
      h,
      some_unit,
      not-below_false 128 (length specifier) short_too,
      k,
    )
