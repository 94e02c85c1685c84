-- ===== src/Base/TextOrder.antt =====
-- The order of texts by their code units, which `<` on strings is.
use Prim.Native.Nat.{ℕ, compare, Ordering}
use mathlib.Core.Path.{◌≡◌, refl}
use mathlib.Core.Logic.{◌≢◌}
use mathlib.Core.List.{[], ◌∷◌}
use native.Mathlib.Omega.{arith}
use agent_permission_guard.Base.Strings.{Text}
use agent_permission_guard.Base.Order.{flip, then_by, IsOrder, compare-IsOrder}

abbrev pub text_compare : Text → Text → Ordering
text_compare [] [] = Ordering.eq
text_compare [] (d ∷ t) = Ordering.lt
text_compare (c ∷ s) [] = Ordering.gt
text_compare (c ∷ s) (d ∷ t) = then_by (compare c d) (text_compare s t)

text_compare-swaps : (s t : Text) → text_compare t s ≡ flip (text_compare s t)
text_compare-swaps [] [] = refl
text_compare-swaps [] (d ∷ t) = refl
text_compare-swaps (c ∷ s) [] = refl
text_compare-swaps (c ∷ s) (d ∷ t) =
    ground (arith, compare-IsOrder.swaps c d, text_compare-swaps s t)

text_compare_trans :
    (s t u : Text)
    → text_compare s t ≢ Ordering.gt
    → text_compare t u ≢ Ordering.gt
    → text_compare s u ≢ Ordering.gt
text_compare_trans [] t [] h k e = absurd (cc)
text_compare_trans [] t (c ∷ u) h k e = absurd (cc)
text_compare_trans (c ∷ s) [] u h k e = absurd (h refl)
text_compare_trans (c ∷ s) (d ∷ t) [] h k e = absurd (k refl)
text_compare_trans (c ∷ s) (d ∷ t) (b ∷ u) h k e = ground (
  arith,
  compare-IsOrder.trans c d b,
  text_compare_trans s t u,
  compare-IsOrder.trans d b c,
  compare-IsOrder.trans b c d,
  compare-IsOrder.swaps c d,
  compare-IsOrder.swaps d b,
  compare-IsOrder.swaps c b,
  h,
  k,
  e,
)

then_by-eq :
    (o : Ordering) {p : Ordering}
    → then_by o p ≡ Ordering.eq
    → (o ≡ Ordering.eq) × (p ≡ Ordering.eq)
then_by-eq o e = ground arith

compare-same : (a b : ℕ) → compare a b ≡ Ordering.eq → a ≡ b
compare-same a b e = ground arith

pub text_compare-separates : (s t : Text) → text_compare s t ≡ Ordering.eq → s ≡ t
text_compare-separates [] [] e = refl
text_compare-separates [] (d ∷ t) e = absurd (cc)
text_compare-separates (c ∷ s) [] e = absurd (cc)
text_compare-separates (c ∷ s) (d ∷ t) e =
    let (same, rest) = then_by-eq (compare c d) e in
    rw (compare-same c d same, text_compare-separates s t rest)

pub text_compare-IsOrder : IsOrder text_compare
text_compare-IsOrder = record { swaps = text_compare-swaps; trans = text_compare_trans }
