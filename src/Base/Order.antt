-- ===== src/Base/Order.antt =====
-- Comparison functions, as `Array.prototype.sort` takes them: their laws, the chain `a || b`, and a
-- stable sort.
use Prim.Native.Nat.{compare, Ordering}
use mathlib.Core.Path.{◌≡◌}
use mathlib.Core.Logic.{◌≢◌, ◌⊎◌, ◌↔◌}
use mathlib.Core.List.{List, [], ◌∷◌}
use native.Mathlib.Omega.{arith}
use agent_permission_guard.Base.Lists.{All, In}
use agent_permission_guard.Base.Int.{compare_ℤ}

abbrev pub flip : Ordering → Ordering
flip Ordering.lt = Ordering.gt
flip Ordering.eq = Ordering.eq
flip Ordering.gt = Ordering.lt

-- `x || y` on the numbers that comparators return.
abbrev pub then_by : Ordering → Ordering → Ordering
then_by Ordering.eq y = y
then_by x y = x

module _ {ℓ} {A : Type ℓ} where
  -- A consistent comparator: a total preorder.
  pub record IsOrder (cmp : A → A → Ordering) : Type ℓ where
    pub swaps : (a b : A) → cmp b a ≡ flip (cmp a b)
    pub trans : (a b c : A) → cmp a b ≢ Ordering.gt → cmp b c ≢ Ordering.gt → cmp a c ≢ Ordering.gt

  pub then_by-IsOrder :
      (f g : A → A → Ordering) → IsOrder f → IsOrder g → IsOrder (λ a b. then_by (f a b) (g a b))
  then_by-IsOrder f g o p = record {
    swaps = λ a b. ground (arith, o.swaps a b, p.swaps a b);
    trans = λ a b c h k. ground (
      arith,
      o.trans a b c,
      p.trans a b c,
      o.trans b c a,
      o.trans c a b,
      o.swaps a b,
      o.swaps b c,
      o.swaps a c,
    );
  }

  pub reverse-IsOrder : (f : A → A → Ordering) → IsOrder f → IsOrder (λ a b. f b a)
  reverse-IsOrder f o = record {
    swaps = λ a b. o.swaps b a;
    trans = λ a b c h k. o.trans c b a k h;
  }

  unfoldable pub insert_by : (A → A → Ordering) → A → List A → List A
  insert_by cmp x [] = x ∷ []
  insert_by cmp x (y ∷ ys) = elim (cmp x y) [
    | Ordering.gt ↦ y ∷ insert_by cmp x ys
    | _ ↦ x ∷ y ∷ ys
  ]

  -- `Array.prototype.sort`, which is stable.
  unfoldable pub sort_by : (A → A → Ordering) → List A → List A
  unfolding insert_by
  sort_by cmp [] = []
  sort_by cmp (x ∷ xs) = insert_by cmp x (sort_by cmp xs)

  -- No element stands before one that precedes it.
  abbrev pub IsSorted : (A → A → Ordering) → List A → Type ℓ
  IsSorted cmp [] = Unit
  IsSorted cmp (x ∷ xs) = All (λ y. cmp x y ≢ Ordering.gt) xs × IsSorted cmp xs

module _ {A : Type 0} (cmp : A → A → Ordering) where
  mem-insert : (a x : A) (ys : List A) → In a (insert_by cmp x ys) ↔ ((a ≡ x) ⊎ In a ys)
  unfolding insert_by
  mem-insert a x [] = (λ h. h, λ h. h)
  mem-insert a x (y ∷ ys) = ground (arith, mem-insert a x ys)

  pub mem-sort : (a : A) (xs : List A) → In a (sort_by cmp xs) ↔ In a xs
  unfolding sort_by
  mem-sort a [] = (λ h. h, λ h. h)
  mem-sort a (x ∷ xs) = ground (arith, mem-insert a x (sort_by cmp xs), mem-sort a xs)

  module _ (o : IsOrder cmp) where
    All-insert :
        (z x : A) (ys : List A)
        → cmp z x ≢ Ordering.gt
        → All (λ y. cmp z y ≢ Ordering.gt) ys
        → All (λ y. cmp z y ≢ Ordering.gt) (insert_by cmp x ys)
    unfolding insert_by
    All-insert z x [] h k = (h, tt)
    All-insert z x (y ∷ ys) h k = ground (arith, All-insert z x ys h k.1)

    All-after :
        (x y : A) (ys : List A)
        → cmp x y ≢ Ordering.gt
        → All (λ z. cmp y z ≢ Ordering.gt) ys
        → All (λ z. cmp x z ≢ Ordering.gt) ys
    All-after x y [] h k = tt
    All-after x y (z ∷ ys) h k = (o.trans x y z h k.0, All-after x y ys h k.1)

    insert-IsSorted : (x : A) (ys : List A) → IsSorted cmp ys → IsSorted cmp (insert_by cmp x ys)
    unfolding insert_by
    insert-IsSorted x [] h = (tt, tt)
    insert-IsSorted x (y ∷ ys) h =
        ground (arith, o.swaps x y, All-insert y x ys, All-after x y ys, insert-IsSorted x ys h.1)

    pub sort-IsSorted : (xs : List A) → IsSorted cmp (sort_by cmp xs)
    unfolding sort_by
    sort-IsSorted [] = tt
    sort-IsSorted (x ∷ xs) = insert-IsSorted x (sort_by cmp xs) (sort-IsSorted xs)

-- Orders on numbers, and on the key of a value.
pub compare-IsOrder : IsOrder compare
compare-IsOrder = record { swaps = λ a b. ground arith; trans = λ a b c h k. ground arith }

pub compare_ℤ-IsOrder : IsOrder compare_ℤ
compare_ℤ-IsOrder = record { swaps = λ a b. ground arith; trans = λ a b c h k. ground arith }

pub key-IsOrder {ℓ κ} :
    {A : Type ℓ} {B : Type κ} (key : A → B) (f : B → B → Ordering)
    → IsOrder f
    → IsOrder (λ a b. f (key a) (key b))
key-IsOrder key f o = record {
  swaps = λ a b. o.swaps (key a) (key b);
  trans = λ a b c. o.trans (key a) (key b) (key c);
}
