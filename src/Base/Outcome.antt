-- ===== src/Base/Outcome.antt =====
-- Functions that return or throw, with the reasons they throw for.
use mathlib.Core.Path.{◌≡◌, refl}
use mathlib.Core.Bool.{Bool, true, false}

pub data Outcome {ℓ} (E : Type 0) (A : Type ℓ) : Type ℓ where
  throws : E → Outcome E A
  ok : A → Outcome E A

-- `if (bad) throw …`
abbrev pub refuse : {E : Type 0} → Bool → E → Outcome E (Unit {0})
refuse false reason = ok tt
refuse true reason = throws reason

infixl 5 ◌>>=◌ ◌>>◌
-- What stands behind a call is run on its result, and not at all if the call threw.
abbrev pub ◌>>=◌ {ℓ κ} :
    {E : Type 0} {X : Type ℓ} {Y : Type κ} → Outcome E X → (X → Outcome E Y) → Outcome E Y
throws reason >>= rest = throws reason
ok x >>= rest = rest x

abbrev pub ◌>>◌ {κ} : {E : Type 0} {Y : Type κ} → Outcome E (Unit {0}) → Outcome E Y → Outcome E Y
check >> rest = check >>= λ done. rest

module _ {E : Type 0} where
  -- `do` steps: what a chain that returned says of its parts.
  pub refuse-eq-ok {κ} :
      {Y : Type κ} (bad : Bool) (reason : E) (rest : Outcome E Y) {y : Y}
      → (refuse bad reason >> rest) ≡ ok y
      → (bad ≡ false) × (rest ≡ ok y)
  refuse-eq-ok true reason rest h = cc
  refuse-eq-ok false reason rest h = (refl, h)

  pub bind-eq-ok {ℓ κ} :
      {X : Type ℓ} {Y : Type κ} (call : Outcome E X) (rest : X → Outcome E Y) {y : Y}
      → (call >>= rest) ≡ ok y
      → (x : X) × (call ≡ ok x) × (rest x ≡ ok y)
  bind-eq-ok (throws reason) rest h = cc
  bind-eq-ok (ok x) rest h = (x, refl, h)

  pub ok-injective {ℓ} : {X : Type ℓ} {x y : X} → ◌≡◌ {A = Outcome E X} (ok x) (ok y) → x ≡ y
  ok-injective h = cc
