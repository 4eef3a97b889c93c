-- ===== src/Prelude/Unique.antt =====
-- Lists without repetition, for a Boolean equality.
use mathlib.Core.Path.{◌≡◌, refl}
use mathlib.Core.Bool.{false}
use mathlib.Core.List.{List, [], ◌∷◌}
use native.Mathlib.Omega.{arith}
use command_api.Prelude.Lists.{any, All}
use command_api.Prelude.Maps.{Eq}

module _ {ℓ} {A : Type ℓ} ⦃e : Eq A⦄ where
  -- Nothing stands twice.
  abbrev pub Distinct : List A → Type 0
  Distinct [] = Unit {0}
  Distinct (x ∷ rest) = (any (e.beq x) rest ≡ false) × Distinct rest

  -- What is seen with `x` among the known is not `x`.
  pub apart :
      (x : A) (known rest : List A)
      → All (λ y. any (e.beq y) (x ∷ known) ≡ false) rest
      → (any (e.beq x) rest ≡ false) × All (λ y. any (e.beq y) known ≡ false) rest
  apart x known [] h = (refl, tt)
  apart x known (y ∷ rest) (here, h) =
      let (a, b) = apart x known rest h in
      (ground (arith, e.beq_iff x y, e.beq_iff y x), (ground arith, b))
