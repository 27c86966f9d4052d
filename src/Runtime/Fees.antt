-- ===== src/Runtime/Fees.antt =====
-- parachain/runtime/src/lib.rs: `WeightToFee::polynomial`.
use qnch_chain.Prelude.{
  ℕ, ◌+◌, ◌*◌, ◌/◌, ◌%◌, ◌≤◌, ◌<◌, ◌≡◌, refl, Bool, false, Option, none, some, List, [], ◌∷◌, arith,
  ◌==◌, if◌then◌else◌,
}
use native.Mathlib.Nat.{div-add-mod, mod-lt}
use qnch_chain.Runtime.Units.{milliunit}

-- `WeightToFeeCoefficient<Balance>`; `P` is `Perbill`
pub record Coefficient (P : Type 0) : Type 0 where
  pub degree : ℕ
  pub negative : Bool
  pub coeff_frac : P
  pub coeff_integer : ℕ

module _ {P : Type 0} (from_rational : ℕ → ℕ → P) where
  -- `polynomial()`, at the reference time of `ExtrinsicBaseWeight`. `none` is the panic of a
  -- division by zero. `100 * base` fits a u128, since `base` is a u64.
  unfoldable pub polynomial : ℕ → Option (List (Coefficient P))
  polynomial base =
      let p : ℕ = milliunit / 10 in
      let q = 100 * base in
      if q == 0
      then none
      else some (
          record {
            degree = 1;
            negative = false;
            coeff_frac = from_rational (p % q) q;
            coeff_integer = p / q;
          }
          ∷ [])

  -- The integer part of the fee for a weight, by the one term of the polynomial.
  abbrev pub integer_fee : List (Coefficient P) → ℕ → ℕ
  integer_fee [] w = 0
  integer_fee (c ∷ cs) w = c.coeff_integer * w + integer_fee cs w

  -- For every base weight that is not zero the polynomial is one positive term of degree 1, and the
  -- integer part of the fee that it gives the base weight is a thousandth of a MILLIUNIT, rounded
  -- down by less than the base weight.
  polynomial-base_fee :
      (base : ℕ)
      → 0 < base
      → (c : Coefficient P) × (polynomial base ≡ some (c ∷ []))
        × (c.degree ≡ 1)
        × (c.negative ≡ false)
        × (1000 * (c.coeff_integer * base) ≤ milliunit)
        × (milliunit < 1000 * (c.coeff_integer * base) + 1000 * base)
  unfolding polynomial
  polynomial-base_fee base h =
      let p : ℕ = milliunit / 10 in
      let q = 100 * base in
      (
        record {
          degree = 1;
          negative = false;
          coeff_frac = from_rational (p % q) q;
          coeff_integer = p / q;
        },
        ground arith,
        refl,
        refl,
        omega (arith, div-add-mod p q),
        omega (arith, div-add-mod p q, mod-lt p {m = q} (omega arith)),
      )
