-- ===== src/Billing/Prices.antt =====
-- The price that a checkout charges.
use native.Mathlib.Nat.{mul-le-mul_left}
use testmellow.Prelude.{ℕ, ◌+◌, ◌*◌, ◌≤◌, ◌<◌, ◌≡◌, refl, arith, ltb, sym, inl, inr, Bool-cases}
use testmellow.Prelude.Int.{pos, negsuc}
use testmellow.Billing.Checkout.{clamp_discount_percent, discounted_price}

clamp_small : (n : ℕ) → n ≤ 100 → clamp_discount_percent (pos n) ≡ n
unfolding clamp_discount_percent
clamp_small n l = ground arith

clamp_large : (n : ℕ) → 100 ≤ n → clamp_discount_percent (pos n) ≡ 100
unfolding clamp_discount_percent
clamp_large n l = ground arith

product_le : (base c : ℕ) → c ≤ 100 → base * c ≤ 100 * base
product_le base c l = omega (arith, mul-le-mul_left base l)

-- The same for a percentage `c` and the product `m` of base and percentage.
price_bounds :
    (base c m : ℕ)
    → m ≡ base * c
    → m ≤ 100 * base
    → (c ≡ 0 → m ≡ 0)
    → (discounted_price base c ≤ base)
      × (100 * base ≤ 100 * discounted_price base c + m)
      × (100 * discounted_price base c + m < 100 * base + 100)
unfolding discounted_price
price_bounds base c m e l z = elim (Bool-cases (ltb 0 c)) [
  | inl p ↦ rw (p, sym e) (ground arith)
  | inr n ↦ ground (arith, z)
]

-- Whatever percentage stands in the database: one from 0 to 100 gives the base price less that
-- percentage of it, rounded up to a kopeck, and so no more than the base price; one of 100 or more
-- gives 0; and a negative one gives the base price.
pub discounted_price-bounds :
    (base n : ℕ)
    → (n ≤ 100
        → (discounted_price base (clamp_discount_percent (pos n)) ≤ base)
          × (100 * base ≤ 100 * discounted_price base (clamp_discount_percent (pos n)) + base * n)
          × (100 * discounted_price base (clamp_discount_percent (pos n)) + base * n
              < 100 * base + 100))
      × (100 ≤ n → discounted_price base (clamp_discount_percent (pos n)) ≡ 0)
      × (discounted_price base (clamp_discount_percent (negsuc n)) ≡ base)
unfolding discounted_price clamp_discount_percent
discounted_price-bounds base n = (
  λ l.
      rw (clamp_small n l)
        (price_bounds base n (base * n) refl (product_le base n l) (λ z. rw z (omega arith))),
  λ l. rw (clamp_large n l) (ground arith),
  ground arith,
)
