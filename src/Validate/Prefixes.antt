-- ===== src/Validate/Prefixes.antt =====
-- Prefixes of numbers below a power of two: when all numbers that begin with one prefix begin with
-- another. It is what `cidrCovers` of src/validate/ip.ts decides with masks.
use native.Mathlib.Decide.{dec_lt}
use native.Mathlib.Nat.{
  div-div-eq-div-mul, div-lt_iff_lt-mul, mul-div_cancel, mod-eq_of_lt, one-le-pow, pow-le-pow_right,
  div_self, zero-div, eq_of_mul-eq-mul_right, add-mul-div_right, pow-succ', mul-le-mul_right,
  div-eq_of_lt,
}
use barycenter.Prelude.{
  ℕ, zero, suc, ◌≡◌, sym, ap, ◌∙◌, ◌≤◌, ◌<◌, ◌↔◌, ◌+◌, ◌-◌, ◌*◌, ◌/◌, ◌%◌, ◌^◌, true, ◌&&◌, arith,
  leb, ◌==◌,
}
use barycenter.Validate.Cidr.{masked}

zero_sum : (n : ℕ) → n ≡ 0 + n
zero_sum n = omega arith

pow_eq : (a b : ℕ) → a ≡ b → 2 ^ a ≡ 2 ^ b
pow_eq a b e = ap (λ k. 2 ^ k) e

pow_add : (p q : ℕ) → 2 ^ (p + q) ≡ 2 ^ p * 2 ^ q
pow_add zero q = sym (pow_eq q (0 + q) (zero_sum q)) ∙ omega arith
pow_add (suc p) q =
    pow_eq (suc p + q) (suc (p + q)) (omega arith)
    ∙ omega (arith, pow_add p q, pow-succ' 2 (p + q), ap (λ k. k * 2 ^ q) (pow-succ' 2 p))

pub pow_positive : (k : ℕ) → 0 < 2 ^ k
pow_positive k = one-le-pow k 2 (omega arith)

-- A number below 2 ^ i, of which only the first `o` bits are kept.
module _ (w o i : ℕ) (o_fits : o ≤ i) (i_fits : i ≤ w) where
  outer_size : 2 ^ (w - o) ≡ 2 ^ (w - i) * 2 ^ (i - o)
  outer_size = pow_eq (w - o) ((w - i) + (i - o)) (omega arith) ∙ pow_add (w - i) (i - o)

  quotient_by_outer : (n : ℕ) → n / 2 ^ (w - o) ≡ n / 2 ^ (w - i) / 2 ^ (i - o)
  quotient_by_outer n =
      ap (λ k. n / k) outer_size ∙ sym (div-div-eq-div-mul n (2 ^ (w - i)) (2 ^ (i - o)))

  prefix-div : (n : ℕ) → n * 2 ^ (w - i) / 2 ^ (w - o) ≡ n / 2 ^ (i - o)
  prefix-div n =
      quotient_by_outer (n * 2 ^ (w - i))
      ∙ ap (λ k. k / 2 ^ (i - o)) (mul-div_cancel n (pow_positive (w - i)))

  masked_prefix : (n : ℕ) → n < 2 ^ i → masked w o (n * 2 ^ (w - i)) ≡ n / 2 ^ (i - o) * 2 ^ (w - o)
  masked_prefix n small =
      ap (λ k. k * 2 ^ (w - o))
        (ap (λ k. k % 2 ^ o) (prefix-div n)
          ∙ mod-eq_of_lt ((div-lt_iff_lt-mul (pow_positive (i - o))).1 below))
    where
      below : n < 2 ^ o * 2 ^ (i - o)
      below = omega (arith, small, pow_eq i (o + (i - o)) (omega arith) ∙ pow_add o (i - o))

  pub covers_prefix :
      (m n : ℕ)
      → n < 2 ^ i
      → (masked w o (n * 2 ^ (w - i)) ≡ m * 2 ^ (w - o)) ↔ (n / 2 ^ (i - o) ≡ m)
  covers_prefix m n small = (
    λ h.
        eq_of_mul-eq-mul_right (2 ^ (w - o)) (pow_positive (w - o)) _ _
          (sym (masked_prefix n small) ∙ h),
    λ h. masked_prefix n small ∙ ap (λ k. k * 2 ^ (w - o)) h,
  )

-- The numbers below 2 ^ w whose first `i` bits are `n` have `m` for their first `o` bits.
abbrev pub Includes : ℕ → ℕ → ℕ → ℕ → ℕ → Type 0
Includes w o i m n = (x : ℕ) → x < 2 ^ w → x / 2 ^ (w - i) ≡ n → x / 2 ^ (w - o) ≡ m

power_split : (w i : ℕ) → i ≤ w → 2 ^ w ≡ 2 ^ i * 2 ^ (w - i)
power_split w i fits = pow_eq w (i + (w - i)) (omega arith) ∙ pow_add i (w - i)

below_whole : (w i n r : ℕ) → i ≤ w → n < 2 ^ i → r < 2 ^ (w - i) → r + n * 2 ^ (w - i) < 2 ^ w
below_whole w i n r fits small rest =
    omega (arith, power_split w i fits, mul-le-mul_right (2 ^ (w - i)) small)

inner_prefix : (w i n r : ℕ) → r < 2 ^ (w - i) → (r + n * 2 ^ (w - i)) / 2 ^ (w - i) ≡ n
inner_prefix w i n r rest =
    add-mul-div_right r n (pow_positive (w - i))
    ∙ (ap (λ k. k + n) (div-eq_of_lt rest) ∙ sym (zero_sum n))

pub Includes-iff :
    (w o i m n : ℕ) → o ≤ i → i ≤ w → n < 2 ^ i → (n / 2 ^ (i - o) ≡ m) ↔ Includes w o i m n
Includes-iff w o i m n o_fits i_fits small = (
  λ h x below prefix.
      quotient_by_outer w o i o_fits i_fits x ∙ ap (λ k. k / 2 ^ (i - o)) prefix ∙ h,
  λ h.
      sym (prefix-div w o i o_fits i_fits n)
      ∙ ap (λ k. k / 2 ^ (w - o)) (zero_sum (n * 2 ^ (w - i)))
      ∙ h (0 + n * 2 ^ (w - i)) (below_whole w i n 0 i_fits small (pow_positive (w - i)))
          (inner_prefix w i n 0 (pow_positive (w - i))),
)

-- A longer prefix includes no shorter one: two numbers of the shorter differ in the longer.
module _ (w o i n : ℕ) (longer : i < o) (o_fits : o ≤ w) where
  step_is_smaller : 2 ^ (w - o) < 2 ^ (w - i)
  step_is_smaller = omega (arith, pow-succ' 2 (w - o), pow_positive (w - o), at_least)
    where
      at_least : 2 ^ suc (w - o) ≤ 2 ^ (w - i)
      at_least = pow-le-pow_right (omega arith) (omega arith)

  longer_prefix : (r : ℕ) → (r + n * 2 ^ (w - i)) / 2 ^ (w - o) ≡ r / 2 ^ (w - o) + n * 2 ^ (o - i)
  longer_prefix r =
      ap (λ k. (r + k) / 2 ^ (w - o)) regroup
      ∙ add-mul-div_right r (n * 2 ^ (o - i)) (pow_positive (w - o))
    where
      regroup : n * 2 ^ (w - i) ≡ n * 2 ^ (o - i) * 2 ^ (w - o)
      regroup = ap (λ k. n * k) (outer_size w i o (omega arith) o_fits) ∙ omega arith

  pub longer-Includes : (m : ℕ) → n < 2 ^ i → ¬ (Includes w o i m n)
  longer-Includes m small h = omega (
    arith,
    at_step 0 (pow_positive (w - i)),
    at_step (2 ^ (w - o)) step_is_smaller,
    div_self (pow_positive (w - o)),
    zero-div (2 ^ (w - o)),
  )
    where
      at_step : (r : ℕ) → r < 2 ^ (w - i) → r / 2 ^ (w - o) + n * 2 ^ (o - i) ≡ m
      at_step r rest =
          sym (longer_prefix r)
          ∙ h (r + n * 2 ^ (w - i)) (below_whole w i n r (omega arith) small rest)
              (inner_prefix w i n r rest)

-- The test with masks decides whether the prefix `n` of `i` bits includes that of `m` of `o` bits.
pub test_iff :
    (w o i m n : ℕ)
    → o ≤ w
    → i ≤ w
    → n < 2 ^ i
    → ((leb o i && (masked w o (n * 2 ^ (w - i)) == m * 2 ^ (w - o))) ≡ true) ↔ Includes w o i m n
test_iff w o i m n o_fits i_fits small = elim (dec_lt i o) [
  | yes longer ↦
      (λ h. absurd (ground arith), λ h. absurd (longer-Includes w o i n longer o_fits m small h))
  | no fits ↦ (
    λ h.
        (Includes-iff w o i m n (omega arith) i_fits small).0
          ((covers_prefix w o i (omega arith) i_fits m n small).0 (ground arith)),
    λ h.
        let same =
          (covers_prefix w o i (omega arith) i_fits m n small).1
            ((Includes-iff w o i m n (omega arith) i_fits small).1 h) in
        ground arith,
  )
]
