-- ===== src/Word/Bits.antt =====
-- The bit operations as arithmetic: one equation for the lowest digit, and what follows from it
-- about masks, disjoint fields and bounds.
use Prim.Native.Nat.{
  ℕ, zero, suc, ◌+◌, ◌*◌, ◌/◌, ◌%◌, ◌^◌, ◌-◌, ◌≤◌, ◌<◌, min, max, bit_and, bit_or, bit_xor, digits,
  bitwise, differ, bit_and-bitwise, bit_or-bitwise, bit_xor-bitwise,
}
use mathlib.Core.Path.{◌≡◌, refl, ap, ap₂, sym, ◌∙◌}
use native.Mathlib.Omega.{arith}
use native.Mathlib.Nat.{
  two-pow-succ, le_refl, one-le-pow, div-add-mod, mod-lt, mod-eq_of_lt, add-mul-mod_self_left,
}

module _ (z : ℕ → ℕ) (f : ℕ → ℕ → ℕ) where
  -- Digits past the last one of the first number add nothing, so the count does not matter.
  count_irrelevant : (k l a b : ℕ) → a ≤ k → a ≤ l → digits z f k a b ≡ digits z f l a b
  count_irrelevant k l zero b hk hl = at_zero k ∙ sym (at_zero l)
    where
      at_zero : (n : ℕ) → digits z f n zero b ≡ z b
      at_zero zero = refl
      at_zero (suc n) = refl
  count_irrelevant zero l (suc a) b hk hl = absurd (omega arith)
  count_irrelevant (suc k) zero (suc a) b hk hl = absurd (omega arith)
  count_irrelevant (suc k) (suc l) (suc a) b hk hl =
      ap (λ t. t * 2 + f (suc a % 2) (b % 2))
        (count_irrelevant k l (suc a / 2) (b / 2) (omega arith) (omega arith))

  lowest_digit :
      (a b : ℕ)
      → bitwise z f (suc a) b ≡ bitwise z f (suc a / 2) (b / 2) * 2 + f (suc a % 2) (b % 2)
  lowest_digit a b =
      ap (λ t. t * 2 + f (suc a % 2) (b % 2))
        (count_irrelevant a (suc a / 2) (suc a / 2) (b / 2) (omega arith) (omega arith))

and_step : (a b : ℕ) → bit_and a b ≡ bit_and (a / 2) (b / 2) * 2 + min (a % 2) (b % 2)
and_step zero b = simp bit_and-bitwise (omega arith)
and_step (suc a) b = simp bit_and-bitwise (lowest_digit (λ _. 0) min a b)

or_step : (a b : ℕ) → bit_or a b ≡ bit_or (a / 2) (b / 2) * 2 + max (a % 2) (b % 2)
or_step zero b = simp bit_or-bitwise (omega arith)
or_step (suc a) b = simp bit_or-bitwise (lowest_digit (λ c. c) max a b)

differ-zero : (c : ℕ) → differ c 0 ≡ c
differ-zero zero = refl
differ-zero (suc c) = refl

pub xor_step : (a b : ℕ) → bit_xor a b ≡ bit_xor (a / 2) (b / 2) * 2 + differ (a % 2) (b % 2)
xor_step zero b = simp bit_xor-bitwise (omega arith)
xor_step (suc a) b = simp bit_xor-bitwise (lowest_digit (λ c. c) differ a b)

-- Two digits differ by a digit.
pub differ-le : (a b : ℕ) → a < 2 → b < 2 → differ a b < 2
differ-le zero b ha hb = hb
differ-le (suc zero) zero ha hb = omega arith
differ-le (suc zero) (suc zero) ha hb = omega arith
differ-le (suc zero) (suc (suc b)) ha hb = absurd (omega arith)
differ-le (suc (suc a)) b ha hb = absurd (omega arith)

-- Exclusive or stays within a width.
pub bit_xor-lt : (k a b : ℕ) → a < 2 ^ k → b < 2 ^ k → bit_xor a b < 2 ^ k
bit_xor-lt zero zero zero ha hb = omega arith
bit_xor-lt zero zero (suc b) ha hb = absurd (omega arith)
bit_xor-lt zero (suc a) b ha hb = absurd (omega arith)
bit_xor-lt (suc k) a b ha hb = omega (
  arith,
  two-pow-succ k,
  xor_step a b,
  differ-le (a % 2) (b % 2) (omega arith) (omega arith),
  bit_xor-lt k (a / 2) (b / 2) (omega (arith, two-pow-succ k)) (omega (arith, two-pow-succ k)),
)

bit_and-zero : (n a : ℕ) → a ≤ n → bit_and a 0 ≡ 0
bit_and-zero n zero h = refl
bit_and-zero zero (suc a) h = absurd (omega arith)
bit_and-zero (suc n) (suc a) h =
    omega (arith, and_step (suc a) 0, bit_and-zero n (suc a / 2) (omega arith))

bit_or-zero : (n a : ℕ) → a ≤ n → bit_or a 0 ≡ a
bit_or-zero n zero h = refl
bit_or-zero zero (suc a) h = absurd (omega arith)
bit_or-zero (suc n) (suc a) h =
    omega (arith, or_step (suc a) 0, bit_or-zero n (suc a / 2) (omega arith))

-- The remainder by a doubled number keeps the lowest digit.
mod_double : (x m : ℕ) → 0 < m → x % (m + m) ≡ x / 2 % m * 2 + x % 2
mod_double x m h =
    let q = x / 2 / m in
    let r = x / 2 % m * 2 + x % 2 in
    let e : x ≡ r + (m + m) * q = omega (arith, div-add-mod (x / 2) m) in
    let small : r < m + m = omega (arith, mod-lt (x / 2) h) in
    ap (λ t. t % (m + m)) e ∙ add-mul-mod_self_left r (m + m) q ∙ mod-eq_of_lt small

-- A mask of the `k` low bits is a remainder.
pub bit_and_mask : (k x : ℕ) → bit_and x (2 ^ k - 1) ≡ x % 2 ^ k
bit_and_mask zero x = omega (arith, bit_and-zero x x (le_refl x))
bit_and_mask (suc k) x =
    let m = 2 ^ k in
    let pos : 0 < m = one-le-pow k 2 (omega arith) in
    let half : (m + m - 1) / 2 ≡ m - 1 = omega arith in
    let odd : min (x % 2) ((m + m - 1) % 2) ≡ x % 2 = omega arith in
    let first : bit_and x (m + m - 1)
        ≡ bit_and (x / 2) ((m + m - 1) / 2) * 2 + min (x % 2) ((m + m - 1) % 2) =
      and_step x (m + m - 1) in
    rw (two-pow-succ k) (
      first
      ∙ ap₂ (λ s t. bit_and (x / 2) s * 2 + t) half odd
      ∙ ap (λ t. t * 2 + x % 2) (bit_and_mask k (x / 2))
      ∙ sym (mod_double x m pos))

-- Fields that do not overlap are joined by addition.
pub bit_or_fields : (k low high : ℕ) → low < 2 ^ k → bit_or low (high * 2 ^ k) ≡ low + high * 2 ^ k
bit_or_fields zero low high h =
    let e : low ≡ 0 = omega arith in rw e (bit_or-bitwise 0 (high * 2 ^ 0) ∙ omega arith)
bit_or_fields (suc k) low high h =
    let m = high * 2 ^ k in
    let e : high * 2 ^ suc k ≡ m + m = rw (two-pow-succ k) (omega arith) in
    let ih : bit_or (low / 2) m ≡ low / 2 + m =
      bit_or_fields k (low / 2) high (omega (arith, two-pow-succ k)) in
    let half : (m + m) / 2 ≡ m = omega arith in
    let digit : max (low % 2) ((m + m) % 2) ≡ low % 2 = omega arith in
    rw e
      (or_step low (m + m) ∙ ap₂ (λ s t. bit_or (low / 2) s * 2 + t) half digit ∙ omega (arith, ih))
