-- ===== src/Prelude/Bits.antt =====
-- The binary digits of `a & b`, `a | b` and `a ^ 1`, at every width.
use Prim.Native.Nat.{
  ℕ, zero, suc, ◌+◌, ◌-◌, ◌*◌, ◌/◌, ◌%◌, ◌^◌, ◌<◌, min, max, differ, bit_and, bit_or, bit_xor,
}
use mathlib.Core.Path.{◌≡◌, refl, ap, ◌∙◌}
use native.Mathlib.Nat.{add-mul-mod_self_left, div-add-mod, mod-lt, mod-eq_of_lt, mul_assoc}
use mathlib.Core.Logic.{◌⊎◌, inl, inr}
use native.Mathlib.Omega.{arith}
use mink.Prelude.Tests.{◌==◌, if◌then◌else◌}
use mink.Prelude.Digits.{bit_and-digit, bit_or-digit, bit_xor-digit}
use mink.Prelude.Powers.{two-pow-suc, two-pow_pos, half_induction}

-- Binary digit `j` of `a`, 0 or 1.
abbrev pub bit : ℕ → ℕ → ℕ
bit a zero = a % 2
bit a (suc j) = bit (a / 2) j

pub bit-lt : (a j : ℕ) → bit a j < 2
bit-lt a zero = omega arith
bit-lt a (suc j) = bit-lt (a / 2) j

pub bit_zero : (j : ℕ) → bit 0 j ≡ 0
bit_zero zero = refl
bit_zero (suc j) = bit_zero j

pub bit-bit_or : (a b j : ℕ) → bit (bit_or a b) j ≡ max (bit a j) (bit b j)
bit-bit_or a b zero = omega (arith, bit_or-digit a b)
bit-bit_or a b (suc j) =
    let e : bit_or a b / 2 ≡ bit_or (a / 2) (b / 2) = omega (arith, bit_or-digit a b) in
    rw e (bit-bit_or (a / 2) (b / 2) j)

pub bit-bit_and : (a b j : ℕ) → bit (bit_and a b) j ≡ min (bit a j) (bit b j)
bit-bit_and a b zero = omega (arith, bit_and-digit a b)
bit-bit_and a b (suc j) =
    let e : bit_and a b / 2 ≡ bit_and (a / 2) (b / 2) = omega (arith, bit_and-digit a b) in
    rw e (bit-bit_and (a / 2) (b / 2) j)

-- Zero as the second operand, by induction on halves.
and_nothing : (a : ℕ) → bit_and a 0 ≡ 0
and_nothing =
    half_induction (λ a. bit_and a 0 ≡ 0) refl (λ a ih. omega (arith, bit_and-digit a 0, ih))

xor_nothing : (a : ℕ) → bit_xor a 0 ≡ a
xor_nothing =
    half_induction (λ a. bit_xor a 0 ≡ a) refl
      (λ a ih. omega (arith, bit_xor-digit a 0, ih, differ-digit (a % 2) (omega arith)))
  where
    differ-digit : (d : ℕ) → (d ≡ 0) ⊎ (d ≡ 1) → differ d 0 ≡ d
    differ-digit d (inl z) = rw z
    differ-digit d (inr o) = rw o

-- `a & (1 << j)` keeps digit `j` alone.
pub bit_and_one_bit : (a j : ℕ) → bit_and a (2 ^ j) ≡ bit a j * 2 ^ j
bit_and_one_bit a zero = omega (arith, bit_and-digit a 1, and_nothing (a / 2))
bit_and_one_bit a (suc j) =
    let e : 2 ^ suc j / 2 ≡ 2 ^ j = omega (arith, two-pow-suc j) in
    let even : 2 ^ suc j % 2 ≡ 0 = omega (arith, two-pow-suc j) in
    rw (bit_and-digit a (2 ^ suc j), e, even, bit_and_one_bit (a / 2) j)
      (rw (two-pow-suc j) (omega arith))

-- `a ^ 1` is the other one of an even number and its successor.
pub bit_xor-one : (a : ℕ) → bit_xor a 1 ≡ (if a % 2 == 0 then a + 1 else a - 1)
bit_xor-one a =
    ground (arith, bit_xor-digit a 1, xor_nothing (a / 2), flipped (a % 2) (omega arith))
  where
    flipped : (d : ℕ) → (d ≡ 0) ⊎ (d ≡ 1) → differ d 1 ≡ 1 - d
    flipped d (inl z) = rw z
    flipped d (inr o) = rw o

-- `a | 0`, `a | 1`, and `|` as a sum where the second operand lies below the digits of the first.
or_nothing : (a : ℕ) → bit_or a 0 ≡ a
or_nothing = half_induction (λ a. bit_or a 0 ≡ a) refl (λ a ih. omega (arith, bit_or-digit a 0, ih))

pub bit_or-one : (a : ℕ) → bit_or a 1 ≡ a / 2 * 2 + 1
bit_or-one a = omega (arith, bit_or-digit a 1, or_nothing (a / 2))

pub bit_or-below : (k a b : ℕ) → b < 2 ^ k → bit_or (a * 2 ^ k) b ≡ a * 2 ^ k + b
bit_or-below zero a b lt =
    let none : b ≡ 0 = omega (arith, lt) in rw none (omega (arith, or_nothing (a * 2 ^ 0)))
bit_or-below (suc k) a b lt =
    let twice : a * 2 ^ suc k ≡ 2 * (a * 2 ^ k) = rw (two-pow-suc k) (omega arith) in
    let ih = bit_or-below k a (b / 2) (omega (arith, lt, two-pow-suc k)) in
    rw twice (doubled (a * 2 ^ k) b ih)
  where
    doubled : (x b : ℕ) → bit_or x (b / 2) ≡ x + b / 2 → bit_or (2 * x) b ≡ 2 * x + b
    doubled x b ih =
        let half : 2 * x / 2 ≡ x = omega arith in
        let step : bit_or (2 * x) b ≡ max (2 * x % 2) (b % 2) + 2 * bit_or x (b / 2) =
          rw (bit_or-digit (2 * x) b, half) refl in
        omega (arith, step, ih)

mod_twice : (a q : ℕ) → 0 < q → a % (2 * q) ≡ a % 2 + 2 * (a / 2 % q)
mod_twice a q pos =
    let t = a / 2 / q in
    let r = a % 2 + 2 * (a / 2 % q) in
    let parts : a ≡ r + 2 * q * t = omega (arith, div-add-mod (a / 2) q, mul_assoc 2 q t) in
    let small : r < 2 * q = omega (arith, mod-lt (a / 2) pos) in
    let drop : (r + 2 * q * t) % (2 * q) ≡ r % (2 * q) = add-mul-mod_self_left r (2 * q) t in
    ap (λ x. x % (2 * q)) parts ∙ drop ∙ mod-eq_of_lt small

-- `a & (2^k - 1)` is the remainder.
pub bit_and-mask : (k a : ℕ) → bit_and a (2 ^ k - 1) ≡ a % 2 ^ k
bit_and-mask zero a = omega (arith, and_nothing a)
bit_and-mask (suc k) a =
    let ih = bit_and-mask k (a / 2) in
    let half : (2 ^ suc k - 1) / 2 ≡ 2 ^ k - 1 = omega (arith, two-pow-suc k, two-pow_pos k) in
    let odd : (2 ^ suc k - 1) % 2 ≡ 1 = omega (arith, two-pow-suc k, two-pow_pos k) in
    let split : a % 2 ^ suc k ≡ a % 2 + 2 * (a / 2 % 2 ^ k) =
      rw (two-pow-suc k) (mod_twice a (2 ^ k) (two-pow_pos k)) in
    rw (bit_and-digit a (2 ^ suc k - 1), half, odd, ih, split) (omega arith)
