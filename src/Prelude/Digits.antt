-- ===== src/Prelude/Digits.antt =====
-- One binary digit of `&`, `|` and `^`. The native operations mean a recursion over digits that is
-- given the first operand as its fuel; any fuel from that operand up gives the same number.
use Prim.Native.Nat.{
  ℕ, zero, suc, ◌+◌, ◌*◌, ◌/◌, ◌%◌, ◌≤◌, min, max, differ, digits, bitwise, bit_and, bit_or,
  bit_xor, bit_and-bitwise, bit_or-bitwise, bit_xor-bitwise,
}
use mathlib.Core.Path.{◌≡◌, refl, sym, ◌∙◌, ap}
use native.Mathlib.Omega.{arith}

module _ (rest : ℕ → ℕ) (op : ℕ → ℕ → ℕ) where
  enough :
      (limit fuel x y : ℕ) → fuel ≤ limit → x ≤ fuel → digits rest op fuel x y ≡ bitwise rest op x y
  enough limit zero zero y le more = refl
  enough limit (suc fuel) zero y le more = refl
  enough limit zero (suc x) y le more = absurd (omega arith)
  enough zero (suc fuel) (suc x) y le more = absurd (omega arith)
  enough (suc limit) (suc fuel) (suc x) y le more =
      let wide = enough limit fuel (suc x / 2) (y / 2) (omega arith) (omega arith) in
      let narrow = enough limit x (suc x / 2) (y / 2) (omega arith) (omega arith) in
      ap (λ (t : ℕ). t * 2 + op (suc x % 2) (y % 2)) (wide ∙ sym narrow)

  lowest :
      (x y : ℕ)
      → bitwise rest op (suc x) y ≡ op (suc x % 2) (y % 2) + 2 * bitwise rest op (suc x / 2) (y / 2)
  lowest x y = omega (arith, enough x x (suc x / 2) (y / 2) (omega arith) (omega arith))

pub bit_and-digit : (x y : ℕ) → bit_and x y ≡ min (x % 2) (y % 2) + 2 * bit_and (x / 2) (y / 2)
bit_and-digit zero y = rw (bit_and-bitwise, bit_and-bitwise) (omega arith)
bit_and-digit (suc x) y = rw (bit_and-bitwise, bit_and-bitwise) (lowest (λ _. 0) min x y)

pub bit_or-digit : (x y : ℕ) → bit_or x y ≡ max (x % 2) (y % 2) + 2 * bit_or (x / 2) (y / 2)
bit_or-digit zero y = rw (bit_or-bitwise, bit_or-bitwise) (omega arith)
bit_or-digit (suc x) y = rw (bit_or-bitwise, bit_or-bitwise) (lowest (λ t. t) max x y)

pub bit_xor-digit : (x y : ℕ) → bit_xor x y ≡ differ (x % 2) (y % 2) + 2 * bit_xor (x / 2) (y / 2)
bit_xor-digit zero y = rw (bit_xor-bitwise, bit_xor-bitwise) (omega (arith, none (y % 2)))
  where
    none : (d : ℕ) → differ 0 d ≡ d
    none d = refl
bit_xor-digit (suc x) y = rw (bit_xor-bitwise, bit_xor-bitwise) (lowest (λ t. t) differ x y)
