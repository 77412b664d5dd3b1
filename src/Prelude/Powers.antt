-- ===== src/Prelude/Powers.antt =====
-- Powers of two, and division by them.
use Prim.Native.Nat.{ℕ, zero, suc, ◌+◌, ◌-◌, ◌*◌, ◌/◌, ◌%◌, ◌^◌, ◌≤◌, ◌<◌}
use mathlib.Core.Path.{◌≡◌, ◌∙◌, ap, refl}
use native.Mathlib.Nat.{
  pow-suc, mul-pos, mod-eq-sub-div-mul, mul_comm, mul-sub, mul_assoc, mod-lt, mul-le-mul_right,
  lt_of_mul-lt-mul_right, add-mul, pow-le-pow_right, one-le-pow, div-div-eq-div-mul,
  le-div_iff_mul-le,
}
use native.Mathlib.Numerals.{add-one}
use native.Mathlib.Decide.{dec_lt}
use native.Mathlib.Omega.{arith}

pub two-pow_pos : (k : ℕ) → 0 < 2 ^ k
two-pow_pos k = omega (arith, one-le-pow k 2)

pub two-pow-suc : (k : ℕ) → 2 ^ suc k ≡ 2 * 2 ^ k
two-pow-suc k = omega (arith, pow-suc 2 k)

pub two-pow-add_one : (k : ℕ) → 2 ^ (k + 1) ≡ 2 * 2 ^ k
two-pow-add_one k = rw add-one (two-pow-suc k)

pub div-two-pow-suc : (n k : ℕ) → n / 2 ^ suc k ≡ n / 2 ^ k / 2
div-two-pow-suc n k = rw (pow-suc, ← div-div-eq-div-mul)

pub two-pow-add : (j k : ℕ) → 2 ^ (j + k) ≡ 2 ^ j * 2 ^ k
two-pow-add j zero = omega (arith, ap (λ (t : ℕ). 2 ^ t) (add-zero j))
  where
    add-zero : (a : ℕ) → a + 0 ≡ a
    add-zero a = omega arith
two-pow-add j (suc k) =
    ap (λ (t : ℕ). 2 ^ t) (shift j k)
    ∙ two-pow-suc (j + k)
    ∙ grind (arith, two-pow-add j k, two-pow-suc k)
  where
    shift : (a b : ℕ) → a + suc b ≡ suc (a + b)
    shift a b = omega arith

-- `x < n / 2^k` says that block `x` of size 2^k lies below `n`.
pub lt-div-two-pow : (x n k : ℕ) → x < n / 2 ^ k → suc x * 2 ^ k ≤ n
lt-div-two-pow x n k h = (le-div_iff_mul-le (two-pow_pos k)).0 h

pub two-pow_le : (j k : ℕ) → j ≤ k → 2 ^ j ≤ 2 ^ k
two-pow_le j k h = pow-le-pow_right (omega arith) h

pub two-pow_lt : (j k : ℕ) → j < k → 2 ^ j < 2 ^ k
two-pow_lt j k h = omega (arith, two-pow_le (suc j) k h, two-pow-suc j, two-pow_pos j)

-- The only power of two from 2^k to below twice that is 2^k.
pub two-pow_between : (j k : ℕ) → 2 ^ k ≤ 2 ^ j → 2 ^ j < 2 * 2 ^ k → j ≡ k
two-pow_between j k up low = elim (dec_lt j k) [
  | yes lt ↦ absurd (omega (arith, two-pow_lt j k lt))
  | no ge ↦ elim (dec_lt k j) [
    | yes gt ↦ absurd (omega (arith, two-pow_le (suc k) j gt, two-pow-suc k))
    | no le ↦ omega arith
  ]
]

half_up {ℓ} : (P : ℕ → Type ℓ) → P 0 → ((a : ℕ) → P (a / 2) → P a) → (limit a : ℕ) → a ≤ limit → P a
half_up P base step limit zero h = base
half_up P base step zero (suc a) h = absurd (omega arith)
half_up P base step (suc limit) (suc a) h =
    step (suc a) (half_up P base step limit (suc a / 2) (omega arith))

-- Induction that goes from `a / 2` to `a`.
pub half_induction {ℓ} : (P : ℕ → Type ℓ) → P 0 → ((a : ℕ) → P (a / 2) → P a) → (a : ℕ) → P a
half_induction P base step a = half_up P base step a a (omega arith)

-- A block of `a` bytes ends at a multiple of `a * b`, or before it.
block_mod : (a b x : ℕ) → 0 < a → 0 < b → x * a % (b * a) + a ≤ b * a
block_mod a b x pos pos' =
    let q = x * a / (b * a) in
    let r = x - q * b in
    let e : x * a % (b * a) ≡ r * a =
      mod-eq-sub-div-mul (x * a) (b * a)
      ∙ rw (mul_comm r a, mul-sub, mul_comm a x, mul_comm a (q * b), mul_assoc) refl in
    let lt : r * a < b * a = rw (← e) (mod-lt (x * a) (mul-pos pos' pos)) in
    let below : r < b = lt_of_mul-lt-mul_right a lt in
    let next : (r + 1) * a ≤ b * a = mul-le-mul_right a (omega (arith, below)) in
    omega (arith, e, next, add-mul r 1 a)

pub two-pow_block : (k j x : ℕ) → x * 2 ^ k % 2 ^ (j + k) + 2 ^ k ≤ 2 ^ (j + k)
two-pow_block k j x =
    rw (two-pow-add j k) (block_mod (2 ^ k) (2 ^ j) x (two-pow_pos k) (two-pow_pos j))
