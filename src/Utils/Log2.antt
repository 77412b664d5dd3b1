-- ===== src/Utils/Log2.antt =====
-- log2_roundup() rounds up to the least power of two.
use native.Mathlib.Nat.{pow-suc}
use mink.Prelude.{
  ℕ, zero, suc, ◌+◌, ◌-◌, ◌*◌, ◌/◌, ◌^◌, ◌≤◌, ◌<◌, ◌≡◌, refl, arith, ltb, ◌==◌, Bool-cases, inl,
  inr, ok, undefined, false, ap, ◌∙◌,
}
use mink.Prelude.Powers.{two-pow-suc, two-pow-add_one, two-pow_pos, two-pow_lt, two-pow_between}
use mink.Utils.{highest_bit, builtin_clz, log2_roundup}

highest_bit-bounds :
    (fuel n : ℕ)
    → 0 < n
    → n < 2 ^ suc fuel
    → (highest_bit fuel n ≤ fuel)
      × (2 ^ highest_bit fuel n ≤ n)
      × (n < 2 ^ suc (highest_bit fuel n))
unfolding highest_bit
highest_bit-bounds zero n pos h = (omega arith, omega arith, omega arith)
highest_bit-bounds (suc fuel) n pos h = elim (Bool-cases (ltb n 2)) [
  | inl small ↦ rw small (ground arith, ground arith, ground arith)
  | inr large ↦
      let smaller : n / 2 < 2 ^ suc fuel = omega (arith, pow-suc 2 (suc fuel)) in
      let (bound, low, high) = highest_bit-bounds fuel (n / 2) (ground arith) smaller in
      rw large (
        omega arith,
        omega (arith, pow-suc 2 (highest_bit fuel (n / 2))),
        omega (arith, pow-suc 2 (suc (highest_bit fuel (n / 2)))),
      )
]

-- For an `unsigned` other than 0, log2_roundup() gives the least k with n ≤ 2^k.
pub log2_roundup_least :
    (n : ℕ)
    → 0 < n
    → n < 2 ^ 32
    → (k : ℕ) × (log2_roundup n ≡ ok k) × (k ≤ 32) × (n ≤ 2 ^ k) × (2 ^ k < 2 * n)
unfolding log2_roundup builtin_clz
log2_roundup_least n pos h =
    let (bound, low, high) = highest_bit-bounds 31 n pos h in
    let top = highest_bit 31 n in
    let back : 31 - (31 - top) ≡ top = omega arith in
    let nonzero : (n == 0) ≡ false = ground arith in
    elim (Bool-cases (n == 2 ^ top)) [
      | inl power ↦ (top, rw (nonzero, back, power), omega arith, ground arith, ground arith)
      | inr between ↦ (
        top + 1,
        rw (nonzero, back, between),
        omega arith,
        omega (arith, two-pow-suc top, two-pow-add_one top),
        ground (arith, two-pow-suc top, two-pow-add_one top),
      )
    ]

pub log2_roundup-zero : log2_roundup 0 ≡ undefined
unfolding log2_roundup builtin_clz
log2_roundup-zero = refl

-- A power of two is its own rounding.
pub log2_roundup-two-pow : (k : ℕ) → k < 32 → log2_roundup (2 ^ k) ≡ ok k
log2_roundup-two-pow k lt =
    let (j, returns, bound, up, low) =
      log2_roundup_least (2 ^ k) (two-pow_pos k) (two-pow_lt k 32 lt) in
    returns ∙ ap ok (two-pow_between j k up low)
