-- ===== src/Utils.antt =====
-- utils.c: powers of two. (buddy.c has a static copy of log2_roundup().)
pub mod Log2
use mink.Prelude.{
  ℕ, zero, suc, ◌+◌, ◌-◌, ◌/◌, ◌^◌, ◌==◌, ltb, if◌then◌else◌, Outcome, ok, undefined, ◌>>=◌,
}

-- Position of the highest set bit of a 32-bit word other than 0.
unfoldable pub highest_bit : ℕ → ℕ → ℕ
highest_bit zero n = 0
highest_bit (suc fuel) n = if ltb n 2 then 0 else suc (highest_bit fuel (n / 2))

-- The number of leading zeros of an `unsigned`; the compiler leaves it undefined at 0.
unfoldable pub builtin_clz : ℕ → Outcome ℕ
builtin_clz n = if n == 0 then undefined else ok (31 - highest_bit 31 n)

unfoldable pub log2_roundup : ℕ → Outcome ℕ
log2_roundup n = do clz ← builtin_clz n; let l2 = 31 - clz; ok (if n == 2 ^ l2 then l2 else l2 + 1)
