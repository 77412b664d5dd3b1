-- ===== src/Buddy/Valid.antt =====
-- The invariant of an allocator, and how one bitmap write keeps it.
use mink.Prelude.{
  ℕ, suc, ◌+◌, ◌*◌, ◌/◌, ◌^◌, ◌≤◌, ◌<◌, ◌≡◌, arith, ◌==◌, Bool-cases, inl, inr, ==→eq, Outcome,
}
use mink.Prelude.Bits.{bit-lt}
use mink.Prelude.Powers.{two-pow_pos, two-pow-add, lt-div-two-pow}
use native.Mathlib.Nat.{mul-div_cancel}
use mink.Buddy.{Buddy}
use mink.Buddy.View.{IsShaped, Writes, free_at, blocks}
use mink.Buddy.Pages.{free_count, in_block, free_count-update, le-free_count}

-- How many free blocks page `p` of the region lies in.
abbrev pub page_count : Buddy → ℕ → ℕ
page_count bd p = free_count 17 (free_at bd) p

-- Free blocks are whole blocks of the region, and no page lies in two of them.
pub record IsValid (bd : Buddy) : Type 0 where
  pub shaped : IsShaped bd
  pub whole : (o x : ℕ) → o < 17 → free_at bd o x ≡ 1 → x < blocks bd o
  pub exclusive : (p : ℕ) → page_count bd p ≤ 1

-- No page of the block is free.
abbrev pub IsUnused : Buddy → ℕ → ℕ → Type 0
IsUnused bd o x = (p : ℕ) → p / 2 ^ o ≡ x → page_count bd p ≡ 0

pub free_at-le : (bd : Buddy) (o x : ℕ) → free_at bd o x ≤ 1
free_at-le bd o x = omega (arith, bit-lt _ _)

-- The first page of a block lies in it.
pub first_page : (o x : ℕ) → x * 2 ^ o / 2 ^ o ≡ x
first_page o x = mul-div_cancel x (two-pow_pos o)

-- A whole block ends inside the region.
pub block_end : (bd : Buddy) (o x : ℕ) → x < blocks bd o → x * 2 ^ (o + 12) + 2 ^ (o + 12) ≤ bd.size
block_end bd o x h =
    let in_pages : suc x * 2 ^ o ≤ bd.size / 2 ^ 12 = lt-div-two-pow x (bd.size / 2 ^ 12) o h in
    rw two-pow-add (omega (arith, in_pages))

pub unused_is_clear : (bd : Buddy) (o x : ℕ) → o < 17 → IsUnused bd o x → free_at bd o x ≡ 0
unused_is_clear bd o x lt unused =
    let at_first : free_at bd o (x * 2 ^ o / 2 ^ o) ≤ page_count bd (x * 2 ^ o) =
      le-free_count (free_at bd) 17 o (x * 2 ^ o) lt in
    let at_x : free_at bd o x ≤ page_count bd (x * 2 ^ o) = rw first_page at at_first in
    omega (arith, unused (x * 2 ^ o) (first_page o x))

module _ (bd : Buddy) (o x : ℕ) {r : Outcome Buddy} (valid : IsValid bd) (lt : o < 17) where
  same_blocks : (v : ℕ) (w : Writes bd o x v r) (o' : ℕ) → blocks w.out o' ≡ blocks bd o'
  same_blocks v w o' = rw w.same_size

  -- Marking an unused block free adds its pages.
  module _ (w : Writes bd o x 1 r) (inside : x < blocks bd o) (unused : IsUnused bd o x) where
    pub release-pages : (p : ℕ) → page_count w.out p ≡ page_count bd p + in_block o x p
    release-pages p = ground (
      arith,
      free_count-update (free_at bd) (free_at w.out) o x 1 w.view 17 p lt,
      unused_is_clear bd o x lt unused,
    )

    pub release-IsValid : IsValid w.out
    release-IsValid = record {
      shaped = w.shaped;
      whole = λ o' x' lt' is_free. rw (same_blocks 1 w o') (elim (Bool-cases (o == o')) [
        | inl same ↦ elim (Bool-cases (x == x')) [
          | inl this ↦ rw (← ==→eq o o' same, ← ==→eq x x' this) inside
          | inr other ↦ valid.whole o' x' lt' (ground (arith, w.view o' x'))
        ]
        | inr other ↦ valid.whole o' x' lt' (ground (arith, w.view o' x'))
      ]);
      exclusive = λ p. ground (arith, release-pages p, unused p, valid.exclusive p);
    }

  -- Marking a free block as taken removes its pages.
  module _ (w : Writes bd o x 0 r) (is_free : free_at bd o x ≡ 1) where
    pub reserve-pages : (p : ℕ) → page_count w.out p + in_block o x p ≡ page_count bd p
    reserve-pages p =
        ground (arith, free_count-update (free_at bd) (free_at w.out) o x 0 w.view 17 p lt)

    pub reserve-IsValid : IsValid w.out
    reserve-IsValid = record {
      shaped = w.shaped;
      whole = λ o' x' lt' free'.
          rw (same_blocks 0 w o') (valid.whole o' x' lt' (ground (arith, w.view o' x')));
      exclusive = λ p. omega (arith, reserve-pages p, valid.exclusive p);
    }

    -- The block's pages were free, and are so in this block alone.
    pub reserve-IsUnused : IsUnused w.out o x
    reserve-IsUnused p e = ground (arith, reserve-pages p, valid.exclusive p)
