-- ===== src/Buddy/Alloc.antt =====
-- buddy_alloc() takes the pages of one aligned block out of the free ones, or finds that no free
-- block is large enough.
use mink.Prelude.{
  ℕ, zero, suc, ◌+◌, ◌-◌, ◌*◌, ◌^◌, ◌≤◌, ◌<◌, ◌≡◌, refl, arith, false, ◌==◌, ltb, Option, none,
  some, Outcome, ok, ◌∙◌, ◌⊎◌, inl, inr, Bool-cases, ==→eq, sym, ap,
}
use mink.Utils.{log2_roundup}
use mink.Bitmap.Scan.{first_set_lem}
use mink.Buddy.{Buddy, u64, no_memory, search_up, split, clear_bit, take_block, alloc}
use mink.Buddy.View.{Writes, free_at, blocks, bitmap_of, order-bitmap_of, clear_bit-Writes}
use mink.Buddy.Pages.{in_block}
use mink.Buddy.Valid.{IsValid, page_count, reserve-pages, reserve-IsValid, free_at-le}
use mink.Buddy.Split.{Splits, split-Splits}

-- No block of order `o` or above is free.
abbrev pub NoneFrom : Buddy → ℕ → Type 0
NoneFrom bd o = (o' x : ℕ) → o ≤ o' → o' < 17 → free_at bd o' x ≡ 0

-- `r` returns the address of block `x` of order `o` and a valid allocator whose free pages are
-- those of `bd` without the block's, all of which were free.
pub record TakesBlock (bd : Buddy) (o x : ℕ) (r : Outcome (ℕ × Buddy)) : Type 0 where
  pub out : Buddy
  pub returns : r ≡ ok (u64 (bd.start + x * 2 ^ (o + 12)), out)
  pub valid : IsValid out
  pub same_start : out.start ≡ bd.start
  pub same_size : out.size ≡ bd.size
  pub inside : x < blocks bd o
  pub pages : (p : ℕ) → page_count out p + in_block o x p ≡ page_count bd p

-- Where the search goes on above the orders below `o`, which hold no free block.
abbrev SearchFinds : Buddy → ℕ → Outcome (Option (ℕ × ℕ)) → Type 0
SearchFinds bd o r =
    ((r ≡ ok none) × NoneFrom bd o)
    ⊎ ((j : ℕ) × (x : ℕ) × (r ≡ ok (some (j + 12, x))) × (o ≤ j) × (j < 17) × (free_at bd j x ≡ 1))

module _ (bd : Buddy) (valid : IsValid bd) where
  nothing_free :
      (o : ℕ)
      → o < 17
      → ((y : ℕ) → y ≤ (bitmap_of bd o).max_extent → free_at bd o y ≡ 0)
      → (y : ℕ) → free_at bd o y ≡ 0
  nothing_free o lt h y = elim (Bool-cases (free_at bd o y == 1)) [
    | inl one ↦
        let is_one : free_at bd o y ≡ 1 = ==→eq _ _ one in
        h y (omega (arith, valid.whole o y lt is_one, valid.shaped.extents o lt))
    | inr other ↦ ground (arith, free_at-le bd o y)
  ]

  NoneFrom-step : (o : ℕ) → ((y : ℕ) → free_at bd o y ≡ 0) → NoneFrom bd (o + 1) → NoneFrom bd o
  NoneFrom-step o here above o' x le lt = elim (Bool-cases (o == o')) [
    | inl same ↦ rw (← ==→eq o o' same) (here x)
    | inr other ↦ above o' x (ground arith) lt
  ]

  search-SearchFinds :
      (left log_sz o : ℕ)
      → log_sz ≡ o + 12
      → left + o ≡ 17
      → SearchFinds bd o (search_up bd left log_sz)
  unfolding search_up
  search-SearchFinds zero log_sz o e f = inl (refl, λ o' x le lt. absurd (omega arith))
  search-SearchFinds (suc left) log_sz o e f =
      let lt : o < 17 = omega arith in
      let found = first_set_lem (bitmap_of bd o) (valid.shaped.bitmaps o lt) in
      rw (order-bitmap_of bd log_sz o valid.shaped e lt) (elim found [
        | inl (returns, empty) ↦
            rw returns
              (elim (search-SearchFinds left (log_sz + 1) (o + 1) (omega arith) (omega arith)) [
                | inl (none_above, above) ↦
                    inl (none_above, NoneFrom-step o (nothing_free o lt empty) above)
                | inr (j, x, above, le, j_lt, is_free) ↦
                    inr (j, x, above, omega arith, j_lt, is_free)
              ])
        | inr (x, returns, x_le, is_one, least) ↦
            inr (o, x, rw (returns, e), omega arith, lt, is_one)
      ])

  module _ (o j x left y : ℕ) (rounds : j + 12 - (o + 12) ≡ left) (lt : o < 17)
      (s : Splits bd o y (split bd left (j + 12) x)) where
    y_inside : y < blocks s.out o
    y_inside = s.valid.whole o y lt s.is_free

    cleared : Writes s.out o y 0 (clear_bit s.out (o + 12) y)
    cleared = clear_bit-Writes s.out (o + 12) o s.valid.shaped refl lt y (omega (arith, y_inside))

    take_block_returns :
        take_block bd (o + 12) (j + 12) x
        ≡ ok (u64 (cleared.out.start + y * 2 ^ (o + 12)), cleared.out)
    unfolding take_block
    take_block_returns = rw (rounds, s.returns, cleared.returns)

    after_split : TakesBlock bd o y (take_block bd (o + 12) (j + 12) x)
    after_split = record {
      out = cleared.out;
      returns =
          take_block_returns
          ∙ ap {B = Outcome (ℕ × Buddy)} (λ start. ok (u64 (start + y * 2 ^ (o + 12)), cleared.out))
              (cleared.same_start ∙ s.same_start);
      valid = reserve-IsValid s.out o y s.valid lt cleared s.is_free;
      same_start = cleared.same_start ∙ s.same_start;
      same_size = cleared.same_size ∙ s.same_size;
      inside = rw (sym s.same_size) y_inside;
      pages = λ p. reserve-pages s.out o y s.valid lt cleared s.is_free p ∙ s.pages p;
    }

  take_block-TakesBlock :
      (o j x : ℕ)
      → o ≤ j
      → j < 17
      → free_at bd j x ≡ 1
      → TakesBlock bd o (x * 2 ^ (j - o)) (take_block bd (o + 12) (j + 12) x)
  take_block-TakesBlock o j x le lt is_free =
      after_split o j x (j - o) (x * 2 ^ (j - o)) (omega arith) (omega arith)
        (split-Splits (j - o) (j + 12) j o x bd valid refl (omega arith) lt is_free)

  -- buddy_alloc() of a size that rounds up to 2^(o + 12), from 4 KB to 256 MB: either it returns
  -- ~0, leaves the allocator as it was, and no block of that size or a larger one is free; or it
  -- returns the address of a block of that size in the region, and the free pages are those before
  -- without the pages of the block, each of which was free exactly once.
  pub alloc-TakesBlock :
      (sz o : ℕ)
      → log2_roundup sz ≡ ok (o + 12)
      → o < 17
      → ((alloc bd sz ≡ ok (no_memory, bd)) × NoneFrom bd o)
        ⊎ ((x : ℕ) × TakesBlock bd o x (alloc bd sz))
  unfolding alloc
  alloc-TakesBlock sz o e lt =
      let not_large : ltb 28 (o + 12) ≡ false = ground arith in
      rw (e, not_large)
        (elim (search-SearchFinds (29 - (o + 12)) (o + 12) o refl (omega arith)) [
          | inl (returns, empty) ↦ inl (rw returns, empty)
          | inr (j, x, returns, le, j_lt, is_free) ↦
              inr (x * 2 ^ (j - o), rw returns (take_block-TakesBlock o j x le j_lt is_free))
        ])
