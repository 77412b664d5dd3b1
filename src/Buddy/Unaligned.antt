-- ===== src/Buddy/Unaligned.antt =====
-- buddy_free_range() of a range that starts inside a page. buddy.c moves the start up to the next
-- page and leaves the extent as it was.
use mink.Prelude.{ℕ, ◌+◌, ◌*◌, ◌/◌, ◌%◌, ◌^◌, ◌≤◌, ◌<◌, ◌≡◌, ◌≢◌, arith, false, ◌==◌, ltb}
use mink.Buddy.{Range, Buddy, u64, aligned_for, free_range}
use mink.Buddy.FreeRange.{GivesRange, IsFreeable, free_blocks-GivesRange}

-- The range that the loop is given.
abbrev pub rounded : Range → Range
rounded range = record {
  start = u64 (range.start / 2 ^ 12 * 2 ^ 12 + 2 ^ 12);
  extent = range.extent;
}

-- buddy_free_range() of a range of a number of pages that starts inside a page frees as many pages
-- behind the rounded start (where those lie in the region and are not free), and the last of them
-- ends past the end of the range.
pub free_range-past_end :
    (a : ℕ) (bd : Buddy) (range : Range)
    → range.start % 2 ^ 12 ≢ 0
    → range.start + 2 ^ 12 < 2 ^ 64
    → 2 ^ 12 ≤ range.extent
    → range.extent % 2 ^ 12 ≡ 0
    → IsFreeable bd a (rounded range)
    → GivesRange bd a (range.extent / 2 ^ 12) (free_range bd range)
      × (range.start + range.extent < bd.start + (a + range.extent / 2 ^ 12) * 2 ^ 12)
unfolding free_range aligned_for
free_range-past_end a bd range not_aligned no_wrap fits pages h =
    let unaligned : (range.start % 2 ^ 12 == 0) ≡ false = ground arith in
    let large : ltb range.extent (2 ^ 12) ≡ false = ground arith in
    (
      rw (unaligned, large)
          (free_blocks-GivesRange (range.extent / 2 ^ 12 + 1) a bd (rounded range) h (omega arith)),
      omega (arith, h.starts),
    )
