-- ===== src/Tests/Allocator.antt =====
-- buddy.c over a region of 16 pages at 1 MB.
use mink.Prelude.{
  ℕ, ◌+◌, ◌*◌, ◌^◌, ◌<◌, ◌≡◌, ◌⊎◌, refl, arith, false, List, [], ◌∷◌, replicate, ok, undefined,
  panicked,
}
use mathlib.Core.Path.{subst}
use mink.Utils.{log2_roundup}
use mink.Utils
use mink.Bitmap
use mink.Bitmap.{Bitmap}
use mink.Buddy
use mink.Buddy.{Range, Buddy, no_memory}
use mink.Buddy.Valid.{IsValid, page_count}
use mink.Buddy.Init
use mink.Buddy.Init.Empty.{init-IsValid}
use mink.Buddy.Alloc.{NoneFrom, TakesBlock, alloc-TakesBlock}
use mink.Buddy.Free.{GivesBack, free-GivesBack}
use mink.Buddy.FreeRange.{GivesRange, IsFreeable, free_range-GivesRange}
use mink.Buddy.Unaligned.{rounded, free_range-past_end}
use mink.Buddy.Roundtrip.{Restores, free-alloc}

abbrev pub region : Range
region = record { start = 0x100000; extent = 0x10000 }

abbrev pub storage : List ℕ
storage = replicate 20 0xaa

abbrev pub bitmap : ℕ → ℕ → List ℕ → Bitmap
bitmap extent first rest = record { bytes = first ∷ rest; max_extent = extent }

-- The orders above 64 KB.
abbrev pub large_orders : List Bitmap
large_orders = replicate 12 (bitmap 0 0 [])

abbrev pub with_orders : Bitmap → Bitmap → Bitmap → Bitmap → Bitmap → Buddy
with_orders a b c d e = record {
  start = 0x100000;
  size = 0x10000;
  orders = a ∷ b ∷ c ∷ d ∷ e ∷ large_orders;
}

abbrev pub nothing_free : Buddy
nothing_free =
    with_orders (bitmap 16 0 (0 ∷ 0 ∷ [])) (bitmap 8 0 (0 ∷ [])) (bitmap 4 0 []) (bitmap 2 0 [])
      (bitmap 1 0 [])

-- One free block of 64 KB.
abbrev pub all_free : Buddy
all_free =
    with_orders (bitmap 16 0 (0 ∷ 0 ∷ [])) (bitmap 8 0 (0 ∷ [])) (bitmap 4 0 []) (bitmap 2 0 [])
      (bitmap 1 1 [])

-- The first 8 KB are taken: blocks of 8, 16 and 32 KB are free.
abbrev pub two_taken : Buddy
two_taken =
    with_orders (bitmap 16 0 (0 ∷ 0 ∷ [])) (bitmap 8 2 (0 ∷ [])) (bitmap 4 2 []) (bitmap 2 2 [])
      (bitmap 1 0 [])

-- What a run of buddy.c goes through.
unfoldable pub code : Unit {0}
unfolding Init.init Init.init_orders Buddy.overhead_from Buddy.alloc Buddy.search_up
    Buddy.take_block Buddy.split Buddy.free_range Buddy.free_blocks Buddy.largest_block
    Buddy.aligned_for Buddy.free Buddy.coalesce Buddy.set_bit Buddy.clear_bit Buddy.test_bit
    Buddy.on_order Buddy.order log2_roundup Utils.builtin_clz Utils.highest_bit Bitmap.init
    Bitmap.memset Bitmap.set Bitmap.clear Bitmap.isset Bitmap.first_set Bitmap.scan Bitmap.found
    Bitmap.lsb_set Bitmap.lsb_loop
code = tt

init_runs : Init.init storage region false ≡ ok nothing_free
unfolding code
init_runs = refl

free_range_runs : Buddy.free_range nothing_free region ≡ ok all_free
unfolding code
free_range_runs = refl

alloc_runs : Buddy.alloc all_free 0x2000 ≡ ok (0x100000, two_taken)
unfolding code
alloc_runs = refl

free_runs : Buddy.free two_taken 0x100000 0x2000 ≡ ok all_free
unfolding code
free_runs = refl

-- There is no block of 128 KB, and a size below one page is looked for outside the array.
alloc_refuses :
    (Buddy.alloc all_free 0x20000 ≡ ok (no_memory, all_free))
    × (Buddy.alloc all_free 0x20000000 ≡ panicked)
    × (Buddy.alloc all_free 0x100 ≡ undefined)
unfolding code
alloc_refuses = (refl, refl, refl)

init-IsValid_example :
    (bd : Buddy) × (Init.init storage region false ≡ ok bd)
    × IsValid bd
    × (bd.start ≡ 0x100000)
    × (bd.size ≡ 0x10000)
    × ((p : ℕ) → page_count bd p ≡ 0)
init-IsValid_example =
    init-IsValid storage region (omega arith) (unfold Buddy.overhead_from in omega arith)

abbrev pub IsFresh : Buddy → Type 0
IsFresh bd = IsValid bd × ((p : ℕ) → page_count bd p ≡ 0)

pub nothing_free-IsFresh : IsFresh nothing_free
nothing_free-IsFresh =
    let (bd, returns, valid, start, size, empty) = init-IsValid_example in
    let same : bd ≡ nothing_free = cc init_runs in subst IsFresh same (valid, empty)

whole_region : IsFreeable nothing_free 0 region
whole_region = record {
  valid = nothing_free-IsFresh.0;
  no_wrap = omega arith;
  start_page = refl;
  starts = refl;
  ends = omega arith;
  unused = λ p low high. nothing_free-IsFresh.1 p;
}

free_range-GivesRange_example : GivesRange nothing_free 0 16 (Buddy.free_range nothing_free region)
free_range-GivesRange_example = free_range-GivesRange 0 nothing_free region whole_region

pub all_free-IsValid : IsValid all_free
all_free-IsValid =
    let g = free_range-GivesRange_example in
    let same : g.out ≡ all_free = cc (g.returns, free_range_runs) in subst IsValid same g.valid

pub round_8_kb : log2_roundup 0x2000 ≡ ok 13
unfolding code
round_8_kb = refl

alloc-TakesBlock_example :
    ((Buddy.alloc all_free 0x2000 ≡ ok (no_memory, all_free)) × NoneFrom all_free 1)
    ⊎ ((x : ℕ) × TakesBlock all_free 1 x (Buddy.alloc all_free 0x2000))
alloc-TakesBlock_example =
    alloc-TakesBlock all_free all_free-IsValid 0x2000 1 round_8_kb (omega arith)

free-GivesBack_example : GivesBack nothing_free 1 2 (Buddy.free nothing_free 0x104000 0x2000)
free-GivesBack_example =
    free-GivesBack nothing_free 0x2000 1 2 nothing_free-IsFresh.0 round_8_kb (omega arith)
      (omega arith) (λ p at_p. nothing_free-IsFresh.1 p) (omega arith)

free-alloc_example : Restores all_free (Buddy.free two_taken 0x100000 0x2000)
free-alloc_example =
    free-alloc all_free 0x2000 1 all_free-IsValid round_8_kb (omega arith) (omega arith) 0x100000
      two_taken alloc_runs (omega arith)

-- Two pages from the middle of the first page on.
abbrev crooked : Range
crooked = record { start = 0x100800; extent = 0x2000 }

crooked-IsFreeable : IsFreeable nothing_free 1 (rounded crooked)
crooked-IsFreeable = record {
  valid = nothing_free-IsFresh.0;
  no_wrap = omega arith;
  start_page = refl;
  starts = refl;
  ends = omega arith;
  unused = λ p low high. nothing_free-IsFresh.1 p;
}

free_range-past_end_example :
    GivesRange nothing_free 1 2 (Buddy.free_range nothing_free crooked)
    × (0x100800 + 0x2000 < 0x100000 + (1 + 2) * 2 ^ 12)
free_range-past_end_example =
    free_range-past_end 1 nothing_free crooked (omega arith) (omega arith) (omega arith) refl
      crooked-IsFreeable
