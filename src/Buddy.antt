-- ===== src/Buddy.antt =====
-- buddy.c and include/adt/buddy.h: the binary buddy allocator. Order `o` of an allocator is the
-- bitmap of the free blocks of 2^(o + 12) bytes; block `x` of it starts at `x` times that size
-- behind `start`. `uint64_t` values wrap at 2^64 and `unsigned` ones at 2^32.
pub mod View
pub mod Pages
pub mod Valid
pub mod Split
pub mod Alloc
pub mod Free
pub mod FreeRange
pub mod Roundtrip
pub mod Unaligned
pub mod Init
use mink.Prelude.{
  ℕ, zero, suc, ◌+◌, ◌-◌, ◌*◌, ◌/◌, ◌%◌, ◌^◌, bit_xor, Bool, true, false, not, Option, none, some,
  List, ◌==◌, ltb, ◌||◌, ◌&&◌, leb, if◌then◌else◌, get_elem?, set as set_elem, Outcome, ok,
  panicked, undefined, read, ◌>>=◌, ◌>>◌,
}
use mink.Utils.{log2_roundup}
use mink.Bitmap
use mink.Bitmap.{Bitmap}

pub record Range : Type 0 where
  pub start : ℕ
  pub extent : ℕ

pub record Buddy : Type 0 where
  pub start : ℕ
  pub size : ℕ
  pub orders : List Bitmap

abbrev pub max_sz_log2 : ℕ
max_sz_log2 = 28

abbrev pub min_sz_log2 : ℕ
min_sz_log2 = 12

abbrev pub num_buckets : ℕ
num_buckets = max_sz_log2 - min_sz_log2 + 1

abbrev pub u32 : ℕ → ℕ
u32 n = n % 2 ^ 32

abbrev pub u64 : ℕ → ℕ
u64 n = n % 2 ^ 64

-- ~0ULL
abbrev pub no_memory : ℕ
no_memory = 2 ^ 64 - 1

-- `&bd->orders[log_sz - MIN_BUDDY_SZ_LOG2]`, which lies in the array for a size from 2^12 to 2^28.
unfoldable pub order : Buddy → ℕ → Outcome Bitmap
order bd log_sz =
    if leb min_sz_log2 log_sz then read (get_elem? bd.orders (log_sz - min_sz_log2)) else undefined

-- A call of a bitmap operation on that order.
unfoldable pub on_order : Buddy → ℕ → (Bitmap → Outcome Bitmap) → Outcome Buddy
on_order bd log_sz f = do
  xb ← order bd log_sz
  xb' ← f xb
  ok (record bd { orders = set_elem bd.orders (log_sz - min_sz_log2) xb' })

unfoldable pub set_bit : Buddy → ℕ → ℕ → Outcome Buddy
set_bit bd log_sz idx = on_order bd log_sz (λ xb. Bitmap.set xb (u32 idx))

unfoldable pub clear_bit : Buddy → ℕ → ℕ → Outcome Buddy
clear_bit bd log_sz idx = on_order bd log_sz (λ xb. Bitmap.clear xb (u32 idx))

unfoldable pub test_bit : Buddy → ℕ → ℕ → Outcome Bool
test_bit bd log_sz idx = do xb ← order bd log_sz; Bitmap.isset xb (u32 idx)

-- The search of buddy_alloc() from the size 2^`log_sz` up, with `left` sizes to go: the size and
-- the index of a free block.
unfoldable pub search_up : Buddy → ℕ → ℕ → Outcome (Option (ℕ × ℕ))
search_up bd zero log_sz = ok none
search_up bd (suc left) log_sz =
    let rest = search_up bd left (log_sz + 1) in
    do
      xb ← order bd log_sz
      r ← Bitmap.first_set xb
      elim r [ none ↦ rest | some idx ↦ ok (some (log_sz, idx)) ]

-- The splitting of a block of 2^`log_sz` bytes, `left` times; the index of the block that is left.
unfoldable pub split : Buddy → ℕ → ℕ → ℕ → Outcome (Buddy × ℕ)
split bd zero log_sz idx = ok (bd, idx)
split bd (suc left) log_sz idx = do
  bd ← clear_bit bd log_sz idx
  let idx = idx * 2
  bd ← set_bit bd (log_sz - 1) idx
  bd ← set_bit bd (log_sz - 1) (idx + 1)
  split bd left (log_sz - 1) idx

-- The rest of buddy_alloc() once a free block has been found.
unfoldable pub take_block : Buddy → ℕ → ℕ → ℕ → Outcome (ℕ × Buddy)
take_block bd log_sz found_log_sz idx = do
  (bd, idx) ← split bd (found_log_sz - log_sz) found_log_sz idx
  bd ← clear_bit bd log_sz idx
  ok (u64 (bd.start + idx * 2 ^ log_sz), bd)

unfoldable pub alloc : Buddy → ℕ → Outcome (ℕ × Buddy)
alloc bd sz = do
  log_sz ← log2_roundup sz
  if ltb max_sz_log2 log_sz then panicked else do
    r ← search_up bd (max_sz_log2 + 1 - log_sz) log_sz
    elim r [
      | none ↦ ok (no_memory, bd)
      | some (found_log_sz, idx) ↦ take_block bd log_sz found_log_sz idx
    ]

-- The loop of buddy_free() at the size 2^`log_sz`, with `left` sizes to go. With none left the
-- size is above 2^28 and the order outside the array.
unfoldable pub coalesce : Buddy → ℕ → ℕ → ℕ → Outcome Buddy
coalesce bd zero log_sz idx = undefined
coalesce bd (suc left) log_sz idx = do
  bd ← set_bit bd log_sz idx
  if log_sz == max_sz_log2 then ok bd else do
    buddy_free ← test_bit bd log_sz (bit_xor idx 1)
    if not buddy_free then ok bd else do
      bd ← clear_bit bd log_sz idx
      bd ← clear_bit bd log_sz (bit_xor idx 1)
      coalesce bd left (log_sz + 1) (idx / 2)

unfoldable pub free : Buddy → ℕ → ℕ → Outcome Buddy
free bd addr sz = do
  log_sz ← log2_roundup sz
  let offs = u64 (addr + 2 ^ 64 - bd.start)
  let idx = u32 (offs / 2 ^ log_sz)
  if leb min_sz_log2 log_sz then coalesce bd (max_sz_log2 + 1 - log_sz) log_sz idx else ok bd

-- The bits of `addr` below 2^`lg2` are 0.
unfoldable pub aligned_for : ℕ → ℕ → Bool
aligned_for addr lg2 = addr % 2 ^ lg2 == 0

-- The inner loop of buddy_free_range(): the largest size, from 2^(`left` + 11) down, that fits the
-- range and is aligned at its start. No size is found where the loop ends without `break`.
unfoldable pub largest_block : Buddy → ℕ → Range → Option ℕ
largest_block bd zero range = none
largest_block bd (suc left) range =
    let rest = largest_block bd left range in
    let i = left + min_sz_log2 in
    if ltb range.extent (2 ^ i) || not (aligned_for (u64 (range.start + 2 ^ 64 - bd.start)) i)
    then rest
    else some i

-- The outer loop, with fuel.
unfoldable pub free_blocks : ℕ → Buddy → Range → Outcome Buddy
free_blocks zero bd range = undefined
free_blocks (suc fuel) bd range =
    if leb (2 ^ min_sz_log2) range.extent && aligned_for range.start min_sz_log2
    then elim (largest_block bd num_buckets range) [
      | none ↦ free_blocks fuel bd range
      | some i ↦ do
        let start = u64 (range.start + 2 ^ 64 - bd.start)
        bd ← free bd (u64 (start + bd.start)) (2 ^ i)
        free_blocks fuel bd
            (record { start = u64 (range.start + 2 ^ i); extent = range.extent - 2 ^ i })
    ]
    else ok bd

-- Every block takes at least 2^12 bytes off the range, so the fuel is enough.
unfoldable pub free_range : Buddy → Range → Outcome Buddy
free_range bd range =
    let fuel = range.extent / 2 ^ min_sz_log2 + 1 in
    if aligned_for range.start min_sz_log2
    then free_blocks fuel bd range
    else if ltb range.extent (2 ^ min_sz_log2)
    then ok bd
    else free_blocks fuel bd (record {
      start = u64 (range.start / 2 ^ min_sz_log2 * 2 ^ min_sz_log2 + 2 ^ min_sz_log2);
      extent = range.extent;
    })

-- (r.extent >> i) / 8 + 1, summed over the `left` sizes from 2^`i` up.
unfoldable pub overhead_from : ℕ → ℕ → ℕ → ℕ
overhead_from zero i extent = 0
overhead_from (suc left) i extent = extent / 2 ^ i / 8 + 1 + overhead_from left (i + 1) extent

-- `size_t` is 32 bits wide.
unfoldable pub calc_overhead : Range → ℕ
calc_overhead r = u32 (overhead_from num_buckets min_sz_log2 r.extent)
