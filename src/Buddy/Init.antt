-- ===== src/Buddy/Init.antt =====
-- buddy_init(): it lays the 17 bitmaps one behind the other in the storage that
-- buddy_calc_overhead() asks for, and starts with no page free.
pub mod Empty
use mink.Prelude.{
  ℕ, zero, suc, ◌+◌, ◌/◌, ◌^◌, Bool, true, false, List, [], ◌∷◌, if◌then◌else◌, take, drop, Outcome,
  ok, ◌>>=◌,
}
use mink.Bitmap
use mink.Bitmap.{Bitmap}
use mink.Buddy.{Range, Buddy, u32, min_sz_log2, num_buckets, free_range}

-- The loop at bucket `i`, with `left` buckets to go; each bitmap owns the storage that it clears.
unfoldable pub init_orders : ℕ → ℕ → ℕ → List ℕ → Outcome (List Bitmap)
init_orders zero i size storage = ok []
init_orders (suc left) i size storage = do
  let idx = u32 (size / 2 ^ (min_sz_log2 + i))
  xb ← Bitmap.init (take (idx / 8 + 1) storage) idx
  rest ← init_orders left (i + 1) size (drop (idx / 8 + 1) storage)
  ok (xb ∷ rest)

-- The result 0 of buddy_init() is left out: it has no other.
unfoldable pub init : List ℕ → Range → Bool → Outcome Buddy
init overhead_storage r start_freed = do
  orders ← init_orders num_buckets 0 r.extent overhead_storage
  let bd : Buddy = record { start = r.start; size = r.extent; orders = orders }
  if start_freed then free_range bd r else ok bd
