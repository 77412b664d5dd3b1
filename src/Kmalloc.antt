-- ===== src/Kmalloc.antt =====
-- kmalloc.c: the kernel's heap. Small blocks come from one of seven slab caches, large ones from the
-- kernel's vmspace, and a word before each block says which.
pub mod Header
use mink.Prelude.{
  ℕ, zero, suc, ◌+◌, ◌-◌, ◌*◌, ◌/◌, ◌%◌, ◌^◌, Bool, true, false, ◌&&◌, ◌==◌, ltb, leb,
  if◌then◌else◌, List, Outcome, ok, panicked, undefined, assert, defined, ◌>>=◌, ◌>>◌, bit_and,
  bit_or,
}
use mink.Utils.{log2_roundup}
use mink.Buddy.{u32}
use mink.Vmm.{Vmm}
use mink.Vmspace
use mink.Slab
use mink.Slab.{SlabCache, World, load_word, store_word}

-- MIN_CACHESZ_LOG2, MAX_CACHESZ_LOG2 and KMALLOC_CANARY
abbrev pub min_cachesz_log2 : ℕ
min_cachesz_log2 = 3

abbrev pub max_cachesz_log2 : ℕ
max_cachesz_log2 = 9

abbrev pub kmalloc_canary : ℕ
kmalloc_canary = 0xdead12

-- MMAP_KERNEL_VMSPACE_START and MMAP_KERNEL_VMSPACE_END
abbrev pub vmspace_start : ℕ
vmspace_start = 0xd000_0000

abbrev pub vmspace_end : ℕ
vmspace_end = 0xfe80_0000

-- The array of caches, and the kernel's vmspace with the memory.
pub record Heap : Type 0 where
  pub caches : ℕ → SlabCache
  pub world : World

abbrev pub set_cache : Heap → ℕ → SlabCache → World → Heap
set_cache h i c w = record { caches = λ j. if j == i then c else h.caches j; world = w }

-- The logarithm of the size of the block for `sz` bytes, the header included: at least that of the
-- smallest cache, and that of a page where it is above the largest. 1U << 32 is undefined.
unfoldable pub block_log2 : ℕ → Outcome ℕ
block_log2 sz = do
  l2 ← log2_roundup sz
  let l2 = if ltb l2 min_cachesz_log2 then min_cachesz_log2 else l2
  if leb min_cachesz_log2 l2 && leb l2 max_cachesz_log2
      then ok l2
      else do defined (ltb l2 32); if ltb (2 ^ l2) 4096 then log2_roundup 4096 else ok l2

unfoldable pub alloc_block : Heap → ℕ → Outcome (ℕ × Heap)
alloc_block h l2 =
    if leb l2 max_cachesz_log2
    then (Slab.slab_cache_alloc (h.caches (l2 - min_cachesz_log2)) h.world >>= λ (ptr, c, w).
        ok (ptr, set_cache h (l2 - min_cachesz_log2) c w))
    else (Vmspace.vmspace_alloc h.world.space (2 ^ l2) 1 >>= λ (ptr, space).
        (let w : World = record h.world { space = space } in ok (ptr, record h { world = w })))

-- (KMALLOC_CANARY << 8) | l2
abbrev pub header : ℕ → ℕ
header l2 = u32 (bit_or (kmalloc_canary * 2 ^ 8) l2)

-- An address that does not leave room for the header before the end of memory is undefined.
unfoldable pub kmalloc : Heap → ℕ → Outcome (ℕ × Heap)
kmalloc h sz = do
  l2 ← block_log2 (u32 (sz + 4))
  (ptr, h) ← alloc_block h l2
  defined (ltb (ptr + 4) (2 ^ 32))
  ok (ptr + 4, record h { world = store_word h.world ptr (header l2) })

unfoldable pub free_block : Heap → ℕ → ℕ → Outcome Heap
free_block h l2 p =
    if leb l2 max_cachesz_log2
    then (defined (leb min_cachesz_log2 l2)
        >> Slab.slab_cache_free (h.caches (l2 - min_cachesz_log2)) h.world p
        >>= λ (c, w). ok (set_cache h (l2 - min_cachesz_log2) c w))
    else (defined (ltb l2 32) >> Vmspace.vmspace_free h.world.space (2 ^ l2) p true >>= λ space.
        (let w : World = record h.world { space = space } in ok (record h { world = w })))

unfoldable pub kfree : Heap → ℕ → Outcome Heap
kfree h p = do
  let ptr = p - 4
  let word = load_word h.world ptr
  let l2 = bit_and word 0xff
  assert (word / 2 ^ 8 == kmalloc_canary)
  free_block h l2 ptr

-- The caches' creation; vmspace_init() and slab_cache_create() have no failure to report.
unfoldable pub kmalloc_init : List ℕ → Vmm → (ℕ → ℕ) → Outcome Heap
kmalloc_init storage m bytes = do
  space ← Vmspace.vmspace_init storage m vmspace_start (vmspace_end - vmspace_start)
  ok (record {
    caches = λ i. Slab.slab_cache_create (2 ^ (i + min_cachesz_log2)) 0;
    world = record { space = space; bytes = bytes };
  })
