-- ===== src/Tests/Heap.antt =====
-- slab.c and kmalloc.c over a slab at 0xD0000000.
use mink.Prelude.{
  ◌⊎◌, ℕ, ◌+◌, ◌-◌, ◌^◌, ◌<◌, ◌≤◌, ◌≡◌, refl, arith, [], Outcome, ok, panicked, undefined, ◌∷◌,
  if◌then◌else◌, ◌==◌, ◌>>=◌, inl, inr,
}
use mink.Utils
use mink.Locking
use mink.Vmspace
use mink.Slab
use mink.Slab.{SlabCache, World, bitmap_num, bitmap_sz}
use mink.Slab.Alloc.{TakesObject, slab_cache_alloc-TakesObject}
use mink.Slab.Cache.{IsCache}
use mink.Slab.Roundtrip.{RestoresObjects, slab_cache_free-slab_cache_alloc}
use mink.Slab.Overlap.{IsApart, IsLarge, IsSmall, object-IsApart}
use mink.Kmalloc
use mink.Kmalloc.{Heap, alloc_block, free_block, kmalloc, kfree}
use mink.Kmalloc.Header.{FromCache, FromSpace, kfree-kmalloc}
use mink.Tests.Allocator.{all_free}
use mink.Tests.Paging.{machine}

abbrev space : Vmspace.State
space = (
  record {
    start = 0xd000_0000;
    size = 0x20000;
    allocator = record all_free { start = 0xd000_0000 };
    lock = Locking.released;
  },
  machine,
)

-- One slab, with its first objects not in use.
abbrev world : World
world = record { space = space; bytes = λ x. 0 }

abbrev cache : SlabCache
cache = record {
  size = 32;
  init = 0;
  first = 0xd000_1ffc;
  empty = 0xd000_0020;
  lock = Locking.released;
}

slab_cache_alloc-TakesObject_example :
    TakesObject cache world 0xd000_1ffc 1 [] (Slab.slab_cache_alloc cache world)
unfolding bitmap_num bitmap_sz
slab_cache_alloc-TakesObject_example =
    slab_cache_alloc-TakesObject cache world 0xd000_1ffc 1 [] (record { byte = λ x. omega arith })
      (omega arith, omega arith) refl refl (refl, (refl, omega arith), refl) (omega arith)
      (omega arith) refl

-- With object 0 of the slab in use.
abbrev one_used : World
one_used = record world { bytes = λ x. if x == 0xd000_1fdc then 1 else 0 }

one_used-IsCache : IsCache cache one_used (0xd000_1ffc ∷ [])
unfolding bitmap_num bitmap_sz
one_used-IsCache = record {
  unlocked = refl;
  plain = refl;
  size = (omega arith, omega arith);
  bytes = record { byte = λ x. ground arith };
  slabs = (refl, (refl, omega arith), refl);
  few = omega arith;
  at_hand = inr (0xd000_1ffc, 1, inl refl, omega arith, refl, refl);
}

slab_cache_free-slab_cache_alloc_example :
    RestoresObjects cache one_used
      (0xd000_1ffc ∷ [])
      (Slab.slab_cache_alloc cache one_used >>= λ (p, c, w). Slab.slab_cache_free c w p)
unfolding bitmap_num bitmap_sz
slab_cache_free-slab_cache_alloc_example =
    slab_cache_free-slab_cache_alloc cache one_used (0xd000_1ffc ∷ []) 0xd000_1ffc 1
      one_used-IsCache (inl refl) (omega arith) refl refl
      (inr (0, omega arith, λ e. omega (arith, e), refl))

object-IsApart_example :
    (IsLarge 64 → (i : ℕ) → i < bitmap_num 64 → IsApart 64 i)
    × (IsSmall 64 → ¬ IsApart 64 (bitmap_num 64 - 1))
object-IsApart_example = object-IsApart 64

-- The cache of 32 bytes has the slab.
abbrev heap : Heap
heap = record { caches = λ i. cache; world = world }

abbrev heap_of : Outcome (ℕ × Heap) → Heap
heap_of (ok (p, h)) = h
heap_of panicked = heap
heap_of undefined = heap

abbrev after : Heap
after = heap_of (kmalloc heap 20)

kmalloc_runs : kmalloc heap 20 ≡ ok (0xd000_0024, after)
unfolding kmalloc Kmalloc.block_log2 alloc_block Slab.slab_cache_alloc Slab.alloc_empty
    Slab.search_slabs Slab.find_empty_obj Slab.find_empty Slab.mark_used Slab.bitmap_idx bitmap_num
    bitmap_sz Slab.lsb_clear Slab.clear_from Locking.acquire Locking.release Utils.log2_roundup
    Utils.builtin_clz Utils.highest_bit
kmalloc_runs = refl

kfree-kmalloc_example :
    (l2 : ℕ) × (ptr : ℕ) × (20 + 4 ≤ 2 ^ l2)
    × (FromCache heap after l2 ptr 0xd000_0024 ⊎ FromSpace heap after l2 ptr 0xd000_0024)
kfree-kmalloc_example = kfree-kmalloc heap after 20 0xd000_0024 (omega arith) kmalloc_runs
