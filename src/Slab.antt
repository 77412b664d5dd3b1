-- ===== src/Slab.antt =====
-- slab.c: caches of objects of one size, in slabs of 8 KB that a vmspace gives out. A slab ends with
-- a footer, a pointer to the next slab's footer, and before it a bitmap of the objects in use. A
-- pointer is its address, 0 for NULL. `bytes` is what the kernel's memory holds by virtual address;
-- that the slabs' pages are mapped is not looked at again on each access, and new pages hold what
-- `bytes` has at their addresses.
pub mod Bits
pub mod Search
pub mod Alloc
pub mod Lock
pub mod Free
pub mod Others
pub mod Cache
pub mod Roundtrip
pub mod Overlap
use mink.Prelude.{
  ℕ, zero, suc, ◌+◌, ◌-◌, ◌*◌, ◌/◌, ◌%◌, ◌^◌, Bool, true, false, ◌&&◌, ◌||◌, not, ◌==◌, ltb, leb,
  if◌then◌else◌, Option, none, some, Outcome, ok, panicked, undefined, assert, ◌>>=◌, ◌>>◌, bit_and,
  bit_or,
}
use mink.Locking
use mink.Locking.{Spinlock}
use mink.Buddy.{u32}
use mink.Vmm.{page_write}
use mink.Vmspace
use mink.Vmspace.{Vmspace}

abbrev pub slab_size : ℕ
slab_size = 0x2000

-- sizeof(slab_footer_t)
abbrev pub footer_size : ℕ
footer_size = 4

pub record SlabCache : Type 0 where
  pub size : ℕ
  pub init : ℕ
  pub first : ℕ
  pub empty : ℕ
  pub lock : Spinlock

-- The vmspace and the memory managers behind it, and the memory.
pub record World : Type 0 where
  pub space : Vmspace.State
  pub bytes : ℕ → ℕ

abbrev pub store_byte : World → ℕ → ℕ → World
store_byte w a b = record w { bytes = λ x. if x == a then b else w.bytes x }

abbrev pub load_word : World → ℕ → ℕ
load_word w a =
    w.bytes a + w.bytes (a + 1) * 2 ^ 8 + w.bytes (a + 2) * 2 ^ 16 + w.bytes (a + 3) * 2 ^ 24

abbrev pub store_word : World → ℕ → ℕ → World
store_word w a v =
    store_byte
      (store_byte (store_byte (store_byte w a (v % 2 ^ 8)) (a + 1) (v / 2 ^ 8 % 2 ^ 8)) (a + 2)
        (v / 2 ^ 16 % 2 ^ 8))
      (a + 3) (v / 2 ^ 24 % 2 ^ 8)

-- START_FOR_FOOTER and FOOTER_FOR_PTR
abbrev pub start_for_footer : ℕ → ℕ
start_for_footer f = f / slab_size * slab_size

abbrev pub footer_for_ptr : ℕ → ℕ
footer_for_ptr x = x / slab_size * slab_size + slab_size - footer_size

unfoldable pub bitmap_num : ℕ → ℕ
bitmap_num obj_sz = (slab_size - footer_size) / obj_sz

unfoldable pub bitmap_sz : ℕ → ℕ
bitmap_sz obj_sz = bitmap_num obj_sz / 8 + 1

unfoldable pub bitmap_idx : ℕ → ℕ → ℕ → ℕ
bitmap_idx f obj obj_sz = (obj - start_for_footer f) / obj_sz

-- Where the bitmap of a slab starts.
abbrev pub bitmap_of : SlabCache → ℕ → ℕ
bitmap_of c f = f - bitmap_sz c.size

unfoldable pub mark_used : SlabCache → World → ℕ → ℕ → World
mark_used c w f obj =
    let idx = bitmap_idx f obj c.size in
    let ptr = bitmap_of c f + idx / 8 in
    store_byte w ptr (bit_or (w.bytes ptr) (2 ^ (idx % 8)) % 2 ^ 8)

unfoldable pub mark_unused : SlabCache → World → ℕ → ℕ → World
mark_unused c w f obj =
    let idx = bitmap_idx f obj c.size in
    let ptr = bitmap_of c f + idx / 8 in
    store_byte w ptr (bit_and (w.bytes ptr) (2 ^ 32 - 1 - 2 ^ (idx % 8)) % 2 ^ 8)

-- The loop of all_unused() at byte `p`, with `left` to go.
unfoldable pub unused_from : World → ℕ → ℕ → Bool
unused_from w zero p = true
unused_from w (suc left) p =
    let rest = unused_from w left (p + 1) in if w.bytes p == 0 then rest else false

unfoldable pub all_unused : SlabCache → World → ℕ → Bool
all_unused c w f = unused_from w (bitmap_sz c.size) (bitmap_of c f)

-- lsb_clear() of a byte, with `left` rounds allowed: 9 are enough.
unfoldable pub clear_from : ℕ → ℕ → ℕ → ℕ
clear_from zero byte i = i
clear_from (suc left) byte i =
    let rest = clear_from left (byte / 2) (i + 1) in if byte % 2 == 1 then rest else i

unfoldable pub lsb_clear : ℕ → ℕ
lsb_clear byte = clear_from 9 byte 0

-- The loop of find_empty_obj() at byte `i` of the bitmap at `p`, with `left` to go.
unfoldable pub find_empty : SlabCache → World → ℕ → ℕ → ℕ → ℕ → ℕ
find_empty c w f p zero i = 0
find_empty c w f p (suc left) i =
    let rest = find_empty c w f p left (i + 1) in
    if w.bytes (p + i) == 0xff
    then rest
    else let idx = i * 8 + lsb_clear (w.bytes (p + i)) in
      if leb (bitmap_num c.size) idx then 0 else start_for_footer f + c.size * idx

unfoldable pub find_empty_obj : SlabCache → World → ℕ → ℕ
find_empty_obj c w f = find_empty c w f (bitmap_of c f) (bitmap_sz c.size) 0

-- memset(bm, 0, n)
abbrev pub clear_bytes : World → ℕ → ℕ → World
clear_bytes w bm n = record w { bytes = λ x. if leb bm x && ltb x (bm + n) then 0 else w.bytes x }

-- Of `f->next = NULL` and the clearing of the bitmap. The source does not look whether the vmspace
-- had an address to give.
unfoldable pub create : SlabCache → World → Outcome (ℕ × World)
create c w = do
  (addr, space) ← Vmspace.vmspace_alloc w.space slab_size page_write
  let f = footer_for_ptr addr
  let w = store_word (record w { space = space }) f 0
  ok (f, clear_bytes w (bitmap_of c f) (bitmap_sz c.size))

unfoldable pub destroy : World → ℕ → Outcome World
destroy w f = do
  space ← Vmspace.vmspace_free w.space slab_size (start_for_footer f) true
  ok (record w { space = space })

-- memcpy(to, from, n)
abbrev pub copy_bytes : World → ℕ → ℕ → ℕ → World
copy_bytes w to from n = record w {
  bytes = λ x. if leb to x && ltb x (to + n) then w.bytes (from + (x - to)) else w.bytes x;
}

abbrev pub take_lock : SlabCache → World → Outcome (SlabCache × World)
take_lock c w = do
  (lock, enabled) ← Locking.acquire c.lock w.space.1.pmm.enabled
  let pmm = record w.space.1.pmm { enabled = enabled }
  ok (record c { lock = lock }, record w { space = (w.space.0, record w.space.1 { pmm = pmm }) })

abbrev pub drop_lock : SlabCache → World → Outcome (SlabCache × World)
drop_lock c w = do
  (lock, enabled) ← Locking.release c.lock w.space.1.pmm.enabled
  let pmm = record w.space.1.pmm { enabled = enabled }
  ok (record c { lock = lock }, record w { space = (w.space.0, record w.space.1 { pmm = pmm }) })

-- The slabs of 8 KB in 4 GB bound the loops over the list of slabs; a longer list has a cycle, in
-- which the source does not end.
abbrev pub max_slabs : ℕ
max_slabs = 2 ^ 19

-- The first object that is not in use in the slab at `f` or those after it.
unfoldable pub search_slabs : ℕ → SlabCache → World → ℕ → Outcome ℕ
search_slabs zero c w f = undefined
search_slabs (suc left) c w f =
    let rest = search_slabs left c w (load_word w f) in
    let empty = find_empty_obj c w f in
    if f == 0 then ok 0 else if not (empty == 0) then ok empty else rest

-- The result 0 is left out: there is no other.
unfoldable pub slab_cache_create : ℕ → ℕ → SlabCache
slab_cache_create size init = record {
  size = size;
  init = init;
  first = 0;
  empty = 0;
  lock = Locking.released;
}

-- The branch of slab_cache_alloc() with an object at hand. The loop changes c->empty last with what
-- it found, or with NULL.
unfoldable pub alloc_empty : SlabCache → World → Outcome (ℕ × SlabCache × World)
alloc_empty c w = do
  let obj = c.empty
  let f = footer_for_ptr obj
  let w = mark_used c w f obj
  empty ← search_slabs max_slabs c w f
  ok (obj, record c { empty = empty }, w)

-- The branch with a new slab.
unfoldable pub alloc_new : SlabCache → World → Outcome (ℕ × SlabCache × World)
alloc_new c w = do
  let f = c.first
  (first, w) ← create c w
  let w = store_word w first f
  let obj = start_for_footer first
  let w = mark_used c w first obj
  ok (obj, record c { first = first; empty = find_empty_obj c w first }, w)

unfoldable pub slab_cache_alloc : SlabCache → World → Outcome (ℕ × SlabCache × World)
slab_cache_alloc c w = do
  (c, w) ← take_lock c w
  (obj, c, w) ← if not (c.empty == 0) then alloc_empty c w else alloc_new c w
  let w = if not (c.init == 0) then copy_bytes w obj c.init c.size else w
  (c, w) ← drop_lock c w
  ok (obj, c, w)

-- The slab before the one at `f`, from the one at `f2` on.
unfoldable pub slab_before : ℕ → World → ℕ → ℕ → Outcome ℕ
slab_before zero w f f2 = undefined
slab_before (suc left) w f f2 =
    let rest = slab_before left w f (load_word w f2) in if load_word w f2 == f then ok f2 else rest

-- The last slab, without an object in use, taken off the list and destroyed.
unfoldable pub drop_slab : SlabCache → World → ℕ → Outcome (SlabCache × World)
drop_slab c w f = do
  (c, w) ←
      if c.first == f
      then ok (record c { first = 0 }, w)
      else do before ← slab_before max_slabs w f c.first; ok (c, store_word w before 0)
  let c = if footer_for_ptr c.empty == f then record c { empty = 0 } else c
  w ← destroy w f
  ok (c, w)

unfoldable pub slab_cache_free : SlabCache → World → ℕ → Outcome (SlabCache × World)
slab_cache_free c w obj = do
  (c, w) ← take_lock c w
  assert (not (c.first == 0))
  let f = footer_for_ptr obj
  let w = mark_unused c w f obj
  let c = if (c.empty == 0) || ltb obj c.empty then record c { empty = obj } else c
  (c, w) ← if (load_word w f == 0) && all_unused c w f then drop_slab c w f else ok (c, w)
  drop_lock c w

-- The loop of slab_cache_destroy() at the slab `s`.
unfoldable pub destroy_from : ℕ → World → ℕ → Outcome World
destroy_from zero w s = undefined
destroy_from (suc left) w s =
    if s == 0 then ok w else do let next = load_word w s; w ← destroy w s; destroy_from left w next

-- The source leaves c->empty as it is.
unfoldable pub slab_cache_destroy : SlabCache → World → Outcome (SlabCache × World)
slab_cache_destroy c w = do w ← destroy_from max_slabs w c.first; ok (record c { first = 0 }, w)
