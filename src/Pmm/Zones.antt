-- ===== src/Pmm/Zones.antt =====
-- alloc_pages() and free_pages() agree on which of the three allocators an address belongs to.
use mink.Prelude.{ℕ, ◌+◌, ◌*◌, ◌^◌, ◌≤◌, ◌<◌, ◌≡◌, ◌≢◌, arith, false, ◌&&◌, ◌==◌, ok}
use mink.Prelude.Powers.{two-pow_pos}
use mink.Locking
use mink.Locking.{Spinlock}
use mink.Buddy
use mink.Buddy.{Buddy, u32, u64, no_memory}
use mink.Buddy.View.{blocks}
use mink.Buddy.Valid.{IsValid, block_end}
use mink.Pmm.{
  Pmm, PageReq, anywhere, under_1mb, under_4gb, allocator, with_allocator, is_anywhere, take_lock,
  drop_lock, alloc_from, alloc_retry, alloc_pages, zone_of,
}

-- The allocators are up, each valid and within its part of the physical addresses, and the lock
-- is free.
pub record IsReady (m : Pmm) : Type 0 where
  pub unlocked : m.lock.val ≡ 0
  pub valid : (z : PageReq) → IsValid (allocator m z)
  pub low_start : m.low.start ≡ 0
  pub low_end : m.low.size ≤ 0x100000
  pub middle_start : m.middle.start ≡ 0x100000
  pub middle_end : 0x100000 + m.middle.size ≤ 0x1_0000_0000
  pub high_start : m.high.start ≡ 0x1_0000_0000
  pub high_end : 0x1_0000_0000 + m.high.size < 2 ^ 64

-- The state once the allocator of a zone has changed and the lock has been taken and dropped.
abbrev pub after : Pmm → PageReq → Buddy → Pmm
after m z bd = record (with_allocator m z bd) {
  lock = record { val = 0; interrupts = m.enabled };
  enabled = m.enabled;
}

abbrev pub locked : Pmm → Pmm
locked m = record m { lock = record { val = 1; interrupts = m.enabled }; enabled = false }

pub take_lock_lem : (m : Pmm) → m.lock.val ≡ 0 → take_lock m ≡ ok (locked m)
unfolding take_lock Locking.acquire
take_lock_lem m e = rw e

pub drop_lock_lem :
    (m : Pmm) (z : PageReq) (bd : Buddy)
    → drop_lock (with_allocator (locked m) z bd) ≡ ok (after m z bd)
unfolding drop_lock Locking.release
drop_lock_lem m anywhere bd = ground arith
drop_lock_lem m under_1mb bd = ground arith
drop_lock_lem m under_4gb bd = ground arith

alloc_from_lem :
    (m : Pmm) (z : PageReq) (sz v : ℕ) (bd : Buddy)
    → Buddy.alloc (allocator m z) sz ≡ ok (v, bd)
    → alloc_from (locked m) z sz ≡ ok (v, with_allocator (locked m) z bd)
unfolding alloc_from
alloc_from_lem m anywhere sz v bd e = rw e
alloc_from_lem m under_1mb sz v bd e = rw e
alloc_from_lem m under_4gb sz v bd e = rw e

module _ (m : Pmm) (num v : ℕ) (bd : Buddy) (free_lock : m.lock.val ≡ 0) where
  -- The first allocator settles the request.
  pub alloc_pages_first :
      (z : PageReq)
      → Buddy.alloc (allocator m z) (u32 (num * 4096)) ≡ ok (v, bd)
      → ((v == no_memory) && is_anywhere z) ≡ false
      → alloc_pages m z num ≡ ok (v, after m z bd)
  unfolding alloc_pages alloc_retry
  alloc_pages_first z e settled = rw (
    take_lock_lem m free_lock,
    alloc_from_lem m z (u32 (num * 4096)) v bd e,
    settled,
    drop_lock_lem m z bd,
  )

  -- The high allocator has nothing, and the middle one is asked.
  pub alloc_pages_second :
      Buddy.alloc m.high (u32 (num * 4096)) ≡ ok (no_memory, m.high)
      → Buddy.alloc m.middle (u32 (num * 4096)) ≡ ok (v, bd)
      → alloc_pages m anywhere num ≡ ok (v, after m under_4gb bd)
  unfolding alloc_pages alloc_retry
  alloc_pages_second none e = rw (
    take_lock_lem m free_lock,
    alloc_from_lem m anywhere (u32 (num * 4096)) no_memory m.high none,
    alloc_from_lem m under_4gb (u32 (num * 4096)) v bd e,
    drop_lock_lem m under_4gb bd,
  )

-- An address inside the part of a zone is told to belong to it.
module _ (m : Pmm) (ready : IsReady m) where
  zone_of_inside :
      (z : PageReq) (addr : ℕ)
      → (allocator m z).start ≤ addr
      → addr < (allocator m z).start + (allocator m z).size
      → zone_of addr ≡ z
  unfolding zone_of
  zone_of_inside anywhere addr low high = ground (arith, ready.high_start)
  zone_of_inside under_1mb addr low high = ground (arith, ready.low_start, ready.low_end)
  zone_of_inside under_4gb addr low high = ground (arith, ready.middle_start, ready.middle_end)

  pub region_end : (z : PageReq) → (allocator m z).start + (allocator m z).size < 2 ^ 64
  region_end anywhere = omega (arith, ready.high_start, ready.high_end)
  region_end under_1mb = omega (arith, ready.low_start, ready.low_end)
  region_end under_4gb = omega (arith, ready.middle_start, ready.middle_end)

  -- The address of a block of a zone.
  module _ (z : PageReq) (o x : ℕ) (inside : x < blocks (allocator m z) o) where
    abbrev address : ℕ
    address = u64 ((allocator m z).start + x * 2 ^ (o + 12))

    block_address : address ≡ (allocator m z).start + x * 2 ^ (o + 12)
    block_address =
        omega (arith, region_end z, block_end (allocator m z) o x inside, two-pow_pos (o + 12))

    pub zone_of-address : zone_of address ≡ z
    zone_of-address =
        zone_of_inside z address (omega (arith, block_address))
          (omega (arith, block_address, block_end (allocator m z) o x inside, two-pow_pos (o + 12)))

    pub address_ne : address ≢ no_memory
    address_ne e = omega (
      arith,
      e,
      block_address,
      region_end z,
      block_end (allocator m z) o x inside,
      two-pow_pos (o + 12),
    )
