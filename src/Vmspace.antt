-- ===== src/Vmspace.antt =====
-- vmspace.c: a part of the kernel's virtual addresses, given out by a buddy allocator, with physical
-- pages behind them if wanted. The functions work on the vmspace and on the state of vmm.c and pmm.c.
pub mod Backing
pub mod Space
pub mod Alloc
pub mod FreePages
pub mod Free
pub mod Roundtrip
use mink.Prelude.{
  ℕ, zero, suc, ◌+◌, ◌-◌, ◌*◌, ◌/◌, ◌%◌, ◌^◌, Bool, false, ◌&&◌, not, ◌==◌, if◌then◌else◌, List,
  none, some, Outcome, ok, panicked, assert, ◌>>=◌, ◌>>◌,
}
use mink.Locking
use mink.Locking.{Spinlock}
use mink.Buddy
use mink.Buddy.{Buddy, Range, u32, no_memory}
use mink.Buddy.Init
use mink.Pmm
use mink.Pmm.{anywhere}
use mink.Vmm
use mink.Vmm.{Vmm, page_write}

pub record Vmspace : Type 0 where
  pub start : ℕ
  pub size : ℕ
  pub allocator : Buddy
  pub lock : Spinlock

abbrev pub State : Type 0
State = Vmspace × Vmm

-- get_page_size(), and round_to_page_size()
unfoldable pub round_to_page_size : ℕ → ℕ
round_to_page_size x = if x % 2 ^ 12 == 0 then x else u32 ((x / 2 ^ 12 + 1) * 2 ^ 12)

unfoldable pub take_lock : State → Outcome State
take_lock (vms, m) = do
  (lock, enabled) ← Locking.acquire vms.lock m.pmm.enabled
  let pmm = record m.pmm { enabled = enabled }
  ok (record vms { lock = lock }, record m { pmm = pmm })

unfoldable pub drop_lock : State → Outcome State
drop_lock (vms, m) = do
  (lock, enabled) ← Locking.release vms.lock m.pmm.enabled
  let pmm = record m.pmm { enabled = enabled }
  ok (record vms { lock = lock }, record m { pmm = pmm })

-- alloc_pages(PAGE_REQ_NONE, npages)
unfoldable pub alloc_phys_pages : Vmm → ℕ → Outcome (ℕ × Vmm)
alloc_phys_pages m npages = do
  (p, pmm) ← Pmm.alloc_pages m.pmm anywhere npages
  ok (p, record m { pmm = pmm })

-- `storage` is what the pages hold that are mapped for the bitmaps. The result 0 is left out: there is
-- no other.
unfoldable pub vmspace_init : List ℕ → Vmm → ℕ → ℕ → Outcome State
vmspace_init storage m addr sz = do
  let whole : Range = record { start = addr; extent = sz }
  let overhead = round_to_page_size (Buddy.calc_overhead whole)
  let npages = overhead / 2 ^ 12
  (p, m) ← alloc_phys_pages m npages
  m ← Vmm.map_pages npages m (u32 (addr + sz + 2 ^ 32 - overhead)) p page_write
  let r : Range = record { start = addr; extent = (sz + 2 ^ 64 - overhead) % 2 ^ 64 }
  allocator ← Buddy.Init.init storage r false
  allocator ← Buddy.free_range allocator r
  ok (record { start = addr; size = sz; allocator = allocator; lock = Locking.released }, m)

-- The physical pages behind new addresses; `flags` is alloc_phys.
unfoldable pub back_with_pages : Vmm → ℕ → ℕ → ℕ → Outcome Vmm
back_with_pages m addr sz flags = do
  let npages = sz / 2 ^ 12
  (phys_pages, m) ← alloc_phys_pages m npages
  assert (not (u32 phys_pages == 2 ^ 32 - 1))
  Vmm.map_pages npages m (u32 addr) (u32 phys_pages) flags

-- The address is an unsigned of 32 bits: ~0 is 2^32 - 1.
unfoldable pub vmspace_alloc : State → ℕ → ℕ → Outcome (ℕ × State)
vmspace_alloc s sz alloc_phys = do
  (vms, m) ← take_lock s
  (addr, allocator) ← Buddy.alloc vms.allocator sz
  m ←
      if not (alloc_phys == 0) && not (addr == no_memory)
      then back_with_pages m addr sz alloc_phys
      else ok m
  s ← drop_lock (record vms { allocator = allocator }, m)
  ok (u32 addr, s)

-- The loop over the pages from `addr` on, with `left` to go.
unfoldable pub free_phys_pages : ℕ → Vmm → ℕ → Outcome Vmm
free_phys_pages zero m addr = ok m
free_phys_pages (suc left) m addr = do
  mapping ← Vmm.get_mapping m addr
  elim mapping [
    | none ↦ panicked
    | some (p, flags) ↦ do
      pmm ← Pmm.free_page m.pmm p
      m ← Vmm.unmap_one_page (record m { pmm = pmm }) addr
      free_phys_pages left m (u32 (addr + 2 ^ 12))
  ]

unfoldable pub vmspace_free : State → ℕ → ℕ → Bool → Outcome State
vmspace_free s sz addr free_phys = do
  (vms, m) ← take_lock s
  m ← if free_phys then free_phys_pages ((sz + 4095) / 2 ^ 12) m addr else ok m
  allocator ← Buddy.free vms.allocator addr sz
  drop_lock (record vms { allocator = allocator }, m)
