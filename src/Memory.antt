-- ===== src/Memory.antt =====
-- init_physical_memory() of pmm.c, and arch/x86/mem.c: from the boot loader's memory map to the three
-- allocators.
pub mod BootMap
use mink.Prelude.{
  ℕ, zero, suc, ◌+◌, ◌-◌, ◌*◌, ◌/◌, ◌%◌, ◌^◌, Bool, true, false, ◌&&◌, not, ◌==◌, ltb, leb,
  if◌then◌else◌, List, [], ◌∷◌, ◌++◌, length, take, drop, Outcome, ok, panicked, undefined, assert,
  defined, ◌>>=◌, ◌>>◌,
}
use mink.Buddy
use mink.Buddy.{Buddy, Range, u32, u64}
use mink.Buddy.Init
use mink.Interrupts.{Machine}
use mink.Pmm
use mink.Pmm.{Pmm, full, is_early, split_range}
use mink.Vmm
use mink.Vmm.{Vmm, page_write}
use mink.Vmm.Spaces
use mink.Vmspace.{round_to_page_size}

-- MMAP_PMM_BITMAP
abbrev pub pmm_bitmap : ℕ
pmm_bitmap = 0xfe80_0000

-- A smaller and a larger number, as the MIN of the source.
abbrev pub min_of : ℕ → ℕ → ℕ
min_of a b = if ltb a b then a else b

-- The regions of the three allocators; extents are 64 bits wide, so MAX(.., 0) changes nothing.
unfoldable pub low_range : Pmm → Range
low_range pmm = record { start = 0; extent = min_of pmm.early_max_extent 0x100000 }

unfoldable pub middle_range : Pmm → Range
middle_range pmm = record {
  start = 0x100000;
  extent = u64 (min_of pmm.early_max_extent (2 ^ 32) + 2 ^ 64 - 0x100000);
}

unfoldable pub high_range : Pmm → Range
high_range pmm = record {
  start = 2 ^ 32;
  extent = if ltb (2 ^ 32) pmm.early_max_extent then pmm.early_max_extent - 2 ^ 32 else 0;
}

-- The loop that maps the bitmaps' pages, with `left` to go.
unfoldable pub map_bitmaps : ℕ → Vmm → ℕ → Outcome Vmm
map_bitmaps zero m v = ok m
map_bitmaps (suc left) m v = do
  (p, pmm) ← Pmm.early_alloc_page m.pmm
  m ← Vmm.map_pages 1 (record m { pmm = pmm }) v p page_write
  map_bitmaps left m (v + 0x1000)

abbrev pub free_if_any : Buddy → Range → Outcome Buddy
free_if_any bd r = if r.extent == 0 then ok bd else Buddy.free_range bd r

-- One of the early ranges, cut at 1 MB and at 4 GB. What is left of it is not used again.
unfoldable pub free_early_range : ℕ → Pmm → Range → Outcome Pmm
free_early_range garbage pmm r = if r.extent == 0 then ok pmm else do
  let (r0, above) = split_range garbage r 0x100000
  low ← free_if_any pmm.low r0
  let (r1, rest) = split_range garbage above (2 ^ 32)
  middle ← free_if_any pmm.middle r1
  high ← free_if_any pmm.high rest
  ok (record pmm { low = low; middle = middle; high = high })

unfoldable pub free_early_ranges : ℕ → Pmm → List Range → Outcome Pmm
free_early_ranges garbage pmm [] = ok pmm
free_early_ranges garbage pmm (r ∷ rs) = do
  pmm ← free_early_range garbage pmm r
  free_early_ranges garbage pmm rs

-- `storage` is what the pages hold that are mapped for the bitmaps. The result 0 is left out:
-- buddy_init() does not fail.
unfoldable pub init_physical_memory : ℕ → List ℕ → Vmm → Outcome Vmm
init_physical_memory garbage storage m = do
  assert (is_early m.pmm.init_stage)
  let low_size = Buddy.calc_overhead (low_range m.pmm)
  let middle_size = Buddy.calc_overhead (middle_range m.pmm)
  let high_size = Buddy.calc_overhead (high_range m.pmm)
  let pages = round_to_page_size (u32 (low_size + middle_size + high_size)) / 2 ^ 12
  m ← map_bitmaps pages m pmm_bitmap
  low ← Buddy.Init.init (take low_size storage) (low_range m.pmm) false
  middle ← Buddy.Init.init (take middle_size (drop low_size storage)) (middle_range m.pmm) false
  high ← Buddy.Init.init (drop (low_size + middle_size) storage) (high_range m.pmm) false
  let pmm : Pmm = record m.pmm { low = low; middle = middle; high = high }
  pmm ← free_early_ranges garbage pmm pmm.early_ranges
  ok (record m { pmm = record pmm { init_stage = full } })

-- multiboot_memory_map_t
pub record MapEntry : Type 0 where
  pub size : ℕ
  pub addr : ℕ
  pub len : ℕ
  pub ty : ℕ

-- The parts of multiboot_info_t that are read: bit 0 of `flags` is MULTIBOOT_INFO_MEMORY, and the map
-- is `mmap_length` bytes long, at `mmap_addr`, where memory holds `entries`.
pub record BootInfo : Type 0 where
  pub flags : ℕ
  pub mmap_addr : ℕ
  pub mmap_length : ℕ
  pub entries : List MapEntry

unfoldable pub remove_range : Range → ℕ → ℕ → Range
remove_range r start extent =
    if r.start == start
    then record { start = u64 (r.start + extent); extent = u64 (r.extent + 2 ^ 64 - extent) }
    else r

-- The loop over the map, at address `i` of a map that ends at `last`, with the ranges found so far and
-- the highest end. `ranges` is an array of 32.
unfoldable pub collect_ranges : ℕ → ℕ → List MapEntry → List Range → ℕ → Outcome (List Range × ℕ)
collect_ranges last i [] ranges extent =
    if ltb i last && ltb (length ranges) 128 then undefined else ok (ranges, extent)
collect_ranges last i (e ∷ entries) ranges extent =
    let next = u32 (i + e.size + 4) in
    let end = u64 (e.addr + e.len) in
    let with_entry =
      collect_ranges last next entries (ranges ++ record { start = e.addr; extent = e.len } ∷ [])
        (if ltb extent end then end else extent) in
    let without = collect_ranges last next entries ranges extent in
    if not (ltb i last && ltb (length ranges) 128)
    then ok (ranges, extent)
    else if not (e.ty == 1)
    then without
    else (defined (ltb (length ranges) 32) >> with_entry)

unfoldable pub remove_from_all : List Range → ℕ → ℕ → List Range
remove_from_all [] start extent = []
remove_from_all (r ∷ rs) start extent =
    remove_range r start extent ∷ remove_from_all rs start extent

-- `image_start` and `image_end` are the kernel's image. Results that are not looked at are left out.
unfoldable pub init_memory :
    {H : Type 0} → BootInfo → ℕ → ℕ → ℕ → List ℕ → H → Vmm → Machine H → Outcome (Vmm × Machine H)
init_memory boot image_start image_end garbage storage page_fault m machine =
    if boot.flags % 2 == 0 then panicked else do
      (ranges, extent) ←
          collect_ranges (u32 (boot.mmap_addr + boot.mmap_length)) boot.mmap_addr boot.entries [] 0
      let end = u32 (image_end / 2 ^ 12 * 2 ^ 12 + 4096)
      let ranges = remove_from_all ranges image_start end
      pmm ← Pmm.init_physical_memory_early m.pmm ranges (length ranges) extent
      (m, machine) ← Vmm.Spaces.init_virtual_memory page_fault (record m { pmm = pmm }) machine
      m ← init_physical_memory garbage storage m
      ok (m, machine)
