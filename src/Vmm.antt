-- ===== src/Vmm.antt =====
-- arch/x86/vmm.c: the mappings of the current address space, reached through the last entry of the
-- page directory, which leads back to the directory. The processor's translation is part of the
-- model, as the kernel reads and writes its tables at virtual addresses. An access that has no
-- translation panics in page_fault(). The TLB is not modelled: the source invalidates the one entry
-- that it takes away.
pub mod Tables
pub mod Mappings
pub mod Spaces
pub mod Entries
pub mod Change
pub mod Iterate
pub mod Boot
pub mod NewTable
pub mod Pages
use mink.Prelude.{
  ℕ, zero, suc, ◌+◌, ◌-◌, ◌*◌, ◌/◌, ◌%◌, ◌^◌, Bool, true, false, ◌&&◌, ◌||◌, not, ◌==◌, ltb,
  if◌then◌else◌, Option, none, some, Outcome, ok, panicked, undefined, ◌>>=◌, bit_and, bit_or,
}
use mink.Locking
use mink.Locking.{Spinlock}
use mink.Pmm
use mink.Pmm.{Pmm, under_4gb}
use mink.Buddy.{u32, no_memory}

-- X86_PRESENT, X86_WRITE, X86_USER, X86_EXECUTE, X86_COW
abbrev pub x86_present : ℕ
x86_present = 0x1

abbrev pub x86_write : ℕ
x86_write = 0x2

abbrev pub x86_user : ℕ
x86_user = 0x4

abbrev pub x86_execute : ℕ
x86_execute = 0x200

abbrev pub x86_cow : ℕ
x86_cow = 0x400

-- PAGE_WRITE, PAGE_EXECUTE, PAGE_USER, PAGE_COW
abbrev pub page_write : ℕ
page_write = 1

abbrev pub page_execute : ℕ
page_execute = 2

abbrev pub page_user : ℕ
page_user = 4

abbrev pub page_cow : ℕ
page_cow = 8

-- `flags & flag` as a condition.
abbrev pub has : ℕ → ℕ → Bool
has flags flag = not (bit_and flags flag == 0)

-- f |= to if flags & from
abbrev pub translate_flag : ℕ → ℕ → ℕ → ℕ → ℕ
translate_flag flags from to f = if has flags from then bit_or f to else f

unfoldable pub from_x86_flags : ℕ → ℕ
from_x86_flags flags = translate_flag flags x86_cow page_cow (
    translate_flag flags x86_user page_user
      (translate_flag flags x86_execute page_execute (translate_flag flags x86_write page_write 0)))

unfoldable pub to_x86_flags : ℕ → ℕ
to_x86_flags flags = translate_flag flags page_cow x86_cow (
    translate_flag flags page_execute x86_execute
      (translate_flag flags page_user x86_user (translate_flag flags page_write x86_write 0)))

-- The page frame of the current directory (the register cr3), current->lock, the physical memory
-- manager, and the 1024 words of each page frame.
pub record Vmm : Type 0 where
  pub cr3 : ℕ
  pub lock : Spinlock
  pub pmm : Pmm
  pub word : ℕ → ℕ → ℕ

abbrev pub is_present : ℕ → Bool
is_present entry = entry % 2 == 1

abbrev pub is_writable : ℕ → Bool
is_writable entry = entry / 2 % 2 == 1

-- The processor: the page frame of an address, which both levels must have present, and writable for
-- a write (CR0_WP holds for the kernel too).
unfoldable pub walk : Vmm → ℕ → Bool → Outcome ℕ
walk m a writes =
    let pde = m.word m.cr3 (a / 2 ^ 22) in
    let pte = m.word (pde / 2 ^ 12) (a / 2 ^ 12 % 1024) in
    if (is_present pde && is_present pte) && (not writes || (is_writable pde && is_writable pte))
    then ok (pte / 2 ^ 12)
    else panicked

unfoldable pub load : Vmm → ℕ → Outcome ℕ
load m a = do frame ← walk m a false; ok (m.word frame (a % 2 ^ 12 / 4))

abbrev pub put : Vmm → ℕ → ℕ → ℕ → Vmm
put m frame index w = record m {
  word = λ f i. if (f == frame) && (i == index) then w else m.word f i;
}

unfoldable pub store : Vmm → ℕ → ℕ → Outcome Vmm
store m a w = do frame ← walk m a true; ok (put m frame (a % 2 ^ 12 / 4) w)

abbrev pub zero_frame : Vmm → ℕ → Vmm
zero_frame m frame = record m { word = λ f i. if f == frame then 0 else m.word f i }

-- memset(a, 0, 0x1000) of a whole page.
unfoldable pub clear_page : Vmm → ℕ → Outcome Vmm
clear_page m a = do frame ← walk m a true; ok (zero_frame m frame)

-- PAGE_TABLE_ENTRY(RPDT_BASE, v)
unfoldable pub page_table_entry : ℕ → ℕ
page_table_entry v = 1023 * 0x40_0000 + v / 2 ^ 12 * 4

-- PAGE_DIR_ENTRY(RPDT_BASE, v)
unfoldable pub page_dir_entry : ℕ → ℕ
page_dir_entry v = 1023 * 0x40_0000 + 1023 * 0x1000 + v / 2 ^ 22 * 4

-- ensure_page_table_mapped() when the directory has no table: a page for it, and its entry.
unfoldable pub new_page_table : Vmm → ℕ → Outcome Vmm
new_page_table m v = do
  (p, pmm) ← Pmm.alloc_page m.pmm under_4gb
  let m = record m { pmm = pmm }
  if p == no_memory then panicked else do
    m ← store m (page_dir_entry v) (u32 (bit_or (bit_or (bit_or p x86_present) x86_write) x86_user))
    clear_page m (page_table_entry (v / 2 ^ 22 * 2 ^ 22))

unfoldable pub ensure_page_table_mapped : Vmm → ℕ → Outcome Vmm
ensure_page_table_mapped m v = do
  pde ← load m (page_dir_entry v)
  if has pde x86_present then ok m else new_page_table m v

unfoldable pub take_lock : Vmm → Outcome Vmm
take_lock m = do
  (lock, enabled) ← Locking.acquire m.lock m.pmm.enabled
  let pmm = record m.pmm { enabled = enabled }
  ok (record m { lock = lock; pmm = pmm })

unfoldable pub drop_lock : Vmm → Outcome Vmm
drop_lock m = do
  (lock, enabled) ← Locking.release m.lock m.pmm.enabled
  let pmm = record m.pmm { enabled = enabled }
  ok (record m { lock = lock; pmm = pmm })

-- A page that is copied on write must not be writable: flags & ~PAGE_WRITE.
unfoldable pub mapped_flags : ℕ → ℕ
mapped_flags flags = if has flags page_cow then bit_and flags (2 ^ 32 - 1 - page_write) else flags

abbrev pub new_entry : ℕ → ℕ → ℕ
new_entry p flags = bit_or (bit_or (u32 p / 2 ^ 12 * 2 ^ 12) (to_x86_flags flags)) x86_present

-- The part of map_one_page() under the lock.
unfoldable pub write_entry : Vmm → ℕ → ℕ → ℕ → Outcome Vmm
write_entry m v p flags = do
  m ← ensure_page_table_mapped m v
  pte ← load m (page_table_entry v)
  if has pte x86_present
      then panicked
      else store m (page_table_entry v) (new_entry p (mapped_flags flags))

-- The result 0 of map_one_page() and map() is left out: they have no other.
unfoldable pub map_one_page : Vmm → ℕ → ℕ → ℕ → Outcome Vmm
map_one_page m v p flags = do m ← take_lock m; m ← write_entry m v p flags; drop_lock m

-- map() for `left` pages from the one at `v` and `p`.
unfoldable pub map_pages : ℕ → Vmm → ℕ → ℕ → ℕ → Outcome Vmm
map_pages zero m v p flags = ok m
map_pages (suc left) m v p flags = do
  m ← map_one_page m v p flags
  map_pages left m (u32 (v + 0x1000)) (p + 0x1000) flags

-- The part of unmap_one_page() under the lock.
unfoldable pub clear_entry : Vmm → ℕ → Outcome Vmm
clear_entry m v = do
  pde ← load m (page_dir_entry v)
  if not (has pde x86_present) then panicked else do
    pte ← load m (page_table_entry v)
    if not (has pte x86_present) then panicked else store m (page_table_entry v) 0

unfoldable pub unmap_one_page : Vmm → ℕ → Outcome Vmm
unmap_one_page m v = do m ← take_lock m; m ← clear_entry m v; drop_lock m

unfoldable pub unmap_pages : ℕ → Vmm → ℕ → Outcome Vmm
unmap_pages zero m v = ok m
unmap_pages (suc left) m v = do m ← unmap_one_page m v; unmap_pages left m (u32 (v + 0x1000))

-- The page and its flags; `none` is ~0.
unfoldable pub get_mapping : Vmm → ℕ → Outcome (Option (ℕ × ℕ))
get_mapping m v = do
  pde ← load m (page_dir_entry v)
  if not (has pde x86_present) then ok none else do
    pte ← load m (page_table_entry v)
    if not (has pte x86_present)
        then ok none
        else ok (some (u32 pte / 2 ^ 12 * 2 ^ 12, from_x86_flags (pte % 2 ^ 12)))

unfoldable pub is_mapped : Vmm → ℕ → Outcome Bool
is_mapped m v = do
  mapping ← get_mapping m v
  elim mapping [ none ↦ ok false | some found ↦ ok true ]

-- The loop of iterate_mappings() with `left` rounds allowed; the result ~0 is `none`.
unfoldable pub iterate_from : ℕ → Vmm → ℕ → Outcome (Option ℕ)
iterate_from zero m v = undefined
iterate_from (suc left) m v =
    let rest = iterate_from left m (v + 0x1000) in
    if ltb v 0xfffff000
    then (is_mapped m (v + 0x1000) >>= λ mapped. if mapped then ok (some (v + 0x1000)) else rest)
    else ok none

-- There are 2^20 pages.
unfoldable pub iterate_mappings : Vmm → ℕ → Outcome (Option ℕ)
iterate_mappings m v = iterate_from (2 ^ 20) m v
