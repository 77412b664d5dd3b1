-- ===== src/Vmm/Spaces.antt =====
-- The set-up of the first address space, and the cloning of one. `global_vmm_lock` and the handlers'
-- table of isrs.c are passed along; that CR0_WP is on is part of how `walk` translates.
use mink.Prelude.{
  ℕ, zero, suc, ◌+◌, ◌-◌, ◌*◌, ◌/◌, ◌^◌, Bool, ◌&&◌, not, ◌==◌, leb, if◌then◌else◌, Outcome, ok,
  ◌>>=◌, bit_and, bit_or,
}
use mink.Locking
use mink.Locking.{Spinlock}
use mink.Interrupts.{Machine, install_isr}
use mink.Pmm
use mink.Pmm.{anywhere, under_4gb}
use mink.Buddy.{u32}
use mink.Vmm.{
  Vmm, x86_present, x86_write, x86_user, x86_cow, has, load, store, clear_page, page_table_entry,
  page_dir_entry,
}

-- struct address_space, for one that is not the current one.
pub record AddressSpace : Type 0 where
  pub directory : ℕ
  pub lock : Spinlock

-- MMAP_KERNEL_START and MMAP_KERNEL_END
abbrev pub kernel_start : ℕ
kernel_start = 0xc000_0000

abbrev pub kernel_end : ℕ
kernel_end = 0xff80_0000

abbrev pub page_table_size : ℕ
page_table_size = 0x40_0000

-- PAGE_TABLE_ENTRY(RPDT_BASE2, v) and PAGE_DIR_ENTRY(RPDT_BASE2, v)
unfoldable pub table_entry_2 : ℕ → ℕ
table_entry_2 v = 1022 * page_table_size + v / 2 ^ 12 * 4

unfoldable pub dir_entry_2 : ℕ → ℕ
dir_entry_2 v = 1022 * page_table_size + 1023 * 0x1000 + v / 2 ^ 22 * 4

-- The flags that the source adds to cr3 are below the frame's number. `current` stays as it was, and so
-- does the lock, which is current->lock.
unfoldable pub switch_address_space : Vmm → AddressSpace → Vmm
switch_address_space m dest = record m { cr3 = dest.directory / 2 ^ 12 }

-- The body of the loop of init_virtual_memory() for a directory entry that was not the last one's.
unfoldable pub ensure_kernel_table : Vmm → ℕ → Outcome Vmm
ensure_kernel_table m addr = do
  pde ← load m (page_dir_entry addr)
  if has pde x86_present then ok m else do
    (p, pmm) ← Pmm.early_alloc_page m.pmm
    m ←
        store (record m { pmm = pmm }) (page_dir_entry addr)
          (u32 (bit_or (bit_or p x86_present) x86_write))
    clear_page m (page_table_entry addr)

-- The loop with `left` pages to go.
unfoldable pub ensure_kernel_tables : ℕ → Vmm → ℕ → ℕ → Outcome Vmm
ensure_kernel_tables zero m addr last_table = ok m
ensure_kernel_tables (suc left) m addr last_table = do
  let pde = page_dir_entry addr
  m ← if pde == last_table then ok m else ensure_kernel_table m addr
  ensure_kernel_tables left m (addr + 0x1000) pde

-- The directory is written at its physical address, where it is mapped at this time.
unfoldable pub init_virtual_memory : {H : Type 0} → H → Vmm → Machine H → Outcome (Vmm × Machine H)
init_virtual_memory page_fault m machine = do
  let m : Vmm = record m { lock = Locking.released }
  let directory = m.cr3 * 2 ^ 12
  m ← store m (directory + 1023 * 4) (u32 (bit_or (bit_or directory x86_present) x86_write))
  m ← ensure_kernel_tables ((kernel_end - kernel_start) / 0x1000) m kernel_start 0
  ok (m, install_isr machine 14 page_fault)

-- One entry of a page table that is cloned.
unfoldable pub clone_entry : Vmm → ℕ → Bool → Bool → Outcome Vmm
clone_entry m v make_cow is_user = do
  s_pte ← load m (page_table_entry v)
  if make_cow && is_user && has s_pte x86_write
      then store m (table_entry_2 v) (bit_or (bit_and s_pte (2 ^ 32 - 1 - x86_write)) x86_cow)
      else ok m

unfoldable pub clone_entries : ℕ → Vmm → ℕ → Bool → Bool → Outcome Vmm
clone_entries zero m v make_cow is_user = ok m
clone_entries (suc left) m v make_cow is_user = do
  m ← clone_entry m v make_cow is_user
  clone_entries left m (v + 0x1000) make_cow is_user

-- ! IS_KERNEL_ADDR(PAGE_TABLE_SIZE * i), a product of 32 bits.
unfoldable pub is_user_table : ℕ → Bool
is_user_table i = not (leb kernel_start (u32 (page_table_size * i)))

-- The loop over the directory entries, with `left` to go.
unfoldable pub clone_tables : ℕ → Vmm → ℕ → Bool → Outcome Vmm
clone_tables zero m i make_cow = ok m
clone_tables (suc left) m i make_cow = do
  pde ← load m (page_dir_entry i)
  m ← store m (dir_entry_2 i) pde
  pde ← load m (page_dir_entry i)
  m ←
      if has pde x86_present && is_user_table i
      then (Pmm.alloc_page m.pmm under_4gb >>= λ (p2, pmm).
          store (record m { pmm = pmm }) (dir_entry_2 i)
            (u32 (bit_or (bit_or (bit_or p2 x86_write) x86_user) x86_present))
          >>= λ m. clone_entries 1024 m i make_cow (is_user_table i))
      else ok m
  clone_tables left m (i + page_table_size) make_cow

-- The new address space, the lock and the memory. The result 0 is left out: there is no other.
unfoldable pub clone_address_space : Spinlock → Vmm → Bool → Outcome (AddressSpace × Spinlock × Vmm)
clone_address_space global m make_cow = do
  (global, enabled) ← Locking.acquire global m.pmm.enabled
  let pmm = record m.pmm { enabled = enabled }
  (page, pmm) ← Pmm.alloc_page pmm anywhere
  let p = u32 page
  let entry = bit_or (bit_or p x86_write) x86_present
  m ← store (record m { pmm = pmm }) (page_dir_entry (table_entry_2 0)) entry
  m ← store m (page_table_entry (dir_entry_2 0)) entry
  m ← clone_tables (kernel_end / page_table_size) m 0 make_cow
  (global, enabled) ← Locking.release global m.pmm.enabled
  let pmm = record m.pmm { enabled = enabled }
  ok (record { directory = p; lock = Locking.released }, global, record m { pmm = pmm })
