-- ===== src/Vmm/NewTable/Map.antt =====
-- map_one_page() where it allocates the page table first.
use mink.Prelude.{ℕ, ◌/◌, ◌^◌, ◌<◌, ◌≡◌, false, ok}
use mink.Pmm
use mink.Pmm.{Pmm, under_4gb}
use mink.Vmm.{Vmm, is_present}
use mink.Vmm.Tables.{pde, IsTree}
use mink.Vmm.Change.{locked}
use mink.Vmm.NewTable.{IsFresh, with_table}

-- The state under the lock after alloc_page().
abbrev allocated : Vmm → Pmm → Vmm
allocated m pmm = record (locked m) { pmm = pmm }

module _ (m : Vmm) (tree : IsTree m) (free : m.lock.val ≡ 0) (v : ℕ) (below : v / 2 ^ 22 < 1023)
    (missing : is_present (pde m v) ≡ false) (page : ℕ) (pmm : Pmm)
    (alloc : Pmm.alloc_page (locked m).pmm under_4gb ≡ ok (page, pmm)) (off : pmm.enabled ≡ false)
    (fresh : IsFresh m page) where
  abbrev with_new : Vmm
  with_new = with_table (allocated m pmm) v page
