-- ===== src/Tests/Paging.antt =====
-- vmm.c with a directory as loader.s and init_virtual_memory() leave it: the first 4 MB and those from
-- 3 GB share a table, which maps them to the first 4 MB, and the directory leads to itself. Of the
-- other tables of the kernel there is one, for the 4 MB from 0xD0000000.
use mink.Prelude.{
  Option, ℕ, ◌+◌, ◌*◌, ◌/◌, ◌%◌, ◌^◌, ◌≡◌, ◌≢◌, ◌⊎◌, refl, arith, false, true, ◌<◌, ◌>>=◌, ◌==◌,
  ◌&&◌, ◌||◌, if◌then◌else◌, none, some, Outcome, ok, panicked, undefined,
}
use mink.Locking
use mink.Pmm
use mink.Pmm.{Pmm, under_4gb}
use mink.Buddy.{u32}
use mink.Vmm
use mink.Vmm.{Vmm, put, is_present, is_writable, walk, get_mapping, from_x86_flags}
use mink.Vmm.Tables.{IsTree, pde, pte}
use mink.Vmm.Boot.{IsBoot, with_self, boot-IsTree, put_table-IsTree}
use mink.Vmm.Mappings.{mapping, get_mapping-walk}
use mink.Vmm.Entries.{kept_flags}
use mink.Vmm.Change.{Maps, locked, map_one_page-Maps}
use mink.Vmm.Pages.{in_pages, RestoresMappings, unmap-map}
use mink.Vmm.Iterate.{IsNext, iterate_mappings-IsNext}
use mink.Tests.Memory.{memory}

-- The directory in frame 16, the shared table in frame 17 and the other one in frame 18, which maps
-- 0xD0001000 to 0x5000.
abbrev words : ℕ → ℕ → ℕ
words f i =
    if f == 16
    then (if (i == 0) || (i == 768) then 17 * 2 ^ 12 + 3 else 0)
    else if f == 17
    then i * 2 ^ 12 + 3
    else if (f == 18) && (i == 1)
    then 5 * 2 ^ 12 + 3
    else 0

-- As loader.s leaves the directory, and with the two entries that init_virtual_memory() writes.
abbrev booted : Vmm
booted = record { cr3 = 16; lock = Locking.released; pmm = memory; word = words }

abbrev pub machine : Vmm
machine = put (with_self booted) 16 832 (18 * 2 ^ 12 + 3)

booted-IsBoot : IsBoot booted 17
booted-IsBoot = record {
  first = refl;
  higher_half = refl;
  others = λ i lt some_i other. ground (arith, some_i, other);
  identity = λ i lt. refl;
  low = omega arith;
  apart = λ e. omega (arith, e);
}

pub machine-IsTree : IsTree machine
machine-IsTree =
    put_table-IsTree (with_self booted) (boot-IsTree booted 17 booted-IsBoot) 832 (18 * 2 ^ 12 + 3)
      (omega arith) refl refl (λ i lt p e. ground (arith, p, e))

get_mapping-walk_example :
    ((walk machine 0xc0001234 false ≡ panicked) × (get_mapping machine 0xc0001234 ≡ ok none))
    ⊎ ((frame : ℕ) × (walk machine 0xc0001234 false ≡ ok frame)
        × (get_mapping machine 0xc0001234
            ≡ ok (some (u32 (frame * 2 ^ 12), from_x86_flags (pte machine 0xc0001234 % 2 ^ 12)))))
get_mapping-walk_example =
    get_mapping-walk machine 0xc0001234 machine-IsTree.recursive (omega arith)

map_one_page-Maps_example :
    (mapping machine 0xd0002000 ≡ none
      → Maps machine 0xd0002000
          (some (u32 0x9000 / 2 ^ 12 * 2 ^ 12, kept_flags 5))
          (Vmm.map_one_page machine 0xd0002000 0x9000 5))
    × (mapping machine 0xd0002000 ≢ none → Vmm.map_one_page machine 0xd0002000 0x9000 5 ≡ panicked)
map_one_page-Maps_example =
    map_one_page-Maps machine machine-IsTree refl 0xd0002000 (omega arith) 0x9000 5 (omega arith)
      refl

abbrev state_of : Outcome (ℕ × Pmm) → Pmm
state_of (ok (p, m)) = m
state_of panicked = memory
state_of undefined = memory

abbrev after : Pmm
after = state_of (Pmm.alloc_page (locked machine).pmm under_4gb)

iterate_mappings-IsNext_example :
    (r : Option ℕ) × (Vmm.iterate_mappings machine 0xc0000000 ≡ ok r) × IsNext machine 0xc0000000 r
iterate_mappings-IsNext_example =
    iterate_mappings-IsNext machine 0xc0000000 machine-IsTree.recursive (omega arith)

-- The two pages from 0xD0002000 on are not mapped.
pages_there : (j : ℕ) → j < 2 → is_present (pde machine (0xd0002000 + j * 0x1000)) ≡ true
pages_there j lt = ground (arith, lt)

pages_empty : (u : ℕ) → in_pages 0xd0002000 2 u ≡ true → mapping machine u ≡ none
pages_empty u inside = ground (arith, inside)

unmap-map_example :
    RestoresMappings machine
      (Vmm.map_pages 2 machine 0xd0002000 0x9000 5 >>= λ m. Vmm.unmap_pages 2 m 0xd0002000)
unmap-map_example =
    unmap-map 2 machine 0xd0002000 0x9000 5 machine-IsTree refl (omega arith) (omega arith)
      (omega arith) (omega arith) pages_there pages_empty
