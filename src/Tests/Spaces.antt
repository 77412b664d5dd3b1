-- ===== src/Tests/Spaces.antt =====
-- A vmspace of 16 pages at 0xD0100000, over the tables and the memory of the other tests.
use mink.Prelude.{
  ℕ, ◌+◌, ◌*◌, ◌≡◌, ◌⊎◌, refl, arith, true, false, [], replicate, Outcome, ok, panicked, undefined,
}
use mathlib.Core.Path.{subst}
use mink.Locking
use mink.Buddy
use mink.Buddy.{Buddy}
use mink.Buddy.Valid.{IsValid}
use mink.Buddy.Init
use mink.Buddy.Init.Empty.{init-IsValid}
use mink.Pmm
use mink.Pmm.Zones.{IsReady}
use mink.Vmm
use mink.Vmm.{Vmm}
use mink.Vmm.Tables.{IsTree-same}
use mink.Vmspace.Roundtrip.{RestoresSpace, vmspace_free-vmspace_alloc}
use mink.Utils
use mink.Utils.{log2_roundup}
use mink.Pmm.{PageReq, anywhere, under_1mb, under_4gb, allocator}
use mink.Pmm.Pages.{NoneLeft}
use mink.Vmspace
use mink.Vmspace.{Vmspace, State}
use mink.Vmspace.Space.{IsSpace}
use mink.Vmspace.Alloc.{Full, TakesSpace, vmspace_alloc-TakesSpace}
use mink.Tests.Allocator.{all_free, all_free-IsValid, storage, bitmap, code}
use mink.Tests.Memory.{memory, memory-IsReady, moved-IsValid}
use mink.Tests.Paging.{machine, machine-IsTree}

abbrev space : Vmspace
space = record {
  start = 0xd010_0000;
  size = 0x1_0000;
  allocator = record all_free { start = 0xd010_0000 };
  lock = Locking.released;
}

space-IsSpace : IsSpace space machine
space-IsSpace = record {
  unlocked = refl;
  valid = moved-IsValid all_free 0xd010_0000 all_free-IsValid;
  from_4mb = omega arith;
  in_range = omega arith;
  tree = machine-IsTree;
  vmm_unlocked = refl;
  ready = memory-IsReady;
  tables = λ u low high. ground (arith, low, high);
  unmapped = λ q inside is_free. ground (arith, inside);
}

round_2_pages : log2_roundup (2 * 4096) ≡ ok (1 + 12)
unfolding log2_roundup Utils.builtin_clz Utils.highest_bit
round_2_pages = refl

vmspace_alloc-TakesSpace_example :
    Full space machine 1 (Vmspace.vmspace_alloc (space, machine) 0x2000 1)
    ⊎ ((Vmspace.vmspace_alloc (space, machine) 0x2000 1 ≡ panicked)
        × NoneLeft machine.pmm anywhere 1)
    ⊎ ((x : ℕ) × (z : PageReq) × (y : ℕ) × TakesSpace space machine 2 1 1 x z y
          (Vmspace.vmspace_alloc (space, machine) 0x2000 1))
vmspace_alloc-TakesSpace_example =
    vmspace_alloc-TakesSpace space machine space-IsSpace 2 1 1 (omega arith) (λ e. omega (arith, e))
      (omega arith) (omega arith) round_2_pages (omega arith)

-- No memory above 4 GB.
abbrev nothing : Buddy
nothing = record { start = 0x1_0000_0000; size = 0; orders = replicate 17 (bitmap 0 0 []) }

nothing_runs : Init.init storage (record { start = 0x1_0000_0000; extent = 0 }) false ≡ ok nothing
unfolding code
nothing_runs = refl

nothing-IsValid : IsValid nothing
nothing-IsValid =
    let (bd, returns, valid, start, size, empty) =
      init-IsValid storage (record { start = 0x1_0000_0000; extent = 0 }) (omega arith)
        (unfold Buddy.overhead_from in omega arith) in
    let same : bd ≡ nothing = cc nothing_runs in subst IsValid same valid

abbrev low_machine : Vmm
low_machine = record machine { pmm = record memory { high = nothing } }

low_memory-IsReady : IsReady low_machine.pmm
low_memory-IsReady = record {
  unlocked = refl;
  valid = zones;
  low_start = memory-IsReady.low_start;
  low_end = memory-IsReady.low_end;
  middle_start = memory-IsReady.middle_start;
  middle_end = memory-IsReady.middle_end;
  high_start = refl;
  high_end = omega arith;
}
  where
    zones : (z : PageReq) → IsValid (allocator low_machine.pmm z)
    zones anywhere = nothing-IsValid
    zones under_1mb = memory-IsReady.valid under_1mb
    zones under_4gb = memory-IsReady.valid under_4gb

low_space-IsSpace : IsSpace space low_machine
low_space-IsSpace = record {
  unlocked = refl;
  valid = space-IsSpace.valid;
  from_4mb = omega arith;
  in_range = omega arith;
  tree = IsTree-same machine low_machine refl (λ i l. refl) machine-IsTree;
  vmm_unlocked = refl;
  ready = low_memory-IsReady;
  tables = space-IsSpace.tables;
  unmapped = space-IsSpace.unmapped;
}

abbrev state_of : Outcome (ℕ × State) → State
state_of (ok (p, s)) = s
state_of panicked = (space, low_machine)
state_of undefined = (space, low_machine)

abbrev after : State
after = state_of (Vmspace.vmspace_alloc (space, low_machine) 0x2000 1)

vmspace_alloc_runs : Vmspace.vmspace_alloc (space, low_machine) 0x2000 1 ≡ ok (0xd010_0000, after)
unfolding code Vmspace.vmspace_alloc Vmspace.take_lock Vmspace.drop_lock Vmspace.back_with_pages
    Vmspace.alloc_phys_pages Pmm.alloc_pages Pmm.alloc_from Pmm.alloc_retry Pmm.take_lock
    Pmm.drop_lock Locking.acquire Locking.release Vmm.map_pages Vmm.map_one_page Vmm.take_lock
    Vmm.drop_lock Vmm.write_entry Vmm.ensure_page_table_mapped Vmm.load Vmm.store Vmm.walk
    Vmm.page_table_entry Vmm.page_dir_entry Vmm.to_x86_flags Vmm.mapped_flags
vmspace_alloc_runs = refl

vmspace_free-vmspace_alloc_example :
    RestoresSpace space low_machine (Vmspace.vmspace_free after 0x2000 0xd010_0000 true)
vmspace_free-vmspace_alloc_example =
    vmspace_free-vmspace_alloc space low_machine low_space-IsSpace 1 1 (omega arith)
      (λ e. omega (arith, e)) (omega arith) refl 0xd010_0000 after.0 after.1 vmspace_alloc_runs
      (λ e. omega (arith, e))
