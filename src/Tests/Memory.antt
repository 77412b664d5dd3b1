-- ===== src/Tests/Memory.antt =====
-- pmm.c with 64 KB free at 1 MB and nothing above 4 GB.
use mink.Prelude.{ℕ, ◌+◌, ◌<◌, ◌≤◌, ◌≡◌, ◌⊎◌, refl, arith, true, List, [], ◌∷◌, ok, panicked}
use mink.Buddy.{Range, Buddy}
use mink.Buddy.Valid.{IsValid}
use mink.Locking
use mink.Pmm
use mink.Pmm.{Pmm, PageReq, full, early, anywhere, under_1mb, under_4gb, allocator}
use mink.Pmm.Zones.{IsReady}
use mink.Pmm.Pages.{AllocOutcome, alloc_pages_lem}
use mink.Pmm.Roundtrip.{RestoresZones, free_pages-alloc_pages}
use mink.Pmm.Early.{Holds, split_range_parts, AllSkipped, TakesFirst, early_alloc_page_lem}
use mink.Tests.Allocator.{
  all_free, two_taken, nothing_free, all_free-IsValid, nothing_free-IsFresh, round_8_kb, code,
}

-- The invariant of an allocator does not depend on where its region starts.
pub moved-IsValid : (bd : Buddy) (start : ℕ) → IsValid bd → IsValid (record bd { start = start })
moved-IsValid bd start v = record {
  shaped = record {
    orders_length = v.shaped.orders_length;
    bitmaps = v.shaped.bitmaps;
    extents = v.shaped.extents;
    small = v.shaped.small;
  };
  whole = v.whole;
  exclusive = v.exclusive;
}

abbrev pub memory : Pmm
memory = record {
  init_stage = full;
  early_ranges = [];
  early_max_extent = 0x110000;
  lock = Locking.released;
  enabled = true;
  high = record nothing_free { start = 0x1_0000_0000 };
  low = record nothing_free { start = 0 };
  middle = all_free;
}

abbrev memory_taken : Pmm
memory_taken = record memory { middle = two_taken; lock = record { val = 0; interrupts = true } }

zones-IsValid : (z : PageReq) → IsValid (allocator memory z)
zones-IsValid anywhere = moved-IsValid nothing_free 0x1_0000_0000 nothing_free-IsFresh.0
zones-IsValid under_1mb = moved-IsValid nothing_free 0 nothing_free-IsFresh.0
zones-IsValid under_4gb = all_free-IsValid

pub memory-IsReady : IsReady memory
memory-IsReady = record {
  unlocked = refl;
  valid = zones-IsValid;
  low_start = refl;
  low_end = omega arith;
  middle_start = refl;
  middle_end = omega arith;
  high_start = refl;
  high_end = omega arith;
}

alloc_pages_runs : Pmm.alloc_pages memory anywhere 2 ≡ ok (0x100000, memory_taken)
unfolding code Pmm.alloc_pages Pmm.alloc_from Pmm.alloc_retry Pmm.take_lock Pmm.drop_lock
    Locking.acquire Locking.release
alloc_pages_runs = refl

alloc_pages_lem_example : AllocOutcome memory anywhere 0x2000 1 (Pmm.alloc_pages memory anywhere 2)
alloc_pages_lem_example =
    alloc_pages_lem memory memory-IsReady 2 1 round_8_kb (omega arith) anywhere

free_pages-alloc_pages_example : RestoresZones memory (Pmm.free_pages memory_taken 0x100000 2)
free_pages-alloc_pages_example =
    free_pages-alloc_pages memory memory-IsReady 2 1 round_8_kb (omega arith) anywhere 0x100000
      memory_taken alloc_pages_runs (omega arith)

abbrev first_mb : Range
first_mb = record { start = 0x90000; extent = 0x80000 }

split_range_parts_example :
    let (below, rest) = Pmm.split_range 7 first_mb 0x100000 in
    (Holds below 0xfffff → Holds first_mb 0xfffff × (0xfffff < 0x100000))
    × (Holds first_mb 0xfffff → 0xfffff < 0x100000 → Holds below 0xfffff)
    × (Holds rest 0xfffff → Holds first_mb 0xfffff × (0x100000 ≤ 0xfffff))
    × (Holds first_mb 0xfffff → 0x100000 ≤ 0xfffff → Holds rest 0xfffff)
    × (below.extent + rest.extent ≡ 0x80000)
split_range_parts_example = split_range_parts 7 first_mb 0x100000 0xfffff (omega arith)

abbrev booting : Pmm
booting = record memory {
  init_stage = early;
  early_ranges = first_mb ∷ record { start = 0x200000; extent = 0x300000 } ∷ [];
}

early_alloc_page_lem_example :
    ((Pmm.early_alloc_page booting ≡ panicked) × AllSkipped booting.early_ranges)
    ⊎ ((page : ℕ) × (rs' : List Range) × (Pmm.early_alloc_page booting
          ≡ ok (page, record booting { early_ranges = rs' }))
        × TakesFirst booting.early_ranges page rs')
early_alloc_page_lem_example = early_alloc_page_lem booting refl
