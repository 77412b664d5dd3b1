-- ===== src/Pmm.antt =====
-- pmm.c: physical pages. Three allocators hold the pages below 1 MB, from there to 4 GB, and above;
-- an early allocator serves the time before they are up.
pub mod Early
pub mod FreePage
pub mod Zones
pub mod Pages
pub mod Roundtrip
use mink.Prelude.{
  ℕ, ◌+◌, ◌-◌, ◌*◌, ◌/◌, ◌%◌, ◌^◌, Bool, true, false, ◌&&◌, ◌||◌, ◌==◌, ltb, leb, if◌then◌else◌,
  List, [], ◌∷◌, Option, none, some, Outcome, ok, panicked, assert, defined, take, length, ◌>>=◌,
  ◌>>◌,
}
use mink.Locking
use mink.Locking.{Spinlock}
use mink.Buddy
use mink.Buddy.{Buddy, Range, u32, u64, no_memory}

-- PMM_INIT_START, PMM_INIT_EARLY, PMM_INIT_FULL
pub data Stage : Type 0 where
  start early full : Stage

-- PAGE_REQ_NONE, PAGE_REQ_UNDER1MB, PAGE_REQ_UNDER4GB
pub data PageReq : Type 0 where
  anywhere under_1mb under_4gb : PageReq

abbrev pub page_size : ℕ
page_size = 4096

-- The early ranges are the `early_nranges` first of the array. `enabled` is the processor's
-- interrupt flag, which the spinlock saves.
pub record Pmm : Type 0 where
  pub init_stage : Stage
  pub early_ranges : List Range
  pub early_max_extent : ℕ
  pub lock : Spinlock
  pub enabled : Bool
  pub high : Buddy
  pub low : Buddy
  pub middle : Buddy

-- allocators[req]
abbrev pub allocator : Pmm → PageReq → Buddy
allocator m anywhere = m.high
allocator m under_1mb = m.low
allocator m under_4gb = m.middle

abbrev pub with_allocator : Pmm → PageReq → Buddy → Pmm
with_allocator m anywhere bd = record m { high = bd }
with_allocator m under_1mb bd = record m { low = bd }
with_allocator m under_4gb bd = record m { middle = bd }

abbrev pub is_anywhere : PageReq → Bool
is_anywhere anywhere = true
is_anywhere under_1mb = false
is_anywhere under_4gb = false

unfoldable pub take_lock : Pmm → Outcome Pmm
take_lock m = do
  (lock, enabled) ← Locking.acquire m.lock m.enabled
  ok (record m { lock = lock; enabled = enabled })

unfoldable pub drop_lock : Pmm → Outcome Pmm
drop_lock m = do
  (lock, enabled) ← Locking.release m.lock m.enabled
  ok (record m { lock = lock; enabled = enabled })

unfoldable pub alloc_from : Pmm → PageReq → ℕ → Outcome (ℕ × Pmm)
alloc_from m req sz = do
  (val, bd) ← Buddy.alloc (allocator m req) sz
  ok (val, with_allocator m req bd)

-- The second try, below 4 GB, of a request with no limit that found nothing.
unfoldable pub alloc_retry : Pmm → PageReq → ℕ → ℕ → Outcome (ℕ × Pmm)
alloc_retry m req sz val =
    if (val == no_memory) && is_anywhere req then alloc_from m under_4gb sz else ok (val, m)

unfoldable pub alloc_pages : Pmm → PageReq → ℕ → Outcome (ℕ × Pmm)
alloc_pages m req num = do
  m ← take_lock m
  (val, m) ← alloc_from m req (u32 (num * page_size))
  (val, m) ← alloc_retry m req (u32 (num * page_size)) val
  m ← drop_lock m
  ok (val, m)

unfoldable pub alloc_page : Pmm → PageReq → Outcome (ℕ × Pmm)
alloc_page m req = alloc_pages m req 1

-- The allocator that an address belongs to.
unfoldable pub zone_of : ℕ → PageReq
zone_of pages =
    if ltb pages 0x100000
    then under_1mb
    else if ltb pages 0x1_0000_0000
    then under_4gb
    else anywhere

-- The result 0 is left out: free_pages() has no other.
unfoldable pub free_pages : Pmm → ℕ → ℕ → Outcome Pmm
free_pages m pages num = do
  m ← take_lock m
  let req = zone_of pages
  bd ← Buddy.free (allocator m req) pages (u32 (num * page_size))
  drop_lock (with_allocator m req bd)

unfoldable pub free_page : Pmm → ℕ → Outcome Pmm
free_page m page = free_pages m page 1

-- The part of a range below `loc` and what is left of it. The start of an empty first part is
-- never set: `garbage` stands for it.
unfoldable pub split_range : ℕ → Range → ℕ → Range × Range
split_range garbage r loc =
    if leb loc r.start
    then (record { start = garbage; extent = 0 }, r)
    else if leb (u64 (r.start + r.extent)) loc
    then (r, record r { extent = 0 })
    else (
      record { start = r.start; extent = loc - r.start },
      record { start = loc; extent = r.extent - (loc - r.start) },
    )

abbrev pub is_early : Stage → Bool
is_early start = false
is_early early = true
is_early full = false

abbrev pub is_start : Stage → Bool
is_start start = true
is_start early = false
is_start full = false

-- A range that early_alloc_page() passes over.
unfoldable pub is_skipped : Range → Bool
is_skipped r = (leb r.extent 0x1000 || leb 0x1_0000_0000 r.start) || ltb r.start 0x100000

-- The loop of early_alloc_page(): the page and the ranges after it.
unfoldable pub early_take : List Range → Option (ℕ × List Range)
early_take [] = none
early_take (r ∷ rs) =
    let rest = early_take rs in
    if is_skipped r
    then elim rest [ none ↦ none | some (page, rs') ↦ some (page, r ∷ rs') ]
    else some
        (u32 r.start, record { start = u64 (r.start + 0x1000); extent = r.extent - 0x1000 } ∷ rs)

unfoldable pub early_alloc_page : Pmm → Outcome (ℕ × Pmm)
early_alloc_page m = do
  assert (is_early m.init_stage)
  elim (early_take m.early_ranges) [
    | none ↦ panicked
    | some (page, rs) ↦ ok (page, record m { early_ranges = rs })
  ]

unfoldable pub init_physical_memory_early : Pmm → List Range → ℕ → ℕ → Outcome Pmm
init_physical_memory_early m ranges nranges max_extent = do
  assert (is_start m.init_stage)
  assert (ltb nranges 64)
  defined (leb nranges (length ranges))
  ok (record m {
    early_ranges = take nranges ranges;
    early_max_extent = max_extent;
    init_stage = early;
  })
