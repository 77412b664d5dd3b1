-- ===== src/Pmm/Pages.antt =====
-- alloc_pages() and free_pages() over the three allocators.
use mink.Prelude.{ℕ, ◌+◌, ◌*◌, ◌^◌, ◌<◌, ◌≡◌, ◌⊎◌, inl, inr, refl, arith, Outcome, ok}
use mink.Utils.{log2_roundup}
use mink.Locking
use mink.Buddy
use mink.Buddy.{Buddy, u32, u64, no_memory}
use mink.Buddy.Alloc.{NoneFrom, TakesBlock, alloc-TakesBlock}
use mink.Pmm.{
  Pmm, PageReq, anywhere, under_1mb, under_4gb, allocator, alloc_pages, free_pages, take_lock,
  drop_lock, zone_of,
}
use mink.Pmm.Zones.{IsReady, after, address_ne, alloc_pages_first, alloc_pages_second}

-- The state after a call that took and dropped the lock and changed nothing else.
abbrev pub untouched : Pmm → Pmm
untouched m = record m { lock = record { val = 0; interrupts = m.enabled } }

-- `r` returns the address of block `x` of order `o` of zone `z`, which that zone's buddy_alloc()
-- took; the other zones are as they were, and the lock is free again.
pub record TakesPages (m : Pmm) (z : PageReq) (sz o x : ℕ) (r : Outcome (ℕ × Pmm)) : Type 0 where
  pub block : TakesBlock (allocator m z) o x (Buddy.alloc (allocator m z) sz)
  pub returns : r ≡ ok (u64 ((allocator m z).start + x * 2 ^ (o + 12)), after m z block.out)

-- Nothing in the zone that was asked, nor, for a request with no limit, below 4 GB.
abbrev pub NoneLeft : Pmm → PageReq → ℕ → Type 0
NoneLeft m anywhere o = NoneFrom m.high o × NoneFrom m.middle o
NoneLeft m under_1mb o = NoneFrom m.low o
NoneLeft m under_4gb o = NoneFrom m.middle o

abbrev pub AllocOutcome : Pmm → PageReq → ℕ → ℕ → Outcome (ℕ × Pmm) → Type 0
AllocOutcome m req sz o r =
    ((r ≡ ok (no_memory, untouched m)) × NoneLeft m req o)
    ⊎ (z : PageReq) × (x : ℕ) × ((z ≡ req)
        ⊎ ((req ≡ anywhere) × (z ≡ under_4gb) × NoneFrom m.high o))
      × TakesPages m z sz o x r

module _ (m : Pmm) (ready : IsReady m) (num o : ℕ)
    (e : log2_roundup (u32 (num * 4096)) ≡ ok (o + 12)) (lt : o < 17) where
  abbrev size : ℕ
  size = u32 (num * 4096)

  abbrev ask :
      (z : PageReq)
      → ((Buddy.alloc (allocator m z) size ≡ ok (no_memory, allocator m z))
          × NoneFrom (allocator m z) o)
        ⊎ ((x : ℕ) × TakesBlock (allocator m z) o x (Buddy.alloc (allocator m z) size))
  ask z = alloc-TakesBlock (allocator m z) (ready.valid z) size o e lt

  first_TakesPages :
      (z : PageReq) (x : ℕ)
      → TakesBlock (allocator m z) o x (Buddy.alloc (allocator m z) size)
      → TakesPages m z size o x (alloc_pages m z num)
  first_TakesPages z x t = record {
    block = t;
    returns =
        alloc_pages_first m num (u64 ((allocator m z).start + x * 2 ^ (o + 12))) t.out
          ready.unlocked z t.returns (ground (arith, address_ne m ready z o x t.inside));
  }

  -- alloc_pages() with the allocators up, for a number of pages that rounds up to a block of at most
  -- 256 MB: it returns ~0 with the allocators as they were when no allocator that may serve the
  -- request has a block of that size or a larger one free; else it takes a block of the allocator
  -- that was asked, or, if that one has none and any address will do, of the one below 4 GB.
  pub alloc_pages_lem : (req : PageReq) → AllocOutcome m req size o (alloc_pages m req num)
  alloc_pages_lem under_1mb = elim (ask under_1mb) [
    | inl (failed, none) ↦
        inl (alloc_pages_first m num no_memory m.low ready.unlocked under_1mb failed refl, none)
    | inr (x, t) ↦ inr (under_1mb, x, inl refl, first_TakesPages under_1mb x t)
  ]
  alloc_pages_lem under_4gb = elim (ask under_4gb) [
    | inl (failed, none) ↦
        inl (alloc_pages_first m num no_memory m.middle ready.unlocked under_4gb failed refl, none)
    | inr (x, t) ↦ inr (under_4gb, x, inl refl, first_TakesPages under_4gb x t)
  ]
  alloc_pages_lem anywhere = elim (ask anywhere) [
    | inl (failed, none) ↦ elim (ask under_4gb) [
      | inl (failed_too, none_too) ↦ inl (
        alloc_pages_second m num no_memory m.middle ready.unlocked failed failed_too,
        (none, none_too),
      )
      | inr (x, t) ↦ inr (
        under_4gb,
        x,
        inr (refl, refl, none),
        record {
          block = t;
          returns =
              alloc_pages_second m num (u64 (m.middle.start + x * 2 ^ (o + 12))) t.out
                ready.unlocked failed t.returns;
        },
      )
    ]
    | inr (x, t) ↦ inr (anywhere, x, inl refl, first_TakesPages anywhere x t)
  ]

pub free_pages_lem :
    (m : Pmm) (z : PageReq) (addr num : ℕ) (bd bd' : Buddy)
    → zone_of addr ≡ z
    → Buddy.free bd addr (u32 (num * 4096)) ≡ ok bd'
    → free_pages (after m z bd) addr num ≡ ok (after m z bd')
unfolding free_pages take_lock drop_lock Locking.acquire Locking.release
free_pages_lem m anywhere addr num bd bd' e f = rw (e, f) (ground arith)
free_pages_lem m under_1mb addr num bd bd' e f = rw (e, f) (ground arith)
free_pages_lem m under_4gb addr num bd bd' e f = rw (e, f) (ground arith)
