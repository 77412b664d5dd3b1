-- ===== src/Pmm/Roundtrip.antt =====
-- Pages that alloc_pages() returned can be given back by free_pages().
use mink.Prelude.{ℕ, ◌+◌, ◌*◌, ◌^◌, ◌<◌, ◌≡◌, ◌≢◌, inl, inr, refl, arith, Outcome, ok}
use mink.Utils.{log2_roundup}
use mink.Buddy
use mink.Buddy.{Buddy, u32, u64, no_memory}
use mink.Buddy.Valid.{IsValid, page_count}
use mink.Buddy.Alloc.{TakesBlock}
use mink.Buddy.Roundtrip.{free-alloc}
use mink.Pmm.{Pmm, PageReq, anywhere, under_1mb, under_4gb, allocator, alloc_pages, free_pages}
use mink.Pmm.Zones.{IsReady, after, region_end, zone_of-address, address_ne}
use mink.Pmm.Pages.{alloc_pages_lem, free_pages_lem}

-- A normal return with all three allocators valid and every page as free as it is in `m`.
abbrev pub RestoresZones : Pmm → Outcome Pmm → Type 0
RestoresZones m r =
    (m' : Pmm) × (r ≡ ok m')
    × (m'.lock.val ≡ 0)
    × (m'.enabled ≡ m.enabled)
    × ((z : PageReq) → IsValid (allocator m' z))
    × ((z : PageReq) (p : ℕ) → page_count (allocator m' z) p ≡ page_count (allocator m z) p)

after_zones :
    (m : Pmm) (z : PageReq) (bd : Buddy)
    → IsReady m
    → IsValid bd
    → ((p : ℕ) → page_count bd p ≡ page_count (allocator m z) p)
    → ((z' : PageReq) → IsValid (allocator (after m z bd) z'))
      × ((z' : PageReq) (p : ℕ)
          → page_count (allocator (after m z bd) z') p ≡ page_count (allocator m z') p)
after_zones m z bd ready valid same = (all_valid z same, all_same z same)
  where
    all_valid :
        (z : PageReq)
        → ((p : ℕ) → page_count bd p ≡ page_count (allocator m z) p)
        → (z' : PageReq) → IsValid (allocator (after m z bd) z')
    all_valid anywhere same anywhere = valid
    all_valid anywhere same under_1mb = ready.valid under_1mb
    all_valid anywhere same under_4gb = ready.valid under_4gb
    all_valid under_1mb same anywhere = ready.valid anywhere
    all_valid under_1mb same under_1mb = valid
    all_valid under_1mb same under_4gb = ready.valid under_4gb
    all_valid under_4gb same anywhere = ready.valid anywhere
    all_valid under_4gb same under_1mb = ready.valid under_1mb
    all_valid under_4gb same under_4gb = valid

    all_same :
        (z : PageReq)
        → ((p : ℕ) → page_count bd p ≡ page_count (allocator m z) p)
        → (z' : PageReq) (p : ℕ)
        → page_count (allocator (after m z bd) z') p ≡ page_count (allocator m z') p
    all_same anywhere same anywhere p = same p
    all_same anywhere same under_1mb p = refl
    all_same anywhere same under_4gb p = refl
    all_same under_1mb same anywhere p = refl
    all_same under_1mb same under_1mb p = same p
    all_same under_1mb same under_4gb p = refl
    all_same under_4gb same anywhere p = refl
    all_same under_4gb same under_1mb p = refl
    all_same under_4gb same under_4gb p = same p

after_lock :
    (m : Pmm) (z : PageReq) (bd : Buddy)
    → ((after m z bd).lock.val ≡ 0) × ((after m z bd).enabled ≡ m.enabled)
after_lock m z bd = (refl, refl)

module _ (m : Pmm) (ready : IsReady m) (num o : ℕ)
    (e : log2_roundup (u32 (num * 4096)) ≡ ok (o + 12)) (lt : o < 17) where
  taken-RestoresZones :
      (z : PageReq) (x : ℕ)
      (t : TakesBlock (allocator m z) o x (Buddy.alloc (allocator m z) (u32 (num * 4096))))
      → RestoresZones m
          (free_pages (after m z t.out) (u64 ((allocator m z).start + x * 2 ^ (o + 12))) num)
  taken-RestoresZones z x t =
      let addr = u64 ((allocator m z).start + x * 2 ^ (o + 12)) in
      let (bd, returns, valid, pages) =
        free-alloc (allocator m z) (u32 (num * 4096)) o (ready.valid z) e lt
          (omega (arith, region_end m ready z)) addr t.out t.returns
          (address_ne m ready z o x t.inside) in
      let (all_valid, all_same) = after_zones m z bd ready valid pages in
      (
        after m z bd,
        free_pages_lem m z addr num t.out bd (zone_of-address m ready z o x t.inside) returns,
        refl,
        refl,
        all_valid,
        all_same,
      )

  -- free_pages() of what alloc_pages() returned, other than ~0, for the same number of pages finds
  -- the allocator that the pages came from, also where that was the second choice, and restores
  -- the free pages of all three; the lock is free and the interrupt flag as before.
  pub free_pages-alloc_pages :
      (req : PageReq) (addr : ℕ) (m' : Pmm)
      → alloc_pages m req num ≡ ok (addr, m')
      → addr ≢ no_memory
      → RestoresZones m (free_pages m' addr num)
  free_pages-alloc_pages req addr m' returned found =
      elim (alloc_pages_lem m ready num o e lt req) [
        | inl (failed, none) ↦ absurd (found (ground arith))
        | inr (z, x, which, t) ↦
            let same_addr : addr ≡ u64 ((allocator m z).start + x * 2 ^ (o + 12)) = cc t.returns in
            let same_state : m' ≡ after m z t.block.out = cc t.returns in
            rw (same_addr, same_state) (taken-RestoresZones z x t.block)
      ]
