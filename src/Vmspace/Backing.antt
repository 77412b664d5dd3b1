-- ===== src/Vmspace/Backing.antt =====
-- The physical pages behind new addresses: what alloc_pages() and map() do together.
use mink.Prelude.{
  ℕ, ◌+◌, ◌-◌, ◌*◌, ◌/◌, ◌%◌, ◌^◌, ◌<◌, ◌≤◌, ◌≡◌, ◌⊎◌, ◌∙◌, sym, inl, inr, refl, arith, true, false,
  ◌==◌, none, Outcome, ok, panicked,
}
use mink.Prelude.Powers.{two-pow_block, two-pow_pos, two-pow_le}
use mink.Utils.{log2_roundup}
use mink.Utils.Log2.{log2_roundup_least}
use mink.Buddy.{u32, u64}
use mink.Buddy.Valid.{block_end}
use mink.Buddy.View.{blocks}
use mink.Buddy.Alloc.{NoneFrom}
use mink.Pmm
use mink.Pmm.{Pmm, PageReq, anywhere, under_1mb, under_4gb, allocator}
use mink.Pmm.Zones.{IsReady, after}
use mink.Pmm.Pages.{NoneLeft, TakesPages, alloc_pages_lem}
use mink.Vmm.{Vmm, is_present}
use mink.Vmm.Tables.{pde, IsTree, IsTree-same}
use mink.Vmm.Mappings.{mapping}
use mink.Vmm.Pages.{MapsPages, page_of_run, map_pages-MapsPages}
use mink.Vmspace.{alloc_phys_pages, back_with_pages}

-- Where the block of physical pages starts.
abbrev pub block_start : Pmm → PageReq → ℕ → ℕ → ℕ
block_start pmm z o y = u64 ((allocator pmm z).start + y * 2 ^ (o + 12))

-- `r` is a normal return with a block of physical pages taken, and the pages of it (the addresses
-- modulo 2^32) behind the `n` pages from `v` on, with the flags.
pub record Backs (m : Vmm) (v n o flags : ℕ) (z : PageReq) (y : ℕ) (r : Outcome Vmm) : Type 0 where
  pub served : (z ≡ anywhere) ⊎ (z ≡ under_4gb)
  pub pages : TakesPages m.pmm z (u32 (n * 4096)) o y (Pmm.alloc_pages m.pmm anywhere n)
  pub maps :
      MapsPages
        (record m { pmm = after m.pmm z pages.block.out })
        v
        n
        (page_of_run v (u32 (block_start m.pmm z o y)) flags)
        r

-- The block has room for the pages.
pub block_room :
    (n o : ℕ)
    → 0 < n
    → n * 4096 < 2 ^ 32
    → log2_roundup (n * 4096) ≡ ok (o + 12)
    → n * 4096 ≤ 2 ^ (o + 12)
block_room n o some_pages few e =
    let (k, returns, bound, enough, least) = log2_roundup_least (n * 4096) (omega arith) few in
    let same : k ≡ o + 12 = ok_injective k (o + 12) (sym returns ∙ e) in rw same at enough
  where
    ok_injective : (a b : ℕ) → ok a ≡ ok b → a ≡ b
    ok_injective a b h = cc

module _ (m : Vmm) (tree : IsTree m) (free : m.lock.val ≡ 0) (ready : IsReady m.pmm)
    (v n o flags : ℕ) (known : flags < 16) (some_pages : 0 < n) (high : 2 ^ 22 ≤ v)
    (fits : v + n * 0x1000 ≤ 1023 * 2 ^ 22) (e : log2_roundup (u32 (n * 4096)) ≡ ok (o + 12))
    (lt : o < 17) (there : (j : ℕ) → j < n → is_present (pde m (v + j * 0x1000)) ≡ true)
    (empty : (j : ℕ) → j < n → mapping m (v + j * 0x1000) ≡ none) where
  -- A block of a zone that serves the request, below 4 GB or seen modulo 2^32, does not wrap.
  block_low :
      (z : PageReq) (y : ℕ)
      → (z ≡ anywhere) ⊎ (z ≡ under_4gb)
      → y < blocks (allocator m.pmm z) o
      → u32 (block_start m.pmm z o y) + 2 ^ (o + 12) ≤ 2 ^ 32
  block_low anywhere y which inside =
      let ends = block_end (allocator m.pmm anywhere) o y inside in
      let exponent : 20 - o + (o + 12) ≡ 32 = omega arith in
      let aligned : y * 2 ^ (o + 12) % 2 ^ 32 + 2 ^ (o + 12) ≤ 2 ^ 32 =
        rw exponent at (two-pow_block (o + 12) (20 - o) y) in
      omega (arith, aligned, ends, ready.high_start, ready.high_end, two-pow_pos (o + 12))
  block_low under_4gb y which inside = omega (
    arith,
    block_end (allocator m.pmm under_4gb) o y inside,
    ready.middle_start,
    ready.middle_end,
    two-pow_pos (o + 12),
  )
  block_low under_1mb y (inl w) inside = absurd (first w)
    where
      first : under_1mb ≡ anywhere → ⊥
      first h = cc
  block_low under_1mb y (inr w) inside = absurd (second w)
    where
      second : under_1mb ≡ under_4gb → ⊥
      second h = cc

  room : n * 4096 ≤ 2 ^ (o + 12)
  room =
      let word : u32 (n * 4096) ≡ n * 4096 = omega arith in
      block_room n o some_pages (omega arith) (rw word at e)

  taken-Backs :
      (z : PageReq) (y : ℕ)
      → (z ≡ anywhere) ⊎ (z ≡ under_4gb)
      → TakesPages m.pmm z (u32 (n * 4096)) o y (Pmm.alloc_pages m.pmm anywhere n)
      → Backs m v n o flags z y (back_with_pages m v (n * 4096) flags)
  unfolding back_with_pages alloc_phys_pages
  taken-Backs z y which t =
      let p = block_start m.pmm z o y in
      let m' : Vmm = record m { pmm = after m.pmm z t.block.out } in
      let low = block_low z y which t.block.inside in
      let maps =
        map_pages-MapsPages n m' v (u32 p) flags (IsTree-same m m' refl (λ i l. refl) tree) free
          high known fits (omega (arith, low, room)) there empty in
      let number : n * 4096 / 2 ^ 12 ≡ n = omega arith in
      let address : u32 v ≡ v = omega arith in
      let found : u32 p == 2 ^ 32 - 1 ≡ false =
        ground (arith, low, two-pow_pos (o + 12), two-pow_le 12 (o + 12) (omega arith)) in
      record { served = which; pages = t; maps = rw (number, t.returns, found, address) maps }

  -- With the allocators up, page tables and no mapping at the `n` pages from `v` on: back_with_pages()
  -- stops the kernel when no allocator has a block, else it maps the pages of one.
  pub back_with_pages_lem :
      ((back_with_pages m v (n * 4096) flags ≡ panicked) × NoneLeft m.pmm anywhere o)
      ⊎ ((z : PageReq) × (y : ℕ) × Backs m v n o flags z y (back_with_pages m v (n * 4096) flags))
  unfolding back_with_pages alloc_phys_pages
  back_with_pages_lem = elim (alloc_pages_lem m.pmm ready n o e lt anywhere) [
    | inl (failed, none_left) ↦
        let number : n * 4096 / 2 ^ 12 ≡ n = omega arith in
        inl (rw (number, failed) refl, none_left)
    | inr (z, y, which, t) ↦ inr (z, y, taken-Backs z y (served z which) t)
  ]
    where
      served :
          (z : PageReq)
          → (z ≡ anywhere) ⊎ ((anywhere ≡ anywhere) × (z ≡ under_4gb) × NoneFrom m.pmm.high o)
          → (z ≡ anywhere) ⊎ (z ≡ under_4gb)
      served z (inl w) = inl w
      served z (inr (w, w', none_high)) = inr w'
