-- ===== src/Vmspace/FreePages.antt =====
-- The loop of vmspace_free() that gives the physical pages back and takes their mappings away.
use mink.Prelude.{
  ℕ, zero, suc, ◌+◌, ◌*◌, ◌/◌, ◌^◌, ◌<◌, ◌≤◌, ◌≡◌, ◌≢◌, ◌∙◌, sym, ap, refl, arith, true, false,
  ◌==◌, if◌then◌else◌, none, some, Outcome, ok, Bool-cases, inl, inr,
}
use mink.Buddy.{u32}
use mink.Buddy.Valid.{page_count}
use mink.Buddy.FreeRange.{in_range}
use mink.Pmm
use mink.Pmm.{Pmm, PageReq, allocator}
use mink.Pmm.Zones.{IsReady, after}
use mink.Pmm.FreePage.{
  page_address, FreesPage, free_page-FreesPage, allocator-after, allocator-after_other,
}
use mink.Vmm.{Vmm, is_present, unmap_one_page}
use mink.Vmm.Tables.{pde, IsTree, IsTree-same}
use mink.Vmm.Mappings.{mapping, get_mapping-mapping}
use mink.Vmm.Change.{Maps, unmap_one_page-Maps}
use mink.Vmm.Pages.{in_pages, table_of}
use mink.Vmspace.{free_phys_pages}
use mink.Vmspace.Space.{after-IsReady}

-- `r` is a normal return with the `n` pages from `v` on not mapped and the other mappings as before,
-- and the `n` pages of zone `z` from `k` on free as well.
pub record FreesPages (m : Vmm) (v n : ℕ) (z : PageReq) (k : ℕ) (r : Outcome Vmm) : Type 0 where
  pub out : Vmm
  pub returns : r ≡ ok out
  pub tree : IsTree out
  pub mappings :
      (u : ℕ)
      → u < 2 ^ 32
      → 2 ^ 22 ≤ u
      → u / 2 ^ 22 < 1023
      → mapping out u ≡ (if in_pages v n u then none else mapping m u)
  pub tables : (u : ℕ) → is_present (pde m u) ≡ true → is_present (pde out u) ≡ true
  pub unlocked : out.lock.val ≡ 0
  pub enabled : out.pmm.enabled ≡ m.pmm.enabled
  pub ready : IsReady out.pmm
  pub pages :
      (p : ℕ)
      → page_count (allocator out.pmm z) p ≡ page_count (allocator m.pmm z) p + in_range k n p
  pub others : (z' : PageReq) → z' ≢ z → allocator out.pmm z' ≡ allocator m.pmm z'

-- Pages of virtual and of physical memory, mapped one to the other in order; the physical ones are in
-- use.
pub record IsBacked (m : Vmm) (v n : ℕ) (z : PageReq) (k : ℕ) : Type 0 where
  pub mapped :
      (j : ℕ)
      → j < n
      → (flags : ℕ) × (mapping m (v + j * 0x1000) ≡ some (page_address m.pmm z (k + j), flags))
  pub unused : (j : ℕ) → j < n → page_count (allocator m.pmm z) (k + j) ≡ 0
  pub inside : k + n ≤ (allocator m.pmm z).size / 2 ^ 12

something : {x : ℕ × ℕ} → some x ≡ none → ⊥
something e = cc

module _ (m : Vmm) (v n : ℕ) (z : PageReq) (k : ℕ) (tree : IsTree m) (free : m.lock.val ≡ 0)
    (ready : IsReady m.pmm) (high : 2 ^ 22 ≤ v) (fits : v + suc n * 0x1000 ≤ 1023 * 2 ^ 22)
    (backed : IsBacked m v (suc n) z k) where
  here : v + 0 * 0x1000 ≡ v
  here = omega arith

  first : k + 0 ≡ k
  first = omega arith

  -- The first page is free.
  page : FreesPage m.pmm z k (Pmm.free_page m.pmm (page_address m.pmm z k))
  page =
      free_page-FreesPage m.pmm z k ready (omega (arith, backed.inside))
        (rw first at (backed.unused 0 (omega arith)))

  abbrev m1 : Vmm
  m1 = record m { pmm = after m.pmm z page.out }

  abbrev flags : ℕ
  flags = (backed.mapped 0 (omega arith)).0

  at_v : mapping m v ≡ some (page_address m.pmm z k, flags)
  at_v = rw (here, first) at (backed.mapped 0 (omega arith)).1

  not_none : mapping m1 v ≢ none
  not_none e = something (sym at_v ∙ e)

  -- And it is not mapped.
  unmapped : Maps m1 v none (unmap_one_page m1 v)
  unmapped =
      (unmap_one_page-Maps m1 (IsTree-same m m1 refl (λ i l. refl) tree) free v
          (omega (arith, fits))).0
        not_none

  same_pmm : unmapped.out.pmm ≡ after m.pmm z page.out
  same_pmm = unmapped.same_pmm (table_of m1 v not_none)

  zone_now : allocator unmapped.out.pmm z ≡ page.out
  zone_now = ap (λ q. allocator q z) same_pmm ∙ allocator-after m.pmm z page.out

  unmapped-IsReady : IsReady unmapped.out.pmm
  unmapped-IsReady =
      rw same_pmm (after-IsReady m.pmm z page.out ready page.valid page.same_start page.same_size)

  same_start : (allocator unmapped.out.pmm z).start ≡ (allocator m.pmm z).start
  same_start = ap (λ bd. bd.start) zone_now ∙ page.same_start

  same_size : (allocator unmapped.out.pmm z).size ≡ (allocator m.pmm z).size
  same_size = ap (λ bd. bd.size) zone_now ∙ page.same_size

  counts :
      (p : ℕ)
      → page_count (allocator unmapped.out.pmm z) p
        ≡ page_count (allocator m.pmm z) p + (if p == k then 1 else 0)
  counts p = ap (λ bd. page_count bd p) zone_now ∙ page.pages p

  next_page : (j : ℕ) → v + 0x1000 + j * 0x1000 ≡ v + suc j * 0x1000
  next_page j = omega arith

  next_index : (j : ℕ) → k + 1 + j ≡ k + suc j
  next_index j = omega arith

  rest-IsBacked : IsBacked unmapped.out (v + 0x1000) n z (k + 1)
  rest-IsBacked = record {
    mapped = λ j lt.
        (let other : (v + 0x1000 + j * 0x1000) / 2 ^ 12 == v / 2 ^ 12 ≡ false = ground arith in
          let (flags', at_j) = backed.mapped (suc j) (omega arith) in
          let kept : mapping unmapped.out (v + 0x1000 + j * 0x1000)
              ≡ mapping m (v + 0x1000 + j * 0x1000) =
            rw other at (
              unmapped.mappings high (v + 0x1000 + j * 0x1000) (omega (arith, fits, lt))
                (omega (arith, high)) (omega (arith, fits, lt))) in
          (flags', kept ∙ rw (next_page j, same_start, next_index j) at_j));
    unused = λ j lt.
        (let other : k + suc j == k ≡ false = ground arith in
          rw next_index
            (counts (k + suc j) ∙ rw other (omega (arith, backed.unused (suc j) (omega arith)))));
    inside = omega (arith, same_size, backed.inside);
  }

  one_page : free_phys_pages (suc n) m v ≡ free_phys_pages n unmapped.out (v + 0x1000)
  unfolding free_phys_pages
  one_page =
      let word : u32 (v + 0x1000) ≡ v + 0x1000 = omega (arith, fits) in
      rw
        (
          get_mapping-mapping m v tree.recursive (omega (arith, fits)),
          at_v,
          page.returns,
          unmapped.returns,
          word,
        )
        refl

  rest-FreesPages :
      FreesPages unmapped.out (v + 0x1000) n z (k + 1) (free_phys_pages n unmapped.out (v + 0x1000))
      → FreesPages m v (suc n) z k (free_phys_pages (suc n) m v)
  rest-FreesPages b = record {
    out = b.out;
    returns = one_page ∙ b.returns;
    tree = b.tree;
    mappings = λ u lt from low.
        (let after = b.mappings u lt from low in
          let before = unmapped.mappings high u lt from low in
          elim (Bool-cases (in_pages (v + 0x1000) n u)) [
            | inl later ↦
                let now : in_pages v (suc n) u ≡ true = ground arith in rw now (rw later at after)
            | inr not_later ↦ elim (Bool-cases (u / 2 ^ 12 == v / 2 ^ 12)) [
              | inl this ↦
                  let now : in_pages v (suc n) u ≡ true = ground arith in
                  rw now ((rw not_later at after) ∙ (rw this at before))
              | inr other ↦
                  let not_now : in_pages v (suc n) u ≡ false = ground arith in
                  rw not_now ((rw not_later at after) ∙ (rw other at before))
            ]
          ]);
    tables = λ u p. b.tables u (unmapped.tables u p);
    unlocked = b.unlocked;
    enabled = b.enabled ∙ ap (λ q. q.enabled) same_pmm;
    ready = b.ready;
    pages = λ p. b.pages p ∙ ground (arith, counts p);
    others = λ z' other.
        b.others z' other
        ∙ ap (λ q. allocator q z') same_pmm
        ∙ allocator-after_other m.pmm z z' page.out other;
  }

-- With the lock free and the allocators up, for `n` pages from `v` on that lie between 4 MB and the window
-- of the directory and have physical pages in order behind them: the loop frees those and takes the mappings
-- away, and changes nothing else.
pub free_phys_pages-FreesPages :
    (n : ℕ) (m : Vmm) (v : ℕ) (z : PageReq) (k : ℕ)
    → IsTree m
    → m.lock.val ≡ 0
    → IsReady m.pmm
    → 2 ^ 22 ≤ v
    → v + n * 0x1000 ≤ 1023 * 2 ^ 22
    → IsBacked m v n z k
    → FreesPages m v n z k (free_phys_pages n m v)
unfolding free_phys_pages
free_phys_pages-FreesPages zero m v z k tree free ready high fits backed = record {
  out = m;
  returns = refl;
  tree = tree;
  mappings =
      λ u lt from low. (let nothing : in_pages v 0 u ≡ false = ground arith in rw nothing refl);
  tables = λ u p. p;
  unlocked = free;
  enabled = refl;
  ready = ready;
  pages = λ p. ground arith;
  others = λ z' other. refl;
}
free_phys_pages-FreesPages (suc n) m v z k tree free ready high fits backed =
    rest-FreesPages m v n z k tree free ready high fits backed (
      free_phys_pages-FreesPages n (unmapped m v n z k tree free ready high fits backed).out
        (v + 0x1000) z (k + 1) (unmapped m v n z k tree free ready high fits backed).tree
        (unmapped m v n z k tree free ready high fits backed).unlocked
        (unmapped-IsReady m v n z k tree free ready high fits backed) (omega (arith, high))
        (omega (arith, fits)) (rest-IsBacked m v n z k tree free ready high fits backed))
