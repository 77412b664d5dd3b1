-- ===== src/Pmm/FreePage.antt =====
-- free_page() of one page of a zone, whichever call it came from.
use mink.Prelude.{
  ℕ, ◌+◌, ◌*◌, ◌/◌, ◌^◌, ◌<◌, ◌≡◌, ◌≢◌, ◌⊎◌, inl, inr, ◌∙◌, refl, arith, ◌==◌, if◌then◌else◌,
  Outcome, ok,
}
use mink.Utils.Log2.{log2_roundup-two-pow}
use mink.Buddy
use mink.Buddy.{Buddy, u32, u64}
use mink.Buddy.Valid.{IsValid, page_count}
use mink.Buddy.View.{blocks}
use mink.Buddy.Pages.{in_block}
use mink.Buddy.Free.{free-GivesBack}
use mink.Pmm.{
  Pmm, PageReq, anywhere, under_1mb, under_4gb, allocator, free_pages, free_page, zone_of,
}
use mink.Pmm.Zones.{IsReady, after, take_lock_lem, drop_lock_lem, region_end, zone_of-address}

-- The address of page `k` of a zone.
abbrev pub page_address : Pmm → PageReq → ℕ → ℕ
page_address pmm z k = (allocator pmm z).start + k * 0x1000

-- `r` is a normal return with page `k` of zone `z` free as well, the other zones as they were, and the
-- lock free.
pub record FreesPage (pmm : Pmm) (z : PageReq) (k : ℕ) (r : Outcome Pmm) : Type 0 where
  pub out : Buddy
  pub returns : r ≡ ok (after pmm z out)
  pub valid : IsValid out
  pub same_start : out.start ≡ (allocator pmm z).start
  pub same_size : out.size ≡ (allocator pmm z).size
  pub pages :
      (p : ℕ) → page_count out p ≡ page_count (allocator pmm z) p + (if p == k then 1 else 0)

free_pages_zone :
    (pmm : Pmm) (z : PageReq) (addr num : ℕ) (bd' : Buddy)
    → pmm.lock.val ≡ 0
    → zone_of addr ≡ z
    → Buddy.free (allocator pmm z) addr (u32 (num * 4096)) ≡ ok bd'
    → free_pages pmm addr num ≡ ok (after pmm z bd')
unfolding free_pages
free_pages_zone pmm anywhere addr num bd' free e f =
    rw (take_lock_lem pmm free, e, f, drop_lock_lem pmm anywhere bd') refl
free_pages_zone pmm under_1mb addr num bd' free e f =
    rw (take_lock_lem pmm free, e, f, drop_lock_lem pmm under_1mb bd') refl
free_pages_zone pmm under_4gb addr num bd' free e f =
    rw (take_lock_lem pmm free, e, f, drop_lock_lem pmm under_4gb bd') refl

pub free_page-FreesPage :
    (pmm : Pmm) (z : PageReq) (k : ℕ)
    → IsReady pmm
    → k < (allocator pmm z).size / 2 ^ 12
    → page_count (allocator pmm z) k ≡ 0
    → FreesPage pmm z k (free_page pmm (page_address pmm z k))
unfolding free_page
free_page-FreesPage pmm z k ready inside unused =
    let bd = allocator pmm z in
    let block : k < blocks bd 0 = omega (arith, inside) in
    let g =
      free-GivesBack bd 4096 0 k (ready.valid z) (log2_roundup-two-pow 12 (omega arith))
        (omega arith) block (λ p at_k. one_page bd p at_k unused)
        (omega (arith, region_end pmm ready z)) in
    let addr : u64 (bd.start + k * 2 ^ (0 + 12)) ≡ page_address pmm z k =
      omega (arith, region_end pmm ready z, inside) in
    record {
      out = g.out;
      returns =
          free_pages_zone pmm z (page_address pmm z k) 1 g.out ready.unlocked
            (rw addr at (zone_of-address pmm ready z 0 k block)) (rw addr at g.returns);
      valid = g.valid;
      same_start = g.same_start;
      same_size = g.same_size;
      pages = λ p. g.pages p ∙ one_count bd p;
    }
  where
    one_page : (bd : Buddy) (p : ℕ) → p / 2 ^ 0 ≡ k → page_count bd k ≡ 0 → page_count bd p ≡ 0
    one_page bd p e z = (let same : p ≡ k = omega (arith, e) in rw same z)

    one_count :
        (bd : Buddy) (p : ℕ)
        → page_count bd p + in_block 0 k p ≡ page_count bd p + (if p == k then 1 else 0)
    one_count bd p = (let same : p / 2 ^ 0 ≡ p = omega arith in rw same refl)

-- The allocators once one has been replaced.
pub allocator-after : (pmm : Pmm) (z : PageReq) (bd : Buddy) → allocator (after pmm z bd) z ≡ bd
allocator-after pmm anywhere bd = refl
allocator-after pmm under_1mb bd = refl
allocator-after pmm under_4gb bd = refl

pub allocator-after_other :
    (pmm : Pmm) (z z' : PageReq) (bd : Buddy)
    → z' ≢ z
    → allocator (after pmm z bd) z' ≡ allocator pmm z'
allocator-after_other pmm anywhere anywhere bd other = absurd (other refl)
allocator-after_other pmm anywhere under_1mb bd other = refl
allocator-after_other pmm anywhere under_4gb bd other = refl
allocator-after_other pmm under_1mb anywhere bd other = refl
allocator-after_other pmm under_1mb under_1mb bd other = absurd (other refl)
allocator-after_other pmm under_1mb under_4gb bd other = refl
allocator-after_other pmm under_4gb anywhere bd other = refl
allocator-after_other pmm under_4gb under_1mb bd other = refl
allocator-after_other pmm under_4gb under_4gb bd other = absurd (other refl)

pub PageReq-cases : (z z' : PageReq) → (z' ≡ z) ⊎ (z' ≢ z)
PageReq-cases anywhere anywhere = inl refl
PageReq-cases anywhere under_1mb = inr (λ e. cc)
PageReq-cases anywhere under_4gb = inr (λ e. cc)
PageReq-cases under_1mb anywhere = inr (λ e. cc)
PageReq-cases under_1mb under_1mb = inl refl
PageReq-cases under_1mb under_4gb = inr (λ e. cc)
PageReq-cases under_4gb anywhere = inr (λ e. cc)
PageReq-cases under_4gb under_1mb = inr (λ e. cc)
PageReq-cases under_4gb under_4gb = inl refl
