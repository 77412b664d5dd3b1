-- ===== src/Vmspace/Free.antt =====
-- vmspace_free() of a block with the physical pages behind it.
use mink.Prelude.{
  ℕ, ◌+◌, ◌*◌, ◌/◌, ◌^◌, ◌<◌, ◌≤◌, ◌≡◌, ◌≢◌, ◌∙◌, ap, inl, inr, refl, arith, true, false,
  if◌then◌else◌, none, Outcome, ok, Bool-cases,
}
use mink.Prelude.Powers.{two-pow-add}
use mink.Utils.Log2.{log2_roundup-two-pow}
use mink.Buddy
use mink.Buddy.{Buddy, u64}
use mink.Buddy.Valid.{IsUnused, page_count, block_end}
use mink.Buddy.View.{blocks}
use mink.Buddy.Pages.{in_block}
use mink.Buddy.FreeRange.{in_range, in_block-in_range}
use mink.Buddy.Free.{GivesBack, free-GivesBack}
use mink.Pmm.{PageReq, allocator}
use mink.Vmm.{Vmm}
use mink.Vmm.Tables.{IsTree-same}
use mink.Vmm.Mappings.{mapping}
use mink.Vmm.Pages.{in_pages}
use mink.Vmspace.{Vmspace, State, vmspace_free, free_phys_pages}
use mink.Vmspace.Space.{
  IsSpace, with_enabled, freed, take_lock_lem, drop_lock_lem, enabled-IsReady, allocator-enabled,
}
use mink.Vmspace.Alloc.{address}
use mink.Vmspace.FreePages.{FreesPages, IsBacked, free_phys_pages-FreesPages}

-- `r` is a normal return with block `x` of order `o` of the vmspace and the pages of zone `z` from `k`
-- on given back, the mappings of the block taken away and no other from 4 MB to the directory's window,
-- and the invariant.
pub record GivesSpace (vms : Vmspace) (m : Vmm) (o x : ℕ) (z : PageReq) (k : ℕ) (r : Outcome State)
    : Type 0 where
  pub vms' : Vmspace
  pub m' : Vmm
  pub returns : r ≡ ok (vms', m')
  pub block :
      GivesBack vms.allocator o x (Buddy.free vms.allocator (address vms o x) (2 ^ (o + 12)))
  pub gives : vms'.allocator ≡ block.out
  pub maps :
      (u : ℕ)
      → u < 2 ^ 32
      → 2 ^ 22 ≤ u
      → u / 2 ^ 22 < 1023
      → mapping m' u ≡ (if in_pages (address vms o x) (2 ^ o) u then none else mapping m u)
  pub phys_pages :
      (p : ℕ)
      → page_count (allocator m'.pmm z) p ≡ page_count (allocator m.pmm z) p + in_range k (2 ^ o) p
  pub phys_others : (z' : PageReq) → z' ≢ z → allocator m'.pmm z' ≡ allocator m.pmm z'
  pub enabled : m'.pmm.enabled ≡ m.pmm.enabled
  pub inv : IsSpace vms' m'

module _ (vms : Vmspace) (m : Vmm) (space : IsSpace vms m) (o x : ℕ) (lt : o < 17)
    (inside : x < blocks vms.allocator o) (unused : IsUnused vms.allocator o x) (z : PageReq)
    (k : ℕ) (backed : IsBacked m (address vms o x) (2 ^ o) z k) where
  abbrev m1 : Vmm
  m1 = with_enabled m false

  ends : address vms o x + 2 ^ (o + 12) ≤ vms.allocator.start + vms.allocator.size
  ends = omega (arith, block_end vms.allocator o x inside)

  size : 2 ^ (o + 12) ≡ 2 ^ o * 4096
  size = two-pow-add o 12

  locked-IsBacked : IsBacked m1 (address vms o x) (2 ^ o) z k
  locked-IsBacked = record {
    mapped = λ j l. rw (allocator-enabled m.pmm false z) (backed.mapped j l);
    unused = λ j l. rw (allocator-enabled m.pmm false z) (backed.unused j l);
    inside = rw (allocator-enabled m.pmm false z) backed.inside;
  }

  pages : FreesPages m1 (address vms o x) (2 ^ o) z k (free_phys_pages (2 ^ o) m1 (address vms o x))
  pages =
      free_phys_pages-FreesPages (2 ^ o) m1 (address vms o x) z k
        (IsTree-same m m1 refl (λ i l. refl) space.tree) space.vmm_unlocked
        (enabled-IsReady m.pmm false space.ready) (omega (arith, space.from_4mb))
        (omega (arith, ends, size, space.in_range)) locked-IsBacked

  given : GivesBack vms.allocator o x (Buddy.free vms.allocator (address vms o x) (2 ^ (o + 12)))
  given =
      let addr : u64 (address vms o x) ≡ address vms o x = omega (arith, ends, space.in_range) in
      rw addr at (
        free-GivesBack vms.allocator (2 ^ (o + 12)) o x space.valid
          (log2_roundup-two-pow (o + 12) (omega arith)) lt inside unused
          (omega (arith, space.in_range)))

  abbrev out : Vmm
  out = with_enabled pages.out m.pmm.enabled

  abbrev vms2 : Vmspace
  vms2 = record vms { allocator = given.out }

  unmapped :
      (q : ℕ)
      → q < given.out.size / 2 ^ 12
      → page_count given.out q ≡ 1
      → mapping out (given.out.start + q * 0x1000) ≡ none
  unmapped q low is_free =
      let u = vms.allocator.start + q * 0x1000 in
      let low' : q < vms.allocator.size / 2 ^ 12 = rw given.same_size at low in
      let after =
        pages.mappings u (omega (arith, low', space.in_range)) (omega (arith, space.from_4mb))
          (omega (arith, low', space.in_range)) in
      rw given.same_start (elim (Bool-cases (in_pages (address vms o x) (2 ^ o) u)) [
        | inl now ↦ rw now at after
        | inr other ↦
            let outside : in_block o x q ≡ 0 = in_block-in_range o x q ∙ not_in_range q other in
            (rw other at after)
            ∙ space.unmapped q low' (omega (arith, given.pages q, outside, is_free))
      ])
    where
      not_in_range :
          (q : ℕ)
          → in_pages (address vms o x) (2 ^ o) (vms.allocator.start + q * 0x1000) ≡ false
          → in_range (x * 2 ^ o) (2 ^ o) q ≡ 0
      not_in_range q other =
          let bytes : x * 2 ^ (o + 12) ≡ x * 2 ^ o * 4096 = rw (two-pow-add o 12) (omega arith) in
          ground (arith, rw bytes at other)

  out-IsSpace : IsSpace (freed vms2 m) out
  out-IsSpace = record {
    unlocked = refl;
    valid = given.valid;
    from_4mb = rw given.same_start space.from_4mb;
    in_range = rw (given.same_start, given.same_size) space.in_range;
    tree = IsTree-same pages.out out refl (λ i l. refl) pages.tree;
    vmm_unlocked = pages.unlocked;
    ready = enabled-IsReady pages.out.pmm m.pmm.enabled pages.ready;
    tables =
        rw (given.same_start, given.same_size)
          (λ u low high. pages.tables u (space.tables u low high));
    unmapped = unmapped;
  }

  -- With the invariant, for a block in use of the vmspace, of at most 256 MB, that has pages in use of
  -- one zone behind it in order: vmspace_free() ends normally, gives the block and the pages back, takes
  -- the mappings of the block away and no other from 4 MB to the window, and keeps the invariant.
  pub vmspace_free-GivesSpace :
      GivesSpace vms m o x z k (vmspace_free (vms, m) (2 ^ (o + 12)) (address vms o x) true)
  unfolding vmspace_free
  vmspace_free-GivesSpace =
      let number : (2 ^ (o + 12) + 4095) / 2 ^ 12 ≡ 2 ^ o = omega (arith, size) in
      record {
        vms' = freed vms2 m;
        m' = out;
        returns =
            rw
              (
                take_lock_lem vms m space.unlocked,
                number,
                pages.returns,
                given.returns,
                drop_lock_lem vms2 m pages.out pages.enabled,
              )
              refl;
        block = given;
        gives = refl;
        maps = pages.mappings;
        phys_pages = λ p.
            ap (λ bd. page_count bd p) (allocator-enabled pages.out.pmm m.pmm.enabled z)
            ∙ pages.pages p
            ∙ ap (λ bd. page_count bd p + in_range k (2 ^ o) p) (allocator-enabled m.pmm false z);
        phys_others = λ z' other.
            allocator-enabled pages.out.pmm m.pmm.enabled z'
            ∙ pages.others z' other
            ∙ allocator-enabled m.pmm false z';
        enabled = refl;
        inv = out-IsSpace;
      }
