-- ===== src/Vmspace/Alloc.antt =====
-- vmspace_alloc() with physical pages behind the addresses.
use mink.Prelude.{
  ℕ, ◌+◌, ◌-◌, ◌*◌, ◌/◌, ◌^◌, ◌<◌, ◌≤◌, ◌≡◌, ◌≢◌, ◌⊎◌, ◌∙◌, sym, ap, inl, inr, refl, arith, true,
  false, ◌==◌, if◌then◌else◌, none, Outcome, ok, panicked,
}
use mink.Prelude.Powers.{two-pow_pos, two-pow-add}
use mink.Utils.{log2_roundup}
use mink.Buddy
use mink.Buddy.{Buddy, u32, u64, no_memory}
use mink.Buddy.Valid.{page_count, block_end}
use mink.Buddy.View.{blocks}
use mink.Buddy.Pages.{in_block}
use mink.Buddy.FreeRange.{in_range, in_block-in_range}
use mink.Buddy.Alloc.{NoneFrom, TakesBlock, alloc-TakesBlock}
use mink.Pmm.{PageReq, anywhere, under_1mb, under_4gb, allocator}
use mink.Pmm.Pages.{NoneLeft}
use mink.Pmm.FreePage.{allocator-after, allocator-after_other}
use mink.Vmm.{Vmm, is_present}
use mink.Vmm.Tables.{pde, IsTree-same}
use mink.Vmm.Mappings.{mapping}
use mink.Vmm.Pages.{in_pages, page_of_run}
use mink.Vmspace.{Vmspace, State, vmspace_alloc}
use mink.Vmspace.Backing.{block_room, block_start, Backs, back_with_pages_lem}
use mink.Vmspace.Space.{
  IsSpace, with_enabled, freed, take_lock_lem, drop_lock_lem, enabled-IsReady, after-IsReady,
  allocator-enabled,
}

-- The first address of block `x` of order `o`.
abbrev pub address : Vmspace → ℕ → ℕ → ℕ
address vms o x = vms.allocator.start + x * 2 ^ (o + 12)

-- `r` returns the first address of block `x` of order `o` of the vmspace, with that block taken, and
-- the pages behind the `n` addresses from there on whose numbers are those of block `y` of zone `z`
-- modulo 2^32; no other mapping from 4 MB to the directory's window changes, and the invariant holds.
pub record TakesSpace (vms : Vmspace) (m : Vmm) (n o flags x : ℕ) (z : PageReq) (y : ℕ)
    (r : Outcome (ℕ × State)) : Type 0 where
  pub vms' : Vmspace
  pub m' : Vmm
  pub returns : r ≡ ok (address vms o x, (vms', m'))
  pub block : TakesBlock vms.allocator o x (Buddy.alloc vms.allocator (n * 4096))
  pub takes : vms'.allocator ≡ block.out
  pub maps :
      (u : ℕ)
      → u < 2 ^ 32
      → 2 ^ 22 ≤ u
      → u / 2 ^ 22 < 1023
      → mapping m' u ≡ (
          if in_pages (address vms o x) n u
          then page_of_run (address vms o x) (u32 (block_start m.pmm z o y)) flags u
          else mapping m u)
  pub served : (z ≡ anywhere) ⊎ (z ≡ under_4gb)
  pub phys_inside : y < blocks (allocator m.pmm z) o
  pub phys_pages :
      (p : ℕ)
      → page_count (allocator m'.pmm z) p + in_block o y p ≡ page_count (allocator m.pmm z) p
  pub phys_start : (allocator m'.pmm z).start ≡ (allocator m.pmm z).start
  pub phys_size : (allocator m'.pmm z).size ≡ (allocator m.pmm z).size
  pub phys_others : (z' : PageReq) → z' ≢ z → allocator m'.pmm z' ≡ allocator m.pmm z'
  pub enabled : m'.pmm.enabled ≡ m.pmm.enabled
  pub inv : IsSpace vms' m'

-- A normal return of ~0 and no block of order `o` free, with the vmspace as it was but for the unused
-- flag of its lock, and the memory as it was.
abbrev pub Full : Vmspace → Vmm → ℕ → Outcome (ℕ × State) → Type 0
Full vms m o r = (r ≡ ok (2 ^ 32 - 1, (freed vms m, m))) × NoneFrom vms.allocator o

module _ (vms : Vmspace) (m : Vmm) (space : IsSpace vms m) (n o flags : ℕ) (known : flags < 16)
    (wanted : flags ≢ 0) (some_pages : 0 < n) (few : n * 4096 < 2 ^ 32)
    (e : log2_roundup (n * 4096) ≡ ok (o + 12)) (lt : o < 17) where
  abbrev m1 : Vmm
  m1 = with_enabled m false

  word : u32 (n * 4096) ≡ n * 4096
  word = omega (arith, few)

  module _ (x : ℕ) (t : TakesBlock vms.allocator o x (Buddy.alloc vms.allocator (n * 4096))) where
    -- The block lies in the region.
    ends : address vms o x + 2 ^ (o + 12) ≤ vms.allocator.start + vms.allocator.size
    ends = omega (arith, block_end vms.allocator o x t.inside)

    -- Page `j` of the block.
    in_block_lem : (j : ℕ) → j < 2 ^ o → in_block o x (x * 2 ^ o + j) ≡ 1
    in_block_lem j small = in_block-in_range o x (x * 2 ^ o + j) ∙ ground (arith, small)

    bytes : x * 2 ^ (o + 12) ≡ x * 2 ^ o * 4096
    bytes = rw (two-pow-add o 12) (omega arith)

    room : n ≤ 2 ^ o
    room = omega (arith, block_room n o some_pages few e, two-pow-add o 12)

    page_address :
        (j : ℕ) → address vms o x + j * 0x1000 ≡ vms.allocator.start + (x * 2 ^ o + j) * 0x1000
    page_address j = omega (arith, bytes)

    there : (j : ℕ) → j < n → is_present (pde m (address vms o x + j * 0x1000)) ≡ true
    there j small =
        space.tables _ (omega arith) (omega (arith, ends, block_room n o some_pages few e, small))

    empty : (j : ℕ) → j < n → mapping m (address vms o x + j * 0x1000) ≡ none
    empty j small = rw (page_address j) (
        space.unmapped (x * 2 ^ o + j)
          (omega
            (arith, block_end vms.allocator o x t.inside, bytes, room, small, two-pow-add o 12))
          (omega (
            arith,
            t.pages (x * 2 ^ o + j),
            in_block_lem j (omega (arith, room, small)),
            space.valid.exclusive (x * 2 ^ o + j),
          )))

    not_in_pages :
        (q : ℕ)
        → in_range (x * 2 ^ o) (2 ^ o) q ≡ 0
        → in_pages (address vms o x) n (vms.allocator.start + q * 0x1000) ≡ false
    not_in_pages q outside = rw bytes (ground (arith, outside, room))

    abbrev vms2 : Vmspace
    vms2 = record vms { allocator = t.out }

    module _ (z : PageReq) (y : ℕ) {r : Outcome Vmm}
        (b : Backs m1 (address vms o x) n o flags z y r) where
      abbrev out : Vmm
      out = with_enabled b.maps.out m.pmm.enabled

      out-maps :
          (u : ℕ)
          → u < 2 ^ 32
          → 2 ^ 22 ≤ u
          → u / 2 ^ 22 < 1023
          → mapping out u ≡ (
              if in_pages (address vms o x) n u
              then page_of_run (address vms o x) (u32 (block_start m.pmm z o y)) flags u
              else mapping m u)
      out-maps u word from low =
          b.maps.mappings u word from low
          ∙ ap
              (λ p.
                if in_pages (address vms o x) n u
                then page_of_run (address vms o x) p flags u
                else mapping m u)
              (same_block z)
        where
          same_block :
              (z : PageReq) → u32 (block_start m1.pmm z o y) ≡ u32 (block_start m.pmm z o y)
          same_block anywhere = refl
          same_block under_1mb = refl
          same_block under_4gb = refl

      zone_now : allocator out.pmm z ≡ b.pages.block.out
      zone_now =
          allocator-enabled b.maps.out.pmm m.pmm.enabled z
          ∙ ap (λ q. allocator q z) b.maps.same_pmm
          ∙ allocator-after m1.pmm z b.pages.block.out

      zone_before : allocator m1.pmm z ≡ allocator m.pmm z
      zone_before = allocator-enabled m.pmm false z

      zone_other : (z' : PageReq) → z' ≢ z → allocator out.pmm z' ≡ allocator m.pmm z'
      zone_other z' other =
          allocator-enabled b.maps.out.pmm m.pmm.enabled z'
          ∙ ap (λ q. allocator q z') b.maps.same_pmm
          ∙ allocator-after_other m1.pmm z z' b.pages.block.out other
          ∙ allocator-enabled m.pmm false z'

      zone_pages :
          (p : ℕ)
          → page_count (allocator out.pmm z) p + in_block o y p ≡ page_count (allocator m.pmm z) p
      zone_pages p =
          ap (λ bd. page_count bd p + in_block o y p) zone_now
          ∙ b.pages.block.pages p
          ∙ ap (λ bd. page_count bd p) zone_before

      -- A page that stays free is not one of the block.
      still_unmapped :
          (q : ℕ)
          → q < t.out.size / 2 ^ 12
          → page_count t.out q ≡ 1
          → mapping out (t.out.start + q * 0x1000) ≡ none
      still_unmapped q inside is_free =
          let u = vms.allocator.start + q * 0x1000 in
          let inside' : q < vms.allocator.size / 2 ^ 12 = rw t.same_size at inside in
          let low = space.in_range in
          let outside : in_block o x q ≡ 0 =
            omega (arith, t.pages q, is_free, space.valid.exclusive q) in
          let away : in_pages (address vms o x) n u ≡ false =
            not_in_pages q (sym (in_block-in_range o x q) ∙ outside) in
          rw t.same_start (
            out-maps u (omega (arith, inside', low)) (omega (arith, space.from_4mb))
              (omega (arith, inside', low))
            ∙ rw away (space.unmapped q inside' (omega (arith, t.pages q, is_free, outside))))

      out-IsSpace : IsSpace (freed vms2 m) out
      out-IsSpace = record {
        unlocked = refl;
        valid = t.valid;
        from_4mb = rw t.same_start space.from_4mb;
        in_range = rw (t.same_start, t.same_size) space.in_range;
        tree = IsTree-same b.maps.out out refl (λ i small. refl) b.maps.tree;
        vmm_unlocked = b.maps.unlocked;
        ready = enabled-IsReady b.maps.out.pmm m.pmm.enabled (
            rw b.maps.same_pmm (
              after-IsReady m1.pmm z b.pages.block.out (enabled-IsReady m.pmm false space.ready)
                b.pages.block.valid b.pages.block.same_start b.pages.block.same_size));
        tables =
            rw (t.same_start, t.same_size)
              (λ u low high. b.maps.tables u (space.tables u low high));
        unmapped = still_unmapped;
      }

  -- With the invariant, for `n` pages (one at least, less than 4 GB, a block of at most 256 MB) and
  -- flags other than 0: vmspace_alloc() returns ~0 and changes nothing when the vmspace has no block
  -- of that size; else it stops the kernel when there is none of physical pages; else it takes a block
  -- of addresses and one of pages, maps the `n` pages of the one to those of the other with their
  -- addresses cut to 32 bits, which are other pages for a block above 4 GB, changes no other mapping
  -- from 4 MB to the window of the directory, and keeps the invariant.
  pub vmspace_alloc-TakesSpace :
      Full vms m o (vmspace_alloc (vms, m) (n * 4096) flags)
      ⊎ ((vmspace_alloc (vms, m) (n * 4096) flags ≡ panicked) × NoneLeft m.pmm anywhere o)
      ⊎ ((x : ℕ) × (z : PageReq) × (y : ℕ) × TakesSpace vms m n o flags x z y
            (vmspace_alloc (vms, m) (n * 4096) flags))
  unfolding vmspace_alloc
  vmspace_alloc-TakesSpace =
      let flagged : flags == 0 ≡ false = ground (arith, wanted) in
      elim (alloc-TakesBlock vms.allocator space.valid (n * 4096) o e lt) [
        | inl (failed, none_left) ↦ inl (
          rw (take_lock_lem vms m space.unlocked, failed, flagged)
              (rw (drop_lock_lem vms m m1 refl) refl),
          none_left,
        )
        | inr (x, t) ↦
            let addr : u64 (vms.allocator.start + x * 2 ^ (o + 12)) ≡ address vms o x =
              omega (arith, ends x t, space.in_range) in
            let word' : u32 (address vms o x) ≡ address vms o x =
              omega (arith, ends x t, space.in_range, two-pow_pos (o + 12)) in
            let found : address vms o x == no_memory ≡ false =
              ground (arith, ends x t, space.in_range) in
            elim (back_with_pages_lem m1 (IsTree-same m m1 refl (λ i small. refl) space.tree)
              space.vmm_unlocked (enabled-IsReady m.pmm false space.ready) (address vms o x) n o
              flags known some_pages (omega (arith, space.from_4mb))
              (omega (arith, ends x t, block_room n o some_pages few e, space.in_range)) (rw word e)
              lt (there x t) (empty x t)) [
                | inl (failed, none_left) ↦ inr (
                    inl (
                      rw
                          (
                            take_lock_lem vms m space.unlocked,
                            t.returns,
                            addr,
                            flagged,
                            found,
                            failed,
                          )
                          refl,
                      none_left,
                    ))
                | inr (z, y, b) ↦ inr (
                    inr (
                      x,
                      z,
                      y,
                      record {
                        vms' = freed (vms2 x t) m;
                        m' = out x t z y b;
                        returns =
                            rw
                              (
                                take_lock_lem vms m space.unlocked,
                                t.returns,
                                addr,
                                flagged,
                                found,
                                b.maps.returns,
                                drop_lock_lem (vms2 x t) m b.maps.out b.maps.enabled,
                                word',
                              )
                              refl;
                        block = t;
                        takes = refl;
                        maps = out-maps x t z y b;
                        served = b.served;
                        phys_inside = rw (← zone_before x t z y b) b.pages.block.inside;
                        phys_pages = zone_pages x t z y b;
                        phys_start =
                            ap (λ bd. bd.start) (zone_now x t z y b)
                            ∙ b.pages.block.same_start
                            ∙ ap (λ bd. bd.start) (zone_before x t z y b);
                        phys_size =
                            ap (λ bd. bd.size) (zone_now x t z y b)
                            ∙ b.pages.block.same_size
                            ∙ ap (λ bd. bd.size) (zone_before x t z y b);
                        phys_others = zone_other x t z y b;
                        enabled = refl;
                        inv = out-IsSpace x t z y b;
                      },
                    ))
              ]
      ]
