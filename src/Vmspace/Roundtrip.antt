-- ===== src/Vmspace/Roundtrip.antt =====
-- vmspace_free() of what vmspace_alloc() returned, with physical pages.
use mink.Prelude.{
  ℕ, ◌+◌, ◌-◌, ◌*◌, ◌/◌, ◌%◌, ◌^◌, ◌<◌, ◌≤◌, ◌≡◌, ◌≢◌, ◌∙◌, sym, ap, inl, inr, arith, true,
  if◌then◌else◌, Option, none, some, Outcome, ok, panicked, Bool-cases,
}
use mink.Prelude.Powers.{two-pow_pos, two-pow-add, two-pow_le}
use mink.Utils.{log2_roundup}
use mink.Utils.Log2.{log2_roundup-two-pow}
use mink.Buddy.{u32, u64}
use mink.Buddy.Valid.{IsUnused, page_count, block_end}
use mink.Buddy.View.{blocks}
use mink.Buddy.Pages.{in_block}
use mink.Buddy.FreeRange.{in_range, in_block-in_range}
use mink.Pmm.{PageReq, under_4gb, allocator}
use mink.Pmm.FreePage.{page_address, PageReq-cases}
use mink.Vmm.{Vmm, is_present}
use mink.Vmm.Mappings.{mapping, entry_mapping}
use mink.Vmm.Pages.{in_pages, page_of_run}
use mink.Vmm.Entries.{kept_flags}
use mink.Vmspace.{Vmspace, State, vmspace_alloc, vmspace_free}
use mink.Vmspace.Space.{IsSpace}
use mink.Vmspace.Alloc.{address, TakesSpace, vmspace_alloc-TakesSpace}
use mink.Vmspace.FreePages.{IsBacked}
use mink.Vmspace.Free.{GivesSpace, vmspace_free-GivesSpace}

-- A normal return with the invariant, the same free addresses, the same free physical pages and the
-- same mappings from 4 MB to the window of the directory as in `m`.
abbrev pub RestoresSpace : Vmspace → Vmm → Outcome State → Type 0
RestoresSpace vms m r =
    (vms' : Vmspace) × (m' : Vmm) × (r ≡ ok (vms', m'))
    × IsSpace vms' m'
    × ((q : ℕ) → page_count vms'.allocator q ≡ page_count vms.allocator q)
    × ((z : PageReq) (p : ℕ) → page_count (allocator m'.pmm z) p ≡ page_count (allocator m.pmm z) p)
    × ((u : ℕ) → u < 2 ^ 32 → 2 ^ 22 ≤ u → u / 2 ^ 22 < 1023 → mapping m' u ≡ mapping m u)

abbrev mapping_of : Vmm → ℕ → ℕ → Option (ℕ × ℕ)
mapping_of m d i =
    if is_present (m.word m.cr3 d) then entry_mapping (m.word (m.word m.cr3 d / 2 ^ 12) i) else none

-- The mapping of an address is that of its page.
mapping-page : (m : Vmm) (u w : ℕ) → u / 2 ^ 12 ≡ w / 2 ^ 12 → mapping m u ≡ mapping m w
mapping-page m u w same =
    let dir : u / 2 ^ 22 ≡ w / 2 ^ 22 = omega (arith, same) in
    let index : u / 2 ^ 12 % 1024 ≡ w / 2 ^ 12 % 1024 = omega (arith, same) in
    ap (λ d. mapping_of m d (u / 2 ^ 12 % 1024)) dir ∙ ap (mapping_of m (w / 2 ^ 22)) index

module _ (vms : Vmspace) (m : Vmm) (space : IsSpace vms m) (o flags : ℕ) (known : flags < 16)
    (wanted : flags ≢ 0) (lt : o < 17) (no_high : m.pmm.high.size ≡ 0) where
  size : 2 ^ (o + 12) ≡ 2 ^ o * 4096
  size = two-pow-add o 12

  module _ (x : ℕ) (z : PageReq) (y : ℕ) {r : Outcome (ℕ × State)}
      (t : TakesSpace vms m (2 ^ o) o flags x z y r) (middle : z ≡ under_4gb) where
    zone_start : (allocator m.pmm z).start ≡ 0x100000
    zone_start = rw middle space.ready.middle_start

    zone_end : 0x100000 + (allocator m.pmm z).size ≤ 2 ^ 32
    zone_end = rw middle space.ready.middle_end

    same_address : address t.vms' o x ≡ address vms o x
    same_address =
        ap (λ bd. bd.start + x * 2 ^ (o + 12)) t.takes
        ∙ ap (λ s. s + x * 2 ^ (o + 12)) t.block.same_start

    inside : x < blocks t.vms'.allocator o
    inside = rw (t.takes, t.block.same_size) t.block.inside

    unused : IsUnused t.vms'.allocator o x
    unused p at_x = rw t.takes (ground (arith, t.block.pages p, space.valid.exclusive p, at_x))

    bytes : (a : ℕ) → a * 2 ^ (o + 12) ≡ a * 2 ^ o * 4096
    bytes a = rw size (omega arith)

    block_low : 0x100000 + y * 2 ^ o * 4096 + 2 ^ o * 4096 ≤ 2 ^ 32
    block_low =
        omega (arith, block_end (allocator m.pmm z) o y t.phys_inside, bytes y, size, zone_end)

    first_page :
        u32 (u64 ((allocator m.pmm z).start + y * 2 ^ (o + 12))) ≡ 0x100000 + y * 2 ^ o * 4096
    first_page = omega (arith, block_low, bytes y, zone_start, two-pow_pos o)

    in_virtual : address vms o x + 2 ^ o * 4096 ≤ 1023 * 2 ^ 22
    in_virtual = omega (arith, block_end vms.allocator o x t.block.inside, size, space.in_range)

    abbrev physical : ℕ → Option (ℕ × ℕ)
    physical p = some (p, kept_flags flags)

    run_page :
        (j : ℕ)
        → j < 2 ^ o
        → page_of_run
            (address vms o x)
            (u32 (u64 ((allocator m.pmm z).start + y * 2 ^ (o + 12))))
            flags
            (address vms o x + j * 0x1000)
          ≡ some (page_address t.m'.pmm z (y * 2 ^ o + j), kept_flags flags)
    run_page j small = ap physical (omega (arith, first_page, t.phys_start, zone_start))

    backed : IsBacked t.m' (address t.vms' o x) (2 ^ o) z (y * 2 ^ o)
    backed = record {
      mapped = λ j small.
          (let u = address vms o x + j * 0x1000 in
            let now : in_pages (address vms o x) (2 ^ o) u ≡ true = ground (arith, small) in
            let at_u =
              t.maps u (omega (arith, in_virtual, small)) (omega (arith, space.from_4mb))
                (omega (arith, in_virtual, small)) in
            (kept_flags flags, rw same_address ((rw now at at_u) ∙ run_page j small)));
      unused = λ j small.
          (let one : in_block o y (y * 2 ^ o + j) ≡ 1 =
              in_block-in_range o y (y * 2 ^ o + j) ∙ ground (arith, small) in
            omega (
              arith,
              t.phys_pages (y * 2 ^ o + j),
              one,
              (space.ready.valid z).exclusive (y * 2 ^ o + j),
            ));
      inside =
          omega
            (arith, block_end (allocator m.pmm z) o y t.phys_inside, bytes y, size, t.phys_size);
    }

    given :
        GivesSpace t.vms' t.m' o x z
          (y * 2 ^ o)
          (vmspace_free (t.vms', t.m') (2 ^ (o + 12)) (address t.vms' o x) true)
    given = vmspace_free-GivesSpace t.vms' t.m' t.inv o x lt inside unused z (y * 2 ^ o) backed

    zones :
        (z' : PageReq) (p : ℕ)
        → page_count (allocator given.m'.pmm z') p ≡ page_count (allocator m.pmm z') p
    zones z' p = elim (PageReq-cases z z') [
      | inl this ↦ rw this (
          given.phys_pages p
          ∙ ap (λ c. page_count (allocator t.m'.pmm z) p + c) (sym (in_block-in_range o y p))
          ∙ t.phys_pages p)
      | inr other ↦ ap (λ bd. page_count bd p) (given.phys_others z' other ∙ t.phys_others z' other)
    ]

    -- The addresses of the block were not mapped before.
    was_unmapped : (u : ℕ) → in_pages (address vms o x) (2 ^ o) u ≡ true → mapping m u ≡ none
    was_unmapped u now =
        let q = u / 2 ^ 12 - vms.allocator.start / 2 ^ 12 in
        let range : in_range (x * 2 ^ o) (2 ^ o) q ≡ 1 = ground (arith, rw (bytes x) at now) in
        let one : in_block o x q ≡ 1 = in_block-in_range o x q ∙ range in
        mapping-page m u (vms.allocator.start + q * 0x1000) (ground (arith, rw (bytes x) at now))
        ∙ space.unmapped q
            (ground (arith, range, block_end vms.allocator o x t.block.inside, bytes x, size))
            (omega (arith, t.block.pages q, one, space.valid.exclusive q))

    mappings :
        (u : ℕ) → u < 2 ^ 32 → 2 ^ 22 ≤ u → u / 2 ^ 22 < 1023 → mapping given.m' u ≡ mapping m u
    mappings u word from low =
        let freed = rw same_address at (given.maps u word from low) in
        let taken = t.maps u word from low in
        elim (Bool-cases (in_pages (address vms o x) (2 ^ o) u)) [
          | inl now ↦ (rw now at freed) ∙ sym (was_unmapped u now)
          | inr other ↦ (rw other at freed) ∙ (rw other at taken)
        ]

    taken-RestoresSpace :
        RestoresSpace vms m (vmspace_free (t.vms', t.m') (2 ^ (o + 12)) (address vms o x) true)
    taken-RestoresSpace = (
      given.vms',
      given.m',
      rw (← same_address) given.returns,
      given.inv,
      λ q.
          ap (λ bd. page_count bd q) given.gives
          ∙ given.block.pages q
          ∙ ap (λ bd. page_count bd q + in_block o x q) t.takes
          ∙ t.block.pages q,
      zones,
      mappings,
    )

  -- With the invariant and no memory above 4 GB, for a block of at most 256 MB and flags other than 0:
  -- vmspace_free() of an address that vmspace_alloc() returned, other than ~0, ends normally, keeps the
  -- invariant, and restores the free addresses, the free physical pages and every mapping from 4 MB
  -- to the window of the directory.
  pub vmspace_free-vmspace_alloc :
      (addr : ℕ) (vms' : Vmspace) (m' : Vmm)
      → vmspace_alloc (vms, m) (2 ^ (o + 12)) flags ≡ ok (addr, (vms', m'))
      → addr ≢ 2 ^ 32 - 1
      → RestoresSpace vms m (vmspace_free (vms', m') (2 ^ (o + 12)) addr true)
  vmspace_free-vmspace_alloc addr vms' m' returned found =
      let few : 2 ^ (o + 12) ≤ 2 ^ 28 = two-pow_le (o + 12) 28 (omega arith) in
      let rounded : log2_roundup (2 ^ o * 4096) ≡ ok (o + 12) =
        rw (← size) (log2_roundup-two-pow (o + 12) (omega arith)) in
      let returned' = rw size at returned in
      elim (vmspace_alloc-TakesSpace vms m space (2 ^ o) o flags known wanted (two-pow_pos o)
        (omega (arith, few, size)) rounded lt) [
          | inl (failed, none_left) ↦ absurd (found (parts (sym returned' ∙ failed)).0)
          | inr (inl (failed, none_left)) ↦ absurd (not_ok (sym failed ∙ returned'))
          | inr (inr (x, z, y, t)) ↦
              let (at, space_is, memory_is) = parts (sym returned' ∙ t.returns) in
              let middle : z ≡ under_4gb = elim t.served [
                | inl high ↦ absurd (
                    omega (
                      arith,
                      block_end (allocator m.pmm z) o y t.phys_inside,
                      two-pow_pos (o + 12),
                      ap (λ z. (allocator m.pmm z).size) high,
                      no_high,
                    ))
                | inr low ↦ low
              ] in
              rw (at, space_is, memory_is) (taken-RestoresSpace x z y t middle)
        ]
    where
      not_ok : {s : ℕ × State} → panicked ≡ ok s → ⊥
      not_ok e = cc

      parts :
          {a b : ℕ} {v v' : Vmspace} {w w' : Vmm}
          → ◌≡◌ {A = Outcome (ℕ × State)} (ok (a, (v, w))) (ok (b, (v', w')))
          → (a ≡ b) × (v ≡ v') × (w ≡ w')
      parts e = (cc, cc, cc)
