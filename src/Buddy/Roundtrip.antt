-- ===== src/Buddy/Roundtrip.antt =====
-- A block that buddy_alloc() returned can be given back by buddy_free().
use mink.Prelude.{ℕ, ◌+◌, ◌*◌, ◌^◌, ◌≤◌, ◌<◌, ◌≡◌, ◌≢◌, arith, Outcome, ok, sym, ap, ◌∙◌, inl, inr}
use mink.Utils.{log2_roundup}
use mink.Buddy.{Buddy, u64, no_memory, alloc, free}
use mink.Buddy.Valid.{IsValid, IsUnused, page_count}
use mink.Buddy.Alloc.{TakesBlock, alloc-TakesBlock}
use mink.Buddy.Free.{free-GivesBack}

-- Giving a block back, with the size that it was asked for, restores the free pages.
abbrev pub Restores : Buddy → Outcome Buddy → Type 0
Restores bd r =
    (bd' : Buddy) × (r ≡ ok bd') × IsValid bd' × ((p : ℕ) → page_count bd' p ≡ page_count bd p)

module _ (bd : Buddy) (sz o : ℕ) (valid : IsValid bd) (e : log2_roundup sz ≡ ok (o + 12))
    (lt : o < 17) (fits : bd.start + bd.size ≤ 2 ^ 64) where
  taken-Restores :
      (x : ℕ) (t : TakesBlock bd o x (alloc bd sz))
      → Restores bd (free t.out (u64 (bd.start + x * 2 ^ (o + 12))) sz)
  taken-Restores x t =
      let unused : IsUnused t.out o x = λ p at_p. ground (arith, t.pages p, valid.exclusive p) in
      let g =
        free-GivesBack t.out sz o x t.valid e lt (rw t.same_size t.inside) unused
          (omega (arith, t.same_start, t.same_size)) in
      (
        g.out,
        ap (λ start. free t.out (u64 (start + x * 2 ^ (o + 12))) sz) (sym t.same_start) ∙ g.returns,
        g.valid,
        λ p. omega (arith, g.pages p, t.pages p),
      )

  -- On a valid allocator whose region ends at 2^64 at most, for a size that rounds up to 4 KB at least
  -- and 256 MB at most: buddy_free() of what buddy_alloc() returned, other than ~0, ends normally and
  -- valid, with the free pages that there were before the allocation.
  pub free-alloc :
      (addr : ℕ) (bd' : Buddy)
      → alloc bd sz ≡ ok (addr, bd')
      → addr ≢ no_memory
      → Restores bd (free bd' addr sz)
  free-alloc addr bd' returned found = elim (alloc-TakesBlock bd valid sz o e lt) [
    | inl (failed, none) ↦ absurd (found (ground arith))
    | inr (x, t) ↦
        let same_addr : addr ≡ u64 (bd.start + x * 2 ^ (o + 12)) = cc in
        let same_state : bd' ≡ t.out = cc in rw (same_addr, same_state) (taken-Restores x t)
  ]
