-- ===== src/Slab/Others.antt =====
-- The slabs of a list other than the one in which an object is marked.
use mink.Prelude.{
  ℕ, ◌+◌, ◌-◌, ◌/◌, ◌%◌, ◌<◌, ◌≤◌, ◌≡◌, ◌≢◌, ◌⊎◌, sym, ap, inl, inr, refl, arith, ◌&&◌, ◌==◌,
  if◌then◌else◌, List, [], ◌∷◌, length, Bool-cases, ==→eq,
}
use mink.Prelude.Bits.{bit}
use mink.Slab.{SlabCache, World, bitmap_num, bitmap_sz, bitmap_of, load_word}
use mink.Slab.Bits.{used}
use mink.Slab.Search.{IsFooter, IsSize, Marks, Slabs, IsSlabOf}

-- The list from one of its slabs on.
pub from_slab :
    (w : World) (gs : List ℕ) (h f : ℕ)
    → Slabs w gs h
    → IsSlabOf f gs
    → (rest : List ℕ) × Slabs w (f ∷ rest) f
      × (length rest < length gs)
      × ((x : ℕ) → IsSlabOf x (f ∷ rest) → IsSlabOf x gs)
from_slab w [] h f slabs inside = absurd inside
from_slab w (g ∷ gs) h f (at_h, footer, slabs) (inl same) =
    rw same (gs, (refl, footer, slabs), omega arith, λ x s. s)
from_slab w (g ∷ gs) h f (at_h, footer, slabs) (inr later) =
    let (rest, slabs', shorter, among) = from_slab w gs (load_word w g) f slabs later in
    (rest, slabs', omega arith, λ x s. inr (among x s))

-- Marking in one slab leaves the bitmaps of the others.
used_elsewhere :
    (c : SlabCache) (w w' : World) (f g i v j : ℕ)
    → IsSize c.size
    → IsFooter f
    → IsFooter g
    → Marks c w f i v w'
    → f ≢ g
    → j < bitmap_num c.size
    → used c w' g j ≡ used c w g j
unfolding bitmap_sz
used_elsewhere c w w' f g i v j size footer footer' marks other lt =
    ap (λ b. bit b (j % 8))
      (marks.outside (bitmap_of c g + j / 8) (
        apart f g (bitmap_sz c.size) (bitmap_of c g + j / 8) footer footer' other size.1
          (omega arith)))
  where
    apart :
        (f g sz x : ℕ)
        → IsFooter f
        → IsFooter g
        → f ≢ g
        → sz ≤ 128
        → (g - sz ≤ x) × (x < g)
        → (x < f - sz) ⊎ (f ≤ x)
    apart f g sz x footer footer' other small inside = omega arith

pub used_after :
    (c : SlabCache) (w w' : World) (f g i v j : ℕ)
    → IsSize c.size
    → IsFooter f
    → IsFooter g
    → Marks c w f i v w'
    → j < bitmap_num c.size
    → used c w' g j ≡ (if (f == g) && (i == j) then v else used c w g j)
used_after c w w' f g i v j size footer footer' marks lt = elim (Bool-cases (f == g)) [
  | inl same ↦ rw (same, sym (==→eq f g same)) (marks.bits j lt)
  | inr other ↦
      rw other
        (used_elsewhere c w w' f g i v j size footer footer' marks (ground (arith, other)) lt)
]
