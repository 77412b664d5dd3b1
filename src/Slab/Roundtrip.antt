-- ===== src/Slab/Roundtrip.antt =====
-- slab_cache_free() of what slab_cache_alloc() returned.
use mink.Prelude.{
  ℕ, ◌+◌, ◌-◌, ◌*◌, ◌/◌, ◌%◌, ◌<◌, ◌≡◌, ◌∙◌, sym, ap, inl, inr, ◌&&◌, ◌==◌, if◌then◌else◌, List,
  Outcome, ok, ◌>>=◌, Bool-cases, ==→eq,
}
use mink.Prelude.Bits.{bit}
use mink.Slab.{
  SlabCache, World, bitmap_num, bitmap_sz, start_for_footer, slab_cache_alloc, slab_cache_free,
}
use mink.Slab.Bits.{used}
use mink.Slab.Search.{IsFooter, IsSlabOf}
use mink.Slab.Others.{used_after}
use mink.Slab.Cache.{
  IsCache, Keeps, Keeps-Marks, Keeps-size, IsFooter-slab, slab_cache_alloc-IsCache,
  slab_cache_free-IsCache,
}

-- Which objects are in use depends on the size of a cache's objects alone.
used-size :
    (c c' : SlabCache) (w : World) (g j : ℕ) → c'.size ≡ c.size → used c' w g j ≡ used c w g j
used-size c c' w g j same = ap (λ s. bit (w.bytes (g - bitmap_sz s + j / 8)) (j % 8)) same

-- A normal return with the invariant, and the same objects in use as in `w`.
abbrev pub RestoresObjects : SlabCache → World → List ℕ → Outcome (SlabCache × World) → Type 0
RestoresObjects c w gs r =
    (c' : SlabCache) × (w' : World) × (r ≡ ok (c', w'))
    × IsCache c' w' gs
    × ((g j : ℕ) → IsSlabOf g gs → j < bitmap_num c.size → used c w' g j ≡ used c w g j)

-- With the invariant and a free object at hand, whose slab is not the last or has an object in use:
-- slab_cache_free() of what slab_cache_alloc() returned ends normally with the invariant, and with the
-- same objects in use as before the two.
pub slab_cache_free-slab_cache_alloc :
    (c : SlabCache) (w : World) (gs : List ℕ) (f i : ℕ)
    → IsCache c w gs
    → IsSlabOf f gs
    → i < bitmap_num c.size
    → c.empty ≡ start_for_footer f + c.size * i
    → used c w f i ≡ 0
    → Keeps c w f i
    → RestoresObjects c w gs (slab_cache_alloc c w >>= λ (p, c, w). slab_cache_free c w p)
slab_cache_free-slab_cache_alloc c w gs f i valid listed inside at_hand clear keeps =
    let (c1, w1, returns, a) = slab_cache_alloc-IsCache c w gs valid f i listed inside at_hand in
    let (c2, w2, returns', b) =
      slab_cache_free-IsCache c1 w1 gs a.inv f i listed (rw a.same_size inside) (
        Keeps-size c c1 w1 f i a.same_size
          (Keeps-Marks c w w1 f i 1 valid.size (footer f listed) a.marks keeps)) in
    (
      c2,
      w2,
      rw returns (rw a.same_size at returns'),
      b.inv,
      λ g j s lt.
          (let after =
              used_after c w w1 f g i 1 j valid.size (footer f listed) (footer g s) a.marks lt in
            let after' =
              used_after c1 w1 w2 f g i 0 j (rw a.same_size valid.size) (footer f listed)
                (footer g s) b.marks (rw a.same_size lt) in
            put_back g j (sym (used-size c c1 w2 g j a.same_size) ∙ after')
              (used-size c c1 w1 g j a.same_size) after),
    )
  where
    footer : (g : ℕ) → IsSlabOf g gs → IsFooter g
    footer = IsFooter-slab c w gs valid f i listed inside

    put_back :
        {x y z : ℕ} (g j : ℕ)
        → x ≡ (if (f == g) && (i == j) then 0 else y)
        → y ≡ z
        → z ≡ (if (f == g) && (i == j) then 1 else used c w g j)
        → x ≡ used c w g j
    put_back {x} {y} {z} g j now same before = elim (Bool-cases (f == g)) [
      | inl at_f ↦ elim (Bool-cases (i == j)) [
        | inl at_i ↦
            let freed : x ≡ 0 = rw (at_f, at_i) at now in
            let e : used c w g j ≡ 0 = rw (← ==→eq f g at_f, ← ==→eq i j at_i) clear in
            freed ∙ sym e
        | inr other ↦ (rw (at_f, other) at now) ∙ same ∙ (rw (at_f, other) at before)
      ]
      | inr other ↦ (rw other at now) ∙ same ∙ (rw other at before)
    ]
