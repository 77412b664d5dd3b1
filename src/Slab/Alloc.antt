-- ===== src/Slab/Alloc.antt =====
-- slab_cache_alloc() with an object at hand.
use mink.Prelude.{
  ℕ, ◌+◌, ◌-◌, ◌*◌, ◌^◌, ◌<◌, ◌≤◌, ◌≡◌, ◌∙◌, ap, refl, arith, Bool, true, false, ◌==◌,
  if◌then◌else◌, List, [], ◌∷◌, length, Outcome, ok, ◌>>=◌,
}
use native.Mathlib.Nat.{le-div_iff_mul-le, mul_comm, add-mul}
use mink.Locking
use mink.Vmspace
use mink.Slab.{
  SlabCache, World, bitmap_num, mark_used, start_for_footer, footer_for_ptr, max_slabs, alloc_empty,
  load_word, search_slabs, slab_cache_alloc,
}
use mink.Slab.Bits.{IsBytes}
use mink.Slab.Search.{
  IsFooter, IsSize, Marks, mark_used-Marks, Slabs, Slabs-Marks, SearchFinds,
  search_slabs-SearchFinds,
}

-- `r` returns object `i` of the slab at `f`, marked as used where it was not, with another free object
-- of the slabs from there on at hand, or NULL when those are full; the lock is free again, and the
-- vmspace and the page mappings are as before.
pub record TakesObject (c : SlabCache) (w : World) (f i : ℕ) (gs : List ℕ)
    (r : Outcome (ℕ × SlabCache × World)) : Type 0 where
  pub cache : SlabCache
  pub world : World
  pub returns : r ≡ ok (start_for_footer f + c.size * i, cache, world)
  pub marks : Marks c w f i 1 world
  pub slabs : Slabs world (f ∷ gs) f
  pub finds : SearchFinds c world (f ∷ gs) cache.empty
  pub unlocked : cache.lock.val ≡ 0
  pub same_size : cache.size ≡ c.size
  pub same_init : cache.init ≡ c.init
  pub same_first : cache.first ≡ c.first

pub footer_lem :
    (f i size : ℕ)
    → 0 < size
    → IsFooter f
    → i < bitmap_num size
    → footer_for_ptr (start_for_footer f + size * i) ≡ f
unfolding bitmap_num
footer_lem f i size pos footer inside =
    let fits =
      (le-div_iff_mul-le {k = size} {x = i + 1} {y = 8188} pos).0 (omega (arith, inside)) in
    let low : size * i + size ≤ 8188 = omega (arith, fits, mul_comm size i, add-mul i 1 size) in
    omega (arith, low, footer.0, footer.1)

-- The list is in the bytes alone.
pub Slabs-space :
    (w : World) (s : Vmspace.State) (gs : List ℕ) (g : ℕ)
    → Slabs w gs g
    → Slabs (record w { space = s }) gs g
Slabs-space w s [] g slabs = slabs
Slabs-space w s (h ∷ gs) g (at_h, footer, slabs) =
    (at_h, footer, Slabs-space w s gs (load_word w h) slabs)

pub if_true : (b : Bool) → (if b then true else false) ≡ b
if_true true = refl
if_true false = refl

module _ (c : SlabCache) (w : World) (f i : ℕ) (gs : List ℕ) (bytes : IsBytes w)
    (size : IsSize c.size) (free : c.lock.val ≡ 0) (plain : c.init ≡ 0) (slabs : Slabs w (f ∷ gs) f)
    (few : length gs < 2 ^ 19 - 1) (inside : i < bitmap_num c.size)
    (at_hand : c.empty ≡ start_for_footer f + c.size * i) where
  abbrev enabled : Bool
  enabled = w.space.1.pmm.enabled

  -- Under the lock.
  abbrev c1 : SlabCache
  c1 = record c { lock = record { val = 1; interrupts = enabled } }

  abbrev w1 : World
  w1 = record w {
    space = (w.space.0, record w.space.1 { pmm = record w.space.1.pmm { enabled = false } });
  }

  takes : Locking.acquire c.lock enabled ≡ ok (c1.lock, false)
  unfolding Locking.acquire
  takes = rw free refl

  abbrev w2 : World
  w2 = mark_used c1 w1 f (start_for_footer f + c.size * i)

  Marks-w2 : Marks c1 w1 f i 1 w2
  Marks-w2 = mark_used-Marks c1 w1 f i (record { byte = bytes.byte }) size slabs.1 inside

  Slabs-w2 : Slabs w2 (f ∷ gs) f
  Slabs-w2 =
      Slabs-Marks c1 w1 w2 f i 1 (f ∷ gs) f size slabs.1 Marks-w2
        (Slabs-space w w1.space (f ∷ gs) f slabs)

  -- What alloc_empty() does with an object and a footer.
  abbrev alloc_at : ℕ → ℕ → Outcome (ℕ × SlabCache × World)
  alloc_at obj g = do
    empty ← search_slabs max_slabs c1 (mark_used c1 w1 g obj) g
    ok (obj, record c1 { empty = empty }, mark_used c1 w1 g obj)

  alloc_empty_returns :
      (r : ℕ)
      → search_slabs max_slabs c1 w2 f ≡ ok r
      → alloc_empty c1 w1 ≡ ok (start_for_footer f + c.size * i, record c1 { empty = r }, w2)
  unfolding alloc_empty
  alloc_empty_returns r found =
      let obj = start_for_footer f + c.size * i in
      ap (λ o. alloc_at o (footer_for_ptr o)) at_hand
      ∙ ap (alloc_at obj) (footer_lem f i c.size (omega (arith, size.0)) slabs.1 inside)
      ∙ ap {B = Outcome (ℕ × SlabCache × World)}
          (λ o. o >>= λ e. ok (obj, record c1 { empty = e }, w2)) found

  -- The interrupt flag as it was.
  abbrev restored : Vmspace.State → Vmspace.State
  restored s = (
    s.0,
    record s.1 { pmm = record s.1.pmm { enabled = if enabled then true else s.1.pmm.enabled } },
  )

  same_space : restored w2.space ≡ w.space
  same_space =
      ap restored Marks-w2.same_space
      ∙ ap {B = Vmspace.State}
          (λ b. (w.space.0, record w.space.1 { pmm = record w.space.1.pmm { enabled = b } }))
          (if_true enabled)

  -- With the lock free, a cache without initial contents, an object that is not NULL at hand, in a
  -- slab of a list without a cycle, and room for the bitmap in a slab: slab_cache_alloc() ends,
  -- returns the object, marks it and no other as in use, and leaves at hand a free object of the slabs
  -- from that one on, or NULL when those are full; the slabs before it are not looked at.
  pub slab_cache_alloc-TakesObject : TakesObject c w f i gs (slab_cache_alloc c w)
  unfolding slab_cache_alloc Locking.release
  slab_cache_alloc-TakesObject =
      let (r, found, finds) =
        search_slabs-SearchFinds c1 w2 (f ∷ gs) max_slabs f Marks-w2.bytes Slabs-w2
          (omega (arith, few)) in
      let some_object : c.empty == 0 ≡ false = ground (arith, at_hand, slabs.1) in
      let no_init : c.init == 0 ≡ true = ground (arith, plain) in
      let back : World = record w2 { space = restored w2.space } in
      record {
        cache = record c1 { empty = r; lock = record { val = 0; interrupts = enabled } };
        world = back;
        returns = rw (takes, some_object, alloc_empty_returns r found, no_init) refl;
        marks = record {
          same_space = same_space;
          bits = Marks-w2.bits;
          outside = Marks-w2.outside;
          bytes = record { byte = Marks-w2.bytes.byte };
        };
        slabs = Slabs-space w2 back.space (f ∷ gs) f Slabs-w2;
        finds = finds;
        unlocked = refl;
        same_size = refl;
        same_init = refl;
        same_first = refl;
      }
