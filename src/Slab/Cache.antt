-- ===== src/Slab/Cache.antt =====
-- The invariant of a cache, which slab_cache_alloc() with an object at hand and slab_cache_free()
-- without the end of a slab keep.
use mink.Prelude.{
  ℕ, ◌+◌, ◌-◌, ◌*◌, ◌/◌, ◌%◌, ◌^◌, ◌<◌, ◌≡◌, ◌≢◌, ◌⊎◌, ◌∙◌, sym, ap, inl, inr, refl, arith, true,
  false, ◌||◌, ◌&&◌, ◌==◌, ltb, if◌then◌else◌, List, [], ◌∷◌, length, Outcome, ok, Bool-cases,
}
use mink.Prelude.Bits.{bit}
use mink.Slab.{
  SlabCache, World, bitmap_num, bitmap_sz, mark_unused, start_for_footer, load_word,
  slab_cache_alloc, slab_cache_free,
}
use mink.Slab.Bits.{used, IsBytes}
use mink.Slab.Search.{
  IsFooter, IsSize, Marks, mark_unused-Marks, Slabs, Slabs-Marks, IsSlabOf, word_kept,
}
use mink.Slab.Others.{from_slab, used_after}
use mink.Slab.Alloc.{TakesObject, slab_cache_alloc-TakesObject}
use mink.Slab.Free.{Stays, GivesObject, slab_cache_free-GivesObject}

-- `r` is the address of an object that is not in use in one of the slabs.
abbrev pub IsFree : SlabCache → World → List ℕ → ℕ → Type 0
IsFree c w gs r =
    (g : ℕ) × (i : ℕ) × IsSlabOf g gs
    × (i < bitmap_num c.size)
    × (r ≡ start_for_footer g + c.size * i)
    × (used c w g i ≡ 0)

-- A cache without initial contents whose slabs are `gs`: the lock is free, and the object at hand is
-- NULL or not in use.
pub record IsCache (c : SlabCache) (w : World) (gs : List ℕ) : Type 0 where
  pub unlocked : c.lock.val ≡ 0
  pub plain : c.init ≡ 0
  pub size : IsSize c.size
  pub bytes : IsBytes w
  pub slabs : Slabs w gs c.first
  pub few : length gs < 2 ^ 19 - 1
  pub at_hand : (c.empty ≡ 0) ⊎ IsFree c w gs c.empty

-- What makes slab_cache_free() keep the slab, before the object is free.
abbrev pub Keeps : SlabCache → World → ℕ → ℕ → Type 0
Keeps c w f i =
    (load_word w f ≢ 0) ⊎ ((j : ℕ) × (j < bitmap_num c.size) × (j ≢ i) × (used c w f j ≡ 1))

pub Keeps-Marks :
    (c : SlabCache) (w w' : World) (f i v : ℕ)
    → IsSize c.size
    → IsFooter f
    → Marks c w f i v w'
    → Keeps c w f i
    → Keeps c w' f i
Keeps-Marks c w w' f i v size footer marks (inl next) =
    inl (λ e. next (sym (word_kept c w w' f i v f size footer footer marks) ∙ e))
Keeps-Marks c w w' f i v size footer marks (inr (j, lt, other, set)) =
    let differ : i == j ≡ false = ground (arith, other) in
    inr (j, lt, other, (rw differ at (marks.bits j lt)) ∙ set)

pub Keeps-size :
    (c c' : SlabCache) (w : World) (f i : ℕ) → c'.size ≡ c.size → Keeps c w f i → Keeps c' w f i
Keeps-size c c' w f i same (inl next) = inl next
Keeps-size c c' w f i same (inr (j, lt, other, set)) =
    inr (j, rw same lt, other, ap (λ s. bit (w.bytes (f - bitmap_sz s + j / 8)) (j % 8)) same ∙ set)

Keeps-Stays : (c : SlabCache) (w : World) (f i : ℕ) → Keeps c w f i → Stays c w f
Keeps-Stays c w f i (inl next) = inl next
Keeps-Stays c w f i (inr (j, lt, other, set)) = inr (j, lt, set)

module _ (c : SlabCache) (w : World) (gs : List ℕ) (valid : IsCache c w gs) (f i : ℕ)
    (listed : IsSlabOf f gs) (inside : i < bitmap_num c.size) where
  abbrev pub obj : ℕ
  obj = start_for_footer f + c.size * i

  pub IsFooter-slab : (g : ℕ) → IsSlabOf g gs → IsFooter g
  IsFooter-slab g s =
      (let (rest, slabs', shorter, among) = from_slab w gs c.first g valid.slabs s in slabs'.1)

  -- The invariant, with the object marked with `v`, 1 for in use, and no other changed.
  pub record Leaves (v : ℕ) (c' : SlabCache) (w' : World) : Type 0 where
    pub same_size : c'.size ≡ c.size
    pub marks : Marks c w f i v w'
    pub inv : IsCache c' w' gs

  taken-IsCache :
      (rest : List ℕ) (r : Outcome (ℕ × SlabCache × World)) (a : TakesObject c w f i rest r)
      → ((x : ℕ) → IsSlabOf x (f ∷ rest) → IsSlabOf x gs)
      → IsCache a.cache a.world gs
  taken-IsCache rest r a among = record {
    unlocked = a.unlocked;
    plain = a.same_init ∙ valid.plain;
    size = rw a.same_size valid.size;
    bytes = a.marks.bytes;
    slabs = rw a.same_first (
        Slabs-Marks c w a.world f i 1 gs c.first valid.size (IsFooter-slab f listed) a.marks
          valid.slabs);
    few = valid.few;
    at_hand = elim a.finds [
      | inl (nothing, full) ↦ inl nothing
      | inr (g, k, s, lt, at_k, clear) ↦ rw a.same_size (inr (g, k, among g s, lt, at_k, clear))
    ];
  }

  given-IsCache :
      (r : Outcome (SlabCache × World)) (a : GivesObject c w f i r) → IsCache a.cache a.world gs
  given-IsCache r a = record {
    unlocked = a.unlocked;
    plain = a.same_init ∙ valid.plain;
    size = rw a.same_size valid.size;
    bytes = a.marks.bytes;
    slabs = rw a.same_first (
        Slabs-Marks c w a.world f i 0 gs c.first valid.size (IsFooter-slab f listed) a.marks
          valid.slabs);
    few = valid.few;
    at_hand =
        rw (a.empty, a.same_size)
          (elim (Bool-cases ((c.empty == 0) || ltb obj c.empty)) [
            | inl lower ↦ rw lower (inr (f, i, listed, inside, refl, itself))
            | inr higher ↦ rw higher (elim valid.at_hand [
              | inl nothing ↦ inl nothing
              | inr (g, k, s, lt, at_k, clear) ↦ inr (
                g,
                k,
                s,
                lt,
                at_k,
                still_free g k
                    (used_after c w a.world f g i 0 k valid.size (IsFooter-slab f listed)
                      (IsFooter-slab g s) a.marks lt)
                    clear,
              )
            ])
          ]);
  }
    where
      itself : used c a.world f i ≡ 0
      itself = (let same : i == i ≡ true = ground arith in (rw same at (a.marks.bits i inside)))

      still_free :
          (g k : ℕ)
          → used c a.world g k ≡ (if (f == g) && (i == k) then 0 else used c w g k)
          → used c w g k ≡ 0
          → used c a.world g k ≡ 0
      still_free g k after clear = ground (arith, after, clear)

  -- With the invariant, and the object at hand: slab_cache_alloc() ends, returns the object, marks it
  -- and no other as in use, and keeps the invariant.
  pub slab_cache_alloc-IsCache :
      c.empty ≡ obj
      → (c' : SlabCache) × (w' : World) × (slab_cache_alloc c w ≡ ok (obj, c', w')) × Leaves 1 c' w'
  slab_cache_alloc-IsCache at_hand =
      let (rest, slabs', shorter, among) = from_slab w gs c.first f valid.slabs listed in
      let a =
        slab_cache_alloc-TakesObject c w f i rest valid.bytes valid.size valid.unlocked valid.plain
          slabs' (omega (arith, valid.few)) inside at_hand in
      (
        a.cache,
        a.world,
        a.returns,
        record {
          same_size = a.same_size;
          marks = a.marks;
          inv = taken-IsCache rest (slab_cache_alloc c w) a among;
        },
      )

  some_slab : c.first ≢ 0
  some_slab e =
      let (rest, slabs', shorter, among) = from_slab w gs c.first f valid.slabs listed in
      not_empty gs valid.slabs (omega arith)
    where
      not_empty : (l : List ℕ) → Slabs w l c.first → 0 < length l → ⊥
      not_empty [] slabs some_left = omega arith
      not_empty (g ∷ l) (at_g, footer, slabs) some_left = omega (arith, at_g, footer.1, e)

  -- With the invariant, for an object of one of the slabs, when the slab is not the last or has another
  -- object in use: slab_cache_free() ends, makes the object and no other free, and keeps the invariant.
  pub slab_cache_free-IsCache :
      Keeps c w f i
      → (c' : SlabCache) × (w' : World) × (slab_cache_free c w obj ≡ ok (c', w')) × Leaves 0 c' w'
  slab_cache_free-IsCache keeps =
      let footer = IsFooter-slab f listed in
      let marks = mark_unused-Marks c w f i valid.bytes valid.size footer inside in
      let w2 = mark_unused c w f obj in
      let a =
        slab_cache_free-GivesObject c w f i valid.bytes valid.size valid.unlocked some_slab footer
          inside (Keeps-Stays c w2 f i (Keeps-Marks c w w2 f i 0 valid.size footer marks keeps)) in
      (
        a.cache,
        a.world,
        a.returns,
        record {
          same_size = a.same_size;
          marks = a.marks;
          inv = given-IsCache (slab_cache_free c w obj) a;
        },
      )
