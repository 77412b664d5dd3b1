-- ===== src/Slab/Free.antt =====
-- slab_cache_free() where the slab stays.
use mink.Prelude.{
  ℕ, zero, suc, ◌+◌, ◌-◌, ◌*◌, ◌/◌, ◌%◌, ◌<◌, ◌≡◌, ◌≢◌, ◌⊎◌, inl, inr, refl, arith, Bool, true,
  false, ◌&&◌, ◌||◌, ◌==◌, ltb, if◌then◌else◌, Outcome, ok, ◌>>=◌, Bool-cases, ==→eq,
}
use mink.Prelude.Bits.{bit_zero}
use mink.Slab.{
  SlabCache, World, bitmap_num, bitmap_sz, bitmap_of, mark_unused, start_for_footer, load_word,
  unused_from, all_unused, drop_slab, drop_lock, slab_cache_free,
}
use mink.Slab.Bits.{used, IsBytes}
use mink.Slab.Search.{IsFooter, IsSize, Marks, mark_unused-Marks}
use mink.Slab.Lock.{
  locked_cache, locked_world, unlocked_cache, unlocked_world, take_lock_lem, drop_lock_lem,
}
use mink.Slab.Alloc.{footer_lem}

unused_from-bytes :
    (w : World) (left p : ℕ)
    → unused_from w left p ≡ true
    → (k : ℕ) → k < left
    → w.bytes (p + k) ≡ 0
unfolding unused_from
unused_from-bytes w zero p e k lt = absurd (omega arith)
unused_from-bytes w (suc left) p e k lt = elim (Bool-cases (w.bytes p == 0)) [
  | inl clear ↦ elim (Bool-cases (k == 0)) [
    | inl first ↦ (let here : p + k ≡ p = ground arith in rw here (==→eq (w.bytes p) 0 clear))
    | inr later ↦
        let there : p + k ≡ p + 1 + (k - 1) = ground arith in
        rw there (unused_from-bytes w left (p + 1) (rw clear at e) (k - 1) (ground arith))
  ]
  | inr set ↦ absurd (false-true (rw set at e))
]
  where
    false-true : false ≡ true → ⊥
    false-true e = cc

-- A slab that all_unused() accepts has no object in use.
pub all_unused-used :
    (c : SlabCache) (w : World) (f i : ℕ)
    → all_unused c w f ≡ true
    → i < bitmap_num c.size
    → used c w f i ≡ 0
unfolding all_unused bitmap_sz
all_unused-used c w f i e lt =
    let clear : w.bytes (bitmap_of c f + i / 8) ≡ 0 =
      unused_from-bytes w (bitmap_sz c.size) (bitmap_of c f) e (i / 8) (omega arith) in
    rw clear (bit_zero (i % 8))

-- The slab at `f` is not the last one, or it has an object in use.
abbrev pub Stays : SlabCache → World → ℕ → Type 0
Stays c w f = (load_word w f ≢ 0) ⊎ ((j : ℕ) × (j < bitmap_num c.size) × (used c w f j ≡ 1))

stays_lem :
    (c : SlabCache) (w : World) (f : ℕ)
    → Stays c w f
    → ((load_word w f == 0) && all_unused c w f) ≡ false
stays_lem c w f (inl next) =
    (let e : load_word w f == 0 ≡ false = ground (arith, next) in rw e refl)
stays_lem c w f (inr (j, lt, set)) = elim (Bool-cases (all_unused c w f)) [
  | inl none_used ↦ absurd (omega (arith, all_unused-used c w f j none_used lt, set))
  | inr some_used ↦ elim (Bool-cases (load_word w f == 0)) [
    | inl last ↦ rw (some_used, last) refl
    | inr next ↦ rw next refl
  ]
]

-- The object at hand after one at `obj` is free: the lower of the two.
abbrev pub lower_of : ℕ → ℕ → ℕ
lower_of empty obj = if (empty == 0) || ltb obj empty then obj else empty

-- `r` has object `i` of the slab at `f` not in use, and at hand unless a lower one is; the lock is free
-- again, and the vmspace and the page mappings are as before.
pub record GivesObject (c : SlabCache) (w : World) (f i : ℕ) (r : Outcome (SlabCache × World))
    : Type 0 where
  pub cache : SlabCache
  pub world : World
  pub returns : r ≡ ok (cache, world)
  pub marks : Marks c w f i 0 world
  pub unlocked : cache.lock.val ≡ 0
  pub same_size : cache.size ≡ c.size
  pub same_init : cache.init ≡ c.init
  pub same_first : cache.first ≡ c.first
  pub empty : cache.empty ≡ lower_of c.empty (start_for_footer f + c.size * i)

-- The end of slab_cache_free().
abbrev finish : ℕ → SlabCache → World → Outcome (SlabCache × World)
finish f c w = do
  (c, w) ← if (load_word w f == 0) && all_unused c w f then drop_slab c w f else ok (c, w)
  drop_lock c w

module _ (c : SlabCache) (w : World) (f i : ℕ) (bytes : IsBytes w) (size : IsSize c.size)
    (free : c.lock.val ≡ 0) (some_slab : c.first ≢ 0) (footer : IsFooter f)
    (inside : i < bitmap_num c.size)
    (stays : Stays c (mark_unused c w f (start_for_footer f + c.size * i)) f) where
  abbrev obj : ℕ
  obj = start_for_footer f + c.size * i

  abbrev w2 : World
  w2 = mark_unused (locked_cache c w) (locked_world w) f obj

  abbrev with_empty : ℕ → SlabCache
  with_empty e = record (locked_cache c w) { empty = e }

  Marks-w2 : Marks (locked_cache c w) (locked_world w) f i 0 w2
  Marks-w2 =
      mark_unused-Marks (locked_cache c w) (locked_world w) f i (record { byte = bytes.byte }) size
        footer inside

  finish_lem :
      (e : ℕ)
      → finish f (with_empty e) w2 ≡ ok (unlocked_cache (with_empty e) w, unlocked_world w2 w)
  unfolding mark_unused
  finish_lem e =
      rw (stays_lem (with_empty e) w2 f stays)
        (drop_lock_lem c (with_empty e) w w2 refl Marks-w2.same_space)

  -- With the lock free, a list of slabs that is not empty, room for the bitmap in a slab, and an object
  -- of a slab that is not the last one or has another object in use: slab_cache_free() ends, and makes
  -- the object free and no other; the object at hand is then the lower of the two.
  pub slab_cache_free-GivesObject : GivesObject c w f i (slab_cache_free c w obj)
  unfolding slab_cache_free
  slab_cache_free-GivesObject =
      let e = lower_of c.empty obj in
      let has_slab : c.first == 0 ≡ false = ground (arith, some_slab) in
      record {
        cache = unlocked_cache (with_empty e) w;
        world = unlocked_world w2 w;
        returns =
            rw
              (
                take_lock_lem c w free,
                has_slab,
                footer_lem f i c.size (omega (arith, size.0)) footer inside,
              )
              (by_cases ((c.empty == 0) || ltb obj c.empty));
        marks = record {
          same_space = refl;
          bits = Marks-w2.bits;
          outside = Marks-w2.outside;
          bytes = record { byte = Marks-w2.bytes.byte };
        };
        unlocked = refl;
        same_size = refl;
        same_init = refl;
        same_first = refl;
        empty = refl;
      }
    where
      by_cases :
          (b : Bool)
          → finish f (if b then with_empty obj else locked_cache c w) w2
            ≡ ok (unlocked_cache (with_empty (if b then obj else c.empty)) w, unlocked_world w2 w)
      by_cases true = finish_lem obj
      by_cases false = finish_lem c.empty
