-- ===== src/Slab/Search.antt =====
-- Marking an object, the list of slabs, and slab_cache_alloc() and slab_cache_free() on it.
use mink.Prelude.{
  ℕ, zero, suc, ◌+◌, ◌-◌, ◌*◌, ◌/◌, ◌%◌, ◌^◌, ◌<◌, ◌≤◌, ◌≡◌, ◌⊎◌, ◌∙◌, ap, inl, inr, refl, arith,
  true, false, ◌==◌, leb, if◌then◌else◌, List, [], ◌∷◌, length, ok, Bool-cases, ==→eq, bit_and,
  bit_or,
}
use native.Mathlib.Nat.{mul-div_cancel_left}
use mink.Prelude.Bits.{bit}
use mink.Bitmap.View.{bit-u8, set_bits, clear_bits}
use mink.Slab.{
  SlabCache, World, slab_size, bitmap_num, bitmap_sz, bitmap_idx, bitmap_of, mark_used, mark_unused,
  store_byte, load_word, find_empty_obj, start_for_footer, search_slabs,
}
use mink.Slab.Bits.{used, IsBytes, find_empty_obj-FindsEmpty}

-- The footer of a slab, whose start is not NULL.
abbrev pub IsFooter : ℕ → Type 0
IsFooter f = (f % slab_size ≡ 8188) × (slab_size ≤ f)

-- The bitmap of a cache's slabs lies in the slab.
abbrev pub IsSize : ℕ → Type 0
IsSize size = (8 ≤ size) × (bitmap_sz size ≤ 128)

-- `w'` has bit `i` of the bitmap at `f` made `v`, and is the same outside that bitmap.
pub record Marks (c : SlabCache) (w : World) (f i v : ℕ) (w' : World) : Type 0 where
  pub same_space : w'.space ≡ w.space
  pub bits : (j : ℕ) → j < bitmap_num c.size → used c w' f j ≡ (if i == j then v else used c w f j)
  pub outside : (x : ℕ) → (x < bitmap_of c f) ⊎ (f ≤ x) → w'.bytes x ≡ w.bytes x
  pub bytes : IsBytes w'

module _ (c : SlabCache) (w : World) (f i : ℕ) (bytes : IsBytes w) (size : IsSize c.size)
    (footer : IsFooter f) (inside : i < bitmap_num c.size) where
  abbrev ptr : ℕ
  ptr = bitmap_of c f + i / 8

  index_lem : bitmap_idx f (start_for_footer f + c.size * i) c.size ≡ i
  unfolding bitmap_idx
  index_lem =
      let back : start_for_footer f + c.size * i - start_for_footer f ≡ c.size * i = omega arith in
      rw back (mul-div_cancel_left i (omega (arith, size.0)))

  byte-Marks :
      (v b : ℕ)
      → ((j : ℕ) → j < 8 → bit b j ≡ (if i % 8 == j then v else bit (w.bytes ptr) j))
      → Marks c w f i v (store_byte w ptr (b % 2 ^ 8))
  unfolding bitmap_num bitmap_sz
  byte-Marks v b h = record {
    same_space = refl;
    bits = λ j lt. elim (Bool-cases (j / 8 == i / 8)) [
      | inl same ↦
          let at_byte : bitmap_of c f + j / 8 == ptr ≡ true = ground arith in
          let old : used c w f j ≡ bit (w.bytes ptr) (j % 8) =
            ap (λ q. bit (w.bytes (bitmap_of c f + q)) (j % 8)) (==→eq (j / 8) (i / 8) same) in
          rw at_byte
            (bit-u8 b (j % 8) (omega arith) ∙ h (j % 8) (omega arith) ∙ ground (arith, old, same))
      | inr other ↦
          let elsewhere : bitmap_of c f + j / 8 == ptr ≡ false = ground arith in
          let differ : i == j ≡ false = ground arith in rw (elsewhere, differ) refl
    ];
    outside = λ x away. ground (arith, away, size.1, footer.1, inside);
    bytes = record { byte = λ x. ground (arith, bytes.byte x) };
  }

  pub mark_used-Marks : Marks c w f i 1 (mark_used c w f (start_for_footer f + c.size * i))
  unfolding mark_used
  mark_used-Marks = rw index_lem (
      byte-Marks 1 (bit_or (w.bytes ptr) (2 ^ (i % 8)))
        (λ j lt. set_bits (w.bytes ptr) (i % 8) j (omega arith) lt))

  pub mark_unused-Marks : Marks c w f i 0 (mark_unused c w f (start_for_footer f + c.size * i))
  unfolding mark_unused
  mark_unused-Marks = rw index_lem (
      byte-Marks 0 (bit_and (w.bytes ptr) (2 ^ 32 - 1 - 2 ^ (i % 8)))
        (λ j lt. clear_bits (w.bytes ptr) (i % 8) j (omega arith) lt))

-- The list of slabs from the footer `f` on.
abbrev pub Slabs : World → List ℕ → ℕ → Type 0
Slabs w [] f = f ≡ 0
Slabs w (g ∷ gs) f = (f ≡ g) × IsFooter g × Slabs w gs (load_word w g)

abbrev pub IsSlabOf : ℕ → List ℕ → Type 0
IsSlabOf g [] = ⊥
IsSlabOf g (h ∷ gs) = (g ≡ h) ⊎ IsSlabOf g gs

-- An object that is not in use in one of the slabs, or NULL when all of them are full.
abbrev pub SearchFinds : SlabCache → World → List ℕ → ℕ → Type 0
SearchFinds c w gs r =
    ((r ≡ 0) × ((g i : ℕ) → IsSlabOf g gs → i < bitmap_num c.size → used c w g i ≡ 1))
    ⊎ ((g : ℕ) × (i : ℕ) × IsSlabOf g gs
        × (i < bitmap_num c.size)
        × (r ≡ start_for_footer g + c.size * i)
        × (used c w g i ≡ 0))

pub search_slabs-SearchFinds :
    (c : SlabCache) (w : World) (gs : List ℕ) (left f : ℕ)
    → IsBytes w
    → Slabs w gs f
    → length gs < left
    → (r : ℕ) × (search_slabs left c w f ≡ ok r) × SearchFinds c w gs r
unfolding search_slabs
search_slabs-SearchFinds c w gs zero f bytes slabs enough = absurd (omega arith)
search_slabs-SearchFinds c w [] (suc left) f bytes slabs enough =
    let none_left : f == 0 ≡ true = ground (arith, slabs) in
    (0, rw none_left refl, inl (refl, λ g i s. absurd s))
search_slabs-SearchFinds c w (g ∷ gs) (suc left) f bytes (at_g, footer, slabs) enough =
    let some_left : g == 0 ≡ false = ground (arith, footer.1) in
    rw at_g (elim (find_empty_obj-FindsEmpty c w g bytes) [
      | inl (nothing, full) ↦
          let is_none : find_empty_obj c w g == 0 ≡ true = ground (arith, nothing) in
          let (r, returns, finds) =
            search_slabs-SearchFinds c w gs left (load_word w g) bytes slabs (omega arith) in
          (
            r,
            rw (some_left, is_none) returns,
            elim finds [
              | inl (zero_r, all) ↦ inl (
                zero_r,
                λ h i s lt. elim s [
                  | inl same ↦ rw same (full i lt)
                  | inr later ↦ all h i later lt
                ],
              )
              | inr (h, i, s, lt, at_h, clear) ↦ inr (h, i, inr s, lt, at_h, clear)
            ],
          )
      | inr (i, lt, at_i, clear, least) ↦
          let is_some : find_empty_obj c w g == 0 ≡ false = ground (arith, at_i, footer) in
          (
            find_empty_obj c w g,
            rw (some_left, is_some) refl,
            inr (g, i, inl refl, lt, at_i, clear),
          )
    ])

-- The list of slabs does not run through the bitmaps.
pub word_kept :
    (c : SlabCache) (w w' : World) (f i v g : ℕ)
    → IsSize c.size
    → IsFooter f
    → IsFooter g
    → Marks c w f i v w'
    → load_word w' g ≡ load_word w g
word_kept c w w' f i v g size footer footer' marks =
    let away : (k : ℕ) → k < 4 → (g + k < bitmap_of c f) ⊎ (f ≤ g + k) = λ k lt.
      elim (Bool-cases (leb f g)) [
        | inl above ↦ inr (ground arith)
        | inr below ↦ inl (omega (arith, footer.0, footer'.0, size.1, leb→gt below))
      ] in
    let b0 : w'.bytes g ≡ w.bytes g =
      (let z : g + 0 ≡ g = omega arith in rw z at (marks.outside (g + 0) (away 0 (omega arith)))) in
    let b1 = marks.outside (g + 1) (away 1 (omega arith)) in
    let b2 = marks.outside (g + 2) (away 2 (omega arith)) in
    let b3 = marks.outside (g + 3) (away 3 (omega arith)) in omega (arith, b0, b1, b2, b3)
  where
    leb→gt : leb f g ≡ false → g < f
    leb→gt e = ground arith

pub Slabs-Marks :
    (c : SlabCache) (w w' : World) (f i v : ℕ) (gs : List ℕ) (g : ℕ)
    → IsSize c.size
    → IsFooter f
    → Marks c w f i v w'
    → Slabs w gs g
    → Slabs w' gs g
Slabs-Marks c w w' f i v [] g size footer marks slabs = slabs
Slabs-Marks c w w' f i v (h ∷ gs) g size footer marks (at_h, footer', slabs) = (
  at_h,
  footer',
  rw (word_kept c w w' f i v h size footer footer' marks)
      (Slabs-Marks c w w' f i v gs (load_word w h) size footer marks slabs),
)
