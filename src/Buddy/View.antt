-- ===== src/Buddy/View.antt =====
-- The allocator as a map from an order and an index to 0 or 1, and what one bitmap call of buddy.c
-- does to it.
use native.Mathlib.Nat.{div-le_self, mod-eq_of_lt}
use mink.Prelude.{
  ℕ, ◌+◌, ◌-◌, ◌/◌, ◌^◌, ◌≤◌, ◌<◌, ◌≡◌, refl, arith, true, false, [], ◌==◌, leb, if◌then◌else◌,
  get_or, length, length-set, get_or-set_self, get_or-set_ne, get_elem?-eq-get_or, Outcome, ok,
  set as set_elem, Bool-cases, inl, inr, ==→eq,
}
use mink.Bitmap
use mink.Bitmap.{Bitmap}
use mink.Bitmap.View
use mink.Bitmap.View.{bit_at, Stores}
use mink.Buddy.{Buddy, u32, order, on_order, set_bit, clear_bit, test_bit}

abbrev pub no_bitmap : Bitmap
no_bitmap = record { bytes = []; max_extent = 0 }

abbrev pub bitmap_of : Buddy → ℕ → Bitmap
bitmap_of bd o = get_or bd.orders o no_bitmap

-- 1 if block `x` of order `o` is marked free, else 0.
abbrev pub free_at : Buddy → ℕ → ℕ → ℕ
free_at bd o x = bit_at (bitmap_of bd o) x

-- The number of whole blocks of order `o` in the region.
abbrev pub blocks : Buddy → ℕ → ℕ
blocks bd o = bd.size / 2 ^ 12 / 2 ^ o

-- The storage of the 17 bitmaps, and a region whose page numbers fit an `unsigned`.
pub record IsShaped (bd : Buddy) : Type 0 where
  pub orders_length : length bd.orders ≡ 17
  pub bitmaps : (o : ℕ) → o < 17 → View.IsValid (bitmap_of bd o)
  pub extents : (o : ℕ) → o < 17 → (bitmap_of bd o).max_extent ≡ blocks bd o
  pub small : bd.size < 2 ^ 44

-- A normal return that makes bit `x` of order `o` equal to `v` and changes nothing else.
pub record Writes (bd : Buddy) (o x v : ℕ) (r : Outcome Buddy) : Type 0 where
  pub out : Buddy
  pub returns : r ≡ ok out
  pub shaped : IsShaped out
  pub same_start : out.start ≡ bd.start
  pub same_size : out.size ≡ bd.size
  pub view :
      (o' x' : ℕ)
      → free_at out o' x'
        ≡ (if o == o' then (if x == x' then v else free_at bd o' x') else free_at bd o' x')

module _ (bd : Buddy) (log_sz o : ℕ) (shaped : IsShaped bd) (e : log_sz ≡ o + 12)
    (lt : o < 17) where
  pub order-bitmap_of : order bd log_sz ≡ ok (bitmap_of bd o)
  unfolding order
  order-bitmap_of =
      let at_least : leb 12 log_sz ≡ true = ground arith in
      let index : log_sz - 12 ≡ o = omega arith in
      let in_range : o < length bd.orders = omega (arith, shaped.orders_length) in
      rw (at_least, index, get_elem?-eq-get_or bd.orders o no_bitmap in_range)

  -- An index that lies in the same byte as one of a whole block lies in the bitmap.
  module _ (x : ℕ) (inside : x / 8 ≤ blocks bd o / 8) where
    fits : x / 8 < length (bitmap_of bd o).bytes
    fits = omega (arith, (shaped.bitmaps o lt).fits, shaped.extents o lt)

    u32_self : u32 x ≡ x
    u32_self = mod-eq_of_lt (omega (arith, shaped.small, div-le_self (bd.size / 2 ^ 12) (2 ^ o)))

    pub test_bit-free_at : test_bit bd log_sz x ≡ ok (free_at bd o x == 1)
    unfolding test_bit
    test_bit-free_at = rw (order-bitmap_of, u32_self, View.isset-bit_at (bitmap_of bd o) x fits)

    module _ (v : ℕ) (f : Bitmap → Outcome Bitmap)
        (s : Stores (bitmap_of bd o) x v (f (bitmap_of bd o))) where
      abbrev written : Buddy
      written = record bd { orders = set_elem bd.orders o s.out }

      in_array : o < length bd.orders
      in_array = omega (arith, shaped.orders_length)

      written_self : bitmap_of written o ≡ s.out
      written_self = get_or-set_self bd.orders o s.out no_bitmap in_array

      written_ne : (o' : ℕ) → (o == o') ≡ false → bitmap_of written o' ≡ bitmap_of bd o'
      written_ne o' ne = get_or-set_ne bd.orders o o' s.out no_bitmap (ground arith)

      written-IsShaped : IsShaped written
      written-IsShaped = record {
        orders_length = rw (length-set bd.orders o s.out) shaped.orders_length;
        bitmaps = λ o' lt'. elim (Bool-cases (o == o')) [
          | inl same ↦ rw (← ==→eq o o' same, written_self) s.valid
          | inr ne ↦ rw (written_ne o' ne) (shaped.bitmaps o' lt')
        ];
        extents = λ o' lt'. elim (Bool-cases (o == o')) [
          | inl same ↦ rw (← ==→eq o o' same, written_self, s.same_extent) (shaped.extents o lt)
          | inr ne ↦ rw (written_ne o' ne) (shaped.extents o' lt')
        ];
        small = shaped.small;
      }

      on_order_returns : on_order bd log_sz f ≡ ok written
      unfolding on_order
      on_order_returns =
          let index : log_sz - 12 ≡ o = omega arith in rw (order-bitmap_of, s.returns, index)

      on_order-Writes : Writes bd o x v (on_order bd log_sz f)
      on_order-Writes = record {
        out = written;
        returns = on_order_returns;
        shaped = written-IsShaped;
        same_start = refl;
        same_size = refl;
        view = λ o' x'. elim (Bool-cases (o == o')) [
          | inl same ↦ rw (same, ← ==→eq o o' same, written_self) (s.bits x')
          | inr ne ↦ rw (ne, written_ne o' ne)
        ];
      }

    pub set_bit-Writes : Writes bd o x 1 (set_bit bd log_sz x)
    unfolding set_bit
    set_bit-Writes = rw u32_self (
        on_order-Writes 1 (λ xb. Bitmap.set xb x)
          (View.set-Stores (bitmap_of bd o) x (shaped.bitmaps o lt) fits))

    pub clear_bit-Writes : Writes bd o x 0 (clear_bit bd log_sz x)
    unfolding clear_bit
    clear_bit-Writes = rw u32_self (
        on_order-Writes 0 (λ xb. Bitmap.clear xb x)
          (View.clear-Stores (bitmap_of bd o) x (shaped.bitmaps o lt) fits))
