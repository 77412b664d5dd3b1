-- ===== src/Buddy/Init/Empty.antt =====
-- buddy_init() without `start_freed` gives a valid allocator with no page free.
use native.Mathlib.Nat.{div-le_self, mod-eq_of_lt, div-div-eq-div-mul}
use mink.Prelude.{
  ℕ, zero, suc, ◌+◌, ◌/◌, ◌^◌, ◌≤◌, ◌<◌, ◌≡◌, refl, arith, false, List, [], ◌∷◌, ◌∙◌, sym, ap,
  get_or, length, take, drop, length-take, length-drop, Outcome, ok,
}
use mink.Prelude.Powers.{two-pow-add}
use mink.Bitmap.{Bitmap}
use mink.Bitmap.View
use mink.Bitmap.View.{bit_at}
use mink.Bitmap.Scan
use mink.Buddy.{Range, Buddy, overhead_from}
use mink.Buddy.View.{no_bitmap, free_at}
use mink.Buddy.Pages.{free_count, FreeMap}
use mink.Buddy.Valid.{IsValid, page_count}
use mink.Buddy.Init.{init_orders, init}

record IsCleared (size i : ℕ) (xb : Bitmap) : Type 0 where
  valid : View.IsValid xb
  extent : xb.max_extent ≡ size / 2 ^ (12 + i)
  clear : (y : ℕ) → bit_at xb y ≡ 0

record Clears (left i size : ℕ) (r : Outcome (List Bitmap)) : Type 0 where
  out : List Bitmap
  returns : r ≡ ok out
  count : length out ≡ left
  cleared : (o : ℕ) → o < left → IsCleared size (i + o) (get_or out o no_bitmap)

shift_pages : (size i : ℕ) → size / 2 ^ (12 + i) ≡ size / 2 ^ 12 / 2 ^ i
shift_pages size i = rw (two-pow-add, ← div-div-eq-div-mul)

cleared-cons :
    (size i left : ℕ) (xb : Bitmap) (rest : List Bitmap)
    → IsCleared size i xb
    → ((o : ℕ) → o < left → IsCleared size (i + 1 + o) (get_or rest o no_bitmap))
    → (o : ℕ) → o < suc left
    → IsCleared size (i + o) (get_or (xb ∷ rest) o no_bitmap)
cleared-cons size i left xb rest here later zero lt = let e : i + 0 ≡ i = omega arith in rw e here
cleared-cons size i left xb rest here later (suc o) lt =
    let e : i + suc o ≡ i + 1 + o = omega arith in rw e (later o (omega arith))

init_orders-Clears :
    (left i j size : ℕ) (storage : List ℕ)
    → size < 2 ^ 44
    → j ≡ 12 + i
    → overhead_from left j size ≤ length storage
    → Clears left i size (init_orders left i size storage)
unfolding init_orders overhead_from
init_orders-Clears zero i j size storage small e h = record {
  out = [];
  returns = refl;
  count = refl;
  cleared = λ o lt. absurd (omega arith);
}
init_orders-Clears (suc left) i j size storage small e h =
    let idx = size / 2 ^ j in
    let at_j : 12 + i ≡ j = omega arith in
    let fits_word : idx < 2 ^ 32 =
      rw (← at_j, shift_pages) (omega (arith, div-le_self (size / 2 ^ 12) (2 ^ i))) in
    let (xb, returns, valid, extent, clear) =
      Scan.init_lem (take (idx / 8 + 1) storage) idx
        (length-take (idx / 8 + 1) storage (omega arith)) in
    let rest =
      init_orders-Clears left (i + 1) (j + 1) size (drop (idx / 8 + 1) storage) small (omega arith)
        (omega (arith, length-drop (idx / 8 + 1) storage)) in
    record {
      out = xb ∷ rest.out;
      returns = rw (at_j, mod-eq_of_lt fits_word, returns, rest.returns);
      count = ap suc rest.count;
      cleared =
          cleared-cons size i left xb rest.out
            (record {
              valid = valid;
              extent = extent ∙ ap (λ (t : ℕ). size / 2 ^ t) (sym at_j);
              clear = clear;
            })
            rest.cleared;
    }

no_pages : (f : FreeMap) (n p : ℕ) → ((o x : ℕ) → o < n → f o x ≡ 0) → free_count n f p ≡ 0
no_pages f zero p h = refl
no_pages f (suc n) p h =
    omega (arith, no_pages f n p (λ o x lt. h o x (omega arith)), h n (p / 2 ^ n) (omega arith))

-- Over storage as large as buddy_calc_overhead() asks for, and for a region below 16 TB,
-- buddy_init() with `start_freed` 0 ends normally with a valid allocator of that region, in which
-- no page is free.
pub init-IsValid :
    (storage : List ℕ) (r : Range)
    → r.extent < 2 ^ 44
    → overhead_from 17 12 r.extent ≤ length storage
    → (bd : Buddy) × (init storage r false ≡ ok bd)
      × IsValid bd
      × (bd.start ≡ r.start)
      × (bd.size ≡ r.extent)
      × ((p : ℕ) → page_count bd p ≡ 0)
unfolding init
init-IsValid storage r small h =
    let c = init_orders-Clears 17 0 12 r.extent storage small refl h in
    let bd : Buddy = record { start = r.start; size = r.extent; orders = c.out } in
    let cleared : (o : ℕ) → o < 17 → IsCleared r.extent o (get_or c.out o no_bitmap) =
      λ o lt. (let e : 0 + o ≡ o = omega arith in rw e at (c.cleared o lt)) in
    let empty : (p : ℕ) → page_count bd p ≡ 0 =
      λ p. no_pages (free_at bd) 17 p (λ o x lt. (cleared o lt).clear x) in
    (
      bd,
      rw c.returns,
      record {
        shaped = record {
          orders_length = c.count;
          bitmaps = λ o lt. (cleared o lt).valid;
          extents = λ o lt. (cleared o lt).extent ∙ shift_pages r.extent o;
          small = small;
        };
        whole = λ o x lt e. absurd (omega (arith, (cleared o lt).clear x));
        exclusive = λ p. omega (arith, empty p);
      },
      refl,
      refl,
      empty,
    )
