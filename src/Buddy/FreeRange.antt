-- ===== src/Buddy/FreeRange.antt =====
-- buddy_free_range() covers a page-aligned range with aligned blocks, and frees exactly its pages.
use native.Mathlib.Nat.{div-lt_iff_lt-mul, le-div_iff_mul-le, div-add-mod'}
use mink.Prelude.{
  ℕ, zero, suc, ◌+◌, ◌-◌, ◌*◌, ◌/◌, ◌%◌, ◌^◌, ◌≤◌, ◌<◌, ◌≡◌, refl, arith, true, not, ◌||◌, ◌&&◌,
  ◌==◌, ltb, leb, if◌then◌else◌, some, Outcome, ok, ◌∙◌, sym, inl, inr, Bool-cases, ==→eq,
}
use mink.Prelude.Powers.{two-pow_pos, two-pow-add}
use mink.Utils.Log2.{log2_roundup-two-pow}
use mink.Buddy.{Range, Buddy, u64, aligned_for, largest_block, free_blocks, free_range, free}
use mink.Buddy.View.{blocks}
use mink.Buddy.Pages.{in_block}
use mink.Buddy.Valid.{IsValid, IsUnused, page_count}
use mink.Buddy.Free.{GivesBack, free-GivesBack}

-- Page `p` is one of the `n` pages from `a` on.
abbrev pub in_range : ℕ → ℕ → ℕ → ℕ
in_range a n p = if leb a p && ltb p (a + n) then 1 else 0

pub in_block-in_range : (o x p : ℕ) → in_block o x p ≡ in_range (x * 2 ^ o) (2 ^ o) p
in_block-in_range o x p = elim (Bool-cases (p / 2 ^ o == x)) [
  | inl inside ↦
      let e : p / 2 ^ o ≡ x = ==→eq _ _ inside in
      let low : x * 2 ^ o ≤ p = (le-div_iff_mul-le (two-pow_pos o)).0 (omega arith) in
      let high : p < suc x * 2 ^ o = (div-lt_iff_lt-mul (two-pow_pos o)).0 (omega arith) in
      rw inside (ground arith)
  | inr outside ↦ rw outside (elim (Bool-cases (leb (x * 2 ^ o) p && ltb p (x * 2 ^ o + 2 ^ o))) [
    | inl both ↦
        let low : x ≤ p / 2 ^ o = (le-div_iff_mul-le (two-pow_pos o)).1 (ground arith) in
        let high : p / 2 ^ o < suc x = (div-lt_iff_lt-mul (two-pow_pos o)).1 (ground arith) in
        absurd (ground arith)
    | inr neither ↦ rw neither
  ])
]

-- The size that the inner loop picks fits the range and is aligned; 4 KB always is a candidate.
module _ (bd : Buddy) (range : Range) where
  abbrev offset_of : ℕ
  offset_of = u64 (range.start + 2 ^ 64 - bd.start)

  largest_block_lem :
      (left : ℕ)
      → 2 ^ 12 ≤ range.extent
      → offset_of % 2 ^ 12 ≡ 0
      → (o : ℕ) × (largest_block bd (suc left) range ≡ some (o + 12))
        × (o ≤ left)
        × (2 ^ (o + 12) ≤ range.extent)
        × (offset_of % 2 ^ (o + 12) ≡ 0)
  unfolding largest_block aligned_for
  largest_block_lem zero fits aligned = (0, ground arith, omega arith, fits, aligned)
  largest_block_lem (suc left) fits aligned =
      elim (Bool-cases
        (ltb range.extent (2 ^ (suc left + 12)) || not (offset_of % 2 ^ (suc left + 12) == 0))) [
          | inl skip ↦
              let (o, found, le, small, multiple) = largest_block_lem left fits aligned in
              (o, rw skip found, omega arith, small, multiple)
          | inr take ↦ (suc left, rw take, omega arith, ground arith, ground arith)
        ]

in_range-split :
    (a k n p : ℕ) → k ≤ n → in_range a n p ≡ in_range a k p + in_range (a + k) (n - k) p
in_range-split a k n p h = ground arith

-- `r` returns a valid allocator whose free pages are those of `bd` and the `n` pages from `a` on.
pub record GivesRange (bd : Buddy) (a n : ℕ) (r : Outcome Buddy) : Type 0 where
  pub out : Buddy
  pub returns : r ≡ ok out
  pub valid : IsValid out
  pub same_start : out.start ≡ bd.start
  pub same_size : out.size ≡ bd.size
  pub pages : (p : ℕ) → page_count out p ≡ page_count bd p + in_range a n p

-- A region on a page boundary that ends below 2^64, and a range of it from page `a` on, none of
-- whose whole pages is free.
pub record IsFreeable (bd : Buddy) (a : ℕ) (range : Range) : Type 0 where
  pub valid : IsValid bd
  pub no_wrap : bd.start + bd.size < 2 ^ 64
  pub start_page : bd.start % 2 ^ 12 ≡ 0
  pub starts : range.start ≡ bd.start + a * 2 ^ 12
  pub ends : a * 2 ^ 12 + range.extent ≤ bd.size
  pub unused : (p : ℕ) → a ≤ p → p < a + range.extent / 2 ^ 12 → page_count bd p ≡ 0

module _ (bd : Buddy) (a : ℕ) (range : Range) (h : IsFreeable bd a range) where
  offset_is : offset_of bd range ≡ a * 2 ^ 12
  offset_is = rw h.starts (omega (arith, h.ends, h.no_wrap))

  is_aligned : aligned_for range.start 12 ≡ true
  unfolding aligned_for
  is_aligned = ground (arith, h.starts, h.start_page)

  address_back : u64 (offset_of bd range + bd.start) ≡ range.start
  address_back = rw offset_is (omega (arith, h.starts, h.ends, h.no_wrap))

  module _ (o : ℕ) (o_le : o ≤ 16) (small : 2 ^ (o + 12) ≤ range.extent)
      (multiple : offset_of bd range % 2 ^ (o + 12) ≡ 0) where
    abbrev number : ℕ
    number = a * 2 ^ 12 / 2 ^ (o + 12)

    scaled : 2 ^ (o + 12) ≡ 2 ^ o * 2 ^ 12
    scaled = two-pow-add o 12

    number_address : number * 2 ^ (o + 12) ≡ a * 2 ^ 12
    number_address =
        let rest : a * 2 ^ 12 % 2 ^ (o + 12) ≡ 0 = rw (sym offset_is) multiple in
        omega (arith, div-add-mod' (a * 2 ^ 12) (2 ^ (o + 12)), rest)

    number_page : number * 2 ^ o ≡ a
    number_page =
        let e : number * (2 ^ o * 2 ^ 12) ≡ a * 2 ^ 12 = rw (← scaled) number_address in
        omega (arith, e)

    number_inside : number < blocks bd o
    number_inside =
        (le-div_iff_mul-le (two-pow_pos o)).1 (omega (arith, number_page, small, scaled, h.ends))

    number-IsUnused : IsUnused bd o number
    number-IsUnused p at_p =
        let low : number * 2 ^ o ≤ p =
          (le-div_iff_mul-le (two-pow_pos o)).0 (omega (arith, at_p)) in
        let high : p < suc number * 2 ^ o =
          (div-lt_iff_lt-mul (two-pow_pos o)).0 (omega (arith, at_p)) in
        h.unused p (omega (arith, number_page)) (omega (arith, number_page, small, scaled))

    freed : GivesBack bd o number (free bd range.start (2 ^ (o + 12)))
    freed = rw address (
        free-GivesBack bd (2 ^ (o + 12)) o number h.valid
          (log2_roundup-two-pow (o + 12) (omega arith)) (omega arith) number_inside number-IsUnused
          (omega (arith, h.no_wrap)))
      where
        address : range.start ≡ u64 (bd.start + number * 2 ^ (o + 12))
        address = rw number_address (omega (arith, h.starts, h.ends, h.no_wrap))

    abbrev next_range : Range
    next_range = record {
      start = u64 (range.start + 2 ^ (o + 12));
      extent = range.extent - 2 ^ (o + 12);
    }

    freed_pages : (p : ℕ) → page_count freed.out p ≡ page_count bd p + in_range a (2 ^ o) p
    freed_pages p =
        let e : in_block o number p ≡ in_range a (2 ^ o) p =
          rw number_page at (in_block-in_range o number p) in
        omega (arith, freed.pages p, e)

    next-IsFreeable : IsFreeable freed.out (a + 2 ^ o) next_range
    next-IsFreeable = record {
      valid = freed.valid;
      no_wrap = omega (arith, freed.same_start, freed.same_size, h.no_wrap);
      start_page = rw freed.same_start h.start_page;
      starts = omega (arith, freed.same_start, h.starts, h.ends, h.no_wrap, scaled, small);
      ends = omega (arith, freed.same_size, h.ends, scaled, small);
      unused = λ p low high. ground (
        arith,
        freed_pages p,
        scaled,
        small,
        h.unused p (omega arith) (omega (arith, scaled, small)),
      );
    }

    join :
        {r : Outcome Buddy}
        → GivesRange freed.out (a + 2 ^ o) (next_range.extent / 2 ^ 12) r
        → GivesRange bd a (range.extent / 2 ^ 12) r
    join rest = record {
      out = rest.out;
      returns = rest.returns;
      valid = rest.valid;
      same_start = rest.same_start ∙ freed.same_start;
      same_size = rest.same_size ∙ freed.same_size;
      pages = λ p.
          let fewer : next_range.extent / 2 ^ 12 ≡ range.extent / 2 ^ 12 - 2 ^ o =
            omega (arith, scaled, small) in
          let rest_pages = rw fewer at (rest.pages p) in
          omega (
            arith,
            rest_pages,
            freed_pages p,
            in_range-split a (2 ^ o) (range.extent / 2 ^ 12) p (omega (arith, scaled, small)),
          );
    }

pub free_blocks-GivesRange :
    (fuel a : ℕ) (bd : Buddy) (range : Range)
    → IsFreeable bd a range
    → range.extent / 2 ^ 12 < fuel
    → GivesRange bd a (range.extent / 2 ^ 12) (free_blocks fuel bd range)
unfolding free_blocks
free_blocks-GivesRange zero a bd range h enough = absurd (omega arith)
free_blocks-GivesRange (suc fuel) a bd range h enough =
    elim (Bool-cases (leb (2 ^ 12) range.extent)) [
      | inl more ↦
          let fits : 2 ^ 12 ≤ range.extent = ground arith in
          let (o, found, o_le, small, multiple) =
            largest_block_lem bd range 16 fits (rw (offset_is bd a range h) (omega arith)) in
          let g = freed bd a range h o o_le small multiple in
          rw (more, is_aligned bd a range h, found, address_back bd a range h, g.returns)
            (join bd a range h o o_le small multiple (
              free_blocks-GivesRange fuel (a + 2 ^ o) g.out
                (next_range bd a range h o o_le small multiple)
                (next-IsFreeable bd a range h o o_le small multiple)
                (omega (arith, small, enough, two-pow-add o 12, two-pow_pos o))))
      | inr less ↦ rw less (record {
        out = bd;
        returns = refl;
        valid = h.valid;
        same_start = refl;
        same_size = refl;
        pages = λ p. ground arith;
      })
    ]

-- buddy_free_range() of a range on a page boundary inside a region on a page boundary, none of
-- whose whole pages is free: the loops end, and the free pages are those before and the whole
-- pages of the range.
pub free_range-GivesRange :
    (a : ℕ) (bd : Buddy) (range : Range)
    → IsFreeable bd a range
    → GivesRange bd a (range.extent / 2 ^ 12) (free_range bd range)
unfolding free_range
free_range-GivesRange a bd range h =
    rw (is_aligned bd a range h)
      (free_blocks-GivesRange (range.extent / 2 ^ 12 + 1) a bd range h (omega arith))
