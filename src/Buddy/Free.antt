-- ===== src/Buddy/Free.antt =====
-- buddy_free() gives the pages of a block back, whatever it coalesces them into.
use native.Mathlib.Nat.{mod-eq_of_lt, div-le_self}
use mink.Prelude.{
  ℕ, zero, suc, ◌+◌, ◌-◌, ◌*◌, ◌/◌, ◌^◌, ◌≤◌, ◌<◌, ◌≡◌, refl, arith, true, false, ◌==◌, leb,
  Outcome, ok, ap, ◌∙◌, inl, inr, Bool-cases, ==→eq, bit_xor,
}
use mink.Prelude.Bits.{bit_xor-one}
use mink.Prelude.Powers.{div-two-pow-suc, two-pow_pos}
use mink.Utils.{log2_roundup}
use mink.Buddy.{Buddy, u32, u64, set_bit, clear_bit, test_bit, coalesce, free}
use mink.Buddy.View.{Writes, free_at, blocks, set_bit-Writes, clear_bit-Writes, test_bit-free_at}
use mink.Buddy.Pages.{in_block, in_block-halves}
use mink.Buddy.Valid.{
  IsValid, IsUnused, page_count, release-pages, release-IsValid, reserve-pages, reserve-IsValid,
  block_end, first_page,
}

-- `r` returns a valid allocator whose free pages are those of `bd` and those of the block.
pub record GivesBack (bd : Buddy) (o x : ℕ) (r : Outcome Buddy) : Type 0 where
  pub out : Buddy
  pub returns : r ≡ ok out
  pub valid : IsValid out
  pub same_start : out.start ≡ bd.start
  pub same_size : out.size ≡ bd.size
  pub pages : (p : ℕ) → page_count out p ≡ page_count bd p + in_block o x p

abbrev pub buddy_of : ℕ → ℕ
buddy_of x = bit_xor x 1

-- A block and its buddy are the halves of one block.
buddy-halves : (o x p : ℕ) → in_block (suc o) (x / 2) p ≡ in_block o x p + in_block o (buddy_of x) p
buddy-halves o x p = rw (in_block-halves o (x / 2) p) (ground (arith, bit_xor-one x))

buddy_ne : (x : ℕ) → (x == buddy_of x) ≡ false
buddy_ne x = ground (arith, bit_xor-one x)

-- The buddy lies in the same byte, so asking for it never leaves the bitmap.
same_byte : (x : ℕ) → buddy_of x / 8 ≡ x / 8
same_byte x = ground (arith, bit_xor-one x)

module _ (bd : Buddy) (log_sz o x : ℕ) (valid : IsValid bd) (lt : o < 17) (e : log_sz ≡ o + 12)
    (inside : x < blocks bd o) (unused : IsUnused bd o x) where
  marked : Writes bd o x 1 (set_bit bd log_sz x)
  marked = set_bit-Writes bd log_sz o valid.shaped e lt x (omega (arith, inside))

  marked-IsValid : IsValid marked.out
  marked-IsValid = release-IsValid bd o x valid lt marked inside unused

  marked-pages : (p : ℕ) → page_count marked.out p ≡ page_count bd p + in_block o x p
  marked-pages = release-pages bd o x valid lt marked inside unused

  stops : (r : Outcome Buddy) → r ≡ ok marked.out → GivesBack bd o x r
  stops r returns = record {
    out = marked.out;
    returns = returns;
    valid = marked-IsValid;
    same_start = marked.same_start;
    same_size = marked.same_size;
    pages = marked-pages;
  }

  same_blocks : blocks marked.out o ≡ blocks bd o
  same_blocks = rw marked.same_size

  buddy_in_byte : buddy_of x / 8 ≤ blocks marked.out o / 8
  buddy_in_byte = omega (arith, same_byte x, inside, same_blocks)

  tested : test_bit marked.out log_sz (buddy_of x) ≡ ok (free_at marked.out o (buddy_of x) == 1)
  tested = test_bit-free_at marked.out log_sz o marked.shaped e lt (buddy_of x) buddy_in_byte

  module _ (buddy_free : free_at marked.out o (buddy_of x) ≡ 1) where
    self_free : free_at marked.out o x ≡ 1
    self_free = ground (arith, marked.view o x)

    cleared : Writes marked.out o x 0 (clear_bit marked.out log_sz x)
    cleared =
        clear_bit-Writes marked.out log_sz o marked.shaped e lt x
          (omega (arith, inside, same_blocks))

    cleared-IsValid : IsValid cleared.out
    cleared-IsValid = reserve-IsValid marked.out o x marked-IsValid lt cleared self_free

    buddy_in_byte' : buddy_of x / 8 ≤ blocks cleared.out o / 8
    buddy_in_byte' = rw cleared.same_size buddy_in_byte

    joined : Writes cleared.out o (buddy_of x) 0 (clear_bit cleared.out log_sz (buddy_of x))
    joined = clear_bit-Writes cleared.out log_sz o cleared.shaped e lt (buddy_of x) buddy_in_byte'

    still_free : free_at cleared.out o (buddy_of x) ≡ 1
    still_free = ground (arith, cleared.view o (buddy_of x), buddy_ne x)

    joined-IsValid : IsValid joined.out
    joined-IsValid = reserve-IsValid cleared.out o (buddy_of x) cleared-IsValid lt joined still_free

    joined-pages :
        (p : ℕ)
        → page_count joined.out p + in_block (suc o) (x / 2) p ≡ page_count bd p + in_block o x p
    joined-pages p = omega (
      arith,
      reserve-pages cleared.out o (buddy_of x) cleared-IsValid lt joined still_free p,
      reserve-pages marked.out o x marked-IsValid lt cleared self_free p,
      marked-pages p,
      buddy-halves o x p,
    )

    joined-size : joined.out.size ≡ bd.size
    joined-size = joined.same_size ∙ cleared.same_size ∙ marked.same_size

    joined-start : joined.out.start ≡ bd.start
    joined-start = joined.same_start ∙ cleared.same_start ∙ marked.same_start

    -- The joined block ends inside the region, since both its halves do.
    joined_inside : x / 2 < blocks joined.out (suc o)
    joined_inside =
        let buddy_inside = marked-IsValid.whole o (buddy_of x) lt buddy_free in
        let half : blocks bd (suc o) ≡ blocks bd o / 2 = div-two-pow-suc (bd.size / 2 ^ 12) o in
        rw joined-size (ground (arith, half, buddy_inside, inside, same_blocks, bit_xor-one x))

    joined-IsUnused : IsUnused joined.out (suc o) (x / 2)
    joined-IsUnused p at_p = ground (
      arith,
      joined-pages p,
      marked-IsValid.exclusive p,
      marked-pages p,
      unused p,
      buddy-halves o x p,
      reserve-pages cleared.out o (buddy_of x) cleared-IsValid lt joined still_free p,
      reserve-pages marked.out o x marked-IsValid lt cleared self_free p,
    )

    joins :
        (left : ℕ)
        → GivesBack joined.out (suc o) (x / 2) (coalesce joined.out left (log_sz + 1) (x / 2))
        → (o == 16) ≡ false
        → GivesBack bd o x (coalesce bd (suc left) log_sz x)
    joins left rest not_top = record {
      out = rest.out;
      returns =
          unfold coalesce in
          rw (marked.returns, not_max, tested, buddy_free, cleared.returns, joined.returns)
            rest.returns;
      valid = rest.valid;
      same_start = rest.same_start ∙ joined-start;
      same_size = rest.same_size ∙ joined-size;
      pages = λ p. omega (arith, rest.pages p, joined-pages p);
    }
      where
        not_max : (log_sz == 28) ≡ false
        not_max = ground arith

-- The loop of buddy_free() ends, and gives back the pages of the block that it is at.
pub coalesce-GivesBack :
    (left log_sz o x : ℕ) (bd : Buddy)
    → IsValid bd
    → log_sz ≡ o + 12
    → left + o ≡ 17
    → o < 17
    → x < blocks bd o
    → IsUnused bd o x
    → GivesBack bd o x (coalesce bd left log_sz x)
coalesce-GivesBack zero log_sz o x bd valid e f lt inside unused = absurd (omega arith)
coalesce-GivesBack (suc left) log_sz o x bd valid e f lt inside unused =
    let m = marked bd log_sz o x valid lt e inside unused in
    elim (Bool-cases (o == 16)) [
      | inl top ↦
          let is_max : (log_sz == 28) ≡ true = ground arith in
          stops bd log_sz o x valid lt e inside unused (coalesce bd (suc left) log_sz x)
            (unfold coalesce in rw (m.returns, is_max))
      | inr below ↦
          let not_max : (log_sz == 28) ≡ false = ground arith in
          elim (Bool-cases (free_at m.out o (buddy_of x) == 1)) [
            | inl buddy ↦
                let is_free : free_at m.out o (buddy_of x) ≡ 1 = ==→eq _ _ buddy in
                joins bd log_sz o x valid lt e inside unused is_free left
                  (coalesce-GivesBack left (log_sz + 1) (suc o) (x / 2)
                    (joined bd log_sz o x valid lt e inside unused is_free).out
                    (joined-IsValid bd log_sz o x valid lt e inside unused is_free) (omega arith)
                    (omega arith) (ground arith)
                    (joined_inside bd log_sz o x valid lt e inside unused is_free)
                    (joined-IsUnused bd log_sz o x valid lt e inside unused is_free))
                  below
            | inr taken ↦
                stops bd log_sz o x valid lt e inside unused (coalesce bd (suc left) log_sz x) (
                  unfold coalesce in
                  rw (m.returns, not_max, tested bd log_sz o x valid lt e inside unused, taken))
          ]
    ]

-- The 64-bit offset of an address behind the start.
offset : (start n : ℕ) → start + n < 2 ^ 64 → u64 (u64 (start + n) + 2 ^ 64 - start) ≡ n
offset start n h = omega arith

-- The number that buddy_free() computes from the address of a block.
block_number :
    (bd : Buddy) (o x : ℕ)
    → IsValid bd
    → o < 17
    → x < blocks bd o
    → bd.start + bd.size ≤ 2 ^ 64
    → u32 (u64 (u64 (bd.start + x * 2 ^ (o + 12)) + 2 ^ 64 - bd.start) / 2 ^ (o + 12)) ≡ x
block_number bd o x valid lt inside fits =
    let below : bd.start + x * 2 ^ (o + 12) < 2 ^ 64 =
      omega (arith, block_end bd o x inside, two-pow_pos (o + 12)) in
    let small : x < 2 ^ 32 =
      omega (arith, valid.shaped.small, div-le_self (bd.size / 2 ^ 12) (2 ^ o)) in
    rw (offset bd.start (x * 2 ^ (o + 12)) below, first_page (o + 12) x) (mod-eq_of_lt small)

-- buddy_free() of a block of the region that buddy_alloc() could have returned, none of whose
-- pages is free: it ends normally, and the free pages are those before and the block's.
pub free-GivesBack :
    (bd : Buddy) (sz o x : ℕ)
    → IsValid bd
    → log2_roundup sz ≡ ok (o + 12)
    → o < 17
    → x < blocks bd o
    → IsUnused bd o x
    → bd.start + bd.size ≤ 2 ^ 64
    → GivesBack bd o x (free bd (u64 (bd.start + x * 2 ^ (o + 12))) sz)
free-GivesBack bd sz o x valid e lt inside unused fits =
    rw entered
      (coalesce-GivesBack (29 - (o + 12)) (o + 12) o x bd valid refl (omega arith) lt inside unused)
  where
    entered :
        free bd (u64 (bd.start + x * 2 ^ (o + 12))) sz ≡ coalesce bd (29 - (o + 12)) (o + 12) x
    entered =
        let at_least : leb 12 (o + 12) ≡ true = ground arith in
        unfold free in
        rw (e, at_least)
          (ap (λ i. coalesce bd (29 - (o + 12)) (o + 12) i)
            (block_number bd o x valid lt inside fits))
