-- ===== src/Buddy/Split.antt =====
-- The splitting loop of buddy_alloc() changes which blocks are free, and no page.
use mink.Prelude.{ℕ, zero, suc, ◌+◌, ◌-◌, ◌*◌, ◌/◌, ◌^◌, ◌<◌, ◌≡◌, refl, arith, Outcome, ok, ◌∙◌}
use mink.Prelude.Powers.{two-pow-suc}
use mink.Buddy.{Buddy, set_bit, clear_bit, split}
use mink.Buddy.View.{Writes, free_at, blocks, set_bit-Writes, clear_bit-Writes}
use mink.Buddy.Pages.{in_block, in_block-halves}
use mink.Buddy.Valid.{
  IsValid, IsUnused, page_count, release-pages, release-IsValid, reserve-pages, reserve-IsValid,
  reserve-IsUnused,
}
use mink.Prelude.Powers.{div-two-pow-suc}

-- `r` returns a valid allocator with the same free pages, in which block `idx` of order `o` is
-- free, and it returns the number of that block.
pub record Splits (bd : Buddy) (o idx : ℕ) (r : Outcome (Buddy × ℕ)) : Type 0 where
  pub out : Buddy
  pub returns : r ≡ ok (out, idx)
  pub valid : IsValid out
  pub same_start : out.start ≡ bd.start
  pub same_size : out.size ≡ bd.size
  pub is_free : free_at out o idx ≡ 1
  pub pages : (p : ℕ) → page_count out p ≡ page_count bd p

halves_inside : (bd : Buddy) (k x : ℕ) → x < blocks bd (suc k) → x * 2 + 1 < blocks bd k
halves_inside bd k x h =
    let e : blocks bd (suc k) ≡ blocks bd k / 2 = div-two-pow-suc (bd.size / 2 ^ 12) k in
    omega (arith, e)

module _ (bd : Buddy) (log_sz k x : ℕ) (valid : IsValid bd) (lt : suc k < 17)
    (e : log_sz ≡ suc k + 12) (is_free : free_at bd (suc k) x ≡ 1) where
  inside : x < blocks bd (suc k)
  inside = valid.whole (suc k) x lt is_free

  lower : log_sz - 1 ≡ k + 12
  lower = omega arith

  taken : Writes bd (suc k) x 0 (clear_bit bd log_sz x)
  taken = clear_bit-Writes bd log_sz (suc k) valid.shaped e lt x (omega (arith, inside))

  taken-IsValid : IsValid taken.out
  taken-IsValid = reserve-IsValid bd (suc k) x valid lt taken is_free

  left_inside : x * 2 < blocks taken.out k
  left_inside = rw taken.same_size (omega (arith, halves_inside bd k x inside))

  first : Writes taken.out k (x * 2) 1 (set_bit taken.out (log_sz - 1) (x * 2))
  first =
      set_bit-Writes taken.out (log_sz - 1) k taken.shaped lower (omega arith) (x * 2)
        (omega (arith, left_inside))

  -- Both halves are unused once the block is taken.
  half-IsUnused : (y : ℕ) → y / 2 ≡ x → IsUnused taken.out k y
  half-IsUnused y h p at_p =
      reserve-IsUnused bd (suc k) x valid lt taken is_free p (div-two-pow-suc p k ∙ rw at_p h)

  first-IsValid : IsValid first.out
  first-IsValid =
      release-IsValid taken.out k (x * 2) taken-IsValid (omega arith) first left_inside
        (half-IsUnused (x * 2) (omega arith))

  first-pages : (p : ℕ) → page_count first.out p ≡ page_count taken.out p + in_block k (x * 2) p
  first-pages =
      release-pages taken.out k (x * 2) taken-IsValid (omega arith) first left_inside
        (half-IsUnused (x * 2) (omega arith))

  right_inside : x * 2 + 1 < blocks first.out k
  right_inside = rw (first.same_size, taken.same_size) (halves_inside bd k x inside)

  second : Writes first.out k (x * 2 + 1) 1 (set_bit first.out (log_sz - 1) (x * 2 + 1))
  second =
      set_bit-Writes first.out (log_sz - 1) k first.shaped lower (omega arith) (x * 2 + 1)
        (omega (arith, right_inside))

  right-IsUnused : IsUnused first.out k (x * 2 + 1)
  right-IsUnused p at_p =
      ground (arith, first-pages p, half-IsUnused (x * 2 + 1) (omega arith) p at_p)

  -- One round of the loop.
  once-IsValid : IsValid second.out
  once-IsValid =
      release-IsValid first.out k (x * 2 + 1) first-IsValid (omega arith) second right_inside
        right-IsUnused

  once-pages : (p : ℕ) → page_count second.out p ≡ page_count bd p
  once-pages p = omega (
    arith,
    release-pages first.out k (x * 2 + 1) first-IsValid (omega arith) second right_inside
        right-IsUnused p,
    first-pages p,
    reserve-pages bd (suc k) x valid lt taken is_free p,
    in_block-halves k x p,
  )

  once-start : second.out.start ≡ bd.start
  once-start = second.same_start ∙ first.same_start ∙ taken.same_start

  once-size : second.out.size ≡ bd.size
  once-size = second.same_size ∙ first.same_size ∙ taken.same_size

  once-free : free_at second.out k (x * 2) ≡ 1
  once-free = ground (arith, second.view k (x * 2), first.view k (x * 2))

  once-returns :
      (left : ℕ) → split bd (suc left) log_sz x ≡ split second.out left (log_sz - 1) (x * 2)
  unfolding split
  once-returns left = rw (taken.returns, first.returns, second.returns)

mul-two-pow-suc : (q k : ℕ) → q * 2 ^ suc k ≡ q * 2 * 2 ^ k
mul-two-pow-suc q k = rw two-pow-suc (omega arith)

-- The loop splits a free block of order `j` down to order `o`.
pub split-Splits :
    (left log_sz j o idx : ℕ) (bd : Buddy)
    → IsValid bd
    → log_sz ≡ j + 12
    → j ≡ left + o
    → j < 17
    → free_at bd j idx ≡ 1
    → Splits bd o (idx * 2 ^ left) (split bd left log_sz idx)
split-Splits zero log_sz j o idx bd valid e f lt is_free =
    let same_order : j ≡ o = omega arith in
    let same_idx : idx * 2 ^ 0 ≡ idx = omega arith in
    rw same_idx (record {
      out = bd;
      returns = unfold split in refl;
      valid = valid;
      same_start = refl;
      same_size = refl;
      is_free = rw (← same_order) is_free;
      pages = λ p. refl;
    })
split-Splits (suc left) log_sz zero o idx bd valid e f lt is_free = absurd (omega arith)
split-Splits (suc left) log_sz (suc k) o idx bd valid e f lt is_free =
    let next = second bd log_sz k idx valid lt e is_free in
    let rest =
      split-Splits left (log_sz - 1) k o (idx * 2) next.out
        (once-IsValid bd log_sz k idx valid lt e is_free) (omega arith) (omega arith) (omega arith)
        (once-free bd log_sz k idx valid lt e is_free) in
    let index : idx * 2 ^ suc left ≡ idx * 2 * 2 ^ left = mul-two-pow-suc idx left in
    rw (index, once-returns bd log_sz k idx valid lt e is_free left)
      (record {
        out = rest.out;
        returns = rest.returns;
        valid = rest.valid;
        same_start = rest.same_start ∙ once-start bd log_sz k idx valid lt e is_free;
        same_size = rest.same_size ∙ once-size bd log_sz k idx valid lt e is_free;
        is_free = rest.is_free;
        pages = λ p. rest.pages p ∙ once-pages bd log_sz k idx valid lt e is_free p;
      })
