-- ===== src/Buddy/Pages.antt =====
-- The abstract view of an allocator: how often each page of the region is free. The functions of
-- this file speak of any map from orders and indices to 0 or 1.
use mink.Prelude.{
  ℕ, zero, suc, ◌+◌, ◌*◌, ◌/◌, ◌^◌, ◌≤◌, ◌<◌, ◌≡◌, refl, arith, ◌==◌, if◌then◌else◌, Bool-cases,
  inl, inr, ==→eq,
}
use mink.Prelude.Powers.{div-two-pow-suc}

abbrev pub FreeMap : Type 0
FreeMap = ℕ → ℕ → ℕ

-- Page `p` lies in block `x` of order `o`.
abbrev pub in_block : ℕ → ℕ → ℕ → ℕ
in_block o x p = if p / 2 ^ o == x then 1 else 0

-- The number of free blocks of the first `n` orders that page `p` lies in.
abbrev pub free_count : ℕ → FreeMap → ℕ → ℕ
free_count zero f p = 0
free_count (suc o) f p = free_count o f p + f o (p / 2 ^ o)

-- `g` is `f` with the value at `o` and `x` made `v`.
abbrev pub Updates : FreeMap → ℕ → ℕ → ℕ → FreeMap → Type 0
Updates f o x v g =
    (o' x' : ℕ) → g o' x' ≡ (if o == o' then (if x == x' then v else f o' x') else f o' x')

module _ (f g : FreeMap) (o x v : ℕ) (u : Updates f o x v g) where
  free_count-outside : (n p : ℕ) → n ≤ o → free_count n g p ≡ free_count n f p
  free_count-outside zero p h = refl
  free_count-outside (suc n) p h =
      ground (arith, free_count-outside n p (omega arith), u n (p / 2 ^ n))

  pub free_count-update :
      (n p : ℕ)
      → o < n
      → free_count n g p + (if p / 2 ^ o == x then f o x else 0)
        ≡ free_count n f p + (if p / 2 ^ o == x then v else 0)
  free_count-update zero p h = absurd (omega arith)
  free_count-update (suc n) p h = elim (Bool-cases (o == n)) [
    | inl last ↦
        rw (← ==→eq o n last) (last_order (p / 2 ^ o) (free_count-outside o p (omega arith)))
    | inr below ↦ ground (arith, free_count-update n p (ground arith), u n (p / 2 ^ n))
  ]
    where
      last_order :
          (y : ℕ) {a b : ℕ}
          → a ≡ b
          → a + g o y + (if y == x then f o x else 0) ≡ b + f o y + (if y == x then v else 0)
      last_order y e = ground (arith, u o y)

-- A block covers the pages of its two halves.
pub in_block-halves :
    (o x p : ℕ) → in_block (suc o) x p ≡ in_block o (x * 2) p + in_block o (x * 2 + 1) p
in_block-halves o x p = rw div-two-pow-suc (halves (p / 2 ^ o))
  where
    halves :
        (q : ℕ)
        → (if q / 2 == x then 1 else 0)
          ≡ (if q == x * 2 then 1 else 0) + (if q == x * 2 + 1 then 1 else 0)
    halves q = ground arith

module _ (f : FreeMap) where
  -- What is free at an order counts for each of its pages.
  pub le-free_count : (n o p : ℕ) → o < n → f o (p / 2 ^ o) ≤ free_count n f p
  le-free_count zero o p h = absurd (omega arith)
  le-free_count (suc n) o p h = elim (Bool-cases (o == n)) [
    | inl last ↦ rw (==→eq o n last) (omega arith)
    | inr below ↦ omega (arith, le-free_count n o p (ground arith))
  ]

  -- Two orders that are both free at a page count twice.
  pub le-free_count_two :
      (n i j p : ℕ) → i < j → j < n → f i (p / 2 ^ i) + f j (p / 2 ^ j) ≤ free_count n f p
  le-free_count_two zero i j p h lt = absurd (omega arith)
  le-free_count_two (suc n) i j p h lt = elim (Bool-cases (j == n)) [
    | inl last ↦ rw (==→eq j n last) (omega (arith, le-free_count n i p (ground arith)))
    | inr below ↦ omega (arith, le-free_count_two n i j p h (ground arith))
  ]
