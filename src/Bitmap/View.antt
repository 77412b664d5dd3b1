-- ===== src/Bitmap/View.antt =====
-- What the single-bit operations of bitmap.c do, as updates of a map from indices to 0 or 1.
use native.Mathlib.Nat.{one-le-pow, zero-mul}
use mink.Prelude.{
  passes, passes-below, ℕ, zero, suc, ◌-◌, ◌/◌, ◌%◌, ◌^◌, ◌<◌, bit_and, bit_or, ◌≡◌, refl, arith,
  Bool, true, false, ◌==◌, if◌then◌else◌, get_or, length, length-set, get_or-set_self,
  get_or-set_ne, get_elem?-eq-get_or, Outcome, ok, set as set_elem, ◌&&◌, Bool-cases, ◌⊎◌, inl, inr,
  ==→eq,
}
use mink.Prelude.Bits.{bit, bit-lt, bit-bit_or, bit-bit_and, bit_and_one_bit}
use mink.Bitmap.{Bitmap, u8, isset, set, clear}

-- The bit at index `x`, 0 or 1.
abbrev pub bit_at : Bitmap → ℕ → ℕ
bit_at xb x = bit (get_or xb.bytes (x / 8) 0) (x % 8)

pub record IsValid (xb : Bitmap) : Type 0 where
  pub fits : xb.max_extent / 8 < length xb.bytes
  pub is_bytes : (i : ℕ) → get_or xb.bytes i 0 < 256

-- `r` is a normal return of `xb` with bit `x` made `v` and no other changed.
pub record Stores (xb : Bitmap) (x v : ℕ) (r : Outcome Bitmap) : Type 0 where
  pub out : Bitmap
  pub returns : r ≡ ok out
  pub same_length : length out.bytes ≡ length xb.bytes
  pub same_extent : out.max_extent ≡ xb.max_extent
  pub valid : IsValid out
  pub bits : (y : ℕ) → bit_at out y ≡ (if x == y then v else bit_at xb y)

pub bit-cases : (a j : ℕ) → (bit a j ≡ 0) ⊎ (bit a j ≡ 1)
bit-cases a j = omega (arith, bit-lt a j)

-- The masks of a byte, all 64 cases by evaluation.
mask_row : ℕ → ℕ → Bool
mask_row k j =
    (bit (2 ^ k) j == (if k == j then 1 else 0))
    && (bit (2 ^ 32 - 1 - 2 ^ k) j == (if k == j then 0 else 1))

mask_table : passes (λ k. passes (mask_row k) 8) 8 ≡ true
unfolding passes mask_row
mask_table = refl

mask_bits :
    (k j : ℕ)
    → k < 8
    → j < 8
    → (bit (2 ^ k) j ≡ (if k == j then 1 else 0))
      × (bit (2 ^ 32 - 1 - 2 ^ k) j ≡ (if k == j then 0 else 1))
unfolding mask_row
mask_bits k j hk hj =
    let rows = passes-below (λ k. passes (mask_row k) 8) 8 k hk mask_table in
    let cell = passes-below (mask_row k) 8 j hj rows in ground arith

-- `b &= ~(1 << k)` and `b |= 1 << k` on the bits of a byte.
pub clear_bits :
    (b k j : ℕ)
    → k < 8
    → j < 8
    → bit (bit_and b (2 ^ 32 - 1 - 2 ^ k)) j ≡ (if k == j then 0 else bit b j)
clear_bits b k j hk hj =
    ground (arith, bit-bit_and b (2 ^ 32 - 1 - 2 ^ k) j, mask_bits k j hk hj, bit-lt b j)

pub set_bits :
    (b k j : ℕ) → k < 8 → j < 8 → bit (bit_or b (2 ^ k)) j ≡ (if k == j then 1 else bit b j)
set_bits b k j hk hj = ground (arith, bit-bit_or b (2 ^ k) j, mask_bits k j hk hj, bit-lt b j)

pub bit-u8 : (n j : ℕ) → j < 8 → bit (u8 n) j ≡ bit n j
bit-u8 n zero h = omega arith
bit-u8 n (suc zero) h = omega arith
bit-u8 n (suc (suc zero)) h = omega arith
bit-u8 n (suc (suc (suc zero))) h = omega arith
bit-u8 n (suc (suc (suc (suc zero)))) h = omega arith
bit-u8 n (suc (suc (suc (suc (suc zero))))) h = omega arith
bit-u8 n (suc (suc (suc (suc (suc (suc zero)))))) h = omega arith
bit-u8 n (suc (suc (suc (suc (suc (suc (suc zero))))))) h = omega arith
bit-u8 n (suc (suc (suc (suc (suc (suc (suc (suc j)))))))) h = absurd (omega arith)

test_bit : (a j : ℕ) → (if bit_and a (2 ^ j) == 0 then false else true) ≡ (bit a j == 1)
test_bit a j = elim (bit-cases a j) [
  | inl z ↦ rw (bit_and_one_bit a j, z, zero-mul)
  | inr o ↦ rw (bit_and_one_bit a j, o) (ground (arith, one-le-pow j 2))
]

module _ (xb : Bitmap) (x : ℕ) (inside : x / 8 < length xb.bytes) where
  pub isset-bit_at : isset xb x ≡ ok (bit_at xb x == 1)
  unfolding isset
  isset-bit_at =
      rw (
        get_elem?-eq-get_or xb.bytes (x / 8) 0 inside,
        test_bit (get_or xb.bytes (x / 8) 0) (x % 8),
      )

-- The bitmap with byte `x / 8` replaced by `u8 w`, where `w` has bit `x % 8` made `v`.
module _ (xb : Bitmap) (x v w : ℕ) (valid : IsValid xb) (inside : x / 8 < length xb.bytes) where
  abbrev stored : Bitmap
  stored = record xb { bytes = set_elem xb.bytes (x / 8) (u8 w) }

  stored-bytes : (i : ℕ) → get_or stored.bytes i 0 < 256
  stored-bytes i = elim (Bool-cases (x / 8 == i)) [
    | inl e ↦
        rw (← ==→eq (x / 8) i e, get_or-set_self xb.bytes (x / 8) (u8 w) 0 inside) (omega arith)
    | inr ne ↦ rw (get_or-set_ne xb.bytes (x / 8) i (u8 w) 0 (ground arith)) (valid.is_bytes i)
  ]

  stored-IsValid : IsValid stored
  stored-IsValid = record {
    fits = rw (length-set xb.bytes (x / 8) (u8 w)) valid.fits;
    is_bytes = stored-bytes;
  }

  stored-bits :
      ((j : ℕ) → j < 8 → bit w j ≡ (if x % 8 == j then v else bit (get_or xb.bytes (x / 8) 0) j))
      → (y : ℕ) → bit_at stored y ≡ (if x == y then v else bit_at xb y)
  stored-bits h y = elim (Bool-cases (x / 8 == y / 8)) [
    | inl e ↦
        rw
          (
            ← ==→eq (x / 8) (y / 8) e,
            get_or-set_self xb.bytes (x / 8) (u8 w) 0 inside,
            bit-u8 w (y % 8) (omega arith),
            h (y % 8) (omega arith),
          )
          (ground arith)
    | inr ne ↦ rw (get_or-set_ne xb.bytes (x / 8) (y / 8) (u8 w) 0 (ground arith)) (ground arith)
  ]

  stored-Stores :
      {r : Outcome Bitmap}
      → r ≡ ok stored
      → ((j : ℕ) → j < 8 → bit w j ≡ (if x % 8 == j then v else bit (get_or xb.bytes (x / 8) 0) j))
      → Stores xb x v r
  stored-Stores e h = record {
    out = stored;
    returns = e;
    same_length = length-set xb.bytes (x / 8) (u8 w);
    same_extent = refl;
    valid = stored-IsValid;
    bits = stored-bits h;
  }

module _ (xb : Bitmap) (x : ℕ) (valid : IsValid xb) (inside : x / 8 < length xb.bytes) where
  abbrev old_byte : ℕ
  old_byte = get_or xb.bytes (x / 8) 0

  -- bitmap_clear() makes the bit 0 and changes no other.
  pub clear-Stores : Stores xb x 0 (clear xb x)
  clear-Stores =
      stored-Stores xb x 0 (bit_and old_byte (2 ^ 32 - 1 - 2 ^ (x % 8))) valid inside
        (unfold clear in rw (get_elem?-eq-get_or xb.bytes (x / 8) 0 inside))
        (λ j h. clear_bits old_byte (x % 8) j (omega arith) h)

  set_returns :
      isset (stored xb x 1 (bit_or old_byte (2 ^ (x % 8))) valid inside) x ≡ ok true
      → set xb x ≡ ok (stored xb x 1 (bit_or old_byte (2 ^ (x % 8))) valid inside)
  unfolding set
  set_returns e = rw (get_elem?-eq-get_or xb.bytes (x / 8) 0 inside, e)

  -- bitmap_set() makes the bit 1, changes no other, and passes its own assertion.
  pub set-Stores : Stores xb x 1 (set xb x)
  set-Stores =
      let w = bit_or old_byte (2 ^ (x % 8)) in
      let after = stored xb x 1 w valid inside in
      let is_one : bit_at after x ≡ 1 = ground (
        arith,
        stored-bits xb x 1 w valid inside (λ j h. set_bits old_byte (x % 8) j (omega arith) h) x,
      ) in
      let fits : x / 8 < length after.bytes = rw (length-set xb.bytes (x / 8) (u8 w)) inside in
      stored-Stores xb x 1 w valid inside (set_returns (rw (isset-bit_at after x fits, is_one)))
        (λ j h. set_bits old_byte (x % 8) j (omega arith) h)
