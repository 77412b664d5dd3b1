-- ===== src/Bitmap/Scan.antt =====
-- bitmap_first_set() finds the least set bit, and bitmap_init() leaves none set.
use native.Mathlib.Nat.{pow-suc}
use mink.Prelude.{
  ℕ, zero, suc, ◌+◌, ◌*◌, ◌/◌, ◌%◌, ◌^◌, ◌≤◌, ◌<◌, bit_and, ◌≡◌, refl, arith, Option, none, some,
  List, [], ◌∷◌, ◌==◌, ltb, get_or, length, get_elem?-eq-get_or, Outcome, ok, Bool-cases, ◌≢◌, ◌⊎◌,
  inl, inr, ==→eq, replicate, get_or-replicate, length-replicate,
}
use mink.Prelude.Bits.{bit, bit_and_one_bit}
use mink.Bitmap.{Bitmap, memset, init, first_set, scan, found, lsb_loop, lsb_set}
use mink.Bitmap.View.{IsValid, bit_at}

-- The loop of lsb_set() ends, at the lowest set bit.
lsb_loop_lem :
    (fuel byte i : ℕ)
    → byte < 2 ^ fuel
    → byte ≢ 0
    → (t : ℕ) × (lsb_loop fuel byte i ≡ ok (i + t))
      × (bit byte t ≡ 1)
      × (t < fuel)
      × ((s : ℕ) → s < t → bit byte s ≡ 0)
unfolding lsb_loop
lsb_loop_lem zero byte i h ne = absurd (ne (omega arith))
lsb_loop_lem (suc fuel) byte i h ne = elim (Bool-cases (bit_and byte 1 == 0)) [
  | inl even ↦
      let e : byte % 2 ≡ 0 = ground (arith, bit_and_one_bit byte 0) in
      let (t, returns, is_one, small, below) =
        lsb_loop_lem fuel (byte / 2) (i + 1) (omega (arith, pow-suc 2 fuel)) (omega arith) in
      (suc t, rw (even, returns) (ground arith), is_one, omega arith, below_suc t e below)
  | inr odd ↦ (
    0,
    rw odd (ground arith),
    ground (arith, bit_and_one_bit byte 0),
    omega arith,
    λ s lt. absurd (omega arith),
  )
]
  where
    below_suc :
        (t : ℕ)
        → byte % 2 ≡ 0
        → ((s : ℕ) → s < t → bit (byte / 2) s ≡ 0)
        → (s : ℕ) → s < suc t
        → bit byte s ≡ 0
    below_suc t e below zero lt = e
    below_suc t e below (suc s) lt = below s (omega arith)

lsb_set_lem :
    (byte : ℕ)
    → byte < 256
    → byte ≢ 0
    → (t : ℕ) × (lsb_set byte ≡ ok t)
      × (bit byte t ≡ 1)
      × (t < 8)
      × ((s : ℕ) → s < t → bit byte s ≡ 0)
unfolding lsb_set
lsb_set_lem byte h ne =
    let (t, returns, is_one, small, zeros) = lsb_loop_lem 8 byte 0 h ne in
    (t, rw returns (ground arith), is_one, small, zeros)

bit-zero : (j : ℕ) → bit 0 j ≡ 0
bit-zero zero = refl
bit-zero (suc j) = bit-zero j

-- Either no bit up to `max_extent` is set and the result is -1, or it is the least set bit.
abbrev pub FindsFirst : Bitmap → Outcome (Option ℕ) → Type 0
FindsFirst xb r =
    ((r ≡ ok none) × ((y : ℕ) → y ≤ xb.max_extent → bit_at xb y ≡ 0))
    ⊎ ((x : ℕ) × (r ≡ ok (some x))
        × (x ≤ xb.max_extent)
        × (bit_at xb x ≡ 1)
        × ((y : ℕ) → y < x → bit_at xb y ≡ 0))

module _ (xb : Bitmap) (valid : IsValid xb) where
  abbrev ClearBelow : ℕ → Type 0
  ClearBelow i = (y : ℕ) → y / 8 < i → bit_at xb y ≡ 0

  ClearBelow-suc : (i : ℕ) → ClearBelow i → get_or xb.bytes i 0 ≡ 0 → ClearBelow (i + 1)
  ClearBelow-suc i below z y h = elim (Bool-cases (y / 8 == i)) [
    | inl e ↦ rw (==→eq (y / 8) i e, z) (bit-zero (y % 8))
    | inr ne ↦ below y (ground arith)
  ]

  found-FindsFirst :
      (i : ℕ)
      → ClearBelow i
      → get_or xb.bytes i 0 ≢ 0
      → FindsFirst xb (found xb i (get_or xb.bytes i 0))
  unfolding found
  found-FindsFirst i below ne =
      let (t, returns, is_one, small, zeros) =
        lsb_set_lem (get_or xb.bytes i 0) (valid.is_bytes i) ne in
      let at_i : (i * 8 + t) / 8 ≡ i = omega arith in
      let at_t : (i * 8 + t) % 8 ≡ t = omega arith in
      let set : bit_at xb (i * 8 + t) ≡ 1 = rw (at_i, at_t) is_one in
      let least : (y : ℕ) → y < i * 8 + t → bit_at xb y ≡ 0 = λ y lt.
        elim (Bool-cases (y / 8 == i)) [
          | inl e ↦ rw (==→eq (y / 8) i e) (zeros (y % 8) (ground arith))
          | inr other ↦ below y (ground arith)
        ] in
      elim (Bool-cases (ltb xb.max_extent (i * 8 + t))) [
        | inl past ↦ inl (rw (returns, past), λ y le. least y (ground arith))
        | inr inside ↦ inr (i * 8 + t, rw (returns, inside), ground arith, set, least)
      ]

  scan-FindsFirst :
      (left i : ℕ)
      → i + left ≡ xb.max_extent / 8 + 1
      → ClearBelow i
      → FindsFirst xb (scan xb left i)
  unfolding scan
  scan-FindsFirst zero i e below = inl (refl, λ y le. below y (omega arith))
  scan-FindsFirst (suc left) i e below =
      let in_range : i < length xb.bytes = omega (arith, valid.fits) in
      elim (Bool-cases (get_or xb.bytes i 0 == 0)) [
        | inl empty ↦
            rw (get_elem?-eq-get_or xb.bytes i 0 in_range, empty)
              (scan-FindsFirst left (i + 1) (omega arith)
                (ClearBelow-suc i below (==→eq (get_or xb.bytes i 0) 0 empty)))
        | inr used ↦
            rw (get_elem?-eq-get_or xb.bytes i 0 in_range, used)
              (found-FindsFirst i below (ground arith))
      ]

  -- On valid storage bitmap_first_set() ends without an access out of range: it gives the least
  -- set index, or -1 when no index up to the extent is set.
  pub first_set_lem : FindsFirst xb (first_set xb)
  unfolding first_set
  first_set_lem =
      scan-FindsFirst (xb.max_extent / 8 + 1) 0 (omega arith) (λ y h. absurd (omega arith))

memset_zero : (s : List ℕ) (n : ℕ) → length s ≡ n → memset s 0 n ≡ ok (replicate n 0)
unfolding memset
memset_zero [] zero h = refl
memset_zero [] (suc n) h = absurd (omega arith)
memset_zero (x ∷ s) zero h = absurd (omega arith)
memset_zero (x ∷ s) (suc n) h = rw (memset_zero s n (omega arith))

-- Over storage of the right size bitmap_init() gives a valid bitmap with every bit clear.
pub init_lem :
    (storage : List ℕ) (max_extent : ℕ)
    → length storage ≡ max_extent / 8 + 1
    → (xb : Bitmap) × (init storage max_extent ≡ ok xb)
      × IsValid xb
      × (xb.max_extent ≡ max_extent)
      × ((y : ℕ) → bit_at xb y ≡ 0)
unfolding init
init_lem storage max_extent h =
    let n = max_extent / 8 + 1 in
    (
      record { bytes = replicate n 0; max_extent = max_extent },
      rw (memset_zero storage n h),
      record {
        fits = rw length-replicate (omega arith);
        is_bytes = λ i. rw get_or-replicate (omega arith);
      },
      refl,
      λ y. rw get_or-replicate (bit-zero (y % 8)),
    )
