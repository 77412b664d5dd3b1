-- ===== src/Slab/Bits.antt =====
-- The bitmap of a slab as a map from objects to 0 or 1, and find_empty_obj() on it.
use mink.Prelude.{
  ℕ, zero, suc, ◌+◌, ◌*◌, ◌/◌, ◌%◌, ◌<◌, ◌≡◌, ◌≢◌, ◌⊎◌, ◌∙◌, ap, inl, inr, refl, arith, Bool, true,
  ◌&&◌, ◌||◌, not, ◌==◌, ltb, leb, passes, passes-below, Bool-cases, ==→eq,
}
use mink.Prelude.Bits.{bit}
use mink.Slab.{
  SlabCache, World, bitmap_num, bitmap_sz, bitmap_of, lsb_clear, clear_from, find_empty,
  find_empty_obj, start_for_footer,
}

-- Whether object `i` of the slab at `f` is in use, 1 or 0.
abbrev pub used : SlabCache → World → ℕ → ℕ → ℕ
used c w f i = bit (w.bytes (bitmap_of c f + i / 8)) (i % 8)

pub record IsBytes (w : World) : Type 0 where
  pub byte : (x : ℕ) → w.bytes x < 256

byte_row : ℕ → Bool
byte_row b =
    (b == 255)
    || ((ltb (lsb_clear b) 8 && (bit b (lsb_clear b) == 0))
        && passes (λ j. not (ltb j (lsb_clear b)) || (bit b j == 1)) 8)

byte_table : passes byte_row 256 ≡ true
unfolding passes byte_row lsb_clear clear_from
byte_table = refl

full_table : passes (λ j. bit 255 j == 1) 8 ≡ true
unfolding passes
full_table = refl

-- lsb_clear() of a byte other than 0xFF is its lowest clear bit.
pub lsb_clear_least :
    (b : ℕ)
    → b < 256
    → b ≢ 255
    → (lsb_clear b < 8) × (bit b (lsb_clear b) ≡ 0) × ((j : ℕ) → j < lsb_clear b → bit b j ≡ 1)
unfolding byte_row
lsb_clear_least b lt other =
    let row = passes-below byte_row 256 b lt byte_table in
    let parts : (ltb (lsb_clear b) 8 && (bit b (lsb_clear b) == 0)) ≡ true =
      ground (arith, row, other) in
    let lower : passes (λ j. not (ltb j (lsb_clear b)) || (bit b j == 1)) 8 ≡ true =
      ground (arith, row, other) in
    let low : lsb_clear b < 8 = ground (arith, parts) in
    (
      low,
      ground (arith, parts),
      λ j j_lt.
          (let cell =
              passes-below (λ i. not (ltb i (lsb_clear b)) || (bit b i == 1)) 8 j (omega arith)
                lower in
            ground (arith, cell, j_lt)),
    )

pub full_byte : (j : ℕ) → j < 8 → bit 255 j ≡ 1
full_byte j lt = ==→eq (bit 255 j) 1 (passes-below (λ i. bit 255 i == 1) 8 j lt full_table)

-- The object that find_empty_obj() gives is the first one not in use; NULL is for a full slab.
abbrev pub FindsEmpty : SlabCache → World → ℕ → ℕ → Type 0
FindsEmpty c w f r =
    ((r ≡ 0) × ((i : ℕ) → i < bitmap_num c.size → used c w f i ≡ 1))
    ⊎ ((i : ℕ) × (i < bitmap_num c.size)
        × (r ≡ start_for_footer f + c.size * i)
        × (used c w f i ≡ 0)
        × ((j : ℕ) → j < i → used c w f j ≡ 1))

module _ (c : SlabCache) (w : World) (f : ℕ) (bytes : IsBytes w) where
  -- The bit of object `i` in byte `k`.
  in_byte : (i k : ℕ) → i / 8 ≡ k → used c w f i ≡ bit (w.bytes (bitmap_of c f + k)) (i % 8)
  in_byte i k e = ap (λ q. bit (w.bytes (bitmap_of c f + q)) (i % 8)) e

  find_empty-FindsEmpty :
      (left k : ℕ)
      → k + left ≡ bitmap_sz c.size
      → ((j : ℕ) → j < k * 8 → used c w f j ≡ 1)
      → FindsEmpty c w f (find_empty c w f (bitmap_of c f) left k)
  unfolding find_empty bitmap_sz
  find_empty-FindsEmpty zero k fits before = inl (refl, λ i lt. before i (omega arith))
  find_empty-FindsEmpty (suc left) k fits before =
      elim (Bool-cases (w.bytes (bitmap_of c f + k) == 0xff)) [
        | inl full ↦
            let is : w.bytes (bitmap_of c f + k) ≡ 255 = ==→eq _ _ full in
            rw full (
              find_empty-FindsEmpty left (k + 1) (omega arith) (λ j lt.
                elim (Bool-cases (ltb j (k * 8))) [
                  | inl earlier ↦ before j (ground arith)
                  | inr here ↦
                      in_byte j k (ground arith)
                      ∙ ap (λ b. bit b (j % 8)) is
                      ∙ full_byte (j % 8) (omega arith)
                ]))
        | inr some_clear ↦
            let b = w.bytes (bitmap_of c f + k) in
            let l = lsb_clear b in
            let (low, clear, below) =
              lsb_clear_least b (bytes.byte (bitmap_of c f + k)) (ground (arith, some_clear)) in
            let quotient : (k * 8 + l) / 8 ≡ k = omega arith in
            let rest : (k * 8 + l) % 8 ≡ l = omega arith in
            let lower : (j : ℕ) → j < k * 8 + l → used c w f j ≡ 1 = λ j lt.
              elim (Bool-cases (ltb j (k * 8))) [
                | inl earlier ↦ before j (ground arith)
                | inr here ↦ in_byte j k (ground arith) ∙ below (j % 8) (ground arith)
              ] in
            elim (Bool-cases (leb (bitmap_num c.size) (k * 8 + l))) [
              | inl past ↦ rw (some_clear, past) (inl (refl, λ i lt. lower i (ground arith)))
              | inr inside ↦
                  rw (some_clear, inside)
                    (inr (
                      k * 8 + l,
                      ground arith,
                      refl,
                      (in_byte (k * 8 + l) k quotient ∙ rw rest clear),
                      lower,
                    ))
            ]
      ]

  pub find_empty_obj-FindsEmpty : FindsEmpty c w f (find_empty_obj c w f)
  unfolding find_empty_obj
  find_empty_obj-FindsEmpty =
      find_empty-FindsEmpty (bitmap_sz c.size) 0 (omega arith) (λ j lt. absurd (omega arith))
