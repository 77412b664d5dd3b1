-- ===== src/Slab/Overlap.antt =====
-- Which objects of a slab share bytes with its bitmap.
use mink.Prelude.{ℕ, ◌+◌, ◌-◌, ◌*◌, ◌<◌, ◌≤◌, ◌≡◌, ◌⊎◌, inl, inr, arith}
use mink.Slab.{bitmap_num, bitmap_sz}

-- Object `i` of a slab ends where the bitmap starts or before.
abbrev pub IsApart : ℕ → ℕ → Type 0
IsApart size i = size * (i + 1) ≤ 8188 - bitmap_sz size

IsApart-64 : (i : ℕ) → i < bitmap_num 64 → IsApart 64 i
unfolding bitmap_num bitmap_sz
IsApart-64 i lt = omega (arith, lt)

IsApart-128 : (i : ℕ) → i < bitmap_num 128 → IsApart 128 i
unfolding bitmap_num bitmap_sz
IsApart-128 i lt = omega (arith, lt)

IsApart-256 : (i : ℕ) → i < bitmap_num 256 → IsApart 256 i
unfolding bitmap_num bitmap_sz
IsApart-256 i lt = omega (arith, lt)

IsApart-512 : (i : ℕ) → i < bitmap_num 512 → IsApart 512 i
unfolding bitmap_num bitmap_sz
IsApart-512 i lt = omega (arith, lt)

-- The sizes of the kernel heap's caches whose objects lie all before the bitmap, and those whose
-- last object does not.
abbrev pub IsLarge : ℕ → Type 0
IsLarge size = (size ≡ 64) ⊎ (size ≡ 128) ⊎ (size ≡ 256) ⊎ (size ≡ 512)

abbrev pub IsSmall : ℕ → Type 0
IsSmall size = (size ≡ 8) ⊎ (size ≡ 16) ⊎ (size ≡ 32)

-- In slabs of objects of 64, 128, 256 or 512 bytes every object that the bitmap counts ends before
-- the bitmap; of 8, 16 or 32 bytes, the last one that it counts does not.
pub object-IsApart :
    (size : ℕ)
    → (IsLarge size → (i : ℕ) → i < bitmap_num size → IsApart size i)
      × (IsSmall size → ¬ IsApart size (bitmap_num size - 1))
unfolding bitmap_num bitmap_sz
object-IsApart size = (
  λ large. (elim large [
    | inl e ↦ (rw e (λ i lt. IsApart-64 i (unfold bitmap_num in lt)))
    | inr (inl e) ↦ rw e (λ i lt. IsApart-128 i lt)
    | inr (inr (inl e)) ↦ rw e (λ i lt. IsApart-256 i lt)
    | inr (inr (inr e)) ↦ rw e (λ i lt. IsApart-512 i lt)
  ]),
  λ small. (elim small [
    | inl e ↦ rw e (λ h. omega (arith, h))
    | inr (inl e) ↦ rw e (λ h. omega (arith, h))
    | inr (inr e) ↦ rw e (λ h. omega (arith, h))
  ]),
)
