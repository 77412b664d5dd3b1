-- ===== src/Tests/Bitmaps.antt =====
-- bitmap.c and log2_roundup() at concrete inputs.
use mink.Prelude.{
  ℕ, zero, suc, ◌+◌, ◌*◌, ◌^◌, ◌<◌, ◌≤◌, ◌≡◌, refl, arith, false, none, some, List, [], ◌∷◌,
  Outcome, ok, undefined, panicked,
}
use mink.Utils.{log2_roundup}
use mink.Utils.Log2.{log2_roundup_least}
use mink.Bitmap
use mink.Bitmap.{Bitmap}
use mink.Bitmap.View.{IsValid}
use mink.Bitmap.Scan.{FindsFirst, first_set_lem}

-- Bits 9 and 12 of 17 are set.
abbrev sample : Bitmap
sample = record { bytes = 0 ∷ 0x12 ∷ 0 ∷ []; max_extent = 17 }

sample-IsValid : IsValid sample
sample-IsValid = record { fits = omega arith; is_bytes = small }
  where
    small : (i : ℕ) → mink.Prelude.get_or sample.bytes i 0 < 256
    small zero = omega arith
    small (suc zero) = omega arith
    small (suc (suc zero)) = omega arith
    small (suc (suc (suc i))) = omega arith

first_set_runs : Bitmap.first_set sample ≡ ok (some 9)
unfolding Bitmap.first_set Bitmap.scan Bitmap.found Bitmap.lsb_set Bitmap.lsb_loop
first_set_runs = refl

first_set_lem_example : FindsFirst sample (Bitmap.first_set sample)
first_set_lem_example = first_set_lem sample sample-IsValid

log2_roundup_least_example :
    (k : ℕ) × (log2_roundup 4097 ≡ ok k) × (k ≤ 32) × (4097 ≤ 2 ^ k) × (2 ^ k < 2 * 4097)
log2_roundup_least_example = log2_roundup_least 4097 (omega arith) (omega arith)
