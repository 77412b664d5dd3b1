-- ===== src/Bitmap.antt =====
-- bitmap.c and include/adt/bitmap.h: a bitmap of one bit for each index up to `max_extent`, over
-- storage that the caller gives, and `memset` of sys.c. A bitmap owns the `max_extent / 8 + 1`
-- bytes that `init` clears; an access outside them is `undefined`.
pub mod View
pub mod Scan
use mink.Prelude.{
  ℕ, zero, suc, ◌+◌, ◌-◌, ◌*◌, ◌/◌, ◌%◌, ◌^◌, bit_and, bit_or, Bool, true, false, not, Option, none,
  some, List, [], ◌∷◌, ◌==◌, ltb, if◌then◌else◌, get_elem?, set as set_elem, Outcome, ok, undefined,
  assert, read, ◌>>=◌, ◌>>◌,
}

-- `data` is a list of bytes.
pub record Bitmap : Type 0 where
  pub bytes : List ℕ
  pub max_extent : ℕ

abbrev pub u8 : ℕ → ℕ
u8 n = n % 2 ^ 8

-- memset() over the `n` first bytes of an array; the rest is kept.
unfoldable pub memset : List ℕ → ℕ → ℕ → Outcome (List ℕ)
memset s c zero = ok s
memset [] c (suc n) = undefined
memset (x ∷ s) c (suc n) = do rest ← memset s c n; ok (u8 c ∷ rest)

-- while ((byte & 1) == 0) { ++i; byte >>= 1; } A byte other than 0 takes at most 8 tests; on 0
-- the loop does not end.
unfoldable pub lsb_loop : ℕ → ℕ → ℕ → Outcome ℕ
lsb_loop zero byte i = undefined
lsb_loop (suc fuel) byte i =
    let rest = lsb_loop fuel (byte / 2) (i + 1) in if bit_and byte 1 == 0 then rest else ok i

unfoldable pub lsb_set : ℕ → Outcome ℕ
lsb_set byte = lsb_loop 8 byte 0

unfoldable pub init : List ℕ → ℕ → Outcome Bitmap
init storage max_extent = do
  bytes ← memset storage 0 (max_extent / 8 + 1)
  ok (record { bytes = bytes; max_extent = max_extent })

unfoldable pub isset : Bitmap → ℕ → Outcome Bool
isset xb idx = do
  byte ← read (get_elem? xb.bytes (idx / 8))
  ok (if bit_and byte (2 ^ (idx % 8)) == 0 then false else true)

unfoldable pub isclear : Bitmap → ℕ → Outcome Bool
isclear xb idx = do r ← isset xb idx; ok (not r)

unfoldable pub set : Bitmap → ℕ → Outcome Bitmap
set xb idx = do
  byte ← read (get_elem? xb.bytes (idx / 8))
  let xb' = record xb { bytes = set_elem xb.bytes (idx / 8) (u8 (bit_or byte (2 ^ (idx % 8)))) }
  r ← isset xb' idx
  assert r
  ok xb'

-- `~` is taken in 32 bits, and the store cuts to 8.
unfoldable pub clear : Bitmap → ℕ → Outcome Bitmap
clear xb idx = do
  byte ← read (get_elem? xb.bytes (idx / 8))
  ok (record xb {
    bytes = set_elem xb.bytes (idx / 8) (u8 (bit_and byte (2 ^ 32 - 1 - 2 ^ (idx % 8))));
  })

-- The body of the loop where the byte is not 0; `none` is the -1.
unfoldable pub found : Bitmap → ℕ → ℕ → Outcome (Option ℕ)
found xb i byte = do
  bit ← lsb_set byte
  let idx = i * 8 + bit
  ok (if ltb xb.max_extent idx then none else some idx)

-- The loop of first_set at index `i`, with `left` rounds to go.
unfoldable pub scan : Bitmap → ℕ → ℕ → Outcome (Option ℕ)
scan xb zero i = ok none
scan xb (suc left) i =
    let rest = scan xb left (i + 1) in
    do byte ← read (get_elem? xb.bytes i); if byte == 0 then rest else found xb i byte

unfoldable pub first_set : Bitmap → Outcome (Option ℕ)
first_set xb = scan xb (xb.max_extent / 8 + 1) 0
