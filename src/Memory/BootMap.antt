-- ===== src/Memory/BootMap.antt =====
-- What init_memory() takes from the boot loader's map.
use mink.Prelude.{
  ℕ, ◌+◌, ◌^◌, ◌<◌, ◌≤◌, ◌≡◌, ◌∙◌, refl, arith, true, false, ◌&&◌, not, ◌==◌, ltb, if◌then◌else◌,
  List, [], ◌∷◌, ◌++◌, length, ok, undefined, Bool-cases, inl, inr,
}
use mathlib.Core.List.{append_assoc, append-nil}
use mink.Buddy.{Range, u32, u64}
use mink.Memory.{MapEntry, collect_ranges}

-- Entries one behind the other from `i` to `last`.
abbrev pub Spans : ℕ → ℕ → List MapEntry → Type 0
Spans i last [] = i ≡ last
Spans i last (e ∷ es) = (i < last) × (i + e.size + 4 < 2 ^ 32) × Spans (i + e.size + 4) last es

-- The ranges of the available entries (type 1), and the highest end of those, or `extent`.
abbrev pub available : List MapEntry → List Range
available [] = []
available (e ∷ es) =
    if e.ty == 1 then record { start = e.addr; extent = e.len } ∷ available es else available es

abbrev pub highest_end : List MapEntry → ℕ → ℕ
highest_end [] extent = extent
highest_end (e ∷ es) extent =
    if not (e.ty == 1)
    then highest_end es extent
    else highest_end es (if ltb extent (u64 (e.addr + e.len)) then u64 (e.addr + e.len) else extent)

length-snoc : (rs : List Range) (r : Range) → length (rs ++ r ∷ []) ≡ length rs + 1
length-snoc [] r = refl
length-snoc (s ∷ rs) r = omega (arith, length-snoc rs r)

collect_from :
    (last i : ℕ) (es : List MapEntry) (rs : List Range) (extent : ℕ)
    → Spans i last es
    → length rs ≤ 32
    → (length rs + length (available es) ≤ 32
        → collect_ranges last i es rs extent ≡ ok (rs ++ available es, highest_end es extent))
      × (32 < length rs + length (available es) → collect_ranges last i es rs extent ≡ undefined)
unfolding collect_ranges
collect_from last i [] rs extent spans few =
    let over : ltb i last ≡ false = ground (arith, spans) in
    (λ fits. rw (over, append-nil) refl, λ many. absurd (omega arith))
collect_from last i (e ∷ es) rs extent (lt, word, spans) few =
    let on : ltb i last && ltb (length rs) 128 ≡ true = ground arith in
    let next : u32 (i + e.size + 4) ≡ i + e.size + 4 = omega (arith, word) in
    elim (Bool-cases (e.ty == 1)) [
      | inr other ↦
          let (ends, fails) = collect_from last (i + e.size + 4) es rs extent spans few in
          (
            λ fits. rw (on, other, next) (ends (rw other at fits)),
            λ many. rw (on, other, next) (fails (rw other at many)),
          )
      | inl is_available ↦ elim (Bool-cases (ltb (length rs) 32)) [
        | inr full ↦ (
          λ fits. absurd (ground (arith, rw is_available at fits)),
          λ many. rw (on, is_available, full) refl,
        )
        | inl room ↦
            let r : Range = record { start = e.addr; extent = e.len } in
            let extent' =
              if ltb extent (u64 (e.addr + e.len)) then u64 (e.addr + e.len) else extent in
            let (ends, fails) =
              collect_from last (i + e.size + 4) es (rs ++ r ∷ []) extent' spans
                (omega (arith, length-snoc rs r, ltb_lt room)) in
            (
              λ fits.
                  rw (on, is_available, room, next)
                    (ends (omega (arith, length-snoc rs r, rw is_available at fits))
                      ∙ rw append_assoc refl),
              λ many.
                  rw (on, is_available, room, next)
                    (fails (omega (arith, length-snoc rs r, rw is_available at many))),
            )
      ]
    ]
  where
    ltb_lt : ltb (length rs) 32 ≡ true → length rs < 32
    ltb_lt h = ground arith

-- For a map whose entries fill its length, without a wrap at 4 GB: with at most 32 available entries
-- the loop of init_memory() takes their ranges in order, and the highest end among them; with more,
-- it writes behind its array of 32 ranges.
pub collect_ranges_lem :
    (first last : ℕ) (es : List MapEntry)
    → Spans first last es
    → (length (available es) ≤ 32
        → collect_ranges last first es [] 0 ≡ ok (available es, highest_end es 0))
      × (32 < length (available es) → collect_ranges last first es [] 0 ≡ undefined)
collect_ranges_lem first last es spans =
    let (ends, fails) = collect_from last first es [] 0 spans (omega arith) in
    (λ fits. ends (omega (arith, fits)), λ many. fails (omega (arith, many)))
