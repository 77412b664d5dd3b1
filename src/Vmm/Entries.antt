-- ===== src/Vmm/Entries.antt =====
-- The entry that map_one_page() writes, read back.
use mink.Prelude.{
  ℕ, ◌+◌, ◌*◌, ◌/◌, ◌%◌, ◌^◌, ◌<◌, ◌≡◌, refl, arith, true, Bool, ◌&&◌, ◌==◌, ltb, leb,
  if◌then◌else◌, some, bit_or, passes, passes-below,
}
use mink.Prelude.Bits.{bit_or-one, bit_or-below}
use mink.Buddy.{u32}
use mink.Vmm.{from_x86_flags, to_x86_flags, mapped_flags, new_entry, is_present, x86_present}
use mink.Vmm.Mappings.{entry_mapping}

-- The flags that a mapping keeps: without PAGE_WRITE where it has PAGE_COW.
abbrev pub kept_flags : ℕ → ℕ
kept_flags flags = if leb 8 flags then flags / 2 * 2 else flags

flags_agree : ℕ → Bool
flags_agree flags =
    (from_x86_flags (to_x86_flags (mapped_flags flags) / 2 * 2 + 1) == kept_flags flags)
    && ltb (to_x86_flags (mapped_flags flags)) 0x1000

flags_table : passes flags_agree 16 ≡ true
unfolding passes flags_agree from_x86_flags to_x86_flags mapped_flags
flags_table = refl

flags_back :
    (flags : ℕ)
    → flags < 16
    → (from_x86_flags (to_x86_flags (mapped_flags flags) / 2 * 2 + 1) ≡ kept_flags flags)
      × (to_x86_flags (mapped_flags flags) < 0x1000)
unfolding flags_agree
flags_back flags lt =
    let agree = passes-below flags_agree 16 flags lt flags_table in
    (ground (arith, agree), ground (arith, agree))

-- The page and the flags of a new entry.
pub entry_mapping-new_entry :
    (p flags : ℕ)
    → flags < 16
    → entry_mapping (new_entry p (mapped_flags flags))
      ≡ some (u32 p / 2 ^ 12 * 2 ^ 12, kept_flags flags)
entry_mapping-new_entry p flags lt =
    let (back, small) = flags_back flags lt in
    combine (to_x86_flags (mapped_flags flags)) (u32 p / 2 ^ 12) small (omega arith) back
  where
    combine :
        (g x : ℕ)
        → g < 0x1000
        → x < 2 ^ 20
        → from_x86_flags (g / 2 * 2 + 1) ≡ kept_flags flags
        → entry_mapping (bit_or (bit_or (x * 2 ^ 12) g) x86_present)
          ≡ some (x * 2 ^ 12, kept_flags flags)
    combine g x small narrow back =
        let e : bit_or (bit_or (x * 2 ^ 12) g) 1 ≡ x * 2 ^ 12 + (g / 2 * 2 + 1) =
          rw (bit_or-below 12 x g small) (omega (arith, bit_or-one (x * 2 ^ 12 + g))) in
        let low : (x * 2 ^ 12 + (g / 2 * 2 + 1)) % 2 ^ 12 ≡ g / 2 * 2 + 1 = omega arith in
        let high : u32 (x * 2 ^ 12 + (g / 2 * 2 + 1)) / 2 ^ 12 ≡ x = omega arith in
        let p : is_present (x * 2 ^ 12 + (g / 2 * 2 + 1)) ≡ true = ground arith in
        rw (e, p, low, high, back) refl
