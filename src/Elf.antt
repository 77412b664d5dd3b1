-- ===== src/Elf.antt =====
-- elf.c: the function that an address lies in.
use mink.Prelude.{
  ℕ, zero, suc, ◌+◌, ◌/◌, ◌%◌, ◌^◌, ◌≤◌, ◌<◌, ◌≡◌, ◌⊎◌, inl, inr, refl, arith, Bool, true, false,
  ◌&&◌, not, ◌==◌, ltb, leb, if◌then◌else◌, List, [], ◌∷◌, Option, none, some, Outcome, ok,
  undefined, Bool-cases,
}

pub record ElfSymbol : Type 0 where
  pub name : ℕ
  pub value : ℕ
  pub size : ℕ
  pub info : ℕ
  pub other : ℕ
  pub shndx : ℕ

-- `symtab` is what the memory holds at the table; `symtabsz` is in bytes, 16 to a symbol.
pub record Elf : Type 0 where
  pub symtab : List ElfSymbol
  pub symtabsz : ℕ
  pub strtab : ℕ
  pub strtabsz : ℕ

-- A function symbol with the address in its range; the end of the range wraps at 2^32.
unfoldable pub covers : ℕ → ElfSymbol → Bool
covers addr s =
    if not (s.info % 16 == 0x2)
    then false
    else leb s.value addr && ltb addr ((s.value + s.size) % 2 ^ 32)

-- The loop of elf_lookup_symbol() with `left` symbols to go: the address of the name.
lookup_from : ℕ → ℕ → ℕ → List ElfSymbol → Outcome (Option ℕ)
lookup_from addr strtab zero symtab = ok none
lookup_from addr strtab (suc left) [] = undefined
lookup_from addr strtab (suc left) (s ∷ symtab) =
    let rest = lookup_from addr strtab left symtab in
    if covers addr s then ok (some ((strtab + s.name) % 2 ^ 32)) else rest

pub elf_lookup_symbol : ℕ → Elf → Outcome (Option ℕ)
elf_lookup_symbol addr elf = lookup_from addr elf.strtab (elf.symtabsz / 16) elf.symtab

-- `addr` lies in the range of a function symbol (STT_FUNC, 2) that does not wrap.
abbrev pub InFunction : ℕ → ElfSymbol → Type 0
InFunction addr s = (s.info % 16 ≡ 2) × (s.value ≤ addr) × (addr < s.value + s.size)

-- The name of the first of `count` symbols whose range holds the address.
abbrev pub FirstCovering : ℕ → ℕ → ℕ → List ElfSymbol → Option ℕ → Type 0
FirstCovering addr strtab zero symtab r = r ≡ none
FirstCovering addr strtab (suc count) [] r = ⊥
FirstCovering addr strtab (suc count) (s ∷ symtab) r =
    (InFunction addr s × (r ≡ some ((strtab + s.name) % 2 ^ 32)))
    ⊎ ((InFunction addr s → ⊥) × FirstCovering addr strtab count symtab r)

-- Memory holds `count` symbols, and none of their ranges wraps.
abbrev pub HasSymbols : ℕ → List ElfSymbol → Type 0
HasSymbols zero symtab = Unit
HasSymbols (suc count) [] = ⊥
HasSymbols (suc count) (s ∷ symtab) = (s.value + s.size < 2 ^ 32) × HasSymbols count symtab

covers_iff :
    (addr : ℕ) (s : ElfSymbol)
    → s.value + s.size < 2 ^ 32
    → (covers addr s ≡ true → InFunction addr s) × (covers addr s ≡ false → InFunction addr s → ⊥)
unfolding covers
covers_iff addr s h = (λ e. ground arith, λ e i. ground arith)

lookup_from_lem :
    (addr strtab count : ℕ) (symtab : List ElfSymbol)
    → HasSymbols count symtab
    → (r : Option ℕ) × (lookup_from addr strtab count symtab ≡ ok r)
      × FirstCovering addr strtab count symtab r
unfolding lookup_from
lookup_from_lem addr strtab zero symtab h = (none, refl, refl)
lookup_from_lem addr strtab (suc count) [] h = absurd h
lookup_from_lem addr strtab (suc count) (s ∷ symtab) h = elim (Bool-cases (covers addr s)) [
  | inl inside ↦
      (some ((strtab + s.name) % 2 ^ 32), rw inside, inl ((covers_iff addr s h.0).0 inside, refl))
  | inr outside ↦
      let (r, found, first) = lookup_from_lem addr strtab count symtab h.1 in
      (r, rw outside found, inr ((covers_iff addr s h.0).1 outside, first))
]

-- elf_lookup_symbol() over a table that memory holds whole, with no range that wraps: it returns
-- the name of the first function symbol whose range holds the address, or NULL if none does.
pub elf_lookup_symbol_lem :
    (addr : ℕ) (elf : Elf)
    → HasSymbols (elf.symtabsz / 16) elf.symtab
    → (r : Option ℕ) × (elf_lookup_symbol addr elf ≡ ok r)
      × FirstCovering addr elf.strtab (elf.symtabsz / 16) elf.symtab r
unfolding elf_lookup_symbol
elf_lookup_symbol_lem addr elf h = lookup_from_lem addr elf.strtab (elf.symtabsz / 16) elf.symtab h
