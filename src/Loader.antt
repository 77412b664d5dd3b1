-- ===== src/Loader.antt =====
-- arch/x86/loader2.c: from what the boot loader leaves in memory to the arguments of kmain(). The
-- memory is its bytes by address, the structures of multiboot.h are records, and `kernel_elf` is its
-- pointers and sizes. `buf` is the address of earlyalloc()'s array. Addresses have 32 bits.
pub mod CommandLine
use mink.Prelude.{
  ℕ, zero, suc, ◌+◌, ◌-◌, ◌*◌, ◌/◌, ◌%◌, ◌^◌, ◌≤◌, ◌<◌, ◌≡◌, ◌≢◌, ◌⊎◌, inl, inr, refl, arith, Bool,
  true, false, not, ◌==◌, ltb, leb, if◌then◌else◌, List, [], ◌∷◌, length, Option, none, some,
  Outcome, ok, ◌>>=◌, Bool-cases, bit_and,
}
use mink.Buddy.{u32}
use mink.Strings.{strlen, strcmp, tokenize}
use mink.Vgaterm
use mink.Vgaterm.{Term}

-- multiboot_elf_section_header_table_t
pub record SectionHeaderTable : Type 0 where
  pub num : ℕ
  pub size : ℕ
  pub addr : ℕ
  pub shndx : ℕ

-- The members of multiboot_info_t that the kernel reads.
pub record MultibootInfo : Type 0 where
  pub flags : ℕ
  pub cmdline : ℕ
  pub mods_count : ℕ
  pub mods_addr : ℕ
  pub elf_sec : SectionHeaderTable
  pub mmap_length : ℕ
  pub mmap_addr : ℕ

-- elf_t, with its pointers as addresses.
pub record ElfPointers : Type 0 where
  pub symtab : ℕ
  pub symtabsz : ℕ
  pub strtab : ℕ
  pub strtabsz : ℕ

-- The memory, earlyalloc()'s `idx`, `mboot`, the boot loader's own structure, `kernel_elf`, and the
-- terminal.
pub record Boot : Type 0 where
  pub bytes : ℕ → ℕ
  pub idx : ℕ
  pub mboot : MultibootInfo
  pub given : MultibootInfo
  pub kernel_elf : ElfPointers
  pub term : Term

-- EARLYALLOC_SZ
abbrev pub earlyalloc_sz : ℕ
earlyalloc_sz = 2048

-- The result, 0 for NULL, and `idx` then.
unfoldable pub earlyalloc : ℕ → ℕ → ℕ → ℕ × ℕ
earlyalloc buf idx len =
    if leb earlyalloc_sz (u32 (idx + len)) then (0, idx) else (u32 (buf + idx), u32 (idx + len))

-- The `n` bytes of memory from an address on.
unfoldable pub bytes_at : (ℕ → ℕ) → ℕ → ℕ → List ℕ
bytes_at bytes a zero = []
bytes_at bytes a (suc n) = let rest = bytes_at bytes (a + 1) n in bytes a ∷ rest

-- The bytes from an address to the end of memory.
unfoldable pub bytes_from : (ℕ → ℕ) → ℕ → List ℕ
bytes_from bytes a = bytes_at bytes a (2 ^ 32 - a)

-- The byte at an offset of a list, or `old` behind its end.
abbrev pub byte_or : ℕ → List ℕ → ℕ → ℕ
byte_or old [] i = old
byte_or old (b ∷ l) zero = b
byte_or old (b ∷ l) (suc i) = byte_or old l i

unfoldable pub store_bytes : (ℕ → ℕ) → ℕ → List ℕ → ℕ → ℕ
store_bytes bytes a l x = if ltb x a then bytes x else byte_or (bytes x) l (x - a)

-- memcpy() of `len` bytes between areas that do not overlap.
unfoldable pub memcpy : (ℕ → ℕ) → ℕ → ℕ → ℕ → ℕ → ℕ
memcpy bytes dest src len x =
    if leb dest x
    then (if ltb x (dest + len) then bytes (src + (x - dest)) else bytes x)
    else bytes x

abbrev pub word_at : (ℕ → ℕ) → ℕ → ℕ
word_at bytes a = bytes a + bytes (a + 1) * 2 ^ 8 + bytes (a + 2) * 2 ^ 16 + bytes (a + 3) * 2 ^ 24

-- elf_section_header_t: sizeof, and the members at their offsets.
abbrev pub section_header_size : ℕ
section_header_size = 40

abbrev pub sh_name : (ℕ → ℕ) → ℕ → ℕ → ℕ
sh_name bytes sh i = word_at bytes (sh + i * section_header_size)

abbrev pub sh_addr : (ℕ → ℕ) → ℕ → ℕ → ℕ
sh_addr bytes sh i = word_at bytes (sh + i * section_header_size + 12)

abbrev pub sh_size : (ℕ → ℕ) → ℕ → ℕ → ℕ
sh_size bytes sh i = word_at bytes (sh + i * section_header_size + 20)

-- ".strtab" and ".symtab"
abbrev pub strtab_name : List ℕ
strtab_name = 46 ∷ 115 ∷ 116 ∷ 114 ∷ 116 ∷ 97 ∷ 98 ∷ 0 ∷ []

abbrev pub symtab_name : List ℕ
symtab_name = 46 ∷ 115 ∷ 121 ∷ 109 ∷ 116 ∷ 97 ∷ 98 ∷ 0 ∷ []

-- The loop of elf_from_multiboot() at section `i`, with `left` to go.
unfoldable pub sections_from : (ℕ → ℕ) → ℕ → ℕ → ℕ → ℕ → ElfPointers → Outcome ElfPointers
sections_from bytes sh shstrtab zero i elf = ok elf
sections_from bytes sh shstrtab (suc left) i elf = do
  let name = bytes_from bytes (u32 (shstrtab + sh_name bytes sh i))
  not_strtab ← strcmp name strtab_name
  let elf =
      if not_strtab == 0
      then (record elf { strtab = sh_addr bytes sh i; strtabsz = sh_size bytes sh i })
      else elf
  not_symtab ← strcmp name symtab_name
  let elf =
      if not_symtab == 0
      then (record elf { symtab = sh_addr bytes sh i; symtabsz = sh_size bytes sh i })
      else elf
  sections_from bytes sh shstrtab left (i + 1) elf

-- `elf` is what the local variable holds before it is set.
unfoldable pub elf_from_multiboot : (ℕ → ℕ) → SectionHeaderTable → ElfPointers → Outcome ElfPointers
elf_from_multiboot bytes mb elf =
    sections_from bytes mb.addr (sh_addr bytes mb.addr mb.shndx) mb.num 0 elf

-- The flags of multiboot.h.
abbrev pub info_memory : ℕ
info_memory = 0x1

abbrev pub info_cmdline : ℕ
info_cmdline = 0x4

abbrev pub info_mods : ℕ
info_mods = 0x8

abbrev pub info_elf_shdr : ℕ
info_elf_shdr = 0x20

abbrev pub has_flag : Boot → ℕ → Bool
has_flag b flag = not (bit_and b.mboot.flags flag == 0)

-- An address of the boot loader as the kernel sees it.
abbrev pub higher_half : ℕ → ℕ
higher_half a = u32 (a + 0xc000_0000)

-- An allocation and, unless it fails, a copy of `len` bytes from `src` to it: its address, and the
-- kernel's state then.
unfoldable pub early_copy : ℕ → Boot → ℕ → ℕ → ℕ × Boot
early_copy buf b src len =
    let (ptr, idx) = earlyalloc buf b.idx len in
    (
      ptr,
      if ptr == 0
          then (record b { idx = idx })
          else (record b { idx = idx; bytes = memcpy b.bytes ptr src len }),
    )

unfoldable pub copy_cmdline : ℕ → Boot → Outcome Boot
copy_cmdline buf b = do
  let cmdline = higher_half b.given.cmdline
  let given = record b.given { cmdline = cmdline }
  if has_flag b info_cmdline
      then (do
        n ← strlen (bytes_from b.bytes cmdline)
        let (ptr, c) = early_copy buf b cmdline (n + 1)
        ok (record c { given = given; mboot = record b.mboot { cmdline = ptr } }))
      else ok b

-- sizeof(multiboot_module_t) is 16.
unfoldable pub copy_mods : ℕ → Boot → Boot
copy_mods buf b =
    if has_flag b info_mods
    then (let mods = higher_half b.given.mods_addr in
        let (ptr, c) = early_copy buf b mods (u32 (b.mboot.mods_count * 16)) in
        record c {
          given = record b.given { mods_addr = mods };
          mboot = record b.mboot { mods_addr = ptr };
        })
    else b

-- `elf` is what the stack holds where elf_from_multiboot() has its local variable.
unfoldable pub copy_elf : ℕ → ElfPointers → Boot → Outcome Boot
copy_elf buf elf b = do
  let table = higher_half b.given.elf_sec.addr
  let (ptr, c) = early_copy buf b table (u32 (b.mboot.elf_sec.num * b.mboot.elf_sec.size))
  let elf_sec = record b.mboot.elf_sec { addr = ptr }
  if has_flag b info_elf_shdr
      then (do
        kernel_elf ← elf_from_multiboot c.bytes elf_sec elf
        ok (record c {
          kernel_elf = kernel_elf;
          given = record b.given { elf_sec = record b.given.elf_sec { addr = table } };
          mboot = record b.mboot { elf_sec = elf_sec };
        }))
      else ok
          (record b { kernel_elf = record { symtab = 0; symtabsz = 0; strtab = 0; strtabsz = 0 } })

-- The copy gets 4 bytes before the map too, but `mboot` is then set to the boot loader's map.
unfoldable pub copy_mmap : ℕ → Boot → Boot
copy_mmap buf b =
    if has_flag b info_memory
    then (let mmap = higher_half b.given.mmap_addr in
        let (ptr, c) = early_copy buf b (u32 (mmap + 2 ^ 32 - 4)) (u32 (b.mboot.mmap_length + 4)) in
        record c {
          given = record b.given { mmap_addr = mmap };
          mboot = record b.mboot { mmap_addr = if ptr == 0 then 0 else mmap };
        })
    else b

-- "Failure (BADMAGIC)"
abbrev pub badmagic : List ℕ
badmagic =
    70 ∷ 97 ∷ 105 ∷ 108 ∷ 117 ∷ 114 ∷ 101 ∷ 32 ∷ 40 ∷ 66 ∷ 65 ∷ 68 ∷ 77 ∷ 65 ∷ 71 ∷ 73 ∷ 67 ∷ 41
    ∷ []

-- The pointers that tokenize() stores, from the offsets in its string.
unfoldable pub pointers : ℕ → List ℕ → List ℕ
pointers a [] = []
pointers a (i ∷ offsets) = u32 (a + i) ∷ pointers a offsets

-- loader(): the arguments that kmain() is called with, none when it is not called.
unfoldable pub loader : ℕ → ElfPointers → ℕ → Boot → Outcome (Option (List ℕ) × Boot)
loader buf elf magic b = do
  let b = record b { term = Vgaterm.vgaterm_init b.term }
  let copied = do
    let b = record b { mboot = b.given }
    b ← copy_cmdline buf b
    b ← copy_elf buf elf (copy_mods buf b)
    let b = copy_mmap buf b
    (offsets, text) ← tokenize 32 (bytes_from b.bytes b.mboot.cmdline) 256
    ok (
      some (pointers b.mboot.cmdline offsets),
      record b { bytes = store_bytes b.bytes b.mboot.cmdline text },
    )
  if not (magic == 0x2bad_b002)
      then (do
        term ← Vgaterm.vgaterm_writestring (Vgaterm.vgaterm_setcolor b.term 12) badmagic
        ok (none, record b { term = term }))
      else copied
