-- ===== src/Tests/Images.antt =====
-- The initial file system, strings and the symbol table at concrete inputs.
use mink.Prelude.{◌↔◌, ℕ, ◌≡◌, refl, arith, inl, inr, List, [], ◌∷◌, Option, some, ok}
use mink.Ramfs
use mink.Ramfs.{FileHeader, Ramfs}
use mink.Ramfs.Find.{IsReadable, FirstNamed, text, find_file-FirstNamed}
use mink.Strings
use mink.Strings.{strcmp_lem, tokenize}
use mink.Strings.Tokens.{tokenize_lem}
use mink.Elf
use mink.Elf.{ElfSymbol, Elf, HasSymbols, FirstCovering, elf_lookup_symbol_lem}

-- "init" and "sh", and the 0 at their ends.
abbrev init_name : List ℕ
init_name = 105 ∷ 110 ∷ 105 ∷ 116 ∷ 0 ∷ []

abbrev sh_name : List ℕ
sh_name = 115 ∷ 104 ∷ 0 ∷ []

abbrev image : Ramfs
image = record {
  magic = 0x0101ca75;
  version = 10;
  fs_size = 4096;
  file_count = 2;
  files =
      record { file_start = 64; file_length = 5; file_name = init_name }
      ∷ record { file_start = 37; file_length = 9; file_name = sh_name }
      ∷ [];
}

init_name-IsReadable : IsReadable 24 init_name
init_name-IsReadable = inr (inr (inr (inr (inl refl))))

sh_name-IsReadable : IsReadable 24 sh_name
sh_name-IsReadable = inr (inr (inl refl))

find_file-FirstNamed_example :
    (r : Option ℕ) × (Ramfs.ramfs_find_file (some image) (some sh_name) ≡ ok r)
    × FirstNamed (text 24 sh_name) 2 0 image.files r
find_file-FirstNamed_example =
    find_file-FirstNamed image sh_name (refl, refl) sh_name-IsReadable
      (init_name-IsReadable, (sh_name-IsReadable, tt))

find_runs : Ramfs.ramfs_find_file (some image) (some sh_name) ≡ ok (some 1)
unfolding Ramfs.ramfs_find_file Ramfs.find_from Ramfs.strncmp_equal Ramfs.is_valid_ramfs
find_runs = refl

abbrev kernel_symbols : Elf
kernel_symbols = record {
  symtab =
      record { name = 1; value = 0x1000; size = 0x80; info = 0x12; other = 0; shndx = 1 }
      ∷ record { name = 7; value = 0x1080; size = 0x40; info = 0x12; other = 0; shndx = 1 }
      ∷ [];
  symtabsz = 32;
  strtab = 0xc0200000;
  strtabsz = 64;
}

elf_lookup_symbol_lem_example :
    (r : Option ℕ) × (Elf.elf_lookup_symbol 0x1090 kernel_symbols ≡ ok r)
    × FirstCovering 0x1090 0xc0200000 2 kernel_symbols.symtab r
elf_lookup_symbol_lem_example =
    elf_lookup_symbol_lem 0x1090 kernel_symbols (omega arith, (omega arith, tt))

sh_name-IsString : Strings.IsString sh_name
sh_name-IsString = (omega arith, inr (omega arith, inr (omega arith, inl refl)))

init_name-IsString : Strings.IsString init_name
init_name-IsString = (
  omega arith,
  inr (omega arith, inr (omega arith, inr (omega arith, inr (omega arith, inl refl)))),
)

strcmp_lem_example :
    (r : ℕ) × (Strings.strcmp sh_name init_name ≡ ok r)
    × ((r ≡ 0) ↔ (Strings.content sh_name ≡ Strings.content init_name))
strcmp_lem_example = strcmp_lem sh_name init_name sh_name-IsString init_name-IsString

-- "a b": two tokens.
tokenize_lem_example :
    tokenize 32 (97 ∷ 32 ∷ 98 ∷ 0 ∷ 7 ∷ []) 2 ≡ ok (0 ∷ 2 ∷ [], 97 ∷ 0 ∷ 98 ∷ 0 ∷ 7 ∷ [])
tokenize_lem_example =
    tokenize_lem 32 2 (97 ∷ 32 ∷ 98 ∷ []) (7 ∷ []) (omega arith)
      (omega arith, (omega arith, (omega arith, tt))) (omega arith)
