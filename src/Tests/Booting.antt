-- ===== src/Tests/Booting.antt =====
-- The second-stage loader, the timer and the arguments of the kernel at concrete inputs.
use mink.Prelude.{ℕ, List, ◌≡◌, refl, arith, ◌==◌, if◌then◌else◌, [], ◌∷◌, none, some, ok}
use mink.Strings
use mink.Kmain
use mink.Loader
use mink.Ticks
use mink.Interrupts
use mink.Loader.{SectionHeaderTable, MultibootInfo, ElfPointers, Boot, byte_or, store_bytes}
use mink.Loader.CommandLine.{IsCommandLine, PassesTokens, loader-PassesTokens}
use mink.Tests.Screens.{full_screen}

-- "a b" at 0xc0001000, and a section header at 0x2000 with address 0x3000, where ".symtab" stands.
abbrev memory : ℕ → ℕ
memory =
    store_bytes (store_bytes (store_bytes (λ x. 0) 0x3000 Loader.symtab_name) 0x200d (0x30 ∷ []))
      0xc000_1000 (97 ∷ 32 ∷ 98 ∷ 0 ∷ [])

abbrev sections : SectionHeaderTable
sections = record { num = 1; size = 40; addr = 0x2000; shndx = 0 }

abbrev no_elf : ElfPointers
no_elf = record { symtab = 0; symtabsz = 0; strtab = 0; strtabsz = 0 }

-- A command line, a module list and a memory map.
abbrev info : MultibootInfo
info = record {
  flags = 13;
  cmdline = 0x1000;
  mods_count = 1;
  mods_addr = 0x4000;
  elf_sec = sections;
  mmap_length = 48;
  mmap_addr = 0x5000;
}

abbrev boot : Boot
boot = record {
  bytes = memory;
  idx = 0;
  mboot = info;
  given = info;
  kernel_elf = no_elf;
  term = full_screen;
}

boot-IsCommandLine : IsCommandLine boot (97 ∷ 32 ∷ 98 ∷ [])
unfolding store_bytes Loader.bytes_at
boot-IsCommandLine = ((omega arith, (omega arith, (omega arith, tt))), omega arith, refl)

loader-PassesTokens_example :
    PassesTokens 0xc010_0000 (97 ∷ 32 ∷ 98 ∷ []) (Loader.loader 0xc010_0000 no_elf 0x2bad_b002 boot)
loader-PassesTokens_example =
    loader-PassesTokens 0xc010_0000 no_elf (97 ∷ 32 ∷ 98 ∷ []) boot (omega arith, omega arith)
      boot-IsCommandLine refl refl (omega arith) (omega arith) (omega arith) (omega arith)

elf_from_multiboot_symtab :
    Loader.elf_from_multiboot memory sections no_elf
    ≡ ok record { symtab = 0x3000; symtabsz = 0; strtab = 0; strtabsz = 0 }
unfolding Loader.elf_from_multiboot Loader.sections_from Loader.bytes_from Loader.bytes_at
    store_bytes Strings.strcmp
elf_from_multiboot_symtab = refl

after_ticks_lem_example :
    (Ticks.uptime_jiffies (Ticks.after_ticks 250 Ticks.start) ≡ 250)
    × ((Ticks.after_ticks 250 Ticks.start).dots ≡ 2)
after_ticks_lem_example = Ticks.after_ticks_lem 250 (omega arith)

-- 11932 is 0x2e9b; the handler of IRQ 0 is that of interrupt 32.
timer_init_ports :
    Ticks.timer_init {H = ℕ} (record { routines = λ i. none; ports = [] }) 5
    ≡ ok (
      1,
      record {
        routines = λ i. if i == 32 then some 5 else none;
        ports = (0x43, 0x36) ∷ (0x40, 0x9b) ∷ (0x40, 0x2e) ∷ [];
      },
    )
unfolding Ticks.timer_init Ticks.set_kernel_frequency Interrupts.outportb Interrupts.install_isr
timer_init_ports = refl

abbrev two_arguments : List (List ℕ)
two_arguments = Kmain.debug_text ∷ (120 ∷ 0 ∷ []) ∷ []
