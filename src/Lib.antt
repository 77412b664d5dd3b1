-- ===== src/Lib.antt =====
-- The kernel Mink: a model of its memory, set-up and devices, and what is proved of it.
--
-- Prelude: shared names. Outcome (Prelude/Faults) is how a piece of kernel code ends: a value, a
--   panic (panic() or a failed assert(); the Makefile defines MINK_ASSERTIONS), or what C leaves
--   undefined, an endless loop included. Prelude/Bits, Digits and Powers have the laws of bits.
-- Utils: log2_roundup() of utils.c (buddy.c has a copy).
-- Bitmap: bitmap.c. `Bitmap.set` is bitmap_set(), and so on. View and Scan hold its theorems.
-- Buddy: buddy.c. `Buddy.alloc` is buddy_alloc(), whose loops are `search_up` and `split`;
--   `Buddy.free` is buddy_free() with the loop `coalesce`; `free_range` is buddy_free_range();
--   Buddy/Init has buddy_init(). The abstract view (Pages, Valid) is how often a page of the region
--   is free; Split, Alloc, Free, FreeRange, Unaligned, Roundtrip and Init/Empty are the theorems.
-- Locking: locking.c, as one processor sees it. Locking/Processors: several processors that share a
--   lock, in any order of their accesses; Exclusion and Race are the theorems.
-- Pmm: pmm.c over three Buddy allocators; Zones, Pages, FreePage, Roundtrip and Early
--   are the theorems.
-- Vmm: arch/x86/vmm.c over Pmm, with the processor's translation of addresses (`walk`). Tables is the
--   recursive page directory and what is asked of the tables (IsTree), Boot that for the directory of
--   arch/x86/loader.s, in which the first 4 MB share their table with those from 3 GB: a change of the
--   one mapping is a change of the other. Mappings, Change, NewTable and Iterate are the theorems of
--   get_mapping(), map, unmap and iterate_mappings(), whose loop has 2^20 rounds, one for each page.
-- Idt: arch/x86/idt.c and the gates that isrs.c and irqs.c set. Interrupts: the rest of those two.
-- Ramfs: ramfs.c; Ramfs/Find has its theorems. Elf: elf.c.
-- Vgaterm: arch/x86/vgaterm.c, with its theorems in Cursor. Gdt: arch/x86/gdt.c. Console: console.c.
-- Strings: strlen(), strcmp() and tokenize() of utils.c; Tokens is the theorem of the last.
-- Vmspace: vmspace.c over Buddy, Vmm and Pmm. Space is its invariant; Backing and Alloc are the
--   theorems of vmspace_alloc(), FreePages and Free those of vmspace_free(), Roundtrip that of both.
-- Slab: slab.c over Vmspace and bytes of memory by address. Bits, Search and Alloc are the theorems of
--   slab_cache_alloc(); Lock, Free, Others, Cache and Roundtrip those of it and slab_cache_free();
--   Overlap that of the place of the bitmap. A list of slabs has at most 2^19, the slabs in 4 GB; a
--   longer one has a cycle, and the source does not end.
-- Kmalloc: kmalloc.c over Slab and Vmspace; Kmalloc/Header has its theorem.
-- Vmm/Pages: map() and unmap() of several pages. Vmm/Spaces: the set-up and the cloning of address
--   spaces.
-- Memory: init_physical_memory() of pmm.c, and arch/x86/mem.c; BootMap is the theorem of its loop.
-- Features: the loading of features in kmain.c, with what an init function does as a parameter. Order
--   says what it means that features start in order; Load and Init are the theorems. init_feature()
--   recurs at most as deep as there are features, and one: it marks each before it goes on.
-- Loader: arch/x86/loader2.c, with earlyalloc() and elf_from_multiboot(); CommandLine is the theorem
--   of the command line. Ticks: tick.c and arch/x86/timer.c.
-- Kmain: process_args() and greybox() of kmain.c.
-- Tests: the theorems at concrete inputs, and runs of the code.
--
-- Numbers are natural numbers, and a C operation that wraps has its wrap written out. A loop recurs
-- on the rounds that are left where the source counts; lsb_set() has 8 rounds, enough for a byte
-- other than 0, and buddy_free_range() as many as the range has pages, and one.
--
-- Not modelled: ports and control registers as hardware, the TLB, several processors at once outside
-- of locking.c, the assembly, the messages of kmain(), the serial terminal and formatted output (the
-- latter a copy of another project's).
pub mod Prelude
pub mod Utils
pub mod Bitmap
pub mod Buddy
pub mod Loader
pub mod Locking
pub mod Pmm
pub mod Vmm
pub mod Vgaterm
pub mod Gdt
pub mod Console
pub mod Strings
pub mod Features
pub mod Kmain
pub mod Vmspace
pub mod Slab
pub mod Kmalloc
pub mod Memory
pub mod Idt
pub mod Ticks
pub mod Interrupts
pub mod Ramfs
pub mod Elf
pub mod Tests
