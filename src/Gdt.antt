-- ===== src/Gdt.antt =====
-- arch/x86/gdt.c: the segment descriptors and the task states.
use mink.Prelude.{
  ℕ, ◌+◌, ◌-◌, ◌*◌, ◌/◌, ◌%◌, ◌^◌, ◌<◌, ◌≡◌, refl, arith, List, [], ◌∷◌, ◌++◌, length, Outcome, ok,
  undefined, ◌==◌, ltb, if◌then◌else◌,
}

-- struct gdt_entry
pub record GdtEntry : Type 0 where
  pub limit_low : ℕ
  pub base_low : ℕ
  pub base_mid : ℕ
  pub ty : ℕ
  pub s : ℕ
  pub dpl : ℕ
  pub p : ℕ
  pub limit_high : ℕ
  pub avail : ℕ
  pub l : ℕ
  pub d : ℕ
  pub g : ℕ
  pub base_high : ℕ

unfoldable pub set_gdt_entry : ℕ → ℕ → ℕ → ℕ → ℕ → ℕ → ℕ → ℕ → ℕ → GdtEntry
set_gdt_entry base limit ty s dpl p l d g = record {
  limit_low = limit % 2 ^ 16;
  base_low = base % 2 ^ 16;
  base_mid = base / 2 ^ 16 % 2 ^ 8;
  ty = ty % 2 ^ 4;
  s = s % 2;
  dpl = dpl % 2 ^ 2;
  p = p % 2;
  limit_high = limit / 2 ^ 16 % 2 ^ 4;
  avail = 0;
  l = l % 2;
  d = d % 2;
  g = g % 2;
  base_high = base / 2 ^ 24 % 2 ^ 8;
}

-- The entries that gdt_init() sets before the processors': none, code and data of the kernel, code
-- and data of the user. TY_CODE|TY_READABLE is 10 and TY_DATA_WRITABLE is 2.
unfoldable pub flat_entries : List GdtEntry
flat_entries =
    set_gdt_entry 0 0xfff0 0 0 0 0 0 0 0
    ∷ set_gdt_entry 0 (2 ^ 32 - 1) 10 1 0 1 0 1 1
    ∷ set_gdt_entry 0 (2 ^ 32 - 1) 2 1 0 1 0 1 1
    ∷ set_gdt_entry 0 (2 ^ 32 - 1) 10 1 3 1 0 1 1
    ∷ set_gdt_entry 0 (2 ^ 32 - 1) 2 1 3 1 0 1 1
    ∷ []

-- The entry of a processor's task state segment, which has 104 bytes, at `tss`.
unfoldable pub tss_segment : ℕ → GdtEntry
tss_segment tss = set_gdt_entry tss 104 9 0 3 1 0 0 1

-- The loop of gdt_init() over the processors, with their task state segments' addresses.
unfoldable pub tss_segments : List ℕ → List GdtEntry
tss_segments [] = []
tss_segments (tss ∷ others) = tss_segment tss ∷ tss_segments others

-- tss_entry_t
pub record TssEntry : Type 0 where
  pub prev_tss : ℕ
  pub esp0 : ℕ
  pub ss0 : ℕ
  pub esp1 : ℕ
  pub ss1 : ℕ
  pub esp2 : ℕ
  pub ss2 : ℕ
  pub cr3 : ℕ
  pub eip : ℕ
  pub eflags : ℕ
  pub eax : ℕ
  pub ecx : ℕ
  pub edx : ℕ
  pub ebx : ℕ
  pub esp : ℕ
  pub ebp : ℕ
  pub esi : ℕ
  pub edi : ℕ
  pub es : ℕ
  pub cs : ℕ
  pub ss : ℕ
  pub ds : ℕ
  pub fs : ℕ
  pub gs : ℕ
  pub ldt : ℕ
  pub trap : ℕ
  pub iomap_base : ℕ

-- init_tss_entry()
unfoldable pub init_tss_entry : TssEntry
init_tss_entry = record {
  prev_tss = 0;
  esp0 = 0;
  ss0 = 0x10;
  esp1 = 0;
  ss1 = 0;
  esp2 = 0;
  ss2 = 0;
  cr3 = 0;
  eip = 0;
  eflags = 0;
  eax = 0;
  ecx = 0;
  edx = 0;
  ebx = 0;
  esp = 0;
  ebp = 0;
  esi = 0;
  edi = 0;
  es = 0x10;
  cs = 0x08;
  ss = 0x10;
  ds = 0x10;
  fs = 0x10;
  gs = 0x10;
  ldt = 0;
  trap = 0;
  iomap_base = 0;
}

-- The descriptors, the processors' task states, their numbers, and what lgdt is given.
pub record Gdt : Type 0 where
  pub entries : List GdtEntry
  pub tss_entries : ℕ → TssEntry
  pub num_gdt_entries : ℕ
  pub num_tss_entries : ℕ
  pub ptr_limit : ℕ
  pub ptr_base : ℕ

-- MAX_CORES
abbrev pub max_cores : ℕ
max_cores = 256

unfoldable pub update_tss_entry : Gdt → ℕ → ℕ → ℕ → Outcome Gdt
update_tss_entry g cpu_core ss0 esp0 =
    let entry = record (g.tss_entries cpu_core) { ss0 = ss0; esp0 = esp0 } in
    if ltb cpu_core max_cores
    then ok (record g { tss_entries = λ i. if i == cpu_core then entry else g.tss_entries i })
    else undefined

-- gdt_init() up to the load of the registers, with the address of `entries` and those of the
-- processors' task states. A descriptor has 8 bytes.
unfoldable pub gdt_init : ℕ → List ℕ → Gdt → Outcome Gdt
gdt_init base tss_addresses g =
    let num_processors = length tss_addresses in
    if ltb max_cores num_processors
    then undefined
    else ok record {
      entries = flat_entries ++ tss_segments tss_addresses;
      tss_entries = λ i. if ltb i num_processors then init_tss_entry else g.tss_entries i;
      num_gdt_entries = num_processors + 5;
      num_tss_entries = num_processors;
      ptr_limit = (8 * (num_processors + 5) - 1) % 2 ^ 16;
      ptr_base = base;
    }

-- What the processor reads out of a descriptor.
abbrev pub base_of : GdtEntry → ℕ
base_of e = e.base_low + e.base_mid * 2 ^ 16 + e.base_high * 2 ^ 24

-- The last offset of the segment: with the granularity bit the limit counts pages.
abbrev pub last_offset : GdtEntry → ℕ
last_offset e = (e.limit_low + e.limit_high * 2 ^ 16) * (1 + 4095 * e.g) + 4095 * e.g

-- The processor reads the base and the 20 low bits of the limit that set_gdt_entry() was given, in
-- bytes or in pages.
set_gdt_entry_lem :
    (base limit ty s dpl p l d g : ℕ)
    → base < 2 ^ 32
    → (base_of (set_gdt_entry base limit ty s dpl p l d g) ≡ base)
      × (g ≡ 0 → last_offset (set_gdt_entry base limit ty s dpl p l d g) ≡ limit % 2 ^ 20)
      × (g ≡ 1
          → last_offset (set_gdt_entry base limit ty s dpl p l d g) ≡ limit % 2 ^ 20 * 4096 + 4095)
unfolding set_gdt_entry
set_gdt_entry_lem base limit ty s dpl p l d g lt =
    (omega (arith, lt), λ e. rw e (omega arith), λ e. rw e (omega arith))

-- The segment of a task state reaches to 430079, though the task state has 104 bytes: its limit of
-- 104 counts pages.
tss_segment-last_offset :
    (tss : ℕ)
    → tss < 2 ^ 32
    → (base_of (tss_segment tss) ≡ tss) × (last_offset (tss_segment tss) ≡ 430079)
unfolding tss_segment
tss_segment-last_offset tss lt =
    let (base, bytes, pages) = set_gdt_entry_lem tss 104 9 0 3 1 0 0 1 lt in (base, pages refl)
