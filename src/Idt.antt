-- ===== src/Idt.antt =====
-- arch/x86/idt.c, and the gates that isrs.c and irqs.c put into the table. The stubs of isr_stubs.s
-- and irq_stubs.s are a parameter: the address of the code for each interrupt.
pub mod Gates
use mink.Prelude.{ℕ, zero, suc, ◌+◌, ◌*◌, ◌/◌, ◌%◌, ◌^◌, List, set, replicate}

-- struct idt_entry
pub record Gate : Type 0 where
  pub base_lo : ℕ
  pub sel : ℕ
  pub always0 : ℕ
  pub flags : ℕ
  pub base_hi : ℕ

abbrev pub no_gate : Gate
no_gate = record { base_lo = 0; sel = 0; always0 = 0; flags = 0; base_hi = 0 }

-- `num` is an unsigned char and indexes a table of 256 gates.
unfoldable pub set_gate : List Gate → ℕ → ℕ → ℕ → ℕ → List Gate
set_gate idt num base sel flags = set idt (num % 2 ^ 8) (record {
  base_lo = base % 2 ^ 16;
  base_hi = base / 2 ^ 16 % 2 ^ 16;
  sel = sel % 2 ^ 16;
  always0 = 0;
  flags = flags % 2 ^ 8;
})

-- The table that idt_init() leaves: 256 times nothing.
unfoldable pub init : List Gate
init = replicate 256 no_gate

module _ (stub : ℕ → ℕ) where
  -- idt_set_gate(n, stub, 0x08, 0x8E) for `left` interrupts from `n` on.
  unfoldable pub set_gates : ℕ → ℕ → List Gate → List Gate
  set_gates zero n idt = idt
  set_gates (suc left) n idt = set_gates left (n + 1) (set_gate idt n (stub n) 0x08 0x8e)

  unfoldable pub isrs_init : List Gate → List Gate
  isrs_init idt = set_gates 32 0 idt

  -- The gates of irqs_init().
  unfoldable pub irqs_init : List Gate → List Gate
  irqs_init idt = set_gates 16 32 idt
