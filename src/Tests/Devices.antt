-- ===== src/Tests/Devices.antt =====
-- The interrupt table and the dispatch of interrupts at concrete inputs.
use mink.Prelude.{
  ℕ, ◌+◌, ◌*◌, ◌%◌, ◌^◌, ◌<◌, ◌≤◌, ◌≡◌, refl, arith, ◌==◌, if◌then◌else◌, get_or, [], ◌∷◌, ◌++◌,
  none, Outcome, ok, panicked, ◌>>=◌,
}
use mink.Idt
use mink.Idt.{no_gate}
use mink.Idt.Gates.{LeadsTo, gates_lead_to_stubs}
use mink.Interrupts.{IsrRegs, Machine, install_isr, uninstall_isr, irq_handler, fault_handler}
use mink.Interrupts.Handling.{eoi, irq_handler-install_isr, fault_handler-install_isr}

-- Stubs of 16 bytes each, one after the other.
abbrev stub : ℕ → ℕ
stub n = (0xc0101000 + n * 16) % 2 ^ 32

stub_word : (n : ℕ) → stub n < 2 ^ 32
stub_word n = omega arith

gates_lead_to_stubs_example :
    (33 < 48
      → LeadsTo (get_or (Idt.irqs_init stub (Idt.isrs_init stub Idt.init)) 33 no_gate) (stub 33))
    × (48 ≤ 33 → get_or (Idt.irqs_init stub (Idt.isrs_init stub Idt.init)) 33 no_gate ≡ no_gate)
gates_lead_to_stubs_example = gates_lead_to_stubs stub stub_word 33 (omega arith)

-- A handler is the number it returns, and acknowledges its device at port 0x60.
abbrev run : ℕ → IsrRegs → Machine ℕ → Outcome (ℕ × Machine ℕ)
run h r m = ok (h, record m { ports = m.ports ++ (0x60, 1) ∷ [] })

abbrev idle : Machine ℕ
idle = record { routines = λ i. none; ports = [] }

abbrev regs : ℕ → IsrRegs
regs n = record { int_no = n; err_code = 0 }

-- IRQ 8, the real-time clock, which the second controller passes on.
irq_handler-install_isr_example :
    (irq_handler run (regs 40) (install_isr idle 40 0) ≡ (
      run 0 (regs 40) (install_isr idle 40 0) >>= λ (ret, m').
      ok (record m' { ports = m'.ports ++ eoi run 8 })))
    × (irq_handler run (regs 40) (uninstall_isr (install_isr idle 40 0) 40)
        ≡ ok (record (uninstall_isr (install_isr idle 40 0) 40) { ports = [] ++ eoi run 8 }))
irq_handler-install_isr_example = irq_handler-install_isr run (regs 40) idle 0 8 (omega arith) refl

-- A page fault, whose handler returns 0.
fault_handler-install_isr_example :
    (fault_handler run (regs 14) (install_isr idle 14 0) ≡ (
      if 14 == 0
      then panicked
      else (run 0 (regs 14) (install_isr idle 14 0) >>= λ (ret, m').
          if ret == 0 then ok m' else panicked)))
    × (fault_handler run (regs 14) (uninstall_isr (install_isr idle 14 0) 14) ≡ panicked)
fault_handler-install_isr_example =
    fault_handler-install_isr run (regs 14) idle 0 (omega arith) refl
