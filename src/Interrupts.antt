-- ===== src/Interrupts.antt =====
-- arch/x86/isrs.c and irqs.c: the table of C handlers, the handling of an exception and of an IRQ.
-- A handler is a value of any type `H`, and `run` is what calling it does: it returns an `int` and
-- may change the machine, the table included, or panic. It leaves `int_no` of the saved registers as
-- it is.
pub mod Handling
use mink.Prelude.{
  ℕ, ◌+◌, ◌-◌, ◌^◌, Bool, true, false, ◌&&◌, ◌==◌, ltb, leb, if◌then◌else◌, List, [], ◌∷◌, ◌++◌,
  Option, none, some, Outcome, ok, panicked, undefined, ◌>>=◌,
}

-- The part of the saved registers that the handlers' dispatch reads.
pub record IsrRegs : Type 0 where
  pub int_no : ℕ
  pub err_code : ℕ

-- ISR_IRQ(x): -1U for what is no IRQ.
abbrev pub isr_irq : ℕ → ℕ
isr_irq x = if ltb 31 x && ltb x 48 then x - 0x20 else 2 ^ 32 - 1

abbrev pub irq_isr : ℕ → ℕ
irq_isr x = x + 0x20

-- `isr_routines`, which is NULL where nothing is installed, and the bytes written to ports so far,
-- the last one last.
pub record Machine {ℓ} (H : Type ℓ) : Type ℓ where
  pub routines : ℕ → Option H
  pub ports : List (ℕ × ℕ)

module _ {ℓ} {H : Type ℓ} where
  abbrev pub set_routine : Machine H → ℕ → Option H → Machine H
  set_routine m intr h = record m { routines = λ i. if i == intr then h else m.routines i }

  unfoldable pub install_isr : Machine H → ℕ → H → Machine H
  install_isr m intr handler =
      if ltb 0 intr && ltb intr 256 then set_routine m intr (some handler) else m

  unfoldable pub uninstall_isr : Machine H → ℕ → Machine H
  uninstall_isr m intr = if ltb 0 intr && ltb intr 256 then set_routine m intr none else m

  unfoldable pub outportb : Machine H → ℕ → ℕ → Machine H
  outportb m port value = record m { ports = m.ports ++ (port, value) ∷ [] }

  -- isr_routines[r->int_no], an array of 256.
  unfoldable pub routine : Machine H → ℕ → Outcome (Option H)
  routine m int_no = if ltb int_no 256 then ok (m.routines int_no) else undefined

  module _ (run : H → IsrRegs → Machine H → Outcome (ℕ × Machine H)) where
    -- A failure that the handler reports, or the lack of one, stops the kernel.
    unfoldable pub fault_handler : IsrRegs → Machine H → Outcome (Machine H)
    fault_handler r m = do
      h ← routine m r.int_no
      elim h [
        | none ↦ panicked
        | some handler ↦ do (ret, m) ← run handler r m; if ret == 0 then ok m else panicked
      ]

    -- Without a handler a message is printed, which changes nothing here.
    unfoldable pub call_handler : IsrRegs → Machine H → Outcome (Machine H)
    call_handler r m = do
      h ← routine m r.int_no
      elim h [ none ↦ ok m | some handler ↦ do (ret, m) ← run handler r m; ok m ]

    unfoldable pub irq_handler : IsrRegs → Machine H → Outcome (Machine H)
    irq_handler r m = do
      m ← call_handler r m
      let m = if leb 40 r.int_no then outportb m 0xa0 0x20 else m
      ok (outportb m 0x20 0x20)

  -- The two controllers are told to send IRQs 0 to 7 as interrupts 32 on and 8 to 15 as 40 on.
  unfoldable pub irq_remap : Machine H → Machine H
  irq_remap m = record m {
    ports =
        m.ports
        ++ ((0x20, 0x11)
            ∷ (0xa0, 0x11)
            ∷ (0x21, 0x20)
            ∷ (0xa1, 0x28)
            ∷ (0x21, 0x04)
            ∷ (0xa1, 0x02)
            ∷ (0x21, 0x01)
            ∷ (0xa1, 0x01)
            ∷ (0x21, 0x0)
            ∷ (0xa1, 0x0)
            ∷ []);
  }
