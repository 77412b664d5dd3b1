-- ===== src/Interrupts/Handling.antt =====
-- Which handler runs, and what the interrupt controllers are told.
use mink.Prelude.{
  ℕ, ◌<◌, ◌≡◌, arith, true, ◌&&◌, ◌==◌, ltb, leb, if◌then◌else◌, List, [], ◌∷◌, ◌++◌, none, some,
  Outcome, ok, ◌>>=◌, refl, ap, ◌∙◌, false, Bool, Option, undefined, >>=-assoc, panicked,
  Bool-cases, inl, inr,
}
use mathlib.Core.List.{append_assoc}
use mink.Interrupts.{
  IsrRegs, Machine, install_isr, uninstall_isr, outportb, routine, fault_handler, call_handler,
  irq_handler, irq_isr,
}

module _ {ℓ} {H : Type ℓ} where
  -- install_isr() changes the handler of its interrupt alone, if that is from 1 to 255, and
  -- uninstall_isr() takes it away again; at 0 or from 256 on both leave the table as it was.
  install_isr_lem :
      (m : Machine H) (intr i : ℕ) (h : H)
      → ((install_isr m intr h).routines i
          ≡ (if (ltb 0 intr && ltb intr 256) && (i == intr) then some h else m.routines i))
        × ((uninstall_isr (install_isr m intr h) intr).routines i
            ≡ (if (ltb 0 intr && ltb intr 256) && (i == intr) then none else m.routines i))
  unfolding install_isr uninstall_isr
  install_isr_lem m intr i h = (ground arith, ground arith)

  same_ports :
      (m : Machine H) (i : ℕ) (h : H) → (uninstall_isr (install_isr m i h) i).ports ≡ m.ports
  unfolding install_isr uninstall_isr
  same_ports m i h = elim (Bool-cases (ltb 0 i && ltb i 256)) [
    | inl inside ↦ rw inside refl
    | inr outside ↦ rw outside refl
  ]

  module _ (run : H → IsrRegs → Machine H → Outcome (ℕ × Machine H)) where
    -- The end-of-interrupt commands for IRQ `x`: for 8 to 15 the second controller, which passes its
    -- interrupts on through the first one, and then the first one.
    abbrev pub eoi : ℕ → List (ℕ × ℕ)
    eoi x = if ltb x 8 then (0x20, 0x20) ∷ [] else (0xa0, 0x20) ∷ (0x20, 0x20) ∷ []

    -- irq_handler() is the call of the handler and then the commands.
    acknowledges :
        (r : IsrRegs) (m : Machine H) (x : ℕ)
        → r.int_no ≡ irq_isr x
        → irq_handler run r m
          ≡ (call_handler run r m >>= λ m'. ok (record m' { ports = m'.ports ++ eoi x }))
    unfolding irq_handler outportb
    acknowledges r m x at_x = elim (Bool-cases (ltb x 8)) [
      | inl first ↦ let one : leb 40 r.int_no ≡ false = ground (arith, at_x) in rw (one, first) refl
      | inr second ↦
          let both : leb 40 r.int_no ≡ true = ground (arith, at_x) in
          rw (both, second) (two (call_handler run r m))
    ]
      where
        two :
            (o : Outcome (Machine H))
            → (o >>= λ m'.
                ok (record m' { ports = (m'.ports ++ (0xa0, 0x20) ∷ []) ++ (0x20, 0x20) ∷ [] }))
              ≡ (o >>= λ m'.
                  ok (record m' { ports = m'.ports ++ (0xa0, 0x20) ∷ (0x20, 0x20) ∷ [] }))
        two (ok m') =
            ap (λ l. ok (record m' { ports = l }))
              (append_assoc m'.ports ((0xa0, 0x20) ∷ []) ((0x20, 0x20) ∷ []))
        two panicked = refl
        two undefined = refl

    calls :
        (r : IsrRegs) (m : Machine H) (h : H)
        → r.int_no < 256
        → m.routines r.int_no ≡ some h
        → call_handler run r m ≡ (run h r m >>= λ (ret, m'). ok m')
    unfolding call_handler routine
    calls r m h lt there =
        let inside : ltb r.int_no 256 ≡ true = ground arith in rw (inside, there) refl

    skips :
        (r : IsrRegs) (m : Machine H)
        → r.int_no < 256
        → m.routines r.int_no ≡ none
        → call_handler run r m ≡ ok m
    unfolding call_handler routine
    skips r m lt missing =
        let inside : ltb r.int_no 256 ≡ true = ground arith in rw (inside, missing) refl

    faults :
        (r : IsrRegs) (m : Machine H) (h : H)
        → r.int_no < 256
        → m.routines r.int_no ≡ some h
        → fault_handler run r m ≡ (run h r m >>= λ (ret, m'). if ret == 0 then ok m' else panicked)
    unfolding fault_handler routine
    faults r m h lt there =
        let inside : ltb r.int_no 256 ≡ true = ground arith in rw (inside, there) refl

    stops :
        (r : IsrRegs) (m : Machine H)
        → r.int_no < 256
        → m.routines r.int_no ≡ none
        → fault_handler run r m ≡ panicked
    unfolding fault_handler routine
    stops r m lt missing =
        let inside : ltb r.int_no 256 ≡ true = ground arith in rw (inside, missing) refl

    -- For an IRQ `x` below 16: after install_isr() of a handler for it, irq_handler() runs that handler
    -- and, when it returns (whatever it returns), tells the controllers the end of the interrupt, the
    -- second one first if it is IRQ 8 or later; after uninstall_isr() it tells them that and does
    -- nothing else.
    pub irq_handler-install_isr :
        (r : IsrRegs) (m : Machine H) (h : H) (x : ℕ)
        → x < 16
        → r.int_no ≡ irq_isr x
        → (irq_handler run r (install_isr m r.int_no h) ≡ (
            run h r (install_isr m r.int_no h) >>= λ (ret, m').
            ok (record m' { ports = m'.ports ++ eoi x })))
          × (irq_handler run r (uninstall_isr (install_isr m r.int_no h) r.int_no)
              ≡ ok (record (uninstall_isr (install_isr m r.int_no h) r.int_no) {
                ports = m.ports ++ eoi x;
              }))
    irq_handler-install_isr r m h x lt at_x =
        let i = r.int_no in
        let m1 = install_isr m i h in
        let m2 = uninstall_isr m1 i in
        let table = install_isr_lem m i i h in
        let there : m1.routines i ≡ some h = table.0 ∙ ground (arith, at_x) in
        let gone : m2.routines i ≡ none = table.1 ∙ ground (arith, at_x) in
        (
          acknowledges r m1 x at_x
              ∙ ap (λ o. o >>= finish x) (calls r m1 h (omega (arith, at_x)) there)
              ∙ >>=-assoc (run h r m1) _ _,
          acknowledges r m2 x at_x
              ∙ ap (λ o. o >>= finish x) (skips r m2 (omega (arith, at_x)) gone)
              ∙ ap (λ l. ok (record m2 { ports = l ++ eoi x })) (same_ports m i h),
        )
      where
        finish : ℕ → Machine H → Outcome (Machine H)
        finish x m' = ok (record m' { ports = m'.ports ++ eoi x })

    -- For an exception below 32 that has no handler: after install_isr() of one, fault_handler() runs it
    -- and goes on if it returns 0, and stops the kernel if it returns anything else; for exception 0 it
    -- stops the kernel all the same, as install_isr() ignores that one. After uninstall_isr() it stops
    -- the kernel.
    pub fault_handler-install_isr :
        (r : IsrRegs) (m : Machine H) (h : H)
        → r.int_no < 32
        → m.routines r.int_no ≡ none
        → (fault_handler run r (install_isr m r.int_no h) ≡ (
            if r.int_no == 0
            then panicked
            else (run h r (install_isr m r.int_no h) >>= λ (ret, m').
                if ret == 0 then ok m' else panicked)))
          × (fault_handler run r (uninstall_isr (install_isr m r.int_no h) r.int_no) ≡ panicked)
    fault_handler-install_isr r m h lt missing =
        let i = r.int_no in
        let m1 = install_isr m i h in
        let m2 = uninstall_isr m1 i in
        let table = install_isr_lem m i i h in
        let gone : m2.routines i ≡ none = table.1 ∙ emptied (m.routines i) missing _ in
        let stops' = stops r m2 (omega (arith, lt)) gone in
        elim (Bool-cases (i == 0)) [
          | inl zero_no ↦
              let still : m1.routines i ≡ none =
                let outside : (ltb 0 i && ltb i 256) && (i == i) ≡ false =
                  ground (arith, zero_no) in
                table.0 ∙ rw outside missing in
              (rw zero_no (stops r m1 (omega (arith, lt)) still), stops')
          | inr some_no ↦
              let there : m1.routines i ≡ some h =
                let inside : (ltb 0 i && ltb i 256) && (i == i) ≡ true =
                  ground (arith, some_no, lt) in
                table.0 ∙ rw inside refl in
              (rw some_no (faults r m1 h (omega (arith, lt)) there), stops')
        ]
      where
        emptied :
            (before : Option H) → before ≡ none → (b : Bool) → (if b then none else before) ≡ none
        emptied before e true = refl
        emptied before e false = e
