-- ===== src/Idt/Gates.antt =====
-- After idt_init(), isrs_init() and irqs_init() the processor finds the stub of every exception and
-- IRQ at its number, and nothing elsewhere.
use mink.Prelude.{
  ℕ, zero, suc, ◌+◌, ◌*◌, ◌/◌, ◌%◌, ◌^◌, ◌≤◌, ◌<◌, ◌≡◌, ◌≢◌, ◌∙◌, refl, arith, List, ◌==◌, ltb, leb,
  ◌&&◌, if◌then◌else◌, get_or, length, length-set, get_or-set_self, get_or-set_ne, get_or-replicate,
  Bool-cases, inl, inr, ==→eq,
}
use mink.Idt.{Gate, no_gate, set_gate, init, set_gates, isrs_init, irqs_init}

-- The handler's address that the processor reads out of a gate.
abbrev pub gate_base : Gate → ℕ
gate_base g = g.base_lo + g.base_hi * 2 ^ 16

-- A present 32-bit interrupt gate of ring 0 in the kernel's code segment.
abbrev pub LeadsTo : Gate → ℕ → Type 0
LeadsTo g base = (gate_base g ≡ base) × (g.sel ≡ 0x08) × (g.flags ≡ 0x8e) × (g.always0 ≡ 0)

module _ (stub : ℕ → ℕ) (word : (n : ℕ) → stub n < 2 ^ 32) where
  new_gate : (n : ℕ) → Gate
  new_gate n = record {
    base_lo = stub n % 2 ^ 16;
    base_hi = stub n / 2 ^ 16 % 2 ^ 16;
    sel = 0x08;
    always0 = 0;
    flags = 0x8e;
  }

  new_gate-LeadsTo : (n : ℕ) → LeadsTo (new_gate n) (stub n)
  unfolding new_gate
  new_gate-LeadsTo n = (omega (arith, word n), refl, refl, refl)

  set_gate_self :
      (idt : List Gate) (n : ℕ)
      → length idt ≡ 256
      → n < 256
      → get_or (set_gate idt n (stub n) 0x08 0x8e) n no_gate ≡ new_gate n
  unfolding set_gate new_gate
  set_gate_self idt n len lt =
      let index : n % 2 ^ 8 ≡ n = omega arith in
      rw (index, get_or-set_self idt n (unfold new_gate in new_gate n) no_gate (omega arith))

  set_gate_ne :
      (idt : List Gate) (n i : ℕ)
      → n < 256
      → n ≢ i
      → get_or (set_gate idt n (stub n) 0x08 0x8e) i no_gate ≡ get_or idt i no_gate
  unfolding set_gate
  set_gate_ne idt n i lt ne =
      let index : n % 2 ^ 8 ≡ n = omega arith in rw (index, get_or-set_ne idt n i _ no_gate ne)

  length-set_gate :
      (idt : List Gate) (n : ℕ) → length (set_gate idt n (stub n) 0x08 0x8e) ≡ length idt
  unfolding set_gate
  length-set_gate idt n = length-set idt (n % 2 ^ 8) _

  -- The gates from `n` on lead to their stubs, and the others are as before.
  set_gates_lem :
      (left n : ℕ) (idt : List Gate)
      → length idt ≡ 256
      → n + left ≤ 256
      → (length (set_gates stub left n idt) ≡ 256)
        × ((i : ℕ)
            → get_or (set_gates stub left n idt) i no_gate
              ≡ (if leb n i && ltb i (n + left) then new_gate i else get_or idt i no_gate))
  unfolding set_gates
  set_gates_lem zero n idt len fits = (len, λ i. ground arith)
  set_gates_lem (suc left) n idt len fits =
      let (len', rest) =
        set_gates_lem left (n + 1) (set_gate idt n (stub n) 0x08 0x8e) (length-set_gate idt n ∙ len)
          (omega arith) in
      (
        len',
        λ i. elim (Bool-cases (n == i)) [
          | inl same ↦
              rw (← ==→eq n i same) (ground (arith, rest n, set_gate_self idt n len (omega arith)))
          | inr other ↦ ground (arith, rest i, set_gate_ne idt n i (omega arith))
        ],
      )

  -- With every stub at a 32-bit address: gates 0 to 47 of the table that the three init functions
  -- leave lead to the stub of their number, in the kernel's code segment, and the rest are empty.
  pub gates_lead_to_stubs :
      (i : ℕ)
      → i < 256
      → (i < 48 → LeadsTo (get_or (irqs_init stub (isrs_init stub init)) i no_gate) (stub i))
        × (48 ≤ i → get_or (irqs_init stub (isrs_init stub init)) i no_gate ≡ no_gate)
  unfolding isrs_init irqs_init
  gates_lead_to_stubs i lt =
      let (len, first) = set_gates_lem 32 0 init (unfold init in refl) (omega arith) in
      let (len', second) = set_gates_lem 16 32 (set_gates stub 32 0 init) len (omega arith) in
      let empty : get_or init i no_gate ≡ no_gate = unfold init in get_or-replicate 256 i no_gate in
      (
        λ below.
            (let e : get_or (set_gates stub 16 32 (set_gates stub 32 0 init)) i no_gate
                  ≡ new_gate i =
                ground (arith, first i, second i) in
              rw e (new_gate-LeadsTo i)),
        λ above. ground (arith, first i, second i, empty),
      )
