-- ===== src/Console.antt =====
-- console.c: up to four consoles. A console is a value of any type `C`, and what it was told is
-- kept, the last one last.
use mink.Prelude.{
  ℕ, ◌+◌, ◌≤◌, ◌≡◌, ◌≢◌, ap, refl, arith, Bool, true, false, ◌==◌, if◌then◌else◌, List, [], ◌∷◌,
  ◌++◌, length,
}
use mathlib.Core.List.{append_assoc}

-- A call of a console's function.
pub data Call : Type 0 where
  writestring : List ℕ → Call
  setcolor : ℕ → Call

-- The registered consoles, of which there are next_con, and the calls made.
pub record Consoles {ℓ} (C : Type ℓ) : Type ℓ where
  pub cons : List C
  pub calls : List (C × Call)

module _ {ℓ} {C : Type ℓ} where
  unfoldable pub console_register : Consoles C → C → Bool × Consoles C
  console_register s con =
      if length s.cons == 4 then (false, s) else (true, record s { cons = s.cons ++ con ∷ [] })

  -- The loop over the consoles that are left.
  unfoldable pub tell : List C → Call → List (C × Call)
  tell [] call = []
  tell (c ∷ cons) call = (c, call) ∷ tell cons call

  unfoldable pub console_writestring : Consoles C → List ℕ → Consoles C
  console_writestring s str = record s { calls = s.calls ++ tell s.cons (writestring str) }

  unfoldable pub console_setcolor : Consoles C → ℕ → Consoles C
  console_setcolor s color = record s { calls = s.calls ++ tell s.cons (setcolor color) }

  -- getcolor() of the first console, or 0.
  unfoldable pub console_getcolor : (C → ℕ) → Consoles C → ℕ
  console_getcolor getcolor s = elim s.cons [ [] ↦ 0 | c ∷ rest ↦ getcolor c ]

  tell-append :
      (cons : List C) (c : C) (call : Call)
      → tell (cons ++ c ∷ []) call ≡ tell cons call ++ (c, call) ∷ []
  unfolding tell
  tell-append [] c call = refl
  tell-append (d ∷ cons) c call = ap (λ r. (d, call) ∷ r) (tell-append cons c call)

  length-append_one : (cons : List C) (c : C) → length (cons ++ c ∷ []) ≡ length cons + 1
  length-append_one [] c = refl
  length-append_one (d ∷ cons) c = omega (arith, length-append_one cons c)

  -- With at most four consoles registered: console_register() refuses a console exactly when there
  -- are four, and changes nothing then; else there are still at most four, and what is written goes
  -- to the new console too, after the others.
  console_register_lem :
      (s : Consoles C) (c : C) (str : List ℕ)
      → length s.cons ≤ 4
      → (length s.cons ≡ 4 → console_register s c ≡ (false, s))
        × (length s.cons ≢ 4
            → (s' : Consoles C) × (console_register s c ≡ (true, s'))
              × (length s'.cons ≤ 4)
              × ((console_writestring s' str).calls
                  ≡ (console_writestring s str).calls ++ (c, writestring str) ∷ []))
  unfolding console_register console_writestring
  console_register_lem s c str le = (
    λ full. (let e : length s.cons == 4 ≡ true = ground arith in rw e refl),
    λ more. (
      record s { cons = s.cons ++ c ∷ [] },
      (let e : length s.cons == 4 ≡ false = ground (arith, more) in rw e refl),
      omega (arith, length-append_one s.cons c, le, more),
      rw (tell-append s.cons c (writestring str), append_assoc) refl,
    ),
  )
