-- ===== src/Tests/Processors.antt =====
-- Two processors, of which the first takes interrupts.
use mink.Prelude.{ℕ, zero, suc, ◌≡◌, refl, arith, Bool, true, false}
use mink.Locking.Processors.{idle, inside, System, Steps, here, start}
use mink.Locking.Processors.Exclusion.{Excludes, Steps-Excludes}
use mink.Locking.Processors.Race.{entered, entered-Steps, restores_other}

abbrev first_enabled : ℕ → Bool
first_enabled zero = true
first_enabled (suc i) = false

-- Processor 0 inside.
abbrev one_inside : System
one_inside = entered (start first_enabled) 0

one_inside_reached : Steps (start first_enabled) one_inside
one_inside_reached = entered-Steps (start first_enabled) 0 refl refl (start first_enabled) here

Steps-Excludes_example : Excludes one_inside
Steps-Excludes_example = Steps-Excludes first_enabled one_inside one_inside_reached

restores_other_example :
    (s : System) × (t : System) × Steps (start first_enabled) s
    × (s.pc 1 ≡ inside (first_enabled 1))
    × Steps s t
    × (t.pc 1 ≡ idle)
    × (t.enabled 1 ≡ first_enabled 0)
restores_other_example = restores_other first_enabled 1 0 (λ e. omega (arith, e))
