-- ===== src/Locking/Processors/Race.antt =====
-- spinlock_release() with and without another processor between its two accesses to the lock.
use mink.Prelude.{ℕ, ◌≡◌, ◌≢◌, refl, arith, Bool, true, false, ◌∙◌, ap, ◌==◌, if◌then◌else◌}
use mink.Locking.{Spinlock}
use mink.Locking.Processors.{
  Pc, idle, asked, spin, won, inside, freed, ask, disable, cas_win, keep, free_win, restore, System,
  moved, Step, pick, Steps, here, next, start,
}
use mink.Locking.Processors.Exclusion.{holds, is_off, Steps-Excludes}

-- After a move of processor `i`, it stands where that left it.
at_moved : (s : System) (i : ℕ) (l : Spinlock) (p : Pc) (e : Bool) → (moved s i l p e).pc i ≡ p
at_moved s i l p e = (let self : i == i ≡ true = ground arith in rw self refl)

flag_moved :
    (s : System) (i : ℕ) (l : Spinlock) (p : Pc) (e : Bool) → (moved s i l p e).enabled i ≡ e
flag_moved s i l p e = (let self : i == i ≡ true = ground arith in rw self refl)

-- The accesses one after the other that bring processor `i` into the critical section.
module _ (s : System) (i : ℕ) where
  abbrev pub state : Bool
  state = s.enabled i

  abbrev was_asked : System
  was_asked = moved s i s.lock (asked state) state

  abbrev spins : System
  spins = moved was_asked i s.lock (spin state) false

  abbrev has_won : System
  has_won = moved spins i (record s.lock { val = 1 }) (won state) false

  abbrev pub entered : System
  entered = moved has_won i (record { val = 1; interrupts = state }) (inside state) false

  pub entered-Steps : s.pc i ≡ idle → s.lock.val ≡ 0 → (r : System) → Steps r s → Steps r entered
  entered-Steps at_idle free r steps =
      next
        (next
          (next (next steps (pick i {p = idle} {e = state} at_idle refl ask)) (
            pick i {p = asked state} {e = state} (at_moved s i s.lock (asked state) state)
              (flag_moved s i s.lock (asked state) state) disable))
          (pick i {p = spin state} {e = false} (at_moved was_asked i s.lock (spin state) false)
            (flag_moved was_asked i s.lock (spin state) false) (cas_win free)))
        (pick i {p = won state} {e = false}
          (at_moved spins i (record s.lock { val = 1 }) (won state) false)
          (flag_moved spins i (record s.lock { val = 1 }) (won state) false) keep)

-- The two accesses of spinlock_release() by processor `i`.
abbrev pub has_freed : System → ℕ → Bool → System
has_freed s i f = moved s i (record s.lock { val = 0 }) (freed f) false

abbrev pub has_left : System → ℕ → System
has_left s i = moved s i s.lock idle (if s.lock.interrupts then true else false)

if_same : (b : Bool) → (if b then true else false) ≡ b
if_same true = refl
if_same false = refl

-- In a state that is reached from spinlock_init(), a processor inside that makes the two accesses of
-- spinlock_release() one right after the other has its interrupts then as before its
-- spinlock_acquire(), and the lock is free.
release_restores :
    (enabled : ℕ → Bool) (s : System) (i : ℕ) (f : Bool)
    → Steps (start enabled) s
    → s.pc i ≡ inside f
    → Step s (has_freed s i f)
      × Step (has_freed s i f) (has_left (has_freed s i f) i)
      × ((has_left (has_freed s i f) i).enabled i ≡ f)
      × ((has_left (has_freed s i f) i).lock.val ≡ 0)
release_restores enabled s i f steps at_inside =
    let inv = Steps-Excludes enabled s steps in
    let off : s.enabled i ≡ false = inv.off i (ap is_off at_inside) in
    let taken : s.lock.val ≡ 1 = inv.held i (ap holds at_inside) in
    let kept : s.lock.interrupts ≡ f = rw at_inside at (inv.kept i) in
    let own = if s.lock.interrupts then true else false in
    let b = has_freed s i f in
    (
      pick i {p = inside f} {e = false} at_inside off (free_win taken),
      pick i {p = freed f} {e = false} (at_moved s i b.lock (freed f) false)
          (flag_moved s i b.lock (freed f) false) restore,
      flag_moved b i b.lock idle own ∙ if_same s.lock.interrupts ∙ kept,
      refl,
    )

-- Another processor `j` that is before its spinlock_acquire() when `i` is between the two accesses of
-- spinlock_release() can set lock->interrupts before `i` reads it: `i` ends spinlock_release() with
-- the interrupt state of `j` in place of its own.
pub restores_other :
    (enabled : ℕ → Bool) (i j : ℕ)
    → i ≢ j
    → (s : System) × (t : System) × Steps (start enabled) s
      × (s.pc i ≡ inside (enabled i))
      × Steps s t
      × (t.pc i ≡ idle)
      × (t.enabled i ≡ enabled j)
restores_other enabled i j apart =
    let self : i == i ≡ true = ground arith in
    let differ : i == j ≡ false = ground (arith, apart) in
    let differ' : j == i ≡ false = ground (arith, apart) in
    let a = entered (start enabled) i in
    let b = has_freed a i (enabled i) in
    let c = entered b j in
    let state_j : b.enabled j ≡ enabled j = rw differ' refl in
    (
      a,
      has_left c i,
      entered-Steps (start enabled) i refl refl (start enabled) here,
      rw self refl,
      next
          (entered-Steps b j (rw differ' refl) refl a (
            next here (
              pick i {p = inside (enabled i)} {e = false} (rw self refl) (rw self refl)
                (free_win refl))))
          (pick i {p = freed (enabled i)} {e = false} (rw (differ, self) refl)
            (rw (differ, self) refl) restore),
      at_moved c i c.lock idle (if c.lock.interrupts then true else false),
      flag_moved c i c.lock idle (if c.lock.interrupts then true else false)
          ∙ if_same c.lock.interrupts
          ∙ state_j,
    )
