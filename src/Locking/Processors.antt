-- ===== src/Locking/Processors.antt =====
-- locking.c with several processors, which share the lock and each have an interrupt flag. A processor
-- makes one access to the lock or to its flag at a time, in any order with the others. A CAS is
-- __sync_bool_compare_and_swap.
pub mod Exclusion
pub mod Race
use mink.Prelude.{ℕ, ◌≡◌, ◌≢◌, Bool, true, false, ◌==◌, if◌then◌else◌}
use mink.Locking
use mink.Locking.{Spinlock}

-- Where a processor stands, with the interrupt state that it read first. From `inside` on that local
-- variable is not read again, and is kept to state what should be restored.
pub data Pc : Type 0 where
  idle : Pc
  asked : (interrupts : Bool) → Pc  -- before disable_interrupts()
  spin : (interrupts : Bool) → Pc  -- the `while` of spinlock_acquire()
  won : (interrupts : Bool) → Pc  -- before lock->interrupts is set
  inside : (interrupts : Bool) → Pc  -- between the calls, or in the `while` of spinlock_release()
  freed : (interrupts : Bool) → Pc  -- before lock->interrupts is read

-- One access of one processor: the lock, where it stands and its interrupt flag, before and after.
pub data Move (l : Spinlock) : Pc → Bool → Spinlock → Pc → Bool → Type 0 where
  ask : {e : Bool} → Move l idle e l (asked e) e
  disable : {f e : Bool} → Move l (asked f) e l (spin f) false
  cas_lose : {f e : Bool} → l.val ≢ 0 → Move l (spin f) e l (spin f) e
  cas_win : {f e : Bool} → l.val ≡ 0 → Move l (spin f) e (record l { val = 1 }) (won f) e
  keep : {f e : Bool} → Move l (won f) e (record l { interrupts = f }) (inside f) e
  free_lose : {f e : Bool} → l.val ≢ 1 → Move l (inside f) e l (inside f) e
  free_win : {f e : Bool} → l.val ≡ 1 → Move l (inside f) e (record l { val = 0 }) (freed f) e
  restore : {f e : Bool} → Move l (freed f) e l idle (if l.interrupts then true else e)

pub record System : Type 0 where
  pub lock : Spinlock
  pub pc : ℕ → Pc
  pub enabled : ℕ → Bool

abbrev pub update {ℓ} : {A : Type ℓ} → (ℕ → A) → ℕ → A → ℕ → A
update f i a j = if j == i then a else f j

abbrev pub moved : System → ℕ → Spinlock → Pc → Bool → System
moved s i l p e = record { lock = l; pc = update s.pc i p; enabled = update s.enabled i e }

pub data Step (s : System) : System → Type 0 where
  pick :
      (i : ℕ) {p p' : Pc} {e e' : Bool} {l : Spinlock}
      → s.pc i ≡ p
      → s.enabled i ≡ e
      → Move s.lock p e l p' e'
      → Step s (moved s i l p' e')

pub data Steps (s : System) : System → Type 0 where
  here : Steps s s
  next : {t u : System} → Steps s t → Step t u → Steps s u

-- After spinlock_init(), with any interrupt flags.
abbrev pub start : (ℕ → Bool) → System
start enabled = record { lock = Locking.released; pc = λ i. idle; enabled = enabled }
