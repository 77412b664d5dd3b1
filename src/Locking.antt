-- ===== src/Locking.antt =====
-- locking.c: spinlocks, as one processor sees them. An acquire of a taken lock and a release of a
-- free one spin for ever; with no other processor to end the wait that is `undefined`.
pub mod Processors
use mink.Prelude.{ℕ, Bool, true, false, ◌==◌, if◌then◌else◌, Outcome, ok, undefined}

pub record Spinlock : Type 0 where
  pub val : ℕ
  pub interrupts : Bool

-- spinlock_init()
abbrev pub released : Spinlock
released = record { val = 0; interrupts = false }

-- The lock, and whether the processor takes interrupts.
unfoldable pub acquire : Spinlock → Bool → Outcome (Spinlock × Bool)
acquire lock enabled =
    if lock.val == 0 then ok (record { val = 1; interrupts = enabled }, false) else undefined

unfoldable pub release : Spinlock → Bool → Outcome (Spinlock × Bool)
release lock enabled =
    if lock.val == 1
    then ok (record lock { val = 0 }, if lock.interrupts then true else enabled)
    else undefined
