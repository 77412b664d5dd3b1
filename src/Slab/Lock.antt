-- ===== src/Slab/Lock.antt =====
-- The lock of a cache, and the interrupt flag, which is that of the world.
use mink.Prelude.{◌≡◌, refl, Bool, true, false, if◌then◌else◌, ok}
use mink.Locking
use mink.Slab.{SlabCache, World, take_lock, drop_lock}

abbrev with_enabled : World → Bool → World
with_enabled w b = record w {
  space = (w.space.0, record w.space.1 { pmm = record w.space.1.pmm { enabled = b } });
}

abbrev pub locked_cache : SlabCache → World → SlabCache
locked_cache c w = record c { lock = record { val = 1; interrupts = w.space.1.pmm.enabled } }

abbrev pub locked_world : World → World
locked_world w = with_enabled w false

abbrev pub unlocked_cache : SlabCache → World → SlabCache
unlocked_cache c w = record c { lock = record { val = 0; interrupts = w.space.1.pmm.enabled } }

-- The world that a critical section left, with the interrupt flag that it had before.
abbrev pub unlocked_world : World → World → World
unlocked_world w' w = record w' { space = w.space }

pub take_lock_lem :
    (c : SlabCache) (w : World)
    → c.lock.val ≡ 0
    → take_lock c w ≡ ok (locked_cache c w, locked_world w)
unfolding Locking.acquire
take_lock_lem c w free = rw free refl

pub drop_lock_lem :
    (c c' : SlabCache) (w w' : World)
    → c'.lock ≡ (locked_cache c w).lock
    → w'.space ≡ (locked_world w).space
    → drop_lock c' w' ≡ ok (unlocked_cache c' w, unlocked_world w' w)
unfolding Locking.release
drop_lock_lem c c' w w' lock space = rw (lock, space, if_same w.space.1.pmm.enabled) refl
  where
    if_same : (b : Bool) → (if b then true else false) ≡ b
    if_same true = refl
    if_same false = refl
