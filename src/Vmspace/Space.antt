-- ===== src/Vmspace/Space.antt =====
-- The invariant of a vmspace over the page tables and the physical memory, and its lock.
use mink.Prelude.{
  ℕ, ◌+◌, ◌*◌, ◌/◌, ◌^◌, ◌<◌, ◌≤◌, ◌≡◌, ◌∙◌, refl, arith, Bool, true, false, if◌then◌else◌, none,
  ok,
}
use mink.Locking
use mink.Buddy.{Buddy}
use mink.Buddy.Valid.{IsValid, page_count}
use mink.Pmm.{Pmm, PageReq, anywhere, under_1mb, under_4gb, allocator}
use mink.Pmm.Zones.{IsReady, after}
use mink.Vmm.{Vmm, is_present}
use mink.Vmm.Tables.{pde, IsTree}
use mink.Vmm.Mappings.{mapping}
use mink.Vmspace.{Vmspace, take_lock, drop_lock}

-- The locks are free, the page tables are as IsTree has them, the vmspace's allocator is valid, lies
-- between 4 MB and the window of the directory, and has page tables for all of its addresses; its free pages are not mapped; the allocators of physical
-- memory are up.
pub record IsSpace (vms : Vmspace) (m : Vmm) : Type 0 where
  pub unlocked : vms.lock.val ≡ 0
  pub valid : IsValid vms.allocator
  pub from_4mb : 2 ^ 22 ≤ vms.allocator.start
  pub in_range : vms.allocator.start + vms.allocator.size ≤ 1023 * 2 ^ 22
  pub tree : IsTree m
  pub vmm_unlocked : m.lock.val ≡ 0
  pub ready : IsReady m.pmm
  pub tables :
      (u : ℕ)
      → vms.allocator.start ≤ u
      → u < vms.allocator.start + vms.allocator.size
      → is_present (pde m u) ≡ true
  pub unmapped :
      (q : ℕ)
      → q < vms.allocator.size / 2 ^ 12
      → page_count vms.allocator q ≡ 1
      → mapping m (vms.allocator.start + q * 0x1000) ≡ none

abbrev pub with_enabled : Vmm → Bool → Vmm
with_enabled m b = record m { pmm = record m.pmm { enabled = b } }

abbrev pub held : Vmspace → Vmm → Vmspace
held vms m = record vms { lock = record { val = 1; interrupts = m.pmm.enabled } }

abbrev pub freed : Vmspace → Vmm → Vmspace
freed vms m = record vms { lock = record { val = 0; interrupts = m.pmm.enabled } }

pub take_lock_lem :
    (vms : Vmspace) (m : Vmm)
    → vms.lock.val ≡ 0
    → take_lock (vms, m) ≡ ok (held vms m, with_enabled m false)
unfolding take_lock Locking.acquire
take_lock_lem vms m free = rw free refl

pub drop_lock_lem :
    (vms : Vmspace) (m m' : Vmm)
    → m'.pmm.enabled ≡ false
    → drop_lock (held vms m, m') ≡ ok (freed vms m, with_enabled m' m.pmm.enabled)
unfolding drop_lock Locking.release
drop_lock_lem vms m m' off = rw (off, if_same m.pmm.enabled) refl
  where
    if_same : (b : Bool) → (if b then true else false) ≡ b
    if_same true = refl
    if_same false = refl

-- The interrupt flag is not part of what IsReady() says.
pub enabled-IsReady : (pmm : Pmm) (b : Bool) → IsReady pmm → IsReady (record pmm { enabled = b })
enabled-IsReady pmm b ready = record {
  unlocked = ready.unlocked;
  valid = valid;
  low_start = ready.low_start;
  low_end = ready.low_end;
  middle_start = ready.middle_start;
  middle_end = ready.middle_end;
  high_start = ready.high_start;
  high_end = ready.high_end;
}
  where
    valid : (z : PageReq) → IsValid (allocator (record pmm { enabled = b }) z)
    valid anywhere = ready.valid anywhere
    valid under_1mb = ready.valid under_1mb
    valid under_4gb = ready.valid under_4gb

-- One allocator replaced by a valid one of the same region.
pub after-IsReady :
    (pmm : Pmm) (z : PageReq) (bd : Buddy)
    → IsReady pmm
    → IsValid bd
    → bd.start ≡ (allocator pmm z).start
    → bd.size ≡ (allocator pmm z).size
    → IsReady (after pmm z bd)
after-IsReady pmm anywhere bd ready valid start size = record {
  unlocked = refl;
  valid = all;
  low_start = ready.low_start;
  low_end = ready.low_end;
  middle_start = ready.middle_start;
  middle_end = ready.middle_end;
  high_start = start ∙ ready.high_start;
  high_end = omega (arith, size, ready.high_end);
}
  where
    all : (z : PageReq) → IsValid (allocator (after pmm anywhere bd) z)
    all anywhere = valid
    all under_1mb = ready.valid under_1mb
    all under_4gb = ready.valid under_4gb
after-IsReady pmm under_1mb bd ready valid start size = record {
  unlocked = refl;
  valid = all;
  low_start = start ∙ ready.low_start;
  low_end = omega (arith, size, ready.low_end);
  middle_start = ready.middle_start;
  middle_end = ready.middle_end;
  high_start = ready.high_start;
  high_end = ready.high_end;
}
  where
    all : (z : PageReq) → IsValid (allocator (after pmm under_1mb bd) z)
    all anywhere = ready.valid anywhere
    all under_1mb = valid
    all under_4gb = ready.valid under_4gb
after-IsReady pmm under_4gb bd ready valid start size = record {
  unlocked = refl;
  valid = all;
  low_start = ready.low_start;
  low_end = ready.low_end;
  middle_start = start ∙ ready.middle_start;
  middle_end = omega (arith, start, size, ready.middle_end);
  high_start = ready.high_start;
  high_end = ready.high_end;
}
  where
    all : (z : PageReq) → IsValid (allocator (after pmm under_4gb bd) z)
    all anywhere = ready.valid anywhere
    all under_1mb = ready.valid under_1mb
    all under_4gb = valid

pub allocator-enabled :
    (pmm : Pmm) (b : Bool) (z : PageReq)
    → allocator (record pmm { enabled = b }) z ≡ allocator pmm z
allocator-enabled pmm b anywhere = refl
allocator-enabled pmm b under_1mb = refl
allocator-enabled pmm b under_4gb = refl
