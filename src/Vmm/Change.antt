-- ===== src/Vmm/Change.antt =====
-- map_one_page() and unmap_one_page(), as changes of the mappings.
use mink.Prelude.{
  ℕ, ◌*◌, ◌/◌, ◌^◌, ◌<◌, ◌≤◌, ◌≡◌, ◌≢◌, inl, inr, refl, ap, arith, ◌∙◌, Bool, true, false, ◌==◌,
  if◌then◌else◌, Option, none, some, Outcome, ok, panicked, Bool-cases,
}
use mink.Locking
use mink.Pmm.{Pmm}
use mink.Locking.{Spinlock}
use mink.Buddy.{u32}
use mink.Vmm.{
  Vmm, is_present, mapped_flags, new_entry, map_one_page, unmap_one_page, write_entry, clear_entry,
  ensure_page_table_mapped, take_lock, drop_lock,
}
use mink.Vmm.Tables.{
  pde, pte, shares, shares-page, changed-shares, IsTree, IsTree-same, has_present, load_dir,
  load-table, store-table, changed, changed-IsTree, changed-directory,
}
use mink.Vmm.Mappings.{entry_mapping, mapping, mapping-shared}
use mink.Vmm.Entries.{kept_flags, entry_mapping-new_entry}

-- `r` is a normal return with the addresses that share the page table's entry of `v` mapped as `what`,
-- and the others below the directory's own window as before; from 4 MB on these are the page of `v`.
-- No page table goes away, the lock is free and the interrupt flag as before.
pub record Maps (m : Vmm) (v : ℕ) (what : Option (ℕ × ℕ)) (r : Outcome Vmm) : Type 0 where
  pub out : Vmm
  pub returns : r ≡ ok out
  pub tree : IsTree out
  pub there : is_present (pde out v) ≡ true
  pub shared :
      (u : ℕ) → u / 2 ^ 22 < 1023 → mapping out u ≡ (if shares out u v then what else mapping m u)
  pub mappings :
      2 ^ 22 ≤ v
      → (u : ℕ) → u < 2 ^ 32
      → 2 ^ 22 ≤ u
      → u / 2 ^ 22 < 1023
      → mapping out u ≡ (if u / 2 ^ 12 == v / 2 ^ 12 then what else mapping m u)
  pub tables : (u : ℕ) → is_present (pde m u) ≡ true → is_present (pde out u) ≡ true
  pub unlocked : out.lock.val ≡ 0
  pub enabled : out.pmm.enabled ≡ m.pmm.enabled
  pub same_pmm : is_present (pde m v) ≡ true → out.pmm ≡ m.pmm

-- The state with the lock taken.
abbrev pub locked : Vmm → Vmm
locked m = record m {
  lock = record { val = 1; interrupts = m.pmm.enabled };
  pmm = record m.pmm { enabled = false };
}

pub take_lock-locked : (m : Vmm) → m.lock.val ≡ 0 → take_lock m ≡ ok (locked m)
unfolding take_lock Locking.acquire
take_lock-locked m free = rw free refl

pub locked-IsTree : (m : Vmm) → IsTree m → IsTree (locked m)
locked-IsTree m tree = IsTree-same m (locked m) refl (λ i lt. refl) tree

abbrev pub dropped : Vmm → Vmm
dropped m = record m {
  lock = record m.lock { val = 0 };
  pmm = record m.pmm { enabled = if m.lock.interrupts then true else m.pmm.enabled };
}

pub drop_lock-dropped : (m : Vmm) → m.lock.val ≡ 1 → drop_lock m ≡ ok (dropped m)
unfolding drop_lock Locking.release
drop_lock-dropped m held = rw held refl

something : {x : ℕ × ℕ} → some x ≡ none → ⊥
something e = cc

restored : (b : Bool) → (if b then true else false) ≡ b
restored true = refl
restored false = refl

-- The change is what happens to the table under the lock.
pub unlock-Maps :
    (m m2 : Vmm) (v : ℕ) (what : Option (ℕ × ℕ))
    → m2.lock ≡ record { val = 1; interrupts = m.pmm.enabled }
    → m2.pmm.enabled ≡ false
    → IsTree m2
    → v / 2 ^ 22 < 1023
    → is_present (pde m2 v) ≡ true
    → ((u : ℕ) → u / 2 ^ 22 < 1023 → mapping m2 u ≡ (if shares m2 u v then what else mapping m u))
    → ((u : ℕ) → is_present (pde m u) ≡ true → is_present (pde m2 u) ≡ true)
    → (is_present (pde m v) ≡ true → m2.pmm ≡ (locked m).pmm)
    → Maps m v what (drop_lock m2)
unlock-Maps m m2 v what held off tree below there maps tables same_pmm = record {
  out = dropped m2;
  returns = drop_lock-dropped m2 (ap (λ l. l.val) held);
  tree = IsTree-same m2 (dropped m2) refl (λ i lt. refl) tree;
  there = there;
  shared = maps;
  mappings = λ from u lt from' low.
      maps u low ∙ rw (shares-page m2 tree u v lt (omega (arith, below)) from' from there) refl;
  tables = tables;
  unlocked = refl;
  enabled = rw (ap (λ l. l.interrupts) held, off) (restored m.pmm.enabled);
  same_pmm = λ there.
      ap {B = Pmm}
        (λ pmm. record pmm { enabled = if m2.lock.interrupts then true else pmm.enabled })
        (same_pmm there)
      ∙ ap {B = Pmm} (λ b. record m.pmm { enabled = b })
          (ap (λ l. if l.interrupts then true else false) held ∙ restored m.pmm.enabled);
}

module _ (m : Vmm) (tree : IsTree m) (v : ℕ) (lt : v < 2 ^ 32)
    (there : is_present (pde m v) ≡ true) where
  pub write_entry-changed :
      (p flags : ℕ)
      → is_present (pte m v) ≡ false
      → write_entry m v p flags ≡ ok (changed m v (new_entry p (mapped_flags flags)))
  unfolding write_entry ensure_page_table_mapped
  write_entry-changed p flags missing =
      rw
        (
          load_dir m tree.recursive v lt,
          has_present (pde m v),
          there,
          load-table m tree.recursive v lt there,
          has_present (pte m v),
          missing,
        )
        (store-table m tree v lt (new_entry p (mapped_flags flags)) there)

  pub write_entry_refuses :
      (p flags : ℕ) → is_present (pte m v) ≡ true → write_entry m v p flags ≡ panicked
  unfolding write_entry ensure_page_table_mapped
  write_entry_refuses p flags found =
      rw
        (
          load_dir m tree.recursive v lt,
          has_present (pde m v),
          there,
          load-table m tree.recursive v lt there,
          has_present (pte m v),
          found,
        )
        refl

module _ (m : Vmm) (tree : IsTree m) (free : m.lock.val ≡ 0) (v : ℕ)
    (below : v / 2 ^ 22 < 1023) where
  lt : v < 2 ^ 32
  lt = omega arith

  now_shared :
      (w : ℕ) (there : is_present (pde m v) ≡ true) (u : ℕ)
      → mapping (changed (locked m) v w) u
        ≡ (if shares (changed (locked m) v w) u v then entry_mapping w else mapping m u)
  now_shared w there u =
      let tree' = locked-IsTree m tree in
      rw (changed-shares (locked m) tree' v below there w u)
        (mapping-shared (locked m) tree' v below there w u)

  changed-Maps :
      (w : ℕ) (there : is_present (pde m v) ≡ true)
      → Maps m v (entry_mapping w) (drop_lock (changed (locked m) v w))
  changed-Maps w there =
      unlock-Maps m (changed (locked m) v w) v (entry_mapping w) refl refl
        (changed-IsTree (locked m) (locked-IsTree m tree) v below there w) below
        (rw (changed-directory (locked m) (locked-IsTree m tree) v below there w (v / 2 ^ 22))
          there)
        (λ u low. now_shared w there u)
        (λ u p.
          rw (changed-directory (locked m) (locked-IsTree m tree) v below there w (u / 2 ^ 22)) p)
        (λ there'. refl)

  -- With the lock free, tables as IsTree has them (only the entry of the first 4 MB may share the
  -- table of another), and `v` below the window of the directory, where the directory has a table:
  -- map_one_page() of a page that is not mapped maps it to the physical page with the flags, without
  -- PAGE_WRITE if they have PAGE_COW, and changes the mappings of the addresses alone that share the
  -- entry of `v`, from 4 MB on those of its page; of a page that is mapped it panics.
  pub map_one_page-Maps :
      (p flags : ℕ)
      → flags < 16
      → is_present (pde m v) ≡ true
      → (mapping m v ≡ none
          → Maps m v (some (u32 p / 2 ^ 12 * 2 ^ 12, kept_flags flags)) (map_one_page m v p flags))
        × (mapping m v ≢ none → map_one_page m v p flags ≡ panicked)
  unfolding map_one_page
  map_one_page-Maps p flags known there = elim (Bool-cases (is_present (pte m v))) [
    | inr missing ↦ (
      λ _.
          rw
            (
              take_lock-locked m free,
              write_entry-changed (locked m) (locked-IsTree m tree) v lt there p flags missing,
              ← entry_mapping-new_entry p flags known,
            )
            (changed-Maps (new_entry p (mapped_flags flags)) there),
      λ some_page. absurd (some_page (rw (there, missing) refl)),
    )
    | inl found ↦ (
      λ nothing. absurd (something (rw (there, found) at nothing)),
      λ _.
          rw
            (
              take_lock-locked m free,
              write_entry_refuses (locked m) (locked-IsTree m tree) v lt there p flags found,
            )
            refl,
    )
  ]

  -- With the lock free, tables as IsTree has them, and `v` below the window of the directory:
  -- unmap_one_page() of a page that is mapped takes away the mappings of the addresses alone that
  -- share the entry of `v`, and of a page that is not mapped it panics.
  pub unmap_one_page-Maps :
      (mapping m v ≢ none → Maps m v none (unmap_one_page m v))
      × (mapping m v ≡ none → unmap_one_page m v ≡ panicked)
  unfolding unmap_one_page clear_entry
  unmap_one_page-Maps =
      let start = take_lock-locked m free in
      let tree' = locked-IsTree m tree in
      elim (Bool-cases (is_present (pde m v))) [
        | inr no_table ↦ (
          λ some_page. absurd (some_page (rw no_table refl)),
          λ _.
              rw (start, load_dir (locked m) tree'.recursive v lt, has_present (pde m v), no_table)
                refl,
        )
        | inl there ↦ elim (Bool-cases (is_present (pte m v))) [
          | inr missing ↦ (
            λ some_page. absurd (some_page (rw (there, missing) refl)),
            λ _.
                rw
                  (
                    start,
                    load_dir (locked m) tree'.recursive v lt,
                    has_present (pde m v),
                    there,
                    load-table (locked m) tree'.recursive v lt there,
                    has_present (pte m v),
                    missing,
                  )
                  refl,
          )
          | inl found ↦ (
            λ _.
                rw
                  (
                    start,
                    load_dir (locked m) tree'.recursive v lt,
                    has_present (pde m v),
                    there,
                    load-table (locked m) tree'.recursive v lt there,
                    has_present (pte m v),
                    found,
                    store-table (locked m) tree' v lt 0 there,
                  )
                  (changed-Maps 0 there),
            λ nothing. absurd (something (rw (there, found) at nothing)),
          )
        ]
      ]
