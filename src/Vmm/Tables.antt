-- ===== src/Vmm/Tables.antt =====
-- The words that the kernel reaches through the recursive page directory.
use mink.Prelude.{
  ℕ, ◌+◌, ◌*◌, ◌/◌, ◌%◌, ◌^◌, ◌<◌, ◌≡◌, ◌≢◌, ap, ◌∙◌, inl, inr, refl, arith, Bool, true, false,
  ◌&&◌, ◌==◌, if◌then◌else◌, ok, sym, ◌≤◌, Bool-cases, ==→eq,
}
use mink.Prelude.Bits.{bit_and_one_bit}
use mink.Vmm.{
  Vmm, x86_present, has, is_present, is_writable, walk, load, put, store, page_table_entry,
  page_dir_entry,
}

-- The directory's entry for an address, the frame of its page table, and the table's entry.
abbrev pub pde : Vmm → ℕ → ℕ
pde m v = m.word m.cr3 (v / 2 ^ 22)

abbrev pub table : Vmm → ℕ → ℕ
table m v = pde m v / 2 ^ 12

abbrev pub pte : Vmm → ℕ → ℕ
pte m v = m.word (table m v) (v / 2 ^ 12 % 1024)

-- The last entry of the directory leads to the directory.
pub record IsRecursive (m : Vmm) : Type 0 where
  pub frame : m.word m.cr3 1023 / 2 ^ 12 ≡ m.cr3
  pub present : is_present (m.word m.cr3 1023) ≡ true

-- Whether the entries of `u` and `v` in their page tables are one.
abbrev pub same_entry : Vmm → ℕ → ℕ → Bool
same_entry m u v = (table m u == table m v) && (u / 2 ^ 12 % 1024 == v / 2 ^ 12 % 1024)

abbrev pub shares : Vmm → ℕ → ℕ → Bool
shares m u v = is_present (pde m u) && same_entry m u v

-- The directory leads to itself, its tables are writable, and no two entries from 4 MB on share a
-- table. The entry of the first 4 MB may share one, as in the directory of loader.s, where it has the
-- table of the 4 MB from 3 GB, but not be the directory.
pub record IsTree (m : Vmm) : Type 0 where
  pub recursive : IsRecursive m
  pub writable :
      (i : ℕ) → i < 1024 → is_present (m.word m.cr3 i) ≡ true → is_writable (m.word m.cr3 i) ≡ true
  pub low : is_present (m.word m.cr3 0) ≡ true → m.word m.cr3 0 / 2 ^ 12 ≢ m.cr3
  pub apart :
      (i j : ℕ)
      → 1 ≤ i
      → 1 ≤ j
      → i < 1024
      → j < 1024
      → is_present (m.word m.cr3 i) ≡ true
      → is_present (m.word m.cr3 j) ≡ true
      → m.word m.cr3 i / 2 ^ 12 ≡ m.word m.cr3 j / 2 ^ 12
      → i ≡ j

pub has_present : (entry : ℕ) → has entry x86_present ≡ is_present entry
has_present entry = ground (arith, bit_and_one_bit entry 0)

module _ (m : Vmm) (self : IsRecursive m) (v : ℕ) (word : v < 2 ^ 32) where
  walk_dir :
      (writes : Bool)
      → (writes ≡ true → is_writable (m.word m.cr3 1023) ≡ true)
      → walk m (page_dir_entry v) writes ≡ ok m.cr3
  unfolding walk page_dir_entry
  walk_dir writes allowed =
      let d : (1023 * 0x40_0000 + 1023 * 0x1000 + v / 2 ^ 22 * 4) / 2 ^ 22 ≡ 1023 = omega arith in
      let t : (1023 * 0x40_0000 + 1023 * 0x1000 + v / 2 ^ 22 * 4) / 2 ^ 12 % 1024 ≡ 1023 =
        omega arith in
      elim (Bool-cases writes) [
        | inl set ↦ rw (d, t, self.frame, self.present, allowed set, set, self.frame) refl
        | inr unset ↦ rw (d, t, self.frame, self.present, unset, self.frame) refl
      ]

  walk_entry :
      (writes : Bool)
      → (writes ≡ true → is_writable (m.word m.cr3 1023) ≡ true)
      → (writes ≡ true → is_writable (pde m v) ≡ true)
      → is_present (pde m v) ≡ true
      → walk m (page_table_entry v) writes ≡ ok (table m v)
  unfolding walk page_table_entry
  walk_entry writes allowed allowed' there =
      let d : (1023 * 0x40_0000 + v / 2 ^ 12 * 4) / 2 ^ 22 ≡ 1023 = omega arith in
      let t : (1023 * 0x40_0000 + v / 2 ^ 12 * 4) / 2 ^ 12 % 1024 ≡ v / 2 ^ 22 = omega arith in
      elim (Bool-cases writes) [
        | inl set ↦ rw (d, t, self.frame, self.present, allowed set, set, there, allowed' set) refl
        | inr unset ↦ rw (d, t, self.frame, self.present, unset, there) refl
      ]

  dir_index : page_dir_entry v % 2 ^ 12 / 4 ≡ v / 2 ^ 22
  unfolding page_dir_entry
  dir_index = omega arith

  table_index : page_table_entry v % 2 ^ 12 / 4 ≡ v / 2 ^ 12 % 1024
  unfolding page_table_entry
  table_index = omega arith

  -- The recursive page directory: PAGE_DIR_ENTRY is where the directory's entry is.
  pub load_dir : load m (page_dir_entry v) ≡ ok (pde m v)
  unfolding load
  load_dir = rw (walk_dir false (λ e. cc), dir_index) refl

  pub load-table : is_present (pde m v) ≡ true → load m (page_table_entry v) ≡ ok (pte m v)
  unfolding load
  load-table there = rw (walk_entry false (λ e. cc) (λ e. cc) there, table_index) refl

module _ (m : Vmm) (tree : IsTree m) (v : ℕ) (word : v < 2 ^ 32) where
  self_writable : is_writable (m.word m.cr3 1023) ≡ true
  self_writable = tree.writable 1023 (omega arith) tree.recursive.present

  pub walk-table :
      (writes : Bool)
      → is_present (pde m v) ≡ true
      → walk m (page_table_entry v) writes ≡ ok (table m v)
  walk-table writes there =
      walk_entry m tree.recursive v word writes (λ e. self_writable)
        (λ e. tree.writable (v / 2 ^ 22) (omega arith) there) there

  pub store_dir : (w : ℕ) → store m (page_dir_entry v) w ≡ ok (put m m.cr3 (v / 2 ^ 22) w)
  unfolding store
  store_dir w =
      rw
        (
          walk_dir m tree.recursive v word true (λ e. self_writable),
          dir_index m tree.recursive v word,
        )
        refl

  pub store-table :
      (w : ℕ)
      → is_present (pde m v) ≡ true
      → store m (page_table_entry v) w ≡ ok (put m (table m v) (v / 2 ^ 12 % 1024) w)
  unfolding store
  store-table w there = rw (walk-table true there, table_index m tree.recursive v word) refl

pub IsTree-same :
    (m m' : Vmm)
    → m'.cr3 ≡ m.cr3
    → ((i : ℕ) → i < 1024 → m'.word m'.cr3 i ≡ m.word m.cr3 i)
    → IsTree m
    → IsTree m'
IsTree-same m m' root same tree = record {
  recursive = record {
    frame = rw (same 1023 (omega arith), root) tree.recursive.frame;
    present = rw (same 1023 (omega arith)) tree.recursive.present;
  };
  writable = λ i lt p. rw (same i lt) (tree.writable i lt (rw (same i lt) at p));
  low = λ p e. tree.low (rw (same 0 (omega arith)) at p) (rw (same 0 (omega arith), root) at e);
  apart = λ i j from from' lt lt' p q e.
      tree.apart i j from from' lt lt' (rw (same i lt) at p) (rw (same j lt') at q)
        (rw (same i lt, same j lt') at e);
}

-- The page table's entry for `v` overwritten.
abbrev pub changed : Vmm → ℕ → ℕ → Vmm
changed m v w = put m (table m v) (v / 2 ^ 12 % 1024) w

-- No table below the directory's own entry is the directory.
pub not_directory :
    (m : Vmm) (tree : IsTree m) (v : ℕ)
    → v / 2 ^ 22 < 1023
    → is_present (pde m v) ≡ true
    → table m v ≢ m.cr3
not_directory m tree v below there e = elim (Bool-cases (v / 2 ^ 22 == 0)) [
  | inl first ↦
      let at_0 : v / 2 ^ 22 ≡ 0 = ==→eq _ _ first in
      tree.low (sym (ap (λ i. is_present (m.word m.cr3 i)) at_0) ∙ there)
        (sym (ap (λ i. m.word m.cr3 i / 2 ^ 12) at_0) ∙ e)
  | inr later ↦
      let from : 1 ≤ v / 2 ^ 22 = ground (arith, later) in
      let same =
        tree.apart (v / 2 ^ 22) 1023 from (omega arith) (omega arith) (omega arith) there
          tree.recursive.present (e ∙ sym tree.recursive.frame) in
      omega arith
]

-- From 4 MB on an entry is shared by the addresses of one page alone.
pub shares-page :
    (m : Vmm) (tree : IsTree m) (u v : ℕ)
    → u < 2 ^ 32
    → v < 2 ^ 32
    → 2 ^ 22 ≤ u
    → 2 ^ 22 ≤ v
    → is_present (pde m v) ≡ true
    → shares m u v ≡ (u / 2 ^ 12 == v / 2 ^ 12)
shares-page m tree u v word word' from from' there = elim (Bool-cases (u / 2 ^ 12 == v / 2 ^ 12)) [
  | inl page ↦
      let dir : u / 2 ^ 22 ≡ v / 2 ^ 22 = omega (arith, ==→eq _ _ page) in
      let p : is_present (pde m u) ≡ true = ap (λ i. is_present (m.word m.cr3 i)) dir ∙ there in
      let frame : table m u ≡ table m v = ap (λ i. m.word m.cr3 i / 2 ^ 12) dir in
      ground (arith, p, frame, page)
  | inr other ↦ elim (Bool-cases (is_present (pde m u))) [
    | inr absent ↦ rw (absent, other) refl
    | inl p ↦ elim (Bool-cases (table m u == table m v)) [
      | inr differ ↦ rw (differ, other) (ground (arith, p))
      | inl same ↦
          let dir =
            tree.apart (u / 2 ^ 22) (v / 2 ^ 22) (omega arith) (omega arith) (omega arith)
              (omega arith) p there (==→eq (table m u) (table m v) same) in
          let index : u / 2 ^ 12 % 1024 == v / 2 ^ 12 % 1024 ≡ false = ground (arith, dir, other) in
          rw (p, same, index, other) refl
    ]
  ]
]

-- A write into a page table changes one entry of it and nothing of the directory.
module _ (m : Vmm) (tree : IsTree m) (v : ℕ) (below : v / 2 ^ 22 < 1023)
    (there : is_present (pde m v) ≡ true) (w : ℕ) where
  pub changed-directory : (i : ℕ) → (changed m v w).word m.cr3 i ≡ m.word m.cr3 i
  changed-directory i = ground (arith, not_directory m tree v below there)

  pub changed-IsTree : IsTree (changed m v w)
  changed-IsTree = IsTree-same m (changed m v w) refl (λ i lt. changed-directory i) tree

  pub changed-pte :
      (u : ℕ)
      → (changed m v w).word (table m u) (u / 2 ^ 12 % 1024)
        ≡ (if same_entry m u v then w else pte m u)
  changed-pte u = refl

  pub changed-shares : (u : ℕ) → shares (changed m v w) u v ≡ shares m u v
  changed-shares u = rw (changed-directory (u / 2 ^ 22), changed-directory (v / 2 ^ 22)) refl
