-- ===== src/Vmm/NewTable.antt =====
-- map_one_page() where the directory has no table yet: ensure_page_table_mapped() allocates one.
pub mod Map
use mink.Prelude.{
  ℕ, ◌+◌, ◌-◌, ◌*◌, ◌/◌, ◌%◌, ◌^◌, ◌≤◌, ◌<◌, ◌≡◌, ◌≢◌, ◌⊎◌, ◌∙◌, inl, inr, refl, sym, ap, arith,
  Bool, true, false, ◌&&◌, not, ◌==◌, if◌then◌else◌, Option, none, some, Outcome, ok, panicked,
  ◌>>=◌, Bool-cases, ==→eq, bit_or,
}
use mink.Prelude.Digits.{bit_or-digit}
use mink.Prelude.Bits.{bit_or-one}
use mink.Pmm
use mink.Pmm.{Pmm, under_4gb}
use mink.Buddy.{u32, no_memory}
use mink.Vmm.{
  Vmm, is_present, is_writable, put, zero_frame, x86_present, x86_write, x86_user, store,
  clear_page, page_table_entry, page_dir_entry, new_page_table, ensure_page_table_mapped, load, has,
  write_entry, map_one_page, mapped_flags, new_entry,
}
use mink.Vmm.Tables.{
  pde, table, pte, IsTree, IsTree-same, has_present, not_directory, load_dir, store_dir, walk-table,
}
use mink.Vmm.Boot.{put_table-IsTree}
use mink.Vmm.Mappings.{entry_mapping, mapping}

-- A page for a table that is in no use as one.
pub record IsFresh (m : Vmm) (page : ℕ) : Type 0 where
  pub aligned : page % 2 ^ 12 ≡ 0
  pub narrow : page < 2 ^ 32
  pub unused :
      (i : ℕ)
      → i < 1024
      → is_present (m.word m.cr3 i) ≡ true
      → m.word m.cr3 i / 2 ^ 12 ≢ page / 2 ^ 12

table_flags : (page : ℕ) → page % 2 ^ 12 ≡ 0 → bit_or (bit_or (bit_or page 1) 2) 4 ≡ page + 7
table_flags page aligned =
    let one : bit_or page 1 ≡ page + 1 = omega (arith, bit_or-one page, aligned) in
    let two : bit_or (page + 1) 2 ≡ page + 3 =
      omega (arith, bit_or-digit (page + 1) 2, bit_or-one ((page + 1) / 2), aligned) in
    let four : bit_or (page + 3) 4 ≡ page + 7 = omega (
      arith,
      bit_or-digit (page + 3) 4,
      bit_or-digit ((page + 3) / 2) 2,
      bit_or-one ((page + 3) / 2 / 2),
      aligned,
    ) in
    rw (one, two, four) refl

-- The directory with an entry for a table, and that with the table cleared.
abbrev with_entry : Vmm → ℕ → ℕ → Vmm
with_entry m v page = put m m.cr3 (v / 2 ^ 22) (page + 7)

abbrev pub with_table : Vmm → ℕ → ℕ → Vmm
with_table m v page = zero_frame (with_entry m v page) (page / 2 ^ 12)

module _ (m : Vmm) (tree : IsTree m) (v : ℕ) (below : v / 2 ^ 22 < 1023)
    (missing : is_present (pde m v) ≡ false) (page : ℕ) (fresh : IsFresh m page) where
  own : m.word m.cr3 1023 / 2 ^ 12 ≡ m.cr3
  own = tree.recursive.frame

  elsewhere : m.cr3 ≢ page / 2 ^ 12
  elsewhere e = fresh.unused 1023 (omega arith) tree.recursive.present (own ∙ e)

  new_present : is_present (page + 7) ≡ true
  new_present = ground (arith, fresh.aligned)

  new_frame : (page + 7) / 2 ^ 12 ≡ page / 2 ^ 12
  new_frame = omega (arith, fresh.aligned)

  entry-IsTree : IsTree (with_entry m v page)
  entry-IsTree =
      put_table-IsTree m tree (v / 2 ^ 22) (page + 7) below new_present
        (ground (arith, fresh.aligned)) (λ i lt p e. fresh.unused i lt p (e ∙ new_frame))

  dir_kept : (i : ℕ) → (with_table m v page).word m.cr3 i ≡ (with_entry m v page).word m.cr3 i
  dir_kept i = ground (arith, elsewhere)

  pub table-IsTree : IsTree (with_table m v page)
  table-IsTree =
      IsTree-same (with_entry m v page) (with_table m v page) refl (λ i lt. dir_kept i) entry-IsTree

  pub new_pde : pde (with_table m v page) v ≡ page + 7
  new_pde = ground (arith, elsewhere)

  pub table_there : is_present (pde (with_table m v page) v) ≡ true
  table_there = rw new_pde new_present

  pub table_empty : is_present (pte (with_table m v page) v) ≡ false
  table_empty =
      let e : table (with_table m v page) v ≡ page / 2 ^ 12 =
        ap (λ w. w / 2 ^ 12) new_pde ∙ new_frame in
      rw e (ground arith)

  new_zero : (i : ℕ) → (with_table m v page).word (page / 2 ^ 12) i ≡ 0
  new_zero i = ground arith

  other_dir : (u : ℕ) → (u / 2 ^ 22 == v / 2 ^ 22) ≡ false → pde (with_table m v page) u ≡ pde m u
  other_dir u other = ground (arith, elsewhere)

  pub tables_kept :
      (u : ℕ) → is_present (pde m u) ≡ true → is_present (pde (with_table m v page) u) ≡ true
  tables_kept u p = elim (Bool-cases (u / 2 ^ 22 == v / 2 ^ 22)) [
    | inl here ↦
        let dir : pde (with_table m v page) u ≡ pde (with_table m v page) v =
          ap (λ i. (with_table m v page).word m.cr3 i) (==→eq _ _ here) in
        rw dir table_there
    | inr other ↦ rw (other_dir u other) p
  ]

  other_table :
      (u : ℕ)
      → u / 2 ^ 22 < 1023
      → is_present (pde m u) ≡ true
      → (with_table m v page).word (table m u) (u / 2 ^ 12 % 1024) ≡ pte m u
  other_table u low p =
      let not_new = fresh.unused (u / 2 ^ 22) (omega arith) p in
      let not_dir = not_directory m tree u low p in ground (arith, not_new, not_dir)

  -- A new table maps nothing.
  pub mapping-with_table :
      (u : ℕ) → u / 2 ^ 22 < 1023 → mapping (with_table m v page) u ≡ mapping m u
  mapping-with_table u low = elim (Bool-cases (u / 2 ^ 22 == v / 2 ^ 22)) [
    | inl here ↦
        let dir : u / 2 ^ 22 ≡ v / 2 ^ 22 = ==→eq _ _ here in
        let new : pde (with_table m v page) u ≡ page + 7 =
          ap (λ i. (with_table m v page).word m.cr3 i) dir ∙ new_pde in
        let old : is_present (pde m u) ≡ false =
          ap (λ i. is_present (m.word m.cr3 i)) dir ∙ missing in
        nothing (pde (with_table m v page) u) (ap (λ w. w / 2 ^ 12) new ∙ new_frame) old
    | inr other ↦ elim (Bool-cases (is_present (pde m u))) [
      | inr absent ↦ rw (other_dir u other, absent) refl
      | inl p ↦ rw (other_dir u other, p, other_table u low p) refl
    ]
  ]
    where
      nothing :
          (w : ℕ)
          → w / 2 ^ 12 ≡ page / 2 ^ 12
          → is_present (pde m u) ≡ false
          → (if is_present w
              then entry_mapping ((with_table m v page).word (w / 2 ^ 12) (u / 2 ^ 12 % 1024))
              else none)
            ≡ mapping m u
      nothing w is old = elim (Bool-cases (is_present w)) [
        | inl p ↦ rw (p, old, is, new_zero (u / 2 ^ 12 % 1024)) refl
        | inr n ↦ rw (n, old) refl
      ]

  index_kept : v / 2 ^ 22 * 2 ^ 22 / 2 ^ 22 ≡ v / 2 ^ 22
  index_kept = omega arith

  clears :
      clear_page (with_entry m v page) (page_table_entry (v / 2 ^ 22 * 2 ^ 22))
      ≡ ok (with_table m v page)
  unfolding clear_page
  clears =
      let e : pde (with_entry m v page) (v / 2 ^ 22 * 2 ^ 22) ≡ page + 7 =
        ap (λ i. (with_entry m v page).word m.cr3 i) index_kept ∙ ground arith in
      let there : is_present (pde (with_entry m v page) (v / 2 ^ 22 * 2 ^ 22)) ≡ true =
        rw e new_present in
      let frame : table (with_entry m v page) (v / 2 ^ 22 * 2 ^ 22) ≡ page / 2 ^ 12 =
        ap (λ w. w / 2 ^ 12) e ∙ new_frame in
      rw
        (
          walk-table (with_entry m v page) entry-IsTree (v / 2 ^ 22 * 2 ^ 22) (omega arith) true
              there,
          frame,
        )
        refl

  -- The part of new_page_table() after the allocation.
  pub stores_table :
      (do
        m ←
            store m
              (page_dir_entry v)
              (u32 (bit_or (bit_or (bit_or page x86_present) x86_write) x86_user))
        clear_page m (page_table_entry (v / 2 ^ 22 * 2 ^ 22)))
      ≡ ok (with_table m v page)
  stores_table =
      let w : u32 (bit_or (bit_or (bit_or page 1) 2) 4) ≡ page + 7 =
        rw (table_flags page fresh.aligned) (omega (arith, fresh.narrow, fresh.aligned)) in
      rw (w, store_dir m tree v (omega arith) (page + 7)) clears
