-- ===== src/Vmm/Mappings.antt =====
-- What map_one_page(), unmap_one_page() and get_mapping() do to the mappings that the processor sees.
use mink.Prelude.{
  ℕ, ◌*◌, ◌/◌, ◌%◌, ◌^◌, ◌<◌, ◌≡◌, ◌⊎◌, inl, inr, refl, arith, ◌≤◌, true, false, ◌==◌,
  if◌then◌else◌, Option, none, some, ok, panicked, Bool-cases,
}
use mink.Buddy.{u32}
use mink.Vmm.{Vmm, is_present, walk, from_x86_flags, get_mapping}
use mink.Vmm.Tables.{
  pde, pte, same_entry, shares, shares-page, IsRecursive, IsTree, has_present, load_dir, load-table,
  changed, changed-directory, changed-pte,
}

-- What an entry of a page table says.
abbrev pub entry_mapping : ℕ → Option (ℕ × ℕ)
entry_mapping w =
    if is_present w then some (u32 w / 2 ^ 12 * 2 ^ 12, from_x86_flags (w % 2 ^ 12)) else none

-- The page and the flags of an address, as the two levels of tables have them.
abbrev pub mapping : Vmm → ℕ → Option (ℕ × ℕ)
mapping m v = if is_present (pde m v) then entry_mapping (pte m v) else none

-- get_mapping() never faults while the directory leads to itself.
pub get_mapping-mapping :
    (m : Vmm) (v : ℕ) → IsRecursive m → v < 2 ^ 32 → get_mapping m v ≡ ok (mapping m v)
unfolding get_mapping
get_mapping-mapping m v self lt = elim (Bool-cases (is_present (pde m v))) [
  | inr no_table ↦ rw (load_dir m self v lt, has_present (pde m v), no_table) refl
  | inl there ↦ elim (Bool-cases (is_present (pte m v))) [
    | inl found ↦
        rw
          (
            load_dir m self v lt,
            has_present (pde m v),
            there,
            load-table m self v lt there,
            has_present (pte m v),
            found,
          )
          refl
    | inr missing ↦
        rw
          (
            load_dir m self v lt,
            has_present (pde m v),
            there,
            load-table m self v lt there,
            has_present (pte m v),
            missing,
          )
          refl
  ]
]

-- While the last entry of the directory leads to the directory, get_mapping() of a 32-bit address says what the processor
-- does: none for an address that faults, else the page that a read goes to, in 32 bits.
pub get_mapping-walk :
    (m : Vmm) (v : ℕ)
    → IsRecursive m
    → v < 2 ^ 32
    → ((walk m v false ≡ panicked) × (get_mapping m v ≡ ok none))
      ⊎ ((frame : ℕ) × (walk m v false ≡ ok frame)
          × (get_mapping m v ≡ ok (some (u32 (frame * 2 ^ 12), from_x86_flags (pte m v % 2 ^ 12)))))
unfolding walk
get_mapping-walk m v self lt = elim (Bool-cases (is_present (pde m v))) [
  | inr no_table ↦ inl (rw no_table refl, rw (get_mapping-mapping m v self lt, no_table) refl)
  | inl there ↦ elim (Bool-cases (is_present (pte m v))) [
    | inr missing ↦
        inl (rw (there, missing) refl, rw (get_mapping-mapping m v self lt, there, missing) refl)
    | inl found ↦
        let page : u32 (pte m v) / 2 ^ 12 * 2 ^ 12 ≡ u32 (pte m v / 2 ^ 12 * 2 ^ 12) =
          omega arith in
        inr (
          pte m v / 2 ^ 12,
          rw (there, found) refl,
          rw (get_mapping-mapping m v self lt, there, found, page) refl,
        )
  ]
]

-- A write of a table's entry changes the mapping of the addresses that have that entry.
pub mapping-shared :
    (m : Vmm) (tree : IsTree m) (v : ℕ) (below : v / 2 ^ 22 < 1023)
    (there : is_present (pde m v) ≡ true) (w u : ℕ)
    → mapping (changed m v w) u ≡ (if shares m u v then entry_mapping w else mapping m u)
mapping-shared m tree v below there w u =
    let dir = changed-directory m tree v below there w (u / 2 ^ 22) in
    let entry = changed-pte m tree v below there w u in
    elim (Bool-cases (is_present (pde m u))) [
      | inr absent ↦ rw (dir, absent) refl
      | inl p ↦ elim (Bool-cases (same_entry m u v)) [
        | inl same ↦ rw (dir, p, entry, same) refl
        | inr apart ↦ rw (dir, p, entry, apart) refl
      ]
    ]

-- From 4 MB on these are the addresses of one page.
pub mapping-changed :
    (m : Vmm) (tree : IsTree m) (v : ℕ) (below : v / 2 ^ 22 < 1023)
    (there : is_present (pde m v) ≡ true) (w u : ℕ)
    → u < 2 ^ 32
    → 2 ^ 22 ≤ u
    → 2 ^ 22 ≤ v
    → mapping (changed m v w) u
      ≡ (if u / 2 ^ 12 == v / 2 ^ 12 then entry_mapping w else mapping m u)
mapping-changed m tree v below there w u lt from from' =
    rw
      (
        mapping-shared m tree v below there w u,
        shares-page m tree u v lt (omega arith) from from' there,
      )
      refl
