-- ===== src/Vmm/Pages.antt =====
-- map() and unmap() of several pages.
use mink.Prelude.{
  ℕ, zero, suc, ◌+◌, ◌-◌, ◌*◌, ◌/◌, ◌^◌, ◌<◌, ◌≤◌, ◌≡◌, ◌≢◌, ◌∙◌, sym, ap, refl, arith, Bool, true,
  false, ◌&&◌, ◌==◌, ltb, leb, if◌then◌else◌, Option, none, some, Outcome, ok, ◌>>=◌, Bool-cases,
  inl, inr,
}
use mink.Buddy.{u32}
use mink.Vmm.{Vmm, is_present, map_one_page, map_pages, unmap_one_page, unmap_pages}
use mink.Vmm.Tables.{pde, IsTree}
use mink.Vmm.Mappings.{mapping}
use mink.Vmm.Entries.{kept_flags}
use mink.Vmm.Change.{Maps, map_one_page-Maps, unmap_one_page-Maps}

-- Whether `u` lies in one of the `n` pages from `v` on.
abbrev pub in_pages : ℕ → ℕ → ℕ → Bool
in_pages v n u = leb (v / 2 ^ 12) (u / 2 ^ 12) && ltb (u / 2 ^ 12) (v / 2 ^ 12 + n)

-- `r` is a normal return with the page of `u` mapped as `what u` for the `n` pages from `v` on, and as
-- before elsewhere from 4 MB to the directory's window; the lock is free and the interrupt flag as before.
pub record MapsPages (m : Vmm) (v n : ℕ) (what : ℕ → Option (ℕ × ℕ)) (r : Outcome Vmm)
    : Type 0 where
  pub out : Vmm
  pub returns : r ≡ ok out
  pub tree : IsTree out
  pub mappings :
      (u : ℕ)
      → u < 2 ^ 32
      → 2 ^ 22 ≤ u
      → u / 2 ^ 22 < 1023
      → mapping out u ≡ (if in_pages v n u then what u else mapping m u)
  pub tables : (u : ℕ) → is_present (pde m u) ≡ true → is_present (pde out u) ≡ true
  pub unlocked : out.lock.val ≡ 0
  pub enabled : out.pmm.enabled ≡ m.pmm.enabled
  pub same_pmm : out.pmm ≡ m.pmm

-- What map() from `v` to `p` makes of the page of `u`.
abbrev pub page_of_run : ℕ → ℕ → ℕ → ℕ → Option (ℕ × ℕ)
page_of_run v p flags u = some ((p / 2 ^ 12 + (u / 2 ^ 12 - v / 2 ^ 12)) * 2 ^ 12, kept_flags flags)

-- One page and then the others.
first-MapsPages :
    (m : Vmm) (v n : ℕ) (first : Option (ℕ × ℕ)) (what what' : ℕ → Option (ℕ × ℕ)) (r : Outcome Vmm)
    (rest : Vmm → Outcome Vmm) (a : Maps m v first r)
    → 2 ^ 22 ≤ v
    → is_present (pde m v) ≡ true
    → ((u : ℕ) → (u / 2 ^ 12 == v / 2 ^ 12) ≡ true → first ≡ what u)
    → ((u : ℕ) → in_pages (v + 0x1000) n u ≡ true → what' u ≡ what u)
    → MapsPages a.out (v + 0x1000) n what' (rest a.out)
    → MapsPages m v (suc n) what (r >>= rest)
first-MapsPages m v n first what what' r rest a high there agrees agrees' b = record {
  out = b.out;
  returns = rw a.returns b.returns;
  tree = b.tree;
  mappings = λ u lt from low.
      (let after = b.mappings u lt from low in
        let before = a.mappings high u lt from low in
        elim (Bool-cases (u / 2 ^ 12 == v / 2 ^ 12)) [
          | inl here ↦
              let now : in_pages v (suc n) u ≡ true = ground arith in
              let not_later : in_pages (v + 0x1000) n u ≡ false = ground arith in
              rw now ((rw not_later at after) ∙ (rw here at before) ∙ agrees u here)
          | inr elsewhere ↦
              let kept : mapping a.out u ≡ mapping m u = rw elsewhere at before in
              elim (Bool-cases (in_pages (v + 0x1000) n u)) [
                | inl later ↦
                    let now : in_pages v (suc n) u ≡ true = ground arith in
                    rw now ((rw later at after) ∙ agrees' u later)
                | inr not_later ↦
                    let not_now : in_pages v (suc n) u ≡ false = ground arith in
                    rw not_now ((rw not_later at after) ∙ kept)
              ]
        ]);
  tables = λ u p. b.tables u (a.tables u p);
  unlocked = b.unlocked;
  enabled = b.enabled ∙ a.enabled;
  same_pmm = b.same_pmm ∙ a.same_pmm there;
}

-- With the lock free, tables as IsTree has them, and `n` pages from `v` on that lie between 4 MB and
-- the window of the directory, have page tables and are not mapped: map() maps them to the `n`
-- physical pages from `p` on (all below 4 GB), with the flags, and changes no other mapping there.
pub map_pages-MapsPages :
    (n : ℕ) (m : Vmm) (v p flags : ℕ)
    → IsTree m
    → m.lock.val ≡ 0
    → 2 ^ 22 ≤ v
    → flags < 16
    → v + n * 0x1000 ≤ 1023 * 2 ^ 22
    → p + n * 0x1000 ≤ 2 ^ 32
    → ((j : ℕ) → j < n → is_present (pde m (v + j * 0x1000)) ≡ true)
    → ((j : ℕ) → j < n → mapping m (v + j * 0x1000) ≡ none)
    → MapsPages m v n (page_of_run v p flags) (map_pages n m v p flags)
unfolding map_pages
map_pages-MapsPages zero m v p flags tree free high known fits fits' there empty = record {
  out = m;
  returns = refl;
  tree = tree;
  mappings =
      λ u lt from low. (let nothing : in_pages v 0 u ≡ false = ground arith in rw nothing refl);
  tables = λ u e. e;
  unlocked = free;
  enabled = refl;
  same_pmm = refl;
}
map_pages-MapsPages (suc n) m v p flags tree free high known fits fits' there empty =
    let here : v + 0 * 0x1000 ≡ v = omega arith in
    let below : v / 2 ^ 22 < 1023 = omega arith in
    let page : u32 p / 2 ^ 12 * 2 ^ 12 ≡ p / 2 ^ 12 * 2 ^ 12 = omega arith in
    let a =
      (map_one_page-Maps m tree free v below p flags known (rw here at (there 0 (omega arith)))).0
        (rw here at (empty 0 (omega arith))) in
    let word : u32 (v + 0x1000) ≡ v + 0x1000 = omega arith in
    let step : (j : ℕ) → v + 0x1000 + j * 0x1000 ≡ v + suc j * 0x1000 = λ j. omega arith in
    let still_empty : (j : ℕ) → j < n → mapping a.out (v + 0x1000 + j * 0x1000) ≡ none = λ j lt.
      (let other : (v + 0x1000 + j * 0x1000) / 2 ^ 12 == v / 2 ^ 12 ≡ false = ground arith in
        (rw other at (
          a.mappings high (v + 0x1000 + j * 0x1000) (omega arith) (omega (arith, high))
            (omega arith)))
        ∙ rw (step j) (empty (suc j) (omega arith))) in
    let rest =
      map_pages-MapsPages n a.out (v + 0x1000) (p + 0x1000) flags a.tree a.unlocked
        (omega (arith, high)) known (omega arith) (omega arith)
        (λ j lt. a.tables _ (rw (step j) (there (suc j) (omega arith)))) still_empty in
    rw word (
      first-MapsPages m v n (some (u32 p / 2 ^ 12 * 2 ^ 12, kept_flags flags))
        (page_of_run v p flags) (page_of_run (v + 0x1000) (p + 0x1000) flags)
        (map_one_page m v p flags) (λ m'. map_pages n m' (v + 0x1000) (p + 0x1000) flags) a high
        (rw here at (there 0 (omega arith)))
        (λ u at_v. same_run (u32 p / 2 ^ 12 * 2 ^ 12) _ (ground (arith, page, at_v)))
        (λ u later. same_run _ _ (ground (arith, later))) rest)
  where
    run_page : ℕ → Option (ℕ × ℕ)
    run_page x = some (x, kept_flags flags)

    same_run : (x y : ℕ) → x ≡ y → run_page x ≡ run_page y
    same_run x y e = ap run_page e

-- A page that is mapped has a table.
pub table_of : (m : Vmm) (v : ℕ) → mapping m v ≢ none → is_present (pde m v) ≡ true
table_of m v mapped = elim (Bool-cases (is_present (pde m v))) [
  | inl there ↦ there
  | inr missing ↦ absurd (mapped (rw missing refl))
]

-- With the lock free, tables as IsTree has them, and `n` pages from `v` on that lie between 4 MB and
-- the window of the directory and are mapped: unmap() takes their mappings away and no other there.
pub unmap_pages-MapsPages :
    (n : ℕ) (m : Vmm) (v : ℕ)
    → IsTree m
    → m.lock.val ≡ 0
    → 2 ^ 22 ≤ v
    → v + n * 0x1000 ≤ 1023 * 2 ^ 22
    → ((j : ℕ) → j < n → mapping m (v + j * 0x1000) ≢ none)
    → MapsPages m v n (λ u. none) (unmap_pages n m v)
unfolding unmap_pages
unmap_pages-MapsPages zero m v tree free high fits mapped = record {
  out = m;
  returns = refl;
  tree = tree;
  mappings =
      λ u lt from low. (let nothing : in_pages v 0 u ≡ false = ground arith in rw nothing refl);
  tables = λ u e. e;
  unlocked = free;
  enabled = refl;
  same_pmm = refl;
}
unmap_pages-MapsPages (suc n) m v tree free high fits mapped =
    let here : v + 0 * 0x1000 ≡ v = omega arith in
    let below : v / 2 ^ 22 < 1023 = omega arith in
    let a = (unmap_one_page-Maps m tree free v below).0 (rw here at (mapped 0 (omega arith))) in
    let word : u32 (v + 0x1000) ≡ v + 0x1000 = omega arith in
    let step : (j : ℕ) → v + 0x1000 + j * 0x1000 ≡ v + suc j * 0x1000 = λ j. omega arith in
    let still : (j : ℕ) → j < n → mapping a.out (v + 0x1000 + j * 0x1000) ≢ none = λ j lt e.
      (let other : (v + 0x1000 + j * 0x1000) / 2 ^ 12 == v / 2 ^ 12 ≡ false = ground arith in
        let kept : mapping a.out (v + 0x1000 + j * 0x1000) ≡ mapping m (v + 0x1000 + j * 0x1000) =
          rw other at (
            a.mappings high (v + 0x1000 + j * 0x1000) (omega arith) (omega (arith, high))
              (omega arith)) in
        mapped (suc j) (omega arith) (rw (step j) at (sym kept ∙ e))) in
    rw word (
      first-MapsPages m v n none (λ u. none) (λ u. none) (unmap_one_page m v)
        (λ m'. unmap_pages n m' (v + 0x1000)) a high
        (table_of m v (rw here at (mapped 0 (omega arith)))) (λ u at_v. refl) (λ u later. refl)
        (unmap_pages-MapsPages n a.out (v + 0x1000) a.tree a.unlocked (omega (arith, high))
          (omega arith) still))

-- A normal return with every mapping from 4 MB to the window of the directory as in `m`.
abbrev pub RestoresMappings : Vmm → Outcome Vmm → Type 0
RestoresMappings m r =
    (out : Vmm) × (r ≡ ok out)
    × IsTree out
    × (out.lock.val ≡ 0)
    × (out.pmm.enabled ≡ m.pmm.enabled)
    × ((u : ℕ) → u < 2 ^ 32 → 2 ^ 22 ≤ u → u / 2 ^ 22 < 1023 → mapping out u ≡ mapping m u)

-- With the lock free, tables as IsTree has them (only the entry of the first 4 MB may share the table
-- of another), and `n` pages from `v` on that lie between 4 MB and the window of the directory, have
-- page tables and are not mapped: unmap() of them after map() of them (to physical pages below 4 GB)
-- ends normally with every mapping from 4 MB to the window as it was before the two.
pub unmap-map :
    (n : ℕ) (m : Vmm) (v p flags : ℕ)
    → IsTree m
    → m.lock.val ≡ 0
    → 2 ^ 22 ≤ v
    → flags < 16
    → v + n * 0x1000 ≤ 1023 * 2 ^ 22
    → p + n * 0x1000 ≤ 2 ^ 32
    → ((j : ℕ) → j < n → is_present (pde m (v + j * 0x1000)) ≡ true)
    → ((u : ℕ) → in_pages v n u ≡ true → mapping m u ≡ none)
    → RestoresMappings m (map_pages n m v p flags >>= λ m'. unmap_pages n m' v)
unmap-map n m v p flags tree free high known fits fits' there empty =
    let inside : (j : ℕ) → j < n → in_pages v n (v + j * 0x1000) ≡ true = λ j lt. ground arith in
    let a =
      map_pages-MapsPages n m v p flags tree free high known fits fits' there
        (λ j lt. empty (v + j * 0x1000) (inside j lt)) in
    let mapped : (j : ℕ) → j < n → mapping a.out (v + j * 0x1000) ≢ none = λ j lt e.
      (let run : mapping a.out (v + j * 0x1000) ≡ page_of_run v p flags (v + j * 0x1000) =
          rw (inside j lt) at
            (a.mappings (v + j * 0x1000) (omega arith) (omega (arith, high)) (omega arith)) in
        something (sym run ∙ e)) in
    let b = unmap_pages-MapsPages n a.out v a.tree a.unlocked high fits mapped in
    (
      b.out,
      rw a.returns b.returns,
      b.tree,
      b.unlocked,
      b.enabled ∙ a.enabled,
      λ u lt from low.
          (let after = b.mappings u lt from low in
            let before = a.mappings u lt from low in
            elim (Bool-cases (in_pages v n u)) [
              | inl now ↦ (rw now at after) ∙ sym (empty u now)
              | inr other ↦ (rw other at after) ∙ (rw other at before)
            ]),
    )
  where
    something : {x : ℕ × ℕ} → some x ≡ none → ⊥
    something e = cc
