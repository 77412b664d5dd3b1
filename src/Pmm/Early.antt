-- ===== src/Pmm/Early.antt =====
-- The early allocator and the splitting of the ranges.
use mink.Prelude.{
  ℕ, ◌+◌, ◌-◌, ◌^◌, ◌≤◌, ◌<◌, ◌≡◌, ◌⊎◌, inl, inr, refl, arith, true, false, List, [], ◌∷◌, ◌++◌,
  Option, none, some, ok, panicked, Bool-cases,
}
use mink.Buddy.{Range, u32, u64}
use mink.Pmm.{Pmm, early, split_range, is_skipped, early_take, early_alloc_page}

-- Address `a` lies in the range.
abbrev pub Holds : Range → ℕ → Type 0
Holds r a = (r.start ≤ a) × (a < r.start + r.extent)

-- split_range() parts a range that does not wrap at `loc`: the first part holds exactly its
-- addresses below `loc`, and what is left of it exactly the others.
pub split_range_parts :
    (garbage : ℕ) (r : Range) (loc a : ℕ)
    → r.start + r.extent < 2 ^ 64
    → let (below, rest) = split_range garbage r loc in
      (Holds below a → Holds r a × (a < loc))
      × (Holds r a → a < loc → Holds below a)
      × (Holds rest a → Holds r a × (loc ≤ a))
      × (Holds r a → loc ≤ a → Holds rest a)
      × (below.extent + rest.extent ≡ r.extent)
unfolding split_range
split_range_parts garbage r loc a h =
    (λ p. ground arith, λ p q. ground arith, λ p. ground arith, λ p q. ground arith, ground arith)

-- A range that the early allocator takes from: more than one page, between 1 MB and 4 GB.
abbrev pub IsUsable : Range → Type 0
IsUsable r = (0x1000 < r.extent) × (0x100000 ≤ r.start) × (r.start < 0x1_0000_0000)

-- The range without its first page.
abbrev pub rest_of : Range → Range
rest_of r = record { start = u64 (r.start + 0x1000); extent = r.extent - 0x1000 }

abbrev pub AllSkipped : List Range → Type 0
AllSkipped [] = Unit
AllSkipped (r ∷ rs) = (is_skipped r ≡ true) × AllSkipped rs

pub is_skipped-IsUsable : (r : Range) → is_skipped r ≡ false → IsUsable r
unfolding is_skipped
is_skipped-IsUsable r h = ground arith

-- The first page of the first usable range `r` is taken; all else is as before.
pub record TakesFirst (rs : List Range) (page : ℕ) (rs' : List Range) : Type 0 where
  pub before : List Range
  pub r : Range
  pub later : List Range
  pub was : rs ≡ before ++ r ∷ later
  pub now : rs' ≡ before ++ rest_of r ∷ later
  pub skipped : AllSkipped before
  pub usable : IsUsable r
  pub page_is : page ≡ r.start

abbrev EarlyOutcome : List Range → Option (ℕ × List Range) → Type 0
EarlyOutcome rs o =
    ((o ≡ none) × AllSkipped rs)
    ⊎ ((page : ℕ) × (rs' : List Range) × (o ≡ some (page, rs')) × TakesFirst rs page rs')

early_take_lem : (rs : List Range) → EarlyOutcome rs (early_take rs)
unfolding early_take
early_take_lem [] = inl (refl, tt)
early_take_lem (r ∷ rs) = elim (Bool-cases (is_skipped r)) [
  | inl skip ↦ elim (early_take_lem rs) [
    | inl (failed, all) ↦ rw skip (inl (rw failed, (refl, all)))
    | inr (page, rs', found, t) ↦ rw skip (
        inr (
          page,
          r ∷ rs',
          rw found,
          record {
            before = r ∷ t.before;
            r = t.r;
            later = t.later;
            was = rw t.was;
            now = rw t.now;
            skipped = (skip, t.skipped);
            usable = t.usable;
            page_is = t.page_is;
          },
        ))
  ]
  | inr take ↦ rw take (
      inr (
        u32 r.start,
        rest_of r ∷ rs,
        refl,
        record {
          before = [];
          r = r;
          later = rs;
          was = refl;
          now = refl;
          skipped = tt;
          usable = is_skipped-IsUsable r take;
          page_is = omega (arith, is_skipped-IsUsable r take);
        },
      ))
]

-- early_alloc_page() at the early stage: it returns the first page of the first range of more than
-- one page between 1 MB and 4 GB, whose address fits 32 bits, takes that page off the range and
-- changes nothing else; and it panics only when every range is too small or lies outside.
pub early_alloc_page_lem :
    (m : Pmm)
    → m.init_stage ≡ early
    → ((early_alloc_page m ≡ panicked) × AllSkipped m.early_ranges)
      ⊎ ((page : ℕ) × (rs' : List Range) × (early_alloc_page m
            ≡ ok (page, record m { early_ranges = rs' }))
          × TakesFirst m.early_ranges page rs')
unfolding early_alloc_page
early_alloc_page_lem m e = elim (early_take_lem m.early_ranges) [
  | inl (failed, all) ↦ inl (rw (e, failed), all)
  | inr (page, rs', found, t) ↦ inr (page, rs', simp (e, found), t)
]
