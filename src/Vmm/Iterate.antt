-- ===== src/Vmm/Iterate.antt =====
-- iterate_mappings() finds the next page that is mapped.
use mink.Prelude.{
  ℕ, zero, suc, ◌+◌, ◌*◌, ◌^◌, ◌<◌, ◌≤◌, ◌≡◌, ◌≢◌, ◌⊎◌, inl, inr, refl, arith, true, false, Bool,
  ltb, Option, none, some, Outcome, ok, Bool-cases,
}
use mink.Vmm.{Vmm, is_mapped, iterate_from, iterate_mappings}
use mink.Vmm.Tables.{IsRecursive}
use mink.Vmm.Mappings.{mapping, get_mapping-mapping}

-- No page is mapped from the `k` pages after `v`.
abbrev pub NoneMapped : Vmm → ℕ → ℕ → Type 0
NoneMapped m v k =
    (j : ℕ) → 1 ≤ j → j ≤ k → v + j * 0x1000 < 2 ^ 32 → mapping m (v + j * 0x1000) ≡ none

-- The result is the first page after `v` that is mapped, or there is none below 4 GB.
abbrev pub IsNext : Vmm → ℕ → Option ℕ → Type 0
IsNext m v none = (k : ℕ) → NoneMapped m v k
IsNext m v (some page) =
    (k : ℕ) × (page ≡ v + (k + 1) * 0x1000)
    × (page < 2 ^ 32)
    × (mapping m page ≢ none)
    × NoneMapped m v k

is_mapped-cases :
    (m : Vmm) (v : ℕ)
    → IsRecursive m
    → v < 2 ^ 32
    → ((is_mapped m v ≡ ok true) × (mapping m v ≢ none))
      ⊎ ((is_mapped m v ≡ ok false) × (mapping m v ≡ none))
unfolding is_mapped
is_mapped-cases m v self lt = rw (get_mapping-mapping m v self lt) (by_mapping (mapping m v))
  where
    by_mapping :
        (found : Option (ℕ × ℕ))
        → (((elim found as (λ _. Outcome Bool) [ none ↦ ok false | some _ ↦ ok true ]) ≡ ok true)
            × (found ≢ none))
          ⊎ (((elim found as (λ _. Outcome Bool) [ none ↦ ok false | some _ ↦ ok true ]) ≡ ok false)
              × (found ≡ none))
    by_mapping none = inr (refl, refl)
    by_mapping (some page) = inl (refl, λ e. cc)

-- One more page that is not mapped in front.
before :
    (m : Vmm) (v k : ℕ)
    → mapping m (v + 0x1000) ≡ none
    → NoneMapped m (v + 0x1000) k
    → NoneMapped m v (k + 1)
before m v k first rest zero one le lt = absurd (omega arith)
before m v k first rest (suc zero) one le lt = first
before m v k first rest (suc (suc j)) one le lt =
    let e : v + suc (suc j) * 0x1000 ≡ v + 0x1000 + suc j * 0x1000 = omega arith in
    rw e (rest (suc j) (omega arith) (omega arith) (omega arith))

next :
    (m : Vmm) (v : ℕ) (r : Option ℕ)
    → mapping m (v + 0x1000) ≡ none
    → IsNext m (v + 0x1000) r
    → IsNext m v r
next m v none first rest = λ k j one le lt. before m v k first (rest k) j one (omega arith) lt
next m v (some page) first (k, at_k, word, found, rest) =
    (k + 1, omega (arith, at_k), word, found, before m v k first rest)

iterate_from_lem :
    (m : Vmm) (left v : ℕ)
    → IsRecursive m
    → v < 2 ^ 32
    → 2 ^ 32 ≤ v + left * 0x1000
    → (r : Option ℕ) × (iterate_from left m v ≡ ok r) × IsNext m v r
unfolding iterate_from
iterate_from_lem m zero v self lt enough = absurd (omega arith)
iterate_from_lem m (suc left) v self lt enough = elim (Bool-cases (ltb v 0xfffff000)) [
  | inr last ↦ (none, rw last refl, λ k j one le below. absurd (ground arith))
  | inl more ↦
      let below : v + 0x1000 < 2 ^ 32 = ground arith in
      elim (is_mapped-cases m (v + 0x1000) self below) [
        | inl (yes_mapped, found) ↦ (
          some (v + 0x1000),
          rw (more, yes_mapped) refl,
          (0, omega arith, below, found, λ j one le lt'. absurd (omega arith)),
        )
        | inr (not_mapped, missing) ↦
            let (r, returns, is_next) =
              iterate_from_lem m left (v + 0x1000) self below (omega arith) in
            (r, rw (more, not_mapped) returns, next m v r missing is_next)
      ]
]

-- While the directory leads to itself, iterate_mappings() of a 32-bit address ends: it returns the
-- first mapped page after the one it is given, which itself is not looked at, or ~0 when no page
-- from there to 4 GB is mapped.
pub iterate_mappings-IsNext :
    (m : Vmm) (v : ℕ)
    → IsRecursive m
    → v < 2 ^ 32
    → (r : Option ℕ) × (iterate_mappings m v ≡ ok r) × IsNext m v r
unfolding iterate_mappings
iterate_mappings-IsNext m v self lt = iterate_from_lem m (2 ^ 20) v self lt (omega arith)
