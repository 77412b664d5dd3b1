-- ===== src/Tests/Loading.antt =====
-- The loading of features, and the boot loader's map, at concrete inputs.
use mink.Prelude.{
  ℕ, zero, suc, ◌+◌, ◌<◌, ◌≤◌, ◌≡◌, ◌≢◌, refl, arith, inl, inr, List, [], ◌∷◌, length, none, some,
  Outcome, ok, panicked, undefined,
}
use mink.Strings
use mink.Features
use mink.Features.{FeaturePrereq, Feature, Kernel, uninit}
use mink.Features.Order.{AllFound, IsPlan, Needs}
use mink.Features.Init.{Loaded, find_prereqs, init_features-Loaded}
use mink.Memory.{MapEntry, collect_ranges}
use mink.Memory.BootMap.{available, highest_end, collect_ranges_lem}

unfoldable loading : Unit {0}
unfolding Features.init_features Features.for_features Features.resolve_feature
    Features.resolve_prereqs Features.find_feature Features.find_feature_from Strings.strcmp
loading = tt

-- "irq", which requires "idt" and loads after "debugger", which is not there; and "idt".
abbrev irq : Feature ℕ
irq = record {
  name = 105 ∷ 114 ∷ 113 ∷ 0 ∷ [];
  required = record { name = 105 ∷ 100 ∷ 116 ∷ 0 ∷ []; feature = none } ∷ [];
  load_after = record { name = 100 ∷ 98 ∷ 103 ∷ 0 ∷ []; feature = none } ∷ [];
  init = some 1;
  state = uninit;
}

abbrev idt : Feature ℕ
idt = record {
  name = 105 ∷ 100 ∷ 116 ∷ 0 ∷ [];
  required = [];
  load_after = [];
  init = some 1;
  state = uninit;
}

abbrev features : ℕ → Feature ℕ
features zero = irq
features (suc i) = idt

abbrev kernel : Kernel ℕ ℕ
kernel = record { features = features; count = 2; world = 0; started = [] }

-- Every init function counts itself and returns 1.
abbrev run : ℕ → ℕ → Outcome (ℕ × ℕ)
run f w = ok (1, w + f)

run_works : (f w : ℕ) → (ret : ℕ) × (w' : ℕ) × (run f w ≡ ok (ret, w')) × (ret ≢ 0)
run_works f w = (1, w + f, refl, λ e. omega arith)

abbrev kernel_of : Outcome (Kernel ℕ ℕ) → Kernel ℕ ℕ
kernel_of (ok k) = k
kernel_of panicked = kernel
kernel_of undefined = kernel

abbrev resolved : Kernel ℕ ℕ
resolved = kernel_of (find_prereqs kernel)

find_prereqs_runs : find_prereqs kernel ≡ ok resolved
unfolding loading
find_prereqs_runs = refl

abbrev rank : ℕ → ℕ
rank zero = 1
rank (suc i) = 0

plan_found : (m : ℕ) → m < 2 → AllFound (resolved.features m).required
unfolding loading
plan_found zero lt = ((1, refl), tt)
plan_found (suc zero) lt = tt
plan_found (suc (suc m)) lt = absurd (omega arith)

plan_inside : (m j : ℕ) → m < 2 → Needs resolved m j → (j < 2) × (rank j < rank m)
unfolding loading
plan_inside zero zero lt needs = absurd (not_itself needs)
  where
    not_itself : Needs resolved zero zero → ⊥
    not_itself (inl (inl e)) = cc
    not_itself (inr (inl e)) = cc
    not_itself (inl (inr x)) = absurd x
    not_itself (inr (inr x)) = absurd x
plan_inside zero (suc zero) lt needs = (omega arith, omega arith)
plan_inside zero (suc (suc j)) lt (inl (inl e)) = absurd (omega (arith, some_eq e))
  where
    some_eq : some 1 ≡ some (suc (suc j)) → 1 ≡ suc (suc j)
    some_eq e = cc
plan_inside zero (suc (suc j)) lt (inr (inl e)) = absurd (none_some e)
  where
    none_some : none ≡ some (suc (suc j)) → ⊥
    none_some e = cc
plan_inside zero (suc (suc j)) lt (inl (inr x)) = absurd x
plan_inside zero (suc (suc j)) lt (inr (inr x)) = absurd x
plan_inside (suc zero) j lt (inl n) = absurd n
plan_inside (suc zero) j lt (inr n) = absurd n
plan_inside (suc (suc m)) j lt needs = absurd (omega arith)

resolved_count : resolved.count ≡ 2
unfolding loading
resolved_count = refl

resolved-IsPlan : IsPlan resolved rank
resolved-IsPlan = record {
  found = λ m lt. plan_found m (rw resolved_count at lt);
  inside = λ m j lt needs. rw resolved_count ((plan_inside m j (rw resolved_count at lt) needs).0);
  lower = λ m j lt needs. (plan_inside m j (rw resolved_count at lt) needs).1;
  few = λ m lt. rw resolved_count (rank_few m);
}
  where
    rank_few : (m : ℕ) → rank m < 2
    rank_few zero = omega arith
    rank_few (suc m) = omega arith

init_features-Loaded_example : Loaded resolved (Features.init_features run kernel)
init_features-Loaded_example =
    init_features-Loaded run kernel resolved rank run_works refl find_prereqs_runs resolved-IsPlan

-- 1 MB less 4 KB, a hole, and 63 MB.
abbrev boot_map : List MapEntry
boot_map =
    record { size = 20; addr = 0; len = 0x9f000; ty = 1 }
    ∷ record { size = 20; addr = 0x9f000; len = 0x61000; ty = 2 }
    ∷ record { size = 20; addr = 0x100000; len = 0x3f00000; ty = 1 }
    ∷ []

collect_ranges_lem_example :
    (length (available boot_map) ≤ 32
      → collect_ranges 0x1048 0x1000 boot_map [] 0
        ≡ ok (available boot_map, highest_end boot_map 0))
    × (32 < length (available boot_map) → collect_ranges 0x1048 0x1000 boot_map [] 0 ≡ undefined)
collect_ranges_lem_example =
    collect_ranges_lem 0x1000 0x1048 boot_map
      ((omega arith, omega arith, (omega arith, omega arith, (omega arith, omega arith, refl))))
