-- ===== src/Features/Load.antt =====
-- init_features() starts every feature once, after what it needs.
use mink.Prelude.{
  ℕ, zero, suc, ◌+◌, ◌<◌, ◌≤◌, ◌≡◌, ◌≢◌, ◌⊎◌, inl, inr, refl, sym, ap, ◌∙◌, arith, Bool, true,
  false, ◌==◌, if◌then◌else◌, List, [], ◌∷◌, Option, none, some, Outcome, ok, panicked, ◌>>=◌,
  >>=-assoc, Bool-cases, ==→eq,
}
use mathlib.Core.Path.{subst}
use mink.Features.{
  FeaturePrereq, Kernel, initialised, set_feature, init_required, init_after, for_features,
  start_feature, init_feature,
}
use mink.Features.Order.{
  IsAmong, Names, AllFound, Needs, is_init, IsPlan, Inv, Runs, nothing-Runs, then-Runs, weaken-Runs,
}

module _ {I W : Type 0} (k0 : Kernel I W) (rank : ℕ → ℕ) (plan : IsPlan k0 rank) where
  -- What is initialised and not yet started has rank `r` at least.
  abbrev Above : Kernel I W → ℕ → Type 0
  Above k r = (i : ℕ) → i < k0.count → is_init k i ≡ true → IsAmong i k.started ⊎ (r ≤ rank i)

  -- `again` starts features of ranks below `r`.
  abbrev Works : (Kernel I W → ℕ → Outcome (Kernel I W)) → ℕ → Type 0
  Works again r =
      (k : Kernel I W) (j : ℕ)
      → Inv k0 k
      → j < k0.count
      → rank j < r
      → Above k (rank j + 1)
      → Runs k0 k (λ i. i ≡ j) (again k j)

  -- Prerequisites that exist and have ranks below `r`.
  abbrev Below : List FeaturePrereq → ℕ → Type 0
  Below ps r = (j : ℕ) → Names ps j → (j < k0.count) × (rank j < r)

  Above-Runs :
      (k : Kernel I W) (r : ℕ) (Wanted : ℕ → Type 0) (o : Outcome (Kernel I W))
      (a : Runs k0 k Wanted o)
      → Above k r
      → Above a.out r
  Above-Runs k r Wanted o a above i in_array e = elim (a.finished i e) [
    | inl s ↦ inl s
    | inr e' ↦ elim (above i in_array e') [ inl s ↦ inl (a.kept i s) | inr le ↦ inr le ]
  ]

  Above-less : (k : Kernel I W) (r r' : ℕ) → r' ≤ r → Above k r → Above k r'
  Above-less k r r' le above i in_array e = elim (above i in_array e) [
    | inl s ↦ inl s
    | inr le' ↦ inr (omega arith)
  ]

  same_target : (p : FeaturePrereq) (i j : ℕ) → p.feature ≡ some j → p.feature ≡ some i → i ≡ j
  same_target p i j e e' = cc

  neither : (p : FeaturePrereq) (i : ℕ) → p.feature ≡ none → p.feature ≡ some i → ⊥
  neither p i e e' = cc

  module _ (again : Kernel I W → ℕ → Outcome (Kernel I W)) (r : ℕ) (works : Works again r) where
    -- One call, for a prerequisite that is feature `j`, and then the rest of the list.
    prereq-Runs :
        (k : Kernel I W) (p : FeaturePrereq) (ps : List FeaturePrereq) (j : ℕ)
        (loop : Kernel I W → Outcome (Kernel I W)) (o : Outcome (Kernel I W))
        → o ≡ (again k j >>= loop)
        → p.feature ≡ some j
        → Inv k0 k
        → Below (p ∷ ps) r
        → Above k r
        → ((k' : Kernel I W) → Inv k0 k' → Above k' r → Runs k0 k' (Names ps) (loop k'))
        → Runs k0 k (Names (p ∷ ps)) o
    prereq-Runs k p ps j loop o opens e inv below above rest =
        let (inside, lower) = below j (inl e) in
        let a = works k j inv inside lower (Above-less k r (rank j + 1) (omega arith) above) in
        let b = rest a.out a.inv (Above-Runs k r (λ i. i ≡ j) (again k j) a above) in
        weaken-Runs k0 k (λ i. (i ≡ j) ⊎ Names ps i) (Names (p ∷ ps)) (again k j >>= loop) o opens
          (λ i. elim [ inl e' ↦ inl (same_target p i j e e') | inr n ↦ inr n ])
          (then-Runs k0 k (λ i. i ≡ j) (Names ps) (again k j) loop a b)

    required-Runs :
        (ps : List FeaturePrereq) (k : Kernel I W)
        → Inv k0 k
        → AllFound ps
        → Below ps r
        → Above k r
        → Runs k0 k (Names ps) (init_required again k ps)
    unfolding init_required
    required-Runs [] k inv found below above = nothing-Runs k0 k (Names []) inv (λ j n. absurd n)
    required-Runs (p ∷ ps) k inv ((j, e), found) below above =
        prereq-Runs k p ps j (λ k'. init_required again k' ps) (init_required again k (p ∷ ps))
          (rw e refl) e inv below above
          (λ k' inv' above'. required-Runs ps k' inv' found (λ i n. below i (inr n)) above')

    after-Runs :
        (ps : List FeaturePrereq) (k : Kernel I W)
        → Inv k0 k
        → Below ps r
        → Above k r
        → Runs k0 k (Names ps) (init_after again k ps)
    unfolding init_after
    after-Runs [] k inv below above = nothing-Runs k0 k (Names []) inv (λ j n. absurd n)
    after-Runs (p ∷ ps) k inv below above =
        by_feature p.feature refl
          (λ k' inv' above'. after-Runs ps k' inv' (λ i n. below i (inr n)) above')
      where
        by_feature :
            (f : Option ℕ)
            → p.feature ≡ f
            → ((k' : Kernel I W)
                → Inv k0 k'
                → Above k' r
                → Runs k0 k' (Names ps) (init_after again k' ps))
            → Runs k0 k (Names (p ∷ ps)) (init_after again k (p ∷ ps))
        by_feature none e rest =
            weaken-Runs k0 k (Names ps) (Names (p ∷ ps)) (init_after again k ps)
              (init_after again k (p ∷ ps)) (rw e refl)
              (λ i. elim [ inl e' ↦ absurd (neither p i e e') | inr n ↦ n ]) (rest k inv above)
        by_feature (some j) e rest =
            prereq-Runs k p ps j (λ k'. init_after again k' ps) (init_after again k (p ∷ ps))
              (rw e refl) e inv below above rest

  abbrev marked : Kernel I W → ℕ → Kernel I W
  marked k m = set_feature k m (record (k.features m) { state = initialised })

  is_init-marked :
      (k : Kernel I W) (m i : ℕ) → is_init (marked k m) i ≡ (if i == m then true else is_init k i)
  is_init-marked k m i = elim (Bool-cases (i == m)) [ inl e ↦ rw e refl | inr e ↦ rw e refl ]

  marked-Inv : (k : Kernel I W) (m : ℕ) → Inv k0 k → Inv k0 (marked k m)
  marked-Inv k m inv = record {
    same_required = λ i. elim (Bool-cases (i == m)) [
      | inl e ↦ rw e (ap (λ x. (k.features x).required) (sym (==→eq i m e)) ∙ inv.same_required i)
      | inr e ↦ rw e (inv.same_required i)
    ];
    same_load_after = λ i. elim (Bool-cases (i == m)) [
      | inl e ↦
          rw e (ap (λ x. (k.features x).load_after) (sym (==→eq i m e)) ∙ inv.same_load_after i)
      | inr e ↦ rw e (inv.same_load_after i)
    ];
    in_order = inv.in_order;
    begun = λ i s. (let e = inv.begun i s in rw (is_init-marked k m i) (ground (arith, e)));
  }

  false-true : (b : Bool) → b ≡ false → b ≡ true → ⊥
  false-true b e f = cc

  -- The whole of init_feature(), from the run of the prerequisites of a feature that is marked.
  feature-Runs :
      (k : Kernel I W) (m : ℕ) (o r : Outcome (Kernel I W)) (w : W)
      → Inv k0 k
      → is_init k m ≡ false
      → (a : Runs k0 (marked k m) (Needs k0 m) o)
      → r ≡ ok (record a.out { started = m ∷ a.out.started; world = w })
      → Runs k0 k (λ i. i ≡ m) r
  feature-Runs k m o r w inv not_yet a returns =
      let marks = is_init-marked k m in
      let is_marked : is_init (marked k m) m ≡ true = rw (marks m) (ground arith) in
      let once : IsAmong m a.out.started → ⊥ =
        λ s. false-true (is_init k m) not_yet (inv.begun m (a.fresh m s is_marked)) in
      let still : (i : ℕ) → is_init k i ≡ true → is_init (marked k m) i ≡ true =
        λ i e. rw (marks i) (ground (arith, e)) in
      record {
        out = record a.out { started = m ∷ a.out.started; world = w };
        returns = returns;
        inv = record {
          same_required = a.inv.same_required;
          same_load_after = a.inv.same_load_after;
          in_order = (once, a.wanted, a.inv.in_order);
          begun = λ i. elim [ inl e ↦ rw e (a.kept_init m is_marked) | inr s ↦ a.inv.begun i s ];
        };
        wanted = λ j e. inl e;
        kept = λ i s. inr (a.kept i s);
        kept_init = λ i e. a.kept_init i (still i e);
        finished = λ i e. elim (a.finished i e) [
          | inl s ↦ inl (inr s)
          | inr e' ↦ elim (Bool-cases (i == m)) [
            | inl same ↦ inl (inl (==→eq i m same))
            | inr other ↦ inr (ground (arith, marks i, e', other))
          ]
        ];
        fresh = λ i s e. elim s [
          | inl same ↦
              absurd (false-true (is_init k m) not_yet (ap (λ x. is_init k x) (sym same) ∙ e))
          | inr s' ↦ a.fresh i s' (still i e)
        ];
      }

  Needs-required :
      (k : Kernel I W) (m : ℕ) → Inv k0 k → (j : ℕ) → Names (k.features m).required j → Needs k0 m j
  Needs-required k m inv j n = inl (subst (λ l. Names l j) (inv.same_required m) n)

  Needs-load_after :
      (k : Kernel I W) (m : ℕ)
      → Inv k0 k
      → (j : ℕ) → Names (k.features m).load_after j
      → Needs k0 m j
  Needs-load_after k m inv j n = inr (subst (λ l. Names l j) (inv.same_load_after m) n)

  Needs-back :
      (k : Kernel I W) (m : ℕ)
      → Inv k0 k
      → (j : ℕ) → Needs k0 m j
      → Names (k.features m).required j ⊎ Names (k.features m).load_after j
  Needs-back k m inv j (inl n) = inl (subst (λ l. Names l j) (sym (inv.same_required m)) n)
  Needs-back k m inv j (inr n) = inr (subst (λ l. Names l j) (sym (inv.same_load_after m)) n)

  module _ (run : I → W → Outcome (ℕ × W))
      (works : (f : I) (w : W) → (ret : ℕ) × (w' : W) × (run f w ≡ ok (ret, w')) × (ret ≢ 0)) where
    starts :
        (k : Kernel I W) (m : ℕ)
        → (w : W) × (start_feature run k m ≡ ok (record k { started = m ∷ k.started; world = w }))
    unfolding start_feature
    starts k m = by_init (k.features m).init
      where
        by_init :
            (f : Option I)
            → (w : W) × ((elim f as (λ _. Outcome (Kernel I W)) [
              | none ↦ ok (record k { started = m ∷ k.started })
              | some init ↦
                  (run init k.world >>= λ (ret, world).
                  if ret == 0
                  then panicked
                  else ok (record k { started = m ∷ k.started; world = world }))
            ])
                ≡ ok (record k { started = m ∷ k.started; world = w }))
        by_init none = (k.world, refl)
        by_init (some init) =
            let (ret, w, returns, good) = works init k.world in
            let more : ret == 0 ≡ false = ground (arith, good) in (w, rw (returns, more) refl)

    opens :
        (fuel : ℕ) (k : Kernel I W) (m : ℕ) (k1 k2 : Kernel I W)
        → is_init k m ≡ false
        → (init_required (init_feature run fuel) (marked k m) (k.features m).required >>= λ k'.
            init_after (init_feature run fuel) k' (k.features m).load_after)
          ≡ ok k1
        → start_feature run k1 m ≡ ok k2
        → init_feature run (suc fuel) k m ≡ ok k2
    unfolding init_feature
    opens fuel k m k1 k2 not_yet prereqs last = rw not_yet (
        sym (
          >>=-assoc (init_required (init_feature run fuel) (marked k m) (k.features m).required)
            (λ k'. init_after (init_feature run fuel) k' (k.features m).load_after)
            (λ k'. start_feature run k' m))
        ∙ ap (λ o. o >>= λ k'. start_feature run k' m) prereqs
        ∙ last)

    init_feature-Runs : (fuel r : ℕ) → r ≤ fuel → Works (init_feature run fuel) r
    unfolding init_feature
    init_feature-Runs zero r le k m inv inside lower above = absurd (omega arith)
    init_feature-Runs (suc fuel) r le k m inv inside lower above =
        let again = init_feature run fuel in
        let ih = init_feature-Runs fuel (rank m) (omega arith) in
        elim (Bool-cases (is_init k m)) [
          | inl is ↦
              let already : IsAmong m k.started = elim (above m inside is) [
                | inl s ↦ s
                | inr le' ↦ absurd (omega arith)
              ] in
              weaken-Runs k0 k (λ i. i ≡ m) (λ i. i ≡ m) (ok k) (init_feature run (suc fuel) k m)
                (rw is refl) (λ j e. e) (nothing-Runs k0 k (λ i. i ≡ m) inv (λ j e. rw e already))
          | inr not_yet ↦
              let req = (k.features m).required in
              let aft = (k.features m).load_after in
              let above' : Above (marked k m) (rank m) = marked-Above k m above in
              let a =
                required-Runs again (rank m) ih req (marked k m) (marked-Inv k m inv)
                  (rw (inv.same_required m) (plan.found m inside))
                  (λ j n.
                    (let n' = Needs-required k m inv j n in
                      (plan.inside m j inside n', plan.lower m j inside n')))
                  above' in
              let b =
                after-Runs again (rank m) ih aft a.out a.inv
                  (λ j n.
                    (let n' = Needs-load_after k m inv j n in
                      (plan.inside m j inside n', plan.lower m j inside n')))
                  (Above-Runs (marked k m) (rank m) (Names req)
                    (init_required again (marked k m) req) a above') in
              let both =
                then-Runs k0 (marked k m) (Names req) (Names aft)
                  (init_required again (marked k m) req) (λ k'. init_after again k' aft) a b in
              let all =
                weaken-Runs k0 (marked k m) (λ j. Names req j ⊎ Names aft j) (Needs k0 m)
                  (init_required again (marked k m) req >>= λ k'. init_after again k' aft)
                  (init_required again (marked k m) req >>= λ k'. init_after again k' aft) refl
                  (Needs-back k m inv) both in
              let (w, last) = starts all.out m in
              feature-Runs k m
                (init_required again (marked k m) req >>= λ k'. init_after again k' aft)
                (init_feature run (suc fuel) k m) w inv not_yet all
                (opens fuel k m all.out _ not_yet all.returns last)
        ]
      where
        marked-Above : (k : Kernel I W) (m : ℕ) → Above k (rank m + 1) → Above (marked k m) (rank m)
        marked-Above k m above i in_array e = elim (Bool-cases (i == m)) [
          | inl same ↦ inr (omega (arith, ap rank (==→eq i m same)))
          | inr other ↦ elim (above i in_array (ground (arith, is_init-marked k m i, e, other))) [
            | inl s ↦ inl s
            | inr le' ↦ inr (omega arith)
          ]
        ]

    -- Nothing is initialised without being started.
    abbrev pub Idle : Kernel I W → Type 0
    Idle k = (i : ℕ) → i < k0.count → is_init k i ≡ true → IsAmong i k.started

    pub loop-Runs :
        (left i : ℕ) (k : Kernel I W)
        → Inv k0 k
        → Idle k
        → i + left ≡ k0.count
        → Runs k0 k
            (λ j. (i ≤ j) × (j < i + left))
            (for_features (init_feature run (k0.count + 1)) left i k)
    unfolding for_features
    loop-Runs zero i k inv idle fits =
        nothing-Runs k0 k (λ j. (i ≤ j) × (j < i + 0)) inv (λ j (le, lt). absurd (omega arith))
    loop-Runs (suc left) i k inv idle fits =
        let step = init_feature run (k0.count + 1) in
        let lt : i < k0.count = omega arith in
        let a =
          init_feature-Runs (k0.count + 1) (k0.count + 1) (omega arith) k i inv lt
            (omega (arith, plan.few i lt)) (λ j in_array e. inl (idle j in_array e)) in
        let b =
          loop-Runs left (i + 1) a.out a.inv
            (λ j in_array e. elim (a.finished j e) [
              | inl s ↦ s
              | inr e' ↦ a.kept j (idle j in_array e')
            ])
            (omega arith) in
        weaken-Runs k0 k (λ j. (j ≡ i) ⊎ ((i + 1 ≤ j) × (j < i + 1 + left)))
          (λ j. (i ≤ j) × (j < i + suc left)) (step k i >>= λ k'. for_features step left (i + 1) k')
          (for_features step (suc left) i k) refl
          (λ j (le, lt'). (elim (Bool-cases (j == i)) [
            | inl same ↦ inl (==→eq j i same)
            | inr other ↦ inr (ground arith, omega arith)
          ]))
          (then-Runs k0 k (λ j. j ≡ i) (λ j. (i + 1 ≤ j) × (j < i + 1 + left)) (step k i)
            (λ k'. for_features step left (i + 1) k') a b)
