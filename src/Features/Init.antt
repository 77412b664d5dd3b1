-- ===== src/Features/Init.antt =====
-- The whole of init_features().
use mink.Prelude.{
  ℕ, zero, suc, ◌+◌, ◌<◌, ◌≤◌, ◌≡◌, ◌≢◌, inl, inr, refl, sym, ap, ◌∙◌, arith, Bool, true, false,
  ◌==◌, [], Outcome, ok, ◌>>=◌, >>=-assoc, >>=-returns, Bool-cases, ==→eq,
}
use mathlib.Core.Path.{subst}
use mink.Features.{
  at_least_init, Feature, Kernel, resolved, uninit, at_least_resolved, set_feature, set_uninit,
  resolve_prereqs, resolve_feature, for_features, init_feature, init_features,
}
use mink.Features.Order.{IsAmong, is_init, InOrder, IsPlan, Inv}
use mink.Features.Load.{loop-Runs}

module _ {I W : Type 0} where
  -- `r` returns with every feature started, once each and after what it needs.
  pub record Loaded (k : Kernel I W) (r : Outcome (Kernel I W)) : Type 0 where
    pub out : Kernel I W
    pub returns : r ≡ ok out
    pub all : (i : ℕ) → i < k.count → IsAmong i out.started
    pub in_order : InOrder k out.started

  -- What a step on a feature before the loading leaves: it initialises and starts nothing.
  record Keeps (k k' : Kernel I W) : Type 0 where
    pub same_count : k'.count ≡ k.count
    pub same_started : k'.started ≡ k.started
    pub quiet : (i : ℕ) → is_init k i ≡ false → is_init k' i ≡ false

  Keeps-then : (k k' k'' : Kernel I W) → Keeps k k' → Keeps k' k'' → Keeps k k''
  Keeps-then k k' k'' a b = record {
    same_count = b.same_count ∙ a.same_count;
    same_started = b.same_started ∙ a.same_started;
    quiet = λ i e. b.quiet i (a.quiet i e);
  }

  -- A feature replaced by one that is not initialised.
  set_feature_same : (k : Kernel I W) (m : ℕ) (f : Feature I) → (set_feature k m f).features m ≡ f
  set_feature_same k m f = (let e : m == m ≡ true = ground arith in rw e refl)

  set_feature-Keeps :
      (k : Kernel I W) (m : ℕ) (f : Feature I)
      → is_init (set_feature k m f) m ≡ false
      → Keeps k (set_feature k m f)
  set_feature-Keeps k m f e = record {
    same_count = refl;
    same_started = refl;
    quiet = λ i not_yet. elim (Bool-cases (i == m)) [
      | inl same ↦ ap (is_init (set_feature k m f)) (==→eq i m same) ∙ e
      | inr other ↦ rw other not_yet
    ];
  }

  -- The first loop ends, with no feature of the array initialised.
  reset_lem :
      (left i : ℕ) (k : Kernel I W)
      → (k' : Kernel I W) × (for_features set_uninit left i k ≡ ok k')
        × Keeps k k'
        × ((j : ℕ) → i ≤ j → j < i + left → is_init k' j ≡ false)
  unfolding for_features
  reset_lem zero i k = (
    k,
    refl,
    record { same_count = refl; same_started = refl; quiet = λ i e. e },
    λ j le lt. absurd (omega arith),
  )
  reset_lem (suc left) i k =
      let here : is_init (set_feature k i (record (k.features i) { state = uninit })) i ≡ false =
        ap (λ f. at_least_init f.state)
          (set_feature_same k i (record (k.features i) { state = uninit })) in
      let k1 = set_feature k i (record (k.features i) { state = uninit }) in
      let first = set_feature-Keeps k i (record (k.features i) { state = uninit }) here in
      let (k', returns, keeps, done) = reset_lem left (i + 1) k1 in
      (
        k',
        returns,
        Keeps-then k k1 k' first keeps,
        λ j le lt. elim (Bool-cases (j == i)) [
          | inl same ↦ keeps.quiet j (ap (is_init k1) (==→eq j i same) ∙ here)
          | inr other ↦ done j (ground arith) (omega arith)
        ],
      )

  resolve_feature-Keeps :
      (k : Kernel I W) (m : ℕ) (k' : Kernel I W) → resolve_feature k m ≡ ok k' → Keeps k k'
  unfolding resolve_feature
  resolve_feature-Keeps k m k' e = elim (Bool-cases (at_least_resolved (k.features m).state)) [
    | inl already ↦
        let same : k ≡ k' = ok_injective k k' (rw already at e) in
        rw (← same) (record { same_count = refl; same_started = refl; quiet = λ i q. q })
    | inr not_yet ↦
        let (req, found, rest) =
          >>=-returns (resolve_prereqs k (k.features m).required) _ (rw not_yet at e) in
        let (aft, found', returns) =
          >>=-returns (resolve_prereqs k (k.features m).load_after) _ rest in
        let f : Feature I = record (k.features m) {
          required = req;
          load_after = aft;
          state = resolved;
        } in
        let same : set_feature k m f ≡ k' = ok_injective (set_feature k m f) k' returns in
        subst (λ k''. Keeps k k'') same
          (set_feature-Keeps k m f (ap (λ g. at_least_init g.state) (set_feature_same k m f)))
  ]
    where
      ok_injective : (a b : Kernel I W) → ok a ≡ ok b → a ≡ b
      ok_injective a b e = cc

  resolve_lem :
      (left i : ℕ) (k k' : Kernel I W) → for_features resolve_feature left i k ≡ ok k' → Keeps k k'
  unfolding for_features
  resolve_lem zero i k k' e =
      subst (λ k''. Keeps k k'') (ok_injective k k' e)
        (record { same_count = refl; same_started = refl; quiet = λ i q. q })
    where
      ok_injective : (a b : Kernel I W) → ok a ≡ ok b → a ≡ b
      ok_injective a b e = cc
  resolve_lem (suc left) i k k' e =
      let (k1, first, rest) = >>=-returns (resolve_feature k i) _ e in
      Keeps-then k k1 k' (resolve_feature-Keeps k i k1 first) (resolve_lem left (i + 1) k1 k' rest)

  -- The first two loops of init_features().
  abbrev pub find_prereqs : Kernel I W → Outcome (Kernel I W)
  find_prereqs k = do
    k ← for_features set_uninit k.count 0 k
    for_features resolve_feature k.count 0 k

  find_prereqs-quiet :
      (k k1 : Kernel I W)
      → find_prereqs k ≡ ok k1
      → (k1.count ≡ k.count)
        × (k1.started ≡ k.started)
        × ((i : ℕ) → i < k.count → is_init k1 i ≡ false)
  find_prereqs-quiet k k1 e =
      let (k', returns, keeps, done) = reset_lem k.count 0 k in
      let second : for_features resolve_feature k'.count 0 k' ≡ ok k1 = rw returns at e in
      let keeps' = resolve_lem k'.count 0 k' k1 second in
      (
        keeps'.same_count ∙ keeps.same_count,
        keeps'.same_started ∙ keeps.same_started,
        λ i lt. keeps'.quiet i (done i (omega arith) (omega arith)),
      )

  -- With nothing started yet, when the prerequisites that the second loop of init_features() finds
  -- include every required feature and have no cycle (some rank below the number of features goes
  -- down along them), and every init function returns something other than 0: init_features() ends
  -- normally with every feature started, each once and after all that it needs or loads after.
  pub init_features-Loaded :
      (run : I → W → Outcome (ℕ × W)) (k k1 : Kernel I W) (rank : ℕ → ℕ)
      → ((f : I) (w : W) → (ret : ℕ) × (w' : W) × (run f w ≡ ok (ret, w')) × (ret ≢ 0))
      → k.started ≡ []
      → find_prereqs k ≡ ok k1
      → IsPlan k1 rank
      → Loaded k1 (init_features run k)
  unfolding init_features
  init_features-Loaded run k k1 rank works none_started found plan =
      let (same_count, same_started, quiet) = find_prereqs-quiet k k1 found in
      let nothing : k1.started ≡ [] = same_started ∙ none_started in
      let inv : Inv k1 k1 = record {
        same_required = λ i. refl;
        same_load_after = λ i. refl;
        in_order = subst (λ l. InOrder k1 l) (sym nothing) tt;
        begun = λ i s. absurd (subst (λ l. IsAmong i l) nothing s);
      } in
      let a =
        loop-Runs k1 rank plan run works k1.count 0 k1 inv
          (λ i lt e. absurd (false-true (is_init k1 i) (quiet i (rw (← same_count) lt)) e))
          (omega arith) in
      record {
        out = a.out;
        returns =
            sym (
              >>=-assoc (for_features set_uninit k.count 0 k)
                (λ k'. for_features resolve_feature k'.count 0 k') last)
            ∙ ap (λ o. o >>= last) found
            ∙ a.returns;
        all = λ i lt. a.wanted i (omega arith, omega arith);
        in_order = a.inv.in_order;
      }
    where
      last : Kernel I W → Outcome (Kernel I W)
      last k' = for_features (init_feature run (k'.count + 1)) k'.count 0 k'

      false-true : (b : Bool) → b ≡ false → b ≡ true → ⊥
      false-true b e f = cc
