-- ===== src/Features/Order.antt =====
-- What it means that features are started in the order of their prerequisites.
use mink.Prelude.{
  ℕ, ◌<◌, ◌≡◌, ◌⊎◌, inl, inr, refl, Bool, true, List, [], ◌∷◌, some, Outcome, ok, ◌>>=◌, ◌∙◌,
}
use mink.Features.{FeaturePrereq, Kernel, at_least_init}

abbrev pub IsAmong : ℕ → List ℕ → Type 0
IsAmong i [] = ⊥
IsAmong i (x ∷ l) = (i ≡ x) ⊎ IsAmong i l

-- A prerequisite of the list is feature `j`.
abbrev pub Names : List FeaturePrereq → ℕ → Type 0
Names [] j = ⊥
Names (p ∷ ps) j = (p.feature ≡ some j) ⊎ Names ps j

-- Every prerequisite of the list was found.
abbrev pub AllFound : List FeaturePrereq → Type 0
AllFound [] = Unit
AllFound (p ∷ ps) = ((j : ℕ) × (p.feature ≡ some j)) × AllFound ps

module _ {I W : Type 0} where
  abbrev pub Needs : Kernel I W → ℕ → ℕ → Type 0
  Needs k m j = Names (k.features m).required j ⊎ Names (k.features m).load_after j

  abbrev pub is_init : Kernel I W → ℕ → Bool
  is_init k i = at_least_init (k.features i).state

  -- Features started, the last one first: each once, and after all that it needs.
  abbrev pub InOrder : Kernel I W → List ℕ → Type 0
  InOrder k [] = Unit
  InOrder k (m ∷ l) = (IsAmong m l → ⊥) × ((j : ℕ) → Needs k m j → IsAmong j l) × InOrder k l

  -- Every required feature exists, and needs go from a higher rank to a lower one.
  pub record IsPlan (k : Kernel I W) (rank : ℕ → ℕ) : Type 0 where
    pub found : (m : ℕ) → m < k.count → AllFound (k.features m).required
    pub inside : (m j : ℕ) → m < k.count → Needs k m j → j < k.count
    pub lower : (m j : ℕ) → m < k.count → Needs k m j → rank j < rank m
    pub few : (m : ℕ) → m < k.count → rank m < k.count

  -- The prerequisites are those of `k0`, and the started features are initialised and in order.
  pub record Inv (k0 k : Kernel I W) : Type 0 where
    pub same_required : (i : ℕ) → (k.features i).required ≡ (k0.features i).required
    pub same_load_after : (i : ℕ) → (k.features i).load_after ≡ (k0.features i).load_after
    pub in_order : InOrder k0 k.started
    pub begun : (i : ℕ) → IsAmong i k.started → is_init k i ≡ true

  -- `r` returns from `k` with the wanted features started; what is newly initialised is started.
  pub record Runs (k0 k : Kernel I W) (Wanted : ℕ → Type 0) (r : Outcome (Kernel I W))
      : Type 0 where
    pub out : Kernel I W
    pub returns : r ≡ ok out
    pub inv : Inv k0 out
    pub wanted : (j : ℕ) → Wanted j → IsAmong j out.started
    pub kept : (i : ℕ) → IsAmong i k.started → IsAmong i out.started
    pub kept_init : (i : ℕ) → is_init k i ≡ true → is_init out i ≡ true
    pub finished : (i : ℕ) → is_init out i ≡ true → IsAmong i out.started ⊎ (is_init k i ≡ true)
    pub fresh : (i : ℕ) → IsAmong i out.started → is_init k i ≡ true → IsAmong i k.started

  pub nothing-Runs :
      (k0 k : Kernel I W) (Wanted : ℕ → Type 0)
      → Inv k0 k
      → ((j : ℕ) → Wanted j → IsAmong j k.started)
      → Runs k0 k Wanted (ok k)
  nothing-Runs k0 k Wanted inv wanted = record {
    out = k;
    returns = refl;
    inv = inv;
    wanted = wanted;
    kept = λ i a. a;
    kept_init = λ i e. e;
    finished = λ i e. inr e;
    fresh = λ i a e. a;
  }

  -- One run after another.
  pub then-Runs :
      (k0 k : Kernel I W) (Wanted Wanted' : ℕ → Type 0) (r : Outcome (Kernel I W))
      (f : Kernel I W → Outcome (Kernel I W)) (a : Runs k0 k Wanted r)
      → Runs k0 a.out Wanted' (f a.out)
      → Runs k0 k (λ j. Wanted j ⊎ Wanted' j) (r >>= f)
  then-Runs k0 k Wanted Wanted' r f a b = record {
    out = b.out;
    returns = rw a.returns b.returns;
    inv = b.inv;
    wanted = λ j. elim [ inl w ↦ b.kept j (a.wanted j w) | inr w ↦ b.wanted j w ];
    kept = λ i s. b.kept i (a.kept i s);
    kept_init = λ i e. b.kept_init i (a.kept_init i e);
    finished = λ i e. elim (b.finished i e) [
      | inl s ↦ inl s
      | inr e' ↦ elim (a.finished i e') [ inl s ↦ inl (b.kept i s) | inr e'' ↦ inr e'' ]
    ];
    fresh = λ i s e. a.fresh i (b.fresh i s (a.kept_init i e)) e;
  }

  -- The same result by another name, with less wanted of it.
  pub weaken-Runs :
      (k0 k : Kernel I W) (Wanted Wanted' : ℕ → Type 0) (r r' : Outcome (Kernel I W))
      → r' ≡ r
      → ((j : ℕ) → Wanted' j → Wanted j)
      → Runs k0 k Wanted r
      → Runs k0 k Wanted' r'
  weaken-Runs k0 k Wanted Wanted' r r' e h a = record {
    out = a.out;
    returns = e ∙ a.returns;
    inv = a.inv;
    wanted = λ j w. a.wanted j (h j w);
    kept = a.kept;
    kept_init = a.kept_init;
    finished = a.finished;
    fresh = a.fresh;
  }
