-- ===== src/Features.antt =====
-- kmain.c: the loading of features. The features between __start_features and __stop_features are
-- an array of `count`, and a pointer to one is its index. A feature's init function is a value of
-- any type `I`; `run` is what calling it does to the rest of the kernel, a value of any type `W`:
-- it returns an `int`. A prerequisite list that is NULL is empty. Of what is printed the model keeps
-- `started`: the features announced by "Starting ...", the last one first.
pub mod Order
pub mod Load
pub mod Init
use mink.Prelude.{
  ℕ, zero, suc, ◌+◌, Bool, true, false, ◌==◌, if◌then◌else◌, List, [], ◌∷◌, Option, none, some,
  Outcome, ok, panicked, undefined, ◌>>=◌,
}
use mink.Strings.{strcmp}

-- enum feature_state
pub data FeatureState : Type 0 where
  uninit resolved initialised : FeatureState

-- state >= FEATURE_RESOLVED and state >= FEATURE_INIT
abbrev pub at_least_resolved : FeatureState → Bool
at_least_resolved uninit = false
at_least_resolved resolved = true
at_least_resolved initialised = true

abbrev pub at_least_init : FeatureState → Bool
at_least_init uninit = false
at_least_init resolved = false
at_least_init initialised = true

-- `name` is the bytes of memory from the name on.
pub record FeaturePrereq : Type 0 where
  pub name : List ℕ
  pub feature : Option ℕ

pub record Feature (I : Type 0) : Type 0 where
  pub name : List ℕ
  pub required : List FeaturePrereq
  pub load_after : List FeaturePrereq
  pub init : Option I
  pub state : FeatureState

pub record Kernel (I W : Type 0) : Type 0 where
  pub features : ℕ → Feature I
  pub count : ℕ
  pub world : W
  pub started : List ℕ

module _ {I : Type 0} where
  -- The loop of find_feature() at feature `i`, with `left` to go.
  unfoldable pub find_feature_from : (ℕ → Feature I) → List ℕ → ℕ → ℕ → Outcome (Option ℕ)
  find_feature_from features name zero i = ok none
  find_feature_from features name (suc left) i =
      let rest = find_feature_from features name left (i + 1) in
      do differ ← strcmp name (features i).name; if differ == 0 then ok (some i) else rest

module _ {I W : Type 0} where
  abbrev pub set_feature : Kernel I W → ℕ → Feature I → Kernel I W
  set_feature k m f = record k { features = λ i. if i == m then f else k.features i }

  unfoldable pub find_feature : Kernel I W → List ℕ → Outcome (Option ℕ)
  find_feature k name = find_feature_from k.features name k.count 0

  unfoldable pub resolve_prereqs : Kernel I W → List FeaturePrereq → Outcome (List FeaturePrereq)
  resolve_prereqs k [] = ok []
  resolve_prereqs k (p ∷ ps) = do
    found ← find_feature k p.name
    rest ← resolve_prereqs k ps
    ok (record p { feature = found } ∷ rest)

  unfoldable pub resolve_feature : Kernel I W → ℕ → Outcome (Kernel I W)
  resolve_feature k m = if at_least_resolved (k.features m).state then ok k else do
    required ← resolve_prereqs k (k.features m).required
    load_after ← resolve_prereqs k (k.features m).load_after
    ok (
        set_feature k m (record (k.features m) {
          required = required;
          load_after = load_after;
          state = resolved;
        }))

  -- The two loops of init_feature() over the prerequisites, with init_feature() itself as `again`.
  unfoldable pub init_required :
      (Kernel I W → ℕ → Outcome (Kernel I W))
      → Kernel I W
      → List FeaturePrereq
      → Outcome (Kernel I W)
  init_required again k [] = ok k
  init_required again k (p ∷ ps) = elim p.feature [
    | none ↦ panicked
    | some m ↦ do k ← again k m; init_required again k ps
  ]

  unfoldable pub init_after :
      (Kernel I W → ℕ → Outcome (Kernel I W))
      → Kernel I W
      → List FeaturePrereq
      → Outcome (Kernel I W)
  init_after again k [] = ok k
  init_after again k (p ∷ ps) = elim p.feature [
    | none ↦ init_after again k ps
    | some m ↦ do k ← again k m; init_after again k ps
  ]

  -- for each feature from `i` on, with `left` to go
  unfoldable pub for_features :
      (Kernel I W → ℕ → Outcome (Kernel I W)) → ℕ → ℕ → Kernel I W → Outcome (Kernel I W)
  for_features f zero i k = ok k
  for_features f (suc left) i k = do k ← f k i; for_features f left (i + 1) k

  abbrev pub set_uninit : Kernel I W → ℕ → Outcome (Kernel I W)
  set_uninit k m = ok (set_feature k m (record (k.features m) { state = uninit }))

  module _ (run : I → W → Outcome (ℕ × W)) where
    -- The end of init_feature(): the message and the call.
    unfoldable pub start_feature : Kernel I W → ℕ → Outcome (Kernel I W)
    start_feature k m =
        let k' : Kernel I W = record k { started = m ∷ k.started } in
        elim (k.features m).init [
          | none ↦ ok k'
          | some init ↦ do
            (ret, world) ← run init k.world
            if ret == 0 then panicked else ok (record k' { world = world })
        ]

    -- The C function recurs without a bound: out of fuel is `undefined`.
    unfoldable pub init_feature : ℕ → Kernel I W → ℕ → Outcome (Kernel I W)
    init_feature zero k m = undefined
    init_feature (suc fuel) k m =
        let again = init_feature fuel in
        if at_least_init (k.features m).state then ok k else do
          let f = k.features m
          k ← init_required again (set_feature k m (record f { state = initialised })) f.required
          k ← init_after again k f.load_after
          start_feature k m

    unfoldable pub init_features : Kernel I W → Outcome (Kernel I W)
    init_features k = do
      k ← for_features set_uninit k.count 0 k
      k ← for_features resolve_feature k.count 0 k
      for_features (init_feature (k.count + 1)) k.count 0 k
