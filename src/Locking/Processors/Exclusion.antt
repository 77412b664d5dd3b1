-- ===== src/Locking/Processors/Exclusion.antt =====
-- What holds in every state that the processors reach.
use mink.Prelude.{
  ℕ, ◌≡◌, ◌≢◌, ◌⊎◌, inl, inr, refl, arith, Bool, true, false, ◌∙◌, sym, ap, ◌==◌, if◌then◌else◌,
  Bool-cases, ==→eq,
}
use mink.Locking.{Spinlock}
use mink.Locking.Processors.{
  Pc, idle, asked, spin, won, inside, freed, Move, ask, disable, cas_lose, cas_win, keep, free_lose,
  free_win, restore, System, update, moved, pick, Steps, here, next, start,
}

-- Between the CAS of spinlock_acquire() and that of spinlock_release().
abbrev pub holds : Pc → Bool
holds (won f) = true
holds (inside f) = true
holds _ = false

-- From disable_interrupts() to the end of spinlock_release().
abbrev pub is_off : Pc → Bool
is_off idle = false
is_off (asked f) = false
is_off _ = true

-- What the place of a processor says of the lock.
abbrev IsKept : Spinlock → Pc → Type 0
IsKept l (inside f) = l.interrupts ≡ f
IsKept l _ = Unit

-- At most one processor holds the lock, some one does exactly when its value is 1, and the interrupts
-- of a processor are off while it waits for the lock, holds it or gives it back. The lock keeps the
-- interrupt state of the one that is inside.
pub record Excludes (s : System) : Type 0 where
  pub value : (s.lock.val ≡ 0) ⊎ (s.lock.val ≡ 1)
  pub held : (i : ℕ) → holds (s.pc i) ≡ true → s.lock.val ≡ 1
  pub owned : s.lock.val ≡ 1 → (i : ℕ) × (holds (s.pc i) ≡ true)
  pub unique : (i j : ℕ) → holds (s.pc i) ≡ true → holds (s.pc j) ≡ true → i ≡ j
  pub off : (i : ℕ) → is_off (s.pc i) ≡ true → s.enabled i ≡ false
  pub kept : (i : ℕ) → IsKept s.lock (s.pc i)

start-Excludes : (enabled : ℕ → Bool) → Excludes (start enabled)
start-Excludes enabled = record {
  value = inl refl;
  held = λ i h. ground (arith, h);
  owned = λ e. absurd (omega (arith, e));
  unique = λ i j h h'. ground (arith, h);
  off = λ i h. ground (arith, h);
  kept = λ i. tt;
}

IsKept-outside : (l : Spinlock) (p : Pc) → holds p ≡ false → IsKept l p
IsKept-outside l idle e = tt
IsKept-outside l (asked f) e = tt
IsKept-outside l (spin f) e = tt
IsKept-outside l (won f) e = tt
IsKept-outside l (inside f) e = absurd (false-true (sym e))
  where
    false-true : false ≡ true → ⊥
    false-true h = cc
IsKept-outside l (freed f) e = tt

module _ (s : System) (inv : Excludes s) (i : ℕ) where
  false-true : false ≡ true → ⊥
  false-true h = cc

  still_off : {p : Pc} {e : Bool} → s.pc i ≡ p → s.enabled i ≡ e → is_off p ≡ true → e ≡ false
  still_off at_p at_e h = sym at_e ∙ inv.off i (ap is_off at_p ∙ h)

  -- The processors other than `i` that hold the lock, when none does.
  others_outside :
      ((j : ℕ) → holds (s.pc j) ≡ true → j ≡ i) → (j : ℕ) → j ≢ i → holds (s.pc j) ≡ false
  others_outside only j other = elim (Bool-cases (holds (s.pc j))) [
    | inl h ↦ absurd (other (only j h))
    | inr out ↦ out
  ]

  off_after :
      (p' : Pc) (e' : Bool)
      → (is_off p' ≡ true → e' ≡ false)
      → (j : ℕ) → is_off (update s.pc i p' j) ≡ true
      → update s.enabled i e' j ≡ false
  off_after p' e' off j h = elim (Bool-cases (j == i)) [
    | inl this ↦ rw this (off (rw this at h))
    | inr other ↦ rw other (inv.off j (rw other at h))
  ]

  IsKept-update :
      (p' : Pc) (l : Spinlock)
      → IsKept l p'
      → ((j : ℕ) → j ≢ i → IsKept l (s.pc j))
      → (j : ℕ) → IsKept l (update s.pc i p' j)
  IsKept-update p' l own others j = elim (Bool-cases (j == i)) [
    | inl this ↦ rw this own
    | inr other ↦ rw other (others j (ground (arith, other)))
  ]

  -- Of a move that leaves the value of the lock, and who holds it.
  quiet :
      (p p' : Pc) (e' : Bool) (l : Spinlock)
      → s.pc i ≡ p
      → holds p' ≡ holds p
      → l.val ≡ s.lock.val
      → (is_off p' ≡ true → e' ≡ false)
      → IsKept l p'
      → ((j : ℕ) → j ≢ i → IsKept l (s.pc j))
      → Excludes (moved s i l p' e')
  quiet p p' e' l at_p same_holds same_val off own others = record {
    value = rw same_val inv.value;
    held = λ j h. same_val ∙ inv.held j (before j h);
    owned = λ v. (let (k, h) = inv.owned (sym same_val ∙ v) in (k, after k h));
    unique = λ j k h h'. inv.unique j k (before j h) (before k h');
    off = off_after p' e' off;
    kept = IsKept-update p' l own others;
  }
    where
      same : (j : ℕ) → holds (update s.pc i p' j) ≡ holds (s.pc j)
      same j = elim (Bool-cases (j == i)) [
        | inl this ↦
            rw this
              (same_holds ∙ ap holds (sym at_p) ∙ ap (λ k. holds (s.pc k)) (sym (==→eq j i this)))
        | inr other ↦ rw other refl
      ]

      before : (j : ℕ) → holds (update s.pc i p' j) ≡ true → holds (s.pc j) ≡ true
      before j h = sym (same j) ∙ h

      after : (j : ℕ) → holds (s.pc j) ≡ true → holds (update s.pc i p' j) ≡ true
      after j h = same j ∙ h

  Move-Excludes :
      {p p' : Pc} {e e' : Bool} {l : Spinlock}
      → s.pc i ≡ p
      → s.enabled i ≡ e
      → Move s.lock p e l p' e'
      → Excludes (moved s i l p' e')
  Move-Excludes at_p at_e (ask {e}) =
      quiet idle (asked e) e s.lock at_p refl refl (λ h. absurd (false-true h)) tt
        (λ j o. inv.kept j)
  Move-Excludes at_p at_e (disable {f} {e}) =
      quiet (asked f) (spin f) false s.lock at_p refl refl (λ h. refl) tt (λ j o. inv.kept j)
  Move-Excludes at_p at_e (cas_lose {f} {e} taken) =
      quiet (spin f) (spin f) e s.lock at_p refl refl (λ h. still_off at_p at_e h) tt
        (λ j o. inv.kept j)
  Move-Excludes at_p at_e (cas_win {f} {e} free) = record {
    value = inr refl;
    held = λ j h. refl;
    owned = λ v. (i, (let same : i == i ≡ true = ground arith in rw same refl));
    unique = λ j k h h'. alone j h ∙ sym (alone k h');
    off = off_after (won f) e (λ h. still_off at_p at_e refl);
    kept =
        IsKept-update (won f) (record s.lock { val = 1 }) tt
          (λ j other. IsKept-outside (record s.lock { val = 1 }) (s.pc j) (outside j));
  }
    where
      outside : (j : ℕ) → holds (s.pc j) ≡ false
      outside j = elim (Bool-cases (holds (s.pc j))) [
        | inl h ↦ absurd (omega (arith, inv.held j h, free))
        | inr out ↦ out
      ]

      alone : (j : ℕ) → holds (update s.pc i (won f) j) ≡ true → j ≡ i
      alone j h = elim (Bool-cases (j == i)) [
        | inl this ↦ ==→eq j i this
        | inr other ↦ absurd (false-true (sym (outside j) ∙ (rw other at h)))
      ]
  Move-Excludes at_p at_e (keep {f} {e}) =
      quiet (won f) (inside f) e (record s.lock { interrupts = f }) at_p refl refl
        (λ h. still_off at_p at_e refl) refl
        (λ j other.
          IsKept-outside (record s.lock { interrupts = f }) (s.pc j)
            (others_outside (λ k h. inv.unique k i h (ap holds at_p)) j other))
  Move-Excludes at_p at_e (free_lose {f} {e} taken) = absurd (taken (inv.held i (ap holds at_p)))
  Move-Excludes at_p at_e (free_win {f} {e} free) = record {
    value = inl refl;
    held = λ j h. absurd (none_left j h);
    owned = λ v. absurd (omega (arith, v));
    unique = λ j k h h'. absurd (none_left j h);
    off = off_after (freed f) e (λ h. still_off at_p at_e refl);
    kept =
        IsKept-update (freed f) (record s.lock { val = 0 }) tt
          (λ j other. IsKept-outside (record s.lock { val = 0 }) (s.pc j) (outside j other));
  }
    where
      outside : (j : ℕ) → j ≢ i → holds (s.pc j) ≡ false
      outside = others_outside (λ k h. inv.unique k i h (ap holds at_p))

      none_left : (j : ℕ) → holds (update s.pc i (freed f) j) ≡ true → ⊥
      none_left j h = elim (Bool-cases (j == i)) [
        | inl this ↦ false-true (rw this at h)
        | inr other ↦ false-true (sym (outside j (ground (arith, other))) ∙ (rw other at h))
      ]
  Move-Excludes at_p at_e (restore {f} {e}) =
      quiet (freed f) idle (if s.lock.interrupts then true else e) s.lock at_p refl refl
        (λ h. absurd (false-true h)) tt (λ j o. inv.kept j)

-- From spinlock_init() on, with any number of processors in any order: at most one is between its CAS
-- in spinlock_acquire() and that in spinlock_release(), the value of the lock is 1 exactly while one
-- is, the interrupts of a processor are off from disable_interrupts() to the end of
-- spinlock_release(), and the lock keeps the interrupt state of the processor that is inside.
pub Steps-Excludes : (enabled : ℕ → Bool) (s : System) → Steps (start enabled) s → Excludes s
Steps-Excludes enabled s here = start-Excludes enabled
Steps-Excludes enabled s (next steps (pick i at_p at_e move)) =
    Move-Excludes _ (Steps-Excludes enabled _ steps) i at_p at_e move
