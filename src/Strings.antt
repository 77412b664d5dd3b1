-- ===== src/Strings.antt =====
-- utils.c: strlen(), strcmp() and tokenize(), over the bytes of memory from the string on. A read past
-- them is undefined, and the `int` result is its 32-bit pattern.
pub mod Tokens
use mink.Prelude.{
  ℕ, zero, suc, ◌++◌, ◌+◌, ◌-◌, ◌%◌, ◌^◌, ◌<◌, ◌≡◌, ◌⊎◌, ◌↔◌, inl, inr, refl, sym, ap, arith, false,
  ◌&&◌, not, ◌==◌, if◌then◌else◌, List, [], ◌∷◌, Outcome, ok, undefined, ◌>>=◌, Bool-cases, ==→eq,
  length,
}

unfoldable pub strlen : List ℕ → Outcome ℕ
strlen [] = undefined
strlen (c ∷ s) = let rest = strlen s in if c == 0 then ok 0 else (rest >>= λ n. ok (n + 1))

unfoldable pub strcmp : List ℕ → List ℕ → Outcome ℕ
strcmp [] t = undefined
strcmp (c ∷ s) [] = undefined
strcmp (c ∷ s) (d ∷ t) =
    let rest = strcmp s t in
    if not (c == 0) && (c == d) then rest else ok ((c + 2 ^ 32 - d) % 2 ^ 32)

-- The inner part of tokenize(): the bytes that it goes over, of which the last becomes 0 if it is
-- `tok`, and those after.
unfoldable pub skip_token : ℕ → List ℕ → Outcome (List ℕ × List ℕ)
skip_token tok [] = undefined
skip_token tok (b ∷ s) =
    let rest = skip_token tok s in
    if not (b == 0) && not (b == tok)
    then (rest >>= λ (skipped, after). ok (b ∷ skipped, after))
    else if b == tok
    then ok (0 ∷ [], s)
    else ok ([], b ∷ s)

-- The loop of tokenize() at offset `i` of the string, with room for `left` more: the offsets that it
-- stores, of which the result is the number, and the bytes of memory then.
unfoldable pub tokenize_from : ℕ → ℕ → ℕ → List ℕ → Outcome (List ℕ × List ℕ)
tokenize_from zero tok i [] = undefined
tokenize_from zero tok i (b ∷ s) = ok ([], b ∷ s)
tokenize_from (suc left) tok i [] = undefined
tokenize_from (suc left) tok i (b ∷ s) = if b == 0 then ok ([], b ∷ s) else do
  (skipped, after) ← skip_token tok (b ∷ s)
  (out, memory) ← tokenize_from left tok (i + length skipped) after
  ok (i ∷ out, skipped ++ memory)

unfoldable pub tokenize : ℕ → List ℕ → ℕ → Outcome (List ℕ × List ℕ)
tokenize tok s maxout = tokenize_from maxout tok 0 s

-- Bytes with a 0 among them.
abbrev pub IsString : List ℕ → Type 0
IsString [] = ⊥
IsString (c ∷ s) = (c < 256) × ((c ≡ 0) ⊎ IsString s)

-- The bytes before the first 0.
abbrev pub content : List ℕ → List ℕ
content [] = []
content (c ∷ s) = if c == 0 then [] else c ∷ content s

-- strlen() of a string ends with the number of the bytes before its first 0.
strlen_lem : (s : List ℕ) → IsString s → strlen s ≡ ok (length (content s))
unfolding strlen
strlen_lem [] p = absurd p
strlen_lem (c ∷ s) (byte, inl end) = rw end refl
strlen_lem (c ∷ s) (byte, inr p) = elim (Bool-cases (c == 0)) [
  | inl end ↦ rw end refl
  | inr more ↦ rw (more, strlen_lem s p) (ap ok (omega arith))
]

cons_injective : (c : ℕ) (s t : List ℕ) → c ∷ s ≡ c ∷ t → s ≡ t
cons_injective c s t e = cc

heads : (c d : ℕ) (s t : List ℕ) → c ∷ s ≡ d ∷ t → c ≡ d
heads c d s t e = cc

-- strcmp() of two strings ends within them, with 0 exactly when they have the same bytes before
-- their first 0.
pub strcmp_lem :
    (s t : List ℕ)
    → IsString s
    → IsString t
    → (r : ℕ) × (strcmp s t ≡ ok r) × ((r ≡ 0) ↔ (content s ≡ content t))
unfolding strcmp
strcmp_lem [] t p q = absurd p
strcmp_lem (c ∷ s) [] p q = absurd q
strcmp_lem (c ∷ s) (d ∷ t) p q = elim (Bool-cases (c == 0)) [
  | inl end ↦ elim (Bool-cases (d == 0)) [
    | inl end' ↦
        let both : (c + 2 ^ 32 - d) % 2 ^ 32 ≡ 0 = ground arith in
        ((c + 2 ^ 32 - d) % 2 ^ 32, rw end refl, (λ _. rw (end, end') refl, λ _. both))
    | inr more' ↦ (
      (c + 2 ^ 32 - d) % 2 ^ 32,
      rw end refl,
      (λ z. absurd (ground (arith, q.0)), λ e. absurd (shorter (rw (end, more') at e))),
    )
  ]
  | inr more ↦ elim (Bool-cases (c == d)) [
    | inr differ ↦ (
      (c + 2 ^ 32 - d) % 2 ^ 32,
      rw (more, differ) refl,
      (λ z. absurd (ground (arith, p.0, q.0)), λ e. absurd (unlike c d s t more differ e)),
    )
    | inl same ↦
        let d_is : c ≡ d = ==→eq c d same in
        let p' : IsString s = elim p.1 [ inl z ↦ absurd (ground arith) | inr r ↦ r ] in
        let q' : IsString t = elim q.1 [ inl z ↦ absurd (ground arith) | inr r ↦ r ] in
        let (r, returns, decides) = strcmp_lem s t p' q' in
        (
          r,
          rw (more, same, returns) refl,
          (
            λ z. rw (← d_is, more) (ap (λ l. c ∷ l) (decides.0 z)),
            λ e. decides.1 (cons_injective c (content s) (content t) (rw (← d_is, more) at e)),
          ),
        )
  ]
]
  where
    shorter : {x : ℕ} {l : List ℕ} → [] ≡ x ∷ l → ⊥
    shorter e = cc

    unlike :
        (c d : ℕ) (s t : List ℕ)
        → (c == 0) ≡ false
        → (c == d) ≡ false
        → content (c ∷ s) ≡ content (d ∷ t)
        → ⊥
    unlike c d s t more differ e = elim (Bool-cases (d == 0)) [
      | inl end ↦ shorter (sym (rw (more, end) at e))
      | inr more' ↦
          let same = heads c d (content s) (content t) (rw (more, more') at e) in
          absurd (ground (arith, same, differ))
    ]
