-- ===== src/Strings/Tokens.antt =====
-- tokenize() against a description of the tokens of a text.
use mink.Prelude.{
  ℕ, zero, suc, ◌+◌, ◌≤◌, ◌≡◌, ◌≢◌, ◌∙◌, refl, sym, ap, arith, Bool, true, false, ◌==◌,
  if◌then◌else◌, List, [], ◌∷◌, ◌++◌, length, Outcome, ok, Bool-cases, inl, inr,
}
use mathlib.Core.List.{append_assoc}
use mink.Strings.{skip_token, tokenize_from, tokenize}

-- Bytes other than 0.
abbrev pub IsText : List ℕ → Type 0
IsText [] = Unit
IsText (b ∷ s) = (b ≢ 0) × IsText s

-- The text with every `tok` replaced by 0.
abbrev pub ended : ℕ → List ℕ → List ℕ
ended tok [] = []
ended tok (b ∷ s) = (if b == tok then 0 else b) ∷ ended tok s

-- The offsets, from `i` on, of the bytes that start the text or come after a `tok`.
abbrev pub starts : ℕ → Bool → ℕ → List ℕ → List ℕ
starts tok first i [] = []
starts tok first i (b ∷ s) =
    if first then i ∷ starts tok (b == tok) (i + 1) s else starts tok (b == tok) (i + 1) s

-- skip_token() ends behind the first `tok`, or at the end of the text.
record Skips (tok i : ℕ) (s rest : List ℕ) (r : Outcome (List ℕ × List ℕ)) : Type 0 where
  skipped : List ℕ
  after : List ℕ
  returns : r ≡ ok (skipped, after ++ 0 ∷ rest)
  memory : ended tok s ≡ skipped ++ ended tok after
  is_text : IsText after
  tokens : starts tok false i s ≡ starts tok true (i + length skipped) after

skip_token-Skips :
    (tok i : ℕ) (s rest : List ℕ)
    → tok ≢ 0
    → IsText s
    → Skips tok i s rest (skip_token tok (s ++ 0 ∷ rest))
unfolding skip_token
skip_token-Skips tok i [] rest some_tok text =
    let not_tok : 0 == tok ≡ false = ground (arith, some_tok) in
    record {
      skipped = [];
      after = [];
      returns = rw not_tok refl;
      memory = refl;
      is_text = tt;
      tokens = refl;
    }
skip_token-Skips tok i (b ∷ s) rest some_tok (some_byte, text) = elim (Bool-cases (b == tok)) [
  | inl at_tok ↦
      let byte : b == 0 ≡ false = ground (arith, some_byte) in
      record {
        skipped = 0 ∷ [];
        after = s;
        returns = rw (byte, at_tok) refl;
        memory = rw at_tok refl;
        is_text = text;
        tokens = rw at_tok refl;
      }
  | inr other ↦
      let byte : b == 0 ≡ false = ground (arith, some_byte) in
      let r = skip_token-Skips tok (i + 1) s rest some_tok text in
      record {
        skipped = b ∷ r.skipped;
        after = r.after;
        returns = rw (byte, other, r.returns) refl;
        memory = rw other (ap (λ l. b ∷ l) r.memory);
        is_text = r.is_text;
        tokens = rw other (r.tokens ∙ ap (λ n. starts tok true n r.after) (omega arith));
      }
]

tokenize_from_lem :
    (left tok i : ℕ) (s rest : List ℕ)
    → tok ≢ 0
    → IsText s
    → length (starts tok true i s) ≤ left
    → tokenize_from left tok i (s ++ 0 ∷ rest) ≡ ok (starts tok true i s, ended tok s ++ 0 ∷ rest)
unfolding tokenize_from
tokenize_from_lem zero tok i [] rest some_tok text enough = refl
tokenize_from_lem zero tok i (b ∷ s) rest some_tok text enough = absurd (omega (arith, enough))
tokenize_from_lem (suc left) tok i [] rest some_tok text enough = refl
tokenize_from_lem (suc left) tok i (b ∷ s) rest some_tok text enough =
    let byte : b == 0 ≡ false = ground (arith, text.0) in
    let r = skip_token-Skips tok i (b ∷ s) rest some_tok text in
    let first : starts tok true i (b ∷ s) ≡ i ∷ starts tok true (i + length r.skipped) r.after =
      ap (λ l. i ∷ l) r.tokens in
    let later =
      tokenize_from_lem left tok (i + length r.skipped) r.after rest some_tok r.is_text
        (omega (arith, ap length first, enough)) in
    let text_is : r.skipped ++ (ended tok r.after ++ 0 ∷ rest) ≡ ended tok (b ∷ s) ++ 0 ∷ rest =
      sym (
        ap (λ l. l ++ 0 ∷ rest) r.memory ∙ append_assoc r.skipped (ended tok r.after) (0 ∷ rest)) in
    rw (byte, r.returns, later, text_is)
      (ap (λ l. ok (l, ended tok (b ∷ s) ++ 0 ∷ rest)) (sym first))

-- For a `tok` other than 0 and a text without 0 that has at most `maxout` tokens (bytes that start the
-- text or come after a `tok`), with a 0 behind it: tokenize() ends, stores the offsets of all the
-- tokens in order, replaces every `tok` of the text by 0 and changes nothing else.
pub tokenize_lem :
    (tok maxout : ℕ) (s rest : List ℕ)
    → tok ≢ 0
    → IsText s
    → length (starts tok true 0 s) ≤ maxout
    → tokenize tok (s ++ 0 ∷ rest) maxout ≡ ok (starts tok true 0 s, ended tok s ++ 0 ∷ rest)
unfolding tokenize
tokenize_lem tok maxout s rest some_tok text enough =
    tokenize_from_lem maxout tok 0 s rest some_tok text enough
