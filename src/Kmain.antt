-- ===== src/Kmain.antt =====
-- kmain.c, as it is built with KDEBUG_ENABLED: the kernel's arguments, and the messages in a box.
-- Features has the rest of kmain.c.
use mink.Prelude.{
  ℕ, ◌*◌, ◌^◌, ◌≡◌, refl, arith, Bool, true, not, ◌==◌, if◌then◌else◌, List, [], ◌∷◌, Outcome, ok,
  ◌>>=◌, inl, inr, bit_or,
}
use mink.Console
use mink.Console.{Consoles}
use mink.Strings.{strcmp, IsString, content}

-- "debug" and "unused", with the 0 at their ends.
abbrev pub debug_text : List ℕ
debug_text = 100 ∷ 101 ∷ 98 ∷ 117 ∷ 103 ∷ 0 ∷ []

abbrev pub unused_text : List ℕ
unused_text = 117 ∷ 110 ∷ 117 ∷ 115 ∷ 101 ∷ 100 ∷ 0 ∷ []

-- process_args(): KDEBUG then. An argument is the bytes of memory from it on.
unfoldable pub process_args : List (List ℕ) → Bool → Outcome Bool
process_args [] kdebug = ok kdebug
process_args (arg ∷ argv) kdebug = do
  r ← strcmp debug_text arg
  let kdebug = if not (r == 0) then true else kdebug
  r' ← strcmp unused_text arg
  process_args argv kdebug

abbrev pub make_color : ℕ → ℕ → ℕ
make_color fg bg = bit_or fg (bg * 2 ^ 4)

-- greybox(): `color` is what a console's getcolor() returns. COLOR_DARK_GREY is 8; strings are without
-- their 0.
unfoldable pub greybox {ℓ} : {C : Type ℓ} → (C → ℕ) → Consoles C → List ℕ → ℕ → Bool → Consoles C
greybox getcolor s msg color newline =
    let oldcol = Console.console_getcolor getcolor s in
    let s = Console.console_setcolor s (make_color 8 0) in
    let s = Console.console_writestring s (91 ∷ []) in
    let s = Console.console_setcolor s color in
    let s = Console.console_writestring s msg in
    let s = Console.console_setcolor s (make_color 8 0) in
    let s = Console.console_writestring s (if newline then 93 ∷ 10 ∷ [] else 93 ∷ []) in
    Console.console_setcolor s oldcol

abbrev pub AreStrings : List (List ℕ) → Type 0
AreStrings [] = Unit
AreStrings (arg ∷ argv) = IsString arg × AreStrings argv

-- Every argument reads "debug".
abbrev pub AreDebug : List (List ℕ) → Type 0
AreDebug [] = Unit
AreDebug (arg ∷ argv) = (content debug_text ≡ content arg) × AreDebug argv

pub debug_text-IsString : IsString debug_text
debug_text-IsString = (
  omega arith,
  inr (
    omega arith,
    inr (omega arith, inr (omega arith, inr (omega arith, inr (omega arith, inl refl)))),
  ),
)
