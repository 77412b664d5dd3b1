-- ===== src/Tests/Screens.antt =====
-- The text screen, the consoles and the segment descriptors at concrete inputs.
use mink.Prelude.{ℕ, ◌≡◌, refl, arith, [], ◌∷◌, undefined}
use mink.Console.{Consoles}
use mink.Vgaterm
use mink.Vgaterm.{Term}
use mink.Vgaterm.Cursor.{
  IsOnScreen, StaysOnScreen, Types, vgaterm_putchar-Types, vgaterm_writestring-StaysOnScreen,
  vgaterm_moveto-outside,
}

-- The last cell of a screen of spaces.
abbrev pub full_screen : Term
full_screen = record {
  cursor_y = 24;
  cursor_x = 79;
  color = 7;
  front = λ i. 0x720;
  back = λ i. 0x720;
  ports = [];
}

full_screen-IsOnScreen : IsOnScreen full_screen
full_screen-IsOnScreen = record { column = omega arith; line = omega arith; shown = λ i lt. refl }

vgaterm_putchar-Types_example : Types full_screen 65 (Vgaterm.vgaterm_putchar full_screen 65)
vgaterm_putchar-Types_example = vgaterm_putchar-Types full_screen 65 full_screen-IsOnScreen

vgaterm_writestring-StaysOnScreen_example :
    StaysOnScreen (Vgaterm.vgaterm_writestring full_screen (65 ∷ 10 ∷ 66 ∷ []))
vgaterm_writestring-StaysOnScreen_example =
    vgaterm_writestring-StaysOnScreen full_screen (65 ∷ 10 ∷ 66 ∷ []) full_screen-IsOnScreen

vgaterm_moveto-outside_example :
    Vgaterm.vgaterm_putchar (Vgaterm.vgaterm_moveto full_screen 0 30) 65 ≡ undefined
vgaterm_moveto-outside_example =
    vgaterm_moveto-outside full_screen 0 30 65 (omega arith) (λ e. omega arith)

abbrev two_consoles : Consoles ℕ
two_consoles = record { cons = 1 ∷ 2 ∷ []; calls = [] }
