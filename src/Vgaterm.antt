-- ===== src/Vgaterm.antt =====
-- arch/x86/vgaterm.c: the text screen. A `char` is its byte. The two buffers are functions of the
-- index, and an access from VGA_BUFFSIZE on is undefined.
pub mod Cursor
use mink.Prelude.{
  ℕ, zero, suc, ◌+◌, ◌-◌, ◌*◌, ◌/◌, ◌%◌, ◌^◌, Bool, true, false, ◌&&◌, ◌==◌, ltb, leb,
  if◌then◌else◌, List, [], ◌∷◌, ◌++◌, Outcome, ok, undefined, defined, ◌>>=◌, ◌>>◌, bit_or,
}

abbrev pub vga_width : ℕ
vga_width = 80

abbrev pub vga_height : ℕ
vga_height = 25

abbrev pub vga_buffsize : ℕ
vga_buffsize = vga_width * vga_height

-- The cursor, the color, the two buffers, and the bytes written to ports, the last one last.
pub record Term : Type 0 where
  pub cursor_y : ℕ
  pub cursor_x : ℕ
  pub color : ℕ
  pub front : ℕ → ℕ
  pub back : ℕ → ℕ
  pub ports : List (ℕ × ℕ)

-- A `char` from 128 on is negative, and its conversion to 16 bits keeps the sign.
unfoldable pub make_vgaentry : ℕ → ℕ → ℕ
make_vgaentry c color =
    let c16 = if ltb c 128 then c else 2 ^ 16 - 2 ^ 8 + c in bit_or c16 (color * 2 ^ 8 % 2 ^ 16)

unfoldable pub vgaterm_cls : Term → Term
vgaterm_cls t =
    let blank = make_vgaentry 0x20 t.color in
    let back : ℕ → ℕ = λ i. if ltb i vga_buffsize then blank else t.back i in
    record t { back = back; front = λ i. if ltb i vga_buffsize then back i else t.front i }

unfoldable pub vgaterm_setcolor : Term → ℕ → Term
vgaterm_setcolor t color = record t { color = color }

unfoldable pub vgaterm_getcolor : Term → ℕ
vgaterm_getcolor t = t.color

unfoldable pub terminal_putentryat : Term → ℕ → ℕ → ℕ → ℕ → Outcome Term
terminal_putentryat t c color x y = do
  let index = y * vga_width + x
  let entry = make_vgaentry c color
  defined (ltb index vga_buffsize)
  ok (record t {
    front = λ i. if i == index then entry else t.front i;
    back = λ i. if i == index then entry else t.back i;
  })

-- From a line past the last one: `temp` lines are scrolled out, and more than the screen has would
-- be a copy of a negative size. What the two copies and the fill leave in the buffers.
unfoldable pub terminal_scroll : Term → Outcome Term
terminal_scroll t = do
  let blank = make_vgaentry 0x20 t.color
  let temp = t.cursor_y + 1 - vga_height
  let kept = (vga_height - temp) * vga_width
  let back : ℕ → ℕ = λ i.
      if ltb i kept
      then t.back (i + temp * vga_width)
      else if ltb i (kept + vga_width)
      then blank
      else t.back i
  defined (leb 1 temp && leb temp vga_height)
  ok (record t {
    back = back;
    front = λ i. if ltb i vga_buffsize then back i else t.front i;
    cursor_y = vga_height - 1;
  })

unfoldable pub terminal_update_cursor : Term → Term
terminal_update_cursor t =
    let temp = t.cursor_y * 80 + t.cursor_x in
    record t {
      ports =
          t.ports
          ++ ((0x3d4, 14)
              ∷ (0x3d5, temp / 2 ^ 8 % 2 ^ 8)
              ∷ (0x3d4, 15)
              ∷ (0x3d5, temp % 2 ^ 8)
              ∷ []);
    }

abbrev pub next_column : Term → Term
next_column t =
    if t.cursor_x + 1 == vga_width
    then record t { cursor_x = 0; cursor_y = t.cursor_y + 1 }
    else record t { cursor_x = t.cursor_x + 1 }

-- The character, or the step to a new line.
unfoldable pub print : Term → ℕ → Outcome Term
print t c =
    if c == 10
    then ok (record t { cursor_x = 0; cursor_y = t.cursor_y + 1 })
    else do t ← terminal_putentryat t c t.color t.cursor_x t.cursor_y; ok (next_column t)

unfoldable pub scroll_if_necessary : Term → Outcome Term
scroll_if_necessary t = if leb vga_height t.cursor_y then terminal_scroll t else ok t

unfoldable pub vgaterm_putchar : Term → ℕ → Outcome Term
vgaterm_putchar t c = do t ← print t c; t ← scroll_if_necessary t; ok (terminal_update_cursor t)

-- vgaterm_writestring() of a string without its 0.
unfoldable pub vgaterm_writestring : Term → List ℕ → Outcome Term
vgaterm_writestring t [] = ok t
vgaterm_writestring t (c ∷ rest) = do t ← vgaterm_putchar t c; vgaterm_writestring t rest

unfoldable pub vgaterm_moveto : Term → ℕ → ℕ → Term
vgaterm_moveto t x y = terminal_update_cursor (record t { cursor_y = y; cursor_x = x })

-- vgaterm_init() without the registration of the console.
unfoldable pub vgaterm_init : Term → Term
vgaterm_init t = vgaterm_cls (record t { cursor_y = 0; cursor_x = 0; color = 7 })
