-- ===== src/Vgaterm/Cursor.antt =====
-- The cursor stays on the screen, and the screen shows what is in the back buffer.
use mink.Prelude.{
  ℕ, ◌+◌, ◌*◌, ◌<◌, ◌≤◌, ◌≡◌, ◌≢◌, refl, ap, arith, Bool, true, false, ◌&&◌, ◌==◌, ltb, leb,
  if◌then◌else◌, List, [], ◌∷◌, Outcome, ok, undefined, Bool-cases, inl, inr,
}
use mink.Vgaterm.{
  Term, make_vgaentry, terminal_putentryat, terminal_scroll, terminal_update_cursor, print,
  scroll_if_necessary, vgaterm_putchar, vgaterm_writestring, vgaterm_moveto, next_column,
}

pub record IsOnScreen (t : Term) : Type 0 where
  pub column : t.cursor_x < 80
  pub line : t.cursor_y < 25
  pub shown : (i : ℕ) → i < 2000 → t.front i ≡ t.back i

-- `r` is a normal return with the cursor on the screen.
pub record StaysOnScreen (r : Outcome Term) : Type 0 where
  pub out : Term
  pub returns : r ≡ ok out
  pub valid : IsOnScreen out

-- The back buffer with the character at the cursor, unless it is a newline.
abbrev pub written : Term → ℕ → ℕ → ℕ
written t c i =
    if c == 10
    then t.back i
    else if i == t.cursor_y * 80 + t.cursor_x
    then make_vgaentry c t.color
    else t.back i

-- Whether the character is followed by a new line.
abbrev pub ends_line : Term → ℕ → Bool
ends_line t c = if c == 10 then true else t.cursor_x == 79

-- What a character does on a screen: the cursor goes to the next column or the start of the next
-- line; on the last line the screen moves up by one line instead, and a blank line comes in.
pub record Types (t : Term) (c : ℕ) (r : Outcome Term) : Type 0 where
  pub out : Term
  pub returns : r ≡ ok out
  pub valid : IsOnScreen out
  pub column : out.cursor_x ≡ (if ends_line t c then 0 else t.cursor_x + 1)
  pub line :
      out.cursor_y ≡ (if ends_line t c && ltb t.cursor_y 24 then t.cursor_y + 1 else t.cursor_y)
  pub same_color : out.color ≡ t.color
  pub cells :
      (i : ℕ)
      → i < 2000
      → out.back i ≡ (
          if ends_line t c && (t.cursor_y == 24)
          then (if ltb i 1920 then written t c (i + 80) else make_vgaentry 0x20 t.color)
          else written t c i)

-- What is left to do after the character: a screen whose cursor may be one line too low.
record IsPrinted (t : Term) (c : ℕ) (p : Term) : Type 0 where
  pub returns : print t c ≡ ok p
  pub column : p.cursor_x ≡ (if ends_line t c then 0 else t.cursor_x + 1)
  pub line : p.cursor_y ≡ (if ends_line t c then t.cursor_y + 1 else t.cursor_y)
  pub same_color : p.color ≡ t.color
  pub shown : (i : ℕ) → i < 2000 → p.front i ≡ p.back i
  pub cells : (i : ℕ) → p.back i ≡ written t c i

prints : (t : Term) (c : ℕ) → IsOnScreen t → (p : Term) × IsPrinted t c p
unfolding print terminal_putentryat
prints t c s = elim (Bool-cases (c == 10)) [
  | inl newline ↦ (
    record t { cursor_x = 0; cursor_y = t.cursor_y + 1 },
    record {
      returns = rw newline refl;
      column = rw newline refl;
      line = rw newline refl;
      same_color = refl;
      shown = s.shown;
      cells = λ i. rw newline refl;
    },
  )
  | inr letter ↦
      let inside : ltb (t.cursor_y * 80 + t.cursor_x) 2000 ≡ true =
        ground (arith, s.column, s.line) in
      let entry = make_vgaentry c t.color in
      let typed : Term = record t {
        front = λ i. if i == t.cursor_y * 80 + t.cursor_x then entry else t.front i;
        back = λ i. if i == t.cursor_y * 80 + t.cursor_x then entry else t.back i;
      } in
      (
        next_column typed,
        record {
          returns = rw (letter, inside) refl;
          column = ground (arith, letter);
          line = ground (arith, letter);
          same_color = ground arith;
          shown = λ i lt. ground (arith, s.shown i lt);
          cells = λ i. ground (arith, letter);
        },
      )
]

-- With the cursor on the screen and the screen showing the back buffer, vgaterm_putchar() stays
-- inside both buffers and leaves them so; it types the character in the current color and moves the
-- cursor, with a scroll where a line ends on the last one.
pub vgaterm_putchar-Types : (t : Term) (c : ℕ) → IsOnScreen t → Types t c (vgaterm_putchar t c)
unfolding vgaterm_putchar scroll_if_necessary terminal_scroll terminal_update_cursor
vgaterm_putchar-Types t c s =
    let (p, pr) = prints t c s in
    elim (Bool-cases (leb 25 p.cursor_y)) [
      | inr fits ↦ record {
        out = terminal_update_cursor p;
        returns = rw (pr.returns, fits) refl;
        valid = record {
          column = ground (arith, pr.column, s.column);
          line = ground (arith, fits);
          shown = pr.shown;
        };
        column = pr.column;
        line = ground (arith, pr.line, fits, s.line);
        same_color = pr.same_color;
        cells = λ i lt. ground (arith, pr.cells i, pr.line, fits, s.line);
      }
      | inl over ↦
          let last : p.cursor_y ≡ 25 = ground (arith, pr.line, s.line, over) in
          let blank = make_vgaentry 0x20 p.color in
          let ends : ends_line t c ≡ true = ground (arith, pr.line, last, s.line) in
          let bottom : (t.cursor_y == 24) ≡ true = ground (arith, pr.line, last, s.line) in
          let same : make_vgaentry 0x20 p.color ≡ make_vgaentry 0x20 t.color =
            ap (make_vgaentry 0x20) pr.same_color in
          let back : ℕ → ℕ =
            λ i. if ltb i 1920 then p.back (i + 80) else if ltb i 2000 then blank else p.back i in
          record {
            out = terminal_update_cursor (record p {
              back = back;
              front = λ i. if ltb i 2000 then back i else p.front i;
              cursor_y = 24;
            });
            returns = rw (pr.returns, over, last) refl;
            valid = record {
              column = ground (arith, pr.column, s.column);
              line = omega arith;
              shown = λ i lt. ground arith;
            };
            column = pr.column;
            line = ground (arith, pr.line, last, s.line);
            same_color = pr.same_color;
            cells = λ i lt. rw (ends, bottom) (ground (arith, pr.cells (i + 80), same));
          }
    ]

-- vgaterm_writestring() of any string, from a cursor on the screen, stays inside both buffers and
-- ends with the cursor on the screen.
pub vgaterm_writestring-StaysOnScreen :
    (t : Term) (string : List ℕ) → IsOnScreen t → StaysOnScreen (vgaterm_writestring t string)
unfolding vgaterm_writestring
vgaterm_writestring-StaysOnScreen t [] s = record { out = t; returns = refl; valid = s }
vgaterm_writestring-StaysOnScreen t (c ∷ string) s =
    let first = vgaterm_putchar-Types t c s in
    let rest = vgaterm_writestring-StaysOnScreen first.out string first.valid in
    record { out = rest.out; returns = rw first.returns rest.returns; valid = rest.valid }

-- vgaterm_moveto() takes any position: when the line that it is given is not one of the 25, the next
-- character other than a newline is written outside the buffers.
pub vgaterm_moveto-outside :
    (t : Term) (x y c : ℕ) → 25 ≤ y → c ≢ 10 → vgaterm_putchar (vgaterm_moveto t x y) c ≡ undefined
unfolding vgaterm_putchar print terminal_putentryat vgaterm_moveto terminal_update_cursor
vgaterm_moveto-outside t x y c low other =
    let letter : c == 10 ≡ false = ground (arith, other) in
    let outside : ltb (y * 80 + x) 2000 ≡ false = ground (arith, low) in rw (letter, outside) refl
