-- ===== src/Console.antt =====
-- The text console (kernel/dev/console.cpp): characters drawn on the framebuffer at a cursor, with a
-- copy of the screen that scrolling goes through.
pub mod Cursor
pub mod Printing
pub mod Pixels
pub mod Safety
pub mod Scrolling
pub mod Glyph
pub mod Output
mod Tests
use nokernel.Prelude.{
  ℕ, zero, suc, ◌+◌, ◌-◌, ◌*◌, ◌/◌, ◌%◌, ◌^◌, Bool, true, false, not, ltb, ◌==◌, List, [], ◌∷◌,
  if◌then◌else◌, bit_and, bit_or,
}
use nokernel.Outcome.{Outcome, ok, ◌>>=◌}
use nokernel.Word.{u8, u16, u32, sub32, ◌<<◌, ◌>>◌}
use nokernel.Memory.{Bytes}
use nokernel.Font.{Font, row_start}
use nokernel.Heap.Calls
use nokernel.Heap.Calls.{Mapper}
use nokernel.Screen.{Framebuffer, draw, fill, get_height, get_width, copy, clone}

pub record Console : Type 0 where
  pub fb : Framebuffer
  pub fb_shadow : Framebuffer
  pub font : Font
  pub background_color : ℕ
  pub foreground_color : ℕ
  pub x : ℕ
  pub y : ℕ

-- The constructor; the colours and the cursor have initial values in the class.
unfoldable pub new_console :
    (m : Mapper)
    → Framebuffer
    → Font
    → Calls.System m
    → Bytes
    → Outcome (Console × (Calls.System m × Bytes))
new_console m fb font s bytes = clone m fb s bytes >>= λ (shadow, after). ok (
  record {
    fb = fb;
    fb_shadow = shadow;
    font = font;
    background_color = 0;
    foreground_color = 0xffff_ffff;
    x = 0;
    y = 0;
  },
  after,
)

-- The object, and the bytes of the memory.
abbrev pub State : Type 0
State = Console × Bytes

unfoldable pub scroll : State → State
scroll (c, m) =
    let offset = u32 (u32 (c.fb.descriptor.pitch * c.font.cell_height) * 4) in
    let saved = (copy c.fb c.fb_shadow offset m).1 in
    let filled = fill c.fb c.background_color saved in
    let back = (copy c.fb_shadow c.fb 0 filled).1 in
    (record c { y = sub32 c.y c.font.cell_height }, back)

-- The test of `newline` and of `print_char`: the line at the cursor is below the screen.
abbrev pub below_screen : Console → Bool
below_screen c =
    ltb (get_height c.fb / c.font.cell_height) (u32 (c.y + c.font.cell_height) / c.font.cell_height)

unfoldable pub newline : State → State
newline (c, m) =
    let start = record c { x = 0 } in
    if below_screen start
    then scroll (start, m)
    else (record start { y = u32 (c.y + c.font.cell_height) }, m)

-- The loop over `gx`: `count` pixels of a line are left. The source shifts by 15 - gx, which C leaves
-- undefined for a cell that is wider than 16 pixels; here a shift out of range gives 0.
unfoldable pub draw_row : Console → ℕ → ℕ → ℕ → ℕ → Bytes → Bytes
draw_row c bits gy gx zero m = m
draw_row c bits gy gx (suc count) m = draw_row c bits gy (gx + 1) count (
    if bit_and (bits >> sub32 15 gx) 1 == 1
    then draw c.fb (u32 (gx + c.x)) (u32 (gy + c.y)) c.foreground_color m
    else m)

-- The loop over `gy`: `count` lines of the character are left.
unfoldable pub draw_rows : Console → ℕ → ℕ → ℕ → Bytes → Bytes
draw_rows c ch gy zero m = m
draw_rows c ch gy (suc count) m =
    let start = row_start c.font ch gy in
    let bits = u16 (bit_or (m start << 8) (m (start + 1))) in
    draw_rows c ch (gy + 1) count (draw_row c bits gy 0 c.font.cell_width m)

abbrev pub draw_glyph : State → ℕ → State
draw_glyph (c, m) ch = (c, draw_rows c (u8 ch) 0 c.font.cell_height m)

-- What follows the drawing.
unfoldable pub step_right : State → State
step_right (c, m) =
    let next = record c { x = u32 (c.x + c.font.cell_width) } in
    if ltb (get_width c.fb / c.font.cell_width) (next.x / c.font.cell_width)
    then newline (next, m)
    else (next, m)

unfoldable pub print_char : ℕ → State → State
print_char ch s =
    if ch == 10
    then newline s
    else step_right (draw_glyph (if below_screen s.0 then scroll s else s) ch)

unfoldable pub clear : State → State
clear (c, m) = (
  record c { x = 0; y = 0 },
  fill c.fb_shadow c.background_color (fill c.fb c.background_color m),
)

-- A string without its last zero.
unfoldable pub print : List ℕ → State → State
print [] s = s
print (ch ∷ str) s = print str (print_char ch s)

unfoldable pub set_bg_color : ℕ → Console → Console
set_bg_color color c = record c { background_color = color }

unfoldable pub set_fg_color : ℕ → Console → Console
set_fg_color color c = record c { foreground_color = color }
