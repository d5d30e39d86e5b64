-- ===== src/Console/Tests.antt =====
-- Runs of the console (kernel/dev/console.cpp) on a screen of two cells by two.
use nokernel.Prelude.{
  ℕ, zero, suc, ◌+◌, ◌<◌, ◌≡◌, refl, inl, inr, true, List, [], ◌∷◌, length, some, if◌then◌else◌,
  arith, characters,
}
use nokernel.Outcome.{ok, ◌>>=◌}
use nokernel.Word.{u32}
use nokernel.Boot.{FramebufferInfo}
use nokernel.Memory.{Bytes}
use nokernel.Font.{Font, row_start}
use nokernel.Printf.Format.{word}
use nokernel.Printf.Loop.{text_of}
use nokernel.Screen.{Framebuffer}
use nokernel.Screen.Draw.{byte_of}
use nokernel.Console.{Console, print, print_char, newline, scroll, draw_rows}
use nokernel.Console.Cursor.{Place, IsConsole, IsInside, placed, advance_all, print-advance_all}
use nokernel.Console.Pixels.{IsDrawable, Outside}
use nokernel.Console.Safety.{print-Outside}
use nokernel.Console.Glyph.{lit, line_bits, draw_rows-lit}
use nokernel.Console.Scrolling.{scroll-moved}
use nokernel.Console.Output.{Terminal, kvprintf}
use nokernel.Console.Printing.{visible, shown, kvprintf-shown}

abbrev pixels : ℕ → FramebufferInfo
pixels base = record { base = base; size = 64; width = 4; height = 4; pitch = 4; format = 0 }

abbrev cells : Font
cells = record {
  bmp_data_segment_offsetted = 0x3000;
  bmp_data_segment_size = 128;
  bmp_image_width = 32;
  bmp_image_height = 32;
  cell_width = 2;
  cell_height = 2;
  bits_per_pixel = 1;
  stride = 4;
  cells_per_x_axis = 16;
  cells_per_y_axis = 16;
  total_cells = 256;
}

abbrev small : Console
small = record {
  fb = record { descriptor = pixels 0x1000; fb = 0x1000 };
  fb_shadow = record { descriptor = pixels 0x2000; fb = 0x2000 };
  font = cells;
  background_color = 0;
  foreground_color = 0xff00_ff00;
  x = 0;
  y = 0;
}

-- Every line of every character has the bits 11000000 11000000.
abbrev lines : Bytes
lines = λ _. 0xc0

small-IsConsole : IsConsole small
small-IsConsole = record {
  wide = omega arith;
  high = omega arith;
  one_row = omega arith;
  width_bound = omega arith;
  height_bound = omega arith;
}

small-IsDrawable : IsDrawable small
small-IsDrawable = record {
  screen = record { room = omega arith; small = omega arith; at_base = refl };
  line = omega arith;
  countable = omega arith;
  shown = omega arith;
  height_bound = omega arith;
  size_bound = omega arith;
  shadow_at_base = refl;
  same_size = refl;
}

abbrev start : Place
start = record { column = 0; row = 1 }

start-IsInside : IsInside 2 2 start
start-IsInside = record { column_bound = omega arith; row_bound = omega arith }

abbrev message : List ℕ
message = characters "ABC\nD"

advance_all_run : advance_all 2 2 message start ≡ (record { column = 1; row = 1 })
advance_all_run = refl

-- At the bottom, two line breaks in a row leave no empty line between what stands around them.
two_breaks_run : advance_all 2 2 (characters "\n\n") start ≡ start
two_breaks_run = refl

print-advance_all_example :
    ((print message (placed small start, lines)).0 ≡ placed small (advance_all 2 2 message start))
    × IsInside 2 2 (advance_all 2 2 message start)
print-advance_all_example =
    print-advance_all small small-IsConsole message start lines start-IsInside

print-Outside_example : (print message (placed small start, lines)).1 0x1048 ≡ 0xc0
print-Outside_example =
    print-Outside small small-IsDrawable 0x1048 (inr (omega arith), inl (omega arith))
      small-IsConsole message start lines start-IsInside

-- The third column is drawn behind the screen: two bytes after its last one is the green of a pixel.
behind_run : (print_char 65 (placed small (record { column = 2; row = 1 }), lines)).1 0x1041 ≡ 0xff
unfolding print_char nokernel.Console.draw_rows nokernel.Console.draw_row
    nokernel.Console.step_right nokernel.Console.newline row_start nokernel.Screen.draw
    nokernel.Screen.get_width nokernel.Screen.get_height nokernel.Memory.write32
    nokernel.Memory.write
behind_run = refl

font_apart :
    (g : ℕ)
    → g < 2
    → Outside small (row_start cells 65 g) × Outside small (row_start cells 65 g + 1)
unfolding row_start
font_apart zero h = ((inr (omega arith), inr (omega arith)), (inr (omega arith), inr (omega arith)))
font_apart (suc zero) h =
    ((inr (omega arith), inr (omega arith)), (inr (omega arith), inr (omega arith)))
font_apart (suc (suc g)) h = absurd (omega arith)

draw_rows-lit_example :
    draw_rows (placed small start) 65 0 2 lines 0x1035
    ≡ (if lit (line_bits small 65 1 lines) 1 then byte_of 0xff00_ff00 1 else 0xc0)
draw_rows-lit_example =
    draw_rows-lit small small-IsDrawable 0 2 (omega arith, omega arith) (omega arith) 65 font_apart
      2 0 1 lines 0x1035 (omega arith) (omega arith) (omega arith) (omega arith) (omega arith)

scroll-moved_example :
    let after = (scroll (small, lines)).1 in
    (after (0x1000 + 3) ≡ 0xc0) × (after (0x2000 + 3) ≡ 0xc0)
scroll-moved_example =
    scroll-moved small small-IsDrawable (omega arith) (inl (omega arith)) lines 3 (omega arith)

abbrev terminal : Terminal
terminal = record { s_console = some small; bytes = lines; serial = []; route_to_com = true }

kvprintf-shown_example : kvprintf terminal (characters "n%d") (word 7 ∷ []) ≡ (
    text_of (characters "n%d") (word 7 ∷ []) >>= λ text.
    ok (u32 (length text), shown (visible text) small terminal))
kvprintf-shown_example = kvprintf-shown terminal small (characters "n%d") (word 7 ∷ []) refl
