-- ===== src/Panic/Tests.antt =====
-- A panic on a console of one cell (kernel/panic.cpp).
use nokernel.Prelude.{ℕ, ◌≡◌, refl, true, false, List, [], ◌∷◌, some, characters}
use nokernel.Outcome.{ok}
use nokernel.Memory.{Bytes}
use nokernel.Printf
use nokernel.Printf.Format
use nokernel.Printf.Loop.{text_of}
use nokernel.Printf.Format.{Arg, word}
use nokernel.Console.{Console, print}
use nokernel.Console.Printing.{sent}
use nokernel.Panic.{panic}
use nokernel.Panic.Report.{report_text, panic-reported}

abbrev tiny : Console
tiny = record {
  fb = record {
    descriptor = record { base = 0x1000; size = 4; width = 1; height = 1; pitch = 1; format = 0 };
    fb = 0x1000;
  };
  fb_shadow = record {
    descriptor = record { base = 0x2000; size = 4; width = 1; height = 1; pitch = 1; format = 0 };
    fb = 0x2000;
  };
  font = record {
    bmp_data_segment_offsetted = 0x3000;
    bmp_data_segment_size = 128;
    bmp_image_width = 32;
    bmp_image_height = 32;
    cell_width = 1;
    cell_height = 1;
    bits_per_pixel = 1;
    stride = 4;
    cells_per_x_axis = 16;
    cells_per_y_axis = 16;
    total_cells = 256;
  };
  background_color = 0;
  foreground_color = 0xffff_ffff;
  x = 0;
  y = 0;
}

abbrev dark : Bytes
dark = λ _. 0

abbrev report : List ℕ
report = characters "\nKernel panic - Not Syncing: no frame 7\n  at pmm:31"

report_run : report_text (characters "pmm") 31 (characters "no frame %d") (word 7 ∷ []) ≡ ok report
unfolding text_of Format.format_loop Format.directive Format.parse_width Format.head
    Format.parse_flags Format.flag_of Format.parse_precision Format.parse_length Format.convert
    Format.advance Format.format_char Format.format_pointer Format.format_string
    Format.format_integer Format.next_word Format.next_text Format.integer_flags Format.strnlen
    Printf.is_digit Printf.put Printf.puts Printf.pad Printf.pad_to Printf.out_rev Printf.digit_char
    Printf.fill Printf.push Printf.pop Printf.padded_width Printf.padded_buf Printf.prefixed_buf
    Printf.signed_buf Printf.ntoa_buf Printf.ntoa_format Printf.ntoa_long Printf.digits_loop
report_run = refl

panic-reported_example :
    let (c', m') = print report (tiny, dark) in
    panic (characters "pmm") 31 (characters "no frame %d") (word 7 ∷ []) (record {
      panicking = false;
      terminal = record { s_console = some tiny; bytes = dark; serial = []; route_to_com = true };
    })
    ≡ ok (record {
      panicking = true;
      terminal = record {
        s_console = some c';
        bytes = m';
        serial = sent report [];
        route_to_com = false;
      };
    })
panic-reported_example =
    panic-reported (characters "pmm") 31 (characters "no frame %d") (word 7 ∷ []) report tiny dark
      [] true report_run
