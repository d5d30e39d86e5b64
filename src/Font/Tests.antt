-- ===== src/Font/Tests.antt =====
-- The font that the boot loader brings: 256 by 512 pixels, in cells of 16 by 32.
use nokernel.Prelude.{◌+◌, ◌*◌, ◌≤◌, ◌≡◌, refl, arith}
use nokernel.Font.{Font, row_start}
use nokernel.Font.Rows.{IsFont, row_start-inside}

abbrev terminus : Font
terminus = record {
  bmp_data_segment_offsetted = 0x10_003e;
  bmp_data_segment_size = 16384;
  bmp_image_width = 256;
  bmp_image_height = 512;
  cell_width = 16;
  cell_height = 32;
  bits_per_pixel = 1;
  stride = 32;
  cells_per_x_axis = 16;
  cells_per_y_axis = 16;
  total_cells = 256;
}

terminus-IsFont : IsFont terminus
terminus-IsFont = record {
  wide = omega arith;
  high = omega arith;
  two_bytes = refl;
  across = refl;
  down = refl;
  line = refl;
  width_bound = omega arith;
  height_bound = omega arith;
  data_bound = omega arith;
}

-- The top line of the second cell is in the last line of the file.
row_start_run : row_start terminus 1 0 ≡ 0x10_003e + 511 * 32 + 2
unfolding row_start
row_start_run = refl

row_start-inside_example :
    (0x10_003e ≤ row_start terminus 255 31) × (row_start terminus 255 31 + 2 ≤ 0x10_003e + 512 * 32)
row_start-inside_example =
    row_start-inside terminus 255 31 terminus-IsFont (omega arith) (omega arith)
