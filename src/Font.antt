-- ===== src/Font.antt =====
-- The font (kernel/lib/font.cpp and font.h): a bitmap file in memory, cut into cells.
pub mod Rows
mod Tests
use nokernel.Prelude.{ℕ, ◌+◌, ◌-◌, ◌*◌, ◌/◌, ◌%◌, ◌^◌, bit_or}
use nokernel.Word.{u16, u32, u64, sub32, ◌<<◌}
use nokernel.Memory.{Bytes}

-- `Bitmap` of shared/libs/bitmap.h: the header and the file, as addresses.
pub record Bitmap : Type 0 where
  pub header : ℕ
  pub base_address : ℕ

-- The offsets of the fields of `BitmapHeader`, which are arrays of bytes.
abbrev pub header_data_offset : ℕ
header_data_offset = 10

abbrev pub header_width : ℕ
header_width = 18

abbrev pub header_height : ℕ
header_height = 22

abbrev pub header_bits_per_pixel : ℕ
header_bits_per_pixel = 28

abbrev pub header_image_size : ℕ
header_image_size = 34

-- The arrays are read at their address.
unfoldable pub size4_byte_array_to_uint32 : Bytes → ℕ → ℕ
size4_byte_array_to_uint32 m array =
    bit_or (bit_or (bit_or (m array) (m (array + 1) << 8)) (m (array + 2) << 16))
      (m (array + 3) << 24)

unfoldable pub size2_byte_array_to_uint16 : Bytes → ℕ → ℕ
size2_byte_array_to_uint16 m array = u16 (bit_or (m array) (m (array + 1) << 8))

unfoldable pub size1_byte_array_to_uint8 : Bytes → ℕ → ℕ
size1_byte_array_to_uint8 m array = m array

pub record Font : Type 0 where
  pub bmp_data_segment_offsetted : ℕ
  pub bmp_data_segment_size : ℕ
  pub bmp_image_width : ℕ
  pub bmp_image_height : ℕ
  pub cell_width : ℕ
  pub cell_height : ℕ
  pub bits_per_pixel : ℕ
  pub stride : ℕ
  pub cells_per_x_axis : ℕ
  pub cells_per_y_axis : ℕ
  pub total_cells : ℕ

unfoldable pub build_font_struct : Bytes → Bitmap → ℕ → ℕ → Font
build_font_struct m bitmap cell_width cell_height =
    let width = size4_byte_array_to_uint32 m (bitmap.header + header_width) in
    let height = size4_byte_array_to_uint32 m (bitmap.header + header_height) in
    let bits = size2_byte_array_to_uint16 m (bitmap.header + header_bits_per_pixel) in
    let across = width / cell_width in
    let down = height / cell_height in
    record {
      bmp_data_segment_offsetted =
          u64 (
            bitmap.base_address
            + size4_byte_array_to_uint32 m (bitmap.header + header_data_offset));
      bmp_data_segment_size = size4_byte_array_to_uint32 m (bitmap.header + header_image_size);
      bmp_image_width = width;
      bmp_image_height = height;
      cell_width = cell_width;
      cell_height = cell_height;
      bits_per_pixel = bits;
      stride = u32 (u32 (u32 (width * bits) + 31) / 32 * 4);
      cells_per_x_axis = across;
      cells_per_y_axis = down;
      total_cells = u32 (across * down);
    }

-- `rowStart` of `Console::print_char` (kernel/dev/console.cpp): where line `gy` of a character
-- begins, in a file whose lines stand from the bottom up.
unfoldable pub row_start : Font → ℕ → ℕ → ℕ
row_start font ch gy =
    let col = ch % font.cells_per_x_axis in
    let row = ch / font.cells_per_x_axis in
    let x0 = u32 (col * font.cell_width) in
    let y0 = u32 (row * font.cell_height) in
    let image_row = u32 (y0 + gy) in
    let file_row = sub32 (sub32 font.bmp_image_height 1) image_row in
    u64 (
      u64 (font.bmp_data_segment_offsetted + u64 (file_row * font.stride))
      + u64 (x0 * font.bits_per_pixel) / 8)
