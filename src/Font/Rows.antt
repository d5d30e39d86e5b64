-- ===== src/Font/Rows.antt =====
-- Where the lines of the characters lie in the file of the font (kernel/lib/font.cpp, and
-- kernel/dev/console.cpp, which reads them).
use nokernel.Prelude.{ℕ, ◌+◌, ◌-◌, ◌*◌, ◌/◌, ◌%◌, ◌^◌, ◌≤◌, ◌<◌, ◌≡◌, refl, ap, arith}
use native.Mathlib.Nat.{
  mod-lt, div-lt_iff_lt-mul, div-mul-le_self, mul-le-mul_right, add-mul, mul_comm,
}
use nokernel.Word.{u32, sub32}
use nokernel.Memory.{Bytes}
use nokernel.Font.{Bitmap, Font, build_font_struct, row_start}

-- Cells of two bytes a line, in an image whose bits and bytes can be counted.
pub record IsFont (f : Font) : Type 0 where
  pub wide : 0 < f.cell_width
  pub high : 0 < f.cell_height
  pub two_bytes : f.cell_width * f.bits_per_pixel ≡ 16
  pub across : f.cells_per_x_axis ≡ f.bmp_image_width / f.cell_width
  pub down : f.cells_per_y_axis ≡ f.bmp_image_height / f.cell_height
  pub line : f.stride ≡ (f.bmp_image_width * f.bits_per_pixel + 31) / 32 * 4
  pub width_bound : f.bmp_image_width < 2 ^ 32
  pub height_bound : f.bmp_image_height < 2 ^ 32
  pub data_bound : f.bmp_data_segment_offsetted + f.bmp_image_height * f.stride < 2 ^ 64

-- A cell in a row of cells.
cell_end : (k n size total : ℕ) → k < n → n * size ≤ total → k * size + size ≤ total
cell_end k n size total h i = grind arith

file_end : (r h s : ℕ) → r < h → r * s + s ≤ h * s
file_end r h s i = grind arith

bits_end : (x w cw bits : ℕ) → x + cw ≤ w → x * bits + cw * bits ≤ w * bits
bits_end x w cw bits h = omega (arith, mul-le-mul_right bits h, add-mul x cw bits)

-- What `buildFontStruct` makes is such a font, when the cells are so.
pub build_font_struct-IsFont :
    (m : Bytes) (bitmap : Bitmap) (cell_width cell_height : ℕ)
    → let f = build_font_struct m bitmap cell_width cell_height in
      0 < cell_width
      → 0 < cell_height
      → cell_width * f.bits_per_pixel ≡ 16
      → f.bmp_image_width * f.bits_per_pixel + 31 < 2 ^ 32
      → f.bmp_image_width < 2 ^ 32
      → f.bmp_image_height < 2 ^ 32
      → f.bmp_data_segment_offsetted + f.bmp_image_height * f.stride < 2 ^ 64
      → IsFont f
unfolding build_font_struct
build_font_struct-IsFont m bitmap cell_width cell_height hw hh two bits w h size = record {
  wide = hw;
  high = hh;
  two_bytes = two;
  across = refl;
  down = refl;
  line = omega (arith, bits);
  width_bound = w;
  height_bound = h;
  data_bound = size;
}

-- For a font whose cells take two bytes a line, with the counts of cells and the length of a line
-- that buildFontStruct gives, in an image whose size fits 32 bits and that ends below 2 ^ 64, the two
-- bytes of every line of every character that the font has lie in its pixels.
pub row_start-inside :
    (f : Font) (ch gy : ℕ)
    → IsFont f
    → ch < f.cells_per_x_axis * f.cells_per_y_axis
    → gy < f.cell_height
    → (f.bmp_data_segment_offsetted ≤ row_start f ch gy)
      × (row_start f ch gy + 2 ≤ f.bmp_data_segment_offsetted + f.bmp_image_height * f.stride)
unfolding row_start
row_start-inside f ch gy is h hg =
    let across_pos : 0 < f.cells_per_x_axis = grind arith in
    let col : ch % f.cells_per_x_axis < f.cells_per_x_axis = mod-lt ch across_pos in
    let row : ch / f.cells_per_x_axis < f.cells_per_y_axis =
      (div-lt_iff_lt-mul across_pos).1
        (omega (arith, h, mul_comm f.cells_per_x_axis f.cells_per_y_axis)) in
    let x_end : ch % f.cells_per_x_axis * f.cell_width + f.cell_width ≤ f.bmp_image_width =
      cell_end (ch % f.cells_per_x_axis) f.cells_per_x_axis f.cell_width f.bmp_image_width col (
        omega (
          arith,
          is.across,
          ap (λ n. n * f.cell_width) is.across,
          div-mul-le_self f.bmp_image_width f.cell_width,
        )) in
    let y_end : ch / f.cells_per_x_axis * f.cell_height + f.cell_height ≤ f.bmp_image_height =
      cell_end (ch / f.cells_per_x_axis) f.cells_per_y_axis f.cell_height f.bmp_image_height row (
        omega (
          arith,
          is.down,
          ap (λ n. n * f.cell_height) is.down,
          div-mul-le_self f.bmp_image_height f.cell_height,
        )) in
    let x0 = ch % f.cells_per_x_axis * f.cell_width in
    let y0 = ch / f.cells_per_x_axis * f.cell_height in
    let file_row = f.bmp_image_height - 1 - (y0 + gy) in
    let same : sub32 (sub32 f.bmp_image_height 1) (u32 (u32 y0 + gy)) ≡ file_row =
      omega (arith, y_end, is.height_bound) in
    let same_x : u32 x0 ≡ x0 = omega (arith, x_end, is.width_bound) in
    let last = file_end file_row f.bmp_image_height f.stride (omega (arith, y_end)) in
    let bits = bits_end x0 f.bmp_image_width f.cell_width f.bits_per_pixel x_end in
    let in_line : x0 * f.bits_per_pixel / 8 + 2 ≤ f.stride =
      omega (arith, is.line, is.two_bytes, bits) in
    rw (same_x, same)
      (omega (arith, last, in_line, is.data_bound), omega (arith, last, in_line, is.data_bound))
