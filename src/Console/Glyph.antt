-- ===== src/Console/Glyph.antt =====
-- The pixels that a character sets (kernel/dev/console.cpp).
use nokernel.Prelude.{
  ℕ, zero, suc, ◌+◌, ◌-◌, ◌*◌, ◌/◌, ◌%◌, ◌≤◌, ◌<◌, ◌≡◌, refl, ap, ◌∙◌, sym, Bool, true, false, ◌&&◌,
  ltb, leb, ◌==◌, if◌then◌else◌, arith, Bool-cases, inl, inr, bit_and, bit_or,
}
use nokernel.Word.{u16, u32, sub32, ◌<<◌, ◌>>◌}
use nokernel.Memory.{Bytes, write32}
use nokernel.Font.{row_start}
use nokernel.Screen.{draw, pixel_offset}
use nokernel.Screen.Draw.{byte_of, write32_lem}
use nokernel.Console.{Console, draw_row, draw_rows}
use nokernel.Console.Pixels.{IsDrawable, Outside, cell_pixel, column_small, row_small, Fits}
use nokernel.Console.Safety.{draw_row-Outside}

-- Bit `gx` of a line, from the left.
abbrev pub lit : ℕ → ℕ → Bool
lit bits gx = bit_and (bits >> sub32 15 gx) 1 == 1

-- The bits of line `gy` of a character.
abbrev pub line_bits : Console → ℕ → ℕ → Bytes → ℕ
line_bits c ch gy m =
    let start = row_start c.font ch gy in u16 (bit_or (m start << 8) (m (start + 1)))

module _ (c : Console) (is : IsDrawable c) (left top : ℕ) (room : Fits c left top) where
  abbrev here : Console
  here = record c { x = left; y = top }

  -- Where the pixels of a line of the cell begin.
  abbrev pub line_at : ℕ → ℕ
  line_at gy = c.fb.descriptor.base + 4 * ((gy + top) * c.fb.descriptor.pitch + left)

  -- A byte of a line after some of its pixels are drawn.
  abbrev drawn : ℕ → ℕ → ℕ → ℕ → Bytes → ℕ → ℕ
  drawn bits gy gx count m a =
      if (leb (line_at gy + 4 * gx) a && ltb a (line_at gy + 4 * (gx + count)))
        && lit bits ((a - line_at gy) / 4)
      then byte_of c.foreground_color ((a - line_at gy) % 4)
      else m a

  one_pixel_on :
      (bits at gx count : ℕ) (m : Bytes) (a : ℕ)
      → lit bits gx ≡ true
      → (if (leb (at + 4 * (gx + 1)) a && ltb a (at + 4 * (gx + 1 + count)))
            && lit bits ((a - at) / 4)
          then byte_of c.foreground_color ((a - at) % 4)
          else (if leb (at + 4 * gx) a && ltb a (at + 4 * gx + 4)
              then byte_of c.foreground_color (a - (at + 4 * gx))
              else m a))
        ≡ (if (leb (at + 4 * gx) a && ltb a (at + 4 * (gx + suc count))) && lit bits ((a - at) / 4)
            then byte_of c.foreground_color ((a - at) % 4)
            else m a)
  one_pixel_on bits at gx count m a on =
      elim (Bool-cases (leb (at + 4 * gx) a && ltb a (at + 4 * gx + 4))) [
        | inl e ↦
            let this : (a - at) / 4 ≡ gx = ground arith in
            let byte : (a - at) % 4 ≡ a - (at + 4 * gx) = ground arith in
            rw (this, byte, on) (ground arith)
        | inr e ↦ ground arith
      ]

  one_pixel_off :
      (bits at gx count : ℕ) (m : Bytes) (a : ℕ)
      → lit bits gx ≡ false
      → (if (leb (at + 4 * (gx + 1)) a && ltb a (at + 4 * (gx + 1 + count)))
            && lit bits ((a - at) / 4)
          then byte_of c.foreground_color ((a - at) % 4)
          else m a)
        ≡ (if (leb (at + 4 * gx) a && ltb a (at + 4 * (gx + suc count))) && lit bits ((a - at) / 4)
            then byte_of c.foreground_color ((a - at) % 4)
            else m a)
  one_pixel_off bits at gx count m a off =
      elim (Bool-cases (leb (at + 4 * gx) a && ltb a (at + 4 * gx + 4))) [
        | inl e ↦ let this : (a - at) / 4 ≡ gx = ground arith in rw (this, off) (ground arith)
        | inr e ↦ ground arith
      ]

  pixel_lem :
      (gx gy : ℕ)
      → gx < c.font.cell_width
      → gy < c.font.cell_height
      → c.fb.fb + 4 * pixel_offset c.fb (u32 (gx + left)) (u32 (gy + top)) ≡ line_at gy + 4 * gx
  pixel_lem gx gy hx hy =
      let (same_x, small_x) = column_small c is left top room gx hx in
      let (same_y, small_y) = row_small c is left top room gy hy in
      let inside : (gy + top) * c.fb.descriptor.pitch + (gx + left)
          < c.fb.descriptor.pitch * c.fb.descriptor.height + c.font.cell_width =
        cell_pixel (gx + left) (gy + top) _ _ _ small_x small_y in
      rw (same_x, same_y) (omega (arith, is.countable, is.screen.at_base))

  draw_row-drawn :
      (bits gy count gx : ℕ) (m : Bytes) (a : ℕ)
      → gy < c.font.cell_height
      → gx + count ≤ c.font.cell_width
      → draw_row here bits gy gx count m a ≡ drawn bits gy gx count m a
  unfolding draw_row draw
  draw_row-drawn bits gy zero gx m a hy hx = ground arith
  draw_row-drawn bits gy (suc count) gx m a hy hx =
      draw_row-drawn bits gy count (gx + 1) _ a hy (omega arith) ∙ elim (Bool-cases (lit bits gx)) [
        | inl on ↦ rw on (
            ap
              (λ v.
                if (leb (line_at gy + 4 * (gx + 1)) a && ltb a (line_at gy + 4 * (gx + 1 + count)))
                  && lit bits ((a - line_at gy) / 4)
                then byte_of c.foreground_color ((a - line_at gy) % 4)
                else v)
              (ap (λ at. write32 at c.foreground_color m a) (pixel_lem gx gy (omega arith) hy)
                ∙ write32_lem (line_at gy + 4 * gx) c.foreground_color m a)
            ∙ one_pixel_on bits (line_at gy) gx count m a on)
        | inr off ↦ rw off (one_pixel_off bits (line_at gy) gx count m a off)
      ]

  line_at-le : (gy g : ℕ) → gy < g → line_at gy + 4 * c.fb.descriptor.pitch ≤ line_at g
  line_at-le gy g h =
      let rows : (gy + top) * c.fb.descriptor.pitch + c.fb.descriptor.pitch
          ≤ (g + top) * c.fb.descriptor.pitch =
        grind arith in
      omega (arith, rows)

  module _ (one_cell : c.font.cell_width ≤ c.fb.descriptor.pitch) (ch : ℕ)
      (apart : (g : ℕ)
        → g < c.font.cell_height
        → Outside c (row_start c.font ch g) × Outside c (row_start c.font ch g + 1)) where
    draw_rows-later :
        (count gy : ℕ) (m : Bytes) (a : ℕ)
        → gy + count ≤ c.font.cell_height
        → a < line_at gy
        → draw_rows here ch gy count m a ≡ m a
    unfolding draw_rows
    draw_rows-later zero gy m a h i = refl
    draw_rows-later (suc count) gy m a h i =
        draw_rows-later count (gy + 1) _ a (omega arith)
          (omega (arith, line_at-le gy (gy + 1) (omega arith)))
        ∙ (draw_row-drawn _ gy c.font.cell_width 0 m a (omega arith) (omega arith) ∙ ground arith)

    -- The line of a character that is still to be drawn stays while another one is drawn.
    line_bits-same :
        (bits gy g : ℕ) (m : Bytes)
        → gy < c.font.cell_height
        → g < c.font.cell_height
        → line_bits c ch g (draw_row here bits gy 0 c.font.cell_width m) ≡ line_bits c ch g m
    line_bits-same bits gy g m hy hg =
        let (first, second) = apart g hg in
        rw
          (
            draw_row-Outside c is (row_start c.font ch g) first left top bits gy c.font.cell_width 0
                m room hy (omega arith),
            draw_row-Outside c is (row_start c.font ch g + 1) second left top bits gy
                c.font.cell_width 0 m room hy (omega arith),
          )
          refl

    -- A byte of a line of the cell, when the character has been drawn.
    abbrev shown : ℕ → Bytes → ℕ → ℕ
    shown g m a =
        if lit (line_bits c ch g m) ((a - line_at g) / 4)
        then byte_of c.foreground_color ((a - line_at g) % 4)
        else m a

    first_line :
        (count gy : ℕ) (m : Bytes) (a : ℕ)
        → gy + suc count ≤ c.font.cell_height
        → line_at gy ≤ a
        → a < line_at gy + 4 * c.font.cell_width
        → draw_rows here ch gy (suc count) m a ≡ shown gy m a
    unfolding draw_rows
    first_line count gy m a h from to =
        draw_rows-later count (gy + 1) _ a (omega arith)
          (omega (arith, line_at-le gy (gy + 1) (omega arith), one_cell))
        ∙ (draw_row-drawn (line_bits c ch gy m) gy c.font.cell_width 0 m a (omega arith)
              (omega arith)
            ∙ ground arith)

    -- Drawing a character sets the pixels of its cell whose bits are set in the font to the foreground
    -- colour, and leaves the other pixels of the cell as they were, when a line of the screen has room
    -- for a cell, the cell begins at most at the end of a line, and the font lies outside of what the
    -- console writes.
    pub draw_rows-lit :
        (count gy g : ℕ) (m : Bytes) (a : ℕ)
        → gy + count ≤ c.font.cell_height
        → gy ≤ g
        → g < gy + count
        → line_at g ≤ a
        → a < line_at g + 4 * c.font.cell_width
        → draw_rows here ch gy count m a ≡ (
            if lit (line_bits c ch g m) ((a - line_at g) / 4)
            then byte_of c.foreground_color ((a - line_at g) % 4)
            else m a)
    unfolding draw_rows
    draw_rows-lit zero gy g m a h lo hi from to = absurd (omega arith)
    draw_rows-lit (suc count) gy g m a h lo hi from to = elim (Bool-cases (g == gy)) [
      | inl e ↦
          let at : g ≡ gy = ground arith in
          first_line count gy m a h (omega (arith, ap line_at at)) (omega (arith, ap line_at at))
          ∙ ap (λ k. shown k m a) (sym at)
      | inr e ↦
          let bits = line_bits c ch gy m in
          let after = draw_row here bits gy 0 c.font.cell_width m in
          let stays : after a ≡ m a =
            draw_row-drawn bits gy c.font.cell_width 0 m a (omega arith) (omega arith)
            ∙ ground (arith, line_at-le gy g (ground arith), one_cell) in
          let same = line_bits-same bits gy g m (omega arith) (omega arith) in
          draw_rows-lit count (gy + 1) g after a (omega arith) (ground arith) (omega arith) from to
          ∙ ap
              (λ ((b, v) : ℕ × ℕ).
                if lit b ((a - line_at g) / 4)
                then byte_of c.foreground_color ((a - line_at g) % 4)
                else v)
              (λ i. (same i, stays i))
    ]
