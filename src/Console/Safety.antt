-- ===== src/Console/Safety.antt =====
-- Which bytes the console writes (kernel/dev/console.cpp and framebuffer.cpp).
use nokernel.Prelude.{
  ℕ, zero, suc, ◌+◌, ◌*◌, ◌/◌, ◌≤◌, ◌<◌, ◌≡◌, refl, ap, ◌∙◌, ◌⊎◌, true, false, ltb, ◌==◌, List, [],
  ◌∷◌, arith, Bool-cases, inl, inr, bit_and,
}
use nokernel.Word.{u8, u32, sub32, ◌>>◌}
use nokernel.Memory.{Bytes}
use nokernel.Screen.{get_width}
use nokernel.Screen.Draw.{fill-Keeps}
use nokernel.Console.{
  Console, scroll, newline, below_screen, step_right, draw_glyph, print_char, print, draw_row,
  draw_rows,
}
use nokernel.Console.Cursor.{
  Place, IsConsole, IsInside, placed, columns_of, rows_of, advance, advance-IsInside, one_less_at,
  print_char_lem, below_screen_lem, row_up, row_below, row_at, column_at, rows_pos,
}
use nokernel.Console.Pixels.{
  IsDrawable, Outside, Fits, draw-Outside, copy-Outside, column_small, row_small,
}

module _ (c : Console) (is : IsDrawable c) (x : ℕ) (out : Outside c x) where
  in_line :
      (gx left top : ℕ)
      → Fits c left top
      → gx < c.font.cell_width
      → u32 (gx + left) < c.fb.descriptor.pitch + c.font.cell_width
  in_line gx left top f h =
      let (same, small) = column_small c is left top f gx h in omega (arith, same, small)

  in_lines :
      (gy left top : ℕ)
      → Fits c left top
      → gy < c.font.cell_height
      → u32 (gy + top) < c.fb.descriptor.height
  in_lines gy left top f h =
      let (same, small) = row_small c is left top f gy h in omega (arith, same, small)

  pub draw_row-Outside :
      (left top bits gy count gx : ℕ) (m : Bytes)
      → Fits c left top
      → gy < c.font.cell_height
      → gx + count ≤ c.font.cell_width
      → draw_row (record c { x = left; y = top }) bits gy gx count m x ≡ m x
  unfolding draw_row
  draw_row-Outside left top bits gy zero gx m f hy hx = refl
  draw_row-Outside left top bits gy (suc count) gx m f hy hx =
      draw_row-Outside left top bits gy count (gx + 1) _ f hy (omega arith)
      ∙ elim (Bool-cases (bit_and (bits >> sub32 15 gx) 1 == 1)) [
        | inl e ↦ rw e (
            draw-Outside c _ _ c.foreground_color m x is (in_line gx left top f (omega arith))
              (in_lines gy left top f hy) out)
        | inr e ↦ rw e refl
      ]

  draw_rows-Outside :
      (left top ch count gy : ℕ) (m : Bytes)
      → Fits c left top
      → gy + count ≤ c.font.cell_height
      → draw_rows (record c { x = left; y = top }) ch gy count m x ≡ m x
  unfolding draw_rows
  draw_rows-Outside left top ch zero gy m f h = refl
  draw_rows-Outside left top ch (suc count) gy m f h =
      draw_rows-Outside left top ch count (gy + 1) _ f (omega arith)
      ∙ draw_row-Outside left top _ gy c.font.cell_width 0 m f (omega arith) (omega arith)

  scroll-Outside :
      (left top : ℕ) (m : Bytes)
      → c.font.cell_height ≤ c.fb.descriptor.height
      → (scroll (record c { x = left; y = top }, m)).1 x ≡ m x
  unfolding scroll
  scroll-Outside left top m h =
      let lines : c.fb.descriptor.pitch * c.font.cell_height
          ≤ c.fb.descriptor.pitch * c.fb.descriptor.height =
        grind arith in
      copy-Outside c.fb_shadow c.fb 0 _ x (omega arith) (omega (arith, is.size_bound, is.same_size))
        (in_screen out.0)
      ∙ (fill-Keeps c.fb c.background_color _ x (in_filled out.0)
          ∙ copy-Outside c.fb c.fb_shadow _ m x (omega (arith, lines, is.screen.room, is.countable))
              is.size_bound out.1)
    where
      in_screen :
          (x < c.fb.descriptor.base)
            ⊎ (c.fb.descriptor.base + (c.fb.descriptor.size + 4 * c.font.cell_width) ≤ x)
          → (x < c.fb.descriptor.base) ⊎ (c.fb.descriptor.base + c.fb.descriptor.size ≤ x)
      in_screen (inl h) = inl h
      in_screen (inr h) = inr (omega arith)

      in_filled :
          (x < c.fb.descriptor.base)
            ⊎ (c.fb.descriptor.base + (c.fb.descriptor.size + 4 * c.font.cell_width) ≤ x)
          → (x < c.fb.fb) ⊎ (c.fb.fb + c.fb.descriptor.size ≤ x)
      in_filled (inl h) = inl (omega (arith, is.screen.at_base))
      in_filled (inr h) = inr (omega (arith, is.screen.at_base))

  module _ (ok : IsConsole c) where
    newline-Outside :
        (left top : ℕ) (m : Bytes) → (newline (record c { x = left; y = top }, m)).1 x ≡ m x
    unfolding newline
    newline-Outside left top m = elim (Bool-cases (below_screen (record c { x = 0; y = top }))) [
      | inl e ↦ rw e (scroll-Outside 0 top m ok.one_row)
      | inr e ↦ rw e refl
    ]

    step_right-Outside :
        (left top : ℕ) (m : Bytes) → (step_right (record c { x = left; y = top }, m)).1 x ≡ m x
    unfolding step_right get_width
    step_right-Outside left top m =
        elim (Bool-cases
          (ltb (columns_of c) (u32 (left + c.font.cell_width) / c.font.cell_width))) [
            | inl e ↦ rw e (newline-Outside _ top m)
            | inr e ↦ rw e refl
          ]

    glyph-Outside :
        (left top ch : ℕ) (m : Bytes)
        → Fits c left top
        → (step_right (draw_glyph (record c { x = left; y = top }, m) ch)).1 x ≡ m x
    glyph-Outside left top ch m f =
        step_right-Outside left top _
        ∙ draw_rows-Outside left top (u8 ch) c.font.cell_height 0 m f (omega arith)

    print_char-Outside :
        (ch : ℕ) (p : Place) (m : Bytes)
        → IsInside (columns_of c) (rows_of c) p
        → (print_char ch (placed c p, m)).1 x ≡ m x
    unfolding print_char scroll
    print_char-Outside ch p m i = elim (Bool-cases (ch == 10)) [
      | inl e ↦ rw e (newline-Outside _ _ m)
      | inr e ↦ rw e (elim (Bool-cases (ltb p.row (rows_of c))) [
        | inl on ↦
            let stays : below_screen (placed c p) ≡ false =
              below_screen_lem c ok p i ∙ ground arith in
            rw stays
              (glyph-Outside _ _ ch m (column_at c ok p i, row_below c ok p i (ground arith)))
        | inr off ↦
            let up : 0 < p.row = ground (arith, rows_pos c ok p i) in
            let scrolls : below_screen (placed c p) ≡ true =
              below_screen_lem c ok p i ∙ ground (arith, i.row_bound) in
            rw scrolls (
              glyph-Outside _ _ ch (scroll (placed c p, m)).1 (
                column_at c ok p i,
                omega (
                  arith,
                  row_up c ok p i up,
                  one_less_at p.row c.font.cell_height up,
                  row_at c ok p i,
                ),
              )
              ∙ scroll-Outside (p.column * c.font.cell_width) (p.row * c.font.cell_height) m
                  ok.one_row)
      ])
    ]

    -- Printing any string changes no byte outside of the memory of the screen, with as many bytes behind
    -- it as a line of one cell has, and of the copy of the screen, when the cursor is in the grid.
    pub print-Outside :
        (str : List ℕ) (p : Place) (m : Bytes)
        → IsInside (columns_of c) (rows_of c) p
        → (print str (placed c p, m)).1 x ≡ m x
    unfolding print
    print-Outside [] p m i = refl
    print-Outside (ch ∷ str) p m i =
        let s = print_char ch (placed c p, m) in
        ap (λ k. (print str (k, s.1)).1 x) (print_char_lem c ok ch p m i)
        ∙ (print-Outside str (advance (columns_of c) (rows_of c) ch p) s.1
              (advance-IsInside (columns_of c) (rows_of c) ch p (rows_pos c ok p i) i)
            ∙ print_char-Outside ch p m i)
