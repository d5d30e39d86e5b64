-- ===== src/Console/Cursor.antt =====
-- Where the cursor of the console goes, as columns and lines of the text grid
-- (kernel/dev/console.cpp).
use nokernel.Prelude.{
  ℕ, zero, suc, ◌+◌, ◌-◌, ◌*◌, ◌/◌, ◌^◌, ◌≤◌, ◌<◌, ◌≡◌, refl, ap, ◌∙◌, true, false, ltb, ◌==◌, List,
  [], ◌∷◌, if◌then◌else◌, arith, Bool-cases, inl, inr,
}
use native.Mathlib.Nat.{le-div_iff_mul-le, mul-add-div_right, mul-div_cancel, div_self}
use nokernel.Word.{u32, sub32}
use nokernel.Memory.{Bytes}
use nokernel.Screen.{get_height, get_width}
use nokernel.Console.{
  Console, State, scroll, newline, below_screen, step_right, draw_glyph, print_char, print,
}

-- A place in the text grid. The row below the last one is a place too: the screen is scrolled when
-- something is drawn there.
pub record Place : Type 0 where
  pub column : ℕ
  pub row : ℕ

module _ (columns rows : ℕ) where
  -- The row above, for a row below the screen.
  abbrev pub on_screen : Place → Place
  on_screen p = if ltb p.row rows then p else record p { row = p.row - 1 }

  abbrev pub next_line : Place → Place
  next_line p = record { column = 0; row = if ltb p.row rows then suc p.row else p.row - 1 }

  abbrev pub next_column : Place → Place
  next_column p =
      if ltb columns (suc p.column) then next_line p else record p { column = suc p.column }

  abbrev pub advance : ℕ → Place → Place
  advance ch p = if ch == 10 then next_line p else next_column (on_screen p)

  abbrev pub advance_all : List ℕ → Place → Place
  advance_all [] p = p
  advance_all (ch ∷ str) p = advance_all str (advance ch p)

  pub record IsInside (p : Place) : Type 0 where
    pub column_bound : p.column ≤ columns
    pub row_bound : p.row ≤ rows

  pub advance-IsInside : (ch : ℕ) (p : Place) → 0 < rows → IsInside p → IsInside (advance ch p)
  advance-IsInside ch p h i = record {
    column_bound = ground (arith, i.column_bound);
    row_bound = ground (arith, i.row_bound);
  }

-- The console at a place.
abbrev pub placed : Console → Place → Console
placed c p = record c { x = p.column * c.font.cell_width; y = p.row * c.font.cell_height }

-- The cells are not empty, one fits on the screen, and the cursor is counted in 32 bits.
pub record IsConsole (c : Console) : Type 0 where
  pub wide : 0 < c.font.cell_width
  pub high : 0 < c.font.cell_height
  pub one_row : c.font.cell_height ≤ c.fb.descriptor.height
  pub width_bound : c.fb.descriptor.width + c.font.cell_width < 2 ^ 32
  pub height_bound : c.fb.descriptor.height + c.font.cell_height < 2 ^ 32

abbrev pub columns_of : Console → ℕ
columns_of c = c.fb.descriptor.width / c.font.cell_width

abbrev pub rows_of : Console → ℕ
rows_of c = c.fb.descriptor.height / c.font.cell_height

-- A number of cells times the size of one, against the size of the screen.
scaled-le : (n d k : ℕ) → 0 < d → k ≤ n / d → k * d ≤ n
scaled-le n d k h i = (le-div_iff_mul-le h).0 i

one_more : (k d : ℕ) → 0 < d → (k * d + d) / d ≡ suc k
one_more k d h = mul-add-div_right h k d ∙ omega (arith, div_self h)

one_more_at : (k d : ℕ) → k * d + d ≡ suc k * d
one_more_at k d = grind arith

pub one_less_at : (k d : ℕ) → 0 < k → k * d ≡ (k - 1) * d + d
one_less_at zero d h = absurd (omega arith)
one_less_at (suc k) d h = grind arith

some_row : (n d : ℕ) → 0 < d → d ≤ n → 0 < n / d
some_row n d h i = (le-div_iff_mul-le {k = d} {x = 1} {y = n} h).1 (omega arith)

-- The same console but for the cursor.
cursor_eq :
    (c : Console) {x y x' y' : ℕ}
    → x ≡ x'
    → y ≡ y'
    → (record c { x = x; y = y }) ≡ (record c { x = x'; y = y' })
cursor_eq c e f = ap (λ ((a, b) : ℕ × ℕ). record c { x = a; y = b }) (λ i. (e i, f i))

module _ (c : Console) (is : IsConsole c) (p : Place)
    (inside : IsInside (columns_of c) (rows_of c) p) where
  pub row_at : p.row * c.font.cell_height ≤ c.fb.descriptor.height
  row_at = scaled-le _ _ _ is.high inside.row_bound

  pub below_screen_lem : below_screen (placed c p) ≡ ltb (rows_of c) (suc p.row)
  unfolding get_height
  below_screen_lem =
      let small : u32 (p.row * c.font.cell_height + c.font.cell_height)
          ≡ p.row * c.font.cell_height + c.font.cell_height =
        omega (arith, row_at, is.height_bound) in
      ap (λ y. ltb (rows_of c) (y / c.font.cell_height)) small
      ∙ ap (ltb (rows_of c)) (one_more p.row c.font.cell_height is.high)

  pub column_at : p.column * c.font.cell_width ≤ c.fb.descriptor.width
  column_at = scaled-le _ _ _ is.wide inside.column_bound

  pub row_up :
      0 < p.row
      → sub32 (p.row * c.font.cell_height) c.font.cell_height ≡ (p.row - 1) * c.font.cell_height
  row_up h =
      omega (arith, one_less_at p.row c.font.cell_height h, row_at, is.height_bound, is.one_row)

  row_down : u32 (p.row * c.font.cell_height + c.font.cell_height) ≡ suc p.row * c.font.cell_height
  row_down = omega (arith, one_more_at p.row c.font.cell_height, row_at, is.height_bound)

  -- A row of the screen has room for a cell.
  pub row_below :
      p.row < rows_of c → p.row * c.font.cell_height + c.font.cell_height ≤ c.fb.descriptor.height
  row_below h = omega (
    arith,
    scaled-le c.fb.descriptor.height c.font.cell_height (suc p.row) is.high (omega arith),
    one_more_at p.row c.font.cell_height,
  )

  pub rows_pos : 0 < rows_of c
  rows_pos = some_row _ _ is.high is.one_row

  pub scroll_lem :
      (m : Bytes) → 0 < p.row → (scroll (placed c p, m)).0 ≡ placed c (record p { row = p.row - 1 })
  unfolding scroll
  scroll_lem m h = cursor_eq c refl (row_up h)

  newline_lem :
      (x : ℕ) (m : Bytes)
      → (newline (record (placed c p) { x = x }, m)).0
        ≡ placed c (next_line (columns_of c) (rows_of c) p)
  unfolding newline scroll
  newline_lem x m = elim (Bool-cases (ltb p.row (rows_of c))) [
    | inl e ↦
        let on : below_screen (record (placed c p) { x = 0 }) ≡ false =
          below_screen_lem ∙ ground arith in
        rw (on, e) (cursor_eq c (omega arith) row_down)
    | inr e ↦
        let off : below_screen (record (placed c p) { x = 0 }) ≡ true =
          below_screen_lem ∙ ground (arith, inside.row_bound) in
        rw (off, e) (cursor_eq c (omega arith) (row_up (ground (arith, rows_pos))))
  ]

  step_right_lem :
      (m : Bytes)
      → (step_right (placed c p, m)).0 ≡ placed c (next_column (columns_of c) (rows_of c) p)
  unfolding step_right get_width
  step_right_lem m =
      let next : u32 (p.column * c.font.cell_width + c.font.cell_width)
          ≡ suc p.column * c.font.cell_width =
        omega (arith, one_more_at p.column c.font.cell_width, column_at, is.width_bound) in
      let count : suc p.column * c.font.cell_width / c.font.cell_width ≡ suc p.column =
        mul-div_cancel (suc p.column) is.wide in
      rw (next, count)
        (elim (Bool-cases (ltb (columns_of c) (suc p.column))) [
          | inl e ↦ rw e (newline_lem _ m)
          | inr e ↦ rw e refl
        ])

module _ (c : Console) (is : IsConsole c) where
  abbrev Inside : Place → Type 0
  Inside p = IsInside (columns_of c) (rows_of c) p

  drawn_lem :
      (ch : ℕ) (s : State) (p : Place)
      → Inside p
      → s.0 ≡ placed c p
      → (step_right (draw_glyph s ch)).0 ≡ placed c (next_column (columns_of c) (rows_of c) p)
  drawn_lem ch (k, m) p i e =
      ap (λ k'. (step_right (k', (draw_glyph (k, m) ch).1)).0) e
      ∙ step_right_lem c is p i (draw_glyph (k, m) ch).1

  pub print_char_lem :
      (ch : ℕ) (p : Place) (m : Bytes)
      → Inside p
      → (print_char ch (placed c p, m)).0 ≡ placed c (advance (columns_of c) (rows_of c) ch p)
  unfolding print_char
  print_char_lem ch p m i = elim (Bool-cases (ch == 10)) [
    | inl e ↦ rw e (newline_lem c is p i _ m)
    | inr e ↦ rw e (elim (Bool-cases (ltb p.row (rows_of c))) [
      | inl on ↦
          let stays : below_screen (placed c p) ≡ false =
            below_screen_lem c is p i ∙ ground arith in
          rw (stays, on) (drawn_lem ch (placed c p, m) p i refl)
      | inr off ↦
          let up : 0 < p.row = ground (arith, rows_pos c is p i) in
          let scrolls : below_screen (placed c p) ≡ true =
            below_screen_lem c is p i ∙ ground (arith, i.row_bound) in
          rw (scrolls, off)
            (drawn_lem ch (scroll (placed c p, m)) (record p { row = p.row - 1 })
              (record { column_bound = i.column_bound; row_bound = omega (arith, i.row_bound) })
              (scroll_lem c is p i m up))
    ])
  ]

  -- Printing any string moves the cursor as the text grid says: a line break goes to the start of the
  -- next row, or one row up from below the last one, a character first comes up from below the last
  -- row and then goes a column on, and past the last column and one more to the next row. The cursor
  -- stays in the grid, the row below it and the column right of it included.
  pub print-advance_all :
      (str : List ℕ) (p : Place) (m : Bytes)
      → Inside p
      → ((print str (placed c p, m)).0 ≡ placed c (advance_all (columns_of c) (rows_of c) str p))
        × Inside (advance_all (columns_of c) (rows_of c) str p)
  unfolding print
  print-advance_all [] p m i = (refl, i)
  print-advance_all (ch ∷ str) p m i =
      let s = print_char ch (placed c p, m) in
      let (rest, ends) =
        print-advance_all str (advance (columns_of c) (rows_of c) ch p) s.1
          (advance-IsInside (columns_of c) (rows_of c) ch p (rows_pos c is p i) i) in
      (ap (λ k. (print str (k, s.1)).0) (print_char_lem ch p m i) ∙ rest, ends)
