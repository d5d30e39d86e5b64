-- ===== src/Console/Scrolling.antt =====
-- What scrolling leaves on the screen and in its copy (kernel/dev/console.cpp).
use nokernel.Prelude.{
  ℕ, ◌+◌, ◌-◌, ◌*◌, ◌≤◌, ◌<◌, ◌≡◌, ◌∙◌, ◌⊎◌, ltb, if◌then◌else◌, arith, inl, inr,
}
use nokernel.Word.{u32}
use nokernel.Memory.{Bytes}
use nokernel.Screen.{fill, copy}
use nokernel.Screen.Draw.{fill-Keeps, copy_lem}
use nokernel.Console.{Console, scroll}
use nokernel.Console.Pixels.{IsDrawable}

module _ (c : Console) (is : IsDrawable c) (one_row : c.font.cell_height ≤ c.fb.descriptor.height)
    (apart : (c.fb.descriptor.base + c.fb.descriptor.size ≤ c.fb_shadow.descriptor.base)
      ⊎ (c.fb_shadow.descriptor.base + c.fb_shadow.descriptor.size ≤ c.fb.descriptor.base)) where
  -- The bytes of a row of characters.
  abbrev pub row_bytes : ℕ
  row_bytes = 4 * (c.fb.descriptor.pitch * c.font.cell_height)

  row_bytes_lem :
      (u32 (u32 (c.fb.descriptor.pitch * c.font.cell_height) * 4) ≡ row_bytes)
      × (row_bytes ≤ c.fb.descriptor.size)
  row_bytes_lem =
      let lines : c.fb.descriptor.pitch * c.font.cell_height
          ≤ c.fb.descriptor.pitch * c.fb.descriptor.height =
        grind arith in
      (omega (arith, lines, is.countable), omega (arith, lines, is.screen.room))

  -- The byte of the copy at `i` after the first of the two copies.
  abbrev moved : Bytes → ℕ → ℕ
  moved m i =
      if ltb i (c.fb.descriptor.size - row_bytes)
      then m (c.fb.descriptor.base + row_bytes + i)
      else m (c.fb_shadow.descriptor.base + i)

  saved_lem :
      (m : Bytes) (i : ℕ)
      → i < c.fb.descriptor.size
      → (copy c.fb c.fb_shadow row_bytes m).1 (c.fb_shadow.descriptor.base + i) ≡ moved m i
  saved_lem m i h =
      let (same, small) = row_bytes_lem in
      let index : c.fb_shadow.descriptor.base + i - c.fb_shadow.descriptor.base ≡ i = omega arith in
      (copy_lem c.fb c.fb_shadow row_bytes m (c.fb_shadow.descriptor.base + i) small
        is.size_bound).1
      ∙ rw index (ground (arith, is.same_size, small))

  -- After scrolling, the screen and its copy hold the same: what stood one row of characters further
  -- down, and in the last row what stood there in the copy.
  pub scroll-moved :
      (m : Bytes) (i : ℕ)
      → i < c.fb.descriptor.size
      → let after = (scroll (c, m)).1 in
        let byte =
          if ltb i (c.fb.descriptor.size - row_bytes)
          then m (c.fb.descriptor.base + row_bytes + i)
          else m (c.fb_shadow.descriptor.base + i) in
        (after (c.fb.descriptor.base + i) ≡ byte) × (after (c.fb_shadow.descriptor.base + i) ≡ byte)
  unfolding scroll
  scroll-moved m i h =
      let (same, small) = row_bytes_lem in
      let saved = (copy c.fb c.fb_shadow row_bytes m).1 in
      let filled = fill c.fb c.background_color saved in
      let kept : filled (c.fb_shadow.descriptor.base + i) ≡ moved m i =
        fill-Keeps c.fb c.background_color saved (c.fb_shadow.descriptor.base + i) outside
        ∙ saved_lem m i h in
      let index : c.fb_shadow.descriptor.base
            + 0
            + (c.fb.descriptor.base + i - c.fb.descriptor.base)
          ≡ c.fb_shadow.descriptor.base + i =
        omega arith in
      rw same (
        (copy_lem c.fb_shadow c.fb 0 filled (c.fb.descriptor.base + i) (omega arith)
              (omega (arith, is.size_bound, is.same_size))).1
            ∙ (rw index (ground (arith, is.same_size)) ∙ kept),
        (copy_lem c.fb_shadow c.fb 0 filled (c.fb_shadow.descriptor.base + i) (omega arith)
              (omega (arith, is.size_bound, is.same_size))).1
            ∙ (elim apart [
              | inl a ↦ ground (arith, is.same_size)
              | inr a ↦ ground (arith, is.same_size)
            ]
                ∙ kept),
      )
    where
      outside :
          (c.fb_shadow.descriptor.base + i < c.fb.fb)
          ⊎ (c.fb.fb + c.fb.descriptor.size ≤ c.fb_shadow.descriptor.base + i)
      outside = elim apart [
        | inl a ↦ inr (omega (arith, is.screen.at_base))
        | inr a ↦ inl (omega (arith, is.screen.at_base, is.same_size))
      ]
