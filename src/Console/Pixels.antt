-- ===== src/Console/Pixels.antt =====
-- The pixels that the console may draw, and the bytes that it may write (kernel/dev/console.cpp and
-- framebuffer.cpp).
use nokernel.Prelude.{ℕ, zero, suc, ◌+◌, ◌*◌, ◌^◌, ◌≤◌, ◌<◌, ◌≡◌, ◌∙◌, ◌⊎◌, arith, inl, inr}
use nokernel.Word.{u32}
use nokernel.Memory.{Bytes}
use nokernel.Screen.{Framebuffer, draw, copy, pixel_offset}
use nokernel.Screen.Draw.{IsScreen, write32_lem, copy_lem}
use nokernel.Console.{Console}

-- The screen has room for its lines, a line and a cell more can be counted, and the copy of the
-- screen is as large as the screen.
pub record IsDrawable (c : Console) : Type 0 where
  pub screen : IsScreen c.fb
  pub line : c.fb.descriptor.width ≤ c.fb.descriptor.pitch
  pub countable : 4 * (c.fb.descriptor.pitch * c.fb.descriptor.height + c.font.cell_width) < 2 ^ 32
  pub shown : 0 < c.fb.descriptor.height
  pub height_bound : c.fb.descriptor.height < 2 ^ 32
  pub size_bound : c.fb.descriptor.size < 2 ^ 64
  pub shadow_at_base : c.fb_shadow.fb ≡ c.fb_shadow.descriptor.base
  pub same_size : c.fb_shadow.descriptor.size ≡ c.fb.descriptor.size

-- Outside of the screen, with the lines of one more cell behind it, and of its copy.
abbrev pub Outside : Console → ℕ → Type 0
Outside c x =
    ((x < c.fb.descriptor.base)
      ⊎ (c.fb.descriptor.base + (c.fb.descriptor.size + 4 * c.font.cell_width) ≤ x))
    × ((x < c.fb_shadow.descriptor.base)
        ⊎ (c.fb_shadow.descriptor.base + c.fb_shadow.descriptor.size ≤ x))

pub at_least : (w h : ℕ) → 0 < h → w ≤ w * h
at_least w zero i = absurd (omega arith)
at_least w (suc h) i = grind arith

-- The number of a pixel of a cell that begins at most at the end of a line.
pub cell_pixel : (px py w h cw : ℕ) → px < w + cw → py < h → py * w + px < w * h + cw
cell_pixel px py w h cw hx hy = grind arith

pub draw-Outside :
    (c : Console) (px py rgbd : ℕ) (m : Bytes) (x : ℕ)
    → IsDrawable c
    → px < c.fb.descriptor.pitch + c.font.cell_width
    → py < c.fb.descriptor.height
    → Outside c x
    → draw c.fb px py rgbd m x ≡ m x
unfolding draw
draw-Outside c px py rgbd m x is hx hy (out, _) =
    let inside =
      cell_pixel px py c.fb.descriptor.pitch c.fb.descriptor.height c.font.cell_width hx hy in
    write32_lem (c.fb.fb + 4 * pixel_offset c.fb px py) rgbd m x ∙ elim out [
      | inl h ↦ ground (arith, is.screen.at_base, is.countable)
      | inr h ↦ ground (arith, is.screen.at_base, is.screen.room, is.countable)
    ]

pub copy-Outside :
    (f destination : Framebuffer) (offset : ℕ) (m : Bytes) (x : ℕ)
    → offset ≤ f.descriptor.size
    → f.descriptor.size < 2 ^ 64
    → (x < destination.descriptor.base)
      ⊎ (destination.descriptor.base + destination.descriptor.size ≤ x)
    → (copy f destination offset m).1 x ≡ m x
copy-Outside f destination offset m x h k (inl out) =
    (copy_lem f destination offset m x h k).1 ∙ ground arith
copy-Outside f destination offset m x h k (inr out) =
    (copy_lem f destination offset m x h k).1 ∙ ground arith

-- The cursor leaves room for the lines of a cell.
abbrev pub Fits : Console → ℕ → ℕ → Type 0
Fits c left top =
    (left ≤ c.fb.descriptor.width) × (top + c.font.cell_height ≤ c.fb.descriptor.height)

-- The coordinates of a pixel of the cell.
module _ (c : Console) (is : IsDrawable c) (left top : ℕ) (room : Fits c left top) where
  pub column_small :
      (gx : ℕ)
      → gx < c.font.cell_width
      → (u32 (gx + left) ≡ gx + left) × (gx + left < c.fb.descriptor.pitch + c.font.cell_width)
  column_small gx hg =
      let some : c.fb.descriptor.pitch ≤ c.fb.descriptor.pitch * c.fb.descriptor.height =
        at_least c.fb.descriptor.pitch c.fb.descriptor.height is.shown in
      (omega (arith, room.0, is.line, is.countable), omega (arith, room.0, is.line))

  pub row_small :
      (gy : ℕ)
      → gy < c.font.cell_height
      → (u32 (gy + top) ≡ gy + top) × (gy + top < c.fb.descriptor.height)
  row_small gy hg = (omega (arith, room.1, is.height_bound), omega (arith, room.1))
