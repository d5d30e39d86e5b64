-- ===== src/Screen/Draw.antt =====
-- What drawing a pixel and filling the screen write (kernel/dev/framebuffer.cpp).
use nokernel.Prelude.{
  ℕ, zero, suc, ◌+◌, ◌-◌, ◌*◌, ◌/◌, ◌%◌, ◌^◌, ◌≤◌, ◌<◌, ◌≡◌, refl, ◌∙◌, ◌⊎◌, true, false, ◌&&◌, ltb,
  leb, ◌==◌, if◌then◌else◌, arith, Bool-cases, inl, inr,
}
use nokernel.Word.{u8, sub64}
use nokernel.Memory.{Bytes, write, write32, set32_loop, uint32_memset, memcpy}
use nokernel.Memory.Copy.{bcopy-copied}
use nokernel.Screen.{Framebuffer, fill, copy, pixel_offset}

-- The byte of a `uint32_t` at `i`, least first.
abbrev pub byte_of : ℕ → ℕ → ℕ
byte_of v i =
    if i == 0
    then u8 v
    else if i == 1
    then u8 (v / 2 ^ 8)
    else if i == 2
    then u8 (v / 2 ^ 16)
    else u8 (v / 2 ^ 24)

pub write32_lem :
    (a v : ℕ) (m : Bytes) (x : ℕ)
    → write32 a v m x ≡ (if leb a x && ltb x (a + 4) then byte_of v (x - a) else m x)
unfolding write32 write
write32_lem a v m x = ground arith

-- The pixels of the screen lie in its memory, and their numbers in 32 bits.
pub record IsScreen (f : Framebuffer) : Type 0 where
  pub room : 4 * (f.descriptor.pitch * f.descriptor.height) ≤ f.descriptor.size
  pub small : f.descriptor.pitch * f.descriptor.height < 2 ^ 32
  pub at_base : f.fb ≡ f.descriptor.base

-- The number of a pixel inside of the lines is not cut, and is less than that of the pixels.
pub pixel_offset_lem :
    (f : Framebuffer) (x y : ℕ)
    → IsScreen f
    → x < f.descriptor.pitch
    → y < f.descriptor.height
    → (pixel_offset f x y ≡ y * f.descriptor.pitch + x)
      × (y * f.descriptor.pitch + x < f.descriptor.pitch * f.descriptor.height)
pixel_offset_lem f x y is hx hy =
    let inside : y * f.descriptor.pitch + x < f.descriptor.pitch * f.descriptor.height =
      grind arith in
    let small : y * f.descriptor.pitch + x < 2 ^ 32 = omega (arith, is.small) in
    (omega arith, inside)

set32_loop_lem :
    (n ptr val : ℕ) (m : Bytes) (x : ℕ)
    → set32_loop ptr val n m x
      ≡ (if leb ptr x && ltb x (ptr + 4 * n) then byte_of val ((x - ptr) % 4) else m x)
unfolding set32_loop
set32_loop_lem zero ptr val m x = ground arith
set32_loop_lem (suc n) ptr val m x =
    set32_loop_lem n (ptr + 4) val (write32 ptr val m) x ∙ elim (Bool-cases (leb (ptr + 4) x)) [
      | inl e ↦
          let same : (x - (ptr + 4)) % 4 ≡ (x - ptr) % 4 = ground arith in
          rw (same, write32_lem ptr val m x) (ground arith)
      | inr e ↦ rw (write32_lem ptr val m x) (elim (Bool-cases (leb ptr x)) [
        | inl at ↦ let same : (x - ptr) % 4 ≡ x - ptr = ground arith in rw same (ground arith)
        | inr below ↦ ground arith
      ])
    ]

-- Filling sets every whole pixel of the screen to the colour, and changes no other byte.
pub fill_lem :
    (f : Framebuffer) (rgbd : ℕ) (m : Bytes) (x : ℕ)
    → fill f rgbd m x ≡ (
        if leb f.fb x && ltb x (f.fb + 4 * (f.descriptor.size / 4))
        then byte_of rgbd ((x - f.fb) % 4)
        else m x)
unfolding fill uint32_memset
fill_lem f rgbd m x = set32_loop_lem (f.descriptor.size / 4) f.fb rgbd m x

-- The bytes outside of a range stay.
abbrev pub Keeps : ℕ → ℕ → Bytes → Bytes → Type 0
Keeps start stop m m' = (x : ℕ) → (x < start) ⊎ (stop ≤ x) → m' x ≡ m x

pub fill-Keeps :
    (f : Framebuffer) (rgbd : ℕ) (m : Bytes)
    → Keeps f.fb (f.fb + f.descriptor.size) m (fill f rgbd m)
fill-Keeps f rgbd m x (inl h) = fill_lem f rgbd m x ∙ ground arith
fill-Keeps f rgbd m x (inr h) = fill_lem f rgbd m x ∙ ground arith

-- Copying an image into one that is as large writes what the source held from the offset on to the
-- start of the destination, whatever overlaps, and changes no other byte; into a smaller one than
-- what is left, it changes nothing and returns false.
pub copy_lem :
    (f destination : Framebuffer) (offset : ℕ) (m : Bytes) (x : ℕ)
    → offset ≤ f.descriptor.size
    → f.descriptor.size < 2 ^ 64
    → let start = destination.descriptor.base in
      let length = f.descriptor.size - offset in
      ((copy f destination offset m).0 ≡ leb length destination.descriptor.size)
      × ((copy f destination offset m).1 x ≡ (
          if leb length destination.descriptor.size && (leb start x && ltb x (start + length))
          then m (f.descriptor.base + offset + (x - start))
          else m x))
unfolding copy memcpy
copy_lem f destination offset m x h k =
    let left : sub64 f.descriptor.size offset ≡ f.descriptor.size - offset = omega arith in
    let bytes =
      bcopy-copied (f.descriptor.base + offset) destination.descriptor.base
        (f.descriptor.size - offset) m x in
    rw left (elim (Bool-cases (ltb destination.descriptor.size (f.descriptor.size - offset))) [
      | inl e ↦
          let no : leb (f.descriptor.size - offset) destination.descriptor.size ≡ false =
            ground arith in
          rw (e, no) (refl, refl)
      | inr e ↦
          let yes : leb (f.descriptor.size - offset) destination.descriptor.size ≡ true =
            ground arith in
          rw (e, yes) (refl, bytes)
    ])
