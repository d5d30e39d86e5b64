-- ===== src/Screen.antt =====
-- The framebuffer (kernel/dev/framebuffer.cpp), in memory as bytes by address.
pub mod Draw
mod Tests
use nokernel.Prelude.{ℕ, ◌+◌, ◌*◌, ◌/◌, Bool, true, false, not, ltb, ◌==◌, if◌then◌else◌}
use nokernel.Outcome.{Outcome, ok, ◌>>=◌, assert}
use nokernel.Word.{u32, sub64}
use nokernel.Boot.{FramebufferInfo}
use nokernel.Memory.{Bytes, write32, memcpy, memset, uint32_memset}
use nokernel.Heap.Calls
use nokernel.Heap.Calls.{Mapper}

-- The object: its descriptor, and the pixels, which begin at the address in the descriptor.
pub record Framebuffer : Type 0 where
  pub descriptor : FramebufferInfo
  pub fb : ℕ

unfoldable pub new_framebuffer : FramebufferInfo → Framebuffer
new_framebuffer d = record { descriptor = d; fb = d.base }

abbrev pub pixel_offset : Framebuffer → ℕ → ℕ → ℕ
pixel_offset f x y = u32 (u32 (y * f.descriptor.pitch) + x)

unfoldable pub draw : Framebuffer → ℕ → ℕ → ℕ → Bytes → Bytes
draw f x y rgbd m = write32 (f.fb + 4 * pixel_offset f x y) rgbd m

unfoldable pub fill : Framebuffer → ℕ → Bytes → Bytes
fill f rgbd m = (uint32_memset f.fb rgbd (f.descriptor.size / 4) m).1

unfoldable pub get_height : Framebuffer → ℕ
get_height f = f.descriptor.height

unfoldable pub get_width : Framebuffer → ℕ
get_width f = f.descriptor.width

unfoldable pub copy : Framebuffer → Framebuffer → ℕ → Bytes → Bool × Bytes
copy f destination offset m =
    let length = sub64 f.descriptor.size offset in
    if ltb destination.descriptor.size length
    then (false, m)
    else (true, (memcpy destination.descriptor.base (f.descriptor.base + offset) length m).1)

-- `sizeof(framebuffer_t)` and `sizeof(Framebuffer)`: two words and four half words; two pointers.
abbrev pub framebuffer_info_size : ℕ
framebuffer_info_size = 32

abbrev pub framebuffer_size : ℕ
framebuffer_size = 16

-- The heap, and the bytes of the memory. The two objects that are made take their room in the heap,
-- and are values here.
unfoldable pub clone :
    (m : Mapper)
    → Framebuffer
    → Calls.System m
    → Bytes
    → Outcome (Framebuffer × (Calls.System m × Bytes))
clone m f s bytes = Calls.operator_new m s framebuffer_info_size >>= λ (_, s1).
    Calls.alloc m s1 f.descriptor.size >>= λ (ptr, s2). assert (not (ptr == 0)) >>= λ _.
    let cleared = (memset ptr 0 f.descriptor.size bytes).1 in
    Calls.operator_new m s2 framebuffer_size >>= λ (_, s3).
    ok (new_framebuffer (record f.descriptor { base = ptr }), (s3, cleared))
