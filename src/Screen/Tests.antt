-- ===== src/Screen/Tests.antt =====
-- Runs of the framebuffer (kernel/dev/framebuffer.cpp).
use nokernel.Prelude.{ℕ, ◌≡◌, refl}
use nokernel.Boot.{FramebufferInfo}
use nokernel.Memory.{Bytes}
use nokernel.Screen.{Framebuffer, draw, fill}

-- Four pixels by four.
abbrev pixels : ℕ → FramebufferInfo
pixels base = record { base = base; size = 64; width = 4; height = 4; pitch = 4; format = 0 }

abbrev screen : Framebuffer
screen = record { descriptor = pixels 0x1000; fb = 0x1000 }

abbrev other : Framebuffer
other = record { descriptor = pixels 0x2000; fb = 0x2000 }

abbrev counting : Bytes
counting = λ a. a

draw_run : draw screen 1 2 0x1122_3344 counting 0x1026 ≡ 0x22
unfolding draw nokernel.Memory.write32 nokernel.Memory.write
draw_run = refl

fill_run : fill screen 0x1122_3344 counting 0x1003 ≡ 0x11
unfolding fill nokernel.Memory.uint32_memset nokernel.Memory.set32_loop nokernel.Memory.write32
    nokernel.Memory.write
fill_run = refl
