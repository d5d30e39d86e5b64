-- ===== src/Boot.antt =====
-- What the boot loader hands to the kernel (shared/boot/info.h, efimdesc.h, framebuffer.h), and
-- `contains` of lib/common/include/stdlib.h.
pub mod Walk
mod Tests
use nokernel.Prelude.{ℕ, zero, suc, ◌+◌, Bool, false, ◌||◌, List, [], ◌∷◌, ◌==◌, ltb, if◌then◌else◌}
use nokernel.Outcome.{Outcome, ok, hangs, ◌>>=◌}
use nokernel.Word.{u64}

-- `EFI_MEMORY_TYPE` is an unsigned number; the kernel uses one of its values.
abbrev pub efi_conventional_memory : ℕ
efi_conventional_memory = 7

pub record EfiMemoryDescriptor : Type 0 where
  pub type_of : ℕ
  pub physical_start : ℕ
  pub number_of_pages : ℕ

pub record FramebufferInfo : Type 0 where
  pub base : ℕ
  pub size : ℕ
  pub width : ℕ
  pub height : ℕ
  pub pitch : ℕ
  pub format : ℕ

-- `mmap` gives the descriptor that stands at a byte offset from `bootInfo->mmap`.
pub record BootInfo : Type 0 where
  pub mmap : ℕ → EfiMemoryDescriptor
  pub mmap_size : ℕ
  pub desc_size : ℕ
  pub fb : FramebufferInfo

-- The descriptors at which `for (offset = 0; offset < mmap_size; offset += desc_size)` stops, with
-- a bound on the rounds.
unfoldable pub walk_mmap : ℕ → BootInfo → ℕ → Outcome (List EfiMemoryDescriptor)
walk_mmap zero info offset = hangs
walk_mmap (suc rounds) info offset =
    let rest = walk_mmap rounds info (u64 (offset + info.desc_size)) in
    if ltb offset info.mmap_size then (rest >>= λ ds. ok (info.mmap offset ∷ ds)) else ok []

-- At most `mmap_size` steps of at least one byte.
unfoldable pub descriptors : BootInfo → Outcome (List EfiMemoryDescriptor)
unfolding walk_mmap
descriptors info = walk_mmap (suc info.mmap_size) info 0

unfoldable pub contains : ℕ → List ℕ → Bool
contains item [] = false
contains item (x ∷ xs) = x == item || contains item xs
