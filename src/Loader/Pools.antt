-- ===== src/Loader/Pools.antt =====
-- What the boot loader's run holds at its end (boot/src/main.c).
use nokernel.Prelude.{ℕ, Bool, true, false, not, ◌==◌, List, [], ◌∷◌, ◌≡◌, none, some, characters}
use nokernel.Memory.{Bytes}
use nokernel.Loader.{Firmware, World, Resource, file, pool, pages, held, efi_error}
use nokernel.Loader.Disk.{Loaded, load_bmp_file}
use nokernel.Loader.Elf.{placed, Kernel, load_kernel}
use nokernel.Loader.Handover.{Handover, returned, entered, MapInfo}
use nokernel.Loader.Release.{NonNull}
use nokernel.Loader.Main.{Platform, Run, Information, leave, allocated}

-- A buffer that the firmware does not give is left null.
unfoldable pub LeavesNull : Firmware → Type 0
LeavesNull f =
    (s : f.State) (size : ℕ)
    → efi_error (f.allocate_pool s size).0.0 ≡ true
    → ((f.allocate_pool s size).0.1 == 0) ≡ true

-- The buffers among what is held.
abbrev pub pools_of : List Resource → List Resource
pools_of [] = []
pools_of (file a ∷ xs) = pools_of xs
pools_of (pool a ∷ xs) = pool a ∷ pools_of xs
pools_of (pages a n ∷ xs) = pools_of xs

abbrev font_path : List ℕ
font_path = characters "\\assets\\terminus32x16.bmp"

-- The run came to `w` as it read the whole of a file, of the size that the firmware had given for it,
-- into the buffer at `raw`.
pub record ReadWhole (f : Firmware) (raw file_size : ℕ) (w : World f) : Type 0 where
  pub handle : ℕ
  pub info_size : ℕ
  pub info : ℕ
  pub asked : f.State
  pub sized : (f.get_info asked handle info_size info).0.1.1 ≡ file_size
  pub bytes : Bytes
  pub state : f.State
  pub whole : (f.read_file state handle file_size raw bytes).0.1 ≡ file_size
  pub now : (f.read_file state handle file_size raw bytes).1 ≡ (w.firmware, w.bytes)

module _ {f : Firmware} (p : Platform f) where
  -- Whether the firmware has so many pages at an address.
  abbrev pub room_in : World f → ℕ → ℕ → Bool
  room_in w vmin count = not (efi_error (p.allocate_at w.firmware vmin count).0)

  -- The font, once the kernel is in the memory `m`, and the run after it.
  abbrev pub font_after : ℕ → ℕ → ℕ → World f → Bytes → Loaded f
  font_after root raw file_size w m =
      load_bmp_file f root font_path (record (allocated f p raw file_size w) { bytes = m })

  -- What the kernel is told.
  abbrev pub told : Kernel → Loaded f → Information
  told k l = record {
    kernel_phys = k.phys_base;
    kernel_virt = k.kernel_virt;
    kernel_size = k.kernel_size;
    fb = (p.locate_graphics l.1.firmware).0.1;
    font = l.0.1;
  }

  -- How a run ends: with an error, and it holds no buffer more than before; or in the kernel, at the
  -- entry point of a file that was read whole, checked and placed, with the memory that the placement
  -- and the reads of the font leave, and told where the kernel lies and what the firmware gave for the
  -- font and the framebuffer; and it holds the buffer of the file and that of the memory map.
  pub data Finishes (before : List Resource) (r : Run f) : Type 0 where
    fails :
        (err : ℕ)
        → r.0 ≡ (returned err, none)
        → efi_error err ≡ true
        → pools_of (held r.1.trace) ≡ before
        → Finishes before r
    starts :
        (root raw file_size : ℕ) (w : World f) (m : Bytes) (k : Kernel) (stack : ℕ) (map : MapInfo)
        → ReadWhole f raw file_size w
        → load_kernel (room_in w) raw file_size w.bytes ≡ placed k m
        → r.0
          ≡ (entered k.entry_physical stack map, some (told k (font_after root raw file_size w m)))
        → r.1.bytes ≡ (font_after root raw file_size w m).1.bytes
        → pools_of (held r.1.trace) ≡ pool map.mmap ∷ pool raw ∷ before
        → Finishes before r

module _ (f : Firmware) (p : Platform f) where
  module _ (ok : NonNull f) (raw : ℕ) (n : (raw == 0) ≡ false) (before : List Resource) where
    -- The kernel is placed.
    module _ (root file_size : ℕ) (w : World f) (whole : ReadWhole f raw file_size w) (m : Bytes)
        (k : Kernel) (good : load_kernel (room_in p w) raw file_size w.bytes ≡ placed k m) where
      abbrev l : Loaded f
      l = font_after p root raw file_size w m

      abbrev handed : Handover × World f → Run f
      handed r = elim r.0 [
        | returned err' ↦ leave f p raw err' r.1
        | entered entry stack map ↦ ((entered entry stack map, some (told p k l)), r.1)
      ]

      abbrev placed_in : World f
      placed_in = record (allocated f p raw file_size w) { bytes = m }

    module _ (root file_size : ℕ) (w : World f) (whole : ReadWhole f raw file_size w)
        (h : pools_of (held w.trace) ≡ pool raw ∷ before) where
      abbrev w' : World f
      w' = allocated f p raw file_size w
