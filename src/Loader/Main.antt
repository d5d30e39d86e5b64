-- ===== src/Loader/Main.antt =====
-- The run of the boot loader (boot/src/main.c), and LibOpenRoot of boot/src/include/disk/disk.c. The
-- lines that it prints, with the walk for the identifier of the disk, are left out.
use nokernel.Prelude.{
  ℕ, ◌+◌, ◌/◌, ◌^◌, ◌-◌, not, ltb, ◌==◌, ◌∷◌, Option, none, some, if◌then◌else◌, characters,
}
use nokernel.Word.{sub64}
use nokernel.Memory.{Bytes}
use nokernel.Boot.{FramebufferInfo}
use nokernel.Font.{Bitmap}
use nokernel.Loader.{
  Firmware, World, Event, took, released, file, pool, pages, efi_error, efi_load_error,
  efi_out_of_resources,
}
use nokernel.Loader.Disk.{load_bmp_file, page_size}
use nokernel.Loader.Elf.{
  refused, no_room, placed, Kernel, is_kernel, scan, page_range, load_kernel, e_phoff, e_phnum,
}
use nokernel.Loader.Handover.{Handover, returned, entered, handover}
use nokernel.Word.{u64}

-- What the firmware offers besides.
pub record Platform (f : Firmware) : Type 0 where
  -- OpenProtocol for the loaded image: the status and the device; and CloseProtocol.
  pub open_image : f.State → (ℕ × ℕ) × f.State
  pub close_image : f.State → f.State
  -- HandleProtocol for the file system of a device, and OpenVolume: a handle.
  pub find_volume : f.State → ℕ → (ℕ × ℕ) × f.State
  pub open_volume : f.State → ℕ → (ℕ × ℕ) × f.State
  -- AllocatePages at an address.
  pub allocate_at : f.State → ℕ → ℕ → ℕ × f.State
  -- LocateProtocol for the graphics: the status and the mode.
  pub locate_graphics : f.State → (ℕ × FramebufferInfo) × f.State

-- What the boot information has, but for the memory map and the numbers that name its form.
pub record Information : Type 0 where
  pub kernel_phys : ℕ
  pub kernel_virt : ℕ
  pub kernel_size : ℕ
  pub fb : FramebufferInfo
  pub font : Option Bitmap

-- The pages that the kernel's segments need: `none` where the file is refused before they are asked
-- for.
unfoldable pub request : ℕ → ℕ → Bytes → Option (ℕ × ℕ)
request raw file_size m =
    let range = scan m raw (u64 (raw + e_phoff m raw)) 0 (e_phnum m raw) (2 ^ 64 - 1, 0) in
    let (vmin, vmax) = page_range range in
    if not (is_kernel raw file_size m)
    then none
    else (if ltb range.1 range.0 then none else some (vmin, sub64 vmax vmin / page_size))

-- How the run ends, and the boot information if the kernel is entered.
abbrev pub Run : Firmware → Type 0
Run f = (Handover × Option Information) × World f

module _ (f : Firmware) (p : Platform f) where
  open f use {State, open_file, get_info, read_file, allocate_pool, free_pool, allocate_pages}
  open p use {open_image, close_image, find_volume, open_volume, allocate_at, locate_graphics}

  abbrev pub take : Event → State → World f → World f
  take e s w = record w { firmware = s; trace = e ∷ w.trace }

  abbrev pub moved : State → World f → World f
  moved s w = record w { firmware = s }

  -- `out:`, with the buffer of the file.
  unfoldable pub leave : ℕ → ℕ → World f → Run f
  leave raw err w =
      let closed = moved (close_image w.firmware) w in
      (
        (returned err, none),
        if raw == 0
            then closed
            else take (released (pool raw)) (free_pool closed.firmware raw) closed,
      )

  -- The status and the root of the file system.
  unfoldable pub lib_open_root : ℕ → State → (ℕ × ℕ) × State
  lib_open_root device s =
      let ((status, volume), s') = find_volume s device in
      if not (efi_error status) then open_volume s' volume else ((efi_load_error, 0), s')

  -- The page for the boot information, and the handover.
  unfoldable pub start_kernel : ℕ → Kernel → Option Bitmap → FramebufferInfo → World f → Run f
  start_kernel raw k font fb w =
      let ((err, info), s) = allocate_pages w.firmware 1 in
      if efi_error err
      then leave raw err (moved s w)
      else (let (h, w') = handover f k.entry_physical (take (took (pages info 1)) s w) in
          elim h [
            | returned err' ↦ leave raw err' w'
            | entered entry stack map ↦ (
              (
                entered entry stack map,
                some (record {
                  kernel_phys = k.phys_base;
                  kernel_virt = k.kernel_virt;
                  kernel_size = k.kernel_size;
                  fb = fb;
                  font = font;
                }),
              ),
              w',
            )
          ])

  unfoldable pub with_graphics : ℕ → Kernel → Option Bitmap → World f → Run f
  with_graphics raw k font w =
      let ((err, fb), s) = locate_graphics w.firmware in
      if efi_error err then leave raw err (moved s w) else start_kernel raw k font fb (moved s w)

  unfoldable pub with_font : ℕ → ℕ → Kernel → World f → Run f
  with_font root raw k w =
      let ((err, font), w') = load_bmp_file f root (characters "\\assets\\terminus32x16.bmp") w in
      if efi_error err then leave raw err w' else with_graphics raw k font w'

  -- The pages are asked for at the address in the file.
  unfoldable pub allocated : ℕ → ℕ → World f → World f
  allocated raw file_size w = elim (request raw file_size w.bytes) [
    | none ↦ w
    | some (vmin, count) ↦
        let (err, s) = allocate_at w.firmware vmin count in
        if efi_error err then moved s w else take (took (pages vmin count)) s w
  ]

  -- From the checks of the file on.
  unfoldable pub with_kernel : ℕ → ℕ → ℕ → World f → Run f
  with_kernel root raw file_size w =
      let free = λ (vmin count : ℕ). not (efi_error (allocate_at w.firmware vmin count).0) in
      let w' = allocated raw file_size w in
      elim (load_kernel free raw file_size w.bytes) [
        | refused m ↦ leave raw efi_load_error (record w' { bytes = m })
        | no_room ↦ leave raw efi_out_of_resources w'
        | placed k m ↦ with_font root raw k (record w' { bytes = m })
      ]

  -- The buffer is there: the file is read.
  unfoldable pub with_buffer : ℕ → ℕ → ℕ → ℕ → World f → Run f
  with_buffer root handle raw file_size w =
      let ((_, read), (s, bytes)) = read_file w.firmware handle file_size raw w.bytes in
      let w' = record w { firmware = s; bytes = bytes } in
      if not (read == file_size)
      then leave raw efi_load_error w'
      else with_kernel root raw file_size w'

  -- The kernel's file is open: its size, and the buffer.
  unfoldable pub with_handle : ℕ → ℕ → World f → Run f
  with_handle root handle w =
      let ((_, (info_size, _)), s1) = get_info w.firmware handle 0 0 in
      let ((err, info), s2) = allocate_pool s1 info_size in
      if efi_error err
      then leave 0 efi_out_of_resources (moved s2 w)
      else (let ((_, (_, file_size)), s3) = get_info s2 handle info_size info in
          let s4 = free_pool s3 info in
          let ((err', raw), s5) = allocate_pool s4 file_size in
          let w' = take (released (pool info)) s5 (take (took (pool info)) s2 w) in
          if efi_error err'
          then leave raw efi_out_of_resources w'
          else with_buffer root handle raw file_size (take (took (pool raw)) s5 w'))

  unfoldable pub with_root : ℕ → World f → Run f
  with_root root w =
      let ((err, handle), s) = open_file w.firmware root (characters "\\kernel.elf") in
      if efi_error err
      then leave 0 err (moved s w)
      else with_handle root handle (take (took (file handle)) s w)

  unfoldable pub efi_main : World f → Run f
  efi_main w =
      let ((err, device), s1) = open_image w.firmware in
      if efi_error err
      then leave 0 err (moved s1 w)
      else (let ((err', root), s2) = lib_open_root device s1 in
          if efi_error err'
          then leave 0 err' (moved s2 w)
          else with_root root (take (took (file root)) s2 w))
