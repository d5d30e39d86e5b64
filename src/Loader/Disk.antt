-- ===== src/Loader/Disk.antt =====
-- Loading a bitmap file (boot/src/include/disk/disk.c).
use nokernel.Prelude.{
  ℕ, ◌+◌, ◌*◌, ◌/◌, not, ◌||◌, ltb, ◌==◌, List, ◌∷◌, Option, none, some, if◌then◌else◌,
}
use nokernel.Word.{align_up}
use nokernel.Memory.{memset}
use nokernel.Font.{Bitmap}
use nokernel.Loader.{
  Firmware, World, took, released, file, pool, pages, efi_error, efi_success, efi_load_error,
  efi_buffer_too_small,
}

-- `sizeof(BitmapHeader)` and PAGE_SIZE.
abbrev pub bitmap_header_size : ℕ
bitmap_header_size = 58

abbrev pub page_size : ℕ
page_size = 4096

module _ (f : Firmware) where
  open f use {
    State, open_file, close_file, get_info, read_file, allocate_pool, free_pool, allocate_pages,
    free_pages,
  }

  -- The status, the bitmap if it was filled in, and what is left.
  abbrev pub Loaded : Type 0
  Loaded = (ℕ × Option Bitmap) × World f

  -- `out:`, with the pool of the information and with the file.
  abbrev pub close_all : ℕ → Loaded → Loaded
  close_all handle (r, w) = if handle == 0 then (r, w) else (
    r,
    record w { firmware = close_file w.firmware handle; trace = released (file handle) ∷ w.trace },
  )

  abbrev pub free_info : ℕ → Loaded → Loaded
  free_info info (r, w) = if info == 0 then (r, w) else (
    r,
    record w { firmware = free_pool w.firmware info; trace = released (pool info) ∷ w.trace },
  )

  -- `error:`.
  abbrev pub give_up : ℕ → ℕ → ℕ → World f → Loaded
  give_up err base count w = (
    (err, none),
    record w {
      firmware = free_pages w.firmware base count;
      trace = released (pages base count) ∷ w.trace;
    },
  )

  -- From the read of the file on: the pages are taken.
  unfoldable pub read_bitmap : ℕ → ℕ → ℕ → ℕ → World f → Loaded
  read_bitmap handle size base count w =
      let cleared = (memset base 0 (count * page_size) w.bytes).1 in
      let ((err, read), (state, bytes)) = read_file w.firmware handle size base cleared in
      let w' = record w { firmware = state; bytes = bytes } in
      if efi_error err
      then give_up err base count w'
      else (if not (read == size)
          then give_up efi_load_error base count w'
          else (if not (bytes base == 66) || not (bytes (base + 1) == 77)
              then give_up efi_load_error base count w'
              else ((efi_success, some (record { header = base; base_address = base })), w')))

  -- From the second GetInfo on: the pool for the information is taken.
  unfoldable pub read_info : ℕ → ℕ → ℕ → World f → Loaded
  read_info handle info_size info w =
      let ((err, (_, size)), state) = get_info w.firmware handle info_size info in
      let w1 = record w { firmware = state } in
      if efi_error err
      then ((err, none), w1)
      else (if ltb size bitmap_header_size
          then ((efi_load_error, none), w1)
          else (let count = align_up size page_size / page_size in
              let ((err', base), state') = allocate_pages state count in
              if efi_error err'
              then ((err', none), record w1 { firmware = state' })
              else read_bitmap handle size base count
                  (record w1 { firmware = state'; trace = took (pages base count) ∷ w1.trace })))

  -- From the first GetInfo on: the file is open.
  unfoldable pub with_file : ℕ → World f → Loaded
  with_file handle w =
      let ((err, (info_size, _)), state) = get_info w.firmware handle 0 0 in
      let w1 = record w { firmware = state } in
      if not (err == efi_buffer_too_small)
      then ((efi_load_error, none), w1)
      else (let ((err', info), state') = allocate_pool state info_size in
          let w2 = record w1 { firmware = state' } in
          if efi_error err'
          then ((err', none), w2)
          else free_info info
              (read_info handle info_size info (record w2 { trace = took (pool info) ∷ w2.trace })))

  unfoldable pub load_bmp_file : ℕ → List ℕ → World f → Loaded
  load_bmp_file root path w =
      let ((err, handle), state) = open_file w.firmware root path in
      let w1 = record w { firmware = state } in
      if efi_error err
      then ((err, none), w1)
      else close_all handle (with_file handle (record w1 { trace = took (file handle) ∷ w1.trace }))
