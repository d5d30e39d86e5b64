-- ===== src/Loader/Handover.antt =====
-- Leaving the firmware for the kernel (boot/src/include/boot/boot.c).
use nokernel.Prelude.{ℕ, zero, suc, ◌+◌, ◌*◌, not, ◌==◌, ◌∷◌, if◌then◌else◌, bit_and}
use nokernel.Word.{u64, sub64, not64}
use nokernel.Loader.{
  Firmware, World, took, released, pool, pages, efi_error, efi_success, efi_load_error,
  efi_buffer_too_small, efi_out_of_resources,
}

-- What `handover` writes to the boot information.
pub record MapInfo : Type 0 where
  pub mmap : ℕ
  pub mmap_size : ℕ
  pub desc_size : ℕ
  pub desc_ver : ℕ

-- It returns an error, or enters the kernel at an address, with a stack and the boot information.
pub data Handover : Type 0 where
  returned : ℕ → Handover
  entered : ℕ → ℕ → MapInfo → Handover

-- The last address of the stack, a multiple of 16.
abbrev pub stack_top : ℕ → ℕ
stack_top stack = bit_and (sub64 (u64 (stack + 16 * 4096)) 16) (not64 0xf)

module _ (f : Firmware) where
  open f use {State, allocate_pool, free_pool, allocate_pages, get_memory_map, exit_boot_services}

  -- The loop, with `attempts` left. After a failure in the last one, `mmap` is null.
  unfoldable pub attempt : ℕ → ℕ → ℕ → World f → Handover × World f
  attempt zero entry stack w = (returned efi_load_error, w)
  attempt (suc attempts) entry stack w =
      let ((first, needed), s1) = get_memory_map w.firmware 0 0 in
      let size = u64 (needed.size + u64 (4 * needed.descriptor_size)) in
      let ((err, mmap), s2) = allocate_pool s1 size in
      let w2 = record w { firmware = s2; trace = took (pool mmap) ∷ w.trace } in
      let ((second, map), s3) = get_memory_map s2 size mmap in
      let (exited, s4) = exit_boot_services s3 map.key in
      let again : State → Handover × World f = λ s.
        attempt attempts entry stack
          (record w2 { firmware = free_pool s mmap; trace = released (pool mmap) ∷ w2.trace }) in
      if not (first == efi_buffer_too_small)
      then (returned efi_load_error, record w { firmware = s1 })
      else (if efi_error err
          then (returned efi_out_of_resources, record w { firmware = s2 })
          else (if second == efi_success
              then (if exited == efi_success
                  then (
                    if mmap == 0
                        then returned efi_load_error
                        else entered entry (stack_top stack) (record {
                          mmap = mmap;
                          mmap_size = map.size;
                          desc_size = map.descriptor_size;
                          desc_ver = map.descriptor_version;
                        }),
                    record w2 { firmware = s4 },
                  )
                  else again s4)
              else again s3))

  -- Three attempts. The watchdog is switched off before.
  unfoldable pub handover : ℕ → World f → Handover × World f
  unfolding attempt
  handover entry w =
      let ((err, stack), s) = allocate_pages w.firmware 16 in
      if efi_error err
      then (returned efi_out_of_resources, record w { firmware = s })
      else attempt 3 entry stack
          (record w { firmware = s; trace = took (pages stack 16) ∷ w.trace })
