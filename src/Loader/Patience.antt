-- ===== src/Loader/Patience.antt =====
-- When the kernel is entered (boot/src/include/boot/boot.c).
use nokernel.Prelude.{ℕ, ◌+◌, ◌*◌, ◌≤◌, ◌<◌, ◌≡◌, ◌⊎◌, false, ◌==◌}
use nokernel.Word.{u64}
use nokernel.Loader.{Firmware, efi_error, efi_success, efi_buffer_too_small}

-- A firmware that has memory to give, and that can be asked to be left: it tells the size of the map,
-- a buffer with room for four descriptors more takes the map, and being left by the key of the map
-- that it gave last is declined no more often than `declines` says, which no other call raises.
pub record Willing (f : Firmware) : Type 0 where
  pub declines : f.State → ℕ
  pub gives_pool : (s : f.State) (size : ℕ) → efi_error (f.allocate_pool s size).0.0 ≡ false
  pub gives_pages : (s : f.State) (count : ℕ) → efi_error (f.allocate_pages s count).0.0 ≡ false
  pub tells_size : (s : f.State) → (f.get_memory_map s 0 0).0.0 ≡ efi_buffer_too_small
  pub fits :
      (s : f.State)
      → let ((_, needed), s1) = f.get_memory_map s 0 0 in
        let size = u64 (needed.size + u64 (4 * needed.descriptor_size)) in
        let ((_, mmap), s2) = f.allocate_pool s1 size in
        (f.get_memory_map s2 size mmap).0.0 ≡ efi_success
  pub leaves :
      (s : f.State) (size mmap : ℕ)
      → let ((_, map), s') = f.get_memory_map s size mmap in
        ((f.exit_boot_services s' map.key).0 ≡ efi_success)
        ⊎ (((f.exit_boot_services s' map.key).0 == efi_success) ≡ false)
          × (declines (f.exit_boot_services s' map.key).1 < declines s)
  pub asking :
      (s : f.State) (size mmap : ℕ) → declines (f.get_memory_map s size mmap).1 ≤ declines s
  pub taking : (s : f.State) (size : ℕ) → declines (f.allocate_pool s size).1 ≤ declines s
  pub freeing : (s : f.State) (a : ℕ) → declines (f.free_pool s a) ≤ declines s
