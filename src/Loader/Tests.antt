-- ===== src/Loader/Tests.antt =====
-- Runs of the boot loader (boot/src) on a small firmware.
use nokernel.Prelude.{
  Bool-cases, ltb→lt, ℕ, zero, suc, ◌+◌, ◌%◌, ◌-◌, ◌*◌, ◌^◌, ◌≤◌, ◌<◌, ◌≡◌, ◌⊎◌, inl, inr, refl,
  sym, true, false, ltb, ◌==◌, [], ◌∷◌, if◌then◌else◌, arith, characters,
}
use mathlib.Core.Path.{subst}
use nokernel.Word.{u64, sub64}
use nokernel.Memory.{Bytes, memmove, memset, memcmp}
use nokernel.Loader.Runtime.{boot_memmove, boot_memset, boot_memcmp, SameSign, boot_memory_lem}
use nokernel.Loader.{Firmware, World, pool, pages, held, efi_out_of_resources}
use nokernel.Loader.Disk.{load_bmp_file, read_bitmap, read_info, with_file}
use nokernel.Loader.Handover.{returned, handover, attempt}
use nokernel.Loader.Release.{NonNull, Ends, load_bmp_file-Ends}
use nokernel.Loader.Entered.{Left, handover-Left}
use nokernel.Loader.Main.{Platform}
use nokernel.Loader.Patience.{Willing}
use nokernel.Loader.Elf.{load_kernel, scan, page_range, phdr_address, phdr_at}
use nokernel.Loader.Placed.{InFile}
use nokernel.Loader.Range.{Countable, bytes_after, load_kernel-outside}
use nokernel.Loader.Path.{print_hex, print_int, nibbles, decimal}

-- Calls are counted; results are places by the count; the file has 60 bytes, "BM" first; the map
-- changes once after it was asked for.
abbrev small : Firmware
small = record {
  State = ℕ;
  open_file = λ s root path. ((0, s + 1), s + 1);
  close_file = λ s handle. s + 1;
  get_info = λ s handle size buffer. ((if size == 0 then 2 ^ 63 + 5 else 0, (80, 60)), s + 1);
  read_file = λ s handle count address m. (
    (0, count),
    (s + 1, λ x. if x == address then 66 else (if x == address + 1 then 77 else m x)),
  );
  allocate_pool = λ s size. ((0, 100 + s), s + 1);
  free_pool = λ s p. s + 1;
  allocate_pages = λ s count. ((0, 4096 * (s + 1)), s + 1);
  free_pages = λ s base count. s + 1;
  get_memory_map = λ s size buffer. (
    (
      if size == 0 then 2 ^ 63 + 5 else 0,
      record { size = 96; key = s + 1; descriptor_size = 48; descriptor_version = 1 },
    ),
    s + 1,
  );
  exit_boot_services =
      λ s key. (if ltb s 6 then 2 ^ 63 + 2 else (if key == s then 0 else 2 ^ 63 + 2), s + 1);
}

small-NonNull : NonNull small
small-NonNull = record { handles = λ s root path e. ground arith; pools = λ s size e. ground arith }

abbrev world : World small
world = record { firmware = 0; bytes = λ _. 0; trace = [] }

load_bmp_file_run :
    held (load_bmp_file small 1 (characters "\\a.bmp") world).1.trace ≡ pages 20480 1 ∷ []
unfolding load_bmp_file with_file read_info read_bitmap nokernel.Word.align_up
    nokernel.Memory.memset nokernel.Memory.set_loop nokernel.Memory.write
load_bmp_file_run = refl

load_bmp_file-Ends_example : Ends [] (load_bmp_file small 1 (characters "\\a.bmp") world)
load_bmp_file-Ends_example = load_bmp_file-Ends small small-NonNull 1 (characters "\\a.bmp") world

-- The first attempt fails, the second one enters the kernel, and only its buffer is held.
handover_run : held (handover small 0x10_0000 world).1.trace ≡ pool 107 ∷ pages 4096 16 ∷ []
unfolding handover attempt
handover_run = refl

handover-Left_example :
    ((false ≡ true)
      × (((handover small 0x10_0000 world).0 ≡ returned efi_out_of_resources)
          × (held (handover small 0x10_0000 world).1.trace ≡ [])))
    ⊎ Left 0x10_0000 4096 (pages 4096 16 ∷ []) (handover small 0x10_0000 world)
handover-Left_example = handover-Left small small-NonNull 0x10_0000 world

-- The handles and the mode that this firmware gives.
abbrev small_platform : Platform small
small_platform = record {
  open_image = λ s. ((0, 1), s + 1);
  close_image = λ s. s + 1;
  find_volume = λ s device. ((0, 2), s + 1);
  open_volume = λ s volume. ((0, 3), s + 1);
  allocate_at = λ s base count. (0, s + 1);
  locate_graphics = λ s. (
    (0, record { base = 0x8000_0000; size = 8; width = 2; height = 1; pitch = 2; format = 1 }),
    s + 1,
  );
}

abbrev small-Willing : Willing small
small-Willing = record {
  declines = λ s. 6 - s;
  gives_pool = λ s size. refl;
  gives_pages = λ s count. refl;
  tells_size = λ s. refl;
  fits = λ s. refl;
  leaves = λ s size mmap. elim (Bool-cases (ltb (s + 1) 6)) [
    | inl e ↦ inr (rw e refl, omega (arith, ltb→lt (s + 1) 6 e))
    | inr e ↦ inl (ground arith)
  ];
  asking = λ s size mmap. omega arith;
  taking = λ s size. omega arith;
  freeing = λ s a. omega arith;
}

print_hex_run : print_hex 0xbeef ≡ characters "0x000000000000BEEF"
unfolding print_hex nibbles
print_hex_run = refl

print_int_run : print_int (2 ^ 64 - 1024) ≡ characters "-1024"
unfolding print_int decimal
print_int_run = refl

-- A file at 0x4000 with one header, at offset 64, for 32 bytes at 0x10_0000.
abbrev elf : Bytes
elf = λ x.
    if x == 0x4000
    then 0x7f
    else (if x == 0x4001
        then 0x45
        else (if x == 0x4002
            then 0x4c
            else (if x == 0x4003
                then 0x46
                else (if x == 0x4004
                    then 2
                    else (if x == 0x4005
                        then 1
                        else (if x == 0x4012
                            then 62
                            else (if x == 0x4020
                                then 64
                                else (if x == 0x4036
                                    then 56
                                    else (if x == 0x4038
                                        then 1
                                        else (if x == 0x4040
                                            then 1
                                            else (if x == 0x4052
                                                then 0x10
                                                else (if x == 0x4060
                                                    then 16
                                                    else (if x == 0x4068 then 32 else 0)))))))))))))

load_kernel_run : page_range (scan elf 0x4000 0x4040 0 1 (2 ^ 64 - 1, 0)) ≡ (0x10_0000, 0x10_1000)
unfolding scan nokernel.Word.align_down nokernel.Word.align_up
load_kernel_run = refl

load_kernel-outside_example :
    bytes_after (load_kernel (λ base count. true) 0x4000 120 elf) elf 0x5000 ≡ 0
load_kernel-outside_example =
    load_kernel-outside (λ base count. true) 0x4000 120 elf 0x5000 headers ends
      (subst (λ r. (0x4000 + 120 ≤ r.0) ⊎ (r.1 ≤ 0x4000)) (sym load_kernel_run) (inl (omega arith)))
      (subst (λ r. (0x5000 < r.0) ⊎ (r.1 ≤ 0x5000)) (sym load_kernel_run) (inl (omega arith)))
  where
    headers : (j : ℕ) → j < 1 → InFile 0x4000 120 (phdr_address elf 0x4000 0x4040 j)
    headers zero h = (omega arith, omega arith)
    headers (suc j) h = absurd (omega arith)

    ends : (j : ℕ) → j < 1 → Countable (phdr_at elf 0x4000 0x4040 j)
    ends zero h = inr (omega arith)
    ends (suc j) h = absurd (omega arith)

abbrev counting : Bytes
counting = λ x. x % 256

boot_memory_lem_example :
    (boot_memmove 12 10 5 counting ≡ memmove 12 10 5 counting)
    × ((boot_memset 12 7 5 counting ≡ memset 12 7 5 counting)
        × SameSign (boot_memcmp 12 10 5 counting) (memcmp 12 10 5 counting))
boot_memory_lem_example = boot_memory_lem 12 10 5 7 counting (λ x. omega arith)
