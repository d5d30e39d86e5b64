-- ===== src/Loader/Elf.antt =====
-- Loading the kernel (boot/src/main.c): the checks of the file, the range of its segments, and their
-- copies. The file is in memory.
use nokernel.Prelude.{
  ℕ, zero, suc, ◌+◌, ◌-◌, ◌*◌, ◌/◌, ◌^◌, Bool, true, false, not, ◌&&◌, ◌||◌, ltb, ◌==◌, List, [],
  ◌∷◌, if◌then◌else◌,
}
use nokernel.Word.{u16, u64, sub64, align_up, align_down}
use nokernel.Memory.{Bytes, memcpy, memset}
use nokernel.Loader.Disk.{page_size}

-- Little-endian words in memory.
abbrev pub read16 : Bytes → ℕ → ℕ
read16 m a = m a + 2 ^ 8 * m (a + 1)

abbrev pub read32 : Bytes → ℕ → ℕ
read32 m a = read16 m a + 2 ^ 16 * read16 m (a + 2)

abbrev pub read64 : Bytes → ℕ → ℕ
read64 m a = read32 m a + 2 ^ 32 * read32 m (a + 4)

-- The fields of `Elf64_Ehdr` that are used, `sizeof *ehdr`, and ELF_SIGNATURE.
abbrev pub e_machine : Bytes → ℕ → ℕ
e_machine m raw = read16 m (raw + 18)

abbrev pub e_entry : Bytes → ℕ → ℕ
e_entry m raw = read64 m (raw + 24)

abbrev pub e_phoff : Bytes → ℕ → ℕ
e_phoff m raw = read64 m (raw + 32)

abbrev pub e_phentsize : Bytes → ℕ → ℕ
e_phentsize m raw = read16 m (raw + 54)

abbrev pub e_phnum : Bytes → ℕ → ℕ
e_phnum m raw = u16 (read16 m (raw + 56))

abbrev pub ehdr_size : ℕ
ehdr_size = 64

abbrev pub elf_signature : List ℕ
elf_signature = 0x7f ∷ 0x45 ∷ 0x4c ∷ 0x46 ∷ 0x02 ∷ 0x01 ∷ []

-- The fields of `Elf64_Phdr` that are used.
pub record Phdr : Type 0 where
  pub p_type : ℕ
  pub p_offset : ℕ
  pub p_vaddr : ℕ
  pub p_filesz : ℕ
  pub p_memsz : ℕ

abbrev pub read_phdr : Bytes → ℕ → Phdr
read_phdr m p = record {
  p_type = read32 m p;
  p_offset = read64 m (p + 8);
  p_vaddr = read64 m (p + 16);
  p_filesz = read64 m (p + 32);
  p_memsz = read64 m (p + 40);
}

-- Where header `i` of a table stands, and the header.
abbrev pub phdr_address : Bytes → ℕ → ℕ → ℕ → ℕ
phdr_address m raw table i = u64 (table + u64 (i * e_phentsize m raw))

abbrev pub phdr_at : Bytes → ℕ → ℕ → ℕ → Phdr
phdr_at m raw table i = read_phdr m (phdr_address m raw table i)

abbrev pub pt_load : ℕ
pt_load = 1

-- `p_type != PT_LOAD || p_memsz == 0`: passed over.
abbrev pub skipped : Phdr → Bool
skipped p = not (p.p_type == pt_load) || p.p_memsz == 0

abbrev pub agrees : List ℕ → ℕ → Bytes → Bool
agrees [] a m = true
agrees (x ∷ xs) a m = m a == x && agrees xs (a + 1) m

-- The checks before the table is read.
unfoldable pub is_kernel : ℕ → ℕ → Bytes → Bool
is_kernel raw file_size m =
    not (ltb file_size ehdr_size)
    && (agrees elf_signature raw m
        && (e_machine m raw == 62 && (not (e_phoff m raw == 0) && not (e_phnum m raw == 0))))

-- `vmin` and `vmax` after a segment, and after `count` of them from `i` on.
abbrev pub widen : Phdr → ℕ × ℕ → ℕ × ℕ
widen p (vmin, vmax) =
    let end = u64 (p.p_vaddr + p.p_memsz) in
    if skipped p
    then (vmin, vmax)
    else (if ltb p.p_vaddr vmin then p.p_vaddr else vmin, if ltb vmax end then end else vmax)

unfoldable pub scan : Bytes → ℕ → ℕ → ℕ → ℕ → ℕ × ℕ → ℕ × ℕ
scan m raw table i zero range = range
scan m raw table i (suc count) range =
    scan m raw table (i + 1) count (widen (phdr_at m raw table i) range)

-- The second loop: false for `goto out`. The number of headers is read in every round, and is below
-- 2 ^ 16, so that rounds up to there are enough.
module _ (raw file_size table base vmin : ℕ) where
  unfoldable pub load_segments : ℕ → ℕ → Bytes → Bool × Bytes
  load_segments i zero m = (true, m)
  load_segments i (suc rounds) m =
      let p = phdr_at m raw table i in
      elim (ltb i (e_phnum m raw)) [
        | false ↦ (true, m)
        | true ↦ elim (skipped p) [
          | true ↦ load_segments (i + 1) rounds m
          | false ↦
              elim (ltb file_size (u64 (p.p_offset + p.p_filesz)) || ltb p.p_memsz p.p_filesz) [
                | true ↦ (false, m)
                | false ↦
                    load_segments (i + 1) rounds
                      (memcpy (u64 (base + sub64 p.p_vaddr vmin)) (u64 (raw + p.p_offset))
                        p.p_filesz m).1
              ]
        ]
      ]

-- The pages from `vmin` to `vmax`, both rounded to pages.
abbrev pub page_range : ℕ × ℕ → ℕ × ℕ
page_range (vmin, vmax) = (align_down vmin page_size, align_up vmax page_size)

-- From the checks of the file to the entry point. `allocate` says whether the pages at an address can
-- be had, and where they are. The result is the status of the checks, the address of the kernel and
-- its entry point in memory, and the memory.
pub record Kernel : Type 0 where
  pub phys_base : ℕ
  pub kernel_virt : ℕ
  pub kernel_size : ℕ
  pub entry_physical : ℕ

pub data Load : Type 0 where
  refused : Bytes → Load
  no_room : Load
  placed : Kernel → Bytes → Load

-- The entry point is read after the copies.
abbrev pub finish : ℕ → ℕ → ℕ → Bool × Bytes → Load
finish raw vmin vmax (true, m) =
    placed
      (record {
        phys_base = vmin;
        kernel_virt = vmin;
        kernel_size = sub64 vmax vmin;
        entry_physical = u64 (vmin + sub64 (e_entry m raw) vmin);
      })
      m
finish raw vmin vmax (false, m) = refused m

unfoldable pub load_kernel : (ℕ → ℕ → Bool) → ℕ → ℕ → Bytes → Load
load_kernel allocate raw file_size m =
    let table = u64 (raw + e_phoff m raw) in
    let range = scan m raw table 0 (e_phnum m raw) (2 ^ 64 - 1, 0) in
    let (vmin, vmax) = page_range range in
    let pages = sub64 vmax vmin / page_size in
    let cleared = (memset vmin 0 (pages * page_size) m).1 in
    if not (is_kernel raw file_size m)
    then refused m
    else (if ltb range.1 range.0
        then refused m
        else (if not (allocate vmin pages)
            then no_room
            else finish raw vmin vmax
                (load_segments raw file_size table vmin vmin 0 (2 ^ 16) cleared)))
