-- ===== src/Loader/Path.antt =====
-- Finding the partition (boot/src/include/disk/disk.c), and printing (boot/src/include/console).
use nokernel.Prelude.{
  ℕ, zero, suc, ◌+◌, ◌-◌, ◌*◌, ◌/◌, ◌%◌, ◌^◌, Bool, false, not, ltb, leb, ◌==◌, List, [], ◌∷◌, ◌++◌,
  if◌then◌else◌, bit_and, bit_or,
}
use nokernel.Outcome.{Outcome, ok, hangs}
use nokernel.Word.{u64, ◌<<◌, ◌>>◌}
use nokernel.Memory.{Bytes}
use nokernel.Loader.{efi_success, efi_invalid_parameter, efi_not_found}
use nokernel.Loader.Elf.{read16, read32}

-- A node of a device path: its type, its subtype, and two bytes for its length.
abbrev pub dp_type : Bytes → ℕ → ℕ
dp_type m n = m n

abbrev pub dp_sub_type : Bytes → ℕ → ℕ
dp_sub_type m n = m (n + 1)

unfoldable pub dp_len : Bytes → ℕ → ℕ
dp_len m n = bit_or (m (n + 2)) (m (n + 3) << 8)

unfoldable pub dp_next : Bytes → ℕ → ℕ
dp_next m n = u64 (n + dp_len m n)

-- `sizeof(HARDDRIVE_DEVICE_PATH)`, and where its signature and the type of that stand.
abbrev pub hard_drive_size : ℕ
hard_drive_size = 42

abbrev pub is_partition : Bytes → ℕ → Bool
is_partition m n =
    if not (dp_type m n == 0x04)
    then false
    else (if not (dp_sub_type m n == 0x01)
        then false
        else (if ltb (dp_len m n) hard_drive_size then false else m (n + 41) == 0x02))

abbrev pub nibble : ℕ → ℕ
nibble d = if ltb d 10 then 48 + d else 55 + d

-- `NIB(v, s)` for the shifts from `4 * (count - 1)` down to 0.
unfoldable pub nibbles : ℕ → ℕ → List ℕ
nibbles v zero = []
nibbles v (suc count) = nibble (bit_and (v >> (count * 4)) 0xf) ∷ nibbles v count

-- `Data4[b]`, for `count` bytes.
unfoldable pub bytes_text : Bytes → ℕ → ℕ → List ℕ
bytes_text m a zero = []
bytes_text m a (suc count) = nibbles (m a) 2 ++ bytes_text m (a + 1) count

-- The identifier at an address, without the last zero.
unfoldable pub guid_to_string : Bytes → ℕ → List ℕ
guid_to_string m a =
    nibbles (read32 m a) 8
    ++ (45 ∷ nibbles (read16 m (a + 4)) 4
        ++ (45 ∷ nibbles (read16 m (a + 6)) 4
            ++ (45 ∷ bytes_text m (a + 8) 2 ++ (45 ∷ bytes_text m (a + 10) 6))))

-- The walk over the nodes, with a bound on the rounds: the status, and the identifier if one is found.
unfoldable pub walk_path : ℕ → Bytes → ℕ → Outcome (ℕ × List ℕ)
walk_path zero m n = hangs
walk_path (suc rounds) m n =
    let rest = walk_path rounds m (dp_next m n) in
    if dp_type m n == 0x7f
    then ok (efi_not_found, [])
    else (if ltb (dp_len m n) 4
        then ok (efi_invalid_parameter, [])
        else (if is_partition m n then ok (efi_success, guid_to_string m (n + 24)) else rest))

-- `GetDiskPartUUID`; no device path is address 0.
unfoldable pub get_disk_part_uuid : ℕ → Bytes → ℕ → Outcome (ℕ × List ℕ)
get_disk_part_uuid rounds m device_path =
    if device_path == 0 then ok (efi_not_found, []) else walk_path rounds m device_path

-- `PrintHex`, without the last zero.
unfoldable pub print_hex : ℕ → List ℕ
print_hex v = 48 ∷ 120 ∷ nibbles v 16

-- The digits that `PrintInt` puts in front of what it has.
unfoldable pub decimal : ℕ → ℕ → List ℕ → List ℕ
decimal zero n buf = buf
decimal (suc room) n buf =
    let digit = (48 + n % 10) ∷ buf in
    let rest = decimal room (n / 10) digit in if n / 10 == 0 then digit else rest

-- `PrintInt`, on the 64 bits of its argument, without the last zero. Twenty digits are enough for 64
-- bits.
unfoldable pub print_int : ℕ → List ℕ
print_int v = if leb (2 ^ 63) v then 45 ∷ decimal 20 (2 ^ 64 - v) [] else decimal 20 v []
