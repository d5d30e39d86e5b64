-- ===== src/Memory.antt =====
-- The memory functions (lib/common/memory.cpp) on memory as bytes by address. An object ends below
-- the end of the address space, so an address inside of it is a sum.
pub mod Copy
pub mod Compare
mod Tests
use nokernel.Prelude.{ℕ, zero, suc, ◌+◌, ◌-◌, ◌*◌, ◌/◌, ◌%◌, ◌^◌, ltb, ◌==◌, if◌then◌else◌}
use nokernel.Word.{u8}

abbrev pub Bytes : Type 0
Bytes = ℕ → ℕ

unfoldable pub write : ℕ → ℕ → Bytes → Bytes
write a v m = λ x. if x == a then v else m x

-- The two loops of `bcopy`: from the first byte up, and from the last byte down.
unfoldable pub copy_up : ℕ → ℕ → ℕ → Bytes → Bytes
copy_up src dest zero m = m
copy_up src dest (suc length) m = copy_up (src + 1) (dest + 1) length (write dest (m src) m)

unfoldable pub copy_down : ℕ → ℕ → ℕ → Bytes → Bytes
copy_down src dest zero m = m
copy_down src dest (suc length) m =
    copy_down src dest length (write (dest + length) (m (src + length)) m)

unfoldable pub bcopy : ℕ → ℕ → ℕ → Bytes → Bytes
bcopy src dest length m =
    if ltb dest src then copy_up src dest length m else copy_down src dest length m

-- The calls that return a pointer return it with the memory.
unfoldable pub memcpy : ℕ → ℕ → ℕ → Bytes → ℕ × Bytes
memcpy out from length m = (out, bcopy from out length m)

unfoldable pub memmove : ℕ → ℕ → ℕ → Bytes → ℕ × Bytes
memmove s1 s2 count m = (s1, bcopy s2 s1 count m)

unfoldable pub set_loop : ℕ → ℕ → ℕ → Bytes → Bytes
set_loop ptr val zero m = m
set_loop ptr val (suc length) m = set_loop (ptr + 1) val length (write ptr (u8 val) m)

unfoldable pub memset : ℕ → ℕ → ℕ → Bytes → ℕ × Bytes
memset dest val length m = (dest, set_loop dest val length m)

-- A `uint32_t` in memory, least byte first.
unfoldable pub write32 : ℕ → ℕ → Bytes → Bytes
write32 a v m = write a (u8 v) (
    write (a + 1) (u8 (v / 2 ^ 8))
      (write (a + 2) (u8 (v / 2 ^ 16)) (write (a + 3) (u8 (v / 2 ^ 24)) m)))

unfoldable pub set32_loop : ℕ → ℕ → ℕ → Bytes → Bytes
set32_loop ptr val zero m = m
set32_loop ptr val (suc length) m = set32_loop (ptr + 4) val length (write32 ptr val m)

unfoldable pub uint32_memset : ℕ → ℕ → ℕ → Bytes → ℕ × Bytes
uint32_memset dest val length m = (dest, set32_loop dest val length m)

-- The `int` -1, as its 32 bits.
abbrev pub minus_one : ℕ
minus_one = 2 ^ 32 - 1

unfoldable pub memcmp : ℕ → ℕ → ℕ → Bytes → ℕ
memcmp s1 s2 zero m = 0
memcmp s1 s2 (suc count) m =
    let rest = memcmp (s1 + 1) (s2 + 1) count m in
    if m s1 == m s2 then rest else (if ltb (m s1) (m s2) then minus_one else 1)
