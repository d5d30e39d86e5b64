-- ===== src/Memory/Tests.antt =====
-- Runs of lib/common/memory.cpp.
use nokernel.Prelude.{◌+◌, ◌-◌, ◌≡◌, ◌&&◌, ltb, leb, if◌then◌else◌}
use nokernel.Word.{u8}
use nokernel.Memory.{Bytes, bcopy}
use nokernel.Memory.Copy.{bcopy-copied}

-- Each byte holds its address.
abbrev counting : Bytes
counting x = u8 x

-- The destination begins inside of the source.
bcopy-copied_example :
    bcopy 10 13 6 counting 14
    ≡ (if leb 13 14 && ltb 14 (13 + 6) then counting (10 + (14 - 13)) else counting 14)
bcopy-copied_example = bcopy-copied 10 13 6 counting 14
