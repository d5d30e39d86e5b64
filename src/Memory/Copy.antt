-- ===== src/Memory/Copy.antt =====
-- What `bcopy` and `memset` (lib/common/memory.cpp) leave in memory.
use nokernel.Prelude.{
  ℕ, zero, suc, ◌+◌, ◌-◌, ◌≤◌, ◌≡◌, refl, ◌∙◌, ◌&&◌, ltb, leb, ◌==◌, if◌then◌else◌, arith,
  Bool-cases, inl, inr,
}
use nokernel.Word.{u8}
use nokernel.Memory.{Bytes, write, copy_up, copy_down, bcopy, set_loop, memset}

-- The bytes of a range come from `src`, the others stay.
abbrev pub copied : ℕ → ℕ → ℕ → Bytes → Bytes
copied src dest length m x =
    if leb dest x && ltb x (dest + length) then m (src + (x - dest)) else m x

copy_up-copied :
    (length src dest : ℕ) (m : Bytes) (x : ℕ)
    → dest ≤ src
    → copy_up src dest length m x ≡ copied src dest length m x
unfolding copy_up write
copy_up-copied zero src dest m x h = ground arith
copy_up-copied (suc length) src dest m x h =
    copy_up-copied length (src + 1) (dest + 1) (write dest (m src) m) x (omega arith)
    ∙ elim (Bool-cases (ltb dest x)) [
      | inl e ↦
          let same : src + 1 + (x - (dest + 1)) ≡ src + (x - dest) = ground arith in
          rw same (ground arith)
      | inr e ↦ elim (Bool-cases (x == dest)) [
        | inl here ↦ let same : src + (x - dest) ≡ src = ground arith in rw same (ground arith)
        | inr below ↦ ground arith
      ]
    ]

copy_down-copied :
    (length src dest : ℕ) (m : Bytes) (x : ℕ)
    → src ≤ dest
    → copy_down src dest length m x ≡ copied src dest length m x
unfolding copy_down write
copy_down-copied zero src dest m x h = ground arith
copy_down-copied (suc length) src dest m x h =
    copy_down-copied length src dest (write (dest + length) (m (src + length)) m) x h
    ∙ elim (Bool-cases (x == dest + length)) [
      | inl here ↦
          let same : src + (x - dest) ≡ src + length = ground arith in rw same (ground arith)
      | inr other ↦ ground arith
    ]

set_loop_lem :
    (length ptr val : ℕ) (m : Bytes) (x : ℕ)
    → set_loop ptr val length m x ≡ (if leb ptr x && ltb x (ptr + length) then u8 val else m x)
unfolding set_loop write
set_loop_lem zero ptr val m x = ground arith
set_loop_lem (suc length) ptr val m x =
    set_loop_lem length (ptr + 1) val (write ptr (u8 val) m) x ∙ ground arith

-- However the ranges overlap, `bcopy` leaves in the destination what the source held before, and
-- changes no other byte.
pub bcopy-copied :
    (src dest length : ℕ) (m : Bytes) (x : ℕ)
    → bcopy src dest length m x
      ≡ (if leb dest x && ltb x (dest + length) then m (src + (x - dest)) else m x)
unfolding bcopy
bcopy-copied src dest length m x = elim (Bool-cases (ltb dest src)) [
  | inl e ↦ rw e (copy_up-copied length src dest m x (ground arith))
  | inr e ↦ rw e (copy_down-copied length src dest m x (ground arith))
]

-- `memset` returns its pointer, sets every byte of the range to the low byte of the value, and
-- changes no other byte.
pub memset_lem :
    (dest val length : ℕ) (m : Bytes)
    → ((memset dest val length m).0 ≡ dest)
      × ((x : ℕ)
          → (memset dest val length m).1 x
            ≡ (if leb dest x && ltb x (dest + length) then u8 val else m x))
unfolding memset
memset_lem dest val length m = (refl, set_loop_lem length dest val m)
