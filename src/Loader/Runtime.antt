-- ===== src/Loader/Runtime.antt =====
-- The memory functions of the boot loader (boot/src/rt/mem.c), with loops over an index, against those
-- of the kernel.
use nokernel.Prelude.{
  ℕ, zero, suc, ◌+◌, ◌^◌, ◌<◌, ◌≡◌, refl, ap, ◌∙◌, sym, ltb, ◌==◌, if◌then◌else◌, arith, Bool-cases,
  inl, inr,
}
use mathlib.Core.Path.{subst}
use nokernel.Word.{u8, sub32}
use nokernel.Memory.{Bytes, write, copy_up, copy_down, bcopy, memmove, memset, set_loop, memcmp}

-- `d[i] = s[i]`, for `count` indices from `i` on.
unfoldable pub forward : ℕ → ℕ → ℕ → ℕ → Bytes → Bytes
forward d s i zero m = m
forward d s i (suc count) m = forward d s (i + 1) count (write (d + i) (m (s + i)) m)

-- `d[i - 1] = s[i - 1]`, down to 1.
unfoldable pub backward : ℕ → ℕ → ℕ → Bytes → Bytes
backward d s zero m = m
backward d s (suc i) m = backward d s i (write (d + i) (m (s + i)) m)

unfoldable pub boot_memcpy : ℕ → ℕ → ℕ → Bytes → ℕ × Bytes
boot_memcpy dst src n m = (dst, forward dst src 0 n m)

unfoldable pub boot_memmove : ℕ → ℕ → ℕ → Bytes → ℕ × Bytes
boot_memmove dst src n m =
    (dst, if ltb dst src then forward dst src 0 n m else backward dst src n m)

unfoldable pub fill_from : ℕ → ℕ → ℕ → ℕ → Bytes → Bytes
fill_from d c i zero m = m
fill_from d c i (suc count) m = fill_from d c (i + 1) count (write (d + i) (u8 c) m)

unfoldable pub boot_memset : ℕ → ℕ → ℕ → Bytes → ℕ × Bytes
boot_memset dst c n m = (dst, fill_from dst c 0 n m)

-- The difference of the first bytes that differ, as an `int`.
unfoldable pub compare_from : ℕ → ℕ → ℕ → ℕ → Bytes → ℕ
compare_from a b i zero m = 0
compare_from a b i (suc count) m =
    let rest = compare_from a b (i + 1) count m in
    if m (a + i) == m (b + i) then rest else sub32 (m (a + i)) (m (b + i))

unfoldable pub boot_memcmp : ℕ → ℕ → ℕ → Bytes → ℕ
boot_memcmp a b n m = compare_from a b 0 n m

next_index : (d i : ℕ) → d + i + 1 ≡ d + (i + 1)
next_index d i = omega arith

forward-copy_up :
    (count d s i : ℕ) (m : Bytes) → forward d s i count m ≡ copy_up (s + i) (d + i) count m
unfolding forward copy_up
forward-copy_up zero d s i m = refl
forward-copy_up (suc count) d s i m =
    let after = write (d + i) (m (s + i)) m in
    forward-copy_up count d s (i + 1) after
    ∙ sym (λ k. copy_up (next_index s i k) (next_index d i k) count after)

backward-copy_down : (count d s : ℕ) (m : Bytes) → backward d s count m ≡ copy_down s d count m
unfolding backward copy_down
backward-copy_down zero d s m = refl
backward-copy_down (suc count) d s m =
    backward-copy_down count d s (write (d + count) (m (s + count)) m)

fill_from-set_loop :
    (count d c i : ℕ) (m : Bytes) → fill_from d c i count m ≡ set_loop (d + i) c count m
unfolding fill_from set_loop
fill_from-set_loop zero d c i m = refl
fill_from-set_loop (suc count) d c i m =
    let after = write (d + i) (u8 c) m in
    fill_from-set_loop count d c (i + 1) after
    ∙ sym (λ k. set_loop (next_index d i k) c count after)

at_start : (d : ℕ) → d + 0 ≡ d
at_start d = omega arith

-- A comparison of the loader is 0, negative or positive as an `int` when that of the kernel is.
abbrev pub SameSign : ℕ → ℕ → Type 0
SameSign a b = ((a == 0) ≡ (b == 0)) × (ltb a (2 ^ 31) ≡ ltb b (2 ^ 31))

compare_from-SameSign :
    (count a b i : ℕ) (m : Bytes)
    → ((x : ℕ) → m x < 256)
    → SameSign (compare_from a b i count m) (memcmp (a + i) (b + i) count m)
unfolding compare_from memcmp
compare_from-SameSign zero a b i m bytes = (refl, refl)
compare_from-SameSign (suc count) a b i m bytes = elim (Bool-cases (m (a + i) == m (b + i))) [
  | inl e ↦ rw e (
      subst (λ k. SameSign (compare_from a b (i + 1) count m) k)
        (sym (λ k. memcmp (next_index a i k) (next_index b i k) count m))
        (compare_from-SameSign count a b (i + 1) m bytes))
  | inr e ↦ rw e (elim (Bool-cases (ltb (m (a + i)) (m (b + i)))) [
    | inl l ↦
        rw l (
          ground (arith, bytes (a + i), bytes (b + i)),
          ground (arith, bytes (a + i), bytes (b + i)),
        )
    | inr l ↦
        rw l (
          ground (arith, bytes (a + i), bytes (b + i)),
          ground (arith, bytes (a + i), bytes (b + i)),
        )
  ])
]

-- On any memory whose bytes are bytes, the loader's memmove and memset do what the kernel's do,
-- whatever overlaps, and its memcmp has the sign of the kernel's.
pub boot_memory_lem :
    (dst src n c : ℕ) (m : Bytes)
    → ((x : ℕ) → m x < 256)
    → (boot_memmove dst src n m ≡ memmove dst src n m)
      × ((boot_memset dst c n m ≡ memset dst c n m)
          × SameSign (boot_memcmp dst src n m) (memcmp dst src n m))
unfolding boot_memmove boot_memset boot_memcmp memmove memset bcopy
boot_memory_lem dst src n c m bytes = (
  elim (Bool-cases (ltb dst src)) [
    | inl e ↦ rw e (
        ap (λ k. (dst, k))
          (forward-copy_up n dst src 0 m ∙ (λ k. copy_up (at_start src k) (at_start dst k) n m)))
    | inr e ↦ rw e (ap (λ k. (dst, k)) (backward-copy_down n dst src m))
  ],
  (
    ap (λ k. (dst, k)) (fill_from-set_loop n dst c 0 m ∙ (λ k. set_loop (at_start dst k) c n m)),
    subst (λ k. SameSign (compare_from dst src 0 n m) k)
        (λ k. memcmp (at_start dst k) (at_start src k) n m)
        (compare_from-SameSign n dst src 0 m bytes),
  ),
)
