-- ===== src/Entry/Size.antt =====
-- How large the first heap is (kernel/entry.cpp).
use nokernel.Prelude.{
  ℕ, zero, suc, ◌/◌, ◌^◌, ◌≤◌, ◌<◌, ◌≡◌, refl, ◌⊎◌, inl, inr, false, ltb, ◌==◌, arith, Bool-cases,
}
use native.Mathlib.Nat.{pow-suc, one-le-pow}
use nokernel.Outcome.{ok}
use nokernel.Entry.{heap_size_loop, heap_init_size}

-- A power of two frames that are free, the largest up to a bound.
pub record IsBest (free_frames largest k : ℕ) : Type 0 where
  pub two : 1 ≤ k
  pub bound : k ≤ largest
  pub free : 2 ^ k ≤ free_frames
  pub best : (k ≡ largest) ⊎ (free_frames < 2 ^ suc k)

halved : (k : ℕ) → 2 ^ suc k / 2 ≡ 2 ^ k
halved k = omega (arith, pow-suc 2 k)

heap_size_loop-IsBest :
    (k largest free_frames : ℕ)
    → 1 ≤ largest
    → k ≤ largest
    → (k ≡ largest) ⊎ (free_frames < 2 ^ suc k)
    → ((free_frames < 2) × (heap_size_loop (suc k) free_frames (2 ^ k) ≡ ok 0))
      ⊎ ((j : ℕ) × ((heap_size_loop (suc k) free_frames (2 ^ k) ≡ ok (2 ^ j))
            × IsBest free_frames largest j))
unfolding heap_size_loop
heap_size_loop-IsBest zero largest free_frames pos h best = elim best [
  | inl e ↦ absurd (omega arith)
  | inr few ↦ inl (few, refl)
]
heap_size_loop-IsBest (suc k) largest free_frames pos h best =
    let many : (2 ^ suc k == 1) ≡ false = ground (arith, pow-suc 2 k, one-le-pow k 2) in
    elim (Bool-cases (ltb free_frames (2 ^ suc k))) [
      | inl e ↦
          rw (many, e, halved k)
            (heap_size_loop-IsBest k largest free_frames pos (omega arith) (inr (ground arith)))
      | inr e ↦ inr (
        suc k,
        (
          rw (many, e) refl,
          record { two = omega arith; bound = h; free = ground arith; best = best },
        ),
      )
    ]

-- The loop of `HeapAlloc` ends for any number of free frames: with 0, at which the kernel panics, when
-- fewer than two frames are free, and else with the largest power of two from 2 to 256 for which there
-- are as many free frames.
pub heap_init_size-IsBest :
    (free_frames : ℕ)
    → ((free_frames < 2) × (heap_init_size free_frames ≡ ok 0))
      ⊎ ((k : ℕ) × ((heap_init_size free_frames ≡ ok (2 ^ k)) × IsBest free_frames 8 k))
unfolding heap_init_size
heap_init_size-IsBest free_frames =
    heap_size_loop-IsBest 8 8 free_frames (omega arith) (omega arith) (inl refl)
