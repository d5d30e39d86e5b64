-- ===== src/Machine/Frames.antt =====
-- Frames that the heap takes from kernel/mm/pmm.cpp and gives back: the page tables keep off them.
use mathlib.Core.Path.{subst}
use nokernel.Prelude.{
  ℕ, ◌+◌, ◌-◌, ◌*◌, ◌/◌, ◌%◌, ◌^◌, ◌<◌, Bool, true, not, ◌&&◌, ◌||◌, ◌≡◌, ◌≢◌, ◌⊎◌, ltb, leb, ◌==◌,
  Bool-cases, inl, inr, arith,
}
use nokernel.Pmm
use nokernel.Pmm.{Pmm, frame_size, state, free_frames}
use nokernel.Pmm.Bitmap.{within}
use nokernel.Pmm.Reserve.{IsValid}
use nokernel.Pmm.Alloc.{alloc_frames_lem}
use nokernel.Pmm.Free.{free_frames_lem}
use nokernel.Vmm.Tree.{IsAllocator}
use nokernel.Vmm.Mapped.{HasTree}
use nokernel.Vmm.Allocators.{
  IsSmall, IsFree, IsApart, IsSpare, alloc_frames-left, alloc_frames-IsSmall, alloc_frames-taken,
  pmm_allocator, apart_allocator, hand_over-HasTree,
}
use nokernel.Machine.{Memory, take_frames, give_frames}

-- A frame, by its address, that is marked as held.
unfoldable pub IsHeld : (ℕ → Bool) → ℕ → Type 0
IsHeld owned f = (owned f ≡ true) × (f % 4096 ≡ 0) × (f < 2 ^ 52) × (f ≢ 0)

pub IsHeld-fits :
    (owned : ℕ → Bool) (f : ℕ) → IsHeld owned f → (f % 4096 ≡ 0) × (f < 2 ^ 52) × (f ≢ 0)
unfolding IsHeld
IsHeld-fits owned f held = (held.1, held.2, held.3)

-- The frames of the bitmap, with those held set aside.
abbrev pub held : (ℕ → Bool) → IsAllocator Pmm.alloc_frame
held owned = apart_allocator pmm_allocator (IsHeld owned) (IsHeld-fits owned)

abbrev pub in_range : ℕ → ℕ → ℕ → Bool
in_range first count f = leb first f && ltb f (first + count * frame_size)

-- The held frames and a range.
abbrev pub with_range : (ℕ → Bool) → ℕ → ℕ → ℕ → Bool
with_range owned first count f = owned f || in_range first count f

module _ (owned : ℕ → Bool) (m : Memory) (count : ℕ) (tree : HasTree (held owned) m)
    (granted : (Pmm.alloc_frames m.frames count).0 ≢ 0) where
  abbrev first : ℕ
  first = (Pmm.alloc_frames m.frames count).0

  first_aligned : IsValid m.frames → first % 4096 ≡ 0
  first_aligned v = elim (alloc_frames_lem count v) [
    | inl g ↦ omega (arith, g.address_of)
    | inr r ↦ absurd (granted r.null)
  ]

  sound : IsSmall m.frames
  unfolding HasTree apart_allocator pmm_allocator IsApart
  sound = tree.1.sound.0

  apart : (f : ℕ) → IsFree m.frames f → ¬ (IsHeld owned f)
  unfolding HasTree apart_allocator pmm_allocator IsApart
  apart f free = tree.1.sound.1 f free

  -- A frame of the range was free and is so no more.
  range_taken :
      (f : ℕ)
      → f % 4096 ≡ 0
      → in_range first count f ≡ true
      → IsFree m.frames f × ¬ (IsFree (Pmm.alloc_frames m.frames count).1 f)
  range_taken f aligned h =
      let valid : IsValid m.frames = unfold IsSmall in sound.0 in
      let i = (f - first) / 4096 in
      let place : first + i * frame_size ≡ f = ground (arith, first_aligned valid) in
      subst (λ (x : ℕ). IsFree m.frames x × ¬ (IsFree (Pmm.alloc_frames m.frames count).1 x)) place
        (alloc_frames-taken m.frames count i sound granted (ground (arith, first_aligned valid)))

  -- What is held afterwards was held, or is in the range.
  split_held :
      (f : ℕ)
      → IsHeld (with_range owned first count) f
      → IsHeld owned f ⊎ (in_range first count f ≡ true)
  unfolding IsHeld
  split_held f h = elim (Bool-cases (owned f)) [
    | inl own ↦ inl (own, h.1, h.2, h.3)
    | inr other ↦ inr (ground arith)
  ]

  taken_apart :
      (f : ℕ)
      → IsFree (Pmm.alloc_frames m.frames count).1 f
      → ¬ (IsHeld (with_range owned first count) f)
  taken_apart f free h = elim (split_held f h) [
    | inl own ↦ apart f (alloc_frames-left m.frames count f sound free) own
    | inr within ↦ (range_taken f (unfold IsHeld in h.1) within).1 free
  ]

  taken_spare :
      (f : ℕ)
      → IsFree (Pmm.alloc_frames m.frames count).1 f ⊎ IsHeld (with_range owned first count) f
      → IsFree m.frames f ⊎ IsHeld owned f
  taken_spare f (inl free) = inl (alloc_frames-left m.frames count f sound free)
  taken_spare f (inr h) = elim (split_held f h) [
    | inl own ↦ inr own
    | inr within ↦ inl (range_taken f (unfold IsHeld in h.1) within).0
  ]

  -- The range is taken: it is held from now on.
  pub take_frames-HasTree : HasTree (held (with_range owned first count)) (take_frames m count).1
  unfolding take_frames apart_allocator pmm_allocator IsApart IsSpare
  take_frames-HasTree =
      hand_over-HasTree (held owned) (held (with_range owned first count)) m
        (Pmm.alloc_frames m.frames count).1 tree
        (alloc_frames-IsSmall m.frames count sound, taken_apart) taken_spare

  -- None of the range was held before.
  pub range_other : (f : ℕ) → f % 4096 ≡ 0 → in_range first count f ≡ true → ¬ (IsHeld owned f)
  range_other f aligned within = apart f (range_taken f aligned within).0

-- What is free after a range is given back was free, or is in the range.
free_frames-IsFree :
    (s : Pmm) (first count f : ℕ)
    → IsSmall s
    → first % 4096 ≡ 0
    → IsFree (free_frames s first count) f
    → IsFree s f ⊎ ((in_range first count f ≡ true) × (f ≢ 0) × (f < 2 ^ 52))
unfolding IsSmall IsFree
free_frames-IsFree s first count f (v, small) aligned free =
    let r = free_frames_lem first count v in
    elim (Bool-cases (in_range first count f && not (f / 4096 == 0))) [
      | inl e ↦ inr (ground arith, ground arith, omega (arith, free.1, r.same_total))
      | inr e ↦
          inl (
            free.0,
            omega (arith, free.1, r.same_total),
            ground (arith, free.2, r.states (f / 4096)),
          )
    ]

free_frames-IsSmall : (s : Pmm) (first count : ℕ) → IsSmall s → IsSmall (free_frames s first count)
unfolding IsSmall
free_frames-IsSmall s first count (v, small) =
    let r = free_frames_lem first count v in (r.is_valid, omega (arith, r.same_total))

module _ (owned : ℕ → Bool) (m : Memory) (first count : ℕ) (aligned : first % 4096 ≡ 0)
    (tree : HasTree (held (with_range owned first count)) m)
    (other : (f : ℕ) → f % 4096 ≡ 0 → in_range first count f ≡ true → ¬ (IsHeld owned f)) where
  still_sound : IsSmall m.frames
  unfolding HasTree apart_allocator pmm_allocator IsApart
  still_sound = tree.1.sound.0

  still_apart : (f : ℕ) → IsFree m.frames f → ¬ (IsHeld (with_range owned first count) f)
  unfolding HasTree apart_allocator pmm_allocator IsApart
  still_apart f free = tree.1.sound.1 f free

  wider : (f : ℕ) → IsHeld owned f → IsHeld (with_range owned first count) f
  unfolding IsHeld
  wider f h = (ground (arith, h.0), h.1, h.2, h.3)

  given_apart : (f : ℕ) → IsFree (free_frames m.frames first count) f → ¬ (IsHeld owned f)
  given_apart f free h = elim (free_frames-IsFree m.frames first count f still_sound aligned free) [
    | inl before ↦ still_apart f before (wider f h)
    | inr within ↦ other f (unfold IsHeld in h.1) within.0 h
  ]

  given_spare :
      (f : ℕ)
      → IsFree (free_frames m.frames first count) f ⊎ IsHeld owned f
      → IsFree m.frames f ⊎ IsHeld (with_range owned first count) f
  unfolding IsHeld
  given_spare f (inr h) = inr (ground (arith, h.0), h.1, h.2, h.3)
  given_spare f (inl free) =
      elim (free_frames-IsFree m.frames first count f still_sound aligned free) [
        | inl before ↦ inl before
        | inr within ↦ inr (ground (arith, within.0), (unfold IsFree in free.0), within.2, within.1)
      ]

  -- The range is given back.
  pub give_frames-HasTree : HasTree (held owned) (give_frames m first count)
  unfolding give_frames apart_allocator pmm_allocator IsApart IsSpare
  give_frames-HasTree =
      hand_over-HasTree (held (with_range owned first count)) (held owned) m
        (free_frames m.frames first count) tree
        (free_frames-IsSmall m.frames first count still_sound, given_apart) given_spare
