-- ===== src/Entry/Start.antt =====
-- The memory that `_start` of kernel/entry.cpp sets up.
use nokernel.Prelude.{
  ℕ, ◌^◌, ◌≤◌, ◌<◌, true, false, List, ◌≡◌, ◌⊎◌, ◌==◌, refl, Bool-cases, inl, inr, arith,
}
use native.Mathlib.Nat.{one-le-pow}
use nokernel.Outcome.{Outcome, ok, panicked, ◌>>=◌}
use nokernel.Boot.{BootInfo, EfiMemoryDescriptor, descriptors}
use nokernel.Pmm
use nokernel.Pmm.{Pmm, highest_end, init_from}
use nokernel.Pmm.Release.{Disjoint}
use nokernel.Pmm.Init.{AllExist, init_from-Started}
use nokernel.Vmm
use nokernel.Vmm.Mapped.{HasTree}
use nokernel.Vmm.Allocators.{
  IsSmall, IsApart, IsSpare, pmm_allocator, apart_allocator, hand_over-HasTree,
}
use nokernel.Vmm.Direct.{AllFit, init-Holds}
use nokernel.Heap.Calls
use nokernel.Machine.{Memory, machine}
use nokernel.Machine.Frames.{IsHeld, held}
use nokernel.Machine.System.{IsSystem}
use nokernel.Machine.Start.{nothing, init-IsSystem}
use nokernel.Entry.{heap_start, heap_alloc, start_memory}
use nokernel.Entry.Size.{heap_init_size-IsBest}

not_held : (f : ℕ) → ¬ (IsHeld nothing f)
unfolding IsHeld
not_held f h = ground (arith, h)

-- Nothing is held before there is a heap.
nothing-HasTree : (m : Memory) → HasTree pmm_allocator m → HasTree (held nothing) m
unfolding pmm_allocator apart_allocator IsApart IsSpare HasTree
nothing-HasTree m tree =
    hand_over-HasTree pmm_allocator (held nothing) m m.frames tree
      (tree.1.sound, λ f free h. not_held f h)
      (λ f spare. elim spare [ inl free ↦ free | inr h ↦ absurd (not_held f h) ])

-- A run panics, or leaves a system whose heap begins at its place.
abbrev pub Runs : Outcome (Calls.System machine) → Type 0
Runs r =
    (r ≡ panicked)
    ⊎ ((s : Calls.System machine) × (r ≡ ok s) × IsSystem s × (s.heap.heap_start ≡ heap_start))

module _ (m : Memory) (tree : HasTree pmm_allocator m) where
  heap_alloc-Runs : Runs (heap_alloc machine (λ (x : Memory). Pmm.free_count x.frames) m)
  unfolding heap_alloc
  heap_alloc-Runs = elim (heap_init_size-IsBest (Pmm.free_count m.frames)) [
    | inl (few, none_free) ↦ rw none_free (inl refl)
    | inr (k, (size, best)) ↦
        let pos : 0 < 2 ^ k = one-le-pow k 2 (omega arith) in
        let some_pages : (2 ^ k == 0) ≡ false = ground arith in
        rw (size, some_pages)
          (elim (init-IsSystem m heap_start (2 ^ k) (nothing-HasTree m tree) (omega arith) refl
            (omega arith) pos) [
              | inl (e, why) ↦ inl e
              | inr (s, e, is, start, stop) ↦ inr (s, e, is, start)
            ])
  ]

module _ (info : BootInfo) (ds : List EfiMemoryDescriptor) (words : ℕ → ℕ)
    (walked : descriptors info ≡ ok ds) (exist : AllExist ds) (apart : Disjoint ds)
    (fit : AllFit ds) (fb : info.fb.base < 2 ^ 64) (small : highest_end ds 0 ≤ 2 ^ 52) where
  abbrev tables : Pmm → Memory
  tables frames = record { words = words; pml4_phys = 0; phys_offset = 0; frames = frames }

  abbrev paged : Pmm → Outcome (Calls.System machine)
  paged frames = Vmm.init Pmm.alloc_frame info (tables frames) >>= λ memory.
      heap_alloc machine (λ (m : Memory). Pmm.free_count m.frames) memory

  init_panics : (frames : Pmm) → ((Pmm.alloc_frame frames).0 == 0) ≡ true → paged frames ≡ panicked
  unfolding Vmm.init
  init_panics frames z = rw z refl

  paged-Runs : (frames : Pmm) → IsSmall frames → Runs (paged frames)
  paged-Runs frames sound = elim (Bool-cases ((Pmm.alloc_frame frames).0 == 0)) [
    | inl z ↦ inl (init_panics frames z)
    | inr n ↦
        let (built, e, direct) =
          init-Holds pmm_allocator (tables frames) (unfold pmm_allocator in sound) refl
            (λ e. ground arith) info ds walked fit fb in
        rw e (heap_alloc-Runs built direct.tree)
  ]

  -- If the memory map can be read, its allocatable ranges do not overlap and end below 2 ^ 64,
  -- the highest of their ends is at most 2 ^ 52, and its ranges and the framebuffer start in 64
  -- bits, then PMM::init, VMM::init and HeapAlloc, as _start calls them, whatever words are in
  -- memory, either panic, or return a system whose heap is at its place, well formed and backed
  -- by frames of its own under sound page tables and a sound bitmap.
  pub start_memory-Runs : Runs (start_memory info words)
  unfolding start_memory Pmm.init
  start_memory-Runs = rw walked (elim (init_from-Started ds exist apart) [
    | inl (none_fits, e) ↦ rw e (inl refl)
    | inr r ↦ rw r.returns (
        paged-Runs r.result
          (unfold IsSmall in (r.started.is_valid, omega (arith, r.started.total, small))))
  ])
