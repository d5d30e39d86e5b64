-- ===== src/Machine/Start.antt =====
-- The start of the heap (`Heap::init` of kernel/mm/heap.cpp) on the memory behind it.
use nokernel.Prelude.{
  ℕ, ◌+◌, ◌-◌, ◌*◌, ◌%◌, ◌^◌, ◌≤◌, ◌<◌, Bool, true, false, none, some, [], ◌∷◌, ◌≡◌, ◌≢◌, ◌⊎◌, ltb,
  ◌==◌, ==_iff, refl, ap, if◌then◌else◌, Bool-cases, inl, inr, arith,
}
use nokernel.Outcome.{ok, panicked}
use nokernel.Word.{u64, sub64}
use nokernel.Pmm
use nokernel.Pmm.{frame_size}
use nokernel.Heap.{Heap, BlockMeta, meta_size, heap_max, heap_max_pages, store}
use nokernel.Heap.Tiles.{IsHeap}
use nokernel.Heap.Calls
use nokernel.Vmm
use nokernel.Vmm.Mapped.{HasTree}
use nokernel.Machine.{Memory, machine, take_frames}
use nokernel.Machine.Frames.{held, with_range}
use nokernel.Machine.Backed.{Backs, mapped-Backs}
use nokernel.Machine.System.{IsSystem}

-- No frame is held.
abbrev pub nothing : ℕ → Bool
nothing f = false

-- Before there is a heap.
pub nothing-Backs :
    (m : Memory) (start : ℕ) → HasTree (held nothing) m → Backs m nothing start start
unfolding Backs
nothing-Backs m start tree = (tree, λ x low high. absurd (omega arith))

abbrev pub pages_of : ℕ → ℕ
pages_of requested = if ltb heap_max_pages requested then heap_max_pages else requested

pub pages_of-le :
    (requested : ℕ) → 0 < requested → (0 < pages_of requested) × (pages_of requested ≤ 2 ^ 18)
pages_of-le requested h = (ground arith, ground arith)

-- The heap of one free block.
abbrev pub first_heap : ℕ → ℕ → Heap
first_heap start stop =
    let block : BlockMeta = record {
      size = sub64 (sub64 stop start) meta_size;
      next = 0;
      is_free = true;
    } in
    store (record { headers = λ _. none; heap_start = start; heap_end = stop; free_list = start })
      start block

first_header :
    (start pages : ℕ)
    → 0 < pages
    → pages ≤ 2 ^ 18
    → start + 2 * heap_max + 2 ^ 14 ≤ 2 ^ 64
    → (first_heap start (start + pages * frame_size)).headers start
      ≡ some (record { size = pages * frame_size - meta_size; next = 0; is_free = true })
unfolding store
first_header start pages some_pages few low =
    let same : (start == start) ≡ true = ground arith in
    let size : sub64 (sub64 (start + pages * frame_size) start) meta_size
        ≡ pages * frame_size - meta_size =
      omega arith in
    rw same (ap (λ (k : ℕ). some (record { size = k; next = 0; is_free = true })) size)

pub first_heap-IsHeap :
    (start pages : ℕ)
    → 0 < start
    → 0 < pages
    → pages ≤ 2 ^ 18
    → start + 2 * heap_max + 2 ^ 14 ≤ 2 ^ 64
    → IsHeap
        (first_heap start (start + pages * frame_size))
        (record { size = pages * frame_size - meta_size; is_free = true } ∷ [])
unfolding store
first_heap-IsHeap start pages pos some_pages few low = record {
  tiles = (first_header start pages some_pages few low, omega arith);
  list = refl;
  pos = pos;
  small = omega arith;
  top = omega arith;
}

module _ (m : Memory) (start requested : ℕ) where
  abbrev pub pages : ℕ
  pages = pages_of requested

  abbrev pub base : ℕ
  base = (Pmm.alloc_frames m.frames pages).0

  abbrev pub mapping : Bool × Memory
  mapping = Vmm.map_range Pmm.alloc_frame (take_frames m pages).1 start base pages Calls.heap_flags

  abbrev pub started : Calls.System machine
  started = record { memory = mapping.1; heap = first_heap start (start + pages * frame_size) }

  module _ (tree : HasTree (held nothing) m) (pos : 0 < start) (aligned : start % 4096 ≡ 0)
      (low : start + 2 * heap_max + 2 ^ 14 ≤ 2 ^ 64) (some_pages : 0 < requested) where
    pub stop : u64 (start + u64 (pages * frame_size)) ≡ start + pages * frame_size
    stop = omega (arith, pages_of-le requested some_pages)

    unfoldable pub started-IsSystem : base ≢ 0 → mapping.0 ≡ true → IsSystem started
    unfolding store
    started-IsSystem ne done = record {
      owned = with_range nothing base pages;
      blocks = record { size = pages * frame_size - meta_size; is_free = true } ∷ [];
      is_heap =
          first_heap-IsHeap start pages pos (pages_of-le requested some_pages).0
            (pages_of-le requested some_pages).1 low;
      some_room = omega (arith, pages_of-le requested some_pages);
      aligned = omega arith;
      low = low;
      backed =
          mapped-Backs nothing m start start pages Calls.heap_flags (nothing-Backs m start tree)
            aligned (omega arith) refl ne done;
    }

    -- From sound page tables and a sound bitmap, Heap::init for at least one page, at a page
    -- above 0 with room for the largest heap behind it, either panics, because there are no
    -- frames for the heap, at most 2 ^ 18 pages, or they cannot be mapped; or it makes a heap of
    -- so many pages, which is well formed and backed by frames of its own.
    pub init-IsSystem :
        ((Calls.init machine m start requested ≡ panicked) × ((base ≡ 0) ⊎ (mapping.0 ≡ false)))
        ⊎ ((s : Calls.System machine) × (Calls.init machine m start requested ≡ ok s)
            × IsSystem s
            × (s.heap.heap_start ≡ start)
            × (s.heap.heap_end ≡ start + pages * frame_size))
    unfolding Calls.init take_frames store
    init-IsSystem = elim (Bool-cases (base == 0)) [
      | inl z ↦ inl (rw z refl, inl ((==_iff base 0).0 z))
      | inr n ↦ elim (Bool-cases mapping.0) [
        | inr failed ↦ inl (rw (n, failed) refl, inr failed)
        | inl done ↦ inr (
          started,
          rw (n, done)
              (ap (λ (k : ℕ). ok (record { memory = mapping.1; heap = first_heap start k })) stop),
          started-IsSystem (λ e. ground arith) done,
          refl,
          refl,
        )
      ]
    ]
