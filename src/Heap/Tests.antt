-- ===== src/Heap/Tests.antt =====
-- Runs of kernel/mm/heap.cpp on a heap of one page.
use nokernel.Prelude.{
  ℕ, ◌+◌, ◌*◌, ◌≡◌, refl, true, false, [], ◌∷◌, arith, none, some, ◌==◌, if◌then◌else◌,
}
use nokernel.Pmm.{frame_size}
use nokernel.Heap.{Heap, meta_size, free}
use nokernel.Heap.Tiles.{Piece, IsHeap, first_fit}
use nokernel.Heap.Join.{block_at}
use nokernel.Heap.Safety.{Freed, free-Freed}
use nokernel.Heap.Calls
use nokernel.Heap.Calls.{Mapper}
use nokernel.Heap.Alloc.{Allocated, alloc-Allocated}

-- A block in use of 40 bytes, and a free one behind it.
abbrev in_use : Piece
in_use = record { size = 40; is_free = false }

abbrev spare : Piece
spare = record { size = 4008; is_free = true }

abbrev page : Heap
page = record {
  headers = λ a.
      if a == 0x1000
      then some (record { size = 40; next = 0x1040; is_free = false })
      else (if a == 0x1040 then some (record { size = 4008; next = 0; is_free = true }) else none);
  heap_start = 0x1000;
  heap_end = 0x2000;
  free_list = 0x1000;
}

page-IsHeap : IsHeap page (in_use ∷ spare ∷ [])
page-IsHeap = record {
  tiles = (refl, (refl, refl));
  list = refl;
  pos = omega arith;
  small = omega arith;
  top = omega arith;
}

page-first_fit : first_fit 0x1000 (in_use ∷ spare ∷ []) 100 ≡ 0x1040
page-first_fit = unfold first_fit in refl

free-Freed_example : Freed page (in_use ∷ spare ∷ []) 0x1000 (free page (0x1000 + meta_size))
free-Freed_example = free-Freed 0x1000 in_use page-IsHeap (unfold block_at in refl)

-- Frames handed out in order, and page tables that map every range.
abbrev in_order : Mapper
in_order = record {
  State = ℕ;
  alloc_frames = λ next count. (next, next + count * frame_size);
  free_frames = λ next first count. next;
  map_range = λ next virt phys count flags. (true, next);
}

abbrev running : Calls.System in_order
running = record { memory = 0x5000; heap = page }

alloc-Allocated_example :
    Allocated in_order running (in_use ∷ spare ∷ []) 5000 (Calls.alloc in_order running 5000)
alloc-Allocated_example =
    alloc-Allocated in_order running in_use (spare ∷ []) 5000 page-IsHeap (omega arith)
