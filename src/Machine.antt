-- ===== src/Machine.antt =====
-- The memory of the kernel as a whole: the frame allocator (kernel/mm/pmm.cpp) behind the page tables
-- (kernel/mm/vmm.cpp), and both behind the heap (kernel/mm/heap.cpp).
pub mod Frames
pub mod Backed
pub mod System
pub mod Start
mod Tests
use nokernel.Prelude.{ℕ, Bool}
use nokernel.Pmm
use nokernel.Vmm
use nokernel.Heap.Calls.{Mapper}

-- The page tables take their frames from the bitmap, which is part of their state.
abbrev pub Memory : Type 0
Memory = Vmm.Vmm Pmm.alloc_frame

-- `PMM::alloc_frames`, `PMM::free_frames` and `VMM::map_range` as the heap calls them.
unfoldable pub take_frames : Memory → ℕ → ℕ × Memory
take_frames m count =
    let (first, frames) = Pmm.alloc_frames m.frames count in (first, record m { frames = frames })

unfoldable pub give_frames : Memory → ℕ → ℕ → Memory
give_frames m first count = record m { frames = Pmm.free_frames m.frames first count }

abbrev pub machine : Mapper
machine = record {
  State = Memory;
  alloc_frames = take_frames;
  free_frames = give_frames;
  map_range = Vmm.map_range Pmm.alloc_frame;
}
