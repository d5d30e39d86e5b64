-- ===== src/Entry.antt =====
-- The start of the heap, and of the memory before it (kernel/entry.cpp).
pub mod Size
pub mod Start
mod Tests
use nokernel.Prelude.{ℕ, zero, suc, ◌/◌, ◌^◌, not, ltb, ◌==◌, if◌then◌else◌}
use nokernel.Outcome.{Outcome, ok, hangs, ◌>>=◌, assert}
use nokernel.Boot.{BootInfo}
use nokernel.Pmm
use nokernel.Vmm
use nokernel.Machine.{Memory, machine}
use nokernel.Heap.Calls
use nokernel.Heap.Calls.{Mapper}

-- The loop of `HeapAlloc`, with a bound on the rounds: the size in frames, 0 when it breaks.
unfoldable pub heap_size_loop : ℕ → ℕ → ℕ → Outcome ℕ
heap_size_loop zero free_frames target = hangs
heap_size_loop (suc rounds) free_frames target =
    let rest = heap_size_loop rounds free_frames (target / 2) in
    if target == 1 then ok 0 else (if ltb free_frames target then rest else ok target)

-- From 256, which is halved at most eight times.
unfoldable pub heap_init_size : ℕ → Outcome ℕ
unfolding heap_size_loop
heap_init_size free_frames = heap_size_loop 9 free_frames 256

abbrev pub heap_start : ℕ
heap_start = 0xffff_c000_0000_0000

-- `free_count` is that of the frame allocator behind the interface.
unfoldable pub heap_alloc : (m : Mapper) → (m.State → ℕ) → m.State → Outcome (Calls.System m)
heap_alloc m free_count memory = heap_init_size (free_count memory) >>= λ size.
    assert (not (size == 0)) >>= λ _. Calls.init m memory heap_start size

-- What `_start` does to the memory, from the boot information and the words in memory.
unfoldable pub start_memory : BootInfo → (ℕ → ℕ) → Outcome (Calls.System machine)
start_memory info words = Pmm.init info >>= λ frames.
    let tables : Memory = record {
      words = words;
      pml4_phys = 0;
      phys_offset = 0;
      frames = frames;
    } in
    Vmm.init Pmm.alloc_frame info tables >>= λ memory.
    heap_alloc machine (λ (m : Memory). Pmm.free_count m.frames) memory
