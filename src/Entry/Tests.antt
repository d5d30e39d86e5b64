-- ===== src/Entry/Tests.antt =====
-- The first heap on small memories (kernel/entry.cpp).
use nokernel.Prelude.{ℕ, ◌^◌, ◌≤◌, ◌<◌, ◌≡◌, ◌⊎◌, [], ◌∷◌, refl, arith}
use nokernel.Boot.{BootInfo, EfiMemoryDescriptor, descriptors, walk_mmap}
use nokernel.Pmm.{is_allocatable, highest_end}
use nokernel.Pmm.Release.{Disjoint, offers, covered}
use nokernel.Pmm.Init.{AllExist}
use nokernel.Vmm.Direct.{AllFit}
use nokernel.Entry.{start_memory}
use nokernel.Entry.Start.{Runs, start_memory-Runs}
use nokernel.Outcome.{ok}
use nokernel.Entry.{heap_size_loop, heap_init_size}
use nokernel.Entry.Size.{IsBest, heap_init_size-IsBest}

heap_init_size_run : heap_init_size 100 ≡ ok 64
unfolding heap_init_size heap_size_loop
heap_init_size_run = refl

heap_init_size-IsBest_example :
    ((100 < 2) × (heap_init_size 100 ≡ ok 0))
    ⊎ ((k : ℕ) × ((heap_init_size 100 ≡ ok (2 ^ k)) × IsBest 100 8 k))
heap_init_size-IsBest_example = heap_init_size-IsBest 100

-- Sixteen megabytes from the first one on, and a framebuffer of eight bytes.
abbrev usable : EfiMemoryDescriptor
usable = record { type_of = 7; physical_start = 0x10_0000; number_of_pages = 4096 }

abbrev sixteen : BootInfo
sixteen = record {
  mmap = λ offset. usable;
  mmap_size = 48;
  desc_size = 48;
  fb = record { base = 0x8000_0000; size = 8; width = 2; height = 1; pitch = 2; format = 1 };
}

sixteen_read : descriptors sixteen ≡ ok (usable ∷ [])
unfolding descriptors walk_mmap
sixteen_read = refl

usable-AllExist : AllExist (usable ∷ [])
usable-AllExist = (λ _. omega arith, tt)

usable-Disjoint : Disjoint (usable ∷ [])
unfolding offers covered is_allocatable
usable-Disjoint = (λ f e. refl, tt)

usable_end : highest_end (usable ∷ []) 0 ≤ 2 ^ 52
unfolding highest_end is_allocatable
usable_end = omega arith

start_memory-Runs_example : Runs (start_memory sixteen (λ a. 0))
start_memory-Runs_example =
    start_memory-Runs sixteen (usable ∷ []) (λ a. 0) sixteen_read usable-AllExist usable-Disjoint
      (unfold AllFit in (omega arith, tt)) (omega arith) usable_end
