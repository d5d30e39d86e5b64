-- ===== src/Machine/Tests.antt =====
-- The kernel's memory on a small machine of eight frames.
use nokernel.Prelude.{
  ℕ, ◌+◌, ◌*◌, ◌/◌, ◌%◌, ◌<◌, true, false, Option, none, some, List, [], ◌∷◌, ◌≡◌, ◌≢◌, ◌⊎◌, ◌==◌,
  refl, if◌then◌else◌, ap, arith, inl, inr,
}
use nokernel.Outcome.{ok, panicked}
use nokernel.Word.{u64}
use nokernel.Pmm
use nokernel.Pmm.{frame_size, state}
use nokernel.Pmm.Tests.{eight, eight-IsValid}
use nokernel.Vmm
use nokernel.Vmm.Words.{present_zero}
use nokernel.Boot.{BootInfo, EfiMemoryDescriptor, descriptors, walk_mmap}
use nokernel.Vmm.Tree.{IsTree, mapped}
use nokernel.Vmm.Mapped.{HasTree, Adds, Removes, entry_for, map_page-Adds, unmap-Removes}
use nokernel.Vmm.Ranges.{covers, distance, range_entry}
use nokernel.Vmm.RoundTrip.{map_range_lem, translate-map_range, unmap_range-map_range}
use nokernel.Vmm.Requests.{asked_both, asked, Holds}
use nokernel.Pmm.{frame_size}
use nokernel.Word.{align_up}
use nokernel.Vmm.Direct.{AllFit, init-Holds}
use nokernel.Vmm.Allocators.{IsSmall, IsFree, IsApart, IsSpare, pmm_allocator, apart_allocator}
use nokernel.Heap.{meta_size}
use nokernel.Heap.Join.{block_at}
use nokernel.Heap.Calls
use nokernel.Machine.{Memory, machine, take_frames}
use nokernel.Machine.Frames.{IsHeld, held}
use nokernel.Machine.System.{IsSystem, BytesBacked, alloc-IsSystem, operator_delete-IsSystem}
use nokernel.Machine.Start.{nothing, pages, base, mapping, started, started-IsSystem, init-IsSystem}

-- The root table is frame 2, and empty.
abbrev small : Memory
small = record { words = λ a. 0; pml4_phys = 0x2000; phys_offset = 0; frames = eight }

abbrev only_root : ℕ → Option (ℕ × ℕ)
only_root t = if t == 0x2000 then some (3, 0) else none

root_used : state eight 2 ≡ true
unfolding state nokernel.Word.Byte.test_bit
root_used = refl

IsFree-ne_root : (f : ℕ) → IsFree eight f → f ≢ 0x2000
unfolding IsFree
IsFree-ne_root f free e =
    absurd (ground (arith, free, root_used, ap (λ (x : ℕ). state eight (x / 4096)) e))

small_spare : (f : ℕ) → IsFree eight f ⊎ IsHeld nothing f → only_root (u64 (f + 0)) ≡ none
small_spare f (inl free) =
    let below : f / 4096 < 8 = unfold IsFree in free.1 in
    ground (arith, IsFree-ne_root f free, below)
small_spare f (inr h) = absurd (unfold IsHeld in ground (arith, h))

small-IsTree : IsTree (held nothing) small only_root
unfolding apart_allocator pmm_allocator IsApart IsSpare
small-IsTree = record {
  sound = (
    (unfold IsSmall in (eight-IsValid, omega arith)),
    λ f free h. absurd (unfold IsHeld in ground (arith, h)),
  );
  top = refl;
  offset_aligned = refl;
  aligned = λ t r h. ground arith;
  linked = λ t level p i h hi on. absurd (ground (arith, present_zero));
  spare = small_spare;
}

small-HasTree : HasTree (held nothing) small
unfolding HasTree
small-HasTree = (only_root, small-IsTree)

abbrev heap_at : ℕ
heap_at = 0xffff_c000_0000_0000

-- Frame 1 is for the heap, frames 3 to 5 for the tables that lead to it.
base_frame : (Pmm.alloc_frames eight 1).0 ≡ 0x1000
unfolding nokernel.Pmm.alloc_frames nokernel.Pmm.find_run state nokernel.Word.Byte.test_bit
base_frame = refl

base-ne : (Pmm.alloc_frames eight 1).0 ≢ 0
base-ne e = ground (arith, base_frame)

maps :
    (Vmm.map_range Pmm.alloc_frame
      (take_frames small 1).1
      heap_at
      (Pmm.alloc_frames eight 1).0
      1
      Calls.heap_flags).0
    ≡ true
unfolding take_frames Vmm.map_range Vmm.map_loop Vmm.map_page Vmm.find_entry Vmm.walk Vmm.next_table
    Vmm.index Vmm.is_present Vmm.phys_to_virt Vmm.clear_frame Vmm.store_word Pmm.alloc_frame
    Pmm.alloc_frames Pmm.find_run Pmm.reserve Pmm.reserve_loop Pmm.reserve_one Pmm.set_used state
    nokernel.Word.Byte.test_bit nokernel.Word.Byte.set_bit
maps = refl

abbrev first_system : Calls.System machine
first_system = started small heap_at 1

running : IsSystem first_system
running =
    started-IsSystem small heap_at 1 small-HasTree (omega arith) refl (omega arith) (omega arith)
      base-ne maps

init-IsSystem_example :
    ((Calls.init machine small heap_at 1 ≡ panicked)
      × ((base small heap_at 1 ≡ 0) ⊎ ((mapping small heap_at 1).0 ≡ false)))
    ⊎ ((s : Calls.System machine) × (Calls.init machine small heap_at 1 ≡ ok s)
        × IsSystem s
        × (s.heap.heap_start ≡ heap_at)
        × (s.heap.heap_end ≡ heap_at + pages small heap_at 1 * frame_size))
init-IsSystem_example =
    init-IsSystem small heap_at 1 small-HasTree (omega arith) refl (omega arith) (omega arith)

alloc-IsSystem_example :
    (a : ℕ) × (t : Calls.System machine) × (Calls.alloc machine first_system 100 ≡ ok (a, t))
    × (is : IsSystem t) × (a ≢ 0 → BytesBacked t is.owned a 100)
alloc-IsSystem_example = alloc-IsSystem first_system 100 running

first_block :
    block_at heap_at running.blocks heap_at ≡ some (record { size = 4072; is_free = true })
unfolding block_at running started-IsSystem
first_block = refl

operator_delete-IsSystem_example :
    (t : Calls.System machine) × (Calls.operator_delete machine first_system (heap_at + meta_size)
      ≡ ok t)
    × IsSystem t
unfolding nokernel.Heap.store
operator_delete-IsSystem_example =
    operator_delete-IsSystem first_system running heap_at (record { size = 4072; is_free = true })
      first_block

-- Two pages at 0x40_0000, mapped to frames from 0x5000 on.
map_range_lem_example :
    let (done, v') = Vmm.map_range Pmm.alloc_frame small 0x40_0000 0x5000 2 2 in
    HasTree (held nothing) v'
    × (((done ≡ true)
          × ((x : ℕ) → covers 0x40_0000 2 x ≡ true → mapped (held nothing) small x ≡ none)
          × ((x : ℕ)
              → mapped (held nothing) v' x ≡ (
                  if covers 0x40_0000 2 x
                  then some (range_entry (held nothing) 0x40_0000 0x5000 2 x)
                  else mapped (held nothing) small x)))
        ⊎ ((done ≡ false) × ((x : ℕ) → mapped (held nothing) v' x ≡ mapped (held nothing) small x)))
map_range_lem_example =
    map_range_lem (held nothing) small 0x40_0000 0x5000 2 2 small-HasTree (omega arith)
      (omega arith)

two_pages : (Vmm.map_range Pmm.alloc_frame small 0x40_0000 0x5000 2 2).0 ≡ true
unfolding Vmm.map_range Vmm.map_loop Vmm.map_page Vmm.find_entry Vmm.walk Vmm.next_table Vmm.index
    Vmm.is_present Vmm.phys_to_virt Vmm.clear_frame Vmm.store_word Pmm.alloc_frame Pmm.alloc_frames
    Pmm.find_run Pmm.reserve Pmm.reserve_loop Pmm.reserve_one Pmm.set_used state
    nokernel.Word.Byte.test_bit nokernel.Word.Byte.set_bit
two_pages = refl

translate-map_range_example :
    let v' = (Vmm.map_range Pmm.alloc_frame small 0x40_0000 0x5000 2 2).1 in
    Vmm.translate Pmm.alloc_frame v' 0x40_1234 ≡ (
      if covers 0x40_0000 2 0x40_1234
      then 0x5000 + distance 0x40_0000 0x40_1234 * 4096 + 0x40_1234 % 4096
      else Vmm.translate Pmm.alloc_frame small 0x40_1234)
translate-map_range_example =
    translate-map_range (held nothing) small 0x40_0000 0x5000 2 2 small-HasTree (omega arith) refl
      (omega arith) refl two_pages 0x40_1234

unmap_range-map_range_example :
    let v' = (Vmm.map_range Pmm.alloc_frame small 0x40_0000 0x5000 2 2).1 in
    Vmm.translate Pmm.alloc_frame (Vmm.unmap_range Pmm.alloc_frame 2 v' 0x40_0000) 0x40_1234
    ≡ Vmm.translate Pmm.alloc_frame small 0x40_1234
unmap_range-map_range_example =
    unmap_range-map_range (held nothing) small 0x40_0000 0x5000 2 2 small-HasTree (omega arith)
      (omega arith) two_pages 0x40_1234

map_page-Adds_example :
    Adds
      (held nothing)
      small
      0x40_0000
      (entry_for (held nothing) 0x5000 2)
      (Vmm.map_page Pmm.alloc_frame small 0x40_0000 0x5000 2)
map_page-Adds_example = map_page-Adds (held nothing) small 0x40_0000 0x5000 2 small-HasTree

unmap-Removes_example :
    Removes (held nothing) small 0x40_0000 (Vmm.unmap Pmm.alloc_frame small 0x40_0000)
unmap-Removes_example = unmap-Removes (held nothing) small 0x40_0000 small-HasTree

-- A map of one descriptor: two pages from 0x3000 on.
abbrev one_range : BootInfo
one_range = record {
  mmap = λ offset. record { type_of = 7; physical_start = 0x3000; number_of_pages = 2 };
  mmap_size = 48;
  desc_size = 48;
  fb = record { base = 0x8000_0000; size = 8; width = 2; height = 1; pitch = 2; format = 1 };
}

abbrev one : List EfiMemoryDescriptor
one = record { type_of = 7; physical_start = 0x3000; number_of_pages = 2 } ∷ []

one_read : descriptors one_range ≡ ok one
unfolding descriptors walk_mmap
one_read = refl

one_frame : (Pmm.alloc_frame eight).0 ≢ 0
unfolding Pmm.alloc_frame
one_frame = base-ne

init-Holds_example :
    (built : Memory) × (Vmm.init Pmm.alloc_frame one_range small ≡ ok built)
    × Holds (held nothing) built (
        asked_both one_range.fb.base
          (align_up one_range.fb.size frame_size / frame_size)
          (asked one []))
init-Holds_example =
    init-Holds (held nothing) small (small-IsTree.sound) refl one_frame one_range one one_read
      (unfold AllFit in (omega arith, tt)) (omega arith)
