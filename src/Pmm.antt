-- ===== src/Pmm.antt =====
-- The physical memory manager (kernel/mm/pmm.cpp): a bitmap with one bit for a frame, set if the
-- frame is used, and two counters.
pub mod Bitmap
pub mod Reserve
pub mod Alloc
pub mod Free
pub mod Release
pub mod Init
pub mod Place
pub mod Tests
use nokernel.Prelude.{
  ℕ, zero, suc, ◌+◌, ◌-◌, ◌*◌, ◌/◌, ◌%◌, Bool, not, ◌&&◌, ◌||◌, Option, none, some, List, [], ◌∷◌,
  get_or, set, replicate, ltb, leb, ◌==◌, if◌then◌else◌,
}
use nokernel.Word.{u64, sub64, align_up}
use nokernel.Word.Byte.{set_bit, clear_bit, test_bit}
use nokernel.Outcome.{Outcome, ok, ◌>>=◌, assert}
use nokernel.Boot.{EfiMemoryDescriptor, BootInfo, descriptors, contains, efi_conventional_memory}

abbrev pub frame_size : ℕ
frame_size = 4096

-- The bytes at `bitmap`, and the address that the pointer holds (0 for `nullptr`).
pub record Pmm : Type 0 where
  pub bitmap : List ℕ
  pub bitmap_base : ℕ
  pub total_frames : ℕ
  pub free_frames : ℕ

unfoldable pub clear : Pmm → ℕ → Pmm
clear s f = record s {
  bitmap = set s.bitmap (f / 8) (clear_bit (get_or s.bitmap (f / 8) 0) (f % 8));
}

unfoldable pub set_used : Pmm → ℕ → Pmm
set_used s f = record s {
  bitmap = set s.bitmap (f / 8) (set_bit (get_or s.bitmap (f / 8) 0) (f % 8));
}

unfoldable pub state : Pmm → ℕ → Bool
state s f = test_bit (get_or s.bitmap (f / 8) 0) (f % 8)

unfoldable pub total_count : Pmm → ℕ
total_count s = s.total_frames

unfoldable pub free_count : Pmm → ℕ
free_count s = s.free_frames

-- The body of the loop of `reserve` at frame `f`.
unfoldable pub reserve_one : Pmm → ℕ → Pmm
unfolding set_used
reserve_one s f =
    set_used (if state s f then s else record s { free_frames = sub64 s.free_frames 1 }) f

-- `n` rounds of the loop from frame `f` on.
unfoldable pub reserve_loop : ℕ → ℕ → Pmm → Pmm
reserve_loop zero f s = s
reserve_loop (suc n) f s = reserve_loop n (f + 1) (reserve_one s f)

unfoldable pub reserve : Pmm → ℕ → ℕ → Pmm
reserve s first count =
    let index = first / frame_size in
    if leb s.total_frames index || ltb (s.total_frames - index) count
    then s
    else reserve_loop count index s

-- The search of `alloc_frames`: `rounds` frames from `frame` on, `run` free ones just before it.
-- It stops at the first frame that ends a run of `count`.
unfoldable pub find_run : Pmm → ℕ → ℕ → ℕ → ℕ → Option ℕ
find_run s count zero frame run = none
find_run s count (suc rounds) frame run =
    let run' = if state s frame then 0 else run + 1 in
    let rest = find_run s count rounds (frame + 1) run' in
    if ltb run' count then rest else some (frame + 1 - count)

unfoldable pub alloc_frames : Pmm → ℕ → ℕ × Pmm
alloc_frames s count =
    if count == 0 || ltb s.free_frames count
    then (0, s)
    else elim (find_run s count s.total_frames 0 0) [
      | none ↦ (0, s)
      | some first ↦ (u64 (first * frame_size), reserve s (u64 (first * frame_size)) count)
    ]

unfoldable pub alloc_frame : Pmm → ℕ × Pmm
alloc_frame s = alloc_frames s 1

-- `clear(f); freeFrames++;`
unfoldable pub release_one : Pmm → ℕ → Pmm
unfolding clear
release_one s f = record (clear s f) { free_frames = u64 (s.free_frames + 1) }

unfoldable pub free_frame : Pmm → ℕ → Pmm
free_frame s frame =
    let index = frame / frame_size in
    if s.free_frames == s.total_frames || index == 0 || leb s.total_frames index
    then s
    else if state s index
    then release_one s index
    else s

-- `n` rounds of the loop of `free_frames` from frame `f` on.
unfoldable pub free_loop : ℕ → ℕ → Pmm → Pmm
free_loop zero f s = s
free_loop (suc n) f s = free_loop n (f + 1) (free_frame s (u64 (f * frame_size)))

unfoldable pub free_frames : Pmm → ℕ → ℕ → Pmm
free_frames s first count =
    let index = first / frame_size in
    if leb s.total_frames index || ltb (s.total_frames - index) count
    then s
    else free_loop count index s

-- `AllocatableMemoryTypes`.
abbrev pub allocatable_memory_types : List ℕ
allocatable_memory_types = efi_conventional_memory ∷ []

unfoldable pub is_allocatable : EfiMemoryDescriptor → Bool
unfolding contains
is_allocatable d = contains d.type_of allocatable_memory_types

abbrev pub end_of : EfiMemoryDescriptor → ℕ
end_of d = u64 (d.physical_start + u64 (d.number_of_pages * frame_size))

-- The first pass of `init`: the highest end of an allocatable range.
unfoldable pub highest_end : List EfiMemoryDescriptor → ℕ → ℕ
highest_end [] highest = highest
highest_end (d ∷ ds) highest =
    highest_end ds (if is_allocatable d && ltb highest (end_of d) then end_of d else highest)

-- The test of the second pass.
abbrev pub suits : ℕ → EfiMemoryDescriptor → Bool
suits count d =
    d.type_of == efi_conventional_memory
    && (not (d.physical_start == 0) && leb count d.number_of_pages)

-- The second pass: where the bitmap goes. 0 is `nullptr`.
unfoldable pub place_bitmap : ℕ → List EfiMemoryDescriptor → ℕ
place_bitmap bitmap_frames [] = 0
place_bitmap bitmap_frames (d ∷ ds) =
    if suits bitmap_frames d then d.physical_start else place_bitmap bitmap_frames ds

-- `clear(f); freeFrames++;` for `n` frames from `f` on.
unfoldable pub release_loop : ℕ → ℕ → Pmm → Pmm
release_loop zero f s = s
release_loop (suc n) f s = release_loop n (f + 1) (release_one s f)

-- The rounds of `for (f = first; f < first + NumberOfPages; f++)`.
abbrev pub pages_of : EfiMemoryDescriptor → ℕ
pages_of d = let first = d.physical_start / frame_size in u64 (first + d.number_of_pages) - first

-- The third pass: frees every frame of every allocatable range.
unfoldable pub release_all : List EfiMemoryDescriptor → Pmm → Pmm
release_all [] s = s
release_all (d ∷ ds) s =
    release_all ds
      (if is_allocatable d then release_loop (pages_of d) (d.physical_start / frame_size) s else s)

abbrev pub bytes_for : ℕ → ℕ
bytes_for total = align_up total 8 / 8

abbrev pub frames_for : ℕ → ℕ
frames_for total = align_up (bytes_for total) frame_size / frame_size

-- The state after the `memset` to 0xFF.
unfoldable pub all_used : ℕ → ℕ → Pmm
all_used base total = record {
  bitmap = replicate (bytes_for total) 0xff;
  bitmap_base = base;
  total_frames = total;
  free_frames = 0;
}

unfoldable pub init_from : List EfiMemoryDescriptor → Outcome Pmm
unfolding all_used
init_from ds =
    let total = highest_end ds 0 / frame_size in
    let base = place_bitmap (frames_for total) ds in
    assert (not (base == 0)) >>= λ _.
    ok (reserve (reserve (release_all ds (all_used base total)) base (frames_for total)) 0 1)

unfoldable pub init : BootInfo → Outcome Pmm
init info = descriptors info >>= init_from
