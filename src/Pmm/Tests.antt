-- ===== src/Pmm/Tests.antt =====
-- Runs of kernel/mm/pmm.cpp on a machine of eight frames.
use nokernel.Prelude.{
  ◌/◌, if◌then◌else◌, ℕ, zero, suc, ◌≡◌, ◌≢◌, refl, ◌<◌, List, [], ◌∷◌, get_or, arith, ◌⊎◌,
}
use nokernel.Boot.{EfiMemoryDescriptor}
use nokernel.Outcome.{panicked}
use nokernel.Pmm.{
  Pmm, state, alloc_frames, free_frames, reserve, init_from, place_bitmap, frames_for, highest_end,
  is_allocatable, frame_size,
}
use nokernel.Pmm.Bitmap.{free_below}
use nokernel.Pmm.Reserve.{IsCounted, IsValid, refuses}
use nokernel.Pmm.Alloc.{Granted, Refused, alloc_frames_lem}
use nokernel.Pmm.Free.{Released, free_frames_lem, free_frames-alloc_frames}
use nokernel.Pmm.Release.{Disjoint, offers, covered}
use nokernel.Pmm.Place.{bitmap_frames, NoHost}
use nokernel.Pmm.Init.{AllExist, Ready, init_from-Started}

-- Frames 0 and 2 are used.
abbrev pub eight : Pmm
eight = record { bitmap = 5 ∷ []; bitmap_base = 0x1000; total_frames = 8; free_frames = 6 }

eight-bytes : (i : ℕ) → get_or eight.bitmap i 0 < 256
eight-bytes zero = omega arith
eight-bytes (suc i) = omega arith

eight-IsCounted : IsCounted eight
unfolding nokernel.Word.Byte.test_bit
eight-IsCounted = record {
  bitmap = record { bytes = eight-bytes; sized = omega arith; small = omega arith };
  counted = unfold free_below in unfold state in refl;
}

pub eight-IsValid : IsValid eight
unfolding nokernel.Word.Byte.test_bit
eight-IsValid = record { is_counted = eight-IsCounted; zero_used = λ _. unfold state in refl }

-- The first run of two free frames begins at frame 3.
two_frames : (alloc_frames eight 2).0 ≡ 0x3000
unfolding nokernel.Pmm.find_run alloc_frames state nokernel.Word.Byte.test_bit
two_frames = refl

two_frames-ne : (alloc_frames eight 2).0 ≢ 0
two_frames-ne e = ground (arith, two_frames)

alloc_frames_lem_example :
    let (address, t) = alloc_frames eight 2 in Granted eight 2 address t ⊎ Refused eight 2 address t
alloc_frames_lem_example = alloc_frames_lem 2 eight-IsValid

free_frames-alloc_frames_example :
    let (address, t) = alloc_frames eight 2 in
    let u = free_frames t address 2 in
    ((f : ℕ) → state u f ≡ state eight f) × (u.free_frames ≡ eight.free_frames) × IsValid u
free_frames-alloc_frames_example = free_frames-alloc_frames 2 eight-IsValid two_frames-ne

free_frames_lem_example :
    Released eight
      (0x2000 / frame_size)
      (if refuses eight 0x2000 1 then 0 else 1)
      (free_frames eight 0x2000 1)
free_frames_lem_example = free_frames_lem 0x2000 1 eight-IsValid

-- A range for the loader, and one of four frames that may be allocated.
abbrev loader : EfiMemoryDescriptor
loader = record { type_of = 1; physical_start = 0; number_of_pages = 2 }

abbrev usable : EfiMemoryDescriptor
usable = record { type_of = 7; physical_start = 0x2000; number_of_pages = 4 }

abbrev two_ranges : List EfiMemoryDescriptor
two_ranges = loader ∷ usable ∷ []

two_ranges-AllExist : AllExist two_ranges
two_ranges-AllExist = (λ _. omega arith, (λ _. omega arith, tt))

two_ranges-Disjoint : Disjoint two_ranges
unfolding offers covered is_allocatable
two_ranges-Disjoint = (λ f e. cc e, (λ f _. refl, tt))

init_from-Started_example :
    (NoHost (bitmap_frames (highest_end two_ranges 0 / frame_size)) two_ranges
      × (init_from two_ranges ≡ panicked))
    ⊎ Ready two_ranges (init_from two_ranges)
init_from-Started_example = init_from-Started two_ranges two_ranges-AllExist two_ranges-Disjoint

two_ranges-placed :
    place_bitmap (frames_for (highest_end two_ranges 0 / frame_size)) two_ranges ≡ 0x2000
unfolding nokernel.Word.align_up highest_end place_bitmap is_allocatable
two_ranges-placed = refl
