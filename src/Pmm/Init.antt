-- ===== src/Pmm/Init.antt =====
-- `init` (kernel/mm/pmm.cpp): the state that the manager starts in.
use nokernel.Prelude.{
  ℕ, zero, suc, ◌+◌, ◌*◌, ◌/◌, ◌%◌, ◌^◌, ◌≤◌, ◌<◌, ◌≡◌, ◌≢◌, refl, Bool, true, false, not, ◌&&◌,
  ◌||◌, List, [], ◌∷◌, inl, inr, arith, ◌==◌, if◌then◌else◌, Bool-cases, ◌∙◌, ltb, ◌⊎◌, ==_iff,
  replicate, get_or, get_or-replicate, get_or_out, length-replicate, sym,
}
use mathlib.Core.Path.{subst}
use nokernel.Word.Align.{align_up-8, align_up-4096}
use nokernel.Word.Byte.{test-ff}
use nokernel.Outcome.{Outcome, ok, panicked}
use nokernel.Boot.{EfiMemoryDescriptor, contains}
use nokernel.Pmm.{
  Pmm, frame_size, state, reserve, release_all, is_allocatable, end_of, highest_end, place_bitmap,
  bytes_for, frames_for, init_from, all_used, suits,
}
use nokernel.Pmm.Bitmap.{within, free_below}
use nokernel.Pmm.Place.{
  bitmap_frames, NoHost, FirstHost, place_bitmap-NoHost, place_bitmap-FirstHost,
}
use nokernel.Pmm.Reserve.{IsCounted, IsValid, Reserved, refuses, reserve_lem}
use nokernel.Pmm.Release.{Freed, offers, covered, Disjoint, AllBelow, release_all_lem}

-- The firmware describes memory that exists: an allocatable range ends below 2 ^ 64.
abbrev pub AllExist : List EfiMemoryDescriptor → Type 0
AllExist [] = Unit {0}
AllExist (d ∷ ds) =
    (is_allocatable d ≡ true → d.physical_start + d.number_of_pages * frame_size < 2 ^ 64)
    × AllExist ds

abbrev raised : EfiMemoryDescriptor → ℕ → ℕ
raised d h = if is_allocatable d && ltb h (end_of d) then end_of d else h

highest_end-ge : (ds : List EfiMemoryDescriptor) (h : ℕ) → h ≤ highest_end ds h
unfolding highest_end
highest_end-ge [] h = omega arith
highest_end-ge (d ∷ ds) h = ground (arith, highest_end-ge ds (raised d h))

highest_end-lt : (ds : List EfiMemoryDescriptor) (h : ℕ) → h < 2 ^ 64 → highest_end ds h < 2 ^ 64
unfolding highest_end
highest_end-lt [] h p = p
highest_end-lt (d ∷ ds) h p = highest_end-lt ds (raised d h) (ground arith)

-- The first pass finds a size that holds every allocatable range.
highest_end-AllBelow :
    (ds : List EfiMemoryDescriptor) (h : ℕ)
    → AllExist ds
    → AllBelow (highest_end ds h / frame_size) ds
unfolding highest_end
highest_end-AllBelow [] h e = tt
highest_end-AllBelow (d ∷ ds) h e = (
  λ a. ground (arith, e.0 a, highest_end-ge ds (raised d h)),
  highest_end-AllBelow ds (raised d h) e.1,
)

module _ (total : ℕ) (small : total ≤ 2 ^ 52) where
  bytes_for-eq : bytes_for total ≡ (total + 7) / 8
  bytes_for-eq = omega (arith, align_up-8 total)

  frames_for-eq : frames_for total ≡ ((total + 7) / 8 + 4095) / 4096
  frames_for-eq = omega (arith, align_up-4096 (bytes_for total), bytes_for-eq)

abbrev ff : ℕ
ff = 0xff

free_below_none :
    (used : ℕ → Bool) (n : ℕ) → ((g : ℕ) → g < n → used g ≡ true) → free_below used n ≡ 0
unfolding free_below
free_below_none used zero h = refl
free_below_none used (suc n) h =
    ground (arith, free_below_none used n (λ g p. h g (omega arith)), h n (omega arith))

byte-of-replicate : (n i : ℕ) → get_or (replicate n ff) i 0 < 256
byte-of-replicate n i = elim (Bool-cases (ltb i n)) [
  | inl e ↦ ground (arith, get_or-replicate n i ff 0)
  | inr e ↦ ground (arith, get_or_out (replicate n ff) i 0, length-replicate n ff)
]

module _ (base total : ℕ) (small : total ≤ 2 ^ 52) where
  all_used_states : (g : ℕ) → g < total → state (all_used base total) g ≡ true
  unfolding state all_used
  all_used_states g h =
      rw (get_or-replicate (bytes_for total) (g / 8) ff 0 (omega (arith, bytes_for-eq total small)))
        (test-ff (g % 8) (omega arith))

  all_used-IsCounted : IsCounted (all_used base total)
  unfolding all_used
  all_used-IsCounted = record {
    bitmap = record {
      bytes = byte-of-replicate (bytes_for total);
      sized = omega (arith, bytes_for-eq total small, length-replicate (bytes_for total) ff);
      small = small;
    };
    counted = sym (free_below_none _ total all_used_states);
  }

-- Where the bitmap goes: into one allocatable range.
record Placed (total count base : ℕ) (ds : List EfiMemoryDescriptor) : Type 0 where
  fits : base / frame_size + count ≤ total
  inside : (g : ℕ) → within (base / frame_size) count g ≡ true → covered ds g ≡ true

suits-is_allocatable :
    (count : ℕ) (d : EfiMemoryDescriptor) → suits count d ≡ true → is_allocatable d ≡ true
unfolding is_allocatable contains
suits-is_allocatable count d h = ground arith

suits-Placed :
    (total count : ℕ) (d : EfiMemoryDescriptor) (ds : List EfiMemoryDescriptor)
    → AllExist (d ∷ ds)
    → AllBelow total (d ∷ ds)
    → suits count d ≡ true
    → Placed total count d.physical_start (d ∷ ds)
unfolding covered offers
suits-Placed total count d ds e b h =
    let a = suits-is_allocatable count d h in
    record { fits = ground (arith, b.0 a, e.0 a); inside = λ g p. ground (arith, e.0 a) }

place_bitmap_lem :
    (total count : ℕ) (ds : List EfiMemoryDescriptor)
    → AllExist ds
    → AllBelow total ds
    → place_bitmap count ds ≢ 0
    → Placed total count (place_bitmap count ds) ds
unfolding place_bitmap covered
place_bitmap_lem total count [] e b ne = absurd (ne refl)
place_bitmap_lem total count (d ∷ ds) e b ne = elim (Bool-cases (suits count d)) [
  | inl y ↦ rw y (suits-Placed total count d ds e b y)
  | inr n ↦
      let rest = place_bitmap_lem total count ds e.1 b.1 (ground arith) in
      rw n (record { fits = rest.fits; inside = λ g p. ground (arith, rest.inside g) })
]

-- What `init` promises of the state `s` that it leaves.
pub record Started (ds : List EfiMemoryDescriptor) (s : Pmm) : Type 0 where
  pub is_valid : IsValid s
  pub states :
      (f : ℕ)
      → f < s.total_frames
      → state s f ≡ (
          not (covered ds f)
          || within (s.bitmap_base / frame_size) (frames_for s.total_frames) f
          || f == 0)
  pub total : s.total_frames ≡ highest_end ds 0 / frame_size
  pub placed : FirstHost (bitmap_frames s.total_frames) s.bitmap_base ds
  pub holds_all : AllBelow s.total_frames ds
  pub room : bytes_for s.total_frames ≤ frames_for s.total_frames * frame_size
  pub inside :
      (f : ℕ)
      → within (s.bitmap_base / frame_size) (frames_for s.total_frames) f ≡ true
      → covered ds f ≡ true

-- `init` returns, and leaves such a state.
pub record Ready (ds : List EfiMemoryDescriptor) (run : Outcome Pmm) : Type 0 where
  pub result : Pmm
  pub returns : run ≡ ok result
  pub started : Started ds result

covered-lt :
    (total : ℕ) (ds : List EfiMemoryDescriptor) (f : ℕ)
    → AllBelow total ds
    → covered ds f ≡ true
    → f < total
unfolding covered offers
covered-lt total [] f b h = cc
covered-lt total (d ∷ ds) f b h = ground (arith, b.0, covered-lt total ds f b.1)

module _ (ds : List EfiMemoryDescriptor) (e : AllExist ds) (apart : Disjoint ds) where
  abbrev total : ℕ
  total = highest_end ds 0 / frame_size

  abbrev count : ℕ
  count = frames_for total

  abbrev base : ℕ
  base = place_bitmap count ds

  total_small : total ≤ 2 ^ 52
  total_small = omega (arith, highest_end-lt ds 0)

  all_below : AllBelow total ds
  all_below = highest_end-AllBelow ds 0 e

  after_release : Freed (all_used base total) (covered ds) (release_all ds (all_used base total))
  after_release =
      release_all_lem ds (all_used-IsCounted base total total_small) (unfold all_used in all_below)
        apart λ f p. all_used_states base total total_small f (covered-lt total ds f all_below p)

  module _ (ne : base ≢ 0) where
    placed : Placed total count base ds
    placed = place_bitmap_lem total count ds e all_below ne

    abbrev mid : Pmm
    mid = reserve (release_all ds (all_used base total)) base count

    final : Pmm
    final = reserve mid 0 1

    mid_total : (release_all ds (all_used base total)).total_frames ≡ total
    mid_total = after_release.same_total ∙ unfold all_used in refl

    accepted : 0 < total → refuses (release_all ds (all_used base total)) base count ≡ false
    accepted h = ground (arith, mid_total, placed.fits, frames_for-eq total total_small)

    bitmap_reserved :
        Reserved
          (release_all ds (all_used base total))
          (base / frame_size)
          (if refuses (release_all ds (all_used base total)) base count then 0 else count)
          mid
    bitmap_reserved = reserve_lem base count after_release.is_counted

    zero_reserved : Reserved mid 0 (if refuses mid 0 1 then 0 else 1) final
    zero_reserved = unfold final in reserve_lem 0 1 bitmap_reserved.is_counted

    same_total : final.total_frames ≡ total
    same_total = zero_reserved.same_total ∙ bitmap_reserved.same_total ∙ mid_total

    same_base : final.bitmap_base ≡ base
    same_base =
        zero_reserved.same_base
        ∙ bitmap_reserved.same_base
        ∙ after_release.same_base
        ∙ unfold all_used in refl

    zero_accepted : 0 < total → refuses mid 0 1 ≡ false
    zero_accepted h = ground (arith, bitmap_reserved.same_total, mid_total)

    final_states :
        (f : ℕ)
        → f < total
        → state final f ≡ (not (covered ds f) || within (base / frame_size) count f || f == 0)
    final_states f h = ground (
      arith,
      zero_reserved.states f,
      bitmap_reserved.states f,
      after_release.states f,
      all_used_states base total total_small f,
      zero_accepted,
      accepted,
    )

    final-Started : Started ds final
    final-Started = record {
      is_valid = record {
        is_counted = zero_reserved.is_counted;
        zero_used = λ h. ground (arith, final_states 0, same_total);
      };
      states = λ f h. simp (same_base, same_total) (final_states f (simp same_total at h));
      total = same_total;
      placed =
          rw (same_total, same_base, sym (frames_for-eq total total_small))
            (place_bitmap-FirstHost count ds ne);
      holds_all = rw same_total all_below;
      room =
          rw same_total
            (omega (arith, bytes_for-eq total total_small, frames_for-eq total total_small));
      inside = simp (same_base, same_total) placed.inside;
    }

  panics : (base == 0) ≡ true → init_from ds ≡ panicked
  unfolding init_from
  panics n = rw n

  starts : (ne : base ≢ 0) → init_from ds ≡ ok (final ne)
  unfolding init_from final
  starts ne = ground arith

  -- When the memory map describes memory below 2 ^ 64 and its allocatable ranges do not overlap,
  -- let the bitmap be one of a bit for each frame below the highest end of an allocatable range.
  -- `init` panics if no range of conventional memory above address 0 has the pages for the bitmap,
  -- and otherwise puts the bitmap at the start of the first that has, and leaves a state that is
  -- valid and that holds every allocatable range; there a frame is free exactly if an allocatable
  -- range holds it and it is neither frame 0 nor part of the bitmap; and the bitmap has room in its
  -- frames, which an allocatable range holds.
  pub init_from-Started :
      (NoHost (bitmap_frames (highest_end ds 0 / frame_size)) ds × (init_from ds ≡ panicked))
      ⊎ Ready ds (init_from ds)
  init_from-Started = elim (Bool-cases (base == 0)) [
    | inl n ↦ inl (
      subst (λ (frames : ℕ). NoHost frames ds) (frames_for-eq total total_small)
          (place_bitmap-NoHost count ds ((==_iff base 0).0 n)),
      panics n,
    )
    | inr y ↦
        let ne : base ≢ 0 = ground arith in
        inr (record { result = final ne; returns = starts ne; started = final-Started ne })
  ]
