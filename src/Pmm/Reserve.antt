-- ===== src/Pmm/Reserve.antt =====
-- The invariant of the manager, the release of one frame, and `reserve` (kernel/mm/pmm.cpp): marking
-- frames keeps the count.
use nokernel.Prelude.{
  ℕ, zero, suc, ◌+◌, ◌-◌, ◌/◌, ◌≤◌, ◌<◌, ◌≡◌, refl, Bool, true, false, ◌||◌, inl, inr, arith, ◌==◌,
  ltb, leb, if◌then◌else◌, Bool-cases, ap, ==_iff, ◌∙◌,
}
use nokernel.Word.{sub64}
use nokernel.Pmm.{
  Pmm, frame_size, state, set_used, clear, release_one, reserve_one, reserve_loop, reserve,
}
use nokernel.Pmm.Bitmap.{
  IsBitmap, set_used-IsBitmap, state-set_used, clear-IsBitmap, state-clear, free_below,
  free_below-le, free_below_mark, within,
}

-- The counter of free frames is right.
pub record IsCounted (s : Pmm) : Type 0 where
  pub bitmap : IsBitmap s
  pub counted : s.free_frames ≡ free_below (state s) s.total_frames

-- So it is, and frame 0 is never given out.
pub record IsValid (s : Pmm) : Type 0 where
  pub is_counted : IsCounted s
  pub zero_used : 0 < s.total_frames → state s 0 ≡ true

-- `t` is `s` with the frames of a range marked used.
pub record Reserved (s : Pmm) (first count : ℕ) (t : Pmm) : Type 0 where
  pub is_counted : IsCounted t
  pub states : (g : ℕ) → state t g ≡ (if within first count g then true else state s g)
  pub same_total : t.total_frames ≡ s.total_frames
  pub same_base : t.bitmap_base ≡ s.bitmap_base

-- The counter plays no part in the bitmap.
pub recount : {s : Pmm} (n : ℕ) → IsBitmap s → IsBitmap (record s { free_frames = n })
recount n b = record { bytes = b.bytes; sized = b.sized; small = b.small }

module _ {s : Pmm} (c : IsCounted s) (f : ℕ) (h : f < s.total_frames) where
  open c use {bitmap, counted}

  lowered : Pmm
  lowered = record s { free_frames = sub64 s.free_frames 1 }

  reserve_one_used : state s f ≡ true → reserve_one s f ≡ set_used s f
  unfolding reserve_one
  reserve_one_used e = rw e

  reserve_one_free : state s f ≡ false → reserve_one s f ≡ set_used lowered f
  unfolding reserve_one lowered
  reserve_one_free e = rw e

  lowered-IsBitmap : IsBitmap lowered
  unfolding lowered
  lowered-IsBitmap = recount _ bitmap

  lowered_states : (g : ℕ) → state (set_used lowered f) g ≡ (if f == g then true else state s g)
  unfolding lowered state
  lowered_states g = state-set_used lowered-IsBitmap f h g

  lowered-IsCounted : state s f ≡ false → IsCounted (set_used lowered f)
  lowered-IsCounted e = record {
    bitmap = set_used-IsBitmap lowered-IsBitmap f;
    counted =
        unfold set_used lowered in
        ground (
          arith,
          free_below_mark (state s) (state (set_used lowered f)) f s.total_frames lowered_states,
          free_below-le (state s) s.total_frames,
          bitmap.small,
        );
  }

  used-IsCounted : state s f ≡ true → IsCounted (set_used s f)
  used-IsCounted e = record {
    bitmap = set_used-IsBitmap bitmap f;
    counted =
        unfold set_used in
        ground (
          arith,
          free_below_mark (state s) (state (set_used s f)) f s.total_frames
              (state-set_used bitmap f h),
        );
  }

  reserve_one_lem : Reserved s f 1 (reserve_one s f)
  reserve_one_lem = elim (Bool-cases (state s f)) [
    | inl e ↦ rw (reserve_one_used e) (record {
      is_counted = used-IsCounted e;
      states = λ g. state-set_used bitmap f h g ∙ ground arith;
      same_total = unfold set_used in refl;
      same_base = unfold set_used in refl;
    })
    | inr e ↦ rw (reserve_one_free e) (record {
      is_counted = lowered-IsCounted e;
      states = λ g. lowered_states g ∙ ground arith;
      same_total = unfold set_used lowered in refl;
      same_base = unfold set_used lowered in refl;
    })
  ]

-- The release of a used frame.
module _ {s : Pmm} (c : IsCounted s) (f : ℕ) (below : f < s.total_frames) where
  open c use {bitmap}

  pub state-release_one :
      (g : ℕ) → state (release_one s f) g ≡ (if f == g then false else state s g)
  unfolding release_one state
  state-release_one g = state-clear bitmap f below g

  module _ (used : state s f ≡ true) where
    marked_back : (g : ℕ) → state s g ≡ (if f == g then true else state (release_one s f) g)
    marked_back g = elim (Bool-cases (f == g)) [
      | inl p ↦ ground (arith, ap (state s) ((==_iff f g).0 p))
      | inr p ↦ ground (arith, state-release_one g)
    ]

    pub release_one-IsCounted : IsCounted (release_one s f)
    release_one-IsCounted = record {
      bitmap = unfold release_one in recount _ (clear-IsBitmap bitmap f);
      counted =
          unfold clear release_one in
          ground (
            arith,
            c.counted,
            bitmap.small,
            free_below_mark (state (release_one s f)) (state s) f s.total_frames marked_back,
            state-release_one f,
            free_below-le (state s) s.total_frames,
          );
    }

-- The loop of `reserve` marks exactly its range, and the counter stays right.
pub reserve_loop_lem :
    (n f : ℕ) {s : Pmm} → IsCounted s → f + n ≤ s.total_frames → Reserved s f n (reserve_loop n f s)
unfolding reserve_loop
reserve_loop_lem zero f c h = record {
  is_counted = c;
  states = λ g. ground arith;
  same_total = refl;
  same_base = refl;
}
reserve_loop_lem (suc n) f {s} c h =
    let one = reserve_one_lem c f (omega arith) in
    let rest = reserve_loop_lem n (f + 1) one.is_counted (omega (arith, one.same_total)) in
    record {
      is_counted = rest.is_counted;
      states = λ g. ground (arith, rest.states g, one.states g);
      same_total = rest.same_total ∙ one.same_total;
      same_base = rest.same_base ∙ one.same_base;
    }

-- The guard of `reserve` and `free_frames`.
abbrev pub refuses : Pmm → ℕ → ℕ → Bool
refuses s first count =
    leb s.total_frames (first / frame_size) || ltb (s.total_frames - first / frame_size) count

-- From a state with a right counter, `reserve` on any address and length marks exactly the frames
-- of the range if the range ends at or below `total_frames`, and no frame otherwise; the counter
-- is right again, and the size and the place of the bitmap stay.
pub reserve_lem :
    (first count : ℕ) {s : Pmm}
    → IsCounted s
    → Reserved s
        (first / frame_size)
        (if refuses s first count then 0 else count)
        (reserve s first count)
unfolding reserve
reserve_lem first count {s} c = elim (Bool-cases (refuses s first count)) [
  | inl e ↦
      rw e
        (record { is_counted = c; states = λ g. ground arith; same_total = refl; same_base = refl })
  | inr e ↦ rw e (reserve_loop_lem count (first / frame_size) c (ground arith))
]
