-- ===== src/Pmm/Free.antt =====
-- `free_frame` and `free_frames` (kernel/mm/pmm.cpp), and that freeing undoes handing out.
use nokernel.Prelude.{
  ℕ, zero, suc, ◌+◌, ◌*◌, ◌/◌, ◌≤◌, ◌<◌, ◌≡◌, ◌≢◌, refl, Bool, true, false, not, ◌&&◌, inl, inr,
  arith, ◌==◌, ==_iff, if◌then◌else◌, Bool-cases, ◌∙◌, sym, ap,
}
use nokernel.Word.{u64}
use nokernel.Pmm.{
  Pmm, frame_size, state, clear, release_one, free_frame, free_loop, free_frames, alloc_frames,
}
use nokernel.Pmm.Bitmap.{free_below, free_below-le, free_below_ext, within}
use nokernel.Pmm.Reserve.{IsValid, refuses, state-release_one, release_one-IsCounted}
use nokernel.Pmm.Alloc.{alloc_frames_lem, Granted, Granted-IsValid}

-- `t` is `s` with the frames of a range marked free, frame 0 excepted.
pub record Released (s : Pmm) (first count : ℕ) (t : Pmm) : Type 0 where
  pub is_valid : IsValid t
  pub states :
      (g : ℕ) → state t g ≡ (if within first count g && not (g == 0) then false else state s g)
  pub same_total : t.total_frames ≡ s.total_frames
  pub same_base : t.bitmap_base ≡ s.bitmap_base

free_below_used : (used : ℕ → Bool) (f n : ℕ) → used f ≡ true → f < n → free_below used n < n
unfolding free_below
free_below_used used f zero e h = absurd (omega arith)
free_below_used used f (suc n) e h = elim (Bool-cases (f == n)) [
  | inl p ↦ ground (arith, ap used ((==_iff f n).0 p), free_below-le used n)
  | inr p ↦ ground (arith, free_below_used used f n)
]

module _ {s : Pmm} (v : IsValid s) (address : ℕ) where
  open v use {is_counted, zero_used}

  abbrev index : ℕ
  index = address / frame_size

  -- The test `freeFrames == totalFrames` never stops the release of a used frame.
  not_all_free : index < s.total_frames → (s.free_frames == s.total_frames) ≡ false
  not_all_free h =
      ground (arith, is_counted.counted, zero_used, free_below_used (state s) 0 s.total_frames)

  module _ (pos : index ≢ 0) (below : index < s.total_frames) where
    free_frame_used : state s index ≡ true → free_frame s address ≡ release_one s index
    unfolding free_frame
    free_frame_used e = ground (arith, not_all_free)

    free_frame_free : state s index ≡ false → free_frame s address ≡ s
    unfolding free_frame
    free_frame_free e = ground (arith, not_all_free)

    release_one_lem : state s index ≡ true → Released s index 1 (release_one s index)
    release_one_lem e = record {
      is_valid = record {
        is_counted = release_one-IsCounted is_counted index below e;
        zero_used =
            unfold clear release_one in
            λ h. ground (arith, state-release_one is_counted index below 0, zero_used);
      };
      states = λ g. ground (arith, state-release_one is_counted index below g);
      same_total = unfold clear release_one in refl;
      same_base = unfold clear release_one in refl;
    }

    -- Whether the frame was used or free before, it is free afterwards, and no other changed.
    free_frame_lem : Released s index 1 (free_frame s address)
    free_frame_lem = elim (Bool-cases (state s index)) [
      | inl e ↦ rw (free_frame_used e) (release_one_lem e)
      | inr e ↦ rw (free_frame_free e) (record {
        is_valid = v;
        states = λ g. elim (Bool-cases (index == g)) [
          | inl p ↦ ground (arith, ap (state s) ((==_iff index g).0 p))
          | inr p ↦ ground arith
        ];
        same_total = refl;
        same_base = refl;
      })
    ]

  -- Frame 0 is not released.
  free_frame_zero : index ≡ 0 → free_frame s address ≡ s
  unfolding free_frame
  free_frame_zero e = ground arith

-- One round of the loop of `free_frames`.
free_one_lem :
    {s : Pmm} (f : ℕ)
    → IsValid s
    → f < s.total_frames
    → Released s f 1 (free_frame s (u64 (f * frame_size)))
free_one_lem zero v h =
    rw (free_frame_zero v (u64 (0 * frame_size)) (omega arith))
      (record { is_valid = v; states = λ g. ground arith; same_total = refl; same_base = refl })
free_one_lem {s} (suc f) v h =
    let at : u64 (suc f * frame_size) / frame_size ≡ suc f =
      omega (arith, v.is_counted.bitmap.small) in
    rw at at (free_frame_lem v (u64 (suc f * frame_size)) (λ e. omega arith) (omega arith))

free_loop_lem :
    (n f : ℕ) {s : Pmm} → IsValid s → f + n ≤ s.total_frames → Released s f n (free_loop n f s)
unfolding free_loop
free_loop_lem zero f v h = record {
  is_valid = v;
  states = λ g. ground arith;
  same_total = refl;
  same_base = refl;
}
free_loop_lem (suc n) f {s} v h =
    let one = free_one_lem f v (omega arith) in
    let rest = free_loop_lem n (f + 1) one.is_valid (omega (arith, one.same_total)) in
    record {
      is_valid = rest.is_valid;
      states = λ g. ground (arith, rest.states g, one.states g);
      same_total = rest.same_total ∙ one.same_total;
      same_base = rest.same_base ∙ one.same_base;
    }

-- From a valid state `free_frames` on any address and length leaves a valid state in which exactly
-- the frames of the range have become free, frame 0 excepted, if the range ends at or below
-- `total_frames`; otherwise it changes no frame.
pub free_frames_lem :
    (first count : ℕ) {s : Pmm}
    → IsValid s
    → Released s
        (first / frame_size)
        (if refuses s first count then 0 else count)
        (free_frames s first count)
unfolding free_frames
free_frames_lem first count {s} v = elim (Bool-cases (refuses s first count)) [
  | inl e ↦
      rw e
        (record { is_valid = v; states = λ g. ground arith; same_total = refl; same_base = refl })
  | inr e ↦ rw e (free_loop_lem count (first / frame_size) v (ground arith))
]

-- The range that a successful call hands out is one that `free_frames` takes back.
module _ {s : Pmm} (count : ℕ) {address : ℕ} {t : Pmm} (v : IsValid s)
    (g : Granted s count address t) where
  open g use {positive, first, chosen, address_of, ne_null, reserved}

  first_lem : address / frame_size ≡ first
  first_lem = omega (arith, address_of)

  accepted : refuses t address count ≡ false
  accepted =
      ground (arith, positive, chosen.below, reserved.same_total, first_lem, ne_null, address_of)

  taken_back : Released t first count (free_frames t address count)
  taken_back = rw (accepted, first_lem) at (free_frames_lem address count (Granted-IsValid v g))

  restored : (f : ℕ) → state (free_frames t address count) f ≡ state s f
  restored f =
      ground (arith, taken_back.states f, reserved.states f, chosen.free f, ne_null, address_of)

  counter_restored : (free_frames t address count).free_frames ≡ s.free_frames
  counter_restored =
      let u = free_frames t address count in
      let same : u.total_frames ≡ s.total_frames = taken_back.same_total ∙ reserved.same_total in
      taken_back.is_valid.is_counted.counted
      ∙ ap (free_below (state u)) same
      ∙ free_below_ext (state u) (state s) s.total_frames (λ f _. restored f)
      ∙ sym v.is_counted.counted

-- From a valid state, if `alloc_frames` does not return 0, freeing what it handed out leaves a
-- valid state and restores the use of every frame and the counter.
pub free_frames-alloc_frames :
    {s : Pmm} (count : ℕ)
    → IsValid s
    → (alloc_frames s count).0 ≢ 0
    → let (address, t) = alloc_frames s count in
      let u = free_frames t address count in
      ((f : ℕ) → state u f ≡ state s f) × (u.free_frames ≡ s.free_frames) × IsValid u
free_frames-alloc_frames count v ne = elim (alloc_frames_lem count v) [
  | inl g ↦ (restored count v g, counter_restored count v g, (taken_back count v g).is_valid)
  | inr r ↦ absurd (ne r.null)
]
