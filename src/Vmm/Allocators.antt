-- ===== src/Vmm/Allocators.antt =====
-- Allocators of frames for the page tables: that of kernel/mm/pmm.cpp, and any allocator with some
-- frames set aside for others.
use nokernel.Prelude.{
  ℕ, ◌+◌, ◌*◌, ◌/◌, ◌%◌, ◌^◌, ◌≤◌, ◌<◌, false, ◌≡◌, ◌≢◌, ◌⊎◌, sym, ap, ◌∙◌, inl, inr, arith,
}
use mathlib.Core.Path.{subst}
use nokernel.Pmm.{Pmm, frame_size, state, alloc_frame, alloc_frames}
use nokernel.Pmm.Reserve.{IsValid}
use nokernel.Pmm.Alloc.{Granted, alloc_frames_lem, Granted-IsValid}
use nokernel.Vmm
use nokernel.Vmm.Tree.{IsAllocator}
use nokernel.Vmm.Mapped.{HasTree}

-- The bitmap is sound, and the addresses fit an entry of a page table.
unfoldable pub IsSmall : Pmm → Type 0
IsSmall s = IsValid s × (s.total_frames ≤ 2 ^ 40)

-- A frame, by its address, that the bitmap has as free.
unfoldable pub IsFree : Pmm → ℕ → Type 0
IsFree s f = (f % 4096 ≡ 0) × (f / 4096 < s.total_frames) × (state s (f / 4096) ≡ false)

Granted-IsSmall :
    {s t : Pmm} {count address : ℕ} → IsSmall s → Granted s count address t → IsSmall t
unfolding IsSmall
Granted-IsSmall (v, small) g = (Granted-IsValid v g, omega (arith, g.reserved.same_total))

-- Whatever is asked for, what is free afterwards was so before.
pub alloc_frames-left :
    (s : Pmm) (count f : ℕ) → IsSmall s → IsFree (alloc_frames s count).1 f → IsFree s f
unfolding IsSmall IsFree
alloc_frames-left s count f (v, small) free = elim (alloc_frames_lem count v) [
  | inl g ↦ (
    free.0,
    omega (arith, free.1, g.reserved.same_total),
    ground (arith, free.2, g.reserved.states (f / 4096)),
  )
  | inr r ↦ subst (λ (t : Pmm). IsFree t f) r.unchanged free
]

pub alloc_frames-IsSmall : (s : Pmm) (count : ℕ) → IsSmall s → IsSmall (alloc_frames s count).1
unfolding IsSmall
alloc_frames-IsSmall s count (v, small) = elim (alloc_frames_lem count v) [
  | inl g ↦ Granted-IsSmall (v, small) g
  | inr r ↦ subst IsSmall (sym r.unchanged) (v, small)
]

-- A frame of the granted range: it was free, and is so no more.
pub alloc_frames-taken :
    (s : Pmm) (count i : ℕ)
    → IsSmall s
    → (alloc_frames s count).0 ≢ 0
    → i < count
    → let f = (alloc_frames s count).0 + i * frame_size in
      IsFree s f × ¬ (IsFree (alloc_frames s count).1 f)
unfolding IsSmall IsFree
alloc_frames-taken s count i (v, small) granted h = elim (alloc_frames_lem count v) [
  | inl g ↦
      let here : ((alloc_frames s count).0 + i * frame_size) / 4096 ≡ g.first + i =
        omega (arith, g.address_of) in
      (
        (
          omega (arith, g.address_of),
          omega (arith, here, g.chosen.below),
          ap (state s) here ∙ g.chosen.free (g.first + i) (ground arith),
        ),
        λ free. absurd (
            ground (
              arith,
              free.2,
              ap (state (alloc_frames s count).1) here,
              g.reserved.states (g.first + i),
            )),
      )
  | inr r ↦ absurd (granted r.null)
]

module _ (s : Pmm) where
  pub IsFree-frame : (f : ℕ) → IsSmall s → IsFree s f → (f % 4096 ≡ 0) × (f < 2 ^ 52)
  unfolding IsSmall IsFree
  IsFree-frame f v free = (free.0, omega (arith, free.1, v.1))

  pub alloc_frame-IsSmall : IsSmall s → IsSmall (alloc_frame s).1
  unfolding alloc_frame
  alloc_frame-IsSmall v = alloc_frames-IsSmall s 1 v

  pub alloc_frame-granted :
      IsSmall s
      → (alloc_frame s).0 ≢ 0
      → IsFree s (alloc_frame s).0 × ¬ (IsFree (alloc_frame s).1 (alloc_frame s).0)
  unfolding alloc_frame
  alloc_frame-granted v h =
      let taken = alloc_frames-taken s 1 0 v h (omega arith) in
      subst (λ (f : ℕ). IsFree s f × ¬ (IsFree (alloc_frames s 1).1 f)) (omega arith) taken

  pub alloc_frame-refused : IsSmall s → (alloc_frame s).0 ≡ 0 → (alloc_frame s).1 ≡ s
  unfolding alloc_frame IsSmall
  alloc_frame-refused v e = elim (alloc_frames_lem 1 v.0) [
    | inl g ↦ absurd (g.ne_null e)
    | inr r ↦ r.unchanged
  ]

  -- Frame 0 is never free.
  IsFree-ne : (f : ℕ) → IsSmall s → IsFree s f → f ≢ 0
  unfolding IsSmall IsFree
  IsFree-ne f v free e =
      absurd (ground (arith, free, v.0.zero_used, ap (λ (x : ℕ). state s (x / 4096)) e))

  pub alloc_frame-left :
      (f : ℕ) → IsSmall s → IsFree (alloc_frame s).1 f → IsFree s f × (f ≢ (alloc_frame s).0)
  alloc_frame-left f v free =
      let before : IsFree s f = unfold alloc_frame in alloc_frames-left s 1 f v free in
      (
        before,
        λ e.
            let ne : (alloc_frame s).0 ≢ 0 = λ z. IsFree-ne f v before (e ∙ z) in
            absurd
              ((alloc_frame-granted v ne).1 (subst (λ (x : ℕ). IsFree (alloc_frame s).1 x) e free)),
      )

-- The frames of kernel/mm/pmm.cpp.
unfoldable pub pmm_allocator : IsAllocator alloc_frame
pmm_allocator = record {
  valid = IsSmall;
  free = IsFree;
  frame = IsFree-frame;
  kept = alloc_frame-IsSmall;
  granted = λ s v h. (alloc_frame-granted s v h).0;
  left = alloc_frame-left;
  refused = alloc_frame-refused;
}

-- With some frames set aside, which are not free: the tables keep off these as well.
module _ {A : Type 0} {alloc : A → ℕ × A} (q : IsAllocator alloc) (Aside : ℕ → Type 0)
    (fits : (f : ℕ) → Aside f → (f % 4096 ≡ 0) × (f < 2 ^ 52) × (f ≢ 0)) where
  unfoldable pub IsApart : A → Type 0
  IsApart a = q.valid a × ((f : ℕ) → q.free a f → ¬ (Aside f))

  unfoldable pub IsSpare : A → ℕ → Type 0
  IsSpare a f = q.free a f ⊎ Aside f

  pub IsSpare-frame : (a : A) (f : ℕ) → IsApart a → IsSpare a f → (f % 4096 ≡ 0) × (f < 2 ^ 52)
  unfolding IsApart IsSpare
  IsSpare-frame a f v (inl free) = q.frame a f v.0 free
  IsSpare-frame a f v (inr aside) = ((fits f aside).0, (fits f aside).1)

  pub alloc-IsApart : (a : A) → IsApart a → IsApart (alloc a).1
  unfolding IsApart
  alloc-IsApart a (v, apart) = (q.kept a v, λ f free. apart f (q.left a f v free).0)

  pub alloc-IsSpare :
      (a : A) (f : ℕ) → IsApart a → IsSpare (alloc a).1 f → IsSpare a f × (f ≢ (alloc a).0)
  unfolding IsApart IsSpare
  alloc-IsSpare a f (v, apart) (inl free) = (inl (q.left a f v free).0, (q.left a f v free).1)
  alloc-IsSpare a f (v, apart) (inr aside) = (
    inr aside,
    λ e. apart f (subst (q.free a) (sym e) (q.granted a v (λ z. (fits f aside).2 (e ∙ z)))) aside,
  )

  pub alloc-granted : (a : A) → IsApart a → (alloc a).0 ≢ 0 → IsSpare a (alloc a).0
  unfolding IsApart IsSpare
  alloc-granted a v h = inl (q.granted a v.0 h)

  pub alloc-refused : (a : A) → IsApart a → (alloc a).0 ≡ 0 → (alloc a).1 ≡ a
  unfolding IsApart
  alloc-refused a v e = q.refused a v.0 e

  unfoldable pub apart_allocator : IsAllocator alloc
  apart_allocator = record {
    valid = IsApart;
    free = IsSpare;
    frame = IsSpare-frame;
    kept = alloc-IsApart;
    granted = alloc-granted;
    left = alloc-IsSpare;
    refused = alloc-refused;
  }

-- A tree of tables stays one when the frames change hands: what is free for the new allocator was so
-- for the old one.
pub hand_over-HasTree :
    {A : Type 0} {alloc : A → ℕ × A} (q r : IsAllocator alloc) (v : Vmm.Vmm alloc) (frames : A)
    → HasTree q v
    → r.valid frames
    → ((f : ℕ) → r.free frames f → q.free v.frames f)
    → HasTree r (record v { frames = frames })
unfolding HasTree
hand_over-HasTree q r v frames (role, tree) sound fewer = (
  role,
  record {
    sound = sound;
    top = tree.top;
    offset_aligned = tree.offset_aligned;
    aligned = tree.aligned;
    linked = tree.linked;
    spare = λ f free. tree.spare f (fewer f free);
  },
)
