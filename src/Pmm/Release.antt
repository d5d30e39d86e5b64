-- ===== src/Pmm/Release.antt =====
-- The third pass of `init` (kernel/mm/pmm.cpp): what releasing all allocatable ranges leaves free.
use nokernel.Prelude.{
  ℕ, zero, suc, ◌+◌, ◌/◌, ◌≤◌, ◌<◌, ◌≡◌, refl, Bool, true, false, ◌&&◌, ◌||◌, List, [], ◌∷◌, inl,
  inr, arith, if◌then◌else◌, Bool-cases, ◌∙◌,
}
use nokernel.Boot.{EfiMemoryDescriptor}
use nokernel.Pmm.{
  Pmm, frame_size, state, release_one, release_loop, release_all, is_allocatable, pages_of,
}
use nokernel.Pmm.Bitmap.{within}
use nokernel.Pmm.Reserve.{IsCounted, state-release_one, release_one-IsCounted}

-- `t` is `s` with the frames of a set marked free.
pub record Freed (s : Pmm) (set : ℕ → Bool) (t : Pmm) : Type 0 where
  pub is_counted : IsCounted t
  pub states : (g : ℕ) → state t g ≡ (if set g then false else state s g)
  pub same_total : t.total_frames ≡ s.total_frames
  pub same_base : t.bitmap_base ≡ s.bitmap_base

Freed-one :
    {s : Pmm} (f : ℕ)
    → IsCounted s
    → f < s.total_frames
    → state s f ≡ true
    → Freed s (within f 1) (release_one s f)
Freed-one f c h used = record {
  is_counted = release_one-IsCounted c f h used;
  states = λ g. ground (arith, state-release_one c f h g);
  same_total = unfold release_one in refl;
  same_base = unfold release_one in refl;
}

Freed-range :
    (n f : ℕ) {s : Pmm}
    → IsCounted s
    → f + n ≤ s.total_frames
    → ((g : ℕ) → within f n g ≡ true → state s g ≡ true)
    → Freed s (within f n) (release_loop n f s)
unfolding release_loop
Freed-range zero f c h used = record {
  is_counted = c;
  states = λ g. ground arith;
  same_total = refl;
  same_base = refl;
}
Freed-range (suc n) f {s} c h used =
    let one = Freed-one f c (omega arith) (used f (ground arith)) in
    let rest =
      Freed-range n (f + 1) one.is_counted (omega (arith, one.same_total))
        (λ g p. ground (arith, one.states g, used g)) in
    record {
      is_counted = rest.is_counted;
      states = λ g. ground (arith, rest.states g, one.states g);
      same_total = rest.same_total ∙ one.same_total;
      same_base = rest.same_base ∙ one.same_base;
    }

abbrev pub first_of : EfiMemoryDescriptor → ℕ
first_of d = d.physical_start / frame_size

-- The frames of a range that may be allocated.
unfoldable pub offers : EfiMemoryDescriptor → ℕ → Bool
offers d f = is_allocatable d && within (first_of d) (pages_of d) f

-- The frames that some allocatable range holds.
unfoldable pub covered : List EfiMemoryDescriptor → ℕ → Bool
covered [] f = false
covered (d ∷ ds) f = offers d f || covered ds f

-- No frame is in two allocatable ranges.
abbrev pub Disjoint : List EfiMemoryDescriptor → Type 0
Disjoint [] = Unit {0}
Disjoint (d ∷ ds) = ((f : ℕ) → offers d f ≡ true → covered ds f ≡ false) × Disjoint ds

-- Every allocatable range ends at or below frame `total`.
abbrev pub AllBelow : ℕ → List EfiMemoryDescriptor → Type 0
AllBelow total [] = Unit {0}
AllBelow total (d ∷ ds) =
    (is_allocatable d ≡ true → first_of d + pages_of d ≤ total) × AllBelow total ds

release_step : EfiMemoryDescriptor → Pmm → Pmm
release_step d s = if is_allocatable d then release_loop (pages_of d) (first_of d) s else s

Freed-step :
    (d : EfiMemoryDescriptor) {s : Pmm}
    → IsCounted s
    → (is_allocatable d ≡ true → first_of d + pages_of d ≤ s.total_frames)
    → ((f : ℕ) → offers d f ≡ true → state s f ≡ true)
    → Freed s (offers d) (release_step d s)
unfolding release_step offers
Freed-step d {s} c below used = elim (Bool-cases (is_allocatable d)) [
  | inl e ↦
      let range =
        Freed-range (pages_of d) (first_of d) c (below e) (λ g p. used g (ground arith)) in
      rw e (record {
        is_counted = range.is_counted;
        states = λ g. ground (arith, range.states g);
        same_total = range.same_total;
        same_base = range.same_base;
      })
  | inr e ↦
      rw e
        (record { is_counted = c; states = λ g. ground arith; same_total = refl; same_base = refl })
]

pub release_all_lem :
    (ds : List EfiMemoryDescriptor) {s : Pmm}
    → IsCounted s
    → AllBelow s.total_frames ds
    → Disjoint ds
    → ((f : ℕ) → covered ds f ≡ true → state s f ≡ true)
    → Freed s (covered ds) (release_all ds s)
unfolding release_all covered release_step
release_all_lem [] c below apart used = record {
  is_counted = c;
  states = λ g. refl;
  same_total = refl;
  same_base = refl;
}
release_all_lem (d ∷ ds) {s} c below apart used =
    let one : Freed s (offers d) (release_step d s) =
      Freed-step d c below.0 (λ f p. used f (ground arith)) in
    let rest =
      release_all_lem ds one.is_counted (rw one.same_total below.1) apart.1
        (λ f p. ground (arith, one.states f, used f, apart.0 f)) in
    record {
      is_counted = rest.is_counted;
      states = λ g. ground (arith, rest.states g, one.states g);
      same_total = rest.same_total ∙ one.same_total;
      same_base = rest.same_base ∙ one.same_base;
    }
