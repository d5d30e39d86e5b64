-- ===== src/Pmm/Place.antt =====
-- Where `init` (kernel/mm/pmm.cpp) puts the bitmap.
use nokernel.Prelude.{
  ℕ, ◌+◌, ◌/◌, ◌≤◌, ◌≡◌, ◌≢◌, refl, sym, true, false, List, [], ◌∷◌, inl, inr, arith, ◌⊎◌,
  Bool-cases,
}
use mathlib.Core.Path.{subst}
use nokernel.Boot.{EfiMemoryDescriptor}
use nokernel.Pmm.{place_bitmap, suits}

-- The frames that a bitmap of `total` bits needs.
abbrev pub bitmap_frames : ℕ → ℕ
bitmap_frames total = ((total + 7) / 8 + 4095) / 4096

-- A range of conventional memory, above address 0, with so many pages.
abbrev pub Hosts : ℕ → EfiMemoryDescriptor → Type 0
Hosts count d = (d.type_of ≡ 7) × (d.physical_start ≢ 0) × (count ≤ d.number_of_pages)

-- No range of the list is one.
abbrev pub NoHost : ℕ → List EfiMemoryDescriptor → Type 0
NoHost count [] = Unit {0}
NoHost count (d ∷ ds) = ¬ (Hosts count d) × NoHost count ds

-- `base` is the start of the first range of the list that is one.
abbrev pub FirstHost : ℕ → ℕ → List EfiMemoryDescriptor → Type 0
FirstHost count base [] = ⊥
FirstHost count base (d ∷ ds) =
    (Hosts count d × (base ≡ d.physical_start)) ⊎ (¬ (Hosts count d) × FirstHost count base ds)

suits-Hosts : (count : ℕ) (d : EfiMemoryDescriptor) → suits count d ≡ true → Hosts count d
suits-Hosts count d h = (ground arith, ground arith, ground arith)

not_suits : (count : ℕ) (d : EfiMemoryDescriptor) → suits count d ≡ false → ¬ (Hosts count d)
not_suits count d h (conventional, above, fits) = ground arith

pub place_bitmap-NoHost :
    (count : ℕ) (ds : List EfiMemoryDescriptor) → place_bitmap count ds ≡ 0 → NoHost count ds
unfolding place_bitmap
place_bitmap-NoHost count [] e = tt
place_bitmap-NoHost count (d ∷ ds) e = elim (Bool-cases (suits count d)) [
  | inl y ↦ absurd (ground arith)
  | inr n ↦ (not_suits count d n, place_bitmap-NoHost count ds (ground arith))
]

pub place_bitmap-FirstHost :
    (count : ℕ) (ds : List EfiMemoryDescriptor)
    → place_bitmap count ds ≢ 0
    → FirstHost count (place_bitmap count ds) ds
unfolding place_bitmap
place_bitmap-FirstHost count [] ne = absurd (ne refl)
place_bitmap-FirstHost count (d ∷ ds) ne = elim (Bool-cases (suits count d)) [
  | inl y ↦ rw y (inl (suits-Hosts count d y, refl))
  | inr n ↦
      let next : place_bitmap count (d ∷ ds) ≡ place_bitmap count ds = rw n refl in
      inr (
        not_suits count d n,
        subst (λ (base : ℕ). FirstHost count base ds) (sym next)
            (place_bitmap-FirstHost count ds (ground (arith, ne, next))),
      )
]
