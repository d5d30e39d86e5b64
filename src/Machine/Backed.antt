-- ===== src/Machine/Backed.antt =====
-- The memory behind a range of addresses: frames that are the range's own (kernel/mm/heap.cpp over
-- kernel/mm/vmm.cpp and kernel/mm/pmm.cpp).
use nokernel.Prelude.{
  ℕ, ◌+◌, ◌*◌, ◌%◌, ◌^◌, ◌≤◌, ◌<◌, Bool, true, false, bit_and, ◌≡◌, ◌≢◌, ltb, refl, sym, ap, ◌∙◌,
  Bool-cases, inl, inr, arith,
}
use nokernel.Pmm
use nokernel.Pmm.{frame_size}
use nokernel.Pmm.Alloc.{alloc_frames_lem}
use nokernel.Vmm
use nokernel.Vmm.Words.{page}
use nokernel.Vmm.Tree.{mapped}
use nokernel.Vmm.Mapped.{HasTree, address, translate-mapped}
use nokernel.Vmm.Ranges.{distance, covers}
use nokernel.Vmm.RoundTrip.{covers-distance, map_range_lem, translate-map_range}
use nokernel.Vmm.Allocators.{IsSmall, IsApart, pmm_allocator, apart_allocator}
use nokernel.Machine.{Memory, take_frames, give_frames}
use nokernel.Machine.Frames.{
  IsHeld, held, with_range, take_frames-HasTree, give_frames-HasTree, range_other,
}

-- Each address from `start` to `stop` translates to its place in a held frame. The page tables and
-- the bitmap are sound, and a held frame is neither free nor a page table.
unfoldable pub Backs : Memory → (ℕ → Bool) → ℕ → ℕ → Type 0
Backs m owned start stop =
    HasTree (held owned) m
    × ((x : ℕ)
        → start ≤ x
        → x < stop
        → (f : ℕ) × IsHeld owned f × (Vmm.translate Pmm.alloc_frame m x ≡ f + x % 4096))

-- The frames play no part in a translation.
translate-take_frames :
    (m : Memory) (count x : ℕ)
    → Vmm.translate Pmm.alloc_frame (take_frames m count).1 x ≡ Vmm.translate Pmm.alloc_frame m x
unfolding mapped take_frames
translate-take_frames m count x =
    translate-mapped pmm_allocator (take_frames m count).1 x
    ∙ sym (translate-mapped pmm_allocator m x)

translate-give_frames :
    (m : Memory) (first count x : ℕ)
    → Vmm.translate Pmm.alloc_frame (give_frames m first count) x
      ≡ Vmm.translate Pmm.alloc_frame m x
unfolding mapped give_frames
translate-give_frames m first count x =
    translate-mapped pmm_allocator (give_frames m first count) x
    ∙ sym (translate-mapped pmm_allocator m x)

-- No frames: nothing changes.
pub refused-take_frames :
    (owned : ℕ → Bool) (m : Memory) (start stop count : ℕ)
    → Backs m owned start stop
    → (Pmm.alloc_frames m.frames count).0 ≡ 0
    → (take_frames m count).1 ≡ m
unfolding Backs take_frames HasTree apart_allocator pmm_allocator IsApart IsSmall
refused-take_frames owned m start stop count backs null =
    elim (alloc_frames_lem count backs.0.1.sound.0.0) [
      | inl g ↦ absurd (g.ne_null null)
      | inr r ↦ ap (λ (p : Pmm.Pmm). record m { frames = p }) r.unchanged
    ]

near :
    (stop count x : ℕ)
    → stop % 4096 ≡ 0
    → stop ≤ x
    → x < stop + count * 4096
    → distance stop x < count
unfolding distance page
near stop count x aligned low high = omega arith

module _ (owned : ℕ → Bool) (m : Memory) (start stop count flags : ℕ)
    (backs : Backs m owned start stop) (aligned : stop % 4096 ≡ 0) (small : stop < 2 ^ 64)
    (plain : bit_and flags Vmm.addr_mask ≡ 0)
    (granted : (Pmm.alloc_frames m.frames count).0 ≢ 0) where
  abbrev first : ℕ
  first = (Pmm.alloc_frames m.frames count).0

  abbrev taken : Memory
  taken = (take_frames m count).1

  abbrev mapping : Bool × Memory
  mapping = Vmm.map_range Pmm.alloc_frame taken stop first count flags

  tree : HasTree (held owned) m
  unfolding Backs
  tree = backs.0

  first_lem : (first % 4096 ≡ 0) × (first + count * 4096 ≤ 2 ^ 52)
  unfolding HasTree apart_allocator pmm_allocator IsApart IsSmall
  first_lem = elim (alloc_frames_lem count tree.1.sound.0.0) [
    | inl g ↦
        (omega (arith, g.address_of), omega (arith, g.address_of, g.chosen.below, tree.1.sound.0.1))
    | inr r ↦ absurd (granted r.null)
  ]

  tree' : HasTree (held (with_range owned first count)) taken
  tree' = take_frames-HasTree owned m count tree granted

  place :
      (x : ℕ)
      → distance stop x < count
      → IsHeld (with_range owned first count) (first + distance stop x * 4096)
  unfolding IsHeld
  place x h = (
    ground (arith, first_lem),
    omega (arith, first_lem),
    omega (arith, first_lem),
    λ e. granted (omega arith),
  )

  wider : (f : ℕ) → IsHeld owned f → IsHeld (with_range owned first count) f
  unfolding IsHeld
  wider f h = (ground (arith, h.0), h.1, h.2, h.3)

  before : (x : ℕ) → x < stop + count * 4096 → covers stop count x ≡ false → x < stop
  unfolding covers
  before x high out = elim (Bool-cases (ltb x stop)) [
    | inl low ↦ ground arith
    | inr beyond ↦ absurd (ground (arith, near stop count x aligned))
  ]

  -- A mapping that fails moves no address, and nor does the frames' return.
  kept :
      mapping.0 ≡ false
      → (x : ℕ)
      → Vmm.translate Pmm.alloc_frame (give_frames mapping.1 first count) x
        ≡ Vmm.translate Pmm.alloc_frame m x
  kept failed x =
      let q = held (with_range owned first count) in
      translate-give_frames mapping.1 first count x
      ∙ translate-mapped q mapping.1 x
      ∙ ap (address q x)
          (elim (map_range_lem q taken stop first count flags tree' small
            (omega (arith, first_lem))).1 [
              | inl (e, free, after) ↦ absurd (cc (e, failed))
              | inr (e, same) ↦ same x
            ])
      ∙ sym (translate-mapped q taken x)
      ∙ translate-take_frames m count x

  -- The range grows by pages that are mapped to the frames taken.
  pub mapped-Backs :
      mapping.0 ≡ true → Backs mapping.1 (with_range owned first count) start (stop + count * 4096)
  unfolding Backs
  mapped-Backs done = (
    (map_range_lem (held (with_range owned first count)) taken stop first count flags tree' small
        (omega (arith, first_lem))).0,
    λ x low high.
        let moved =
          translate-map_range (held (with_range owned first count)) taken stop first count flags
            tree' small first_lem.0 first_lem.1 plain done x in
        elim (Bool-cases (covers stop count x)) [
          | inl within ↦ (
            first + distance stop x * 4096,
            place x (covers-distance stop count x within),
            moved ∙ rw within refl,
          )
          | inr out ↦
              let (f, h, e) = backs.1 x low (before x high out) in
              (f, wider f h, moved ∙ rw out (translate-take_frames m count x ∙ e))
        ],
  )

  -- The mapping failed, and the frames are given back.
  pub given-Backs : mapping.0 ≡ false → Backs (give_frames mapping.1 first count) owned start stop
  unfolding Backs
  given-Backs failed = (
    give_frames-HasTree owned mapping.1 first count first_lem.0
        (map_range_lem (held (with_range owned first count)) taken stop first count flags tree'
          small (omega (arith, first_lem))).0
        (range_other owned m count tree granted),
    λ x low high. let (f, h, e) = backs.1 x low high in (f, h, kept failed x ∙ e),
  )
