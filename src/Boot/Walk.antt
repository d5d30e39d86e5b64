-- ===== src/Boot/Walk.antt =====
-- The walk over the firmware's memory map, which `PMM::init` and `VMM::init` make.
use nokernel.Prelude.{
  ℕ, zero, suc, ◌+◌, ◌-◌, ◌*◌, ◌^◌, ◌≤◌, ◌<◌, ◌≡◌, true, false, List, [], ◌∷◌, Option, none, some,
  get_elem?, inl, inr, arith, ltb, if◌then◌else◌, Bool-cases,
}
use nokernel.Word.{u64}
use nokernel.Outcome.{Outcome, ok}
use nokernel.Boot.{EfiMemoryDescriptor, BootInfo, walk_mmap, descriptors}

module _ (info : BootInfo) where
  -- The descriptor that the walk from `offset` on meets in its round `i`.
  abbrev pub entry : ℕ → ℕ → Option EfiMemoryDescriptor
  entry offset i =
      if ltb (offset + i * info.desc_size) info.mmap_size
      then some (info.mmap (offset + i * info.desc_size))
      else none

  -- The walk returns the descriptors at the multiples of `desc_size`, all of them and in order.
  pub record Walked (offset : ℕ) (result : Outcome (List EfiMemoryDescriptor)) : Type 0 where
    pub found : List EfiMemoryDescriptor
    pub returns : result ≡ ok found
    pub entries : (i : ℕ) → get_elem? found i ≡ entry offset i

  module _ (pos : 0 < info.desc_size) (room : info.mmap_size + info.desc_size ≤ 2 ^ 64) where
    Walked-end :
        (rounds offset : ℕ)
        → ltb offset info.mmap_size ≡ false
        → Walked offset (walk_mmap (suc rounds) info offset)
    unfolding walk_mmap
    Walked-end rounds offset e = record { found = []; returns = rw e; entries = λ i. ground arith }

    Walked-next :
        (rounds offset : ℕ)
        → ltb offset info.mmap_size ≡ true
        → Walked (offset + info.desc_size) (walk_mmap rounds info (offset + info.desc_size))
        → Walked offset (walk_mmap (suc rounds) info offset)
    unfolding walk_mmap
    Walked-next rounds offset e rest =
        let no_wrap : u64 (offset + info.desc_size) ≡ offset + info.desc_size = ground arith in
        record {
          found = info.mmap offset ∷ rest.found;
          returns = rw (e, no_wrap, rest.returns);
          entries = entries_next;
        }
      where
        entries_next : (i : ℕ) → get_elem? (info.mmap offset ∷ rest.found) i ≡ entry offset i
        entries_next zero =
            let same : offset + 0 * info.desc_size ≡ offset = omega arith in rw (same, e)
        entries_next (suc i) =
            let same : offset + info.desc_size + i * info.desc_size
                ≡ offset + suc i * info.desc_size =
              omega arith in
            rw (← same) (rest.entries i)

    walk_mmap_lem :
        (rounds offset : ℕ)
        → info.mmap_size - offset < rounds
        → Walked offset (walk_mmap rounds info offset)
    walk_mmap_lem zero offset h = absurd (omega arith)
    walk_mmap_lem (suc rounds) offset h = elim (Bool-cases (ltb offset info.mmap_size)) [
      | inl e ↦
          Walked-next rounds offset e
            (walk_mmap_lem rounds (offset + info.desc_size) (ground arith))
      | inr e ↦ Walked-end rounds offset e
    ]

    -- With a positive descriptor size, and a map that ends so far below 2 ^ 64 that the offset does
    -- not wrap, the walk ends, and it finds the descriptor at each multiple of the size below the
    -- end of the map, in order and no other.
    pub descriptors-Walked : Walked 0 (descriptors info)
    unfolding descriptors
    descriptors-Walked = walk_mmap_lem (suc info.mmap_size) 0 (omega arith)
