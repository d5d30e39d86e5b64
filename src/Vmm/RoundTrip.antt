-- ===== src/Vmm/RoundTrip.antt =====
-- What callers see of a range (kernel/mm/vmm.cpp): `map_range`, then `translate`, then `unmap_range`.
use mathlib.Core.Path.{subst}
use nokernel.Prelude.{
  ℕ, ◌+◌, ◌*◌, ◌/◌, ◌%◌, ◌^◌, ◌≤◌, ◌<◌, bit_and, true, false, none, some, ◌≡◌, ◌⊎◌, sym, ap, ◌∙◌,
  if◌then◌else◌, Bool-cases, inl, inr, arith,
}
use nokernel.Word.{u64}
use nokernel.Word.Bits.{and_ones}
use nokernel.Vmm
use nokernel.Vmm.Words.{address_of_flags, address_masked}
use nokernel.Vmm.Tree.{IsAllocator, mapped}
use nokernel.Vmm.Mapped.{HasTree, address, entry_for, translate-mapped}
use nokernel.Vmm.Ranges.{
  distance, covers, range_entry, AddsRange, unmap_range-mapped, map_loop-AddsRange,
}

covers_zero : (virt x : ℕ) → covers virt 0 x ≡ false
unfolding covers
covers_zero virt x = ground arith

pub covers-distance : (virt count x : ℕ) → covers virt count x ≡ true → distance virt x < count
unfolding covers
covers-distance virt count x h = ground arith

range_place :
    (phys count d x : ℕ)
    → phys % 4096 ≡ 0
    → phys + count * 4096 ≤ 2 ^ 52
    → d < count
    → u64 (phys + d * 4096) / 4096 % 2 ^ 40 * 4096 + x % 4096 ≡ phys + d * 4096 + x % 4096
range_place phys count d x aligned small h = omega arith

module _ {A : Type 0} {alloc_frame : A → ℕ × A} (q : IsAllocator alloc_frame) where
  -- Mapping a range, at an address and to a frame of 64 bits, from a tree of tables leaves a
  -- tree of tables. Either it succeeds, none of the pages was mapped, each has the entry of its
  -- frame and the flags, and no other page changes; or it fails, and every page is mapped as it
  -- was, those of the range that had been mapped by then too.
  pub map_range_lem :
      (v : Vmm.Vmm alloc_frame) (virt phys count flags : ℕ)
      → HasTree q v
      → virt < 2 ^ 64
      → phys < 2 ^ 64
      → let (done, v') = Vmm.map_range alloc_frame v virt phys count flags in
        HasTree q v'
        × (((done ≡ true)
              × ((x : ℕ) → covers virt count x ≡ true → mapped q v x ≡ none)
              × ((x : ℕ)
                  → mapped q v' x ≡ (
                      if covers virt count x
                      then some (range_entry q virt phys flags x)
                      else mapped q v x)))
            ⊎ ((done ≡ false) × ((x : ℕ) → mapped q v' x ≡ mapped q v x)))
  unfolding Vmm.map_range AddsRange
  map_range_lem v virt phys count flags tree small_virt small =
      let r = Vmm.map_range alloc_frame v virt phys count flags in
      let adds : AddsRange q v virt 0 count phys flags virt r =
        subst (λ (s : ℕ). AddsRange q v virt 0 count phys flags s r) (omega arith)
          (map_loop-AddsRange q count v virt phys 0 flags tree small) in
      (
        adds.0,
        elim adds.1 [
          | inl done ↦ inl done
          | inr (e, same) ↦ inr (e, λ x. ground (arith, same x, covers_zero virt x))
        ],
      )

  -- Where an entry with flags outside the address leads.
  pub address_of-entry :
      (k flags x : ℕ)
      → bit_and flags Vmm.addr_mask ≡ 0
      → address q x (some (entry_for q k flags)) ≡ k / 4096 % 2 ^ 40 * 4096 + x % 4096
  address_of-entry k flags x h = ground (
    arith,
    address_of_flags (bit_and k Vmm.addr_mask) flags h,
    address_masked k,
    address_masked (bit_and k Vmm.addr_mask),
    and_ones 12 x,
  )

  -- After a range is mapped from a tree of tables, with flags outside the address bits, from an
  -- address of 64 bits and to frames that are pages within 52 bits, each address of the range
  -- translates to the same place in the frames, and each address outside of it translates as
  -- before.
  pub translate-map_range :
      (v : Vmm.Vmm alloc_frame) (virt phys count flags : ℕ)
      → HasTree q v
      → virt < 2 ^ 64
      → phys % 4096 ≡ 0
      → phys + count * 4096 ≤ 2 ^ 52
      → bit_and flags Vmm.addr_mask ≡ 0
      → (Vmm.map_range alloc_frame v virt phys count flags).0 ≡ true
      → let v' = (Vmm.map_range alloc_frame v virt phys count flags).1 in
        (x : ℕ)
        → Vmm.translate alloc_frame v' x ≡ (
            if covers virt count x
            then phys + distance virt x * 4096 + x % 4096
            else Vmm.translate alloc_frame v x)
  translate-map_range v virt phys count flags tree small_virt aligned small plain done x =
      let r = Vmm.map_range alloc_frame v virt phys count flags in
      elim (map_range_lem v virt phys count flags tree small_virt (omega arith)).1 [
        | inr (e, same) ↦ absurd (cc (e, done))
        | inl (e, free, after) ↦
            translate-mapped q r.1 x
            ∙ ap (address q x) (after x)
            ∙ elim (Bool-cases (covers virt count x)) [
              | inl within ↦ rw within (
                  address_of-entry (u64 (phys + distance virt x * 4096)) flags x plain
                  ∙ range_place phys count (distance virt x) x aligned small
                      (covers-distance virt count x within))
              | inr out ↦ rw out (sym (translate-mapped q v x))
            ]
      ]

  -- A range that was mapped from a tree of tables, at an address and to a frame of 64 bits, and
  -- is unmapped, leaves each address translating as it did before.
  pub unmap_range-map_range :
      (v : Vmm.Vmm alloc_frame) (virt phys count flags : ℕ)
      → HasTree q v
      → virt < 2 ^ 64
      → phys < 2 ^ 64
      → (Vmm.map_range alloc_frame v virt phys count flags).0 ≡ true
      → let v' = (Vmm.map_range alloc_frame v virt phys count flags).1 in
        (x : ℕ)
        → Vmm.translate alloc_frame (Vmm.unmap_range alloc_frame count v' virt) x
          ≡ Vmm.translate alloc_frame v x
  unmap_range-map_range v virt phys count flags tree small_virt small done x =
      let r = Vmm.map_range alloc_frame v virt phys count flags in
      let laws = map_range_lem v virt phys count flags tree small_virt small in
      let undone = unmap_range-mapped q count r.1 virt laws.0 in
      translate-mapped q (Vmm.unmap_range alloc_frame count r.1 virt) x
      ∙ ap (address q x) (elim laws.1 [
        | inl (e, free, after) ↦ ground (arith, undone.1 x, after x, free x)
        | inr (e, same) ↦ absurd (cc (e, done))
      ])
      ∙ sym (translate-mapped q v x)
