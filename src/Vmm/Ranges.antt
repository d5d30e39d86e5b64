-- ===== src/Vmm/Ranges.antt =====
-- Ranges of pages (kernel/mm/vmm.cpp): `map`, then `translate`; `unmap_range` and `map_range`.
use mathlib.Core.Path.{subst}
use nokernel.Prelude.{
  ℕ, zero, suc, ◌+◌, ◌-◌, ◌*◌, ◌%◌, ◌^◌, ◌<◌, Bool, true, false, ◌||◌, none, some, ◌≡◌, ◌≢◌, ◌⊎◌,
  ltb, ◌==◌, refl, ap, ◌∙◌, if◌then◌else◌, equal-cases, inl, inr, arith,
}
use nokernel.Word.{u64}
use nokernel.Pmm.{frame_size}
use nokernel.Vmm
use nokernel.Vmm.Words.{page}
use nokernel.Vmm.Tree.{IsAllocator, mapped}
use nokernel.Vmm.Mapped.{
  HasTree, Adds, Removes, entry_for, unmap-Removes, map_page-Adds, mapped_same,
}

-- How many pages `x` stands after `virt`, around the 2 ^ 36 of them.
unfoldable pub distance : ℕ → ℕ → ℕ
distance virt x = (page x + 2 ^ 36 - page virt) % 2 ^ 36

-- Whether `x` is in the `count` pages from `virt` on.
unfoldable pub covers : ℕ → ℕ → ℕ → Bool
covers virt count x = ltb (distance virt x) count

page_next : (virt i : ℕ) → page (u64 (virt + i * frame_size)) ≡ (page virt + i) % 2 ^ 36
unfolding page
page_next virt i = omega arith

page-lt : (virt : ℕ) → page virt < 2 ^ 36
unfolding page
page-lt virt = omega arith

distance_next :
    (virt x : ℕ) → page x ≢ page virt → distance (u64 (virt + frame_size)) x + 1 ≡ distance virt x
unfolding distance
distance_next virt x h = omega (arith, page_next virt 1, page-lt virt, page-lt x)

distance_self : (virt x : ℕ) → page x ≡ page virt → distance virt x ≡ 0
unfolding distance
distance_self virt x h = omega (arith, page-lt virt)

-- The first page and those after it.
covers_first :
    (virt n x : ℕ)
    → covers virt (suc n) x ≡ ((page x == page virt) || covers (u64 (virt + frame_size)) n x)
unfolding covers
covers_first virt n x = elim (equal-cases (page x) (page virt)) [
  | inl e ↦ ground (arith, distance_self virt x e)
  | inr other ↦ ground (arith, distance_next virt x other)
]

-- The pages before one and that page.
covers_last :
    (virt i x : ℕ)
    → covers virt (i + 1) x ≡ (covers virt i x || (page x == page (u64 (virt + i * frame_size))))
unfolding covers distance
covers_last virt i x = ground (arith, page_next virt i, page-lt virt, page-lt x)

module _ {A : Type 0} {alloc_frame : A → ℕ × A} (q : IsAllocator alloc_frame) where
  pub unmap_range-mapped :
      (count : ℕ) (v : Vmm.Vmm alloc_frame) (virt : ℕ)
      → HasTree q v
      → HasTree q (Vmm.unmap_range alloc_frame count v virt)
        × ((x : ℕ)
            → mapped q (Vmm.unmap_range alloc_frame count v virt) x
              ≡ (if covers virt count x then none else mapped q v x))
  unfolding Vmm.unmap_range Removes
  unmap_range-mapped zero v virt tree = (tree, λ x. unfold covers in ground arith)
  unmap_range-mapped (suc count) v virt tree =
      let once = unmap-Removes q v virt tree in
      let rest =
        unmap_range-mapped count (Vmm.unmap alloc_frame v virt) (u64 (virt + frame_size)) once.0 in
      (rest.0, λ x. ground (arith, covers_first virt count x, rest.1 x, once.1 x))

  -- The entry that a range from `virt` to `phys` has for `x`.
  abbrev pub range_entry : ℕ → ℕ → ℕ → ℕ → ℕ
  range_entry virt phys flags x = entry_for q (u64 (phys + distance virt x * frame_size)) flags

  -- A range is added as a whole, its pages having been free, or the pages that were added by then
  -- are removed.
  unfoldable pub AddsRange :
      Vmm.Vmm alloc_frame → ℕ → ℕ → ℕ → ℕ → ℕ → ℕ → Bool × Vmm.Vmm alloc_frame → Type 0
  AddsRange v virt i rounds phys flags start r =
      HasTree q r.1
      × (((r.0 ≡ true)
            × ((x : ℕ) → covers start rounds x ≡ true → mapped q v x ≡ none)
            × ((x : ℕ)
                → mapped q r.1 x ≡ (
                    if covers start rounds x
                    then some (range_entry start phys flags x)
                    else mapped q v x)))
          ⊎ ((r.0 ≡ false)
              × ((x : ℕ) → mapped q r.1 x ≡ (if covers virt i x then none else mapped q v x))))

  range_entry_next :
      (start phys flags x : ℕ)
      → page x ≢ page start
      → range_entry (u64 (start + frame_size)) (u64 (phys + frame_size)) flags x
        ≡ range_entry start phys flags x
  range_entry_next start phys flags x other =
      ap (λ (k : ℕ). entry_for q k flags) (omega (arith, distance_next start x other))

  range_entry_first :
      (start phys flags x : ℕ)
      → phys < 2 ^ 64
      → page x ≡ page start
      → range_entry start phys flags x ≡ entry_for q phys flags
  range_entry_first start phys flags x small same =
      ap (λ (k : ℕ). entry_for q k flags) (omega (arith, distance_self start x same))

  -- One page more, then the rest.
  module _ (v v1 : Vmm.Vmm alloc_frame) (virt i rounds phys flags : ℕ) (small : phys < 2 ^ 64)
      (free : mapped q v (u64 (virt + i * frame_size)) ≡ none)
      (first : (x : ℕ)
        → mapped q v1 x ≡ (
            if page x == page (u64 (virt + i * frame_size))
            then some (entry_for q phys flags)
            else mapped q v x)) where
    abbrev start : ℕ
    start = u64 (virt + i * frame_size)

    abbrev next : ℕ
    next = u64 (start + frame_size)

    range_failed :
        (v2 : Vmm.Vmm alloc_frame)
        → ((x : ℕ) → mapped q v2 x ≡ (if covers virt (i + 1) x then none else mapped q v1 x))
        → (x : ℕ) → mapped q v2 x ≡ (if covers virt i x then none else mapped q v x)
    range_failed v2 rest x = elim (equal-cases (page x) (page start)) [
      | inl same ↦ ground (arith, rest x, covers_last virt i x, mapped_same q v x start same)
      | inr other ↦ ground (arith, rest x, covers_last virt i x, first x)
    ]

    range_free :
        ((x : ℕ) → covers next rounds x ≡ true → mapped q v1 x ≡ none)
        → (x : ℕ) → covers start (suc rounds) x ≡ true
        → mapped q v x ≡ none
    range_free rest x h = elim (equal-cases (page x) (page start)) [
      | inl same ↦ mapped_same q v x start same ∙ free
      | inr other ↦ ground (arith, rest x, covers_first start rounds x, first x)
    ]

    range_done :
        (v2 : Vmm.Vmm alloc_frame)
        → ((x : ℕ) → covers next rounds x ≡ true → mapped q v1 x ≡ none)
        → ((x : ℕ)
            → mapped q v2 x ≡ (
                if covers next rounds x
                then some (range_entry next (u64 (phys + frame_size)) flags x)
                else mapped q v1 x))
        → (x : ℕ)
        → mapped q v2 x ≡ (
            if covers start (suc rounds) x
            then some (range_entry start phys flags x)
            else mapped q v x)
    range_done v2 before rest x = elim (equal-cases (page x) (page start)) [
      | inl same ↦ ground (
        arith,
        rest x,
        before x,
        first x,
        covers_first start rounds x,
        range_entry_first start phys flags x small same,
      )
      | inr other ↦ ground (
        arith,
        rest x,
        first x,
        covers_first start rounds x,
        range_entry_next start phys flags x other,
      )
    ]

  more-AddsRange :
      (v v1 : Vmm.Vmm alloc_frame) (virt i rounds phys flags : ℕ)
      → phys < 2 ^ 64
      → mapped q v (u64 (virt + i * frame_size)) ≡ none
      → ((x : ℕ)
          → mapped q v1 x ≡ (
              if page x == page (u64 (virt + i * frame_size))
              then some (entry_for q phys flags)
              else mapped q v x))
      → (r : Bool × Vmm.Vmm alloc_frame)
      → AddsRange v1 virt
          (i + 1)
          rounds
          (u64 (phys + frame_size))
          flags
          (u64 (u64 (virt + i * frame_size) + frame_size))
          r
      → AddsRange v virt i (suc rounds) phys flags (u64 (virt + i * frame_size)) r
  unfolding AddsRange
  more-AddsRange v v1 virt i rounds phys flags small free first r (tree, inl (e, before, after)) = (
    tree,
    inl (
      e,
      range_free v v1 virt i rounds phys flags small free first before,
      range_done v v1 virt i rounds phys flags small free first r.1 before after,
    ),
  )
  more-AddsRange v v1 virt i rounds phys flags small free first r (tree, inr (e, after)) =
      (tree, inr (e, range_failed v v1 virt i rounds phys flags small free first r.1 after))

  abbrev looped : ℕ → ℕ → ℕ → ℕ → ℕ → Bool × Vmm.Vmm alloc_frame → Bool × Vmm.Vmm alloc_frame
  looped rounds virt phys i flags r =
      let rest = Vmm.map_loop alloc_frame rounds r.1 virt (u64 (phys + frame_size)) (i + 1) flags in
      if r.0 then rest else (false, Vmm.unmap_range alloc_frame i r.1 virt)

  step-AddsRange :
      (v : Vmm.Vmm alloc_frame) (virt i rounds phys flags : ℕ)
      → phys < 2 ^ 64
      → ((v1 : Vmm.Vmm alloc_frame)
          → HasTree q v1
          → AddsRange v1 virt
              (i + 1)
              rounds
              (u64 (phys + frame_size))
              flags
              (u64 (virt + (i + 1) * frame_size))
              (Vmm.map_loop alloc_frame rounds v1 virt (u64 (phys + frame_size)) (i + 1) flags))
      → (r : Bool × Vmm.Vmm alloc_frame)
      → Adds q v (u64 (virt + i * frame_size)) (entry_for q phys flags) r
      → AddsRange v virt i
          (suc rounds)
          phys
          flags
          (u64 (virt + i * frame_size))
          (looped rounds virt phys i flags r)
  unfolding Adds AddsRange
  step-AddsRange v virt i rounds phys flags small rest (true, v1) (tree, inr (e, why, same)) =
      absurd cc
  step-AddsRange v virt i rounds phys flags small rest (false, v1) (tree, inl (e, free, first)) =
      absurd cc
  step-AddsRange v virt i rounds phys flags small rest (false, v1) (tree, inr (e, why, same)) =
      let (tree', erased) = unmap_range-mapped i v1 virt tree in
      (tree', inr (refl, λ x. ground (arith, erased x, same x)))
  step-AddsRange v virt i rounds phys flags small rest (true, v1) (tree, inl (e, free, first)) =
      let v2 = Vmm.map_loop alloc_frame rounds v1 virt (u64 (phys + frame_size)) (i + 1) flags in
      let later : AddsRange v1 virt (i + 1) rounds (u64 (phys + frame_size)) flags
          (u64 (u64 (virt + i * frame_size) + frame_size)) v2 =
        subst (λ (s : ℕ). AddsRange v1 virt (i + 1) rounds (u64 (phys + frame_size)) flags s v2)
          (omega arith) (rest v1 tree) in
      more-AddsRange v v1 virt i rounds phys flags small free first v2 later

  pub map_loop-AddsRange :
      (rounds : ℕ) (v : Vmm.Vmm alloc_frame) (virt phys i flags : ℕ)
      → HasTree q v
      → phys < 2 ^ 64
      → AddsRange v virt i rounds phys flags
          (u64 (virt + i * frame_size))
          (Vmm.map_loop alloc_frame rounds v virt phys i flags)
  unfolding Vmm.map_loop
  map_loop-AddsRange zero v virt phys i flags tree small =
      unfold AddsRange covers in (tree, inl (refl, λ x h. absurd (ground arith), λ x. ground arith))
  map_loop-AddsRange (suc rounds) v virt phys i flags tree small =
      step-AddsRange v virt i rounds phys flags small
        (λ v1 tree1.
          map_loop-AddsRange rounds v1 virt (u64 (phys + frame_size)) (i + 1) flags tree1
            (omega arith))
        (Vmm.map_page alloc_frame v (u64 (virt + i * frame_size)) phys flags)
        (map_page-Adds q v (u64 (virt + i * frame_size)) phys flags tree)
