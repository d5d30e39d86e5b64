-- ===== src/Vmm/Refused.antt =====
-- Why `map_range` of kernel/mm/vmm.cpp refuses a range.
use nokernel.Prelude.{
  ℕ, zero, suc, ◌+◌, ◌*◌, ◌^◌, ◌<◌, ◌≤◌, Bool, true, false, none, ◌≡◌, ◌≢◌, ◌⊎◌, ◌==◌, refl, ap,
  ◌∙◌, if◌then◌else◌, inl, inr, arith,
}
use nokernel.Word.{u64}
use nokernel.Pmm.{frame_size}
use nokernel.Vmm
use nokernel.Vmm.Words.{page}
use nokernel.Vmm.Tree.{IsAllocator, mapped}
use nokernel.Vmm.Walk.{Exhausted}
use nokernel.Vmm.Mapped.{HasTree, Adds, entry_for, map_page-Adds}
use nokernel.Vmm.Ranges.{distance, covers}
use nokernel.Vmm.Spent.{unmap_range-Keeps, map_range-Keeps}

-- Page `j` of a range.
abbrev nth : ℕ → ℕ → ℕ
nth virt j = u64 (virt + j * frame_size)

page-nth :
    (virt i j : ℕ) → i < j → j < i + 2 ^ 36 → (page (nth virt j) == page (nth virt i)) ≡ false
unfolding page
page-nth virt i j h k = ground arith

covers-nth : (virt j count : ℕ) → j < count → count ≤ 2 ^ 36 → covers virt count (nth virt j) ≡ true
unfolding covers distance page
covers-nth virt j count h k = ground arith

module _ {A : Type 0} {alloc_frame : A → ℕ × A} (q : IsAllocator alloc_frame) where
  abbrev Spent : A → Type 0
  Spent a = q.valid a × ((alloc_frame a).0 ≡ 0)

  Spent-alloc_frame : (a : A) → Spent a → Spent (alloc_frame a).1
  Spent-alloc_frame a (s, e) = (q.kept a s, ap (λ (b : A). (alloc_frame b).0) (q.refused a s e) ∙ e)

  -- No frame is left, and none will be.
  pub map_range-Exhausted :
      (v : Vmm.Vmm alloc_frame) (virt phys count flags : ℕ)
      → q.valid v.frames
      → Exhausted q v
      → Exhausted q (Vmm.map_range alloc_frame v virt phys count flags).1
  map_range-Exhausted v virt phys count flags sound spent =
      (map_range-Keeps alloc_frame Spent Spent-alloc_frame v virt phys count flags (sound, spent)).1

  -- The loop fails from page `i` on.
  abbrev Stuck : Vmm.Vmm alloc_frame → ℕ → ℕ → ℕ → Bool × Vmm.Vmm alloc_frame → Type 0
  Stuck v virt i rounds r =
      Exhausted q r.1 ⊎ ((j : ℕ) × (i ≤ j) × (j < i + rounds) × (mapped q v (nth virt j) ≢ none))

  module _ (v : Vmm.Vmm alloc_frame) (virt phys i rounds flags : ℕ) (small : suc rounds ≤ 2 ^ 36)
      (again : (v' : Vmm.Vmm alloc_frame)
        → HasTree q v'
        → (Vmm.map_loop alloc_frame rounds v' virt (u64 (phys + frame_size)) (i + 1) flags).0
          ≡ false
        → Stuck v' virt
            (i + 1)
            rounds
            (Vmm.map_loop alloc_frame rounds v' virt (u64 (phys + frame_size)) (i + 1) flags)) where
    step-Stuck :
        (r : Bool × Vmm.Vmm alloc_frame)
        → Adds q v (nth virt i) (entry_for q phys flags) r
        → let rest =
            Vmm.map_loop alloc_frame rounds r.1 virt (u64 (phys + frame_size)) (i + 1) flags in
          let whole : Bool × Vmm.Vmm alloc_frame =
            if r.0 then rest else (false, Vmm.unmap_range alloc_frame i r.1 virt) in
          whole.0 ≡ false → Stuck v virt i (suc rounds) whole
    unfolding Adds
    step-Stuck (true, v') (tree, inr (e, why, same)) fails = absurd cc
    step-Stuck (false, v') (tree, inl (e, free, first)) fails = absurd cc
    step-Stuck (false, v') (tree, inr (e, inl taken, same)) fails =
        inr (i, omega arith, omega arith, taken)
    step-Stuck (false, v') (tree, inr (e, inr spent, same)) fails =
        inl
          (unmap_range-Keeps alloc_frame Spent Spent-alloc_frame i v' virt
            (unfold HasTree in tree.1.sound, spent)).1
    step-Stuck (true, v') (tree, inl (e, free, first)) fails = elim (again v' tree fails) [
      | inl spent ↦ inl spent
      | inr (j, from, to, taken) ↦
          let other = page-nth virt i j (omega arith) (omega arith) in
          let same : mapped q v' (nth virt j) ≡ mapped q v (nth virt j) =
            first (nth virt j) ∙ rw other refl in
          inr (j, omega arith, omega arith, λ n. taken (same ∙ n))
    ]

  map_loop-Stuck :
      (rounds : ℕ) (v : Vmm.Vmm alloc_frame) (virt phys i flags : ℕ)
      → rounds ≤ 2 ^ 36
      → HasTree q v
      → (Vmm.map_loop alloc_frame rounds v virt phys i flags).0 ≡ false
      → Stuck v virt i rounds (Vmm.map_loop alloc_frame rounds v virt phys i flags)
  unfolding Vmm.map_loop
  map_loop-Stuck zero v virt phys i flags small tree fails = absurd cc
  map_loop-Stuck (suc rounds) v virt phys i flags small tree fails =
      step-Stuck v virt phys i rounds flags small
        (λ v' tree'.
          map_loop-Stuck rounds v' virt (u64 (phys + frame_size)) (i + 1) flags (omega arith) tree')
        (Vmm.map_page alloc_frame v (nth virt i) phys flags)
        (map_page-Adds q v (nth virt i) phys flags tree) fails

  -- A range of at most 2 ^ 36 pages that is refused had a page that was mapped, or the frames for the
  -- tables are used up.
  pub map_range-fails :
      (v : Vmm.Vmm alloc_frame) (virt phys count flags : ℕ)
      → count ≤ 2 ^ 36
      → HasTree q v
      → let r = Vmm.map_range alloc_frame v virt phys count flags in
        r.0 ≡ false
        → Exhausted q r.1 ⊎ ((x : ℕ) × (covers virt count x ≡ true) × (mapped q v x ≢ none))
  unfolding Vmm.map_range
  map_range-fails v virt phys count flags small tree fails =
      elim (map_loop-Stuck count v virt phys 0 flags small tree fails) [
        | inl spent ↦ inl spent
        | inr (j, from, to, taken) ↦
            inr (nth virt j, covers-nth virt j count (omega arith) small, taken)
      ]
