-- ===== src/Vmm/Mapped.antt =====
-- Mapping, unmapping and translating a page (kernel/mm/vmm.cpp) as operations on a finite map from
-- pages to entries.
use nokernel.Prelude.{
  ℕ, zero, suc, ◌+◌, ◌*◌, bit_and, bit_or, Bool, true, false, Option, none, some, ◌≡◌, ◌≢◌, ◌⊎◌,
  ◌==◌, refl, sym, ap, ◌∙◌, if◌then◌else◌, Bool-cases, equal-cases, Option-cases, inl, inr, arith,
}
use mathlib.Core.Path.{subst}
use nokernel.Word.{u64}
use nokernel.Vmm
use nokernel.Vmm.Words.{page, present_written, present_zero}
use nokernel.Vmm.Tree.{
  IsAllocator, behind, cell, read, read-seek, read-seek-none, seek, seek_on, seek_off, root, mapped,
  IsTree, Grows,
}
use nokernel.Vmm.Walk.{Finds, Exhausted, walk-Finds}
use nokernel.Vmm.Store.{same_digits, seek-page, stored-IsTree, mapped-stored}

cell_on : (w : ℕ) → Vmm.is_present w ≡ true → cell w ≡ some w
cell_on w on = ap (λ (b : Bool). if b then some w else none) on

cell_off : (w : ℕ) → Vmm.is_present w ≡ false → cell w ≡ none
cell_off w off = ap (λ (b : Bool). if b then some w else none) off

-- The entry of `virt` in the last table.
abbrev located : ℕ → Option ℕ → Option ℕ
located virt none = none
located virt (some t) = some (t + 8 * Vmm.index virt 0)

module _ {A : Type 0} (alloc_frame : A → ℕ × A) where
  next_table_found :
      (v : Vmm.Vmm alloc_frame) (t i : ℕ)
      → Vmm.is_present (v.words (t + 8 * i)) ≡ true
      → Vmm.next_table alloc_frame v t i false
        ≡ (some (behind v.phys_offset (v.words (t + 8 * i))), v)
  unfolding Vmm.next_table Vmm.phys_to_virt
  next_table_found v t i on = rw on refl

  next_table_missing :
      (v : Vmm.Vmm alloc_frame) (t i : ℕ)
      → Vmm.is_present (v.words (t + 8 * i)) ≡ false
      → Vmm.next_table alloc_frame v t i false ≡ (none, v)
  unfolding Vmm.next_table
  next_table_missing v t i off = rw off refl

  abbrev continue : ℕ → ℕ → Option ℕ × Vmm.Vmm alloc_frame → Option ℕ × Vmm.Vmm alloc_frame
  continue level virt r = elim r.0 [
    | none ↦ (none, r.1)
    | some t' ↦ Vmm.walk alloc_frame level r.1 t' virt false
  ]

  walk-continue :
      (level : ℕ) (v : Vmm.Vmm alloc_frame) (t virt : ℕ)
      → Vmm.walk alloc_frame (suc level) v t virt false
        ≡ continue level virt (Vmm.next_table alloc_frame v t (Vmm.index virt (suc level)) false)
  unfolding Vmm.walk
  walk-continue level v t virt = refl

  -- A walk that makes no tables finds what `seek` finds, and changes nothing.
  walk-seek :
      (level : ℕ) (v : Vmm.Vmm alloc_frame) (t virt : ℕ)
      → Vmm.walk alloc_frame level v t virt false
        ≡ (located virt (seek v.words v.phys_offset level t virt), v)
  walk-seek zero v t virt = unfold Vmm.walk seek in refl
  walk-seek (suc level) v t virt =
      let j = Vmm.index virt (suc level) in
      elim (Bool-cases (Vmm.is_present (v.words (t + 8 * j)))) [
        | inl on ↦
            walk-continue level v t virt
            ∙ ap (continue level virt) (next_table_found v t j on)
            ∙ walk-seek level v (behind v.phys_offset (v.words (t + 8 * j))) virt
            ∙ ap (λ (o : Option ℕ). (located virt o, v))
                (sym (seek_on v.words v.phys_offset level t virt on))
        | inr off ↦
            walk-continue level v t virt
            ∙ ap (continue level virt) (next_table_missing v t j off)
            ∙ ap (λ (o : Option ℕ). (located virt o, v))
                (sym (seek_off v.words v.phys_offset level t virt off))
      ]

module _ {A : Type 0} {alloc_frame : A → ℕ × A} (q : IsAllocator alloc_frame) where
  -- Some tree of tables stands behind the state.
  unfoldable pub HasTree : Vmm.Vmm alloc_frame → Type 0
  HasTree v = (role : ℕ → Option (ℕ × ℕ)) × IsTree q v role

  find_entry-seek :
      (v : Vmm.Vmm alloc_frame) (virt : ℕ)
      → Vmm.find_entry alloc_frame v virt false
        ≡ (located virt (seek v.words v.phys_offset 3 (root q v) virt), v)
  unfolding Vmm.find_entry Vmm.phys_to_virt
  find_entry-seek v virt = walk-seek alloc_frame 3 v (root q v) virt

  abbrev pub address : ℕ → Option ℕ → ℕ
  address virt none = 0
  address virt (some w) = u64 (bit_and w Vmm.addr_mask + bit_and virt 0xfff)

  abbrev translated : ℕ → Option ℕ × Vmm.Vmm alloc_frame → ℕ
  translated virt r = elim r.0 [
    | none ↦ 0
    | some a ↦
        if Vmm.is_present (r.1.words a)
        then u64 (bit_and (r.1.words a) Vmm.addr_mask + bit_and virt 0xfff)
        else 0
  ]

  translated-cell :
      (virt w : ℕ)
      → (if Vmm.is_present w then u64 (bit_and w Vmm.addr_mask + bit_and virt 0xfff) else 0)
        ≡ address virt (cell w)
  translated-cell virt w = elim (Bool-cases (Vmm.is_present w)) [
    | inl e ↦ rw e refl
    | inr e ↦ rw e refl
  ]

  -- An address that no tables lead to is not mapped, nor is its page.
  absent :
      (v : Vmm.Vmm alloc_frame) (virt : ℕ)
      → seek v.words v.phys_offset 3 (root q v) virt ≡ none
      → (virt' : ℕ)
      → mapped q v virt' ≡ (if page virt' == page virt then none else mapped q v virt')
  unfolding mapped
  absent v virt e virt' = elim (equal-cases (page virt') (page virt)) [
    | inl same ↦ ground (
      arith,
      read-seek-none v.words v.phys_offset 3 (root q v) virt'
          (seek-page v.words v.phys_offset (root q v) virt' virt same ∙ e),
    )
    | inr other ↦ ground arith
  ]

  -- Translating reads the map.
  pub translate-mapped :
      (v : Vmm.Vmm alloc_frame) (virt : ℕ)
      → Vmm.translate alloc_frame v virt ≡ address virt (mapped q v virt)
  unfolding Vmm.translate mapped
  translate-mapped v virt =
      ap (translated virt) (find_entry-seek v virt)
      ∙ elim (Option-cases (seek v.words v.phys_offset 3 (root q v) virt)) [
        | inl e ↦
            ap (λ (o : Option ℕ). translated virt (located virt o, v)) e
            ∙ ap (address virt) (sym (read-seek-none v.words v.phys_offset 3 (root q v) virt e))
        | inr (last, e) ↦
            ap (λ (o : Option ℕ). translated virt (located virt o, v)) e
            ∙ translated-cell virt (v.words (last + 8 * Vmm.index virt 0))
            ∙ ap (address virt) (sym (read-seek v.words v.phys_offset 3 (root q v) virt last e))
      ]

  -- The addresses of a page share its entry.
  pub mapped_same :
      (v : Vmm.Vmm alloc_frame) (x y : ℕ) → page x ≡ page y → mapped q v x ≡ mapped q v y
  unfolding mapped
  mapped_same v x y e = elim (Option-cases (seek v.words v.phys_offset 3 (root q v) y)) [
    | inl missing ↦
        read-seek-none v.words v.phys_offset 3 (root q v) x
          (seek-page v.words v.phys_offset (root q v) x y e ∙ missing)
        ∙ sym (read-seek-none v.words v.phys_offset 3 (root q v) y missing)
    | inr (last, found) ↦
        read-seek v.words v.phys_offset 3 (root q v) x last
          (seek-page v.words v.phys_offset (root q v) x y e ∙ found)
        ∙ ap (λ (i : ℕ). cell (v.words (last + 8 * i))) (same_digits x y e).0
        ∙ sym (read-seek v.words v.phys_offset 3 (root q v) y last found)
  ]

  abbrev unmapped : Option ℕ × Vmm.Vmm alloc_frame → Vmm.Vmm alloc_frame
  unmapped r = elim r.0 [ none ↦ r.1 | some a ↦ Vmm.store_word alloc_frame a 0 r.1 ]

  -- Removing the page of `virt` from the map, and no other.
  unfoldable pub Removes : Vmm.Vmm alloc_frame → ℕ → Vmm.Vmm alloc_frame → Type 0
  Removes v virt v' =
      HasTree v'
      × ((virt' : ℕ)
          → mapped q v' virt' ≡ (if page virt' == page virt then none else mapped q v virt'))

  -- On a tree of tables, unmap leaves a tree of tables, removes the page of the address from the
  -- map, if it is there, and changes no other page.
  pub unmap-Removes :
      (v : Vmm.Vmm alloc_frame) (virt : ℕ)
      → HasTree v
      → Removes v virt (Vmm.unmap alloc_frame v virt)
  unfolding Vmm.unmap HasTree Vmm.store_word Removes
  unmap-Removes v virt (role, tree) =
      subst (λ (r : Option ℕ × Vmm.Vmm alloc_frame). Removes v virt (unmapped r))
        (sym (find_entry-seek v virt))
        (elim (Option-cases (seek v.words v.phys_offset 3 (root q v) virt)) [
          | inl e ↦
              subst (λ (o : Option ℕ). Removes v virt (unmapped (located virt o, v))) (sym e)
                ((role, tree), absent v virt e)
          | inr (last, e) ↦
              subst (λ (o : Option ℕ). Removes v virt (unmapped (located virt o, v))) (sym e)
                (
                  (role, stored-IsTree q v role tree virt last e 0),
                  λ virt'.
                      mapped-stored q v role tree virt last e 0 virt'
                      ∙ ap
                          (λ (b : Bool).
                            if page virt' == page virt
                            then (if b then some 0 else none)
                            else mapped q v virt')
                          present_zero,
                )
        ])

  -- The entry that `map` writes.
  abbrev pub entry_for : ℕ → ℕ → ℕ
  entry_for phys flags = bit_or (bit_or (bit_and phys Vmm.addr_mask) flags) Vmm.present

  -- Adding the page of `virt` with entry `w`, or refusing: the page is in the map already, or no frame
  -- is left for a table. A refusal changes no page.
  unfoldable pub Adds : Vmm.Vmm alloc_frame → ℕ → ℕ → Bool × Vmm.Vmm alloc_frame → Type 0
  Adds v virt w r =
      HasTree r.1
      × (((r.0 ≡ true)
            × (mapped q v virt ≡ none)
            × ((virt' : ℕ)
                → mapped q r.1 virt'
                  ≡ (if page virt' == page virt then some w else mapped q v virt')))
          ⊎ ((r.0 ≡ false)
              × ((mapped q v virt ≢ none) ⊎ Exhausted q r.1)
              × ((virt' : ℕ) → mapped q r.1 virt' ≡ mapped q v virt')))

  abbrev mapped_page : ℕ → ℕ → Option ℕ × Vmm.Vmm alloc_frame → Bool × Vmm.Vmm alloc_frame
  mapped_page phys flags r = elim r.0 [
    | none ↦ (false, r.1)
    | some a ↦
        if Vmm.is_present (r.1.words a)
        then (false, r.1)
        else (true, Vmm.store_word alloc_frame a (entry_for phys flags) r.1)
  ]

  grown_mapped :
      (v : Vmm.Vmm alloc_frame) (role : ℕ → Option (ℕ × ℕ)) (v' : Vmm.Vmm alloc_frame)
      (role' : ℕ → Option (ℕ × ℕ))
      → IsTree q v role
      → Grows q v role v' role'
      → (virt : ℕ) → mapped q v' virt ≡ mapped q v virt
  unfolding mapped
  grown_mapped v role v' role' tree g virt =
      ap (λ (o : ℕ). read v'.words o 3 (u64 (v'.pml4_phys + o)) virt) g.same_offset
      ∙ ap (λ (p : ℕ). read v'.words v.phys_offset 3 (u64 (p + v.phys_offset)) virt) g.same_root
      ∙ g.reads 3 (root q v) 0 virt tree.top

  entry-Adds :
      (v : Vmm.Vmm alloc_frame) (virt phys flags : ℕ) (role : ℕ → Option (ℕ × ℕ))
      → IsTree q v role
      → (v' : Vmm.Vmm alloc_frame) (role' : ℕ → Option (ℕ × ℕ)) → Grows q v role v' role'
      → (last : ℕ) → seek v'.words v'.phys_offset 3 (root q v') virt ≡ some last
      → Adds v virt
          (entry_for phys flags)
          (mapped_page phys flags (some (last + 8 * Vmm.index virt 0), v'))
  unfolding Adds HasTree Vmm.store_word
  entry-Adds v virt phys flags role tree v' role' g last found =
      let a = last + 8 * Vmm.index virt 0 in
      let w = entry_for phys flags in
      let here : mapped q v' virt ≡ cell (v'.words a) =
        unfold mapped in read-seek v'.words v'.phys_offset 3 (root q v') virt last found in
      let was : mapped q v virt ≡ cell (v'.words a) =
        sym (grown_mapped v role v' role' tree g virt) ∙ here in
      let choose : Bool → Bool × Vmm.Vmm alloc_frame =
        λ b. if b then (false, v') else (true, Vmm.store_word alloc_frame a w v') in
      elim (Bool-cases (Vmm.is_present (v'.words a))) [
        | inl on ↦
            subst (λ (b : Bool). Adds v virt w (choose b)) (sym on)
              (
                (role', g.tree),
                inr (
                  refl,
                  inl (λ n. absurd (cc (was, cell_on (v'.words a) on, n))),
                  grown_mapped v role v' role' tree g,
                ),
              )
        | inr off ↦
            subst (λ (b : Bool). Adds v virt w (choose b)) (sym off)
              (
                (role', stored-IsTree q v' role' g.tree virt last found w),
                inl (
                  refl,
                  was ∙ cell_off (v'.words a) off,
                  λ virt'.
                      mapped-stored q v' role' g.tree virt last found w virt'
                      ∙ ap
                          (λ (o : Option ℕ).
                            if page virt' == page virt then o else mapped q v' virt')
                          (cell_on w (present_written (bit_or (bit_and phys Vmm.addr_mask) flags)))
                      ∙ ap (λ (o : Option ℕ). if page virt' == page virt then some w else o)
                          (grown_mapped v role v' role' tree g virt'),
                ),
              )
      ]

  found-Adds :
      (v : Vmm.Vmm alloc_frame) (virt phys flags : ℕ) (role : ℕ → Option (ℕ × ℕ))
      → IsTree q v role
      → (r : Option ℕ × Vmm.Vmm alloc_frame) → Finds q v role 3 (root q v) virt r
      → Adds v virt (entry_for phys flags) (mapped_page phys flags r)
  unfolding Adds HasTree Vmm.store_word mapped
  found-Adds v virt phys flags role tree (none, v') (role', g, inl (e, spent)) =
      ((role', g.tree), inr (refl, inr spent, grown_mapped v role v' role' tree g))
  found-Adds v virt phys flags role tree (none, v') (role', g, inr (last, e, found)) = absurd cc
  found-Adds v virt phys flags role tree (some a, v') (role', g, inl (e, spent)) = absurd cc
  found-Adds v virt phys flags role tree (some a, v') (role', g, inr (last, e, found)) =
      subst (λ (x : ℕ). Adds v virt (entry_for phys flags) (mapped_page phys flags (some x, v')))
        (ground arith)
        (entry-Adds v virt phys flags role tree v' role' g last (
          ap (λ (o : ℕ). seek v'.words o 3 (u64 (v'.pml4_phys + o)) virt) g.same_offset
          ∙ ap (λ (p : ℕ). seek v'.words v.phys_offset 3 (u64 (p + v.phys_offset)) virt) g.same_root
          ∙ found))

  -- On a tree of tables, map of a page leaves a tree of tables. It adds the page of the address
  -- to the map, with the entry of the frame and the flags, the page not having been mapped, and
  -- changes no other page; or it refuses and changes no page, since the page was mapped already
  -- or no frame is left for a table.
  pub map_page-Adds :
      (v : Vmm.Vmm alloc_frame) (virt phys flags : ℕ)
      → HasTree v
      → Adds v virt (entry_for phys flags) (Vmm.map_page alloc_frame v virt phys flags)
  unfolding Vmm.map_page Vmm.find_entry Vmm.phys_to_virt HasTree
  map_page-Adds v virt phys flags (role, tree) =
      found-Adds v virt phys flags role tree (Vmm.walk alloc_frame 3 v (root q v) virt true)
        (walk-Finds q 3 v role (root q v) 0 virt tree tree.top)
