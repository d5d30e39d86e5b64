-- ===== src/Vmm/Store.antt =====
-- Writing the entry of a page (kernel/mm/vmm.cpp): it changes that page alone.
use nokernel.Prelude.{
  ℕ, zero, suc, ◌+◌, ◌*◌, ◌/◌, ◌%◌, ◌<◌, Option, none, some, ◌≡◌, ◌≢◌, ◌==◌, refl, sym, ap, ◌∙◌,
  if◌then◌else◌, Bool-cases, equal-cases, Option-cases, inl, inr, arith,
}
use nokernel.Word.Bits.{and_ones}
use nokernel.Vmm
use nokernel.Vmm.Words.{index-lt, page}
use nokernel.Vmm.Tree.{
  IsAllocator, behind, cell, read-seek, read-seek-none, seek, seek_on, seek_off, seek-under, under,
  root, mapped, IsTree,
}
use nokernel.Vmm.Create.{entry_injective}

index_0 : (virt : ℕ) → Vmm.index virt 0 ≡ virt / 4096 % 512
unfolding Vmm.index
index_0 virt = ground (arith, and_ones 9 (virt / 4096))

index_1 : (virt : ℕ) → Vmm.index virt 1 ≡ virt / 2097152 % 512
unfolding Vmm.index
index_1 virt = ground (arith, and_ones 9 (virt / 2097152))

index_2 : (virt : ℕ) → Vmm.index virt 2 ≡ virt / 1073741824 % 512
unfolding Vmm.index
index_2 virt = ground (arith, and_ones 9 (virt / 1073741824))

index_3 : (virt : ℕ) → Vmm.index virt 3 ≡ virt / 549755813888 % 512
unfolding Vmm.index
index_3 virt = ground (arith, and_ones 9 (virt / 549755813888))

-- The four indices are the digits of the page.
page_digits : (virt : ℕ) → under 3 0 virt * 512 + Vmm.index virt 0 ≡ page virt
unfolding under page
page_digits virt = omega (arith, index_0 virt, index_1 virt, index_2 virt, index_3 virt)

pub same_digits :
    (x y : ℕ)
    → page x ≡ page y
    → (Vmm.index x 0 ≡ Vmm.index y 0)
      × (Vmm.index x 1 ≡ Vmm.index y 1)
      × (Vmm.index x 2 ≡ Vmm.index y 2)
      × (Vmm.index x 3 ≡ Vmm.index y 3)
unfolding page
same_digits x y e = (
  omega (arith, index_0 x, index_0 y),
  omega (arith, index_1 x, index_1 y),
  omega (arith, index_2 x, index_2 y),
  omega (arith, index_3 x, index_3 y),
)

-- The way to the last table from the three indices.
abbrev way : (ℕ → ℕ) → ℕ → ℕ → ℕ → ℕ → ℕ → Option ℕ
way words offset t i j k =
    let a = words (t + 8 * i) in
    let b = words (behind offset a + 8 * j) in
    let c = words (behind offset b + 8 * k) in
    let second = if Vmm.is_present c then some (behind offset c) else none in
    let first = if Vmm.is_present b then second else none in
    if Vmm.is_present a then first else none

pub seek-page :
    (words : ℕ → ℕ) (offset t x y : ℕ)
    → page x ≡ page y
    → seek words offset 3 t x ≡ seek words offset 3 t y
unfolding seek
seek-page words offset t x y e =
    let (e0, e1, e2, e3) = same_digits x y e in λ i. way words offset t (e3 i) (e2 i) (e1 i)

module _ {A : Type 0} {alloc_frame : A → ℕ × A} (q : IsAllocator alloc_frame)
    (v : Vmm.Vmm alloc_frame) (role : ℕ → Option (ℕ × ℕ)) (tree : IsTree q v role) (virt last : ℕ)
    (found : seek v.words v.phys_offset 3 (root q v) virt ≡ some last) (w : ℕ) where
  abbrev entry : ℕ
  entry = last + 8 * Vmm.index virt 0

  abbrev words' : ℕ → ℕ
  words' y = if y == entry then w else v.words y

  words'_here : words' entry ≡ w
  words'_here = ground arith

  words'_out : (y : ℕ) → y ≢ entry → words' y ≡ v.words y
  words'_out y other = ground arith

  last_role : role last ≡ some (0, under 3 0 virt)
  last_role = seek-under q v role tree 3 (root q v) 0 virt last tree.top found

  same_entry :
      (s j : ℕ) (r : ℕ × ℕ)
      → role s ≡ some r
      → j < 512
      → s + 8 * j ≡ entry
      → (s ≡ last) × (j ≡ Vmm.index virt 0)
  same_entry s j r h hj e =
      entry_injective s last j (Vmm.index virt 0) (tree.aligned s r h)
        (tree.aligned last (0, under 3 0 virt) last_role) hj (index-lt virt 0) e

  -- The entries of the upper tables stay.
  words'_upper :
      (s level p j : ℕ)
      → role s ≡ some (suc level, p)
      → j < 512
      → words' (s + 8 * j) ≡ v.words (s + 8 * j)
  words'_upper s level p j h hj =
      let other : s + 8 * j ≢ entry =
        λ e. absurd (ground (arith, last_role, ap role (same_entry s j (suc level, p) h hj e).0)) in
      ground arith

  seek' :
      (level s p virt' : ℕ)
      → role s ≡ some (level, p)
      → seek words' v.phys_offset level s virt' ≡ seek v.words v.phys_offset level s virt'
  seek' zero s p virt' h = unfold seek in refl
  seek' (suc level) s p virt' h =
      let j = Vmm.index virt' (suc level) in
      let same = words'_upper s level p j h (index-lt virt' (suc level)) in
      elim (Bool-cases (Vmm.is_present (v.words (s + 8 * j)))) [
        | inl on ↦
            seek_on words' v.phys_offset level s virt' (ap Vmm.is_present same ∙ on)
            ∙ ap (λ (x : ℕ). seek words' v.phys_offset level (behind v.phys_offset x) virt') same
            ∙ seek' level (behind v.phys_offset (v.words (s + 8 * j))) (p * 512 + j) virt'
                (tree.linked s level p j h (index-lt virt' (suc level)) on)
            ∙ sym (seek_on v.words v.phys_offset level s virt' on)
        | inr off ↦
            seek_off words' v.phys_offset level s virt' (ap Vmm.is_present same ∙ off)
            ∙ sym (seek_off v.words v.phys_offset level s virt' off)
      ]

  abbrev stored : Vmm.Vmm alloc_frame
  stored = record v { words = words' }

  pub stored-IsTree : IsTree q stored role
  stored-IsTree = record {
    sound = tree.sound;
    top = tree.top;
    offset_aligned = tree.offset_aligned;
    aligned = tree.aligned;
    linked = λ s level p j h hj on.
        let same = words'_upper s level p j h hj in
        ap (λ (x : ℕ). role (behind v.phys_offset x)) same
        ∙ tree.linked s level p j h hj (sym (ap Vmm.is_present same) ∙ on);
    spare = tree.spare;
  }

  -- The address of another page has another entry.
  other_entry :
      (virt' last' : ℕ)
      → seek v.words v.phys_offset 3 (root q v) virt' ≡ some last'
      → page virt' ≢ page virt
      → last' + 8 * Vmm.index virt' 0 ≢ entry
  other_entry virt' last' found' other e =
      let role' = seek-under q v role tree 3 (root q v) 0 virt' last' tree.top found' in
      let (same_table, same_index) =
        same_entry last' (Vmm.index virt' 0) (0, under 3 0 virt') role' (index-lt virt' 0) e in
      let same : under 3 0 virt' ≡ under 3 0 virt = ground (arith, last_role, ap role same_table) in
      other (omega (arith, page_digits virt, page_digits virt'))

  mapped-stored_self : (virt' : ℕ) → page virt' ≡ page virt → mapped q stored virt' ≡ cell w
  unfolding mapped
  mapped-stored_self virt' e =
      read-seek words' v.phys_offset 3 (root q v) virt' last (
        seek' 3 (root q v) 0 virt' tree.top
        ∙ seek-page v.words v.phys_offset (root q v) virt' virt e
        ∙ found)
      ∙ ap (λ (j : ℕ). cell (words' (last + 8 * j))) (same_digits virt' virt e).0
      ∙ ap cell words'_here

  mapped-stored_other :
      (virt' : ℕ) → page virt' ≢ page virt → mapped q stored virt' ≡ mapped q v virt'
  unfolding mapped
  mapped-stored_other virt' other =
      elim (Option-cases (seek v.words v.phys_offset 3 (root q v) virt')) [
        | inl e ↦
            read-seek-none words' v.phys_offset 3 (root q v) virt'
              (seek' 3 (root q v) 0 virt' tree.top ∙ e)
            ∙ sym (read-seek-none v.words v.phys_offset 3 (root q v) virt' e)
        | inr (last', e) ↦
            read-seek words' v.phys_offset 3 (root q v) virt' last'
              (seek' 3 (root q v) 0 virt' tree.top ∙ e)
            ∙ ap cell (words'_out (last' + 8 * Vmm.index virt' 0) (other_entry virt' last' e other))
            ∙ sym (read-seek v.words v.phys_offset 3 (root q v) virt' last' e)
      ]

  -- The page of `virt` has the entry, and the other pages have theirs.
  pub mapped-stored :
      (virt' : ℕ)
      → mapped q stored virt' ≡ (if page virt' == page virt then cell w else mapped q v virt')
  mapped-stored virt' = elim (equal-cases (page virt') (page virt)) [
    | inl e ↦ ground (arith, mapped-stored_self virt' e)
    | inr other ↦ ground (arith, mapped-stored_other virt' other)
  ]
