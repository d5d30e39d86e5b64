-- ===== src/Vmm/Create.antt =====
-- A new table in the tree: `next_table` of kernel/mm/vmm.cpp.
use nokernel.Prelude.{
  ℕ, zero, suc, ◌+◌, ◌*◌, ◌%◌, ◌<◌, bit_or, Bool, true, false, ◌&&◌, Option, none, some, ◌≡◌, ◌≢◌,
  ltb, leb, ◌==◌, refl, sym, ap, ◌∙◌, if◌then◌else◌, Bool-cases, equal-cases, inl, inr, arith,
}
use nokernel.Word.{u64}
use nokernel.Pmm.{frame_size}
use nokernel.Vmm
use nokernel.Vmm.Words.{index-lt, address_linked, present_linked, present_zero}
use nokernel.Vmm.Tree.{IsAllocator, behind, cell, read, read_on, read_off, root, IsTree, Grows}

-- The memory after the frame at `a` is cleared and entry `x` is written.
abbrev pub linked_words : (ℕ → ℕ) → ℕ → ℕ → ℕ → ℕ → ℕ
linked_words words a x entry y =
    if y == x then entry else if leb a y && ltb y (a + frame_size) then 0 else words y

linked_words_out :
    (words : ℕ → ℕ) (a x entry t i : ℕ)
    → t % 4096 ≡ 0
    → a % 4096 ≡ 0
    → t ≢ a
    → i < 512
    → t + 8 * i ≢ x
    → linked_words words a x entry (t + 8 * i) ≡ words (t + 8 * i)
linked_words_out words a x entry t i ht ha apart hi other = ground arith

linked_words_in :
    (words : ℕ → ℕ) (a x entry i : ℕ)
    → i < 512
    → a + 8 * i ≢ x
    → linked_words words a x entry (a + 8 * i) ≡ 0
linked_words_in words a x entry i hi other = ground arith

-- Entries of two tables do not overlap.
pub entry_injective :
    (t s i j : ℕ)
    → t % 4096 ≡ 0
    → s % 4096 ≡ 0
    → i < 512
    → j < 512
    → t + 8 * i ≡ s + 8 * j
    → (t ≡ s) × (i ≡ j)
entry_injective t s i j ht hs hi hj e = (omega arith, omega arith)

module _ {A : Type 0} {alloc_frame : A → ℕ × A} (q : IsAllocator alloc_frame)
    (v : Vmm.Vmm alloc_frame) (role : ℕ → Option (ℕ × ℕ)) (tree : IsTree q v role) (t level p i : ℕ)
    (here : role t ≡ some (suc level, p)) (hi : i < 512)
    (off : Vmm.is_present (v.words (t + 8 * i)) ≡ false) (f : ℕ) (f-free : q.free v.frames f) where
  abbrev fresh : ℕ
  fresh = u64 (f + v.phys_offset)

  abbrev link : ℕ
  link = bit_or (bit_or f Vmm.present) Vmm.writable

  abbrev words' : ℕ → ℕ
  words' = linked_words v.words fresh (t + 8 * i) link

  -- The new table gets the next level down.
  abbrev pub role' : ℕ → Option (ℕ × ℕ)
  role' y = if y == fresh then some (level, p * 512 + i) else role y

  fresh_aligned : fresh % 4096 ≡ 0
  fresh_aligned = omega (arith, tree.offset_aligned, (q.frame v.frames f tree.sound f-free).0)

  table_aligned : t % 4096 ≡ 0
  table_aligned = tree.aligned t (suc level, p) here

  behind-link : behind v.phys_offset link ≡ fresh
  behind-link =
      ap (λ (x : ℕ). u64 (x + v.phys_offset))
        (address_linked f (q.frame v.frames f tree.sound f-free).0
          (q.frame v.frames f tree.sound f-free).1)

  fresh-none : role fresh ≡ none
  fresh-none = tree.spare f f-free

  not_fresh : (s : ℕ) (r : ℕ × ℕ) → role s ≡ some r → s ≢ fresh
  not_fresh s r h e = absurd (cc (ap role e, h, fresh-none))

  role'_old : (s : ℕ) (r : ℕ × ℕ) → role s ≡ some r → role' s ≡ some r
  role'_old s r h = ground (arith, not_fresh s r h)

  role'-fresh : role' fresh ≡ some (level, p * 512 + i)
  role'-fresh = ground arith

  -- An entry of a table that was there.
  words'_old :
      (s j : ℕ) (r : ℕ × ℕ)
      → role s ≡ some r
      → j < 512
      → s + 8 * j ≢ t + 8 * i
      → words' (s + 8 * j) ≡ v.words (s + 8 * j)
  words'_old s j r h hj other =
      linked_words_out v.words fresh (t + 8 * i) link s j (tree.aligned s r h) fresh_aligned
        (not_fresh s r h) hj other

  words'_here : words' (t + 8 * i) ≡ link
  words'_here = ground arith

  -- The new table is empty.
  words'-fresh : (j : ℕ) → j < 512 → words' (fresh + 8 * j) ≡ 0
  words'-fresh j hj = linked_words_in v.words fresh (t + 8 * i) link j hj (λ e.
      not_fresh t (suc level, p) here
        (sym (entry_injective fresh t j i fresh_aligned table_aligned hj hi e).0))

  old_role : (s : ℕ) (r : ℕ × ℕ) → s ≢ fresh → role' s ≡ some r → role s ≡ some r
  old_role s r other h = ground arith

  same_role :
      (s l r j : ℕ)
      → role s ≡ some (suc l, r)
      → s ≡ t
      → j ≡ i
      → ◌≡◌ {A = Option (ℕ × ℕ)} (some (level, p * 512 + i)) (some (l, r * 512 + j))
  same_role s l r j h same_table same_index = cc (h, here, same_table, same_index)

  not_leaf : (s r : ℕ) → role s ≡ some (0, r) → s ≢ t
  not_leaf s r h e = absurd (ground (arith, ap role e))

  linked'_old :
      (s l r j : ℕ)
      → role s ≡ some (suc l, r)
      → j < 512
      → Vmm.is_present (words' (s + 8 * j)) ≡ true
      → role' (behind v.phys_offset (words' (s + 8 * j))) ≡ some (l, r * 512 + j)
  linked'_old s l r j h hj on = elim (equal-cases (s + 8 * j) (t + 8 * i)) [
    | inl e ↦
        let (same_table, same_index) =
          entry_injective s t j i (tree.aligned s (suc l, r) h) table_aligned hj hi e in
        ap (λ (y : ℕ). role' (behind v.phys_offset (words' y))) e
        ∙ ap (λ (x : ℕ). role' (behind v.phys_offset x)) words'_here
        ∙ ap role' behind-link
        ∙ role'-fresh
        ∙ same_role s l r j h same_table same_index
    | inr other ↦
        let same = words'_old s j (suc l, r) h hj other in
        ap (λ (x : ℕ). role' (behind v.phys_offset x)) same
        ∙ role'_old (behind v.phys_offset (v.words (s + 8 * j))) (l, r * 512 + j)
            (tree.linked s l r j h hj (sym (ap Vmm.is_present same) ∙ on))
  ]

  linked' :
      (s l r j : ℕ)
      → role' s ≡ some (suc l, r)
      → j < 512
      → Vmm.is_present (words' (s + 8 * j)) ≡ true
      → role' (behind v.phys_offset (words' (s + 8 * j))) ≡ some (l, r * 512 + j)
  linked' s l r j h hj on = elim (equal-cases s fresh) [
    | inl e ↦ absurd (
        cc (
          ap (λ (y : ℕ). Vmm.is_present (words' (y + 8 * j))) e,
          on,
          ap Vmm.is_present (words'-fresh j hj),
          present_zero,
        ))
    | inr other ↦ linked'_old s l r j (old_role s (suc l, r) other h) hj on
  ]

  -- The tables that were there lead where they led.
  kept' :
      (s : ℕ) (r : ℕ × ℕ) (j : ℕ)
      → role s ≡ some r
      → j < 512
      → Vmm.is_present (v.words (s + 8 * j)) ≡ true
      → words' (s + 8 * j) ≡ v.words (s + 8 * j)
  kept' s r j h hj on =
      words'_old s j r h hj
        (λ e. absurd (cc (ap (λ (y : ℕ). Vmm.is_present (v.words y)) e, on, off)))

  -- An empty table maps nothing.
  read'_fresh : (l virt : ℕ) → read words' v.phys_offset l fresh virt ≡ none
  unfolding read
  read'_fresh zero virt =
      ap cell (words'-fresh (Vmm.index virt 0) (index-lt virt 0))
      ∙ ap (λ (b : Bool). if b then some 0 else none) present_zero
  read'_fresh (suc l) virt =
      let words0 = words'-fresh (Vmm.index virt (suc l)) (index-lt virt (suc l)) in
      ap
        (λ (x : ℕ).
          if Vmm.is_present x
          then read words' v.phys_offset l (behind v.phys_offset x) virt
          else none)
        words0
      ∙ ap
          (λ (b : Bool).
            if b then read words' v.phys_offset l (behind v.phys_offset 0) virt else none)
          present_zero

  link-none : (l virt : ℕ) → read words' v.phys_offset l (behind v.phys_offset link) virt ≡ none
  link-none l virt =
      ap (λ (x : ℕ). read words' v.phys_offset l x virt) behind-link ∙ read'_fresh l virt

  -- The way of `virt` through the new entry.
  reads'_here :
      (l s virt : ℕ)
      → s + 8 * Vmm.index virt (suc l) ≡ t + 8 * i
      → read words' v.phys_offset (suc l) s virt ≡ read v.words v.phys_offset (suc l) s virt
  reads'_here l s virt e =
      read_on words' v.phys_offset l s virt (
        ap (λ (y : ℕ). Vmm.is_present (words' y)) e
        ∙ ap Vmm.is_present words'_here
        ∙ present_linked f)
      ∙ ap (λ (y : ℕ). read words' v.phys_offset l (behind v.phys_offset (words' y)) virt) e
      ∙ ap (λ (x : ℕ). read words' v.phys_offset l (behind v.phys_offset x) virt) words'_here
      ∙ link-none l virt
      ∙ sym (
          read_off v.words v.phys_offset l s virt
            (ap (λ (y : ℕ). Vmm.is_present (v.words y)) e ∙ off))

  -- A page reads the same: its way avoids the new table, or the page was not mapped and is not.
  reads' :
      (l s r virt : ℕ)
      → role s ≡ some (l, r)
      → read words' v.phys_offset l s virt ≡ read v.words v.phys_offset l s virt
  reads' zero s r virt h =
      unfold read in
      ap cell (
        words'_old s (Vmm.index virt 0) (0, r) h (index-lt virt 0)
          (λ e.
            not_leaf s r h
              (entry_injective s t (Vmm.index virt 0) i (tree.aligned s (0, r) h) table_aligned
                (index-lt virt 0) hi e).0))
  reads' (suc l) s r virt h =
      let j = Vmm.index virt (suc l) in
      elim (equal-cases (s + 8 * j) (t + 8 * i)) [
        | inl e ↦ reads'_here l s virt e
        | inr other ↦
            let same = words'_old s j (suc l, r) h (index-lt virt (suc l)) other in
            elim (Bool-cases (Vmm.is_present (v.words (s + 8 * j)))) [
              | inl on ↦
                  read_on words' v.phys_offset l s virt (ap Vmm.is_present same ∙ on)
                  ∙ ap (λ (x : ℕ). read words' v.phys_offset l (behind v.phys_offset x) virt) same
                  ∙ reads' l (behind v.phys_offset (v.words (s + 8 * j))) (r * 512 + j) virt
                      (tree.linked s l r j h (index-lt virt (suc l)) on)
                  ∙ sym (read_on v.words v.phys_offset l s virt on)
              | inr never ↦
                  read_off words' v.phys_offset l s virt (ap Vmm.is_present same ∙ never)
                  ∙ sym (read_off v.words v.phys_offset l s virt never)
            ]
      ]

  -- The frames that are left hold no table.
  module _ (left : A) (sound : q.valid left)
      (rest : (g : ℕ) → q.free left g → q.free v.frames g × (g ≢ f)) where
    abbrev created : Vmm.Vmm alloc_frame
    created = record v { words = words'; frames = left }

    spare' : (g : ℕ) → q.free left g → role' (u64 (g + v.phys_offset)) ≡ none
    spare' g h = elim (equal-cases (u64 (g + v.phys_offset)) fresh) [
      | inl e ↦ absurd (
          (rest g h).1 (
            omega (
              arith,
              (q.frame v.frames g tree.sound (rest g h).0).1,
              (q.frame v.frames f tree.sound f-free).1,
            )))
      | inr other ↦ ground (arith, tree.spare g (rest g h).0)
    ]

    aligned' : (s : ℕ) (r : ℕ × ℕ) → role' s ≡ some r → s % 4096 ≡ 0
    aligned' s r h = elim (equal-cases s fresh) [
      | inl e ↦ ap (λ (y : ℕ). y % 4096) e ∙ fresh_aligned
      | inr other ↦ tree.aligned s r (old_role s r other h)
    ]

    pub created-Grows : Grows q v role created role'
    created-Grows = record {
      tree = record {
        sound = sound;
        top = role'_old (root q v) (3, 0) tree.top;
        offset_aligned = tree.offset_aligned;
        aligned = aligned';
        linked = linked';
        spare = spare';
      };
      more = role'_old;
      same_root = refl;
      same_offset = refl;
      kept = kept';
      reads = reads';
    }
