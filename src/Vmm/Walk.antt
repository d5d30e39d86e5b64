-- ===== src/Vmm/Walk.antt =====
-- The walk down the tables that makes those that are missing: `next_table` and `find_entry` of
-- kernel/mm/vmm.cpp.
use nokernel.Prelude.{
  ℕ, zero, suc, ◌+◌, ◌*◌, ◌<◌, bit_and, bit_or, Bool, true, false, Option, none, some, ◌≡◌, ◌⊎◌,
  ◌==◌, refl, sym, ap, ◌∙◌, if◌then◌else◌, Bool-cases, ==_iff, inl, inr, arith,
}
use mathlib.Core.Path.{subst}
use nokernel.Vmm
use nokernel.Vmm.Words.{index-lt, present_linked}
use nokernel.Vmm.Tree.{IsAllocator, behind, seek, seek_on, IsTree, Grows, Grows-refl, Grows-trans}
use nokernel.Vmm.Create.{role', created-Grows}

module _ {A : Type 0} {alloc_frame : A → ℕ × A} (q : IsAllocator alloc_frame) where
  -- No frame is left.
  abbrev pub Exhausted : Vmm.Vmm alloc_frame → Type 0
  Exhausted v = (alloc_frame v.frames).0 ≡ 0

  -- The tables have grown, and entry `i` of `t` leads to what was found, or the frames are used up.
  abbrev Follows :
      Vmm.Vmm alloc_frame → (ℕ → Option (ℕ × ℕ)) → ℕ → Option ℕ × Vmm.Vmm alloc_frame → Type 0
  Follows v role x r =
      (role' : ℕ → Option (ℕ × ℕ)) × Grows q v role r.1 role'
      × (((r.0 ≡ none) × Exhausted r.1)
          ⊎ ((Vmm.is_present (r.1.words x) ≡ true)
              × (r.0 ≡ some (behind v.phys_offset (r.1.words x)))))

  -- A refusal.
  same_frames-Grows :
      (v : Vmm.Vmm alloc_frame) (role : ℕ → Option (ℕ × ℕ)) (tree : IsTree q v role) (frames : A)
      → v.frames ≡ frames
      → Grows q v role (record v { frames = frames }) role
  same_frames-Grows v role tree frames e =
      subst (λ (x : A). Grows q v role (record v { frames = x }) role) e (Grows-refl q v role tree)

  module _ (v : Vmm.Vmm alloc_frame) (role : ℕ → Option (ℕ × ℕ)) (tree : IsTree q v role)
      (t level p i : ℕ) (here : role t ≡ some (suc level, p)) (hi : i < 512)
      (off : Vmm.is_present (v.words (t + 8 * i)) ≡ false) where
    abbrev frame : ℕ
    frame = (alloc_frame v.frames).0

    missing-Follows :
        (b : Bool)
        → (frame == 0) ≡ b
        → Follows v role (t + 8 * i) (
            let v' = record v { frames = (alloc_frame v.frames).1 } in
            if b
            then (none, v')
            else (let cleared =
                  Vmm.clear_frame alloc_frame (Vmm.phys_to_virt alloc_frame v' frame) v' in
                let linked =
                  Vmm.store_word alloc_frame
                    (t + 8 * i)
                    (bit_or (bit_or frame Vmm.present) Vmm.writable)
                    cleared in
                (
                  some (
                      Vmm.phys_to_virt alloc_frame linked
                        (bit_and (linked.words (t + 8 * i)) Vmm.addr_mask)),
                  linked,
                )))
    unfolding Vmm.phys_to_virt Vmm.clear_frame Vmm.store_word
    missing-Follows true e =
        let refusal = q.refused v.frames tree.sound ((==_iff frame 0).0 e) in
        (
          role,
          same_frames-Grows v role tree (alloc_frame v.frames).1 (sym refusal),
          inl (refl, ap (λ (a : A). (alloc_frame a).0) refusal ∙ (==_iff frame 0).0 e),
        )
    missing-Follows false e =
        let free = q.granted v.frames tree.sound (λ z. ground arith) in
        (
          role' q v role tree t level p i here hi off frame free,
          created-Grows q v role tree t level p i here hi off frame free (alloc_frame v.frames).1
              (q.kept v.frames tree.sound) (λ g. q.left v.frames g tree.sound),
          inr (ground (arith, present_linked frame), refl),
        )

  next_table-Follows :
      (v : Vmm.Vmm alloc_frame) (role : ℕ → Option (ℕ × ℕ)) (tree : IsTree q v role)
      (t level p i : ℕ)
      → role t ≡ some (suc level, p)
      → i < 512
      → Follows v role (t + 8 * i) (Vmm.next_table alloc_frame v t i true)
  unfolding Vmm.next_table Vmm.phys_to_virt
  next_table-Follows v role tree t level p i here hi =
      elim (Bool-cases (Vmm.is_present (v.words (t + 8 * i)))) [
        | inl on ↦ rw on (role, Grows-refl q v role tree, inr (on, refl))
        | inr off ↦ rw off (
            missing-Follows v role tree t level p i here hi off ((alloc_frame v.frames).0 == 0)
              refl)
      ]

  -- The tables have grown, and what was found is the entry of `virt` in the last table on its way, or
  -- the frames are used up.
  abbrev pub Finds :
      Vmm.Vmm alloc_frame
      → (ℕ → Option (ℕ × ℕ))
      → ℕ
      → ℕ
      → ℕ
      → Option ℕ × Vmm.Vmm alloc_frame
      → Type 0
  Finds v role level t virt r =
      (role' : ℕ → Option (ℕ × ℕ)) × Grows q v role r.1 role'
      × (((r.0 ≡ none) × Exhausted r.1)
          ⊎ ((last : ℕ) × (r.0 ≡ some (last + 8 * Vmm.index virt 0))
              × (seek r.1.words v.phys_offset level t virt ≡ some last)))

  seek_through :
      (v : Vmm.Vmm alloc_frame) (role : ℕ → Option (ℕ × ℕ)) (t level p virt : ℕ)
      (v1 : Vmm.Vmm alloc_frame) (role1 : ℕ → Option (ℕ × ℕ)) (v2 : Vmm.Vmm alloc_frame)
      (role2 : ℕ → Option (ℕ × ℕ)) (last : ℕ)
      → role t ≡ some (suc level, p)
      → Grows q v role v1 role1
      → Grows q v1 role1 v2 role2
      → (let x = t + 8 * Vmm.index virt (suc level) in
          (Vmm.is_present (v1.words x) ≡ true)
          → seek v2.words v1.phys_offset level (behind v.phys_offset (v1.words x)) virt ≡ some last
          → seek v2.words v.phys_offset (suc level) t virt ≡ some last)
  seek_through v role t level p virt v1 role1 v2 role2 last here g h on found =
      let j = Vmm.index virt (suc level) in
      let same =
        h.kept t (suc level, p) j (g.more t (suc level, p) here) (index-lt virt (suc level)) on in
      seek_on v2.words v.phys_offset level t virt (ap Vmm.is_present same ∙ on)
      ∙ ap (λ (x : ℕ). seek v2.words v.phys_offset level (behind v.phys_offset x) virt) same
      ∙ ap (λ (o : ℕ). seek v2.words o level (behind v.phys_offset (v1.words (t + 8 * j))) virt)
          (sym g.same_offset)
      ∙ found

  further :
      (v : Vmm.Vmm alloc_frame) (role : ℕ → Option (ℕ × ℕ)) (t level p virt : ℕ)
      → role t ≡ some (suc level, p)
      → (v' : Vmm.Vmm alloc_frame) (role1 : ℕ → Option (ℕ × ℕ)) (t' : ℕ) → Grows q v role v' role1
      → Vmm.is_present (v'.words (t + 8 * Vmm.index virt (suc level))) ≡ true
      → t' ≡ behind v.phys_offset (v'.words (t + 8 * Vmm.index virt (suc level)))
      → (r : Option ℕ × Vmm.Vmm alloc_frame) → Finds v' role1 level t' virt r
      → Finds v role (suc level) t virt r
  further v role t level p virt here v' role1 t' g on to r (role2, h, inl spent) =
      (role2, Grows-trans q v role v' role1 r.1 role2 g h, inl spent)
  further v role t level p virt here v' role1 t' g on to r (role2, h, inr (last, e, found)) = (
    role2,
    Grows-trans q v role v' role1 r.1 role2 g h,
    inr (
      last,
      e,
      seek_through v role t level p virt v' role1 r.1 role2 last here g h on
          (ap (λ (y : ℕ). seek r.1.words v'.phys_offset level y virt) (sym to) ∙ found),
    ),
  )

  -- The rest of the walk after one table.
  next-Finds :
      (v : Vmm.Vmm alloc_frame) (role : ℕ → Option (ℕ × ℕ)) (t level p virt : ℕ)
      → role t ≡ some (suc level, p)
      → ((v' : Vmm.Vmm alloc_frame) (role' : ℕ → Option (ℕ × ℕ)) (t' : ℕ)
          → IsTree q v' role'
          → role' t' ≡ some (level, p * 512 + Vmm.index virt (suc level))
          → Finds v' role' level t' virt (Vmm.walk alloc_frame level v' t' virt true))
      → (r : Option ℕ × Vmm.Vmm alloc_frame) → Follows v role (t + 8 * Vmm.index virt (suc level)) r
      → Finds v role (suc level) t virt (elim r.0 as (λ _. Option ℕ × Vmm.Vmm alloc_frame) [
        | none ↦ (none, r.1)
        | some t' ↦ Vmm.walk alloc_frame level r.1 t' virt true
      ])
  next-Finds v role t level p virt here rest (none, v') (role', g, inl (e, spent)) =
      (role', g, inl (refl, spent))
  next-Finds v role t level p virt here rest (none, v') (role', g, inr (on, e)) = absurd cc
  next-Finds v role t level p virt here rest (some t', v') (role', g, inl (e, spent)) = absurd cc
  next-Finds v role t level p virt here rest (some t', v') (role1, g, inr (on, e)) =
      let j = Vmm.index virt (suc level) in
      let to : t' ≡ behind v.phys_offset (v'.words (t + 8 * j)) = ground arith in
      let link =
        g.tree.linked t level p j (g.more t (suc level, p) here) (index-lt virt (suc level)) on in
      let link' : role1 t' ≡ some (level, p * 512 + j) =
        ap role1 to
        ∙ ap (λ (o : ℕ). role1 (behind o (v'.words (t + 8 * j)))) (sym g.same_offset)
        ∙ link in
      further v role t level p virt here v' role1 t' g on to
        (Vmm.walk alloc_frame level v' t' virt true) (rest v' role1 t' g.tree link')

  pub walk-Finds :
      (level : ℕ) (v : Vmm.Vmm alloc_frame) (role : ℕ → Option (ℕ × ℕ)) (t p virt : ℕ)
      → IsTree q v role
      → role t ≡ some (level, p)
      → Finds v role level t virt (Vmm.walk alloc_frame level v t virt true)
  unfolding Vmm.walk
  walk-Finds zero v role t p virt tree here =
      (role, Grows-refl q v role tree, inr (t, refl, unfold seek in refl))
  walk-Finds (suc level) v role t p virt tree here =
      next-Finds v role t level p virt here
        (λ v' role' t' tree' here'.
          walk-Finds level v' role' t' (p * 512 + Vmm.index virt (suc level)) virt tree' here')
        (Vmm.next_table alloc_frame v t (Vmm.index virt (suc level)) true)
        (next_table-Follows v role tree t level p (Vmm.index virt (suc level)) here
          (index-lt virt (suc level)))
