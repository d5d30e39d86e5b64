-- ===== src/Vmm/Spent.antt =====
-- The frames that the calls of kernel/mm/vmm.cpp leave: what every grant of a frame keeps, they keep.
use nokernel.Prelude.{
  ℕ, zero, suc, ◌+◌, ◌*◌, Bool, true, false, Option, none, some, ◌==◌, Bool-cases, inl, inr,
  if◌then◌else◌, bit_and, bit_or,
}
use nokernel.Word.{u64}
use nokernel.Pmm.{frame_size}
use nokernel.Vmm

module _ {A : Type 0} (alloc_frame : A → ℕ × A) (P : A → Type 0)
    (step : (a : A) → P a → P (alloc_frame a).1) where
  -- Of what is returned with the tables.
  abbrev Keeps : {B : Type 0} → B × Vmm.Vmm alloc_frame → Type 0
  Keeps {B} r = P r.1.frames

  next_table-Keeps :
      (v : Vmm.Vmm alloc_frame) (table i : ℕ) (create : Bool)
      → P v.frames
      → Keeps (Vmm.next_table alloc_frame v table i create)
  unfolding Vmm.next_table Vmm.store_word Vmm.clear_frame
  next_table-Keeps v table i create h =
      elim (Bool-cases (Vmm.is_present (v.words (table + 8 * i)))) [
        | inl on ↦ rw on h
        | inr off ↦ rw off (elim (Bool-cases create) [
          | inr e ↦ rw e h
          | inl e ↦ rw e (elim (Bool-cases ((alloc_frame v.frames).0 == 0)) [
            | inl z ↦ rw z (step v.frames h)
            | inr n ↦ rw n (step v.frames h)
          ])
        ])
      ]

  walk-Keeps :
      (level : ℕ) (v : Vmm.Vmm alloc_frame) (table virt : ℕ) (create : Bool)
      → P v.frames
      → Keeps (Vmm.walk alloc_frame level v table virt create)
  unfolding Vmm.walk
  walk-Keeps zero v table virt create h = h
  walk-Keeps (suc level) v table virt create h =
      go (Vmm.next_table alloc_frame v table (Vmm.index virt (suc level)) create)
        (next_table-Keeps v table (Vmm.index virt (suc level)) create h)
        (λ v' t k. walk-Keeps level v' t virt create k)
    where
      go :
          (r : Option ℕ × Vmm.Vmm alloc_frame)
          → Keeps r
          → ((v' : Vmm.Vmm alloc_frame) (t : ℕ)
              → P v'.frames
              → Keeps (Vmm.walk alloc_frame level v' t virt create))
          → Keeps (elim r.0 as (λ _. Option ℕ × Vmm.Vmm alloc_frame) [
            | none ↦ (none, r.1)
            | some table' ↦ Vmm.walk alloc_frame level r.1 table' virt create
          ])
      go (none, v') k again = k
      go (some t, v') k again = again v' t k

  unmap-Keeps :
      (v : Vmm.Vmm alloc_frame) (virt : ℕ) → P v.frames → P (Vmm.unmap alloc_frame v virt).frames
  unfolding Vmm.unmap Vmm.find_entry Vmm.store_word
  unmap-Keeps v virt h =
      go (Vmm.find_entry alloc_frame v virt false)
        (walk-Keeps 3 v (Vmm.phys_to_virt alloc_frame v v.pml4_phys) virt false h)
    where
      go :
          (r : Option ℕ × Vmm.Vmm alloc_frame)
          → Keeps r
          → P
              (elim r.0 as (λ _. Vmm.Vmm alloc_frame) [
                | none ↦ r.1
                | some a ↦ Vmm.store_word alloc_frame a 0 r.1
              ]).frames
      go (none, v') k = k
      go (some a, v') k = k

  pub unmap_range-Keeps :
      (count : ℕ) (v : Vmm.Vmm alloc_frame) (virt : ℕ)
      → P v.frames
      → P (Vmm.unmap_range alloc_frame count v virt).frames
  unfolding Vmm.unmap_range
  unmap_range-Keeps zero v virt h = h
  unmap_range-Keeps (suc count) v virt h =
      unmap_range-Keeps count (Vmm.unmap alloc_frame v virt) (u64 (virt + frame_size))
        (unmap-Keeps v virt h)

  map_page-Keeps :
      (v : Vmm.Vmm alloc_frame) (virt phys flags : ℕ)
      → P v.frames
      → Keeps (Vmm.map_page alloc_frame v virt phys flags)
  unfolding Vmm.map_page Vmm.find_entry Vmm.store_word
  map_page-Keeps v virt phys flags h =
      go (Vmm.find_entry alloc_frame v virt true)
        (walk-Keeps 3 v (Vmm.phys_to_virt alloc_frame v v.pml4_phys) virt true h)
    where
      go :
          (r : Option ℕ × Vmm.Vmm alloc_frame)
          → Keeps r
          → Keeps (elim r.0 as (λ _. Bool × Vmm.Vmm alloc_frame) [
            | none ↦ (false, r.1)
            | some a ↦ if Vmm.is_present (r.1.words a) then (false, r.1) else (
              true,
              Vmm.store_word alloc_frame a
                  (bit_or (bit_or (bit_and phys Vmm.addr_mask) flags) Vmm.present)
                  r.1,
            )
          ])
      go (none, v') k = k
      go (some a, v') k = elim (Bool-cases (Vmm.is_present (v'.words a))) [
        | inl on ↦ rw on k
        | inr off ↦ rw off k
      ]

  map_loop-Keeps :
      (rounds : ℕ) (v : Vmm.Vmm alloc_frame) (virt phys i flags : ℕ)
      → P v.frames
      → Keeps (Vmm.map_loop alloc_frame rounds v virt phys i flags)
  unfolding Vmm.map_loop
  map_loop-Keeps zero v virt phys i flags h = h
  map_loop-Keeps (suc rounds) v virt phys i flags h =
      let (done, v') = Vmm.map_page alloc_frame v (u64 (virt + i * frame_size)) phys flags in
      let k = map_page-Keeps v (u64 (virt + i * frame_size)) phys flags h in
      elim (Bool-cases done) [
        | inl e ↦ rw e (map_loop-Keeps rounds v' virt (u64 (phys + frame_size)) (i + 1) flags k)
        | inr e ↦ rw e (unmap_range-Keeps i v' virt k)
      ]

  pub map_range-Keeps :
      (v : Vmm.Vmm alloc_frame) (virt phys count flags : ℕ)
      → P v.frames
      → Keeps (Vmm.map_range alloc_frame v virt phys count flags)
  unfolding Vmm.map_range
  map_range-Keeps v virt phys count flags h = map_loop-Keeps count v virt phys 0 flags h
