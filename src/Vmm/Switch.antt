-- ===== src/Vmm/Switch.antt =====
-- The switch to the direct map at the end of `init` of kernel/mm/vmm.cpp.
use nokernel.Prelude.{
  ℕ, zero, suc, ◌+◌, ◌*◌, ◌%◌, ◌^◌, ◌<◌, Option, none, some, ltb, ◌≡◌, refl, ap, ◌∙◌, sym,
  if◌then◌else◌, Bool-cases, true, inl, inr, arith, bit_and,
}
use nokernel.Word.{u64, sub64}
use nokernel.Vmm
use nokernel.Vmm.Words.{index-lt, address_masked}
use nokernel.Vmm.Tree.{IsAllocator, behind, cell, read, read_on, read_off, mapped, IsTree}

-- Where an address of the direct map was before.
abbrev pub before : ℕ → ℕ → ℕ
before offset a = u64 (sub64 a Vmm.hhdm_offset + offset)

before_entry :
    (offset t i : ℕ)
    → offset % 4096 ≡ 0
    → t % 4096 ≡ 0
    → t < 2 ^ 64
    → i < 512
    → before offset (t + 8 * i) ≡ before offset t + 8 * i
before_entry offset t i ho ht small hi = omega arith

before_shifted : (offset x : ℕ) → before offset (u64 (x + Vmm.hhdm_offset)) ≡ u64 (x + offset)
before_shifted offset x = omega arith

behind_aligned : (entry : ℕ) → behind Vmm.hhdm_offset entry % 4096 ≡ 0
behind_aligned entry = omega (arith, address_masked entry)

-- The tables read the same.
read_switched :
    (words : ℕ → ℕ) (offset level t x : ℕ)
    → offset % 4096 ≡ 0
    → t % 4096 ≡ 0
    → t < 2 ^ 64
    → read (λ a. words (before offset a)) Vmm.hhdm_offset level t x
      ≡ read words offset level (before offset t) x
read_switched words offset zero t x ho ht small =
    unfold read in
    ap (λ (a : ℕ). cell (words a))
      (before_entry offset t (Vmm.index x 0) ho ht small (index-lt x 0))
read_switched words offset (suc level) t x ho ht small =
    let i = Vmm.index x (suc level) in
    let place = before_entry offset t i ho ht small (index-lt x (suc level)) in
    let e = words (before offset t + 8 * i) in
    let same = ap words place in
    elim (Bool-cases (Vmm.is_present e)) [
      | inl on ↦
          read_on (λ a. words (before offset a)) Vmm.hhdm_offset level t x
            (ap Vmm.is_present same ∙ on)
          ∙ ap
              (λ (w : ℕ).
                read (λ a. words (before offset a)) Vmm.hhdm_offset level (behind Vmm.hhdm_offset w)
                  x)
              same
          ∙ read_switched words offset level (behind Vmm.hhdm_offset e) x ho (behind_aligned e)
              (omega arith)
          ∙ ap (λ (s : ℕ). read words offset level s x)
              (before_shifted offset (bit_and e Vmm.addr_mask))
          ∙ sym (read_on words offset level (before offset t) x on)
      | inr off ↦
          read_off (λ a. words (before offset a)) Vmm.hhdm_offset level t x
            (ap Vmm.is_present same ∙ off)
          ∙ sym (read_off words offset level (before offset t) x off)
    ]

module _ {A : Type 0} {alloc_frame : A → ℕ × A} (q : IsAllocator alloc_frame)
    (v : Vmm.Vmm alloc_frame) (role : ℕ → Option (ℕ × ℕ)) (tree : IsTree q v role) where
  abbrev pub switched : Vmm.Vmm alloc_frame
  switched = record v {
    phys_offset = Vmm.hhdm_offset;
    words = λ a. v.words (before v.phys_offset a);
  }

  abbrev pub role' : ℕ → Option (ℕ × ℕ)
  role' t = if ltb t (2 ^ 64) then role (before v.phys_offset t) else none

  role'_small : (t : ℕ) (r : ℕ × ℕ) → role' t ≡ some r → t < 2 ^ 64
  role'_small t r h = ground arith

  role'_was : (t : ℕ) (r : ℕ × ℕ) → role' t ≡ some r → role (before v.phys_offset t) ≡ some r
  role'_was t r h = ground arith

  role'_shifted : (x : ℕ) → role' (u64 (x + Vmm.hhdm_offset)) ≡ role (u64 (x + v.phys_offset))
  role'_shifted x =
      let inside : ltb (u64 (x + Vmm.hhdm_offset)) (2 ^ 64) ≡ true = ground arith in
      rw inside (ap role (before_shifted v.phys_offset x))

  role'_aligned : (t : ℕ) (r : ℕ × ℕ) → role' t ≡ some r → t % 4096 ≡ 0
  role'_aligned t r h = omega (
    arith,
    tree.aligned (before v.phys_offset t) r (role'_was t r h),
    tree.offset_aligned,
    role'_small t r h,
  )

  switched_linked :
      (t level p i : ℕ)
      → role' t ≡ some (suc level, p)
      → i < 512
      → Vmm.is_present (switched.words (t + 8 * i)) ≡ true
      → role' (behind Vmm.hhdm_offset (switched.words (t + 8 * i))) ≡ some (level, p * 512 + i)
  switched_linked t level p i h hi on =
      let place =
        before_entry v.phys_offset t i tree.offset_aligned (role'_aligned t (suc level, p) h)
          (role'_small t (suc level, p) h) hi in
      let same = ap v.words place in
      let e = v.words (before v.phys_offset t + 8 * i) in
      ap (λ (w : ℕ). role' (behind Vmm.hhdm_offset w)) same
      ∙ role'_shifted (bit_and e Vmm.addr_mask)
      ∙ tree.linked (before v.phys_offset t) level p i (role'_was t (suc level, p) h) hi
          (sym (ap Vmm.is_present same) ∙ on)

  -- The tables form a tree as before.
  pub switched-IsTree : IsTree q switched role'
  switched-IsTree = record {
    sound = tree.sound;
    top = role'_shifted v.pml4_phys ∙ tree.top;
    offset_aligned = refl;
    aligned = role'_aligned;
    linked = switched_linked;
    spare = λ f free. role'_shifted f ∙ tree.spare f free;
  }

  root_aligned : u64 (v.pml4_phys + Vmm.hhdm_offset) % 4096 ≡ 0
  root_aligned =
      role'_aligned (u64 (v.pml4_phys + Vmm.hhdm_offset)) (3, 0)
        (role'_shifted v.pml4_phys ∙ tree.top)

  -- And every page is mapped as before.
  pub switched-mapped : (x : ℕ) → mapped q switched x ≡ mapped q v x
  unfolding mapped
  switched-mapped x =
      read_switched v.words v.phys_offset 3 (u64 (v.pml4_phys + Vmm.hhdm_offset)) x
        tree.offset_aligned root_aligned (omega arith)
      ∙ ap (λ (t : ℕ). read v.words v.phys_offset 3 t x) (before_shifted v.phys_offset v.pml4_phys)
