-- ===== src/Vmm/Tree.antt =====
-- The page tables (kernel/mm/vmm.cpp) as a tree, and what it holds for a page.
use nokernel.Prelude.{
  ℕ, zero, suc, ◌+◌, ◌*◌, ◌%◌, ◌^◌, ◌<◌, bit_and, Bool, true, false, Option, none, some, ◌≡◌, ◌≢◌,
  refl, sym, ap, ◌∙◌, if◌then◌else◌, Bool-cases, inl, inr, arith,
}
use nokernel.Word.{u64}
use nokernel.Vmm
use nokernel.Vmm.Words.{index-lt}

-- What the tables need of the allocator of frames: which states are sound, and which frames are
-- free in one. A frame is a page of memory whose address fits an entry, a granted frame was free and
-- is so no more, and a refusal changes nothing.
pub record IsAllocator {A : Type 0} (alloc_frame : A → ℕ × A) : Type 1 where
  pub valid : A → Type 0
  pub free : A → ℕ → Type 0
  pub frame : (a : A) (f : ℕ) → valid a → free a f → (f % 4096 ≡ 0) × (f < 2 ^ 52)
  pub kept : (a : A) → valid a → valid (alloc_frame a).1
  pub granted : (a : A) → valid a → (alloc_frame a).0 ≢ 0 → free a (alloc_frame a).0
  pub left :
      (a : A) (f : ℕ) → valid a → free (alloc_frame a).1 f → free a f × (f ≢ (alloc_frame a).0)
  pub refused : (a : A) → valid a → (alloc_frame a).0 ≡ 0 → (alloc_frame a).1 ≡ a

-- The table that an entry leads to.
abbrev pub behind : ℕ → ℕ → ℕ
behind offset entry = u64 (bit_and entry Vmm.addr_mask + offset)

-- The last table for an address, from a table of `level` on.
unfoldable pub seek : (ℕ → ℕ) → ℕ → ℕ → ℕ → ℕ → Option ℕ
seek words offset zero table virt = some table
seek words offset (suc level) table virt =
    let entry = words (table + 8 * Vmm.index virt (suc level)) in
    let rest = seek words offset level (behind offset entry) virt in
    if Vmm.is_present entry then rest else none

abbrev pub cell : ℕ → Option ℕ
cell entry = if Vmm.is_present entry then some entry else none

-- The entry of a page, if it is mapped.
unfoldable pub read : (ℕ → ℕ) → ℕ → ℕ → ℕ → ℕ → Option ℕ
read words offset zero table virt = cell (words (table + 8 * Vmm.index virt 0))
read words offset (suc level) table virt =
    let entry = words (table + 8 * Vmm.index virt (suc level)) in
    let rest = read words offset level (behind offset entry) virt in
    if Vmm.is_present entry then rest else none

-- One step of either.
module _ (words : ℕ → ℕ) (offset level t virt : ℕ) where
  abbrev step : ℕ
  step = words (t + 8 * Vmm.index virt (suc level))

  pub read_on :
      Vmm.is_present step ≡ true
      → read words offset (suc level) t virt ≡ read words offset level (behind offset step) virt
  unfolding read
  read_on on =
      ap (λ (b : Bool). if b then read words offset level (behind offset step) virt else none) on

  pub read_off : Vmm.is_present step ≡ false → read words offset (suc level) t virt ≡ none
  unfolding read
  read_off off =
      ap (λ (b : Bool). if b then read words offset level (behind offset step) virt else none) off

  pub seek_on :
      Vmm.is_present step ≡ true
      → seek words offset (suc level) t virt ≡ seek words offset level (behind offset step) virt
  unfolding seek
  seek_on on =
      ap (λ (b : Bool). if b then seek words offset level (behind offset step) virt else none) on

  pub seek_off : Vmm.is_present step ≡ false → seek words offset (suc level) t virt ≡ none
  unfolding seek
  seek_off off =
      ap (λ (b : Bool). if b then seek words offset level (behind offset step) virt else none) off

-- The number of the last table, from that of a table of `level` on.
unfoldable pub under : ℕ → ℕ → ℕ → ℕ
under zero p virt = p
under (suc level) p virt = under level (p * 512 + Vmm.index virt (suc level)) virt

module _ {A : Type 0} {alloc_frame : A → ℕ × A} (q : IsAllocator alloc_frame) where
  abbrev pub root : Vmm.Vmm alloc_frame → ℕ
  root v = u64 (v.pml4_phys + v.phys_offset)

  -- What is mapped: the entry of each address.
  unfoldable pub mapped : Vmm.Vmm alloc_frame → ℕ → Option ℕ
  mapped v virt = read v.words v.phys_offset 3 (root v) virt

  -- The tables form a tree: each has a level and a number, an entry that is present leads to the
  -- table whose number ends in that of the entry, and the free frames hold no table.
  pub record IsTree (v : Vmm.Vmm alloc_frame) (role : ℕ → Option (ℕ × ℕ)) : Type 0 where
    pub sound : q.valid v.frames
    pub top : role (root v) ≡ some (3, 0)
    pub offset_aligned : v.phys_offset % 4096 ≡ 0
    pub aligned : (t : ℕ) (r : ℕ × ℕ) → role t ≡ some r → t % 4096 ≡ 0
    pub linked :
        (t level p i : ℕ)
        → role t ≡ some (suc level, p)
        → i < 512
        → Vmm.is_present (v.words (t + 8 * i)) ≡ true
        → role (behind v.phys_offset (v.words (t + 8 * i))) ≡ some (level, p * 512 + i)
    pub spare : (f : ℕ) → q.free v.frames f → role (u64 (f + v.phys_offset)) ≡ none

  -- A change that makes tables, and maps or unmaps nothing.
  pub record Grows (v : Vmm.Vmm alloc_frame) (role : ℕ → Option (ℕ × ℕ)) (v' : Vmm.Vmm alloc_frame)
      (role' : ℕ → Option (ℕ × ℕ)) : Type 0 where
    pub tree : IsTree v' role'
    pub more : (t : ℕ) (r : ℕ × ℕ) → role t ≡ some r → role' t ≡ some r
    pub same_root : v'.pml4_phys ≡ v.pml4_phys
    pub same_offset : v'.phys_offset ≡ v.phys_offset
    pub kept :
        (t : ℕ) (r : ℕ × ℕ) (i : ℕ)
        → role t ≡ some r
        → i < 512
        → Vmm.is_present (v.words (t + 8 * i)) ≡ true
        → v'.words (t + 8 * i) ≡ v.words (t + 8 * i)
    pub reads :
        (level t p virt : ℕ)
        → role t ≡ some (level, p)
        → read v'.words v.phys_offset level t virt ≡ read v.words v.phys_offset level t virt

  pub Grows-refl :
      (v : Vmm.Vmm alloc_frame) (role : ℕ → Option (ℕ × ℕ)) → IsTree v role → Grows v role v role
  Grows-refl v role tree = record {
    tree = tree;
    more = λ t r h. h;
    same_root = refl;
    same_offset = refl;
    kept = λ t r i h hi e. refl;
    reads = λ level t p virt h. refl;
  }

  pub Grows-trans :
      (v : Vmm.Vmm alloc_frame) (role : ℕ → Option (ℕ × ℕ)) (v1 : Vmm.Vmm alloc_frame)
      (role1 : ℕ → Option (ℕ × ℕ)) (v2 : Vmm.Vmm alloc_frame) (role2 : ℕ → Option (ℕ × ℕ))
      → Grows v role v1 role1
      → Grows v1 role1 v2 role2
      → Grows v role v2 role2
  Grows-trans v role v1 role1 v2 role2 g h = record {
    tree = h.tree;
    more = λ t r e. h.more t r (g.more t r e);
    same_root = h.same_root ∙ g.same_root;
    same_offset = h.same_offset ∙ g.same_offset;
    kept = λ t r i e hi on.
        h.kept t r i (g.more t r e) hi (ap Vmm.is_present (g.kept t r i e hi on) ∙ on)
        ∙ g.kept t r i e hi on;
    reads = λ level t p virt e.
        sym (ap (λ o. read v2.words o level t virt) g.same_offset)
        ∙ h.reads level t p virt (g.more t (level, p) e)
        ∙ ap (λ o. read v1.words o level t virt) g.same_offset
        ∙ g.reads level t p virt e;
  }

  -- The last table has the number that its address asks for.
  pub seek-under :
      (v : Vmm.Vmm alloc_frame) (role : ℕ → Option (ℕ × ℕ))
      → IsTree v role
      → (level t p virt last : ℕ) → role t ≡ some (level, p)
      → seek v.words v.phys_offset level t virt ≡ some last
      → role last ≡ some (0, under level p virt)
  unfolding seek under
  seek-under v role tree zero t p virt last h found = ground (arith)
  seek-under v role tree (suc level) t p virt last h found =
      elim (Bool-cases (Vmm.is_present (v.words (t + 8 * Vmm.index virt (suc level))))) [
        | inl on ↦
            seek-under v role tree level
              (behind v.phys_offset (v.words (t + 8 * Vmm.index virt (suc level))))
              (p * 512 + Vmm.index virt (suc level)) virt last
              (tree.linked t level p (Vmm.index virt (suc level)) h (index-lt virt (suc level)) on)
              (ground arith)
        | inr off ↦ absurd (ground arith)
      ]

-- The page of an address that the tree leads to.
pub read-seek :
    (words : ℕ → ℕ) (offset level t virt last : ℕ)
    → seek words offset level t virt ≡ some last
    → read words offset level t virt ≡ cell (words (last + 8 * Vmm.index virt 0))
unfolding seek read
read-seek words offset zero t virt last found = ground arith
read-seek words offset (suc level) t virt last found =
    elim (Bool-cases (Vmm.is_present (words (t + 8 * Vmm.index virt (suc level))))) [
      | inl on ↦ ground (
        arith,
        read-seek words offset level (behind offset (words (t + 8 * Vmm.index virt (suc level))))
            virt last (ground arith),
      )
      | inr off ↦ absurd (ground arith)
    ]

pub read-seek-none :
    (words : ℕ → ℕ) (offset level t virt : ℕ)
    → seek words offset level t virt ≡ none
    → read words offset level t virt ≡ none
unfolding seek read
read-seek-none words offset zero t virt found = absurd (ground arith)
read-seek-none words offset (suc level) t virt found =
    elim (Bool-cases (Vmm.is_present (words (t + 8 * Vmm.index virt (suc level))))) [
      | inl on ↦ ground (
        arith,
        read-seek-none words offset level
            (behind offset (words (t + 8 * Vmm.index virt (suc level)))) virt (ground arith),
      )
      | inr off ↦ ground arith
    ]
