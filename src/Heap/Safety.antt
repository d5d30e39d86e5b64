-- ===== src/Heap/Safety.antt =====
-- What a caller of the heap (kernel/mm/heap.cpp) can rely on.
use nokernel.Prelude.{
  ℕ, ◌+◌, ◌≤◌, ◌≡◌, ◌≢◌, refl, some, List, [], ◌∷◌, ltb, ◌==◌, ==_iff, arith, inl, inr, ◌⊎◌,
  Bool-cases, ltb→lt,
}
use mathlib.Core.Path.{subst}
use nokernel.Outcome.{Outcome, ok}
use nokernel.Heap.{Heap, meta_size, heap_max, alloc_pass, free}
use nokernel.Heap.Tiles.{Piece, after, IsHeap, first_fit}
use nokernel.Heap.Take.{take_first, alloc_pass-Taken}
use nokernel.Heap.Join.{coalesce, block_at, block_at_bounds, release, free-Released}
use nokernel.Heap.Blocks.{
  InUse, IsFreed, coalesce-IsFreed, release-IsFreed, IsCoalesced, coalesce-IsCoalesced,
  coalesce-InUse, release-InUse, take_first-InUse, first_fit-InUse, block_at_disjoint, first_fit-ge,
}

-- The call returned the data of a block: one that was not in use, inside the heap and away from
-- every block in use, which all stay.
pub record Grant (h : Heap) (ps : List Piece) (size : ℕ) (result : Outcome (ℕ × Heap))
    : Type 0 where
  pub heap : Heap
  pub blocks : List Piece
  pub address : ℕ
  pub block : Piece
  pub returns : result ≡ ok (address + meta_size, heap)
  pub is_heap : IsHeap heap blocks
  pub same_start : heap.heap_start ≡ h.heap_start
  pub same_end : heap.heap_end ≡ h.heap_end
  pub in_use : InUse heap.heap_start blocks address block
  pub large : size ≤ block.size
  pub inside : (h.heap_start ≤ address) × (after address block ≤ h.heap_end)
  pub kept : (y : ℕ) (c : Piece) → InUse h.heap_start ps y c → InUse heap.heap_start blocks y c
  pub apart :
      (y : ℕ) (c : Piece)
      → InUse h.heap_start ps y c
      → (after y c ≤ address) ⊎ (after address block ≤ y)

first_fit-unused :
    (a : ℕ) (ps : List Piece) (size : ℕ) (c : Piece)
    → first_fit a ps size ≢ 0
    → ¬ (InUse a ps (first_fit a ps size) c)
unfolding first_fit block_at
first_fit-unused a [] size c ne u = ne refl
first_fit-unused a (p ∷ ps) size c ne u =
    ground (arith, first_fit-unused (after a p) ps size c, first_fit-ge (after a p) ps size)

-- The new block among the blocks in use.
first_fit_apart :
    (a : ℕ) (ps : List Piece) (size : ℕ) (b : Piece) (y : ℕ) (c : Piece)
    → first_fit a ps size ≢ 0
    → InUse a (take_first ps size) (first_fit a ps size) b
    → InUse a ps y c
    → (after y c ≤ first_fit a ps size) ⊎ (after (first_fit a ps size) b ≤ y)
first_fit_apart a ps size b y c ne u v =
    let x = first_fit a ps size in
    let w = take_first-InUse a ps size y c v in
    elim (Bool-cases (y == x)) [
      | inl e ↦
          absurd
            (first_fit-unused a ps size c ne (subst (λ z. InUse a ps z c) ((==_iff y x).0 e) v))
      | inr e ↦ elim (Bool-cases (ltb y x)) [
        | inl lt ↦ inl (block_at_disjoint a (take_first ps size) y x c b w.0 u.0 (ltb→lt y x lt))
        | inr ge ↦ inr (block_at_disjoint a (take_first ps size) x y b c u.0 w.0 (ground arith))
      ]
    ]

-- From a well-formed heap with a block that fits, a pass of `alloc` for `size` bytes returns the
-- data of a block of at least that size that was not in use; it lies in the heap and overlaps no
-- block in use, all of these stay as they are, and the heap is well formed again.
pub alloc_pass-Grant :
    {h : Heap} {ps : List Piece} (size : ℕ)
    → IsHeap h ps
    → size ≤ heap_max
    → first_fit h.heap_start ps size ≢ 0
    → Grant h ps size (alloc_pass h size)
alloc_pass-Grant {h} {ps} size is small ne =
    let r = alloc_pass-Taken size is small ne in
    let x = first_fit h.heap_start ps size in
    let (b, u, large) = first_fit-InUse h.heap_start ps size ne in
    record {
      heap = r.heap;
      blocks = take_first ps size;
      address = x;
      block = b;
      returns = r.returns;
      is_heap = r.is_heap;
      same_start = r.same.same_start;
      same_end = r.same.same_end;
      in_use = simp r.same.same_start u;
      large = large;
      inside =
          block_at_bounds r.heap.headers h.heap_start (take_first ps size) h.heap_end x b
            (simp (r.same.same_start, r.same.same_end) at r.is_heap.tiles) u.0;
      kept = λ y c v. simp r.same.same_start (take_first-InUse h.heap_start ps size y c v);
      apart = λ y c v. first_fit_apart h.heap_start ps size b y c ne u v;
    }

-- What `free` of the block at `x` leaves.
pub record Freed (h : Heap) (ps : List Piece) (x : ℕ) (result : Outcome Heap) : Type 0 where
  pub heap : Heap
  pub blocks : List Piece
  pub returns : result ≡ ok heap
  pub is_heap : IsHeap heap blocks
  pub same_start : heap.heap_start ≡ h.heap_start
  pub same_end : heap.heap_end ≡ h.heap_end
  pub joined : IsCoalesced blocks
  pub freed : (b : Piece) → block_at h.heap_start ps x ≡ some b → IsFreed heap.heap_start blocks x b
  pub kept :
      (y : ℕ) (c : Piece) → y ≢ x → InUse h.heap_start ps y c → InUse heap.heap_start blocks y c

-- From a well-formed heap `free` of the data of any of its blocks returns; the heap is well formed
-- again, no two neighbours are free, a free block has all the bytes of the one that was freed, and
-- every other block in use stays as it is.
pub free-Freed :
    {h : Heap} {ps : List Piece} (x : ℕ) (b : Piece)
    → IsHeap h ps
    → block_at h.heap_start ps x ≡ some b
    → Freed h ps x (free h (x + meta_size))
free-Freed {h} {ps} x b is at =
    let r = free-Released x b is at in
    record {
      heap = r.heap;
      blocks = coalesce (release h.heap_start ps x);
      returns = r.returns;
      is_heap = r.is_heap;
      same_start = r.same_start;
      same_end = r.same_end;
      joined = coalesce-IsCoalesced (release h.heap_start ps x);
      freed = λ c found. simp r.same_start (
          coalesce-IsFreed h.heap_start (release h.heap_start ps x) x c
            (release-IsFreed h.heap_start ps x c found));
      kept = λ y c ne v. simp r.same_start (
          coalesce-InUse h.heap_start (release h.heap_start ps x) y c
            (release-InUse h.heap_start ps x y c (ground arith) v));
    }
