-- ===== src/Heap/Take.antt =====
-- Taking a block: `split_block` and the body of the loop of `alloc` (kernel/mm/heap.cpp).
use nokernel.Prelude.{
  ℕ, ◌+◌, ◌-◌, ◌^◌, ◌≤◌, ◌<◌, ◌≡◌, ◌≢◌, refl, true, false, some, List, [], ◌∷◌, ◌++◌, ltb, ◌==◌,
  if◌then◌else◌, arith, inl, inr, Bool-cases,
}
use nokernel.Outcome.{Outcome, ok}
use nokernel.Word.{u64, sub64}
use nokernel.Heap.{
  Heap, meta_size, heap_max, store, find_block, rounds_for, split_block, take_block, alloc_pass,
}
use nokernel.Heap.Tiles.{
  Piece, after, link, header, Tiles, Tiles-le, Tiles-frame, load-header, IsHeap, usable, first_fit,
  find_block-first_fit, SameBelow, Rebuilt, Rebuilt_cons, Rebuilt-IsHeap, SameBelow-store,
  SameBelow-trans, Tiles-store,
}

-- The blocks that a free block becomes when `size` bytes of it are taken.
unfoldable pub carve : Piece → ℕ → List Piece
carve p size =
    if ltb p.size (size + meta_size + 16)
    then record { size = p.size; is_free = false } ∷ []
    else record { size = size; is_free = false }
      ∷ record { size = p.size - size - meta_size; is_free = true }
      ∷ []

module _ (h : Heap) (a : ℕ) (p : Piece) (ps : List Piece) (stop size : ℕ) (pos : 0 < a)
    (t : Tiles h.headers a (p ∷ ps) stop) (fits : size ≤ p.size) (small : size ≤ heap_max)
    (top : stop < 2 ^ 64) where
  abbrev kept : Heap
  kept = store h a (record (header a p ps) { is_free = false })

  no_wrap : u64 (u64 (size + meta_size) + 16) ≡ size + meta_size + 16
  no_wrap = omega arith

  whole :
      ltb p.size (size + meta_size + 16) ≡ true
      → Rebuilt a h (carve p size ++ ps) stop (take_block h a size)
  whole e = record {
    heap = kept;
    returns =
        unfold take_block split_block in
        rw (load-header h pos t.0, no_wrap, e, load-header h pos t.0);
    tiles = unfold carve in rw e (Tiles-store h a (record p { is_free = false }) ps stop t.1);
    same = SameBelow-store h a a _ (omega arith);
  }

  abbrev next : ℕ
  next = a + meta_size + size

  abbrev rest : Piece
  rest = record { size = p.size - size - meta_size; is_free = true }

  abbrev split : Heap
  split = store h next (header next rest ps)

  -- `split_block` leaves the block free; the caller then marks it used.
  abbrev halved : Heap
  halved = store split a (header a (record { size = size; is_free = p.is_free }) (rest ∷ ps))

  abbrev taken : Heap
  taken = store halved a (header a (record { size = size; is_free = false }) (rest ∷ ps))

  module _ (e : ltb p.size (size + meta_size + 16) ≡ false) where
    ends : after next rest ≡ after a p
    ends = ground arith

    rest_size : sub64 (sub64 p.size size) meta_size ≡ p.size - size - meta_size
    rest_size = ground (arith, Tiles-le h.headers (after a p) ps stop t.1)

    split-Tiles : Tiles split.headers next (rest ∷ ps) stop
    split-Tiles = Tiles-store h next rest ps stop (rw ends t.1)

    halved-Tiles : Tiles halved.headers next (rest ∷ ps) stop
    halved-Tiles =
        Tiles-frame {hd = split.headers} next (rest ∷ ps) stop
          (λ x le. unfold store in ground arith) split-Tiles

    split_returns : split_block h a size ≡ ok halved
    split_returns = unfold split_block in rw (load-header h pos t.0, no_wrap, e, rest_size, ends)

    halved_header :
        halved.headers a ≡ some (header a (record { size = size; is_free = p.is_free }) (rest ∷ ps))
    halved_header = unfold store in ground arith

    cut : Rebuilt a h (carve p size ++ ps) stop (take_block h a size)
    cut = record {
      heap = taken;
      returns = unfold take_block in rw (split_returns, load-header halved pos halved_header);
      tiles =
          unfold carve in
          rw e (
            Tiles-store halved a (record { size = size; is_free = false }) (rest ∷ ps) stop
              halved-Tiles);
      same = SameBelow-trans (omega arith) (SameBelow-store h a next _ (omega arith)) (
          SameBelow-trans (omega arith) (SameBelow-store split a a _ (omega arith))
            (SameBelow-store halved a a _ (omega arith)));
    }

  take_block_lem : Rebuilt a h (carve p size ++ ps) stop (take_block h a size)
  take_block_lem = elim (Bool-cases (ltb p.size (size + meta_size + 16))) [
    | inl e ↦ whole e
    | inr e ↦ cut e
  ]

-- The blocks once `alloc` has taken `size` bytes.
unfoldable pub take_first : List Piece → ℕ → List Piece
take_first [] size = []
take_first (p ∷ ps) size = if usable size p then carve p size ++ ps else p ∷ take_first ps size

link-take_first : (a : ℕ) (ps : List Piece) (size : ℕ) → link a (take_first ps size) ≡ link a ps
unfolding take_first carve
link-take_first a [] size = refl
link-take_first a (p ∷ ps) size = ground arith

take_first_lem :
    (h : Heap) (a : ℕ) (ps : List Piece) (stop size : ℕ)
    → 0 < a
    → Tiles h.headers a ps stop
    → size ≤ heap_max
    → stop < 2 ^ 64
    → first_fit a ps size ≢ 0
    → Rebuilt a h (take_first ps size) stop (take_block h (first_fit a ps size) size)
unfolding first_fit take_first
take_first_lem h a [] stop size pos t small top ne = absurd (ne refl)
take_first_lem h a (p ∷ ps) stop size pos t small top ne = elim (Bool-cases (usable size p)) [
  | inl e ↦ rw e (take_block_lem h a p ps stop size pos t (ground arith) small top)
  | inr e ↦ rw e (
      Rebuilt_cons h a p ps (take_first ps size) stop _ t.0 (link-take_first (after a p) ps size)
        (take_first_lem h (after a p) ps stop size (omega arith) t.1 small top (ground arith)))
]

-- The heap is the blocks `ps` before a pass of `alloc`, and is as said after it.
pub record Taken (ps : List Piece) (h : Heap) (size : ℕ) (result : Outcome (ℕ × Heap))
    : Type 0 where
  pub heap : Heap
  pub returns : result ≡ ok (first_fit h.heap_start ps size + meta_size, heap)
  pub is_heap : IsHeap heap (take_first ps size)
  pub same : SameBelow h.heap_start h heap

module _ {h : Heap} {ps : List Piece} (size : ℕ) (is : IsHeap h ps) where
  searched : find_block (rounds_for h) h h.free_list size ≡ ok (first_fit h.heap_start ps size)
  searched = simp is.list (
      find_block-first_fit (rounds_for h) h h.heap_start ps h.heap_end size is.pos is.tiles
        (omega (arith, Tiles-le h.headers h.heap_start ps h.heap_end is.tiles)))

  -- Without a block that is free and large enough a pass returns 0 and changes nothing.
  pub alloc_pass-full : first_fit h.heap_start ps size ≡ 0 → alloc_pass h size ≡ ok (0, h)
  unfolding alloc_pass
  alloc_pass-full none_fits = rw (searched, none_fits)

  pub alloc_pass-Taken :
      size ≤ heap_max → first_fit h.heap_start ps size ≢ 0 → Taken ps h size (alloc_pass h size)
  unfolding alloc_pass
  alloc_pass-Taken small ne =
      let r =
        take_first_lem h h.heap_start ps h.heap_end size is.pos is.tiles small
          (omega (arith, is.small, is.top)) ne in
      let found : (first_fit h.heap_start ps size == 0) ≡ false = ground arith in
      record {
        heap = r.heap;
        returns = rw (searched, found, r.returns);
        is_heap = Rebuilt-IsHeap is r (link-take_first h.heap_start ps size);
        same = r.same;
      }
