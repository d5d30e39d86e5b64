-- ===== src/Heap/Join.antt =====
-- `free` (kernel/mm/heap.cpp): a block becomes free, and neighbours that are free are joined.
use nokernel.Prelude.{
  ℕ, zero, suc, ◌+◌, ◌^◌, ◌≤◌, ◌<◌, ◌≡◌, ◌≢◌, refl, true, false, ◌&&◌, Option, none, some, List, [],
  ◌∷◌, length, ◌==◌, ==_iff, if◌then◌else◌, arith, inl, inr, Bool-cases, ◌∙◌,
}
use nokernel.Outcome.{Outcome, ok}
use nokernel.Word.{u64, sub64}
use nokernel.Heap.{Heap, meta_size, load, store, rounds_for, mark_free, cleanup, free}
use nokernel.Heap.Tiles.{
  Piece, after, link, header, Headers, Tiles, Tiles-le, load-header, link-ne, IsHeap, Rebuilt,
  Rebuilt_cons, Rebuilt-IsHeap, SameBelow-store, SameBelow-trans, Tiles-store,
}

-- The blocks once each run of free blocks is one block, from a first block on.
unfoldable pub absorb : Piece → List Piece → List Piece
absorb p [] = p ∷ []
absorb p (q ∷ qs) = elim (p.is_free && q.is_free) [
  | true ↦ absorb (record p { size = p.size + (meta_size + q.size) }) qs
  | false ↦ p ∷ absorb q qs
]

unfoldable pub coalesce : List Piece → List Piece
unfolding absorb
coalesce [] = []
coalesce (p ∷ ps) = absorb p ps

module _ (p q : Piece) (qs : List Piece) where
  pub absorb-join :
      (p.is_free && q.is_free) ≡ true
      → absorb p (q ∷ qs) ≡ absorb (record p { size = p.size + (meta_size + q.size) }) qs
  unfolding absorb
  absorb-join e = rw (absorb, e)

  pub absorb-skip : (p.is_free && q.is_free) ≡ false → absorb p (q ∷ qs) ≡ p ∷ absorb q qs
  unfolding absorb
  absorb-skip e = rw (absorb, e)

link-absorb : (a : ℕ) (p : Piece) (ps : List Piece) → link a (absorb p ps) ≡ a
unfolding absorb
link-absorb a p [] = refl
link-absorb a p (q ∷ qs) =
    ground (arith, link-absorb a (record p { size = p.size + (meta_size + q.size) }) qs)

module _ (stop : ℕ) (top : stop < 2 ^ 64) where
  module _ (rounds : ℕ) (h : Heap) (a : ℕ) (p q : Piece) (qs : List Piece) (pos : 0 < a)
      (t : Tiles h.headers a (p ∷ q ∷ qs) stop) where
    abbrev merged : Piece
    merged = record p { size = p.size + (meta_size + q.size) }

    abbrev joined : Heap
    joined = store h a (header a merged qs)

    ends : after a merged ≡ after (after a p) q
    ends = omega arith

    no_wrap : u64 (p.size + u64 (meta_size + q.size)) ≡ p.size + (meta_size + q.size)
    no_wrap = omega (arith, Tiles-le h.headers (after (after a p) q) qs stop t.1.1)

    load_next : load h (after a p) ≡ ok (header (after a p) q qs)
    load_next = load-header h (omega arith) t.1.0

    cleanup-join :
        (p.is_free && q.is_free) ≡ true → cleanup (suc rounds) h a ≡ cleanup rounds joined a
    unfolding cleanup
    cleanup-join e = rw (
      link-ne a p qs pos,
      load-header h pos t.0,
      link-ne (after a p) q qs (omega arith),
      load_next,
      e,
      no_wrap,
      ends,
    )

    cleanup-skip :
        (p.is_free && q.is_free) ≡ false → cleanup (suc rounds) h a ≡ cleanup rounds h (after a p)
    unfolding cleanup
    cleanup-skip e = rw (
      link-ne a p qs pos,
      load-header h pos t.0,
      link-ne (after a p) q qs (omega arith),
      load_next,
      e,
    )

    joined-Tiles : Tiles joined.headers a (merged ∷ qs) stop
    joined-Tiles = Tiles-store h a merged qs stop (rw ends t.1.1)

  -- The loop of `free` joins every run of free blocks.
  cleanup_lem :
      (rounds : ℕ) (h : Heap) (a : ℕ) (p : Piece) (ps : List Piece)
      → 0 < a
      → Tiles h.headers a (p ∷ ps) stop
      → length ps < rounds
      → Rebuilt a h (absorb p ps) stop (cleanup rounds h a)
  cleanup_lem zero h a p ps pos t fuel = absurd (omega arith)
  cleanup_lem (suc rounds) h a p [] pos t fuel = record {
    heap = h;
    returns = unfold cleanup in rw (link-ne a p [] pos, load-header h pos t.0);
    tiles = unfold absorb in t;
    same = record { same_start = refl; same_end = refl; same_list = refl; below = λ x l. refl };
  }
  cleanup_lem (suc rounds) h a p (q ∷ qs) pos t fuel = elim (Bool-cases (p.is_free && q.is_free)) [
    | inl e ↦
        let rest =
          cleanup_lem rounds (joined rounds h a p q qs pos t) a (merged rounds h a p q qs pos t) qs
            pos (joined-Tiles rounds h a p q qs pos t) (omega arith) in
        rw (cleanup-join rounds h a p q qs pos t e) (record {
          heap = rest.heap;
          returns = rest.returns;
          tiles = rw (absorb-join p q qs e) rest.tiles;
          same = SameBelow-trans (omega arith) (SameBelow-store h a a _ (omega arith)) rest.same;
        })
    | inr e ↦
        let rest = cleanup_lem rounds h (after a p) q qs (omega arith) t.1 (omega arith) in
        rw (cleanup-skip rounds h a p q qs pos t e) (
          rw (absorb-skip p q qs e) (
            Rebuilt_cons h a p (q ∷ qs) (absorb q qs) stop _ t.0 (link-absorb (after a p) q qs)
              rest))
  ]

-- The block that begins at address `x`.
unfoldable pub block_at : ℕ → List Piece → ℕ → Option Piece
block_at a [] x = none
block_at a (p ∷ ps) x = if a == x then some p else block_at (after a p) ps x

-- The blocks once the one at `x` is free.
unfoldable pub release : ℕ → List Piece → ℕ → List Piece
release a [] x = []
release a (p ∷ ps) x =
    if a == x then record p { is_free = true } ∷ ps else p ∷ release (after a p) ps x

link-release : (a : ℕ) (ps : List Piece) (x : ℕ) → link a (release a ps x) ≡ link a ps
unfolding release
link-release a [] x = refl
link-release a (p ∷ ps) x = ground arith

mark_free_lem :
    (h : Heap) (a : ℕ) (ps : List Piece) (stop x : ℕ) (b : Piece)
    → 0 < a
    → Tiles h.headers a ps stop
    → block_at a ps x ≡ some b
    → Rebuilt a h (release a ps x) stop (mark_free h x)
unfolding block_at release
mark_free_lem h a [] stop x b pos t at = cc
mark_free_lem h a (p ∷ ps) stop x b pos t at = elim (Bool-cases (a == x)) [
  | inl e ↦
      rw (e, ← (==_iff a x).0 e)
        (record {
          heap = store h a (header a (record p { is_free = true }) ps);
          returns = unfold mark_free in rw (load-header h pos t.0);
          tiles = Tiles-store h a (record p { is_free = true }) ps stop t.1;
          same = SameBelow-store h a a _ (omega arith);
        })
  | inr e ↦ rw e (
      Rebuilt_cons h a p ps (release (after a p) ps x) stop _ t.0 (link-release (after a p) ps x)
        (mark_free_lem h (after a p) ps stop x b (omega arith) t.1 (ground arith)))
]

coalesce_lem :
    (h : Heap) (ps : List Piece)
    → IsHeap h ps
    → ps ≢ []
    → Rebuilt h.heap_start h (coalesce ps) h.heap_end (cleanup (rounds_for h) h h.free_list)
unfolding coalesce
coalesce_lem h [] is ne = absurd (ne refl)
coalesce_lem h (p ∷ ps) is ne = simp is.list (
    cleanup_lem h.heap_end (omega (arith, is.small, is.top)) (rounds_for h) h h.heap_start p ps
      is.pos is.tiles (omega (arith, Tiles-le h.headers h.heap_start (p ∷ ps) h.heap_end is.tiles)))

link-coalesce : (a : ℕ) (ps : List Piece) → link a (coalesce ps) ≡ link a ps
unfolding coalesce
link-coalesce a [] = refl
link-coalesce a (p ∷ ps) = link-absorb a p ps

release-ne :
    (a : ℕ) (ps : List Piece) (x : ℕ) {b : Piece} → block_at a ps x ≡ some b → release a ps x ≢ []
unfolding release block_at
release-ne a [] x at = cc
release-ne a (p ∷ ps) x at = ground arith

-- A block lies between the ends of the memory that holds it.
pub block_at_bounds :
    (hd : Headers) (a : ℕ) (ps : List Piece) (stop x : ℕ) (b : Piece)
    → Tiles hd a ps stop
    → block_at a ps x ≡ some b
    → (a ≤ x) × (after x b ≤ stop)
unfolding block_at
block_at_bounds hd a [] stop x b t at = cc
block_at_bounds hd a (p ∷ ps) stop x b t at =
    ground
      (arith, block_at_bounds hd (after a p) ps stop x b t.1, Tiles-le hd (after a p) ps stop t.1)

-- A call of `free` on the block at `x`: the block becomes free, and runs of free blocks are joined.
pub record Released (h : Heap) (ps : List Piece) (x : ℕ) (result : Outcome Heap) : Type 0 where
  pub heap : Heap
  pub returns : result ≡ ok heap
  pub is_heap : IsHeap heap (coalesce (release h.heap_start ps x))
  pub same_end : heap.heap_end ≡ h.heap_end
  pub same_start : heap.heap_start ≡ h.heap_start

module _ {h : Heap} {ps : List Piece} (x : ℕ) (b : Piece) (is : IsHeap h ps)
    (at : block_at h.heap_start ps x ≡ some b) where
  marked : Rebuilt h.heap_start h (release h.heap_start ps x) h.heap_end (mark_free h x)
  marked = mark_free_lem h h.heap_start ps h.heap_end x b is.pos is.tiles at

  marked-IsHeap : IsHeap marked.heap (release h.heap_start ps x)
  marked-IsHeap = Rebuilt-IsHeap is marked (link-release h.heap_start ps x)

  swept :
      Rebuilt marked.heap.heap_start marked.heap
        (coalesce (release h.heap_start ps x))
        marked.heap.heap_end
        (cleanup (rounds_for marked.heap) marked.heap marked.heap.free_list)
  swept =
      coalesce_lem marked.heap (release h.heap_start ps x) marked-IsHeap
        (release-ne h.heap_start ps x at)

  pub free-Released : Released h ps x (free h (x + meta_size))
  unfolding free
  free-Released =
      let bounds = block_at_bounds h.headers h.heap_start ps h.heap_end x b is.tiles at in
      let there : (x + meta_size == 0) ≡ false = ground (arith, bounds, is.pos) in
      let back : sub64 (x + meta_size) meta_size ≡ x = omega (arith, bounds, is.small, is.top) in
      record {
        heap = swept.heap;
        returns = rw (there, back, marked.returns) swept.returns;
        is_heap = Rebuilt-IsHeap marked-IsHeap swept (link-coalesce _ (release h.heap_start ps x));
        same_end = swept.same.same_end ∙ marked.same.same_end;
        same_start = swept.same.same_start ∙ marked.same.same_start;
      }
