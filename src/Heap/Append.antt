-- ===== src/Heap/Append.antt =====
-- What `grow` (kernel/mm/heap.cpp) does to the list: one free block more, at the end.
use nokernel.Prelude.{
  ℕ, zero, suc, ◌+◌, ◌-◌, ◌*◌, ◌≤◌, ◌<◌, ◌≡◌, refl, true, some, List, [], ◌∷◌, ◌++◌, length, arith,
  ◌∙◌, sym,
}
use mathlib.Core.Path.{subst}
use nokernel.Outcome.{Outcome, ok}
use nokernel.Word.{u64, sub64}
use nokernel.Pmm.{frame_size}
use nokernel.Heap.{
  Heap, meta_size, heap_max, store, rounds_for, last_block, link_last, append_block,
}
use nokernel.Heap.Tiles.{
  Piece, after, header, Tiles, Tiles-le, Tiles-frame_below, load-header, link-ne, IsHeap, Rebuilt,
  Rebuilt_cons, SameBelow-store, Tiles-store,
}

-- The new block.
abbrev pub fresh : ℕ → Piece
fresh size = record { size = size; is_free = true }

module _ (stop size : ℕ) where
  link_last_lem :
      (rounds : ℕ) (h : Heap) (a : ℕ) (p : Piece) (ps : List Piece)
      → 0 < a
      → Tiles h.headers a (p ∷ ps) stop
      → h.headers stop ≡ some (header stop (fresh size) [])
      → length ps < rounds
      → Rebuilt a h
          ((p ∷ ps) ++ (fresh size ∷ []))
          (after stop (fresh size))
          (link_last rounds h a stop)
  unfolding link_last last_block
  link_last_lem zero h a p ps pos t new fuel = absurd (omega arith)
  link_last_lem (suc rounds) h a p [] pos t new fuel = record {
    heap = store h a (header a p (fresh size ∷ []));
    returns = rw (load-header h pos t.0, load-header h pos t.0, t.1);
    tiles = Tiles-store h a p (fresh size ∷ []) (after stop (fresh size)) (rw t.1 (new, refl));
    same = SameBelow-store h a a _ (omega arith);
  }
  link_last_lem (suc rounds) h a p (q ∷ qs) pos t new fuel =
      rw (load-header h pos t.0, link-ne (after a p) q qs (omega arith))
        (Rebuilt_cons h a p (q ∷ qs) ((q ∷ qs) ++ (fresh size ∷ [])) (after stop (fresh size)) _ t.0
          refl (link_last_lem rounds h (after a p) q qs (omega arith) t.1 new (omega arith)))

-- The heap with one more free block of `pages` pages, its header included.
pub record Appended (h : Heap) (ps : List Piece) (pages : ℕ) (result : Outcome Heap) : Type 0 where
  pub heap : Heap
  pub returns : result ≡ ok heap
  pub is_heap : IsHeap heap (ps ++ (fresh (pages * frame_size - meta_size) ∷ []))
  pub same_start : heap.heap_start ≡ h.heap_start
  pub end_of : heap.heap_end ≡ h.heap_end + pages * frame_size

module _ {h : Heap} (p : Piece) (ps : List Piece) (pages : ℕ) (is : IsHeap h (p ∷ ps))
    (pos : 0 < pages) (room : h.heap_end + pages * frame_size ≤ h.heap_start + heap_max) where
  abbrev piece : Piece
  piece = fresh (pages * frame_size - meta_size)

  abbrev stored : Heap
  stored = store h h.heap_end (header h.heap_end piece [])

  stored-Tiles : Tiles stored.headers h.heap_start (p ∷ ps) h.heap_end
  stored-Tiles =
      Tiles-frame_below {hd = h.headers} h.heap_start (p ∷ ps) h.heap_end
        (λ x lt. unfold store in ground arith) is.tiles

  stored_new : stored.headers h.heap_end ≡ some (header h.heap_end piece [])
  stored_new = unfold store in ground arith

  linked :
      Rebuilt h.heap_start stored
        ((p ∷ ps) ++ (piece ∷ []))
        (after h.heap_end piece)
        (link_last (rounds_for h) stored h.heap_start h.heap_end)
  linked =
      link_last_lem h.heap_end (pages * frame_size - meta_size) (rounds_for h) stored h.heap_start p
        ps is.pos stored-Tiles stored_new
        (omega (arith, Tiles-le h.headers h.heap_start (p ∷ ps) h.heap_end is.tiles))

  no_wrap : u64 (pages * frame_size) ≡ pages * frame_size
  no_wrap = omega (arith, is.top)

  block_size : sub64 (pages * frame_size) meta_size ≡ pages * frame_size - meta_size
  block_size = omega (arith, is.top)

  new_end : u64 (h.heap_end + pages * frame_size) ≡ h.heap_end + pages * frame_size
  new_end = omega (arith, is.top)

  ends : after h.heap_end piece ≡ h.heap_end + pages * frame_size
  ends = omega arith

  list_lem : stored.free_list ≡ h.heap_start
  list_lem = unfold store in is.list

  start_lem : linked.heap.heap_start ≡ h.heap_start
  start_lem = linked.same.same_start ∙ unfold store in refl

  -- On a well-formed heap that has room for them, what `grow` writes for a positive number of new
  -- pages appends one free block of these pages to the blocks of the heap, and moves the end of the
  -- heap by them.
  pub append_block-Appended : Appended h (p ∷ ps) pages (append_block h pages)
  append_block-Appended = record {
    heap = record linked.heap { heap_end = h.heap_end + pages * frame_size };
    returns = unfold append_block in simp (no_wrap, block_size, list_lem, linked.returns, new_end);
    is_heap = record {
      tiles =
          subst
            (λ a.
              Tiles linked.heap.headers a ((p ∷ ps) ++ (piece ∷ []))
                (h.heap_end + pages * frame_size))
            (sym start_lem)
            (subst (Tiles linked.heap.headers h.heap_start ((p ∷ ps) ++ (piece ∷ []))) ends
              linked.tiles);
      list = linked.same.same_list ∙ list_lem ∙ sym start_lem;
      pos = rw start_lem is.pos;
      small = rw start_lem room;
      top = rw start_lem is.top;
    };
    same_start = linked.same.same_start ∙ unfold store in refl;
    end_of = refl;
  }
