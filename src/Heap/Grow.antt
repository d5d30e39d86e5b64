-- ===== src/Heap/Grow.antt =====
-- `grow` and `alloc` (kernel/mm/heap.cpp) on a well-formed heap, over any frame allocator and page
-- tables.
use nokernel.Prelude.{
  ℕ, ◌+◌, ◌-◌, ◌*◌, ◌/◌, ◌^◌, ◌≤◌, ◌<◌, ◌≡◌, ◌≢◌, refl, Bool, true, false, List, [], ◌∷◌, ◌++◌, ltb,
  ◌==◌, ==_iff, arith, inl, inr, ◌⊎◌, Bool-cases,
}
use nokernel.Outcome.{Outcome, ok}
use nokernel.Word.{u64, align_up}
use nokernel.Word.Align.{align_up-4096}
use nokernel.Pmm.{frame_size}
use nokernel.Heap.{meta_size, heap_max, append_block}
use nokernel.Heap.Tiles.{Piece, IsHeap}
use nokernel.Heap.Append.{fresh, Appended, append_block-Appended}
use nokernel.Heap.Calls
use nokernel.Heap.Calls.{Mapper}

phys-ne : {phys : ℕ} → (phys == 0) ≡ false → phys ≢ 0
phys-ne {phys} e z = ground (arith)

-- The pages that hold a number of bytes.
abbrev pub pages_for : ℕ → ℕ
pages_for bytes = align_up bytes frame_size / frame_size

module _ (m : Mapper) where
  -- Why `grow` of `pages` pages fails: the heap would be too big; there are no frames; or they
  -- cannot be mapped, and are given back.
  abbrev pub Failed : Calls.System m → ℕ → Calls.System m → Type 0
  Failed s pages t =
      let (phys, memory) = m.alloc_frames s.memory pages in
      let (mapped, memory') = m.map_range memory s.heap.heap_end phys pages Calls.heap_flags in
      ((s.heap.heap_start + heap_max < s.heap.heap_end + pages * frame_size)
        × (t.memory ≡ s.memory))
      ⊎ (((phys ≡ 0) × (t.memory ≡ memory))
          ⊎ ((phys ≢ 0) × (mapped ≡ false) × (t.memory ≡ m.free_frames memory' phys pages)))

  -- What `grow` of `pages` pages does below the heap when it succeeds: it takes frames and maps them.
  abbrev pub Backed : Calls.System m → ℕ → Calls.System m → Type 0
  Backed s pages t =
      let (phys, memory) = m.alloc_frames s.memory pages in
      let (mapped, memory') = m.map_range memory s.heap.heap_end phys pages Calls.heap_flags in
      (phys ≢ 0) × (mapped ≡ true) × (t.memory ≡ memory')

  -- `grow` fails and leaves the heap as it is.
  pub record Kept (s : Calls.System m) (bytes : ℕ) (result : Outcome (Bool × Calls.System m))
      : Type 0 where
    pub system : Calls.System m
    pub returns : result ≡ ok (false, system)
    pub same : system.heap ≡ s.heap
    pub reason : Failed s (pages_for bytes) system

  -- `grow` adds a free block of whole pages at the end of the heap.
  pub record Grew (s : Calls.System m) (ps : List Piece) (bytes : ℕ)
      (result : Outcome (Bool × Calls.System m)) : Type 0 where
    pub system : Calls.System m
    pub returns : result ≡ ok (true, system)
    pub is_heap : IsHeap system.heap (ps ++ (fresh (pages_for bytes * frame_size - meta_size) ∷ []))
    pub same_start : system.heap.heap_start ≡ s.heap.heap_start
    pub is_backed : Backed s (pages_for bytes) system
    pub end_of : system.heap.heap_end ≡ s.heap.heap_end + pages_for bytes * frame_size

  module _ (s : Calls.System m) (p : Piece) (ps : List Piece) (is : IsHeap s.heap (p ∷ ps))
      (high : s.heap.heap_start + 2 * heap_max + 2 ^ 14 ≤ 2 ^ 64) (bytes : ℕ) (pos : 0 < bytes)
      (small : bytes ≤ heap_max + meta_size) where
    abbrev pages : ℕ
    pages = pages_for bytes

    pages_lem : (bytes ≤ pages * frame_size) × (pages * frame_size < bytes + frame_size)
    pages_lem = (omega (arith, align_up-4096 bytes), omega (arith, align_up-4096 bytes))

    abbrev guard : Bool
    guard =
        ltb (u64 (s.heap.heap_start + heap_max)) (u64 (s.heap.heap_end + u64 (pages * frame_size)))

    room : guard ≡ false → s.heap.heap_end + pages * frame_size ≤ s.heap.heap_start + heap_max
    room e = ground (arith, pages_lem, is.small)

    added : guard ≡ false → Appended s.heap (p ∷ ps) pages (append_block s.heap pages)
    added e = append_block-Appended p ps pages is (omega (arith, pages_lem)) (room e)

    -- On a well-formed heap that lies so low that its end cannot wrap, `grow` always returns: it
    -- reports failure and leaves the heap as it is, because the heap would be too big, because
    -- there are no frames, or because they cannot be mapped and are given back; or it reports
    -- success and the heap is well formed with one more free block, of as many pages as the
    -- rounded number of bytes takes.
    pub grow_lem :
        Kept s bytes (Calls.grow m s bytes) ⊎ Grew s (p ∷ ps) bytes (Calls.grow m s bytes)
    unfolding Calls.grow
    grow_lem = elim (Bool-cases guard) [
      | inl e ↦ rw e (
          inl (record {
            system = s;
            returns = refl;
            same = refl;
            reason = inl (ground (arith, pages_lem, is.top, is.small), refl);
          }))
      | inr e ↦
          let (phys, memory) = m.alloc_frames s.memory pages in
          elim (Bool-cases (phys == 0)) [
            | inl z ↦ inl (record {
              system = record s { memory = memory };
              returns = rw (e, z);
              same = refl;
              reason = inr (inl ((==_iff phys 0).0 z, refl));
            })
            | inr n ↦
                let (mapped, memory') =
                  m.map_range memory s.heap.heap_end phys pages Calls.heap_flags in
                elim (Bool-cases mapped) [
                  | inl y ↦ inr (record {
                    system = record { memory = memory'; heap = (added e).heap };
                    returns = rw (e, n, y, (added e).returns);
                    is_heap = (added e).is_heap;
                    same_start = (added e).same_start;
                    is_backed = (phys-ne n, y, refl);
                    end_of = (added e).end_of;
                  })
                  | inr f ↦ inl (record {
                    system = record s { memory = m.free_frames memory' phys pages };
                    returns = rw (e, n, f);
                    same = refl;
                    reason = inr (inr (phys-ne n, f, refl));
                  })
                ]
          ]
    ]
