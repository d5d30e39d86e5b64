-- ===== src/Machine/System.antt =====
-- The heap on the memory behind it (kernel/mm/heap.cpp over kernel/mm/vmm.cpp and kernel/mm/pmm.cpp).
use mathlib.Core.Path.{subst}
use nokernel.Prelude.{
  ℕ, ◌+◌, ◌*◌, ◌%◌, ◌^◌, ◌≤◌, ◌<◌, Bool, List, [], ◌∷◌, ◌≡◌, ◌≢◌, refl, sym, ap, ◌∙◌, some, inl,
  inr, arith,
}
use nokernel.Outcome.{ok}
use nokernel.Word.{align_up}
use nokernel.Pmm
use nokernel.Pmm.{frame_size}
use nokernel.Heap.{meta_size, heap_max}
use nokernel.Heap.Tiles.{Piece, Tiles, IsHeap}
use nokernel.Heap.Join.{block_at, block_at_bounds}
use nokernel.Heap.Safety.{free-Freed}
use nokernel.Heap.Calls
use nokernel.Heap.Grow.{Failed, Backed, pages_for}
use nokernel.Heap.Alloc.{Below, Allocated, alloc-Allocated}
use nokernel.Vmm
use nokernel.Machine.{Memory, machine, take_frames}
use nokernel.Machine.Frames.{IsHeld, with_range}
use nokernel.Machine.Backed.{Backs, refused-take_frames, mapped-Backs, given-Backs}

-- The heap is well formed, lies on whole pages, and each of its addresses translates to its place in
-- a frame that is neither free nor a page table.
pub record IsSystem (s : Calls.System machine) : Type 0 where
  pub owned : ℕ → Bool
  pub blocks : List Piece
  pub is_heap : IsHeap s.heap blocks
  pub some_room : s.heap.heap_start < s.heap.heap_end
  pub aligned : s.heap.heap_end % 4096 ≡ 0
  pub low : s.heap.heap_start + 2 * heap_max + 2 ^ 14 ≤ 2 ^ 64
  pub backed : Backs s.memory owned s.heap.heap_start s.heap.heap_end

-- What the heap does to the memory keeps its addresses backed.
module _ (s t : Calls.System machine) (pages : ℕ) (owned : ℕ → Bool)
    (aligned : s.heap.heap_end % 4096 ≡ 0) (small : s.heap.heap_end < 2 ^ 64)
    (backed : Backs s.memory owned s.heap.heap_start s.heap.heap_end) where
  abbrev first : ℕ
  first = (Pmm.alloc_frames s.memory.frames pages).0

  -- The heap did not grow.
  refusal-Backs : Failed machine s pages t → Backs t.memory owned s.heap.heap_start s.heap.heap_end
  unfolding take_frames
  refusal-Backs (inl (big, same)) =
      subst (λ (m : Memory). Backs m owned s.heap.heap_start s.heap.heap_end) (sym same) backed
  refusal-Backs (inr (inl (null, same))) =
      subst (λ (m : Memory). Backs m owned s.heap.heap_start s.heap.heap_end)
        (sym (
          same
          ∙ refused-take_frames owned s.memory s.heap.heap_start s.heap.heap_end pages backed null))
        backed
  refusal-Backs (inr (inr (ne, unmapped, same))) =
      subst (λ (m : Memory). Backs m owned s.heap.heap_start s.heap.heap_end) (sym same)
        (given-Backs owned s.memory s.heap.heap_start s.heap.heap_end pages Calls.heap_flags backed
          aligned small refl ne unmapped)

  grown-Backs :
      Backed machine s pages t
      → Backs t.memory
          (with_range owned first pages)
          s.heap.heap_start
          (s.heap.heap_end + pages * frame_size)
  unfolding take_frames
  grown-Backs (ne, done, same) =
      subst
        (λ (m : Memory).
          Backs m (with_range owned first pages) s.heap.heap_start
            (s.heap.heap_end + pages * frame_size))
        (sym same)
        (mapped-Backs owned s.memory s.heap.heap_start s.heap.heap_end pages Calls.heap_flags backed
          aligned small refl ne done)

  after-Backs :
      Below machine s pages t
      → (owned' : ℕ → Bool) × Backs t.memory owned' s.heap.heap_start t.heap.heap_end
        × (s.heap.heap_end ≤ t.heap.heap_end)
        × (t.heap.heap_end % 4096 ≡ 0)
  after-Backs (inl (same, end)) = (
    owned,
    subst (λ (m : Memory). Backs m owned s.heap.heap_start t.heap.heap_end) (sym same)
        (subst (λ (e : ℕ). Backs s.memory owned s.heap.heap_start e) (sym end) backed),
    omega (arith, end),
    ap (λ (e : ℕ). e % 4096) end ∙ aligned,
  )
  after-Backs (inr (inl (end, failed))) = (
    owned,
    subst (λ (e : ℕ). Backs t.memory owned s.heap.heap_start e) (sym end) (refusal-Backs failed),
    omega (arith, end),
    ap (λ (e : ℕ). e % 4096) end ∙ aligned,
  )
  after-Backs (inr (inr (end, grew))) = (
    with_range owned first pages,
    subst (λ (e : ℕ). Backs t.memory (with_range owned first pages) s.heap.heap_start e) (sym end)
        (grown-Backs grew),
    omega (arith, end),
    omega (arith, end, aligned),
  )

-- Each of `count` bytes from `a` on has its place in a held frame.
unfoldable pub BytesBacked : Calls.System machine → (ℕ → Bool) → ℕ → ℕ → Type 0
BytesBacked s owned a count =
    (x : ℕ)
    → a ≤ x
    → x < a + count
    → (f : ℕ) × IsHeld owned f × (Vmm.translate Pmm.alloc_frame s.memory x ≡ f + x % 4096)

-- The heap has a first block.
first_block :
    (s : Calls.System machine) (is : IsSystem s)
    → (p : Piece) × (ps : List Piece) × (is.blocks ≡ p ∷ ps)
first_block s is = go is.blocks refl is.is_heap.tiles
  where
    go :
        (qs : List Piece)
        → is.blocks ≡ qs
        → Tiles s.heap.headers s.heap.heap_start qs s.heap.heap_end
        → (p : Piece) × (ps : List Piece) × (is.blocks ≡ p ∷ ps)
    go [] e t = absurd (omega (arith, is.some_room, t))
    go (p ∷ ps) e t = (p, ps, e)

module _ (s : Calls.System machine) (is : IsSystem s) (size : ℕ) (p : Piece) (ps : List Piece)
    (e : is.blocks ≡ p ∷ ps) where
  called : Allocated machine s (p ∷ ps) size (Calls.alloc machine s size)
  called = alloc-Allocated machine s p ps size (subst (IsHeap s.heap) e is.is_heap) is.low

  abbrev asked : ℕ
  asked = pages_for (align_up size 16 + meta_size)

  abbrev result : Calls.System machine
  result = called.system

  backing :
      (owned' : ℕ → Bool) × Backs result.memory owned' s.heap.heap_start result.heap.heap_end
      × (s.heap.heap_end ≤ result.heap.heap_end)
      × (result.heap.heap_end % 4096 ≡ 0)
  backing =
      after-Backs s result asked is.owned is.aligned
        (omega (arith, is.is_heap.small, is.is_heap.top)) is.backed called.below

  called-IsSystem : IsSystem result
  called-IsSystem = record {
    owned = backing.0;
    blocks = called.blocks;
    is_heap = called.is_heap;
    some_room = omega (arith, called.same_start, backing.2, is.some_room);
    aligned = backing.3;
    low = omega (arith, called.same_start, is.low);
    backed =
        subst (λ (a : ℕ). Backs result.memory backing.0 a result.heap.heap_end)
          (sym called.same_start) backing.1;
  }

  called-BytesBacked :
      called.address ≢ 0 → BytesBacked result called-IsSystem.owned called.address size
  unfolding BytesBacked Backs called-IsSystem
  called-BytesBacked ne x low high = elim called.given [
    | inl null ↦ absurd (ne null.0)
    | inr new ↦
        let bounds =
          block_at_bounds result.heap.headers s.heap.heap_start called.blocks result.heap.heap_end
            new.place new.block
            (subst (λ (a : ℕ). Tiles result.heap.headers a called.blocks result.heap.heap_end)
              called.same_start called.is_heap.tiles)
            new.in_use.0 in
        backing.1.1 x (omega (arith, bounds, new.behind_header))
          (omega (arith, bounds, new.behind_header, new.large))
  ]

-- On a system whose heap is well formed and backed by frames of its own, alloc of any size
-- returns, and leaves such a system, also when it has grown the heap or has failed to. An
-- address that is not null is that of bytes which the page tables translate to frames that are
-- neither free in the bitmap nor page tables.
pub alloc-IsSystem :
    (s : Calls.System machine) (size : ℕ)
    → IsSystem s
    → (a : ℕ) × (t : Calls.System machine) × (Calls.alloc machine s size ≡ ok (a, t))
      × (is : IsSystem t) × (a ≢ 0 → BytesBacked t is.owned a size)
alloc-IsSystem s size is =
    let (p, ps, e) = first_block s is in
    (
      (called s is size p ps e).address,
      (called s is size p ps e).system,
      (called s is size p ps e).returns,
      called-IsSystem s is size p ps e,
      called-BytesBacked s is size p ps e,
    )

-- `operator delete` of the data of any block of such a system returns and leaves such a system.
pub operator_delete-IsSystem :
    (s : Calls.System machine) (is : IsSystem s) (x : ℕ) (b : Piece)
    → block_at s.heap.heap_start is.blocks x ≡ some b
    → (t : Calls.System machine) × (Calls.operator_delete machine s (x + meta_size) ≡ ok t)
      × IsSystem t
unfolding Calls.operator_delete
operator_delete-IsSystem s is x b at =
    let r = free-Freed x b is.is_heap at in
    (
      record s { heap = r.heap },
      rw r.returns refl,
      record {
        owned = is.owned;
        blocks = r.blocks;
        is_heap = r.is_heap;
        some_room = omega (arith, r.same_start, r.same_end, is.some_room);
        aligned = ap (λ (k : ℕ). k % 4096) r.same_end ∙ is.aligned;
        low = omega (arith, r.same_start, is.low);
        backed =
            subst (λ (k : ℕ). Backs s.memory is.owned k r.heap.heap_end) (sym r.same_start)
              (subst (λ (k : ℕ). Backs s.memory is.owned s.heap.heap_start k) (sym r.same_end)
                is.backed);
      },
    )
