-- ===== src/Heap/Alloc.antt =====
-- `alloc` (kernel/mm/heap.cpp) with the call of itself that follows `grow`.
use nokernel.Prelude.{
  ℕ, suc, ◌+◌, ◌-◌, ◌*◌, ◌^◌, ◌≤◌, ◌<◌, ◌≡◌, ◌≢◌, refl, true, false, ◌||◌, List, [], ◌∷◌, ◌++◌, ltb,
  ◌==◌, ==_iff, if◌then◌else◌, arith, inl, inr, ◌⊎◌, Bool-cases, ◌∙◌, ap,
}
use nokernel.Outcome.{Outcome, ok, ◌>>=◌}
use nokernel.Word.{u64, align_up}
use nokernel.Word.Align.{align_up-16, align_up-4096}
use nokernel.Pmm.{frame_size}
use nokernel.Heap.{Heap, meta_size, heap_max, alloc_pass}
use nokernel.Heap.Tiles.{Piece, after, IsHeap, first_fit, usable}
use nokernel.Heap.Take.{alloc_pass-full}
use nokernel.Heap.Join.{block_at}
use nokernel.Heap.Blocks.{InUse}
use nokernel.Heap.Safety.{Grant, alloc_pass-Grant}
use nokernel.Heap.Append.{fresh}
use nokernel.Heap.Calls
use nokernel.Heap.Calls.{Mapper}
use nokernel.Heap.Grow.{Failed, Backed, Kept, Grew, grow_lem, pages_for}

first_fit-append :
    (a : ℕ) (ps : List Piece) (q : Piece) (size : ℕ)
    → 0 < a
    → usable size q ≡ true
    → first_fit a (ps ++ (q ∷ [])) size ≢ 0
unfolding first_fit
first_fit-append a [] q size pos fits = ground arith
first_fit-append a (p ∷ ps) q size pos fits =
    ground (arith, first_fit-append (after a p) ps q size (omega arith) fits)

InUse_append :
    (a : ℕ) (ps qs : List Piece) (y : ℕ) (c : Piece) → InUse a ps y c → InUse a (ps ++ qs) y c
unfolding block_at
InUse_append a [] qs y c u = cc (u.0)
InUse_append a (p ∷ ps) qs y c u = ground (arith, InUse_append (after a p) ps qs y c)

module _ (m : Mapper) where
  -- The bytes at `address` are a block in use of at least `size` bytes, apart from those that were
  -- in use among the blocks `ps` from `start` on.
  pub record IsNew (start : ℕ) (ps blocks : List Piece) (size address : ℕ) : Type 0 where
    pub place : ℕ
    pub block : Piece
    pub behind_header : address ≡ place + meta_size
    pub in_use : InUse start blocks place block
    pub large : size ≤ block.size
    pub apart :
        (y : ℕ) (c : Piece) → InUse start ps y c → (after y c ≤ place) ⊎ (after place block ≤ y)

  -- Why `alloc` returns null.
  abbrev pub Fails : Calls.System m → List Piece → ℕ → Type 0
  Fails s ps size =
      (size ≡ 0)
      ⊎ ((heap_max < size)
          ⊎ ((first_fit s.heap.heap_start ps (align_up size 16) ≡ 0)
              × Kept m s (align_up size 16 + meta_size)
                  (Calls.grow m s (align_up size 16 + meta_size))))

  -- What became of the memory below the heap: nothing; `grow` of so many pages failed; or it
  -- succeeded.
  abbrev pub Below : Calls.System m → ℕ → Calls.System m → Type 0
  Below s pages t =
      ((t.memory ≡ s.memory) × (t.heap.heap_end ≡ s.heap.heap_end))
      ⊎ (((t.heap.heap_end ≡ s.heap.heap_end) × Failed m s pages t)
          ⊎ ((t.heap.heap_end ≡ s.heap.heap_end + pages * frame_size) × Backed m s pages t))

  -- A call of `alloc` for `size` bytes on a heap of the blocks `ps`.
  pub record Allocated (s : Calls.System m) (ps : List Piece) (size : ℕ)
      (result : Outcome (ℕ × Calls.System m)) : Type 0 where
    pub system : Calls.System m
    pub address : ℕ
    pub blocks : List Piece
    pub returns : result ≡ ok (address, system)
    pub is_heap : IsHeap system.heap blocks
    pub same_start : system.heap.heap_start ≡ s.heap.heap_start
    pub below : Below s (pages_for (align_up size 16 + meta_size)) system
    pub kept :
        (y : ℕ) (c : Piece) → InUse s.heap.heap_start ps y c → InUse s.heap.heap_start blocks y c
    pub given : ((address ≡ 0) × Fails s ps size) ⊎ IsNew s.heap.heap_start ps blocks size address

  module _ (n : ℕ) (s : Calls.System m) (ps : List Piece) (is : IsHeap s.heap ps) (size : ℕ)
      (pos : 0 < size) (small : size ≤ heap_max) where
    abbrev rounded : ℕ
    rounded = align_up size 16

    rounded_lem : (size ≤ rounded) × (rounded ≤ heap_max)
    rounded_lem = (omega (arith, align_up-16 size), omega (arith, align_up-16 size))

    granted :
        first_fit s.heap.heap_start ps rounded ≢ 0
        → Grant s.heap ps rounded (alloc_pass s.heap rounded)
    granted fit = alloc_pass-Grant rounded is rounded_lem.1 fit

    granted-returns :
        (fit : first_fit s.heap.heap_start ps rounded ≢ 0)
        → Calls.alloc_tries m (suc n) s size
          ≡ ok ((granted fit).address + meta_size, record s { heap = (granted fit).heap })
    unfolding Calls.alloc_tries
    granted-returns fit =
        let guard : (size == 0 || ltb heap_max size) ≡ false = ground arith in
        let found : ((granted fit).address + meta_size == 0) ≡ false = ground arith in
        rw (guard, (granted fit).returns, found)

    full-returns :
        first_fit s.heap.heap_start ps rounded ≡ 0
        → Calls.alloc_tries m (suc n) s size ≡ (
            Calls.grow m s (rounded + meta_size) >>= λ (grown, s').
            if grown then Calls.alloc_tries m n s' rounded else ok (0, s'))
    unfolding Calls.alloc_tries
    full-returns none_fits =
        let guard : (size == 0 || ltb heap_max size) ≡ false = ground arith in
        let sum : u64 (rounded + meta_size) ≡ rounded + meta_size = omega (arith, rounded_lem) in
        rw (guard, alloc_pass-full rounded is none_fits, sum)

  refused-Allocated :
      (s : Calls.System m) (p : Piece) (ps : List Piece) (size : ℕ)
      → IsHeap s.heap (p ∷ ps)
      → (size == 0 || ltb heap_max size) ≡ true
      → Allocated s (p ∷ ps) size (Calls.alloc m s size)
  unfolding Calls.alloc_tries Calls.alloc
  refused-Allocated s p ps size is e = record {
    system = s;
    address = 0;
    blocks = p ∷ ps;
    returns = rw e;
    is_heap = is;
    same_start = refl;
    below = inl (refl, refl);
    kept = λ y c u. u;
    given = inl (
      refl,
      elim (Bool-cases (size == 0)) [
        | inl z ↦ inl ((==_iff size 0).0 z)
        | inr n ↦ inr (inl (ground arith))
      ],
    );
  }

  -- The round that finds a block.
  module _ (n : ℕ) (s : Calls.System m) (ps : List Piece) (is : IsHeap s.heap ps) (size : ℕ)
      (pos : 0 < size) (small : size ≤ heap_max)
      (fit : first_fit s.heap.heap_start ps (align_up size 16) ≢ 0) where
    abbrev g : Grant s.heap ps (align_up size 16) (alloc_pass s.heap (align_up size 16))
    g = granted n s ps is size pos small fit

    found-Allocated : Allocated s ps size (Calls.alloc_tries m (suc n) s size)
    found-Allocated = record {
      system = record s { heap = g.heap };
      address = g.address + meta_size;
      blocks = g.blocks;
      returns = granted-returns n s ps is size pos small fit;
      is_heap = g.is_heap;
      same_start = g.same_start;
      below = inl (refl, g.same_end);
      kept = λ y c u. simp g.same_start at (g.kept y c u);
      given = inr (record {
        place = g.address;
        block = g.block;
        behind_header = refl;
        in_use = simp g.same_start at g.in_use;
        large = omega (arith, g.large, rounded_lem n s ps is size pos small);
        apart = g.apart;
      });
    }

  -- The round that grows the heap, and the one after it.
  module _ (n : ℕ) (s : Calls.System m) (p : Piece) (ps : List Piece) (is : IsHeap s.heap (p ∷ ps))
      (high : s.heap.heap_start + 2 * heap_max + 2 ^ 14 ≤ 2 ^ 64) (size : ℕ) (pos : 0 < size)
      (small : size ≤ heap_max)
      (full : first_fit s.heap.heap_start (p ∷ ps) (align_up size 16) ≡ 0) where
    abbrev asked : ℕ
    asked = align_up size 16 + meta_size

    Kept-Allocated :
        Kept m s asked (Calls.grow m s asked)
        → Allocated s (p ∷ ps) size (Calls.alloc_tries m (suc n) s size)
    Kept-Allocated k = record {
      system = k.system;
      address = 0;
      blocks = p ∷ ps;
      returns = full-returns n s (p ∷ ps) is size pos small full ∙ rw k.returns;
      is_heap = simp k.same is;
      same_start = ap (λ (h : Heap). h.heap_start) k.same;
      below = inr (inl (ap (λ (h : Heap). h.heap_end) k.same, k.reason));
      kept = λ y c u. u;
      given = inl (refl, inr (inr (full, k)));
    }

    abbrev more : List Piece
    more = p ∷ ps ++ (fresh (pages_for asked * frame_size - meta_size) ∷ [])

    module _ (k : Grew m s (p ∷ ps) asked (Calls.grow m s asked)) where
      rounded_small : align_up size 16 ≤ heap_max
      rounded_small = (rounded_lem (suc n) s (p ∷ ps) is size pos small).1

      rounded_pos : 0 < align_up size 16
      rounded_pos = omega (arith, rounded_lem (suc n) s (p ∷ ps) is size pos small)

      again : align_up (align_up size 16) 16 ≡ align_up size 16
      again = omega (arith, align_up-16 size, align_up-16 (align_up size 16), rounded_small)

      fits : first_fit k.system.heap.heap_start more (align_up (align_up size 16) 16) ≢ 0
      fits = rw again (
          first_fit-append k.system.heap.heap_start (p ∷ ps) _ (align_up size 16) k.is_heap.pos
            (ground (arith, align_up-4096 asked, rounded_small)))

      abbrev second :
          Grant k.system.heap more
            (align_up (align_up size 16) 16)
            (alloc_pass k.system.heap (align_up (align_up size 16) 16))
      second = granted n k.system more k.is_heap (align_up size 16) rounded_pos rounded_small fits

      grew-Allocated : Allocated s (p ∷ ps) size (Calls.alloc_tries m (suc (suc n)) s size)
      grew-Allocated = record {
        system = record k.system { heap = second.heap };
        address = second.address + meta_size;
        blocks = second.blocks;
        returns =
            full-returns (suc n) s (p ∷ ps) is size pos small full
            ∙ rw k.returns (
                granted-returns n k.system more k.is_heap (align_up size 16) rounded_pos
                  rounded_small fits);
        is_heap = second.is_heap;
        same_start = second.same_start ∙ k.same_start;
        below = inr (inr (second.same_end ∙ k.end_of, k.is_backed));
        kept = λ y c u.
            simp (second.same_start, k.same_start) at
              (second.kept y c
                (simp k.same_start (InUse_append s.heap.heap_start (p ∷ ps) _ y c u)));
        given = inr (record {
          place = second.address;
          block = second.block;
          behind_header = refl;
          in_use = simp (second.same_start, k.same_start) at second.in_use;
          large =
              omega (arith, second.large, again, rounded_lem (suc n) s (p ∷ ps) is size pos small);
          apart = λ y c u.
              second.apart y c
                (simp k.same_start (InUse_append s.heap.heap_start (p ∷ ps) _ y c u));
        });
      }

  -- On a well-formed heap that lies so low that its end cannot wrap, `alloc` of any size returns,
  -- whatever the frame allocator and the page tables answer: it calls itself at most once. The heap
  -- is well formed again, and every block in use stays as it is. It returns null only if the size is
  -- 0 or too large, or if no block fits and `grow` fails; otherwise it returns the data of a block
  -- of at least that size that overlaps none that was in use.
  pub alloc-Allocated :
      (s : Calls.System m) (p : Piece) (ps : List Piece) (size : ℕ)
      → IsHeap s.heap (p ∷ ps)
      → s.heap.heap_start + 2 * heap_max + 2 ^ 14 ≤ 2 ^ 64
      → Allocated s (p ∷ ps) size (Calls.alloc m s size)
  unfolding Calls.alloc
  alloc-Allocated s p ps size is high = elim (Bool-cases (size == 0 || ltb heap_max size)) [
    | inl e ↦ refused-Allocated s p ps size is e
    | inr e ↦
        let pos : 0 < size = ground arith in
        let small : size ≤ heap_max = ground arith in
        elim (Bool-cases (first_fit s.heap.heap_start (p ∷ ps) (align_up size 16) == 0)) [
          | inl f ↦
              let full : first_fit s.heap.heap_start (p ∷ ps) (align_up size 16) ≡ 0 =
                ground arith in
              elim (grow_lem m s p ps is high (align_up size 16 + meta_size) (omega arith)
                (omega (arith, rounded_lem 0 s (p ∷ ps) is size pos small))) [
                  | inl k ↦ Kept-Allocated 1 s p ps is high size pos small full k
                  | inr k ↦ grew-Allocated 0 s p ps is high size pos small full k
                ]
          | inr f ↦ found-Allocated 1 s (p ∷ ps) is size pos small (ground arith)
        ]
  ]
