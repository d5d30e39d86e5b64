-- ===== src/Heap/Tiles.antt =====
-- The heap as the list of its blocks: what the headers in memory say, in address order.
use nokernel.Prelude.{
  ℕ, zero, suc, ◌+◌, ◌*◌, ◌^◌, ◌≤◌, ◌<◌, ◌≡◌, refl, Bool, false, not, ◌||◌, Option, some, List, [],
  ◌∷◌, length, ltb, ◌==◌, if◌then◌else◌, arith, inl, inr, Bool-cases, ◌∙◌,
}
use nokernel.Outcome.{Outcome, ok}
use nokernel.Heap.{BlockMeta, Heap, meta_size, heap_max, load, store, find_block}

-- A block less its address.
pub record Piece : Type 0 where
  pub size : ℕ
  pub is_free : Bool

abbrev pub after : ℕ → Piece → ℕ
after a p = a + meta_size + p.size

-- What `next` holds in front of the blocks `ps` that begin at `a`.
abbrev pub link : ℕ → List Piece → ℕ
link a [] = 0
link a (p ∷ ps) = a

abbrev pub header : ℕ → Piece → List Piece → BlockMeta
header a p ps = record { size = p.size; next = link (after a p) ps; is_free = p.is_free }

abbrev pub Headers : Type 0
Headers = ℕ → Option BlockMeta

-- From `a` to `stop` the memory is the blocks `ps`, one right behind the other.
abbrev pub Tiles : Headers → ℕ → List Piece → ℕ → Type 0
Tiles hd a [] stop = a ≡ stop
Tiles hd a (p ∷ ps) stop = (hd a ≡ some (header a p ps)) × Tiles hd (after a p) ps stop

pub Tiles-le :
    (hd : Headers) (a : ℕ) (ps : List Piece) (stop : ℕ)
    → Tiles hd a ps stop
    → a + 24 * length ps ≤ stop
Tiles-le hd a [] stop t = omega arith
Tiles-le hd a (p ∷ ps) stop t = omega (arith, Tiles-le hd (after a p) ps stop t.1)

-- Only the headers from `a` on matter.
pub Tiles-frame :
    {hd gd : Headers} (a : ℕ) (ps : List Piece) (stop : ℕ)
    → ((x : ℕ) → a ≤ x → gd x ≡ hd x)
    → Tiles hd a ps stop
    → Tiles gd a ps stop
Tiles-frame a [] stop same t = t
Tiles-frame a (p ∷ ps) stop same t =
    (ground (arith, same a), Tiles-frame (after a p) ps stop (λ x h. same x (omega arith)) t.1)

-- Nor do those at `stop` and above matter.
pub Tiles-frame_below :
    {hd gd : Headers} (a : ℕ) (ps : List Piece) (stop : ℕ)
    → ((x : ℕ) → x < stop → gd x ≡ hd x)
    → Tiles hd a ps stop
    → Tiles gd a ps stop
Tiles-frame_below a [] stop same t = t
Tiles-frame_below {hd} a (p ∷ ps) stop same t = (
  ground (arith, same a, Tiles-le hd (after a p) ps stop t.1),
  Tiles-frame_below (after a p) ps stop same t.1,
)

pub load-header :
    (h : Heap) {a : ℕ} {b : BlockMeta} → 0 < a → h.headers a ≡ some b → load h a ≡ ok b
unfolding load
load-header h pos e = ground arith

pub link-ne : (a : ℕ) (p : Piece) (ps : List Piece) → 0 < a → (link a (p ∷ ps) == 0) ≡ false
link-ne a p ps h = ground arith

-- The heap is initialised, and it is the blocks `ps`.
pub record IsHeap (h : Heap) (ps : List Piece) : Type 0 where
  pub tiles : Tiles h.headers h.heap_start ps h.heap_end
  pub list : h.free_list ≡ link h.heap_start ps
  pub pos : 0 < h.heap_start
  pub small : h.heap_end ≤ h.heap_start + heap_max
  pub top : h.heap_start + heap_max < 2 ^ 64

-- The first block that `alloc` can use for `size` bytes.
abbrev pub usable : ℕ → Piece → Bool
usable size p = not (not p.is_free || ltb p.size size)

unfoldable pub first_fit : ℕ → List Piece → ℕ → ℕ
first_fit a [] size = 0
first_fit a (p ∷ ps) size = if usable size p then a else first_fit (after a p) ps size

pub find_block-first_fit :
    (rounds : ℕ) (h : Heap) (a : ℕ) (ps : List Piece) (stop size : ℕ)
    → 0 < a
    → Tiles h.headers a ps stop
    → length ps < rounds
    → find_block rounds h (link a ps) size ≡ ok (first_fit a ps size)
unfolding find_block first_fit
find_block-first_fit zero h a ps stop size pos t fuel = absurd (omega arith)
find_block-first_fit (suc rounds) h a [] stop size pos t fuel = refl
find_block-first_fit (suc rounds) h a (p ∷ ps) stop size pos t fuel =
    elim (Bool-cases (not p.is_free || ltb p.size size)) [
      | inl e ↦
          rw (link-ne a p ps pos, load-header h pos t.0, e)
            (find_block-first_fit rounds h (after a p) ps stop size (omega arith) t.1 (omega arith))
      | inr e ↦ rw (link-ne a p ps pos, load-header h pos t.0, e)
    ]

-- `g` is `h` with headers changed at `a` and above only.
pub record SameBelow (a : ℕ) (h g : Heap) : Type 0 where
  pub same_start : g.heap_start ≡ h.heap_start
  pub same_end : g.heap_end ≡ h.heap_end
  pub same_list : g.free_list ≡ h.free_list
  pub below : (x : ℕ) → x < a → g.headers x ≡ h.headers x

-- A call that returns a heap with the blocks `ps` from `a` on.
pub record Rebuilt (a : ℕ) (h : Heap) (ps : List Piece) (stop : ℕ) (result : Outcome Heap)
    : Type 0 where
  pub heap : Heap
  pub returns : result ≡ ok heap
  pub tiles : Tiles heap.headers a ps stop
  pub same : SameBelow a h heap

pub SameBelow-trans :
    {a b : ℕ} {h g k : Heap} → a ≤ b → SameBelow a h g → SameBelow b g k → SameBelow a h k
SameBelow-trans le r s = record {
  same_start = s.same_start ∙ r.same_start;
  same_end = s.same_end ∙ r.same_end;
  same_list = s.same_list ∙ r.same_list;
  below = λ x p. s.below x (omega arith) ∙ r.below x p;
}

module _ (h : Heap) (a : ℕ) where
  pub SameBelow-store : (x : ℕ) (b : BlockMeta) → a ≤ x → SameBelow a h (store h x b)
  unfolding store
  SameBelow-store x b le = record {
    same_start = refl;
    same_end = refl;
    same_list = refl;
    below = λ y p. ground arith;
  }

  -- Writing the header of a block in front of blocks that are there.
  pub Tiles-store :
      (p : Piece) (ps : List Piece) (stop : ℕ)
      → Tiles h.headers (after a p) ps stop
      → Tiles (store h a (header a p ps)).headers a (p ∷ ps) stop
  unfolding store
  Tiles-store p ps stop t = (ground arith, Tiles-frame (after a p) ps stop (λ x le. ground arith) t)

-- A rebuilt rest, behind a block that stays as it is.
pub Rebuilt_cons :
    (h : Heap) (a : ℕ) (p : Piece) (ps qs : List Piece) (stop : ℕ) (result : Outcome Heap)
    → h.headers a ≡ some (header a p ps)
    → link (after a p) qs ≡ link (after a p) ps
    → Rebuilt (after a p) h qs stop result
    → Rebuilt a h (p ∷ qs) stop result
Rebuilt_cons h a p ps qs stop result at same_link r = record {
  heap = r.heap;
  returns = r.returns;
  tiles = (ground (arith, r.same.below a), r.tiles);
  same = record {
    same_start = r.same.same_start;
    same_end = r.same.same_end;
    same_list = r.same.same_list;
    below = λ x le. r.same.below x (omega arith);
  };
}

-- Rebuilding the blocks from the start of the heap on leaves a heap of the new blocks.
pub Rebuilt-IsHeap :
    {h : Heap} {ps qs : List Piece} {result : Outcome Heap}
    → IsHeap h ps
    → (r : Rebuilt h.heap_start h qs h.heap_end result)
    → link h.heap_start qs ≡ link h.heap_start ps
    → IsHeap r.heap qs
Rebuilt-IsHeap is r same_link = record {
  tiles = simp (r.same.same_start, r.same.same_end) r.tiles;
  list = ground (arith, r.same.same_list, r.same.same_start, is.list);
  pos = rw r.same.same_start is.pos;
  small = rw (r.same.same_start, r.same.same_end) is.small;
  top = rw r.same.same_start is.top;
}
