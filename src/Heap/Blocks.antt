-- ===== src/Heap/Blocks.antt =====
-- What taking and freeing blocks (kernel/mm/heap.cpp) means for the blocks in use.
use nokernel.Prelude.{
  ℕ, ◌+◌, ◌-◌, ◌≤◌, ◌<◌, ◌≡◌, ◌≢◌, refl, Bool, true, false, ◌&&◌, some, List, [], ◌∷◌, ◌++◌, ltb,
  ◌==◌, if◌then◌else◌, arith, inl, inr, Bool-cases, ap,
}
use nokernel.Heap.{meta_size}
use nokernel.Heap.Tiles.{Piece, after, usable, first_fit}
use nokernel.Heap.Take.{carve, take_first}
use nokernel.Heap.Join.{absorb, coalesce, block_at, release, absorb-join, absorb-skip}

-- No two neighbours are free.
abbrev pub IsCoalesced : List Piece → Type 0
IsCoalesced [] = Unit {0}
IsCoalesced (p ∷ []) = Unit {0}
IsCoalesced (p ∷ q ∷ qs) = ((p.is_free && q.is_free) ≡ false) × IsCoalesced (q ∷ qs)

-- Whether a list begins with a free block.
abbrev head_free : List Piece → Bool
head_free [] = false
head_free (p ∷ ps) = p.is_free

head_free-absorb : (p : Piece) (ps : List Piece) → head_free (absorb p ps) ≡ p.is_free
unfolding absorb
head_free-absorb p [] = refl
head_free-absorb p (q ∷ qs) =
    ground (arith, head_free-absorb (record p { size = p.size + (meta_size + q.size) }) qs)

IsCoalesced_cons :
    (p : Piece) (ps : List Piece)
    → (p.is_free && head_free ps) ≡ false
    → IsCoalesced ps
    → IsCoalesced (p ∷ ps)
IsCoalesced_cons p [] e c = tt
IsCoalesced_cons p (q ∷ qs) e c = (e, c)

absorb-IsCoalesced : (p : Piece) (ps : List Piece) → IsCoalesced (absorb p ps)
absorb-IsCoalesced p [] = unfold absorb in tt
absorb-IsCoalesced p (q ∷ qs) = elim (Bool-cases (p.is_free && q.is_free)) [
  | inl e ↦
      rw (absorb-join p q qs e)
        (absorb-IsCoalesced (record p { size = p.size + (meta_size + q.size) }) qs)
  | inr e ↦
      rw (absorb-skip p q qs e)
        (IsCoalesced_cons p (absorb q qs) (rw (head_free-absorb q qs) e) (absorb-IsCoalesced q qs))
]

pub coalesce-IsCoalesced : (ps : List Piece) → IsCoalesced (coalesce ps)
unfolding coalesce
coalesce-IsCoalesced [] = tt
coalesce-IsCoalesced (p ∷ ps) = absorb-IsCoalesced p ps

pub absorb_id : (p : Piece) (ps : List Piece) → IsCoalesced (p ∷ ps) → absorb p ps ≡ p ∷ ps
absorb_id p [] c = unfold absorb in refl
absorb_id p (q ∷ qs) c = rw (absorb-skip p q qs c.0, absorb_id q qs c.1)

-- The block at `x` is in use.
abbrev pub InUse : ℕ → List Piece → ℕ → Piece → Type 0
InUse a ps x b = (block_at a ps x ≡ some b) × (b.is_free ≡ false)

-- Joining free blocks keeps every block in use where it is.
module _ (a : ℕ) (p q : Piece) (qs : List Piece) (x : ℕ) (b : Piece) where
  InUse-join :
      (p.is_free && q.is_free) ≡ true
      → InUse a (p ∷ q ∷ qs) x b
      → InUse a (record p { size = p.size + (meta_size + q.size) } ∷ qs) x b
  unfolding block_at
  InUse-join e u =
      let ends : a + meta_size + (p.size + (meta_size + q.size)) ≡ after (after a p) q =
        omega arith in
      ground (arith, ap (λ n. block_at n qs x) ends)

  InUse-skip :
      (InUse (after a p) (q ∷ qs) x b → InUse (after a p) (absorb q qs) x b)
      → InUse a (p ∷ q ∷ qs) x b
      → InUse a (p ∷ absorb q qs) x b
  InUse-skip rest u = elim (Bool-cases (a == x)) [
    | inl e ↦ unfold block_at in ground arith
    | inr e ↦
        let (at, used) = rest (unfold block_at in ground arith) in unfold block_at in ground arith
  ]

absorb-InUse :
    (a : ℕ) (p : Piece) (ps : List Piece) (x : ℕ) (b : Piece)
    → InUse a (p ∷ ps) x b
    → InUse a (absorb p ps) x b
absorb-InUse a p [] x b u = unfold absorb in u
absorb-InUse a p (q ∷ qs) x b u = elim (Bool-cases (p.is_free && q.is_free)) [
  | inl e ↦ rw (absorb-join p q qs e) (
      absorb-InUse a (record p { size = p.size + (meta_size + q.size) }) qs x b
        (InUse-join a p q qs x b e u))
  | inr e ↦
      rw (absorb-skip p q qs e) (InUse-skip a p q qs x b (absorb-InUse (after a p) q qs x b) u)
]

pub coalesce-InUse :
    (a : ℕ) (ps : List Piece) (x : ℕ) (b : Piece) → InUse a ps x b → InUse a (coalesce ps) x b
unfolding coalesce
coalesce-InUse a [] x b u = u
coalesce-InUse a (p ∷ ps) x b u = absorb-InUse a p ps x b u

pub release-InUse :
    (a : ℕ) (ps : List Piece) (y x : ℕ) (b : Piece)
    → (y == x) ≡ false
    → InUse a ps x b
    → InUse a (release a ps y) x b
unfolding release block_at
release-InUse a [] y x b ne u = u
release-InUse a (p ∷ ps) y x b ne u = ground (arith, release-InUse (after a p) ps y x b ne)

pub block_at-ge : (a : ℕ) (ps : List Piece) (x : ℕ) (b : Piece) → block_at a ps x ≡ some b → a ≤ x
unfolding block_at
block_at-ge a [] x b at = cc
block_at-ge a (p ∷ ps) x b at = ground (arith, block_at-ge (after a p) ps x b)

release_at :
    (a : ℕ) (ps : List Piece) (x : ℕ) (b : Piece)
    → block_at a ps x ≡ some b
    → block_at a (release a ps x) x ≡ some (record b { is_free = true })
unfolding release block_at
release_at a [] x b at = cc
release_at a (p ∷ ps) x b at = ground (arith, release_at (after a p) ps x b)

-- A free block of the list has the bytes of the block `b` at `x`.
abbrev pub IsFreed : ℕ → List Piece → ℕ → Piece → Type 0
IsFreed a ps x b =
    (y : ℕ) × (c : Piece) × (block_at a ps y ≡ some c)
    × (c.is_free ≡ true)
    × (y ≤ x)
    × (after x b ≤ after y c)

module _ (a : ℕ) (p q : Piece) (qs : List Piece) (x : ℕ) (b : Piece) where
  IsFreed-join :
      (p.is_free && q.is_free) ≡ true
      → IsFreed a (p ∷ q ∷ qs) x b
      → IsFreed a (record p { size = p.size + (meta_size + q.size) } ∷ qs) x b
  unfolding block_at
  IsFreed-join e (y, c, at, free, from, to) =
      let merged = record p { size = p.size + (meta_size + q.size) } in
      let ends : after a merged ≡ after (after a p) q = omega arith in
      elim (Bool-cases (a == y)) [
        | inl here ↦ (a, merged, ground arith, ground arith, ground arith, ground arith)
        | inr far ↦ elim (Bool-cases (after a p == y)) [
          | inl second ↦ (a, merged, ground arith, ground arith, ground arith, ground arith)
          | inr third ↦ (y, c, ground (arith, ap (λ n. block_at n qs y) ends), free, from, to)
        ]
      ]

  IsFreed-skip :
      (IsFreed (after a p) (q ∷ qs) x b → IsFreed (after a p) (absorb q qs) x b)
      → IsFreed a (p ∷ q ∷ qs) x b
      → IsFreed a (p ∷ absorb q qs) x b
  unfolding block_at
  IsFreed-skip rest (y, c, at, free, from, to) = elim (Bool-cases (a == y)) [
    | inl here ↦ (y, c, ground arith, free, from, to)
    | inr far ↦
        let (y', c', at', free', from', to') = rest (y, c, ground arith, free, from, to) in
        let behind = block_at-ge (after a p) (absorb q qs) y' c' at' in
        (y', c', ground arith, free', from', to')
  ]

absorb-IsFreed :
    (a : ℕ) (p : Piece) (ps : List Piece) (x : ℕ) (b : Piece)
    → IsFreed a (p ∷ ps) x b
    → IsFreed a (absorb p ps) x b
absorb-IsFreed a p [] x b u = unfold absorb in u
absorb-IsFreed a p (q ∷ qs) x b u = elim (Bool-cases (p.is_free && q.is_free)) [
  | inl e ↦ rw (absorb-join p q qs e) (
      absorb-IsFreed a (record p { size = p.size + (meta_size + q.size) }) qs x b
        (IsFreed-join a p q qs x b e u))
  | inr e ↦
      rw (absorb-skip p q qs e) (IsFreed-skip a p q qs x b (absorb-IsFreed (after a p) q qs x b) u)
]

pub coalesce-IsFreed :
    (a : ℕ) (ps : List Piece) (x : ℕ) (b : Piece) → IsFreed a ps x b → IsFreed a (coalesce ps) x b
unfolding coalesce
coalesce-IsFreed a [] x b u = u
coalesce-IsFreed a (p ∷ ps) x b u = absorb-IsFreed a p ps x b u

pub release-IsFreed :
    (a : ℕ) (ps : List Piece) (x : ℕ) (b : Piece)
    → block_at a ps x ≡ some b
    → IsFreed a (release a ps x) x b
release-IsFreed a ps x b at =
    (x, record b { is_free = true }, release_at a ps x b at, refl, omega arith, omega arith)

-- Taking a block keeps every block in use where it is.
module _ (a : ℕ) (p : Piece) (ps : List Piece) (size x : ℕ) (b : Piece) (free_p : p.is_free ≡ true)
    (u : InUse a (p ∷ ps) x b) where
  not_first : (a == x) ≡ false
  not_first = unfold block_at in ground arith

  in_rest : block_at (after a p) ps x ≡ some b
  in_rest = unfold block_at in ground arith

  InUse-carve : size ≤ p.size → InUse a (carve p size ++ ps) x b
  InUse-carve fits = elim (Bool-cases (ltb p.size (size + meta_size + 16))) [
    | inl e ↦ unfold carve block_at in rw (e, not_first) (in_rest, u.1)
    | inr e ↦
        let ends : a + meta_size + size + meta_size + (p.size - size - meta_size) ≡ after a p =
          ground arith in
        let past : (a + meta_size + size == x) ≡ false =
          ground (arith, block_at-ge (after a p) ps x b in_rest) in
        unfold carve block_at in rw (e, not_first, past, ends) (in_rest, u.1)
  ]

module _ (a : ℕ) (p : Piece) (x : ℕ) (b : Piece) where
  -- What follows a block may change, as long as the blocks in use there stay.
  InUse_cons :
      (ps qs : List Piece)
      → (InUse (after a p) ps x b → InUse (after a p) qs x b)
      → InUse a (p ∷ ps) x b
      → InUse a (p ∷ qs) x b
  unfolding block_at
  InUse_cons ps qs keep u = elim (Bool-cases (a == x)) [
    | inl e ↦ ground arith
    | inr e ↦ let (at, used) = keep (ground arith) in ground arith
  ]

  InUse_behind : (ps : List Piece) → a < x → InUse (after a p) ps x b → InUse a (p ∷ ps) x b
  unfolding block_at
  InUse_behind ps lt u = ground arith

pub take_first-InUse :
    (a : ℕ) (ps : List Piece) (size x : ℕ) (b : Piece)
    → InUse a ps x b
    → InUse a (take_first ps size) x b
unfolding take_first
take_first-InUse a [] size x b u = u
take_first-InUse a (p ∷ ps) size x b u = elim (Bool-cases (usable size p)) [
  | inl e ↦ rw e (InUse-carve a p ps size x b (ground arith) u (ground arith))
  | inr e ↦
      rw e (InUse_cons a p x b ps (take_first ps size) (take_first-InUse (after a p) ps size x b) u)
]

pub first_fit-ge :
    (a : ℕ) (ps : List Piece) (size : ℕ) → first_fit a ps size ≢ 0 → a ≤ first_fit a ps size
unfolding first_fit
first_fit-ge a [] size ne = absurd (ne refl)
first_fit-ge a (p ∷ ps) size ne = ground (arith, first_fit-ge (after a p) ps size)

-- The block that is taken: the whole of a free block, or its first `size` bytes.
taken_piece : Piece → ℕ → Piece
taken_piece p size = record {
  size = if ltb p.size (size + meta_size + 16) then p.size else size;
  is_free = false;
}

InUse-taken :
    (a : ℕ) (p : Piece) (ps : List Piece) (size : ℕ)
    → InUse a (carve p size ++ ps) a (taken_piece p size)
InUse-taken a p ps size = elim (Bool-cases (ltb p.size (size + meta_size + 16))) [
  | inl e ↦ unfold carve block_at taken_piece in rw e (ground arith, refl)
  | inr e ↦ unfold carve block_at taken_piece in rw e (ground arith, refl)
]

-- The block that is taken is large enough and in use.
pub first_fit-InUse :
    (a : ℕ) (ps : List Piece) (size : ℕ)
    → first_fit a ps size ≢ 0
    → (b : Piece) × InUse a (take_first ps size) (first_fit a ps size) b × (size ≤ b.size)
unfolding take_first first_fit
first_fit-InUse a [] size ne = absurd (ne refl)
first_fit-InUse a (p ∷ ps) size ne = elim (Bool-cases (usable size p)) [
  | inl e ↦ rw e (taken_piece p size, InUse-taken a p ps size, unfold taken_piece in ground arith)
  | inr e ↦
      let (b, u, large) = first_fit-InUse (after a p) ps size (ground arith) in
      let far = first_fit-ge (after a p) ps size (ground arith) in
      rw e (
        b,
        InUse_behind a p (first_fit (after a p) ps size) b (take_first ps size) (omega arith) u,
        large,
      )
]

-- Two blocks do not overlap.
pub block_at_disjoint :
    (a : ℕ) (ps : List Piece) (x y : ℕ) (b c : Piece)
    → block_at a ps x ≡ some b
    → block_at a ps y ≡ some c
    → x < y
    → after x b ≤ y
unfolding block_at
block_at_disjoint a [] x y b c p q lt = cc
block_at_disjoint a (p ∷ ps) x y b c at_x at_y lt = ground (
  arith,
  block_at_disjoint (after a p) ps x y b c,
  block_at-ge (after a p) ps x b,
  block_at-ge (after a p) ps y c,
)
