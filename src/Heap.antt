-- ===== src/Heap.antt =====
-- The kernel heap (kernel/mm/heap.cpp): blocks with a header each, in a list that tiles the heap.
pub mod Tiles
pub mod Take
pub mod Join
pub mod Blocks
pub mod Safety
pub mod Calls
pub mod Grow
pub mod Append
pub mod Alloc
mod Tests
use nokernel.Prelude.{
  ℕ, zero, suc, ◌+◌, ◌-◌, ◌*◌, ◌/◌, ◌^◌, Bool, true, false, not, ◌&&◌, ◌||◌, Option, none, some,
  ltb, leb, ◌==◌, if◌then◌else◌,
}
use nokernel.Outcome.{Outcome, ok, panicked, faults, hangs, ◌>>=◌, assert}
use nokernel.Word.{u64, sub64, align_up}
use nokernel.Pmm.{frame_size}

pub record BlockMeta : Type 0 where
  pub size : ℕ
  pub next : ℕ
  pub is_free : Bool

-- `sizeof(blockmeta_t)`: two words, a byte, and padding.
abbrev pub meta_size : ℕ
meta_size = 24

abbrev pub heap_max : ℕ
heap_max = 2 ^ 30

abbrev pub heap_max_pages : ℕ
heap_max_pages = heap_max / 2 ^ 12

-- The headers in memory by address; `none` where no header was written, or where one was
-- overwritten by data. Then `HeapStart`, `HeapEnd` and `free_list` (0 for `nullptr`).
pub record Heap : Type 0 where
  pub headers : ℕ → Option BlockMeta
  pub heap_start : ℕ
  pub heap_end : ℕ
  pub free_list : ℕ

unfoldable pub load : Heap → ℕ → Outcome BlockMeta
load h a = if a == 0 then faults else elim (h.headers a) [ none ↦ faults | some b ↦ ok b ]

unfoldable pub store : Heap → ℕ → BlockMeta → Heap
store h a b = record h { headers = λ x. if x == a then some b else h.headers x }

-- Writing `len` bytes of data at `dst` destroys the headers that it meets.
unfoldable pub clobber : Heap → ℕ → ℕ → Heap
clobber h dst len = record h {
  headers = λ x. if ltb x (dst + len) && ltb dst (x + meta_size) then none else h.headers x;
}

-- The rounds that a walk over the list can need: a block takes at least its header.
abbrev pub rounds_for : Heap → ℕ
rounds_for h = suc (h.heap_end - h.heap_start)

unfoldable pub split_block : Heap → ℕ → ℕ → Outcome Heap
split_block h block size = load h block >>= λ b.
    if ltb b.size (u64 (u64 (size + meta_size) + 16))
    then ok h
    else let next = block + meta_size + size in
      let rest : BlockMeta = record {
        size = sub64 (sub64 b.size size) meta_size;
        next = b.next;
        is_free = true;
      } in
      ok (store (store h next rest) block (record b { size = size; next = next }))

-- The search of `alloc`: the first free block from `block` on that is large enough, or 0.
unfoldable pub find_block : ℕ → Heap → ℕ → ℕ → Outcome ℕ
find_block zero h block size = hangs
find_block (suc rounds) h block size =
    if block == 0
    then ok 0
    else (load h block >>= λ b.
        if not b.is_free || ltb b.size size then find_block rounds h b.next size else ok block)

unfoldable pub take_block : Heap → ℕ → ℕ → Outcome Heap
take_block h block size = split_block h block size >>= λ g.
    load g block >>= λ b. ok (store g block (record b { is_free = false }))

-- One pass of `alloc` over the list with a size that is already rounded up: 0, or the address of
-- the data of the block that was taken.
unfoldable pub alloc_pass : Heap → ℕ → Outcome (ℕ × Heap)
alloc_pass h size = find_block (rounds_for h) h h.free_list size >>= λ block.
    if block == 0 then ok (0, h) else (take_block h block size >>= λ g. ok (block + meta_size, g))

-- The loop of `free` that joins free neighbours, at block `b`.
unfoldable pub cleanup : ℕ → Heap → ℕ → Outcome Heap
cleanup zero h b = hangs
cleanup (suc rounds) h b =
    if b == 0
    then ok h
    else (load h b >>= λ m.
        if m.next == 0
        then ok h
        else (load h m.next >>= λ n.
            if m.is_free && n.is_free
            then cleanup rounds
                (store h b
                  (record m { size = u64 (m.size + u64 (meta_size + n.size)); next = n.next }))
                b
            else cleanup rounds h m.next))

-- `block->free = true;`
unfoldable pub mark_free : Heap → ℕ → Outcome Heap
mark_free h block = load h block >>= λ b. ok (store h block (record b { is_free = true }))

unfoldable pub free : Heap → ℕ → Outcome Heap
free h ptr =
    if ptr == 0
    then ok h
    else (mark_free h (sub64 ptr meta_size) >>= λ g. cleanup (rounds_for g) g g.free_list)

-- The walk of `grow` to the last block.
unfoldable pub last_block : ℕ → Heap → ℕ → Outcome ℕ
last_block zero h b = hangs
last_block (suc rounds) h b =
    load h b >>= λ m. if m.next == 0 then ok b else last_block rounds h m.next

-- `last->next = block`, with `last` found from block `b` on.
unfoldable pub link_last : ℕ → Heap → ℕ → ℕ → Outcome Heap
link_last rounds h b block = last_block rounds h b >>= λ last.
    load h last >>= λ m. ok (store h last (record m { next = block }))

-- What `grow` writes once its pages are mapped at `HeapEnd`.
unfoldable pub append_block : Heap → ℕ → Outcome Heap
append_block h pages =
    let bytes = u64 (pages * frame_size) in
    let block : BlockMeta = record { size = sub64 bytes meta_size; next = 0; is_free = true } in
    let g = store h h.heap_end block in
    link_last (rounds_for h) g g.free_list h.heap_end >>= λ k.
    ok (record k { heap_end = u64 (h.heap_end + bytes) })
