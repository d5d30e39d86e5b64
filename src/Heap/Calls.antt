-- ===== src/Heap/Calls.antt =====
-- The calls of kernel/mm/heap.cpp that reach the frame allocator and the page tables: `init`,
-- `grow`, `alloc`, `calloc` and `realloc`.
use nokernel.Prelude.{
  ℕ, zero, suc, ◌+◌, ◌*◌, ◌/◌, ◌^◌, none, Bool, true, false, not, ◌&&◌, ◌||◌, ltb, ◌==◌,
  if◌then◌else◌, bit_or,
}
use nokernel.Outcome.{Outcome, ok, panicked, hangs, ◌>>=◌, assert}
use nokernel.Word.{u64, sub64, align_up}
use nokernel.Pmm.{frame_size}
use nokernel.Heap.{
  BlockMeta, Heap, meta_size, heap_max, heap_max_pages, load, store, clobber, alloc_pass,
  append_block, free,
}

-- What the heap uses of `PMM` and `VMM`: the calls, over a state that they share.
pub record Mapper : Type 1 where
  pub State : Type 0
  -- `PMM::alloc_frames(count)` and `PMM::free_frames(first, count)`.
  pub alloc_frames : State → ℕ → ℕ × State
  pub free_frames : State → ℕ → ℕ → State
  -- `VMM::map_range(virt, phys, count, flags)`.
  pub map_range : State → ℕ → ℕ → ℕ → ℕ → Bool × State

-- `VMM::Flags::Writable | VMM::Flags::NoExecute`.
abbrev pub heap_flags : ℕ
heap_flags = bit_or (2 ^ 1) (2 ^ 63)

module _ (m : Mapper) where
  open m use {State, alloc_frames, free_frames, map_range}

  -- The heap, and the managers below it.
  pub record System : Type 0 where
    pub memory : State
    pub heap : Heap

  unfoldable pub init : State → ℕ → ℕ → Outcome System
  init memory start requested =
      let size = if ltb heap_max_pages requested then heap_max_pages else requested in
      let (base, memory') = alloc_frames memory size in
      assert (not (base == 0)) >>= λ _.
      let (mapped, memory'') = map_range memory' start base size heap_flags in
      if mapped
      then (let stop = u64 (start + u64 (size * frame_size)) in
          let block : BlockMeta = record {
            size = sub64 (sub64 stop start) meta_size;
            next = 0;
            is_free = true;
          } in
          let empty : Heap = record {
            headers = λ _. none;
            heap_start = start;
            heap_end = stop;
            free_list = start;
          } in
          ok (record { memory = memory''; heap = store empty start block }))
      else panicked

  unfoldable pub grow : System → ℕ → Outcome (Bool × System)
  grow s bytes =
      let pages = align_up bytes frame_size / frame_size in
      if ltb (u64 (s.heap.heap_start + heap_max)) (u64 (s.heap.heap_end + u64 (pages * frame_size)))
      then ok (false, s)
      else (let (phys, memory) = alloc_frames s.memory pages in
          if phys == 0
          then ok (false, record s { memory = memory })
          else (let (mapped, memory') = map_range memory s.heap.heap_end phys pages heap_flags in
              if mapped
              then (append_block s.heap pages >>= λ heap.
                  ok (true, record { memory = memory'; heap = heap }))
              else ok (false, record s { memory = free_frames memory' phys pages })))

  -- `alloc` calls itself after it has grown the heap; `tries` bounds how often.
  unfoldable pub alloc_tries : ℕ → System → ℕ → Outcome (ℕ × System)
  alloc_tries zero s size = hangs
  alloc_tries (suc tries) s size =
      if size == 0 || ltb heap_max size
      then ok (0, s)
      else (let rounded = align_up size 16 in
          alloc_pass s.heap rounded >>= λ (ptr, heap).
          if not (ptr == 0)
          then ok (ptr, record s { heap = heap })
          else (grow s (u64 (rounded + meta_size)) >>= λ (grown, s').
              if grown then alloc_tries tries s' rounded else ok (0, s')))

  -- One call and the one that it makes.
  unfoldable pub alloc : System → ℕ → Outcome (ℕ × System)
  unfolding alloc_tries
  alloc s size = alloc_tries 2 s size

  unfoldable pub calloc : System → ℕ → ℕ → Outcome (ℕ × System)
  calloc s count size =
      if not (size == 0) && ltb (heap_max / size) count
      then ok (0, s)
      else (alloc s (u64 (count * size)) >>= λ (ptr, s').
          if not (ptr == 0)
          then ok (ptr, record s' { heap = clobber s'.heap ptr (u64 (count * size)) })
          else ok (0, s'))

  -- The `memcpy` copies as many bytes as the old block holds.
  unfoldable pub realloc : System → ℕ → ℕ → Outcome (ℕ × System)
  realloc s ptr size = alloc s size >>= λ (newptr, s').
      if newptr == 0
      then ok (0, s')
      else (load s'.heap (sub64 ptr meta_size) >>= λ block.
          free (clobber s'.heap newptr block.size) ptr >>= λ heap.
          ok (newptr, record s' { heap = heap }))

  unfoldable pub operator_new : System → ℕ → Outcome (ℕ × System)
  operator_new s size = alloc s size >>= λ (ptr, s'). assert (not (ptr == 0)) >>= λ _. ok (ptr, s')

  unfoldable pub operator_delete : System → ℕ → Outcome System
  operator_delete s ptr = free s.heap ptr >>= λ heap. ok (record s { heap = heap })
