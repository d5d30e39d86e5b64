-- ===== src/Loader/Range.antt =====
-- The range of the kernel, and what loading it leaves alone (boot/src/main.c).
use nokernel.Prelude.{
  ℕ, zero, suc, ◌+◌, ◌-◌, ◌*◌, ◌/◌, ◌^◌, ◌≤◌, ◌<◌, ◌≡◌, refl, ap, ◌∙◌, sym, ◌⊎◌, inl, inr, Bool,
  true, false, ltb, ◌==◌, arith, Bool-cases,
}
use mathlib.Core.Path.{subst}
use nokernel.Word.{u16, u64, sub64}
use nokernel.Word.Align.{align_up-4096, align_down-4096}
use nokernel.Memory.{Bytes, memset}
use nokernel.Memory.Copy.{memset_lem}
use nokernel.Loader.Disk.{page_size}
use nokernel.Loader.Elf.{
  Phdr, e_phoff, e_phnum, phdr_address, phdr_at, skipped, widen, scan, load_segments, page_range,
  Load, refused, no_room, placed, finish, load_kernel, is_kernel,
}
use nokernel.Loader.Placed.{InFile, Inside, phdr_at-same, load_segments-outside, read16-same}

-- The end of a segment that is loaded is an address, and so is that of its last page.
abbrev pub Countable : Phdr → Type 0
Countable p = (skipped p ≡ true) ⊎ (p.p_vaddr + p.p_memsz + 4096 ≤ 2 ^ 64)

-- A segment that is loaded lies between two addresses.
abbrev pub Between : ℕ × ℕ → Phdr → Type 0
Between (vmin, vmax) p = (skipped p ≡ true) ⊎ ((vmin ≤ p.p_vaddr) × (p.p_vaddr + p.p_memsz ≤ vmax))

-- One range in another.
abbrev Wider : ℕ × ℕ → ℕ × ℕ → Type 0
Wider (a, b) (c, d) = (c ≤ a) × (b ≤ d)

widen-Wider : (p : Phdr) (r : ℕ × ℕ) → Wider r (widen p r)
widen-Wider p (a, b) = ground arith

widen-Between : (p : Phdr) (r : ℕ × ℕ) → Countable p → Between (widen p r) p
widen-Between p (a, b) (inl e) = inl e
widen-Between p (a, b) (inr h) = elim (Bool-cases (skipped p)) [
  | inl e ↦ inl e
  | inr e ↦
      let end : u64 (p.p_vaddr + p.p_memsz) ≡ p.p_vaddr + p.p_memsz = omega arith in
      inr (rw (e, end) (ground arith, ground arith))
]

Between-Wider : (p : Phdr) (r s : ℕ × ℕ) → Between r p → Wider r s → Between s p
Between-Wider p (a, b) (c, d) (inl e) w = inl e
Between-Wider p (a, b) (c, d) (inr (h, k)) w = inr (omega arith, omega arith)

module _ (m : Bytes) (raw table : ℕ) where
  scan-Wider : (count i : ℕ) (r : ℕ × ℕ) → Wider r (scan m raw table i count r)
  unfolding scan
  scan-Wider zero i r = (omega arith, omega arith)
  scan-Wider (suc count) i r =
      let (a, b) = widen-Wider (phdr_at m raw table i) r in
      let (c, d) = scan-Wider count (i + 1) (widen (phdr_at m raw table i) r) in
      (omega arith, omega arith)

  scan-Between :
      (count i j : ℕ) (r : ℕ × ℕ)
      → i ≤ j
      → j < i + count
      → Countable (phdr_at m raw table j)
      → Between (scan m raw table i count r) (phdr_at m raw table j)
  unfolding scan
  scan-Between zero i j r h k c = absurd (omega arith)
  scan-Between (suc count) i j r h k c = elim (Bool-cases (j == i)) [
    | inl e ↦
        let at : j ≡ i = ground arith in
        let p = phdr_at m raw table i in
        let mine : Countable p = subst (λ n. Countable (phdr_at m raw table n)) at c in
        subst (λ n. Between (scan m raw table (i + 1) count (widen p r)) (phdr_at m raw table n))
          (sym at)
          (Between-Wider p (widen p r) _ (widen-Between p r mine)
            (scan-Wider count (i + 1) (widen p r)))
    | inr e ↦ scan-Between count (i + 1) j _ (ground arith) (omega arith) c
  ]

  scan-Countable :
      (count i : ℕ) (r : ℕ × ℕ)
      → ((j : ℕ) → i ≤ j → j < i + count → Countable (phdr_at m raw table j))
      → r.1 + 4096 ≤ 2 ^ 64
      → (scan m raw table i count r).1 + 4096 ≤ 2 ^ 64
  unfolding scan
  scan-Countable zero i r c h = h
  scan-Countable (suc count) i r c h =
      scan-Countable count (i + 1) (widen (phdr_at m raw table i) r)
        (λ j k l. c j (omega arith) (omega arith))
        (widen_end (phdr_at m raw table i) r (c i (omega arith) (omega arith)) h)
    where
      widen_end :
          (p : Phdr) (r : ℕ × ℕ) → Countable p → r.1 + 4096 ≤ 2 ^ 64 → (widen p r).1 + 4096 ≤ 2 ^ 64
      widen_end p (a, b) (inl e) h = rw e h
      widen_end p (a, b) (inr k) h = ground arith

-- The pages of a range, and the bytes that a load leaves.
abbrev pub bytes_after : Load → Bytes → Bytes
bytes_after (refused m) before = m
bytes_after no_room before = before
bytes_after (placed k m) before = m

page_range_lem :
    (r : ℕ × ℕ)
    → r.0 ≤ r.1
    → r.1 + 4096 ≤ 2 ^ 64
    → let (vmin, vmax) = page_range r in
      ((vmin ≤ r.0) × (r.1 ≤ vmax))
      × ((vmax < 2 ^ 64) × (sub64 vmax vmin / page_size * page_size ≡ vmax - vmin))
page_range_lem (a, b) h k =
    let low = align_down-4096 a (omega arith) in
    let high = align_up-4096 b k in
    ((omega (arith, low), omega (arith, high)), (omega (arith, high), omega (arith, low, high)))

bytes_after-finish :
    (raw vmin vmax : ℕ) (r : Bool × Bytes) (m : Bytes) (x : ℕ)
    → bytes_after (finish raw vmin vmax r) m x ≡ r.1 x
bytes_after-finish raw vmin vmax (true, m') m x = refl
bytes_after-finish raw vmin vmax (false, m') m x = refl

file_header : (raw file_size : ℕ) (m : Bytes) → is_kernel raw file_size m ≡ true → 64 ≤ file_size
unfolding is_kernel
file_header raw file_size m h = ground arith

module _ (allocate : ℕ → ℕ → Bool) (raw file_size : ℕ) (m : Bytes) where
  abbrev table : ℕ
  table = u64 (raw + e_phoff m raw)

  abbrev found : ℕ × ℕ
  found = scan m raw table 0 (e_phnum m raw) (2 ^ 64 - 1, 0)

  -- The copies of the segments, after the pages have been cleared.
  segments-outside :
      (x : ℕ)
      → let (vmin, vmax) = page_range found in
        64 ≤ file_size
        → found.0 ≤ found.1
        → ((j : ℕ) → j < e_phnum m raw → InFile raw file_size (phdr_address m raw table j))
        → ((j : ℕ) → j < e_phnum m raw → Countable (phdr_at m raw table j))
        → (raw + file_size ≤ vmin) ⊎ (vmax ≤ raw)
        → (x < vmin) ⊎ (vmax ≤ x)
        → let cleared = (memset vmin 0 (sub64 vmax vmin / page_size * page_size) m).1 in
          (load_segments raw file_size table vmin vmin 0 (2 ^ 16) cleared).1 x ≡ m x
  segments-outside x header some within countable apart out =
      let (vmin, vmax) = page_range found in
      let end =
        scan-Countable m raw table (e_phnum m raw) 0 (2 ^ 64 - 1, 0)
          (λ j h k. countable j (omega arith)) (omega arith) in
      let ((low, high), (small, same)) = page_range_lem found some end in
      let cleared = (memset vmin 0 (sub64 vmax vmin / page_size * page_size) m).1 in
      let clear_same : (y : ℕ) → (y < vmin) ⊎ (vmin + (vmax - vmin) ≤ y) → cleared y ≡ m y = λ y o.
        (memset_lem vmin 0 (sub64 vmax vmin / page_size * page_size) m).1 y
        ∙ elim o [ inl a ↦ ground arith | inr a ↦ ground (arith, same) ] in
      let apart' : (raw + file_size ≤ vmin) ⊎ (vmin + (vmax - vmin) ≤ raw) = elim apart [
        | inl a ↦ inl a
        | inr a ↦ inr (omega (arith, low, some, high))
      ] in
      let out' : (x < vmin) ⊎ (vmin + (vmax - vmin) ≤ x) = elim out [
        | inl a ↦ inl a
        | inr a ↦ inr (omega (arith, low, some, high))
      ] in
      let bound : vmin + (vmax - vmin) < 2 ^ 64 = omega (arith, low, some, high, small) in
      let shared : (y : ℕ) → raw ≤ y → y < raw + file_size → cleared y ≡ m y = λ y h k.
        clear_same y (elim apart' [ inl a ↦ inl (omega arith) | inr a ↦ inr (omega arith) ]) in
      let count : e_phnum cleared raw ≡ e_phnum m raw = ap u16 (
        read16-same m cleared raw (raw + file_size) shared (raw + 56) (omega arith)
          (omega arith)) in
      let steady = λ (j : ℕ) (k : j < e_phnum m raw).
        phdr_at-same raw file_size table vmin (vmax - vmin) header bound apart' m cleared j
          clear_same (within j k) in
      load_segments-outside raw file_size table vmin (vmax - vmin) header bound apart' (2 ^ 16) 0
        cleared x
        (λ j h k.
          subst (λ a. InFile raw file_size a) (sym (steady j (omega (arith, count))).0)
            (within j (omega (arith, count))))
        (λ j h k.
          subst (λ p. Inside vmin (vmax - vmin) p) (sym (steady j (omega (arith, count))).1)
            (in_pages (phdr_at m raw table j) low high some (
              scan-Between m raw table (e_phnum m raw) 0 j (2 ^ 64 - 1, 0) (omega arith)
                (omega (arith, count)) (countable j (omega (arith, count))))))
        out'
      ∙ clear_same x out'
    where
      in_pages :
          (p : Phdr) {vmin vmax : ℕ}
          → vmin ≤ found.0
          → found.1 ≤ vmax
          → found.0 ≤ found.1
          → Between found p
          → Inside vmin (vmax - vmin) p
      in_pages p low high some (inl e) = inl e
      in_pages p low high some (inr (a, b)) = inr (omega arith, omega arith)

  -- Loading a kernel, whether it succeeds or not, changes no byte outside of the pages from the lowest
  -- to the highest address of its segments, if every header of the table stands in the file, no
  -- segment comes within a page of the end of the address space, and the file does not lie in the
  -- pages.
  pub load_kernel-outside :
      (x : ℕ)
      → let (vmin, vmax) = page_range found in
        ((j : ℕ) → j < e_phnum m raw → InFile raw file_size (phdr_address m raw table j))
        → ((j : ℕ) → j < e_phnum m raw → Countable (phdr_at m raw table j))
        → (raw + file_size ≤ vmin) ⊎ (vmax ≤ raw)
        → (x < vmin) ⊎ (vmax ≤ x)
        → bytes_after (load_kernel allocate raw file_size m) m x ≡ m x
  unfolding load_kernel
  load_kernel-outside x within countable apart out =
      let (vmin, vmax) = page_range found in
      let cleared = (memset vmin 0 (sub64 vmax vmin / page_size * page_size) m).1 in
      let loaded = load_segments raw file_size table vmin vmin 0 (2 ^ 16) cleared in
      elim (Bool-cases (is_kernel raw file_size m)) [
        | inr e ↦ rw e refl
        | inl e ↦ rw e (elim (Bool-cases (ltb found.1 found.0)) [
          | inl g ↦ rw g refl
          | inr g ↦ rw g (elim (Bool-cases (allocate vmin (sub64 vmax vmin / page_size))) [
            | inr k ↦ rw k refl
            | inl k ↦ rw k (
                bytes_after-finish raw vmin vmax loaded m x
                ∙ segments-outside x (file_header raw file_size m e) (ground arith) within countable
                    apart out)
          ])
        ])
      ]
