-- ===== src/Loader/Placed.antt =====
-- Where loading the kernel writes (boot/src/main.c).
use nokernel.Prelude.{
  ℕ, zero, suc, ◌+◌, ◌*◌, ◌^◌, ◌≤◌, ◌<◌, ◌≡◌, refl, ap, ◌∙◌, sym, ◌⊎◌, inl, inr, true, false, ◌||◌,
  ltb, arith, Bool, Bool-cases,
}
use mathlib.Core.Path.{subst}
use nokernel.Word.{u16, u64, sub64}
use nokernel.Memory.{Bytes, memcpy}
use nokernel.Memory.Copy.{bcopy-copied}
use nokernel.Loader.Elf.{
  Phdr, read16, read32, read64, read_phdr, phdr_address, phdr_at, skipped, load_segments, e_phnum,
}

-- Words of a part of memory that two memories share.
module _ (m m' : Bytes) (lo hi : ℕ) (shared : (x : ℕ) → lo ≤ x → x < hi → m' x ≡ m x) where
  pub read16-same : (a : ℕ) → lo ≤ a → a + 2 ≤ hi → read16 m' a ≡ read16 m a
  read16-same a h k =
      λ i. shared a h (omega arith) i + 2 ^ 8 * shared (a + 1) (omega arith) (omega arith) i

  read32-same : (a : ℕ) → lo ≤ a → a + 4 ≤ hi → read32 m' a ≡ read32 m a
  read32-same a h k = λ i.
      read16-same a h (omega arith) i + 2 ^ 16 * read16-same (a + 2) (omega arith) (omega arith) i

  read64-same : (a : ℕ) → lo ≤ a → a + 8 ≤ hi → read64 m' a ≡ read64 m a
  read64-same a h k = λ i.
      read32-same a h (omega arith) i + 2 ^ 32 * read32-same (a + 4) (omega arith) (omega arith) i

  read_phdr-same : (p : ℕ) → lo ≤ p → p + 56 ≤ hi → read_phdr m' p ≡ read_phdr m p
  read_phdr-same p h k = λ i. record {
    p_type = read32-same p h (omega arith) i;
    p_offset = read64-same (p + 8) (omega arith) (omega arith) i;
    p_vaddr = read64-same (p + 16) (omega arith) (omega arith) i;
    p_filesz = read64-same (p + 32) (omega arith) (omega arith) i;
    p_memsz = read64-same (p + 40) (omega arith) (omega arith) i;
  }

-- A header stands in the file.
abbrev pub InFile : ℕ → ℕ → ℕ → Type 0
InFile raw file_size a = (raw ≤ a) × (a + 56 ≤ raw + file_size)

-- A segment that is loaded lies in a range of the memory.
abbrev pub Inside : ℕ → ℕ → Phdr → Type 0
Inside base size p =
    (skipped p ≡ true) ⊎ ((base ≤ p.p_vaddr) × (p.p_vaddr + p.p_memsz ≤ base + size))

module _ (raw file_size table base size : ℕ) (header : 64 ≤ file_size)
    (countable : base + size < 2 ^ 64)
    (apart : (raw + file_size ≤ base) ⊎ (base + size ≤ raw)) where
  -- Two memories that differ only in the range hold the same headers.
  pub phdr_at-same :
      (m m' : Bytes) (i : ℕ)
      → ((x : ℕ) → (x < base) ⊎ (base + size ≤ x) → m' x ≡ m x)
      → InFile raw file_size (phdr_address m raw table i)
      → (phdr_address m' raw table i ≡ phdr_address m raw table i)
        × (phdr_at m' raw table i ≡ phdr_at m raw table i)
  phdr_at-same m m' i same (from, to) =
      let shared : (x : ℕ) → raw ≤ x → x < raw + file_size → m' x ≡ m x =
        λ x h k. same x (elim apart [ inl a ↦ inl (omega arith) | inr a ↦ inr (omega arith) ]) in
      let address : phdr_address m' raw table i ≡ phdr_address m raw table i =
        ap (λ e. u64 (table + u64 (i * e)))
          (read16-same m m' raw (raw + file_size) shared (raw + 54) (omega arith) (omega arith)) in
      (
        address,
        ap (read_phdr m') address
            ∙ read_phdr-same m m' raw (raw + file_size) shared (phdr_address m raw table i) from to,
      )

  -- The copy of a segment that is in the range.
  segment-outside :
      (p : Phdr) (m : Bytes) (x : ℕ)
      → skipped p ≡ false
      → p.p_filesz ≤ p.p_memsz
      → Inside base size p
      → (x < base) ⊎ (base + size ≤ x)
      → (memcpy (u64 (base + sub64 p.p_vaddr base)) (u64 (raw + p.p_offset)) p.p_filesz m).1 x ≡ m x
  unfolding memcpy
  segment-outside p m x no_skip small (inl e) out = cc (e, no_skip)
  segment-outside p m x no_skip small (inr (low, high)) out =
      let start : u64 (base + sub64 p.p_vaddr base) ≡ p.p_vaddr = omega arith in
      bcopy-copied (u64 (raw + p.p_offset)) (u64 (base + sub64 p.p_vaddr base)) p.p_filesz m x
      ∙ rw start (elim out [ inl o ↦ ground arith | inr o ↦ ground arith ])

  pub e_phnum-same :
      (m m' : Bytes)
      → ((x : ℕ) → (x < base) ⊎ (base + size ≤ x) → m' x ≡ m x)
      → e_phnum m' raw ≡ e_phnum m raw
  e_phnum-same m m' same = ap u16 (
      read16-same m m' raw (raw + file_size)
        (λ x h k. same x (elim apart [ inl a ↦ inl (omega arith) | inr a ↦ inr (omega arith) ]))
        (raw + 56) (omega arith) (omega arith))

  pub load_segments-outside :
      (rounds i : ℕ) (m : Bytes) (x : ℕ)
      → ((j : ℕ) → i ≤ j → j < e_phnum m raw → InFile raw file_size (phdr_address m raw table j))
      → ((j : ℕ) → i ≤ j → j < e_phnum m raw → Inside base size (phdr_at m raw table j))
      → (x < base) ⊎ (base + size ≤ x)
      → (load_segments raw file_size table base base i rounds m).1 x ≡ m x
  unfolding load_segments memcpy
  load_segments-outside zero i m x within inside out = refl
  load_segments-outside (suc rounds) i m x within inside out =
      let p = phdr_at m raw table i in
      let copied =
        (memcpy (u64 (base + sub64 p.p_vaddr base)) (u64 (raw + p.p_offset)) p.p_filesz m).1 in
      elim (Bool-cases (ltb i (e_phnum m raw))) [
        | inr stop ↦ rw (load_segments, stop) refl
        | inl go ↦
            rw (load_segments, go)
              (elim (Bool-cases (skipped p)) [
                | inl e ↦ rw e (
                    load_segments-outside rounds (i + 1) m x (λ j h k. within j (omega arith) k)
                      (λ j h k. inside j (omega arith) k) out)
                | inr e ↦
                    rw e
                      (elim (Bool-cases (
                        ltb file_size (u64 (p.p_offset + p.p_filesz))
                        || ltb p.p_memsz p.p_filesz)) [
                          | inl bad ↦ rw bad refl
                          | inr good ↦
                              let small : p.p_filesz ≤ p.p_memsz = ground arith in
                              let same = λ (y : ℕ) (o : (y < base) ⊎ (base + size ≤ y)).
                                segment-outside p m y e small
                                  (inside i (omega arith) (ground arith)) o in
                              let steady = λ (j : ℕ) (h : i ≤ j) (k : j < e_phnum copied raw).
                                phdr_at-same m copied j same
                                  (within j h (omega (arith, k, e_phnum-same m copied same))) in
                              rw good (
                                load_segments-outside rounds (i + 1) copied x
                                  (λ j h k.
                                    subst (λ a. InFile raw file_size a)
                                      (sym (steady j (omega arith) k).0)
                                      (within j (omega arith)
                                        (omega (arith, k, e_phnum-same m copied same))))
                                  (λ j h k.
                                    subst (λ q. Inside base size q)
                                      (sym (steady j (omega arith) k).1)
                                      (inside j (omega arith)
                                        (omega (arith, k, e_phnum-same m copied same))))
                                  out
                                ∙ same x out)
                        ])
              ])
      ]

module _ (raw file_size table base vmin : ℕ) where
  abbrev segments : ℕ → ℕ → Bytes → Bool × Bytes
  segments = load_segments raw file_size table base vmin

  -- From `i` on, rounds up to 2 ^ 16 are enough: one more makes no difference.
  load_segments-enough :
      (rounds i : ℕ) (m : Bytes)
      → 2 ^ 16 ≤ i + rounds
      → segments i (suc rounds) m ≡ segments i rounds m
  unfolding load_segments
  load_segments-enough zero i m h =
      let stop : ltb i (e_phnum m raw) ≡ false = ground arith in rw (load_segments, stop) refl
  load_segments-enough (suc rounds) i m h = λ k. elim (ltb i (e_phnum m raw)) [
    | false ↦ (true, m)
    | true ↦ elim (skipped (phdr_at m raw table i)) [
      | true ↦ load_segments-enough rounds (i + 1) m (omega arith) k
      | false ↦
          let p = phdr_at m raw table i in
          elim (ltb file_size (u64 (p.p_offset + p.p_filesz)) || ltb p.p_memsz p.p_filesz) [
            | true ↦ (false, m)
            | false ↦
                load_segments-enough rounds (i + 1)
                  (memcpy (u64 (base + sub64 p.p_vaddr vmin)) (u64 (raw + p.p_offset)) p.p_filesz
                    m).1
                  (omega arith) k
          ]
    ]
  ]
