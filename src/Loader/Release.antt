-- ===== src/Loader/Release.antt =====
-- What the loading of a bitmap file gives back (boot/src/include/disk/disk.c).
use nokernel.Prelude.{
  ℕ, ◌+◌, ◌*◌, ◌/◌, ◌≡◌, refl, ap, ◌∙◌, inl, inr, true, false, not, ◌||◌, ltb, ◌==◌, List, ◌∷◌,
  none, some, arith, Bool-cases,
}
use nokernel.Word.{align_up}
use nokernel.Memory.{memset}
use nokernel.Loader.{
  Firmware, World, Resource, took, file, pool, pages, held, without, same, efi_error, efi_success,
  efi_load_error, efi_buffer_too_small,
}
use nokernel.Loader.Disk.{
  Loaded, close_all, free_info, give_up, read_bitmap, read_info, with_file, load_bmp_file,
  page_size, bitmap_header_size,
}

-- The firmware gives no null pointers when it succeeds.
pub record NonNull (f : Firmware) : Type 0 where
  pub handles :
      (s : f.State) (root : ℕ) (path : List ℕ)
      → efi_error (f.open_file s root path).0.0 ≡ false
      → ((f.open_file s root path).0.1 == 0) ≡ false
  pub pools :
      (s : f.State) (size : ℕ)
      → efi_error (f.allocate_pool s size).0.0 ≡ false
      → ((f.allocate_pool s size).0.1 == 0) ≡ false

same_self : (r : Resource) → same r r ≡ true
same_self (file a) = ground arith
same_self (pool a) = ground arith
same_self (pages a n) = ground arith

pub without_first : (r : Resource) (xs : List Resource) → without r (r ∷ xs) ≡ xs
without_first r xs = rw (same_self r) refl

-- A failure holds what was held before, a success the pages of the bitmap more.
pub data Ends {f : Firmware} (before : List Resource) (l : Loaded f) : Type 0 where
  failed : l.0.1 ≡ none → efi_error l.0.0 ≡ true → held l.1.trace ≡ before → Ends before l
  loaded :
      (base count : ℕ)
      → l.0.1 ≡ some (record { header = base; base_address = base })
      → l.0.0 ≡ efi_success
      → held l.1.trace ≡ pages base count ∷ before
      → Ends before l

module _ (f : Firmware) where
  give_up-Ends :
      (err base count : ℕ) (w : World f) (before : List Resource)
      → efi_error err ≡ true
      → held w.trace ≡ pages base count ∷ before
      → Ends before (give_up f err base count w)
  give_up-Ends err base count w before e h =
      failed refl e (ap (without (pages base count)) h ∙ without_first (pages base count) before)

  read_bitmap-Ends :
      (handle size base count : ℕ) (w : World f) (before : List Resource)
      → held w.trace ≡ pages base count ∷ before
      → Ends before (read_bitmap f handle size base count w)
  unfolding read_bitmap
  read_bitmap-Ends handle size base count w before h =
      let cleared = (memset base 0 (count * page_size) w.bytes).1 in
      let ((err, read), (state, bytes)) = f.read_file w.firmware handle size base cleared in
      elim (Bool-cases (efi_error err)) [
        | inl e ↦
            rw e (
              give_up-Ends err base count (record w { firmware = state; bytes = bytes }) before e h)
        | inr e ↦ rw e (elim (Bool-cases (not (read == size))) [
          | inl g ↦ rw g (
              give_up-Ends efi_load_error base count (record w { firmware = state; bytes = bytes })
                before refl h)
          | inr g ↦
              rw g (elim (Bool-cases (not (bytes base == 66) || not (bytes (base + 1) == 77))) [
                | inl k ↦ rw k (
                    give_up-Ends efi_load_error base count
                      (record w { firmware = state; bytes = bytes }) before refl h)
                | inr k ↦ rw k (loaded base count refl refl h)
              ])
        ])
      ]

  read_info-Ends :
      (handle info_size info : ℕ) (w : World f) (before : List Resource)
      → held w.trace ≡ before
      → Ends before (read_info f handle info_size info w)
  unfolding read_info
  read_info-Ends handle info_size info w before h =
      let ((err, (_, size)), state) = f.get_info w.firmware handle info_size info in
      let count = align_up size page_size / page_size in
      let ((err', base), state') = f.allocate_pages state count in
      elim (Bool-cases (efi_error err)) [
        | inl e ↦ rw e (failed refl e h)
        | inr e ↦ rw e (elim (Bool-cases (ltb size bitmap_header_size)) [
          | inl g ↦ rw g (failed refl refl h)
          | inr g ↦ rw g (elim (Bool-cases (efi_error err')) [
            | inl k ↦ rw k (failed refl k h)
            | inr k ↦ rw k (
                read_bitmap-Ends handle size base count
                  (record w { firmware = state'; trace = took (pages base count) ∷ w.trace }) before
                  (ap (λ r. pages base count ∷ r) h))
          ])
        ])
      ]

  free_info-Ends :
      (info : ℕ) (l : Loaded f) (before : List Resource)
      → (info == 0) ≡ false
      → Ends (pool info ∷ before) l
      → Ends before (free_info f info l)
  free_info-Ends info l before n (failed nothing err h) =
      rw n (failed nothing err (ap (without (pool info)) h ∙ without_first (pool info) before))
  free_info-Ends info l before n (loaded base count done good h) = rw n (
      loaded base count done good (
        ap (without (pool info)) h
        ∙ ap (λ k. pages base count ∷ k) (without_first (pool info) before)))

  close_all-Ends :
      (handle : ℕ) (l : Loaded f) (before : List Resource)
      → (handle == 0) ≡ false
      → Ends (file handle ∷ before) l
      → Ends before (close_all f handle l)
  close_all-Ends handle l before n (failed nothing err h) =
      rw n (failed nothing err (ap (without (file handle)) h ∙ without_first (file handle) before))
  close_all-Ends handle l before n (loaded base count done good h) = rw n (
      loaded base count done good (
        ap (without (file handle)) h
        ∙ ap (λ k. pages base count ∷ k) (without_first (file handle) before)))

  module _ (ok : NonNull f) where
    with_file-Ends :
        (handle : ℕ) (w : World f) (before : List Resource)
        → held w.trace ≡ before
        → Ends before (with_file f handle w)
    unfolding with_file
    with_file-Ends handle w before h =
        let ((err, (info_size, _)), state) = f.get_info w.firmware handle 0 0 in
        let ((err', info), state') = f.allocate_pool state info_size in
        elim (Bool-cases (not (err == efi_buffer_too_small))) [
          | inl e ↦ rw e (failed refl refl h)
          | inr e ↦ rw e (elim (Bool-cases (efi_error err')) [
            | inl k ↦ rw k (failed refl k h)
            | inr k ↦ rw k (
                free_info-Ends info _ before (ok.pools state info_size k) (
                  read_info-Ends handle info_size info
                    (record w { firmware = state'; trace = took (pool info) ∷ w.trace })
                    (pool info ∷ before) (ap (λ r. pool info ∷ r) h)))
          ])
        ]

    -- If the firmware gives no null pointers when it succeeds, then loading a bitmap file either fails
    -- with an error, and what is held of files, pools and pages is what was held before, or succeeds,
    -- and the pages of the bitmap are held in addition.
    pub load_bmp_file-Ends :
        (root : ℕ) (path : List ℕ) (w : World f) → Ends (held w.trace) (load_bmp_file f root path w)
    unfolding load_bmp_file
    load_bmp_file-Ends root path w =
        let ((err, handle), state) = f.open_file w.firmware root path in
        elim (Bool-cases (efi_error err)) [
          | inl e ↦ rw e (failed refl e refl)
          | inr e ↦ rw e (
              close_all-Ends handle _ (held w.trace) (ok.handles w.firmware root path e) (
                with_file-Ends handle
                  (record w { firmware = state; trace = took (file handle) ∷ w.trace })
                  (file handle ∷ held w.trace) refl))
        ]
