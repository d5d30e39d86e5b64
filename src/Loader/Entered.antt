-- ===== src/Loader/Entered.antt =====
-- In what state the kernel is entered (boot/src/include/boot/boot.c).
use nokernel.Prelude.{
  ℕ, zero, suc, ◌+◌, ◌*◌, ◌≡◌, refl, ap, ◌⊎◌, true, not, ◌==◌, List, ◌∷◌, Bool-cases, inl, inr,
  ==_iff,
}
use mathlib.Core.Path.{subst}
use nokernel.Word.{u64}
use nokernel.Loader.{
  Firmware, MemoryMap, World, Resource, Event, took, released, pool, pages, held, efi_error,
  efi_success, efi_load_error, efi_buffer_too_small, efi_out_of_resources,
}
use nokernel.Loader.Handover.{Handover, returned, entered, stack_top, attempt, handover}
use nokernel.Loader.Release.{NonNull, without_first}

-- How a run ends, with what was held before it and at which state of the firmware.
pub data Left {f : Firmware} (entry stack : ℕ) (before : List Resource) (r : Handover × World f)
    : Type 0 where
  -- The map that the kernel is given is the one that the firmware gave last before it agreed, by the
  -- key of that map, to be left.
  entered_with :
      (size mmap : ℕ) (map : MemoryMap) (s s' : f.State)
      → (f.get_memory_map s size mmap).0 ≡ (efi_success, map)
      → f.exit_boot_services (f.get_memory_map s size mmap).1 map.key ≡ (efi_success, s')
      → r.0
        ≡ entered entry (stack_top stack) (record {
          mmap = mmap;
          mmap_size = map.size;
          desc_size = map.descriptor_size;
          desc_ver = map.descriptor_version;
        })
      → r.1.firmware ≡ s'
      → held r.1.trace ≡ pool mmap ∷ before
      → Left entry stack before r
  gave_up :
      (err : ℕ)
      → r.0 ≡ returned err
      → efi_error err ≡ true
      → held r.1.trace ≡ before
      → Left entry stack before r

-- A pool that was taken and freed is not held.
freed_first :
    {f : Firmware} {entry stack : ℕ} {r : Handover × World f} (mmap : ℕ) (trace : List Event)
    → Left entry stack (held (released (pool mmap) ∷ took (pool mmap) ∷ trace)) r
    → Left entry stack (held trace) r
freed_first {entry} {stack} {r} mmap trace l =
    subst (λ k. Left entry stack k r) (without_first (pool mmap) (held trace)) l

module _ (f : Firmware) (ok : NonNull f) where
  attempt-Left :
      (attempts entry stack : ℕ) (w : World f)
      → Left entry stack (held w.trace) (attempt f attempts entry stack w)
  unfolding attempt
  attempt-Left zero entry stack w = gave_up efi_load_error refl refl refl
  attempt-Left (suc attempts) entry stack w =
      let ((first, needed), s1) = f.get_memory_map w.firmware 0 0 in
      let size = u64 (needed.size + u64 (4 * needed.descriptor_size)) in
      let ((err, mmap), s2) = f.allocate_pool s1 size in
      let ((second, map), s3) = f.get_memory_map s2 size mmap in
      let (exited, s4) = f.exit_boot_services s3 map.key in
      elim (Bool-cases (not (first == efi_buffer_too_small))) [
        | inl e ↦ rw e (gave_up efi_load_error refl refl refl)
        | inr e ↦ rw e (elim (Bool-cases (efi_error err)) [
          | inl g ↦ rw g (gave_up efi_out_of_resources refl refl refl)
          | inr g ↦ rw g (elim (Bool-cases (second == efi_success)) [
            | inr k ↦ rw k (
                freed_first mmap w.trace (
                  attempt-Left attempts entry stack (record w {
                    firmware = f.free_pool s3 mmap;
                    trace = released (pool mmap) ∷ took (pool mmap) ∷ w.trace;
                  })))
            | inl k ↦ rw k (elim (Bool-cases (exited == efi_success)) [
              | inr l ↦ rw l (
                  freed_first mmap w.trace (
                    attempt-Left attempts entry stack (record w {
                      firmware = f.free_pool s4 mmap;
                      trace = released (pool mmap) ∷ took (pool mmap) ∷ w.trace;
                    })))
              | inl l ↦
                  rw (l, ok.pools s1 size g)
                    (entered_with size mmap map s2 s4
                      (ap (λ c. (c, map)) ((==_iff second efi_success).0 k))
                      (ap (λ c. (c, s4)) ((==_iff exited efi_success).0 l)) refl refl refl)
            ])
          ])
        ])
      ]

  -- If the firmware gives no null pointers when it succeeds, then `handover` either returns an error,
  -- and holds no more than before but the pages of the stack if it has got them; or it enters the
  -- kernel at the address, at the top of that stack, with the memory map that the firmware gave last,
  -- after the firmware has been left by the key of this map and with no call in between, and holds the
  -- buffer of the map and the stack, but no buffer of an attempt before.
  pub handover-Left :
      (entry : ℕ) (w : World f)
      → let (err, stack) = (f.allocate_pages w.firmware 16).0 in
        ((efi_error err ≡ true)
          × (((handover f entry w).0 ≡ returned efi_out_of_resources)
              × (held (handover f entry w).1.trace ≡ held w.trace)))
        ⊎ Left entry stack (pages stack 16 ∷ held w.trace) (handover f entry w)
  unfolding handover
  handover-Left entry w =
      let ((err, stack), s) = f.allocate_pages w.firmware 16 in
      elim (Bool-cases (efi_error err)) [
        | inl e ↦ inl (e, rw e (refl, refl))
        | inr e ↦ inr (
            rw e (
              attempt-Left 3 entry stack
                (record w { firmware = s; trace = took (pages stack 16) ∷ w.trace })))
      ]

module _ (f : Firmware) where
  bytes-attempt :
      (attempts entry stack : ℕ) (w : World f)
      → (attempt f attempts entry stack w).1.bytes ≡ w.bytes
  unfolding attempt
  bytes-attempt zero entry stack w = refl
  bytes-attempt (suc attempts) entry stack w =
      let ((first, needed), s1) = f.get_memory_map w.firmware 0 0 in
      let size = u64 (needed.size + u64 (4 * needed.descriptor_size)) in
      let ((err, mmap), s2) = f.allocate_pool s1 size in
      let ((second, map), s3) = f.get_memory_map s2 size mmap in
      let (exited, s4) = f.exit_boot_services s3 map.key in
      let again = λ (s : f.State). bytes-attempt attempts entry stack (record w {
        firmware = f.free_pool s mmap;
        trace = released (pool mmap) ∷ took (pool mmap) ∷ w.trace;
      }) in
      elim (Bool-cases (first == efi_buffer_too_small)) [
        | inr e ↦ rw e refl
        | inl e ↦ rw e (elim (Bool-cases (efi_error err)) [
          | inl g ↦ rw g refl
          | inr g ↦ rw g (elim (Bool-cases (second == efi_success)) [
            | inr k ↦ rw k (again s3)
            | inl k ↦ rw k (elim (Bool-cases (exited == efi_success)) [
              | inl l ↦ rw l refl
              | inr l ↦ rw l (again s4)
            ])
          ])
        ])
      ]

  -- The handover leaves the memory as it was.
  pub bytes-handover : (entry : ℕ) (w : World f) → (handover f entry w).1.bytes ≡ w.bytes
  unfolding handover
  bytes-handover entry w =
      let ((err, stack), s) = f.allocate_pages w.firmware 16 in
      elim (Bool-cases (efi_error err)) [
        | inl e ↦ rw e refl
        | inr e ↦ rw e (
            bytes-attempt 3 entry stack
              (record w { firmware = s; trace = took (pages stack 16) ∷ w.trace }))
      ]
