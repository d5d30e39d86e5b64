-- ===== src/Interrupts/Dispatch.antt =====
-- Which handler an interrupt calls (kernel/arch/x86_64/irq.cpp).
use nokernel.Prelude.{
  ℕ, zero, suc, ◌<◌, ◌≡◌, ◌≢◌, refl, ap, ◌∙◌, true, ltb, ◌==◌, List, [], ◌∷◌, some, get_elem?, set,
  length, if◌then◌else◌, arith, Bool-cases, inl, inr,
}
use nokernel.Outcome.{ok}
use nokernel.Interrupts.{
  Registers, Irqs, out, pic_eoi, pic1_command, pic2_command, routine_at, set_routine, irq_handler,
}

get_elem?-set_self :
    {A : Type 0} (xs : List A) (i : ℕ) (v : A) → i < length xs → get_elem? (set xs i v) i ≡ some v
get_elem?-set_self [] i v h = absurd (omega arith)
get_elem?-set_self (x ∷ xs) zero v h = refl
get_elem?-set_self (x ∷ xs) (suc i) v h = get_elem?-set_self xs i v (omega arith)

get_elem?-set_ne :
    {A : Type 0} (xs : List A) (i j : ℕ) (v : A) → i ≢ j → get_elem? (set xs i v) j ≡ get_elem? xs j
get_elem?-set_ne [] i j v h = refl
get_elem?-set_ne (x ∷ xs) zero zero v h = absurd (h refl)
get_elem?-set_ne (x ∷ xs) zero (suc j) v h = refl
get_elem?-set_ne (x ∷ xs) (suc i) zero v h = refl
get_elem?-set_ne (x ∷ xs) (suc i) (suc j) v h = get_elem?-set_ne xs i j v (λ e. h (ap suc e))

-- The state after an interrupt of a line has been acknowledged: at the first controller, and before
-- that at the second one when it is one of its lines.
abbrev pub acknowledged : Registers × Irqs → Registers × Irqs
acknowledged (r, s) = (
  r,
  record s {
    ports =
        if ltb r.int_no 8
        then out pic_eoi pic1_command s.ports
        else out pic_eoi pic1_command (out pic_eoi pic2_command s.ports);
  },
)

module _ (call : ℕ → Registers → Irqs → Registers × Irqs) where
  -- What an interrupt does when the routine of its line is `handler`.
  abbrev pub handled : ℕ → Registers → Irqs → Registers × Irqs
  handled handler r s = acknowledged (if handler == 0 then (r, s) else call handler r s)

  irq_handler-handled :
      (r : Registers) (s : Irqs) (handler : ℕ)
      → routine_at s r.int_no ≡ ok handler
      → irq_handler call r s ≡ ok (handled handler r s)
  unfolding irq_handler
  irq_handler-handled r s handler h = elim (Bool-cases (handler == 0)) [
    | inl e ↦
        rw (h, e)
          (elim (Bool-cases (ltb r.int_no 8)) [ inl low ↦ rw low refl | inr high ↦ rw high refl ])
    | inr e ↦
        let (r', s') = call handler r s in
        rw (h, e)
          (elim (Bool-cases (ltb (call handler r s).0.int_no 8)) [
            | inl low ↦ rw low refl
            | inr high ↦ rw high refl
          ])
  ]

-- What setting a routine does to the table: it stays as long as it was, the line has the new routine,
-- and the other lines keep theirs.
record Routed (irq handler : ℕ) (s s' : Irqs) : Type 0 where
  here : routine_at s' irq ≡ ok handler
  elsewhere : (j : ℕ) → irq ≢ j → routine_at s' j ≡ routine_at s j

set_routine-Routed :
    (irq handler : ℕ) (s : Irqs)
    → irq < length s.irq_routines
    → (s' : Irqs) × ((set_routine irq handler s ≡ ok s') × Routed irq handler s s')
set_routine-Routed irq handler s h =
    let within : ltb irq (length s.irq_routines) ≡ true = ground arith in
    (
      record s { irq_routines = set s.irq_routines irq handler },
      (
        rw within refl,
        record {
          here = rw (get_elem?-set_self s.irq_routines irq handler h, routine_at) refl;
          elsewhere =
              λ j ne. rw (get_elem?-set_ne s.irq_routines irq j handler ne, routine_at) refl;
        },
      ),
    )

module _ (call : ℕ → Registers → Irqs → Registers × Irqs) where
  -- Setting a routine on a line of the table always succeeds. From then on an interrupt of that line
  -- runs it, or nothing when the routine is 0, which is how a handler is uninstalled; an interrupt of
  -- another line does what it did before; and every interrupt is acknowledged after its handler, at
  -- the second controller first when its number, as the handler leaves it, is 8 or more, and always at
  -- the first.
  pub set_routine-irq_handler :
      (irq handler : ℕ) (s : Irqs)
      → irq < length s.irq_routines
      → (s' : Irqs) × ((set_routine irq handler s ≡ ok s')
          × (((r : Registers)
                → r.int_no ≡ irq
                → irq_handler call r s' ≡ ok (handled call handler r s'))
              × ((r : Registers) (h : ℕ)
                  → irq ≢ r.int_no
                  → routine_at s r.int_no ≡ ok h
                  → irq_handler call r s' ≡ ok (handled call h r s'))))
  set_routine-irq_handler irq handler s within =
      let (s', (done, routed)) = set_routine-Routed irq handler s within in
      (
        s',
        (
          done,
          (
            λ r e. irq_handler-handled call r s' handler (ap (routine_at s') e ∙ routed.here),
            λ r h ne at. irq_handler-handled call r s' h (routed.elsewhere r.int_no ne ∙ at),
          ),
        ),
      )
