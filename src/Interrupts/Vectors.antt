-- ===== src/Interrupts/Vectors.antt =====
-- Which code an interrupt or an exception arrives at (kernel/arch/x86_64/isr.cpp and irq.cpp).
use nokernel.Prelude.{
  ℕ, zero, suc, ◌+◌, ◌-◌, ◌^◌, ◌≤◌, ◌<◌, ◌≡◌, refl, ap, ◌∙◌, sym, ◌⊎◌, inl, inr, ltb, ◌==◌, List,
  [], ◌∷◌, if◌then◌else◌, Option, none, some, Bool, not, ◌&&◌, arith, bit_and, Bool-cases,
}
use mathlib.Core.Path.{subst}
use native.Mathlib.Nat.{zero-add}
use nokernel.Word.Bits.{and-zero}
use nokernel.Tables.{Idt, IdtEntry, set_idt_gate}
use nokernel.Tables.Gates.{offset_of, set_idt_gate_lem}
use nokernel.Interrupts.{PortWrite, remap, set_gates, install_isr, install_irq, idt_interrupt_gate}

-- An interrupt gate of the kernel's code segment to a handler, without a stack of its own.
pub record IsGate (handler : ℕ) (e : IdtEntry) : Type 0 where
  pub offset : offset_of e ≡ handler
  pub selector : e.selector ≡ 0x08
  pub type_attributes : e.type_attributes ≡ idt_interrupt_gate
  pub ist : e.ist ≡ 0

module _ (first : ℕ) (stub : ℕ → ℕ) (small : (n : ℕ) → stub n < 2 ^ 64) where
  set_gates-outside :
      (count k : ℕ) (idt : Idt) (i : ℕ)
      → (i < first + k) ⊎ (first + k + count ≤ i)
      → set_gates first stub k count idt i ≡ idt i
  unfolding set_gates
  set_gates-outside zero k idt i h = refl
  set_gates-outside (suc count) k idt i h =
      let (_, (_, (_, (_, others)))) =
        set_idt_gate_lem idt (first + k) (stub k) 0x08 idt_interrupt_gate (small k) in
      set_gates-outside count (k + 1) _ i
        (elim h [ inl a ↦ inl (omega arith) | inr a ↦ inr (omega arith) ])
      ∙ others i (λ e. elim h [ inl a ↦ omega arith | inr a ↦ omega arith ])

  set_gates-IsGate_first :
      (count k : ℕ) (idt : Idt)
      → IsGate (stub k) (set_gates first stub k (suc count) idt (first + k))
  unfolding set_gates
  set_gates-IsGate_first count k idt =
      let after = set_idt_gate idt (first + k) (stub k) 0x08 idt_interrupt_gate in
      let (offset, (selector, (flags, (ist, _)))) =
        set_idt_gate_lem idt (first + k) (stub k) 0x08 idt_interrupt_gate (small k) in
      let gate : IsGate (stub k) (after (first + k)) = record {
        offset = offset;
        selector = selector;
        type_attributes = flags;
        ist = ist;
      } in
      subst (λ e. IsGate (stub k) e)
        (sym (set_gates-outside count (k + 1) after (first + k) (inl (omega arith)))) gate

  set_gates-IsGate :
      (count k n : ℕ) (idt : Idt)
      → k ≤ n
      → n < k + count
      → IsGate (stub n) (set_gates first stub k count idt (first + n))
  unfolding set_gates
  set_gates-IsGate zero k n idt h i = absurd (omega arith)
  set_gates-IsGate (suc count) k n idt h i = elim (Bool-cases (n == k)) [
    | inl e ↦
        let at : n ≡ k = ground arith in
        subst (λ j. IsGate (stub j) (set_gates first stub k (suc count) idt (first + j))) (sym at)
          (set_gates-IsGate_first count k idt)
    | inr e ↦ set_gates-IsGate count (k + 1) n _ (ground arith) (omega arith)
  ]

-- An interrupt controller, as its data sheet has it: how many of the words that start it are still
-- awaited, and what it was told. A command with bit 4 set starts it anew; where its low bits ask
-- for a controller in a cascade that gets a fourth word, which is the form that the kernel uses, three
-- words follow, and after another form it stays in its start.
pub record Pic : Type 0 where
  pub awaited : ℕ
  pub vector : ℕ
  pub cascade : ℕ
  pub mode : ℕ
  pub mask : ℕ

abbrev pub pic_command : ℕ → Pic → Pic
pic_command v p =
    if bit_and v 0x10 == 0
    then p
    else record p { awaited = if bit_and v 3 == 1 then 3 else 4; mask = 0 }

abbrev pub pic_data : ℕ → Pic → Pic
pic_data v p =
    if p.awaited == 3
    then record p { awaited = 2; vector = v }
    else (if p.awaited == 2
        then record p { awaited = 1; cascade = v }
        else (if p.awaited == 1 then record p { awaited = 0; mode = v } else record p { mask = v }))

-- The two controllers, and the writes of a log, the last of which is its first.
abbrev pub pics_write : PortWrite → Pic × Pic → Pic × Pic
pics_write w (master, slave) =
    if w.port_number == 0x20
    then (pic_command w.data_byte master, slave)
    else (if w.port_number == 0x21
        then (pic_data w.data_byte master, slave)
        else (if w.port_number == 0xa0
            then (master, pic_command w.data_byte slave)
            else (if w.port_number == 0xa1
                then (master, pic_data w.data_byte slave)
                else (master, slave))))

abbrev pub pics_after : List PortWrite → Pic × Pic → Pic × Pic
pics_after [] p = p
pics_after (w ∷ log) p = pics_write w (pics_after log p)

-- A controller that awaits nothing and is in the 8086 mode, and does not mask the line `n` of its
-- eight.
abbrev pub passes : Pic → ℕ → Bool
passes p n = p.awaited == 0 && (p.mode == 1 && (bit_and (2 ^ n) p.mask == 0))

-- The first controller was told that the second is behind its line 2 only, and the second that it is
-- there.
abbrev pub wired : Pic × Pic → Bool
wired (master, slave) = master.cascade == 2 ^ 2 && slave.cascade == 2

-- The vector at which a line arrives, if it does. The second controller has the lines from 8 on, which
-- pass through line 2 of the first.
abbrev pub vector_of : Pic × Pic → ℕ → Option ℕ
vector_of (master, slave) line =
    if not (wired (master, slave))
    then none
    else (if ltb line 8
        then (if passes master line then some (master.vector + line) else none)
        else (if passes master 2 && passes slave (line - 8)
            then some (slave.vector + (line - 8))
            else none))

-- A controller that awaits nothing and masks nothing.
abbrev pub ready : ℕ → ℕ → Pic
ready vector cascade = record {
  awaited = 0;
  vector = vector;
  cascade = cascade;
  mode = 1;
  mask = 0;
}

pub remap-pics :
    (log : List PortWrite) (p : Pic × Pic) → pics_after (remap log) p ≡ (ready 0x20 4, ready 0x28 2)
unfolding remap
remap-pics log p = refl

ready-vector :
    (line : ℕ) → line < 16 → vector_of (ready 0x20 4, ready 0x28 2) line ≡ some (32 + line)
ready-vector line h = elim (Bool-cases (ltb line 8)) [
  | inl low ↦ rw (low, and-zero (2 ^ line)) refl
  | inr high ↦ rw (high, and-zero (2 ^ (line - 8))) (ap some (ground arith))
]

module _ (isr irq : ℕ → ℕ) (isr_small : (n : ℕ) → isr n < 2 ^ 64)
    (irq_small : (n : ℕ) → irq n < 2 ^ 64) where
  -- After both installations, whatever the table, the ports and the controllers held before, every
  -- exception from 0 to 31 has the gate of its stub, every line from 0 to 15 of the controllers
  -- arrives, since they were started in the form that the kernel needs, told of each other, and mask
  -- nothing, at a vector that has the gate of the line's stub, and the gates from 48 on are as before.
  pub install-vectors :
      (idt : Idt) (log : List PortWrite) (p : Pic × Pic)
      → let (idt', log') = install_irq irq (install_isr isr idt, log) in
        ((n : ℕ) → n < 32 → IsGate (isr n) (idt' n))
        × (((line : ℕ)
              → line < 16
              → (vector : ℕ) × (vector_of (pics_after log' p) line ≡ some vector)
                × IsGate (irq line) (idt' vector))
            × ((i : ℕ) → 48 ≤ i → idt' i ≡ idt i))
  unfolding install_irq install_isr
  install-vectors idt log p =
      let exceptions = set_gates 0 isr 0 32 idt in
      (
        λ n h.
            subst (λ e. IsGate (isr n) e)
              (sym (set_gates-outside 32 irq irq_small 16 0 exceptions n (inl (omega arith))))
              (subst (λ j. IsGate (isr n) (exceptions j)) (zero-add n)
                (set_gates-IsGate 0 isr isr_small 32 0 n idt (omega arith) (omega arith))),
        (
          λ line h. (
            32 + line,
            ap (λ q. vector_of q line) (remap-pics log p) ∙ ready-vector line h,
            set_gates-IsGate 32 irq irq_small 16 0 line exceptions (omega arith) (omega arith),
          ),
          λ i h.
              set_gates-outside 32 irq irq_small 16 0 exceptions i (inr (omega arith))
              ∙ set_gates-outside 0 isr isr_small 32 0 idt i (inr (omega arith)),
        ),
      )
