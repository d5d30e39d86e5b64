-- ===== src/Interrupts.antt =====
-- Interrupts and exceptions (kernel/arch/x86_64/irq.cpp and isr.cpp).
pub mod Vectors
pub mod Exceptions
pub mod Dispatch
pub mod Reported
mod Tests
use nokernel.Prelude.{
  ℕ, zero, suc, ◌+◌, ◌^◌, Bool, true, false, not, ltb, ◌==◌, List, [], ◌∷◌, Option, none, some,
  get_elem?, set, length, if◌then◌else◌, characters,
}
use nokernel.Outcome.{Outcome, ok, faults, ◌>>=◌}
use nokernel.Printf.Format.{Arg, word}
use nokernel.Console.Output.{Terminal, kvprintf}
use nokernel.Tables.{Idt, set_idt_gate}

-- `Registers` of kernel/include/arch/x86_64/regs.h.
pub record Registers : Type 0 where
  pub r15 : ℕ
  pub r14 : ℕ
  pub r13 : ℕ
  pub r12 : ℕ
  pub r11 : ℕ
  pub r10 : ℕ
  pub r9 : ℕ
  pub r8 : ℕ
  pub rbp : ℕ
  pub rdi : ℕ
  pub rsi : ℕ
  pub rdx : ℕ
  pub rcx : ℕ
  pub rbx : ℕ
  pub rax : ℕ
  pub int_no : ℕ
  pub error_code : ℕ
  pub rip : ℕ
  pub cs : ℕ
  pub rflags : ℕ
  pub rsp : ℕ
  pub ss : ℕ

abbrev pub pic1_command : ℕ
pic1_command = 0x20

abbrev pub pic1_data : ℕ
pic1_data = 0x21

abbrev pub pic2_command : ℕ
pic2_command = 0xa0

abbrev pub pic2_data : ℕ
pic2_data = 0xa1

abbrev pub pic_eoi : ℕ
pic_eoi = 0x20

-- A byte that was written to a port. A log of them has the last one first.
pub record PortWrite : Type 0 where
  pub data_byte : ℕ
  pub port_number : ℕ

-- `p8b_irq.out(data, portNumber)`.
abbrev pub out : ℕ → ℕ → List PortWrite → List PortWrite
out data_byte port_number log = record { data_byte = data_byte; port_number = port_number } ∷ log

unfoldable pub remap : List PortWrite → List PortWrite
remap log =
    let icw1 = out 0x11 pic2_command (out 0x11 pic1_command log) in
    let vectors = out 0x28 pic2_data (out 0x20 pic1_data icw1) in
    let icw3 = out 0x02 pic2_data (out 0x04 pic1_data vectors) in
    let icw4 = out 0x01 pic2_data (out 0x01 pic1_data icw3) in
    out 0x00 pic2_data (out 0x00 pic1_data icw4)

-- IDT_INTERRUPT_GATE of idt.h.
abbrev pub idt_interrupt_gate : ℕ
idt_interrupt_gate = 0x8e

-- `SetIDTGate(first, stub(0), 0x08, IDT_INTERRUPT_GATE)` and the calls after it, each for the next
-- gate and the next stub: `count` of them, from `k` on.
unfoldable pub set_gates : ℕ → (ℕ → ℕ) → ℕ → ℕ → Idt → Idt
set_gates first stub k zero idt = idt
set_gates first stub k (suc count) idt =
    set_gates first stub (k + 1) count
      (set_idt_gate idt (first + k) (stub k) 0x08 idt_interrupt_gate)

-- `ISR::install`, with the addresses of `isr0` to `isr31`.
unfoldable pub install_isr : (ℕ → ℕ) → Idt → Idt
install_isr isr idt = set_gates 0 isr 0 32 idt

-- `IRQ::install`, with the addresses of `irq0` to `irq15`.
unfoldable pub install_irq : (ℕ → ℕ) → Idt × List PortWrite → Idt × List PortWrite
install_irq irq (idt, log) = (set_gates 32 irq 0 16 idt, remap log)

-- `irq_routines`, where 0 is no handler; what was written to the ports; and the terminal.
pub record Irqs : Type 0 where
  pub irq_routines : List ℕ
  pub ports : List PortWrite
  pub terminal : Terminal

-- An index outside of the array reads and writes what is not modelled, and counts as a fault.
abbrev pub routine_at : Irqs → ℕ → Outcome ℕ
routine_at s irq = elim (get_elem? s.irq_routines irq) [ none ↦ faults | some h ↦ ok h ]

abbrev pub set_routine : ℕ → ℕ → Irqs → Outcome Irqs
set_routine irq handler s =
    if ltb irq (length s.irq_routines)
    then ok (record s { irq_routines = set s.irq_routines irq handler })
    else faults

unfoldable pub install_irq_handler : ℕ → ℕ → Irqs → Outcome Irqs
install_irq_handler irq handler s =
    kvprintf s.terminal (characters "\nInstalling IRQ %d") (word irq ∷ []) >>= λ (_, t).
    set_routine irq handler (record s { terminal = t })

unfoldable pub uninstall_irq_handler : ℕ → Irqs → Outcome Irqs
uninstall_irq_handler irq s = set_routine irq 0 s

-- The handlers are not part of the kernel: `call` runs the one at an address, which may change the
-- registers and the state.
module _ (call : ℕ → Registers → Irqs → Registers × Irqs) where
  unfoldable pub irq_handler : Registers → Irqs → Outcome (Registers × Irqs)
  irq_handler r s = routine_at s r.int_no >>= λ handler.
      let (r', s') = if not (handler == 0) then call handler r s else (r, s) in
      let slave = if not (ltb r'.int_no 8) then out pic_eoi pic2_command s'.ports else s'.ports in
      ok (r', record s' { ports = out pic_eoi pic1_command slave })
