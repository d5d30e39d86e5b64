-- ===== src/Interrupts/Exceptions.antt =====
-- The report of an exception (kernel/arch/x86_64/isr.cpp).
use nokernel.Prelude.{
  ℕ, Bool, true, false, not, ltb, ◌==◌, List, [], ◌∷◌, get_or, if◌then◌else◌, bit_and, characters,
}
use nokernel.Outcome.{Outcome, ok, ◌>>=◌}
use nokernel.Printf.Format.{Arg, word, text}
use nokernel.Console.Output.{Terminal}
use nokernel.Panic.{keprintf}
use nokernel.Interrupts.{Registers}

abbrev pub exception_messages : List (List ℕ)
exception_messages =
    characters "Division by zero"
    ∷ characters "Debug"
    ∷ characters "Non-maskable interrupt"
    ∷ characters "Breakpoint"
    ∷ characters "Detected overflow"
    ∷ characters "Out-of-bounds"
    ∷ characters "Invalid opcode"
    ∷ characters "No coprocessor"
    ∷ characters "Double fault"
    ∷ characters "Coprocessor segment overrun"
    ∷ characters "Bad TSS"
    ∷ characters "Segment not present"
    ∷ characters "Stack fault"
    ∷ characters "General protection fault"
    ∷ characters "Page fault"
    ∷ characters "Unknown interrupt"
    ∷ characters "Coprocessor fault"
    ∷ characters "Alignment check"
    ∷ characters "Machine check"
    ∷ characters "Reserved"
    ∷ characters "Reserved"
    ∷ characters "Reserved"
    ∷ characters "Reserved"
    ∷ characters "Reserved"
    ∷ characters "Reserved"
    ∷ characters "Reserved"
    ∷ characters "Reserved"
    ∷ characters "Reserved"
    ∷ characters "Reserved"
    ∷ characters "Reserved"
    ∷ characters "Reserved"
    ∷ characters "Reserved"
    ∷ []

-- `r->int_no < 32 ? ExceptionMessages[r->int_no] : "Unknown"`.
abbrev pub message_of : Registers → List ℕ
message_of r =
    if ltb r.int_no 32 then get_or exception_messages r.int_no [] else characters "Unknown"

-- A `keprintf`: its format and its arguments.
abbrev pub Call : Type 0
Call = List ℕ × List Arg

abbrev pub page_fault_call : ℕ → Call
page_fault_call e = (
  characters "Page Fault: %s, %s, %s mode%s%s\n",
  text (if not (bit_and e 1 == 0) then characters "protection" else characters "not present")
      ∷ text (if not (bit_and e 2 == 0) then characters "write" else characters "read")
      ∷ text (if not (bit_and e 4 == 0) then characters "user" else characters "kernel")
      ∷ text (if not (bit_and e 8 == 0) then characters ", reserved bit" else [])
      ∷ text (if not (bit_and e 16 == 0) then characters ", execute" else [])
      ∷ [],
)

-- The calls that dump the registers; `cr2` and `cr3` are read from the processor.
abbrev pub register_calls : Registers → ℕ → ℕ → List ℕ → List Call
register_calls r cr2 cr3 msg =
    (
      characters "RIP  %016lx  CS   %04lx   RFLAGS %016lx\n",
      word r.rip ∷ word r.cs ∷ word r.rflags ∷ [],
    )
    ∷ (characters "RSP  %016lx  SS   %04lx\n", word r.rsp ∷ word r.ss ∷ [])
    ∷ (
      characters "RAX  %016lx  RBX  %016lx  RCX  %016lx\n",
      word r.rax ∷ word r.rbx ∷ word r.rcx ∷ [],
    )
    ∷ (
      characters "RDX  %016lx  RSI  %016lx  RDI  %016lx\n",
      word r.rdx ∷ word r.rsi ∷ word r.rdi ∷ [],
    )
    ∷ (
      characters "RBP  %016lx  R8   %016lx  R9   %016lx\n",
      word r.rbp ∷ word r.r8 ∷ word r.r9 ∷ [],
    )
    ∷ (
      characters "R10  %016lx  R11  %016lx  R12  %016lx\n",
      word r.r10 ∷ word r.r11 ∷ word r.r12 ∷ [],
    )
    ∷ (
      characters "R13  %016lx  R14  %016lx  R15  %016lx\n",
      word r.r13 ∷ word r.r14 ∷ word r.r15 ∷ [],
    )
    ∷ (characters "CR2  %016lx  CR3  %016lx\n", word cr2 ∷ word cr3 ∷ [])
    ∷ (characters "---[ end Kernel panic - Not Syncing: %s ]---\n", text msg ∷ [])
    ∷ []

abbrev pub exception_calls : Registers → ℕ → ℕ → List Call
exception_calls r cr2 cr3 =
    let msg = message_of r in
    (
      characters "\nKernel panic - Not Syncing: %s (vector %lu, error %#lx)\n",
      text msg ∷ word r.int_no ∷ word r.error_code ∷ [],
    )
    ∷ (if r.int_no == 14
        then page_fault_call r.error_code ∷ register_calls r cr2 cr3 msg
        else register_calls r cr2 cr3 msg)

unfoldable pub print_calls : Bool → List Call → Terminal → Outcome Terminal
print_calls serial [] t = ok t
print_calls serial ((format, args) ∷ calls) t =
    keprintf serial format args t >>= λ t'. print_calls serial calls t'

-- The static variable `panic` of the function, and the terminal, at which the processor halts. An
-- exception during the report halts at once.
unfoldable pub exception_panic : Registers → ℕ → ℕ → Bool × Terminal → Outcome (Bool × Terminal)
exception_panic r cr2 cr3 (panic, t) =
    let calls = exception_calls r cr2 cr3 in
    if panic
    then ok (panic, t)
    else (print_calls true calls t >>= λ t1. print_calls false calls t1 >>= λ t2. ok (true, t2))

unfoldable pub interrupt_exception_handler :
    Registers → ℕ → ℕ → Bool × Terminal → Outcome (Bool × Terminal)
interrupt_exception_handler r cr2 cr3 s = exception_panic r cr2 cr3 s
