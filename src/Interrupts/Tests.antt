-- ===== src/Interrupts/Tests.antt =====
-- Runs of the interrupt handling (kernel/arch/x86_64/irq.cpp and isr.cpp).
use nokernel.Memory.{Bytes}
use nokernel.Printf
use nokernel.Printf.Format
use nokernel.Printf.Loop.{text_of}
use nokernel.Console.{Console, print}
use nokernel.Console.Printing.{sent}
use nokernel.Interrupts.Exceptions.{exception_calls, exception_panic}
use nokernel.Interrupts.Reported.{text_of_calls, exception_panic-reported}
use nokernel.Prelude.{
  ℕ, ◌+◌, ◌%◌, ◌^◌, ◌≤◌, ◌<◌, ◌≡◌, ◌≢◌, refl, true, false, [], ◌∷◌, none, some, List, ◌++◌,
  replicate, arith, characters,
}
use nokernel.Outcome.{ok}
use nokernel.Tables.{new_idt}
use nokernel.Interrupts.{
  Registers, Irqs, install_isr, install_irq, set_routine, irq_handler, routine_at,
}
use nokernel.Interrupts.Vectors.{IsGate, Pic, pics_after, vector_of, install-vectors}
use nokernel.Interrupts.Dispatch.{handled, set_routine-irq_handler}

abbrev stub : ℕ → ℕ
stub n = (0x20_0000 + n) % 2 ^ 64

stub_bound : (n : ℕ) → stub n < 2 ^ 64
stub_bound n = omega arith

abbrev reset : Pic
reset = record { awaited = 0; vector = 0; cascade = 0; mode = 0; mask = 0xff }

install-vectors_example :
    let (idt', log') = install_irq stub (install_isr stub new_idt, []) in
    ((n : ℕ) → n < 32 → IsGate (stub n) (idt' n))
    × (((line : ℕ)
          → line < 16
          → (vector : ℕ) × (vector_of (pics_after log' (reset, reset)) line ≡ some vector)
            × IsGate (stub line) (idt' vector))
        × ((i : ℕ) → 48 ≤ i → idt' i ≡ new_idt i))
install-vectors_example = install-vectors stub stub stub_bound stub_bound new_idt [] (reset, reset)

abbrev registers : ℕ → Registers
registers n = record {
  r15 = 0;
  r14 = 0;
  r13 = 0;
  r12 = 0;
  r11 = 0;
  r10 = 0;
  r9 = 0;
  r8 = 0;
  rbp = 0;
  rdi = 0;
  rsi = 0;
  rdx = 0;
  rcx = 0;
  rbx = 0;
  rax = 0;
  int_no = n;
  error_code = 0;
  rip = 0;
  cs = 8;
  rflags = 0;
  rsp = 0;
  ss = 16;
}

abbrev idle : Irqs
idle = record {
  irq_routines = replicate 16 0;
  ports = [];
  terminal = record { s_console = none; bytes = λ _. 0; serial = []; route_to_com = true };
}

-- A handler that counts in `rax`.
abbrev tick : ℕ → Registers → Irqs → Registers × Irqs
tick h r s = (record r { rax = r.rax + h }, s)

set_routine-irq_handler_example :
    (s' : Irqs) × ((set_routine 8 5 idle ≡ ok s')
      × (((r : Registers) → r.int_no ≡ 8 → irq_handler tick r s' ≡ ok (handled tick 5 r s'))
          × ((r : Registers) (h : ℕ)
              → 8 ≢ r.int_no
              → routine_at idle r.int_no ≡ ok h
              → irq_handler tick r s' ≡ ok (handled tick h r s'))))
set_routine-irq_handler_example = set_routine-irq_handler tick 8 5 idle (omega arith)

acknowledged_run : (handled tick 5 (registers 8) idle).1.ports ≡ (
    record { data_byte = 0x20; port_number = 0x20 }
    ∷ record { data_byte = 0x20; port_number = 0xa0 }
    ∷ [])
acknowledged_run = refl

abbrev tiny : Console
tiny = record {
  fb = record {
    descriptor = record { base = 0x1000; size = 4; width = 1; height = 1; pitch = 1; format = 0 };
    fb = 0x1000;
  };
  fb_shadow = record {
    descriptor = record { base = 0x2000; size = 4; width = 1; height = 1; pitch = 1; format = 0 };
    fb = 0x2000;
  };
  font = record {
    bmp_data_segment_offsetted = 0x3000;
    bmp_data_segment_size = 128;
    bmp_image_width = 32;
    bmp_image_height = 32;
    cell_width = 1;
    cell_height = 1;
    bits_per_pixel = 1;
    stride = 4;
    cells_per_x_axis = 16;
    cells_per_y_axis = 16;
    total_cells = 256;
  };
  background_color = 0;
  foreground_color = 0xffff_ffff;
  x = 0;
  y = 0;
}

abbrev dark : Bytes
dark = λ _. 0

-- The report of an invalid opcode.
abbrev report : List ℕ
report =
    characters "\nKernel panic - Not Syncing: Invalid opcode (vector 6, error 0)\n"
    ++ (characters "RIP  0000000000000000  CS   0008   RFLAGS 0000000000000000\n"
        ++ (characters "RSP  0000000000000000  SS   0010\n"
            ++ (characters "RAX  0000000000000000  RBX  0000000000000000  RCX  0000000000000000\n"
                ++ (characters
                      "RDX  0000000000000000  RSI  0000000000000000  RDI  0000000000000000\n"
                    ++ (characters
                          "RBP  0000000000000000  R8   0000000000000000  R9   0000000000000000\n"
                        ++ (characters
                              "R10  0000000000000000  R11  0000000000000000  R12  0000000000000000\n"
                            ++ (characters
                                  "R13  0000000000000000  R14  0000000000000000  R15  0000000000000000\n"
                                ++ (characters "CR2  0000000000001000  CR3  0000000000002000\n"
                                    ++ characters
                                        "---[ end Kernel panic - Not Syncing: Invalid opcode ]---\n"))))))))

report_run : text_of_calls (exception_calls (registers 6) 0x1000 0x2000) ≡ ok report
unfolding text_of Format.format_loop Format.directive Format.parse_width Format.head
    Format.parse_flags Format.flag_of Format.parse_precision Format.parse_length Format.convert
    Format.advance Format.format_char Format.format_pointer Format.format_string
    Format.format_integer Format.next_word Format.next_text Format.integer_flags Format.strnlen
    Printf.is_digit Printf.put Printf.puts Printf.pad Printf.pad_to Printf.out_rev Printf.digit_char
    Printf.fill Printf.push Printf.pop Printf.padded_width Printf.padded_buf Printf.prefixed_buf
    Printf.signed_buf Printf.ntoa_buf Printf.ntoa_format Printf.ntoa_long Printf.digits_loop
    Printf.atoi
report_run = refl

exception_panic-reported_example :
    let (c', m') = print report (tiny, dark) in
    exception_panic
      (registers 6)
      0x1000
      0x2000
      (false, record { s_console = some tiny; bytes = dark; serial = []; route_to_com = true })
    ≡ ok (
      true,
      record { s_console = some c'; bytes = m'; serial = sent report []; route_to_com = false },
    )
exception_panic-reported_example =
    exception_panic-reported (registers 6) 0x1000 0x2000 tiny dark [] report true report_run
