-- ===== src/Tables/Gates.antt =====
-- What the processor reads in an entry of the descriptor tables.
use nokernel.Prelude.{
  ℕ, ◌+◌, ◌*◌, ◌/◌, ◌%◌, ◌^◌, ◌<◌, ◌≡◌, ◌≢◌, refl, bit_and, bit_or, ◌==◌, arith, ap, ◌∙◌, true,
}
use nokernel.Word.{u8, ◌>>◌, ◌<<◌}
use nokernel.Word.Bits.{and_ones, and_window, or_fields, or-zero}
use Prim.Native.Nat.{bit_or-bitwise}
use nokernel.Tables.{GdtEntry, Gdt, set_gate, IdtEntry, Idt, set_idt_gate}

-- The 64-bit address of a handler in its three parts.
abbrev pub offset_of : IdtEntry → ℕ
offset_of e = e.offset_1 + e.offset_2 * 2 ^ 16 + e.offset_3 * 2 ^ 32

-- `SetIDTGate` with a 64-bit address leaves an entry whose parts give the address, with the selector
-- and the flags and no stack of its own, and changes no other entry.
pub set_idt_gate_lem :
    (idt : Idt) (num handler selector flags : ℕ)
    → handler < 2 ^ 64
    → let e = set_idt_gate idt num handler selector flags num in
      (offset_of e ≡ handler)
      × ((e.selector ≡ selector)
          × ((e.type_attributes ≡ flags)
              × ((e.ist ≡ 0)
                  × ((i : ℕ) → i ≢ num → set_idt_gate idt num handler selector flags i ≡ idt i))))
unfolding set_idt_gate
set_idt_gate_lem idt num handler selector flags h =
    let here : (num == num) ≡ true = ground arith in
    rw here (
      omega (arith, and_ones 16 handler, and_ones 16 (handler >> 16), and_ones 32 (handler >> 32)),
      (refl, (refl, (refl, λ i ne. ground arith))),
    )

or_low : (r b m : ℕ) → r < 16 → b ≡ m * 2 ^ 4 → bit_or r b ≡ m * 2 ^ 4 + r
or_low r b m small is =
    ap (bit_or r) is
    ∙ ground (arith, or_fields 4 0 r m 0 small (omega arith), or-zero r, bit_or-bitwise 0 m)

abbrev pub base_of : GdtEntry → ℕ
base_of e = e.base_low + e.base_middle * 2 ^ 16 + e.base_high * 2 ^ 24

abbrev pub limit_of : GdtEntry → ℕ
limit_of e = e.limit_low + e.granularity % 2 ^ 4 * 2 ^ 16

-- `set_gate` leaves an entry whose parts give the low 32 bits of the base, the low 20 bits of the
-- limit, the access byte and the low four bits of the granularity, and changes no other entry.
pub set_gate_lem :
    (gdt : Gdt) (index base limit access granularity : ℕ)
    → let e = set_gate gdt index base limit access granularity index in
      (base_of e ≡ base % 2 ^ 32)
      × ((limit_of e ≡ limit % 2 ^ 20)
          × ((e.access ≡ access)
              × ((e.granularity / 2 ^ 4 ≡ granularity % 2 ^ 4)
                  × ((i : ℕ)
                      → i ≢ index
                      → set_gate gdt index base limit access granularity i ≡ gdt i))))
unfolding set_gate
set_gate_lem gdt index base limit access granularity =
    let here : (index == index) ≡ true = ground arith in
    let high : bit_and (granularity << 4) 0xf0 ≡ granularity % 2 ^ 4 * 2 ^ 4 =
      omega (arith, and_window 4 4 (granularity << 4)) in
    let low : bit_and (limit >> 16) 0x0f ≡ limit / 2 ^ 16 % 2 ^ 4 =
      omega (arith, and_ones 4 (limit >> 16)) in
    let both : bit_or (u8 (bit_and (limit >> 16) 0x0f)) (bit_and (granularity << 4) 0xf0)
        ≡ granularity % 2 ^ 4 * 2 ^ 4 + limit / 2 ^ 16 % 2 ^ 4 =
      or_low _ _ (granularity % 2 ^ 4) (omega (arith, low)) high ∙ omega (arith, low) in
    rw here (
      omega (arith, and_ones 16 base, and_ones 8 (base >> 16), and_ones 8 (base >> 24)),
      (omega (arith, and_ones 16 limit, both), (refl, (omega (arith, both), λ i ne. ground arith))),
    )
