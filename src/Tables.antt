-- ===== src/Tables.antt =====
-- The descriptor tables of the processor (kernel/arch/x86_64/gdt.cpp and idt.cpp).
pub mod Gates
mod Tests
use nokernel.Prelude.{ℕ, ◌+◌, ◌-◌, ◌*◌, ◌/◌, ◌%◌, ◌^◌, bit_and, bit_or, ◌==◌, if◌then◌else◌}
use nokernel.Word.{u8, u16, u32, ◌>>◌, ◌<<◌}

pub record GdtEntry : Type 0 where
  pub limit_low : ℕ
  pub base_low : ℕ
  pub base_middle : ℕ
  pub access : ℕ
  pub granularity : ℕ
  pub base_high : ℕ

-- The entries by index.
abbrev pub Gdt : Type 0
Gdt = ℕ → GdtEntry

-- Every field is written after the `memset` of the entry.
unfoldable pub set_gate : Gdt → ℕ → ℕ → ℕ → ℕ → ℕ → Gdt
set_gate gdt index base limit access granularity = λ i.
    if i == index
    then record {
      limit_low = u16 (bit_and limit 0xffff);
      base_low = u16 (bit_and base 0xffff);
      base_middle = u8 (bit_and (base >> 16) 0xff);
      access = access;
      granularity = u8 (bit_or (u8 (bit_and (limit >> 16) 0x0f)) (bit_and (granularity << 4) 0xf0));
      base_high = u8 (bit_and (base >> 24) 0xff);
    }
    else gdt i

-- The table that the constructor builds.
unfoldable pub new_gdt : Gdt → Gdt
new_gdt gdt =
    let null = set_gate gdt 0 0 0 0 0 in
    let kernel_code = set_gate null 1 0 0xffff_ffff 0x9a 0xa in
    let kernel_data = set_gate kernel_code 2 0 0xffff_ffff 0x92 0xc in
    let user_data = set_gate kernel_data 3 0 0xffff_ffff 0xf2 0xc in
    set_gate user_data 4 0 0xffff_ffff 0xfa 0xa

-- The size of an entry, and the offsets of the segments in the table.
abbrev pub gdt_entry_size : ℕ
gdt_entry_size = 8

abbrev pub kernel_code_segment_selector : ℕ
kernel_code_segment_selector = u16 (1 * gdt_entry_size)

abbrev pub kernel_data_segment_selector : ℕ
kernel_data_segment_selector = u16 (2 * gdt_entry_size)

abbrev pub user_data_segment_selector : ℕ
user_data_segment_selector = u16 (3 * gdt_entry_size)

abbrev pub user_code_segment_selector : ℕ
user_code_segment_selector = u16 (4 * gdt_entry_size)

pub record IdtEntry : Type 0 where
  pub offset_1 : ℕ
  pub selector : ℕ
  pub ist : ℕ
  pub type_attributes : ℕ
  pub offset_2 : ℕ
  pub offset_3 : ℕ
  pub reserved : ℕ

abbrev pub Idt : Type 0
Idt = ℕ → IdtEntry

-- The constructor clears the table.
abbrev pub new_idt : Idt
new_idt = λ i. record {
  offset_1 = 0;
  selector = 0;
  ist = 0;
  type_attributes = 0;
  offset_2 = 0;
  offset_3 = 0;
  reserved = 0;
}

unfoldable pub set_idt_gate : Idt → ℕ → ℕ → ℕ → ℕ → Idt
set_idt_gate idt num handler selector flags = λ i.
    if i == num
    then record {
      offset_1 = u16 (bit_and handler 0xffff);
      selector = selector;
      ist = 0;
      type_attributes = flags;
      offset_2 = u16 (bit_and (handler >> 16) 0xffff);
      offset_3 = u32 (bit_and (handler >> 32) 0xffff_ffff);
      reserved = 0;
    }
    else idt i
