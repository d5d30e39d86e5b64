-- ===== src/Tables/Tests.antt =====
-- Entries of the descriptor tables.
use nokernel.Prelude.{◌≡◌, refl}
use nokernel.Tables.{
  Gdt, new_gdt, set_gate, kernel_code_segment_selector, user_code_segment_selector,
}

abbrev empty : Gdt
empty = λ i. record {
  limit_low = 0;
  base_low = 0;
  base_middle = 0;
  access = 0;
  granularity = 0;
  base_high = 0;
}

-- `KERNEL_CS` and `USER_CS`, and the access bytes behind them.
selectors : (kernel_code_segment_selector ≡ 0x08) × (user_code_segment_selector ≡ 0x20)
selectors = (refl, refl)

kernel_code_access : (new_gdt empty 1).access ≡ 0x9a
unfolding new_gdt set_gate
kernel_code_access = refl
