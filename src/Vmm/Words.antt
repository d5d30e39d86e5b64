-- ===== src/Vmm/Words.antt =====
-- The words of the page tables (kernel/mm/vmm.cpp): the present bit, the address and the flags.
use Prim.Native.Nat.{bit_and-bitwise}
use nokernel.Prelude.{
  ℕ, zero, suc, ◌+◌, ◌*◌, ◌/◌, ◌%◌, ◌^◌, ◌≤◌, ◌<◌, bit_and, bit_or, true, false, ◌≡◌, refl, ◌==◌,
  arith,
}
use nokernel.Word.Bits.{and_lowest, or_lowest, and_ones, and_window, or-zero}
use nokernel.Vmm.{is_present, present, writable, addr_mask, index}

and_or_rounds :
    (n a b c : ℕ) → a ≤ n → b ≤ n → bit_and (bit_or a b) c ≡ bit_or (bit_and a c) (bit_and b c)
and_or_rounds zero zero zero c ha hb = ground (arith, or-zero 0, bit_and-bitwise 0 c)
and_or_rounds zero zero (suc b) c ha hb = absurd (omega arith)
and_or_rounds zero (suc a) b c ha hb = absurd (omega arith)
and_or_rounds (suc n) a b c ha hb = ground (
  arith,
  or_lowest a b,
  and_lowest (bit_or a b) c,
  and_lowest a c,
  and_lowest b c,
  or_lowest (bit_and a c) (bit_and b c),
  and_or_rounds n (a / 2) (b / 2) (c / 2) (omega arith) (omega arith),
)

-- A mask of a union is the union of the masks.
pub and_or : (a b c : ℕ) → bit_and (bit_or a b) c ≡ bit_or (bit_and a c) (bit_and b c)
and_or a b c = and_or_rounds (a + b) a b c (omega arith) (omega arith)

pub is_present_odd : (e : ℕ) → is_present e ≡ (e % 2 == 1)
unfolding is_present
is_present_odd e = ground (arith, and_ones 1 e)

-- An entry that is written with the present bit.
pub present_written : (e : ℕ) → is_present (bit_or e present) ≡ true
present_written e = ground (arith, is_present_odd (bit_or e present), or_lowest e 1)

pub present_zero : is_present 0 ≡ false
unfolding is_present
present_zero = refl

-- The address in an entry.
pub address_masked : (x : ℕ) → bit_and x addr_mask ≡ x / 4096 % 2 ^ 40 * 4096
address_masked x = and_window 40 12 x

pub address_of_flags :
    (x flags : ℕ)
    → bit_and flags addr_mask ≡ 0
    → bit_and (bit_or (bit_or x flags) present) addr_mask ≡ bit_and x addr_mask
address_of_flags x flags h = ground (
  arith,
  and_or (bit_or x flags) present addr_mask,
  and_or x flags addr_mask,
  or-zero (bit_and x addr_mask),
)

-- The entry of a new table leads to it.
pub address_linked :
    (f : ℕ) → f % 4096 ≡ 0 → f < 2 ^ 52 → bit_and (bit_or (bit_or f present) writable) addr_mask ≡ f
address_linked f aligned small = ground (
  arith,
  and_or (bit_or f present) writable addr_mask,
  and_or f present addr_mask,
  or-zero (bit_and f addr_mask),
  address_masked f,
)

pub present_linked : (f : ℕ) → is_present (bit_or (bit_or f present) writable) ≡ true
present_linked f = ground (
  arith,
  is_present_odd (bit_or (bit_or f present) writable),
  or_lowest (bit_or f present) 2,
  or_lowest f 1,
)

-- The page of an address: 36 bits, nine for each level.
unfoldable pub page : ℕ → ℕ
page virt = virt / 4096 % 2 ^ 36

pub index-lt : (virt level : ℕ) → index virt level < 512
unfolding index
index-lt virt level = ground (arith, and_ones 9 (virt / 2 ^ (12 + 9 * level)))
