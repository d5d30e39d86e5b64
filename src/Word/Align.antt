-- ===== src/Word/Align.antt =====
-- ALIGN_UP and ALIGN_DOWN at the alignments that the kernel uses, as arithmetic.
use nokernel.Prelude.{ℕ, ◌+◌, ◌*◌, ◌/◌, ◌^◌, ◌≤◌, ◌<◌, ◌≡◌, arith}
use nokernel.Word.{sub64, u64, align_up, align_down}
use nokernel.Word.Bits.{and_window}

module _ (x : ℕ) where
  abbrev before : ℕ → ℕ
  before a = sub64 (u64 (x + a)) 1

  pub align_up-8 : x + 8 ≤ 2 ^ 64 → align_up x 8 ≡ (x + 7) / 8 * 8
  unfolding align_up
  align_up-8 h = omega (arith, and_window 61 3 (before 8))

  pub align_up-16 : x + 16 ≤ 2 ^ 64 → align_up x 16 ≡ (x + 15) / 16 * 16
  unfolding align_up
  align_up-16 h = omega (arith, and_window 60 4 (before 16))

  pub align_up-4096 : x + 4096 ≤ 2 ^ 64 → align_up x 4096 ≡ (x + 4095) / 4096 * 4096
  unfolding align_up
  align_up-4096 h = omega (arith, and_window 52 12 (before 4096))

  pub align_down-4096 : x < 2 ^ 64 → align_down x 4096 ≡ x / 4096 * 4096
  unfolding align_down
  align_down-4096 h = omega (arith, and_window 52 12 x)
