-- ===== src/Word/Byte.antt =====
-- The bits of a byte: what setting and clearing one bit does to the others.
use nokernel.Prelude.{
  Bool-cases, inl, inr, ap, ==_iff, ℕ, zero, suc, ◌<◌, ◌≡◌, refl, Bool, true, false, not, ◌&&◌,
  arith, ◌==◌, bit_and, bit_or, if◌then◌else◌,
}
use nokernel.Word.{u8, not8, ◌<<◌}

-- `byte | (1 << k)`, `byte & ~(1 << k)` and `byte & (1 << k)`, stored to or read from a uint8_t.
unfoldable pub set_bit : ℕ → ℕ → ℕ
set_bit byte k = u8 (bit_or byte (1 << k))

unfoldable pub clear_bit : ℕ → ℕ → ℕ
clear_bit byte k = u8 (bit_and byte (not8 (1 << k)))

unfoldable pub test_bit : ℕ → ℕ → Bool
test_bit byte k = not (bit_and byte (1 << k) == 0)

pub set_bit-lt : (byte k : ℕ) → set_bit byte k < 256
unfolding set_bit
set_bit-lt byte k = omega arith

pub clear_bit-lt : (byte k : ℕ) → clear_bit byte k < 256
unfolding clear_bit
clear_bit-lt byte k = omega arith

beq : Bool → Bool → Bool
beq true b = b
beq false b = not b

beq-eq : (a b : Bool) → beq a b ≡ true → a ≡ b
unfolding beq
beq-eq a b h = ground arith

-- The laws of the three at one byte and two bit numbers, as a test.
obeys : ℕ → ℕ → ℕ → Bool
obeys x j k =
    beq (test_bit (set_bit x j) k) (if j == k then true else test_bit x k)
    && beq (test_bit (clear_bit x j) k) (if j == k then false else test_bit x k)

-- A test at every number below a bound.
passes : (ℕ → Bool) → ℕ → Bool
passes test zero = true
passes test (suc bound) = passes test bound && test bound

module _ (test : ℕ → Bool) where
  passed : (bound : ℕ) {k : ℕ} → k < bound → passes test bound ≡ true → test k ≡ true
  unfolding passes
  passed zero lt all = absurd (omega arith)
  passed (suc bound) {k} lt all = elim (Bool-cases (k == bound)) [
    | inl here ↦ ground (arith, ap test ((==_iff k bound).0 here))
    | inr below ↦ passed bound (ground arith) (ground arith)
  ]

obeys_table : passes (λ x. passes (λ j. passes (obeys x j) 8) 8) 256 ≡ true
unfolding passes obeys beq set_bit clear_bit test_bit
obeys_table = refl

obeys_all : (x j k : ℕ) → x < 256 → j < 8 → k < 8 → obeys x j k ≡ true
obeys_all x j k hx hj hk = passed _ 8 hk (passed _ 8 hj (passed _ 256 hx obeys_table))

pub test-set_bit :
    (x j k : ℕ)
    → x < 256
    → j < 8
    → k < 8
    → test_bit (set_bit x j) k ≡ (if j == k then true else test_bit x k)
test-set_bit x j k hx hj hk = beq-eq _ _ (unfold obeys in ground (arith, obeys_all x j k hx hj hk))

pub test-clear_bit :
    (x j k : ℕ)
    → x < 256
    → j < 8
    → k < 8
    → test_bit (clear_bit x j) k ≡ (if j == k then false else test_bit x k)
test-clear_bit x j k hx hj hk =
    beq-eq _ _ (unfold obeys in ground (arith, obeys_all x j k hx hj hk))

ff_table : passes (test_bit 0xff) 8 ≡ true
unfolding passes test_bit
ff_table = refl

pub test-ff : (k : ℕ) → k < 8 → test_bit 0xff k ≡ true
test-ff k h = passed _ 8 h ff_table
