-- ===== src/Word/Bits.antt =====
-- Masks as arithmetic, at every width, from the digit recursion that the native operations mean.
use Prim.Native.Nat.{min, max, digits, bit_and-bitwise, bit_or-bitwise}
use native.Mathlib.Nat.{pow-suc, one-le-pow, add-zero, zero-mul, zero-add}
use nokernel.Prelude.{
  ℕ, zero, suc, ◌+◌, ◌-◌, ◌*◌, ◌/◌, ◌%◌, ◌^◌, ◌≤◌, ◌<◌, bit_and, bit_or, ◌≡◌, refl, ap, ◌∙◌, arith,
}

module _ (z : ℕ → ℕ) (f : ℕ → ℕ → ℕ) where
  -- One more round changes nothing, so `n + k` rounds are as good as `n`.
  spare_round : (n a b : ℕ) → a ≤ n → digits z f (suc n) a b ≡ digits z f n a b
  spare_round zero zero b h = refl
  spare_round (suc n) zero b h = refl
  spare_round zero (suc a) b h = absurd (omega arith)
  spare_round (suc n) (suc a) b h =
      ap (λ t. t * 2 + f (suc a % 2) (b % 2)) (spare_round n (suc a / 2) (b / 2) (omega arith))

  spare_rounds : (k n m a b : ℕ) → a ≤ n → n + k ≡ m → digits z f m a b ≡ digits z f n a b
  spare_rounds zero n m a b h e = ap (λ t. digits z f t a b) (omega arith)
  spare_rounds (suc k) n zero a b h e = absurd (omega arith)
  spare_rounds (suc k) n (suc m) a b h e =
      spare_round m a b (omega arith) ∙ spare_rounds k n m a b h (omega arith)

  lowest_digit :
      (a b : ℕ)
      → digits z f (suc a) (suc a) b
        ≡ digits z f (suc a / 2) (suc a / 2) (b / 2) * 2 + f (suc a % 2) (b % 2)
  lowest_digit a b =
      ap (λ t. t * 2 + f (suc a % 2) (b % 2))
        (spare_rounds (a - suc a / 2) (suc a / 2) a (suc a / 2) (b / 2) (omega arith) (omega arith))

pub and_lowest : (a b : ℕ) → bit_and a b ≡ bit_and (a / 2) (b / 2) * 2 + min (a % 2) (b % 2)
and_lowest zero b = omega (arith, bit_and-bitwise 0 b, bit_and-bitwise 0 (b / 2))
and_lowest (suc a) b = omega (
  arith,
  bit_and-bitwise (suc a) b,
  bit_and-bitwise (suc a / 2) (b / 2),
  lowest_digit (λ _. 0) min a b,
)

pub or_lowest : (a b : ℕ) → bit_or a b ≡ bit_or (a / 2) (b / 2) * 2 + max (a % 2) (b % 2)
or_lowest zero b = omega (arith, bit_or-bitwise 0 b, bit_or-bitwise 0 (b / 2))
or_lowest (suc a) b = omega (
  arith,
  bit_or-bitwise (suc a) b,
  bit_or-bitwise (suc a / 2) (b / 2),
  lowest_digit (λ y. y) max a b,
)

and-zero_rounds : (n a : ℕ) → a ≤ n → bit_and a 0 ≡ 0
and-zero_rounds n zero h = refl
and-zero_rounds zero (suc a) h = absurd (omega arith)
and-zero_rounds (suc n) (suc a) h =
    omega (arith, and_lowest (suc a) 0, and-zero_rounds n (suc a / 2) (omega arith))

pub and-zero : (a : ℕ) → bit_and a 0 ≡ 0
and-zero a = and-zero_rounds a a (omega arith)

or-zero_rounds : (n a : ℕ) → a ≤ n → bit_or a 0 ≡ a
or-zero_rounds n zero h = refl
or-zero_rounds zero (suc a) h = absurd (omega arith)
or-zero_rounds (suc n) (suc a) h =
    omega (arith, or_lowest (suc a) 0, or-zero_rounds n (suc a / 2) (omega arith))

pub or-zero : (a : ℕ) → bit_or a 0 ≡ a
or-zero a = or-zero_rounds a a (omega arith)

double_shift : (q k : ℕ) → q * 2 ^ suc k ≡ 2 * (q * 2 ^ k)
double_shift q k = omega (arith, ap (λ (t : ℕ). q * t) (pow-suc 2 k))

-- The masks work on the fields above and below bit `k` apart.
pub and_fields :
    (k q r m s : ℕ)
    → r < 2 ^ k
    → s < 2 ^ k
    → bit_and (q * 2 ^ k + r) (m * 2 ^ k + s) ≡ bit_and q m * 2 ^ k + bit_and r s
and_fields zero q r m s hr hs = ground arith
and_fields (suc k) q r m s hr hs = ground (
  arith,
  double_shift q k,
  double_shift m k,
  double_shift (bit_and q m) k,
  pow-suc 2 k,
  and_lowest (q * 2 ^ suc k + r) (m * 2 ^ suc k + s),
  and_lowest r s,
  and_fields k q (r / 2) m (s / 2) (omega (arith, pow-suc 2 k)) (omega (arith, pow-suc 2 k)),
)

pub or_fields :
    (k q r m s : ℕ)
    → r < 2 ^ k
    → s < 2 ^ k
    → bit_or (q * 2 ^ k + r) (m * 2 ^ k + s) ≡ bit_or q m * 2 ^ k + bit_or r s
or_fields zero q r m s hr hs = ground arith
or_fields (suc k) q r m s hr hs = ground (
  arith,
  double_shift q k,
  double_shift m k,
  double_shift (bit_or q m) k,
  pow-suc 2 k,
  or_lowest (q * 2 ^ suc k + r) (m * 2 ^ suc k + s),
  or_lowest r s,
  or_fields k q (r / 2) m (s / 2) (omega (arith, pow-suc 2 k)) (omega (arith, pow-suc 2 k)),
)

-- `(q << k) | r` is a sum when `r` fits `k` bits.
pub or_disjoint : (k q r : ℕ) → r < 2 ^ k → bit_or (q * 2 ^ k) r ≡ q * 2 ^ k + r
or_disjoint k q r h = ground (
  arith,
  or_fields k q 0 0 r (omega (arith, one-le-pow k 2)) h,
  or-zero q,
  bit_or-bitwise 0 r,
  add-zero (q * 2 ^ k),
  zero-mul (2 ^ k),
  zero-add r,
)

-- `x & ((1 << k) - 1)` is the remainder by `2 ^ k`.
ones_mask : (k r : ℕ) → r < 2 ^ k → bit_and r (2 ^ k - 1) ≡ r
ones_mask zero r h = ground arith
ones_mask (suc k) r h = ground (
  arith,
  pow-suc 2 k,
  one-le-pow k 2,
  and_lowest r (2 ^ suc k - 1),
  ones_mask k (r / 2) (omega (arith, pow-suc 2 k)),
)

pub and_ones : (k x : ℕ) → bit_and x (2 ^ k - 1) ≡ x % 2 ^ k
and_ones k x = ground (
  arith,
  one-le-pow k 2,
  and_fields k (x / 2 ^ k) (x % 2 ^ k) 0 (2 ^ k - 1),
  ones_mask k (x % 2 ^ k),
  and-zero (x / 2 ^ k),
)

-- A mask of `j` ones above `k` zeros keeps the bits from `k` to `k + j`.
pub and_window : (j k x : ℕ) → bit_and x ((2 ^ j - 1) * 2 ^ k) ≡ x / 2 ^ k % 2 ^ j * 2 ^ k
and_window j k x = ground (
  arith,
  one-le-pow k 2,
  and_fields k (x / 2 ^ k) (x % 2 ^ k) (2 ^ j - 1) 0,
  and_ones j (x / 2 ^ k),
  and-zero (x % 2 ^ k),
)
