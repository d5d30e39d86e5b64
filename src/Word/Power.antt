-- ===== src/Word/Power.antt =====
-- Integer powers (lib/common/include/math.h), on unsigned words of 64 bits.
use nokernel.Prelude.{
  ℕ, zero, suc, ◌+◌, ◌*◌, ◌/◌, ◌%◌, ◌^◌, ◌<◌, ◌≡◌, refl, ap, ◌∙◌, sym, false, ltb, ◌==◌,
  if◌then◌else◌, arith, Bool-cases, inl, inr,
}
use native.Mathlib.Nat.{pow-suc, pow-zero, add-mul-mod_self_left, div-add-mod}
use nokernel.Outcome.{Outcome, ok, hangs}
use nokernel.Word.{u64}

-- The loop of `math::pow`, with a bound on the rounds.
unfoldable pub pow_loop : ℕ → ℕ → ℕ → ℕ → Outcome ℕ
pow_loop zero result base power = hangs
pow_loop (suc rounds) result base power =
    let result' = if power % 2 == 1 then u64 (result * base) else result in
    let half = power / 2 in
    let base' = if ltb 0 half then u64 (base * base) else base in
    let rest = pow_loop rounds result' base' half in if ltb 0 power then rest else ok result

-- Each round halves a power of 64 bits. An unsigned power is not negative.
unfoldable pub pow : ℕ → ℕ → Outcome ℕ
unfolding pow_loop
pow base power = pow_loop 65 1 base power

module _ (d : ℕ) where
  split : (a b q r : ℕ) → d * q + r ≡ a → a * b ≡ r * b + d * (q * b)
  split a b q r h = grind arith

  mod_mul : (a b : ℕ) → a % d * b % d ≡ a * b % d
  mod_mul a b = sym (
      ap (λ k. k % d) (split a b (a / d) (a % d) (div-add-mod a d))
      ∙ add-mul-mod_self_left (a % d * b) d (a / d * b))

  rotate : (r x y : ℕ) → r * (y * x) ≡ x * r * y
  rotate r x y = grind arith

  rotate' : (r x y : ℕ) → x * r * y ≡ x * (r * y)
  rotate' r x y = grind arith

  mod_pow : (a n r : ℕ) → r * (a % d) ^ n % d ≡ r * a ^ n % d
  mod_pow a zero r = ap (λ k. r * k % d) (pow-zero (a % d) ∙ sym (pow-zero a))
  mod_pow a (suc n) r =
      ap (λ k. r * k % d) (pow-suc (a % d) n)
      ∙ (ap (λ k. k % d) (rotate r (a % d) ((a % d) ^ n))
          ∙ (mod_pow a n (a % d * r)
              ∙ (ap (λ k. k % d) (rotate' r (a % d) (a ^ n))
                  ∙ (mod_mul a (r * a ^ n)
                      ∙ ap (λ k. k % d)
                          (sym (rotate' r a (a ^ n))
                            ∙ (sym (rotate r a (a ^ n)) ∙ ap (λ k. r * k) (sym (pow-suc a n))))))))

square_pow : (b n : ℕ) → (b * b) ^ n ≡ b ^ (2 * n)
square_pow b zero = pow-zero (b * b) ∙ sym (pow-zero b)
square_pow b (suc n) =
    let twice : 2 * suc n ≡ suc (suc (2 * n)) = omega arith in
    let together : b ^ (2 * n) * (b * b) ≡ b ^ (2 * n) * b * b = grind arith in
    pow-suc (b * b) n
    ∙ (ap (λ k. k * (b * b)) (square_pow b n)
        ∙ (together
            ∙ sym (
                ap (λ k. b ^ k) twice
                ∙ (pow-suc b (suc (2 * n)) ∙ ap (λ k. k * b) (pow-suc b (2 * n))))))

-- One round, as the power that is left: `d` is the number of words.
module _ (d : ℕ) where
  even_round : (r b h p : ℕ) → p ≡ 2 * h → r * (b * b % d) ^ h % d ≡ r * b ^ p % d
  even_round r b h p e =
      mod_pow d (b * b) h r ∙ ap (λ k. r * k % d) (square_pow b h ∙ ap (λ k. b ^ k) (sym e))

  odd_round : (r b h p : ℕ) → p ≡ suc (2 * h) → r * b % d * (b * b % d) ^ h % d ≡ r * b ^ p % d
  odd_round r b h p e =
      let order : r * b * b ^ (2 * h) ≡ r * (b ^ (2 * h) * b) = grind arith in
      even_round (r * b % d) b h (2 * h) refl
      ∙ (mod_mul d (r * b) (b ^ (2 * h))
          ∙ ap (λ k. k % d) (order ∙ ap (λ k. r * k) (sym (ap (λ k. b ^ k) e ∙ pow-suc b (2 * h)))))

-- The base of the next round matters only when there is one.
base_lem : (b h : ℕ) → (if ltb 0 h then u64 (b * b) else b) ^ h ≡ u64 (b * b) ^ h
base_lem b h = elim (Bool-cases (ltb 0 h)) [
  | inl e ↦ rw e refl
  | inr e ↦
      let none_left : h ≡ 0 = ground arith in
      rw e (
        ap (λ k. b ^ k) none_left
        ∙ (pow-zero b ∙ sym (ap (λ k. u64 (b * b) ^ k) none_left ∙ pow-zero (u64 (b * b)))))
]

round_lem :
    (r b p : ℕ)
    → (if p % 2 == 1 then u64 (r * b) else r)
        * (if ltb 0 (p / 2) then u64 (b * b) else b) ^ (p / 2)
        % 2 ^ 64
      ≡ r * b ^ p % 2 ^ 64
round_lem r b p =
    ap (λ k. (if p % 2 == 1 then u64 (r * b) else r) * k % 2 ^ 64) (base_lem b (p / 2))
    ∙ elim (Bool-cases (p % 2 == 1)) [
      | inl e ↦ rw e (odd_round (2 ^ 64) r b (p / 2) p (ground arith))
      | inr e ↦ rw e (even_round (2 ^ 64) r b (p / 2) p (ground arith))
    ]

pow_loop-step :
    (rounds r b p : ℕ)
    → pow_loop (suc rounds) r b p ≡ (
        if ltb 0 p
        then pow_loop rounds
            (if p % 2 == 1 then u64 (r * b) else r)
            (if ltb 0 (p / 2) then u64 (b * b) else b)
            (p / 2)
        else ok r)
unfolding pow_loop
pow_loop-step rounds r b p = refl

last_round : (r b p : ℕ) → r < 2 ^ 64 → p ≡ 0 → r ≡ r * b ^ p % 2 ^ 64
last_round r b p h e = sym (ap (λ k. r * k % 2 ^ 64) (ap (λ k. b ^ k) e ∙ pow-zero b) ∙ omega arith)

pow_loop_lem :
    (k r b p : ℕ) → r < 2 ^ 64 → p < 2 ^ k → pow_loop (suc k) r b p ≡ ok (r * b ^ p % 2 ^ 64)
pow_loop_lem zero r b p hr hp =
    let none_left : ltb 0 p ≡ false = ground arith in
    pow_loop-step zero r b p ∙ rw none_left (ap ok (last_round r b p hr (omega arith)))
pow_loop_lem (suc k) r b p hr hp = pow_loop-step (suc k) r b p ∙ elim (Bool-cases (ltb 0 p)) [
  | inr none_left ↦ rw none_left (ap ok (last_round r b p hr (ground arith)))
  | inl more ↦ rw more (
      pow_loop_lem k _ _ (p / 2) (ground arith) (omega (arith, pow-suc 2 k))
      ∙ ap ok (round_lem r b p))
]

-- For a power of 64 bits, `math::pow` ends with the power of the base, modulo 2 ^ 64.
pub pow_lem : (base power : ℕ) → power < 2 ^ 64 → pow base power ≡ ok (base ^ power % 2 ^ 64)
unfolding pow
pow_lem base power h =
    pow_loop_lem 64 1 base power (omega arith) h ∙ ap (λ k. ok (k % 2 ^ 64)) (omega arith)
