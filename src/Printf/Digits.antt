-- ===== src/Printf/Digits.antt =====
-- The digits of `_ntoa_long` (lib/common/vsnprintf.cpp), read back, also by `atoi`.
use native.Mathlib.Nat.{
  mod-lt, div-add-mod, div-lt_iff_lt-mul, pow-suc, pow-zero, zero-mul, mul_comm,
}
use nokernel.Prelude.{
  ℕ, zero, suc, ◌+◌, ◌-◌, ◌*◌, ◌/◌, ◌%◌, ◌^◌, ◌≤◌, ◌<◌, ◌≡◌, refl, ap, ◌∙◌, true, List, [], ◌∷◌,
  ltb, ◌==◌, ==_iff, if◌then◌else◌, arith, Bool-cases, inl, inr,
}
use nokernel.Printf.{Flags, atoi, is_digit, digit_char, digits_loop, ntoa_buffer_size}

-- What a digit stands for, in either case.
unfoldable pub digit_value : ℕ → ℕ
digit_value c = if ltb c 58 then c - 48 else (if ltb c 91 then c - 55 else c - 87)

-- The number that a string of digits stands for, most significant digit first.
unfoldable pub read : ℕ → ℕ → List ℕ → ℕ
read base sum [] = sum
read base sum (c ∷ cs) = read base (sum * base + digit_value c) cs

value-digit_char : (d : ℕ) (flags : Flags) → d < 16 → digit_value (digit_char d flags) ≡ d
unfolding digit_value digit_char
value-digit_char d flags h = ground arith

module _ (base : ℕ) (low : 2 ≤ base) (high : base ≤ 16) (flags : Flags) where
  fewer : (n v : ℕ) → v < base ^ suc n → v / base < base ^ n
  fewer n v h =
      (div-lt_iff_lt-mul (omega arith)).1
        (omega (arith, h, pow-suc base n, mul_comm (base ^ n) base))

  read-digits_loop :
      (room v : ℕ) (buf : List ℕ)
      → v < base ^ room
      → read base 0 (digits_loop room v base flags buf) ≡ read base v buf
  unfolding digits_loop read
  read-digits_loop zero v buf h = ap (λ n. read base n buf) (omega (arith, h, pow-zero base))
  read-digits_loop (suc room) v buf h =
      let d : v % base < base = mod-lt v (omega arith) in
      let is : digit_value (digit_char (v % base) flags) ≡ v % base =
        value-digit_char (v % base) flags (omega arith) in
      elim (Bool-cases (v / base == 0)) [
        | inl e ↦
            let whole : v % base ≡ v =
              omega
                (arith, ap (λ (q : ℕ). base * q) ((==_iff (v / base) 0).0 e), div-add-mod v base) in
            rw e (ap (λ n. read base n buf) (omega (arith, is, whole, zero-mul base)))
        | inr e ↦
            let back : v / base * base + v % base ≡ v =
              omega (arith, div-add-mod v base, mul_comm base (v / base)) in
            rw e (
              read-digits_loop room (v / base) _ (fewer room v h)
              ∙ ap (λ n. read base n buf) (omega (arith, is, back)))
      ]

  -- In a base from 2 to 16, reading back the digits that the integer conversion writes for a number
  -- below the power of the base that the local buffer holds gives the number.
  pub read-digits :
      (v : ℕ)
      → v < base ^ ntoa_buffer_size
      → read base 0 (digits_loop ntoa_buffer_size v base flags []) ≡ v
  read-digits v h = read-digits_loop ntoa_buffer_size v [] h ∙ unfold read in refl

-- `atoi` reads back what the conversion of an unsigned number of 32 bits in base 10 writes.
atoi-digits_loop :
    (room v : ℕ) (flags : Flags) (buf : List ℕ)
    → v < 10 ^ room
    → v < 2 ^ 32
    → atoi 0 (digits_loop room v 10 flags buf) ≡ atoi v buf
unfolding digits_loop atoi
atoi-digits_loop zero v flags buf h small = ap (λ n. atoi n buf) (omega (arith, h, pow-zero 10))
atoi-digits_loop (suc room) v flags buf h small =
    let c = digit_char (v % 10) flags in
    let is : c ≡ 48 + v % 10 = unfold digit_char in ground arith in
    let digit : is_digit c ≡ true = unfold is_digit in ground (arith, is) in
    elim (Bool-cases (v / 10 == 0)) [
      | inl e ↦ rw (e, digit) (ap (λ n. atoi n buf) (ground (arith, is)))
      | inr e ↦ rw e (
          atoi-digits_loop room (v / 10) flags (c ∷ buf) (omega (arith, pow-suc 10 room))
            (omega arith)
          ∙ rw digit (ap (λ n. atoi n buf) (omega (arith, is))))
    ]

-- For a number of 32 bits, `atoi` of its decimal digits gives the number and leaves nothing.
pub atoi-digits :
    (v : ℕ) (flags : Flags)
    → v < 2 ^ 32
    → atoi 0 (digits_loop ntoa_buffer_size v 10 flags []) ≡ (v, [])
atoi-digits v flags small =
    atoi-digits_loop ntoa_buffer_size v flags [] (omega arith) small ∙ unfold atoi in refl
