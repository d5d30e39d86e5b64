-- ===== src/Printf/Padding.antt =====
-- What the output loops of lib/common/vsnprintf.cpp put, as lists of characters.
use nokernel.Prelude.{
  ℕ, zero, suc, ◌+◌, ◌-◌, ◌^◌, ◌≤◌, ◌<◌, ◌≡◌, refl, ap, ◌∙◌, sym, true, false, List, [], ◌∷◌, ◌++◌,
  length, replicate, ltb, if◌then◌else◌, arith, Bool-cases, inl, inr,
}
use nokernel.Word.{u64, sub64}
use nokernel.Printf.{Flags, Cursor, put, puts, pad, pad_to, out_rev}

-- What `_out_rev` puts: the characters, filled up to a width on one side.
abbrev pub padded : List ℕ → ℕ → Flags → List ℕ
padded buf width flags =
    if flags.padleft
    then buf ++ replicate (width - length buf) 32
    else replicate (width - length buf) (if flags.zeropad then 48 else 32) ++ buf

module _ {S : Type 0} (out : ℕ → S → ℕ → ℕ → S) (maxlength : ℕ) where
  pub puts-append :
      (xs ys : List ℕ) (c : Cursor S)
      → puts out maxlength (xs ++ ys) c ≡ puts out maxlength ys (puts out maxlength xs c)
  unfolding puts
  puts-append [] ys c = refl
  puts-append (x ∷ xs) ys c = puts-append xs ys (put out maxlength x c)

  pub pad-replicate :
      (n x : ℕ) (c : Cursor S) → pad out maxlength n x c ≡ puts out maxlength (replicate n x) c
  unfolding pad puts
  pad-replicate zero x c = refl
  pad-replicate (suc n) x c = pad-replicate n x (put out maxlength x c)

  pub idx-puts :
      (xs : List ℕ) (c : Cursor S)
      → c.idx < 2 ^ 64
      → (puts out maxlength xs c).idx ≡ u64 (c.idx + length xs)
  unfolding puts put
  idx-puts [] c h = omega arith
  idx-puts (x ∷ xs) c h = idx-puts xs (put out maxlength x c) (omega arith) ∙ omega arith

  pad_to_lem :
      (rounds k n start width : ℕ) (c : Cursor S)
      → c.idx ≡ u64 (start + k)
      → start < 2 ^ 64
      → width < 2 ^ 32
      → k < 2 ^ 32
      → n ≡ width - k
      → n ≤ rounds
      → pad_to out maxlength rounds start width c ≡ pad out maxlength n 32 c
  unfolding pad_to pad
  pad_to_lem zero k zero start width c at hs hw hk hn fuel = refl
  pad_to_lem zero k (suc n) start width c at hs hw hk hn fuel = absurd (omega arith)
  pad_to_lem (suc rounds) k zero start width c at hs hw hk hn fuel =
      let done : ltb (sub64 c.idx start) width ≡ false = ground (arith, at) in rw done
  pad_to_lem (suc rounds) k (suc n) start width c at hs hw hk hn fuel =
      let more : ltb (sub64 c.idx start) width ≡ true = ground (arith, at) in
      rw more (
        pad_to_lem rounds (k + 1) n start width (put out maxlength 32 c)
          (unfold put in omega (arith, at)) hs hw (omega arith) (omega arith) (omega arith))

  -- For an index below 2 ^ 64, a width below 2 ^ 32 and fewer than 2 ^ 32 characters, `_out_rev`
  -- puts the characters of the buffer in reverse, with what fills them up to the width in front of
  -- them, or behind them when the flag says so.
  pub out_rev-padded :
      (buf : List ℕ) (width : ℕ) (flags : Flags) (c : Cursor S)
      → c.idx < 2 ^ 64
      → width < 2 ^ 32
      → length buf < 2 ^ 32
      → out_rev out maxlength buf width flags c ≡ puts out maxlength (padded buf width flags) c
  unfolding out_rev
  out_rev-padded buf width flags c hc hw hb = elim (Bool-cases flags.padleft) [
    | inl e ↦ rw e (
        pad_to_lem width (length buf) (width - length buf) c.idx width (puts out maxlength buf c)
          (idx-puts buf c hc) hc hw hb refl (omega arith)
        ∙ pad-replicate (width - length buf) 32 (puts out maxlength buf c)
        ∙ sym (puts-append buf (replicate (width - length buf) 32) c))
    | inr e ↦
        let character = if flags.zeropad then 48 else 32 in
        rw e (
          ap (puts out maxlength buf) (pad-replicate (width - length buf) character c)
          ∙ sym (puts-append (replicate (width - length buf) character) buf c))
  ]
