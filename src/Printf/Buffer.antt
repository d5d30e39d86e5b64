-- ===== src/Printf/Buffer.antt =====
-- `_vsnprintf` (lib/common/vsnprintf.cpp): what it leaves in the buffer.
use nokernel.Prelude.{
  ℕ, zero, suc, ◌+◌, ◌-◌, ◌^◌, ◌≤◌, ◌<◌, ◌≡◌, refl, ap, ◌∙◌, true, ◌&&◌, List, [], ◌∷◌, length,
  get_or, ltb, leb, ◌==◌, if◌then◌else◌, arith, Bool-cases, inl, inr, ◌⊎◌,
}
use nokernel.Outcome.{Outcome, ok}
use nokernel.Word.{u32, u64, sub64}
use nokernel.Printf.{Cursor, put, puts, out_buffer}
use nokernel.Printf.Padding.{idx-puts}
use nokernel.Printf.Format.{Arg, vsnprintf}
use nokernel.Printf.Loop.{text_of, format_all-text_of}

-- The buffer after a text was put, byte by byte.
abbrev after_text : ℕ → List ℕ → Cursor (ℕ → ℕ) → ℕ → ℕ
after_text maxlength t c i =
    if leb c.idx i && (ltb i (c.idx + length t) && ltb i maxlength)
    then get_or t (i - c.idx) 0
    else c.buffer i

get_or-cons :
    (x : ℕ) (xs : List ℕ) (n : ℕ)
    → get_or (x ∷ xs) n 0 ≡ (if n == 0 then x else get_or xs (n - 1) 0)
get_or-cons x xs zero = refl
get_or-cons x xs (suc n) =
    let before : suc n - 1 ≡ n = omega arith in ground (arith, ap (λ k. get_or xs k 0) before)

after_text-put :
    (maxlength x : ℕ) (xs : List ℕ) (c : Cursor (ℕ → ℕ)) (i : ℕ)
    → c.idx + length (x ∷ xs) < 2 ^ 64
    → after_text maxlength xs (put out_buffer maxlength x c) i ≡ after_text maxlength (x ∷ xs) c i
unfolding put out_buffer
after_text-put maxlength x xs c i h =
    let next : u64 (c.idx + 1) ≡ c.idx + 1 = omega arith in
    rw (next, get_or-cons x xs (i - c.idx))
      (elim (Bool-cases (ltb c.idx maxlength)) [
        | inl e ↦ rw e (ground (arith, ap (get_or xs)))
        | inr e ↦ rw e (ground (arith, ap (get_or xs)))
      ])

buffer-puts :
    (maxlength : ℕ) (t : List ℕ) (c : Cursor (ℕ → ℕ)) (i : ℕ)
    → c.idx + length t < 2 ^ 64
    → (puts out_buffer maxlength t c).buffer i ≡ after_text maxlength t c i
unfolding puts
buffer-puts maxlength [] c i h = ground arith
buffer-puts maxlength (x ∷ xs) c i h =
    buffer-puts maxlength xs (put out_buffer maxlength x c) i (unfold put in omega arith)
    ∙ after_text-put maxlength x xs c i h

-- What a buffer of `maxlength` bytes holds after a call for the text `t`: the text as far as it fits,
-- a zero behind it, and no other byte has changed.
pub record Written (buffer : ℕ → ℕ) (maxlength : ℕ) (t : List ℕ) (result : Outcome (ℕ × (ℕ → ℕ)))
    : Type 0 where
  pub bytes : ℕ → ℕ
  pub returns : result ≡ ok (u32 (length t), bytes)
  pub text_bytes : (i : ℕ) → i < length t → i + 1 < maxlength → bytes i ≡ get_or t i 0
  pub last_zero : bytes (if ltb (length t) maxlength then length t else maxlength - 1) ≡ 0
  pub untouched : (i : ℕ) → (length t < i) ⊎ (maxlength ≤ i) → bytes i ≡ buffer i

module _ (format : List ℕ) (args : List Arg) (buffer : ℕ → ℕ) (maxlength : ℕ) (pos : 0 < maxlength)
    (small : maxlength < 2 ^ 64) (t : List ℕ) (spells : text_of format args ≡ ok t)
    (short : length t < 2 ^ 64) where
  abbrev start : Cursor (ℕ → ℕ)
  start = record { buffer = buffer; idx = 0 }

  abbrev last : ℕ
  last = if ltb (length t) maxlength then length t else maxlength - 1

  abbrev final : ℕ → ℕ
  final = out_buffer 0 (puts out_buffer maxlength t start).buffer last maxlength

  length_lem : (puts out_buffer maxlength t start).idx ≡ length t
  length_lem = idx-puts out_buffer maxlength t start (omega arith) ∙ omega arith

  final_lem : (i : ℕ) → final i ≡ (if i == last then 0 else after_text maxlength t start i)
  unfolding out_buffer
  final_lem i =
      let inside : ltb last maxlength ≡ true = ground arith in
      rw (inside, buffer-puts maxlength t start i (omega arith)) refl

  run_lem : vsnprintf buffer maxlength format args ≡ ok (u32 (length t), final)
  unfolding vsnprintf
  run_lem =
      let minus : sub64 maxlength 1 ≡ maxlength - 1 = omega arith in
      format_all-text_of out_buffer maxlength format args buffer
      ∙ rw (spells, length_lem, minus) refl

  -- For a buffer of at least one byte and a format that gives a text of fewer than 2 ^ 64
  -- characters, `_vsnprintf` returns the length of the text as an `int`, and the buffer holds the
  -- text as far as it fits with a zero behind it; no byte behind that zero, and none outside of the
  -- buffer, has changed.
  pub vsnprintf-Written : Written buffer maxlength t (vsnprintf buffer maxlength format args)
  vsnprintf-Written = record {
    bytes = final;
    returns = run_lem;
    text_bytes = λ i h k. ground (arith, final_lem i);
    last_zero = ground (arith, final_lem last);
    untouched = λ i h. ground (arith, final_lem i);
  }
