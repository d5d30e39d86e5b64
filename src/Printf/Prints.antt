-- ===== src/Printf/Prints.antt =====
-- `_format` (lib/common/vsnprintf.cpp) puts a text that does not depend on the output function.
use nokernel.Prelude.{
  ℕ, ◌-◌, ◌%◌, ◌^◌, ◌≤◌, ◌<◌, ◌≡◌, refl, ap, ◌∙◌, sym, Bool, true, false, not, ◌&&◌, ◌||◌, List, [],
  ◌∷◌, ◌++◌, length, replicate, ltb, ◌==◌, if◌then◌else◌, arith, take,
}
use nokernel.Outcome.{Outcome, ok, panicked, faults, hangs, ◌>>=◌}
use nokernel.Word.{u32}
use nokernel.Printf.{
  Flags, Cursor, put, puts, pad, ntoa_format, ntoa_long, ntoa_buf, padded_width, digits_loop,
  ntoa_buffer_size,
}
use nokernel.Printf.Padding.{padded, puts-append, pad-replicate, idx-puts, out_rev-padded}
use nokernel.Printf.Text.{length-ntoa_buf, length-digits_loop}
use nokernel.Printf.Format.{
  Arg, word, text, next_word, next_text, magnitude, is_negative, is_signed, is_integer, base_of,
  integer_flags, bits_of, strnlen, format_integer, format_char, format_string, format_pointer,
  convert,
}

-- The outcome of putting the text of an outcome.
abbrev pub written :
    {A S : Type 0}
    → (ℕ → S → ℕ → ℕ → S)
    → ℕ
    → Cursor S
    → Outcome (List ℕ × A)
    → Outcome (Cursor S × A)
written out maxlength c r = r >>= λ (t, a). ok (puts out maxlength t c, a)

-- `op` puts a text, and returns something, and both are the same whatever it writes to.
pub record Prints (A : Type 0)
    (op : (S : Type 0) → (ℕ → S → ℕ → ℕ → S) → ℕ → Cursor S → Outcome (Cursor S × A)) : Type 1 where
  pub result : Outcome (List ℕ × A)
  pub prints :
      (S : Type 0) (out : ℕ → S → ℕ → ℕ → S) (maxlength : ℕ) (c : Cursor S)
      → c.idx < 2 ^ 64
      → op S out maxlength c ≡ written out maxlength c result

-- The characters of the local buffer, as `_ntoa_long` finds them.
abbrev number_flags : ℕ → Flags → Flags
number_flags value flags = if value == 0 then record flags { zerohashprefix = false } else flags

abbrev number_buf : ℕ → ℕ → Flags → List ℕ
number_buf value base flags =
    if not flags.has_precision || not (value == 0)
    then digits_loop ntoa_buffer_size value base flags []
    else []

-- What `_ntoa_long` puts.
abbrev pub number_text : ℕ → Bool → ℕ → ℕ → ℕ → Flags → List ℕ
number_text value negative base prec width flags =
    let flags' = number_flags value flags in
    padded (ntoa_buf (number_buf value base flags') negative base prec width flags')
      (padded_width negative width flags') flags'

padded_width-le :
    (negative : Bool) (width : ℕ) (flags : Flags) → padded_width negative width flags ≤ width
unfolding padded_width
padded_width-le negative width flags = ground arith

length-number_buf : (value base : ℕ) (flags : Flags) → length (number_buf value base flags) ≤ 32
length-number_buf value base flags =
    ground (arith, length-digits_loop ntoa_buffer_size value base flags [] (omega arith))

module _ {S : Type 0} (out : ℕ → S → ℕ → ℕ → S) (maxlength : ℕ) where
  ntoa_long-number_text :
      (value : ℕ) (negative : Bool) (base prec width : ℕ) (flags : Flags) (c : Cursor S)
      → c.idx < 2 ^ 64
      → width < 2 ^ 32
      → ntoa_long out maxlength value negative base prec width flags c
        ≡ puts out maxlength (number_text value negative base prec width flags) c
  unfolding ntoa_long ntoa_format
  ntoa_long-number_text value negative base prec width flags c hc hw =
      let flags' = number_flags value flags in
      let buf = number_buf value base flags' in
      out_rev-padded out maxlength (ntoa_buf buf negative base prec width flags')
        (padded_width negative width flags') flags' c hc
        (omega (arith, padded_width-le negative width flags'))
        (omega (
          arith,
          length-ntoa_buf buf negative base prec width flags' (length-number_buf value base flags'),
        ))

  pub put-puts : (ch : ℕ) (c : Cursor S) → put out maxlength ch c ≡ puts out maxlength (ch ∷ []) c
  unfolding puts
  put-puts ch c = refl

  pub puts-nil : (c : Cursor S) → c ≡ puts out maxlength [] c
  unfolding puts
  puts-nil c = refl

  -- A text between spaces.
  spaced :
      (n : ℕ) (left : Bool) (t : List ℕ) (c : Cursor S)
      → (let body = puts out maxlength t (if not left then pad out maxlength n 32 c else c) in
          if left then pad out maxlength n 32 body else body)
        ≡ puts out maxlength (if left then t ++ replicate n 32 else replicate n 32 ++ t) c
  spaced n true t c =
      pad-replicate out maxlength n 32 (puts out maxlength t c)
      ∙ sym (puts-append out maxlength t (replicate n 32) c)
  spaced n false t c =
      ap (puts out maxlength t) (pad-replicate out maxlength n 32 c)
      ∙ sym (puts-append out maxlength (replicate n 32) t c)

abbrev spaced_text : ℕ → Bool → List ℕ → List ℕ
spaced_text n left t = if left then t ++ replicate n 32 else replicate n 32 ++ t

module _ (width : ℕ) (hw : width < 2 ^ 32) where
  format_integer-Prints :
      (ch : ℕ) (flags : Flags) (precision : ℕ) (args : List Arg)
      → Prints
          (List Arg)
          (λ S out maxlength. format_integer out maxlength ch flags width precision args)
  unfolding format_integer next_word
  format_integer-Prints ch flags precision [] = record {
    result = faults;
    prints = λ S out maxlength c hc. refl;
  }
  format_integer-Prints ch flags precision (text t ∷ args) = record {
    result = faults;
    prints = λ S out maxlength c hc. refl;
  }
  format_integer-Prints ch flags precision (word w ∷ args) =
      let flags' = integer_flags ch flags in
      let bits = bits_of flags' in
      let negative = is_signed ch && is_negative bits w in
      let value = if is_signed ch then magnitude bits w else w % 2 ^ bits in
      record {
        result = ok (number_text value negative (base_of ch) precision width flags', args);
        prints = λ S out maxlength c hc.
            ap (λ k. ok (k, args))
              (ntoa_long-number_text out maxlength value negative (base_of ch) precision width
                flags' c hc hw);
      }

  format_char-Prints :
      (flags : Flags) (args : List Arg)
      → Prints (List Arg) (λ S out maxlength. format_char out maxlength flags width args)
  unfolding format_char next_word puts
  format_char-Prints flags [] = record { result = faults; prints = λ S out maxlength c hc. refl }
  format_char-Prints flags (text t ∷ args) = record {
    result = faults;
    prints = λ S out maxlength c hc. refl;
  }
  format_char-Prints flags (word w ∷ args) = record {
    result = ok (spaced_text (width - 1) flags.padleft (w % 2 ^ 8 ∷ []), args);
    prints = λ S out maxlength c hc.
        ap (λ k. ok (k, args)) (spaced out maxlength (width - 1) flags.padleft (w % 2 ^ 8 ∷ []) c);
  }

  -- What `l` is in the end.
  abbrev claimed : List ℕ → ℕ → Flags → ℕ
  claimed p precision flags =
      let len = strnlen p (if precision == 0 then 2 ^ 64 - 1 else precision) in
      if flags.has_precision then (if ltb (u32 len) precision then 1 else precision) else u32 len

  format_string-Prints :
      (flags : Flags) (precision : ℕ) (args : List Arg)
      → Prints
          (List Arg)
          (λ S out maxlength. format_string out maxlength flags width precision args)
  unfolding format_string next_text
  format_string-Prints flags precision [] = record {
    result = faults;
    prints = λ S out maxlength c hc. refl;
  }
  format_string-Prints flags precision (word w ∷ args) = record {
    result = faults;
    prints = λ S out maxlength c hc. refl;
  }
  format_string-Prints flags precision (text p ∷ args) =
      let shown = if flags.has_precision then take precision p else p in
      let spaces = width - claimed p precision flags in
      record {
        result = ok (spaced_text spaces flags.padleft shown, args);
        prints = λ S out maxlength c hc.
            ap (λ k. ok (k, args)) (spaced out maxlength spaces flags.padleft shown c);
      }

format_pointer-Prints :
    (flags : Flags) (precision : ℕ) (args : List Arg)
    → Prints (List Arg) (λ S out maxlength. format_pointer out maxlength flags precision args)
unfolding format_pointer next_word
format_pointer-Prints flags precision [] = record {
  result = faults;
  prints = λ S out maxlength c hc. refl;
}
format_pointer-Prints flags precision (text t ∷ args) = record {
  result = faults;
  prints = λ S out maxlength c hc. refl;
}
format_pointer-Prints flags precision (word w ∷ args) =
    let flags' = record flags { zeropad = true; uppercase = true } in
    record {
      result = ok (number_text w false 16 precision 16 flags', args);
      prints = λ S out maxlength c hc.
          ap (λ k. ok (k, args))
            (ntoa_long-number_text out maxlength w false 16 precision 16 flags' c hc (omega arith));
    }

abbrev pub Op : Type 0 → Type 1
Op A = (S : Type 0) → (ℕ → S → ℕ → ℕ → S) → ℕ → Cursor S → Outcome (Cursor S × A)

if-Prints :
    {A : Type 0} (b : Bool) (f g : Op A)
    → Prints A f
    → Prints A g
    → Prints A (λ S out maxlength c. if b then f S out maxlength c else g S out maxlength c)
if-Prints true f g p q = p
if-Prints false f g p q = q

pub convert-Prints :
    (ch : ℕ) (flags : Flags) (width precision : ℕ) (args : List Arg)
    → width < 2 ^ 32
    → Prints (List Arg) (λ S out maxlength. convert out maxlength ch flags width precision args)
unfolding convert
convert-Prints ch flags width precision args hw =
    if-Prints (is_integer ch) _ _ (format_integer-Prints width hw ch flags precision args) (
      if-Prints (ch == 99) _ _ (format_char-Prints width hw flags args) (
        if-Prints (ch == 115) _ _ (format_string-Prints width hw flags precision args) (
          if-Prints (ch == 112) _ _ (format_pointer-Prints flags precision args) (record {
            result = ok (ch ∷ [], args);
            prints = λ S out maxlength c hc. ap (λ k. ok (k, args)) (put-puts out maxlength ch c);
          }))))

-- What an outcome returns has a property.
abbrev pub Returns : {B : Type 0} → (B → Type 0) → Outcome B → Type 0
Returns P (ok b) = P b
Returns P panicked = Unit {0}
Returns P faults = Unit {0}
Returns P hangs = Unit {0}

pub bind-Prints :
    {A B : Type 0} (P : B → Type 0) (r : Outcome B) (f : B → Op A)
    → Returns P r
    → ((b : B) → P b → Prints A (f b))
    → Prints A (λ S out maxlength c. r >>= λ b. f b S out maxlength c)
bind-Prints P (ok b) f h p = p b h
bind-Prints P panicked f h p = record { result = panicked; prints = λ S out maxlength c hc. refl }
bind-Prints P faults f h p = record { result = faults; prints = λ S out maxlength c hc. refl }
bind-Prints P hangs f h p = record { result = hangs; prints = λ S out maxlength c hc. refl }

-- Putting one text after another.
abbrev joined : {A : Type 0} → List ℕ → Outcome (List ℕ × A) → Outcome (List ℕ × A)
joined t r = r >>= λ (t', a). ok (t ++ t', a)

joined_lem :
    {A S : Type 0} (out : ℕ → S → ℕ → ℕ → S) (maxlength : ℕ) (c : Cursor S) (t : List ℕ)
    (r : Outcome (List ℕ × A))
    → written out maxlength (puts out maxlength t c) r ≡ written out maxlength c (joined t r)
joined_lem out maxlength c t (ok (t', a)) =
    ap (λ k. ok (k, a)) (sym (puts-append out maxlength t t' c))
joined_lem out maxlength c t panicked = refl
joined_lem out maxlength c t faults = refl
joined_lem out maxlength c t hangs = refl

pub idx-puts-lt :
    {S : Type 0} (out : ℕ → S → ℕ → ℕ → S) (maxlength : ℕ) (t : List ℕ) (c : Cursor S)
    → c.idx < 2 ^ 64
    → (puts out maxlength t c).idx < 2 ^ 64
idx-puts-lt out maxlength t c h = omega (arith, idx-puts out maxlength t c h)

pub then-Prints :
    {A B : Type 0} (op : Op B) (f : B → Op A)
    → Prints B op
    → ((b : B) → Prints A (f b))
    → Prints A (λ S out maxlength c. op S out maxlength c >>= λ (c', b). f b S out maxlength c')
then-Prints {A} {B} op f p q = go p.result p.prints
  where
    go :
        (r : Outcome (List ℕ × B))
        → ((S : Type 0) (out : ℕ → S → ℕ → ℕ → S) (maxlength : ℕ) (c : Cursor S)
            → c.idx < 2 ^ 64
            → op S out maxlength c ≡ written out maxlength c r)
        → Prints A (λ S out maxlength c. op S out maxlength c >>= λ (c', b). f b S out maxlength c')
    go (ok (t, b)) e = record {
      result = joined t (q b).result;
      prints = λ S out maxlength c hc. rw (e S out maxlength c hc) (
          (q b).prints S out maxlength (puts out maxlength t c) (idx-puts-lt out maxlength t c hc)
          ∙ joined_lem out maxlength c t (q b).result);
    }
    go panicked e = record {
      result = panicked;
      prints = λ S out maxlength c hc. rw (e S out maxlength c hc);
    }
    go faults e = record {
      result = faults;
      prints = λ S out maxlength c hc. rw (e S out maxlength c hc);
    }
    go hangs e = record {
      result = hangs;
      prints = λ S out maxlength c hc. rw (e S out maxlength c hc);
    }
