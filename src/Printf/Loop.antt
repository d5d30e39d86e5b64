-- ===== src/Printf/Loop.antt =====
-- The loop of `_format` (lib/common/vsnprintf.cpp): what it puts, for any output function.
use nokernel.Prelude.{
  ℕ, zero, suc, ◌+◌, ◌-◌, ◌*◌, ◌^◌, ◌<◌, ◌≡◌, refl, ap, ◌∙◌, sym, Bool, true, false, not, List, [],
  ◌∷◌, ◌++◌, length, ltb, ◌==◌, if◌then◌else◌, arith, Bool-cases, inl, inr,
}
use mathlib.Core.List.{append-nil, append_assoc}
use nokernel.Outcome.{Outcome, ok, panicked, faults, hangs, ◌>>=◌}
use nokernel.Word.{u32, sub64}
use nokernel.Printf.{Flags, no_flags, Cursor, put, puts, atoi, is_digit}
use nokernel.Printf.Prints.{
  Op, Prints, Returns, bind-Prints, then-Prints, convert-Prints, put-puts, puts-nil, written,
  idx-puts-lt,
}
use nokernel.Printf.Padding.{puts-append}
use nokernel.Printf.Format.{
  Arg, word, text, next_word, Input, head, parse_flags, parse_width, parse_precision, parse_length,
  magnitude, convert, directive, format_loop, format_all,
}

atoi-lt : (sum : ℕ) (cs : List ℕ) → sum < 2 ^ 32 → (atoi sum cs).0 < 2 ^ 32
unfolding atoi
atoi-lt sum [] h = h
atoi-lt sum (c ∷ cs) h = ground (arith, atoi-lt (u32 (u32 (sum * 10) + (c - 48))) cs (omega arith))

abbrev Width : Type 0
Width = ℕ × (Flags × Input)

star_width :
    (args : List Arg) (k : ℕ → List Arg → Flags × Input)
    → Returns
        (λ (b : Width). b.0 < 2 ^ 32)
        (next_word args >>= λ (w, rest). ok (magnitude 32 w, k w rest))
unfolding next_word
star_width [] k = tt
star_width (text t ∷ args) k = tt
star_width (word w ∷ args) k = ground arith

-- A width has 32 bits.
parse_width-lt :
    (flags : Flags) (i : Input) → Returns (λ (b : Width). b.0 < 2 ^ 32) (parse_width flags i)
unfolding parse_width
parse_width-lt flags i = elim (Bool-cases (is_digit (head i.format))) [
  | inl e ↦ rw e (atoi-lt 0 i.format (omega arith))
  | inr e ↦ elim (Bool-cases (head i.format == 42)) [
    | inl s ↦ rw (e, s) (star_width i.args _)
    | inr n ↦ rw (e, n) (omega arith)
  ]
]

Returns-any : {B : Type 0} (r : Outcome B) → Returns (λ b. Unit {0}) r
Returns-any (ok b) = tt
Returns-any panicked = tt
Returns-any faults = tt
Returns-any hangs = tt

-- The conversion itself, at what is left of the format.
abbrev finish : List ℕ → Flags → ℕ → ℕ → List Arg → Op Input
finish format flags width precision args S out maxlength c = elim format [
  | [] ↦ faults
  | ch ∷ cs ↦
      (convert out maxlength ch flags width precision args c >>= λ (c', args').
      ok (c', record { format = cs; args = args' }))
]

nothing-Prints : {A : Type 0} (a : A) → Prints A (λ S out maxlength c. ok (c, a))
unfolding puts
nothing-Prints a = record { result = ok ([], a); prints = λ S out maxlength c hc. refl }

finish-Prints :
    (format : List ℕ) (flags : Flags) (width precision : ℕ) (args : List Arg)
    → width < 2 ^ 32
    → Prints Input (finish format flags width precision args)
finish-Prints [] flags width precision args hw = record {
  result = faults;
  prints = λ S out maxlength c hc. refl;
}
finish-Prints (ch ∷ cs) flags width precision args hw =
    then-Prints _ (λ args' S out maxlength c. ok (c, record { format = cs; args = args' }))
      (convert-Prints ch flags width precision args hw)
      (λ args'. nothing-Prints (record { format = cs; args = args' }))

pub directive-Prints : (i : Input) → Prints Input (λ S out maxlength. directive out maxlength i)
unfolding directive
directive-Prints i =
    let (flags, rest) = parse_flags no_flags i.format in
    bind-Prints (λ (b : Width). b.0 < 2 ^ 32) (parse_width flags (record i { format = rest })) _
      (parse_width-lt flags (record i { format = rest }))
      (λ b hw.
        bind-Prints (λ _. Unit {0}) (parse_precision b.1.0 b.1.1) _ (Returns-any _)
          (λ p _.
            let (all_flags, format) = parse_length p.1.0 p.1.1.format in
            finish-Prints format all_flags b.0 p.0 p.1.1.args hw))

-- A loop puts a text that is the same whatever it writes to.
pub record Writes (op : (S : Type 0) → (ℕ → S → ℕ → ℕ → S) → ℕ → Cursor S → Outcome (Cursor S))
    : Type 1 where
  pub result : Outcome (List ℕ)
  pub writes :
      (S : Type 0) (out : ℕ → S → ℕ → ℕ → S) (maxlength : ℕ) (c : Cursor S)
      → c.idx < 2 ^ 64
      → op S out maxlength c ≡ (result >>= λ t. ok (puts out maxlength t c))

abbrev Last : Type 1
Last = (S : Type 0) → (ℕ → S → ℕ → ℕ → S) → ℕ → Cursor S → Outcome (Cursor S)

if-Writes :
    (b : Bool) (f g : Last)
    → Writes f
    → Writes g
    → Writes (λ S out maxlength c. if b then f S out maxlength c else g S out maxlength c)
if-Writes true f g p q = p
if-Writes false f g p q = q

-- The text of what is put first, and that of the rest.
abbrev behind : List ℕ → Outcome (List ℕ) → Outcome (List ℕ)
behind t r = r >>= λ t'. ok (t ++ t')

module _ {S : Type 0} (out : ℕ → S → ℕ → ℕ → S) (maxlength : ℕ) (c : Cursor S) where
  behind_lem :
      (t : List ℕ) (r : Outcome (List ℕ))
      → (r >>= λ t'. ok (puts out maxlength t' (puts out maxlength t c)))
        ≡ (behind t r >>= λ t'. ok (puts out maxlength t' c))
  behind_lem t (ok t') = ap ok (sym (puts-append out maxlength t t' c))
  behind_lem t panicked = refl
  behind_lem t faults = refl
  behind_lem t hangs = refl

then-Writes :
    {B : Type 0} (op : Op B) (f : B → Last)
    → Prints B op
    → ((b : B) → Writes (f b))
    → Writes (λ S out maxlength c. op S out maxlength c >>= λ (c', b). f b S out maxlength c')
then-Writes {B} op f p q = go p.result p.prints
  where
    go :
        (r : Outcome (List ℕ × B))
        → ((S : Type 0) (out : ℕ → S → ℕ → ℕ → S) (maxlength : ℕ) (c : Cursor S)
            → c.idx < 2 ^ 64
            → op S out maxlength c ≡ written out maxlength c r)
        → Writes (λ S out maxlength c. op S out maxlength c >>= λ (c', b). f b S out maxlength c')
    go (ok (t, b)) e = record {
      result = behind t (q b).result;
      writes = λ S out maxlength c hc. rw (e S out maxlength c hc) (
          (q b).writes S out maxlength (puts out maxlength t c) (idx-puts-lt out maxlength t c hc)
          ∙ behind_lem out maxlength c t (q b).result);
    }
    go panicked e = record {
      result = panicked;
      writes = λ S out maxlength c hc. rw (e S out maxlength c hc);
    }
    go faults e = record {
      result = faults;
      writes = λ S out maxlength c hc. rw (e S out maxlength c hc);
    }
    go hangs e = record {
      result = hangs;
      writes = λ S out maxlength c hc. rw (e S out maxlength c hc);
    }

put-Prints : (ch : ℕ) → Prints (Unit {0}) (λ S out maxlength c. ok (put out maxlength ch c, tt))
put-Prints ch = record {
  result = ok (ch ∷ [], tt);
  prints = λ S out maxlength c hc. ap (λ k. ok (k, tt)) (put-puts out maxlength ch c);
}

pub format_loop-Writes :
    (rounds : ℕ) (format : List ℕ) (args : List Arg)
    → Writes (λ S out maxlength.
      format_loop out maxlength rounds (record { format = format; args = args }))
unfolding format_loop
format_loop-Writes zero format args = record {
  result = hangs;
  writes = λ S out maxlength c hc. refl;
}
format_loop-Writes (suc rounds) [] args = record {
  result = ok [];
  writes = λ S out maxlength c hc. ap ok (puts-nil out maxlength c);
}
format_loop-Writes (suc rounds) (ch ∷ cs) args =
    if-Writes (not (ch == 37)) _ _
      (then-Writes _
        (λ _ S out maxlength.
          format_loop out maxlength rounds (record { format = cs; args = args }))
        (put-Prints ch) (λ _. format_loop-Writes rounds cs args))
      (then-Writes _ (λ i S out maxlength. format_loop out maxlength rounds i)
        (directive-Prints (record { format = cs; args = args }))
        (λ i. format_loop-Writes rounds i.format i.args))

-- An output that collects the characters.
abbrev pub collect : ℕ → List ℕ → ℕ → ℕ → List ℕ
collect character collected idx maxlength = collected ++ (character ∷ [])

-- The text of a format with its arguments, or how it fails.
unfoldable pub text_of : List ℕ → List Arg → Outcome (List ℕ)
text_of format args =
    format_loop collect 0 (suc (length format)) (record { format = format; args = args })
      (record { buffer = []; idx = 0 })
    >>= λ c. ok c.buffer

puts-collect : (t : List ℕ) (c : Cursor (List ℕ)) → (puts collect 0 t c).buffer ≡ c.buffer ++ t
unfolding puts put
puts-collect [] c = sym (append-nil c.buffer)
puts-collect (x ∷ xs) c = puts-collect xs (put collect 0 x c) ∙ append_assoc c.buffer (x ∷ []) xs

rest_lem :
    {A B C : Type 0} (r : Outcome A) (f : A → B) (g : B → C)
    → ((r >>= λ a. ok (f a)) >>= λ b. ok (g b)) ≡ (r >>= λ a. ok (g (f a)))
rest_lem (ok a) f g = refl
rest_lem panicked f g = refl
rest_lem faults f g = refl
rest_lem hangs f g = refl

text_of-result :
    (format : List ℕ) (args : List Arg)
    → text_of format args ≡ (format_loop-Writes (suc (length format)) format args).result
unfolding text_of
text_of-result format args =
    let loop = format_loop-Writes (suc (length format)) format args in
    rw (loop.writes (List ℕ) collect 0 (record { buffer = []; idx = 0 }) (omega arith))
      (rest_lem loop.result _ (λ (c : Cursor (List ℕ)). c.buffer) ∙ same_text loop.result)
  where
    same_text :
        (r : Outcome (List ℕ))
        → (r >>= λ t. ok (puts collect 0 t (record { buffer = []; idx = 0 })).buffer) ≡ r
    same_text (ok t) = ap ok (puts-collect t (record { buffer = []; idx = 0 }))
    same_text panicked = refl
    same_text faults = refl
    same_text hangs = refl

-- For any format and any arguments, `_format` puts the text that a collecting output gathers from
-- index 0 on and then the last zero, whatever the output function, its buffer and the length of the
-- buffer are; it returns the length of the text as an `int`; and it fails as the collecting run does.
pub format_all-text_of :
    {S : Type 0} (out : ℕ → S → ℕ → ℕ → S) (maxlength : ℕ) (format : List ℕ) (args : List Arg)
    (buffer : S)
    → format_all out maxlength format args buffer ≡ (
        text_of format args >>= λ t.
        let c = puts out maxlength t (record { buffer = buffer; idx = 0 }) in
        ok (
          u32 c.idx,
          out 0 c.buffer (if ltb c.idx maxlength then c.idx else sub64 maxlength 1) maxlength,
        ))
unfolding format_all
format_all-text_of {S} out maxlength format args buffer =
    let loop = format_loop-Writes (suc (length format)) format args in
    rw
      (
        loop.writes S out maxlength (record { buffer = buffer; idx = 0 }) (omega arith),
        text_of-result format args,
      )
      (rest_lem loop.result _ _)
