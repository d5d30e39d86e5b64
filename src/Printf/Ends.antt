-- ===== src/Printf/Ends.antt =====
-- The loop of `_format` (lib/common/vsnprintf.cpp) comes to an end.
use nokernel.Prelude.{
  ℕ, zero, suc, ◌+◌, ◌-◌, ◌*◌, ◌≤◌, ◌<◌, ◌≢◌, Bool, true, false, not, Option, none, some, List, [],
  ◌∷◌, length, ◌==◌, if◌then◌else◌, arith, Bool-cases, inl, inr,
}
use mathlib.Core.Path.{subst}
use nokernel.Outcome.{Outcome, ok, panicked, faults, hangs, ◌>>=◌}
use nokernel.Word.{u32}
use nokernel.Printf.{Flags, no_flags, Cursor, put, atoi, is_digit}
use nokernel.Printf.Format.{
  Arg, word, text, next_word, next_text, Input, head, advance, flag_of, parse_flags, parse_width,
  parse_precision, parse_length, convert, directive, format_loop, format_all, is_integer,
  format_integer, format_char, format_string, format_pointer,
}

-- A call comes back, and what it returns has a property.
abbrev Ends : {B : Type 0} → (B → Type 0) → Outcome B → Type 0
Ends P (ok b) = P b
Ends P panicked = Unit {0}
Ends P faults = Unit {0}
Ends P hangs = ⊥

bind-Ends :
    {A B : Type 0} {P : B → Type 0} (Q : A → Type 0) (r : Outcome B) (f : B → Outcome A)
    → Ends P r
    → ((b : B) → P b → Ends Q (f b))
    → Ends Q (r >>= f)
bind-Ends Q (ok b) f h p = p b h
bind-Ends Q panicked f h p = tt
bind-Ends Q faults f h p = tt
bind-Ends Q hangs f h p = absurd h

Ends-next_word : (args : List Arg) → Ends (λ _. Unit {0}) (next_word args)
unfolding next_word
Ends-next_word [] = tt
Ends-next_word (word w ∷ args) = tt
Ends-next_word (text t ∷ args) = tt

Ends-next_text : (args : List Arg) → Ends (λ _. Unit {0}) (next_text args)
unfolding next_text
Ends-next_text [] = tt
Ends-next_text (word w ∷ args) = tt
Ends-next_text (text t ∷ args) = tt

length-advance : (cs : List ℕ) → length (advance cs) ≤ length cs
unfolding advance
length-advance [] = omega arith
length-advance (c ∷ cs) = omega arith

length-atoi : (sum : ℕ) (cs : List ℕ) → length (atoi sum cs).1 ≤ length cs
unfolding atoi
length-atoi sum [] = omega arith
length-atoi sum (c ∷ cs) = ground (arith, length-atoi (u32 (u32 (sum * 10) + (c - 48))) cs)

length-parse_flags : (flags : Flags) (cs : List ℕ) → length (parse_flags flags cs).1 ≤ length cs
unfolding parse_flags
length-parse_flags flags [] = omega arith
length-parse_flags flags (c ∷ cs) = go (flag_of c flags) (λ flags'. length-parse_flags flags' cs)
  where
    go :
        (o : Option Flags)
        → ((flags' : Flags) → length (parse_flags flags' cs).1 ≤ length cs)
        → length
            (elim o as (λ _. Flags × List ℕ) [
              | none ↦ (flags, c ∷ cs)
              | some flags' ↦ parse_flags flags' cs
            ]).1
          ≤ suc (length cs)
    go none rest = omega arith
    go (some flags') rest = omega (arith, rest flags')

length-parse_length : (flags : Flags) (cs : List ℕ) → length (parse_length flags cs).1 ≤ length cs
unfolding parse_length
length-parse_length flags cs = ground (arith, length-advance cs, length-advance (advance cs))

-- No longer than before.
abbrev Shorter : Input → ℕ × (Flags × Input) → Type 0
Shorter i b = length b.1.1.format ≤ length i.format

Ends-parse_width : (flags : Flags) (i : Input) → Ends (Shorter i) (parse_width flags i)
unfolding parse_width
Ends-parse_width flags i = elim (Bool-cases (is_digit (head i.format))) [
  | inl e ↦ rw e (length-atoi 0 i.format)
  | inr e ↦ elim (Bool-cases (head i.format == 42)) [
    | inl s ↦
        rw (e, s)
          (bind-Ends (Shorter i) (next_word i.args) _ (Ends-next_word i.args)
            (λ _ _. length-advance i.format))
    | inr n ↦ rw (e, n) (omega arith)
  ]
]

Ends-parse_precision : (flags : Flags) (i : Input) → Ends (Shorter i) (parse_precision flags i)
unfolding parse_precision
Ends-parse_precision flags i = elim (Bool-cases (head i.format == 46)) [
  | inl d ↦
      let rest = advance i.format in
      elim (Bool-cases (is_digit (head rest))) [
        | inl e ↦ rw (d, e) (omega (arith, length-atoi 0 rest, length-advance i.format))
        | inr e ↦ elim (Bool-cases (head rest == 42)) [
          | inl s ↦
              rw (d, e, s)
                (bind-Ends (Shorter i) (next_word i.args) _ (Ends-next_word i.args)
                  (λ _ _. omega (arith, length-advance rest, length-advance i.format)))
          | inr n ↦ rw (d, e, n) (length-advance i.format)
        ]
      ]
  | inr d ↦ rw d (omega arith)
]

module _ {S : Type 0} (out : ℕ → S → ℕ → ℕ → S) (maxlength : ℕ) where
  abbrev Any : Cursor S × List Arg → Type 0
  Any _ = Unit {0}

  if-Ends :
      (b : Bool) (r r' : Outcome (Cursor S × List Arg))
      → Ends Any r
      → Ends Any r'
      → Ends Any (if b then r else r')
  if-Ends true r r' h k = h
  if-Ends false r r' h k = k

  Ends-convert :
      (ch : ℕ) (flags : Flags) (width precision : ℕ) (args : List Arg) (c : Cursor S)
      → Ends Any (convert out maxlength ch flags width precision args c)
  unfolding convert format_integer format_char format_string format_pointer
  Ends-convert ch flags width precision args c =
      let number = bind-Ends Any (next_word args) _ (Ends-next_word args) in
      if-Ends (is_integer ch) _ _ (number (λ _ _. tt)) (
        if-Ends (ch == 99) _ _ (bind-Ends Any (next_word args) _ (Ends-next_word args) (λ _ _. tt))
          (if-Ends (ch == 115) _ _
            (bind-Ends Any (next_text args) _ (Ends-next_text args) (λ _ _. tt))
            (if-Ends (ch == 112) _ _
              (bind-Ends Any (next_word args) _ (Ends-next_word args) (λ _ _. tt)) tt)))

  abbrev finish : List ℕ → Flags → ℕ → ℕ → List Arg → Cursor S → Outcome (Cursor S × Input)
  finish format flags width precision args c = elim format [
    | [] ↦ faults
    | ch ∷ cs ↦
        (convert out maxlength ch flags width precision args c >>= λ (c', args').
        ok (c', record { format = cs; args = args' }))
  ]

  -- What is left of a format of `n` characters.
  abbrev Left : ℕ → Cursor S × Input → Type 0
  Left n b = length b.1.format ≤ n

  Ends-finish :
      (n : ℕ) (format : List ℕ) (flags : Flags) (width precision : ℕ) (args : List Arg)
      (c : Cursor S)
      → length format ≤ n
      → Ends (Left n) (finish format flags width precision args c)
  Ends-finish n [] flags width precision args c h = tt
  Ends-finish n (ch ∷ cs) flags width precision args c h =
      bind-Ends (Left n) (convert out maxlength ch flags width precision args c) _
        (Ends-convert ch flags width precision args c) (λ _ _. omega arith)

  Ends-directive :
      (i : Input) (c : Cursor S) → Ends (Left (length i.format)) (directive out maxlength i c)
  unfolding directive
  Ends-directive i c =
      let (flags, rest) = parse_flags no_flags i.format in
      let n = length i.format in
      bind-Ends (Left n) (parse_width flags (record i { format = rest })) _
        (Ends-parse_width flags (record i { format = rest }))
        (λ b h.
          bind-Ends (Left n) (parse_precision b.1.0 b.1.1) _ (Ends-parse_precision b.1.0 b.1.1)
            (λ p k.
              let (all_flags, format) = parse_length p.1.0 p.1.1.format in
              Ends-finish n format all_flags b.0 p.0 p.1.1.args c (
                omega (
                  arith,
                  h,
                  k,
                  length-parse_flags no_flags i.format,
                  length-parse_length p.1.0 p.1.1.format,
                ))))

  Ends-format_loop :
      (rounds : ℕ) (format : List ℕ) (args : List Arg) (c : Cursor S)
      → length format < rounds
      → Ends
          (λ (_ : Cursor S). Unit {0})
          (format_loop out maxlength rounds (record { format = format; args = args }) c)
  unfolding format_loop
  Ends-format_loop zero format args c h = absurd (omega arith)
  Ends-format_loop (suc rounds) [] args c h = tt
  Ends-format_loop (suc rounds) (ch ∷ cs) args c h = elim (Bool-cases (not (ch == 37))) [
    | inl e ↦ rw e (Ends-format_loop rounds cs args (put out maxlength ch c) (omega arith))
    | inr e ↦
        let i : Input = record { format = cs; args = args } in
        rw e (
          bind-Ends (λ (_ : Cursor S). Unit {0}) (directive out maxlength i c) _
            (Ends-directive i c)
            (λ b k. Ends-format_loop rounds b.1.format b.1.args b.0 (omega (arith, k))))
  ]

  Ends-ne : {A : Type 0} (P : A → Type 0) (r : Outcome A) → Ends P r → r ≢ hangs
  Ends-ne P r h e = subst (Ends P) e h

  -- For any format, any arguments and any output function, the rounds that `_format` is given are
  -- enough: it comes to an end.
  pub format_all-ends :
      (format : List ℕ) (args : List Arg) (buffer : S)
      → format_all out maxlength format args buffer ≢ hangs
  unfolding format_all
  format_all-ends format args buffer =
      Ends-ne (λ (_ : ℕ × S). Unit {0}) _
        (bind-Ends (λ (_ : ℕ × S). Unit {0})
          (format_loop out maxlength (suc (length format)) (record { format = format; args = args })
            (record { buffer = buffer; idx = 0 }))
          _
          (Ends-format_loop (suc (length format)) format args (record { buffer = buffer; idx = 0 })
            (omega arith))
          (λ _ _. tt))
