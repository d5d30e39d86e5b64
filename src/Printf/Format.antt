-- ===== src/Printf/Format.antt =====
-- The interpreter of format strings, `_format` of lib/common/vsnprintf.cpp, and the functions that
-- call it.
use nokernel.Prelude.{
  take, ℕ, zero, suc, ◌-◌, ◌%◌, ◌^◌, Bool, true, false, not, ◌&&◌, ◌||◌, Option, none, some, List,
  [], ◌∷◌, length, ltb, leb, ◌==◌, if◌then◌else◌,
}
use nokernel.Outcome.{Outcome, ok, faults, hangs, ◌>>=◌}
use nokernel.Word.{u32, sub64}
use nokernel.Printf.{
  Flags, no_flags, is_digit, atoi, Cursor, put, puts, pad, ntoa_long, out_buffer, out_fct,
}

-- An argument of a variadic call: a number in its slot of 64 bits, or the characters of a string.
pub data Arg : Type 0 where
  word : ℕ → Arg
  text : List ℕ → Arg

-- `__builtin_va_arg`: reading an argument that is not there, or of another kind, is undefined.
unfoldable pub next_word : List Arg → Outcome (ℕ × List Arg)
next_word [] = faults
next_word (word w ∷ args) = ok (w, args)
next_word (text t ∷ args) = faults

unfoldable pub next_text : List Arg → Outcome (List ℕ × List Arg)
next_text [] = faults
next_text (word w ∷ args) = faults
next_text (text t ∷ args) = ok (t, args)

-- What is left of the format string, and of the arguments.
pub record Input : Type 0 where
  pub format : List ℕ
  pub args : List Arg

-- The character at `format`; the string ends with a zero.
unfoldable pub head : List ℕ → ℕ
head [] = 0
head (c ∷ cs) = c

-- `format++`, at a character that is not the last zero.
unfoldable pub advance : List ℕ → List ℕ
advance [] = []
advance (c ∷ cs) = cs

unfoldable pub flag_of : ℕ → Flags → Option Flags
flag_of c flags =
    if c == 48
    then some (record flags { zeropad = true })
    else (if c == 45
        then some (record flags { padleft = true })
        else (if c == 43
            then some (record flags { forceplus = true })
            else (if c == 32
                then some (record flags { padspace = true })
                else (if c == 35 then some (record flags { zerohashprefix = true }) else none))))

unfoldable pub parse_flags : Flags → List ℕ → Flags × List ℕ
parse_flags flags [] = (flags, [])
parse_flags flags (c ∷ cs) = elim (flag_of c flags) [
  | none ↦ (flags, c ∷ cs)
  | some flags' ↦ parse_flags flags' cs
]

-- `__builtin_va_arg(args, int)` as 32 bits, its sign, and its absolute value.
abbrev pub is_negative : ℕ → ℕ → Bool
is_negative bits w = leb (2 ^ (bits - 1)) (w % 2 ^ bits)

abbrev pub magnitude : ℕ → ℕ → ℕ
magnitude bits w = if is_negative bits w then 2 ^ bits - w % 2 ^ bits else w % 2 ^ bits

unfoldable pub parse_width : Flags → Input → Outcome (ℕ × (Flags × Input))
parse_width flags i =
    if is_digit (head i.format)
    then (let (width, rest) = atoi 0 i.format in ok (width, (flags, record i { format = rest })))
    else (if head i.format == 42
        then (next_word i.args >>= λ (w, args). ok (
          magnitude 32 w,
          (
            (if is_negative 32 w then record flags { padleft = true } else flags),
            record { format = advance i.format; args = args },
          ),
        ))
        else ok (0, (flags, i)))

unfoldable pub parse_precision : Flags → Input → Outcome (ℕ × (Flags × Input))
parse_precision flags i =
    if head i.format == 46
    then (let flags' = record flags { has_precision = true } in
        let format = advance i.format in
        if is_digit (head format)
        then (let (prec, rest) = atoi 0 format in ok (prec, (flags', record i { format = rest })))
        else (if head format == 42
            then (next_word i.args >>= λ (w, args). ok (
              (if is_negative 32 w then 0 else u32 w),
              (flags', record { format = advance format; args = args }),
            ))
            else ok (0, (flags', record i { format = format }))))
    else ok (0, (flags, i))

-- `l`, `ll`, `h`, `hh`, and `j` and `z`, whose types are as long as `long`.
unfoldable pub parse_length : Flags → List ℕ → Flags × List ℕ
parse_length flags format =
    let rest = advance format in
    if head format == 108
    then (if head rest == 108
        then (record flags { is_long = true; is_long_long = true }, advance rest)
        else (record flags { is_long = true }, rest))
    else (if head format == 104
        then (if head rest == 104
            then (record flags { is_short = true; is_char = true }, advance rest)
            else (record flags { is_short = true }, rest))
        else (if head format == 106 || head format == 122
            then (record flags { is_long = true }, rest)
            else (flags, format)))

-- `i` or `d`, and the conversions of integers.
abbrev pub is_signed : ℕ → Bool
is_signed c = c == 105 || c == 100

abbrev pub is_integer : ℕ → Bool
is_integer c = is_signed c || (c == 117 || (c == 120 || (c == 88 || (c == 111 || c == 98))))

abbrev pub base_of : ℕ → ℕ
base_of c =
    if c == 120 || c == 88 then 16 else (if c == 111 then 8 else (if c == 98 then 2 else 10))

unfoldable pub integer_flags : ℕ → Flags → Flags
integer_flags c flags =
    let hashed = if base_of c == 10 then record flags { zerohashprefix = false } else flags in
    let cased = if c == 88 then record hashed { uppercase = true } else hashed in
    let signed =
      if not (is_signed c) then record cased { forceplus = false; padspace = false } else cased in
    if signed.has_precision then record signed { zeropad = false } else signed

-- How many bits of an argument are read.
abbrev pub bits_of : Flags → ℕ
bits_of flags =
    if flags.is_long_long || flags.is_long
    then 64
    else (if flags.is_char then 8 else (if flags.is_short then 16 else 32))

-- `_strnlen_s(p, maxsize)`.
unfoldable pub strnlen : List ℕ → ℕ → ℕ
strnlen [] maxsize = 0
strnlen (c ∷ cs) zero = 0
strnlen (c ∷ cs) (suc maxsize) = suc (strnlen cs maxsize)

module _ {S : Type 0} (out : ℕ → S → ℕ → ℕ → S) (maxlength : ℕ) where
  unfoldable pub format_integer :
      ℕ → Flags → ℕ → ℕ → List Arg → Cursor S → Outcome (Cursor S × List Arg)
  format_integer c flags width precision args cursor =
      let flags' = integer_flags c flags in
      let bits = bits_of flags' in
      next_word args >>= λ (w, args').
      let negative = is_signed c && is_negative bits w in
      let value = if is_signed c then magnitude bits w else w % 2 ^ bits in
      ok (ntoa_long out maxlength value negative (base_of c) precision width flags' cursor, args')

  -- `l` counts from 1.
  unfoldable pub format_char : Flags → ℕ → List Arg → Cursor S → Outcome (Cursor S × List Arg)
  format_char flags width args cursor = next_word args >>= λ (w, args').
      let front = if not flags.padleft then pad out maxlength (width - 1) 32 cursor else cursor in
      let body = put out maxlength (w % 2 ^ 8) front in
      ok ((if flags.padleft then pad out maxlength (width - 1) 32 body else body), args')

  unfoldable pub format_string : Flags → ℕ → ℕ → List Arg → Cursor S → Outcome (Cursor S × List Arg)
  format_string flags width precision args cursor = next_text args >>= λ (p, args').
      let len = strnlen p (if precision == 0 then 2 ^ 64 - 1 else precision) in
      let l =
        if flags.has_precision
        then (if ltb (u32 len) precision then 1 else precision)
        else u32 len in
      let front = if not flags.padleft then pad out maxlength (width - l) 32 cursor else cursor in
      let body = puts out maxlength (if flags.has_precision then take precision p else p) front in
      ok ((if flags.padleft then pad out maxlength (width - l) 32 body else body), args')

  unfoldable pub format_pointer : Flags → ℕ → List Arg → Cursor S → Outcome (Cursor S × List Arg)
  format_pointer flags precision args cursor = next_word args >>= λ (w, args'). ok (
    ntoa_long out maxlength w false 16 precision 16
        (record flags { zeropad = true; uppercase = true }) cursor,
    args',
  )

  -- The switch on the conversion, at the character `c`.
  unfoldable pub convert : ℕ → Flags → ℕ → ℕ → List Arg → Cursor S → Outcome (Cursor S × List Arg)
  convert c flags width precision args cursor =
      if is_integer c
      then format_integer c flags width precision args cursor
      else (if c == 99
          then format_char flags width args cursor
          else (if c == 115
              then format_string flags width precision args cursor
              else (if c == 112
                  then format_pointer flags precision args cursor
                  else ok (put out maxlength c cursor, args))))

  -- What stands behind a `%`. If the string ends before the conversion, its last zero is put and
  -- passed, and the loop of `_format` reads behind the string.
  unfoldable pub directive : Input → Cursor S → Outcome (Cursor S × Input)
  directive i cursor =
      let (flags, rest) = parse_flags no_flags i.format in
      parse_width flags (record i { format = rest }) >>= λ (width, (flags', i')).
      parse_precision flags' i' >>= λ (precision, (flags'', i'')).
      let (all_flags, format) = parse_length flags'' i''.format in
      elim format [
        | [] ↦ faults
        | c ∷ cs ↦
            (convert c all_flags width precision i''.args cursor >>= λ (cursor', args).
            ok (cursor', record { format = cs; args = args }))
      ]

  -- The loop of `_format`, with a bound on the rounds.
  unfoldable pub format_loop : ℕ → Input → Cursor S → Outcome (Cursor S)
  format_loop zero i cursor = hangs
  format_loop (suc rounds) i cursor = elim i.format [
    | [] ↦ ok cursor
    | c ∷ cs ↦
        if not (c == 37)
        then format_loop rounds (record i { format = cs }) (put out maxlength c cursor)
        else (directive (record i { format = cs }) cursor >>= λ (cursor', i').
            format_loop rounds i' cursor')
  ]

  -- Each round takes a character of the format, so there are at most as many as it has. The result
  -- is the number of characters, as an `int` of 32 bits.
  unfoldable pub format_all : List ℕ → List Arg → S → Outcome (ℕ × S)
  format_all format args buffer =
      format_loop (suc (length format)) (record { format = format; args = args })
        (record { buffer = buffer; idx = 0 })
      >>= λ c. ok (
        u32 c.idx,
        out 0 c.buffer (if ltb c.idx maxlength then c.idx else sub64 maxlength 1) maxlength,
      )

unfoldable pub vsnprintf : (ℕ → ℕ) → ℕ → List ℕ → List Arg → Outcome (ℕ × (ℕ → ℕ))
vsnprintf buffer maxlength format args = format_all out_buffer maxlength format args buffer

unfoldable pub vfctprintf : {S : Type 0} → (ℕ → S → S) → S → List ℕ → List Arg → Outcome (ℕ × S)
vfctprintf fct arg format args = format_all (out_fct fct) (2 ^ 64 - 1) format args arg
