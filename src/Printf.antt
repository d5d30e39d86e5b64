-- ===== src/Printf.antt =====
-- Formatted printing (lib/common/vsnprintf.cpp): the output functions, padding and integers; and
-- `is_digit` and `atoi` of lib/common. Characters are their codes.
pub mod Format
pub mod Digits
pub mod Padding
pub mod Text
pub mod Prints
pub mod Loop
pub mod Buffer
pub mod Ends
mod Tests
use nokernel.Prelude.{
  ℕ, zero, suc, ◌+◌, ◌-◌, ◌*◌, ◌/◌, ◌%◌, ◌^◌, Bool, true, false, not, ◌&&◌, ◌||◌, Option, none,
  some, List, [], ◌∷◌, ◌++◌, length, ltb, leb, ◌==◌, if◌then◌else◌,
}
use nokernel.Word.{u32, u64, sub64}

-- The bits of `flags`.
pub record Flags : Type 0 where
  pub zeropad : Bool
  pub padleft : Bool
  pub forceplus : Bool
  pub padspace : Bool
  pub zerohashprefix : Bool
  pub uppercase : Bool
  pub is_char : Bool
  pub is_short : Bool
  pub is_long : Bool
  pub is_long_long : Bool
  pub has_precision : Bool

abbrev pub no_flags : Flags
no_flags = record {
  zeropad = false;
  padleft = false;
  forceplus = false;
  padspace = false;
  zerohashprefix = false;
  uppercase = false;
  is_char = false;
  is_short = false;
  is_long = false;
  is_long_long = false;
  has_precision = false;
}

-- `PRINTF_NTOA_BUFFER_SIZE`.
abbrev pub ntoa_buffer_size : ℕ
ntoa_buffer_size = 32

unfoldable pub is_digit : ℕ → Bool
is_digit c = leb 48 c && leb c 57

-- `atoi` from a sum on: the number, and the rest of the string.
unfoldable pub atoi : ℕ → List ℕ → ℕ × List ℕ
atoi sum [] = (sum, [])
atoi sum (c ∷ cs) =
    let rest = atoi (u32 (u32 (sum * 10) + (c - 48))) cs in
    if is_digit c then rest else (sum, c ∷ cs)

-- The buffer of `_out_buffer`, as bytes by index.
unfoldable pub out_buffer : ℕ → (ℕ → ℕ) → ℕ → ℕ → (ℕ → ℕ)
out_buffer character buffer idx maxlength =
    if ltb idx maxlength then (λ i. if i == idx then character else buffer i) else buffer

-- `_out_fct` with a user function `fct` on a state of its own.
unfoldable pub out_fct : {S : Type 0} → (ℕ → S → S) → ℕ → S → ℕ → ℕ → S
out_fct fct character s idx maxlength = if not (character == 0) then fct character s else s

-- What is written to, and `idx`.
pub record Cursor (S : Type 0) : Type 0 where
  pub buffer : S
  pub idx : ℕ

module _ {S : Type 0} (out : ℕ → S → ℕ → ℕ → S) (maxlength : ℕ) where
  -- `out(character, buffer, idx++, maxlength)`.
  unfoldable pub put : ℕ → Cursor S → Cursor S
  put character c = record {
    buffer = out character c.buffer c.idx maxlength;
    idx = u64 (c.idx + 1);
  }

  -- The characters of a list one by one.
  unfoldable pub puts : List ℕ → Cursor S → Cursor S
  puts [] c = c
  puts (x ∷ xs) c = puts xs (put x c)

  -- `n` rounds of a loop that puts one character.
  unfoldable pub pad : ℕ → ℕ → Cursor S → Cursor S
  pad zero character c = c
  pad (suc n) character c = pad n character (put character c)

  -- `while (idx - start_idx < width) out(' ', ...)`, with a bound on the rounds.
  unfoldable pub pad_to : ℕ → ℕ → ℕ → Cursor S → Cursor S
  pad_to zero start width c = c
  pad_to (suc rounds) start width c =
      let rest = pad_to rounds start width (put 32 c) in
      if ltb (sub64 c.idx start) width then rest else c

  -- `buf` is what was written to the local buffer, last character first: the order in which
  -- `while (len) out(buf[--len], ...)` puts it.
  unfoldable pub out_rev : List ℕ → ℕ → Flags → Cursor S → Cursor S
  out_rev buf width flags c =
      let start = c.idx in
      let front =
        if not flags.padleft
        then pad (width - length buf) (if flags.zeropad then 48 else 32) c
        else c in
      let body = puts buf front in if flags.padleft then pad_to width start width body else body

-- `while (len < limit && len < PRINTF_NTOA_BUFFER_SIZE) buf[len++] = character;`
unfoldable pub fill : ℕ → ℕ → ℕ → List ℕ → List ℕ
fill zero limit character buf = buf
fill (suc rounds) limit character buf =
    let rest = fill rounds limit character (character ∷ buf) in
    if ltb (length buf) limit && ltb (length buf) ntoa_buffer_size then rest else buf

-- `if (len < PRINTF_NTOA_BUFFER_SIZE) buf[len++] = character;`
unfoldable pub push : ℕ → List ℕ → List ℕ
push character buf = if ltb (length buf) ntoa_buffer_size then character ∷ buf else buf

-- `len--;`
unfoldable pub pop : List ℕ → List ℕ
pop [] = []
pop (x ∷ xs) = xs

-- The part of `_ntoa_format` under `!(flags & FLAGS_PADLEFT)`: first the width, then the buffer.
unfoldable pub padded_width : Bool → ℕ → Flags → ℕ
padded_width negative width flags =
    if not flags.padleft
      && (not (width == 0) && (flags.zeropad && (negative || (flags.forceplus || flags.padspace))))
    then width - 1
    else width

unfoldable pub padded_buf : List ℕ → ℕ → ℕ → Flags → List ℕ
padded_buf buf prec width flags =
    if not flags.padleft
    then (let precise = fill ntoa_buffer_size prec 48 buf in
        if flags.zeropad then fill ntoa_buffer_size width 48 precise else precise)
    else buf

-- The part under `flags & FLAGS_ZEROHASHPREFIX`.
unfoldable pub prefixed_buf : List ℕ → ℕ → ℕ → ℕ → Flags → List ℕ
prefixed_buf buf base prec width flags =
    if flags.zerohashprefix
    then (let len = length buf in
        let short =
          if not flags.has_precision && (not (len == 0) && (len == prec || len == width))
          then (if not (length (pop buf) == 0) && base == 16 then pop (pop buf) else pop buf)
          else buf in
        let marked =
          if base == 16 && not flags.uppercase
          then push 120 short
          else (if base == 16 && flags.uppercase
              then push 88 short
              else (if base == 2 then push 98 short else short)) in
        push 48 marked)
    else buf

unfoldable pub signed_buf : List ℕ → Bool → Flags → List ℕ
signed_buf buf negative flags =
    if negative
    then push 45 buf
    else (if flags.forceplus then push 43 buf else (if flags.padspace then push 32 buf else buf))

-- The characters that `_ntoa_format` has in its buffer in the end.
unfoldable pub ntoa_buf : List ℕ → Bool → ℕ → ℕ → ℕ → Flags → List ℕ
ntoa_buf buf negative base prec width flags =
    let width' = padded_width negative width flags in
    signed_buf (prefixed_buf (padded_buf buf prec width' flags) base prec width' flags) negative
      flags

unfoldable pub digit_char : ℕ → Flags → ℕ
digit_char digit flags =
    if ltb digit 10 then 48 + digit else (if flags.uppercase then 65 else 97) + digit - 10

-- The `do while` of `_ntoa_long` with `room` bytes left in the buffer.
unfoldable pub digits_loop : ℕ → ℕ → ℕ → Flags → List ℕ → List ℕ
digits_loop zero value base flags buf = buf
digits_loop (suc room) value base flags buf =
    let buf' = digit_char (value % base) flags ∷ buf in
    let rest = digits_loop room (value / base) base flags buf' in
    if value / base == 0 then buf' else rest

module _ {S : Type 0} (out : ℕ → S → ℕ → ℕ → S) (maxlength : ℕ) where
  unfoldable pub ntoa_format : List ℕ → Bool → ℕ → ℕ → ℕ → Flags → Cursor S → Cursor S
  ntoa_format buf negative base prec width flags c =
      out_rev out maxlength (ntoa_buf buf negative base prec width flags)
        (padded_width negative width flags) flags c

  -- `_ntoa_long` and `_ntoa_long_long`: both types have 64 bits.
  unfoldable pub ntoa_long : ℕ → Bool → ℕ → ℕ → ℕ → Flags → Cursor S → Cursor S
  ntoa_long value negative base prec width flags c =
      let flags' = if value == 0 then record flags { zerohashprefix = false } else flags in
      let buf =
        if not flags'.has_precision || not (value == 0)
        then digits_loop ntoa_buffer_size value base flags' []
        else [] in
      ntoa_format buf negative base prec width flags' c
