-- ===== src/Printf/Text.antt =====
-- `_format` (lib/common/vsnprintf.cpp) as a text that does not depend on the output function.
use nokernel.Prelude.{
  ℕ, zero, suc, ◌+◌, ◌/◌, ◌≤◌, Bool, true, false, not, ◌&&◌, ◌||◌, List, [], ◌∷◌, length, ◌==◌,
  if◌then◌else◌, arith,
}
use nokernel.Printf.{
  Flags, ntoa_buf, padded_width, digits_loop, ntoa_buffer_size, fill, push, pop, padded_buf,
  prefixed_buf, signed_buf,
}

-- The local buffer never overflows.
either_fits :
    (b : Bool) (xs ys : List ℕ)
    → length xs ≤ 32
    → length ys ≤ 32
    → length (if b then xs else ys) ≤ 32
either_fits true xs ys h k = h
either_fits false xs ys h k = k

length-fill :
    (rounds limit x : ℕ) (buf : List ℕ) → length buf ≤ 32 → length (fill rounds limit x buf) ≤ 32
unfolding fill
length-fill zero limit x buf h = h
length-fill (suc rounds) limit x buf h = ground (arith, length-fill rounds limit x (x ∷ buf))

length-push : (x : ℕ) (buf : List ℕ) → length buf ≤ 32 → length (push x buf) ≤ 32
unfolding push
length-push x buf h = ground arith

length-pop : (buf : List ℕ) → length buf ≤ 32 → length (pop buf) ≤ 32
unfolding pop
length-pop [] h = h
length-pop (x ∷ xs) h = omega arith

pub length-digits_loop :
    (room v base : ℕ) (flags : Flags) (buf : List ℕ)
    → length buf + room ≤ 32
    → length (digits_loop room v base flags buf) ≤ 32
unfolding digits_loop
length-digits_loop zero v base flags buf h = omega arith
length-digits_loop (suc room) v base flags buf h =
    either_fits (v / base == 0) _ _ (omega arith)
      (length-digits_loop room (v / base) base flags (_ ∷ buf) (omega arith))

module _ (buf : List ℕ) (negative : Bool) (base prec width : ℕ) (flags : Flags) where
  length-padded_buf : length buf ≤ 32 → length (padded_buf buf prec width flags) ≤ 32
  unfolding padded_buf
  length-padded_buf h =
      ground (arith, length-fill 32 prec 48 buf, length-fill 32 width 48 (fill 32 prec 48 buf))

  length-prefixed_buf : length buf ≤ 32 → length (prefixed_buf buf base prec width flags) ≤ 32
  unfolding prefixed_buf
  length-prefixed_buf h =
      let two = length-pop (pop buf) (length-pop buf h) in
      let cut =
        either_fits
          (not flags.has_precision
            && (not (length buf == 0) && (length buf == prec || length buf == width)))
          _ _ (either_fits (not (length (pop buf) == 0) && base == 16) _ _ two (length-pop buf h))
          h in
      either_fits flags.zerohashprefix _ _
        (length-push 48 _ (
          either_fits (base == 16 && not flags.uppercase) _ _ (length-push 120 _ cut) (
            either_fits (base == 16 && flags.uppercase) _ _ (length-push 88 _ cut)
              (either_fits (base == 2) _ _ (length-push 98 _ cut) cut))))
        h

  length-signed_buf : length buf ≤ 32 → length (signed_buf buf negative flags) ≤ 32
  unfolding signed_buf
  length-signed_buf h = ground (arith, length-push 45 buf, length-push 43 buf, length-push 32 buf)

-- Whatever is asked for, what an integer becomes fits in the local buffer of 32 bytes.
pub length-ntoa_buf :
    (buf : List ℕ) (negative : Bool) (base prec width : ℕ) (flags : Flags)
    → length buf ≤ ntoa_buffer_size
    → length (ntoa_buf buf negative base prec width flags) ≤ ntoa_buffer_size
unfolding ntoa_buf
length-ntoa_buf buf negative base prec width flags h =
    let width' = padded_width negative width flags in
    length-signed_buf _ negative base prec width' flags (
      length-prefixed_buf _ negative base prec width' flags
        (length-padded_buf buf negative base prec width' flags h))
