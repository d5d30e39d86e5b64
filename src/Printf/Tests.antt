-- ===== src/Printf/Tests.antt =====
-- Runs of lib/common/vsnprintf.cpp.
use nokernel.Prelude.{◌≢◌, refl, ltb, if◌then◌else◌, ℕ, ◌≡◌, List, [], ◌∷◌, ◌++◌, arith}
use nokernel.Word.{u32, sub64}
use nokernel.Outcome.{hangs, ok, ◌>>=◌}
use nokernel.Printf.{no_flags, Cursor, puts, out_rev, atoi, digits_loop, ntoa_buffer_size}
use nokernel.Printf
use nokernel.Printf.Format
use nokernel.Printf.Digits.{read, read-digits, atoi-digits}
use nokernel.Printf.Loop.{text_of, format_all-text_of}
use nokernel.Printf.Format.{Arg, word, text, vsnprintf, format_all}
use nokernel.Printf.Buffer.{Written, vsnprintf-Written}
use nokernel.Printf.Ends.{format_all-ends}

read-digits_example : read 16 0 (digits_loop ntoa_buffer_size 0xbeef 16 no_flags []) ≡ 0xbeef
read-digits_example = read-digits 16 (omega arith) (omega arith) no_flags 0xbeef (omega arith)

atoi-digits_example : atoi 0 (digits_loop ntoa_buffer_size 4096 10 no_flags []) ≡ (4096, [])
atoi-digits_example = atoi-digits 4096 no_flags (omega arith)

-- An output that notes the characters.
abbrev note : ℕ → List ℕ → ℕ → ℕ → List ℕ
note character noted idx maxlength = noted ++ (character ∷ [])

abbrev start : Cursor (List ℕ)
start = record { buffer = []; idx = 0 }

-- `"%-4d|%s"` with 42 and `"ok"`.
abbrev directives : List ℕ
directives = 37 ∷ 45 ∷ 52 ∷ 100 ∷ 124 ∷ 37 ∷ 115 ∷ []

abbrev arguments : List Arg
arguments = word 42 ∷ text (111 ∷ 107 ∷ []) ∷ []

format_all-text_of_example : format_all note 3 directives arguments [] ≡ (
    text_of directives arguments >>= λ t.
    let c = puts note 3 t (record { buffer = []; idx = 0 }) in
    ok (u32 c.idx, note 0 c.buffer (if ltb c.idx 3 then c.idx else sub64 3 1) 3))
format_all-text_of_example = format_all-text_of note 3 directives arguments []

directives-text : text_of directives arguments ≡ ok (52 ∷ 50 ∷ 32 ∷ 32 ∷ 124 ∷ 111 ∷ 107 ∷ [])
unfolding text_of Format.format_loop Format.directive Format.parse_width Format.head
    Format.parse_flags Format.flag_of Format.parse_precision Format.parse_length Format.convert
    Format.advance Format.format_char Format.format_pointer Format.format_string
    Format.format_integer Format.next_word Format.next_text Format.integer_flags Format.strnlen
    Printf.is_digit Printf.put Printf.puts Printf.pad Printf.pad_to Printf.out_rev Printf.digit_char
    Printf.fill Printf.push Printf.pop Printf.padded_width Printf.padded_buf Printf.prefixed_buf
    Printf.signed_buf Printf.ntoa_buf Printf.ntoa_format Printf.ntoa_long Printf.digits_loop
    Printf.atoi
directives-text = refl

vsnprintf-Written_example :
    Written
      (λ i. 255)
      4
      (52 ∷ 50 ∷ 32 ∷ 32 ∷ 124 ∷ 111 ∷ 107 ∷ [])
      (vsnprintf (λ i. 255) 4 directives arguments)
vsnprintf-Written_example =
    vsnprintf-Written directives arguments (λ i. 255) 4 (omega arith) (omega arith)
      (52 ∷ 50 ∷ 32 ∷ 32 ∷ 124 ∷ 111 ∷ 107 ∷ []) directives-text (omega arith)

format_all-ends_example : format_all note 3 directives arguments [] ≢ hangs
format_all-ends_example = format_all-ends note 3 directives arguments []
