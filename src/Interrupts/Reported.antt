-- ===== src/Interrupts/Reported.antt =====
-- Where the report of an exception arrives (kernel/arch/x86_64/isr.cpp).
use nokernel.Prelude.{ℕ, ◌≡◌, refl, ap, ◌∙◌, sym, Bool, true, false, List, [], ◌∷◌, ◌++◌, some}
use nokernel.Outcome.{Outcome, ok, ◌>>=◌}
use nokernel.Memory.{Bytes}
use nokernel.Printf.Format.{Arg}
use nokernel.Printf.Loop.{text_of}
use nokernel.Console.{Console, State, print}
use nokernel.Console.Printing.{visible, sent}
use nokernel.Panic.Report.{
  at_work, value, returned, sent-append, print-append, keprintf-sent, keprintf-printed,
}
use nokernel.Interrupts.{Registers}
use nokernel.Interrupts.Exceptions.{Call, exception_calls, print_calls, exception_panic}

-- What calls print, one after another.
abbrev pub text_of_calls : List Call → Outcome (List ℕ)
text_of_calls [] = ok []
text_of_calls ((format, args) ∷ calls) =
    text_of format args >>= λ text. text_of_calls calls >>= λ rest. ok (visible text ++ rest)

print_calls-sent :
    (calls : List Call) (c : Console) (m : Bytes) (log r : List ℕ)
    → text_of_calls calls ≡ ok r
    → print_calls true calls (at_work c m log false) ≡ ok (at_work c m (sent r log) false)
unfolding print_calls
print_calls-sent [] c m log r h = ap (λ k. ok (at_work c m (sent k log) false)) (ap (value r) h)
print_calls-sent ((format, args) ∷ calls) c m log r h =
    let (text, (e, tail)) = returned (text_of format args) _ r h in
    let (rest, (e', end)) = returned (text_of_calls calls) _ r tail in
    rw
      (
        keprintf-sent c m log false format args text e,
        print_calls-sent calls c m (sent (visible text) log) rest e',
      )
      (ap (λ k. ok (at_work c m k false))
        (sym (sent-append (visible text) rest log) ∙ ap (λ k. sent k log) (ap (value r) end)))

-- The first call of a report switches the serial line off for the console.
first_call-sent :
    (format : List ℕ) (args : List Arg) (calls : List Call) (c : Console) (m : Bytes)
    (log r : List ℕ) (route : Bool)
    → text_of_calls ((format, args) ∷ calls) ≡ ok r
    → print_calls true ((format, args) ∷ calls) (at_work c m log route)
      ≡ ok (at_work c m (sent r log) false)
unfolding print_calls
first_call-sent format args calls c m log r route h =
    let (text, (e, tail)) = returned (text_of format args) _ r h in
    rw (keprintf-sent c m log route format args text e) (
      sym (rw (keprintf-sent c m log false format args text e) refl)
      ∙ print_calls-sent ((format, args) ∷ calls) c m log r h)

print_calls-printed :
    (calls : List Call) (c : Console) (m : Bytes) (log r : List ℕ)
    → text_of_calls calls ≡ ok r
    → print_calls false calls (at_work c m log false)
      ≡ (let (c', m') = print r (c, m) in ok (at_work c' m' log false))
unfolding print_calls print
print_calls-printed [] c m log r h =
    ap (λ k. let (c', m') = print k (c, m) in ok (at_work c' m' log false)) (ap (value r) h)
print_calls-printed ((format, args) ∷ calls) c m log r h =
    let (text, (e, tail)) = returned (text_of format args) _ r h in
    let (rest, (e', end)) = returned (text_of_calls calls) _ r tail in
    let s = print (visible text) (c, m) in
    rw
      (
        keprintf-printed c m log false format args text e,
        print_calls-printed calls s.0 s.1 log rest e',
      )
      (ap (λ ((c', m') : State). ok (at_work c' m' log false))
        (sym (print-append (visible text) rest (c, m))
          ∙ ap (λ k. print k (c, m)) (ap (value r) end)))

-- The report of an exception that is not one of a report is sent over the serial line and then printed
-- on the console, character by character the same, and the processor halts, if there is a console and
-- the text of the report can be made.
pub exception_panic-reported :
    (r : Registers) (cr2 cr3 : ℕ) (c : Console) (m : Bytes) (log text : List ℕ) (route : Bool)
    → text_of_calls (exception_calls r cr2 cr3) ≡ ok text
    → let (c', m') = print text (c, m) in
      exception_panic r cr2 cr3
        (false, record { s_console = some c; bytes = m; serial = log; route_to_com = route })
      ≡ ok (
        true,
        record { s_console = some c'; bytes = m'; serial = sent text log; route_to_com = false },
      )
unfolding exception_panic
exception_panic-reported r cr2 cr3 c m log text route h =
    let calls = exception_calls r cr2 cr3 in
    rw
      (
        first_call-sent _ _ _ c m log text route h,
        print_calls-printed calls c m (sent text log) text h,
      )
      refl
