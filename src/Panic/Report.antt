-- ===== src/Panic/Report.antt =====
-- Where the report of a panic arrives (kernel/panic.cpp).
use nokernel.Prelude.{
  ℕ, ◌≡◌, refl, ap, ◌∙◌, sym, Bool, true, false, List, [], ◌∷◌, ◌++◌, some, characters,
}
use nokernel.Outcome.{Outcome, ok, panicked, faults, hangs, ◌>>=◌}
use nokernel.Word.{u8}
use nokernel.Memory.{Bytes}
use nokernel.Printf.Format.{Arg, word, text}
use nokernel.Printf.Loop.{text_of}
use nokernel.Console.{Console, State, print, print_char}
use nokernel.Console.Output.{Terminal}
use nokernel.Console.Printing.{visible, sent, kveprintf-shown}
use nokernel.Panic.{keprintf, panic_round, panic}

pub sent-append : (xs ys : List ℕ) (log : List ℕ) → sent (xs ++ ys) log ≡ sent ys (sent xs log)
sent-append [] ys log = refl
sent-append (x ∷ xs) ys log = sent-append xs ys (u8 x ∷ log)

pub print-append : (xs ys : List ℕ) (s : State) → print (xs ++ ys) s ≡ print ys (print xs s)
unfolding print
print-append [] ys s = refl
print-append (x ∷ xs) ys s = print-append xs ys (print_char x s)

-- A round of the report, as one text.
abbrev pub report_text : List ℕ → ℕ → List ℕ → List Arg → Outcome (List ℕ)
report_text file line fmt args =
    text_of (characters "\nKernel panic - Not Syncing: ") [] >>= λ head.
    text_of fmt args >>= λ message.
    text_of (characters "\n  at %s:%d") (text file ∷ word line ∷ []) >>= λ at.
    ok (visible head ++ (visible message ++ visible at))

-- What the parts of a chain returned, when the chain returned.
pub returned :
    {A B : Type 0} (r : Outcome A) (k : A → Outcome B) (b : B)
    → (r >>= k) ≡ ok b
    → (a : A) × ((r ≡ ok a) × (k a ≡ ok b))
returned (ok a) k b h = (a, (refl, h))
returned panicked k b h = cc h
returned faults k b h = cc h
returned hangs k b h = cc h

-- The terminal with a console, after an emergency has begun or not.
abbrev pub at_work : Console → Bytes → List ℕ → Bool → Terminal
at_work c m log route = record { s_console = some c; bytes = m; serial = log; route_to_com = route }

pub keprintf-sent :
    (c : Console) (m : Bytes) (log : List ℕ) (route : Bool) (fmt : List ℕ) (args : List Arg)
    (s : List ℕ)
    → text_of fmt args ≡ ok s
    → keprintf true fmt args (at_work c m log route) ≡ ok (at_work c m (sent (visible s) log) false)
keprintf-sent c m log route fmt args s h =
    rw (kveprintf-shown true (at_work c m log route) c fmt args refl, h) refl

pub keprintf-printed :
    (c : Console) (m : Bytes) (log : List ℕ) (route : Bool) (fmt : List ℕ) (args : List Arg)
    (s : List ℕ)
    → text_of fmt args ≡ ok s
    → keprintf false fmt args (at_work c m log route)
      ≡ (let (c', m') = print (visible s) (c, m) in ok (at_work c' m' log false))
keprintf-printed c m log route fmt args s h =
    rw (kveprintf-shown false (at_work c m log route) c fmt args refl, h) refl

-- A round, for the texts of its three parts.
module _ (file : List ℕ) (line : ℕ) (fmt : List ℕ) (args : List Arg) (head message at : List ℕ)
    (is_head : text_of (characters "\nKernel panic - Not Syncing: ") [] ≡ ok head)
    (is_message : text_of fmt args ≡ ok message)
    (is_at : text_of (characters "\n  at %s:%d") (text file ∷ word line ∷ []) ≡ ok at) where
  abbrev whole : List ℕ
  whole = visible head ++ (visible message ++ visible at)

  round-sent :
      (c : Console) (m : Bytes) (log : List ℕ) (route : Bool)
      → panic_round file line fmt args true (at_work c m log route)
        ≡ ok (at_work c m (sent whole log) false)
  unfolding panic_round
  round-sent c m log route =
      let first = sent (visible head) log in
      rw
        (
          keprintf-sent c m log route _ [] head is_head,
          keprintf-sent c m first false fmt args message is_message,
          keprintf-sent c m (sent (visible message) first) false _ _ at is_at,
        )
        (ap (λ k. ok (at_work c m k false))
          (sym (
            sent-append (visible head) (visible message ++ visible at) log
            ∙ sent-append (visible message) (visible at) first)))

  round-printed :
      (c : Console) (m : Bytes) (log : List ℕ) (route : Bool)
      → panic_round file line fmt args false (at_work c m log route)
        ≡ (let (c', m') = print whole (c, m) in ok (at_work c' m' log false))
  unfolding panic_round
  round-printed c m log route =
      let first = print (visible head) (c, m) in
      let second = print (visible message) first in
      rw
        (
          keprintf-printed c m log route _ [] head is_head,
          keprintf-printed first.0 first.1 log false fmt args message is_message,
          keprintf-printed second.0 second.1 log false _ _ at is_at,
        )
        (ap (λ ((c', m') : State). ok (at_work c' m' log false))
          (sym (
            print-append (visible head) (visible message ++ visible at) (c, m)
            ∙ print-append (visible message) (visible at) first)))

-- What a call returned, or a default.
abbrev pub value : {A : Type 0} → A → Outcome A → A
value d (ok a) = a
value d panicked = d
value d faults = d
value d hangs = d

-- With a console and no panic before, a report whose text can be made is sent over the serial line
-- and then printed on the console, character by character the same, and the processor halts.
pub panic-reported :
    (file : List ℕ) (line : ℕ) (fmt : List ℕ) (args : List Arg) (r : List ℕ) (c : Console)
    (m : Bytes) (log : List ℕ) (route : Bool)
    → report_text file line fmt args ≡ ok r
    → let (c', m') = print r (c, m) in
      panic file line fmt args (record {
        panicking = false;
        terminal = record { s_console = some c; bytes = m; serial = log; route_to_com = route };
      })
      ≡ ok (record {
        panicking = true;
        terminal = record {
          s_console = some c';
          bytes = m';
          serial = sent r log;
          route_to_com = false;
        };
      })
unfolding panic
panic-reported file line fmt args r c m log route h =
    let (head, (e1, rest)) =
      returned (text_of (characters "\nKernel panic - Not Syncing: ") []) _ r h in
    let (message, (e2, rest')) = returned (text_of fmt args) _ r rest in
    let (at, (e3, end)) =
      returned (text_of (characters "\n  at %s:%d") (text file ∷ word line ∷ [])) _ r rest' in
    let same : visible head ++ (visible message ++ visible at) ≡ r = ap (value r) end in
    let s = print (visible head ++ (visible message ++ visible at)) (c, m) in
    rw
      (
        round-sent file line fmt args head message at e1 e2 e3 c m log route,
        round-printed file line fmt args head message at e1 e2 e3 c m
            (sent (visible head ++ (visible message ++ visible at)) log) false,
      )
      (ap
        (λ k.
          let (c', m') = print k (c, m) in
          ok (record { panicking = true; terminal = at_work c' m' (sent k log) false }))
        same)
