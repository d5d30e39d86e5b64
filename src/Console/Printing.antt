-- ===== src/Console/Printing.antt =====
-- Where printed text arrives (kernel/dev/console.cpp, kernel/panic.cpp).
use nokernel.Prelude.{
  ℕ, ◌-◌, ◌^◌, ◌≡◌, refl, ap, ◌∙◌, Bool, true, false, not, List, [], ◌∷◌, length, some, ltb, ◌==◌,
  if◌then◌else◌, arith, Bool-cases, inl, inr,
}
use nokernel.Outcome.{Outcome, ok, panicked, faults, hangs, ◌>>=◌}
use nokernel.Word.{u8, u32, sub64}
use nokernel.Memory.{Bytes}
use nokernel.Printf.{Cursor, put, puts, out_fct}
use nokernel.Printf.Padding.{idx-puts}
use nokernel.Printf.Format.{Arg, vfctprintf}
use nokernel.Printf.Loop.{text_of, format_all-text_of}
use nokernel.Console.{Console, print, print_char}
use nokernel.Console.Output.{Terminal, serialout, conout, console, kvprintf, kveprintf}

-- The characters that an output function is called with: `_out_fct` leaves out zeros.
abbrev pub visible : List ℕ → List ℕ
visible [] = []
visible (x ∷ xs) = if not (x == 0) then x ∷ visible xs else visible xs

-- A function of an output called with the characters of a text one by one.
abbrev pub each {ℓ} : {S : Type ℓ} → (ℕ → S → S) → List ℕ → S → S
each fct [] s = s
each fct (x ∷ xs) s = each fct xs (fct x s)

module _ {S : Type 0} (fct : ℕ → S → S) where
  each-visible :
      (x : ℕ) (xs : List ℕ) (s : S)
      → each fct (visible xs) (if not (x == 0) then fct x s else s) ≡ each fct (visible (x ∷ xs)) s
  each-visible x xs s = elim (Bool-cases (not (x == 0))) [ inl e ↦ rw e refl | inr e ↦ rw e refl ]

  buffer-puts :
      (maxlength : ℕ) (xs : List ℕ) (c : Cursor S)
      → (puts (out_fct fct) maxlength xs c).buffer ≡ each fct (visible xs) c.buffer
  unfolding puts put out_fct
  buffer-puts maxlength [] c = refl
  buffer-puts maxlength (x ∷ xs) c =
      buffer-puts maxlength xs (put (out_fct fct) maxlength x c) ∙ each-visible x xs c.buffer

  -- What `_format` does after the text.
  abbrev ended : Cursor S → Outcome (ℕ × S)
  ended c = ok (
    u32 c.idx,
    out_fct fct 0 c.buffer (if ltb c.idx (2 ^ 64 - 1) then c.idx else sub64 (2 ^ 64 - 1) 1)
        (2 ^ 64 - 1),
  )

  -- With an output function of one's own, the text arrives there character by character, without
  -- zeros, and the call returns the length of the text as an `int`.
  pub vfctprintf-each :
      (s : S) (format : List ℕ) (args : List Arg)
      → vfctprintf fct s format args
        ≡ (text_of format args >>= λ text. ok (u32 (length text), each fct (visible text) s))
  unfolding vfctprintf out_fct
  vfctprintf-each s format args =
      format_all-text_of (out_fct fct) (2 ^ 64 - 1) format args s ∙ go (text_of format args)
    where
      go :
          (r : Outcome (List ℕ))
          → (r >>= λ t. ended (puts (out_fct fct) (2 ^ 64 - 1) t (record { buffer = s; idx = 0 })))
            ≡ (r >>= λ text. ok (u32 (length text), each fct (visible text) s))
      go (ok t) =
          let start : Cursor S = record { buffer = s; idx = 0 } in
          let count : u32 (puts (out_fct fct) (2 ^ 64 - 1) t start).idx ≡ u32 (length t) =
            omega (arith, idx-puts (out_fct fct) (2 ^ 64 - 1) t start (omega arith)) in
          λ i. ok (count i, buffer-puts (2 ^ 64 - 1) t start i)
      go panicked = refl
      go faults = refl
      go hangs = refl

-- What the serial line has been sent, last byte first, when a text is added.
abbrev pub sent : List ℕ → List ℕ → List ℕ
sent [] log = log
sent (x ∷ xs) log = sent xs (u8 x ∷ log)

-- The terminal after a text has been printed.
abbrev pub shown : List ℕ → Console → Terminal → Terminal
shown text c t =
    let (c', bytes) = print text (c, t.bytes) in
    record t {
      s_console = some c';
      bytes = bytes;
      serial = if t.route_to_com then sent text t.serial else t.serial;
    }

each-shown :
    (text : List ℕ) (c : Console) (m : Bytes) (log : List ℕ) (route : Bool)
    → each conout text
        (record { s_console = some c; bytes = m; serial = log; route_to_com = route })
      ≡ shown text c (record { s_console = some c; bytes = m; serial = log; route_to_com = route })
unfolding conout serialout print
each-shown [] c m log true = refl
each-shown [] c m log false = refl
each-shown (x ∷ xs) c m log true =
    let s = print_char x (c, m) in each-shown xs s.0 s.1 (u8 x ∷ log) true
each-shown (x ∷ xs) c m log false = let s = print_char x (c, m) in each-shown xs s.0 s.1 log false

each-sent :
    (text : List ℕ) (t : Terminal)
    → each serialout text t ≡ (record t { serial = sent text t.serial })
unfolding serialout
each-sent [] t = refl
each-sent (x ∷ xs) t = each-sent xs (record t { serial = u8 x ∷ t.serial })

-- The length of a text, and what it makes of the output.
abbrev pub counted : {S : Type 0} → (List ℕ → S) → List ℕ → Outcome (ℕ × S)
counted f text = ok (u32 (length text), f text)

after_text :
    {S : Type 0} (r : Outcome (List ℕ)) (f g : List ℕ → S)
    → ((text : List ℕ) → f text ≡ g text)
    → (r >>= counted f) ≡ (r >>= counted g)
after_text (ok text) f g h = ap (λ s. ok (u32 (length text), s)) (h text)
after_text panicked f g h = refl
after_text faults f g h = refl
after_text hangs f g h = refl

-- When there is a console, `kprintf` prints the text of the format on it, and sends the same
-- characters over the serial line when that is switched on; it returns the length of the text.
pub kvprintf-shown :
    (t : Terminal) (c : Console) (format : List ℕ) (args : List Arg)
    → t.s_console ≡ some c
    → kvprintf t format args
      ≡ (text_of format args >>= λ text. ok (u32 (length text), shown (visible text) c t))
unfolding kvprintf console
kvprintf-shown t c format args h =
    let ready : Terminal = record t { s_console = some c } in
    let same : t ≡ ready = λ i. record t { s_console = h i } in
    ap (λ k. kvprintf k format args) same
    ∙ (vfctprintf-each conout ready format args
        ∙ after_text (text_of format args) _ _
            (λ text. each-shown (visible text) c t.bytes t.serial t.route_to_com))

-- In an emergency the text goes to the serial line or to the console, not to both, and printing on
-- the console is not sent over the serial line any more.
pub kveprintf-shown :
    (serial : Bool) (t : Terminal) (c : Console) (format : List ℕ) (args : List Arg)
    → t.s_console ≡ some c
    → kveprintf serial t format args ≡ (
        text_of format args >>= λ text.
        let alone = record t { route_to_com = false } in
        ok (
          u32 (length text),
          if serial
              then record alone { serial = sent (visible text) t.serial }
              else shown (visible text) c alone,
        ))
unfolding kveprintf
kveprintf-shown true t c format args h =
    let alone = record t { route_to_com = false } in
    vfctprintf-each serialout alone format args
    ∙ after_text (text_of format args) _ _ (λ text. each-sent (visible text) alone)
kveprintf-shown false t c format args h =
    kvprintf-shown (record t { route_to_com = false }) c format args h
