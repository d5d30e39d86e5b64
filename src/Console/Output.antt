-- ===== src/Console/Output.antt =====
-- What is printed goes to the console, and to the serial line: `kprintf` and its kin
-- (kernel/dev/console.cpp), and the printing of emergencies (kernel/panic.cpp).
use nokernel.Prelude.{ℕ, Bool, false, List, ◌∷◌, Option, none, some, if◌then◌else◌}
use nokernel.Outcome.{Outcome, ok, faults, ◌>>=◌}
use nokernel.Word.{u8}
use nokernel.Memory.{Bytes}
use nokernel.Font.{Font}
use nokernel.Heap.Calls
use nokernel.Heap.Calls.{Mapper}
use nokernel.Screen.{Framebuffer}
use nokernel.Printf.Format.{Arg, vfctprintf}
use nokernel.Console.{Console, new_console, print_char}

-- `s_console`, the memory, what was sent to COM1, last byte first, and `ROUTE_TO_COM`.
pub record Terminal : Type 0 where
  pub s_console : Option Console
  pub bytes : Bytes
  pub serial : List ℕ
  pub route_to_com : Bool

-- The first call makes the console; the later ones return.
unfoldable pub console_init :
    (m : Mapper)
    → Framebuffer
    → Font
    → Calls.System m
    → Terminal
    → Outcome (Terminal × Calls.System m)
console_init m fb font s t = elim t.s_console [
  | some c ↦ ok (t, s)
  | none ↦ new_console m fb font s t.bytes >>= λ (c, (s', bytes)).
      ok (record t { s_console = some c; bytes = bytes }, s')
]

unfoldable pub serialout : ℕ → Terminal → Terminal
serialout v t = record t { serial = u8 v ∷ t.serial }

-- `print_char` of the console. `kvprintf` reads the pointer before it prints, so it is not null here.
abbrev pub on_screen : ℕ → Terminal → Option Console → Terminal
on_screen c t none = t
on_screen c t (some console) =
    let (console', bytes) = print_char c (console, t.bytes) in
    record t { s_console = some console'; bytes = bytes }

unfoldable pub conout : ℕ → Terminal → Terminal
conout c t =
    let sent = if t.route_to_com then serialout c t else t in on_screen c sent sent.s_console

-- `console()`, which reads the pointer.
unfoldable pub console : Terminal → Outcome Console
console t = elim t.s_console [ none ↦ faults | some c ↦ ok c ]

-- `kprintf` is this with its variable arguments.
unfoldable pub kvprintf : Terminal → List ℕ → List Arg → Outcome (ℕ × Terminal)
kvprintf t format args = console t >>= λ _. vfctprintf conout t format args

unfoldable pub kveprintf : Bool → Terminal → List ℕ → List Arg → Outcome (ℕ × Terminal)
kveprintf serial t format args =
    let alone = record t { route_to_com = false } in
    if serial then vfctprintf serialout alone format args else kvprintf alone format args
