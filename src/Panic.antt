-- ===== src/Panic.antt =====
-- The end of the kernel (kernel/panic.cpp). A call that does not return has as its result the
-- terminal at which the processor halts.
pub mod Report
mod Tests
use nokernel.Prelude.{ℕ, Bool, true, false, List, [], ◌∷◌, if◌then◌else◌, characters}
use nokernel.Outcome.{Outcome, ok, ◌>>=◌}
use nokernel.Printf.Format.{Arg, word, text}
use nokernel.Console.Output.{Terminal, kveprintf}

-- `keprintf` with its arguments as a list; what it returns is not used.
abbrev pub keprintf : Bool → List ℕ → List Arg → Terminal → Outcome Terminal
keprintf serial format args t = kveprintf serial t format args >>= λ (_, t'). ok t'

-- The static variable of `panic`, and the terminal.
pub record Panic : Type 0 where
  pub panicking : Bool
  pub terminal : Terminal

-- What `panic` prints in a round.
unfoldable pub panic_round : List ℕ → ℕ → List ℕ → List Arg → Bool → Terminal → Outcome Terminal
panic_round file line fmt args serial t =
    keprintf serial (characters "\nKernel panic - Not Syncing: ") [] t >>= λ t1.
    keprintf serial fmt args t1 >>= λ t2.
    keprintf serial (characters "\n  at %s:%d") (text file ∷ word line ∷ []) t2

-- A panic during a panic halts at once. Else the first round is for the serial line, the second for
-- the console.
unfoldable pub panic : List ℕ → ℕ → List ℕ → List Arg → Panic → Outcome Panic
panic file line fmt args p =
    if p.panicking
    then ok p
    else (panic_round file line fmt args true p.terminal >>= λ t1.
        panic_round file line fmt args false t1 >>= λ t2.
        ok (record { panicking = true; terminal = t2 }))
