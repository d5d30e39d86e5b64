-- ===== src/Outcome.antt =====
-- How a call of the kernel can end.
use nokernel.Prelude.{Bool, if◌then◌else◌}

-- A call returns, stops in `panic`, reads through a pointer to nothing, or never comes back.
pub data Outcome (A : Type 0) : Type 0 where
  ok : A → Outcome A
  panicked : Outcome A
  faults : Outcome A
  hangs : Outcome A

infixl 5 ◌>>=◌
abbrev pub ◌>>=◌ : {A B : Type 0} → Outcome A → (A → Outcome B) → Outcome B
ok a >>= k = k a
panicked >>= k = panicked
faults >>= k = faults
hangs >>= k = hangs

-- `ASSERT(cond)` of kernel/include/panic.h.
abbrev pub assert : Bool → Outcome (Unit {0})
assert b = if b then ok tt else panicked
