-- ===== src/Word/Tests.antt =====
-- Integer powers (lib/common/include/math.h).
use nokernel.Prelude.{◌^◌, ◌%◌, ◌≡◌, refl, arith}
use nokernel.Outcome.{ok}
use nokernel.Word.Power.{pow, pow_loop, pow_lem}

pow_run : pow 3 13 ≡ ok 1594323
unfolding pow pow_loop
pow_run = refl

pow_lem_example : pow 3 77 ≡ ok (3 ^ 77 % 2 ^ 64)
pow_lem_example = pow_lem 3 77 (omega arith)
