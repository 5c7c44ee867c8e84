-- ===== src/Lock/Tests.antt =====
-- Runs of kernel/spinlock.c.
use xv6_riscv_labs.Prelude.{◌≡◌, refl, true, false, none, some, arith}
use xv6_riscv_labs.Lock.Defs.{Cpu, idle, Machine, enter}
use xv6_riscv_labs.Lock.Nesting.{nothing, pair, run, Restored, run-Restored}
use xv6_riscv_labs.Lock.Steps.{enters, here, after}
use xv6_riscv_labs.Lock.Exclusion.{IsFree, Excludes, Reaches-Excludes}

abbrev on : Cpu
on = record { intr = true; noff = 0; intena = false }

run-Restored_example :
    (c' : Cpu) × (run (pair (pair nothing nothing) nothing) on ≡ some c') × Restored on c'
run-Restored_example =
    run-Restored (pair (pair nothing nothing) nothing) on (λ h. absurd (omega arith))

abbrev at_start : Machine
at_start = record { locked = false; holder = none; place = λ _. idle; cpus = λ _. on }

at_start-IsFree : IsFree at_start
at_start-IsFree = record { unlocked = refl; no_holder = refl; all_idle = λ i. refl }

entered : (m : Machine) × (enter 3 at_start ≡ some m)
unfolding enter
entered = (_, refl)

Reaches-Excludes_example : Excludes entered.0
Reaches-Excludes_example =
    Reaches-Excludes at_start entered.0 at_start-IsFree (
      after at_start at_start entered.0 (here at_start)
        (enters 3 at_start entered.0 refl entered.1))
