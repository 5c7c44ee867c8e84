-- ===== src/Str/Tests.antt =====
-- Runs of kernel/string.c.
use xv6_riscv_labs.Prelude.{◌+◌, ◌-◌, ◌≡◌, refl, ◌&&◌, arith, ltb, leb, if◌then◌else◌, inr}
use xv6_riscv_labs.Str.Move.{Memory, memmove, memmove_lem, memset, memset_lem}
use xv6_riscv_labs.Str.Length.{IsString}
use xv6_riscv_labs.Str.Copy.{safestrcpy, safestrcpy-Terminated, Terminated}

-- 5 at each address below 4, NULs from there on.
abbrev fives : Memory
fives q = if ltb q 4 then 5 else 0

memmove_lem_example :
    memmove 1 0 4 fives 4 ≡ (if leb 1 4 && ltb 4 5 then fives (0 + (4 - 1)) else fives 4)
memmove_lem_example = memmove_lem 1 0 4 fives 4

memset_lem_example : memset 2 300 3 fives 3 ≡ (if leb 2 3 && ltb 3 5 then 44 else fives 3)
memset_lem_example = memset_lem 2 300 3 fives 3

fives-IsString : IsString 0 4 fives
fives-IsString = record { plain = λ i h. ground arith; nul = refl }

safestrcpy-Terminated_example : Terminated 10 0 3 fives (safestrcpy 10 0 3 fives)
safestrcpy-Terminated_example = safestrcpy-Terminated 10 0 3 fives (omega arith) (inr (omega arith))
