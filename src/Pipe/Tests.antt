-- ===== src/Pipe/Tests.antt =====
-- Runs of kernel/pipe.c.
use xv6_riscv_labs.Prelude.{
  ℕ, zero, suc, ◌-◌, ◌^◌, ◌≡◌, refl, true, false, Option, none, some, List, [], ◌∷◌, ◌++◌, update,
  arith, ◌⊎◌,
}
use xv6_riscv_labs.Pipe.Defs.{
  Pipe, put, is_empty, returned, asleep, write_from, piperead, pipeclose,
}
use xv6_riscv_labs.Pipe.Queue.{IsValid, contents}
use xv6_riscv_labs.Pipe.Read.{Took, piperead-Took, Call, write, read, close, run, run_fifo}

-- Two bytes, 8 and 9, with the counters about to wrap.
abbrev wrapped : Pipe
wrapped = record {
  buf = update (update (λ _. 0) 511 8) 0 9;
  nread = 2 ^ 32 - 1;
  nwrite = 1;
  readopen = true;
  writeopen = true;
}

wrapped-IsValid : IsValid wrapped
wrapped-IsValid = record { read_small = omega arith; write_small = omega arith; fits = omega arith }

contents-wrapped : contents wrapped ≡ 8 ∷ 9 ∷ []
contents-wrapped = refl

-- The writer's memory: 20, 21, and a fault at the third byte.
abbrev two_bytes : ℕ → Option ℕ
two_bytes zero = some 20
two_bytes (suc zero) = some 21
two_bytes _ = none

write_stops : (write_from false two_bytes 5 0 wrapped).outcome ≡ returned 2
unfolding write_from put
write_stops = refl

piperead-Took_example :
    (((is_empty wrapped ≡ true) × (wrapped.writeopen ≡ true))
      × (piperead false (λ _. true) 9 wrapped
          ≡ record { outcome = asleep; bytes = []; taken = []; pipe = wrapped }))
    ⊎ (((is_empty wrapped ≡ false) ⊎ (wrapped.writeopen ≡ false))
        × Took (λ _. true) 9 0 wrapped (piperead false (λ _. true) 9 wrapped))
piperead-Took_example = piperead-Took (λ _. true) false 9 wrapped wrapped-IsValid

abbrev script : List Call
script =
    write false two_bytes 2 0
    ∷ read false (λ _. true) 3
    ∷ close true
    ∷ read false (λ _. true) 3
    ∷ []

run-script : (run script wrapped).taken ≡ 8 ∷ 9 ∷ 20 ∷ 21 ∷ []
unfolding run write_from put piperead pipeclose
run-script = refl

run_fifo_example :
    IsValid (run script wrapped).pipe
    × (contents wrapped ++ (run script wrapped).written
        ≡ (run script wrapped).taken ++ contents (run script wrapped).pipe)
run_fifo_example = run_fifo script wrapped wrapped-IsValid
