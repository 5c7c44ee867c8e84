-- ===== src/Log/Tests.antt =====
-- Runs of kernel/log.c on a small disk.
use xv6_riscv_labs.Prelude.{
  ℕ, ◌+◌, ◌<◌, ◌≤◌, ◌≡◌, refl, false, none, some, arith, ltb, if◌then◌else◌, update, inr, [], ◌∷◌,
}
use xv6_riscv_labs.Prelude.Int.{pos}
use xv6_riscv_labs.Log.Disk.{Block}
use xv6_riscv_labs.Log.Defs.{Log, begin_op, end_op, log_write, commit, find_from}
use xv6_riscv_labs.Log.States.{Outside, IsReady}
use xv6_riscv_labs.Log.Atomic.{restarts, commit_atomic}
use xv6_riscv_labs.Log.Recover.{restart}
use xv6_riscv_labs.Log.Write.{modify, log_write-IsReady}
use xv6_riscv_labs.Log.End.{end_op_last}

abbrev blank : ℕ → Block
blank b w = 0

abbrev sevens : Block
sevens w = 7

-- One block is logged, block 40, whose buffer holds sevens; `p` disk writes are left.
abbrev one_logged : ℕ → Log
one_logged p = record {
  start = 2;
  size = 31;
  outstanding = pos 1;
  committing = false;
  lh = record { n = 1; block = λ _. 40 };
  io = record { cache = update blank 40 sevens; disk = blank; pins = λ _. 0; power = p };
}

one_logged-IsReady : (p : ℕ) → IsReady (one_logged p)
one_logged-IsReady p = record {
  fits = omega arith;
  room = omega arith;
  distinct = λ i j q r e. omega arith;
  away = λ i q. inr (omega arith);
  clean = λ b o u. ground (arith, u 0 (omega arith));
  erased = refl;
}

-- Power for the log block and the header, and for one write of the first recovery.
commit_atomic_example :
    (restart 5 (restarts (1 ∷ []) (commit (one_logged 2)))).io.disk 40
    ≡ (if ltb 1 2 then sevens else blank 40)
commit_atomic_example =
    commit_atomic (one_logged 2) (one_logged-IsReady 2) (1 ∷ []) 5 (omega arith) 40
      (inr (omega arith))

end_op_last_example :
    (r : Log) × (end_op (one_logged 9) ≡ some r)
    × IsReady r
    × (r.lh.n ≡ 0)
    × (r.outstanding ≡ pos 0)
    × (r.committing ≡ false)
    × ((b : ℕ) → Outside (one_logged 9) b → r.io.disk b ≡ (one_logged 9).io.cache b)
    × (r.size ≡ 31)
end_op_last_example = end_op_last (one_logged 9) (one_logged-IsReady 9) refl refl (omega arith)

abbrev two_logged : Log
two_logged = record {
  start = 2;
  size = 31;
  outstanding = pos 1;
  committing = false;
  lh = record { n = 2; block = update (λ _. 40) 1 50 };
  io = record {
    cache = update (update blank 40 sevens) 50 sevens;
    disk = blank;
    pins = update (λ _. 0) 50 1;
    power = 9;
  };
}

log_write_adds : log_write 50 (modify 50 sevens (one_logged 9)) ≡ some two_logged
unfolding log_write find_from
log_write_adds = refl

log_write-IsReady_example :
    IsReady two_logged
    × (1 ≤ 2)
    × (2 ≤ 1 + 1)
    × ((i : ℕ) × (i < 2) × (two_logged.lh.block i ≡ 50))
    × (two_logged.io.cache 50 ≡ sevens)
    × (two_logged.io.disk ≡ blank)
log_write-IsReady_example =
    log_write-IsReady 50 sevens (one_logged 9) (one_logged-IsReady 9) (inr (omega arith))
      log_write_adds

abbrev quiet : Log
quiet = record {
  start = 2;
  size = 31;
  outstanding = pos 0;
  committing = false;
  lh = record { n = 0; block = λ _. 0 };
  io = record { cache = blank; disk = blank; pins = λ _. 0; power = 9 };
}

abbrev begun : Log
begun = record quiet { outstanding = pos 1 }

-- With `MAXOPBLOCKS` blocks logged and two operations outstanding, a third has to wait.
begin_op_waits :
    begin_op (record quiet { outstanding = pos 2; lh = record { n = 10; block = λ i. i } }) ≡ none
unfolding begin_op
begin_op_waits = refl
