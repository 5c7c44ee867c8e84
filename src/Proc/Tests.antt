-- ===== src/Proc/Tests.antt =====
-- Runs of kernel/proc.c.
use xv6_riscv_labs.Prelude.{
  ℕ, ◌<◌, ◌≡◌, ◌≢◌, refl, true, false, none, some, List, [], ◌==◌, if◌then◌else◌, arith, ◌⊎◌,
}
use xv6_riscv_labs.File.{Ftable, fd_none, Closing}
use xv6_riscv_labs.Proc.Defs.{
  State, unused, sleeping, running, zombie, null, at_proc, Proc, Kernel, points_to, nproc,
  take_slot, find_unused,
}
use xv6_riscv_labs.Proc.Calls.{
  Outcome, returned, failed, fork, fork_into, dup_files, exit, close_files, wait, after_scan,
  scan_children, kill, kill_from, kill_proc,
}
use xv6_riscv_labs.Proc.Family.{IsFamily}
use xv6_riscv_labs.Proc.Exit.{exit_lem}
use xv6_riscv_labs.Proc.Fork.{Forked, fork-Forked}
use xv6_riscv_labs.Proc.Kill.{IsKilled, kill_lem}
use xv6_riscv_labs.Proc.Boot.{AtBoot, one-IsFamily}
use xv6_riscv_labs.Proc.Steps.{forks, here, after, WellFormed, Reaches-WellFormed}

abbrev blank : Proc
blank = record {
  state = unused;
  chan = null;
  killed = false;
  xstate = 0;
  pid = 0;
  parent = none;
  sz = 0;
  pagetable = none;
  trapframe = none;
  ofile = λ _. none;
  cwd = none;
}

abbrev no_file : Ftable
no_file _ = record {
  type = fd_none;
  ref = 0;
  readable = false;
  writable = false;
  pipe = 0;
  ip = 0;
  off = 0;
  major = 0;
}

abbrev empty : Kernel
empty = record {
  proc = λ _. blank;
  next_pid = 1;
  initproc = 0;
  ftable = no_file;
  iref = λ _. 1;
  released = [];
}

empty-AtBoot : AtBoot empty.proc
empty-AtBoot = record { all_unused = λ q. refl; no_parent = λ q. refl }

-- The first process runs, alone.
abbrev solo : Kernel
solo = record empty {
  proc = λ q. if q == 0 then record blank { state = running; pid = 1; cwd = some 1 } else blank;
  next_pid = 2;
}

solo-WellFormed : WellFormed solo
solo-WellFormed =
    one-IsFamily 0 solo.proc (omega arith) refl (λ q. ground arith) (λ q d. ground arith)

forked : (r : Outcome × Kernel) × (fork 0 (some 7) (some 8) true solo ≡ some r)
unfolding fork_into take_slot find_unused dup_files
forked = (_, refl)

fork-Forked_example : Forked 0 solo forked.0
fork-Forked_example =
    fork-Forked 0 solo solo-WellFormed (omega arith) refl (some 7) (some 8) true forked.0.0
      forked.0.1 forked.1

Reaches-WellFormed_example : WellFormed forked.0.1
Reaches-WellFormed_example =
    Reaches-WellFormed solo forked.0.1
      (after solo solo forked.0.1 (here solo)
        (forks 0 (some 7) (some 8) true solo forked.0.0 forked.0.1 (omega arith) refl forked.1))
      solo-WellFormed

-- The first process sleeps in `wait`, and its child runs, or is a zombie.
abbrev with_child : State → Kernel
with_child s = record solo {
  proc = λ q.
      if q == 0
      then record blank { state = sleeping; chan = at_proc 0; pid = 1 }
      else if q == 1
      then record blank { state = s; pid = 2; parent = some 0; xstate = 3 }
      else blank;
}

pair-WellFormed : WellFormed (with_child running)
pair-WellFormed = record {
  init_small = omega arith;
  init_alive = refl;
  parents = λ q j h e. ground (arith, e);
  raised = λ q h d u. (0, ground (arith, u));
  noticed = λ q j h e z. ground (arith, e, z);
}

left_pair : (r : List Closing × Kernel) × (exit 1 9 (with_child running) ≡ some r)
unfolding exit close_files
left_pair = (_, refl)

exit_lem_example :
    IsFamily (left_pair.0).1.initproc (left_pair.0).1.proc
    × (((left_pair.0).1.proc 1).state ≡ zombie)
    × (((left_pair.0).1.proc 1).xstate ≡ 9)
    × ((q : ℕ) → q < nproc → points_to ((left_pair.0).1.proc q).parent 1 ≡ false)
exit_lem_example =
    exit_lem 1 9 (with_child running) pair-WellFormed (omega arith) refl (left_pair.0).0
      (left_pair.0).1 left_pair.1

-- The child's pid is returned.
wait_returns : (wait 0 false (with_child zombie)).0 ≡ returned 2
unfolding after_scan scan_children
wait_returns = refl

-- A `kill` of pid 0 finds an unused process, and the next child is born killed.
killed_unused : ((kill 0 solo).1.proc 1).killed ≡ true
unfolding kill kill_from kill_proc
killed_unused = refl

kill_lem_example :
    (((kill 2 (with_child sleeping)).0 ≡ failed)
      × ((kill 2 (with_child sleeping)).1.proc ≡ (with_child sleeping).proc)
      × ((q : ℕ) → q < nproc → ((with_child sleeping).proc q).pid ≢ 2))
    ⊎ ((q : ℕ) × (q < nproc)
        × (((with_child sleeping).proc q).pid ≡ 2)
        × ((kill 2 (with_child sleeping)).0 ≡ returned 0)
        × IsKilled ((with_child sleeping).proc q) ((kill 2 (with_child sleeping)).1.proc q)
        × ((j : ℕ)
            → q ≢ j
            → (kill 2 (with_child sleeping)).1.proc j ≡ (with_child sleeping).proc j))
kill_lem_example = kill_lem 2 (with_child sleeping)
