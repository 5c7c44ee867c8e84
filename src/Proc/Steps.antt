-- ===== src/Proc/Steps.antt =====
-- Runs of the calls of kernel/proc.c by all processes, interleaved.
use xv6_riscv_labs.Prelude.{
  subst, ℕ, ◌<◌, ◌≡◌, refl, sym, Bool, true, false, Option, some, List, update, inl, inr,
}
use xv6_riscv_labs.File.{Closing}
use xv6_riscv_labs.Proc.Defs.{
  sleeping, runnable, running, Chan, null, at_proc, Proc, Kernel, set_proc, eq_chan, nproc, wakeup,
}
use xv6_riscv_labs.Proc.Wakeup.{wakeup-Kept}
use xv6_riscv_labs.Proc.Calls.{
  Outcome, fork, exit, wait, sleep, tidy_up, kill, kill_proc, setkilled, run, yield,
}
use xv6_riscv_labs.Proc.Family.{IsFamily, Calm, Calm-IsFamily, set-Calm, Kept-Calm}
use xv6_riscv_labs.Proc.Exit.{exit_lem}
use xv6_riscv_labs.Proc.Wait.{wait-IsFamily}
use xv6_riscv_labs.Proc.Fork.{fork-Forked}
use xv6_riscv_labs.Proc.Kill.{kill_cases, kill_proc-Kept}

-- One call, or one part of a call, of process `me` of the table or of the scheduler.
pub data Step : Kernel → Kernel → Type 0 where
  forks :
      (me : ℕ) (frame pt : Option ℕ) (copied : Bool) (k : Kernel) (o : Outcome) (k' : Kernel)
      → me < nproc
      → (k.proc me).state ≡ running
      → fork me frame pt copied k ≡ some (o, k')
      → Step k k'
  exits :
      (me status : ℕ) (k : Kernel) (cs : List Closing) (k' : Kernel)
      → me < nproc
      → (k.proc me).state ≡ running
      → exit me status k ≡ some (cs, k')
      → Step k k'
  waits_once :
      (me : ℕ) (fault : Bool) (k : Kernel)
      → (k.proc me).state ≡ running
      → Step k (wait me fault k).1
  sleeps :
      (me : ℕ) (c : Chan) (k : Kernel)
      → (k.proc me).state ≡ running
      → eq_chan c (at_proc me) ≡ false
      → Step k (sleep me c k)
  tidies : (me : ℕ) (k : Kernel) → (k.proc me).state ≡ running → Step k (tidy_up me k)
  wakes : (me : Option ℕ) (c : Chan) (k : Kernel) → Step k (record k { proc = wakeup me c k.proc })
  kills : (pid : ℕ) (k : Kernel) → Step k (kill pid k).1
  sets_killed : (q : ℕ) (k : Kernel) → Step k (setkilled q k)
  schedules : (q : ℕ) (k : Kernel) → (k.proc q).state ≡ runnable → Step k (run q k)
  yields : (q : ℕ) (k : Kernel) → (k.proc q).state ≡ running → Step k (yield q k)

pub data Reaches : Kernel → Kernel → Type 0 where
  here : (k : Kernel) → Reaches k k
  after : (k k' k'' : Kernel) → Reaches k k' → Step k' k'' → Reaches k k''

abbrev pub WellFormed : Kernel → Type 0
WellFormed k = IsFamily k.initproc k.proc

set-WellFormed :
    (me : ℕ) (p : Proc) (k : Kernel)
    → Calm me (k.proc me) p
    → WellFormed k
    → WellFormed (set_proc me p k)
set-WellFormed me p k c f =
    Calm-IsFamily k.initproc k.proc (update k.proc me p) (set-Calm me k.proc p c) f

kill-WellFormed : (pid : ℕ) (k : Kernel) → WellFormed k → WellFormed (kill pid k).1
unfolding kill
kill-WellFormed pid k f = elim (kill_cases pid k) [
  | inl (_, e, _) ↦ subst (IsFamily k.initproc) (sym e) f
  | inr (q, _, _, _, e) ↦ subst (IsFamily k.initproc) (sym e) (
      set-WellFormed q (kill_proc (k.proc q)) k
        (Kept-Calm q (k.proc q) (kill_proc (k.proc q)) (kill_proc-Kept (k.proc q)).0
          (kill_proc-Kept (k.proc q)).1)
        f)
]

pub Step-WellFormed : (k k' : Kernel) → Step k k' → WellFormed k → WellFormed k'
unfolding sleep tidy_up
Step-WellFormed _ _ (forks me frame pt copied k o k' small r e) f =
    (fork-Forked me k f small (rw r refl) frame pt copied o k' e).family
Step-WellFormed _ _ (exits me status k cs k' small r e) f =
    (exit_lem me status k f small (rw r refl) cs k' e).0
Step-WellFormed _ _ (waits_once me fault k r) f = wait-IsFamily me fault k f (rw r refl)
Step-WellFormed _ _ (sleeps me c k r ne) f =
    set-WellFormed me (record (k.proc me) { chan = c; state = sleeping }) k
      (record {
        parent = refl;
        unused_same = rw r refl;
        zombie_same = rw r refl;
        waits_less = λ h. ne;
      })
      f
Step-WellFormed _ _ (tidies me k r) f =
    set-WellFormed me (record (k.proc me) { chan = null }) k
      (record {
        parent = refl;
        unused_same = refl;
        zombie_same = refl;
        waits_less = λ h. rw r refl;
      })
      f
Step-WellFormed _ _ (wakes me c k) f =
    Calm-IsFamily k.initproc k.proc (wakeup me c k.proc)
      (λ j.
        Kept-Calm j (k.proc j) (wakeup me c k.proc j) (wakeup-Kept me c k.proc j).0
          (wakeup-Kept me c k.proc j).1)
      f
Step-WellFormed _ _ (kills pid k) f = kill-WellFormed pid k f
Step-WellFormed _ _ (sets_killed q k) f =
    set-WellFormed q (record (k.proc q) { killed = true }) k
      (record { parent = refl; unused_same = refl; zombie_same = refl; waits_less = λ h. h }) f
Step-WellFormed _ _ (schedules q k r) f =
    set-WellFormed q (record (k.proc q) { state = running }) k
      (record {
        parent = refl;
        unused_same = rw r refl;
        zombie_same = rw r refl;
        waits_less = λ h. refl;
      })
      f
Step-WellFormed _ _ (yields q k r) f =
    set-WellFormed q (record (k.proc q) { state = runnable }) k
      (record {
        parent = refl;
        unused_same = rw r refl;
        zombie_same = rw r refl;
        waits_less = λ h. refl;
      })
      f

-- However the calls of the processes interleave, a well-formed family stays so: every process in
-- use but the first has a parent that is in use and no zombie, and the parent of a zombie does not
-- sleep on its own address, as it does in `wait`.
pub Reaches-WellFormed : (k k' : Kernel) → Reaches k k' → WellFormed k → WellFormed k'
Reaches-WellFormed _ _ (here k) f = f
Reaches-WellFormed _ _ (after k k' k'' r s) f =
    Step-WellFormed k' k'' s (Reaches-WellFormed k k' r f)
