-- ===== src/Proc/Calls.antt =====
-- fork, exit, wait, sleep, kill and the scheduler's choice of kernel/proc.c. Each runs from its
-- first lock to its last, and `wait` to its sleep, as one step.
use mathlib.Core.Option
use xv6_riscv_labs.Prelude.{
  ℕ, zero, suc, ◌+◌, Bool, true, false, not, ◌||◌, Option, none, some, List, [], ◌∷◌, ◌++◌, ◌==◌,
  ltb, if◌then◌else◌, update,
}
use xv6_riscv_labs.File.{Ftable, Closing, filedup, fileclose, put_inode}
use xv6_riscv_labs.Proc.Defs.{
  sleeping, runnable, running, zombie, Chan, null, at_proc, Proc, Kernel, set_proc, is_sleeping,
  is_zombie, points_to, wakeup, reparent_from, nproc, freeproc, allocproc,
}

abbrev pub nofile : ℕ
nofile = 16

-- The loop of `fork` over the parent's descriptors; `none` is the panic of `filedup`.
unfoldable pub dup_files :
    ℕ → ℕ → (ℕ → Option ℕ) → (ℕ → Option ℕ) → Ftable → Option ((ℕ → Option ℕ) × Ftable)
dup_files zero i from to t = some (to, t)
dup_files (suc n) i from to t = elim (from i) [
  | none ↦ dup_files n (i + 1) from to t
  | some f ↦ elim (filedup f t) [
    | none ↦ none
    | some t' ↦ dup_files n (i + 1) from (update to i (some f)) t'
  ]
]

-- The address in a pointer to an inode: 0 for null, which the source follows as any other.
abbrev pub address : Option ℕ → ℕ
address none = 0
address (some ip) = ip

-- `idup`: the reference counts of inodes with one more for the directory.
abbrev pub idup : Option ℕ → (ℕ → ℕ) → ℕ → ℕ
idup cwd iref = update iref (address cwd) (iref (address cwd) + 1)

-- What a call leaves: the pid or count that it returns, or -1, or that it sleeps.
pub data Outcome : Type 0 where
  returned : ℕ → Outcome
  failed : Outcome
  asleep : Outcome

-- The child `q` of `me`, with its copy of the descriptors.
abbrev pub start_child : ℕ → ℕ → Kernel → (ℕ → Option ℕ) × Ftable → Outcome × Kernel
start_child me q k (ofile, ftable) = (
  returned (k.proc q).pid,
  record k {
    proc = update k.proc q (record (k.proc q) {
      sz = (k.proc me).sz;
      ofile = ofile;
      cwd = (k.proc me).cwd;
      parent = some me;
      state = runnable;
    });
    ftable = ftable;
    iref = idup (k.proc me).cwd k.iref;
  },
)

-- `fork` by `me` after `allocproc`; `none` is a panic.
unfoldable pub fork_into : ℕ → Bool → Option ℕ × Kernel → Option (Outcome × Kernel)
fork_into me copied (none, k) = some (failed, k)
fork_into me copied (some q, k) =
    if not copied
    then some (failed, freeproc q k)
    else Option.map (start_child me q k)
        (dup_files nofile 0 (k.proc me).ofile (k.proc q).ofile k.ftable)

-- `fork` by `me`, where `kalloc`, `proc_pagetable` and `uvmcopy` give `frame`, `pt` and `copied`.
abbrev pub fork : ℕ → Option ℕ → Option ℕ → Bool → Kernel → Option (Outcome × Kernel)
fork me frame pt copied k = fork_into me copied (allocproc frame pt k)

-- The loop of `exit` over the descriptors: what the closes leave to do, in their order.
unfoldable pub close_files : ℕ → ℕ → (ℕ → Option ℕ) → Ftable → Option (List Closing × Ftable)
close_files zero i ofile t = some ([], t)
close_files (suc n) i ofile t = elim (ofile i) [
  | none ↦ close_files n (i + 1) ofile t
  | some f ↦ elim (fileclose f t) [
    | none ↦ none
    | some (c, t') ↦ elim (close_files n (i + 1) ofile t') [
      | none ↦ none
      | some (cs, t'') ↦ some (c ∷ cs, t'')
    ]
  ]
]

-- The descriptors after the loop.
abbrev pub no_files : (ℕ → Option ℕ) → ℕ → Option ℕ
no_files ofile i = if ltb i nofile then none else ofile i

-- `wakeup(p->parent)`: the address is 0 if there is no parent.
abbrev pub parent_chan : Option ℕ → Chan
parent_chan none = null
parent_chan (some j) = at_proc j

abbrev pub put_cwd : Option ℕ → List Closing
put_cwd cwd = put_inode (address cwd) ∷ []

-- The part of `exit` under `wait_lock`.
unfoldable pub become_zombie : ℕ → ℕ → ℕ → (ℕ → Proc) → ℕ → Proc
become_zombie me status initproc t =
    let t1 = reparent_from nproc 0 me initproc t in
    let t2 = wakeup (some me) (parent_chan (t1 me).parent) t1 in
    update t2 me (record (t2 me) { xstate = status; state = zombie })

-- `exit` by `me` once its files are closed.
abbrev pub leave : ℕ → ℕ → Kernel → List Closing × Ftable → List Closing × Kernel
leave me status k (cs, ftable) = (
  cs ++ put_cwd (k.proc me).cwd,
  record k {
    proc =
        become_zombie me status k.initproc (
          update k.proc me (record (k.proc me) { ofile = no_files (k.proc me).ofile; cwd = none }));
    ftable = ftable;
  },
)

-- `exit` by `me`; `none` is a panic.
unfoldable pub exit : ℕ → ℕ → Kernel → Option (List Closing × Kernel)
exit me status k =
    if me == k.initproc
    then none
    else Option.map (leave me status k) (close_files nofile 0 (k.proc me).ofile k.ftable)

-- The scan of `wait`: a zombie child, or whether there are children.
pub data Scan : Type 0 where
  exited : ℕ → Scan
  none_exited : (havekids : Bool) → Scan

unfoldable pub scan_children : ℕ → ℕ → ℕ → Bool → (ℕ → Proc) → Scan
scan_children zero i me havekids t = none_exited havekids
scan_children (suc n) i me havekids t =
    let rest = scan_children n (i + 1) me havekids t in
    let rest_kids = scan_children n (i + 1) me true t in
    if points_to (t i).parent me
    then (if is_zombie (t i).state then exited i else rest_kids)
    else rest

-- `sleep` up to `sched`.
unfoldable pub sleep : ℕ → Chan → Kernel → Kernel
sleep me c k = set_proc me (record (k.proc me) { chan = c; state = sleeping }) k

-- `sleep` after `sched`.
unfoldable pub tidy_up : ℕ → Kernel → Kernel
tidy_up me k = set_proc me (record (k.proc me) { chan = null }) k

-- The rest of a round of `wait` after its scan. `fault` says that an address is given and `copyout`
-- fails.
unfoldable pub after_scan : ℕ → Bool → Kernel → Scan → Outcome × Kernel
after_scan me fault k (exited q) =
    if fault then (failed, k) else (returned (k.proc q).pid, freeproc q k)
after_scan me fault k (none_exited havekids) =
    if not havekids || (k.proc me).killed then (failed, k) else (asleep, sleep me (at_proc me) k)

-- One round of `wait` by `me`, to its return or its sleep.
abbrev pub wait : ℕ → Bool → Kernel → Outcome × Kernel
wait me fault k = after_scan me fault k (scan_children nproc 0 me false k.proc)

-- The body of the loop of `kill` for the process it finds.
unfoldable pub kill_proc : Proc → Proc
kill_proc p =
    let p' = record p { killed = true } in
    if is_sleeping p.state then record p' { state = runnable } else p'

-- The loop of `kill` from process `i`: the value returned, and the table.
unfoldable pub kill_from : ℕ → ℕ → ℕ → (ℕ → Proc) → Outcome × (ℕ → Proc)
kill_from zero i pid t = (failed, t)
kill_from (suc n) i pid t =
    let rest = kill_from n (i + 1) pid t in
    if (t i).pid == pid then (returned 0, update t i (kill_proc (t i))) else rest

unfoldable pub kill : ℕ → Kernel → Outcome × Kernel
kill pid k = let (o, t) = kill_from nproc 0 pid k.proc in (o, record k { proc = t })

-- The scheduler takes process `q`; `yield` gives it back.
abbrev pub run : ℕ → Kernel → Kernel
run q k = set_proc q (record (k.proc q) { state = running }) k

abbrev pub yield : ℕ → Kernel → Kernel
yield q k = set_proc q (record (k.proc q) { state = runnable }) k

abbrev pub setkilled : ℕ → Kernel → Kernel
setkilled q k = set_proc q (record (k.proc q) { killed = true }) k

-- `userinit` after `allocproc`, whose failure it does not look at: `none` is an access to address 0.
unfoldable pub userinit_from : Option ℕ → Option ℕ × Kernel → Option Kernel
userinit_from root (none, k) = none
userinit_from root (some q, k) = some (record k {
  initproc = q;
  proc = update k.proc q (record (k.proc q) { sz = 4096; cwd = root; state = runnable });
})

-- `userinit`, where `namei` gives `root`.
abbrev pub userinit : Option ℕ → Option ℕ → Option ℕ → Kernel → Option Kernel
userinit frame pt root k = userinit_from root (allocproc frame pt k)
