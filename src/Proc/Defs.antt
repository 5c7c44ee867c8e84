-- ===== src/Proc/Defs.antt =====
-- The table of processes of kernel/proc.c, and the operations on one process or on all of them.
use xv6_riscv_labs.Prelude.{
  ℕ, zero, suc, ◌+◌, ◌%◌, ◌^◌, Bool, true, false, ◌&&◌, Option, none, some, List, ◌∷◌, ◌==◌,
  if◌then◌else◌, update,
}
use xv6_riscv_labs.File.{Ftable}

abbrev pub nproc : ℕ
nproc = 64

-- `enum procstate`
pub data State : Type 0 where
  unused used sleeping runnable running zombie : State

-- An address to sleep on: 0, that of a process, or another one.
pub data Chan : Type 0 where
  null : Chan
  at_proc : ℕ → Chan
  at : ℕ → Chan

-- `struct proc`, less its lock, its name and what only `swtch` and the trap code use. A pointer to
-- a process is its index.
pub record Proc : Type 0 where
  pub state : State
  pub chan : Chan
  pub killed : Bool
  pub xstate : ℕ
  pub pid : ℕ
  pub parent : Option ℕ
  pub sz : ℕ
  pub pagetable : Option ℕ
  pub trapframe : Option ℕ
  pub ofile : ℕ → Option ℕ
  pub cwd : Option ℕ

-- What `freeproc` gives back: a page to `kfree`, or a page table of a size.
pub data Release : Type 0 where
  page : ℕ → Release
  page_table : ℕ → ℕ → Release

-- `proc`, `nextpid` and `initproc`, with the open files, the reference counts of inodes, and the
-- memory given back, the last piece first.
pub record Kernel : Type 0 where
  pub proc : ℕ → Proc
  pub next_pid : ℕ
  pub initproc : ℕ
  pub ftable : Ftable
  pub iref : ℕ → ℕ
  pub released : List Release

abbrev pub set_proc : ℕ → Proc → Kernel → Kernel
set_proc q p k = record k { proc = update k.proc q p }

abbrev pub is_unused : State → Bool
is_unused unused = true
is_unused _ = false

abbrev pub is_sleeping : State → Bool
is_sleeping sleeping = true
is_sleeping _ = false

abbrev pub is_zombie : State → Bool
is_zombie zombie = true
is_zombie _ = false

abbrev pub eq_chan : Chan → Chan → Bool
eq_chan null null = true
eq_chan (at_proc a) (at_proc b) = a == b
eq_chan (at a) (at b) = a == b
eq_chan _ _ = false

-- Is a pointer to a process that of process `q`.
abbrev pub points_to : Option ℕ → ℕ → Bool
points_to none q = false
points_to (some a) q = a == q

-- The body of the loop of `wakeup`.
unfoldable pub wake : Chan → Proc → Proc
wake c p = if is_sleeping p.state && eq_chan p.chan c then record p { state = runnable } else p

-- The loop of `wakeup` from process `i`, with `n` processes left; `me` is `myproc()`.
unfoldable pub wakeup_from : ℕ → ℕ → Option ℕ → Chan → (ℕ → Proc) → ℕ → Proc
wakeup_from zero i me c t = t
wakeup_from (suc n) i me c t =
    wakeup_from n (i + 1) me c (if points_to me i then t else update t i (wake c (t i)))

abbrev pub wakeup : Option ℕ → Chan → (ℕ → Proc) → ℕ → Proc
wakeup me c t = wakeup_from nproc 0 me c t

-- The loop of `reparent` of `me` from process `i`, with `n` processes left.
unfoldable pub reparent_from : ℕ → ℕ → ℕ → ℕ → (ℕ → Proc) → ℕ → Proc
reparent_from zero i me initproc t = t
reparent_from (suc n) i me initproc t = reparent_from n (i + 1) me initproc (
    if points_to (t i).parent me
    then wakeup (some me) (at_proc initproc) (update t i (record (t i) { parent = some initproc }))
    else t)

abbrev pub free_frame : Option ℕ → List Release → List Release
free_frame none l = l
free_frame (some f) l = page f ∷ l

abbrev pub free_table : Option ℕ → ℕ → List Release → List Release
free_table none sz l = l
free_table (some pt) sz l = page_table pt sz ∷ l

abbrev pub cleared : Proc → Proc
cleared p = record p {
  trapframe = none;
  pagetable = none;
  sz = 0;
  pid = 0;
  parent = none;
  chan = null;
  killed = false;
  xstate = 0;
  state = unused;
}

unfoldable pub freeproc : ℕ → Kernel → Kernel
freeproc q k =
    let p = k.proc q in
    record k {
      proc = update k.proc q (cleared p);
      released = free_table p.pagetable p.sz (free_frame p.trapframe k.released);
    }

-- The loop of `allocproc`.
unfoldable pub find_unused : ℕ → ℕ → (ℕ → Proc) → Option ℕ
find_unused zero i t = none
find_unused (suc n) i t =
    let rest = find_unused n (i + 1) t in if is_unused (t i).state then some i else rest

-- The slot gets a pid, and then what `kalloc` and `proc_pagetable` give.
abbrev pub name_slot : ℕ → Kernel → Kernel
name_slot q k = record k {
  proc = update k.proc q (record (k.proc q) { pid = k.next_pid; state = used });
  next_pid = (k.next_pid + 1) % 2 ^ 32;
}

abbrev pub give_frame : ℕ → Option ℕ → Kernel → Kernel
give_frame q frame k = set_proc q (record (k.proc q) { trapframe = frame }) k

abbrev pub give_table : ℕ → Option ℕ → Kernel → Kernel
give_table q pt k = set_proc q (record (k.proc q) { pagetable = pt }) k

-- `allocproc` with the slot that its loop found.
unfoldable pub take_slot : Option ℕ → Option ℕ → Kernel → Option ℕ → Option ℕ × Kernel
take_slot frame pt k none = (none, k)
take_slot none pt k (some q) = (none, freeproc q (give_frame q none (name_slot q k)))
take_slot (some f) none k (some q) =
    (none, freeproc q (give_table q none (give_frame q (some f) (name_slot q k))))
take_slot (some f) (some root) k (some q) =
    (some q, give_table q (some root) (give_frame q (some f) (name_slot q k)))

-- `allocproc`, where `kalloc` gives `frame` and `proc_pagetable` gives `pt`.
abbrev pub allocproc : Option ℕ → Option ℕ → Kernel → Option ℕ × Kernel
allocproc frame pt k = take_slot frame pt k (find_unused nproc 0 k.proc)
