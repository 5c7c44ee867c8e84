-- ===== src/Lock/Defs.antt =====
-- push_off, pop_off, acquire and release of kernel/spinlock.c, cut where other CPUs may come in
-- between: at each access to the lock.
use xv6_riscv_labs.Prelude.{
  ℕ, ◌+◌, ◌-◌, Bool, true, false, not, ◌&&◌, Option, none, some, ◌==◌, ltb, if◌then◌else◌, update,
}

-- `struct cpu`, and whether its interrupts are on.
pub record Cpu : Type 0 where
  pub intr : Bool
  pub noff : ℕ
  pub intena : Bool

unfoldable pub push_off : Cpu → Cpu
push_off c = record {
  intr = false;
  noff = c.noff + 1;
  intena = if c.noff == 0 then c.intr else c.intena;
}

-- `none` is a panic.
unfoldable pub pop_off : Cpu → Option Cpu
pop_off c =
    if c.intr
    then none
    else if ltb c.noff 1
    then none
    else some (record c { noff = c.noff - 1; intr = c.noff - 1 == 0 && c.intena })

-- Where a CPU stands: outside of the lock's calls, in the loop of `acquire`, after the loop, between
-- `acquire` and `release`, after `lk->cpu = 0`, and after the lock is released.
pub data Place : Type 0 where
  idle spinning taken inside leaving released : Place

-- `struct spinlock` and the CPUs.
pub record Machine : Type 0 where
  pub locked : Bool
  pub holder : Option ℕ
  pub place : ℕ → Place
  pub cpus : ℕ → Cpu

abbrev pub is_cpu : Option ℕ → ℕ → Bool
is_cpu none i = false
is_cpu (some a) i = a == i

abbrev pub holding : ℕ → Machine → Bool
holding i m = m.locked && is_cpu m.holder i

abbrev pub move : ℕ → Place → Machine → Machine
move i p m = record m { place = update m.place i p }

-- `push_off(); if(holding(lk)) panic("acquire");`
unfoldable pub enter : ℕ → Machine → Option Machine
enter i m =
    if holding i m
    then none
    else some (record m {
      cpus = update m.cpus i (push_off (m.cpus i));
      place = update m.place i spinning;
    })

-- One round of the loop: the atomic swap.
unfoldable pub test_and_set : ℕ → Machine → Machine
test_and_set i m = let m' = record m { locked = true } in if m.locked then m' else move i taken m'

-- `lk->cpu = mycpu();`
unfoldable pub set_holder : ℕ → Machine → Machine
set_holder i m = record m { holder = some i; place = update m.place i inside }

-- `if(!holding(lk)) panic("release"); lk->cpu = 0;`
unfoldable pub clear_holder : ℕ → Machine → Option Machine
clear_holder i m =
    if not (holding i m)
    then none
    else some (record m { holder = none; place = update m.place i leaving })

-- `__sync_lock_release(&lk->locked)`
unfoldable pub unlock : ℕ → Machine → Machine
unlock i m = record m { locked = false; place = update m.place i released }

-- The `pop_off()` of `release`.
unfoldable pub leave_lock : ℕ → Machine → Option Machine
leave_lock i m = elim (pop_off (m.cpus i)) [
  | none ↦ none
  | some c ↦ some (record m { cpus = update m.cpus i c; place = update m.place i idle })
]
