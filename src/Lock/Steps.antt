-- ===== src/Lock/Steps.antt =====
-- The interleavings of the CPUs on a lock of kernel/spinlock.c.
use xv6_riscv_labs.Prelude.{ℕ, ◌≡◌, some}
use xv6_riscv_labs.Lock.Defs.{
  idle, spinning, taken, inside, leaving, released, Machine, enter, test_and_set, set_holder,
  clear_holder, unlock, leave_lock,
}

-- A step of CPU `i`.
pub data Step : Machine → Machine → Type 0 where
  enters : (i : ℕ) (m m' : Machine) → m.place i ≡ idle → enter i m ≡ some m' → Step m m'
  tests : (i : ℕ) (m : Machine) → m.place i ≡ spinning → Step m (test_and_set i m)
  holds : (i : ℕ) (m : Machine) → m.place i ≡ taken → Step m (set_holder i m)
  clears : (i : ℕ) (m m' : Machine) → m.place i ≡ inside → clear_holder i m ≡ some m' → Step m m'
  unlocks : (i : ℕ) (m : Machine) → m.place i ≡ leaving → Step m (unlock i m)
  leaves : (i : ℕ) (m m' : Machine) → m.place i ≡ released → leave_lock i m ≡ some m' → Step m m'

pub data Reaches : Machine → Machine → Type 0 where
  here : (m : Machine) → Reaches m m
  after : (m m' m'' : Machine) → Reaches m m' → Step m' m'' → Reaches m m''
