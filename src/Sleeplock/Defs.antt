-- ===== src/Sleeplock/Defs.antt =====
-- The functions of kernel/sleeplock.c. Each turn of the loop of acquiresleep runs with the spin lock
-- of the sleep lock held, and `sleep` lets it go only when the process is asleep, so a turn is one
-- step.
use xv6_riscv_labs.Prelude.{ℕ, Bool, true, false, ◌==◌, ◌&&◌, if◌then◌else◌, update}

-- `struct sleeplock` less its spin lock and its name.
pub record Sleeplock : Type 0 where
  pub locked : Bool
  pub pid : ℕ

abbrev pub initsleeplock : Sleeplock
initsleeplock = record { locked = false; pid = 0 }

-- Where a process stands: it has not called acquiresleep, is at the test of its loop, sleeps in it,
-- or has returned from it.
pub data Place : Type 0 where
  outside : Place
  testing : Place
  asleep : Place
  inside : Place

-- The lock, and the place of the process of each pid.
pub record State : Type 0 where
  pub lock : Sleeplock
  pub place : ℕ → Place

-- A turn of the loop of acquiresleep in process `p`, with what follows the loop.
unfoldable pub acquiresleep : ℕ → State → State
acquiresleep p s =
    if s.lock.locked
    then record s { place = update s.place p asleep }
    else record { lock = record { locked = true; pid = p }; place = update s.place p inside }

-- `wakeup(lk)`
abbrev pub woken : Place → Place
woken asleep = testing
woken outside = outside
woken testing = testing
woken inside = inside

unfoldable pub releasesleep : ℕ → State → State
releasesleep p s = record {
  lock = record { locked = false; pid = 0 };
  place = λ q. woken (update s.place p outside q);
}

unfoldable pub holdingsleep : ℕ → Sleeplock → Bool
holdingsleep p lk = lk.locked && lk.pid == p
