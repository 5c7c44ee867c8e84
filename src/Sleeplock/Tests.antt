-- ===== src/Sleeplock/Tests.antt =====
-- Runs of kernel/sleeplock.c.
use xv6_riscv_labs.Prelude.{ℕ, ◌≡◌, ◌↔◌, refl, true}
use xv6_riscv_labs.Sleeplock.Defs.{
  initsleeplock, outside, testing, asleep, inside, State, acquiresleep, releasesleep, holdingsleep,
}
use xv6_riscv_labs.Sleeplock.Guard.{calls, Reaches, here, after, Reaches-IsGuarded}

abbrev start : State
start = record { lock = initsleeplock; place = λ p. outside }

-- Process 3 has the lock and process 4 waits for it.
abbrev waiting : State
waiting = acquiresleep 4 (acquiresleep 3 start)

waiting_4 : waiting.place 4 ≡ asleep
unfolding acquiresleep
waiting_4 = refl

woken_4 : (releasesleep 3 waiting).place 4 ≡ testing
unfolding acquiresleep releasesleep
woken_4 = refl

reaches_waiting : Reaches start waiting
unfolding acquiresleep
reaches_waiting =
    after start (acquiresleep 3 start) waiting
      (after start start (acquiresleep 3 start) (here start) (calls 3 start refl))
      (calls 4 (acquiresleep 3 start) refl)

Reaches-IsGuarded_example :
    ((p : ℕ) → (waiting.place p ≡ inside) ↔ (holdingsleep p waiting.lock ≡ true))
    × ((p q : ℕ) → waiting.place p ≡ inside → waiting.place q ≡ inside → p ≡ q)
    × ((p : ℕ) → waiting.place p ≡ asleep → (q : ℕ) × (waiting.place q ≡ inside))
Reaches-IsGuarded_example = Reaches-IsGuarded start waiting refl (λ p. refl) reaches_waiting
