-- ===== src/Lock/Masked.antt =====
-- acquire and release of kernel/spinlock.c: the interrupts of a CPU are off, and counted as such,
-- from `push_off` in acquire to `pop_off` in release.
use mathlib.Core.Option.{some-injective}
use xv6_riscv_labs.Prelude.{
  subst, ℕ, ◌≤◌, ◌≡◌, ◌≢◌, refl, ap, sym, ◌∙◌, true, Option, none, some, update, arith, inl, inr,
  ℕ_discrete, update-at, update-other, ltb-false, Bool, Bool-cases, false, ◌==◌, ◌&&◌, ◌-◌,
}
use xv6_riscv_labs.Lock.Steps.{
  Step, enters, tests, holds, clears, unlocks, leaves, Reaches, here, after,
}
use xv6_riscv_labs.Lock.Defs.{
  Cpu, push_off, pop_off, Place, idle, spinning, taken, inside, leaving, released, Machine, holding,
  enter, test_and_set, set_holder, clear_holder, unlock, leave_lock,
}

abbrev pub IsMasked : Cpu → Type 0
IsMasked c = (c.intr ≡ false) × (1 ≤ c.noff)

pub record Masked (m : Machine) : Type 0 where
  pub masked : (i : ℕ) → m.place i ≢ idle → IsMasked (m.cpus i)

enter-Masked : (i : ℕ) (m m' : Machine) → Masked m → enter i m ≡ some m' → Masked m'
unfolding enter push_off
enter-Masked i m m' x e = elim (Bool-cases (holding i m)) [
  | inl h ↦ absurd (ground (arith, e, h))
  | inr h ↦ subst Masked (some-injective next m' (ground (arith, e, h))) (record {
    masked = λ j n. elim (ℕ_discrete i j) [
      | yes same ↦
          subst IsMasked (sym (update-at m.cpus i (push_off (m.cpus i))) ∙ ap next.cpus same)
            (refl, omega arith)
      | no other ↦
          subst IsMasked (sym (update-other m.cpus i (push_off (m.cpus i)) j other))
            (x.masked j (λ z. n (update-other m.place i spinning j other ∙ z)))
    ];
  })
]
  where
    next : Machine
    next = record m {
      cpus = update m.cpus i (push_off (m.cpus i));
      place = update m.place i spinning;
    }

-- A step of a CPU that is in the calls of the lock already and leaves its interrupts alone.
move-Masked :
    (m : Machine) (i : ℕ) (p : Place) (locked' : Bool) (holder' : Option ℕ)
    → Masked m
    → m.place i ≢ idle
    → Masked (record m { locked = locked'; holder = holder'; place = update m.place i p })
move-Masked m i p locked' holder' x at_place = record {
  masked = λ j n. elim (ℕ_discrete i j) [
    | yes same ↦ x.masked j (subst (λ y. m.place y ≢ idle) same at_place)
    | no other ↦ x.masked j (λ z. n (update-other m.place i p j other ∙ z))
  ];
}

leave_lock-Masked : (i : ℕ) (m m' : Machine) → Masked m → leave_lock i m ≡ some m' → Masked m'
unfolding leave_lock
leave_lock-Masked i m m' x e = go (pop_off (m.cpus i)) e
  where
    go :
        (r : Option Cpu)
        → elim r as (λ _. Option Machine) [
          | none ↦ none
          | some c ↦ some (record m { cpus = update m.cpus i c; place = update m.place i idle })
        ]
          ≡ some m'
        → Masked m'
    go none f = absurd (ground (arith, f))
    go (some c) f =
        let next = record m { cpus = update m.cpus i c; place = update m.place i idle } in
        subst Masked (some-injective next m' f) (record {
          masked = λ j n. elim (ℕ_discrete i j) [
            | yes same ↦ absurd (n (ap next.place (sym same) ∙ update-at m.place i idle))
            | no other ↦
                subst IsMasked (sym (update-other m.cpus i c j other))
                  (x.masked j (λ z. n (update-other m.place i idle j other ∙ z)))
          ];
        })

pop_off_succeeds : (c : Cpu) → IsMasked c → (c' : Cpu) × (pop_off c ≡ some c')
unfolding pop_off
pop_off_succeeds c (off, deep) = (
  record c { noff = c.noff - 1; intr = c.noff - 1 == 0 && c.intena },
  rw (off, ltb-false c.noff 1 deep) refl,
)

pub leave_lock_succeeds :
    (i : ℕ) (m : Machine) → IsMasked (m.cpus i) → (m' : Machine) × (leave_lock i m ≡ some m')
unfolding leave_lock
leave_lock_succeeds i m h =
    let (c, e) = pop_off_succeeds (m.cpus i) h in
    (record m { cpus = update m.cpus i c; place = update m.place i idle }, rw (e, leave_lock) refl)

calls : (i : ℕ) (m : Machine) (p : Place) → m.place i ≡ p → p ≢ idle → m.place i ≢ idle
calls i m p e n z = n (sym e ∙ z)

clear_holder-Masked :
    (i : ℕ) (m m' : Machine)
    → Masked m
    → m.place i ≡ inside
    → clear_holder i m ≡ some m'
    → Masked m'
unfolding clear_holder
clear_holder-Masked i m m' x p e = elim (Bool-cases (holding i m)) [
  | inr h ↦ absurd (ground (arith, e, h))
  | inl h ↦
      subst Masked
        (some-injective (record m { holder = none; place = update m.place i leaving }) m'
          (ground (arith, e, h)))
        (move-Masked m i leaving m.locked none x (calls i m inside p (λ z. ground (arith, z))))
]

test_and_set-Masked :
    (i : ℕ) (m : Machine) → Masked m → m.place i ≡ spinning → Masked (test_and_set i m)
unfolding test_and_set
test_and_set-Masked i m x p = elim (Bool-cases m.locked) [
  | inl l ↦ rw l (record { masked = x.masked })
  | inr l ↦
      rw l (move-Masked m i taken true m.holder x (calls i m spinning p (λ z. ground (arith, z))))
]

Step-Masked : (m m' : Machine) → Step m m' → Masked m → Masked m'
unfolding set_holder unlock
Step-Masked _ _ (enters i m m' p e) x = enter-Masked i m m' x e
Step-Masked _ _ (tests i m p) x = test_and_set-Masked i m x p
Step-Masked _ _ (holds i m p) x =
    move-Masked m i inside m.locked (some i) x (calls i m taken p (λ z. ground (arith, z)))
Step-Masked _ _ (clears i m m' p e) x = clear_holder-Masked i m m' x p e
Step-Masked _ _ (unlocks i m p) x =
    move-Masked m i released false m.holder x (calls i m leaving p (λ z. ground (arith, z)))
Step-Masked _ _ (leaves i m m' p e) x = leave_lock-Masked i m m' x e

pub Reaches-Masked : (m m' : Machine) → Reaches m m' → Masked m → Masked m'
Reaches-Masked _ _ (here m) x = x
Reaches-Masked _ _ (after m m' m'' r s) x = Step-Masked m' m'' s (Reaches-Masked m m' r x)
