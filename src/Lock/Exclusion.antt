-- ===== src/Lock/Exclusion.antt =====
-- acquire and release of kernel/spinlock.c: one CPU at a time, whatever the interleaving.
use mathlib.Core.Option.{some-injective}
use xv6_riscv_labs.Prelude.{
  subst, ℕ, ◌≡◌, refl, ap, sym, ◌∙◌, true, false, Option, none, some, update, arith, Bool-cases,
  inl, inr, ℕ_discrete,
}
use xv6_riscv_labs.Lock.Defs.{
  Cpu, push_off, pop_off, idle, spinning, taken, inside, leaving, released, Machine, holding,
  is_cpu, enter, test_and_set, set_holder, clear_holder, unlock, leave_lock,
}
use xv6_riscv_labs.Lock.Steps.{
  Step, enters, tests, holds, clears, unlocks, leaves, Reaches, here, after,
}
use xv6_riscv_labs.Lock.Masked.{Masked, leave_lock_succeeds, Reaches-Masked}
use xv6_riscv_labs.Lock.Owner.{
  owns, is_inside, Exclusive, place_self, place_other, fewer-Exclusive, same_holder, others_outside,
}

enter-Exclusive :
    (i : ℕ) (m m' : Machine) → Exclusive m → m.place i ≡ idle → enter i m ≡ some m' → Exclusive m'
unfolding enter
enter-Exclusive i m m' x at_place e = elim (Bool-cases (holding i m)) [
  | inl h ↦ absurd (ground (arith, e, h))
  | inr h ↦ subst Exclusive (some-injective next m' (ground (arith, e, h))) (
      fewer-Exclusive m next i spinning x (λ j. refl) refl (λ o. absurd (ground (arith, o)))
        (same_holder m next i spinning x (λ j. refl) refl (ap is_inside (sym at_place))))
]
  where
    next : Machine
    next = record m {
      cpus = update m.cpus i (push_off (m.cpus i));
      place = update m.place i spinning;
    }

clear_holder-Exclusive :
    (i : ℕ) (m m' : Machine)
    → Exclusive m
    → m.place i ≡ inside
    → clear_holder i m ≡ some m'
    → Exclusive m'
unfolding clear_holder
clear_holder-Exclusive i m m' x at_place e = elim (Bool-cases (holding i m)) [
  | inr h ↦ absurd (ground (arith, e, h))
  | inl h ↦
      subst Exclusive (some-injective next m' (ground (arith, e, h)))
        (fewer-Exclusive m next i leaving x (λ j. refl) refl (λ o. ap owns at_place) nobody)
]
  where
    next : Machine
    next = record m { holder = none; place = update m.place i leaving }

    nobody : (j : ℕ) → is_cpu none j ≡ is_inside (next.place j)
    nobody j = elim (ℕ_discrete i j) [
      | yes same ↦
          subst (λ y. false ≡ is_inside (next.place y)) same
            (ap is_inside (sym (place_self m next i leaving x (λ j. refl))))
      | no d ↦ sym (others_outside m next i leaving x (λ j. refl) (ap owns at_place) j d)
    ]

set_holder-Exclusive :
    (i : ℕ) (m : Machine) → Exclusive m → m.place i ≡ taken → Exclusive (set_holder i m)
unfolding set_holder
set_holder-Exclusive i m x at_place =
    fewer-Exclusive m next i inside x (λ j. refl) refl (λ o. ap owns at_place) only_i
  where
    next : Machine
    next = record m { holder = some i; place = update m.place i inside }

    only_i : (j : ℕ) → is_cpu (some i) j ≡ is_inside (next.place j)
    only_i j = elim (ℕ_discrete i j) [
      | yes same ↦
          subst (λ y. is_cpu (some i) y ≡ is_inside (next.place y)) same
            (ground arith ∙ ap is_inside (sym (place_self m next i inside x (λ j. refl))))
      | no d ↦
          ground arith ∙ sym (others_outside m next i inside x (λ j. refl) (ap owns at_place) j d)
    ]

leave_lock-Exclusive :
    (i : ℕ) (m m' : Machine)
    → Exclusive m
    → m.place i ≡ released
    → leave_lock i m ≡ some m'
    → Exclusive m'
unfolding leave_lock
leave_lock-Exclusive i m m' x at_place e = go (pop_off (m.cpus i)) e
  where
    go :
        (r : Option Cpu)
        → elim r as (λ _. Option Machine) [
          | none ↦ none
          | some c ↦ some (record m { cpus = update m.cpus i c; place = update m.place i idle })
        ]
          ≡ some m'
        → Exclusive m'
    go none f = absurd (ground (arith, f))
    go (some c) f =
        let next = record m { cpus = update m.cpus i c; place = update m.place i idle } in
        subst Exclusive (some-injective next m' f) (
          fewer-Exclusive m next i idle x (λ j. refl) refl (λ o. absurd (ground (arith, o)))
            (same_holder m next i idle x (λ j. refl) refl (ap is_inside (sym at_place))))

test_and_set-Exclusive :
    (i : ℕ) (m : Machine) → Exclusive m → m.place i ≡ spinning → Exclusive (test_and_set i m)
unfolding test_and_set
test_and_set-Exclusive i m x at_place = elim (Bool-cases m.locked) [
  | inl l ↦
      rw l (record { unlocked = λ e. absurd (ground (arith, e)); one = x.one; holder = x.holder })
  | inr l ↦ rw l (record {
    unlocked = λ e. absurd (ground (arith, e));
    one = λ a b oa ob. sym (only_i l a oa) ∙ only_i l b ob;
    holder = same_holder m next i taken x (λ j. refl) refl (ap is_inside (sym at_place));
  })
]
  where
    next : Machine
    next = record m { locked = true; place = update m.place i taken }

    only_i : m.locked ≡ false → (a : ℕ) → owns (next.place a) ≡ true → i ≡ a
    only_i l a o = elim (ℕ_discrete i a) [
      | yes same ↦ same
      | no d ↦ absurd (
          ground (
            arith,
            x.unlocked l a,
            ap owns (sym (place_other m next i taken x (λ j. refl) a d)) ∙ o,
          ))
    ]

unlock-Exclusive :
    (i : ℕ) (m : Machine) → Exclusive m → m.place i ≡ leaving → Exclusive (unlock i m)
unfolding unlock
unlock-Exclusive i m x at_place = record {
  unlocked = λ e. nobody;
  one = λ a b oa ob. absurd (ground (arith, nobody a, oa));
  holder = same_holder m next i released x (λ j. refl) refl (ap is_inside (sym at_place));
}
  where
    next : Machine
    next = record m { locked = false; place = update m.place i released }

    nobody : (a : ℕ) → owns (next.place a) ≡ false
    nobody a = elim (ℕ_discrete i a) [
      | yes same ↦
          subst (λ y. owns (next.place y) ≡ false) same
            (ap owns (place_self m next i released x (λ j. refl)))
      | no d ↦ elim (Bool-cases (owns (next.place a))) [
        | inr n ↦ n
        | inl y ↦ absurd (
            d (
              x.one i a (ap owns at_place)
                (ap owns (sym (place_other m next i released x (λ j. refl) a d)) ∙ y)))
      ]
    ]

Step-Exclusive : (m m' : Machine) → Step m m' → Exclusive m → Exclusive m'
Step-Exclusive _ _ (enters i m m' p e) x = enter-Exclusive i m m' x p e
Step-Exclusive _ _ (tests i m p) x = test_and_set-Exclusive i m x p
Step-Exclusive _ _ (holds i m p) x = set_holder-Exclusive i m x p
Step-Exclusive _ _ (clears i m m' p e) x = clear_holder-Exclusive i m m' x p e
Step-Exclusive _ _ (unlocks i m p) x = unlock-Exclusive i m x p
Step-Exclusive _ _ (leaves i m m' p e) x = leave_lock-Exclusive i m m' x p e

pub Reaches-Exclusive : (m m' : Machine) → Reaches m m' → Exclusive m → Exclusive m'
Reaches-Exclusive _ _ (here m) x = x
Reaches-Exclusive _ _ (after m m' m'' r s) x = Step-Exclusive m' m'' s (Reaches-Exclusive m m' r x)

-- A lock that nobody uses.
pub record IsFree (m : Machine) : Type 0 where
  pub unlocked : m.locked ≡ false
  pub no_holder : m.holder ≡ none
  pub all_idle : (i : ℕ) → m.place i ≡ idle

free-Exclusive : (m : Machine) → IsFree m → Exclusive m
free-Exclusive m f = record {
  unlocked = λ e i. ap owns (f.all_idle i);
  one = λ a b oa ob. absurd (ground (arith, ap owns (f.all_idle a), oa));
  holder = λ i. ap (λ h. is_cpu h i) f.no_holder ∙ ap is_inside (sym (f.all_idle i));
}

-- What holds of a machine, at every CPU: two are never inside, and no test of `holding` and no
-- `pop_off` panics.
pub record Excludes (m : Machine) : Type 0 where
  pub one_inside : (i j : ℕ) → m.place i ≡ inside → m.place j ≡ inside → i ≡ j
  pub no_panic_enter : (i : ℕ) → m.place i ≡ idle → (m' : Machine) × (enter i m ≡ some m')
  pub no_panic_clear : (i : ℕ) → m.place i ≡ inside → (m' : Machine) × (clear_holder i m ≡ some m')
  pub no_panic_leave : (i : ℕ) → m.place i ≡ released → (m' : Machine) × (leave_lock i m ≡ some m')

enter_succeeds :
    (i : ℕ) (m : Machine) → holding i m ≡ false → (m' : Machine) × (enter i m ≡ some m')
unfolding enter
enter_succeeds i m h = (
  record m { cpus = update m.cpus i (push_off (m.cpus i)); place = update m.place i spinning },
  rw h refl,
)

clear_holder_succeeds :
    (i : ℕ) (m : Machine) → holding i m ≡ true → (m' : Machine) × (clear_holder i m ≡ some m')
unfolding clear_holder
clear_holder_succeeds i m h =
    (record m { holder = none; place = update m.place i leaving }, rw h refl)

Exclusive-Excludes : (m : Machine) → Exclusive m → Masked m → Excludes m
Exclusive-Excludes m x k = record {
  one_inside = λ i j p q. x.one i j (ap owns p) (ap owns q);
  no_panic_enter = λ i p. enter_succeeds i m (not_holding i (x.holder i ∙ ap is_inside p));
  no_panic_clear =
      λ i p. clear_holder_succeeds i m (is_holding i (x.holder i ∙ ap is_inside p) (ap owns p));
  no_panic_leave = λ i p. leave_lock_succeeds i m (k.masked i (λ z. ground (arith, sym p ∙ z)));
}
  where
    not_holding : (i : ℕ) → is_cpu m.holder i ≡ false → holding i m ≡ false
    not_holding i e = ground (arith, e)

    is_holding : (i : ℕ) → is_cpu m.holder i ≡ true → owns (m.place i) ≡ true → holding i m ≡ true
    is_holding i e o = elim (Bool-cases m.locked) [
      | inl l ↦ rw (l, e) refl
      | inr l ↦ absurd (ground (arith, x.unlocked l i, o))
    ]

-- However the steps of the CPUs interleave from a free lock on, two CPUs are never between
-- `acquire` and `release` at once, `acquire` does not panic for a CPU that does not hold the lock,
-- and `release` does not for the one that does, neither in its test nor in `pop_off`.
pub Reaches-Excludes : (m m' : Machine) → IsFree m → Reaches m m' → Excludes m'
Reaches-Excludes m m' f r =
    Exclusive-Excludes m' (Reaches-Exclusive m m' r (free-Exclusive m f))
      (Reaches-Masked m m' r (record { masked = λ i n. absurd (n (f.all_idle i)) }))
