-- ===== src/Lock/Owner.antt =====
-- Who owns the lock of kernel/spinlock.c, and moves that keep it to one CPU.

use xv6_riscv_labs.Prelude.{
  subst, ℕ, ◌≡◌, ◌≢◌, refl, ap, sym, ◌∙◌, Bool, true, false, update, arith, Bool-cases, inl, inr,
  ℕ_discrete,
}
use xv6_riscv_labs.Lock.Defs.{
  Place, idle, spinning, taken, inside, leaving, released, Machine, is_cpu,
}

-- Has a CPU at this place won the swap, and not yet undone it.
abbrev pub owns : Place → Bool
owns taken = true
owns inside = true
owns leaving = true
owns _ = false

abbrev pub is_inside : Place → Bool
is_inside inside = true
is_inside _ = false

pub record Exclusive (m : Machine) : Type 0 where
  pub unlocked : m.locked ≡ false → (i : ℕ) → owns (m.place i) ≡ false
  pub one : (i j : ℕ) → owns (m.place i) ≡ true → owns (m.place j) ≡ true → i ≡ j
  pub holder : (i : ℕ) → is_cpu m.holder i ≡ is_inside (m.place i)

-- A move of CPU `i` that leaves the lock as it is.
module _ (m m' : Machine) (i : ℕ) (p : Place) (x : Exclusive m)
    (place : (j : ℕ) → m'.place j ≡ update m.place i p j) where
  pub place_self : m'.place i ≡ p
  place_self = place i ∙ ground arith

  pub place_other : (j : ℕ) → i ≢ j → m'.place j ≡ m.place j
  place_other j d = place j ∙ ground arith

  -- Ownership only goes.
  pub fewer-Exclusive :
      m'.locked ≡ m.locked
      → (owns p ≡ true → owns (m.place i) ≡ true)
      → ((j : ℕ) → is_cpu m'.holder j ≡ is_inside (m'.place j))
      → Exclusive m'
  fewer-Exclusive l o h = record {
    unlocked = λ e j. elim (Bool-cases (owns (m'.place j))) [
      | inr n ↦ n
      | inl y ↦ absurd (ground (arith, x.unlocked (sym l ∙ e) j, owned j y))
    ];
    one = λ a b oa ob. x.one a b (owned a oa) (owned b ob);
    holder = h;
  }
    where
      owned : (j : ℕ) → owns (m'.place j) ≡ true → owns (m.place j) ≡ true
      owned j e = elim (ℕ_discrete i j) [
        | yes same ↦
            subst (λ y. owns (m.place y) ≡ true) same
              (o (ap owns (sym place_self) ∙ ap (λ y. owns (m'.place y)) same ∙ e))
        | no d ↦ ap owns (sym (place_other j d)) ∙ e
      ]

  -- The holder stays, and `i` is inside as before.
  pub same_holder :
      m'.holder ≡ m.holder
      → is_inside p ≡ is_inside (m.place i)
      → (j : ℕ) → is_cpu m'.holder j ≡ is_inside (m'.place j)
  same_holder e s j = ap (λ h. is_cpu h j) e ∙ x.holder j ∙ elim (ℕ_discrete i j) [
    | yes same ↦
        subst (λ y. is_inside (m.place y) ≡ is_inside (m'.place y)) same
          (sym s ∙ ap is_inside (sym place_self))
    | no d ↦ ap is_inside (sym (place_other j d))
  ]

  -- No other CPU is inside while `i` owns the lock.
  pub others_outside : owns (m.place i) ≡ true → (j : ℕ) → i ≢ j → is_inside (m'.place j) ≡ false
  others_outside o j d =
      ap is_inside (place_other j d) ∙ elim (Bool-cases (is_inside (m.place j))) [
        | inr n ↦ n
        | inl y ↦ absurd (d (x.one i j o (inside_owns (m.place j) y)))
      ]
    where
      inside_owns : (q : Place) → is_inside q ≡ true → owns q ≡ true
      inside_owns idle e = absurd (ground (arith, e))
      inside_owns spinning e = absurd (ground (arith, e))
      inside_owns taken e = absurd (ground (arith, e))
      inside_owns inside e = refl
      inside_owns leaving e = absurd (ground (arith, e))
      inside_owns released e = absurd (ground (arith, e))
