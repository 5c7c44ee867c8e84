-- ===== src/Sleeplock/Guard.antt =====
-- A sleep lock of kernel/sleeplock.c guards: one process holds it, and none sleeps on a free lock.
use xv6_riscv_labs.Prelude.{
  ℕ, true, false, ◌≡◌, ◌≢◌, ◌↔◌, refl, sym, ◌∙◌, ap, arith, update, Bool-cases, ℕ_discrete, inl,
  inr, ◌⊎◌, update-at, update-other, ==-refl,
}
use xv6_riscv_labs.Sleeplock.Defs.{
  initsleeplock, Place, outside, testing, asleep, inside, State, acquiresleep, woken, releasesleep,
  holdingsleep,
}

-- The steps of the processes: only one that has the lock releases it.
pub data Step : State → State → Type 0 where
  calls : (p : ℕ) (s : State) → s.place p ≡ outside → Step s (acquiresleep p s)
  tests : (p : ℕ) (s : State) → s.place p ≡ testing → Step s (acquiresleep p s)
  stirs :
      (p : ℕ) (s : State)
      → s.place p ≡ asleep
      → Step s (record s { place = update s.place p testing })
  releases : (p : ℕ) (s : State) → s.place p ≡ inside → Step s (releasesleep p s)

pub data Reaches : State → State → Type 0 where
  here : (s : State) → Reaches s s
  after : (s s' s'' : State) → Reaches s s' → Step s' s'' → Reaches s s''

-- The pid of a held lock is that of the process that has it, and a process sleeps only while the
-- lock is held.
pub record IsGuarded (s : State) : Type 0 where
  pub holder : (p : ℕ) → s.place p ≡ inside → (s.lock.locked ≡ true) × (s.lock.pid ≡ p)
  pub held : s.lock.locked ≡ true → s.place s.lock.pid ≡ inside
  pub sleepers : (p : ℕ) → s.place p ≡ asleep → s.lock.locked ≡ true

-- Of a process that moves and of the others.
moved :
    (f : ℕ → Place) (p q : ℕ) (x y : Place)
    → update f p x q ≡ y
    → ((q ≡ p) × (x ≡ y)) ⊎ ((q ≢ p) × (f q ≡ y))
moved f p q x y e = elim (ℕ_discrete q p) [
  | yes h ↦ inl (h, sym (update-at f p x) ∙ ap (update f p x) (sym h) ∙ e)
  | no n ↦ inr (n, sym (update-other f p x q (λ h. n (sym h))) ∙ e)
]

woken_inside : (x : Place) → woken x ≡ inside → x ≡ inside
woken_inside x e = ground (arith, e)

woken_asleep : (x : Place) → woken x ≢ asleep
woken_asleep x e = ground (arith, e)

acquiresleep-IsGuarded :
    (p : ℕ) (s : State) → IsGuarded s → s.place p ≢ inside → IsGuarded (acquiresleep p s)
unfolding acquiresleep
acquiresleep-IsGuarded p s g n = elim (Bool-cases s.lock.locked) [
  | inl taken ↦ rw taken (record {
    holder = λ q h. elim (moved s.place p q asleep inside h) [
      | inl (same, e) ↦ ground (arith, e)
      | inr (other, e) ↦ (refl, (g.holder q e).1)
    ];
    held =
        λ h. update-other s.place p asleep s.lock.pid (λ e. n (rw e (g.held taken))) ∙ g.held taken;
    sleepers = λ q h. refl;
  })
  | inr free ↦ rw free (record {
    holder = λ q h. elim (moved s.place p q inside inside h) [
      | inl (same, e) ↦ (refl, sym same)
      | inr (other, e) ↦ ground (arith, (g.holder q e).0, free)
    ];
    held = λ h. update-at s.place p inside;
    sleepers = λ q h. refl;
  })
]

releasesleep-IsGuarded :
    (p : ℕ) (s : State) → IsGuarded s → s.place p ≡ inside → IsGuarded (releasesleep p s)
unfolding releasesleep
releasesleep-IsGuarded p s g e = record {
  holder = λ q h.
      elim (moved s.place p q outside inside (woken_inside (update s.place p outside q) h)) [
        | inl (same, e') ↦ ground (arith, e')
        | inr (other, e') ↦ absurd (other (sym (g.holder q e').1 ∙ (g.holder p e).1))
      ];
  held = λ h. ground (arith, h);
  sleepers = λ q h. absurd (woken_asleep (update s.place p outside q) h);
}

stir-IsGuarded :
    (p : ℕ) (s : State)
    → IsGuarded s
    → s.place p ≡ asleep
    → IsGuarded (record s { place = update s.place p testing })
stir-IsGuarded p s g a = record {
  holder = λ q h. elim (moved s.place p q testing inside h) [
    | inl (same, e) ↦ ground (arith, e)
    | inr (other, e) ↦ g.holder q e
  ];
  held = λ h.
      update-other s.place p testing s.lock.pid (λ e.
        let both : inside ≡ asleep = sym (g.held h) ∙ ap s.place (sym e) ∙ a in
        ground (arith, both))
      ∙ g.held h;
  sleepers = λ q h. elim (moved s.place p q testing asleep h) [
    | inl (same, e) ↦ ground (arith, e)
    | inr (other, e) ↦ g.sleepers q e
  ];
}

step-IsGuarded : (s s' : State) → IsGuarded s → Step s s' → IsGuarded s'
step-IsGuarded _ _ g (calls p s e) =
    acquiresleep-IsGuarded p s g
      (λ i. let both : outside ≡ inside = sym e ∙ i in ground (arith, both))
step-IsGuarded _ _ g (tests p s e) =
    acquiresleep-IsGuarded p s g
      (λ i. let both : testing ≡ inside = sym e ∙ i in ground (arith, both))
step-IsGuarded _ _ g (stirs p s e) = stir-IsGuarded p s g e
step-IsGuarded _ _ g (releases p s e) = releasesleep-IsGuarded p s g e

run-IsGuarded : (s s' : State) → IsGuarded s → Reaches s s' → IsGuarded s'
run-IsGuarded _ _ g (here s) = g
run-IsGuarded _ _ g (after s s' s'' r x) = step-IsGuarded s' s'' (run-IsGuarded s s' g r) x

start-IsGuarded :
    (s : State) → s.lock ≡ initsleeplock → ((p : ℕ) → s.place p ≡ outside) → IsGuarded s
start-IsGuarded s e out = record {
  holder = λ p h. let both : outside ≡ inside = sym (out p) ∙ h in ground (arith, both);
  held = λ h. let both : false ≡ true = sym (ap (λ l. l.locked) e) ∙ h in ground (arith, both);
  sleepers = λ p h. let both : outside ≡ asleep = sym (out p) ∙ h in ground (arith, both);
}

inside-holdingsleep :
    (p : ℕ) (s : State) → IsGuarded s → s.place p ≡ inside → holdingsleep p s.lock ≡ true
unfolding holdingsleep
inside-holdingsleep p s g h = rw ((g.holder p h).0, (g.holder p h).1, ==-refl p) refl

holdingsleep-inside :
    (p : ℕ) (s : State) → IsGuarded s → holdingsleep p s.lock ≡ true → s.place p ≡ inside
unfolding holdingsleep
holdingsleep-inside p s g h = elim (Bool-cases s.lock.locked) [
  | inr free ↦ ground (arith, h, free)
  | inl locked ↦ ap s.place {x = p} {y = s.lock.pid} (ground (arith, h, locked)) ∙ g.held locked
]

-- From a lock of `initsleeplock` and processes outside it, whatever calls acquiresleep, wakes up in
-- it or releases the lock that it has: a process has the lock exactly if `holdingsleep` says so of
-- it, at most one has it, and a process sleeps on the lock only while some process has it.
pub Reaches-IsGuarded :
    (s s' : State)
    → s.lock ≡ initsleeplock
    → ((p : ℕ) → s.place p ≡ outside)
    → Reaches s s'
    → ((p : ℕ) → (s'.place p ≡ inside) ↔ (holdingsleep p s'.lock ≡ true))
      × ((p q : ℕ) → s'.place p ≡ inside → s'.place q ≡ inside → p ≡ q)
      × ((p : ℕ) → s'.place p ≡ asleep → (q : ℕ) × (s'.place q ≡ inside))
Reaches-IsGuarded s s' e out r =
    let g = run-IsGuarded s s' (start-IsGuarded s e out) r in
    (
      λ p. (inside-holdingsleep p s' g, holdingsleep-inside p s' g),
      λ p q h k. sym (g.holder p h).1 ∙ (g.holder q k).1,
      λ p h. (s'.lock.pid, g.held (g.sleepers p h)),
    )
