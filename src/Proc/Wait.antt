-- ===== src/Proc/Wait.antt =====
-- `wait` of kernel/proc.c: what it returns, and that it keeps the family of processes.
use xv6_riscv_labs.Prelude.{
  ==-refl, subst, ℕ, ◌<◌, ◌≡◌, ◌≢◌, refl, ap, sym, ◌∙◌, Bool, true, false, Option, none, some,
  update, arith, Bool-cases, ◌⊎◌, inl, inr, ℕ_discrete,
}
use xv6_riscv_labs.Proc.Defs.{
  sleeping, at_proc, Proc, Kernel, is_zombie, is_unused, points_to, nproc, freeproc, cleared,
}
use xv6_riscv_labs.Proc.Calls.{
  Scan, exited, none_exited, scan_children, after_scan, wait, sleep, Outcome, returned, failed,
  asleep,
}
use xv6_riscv_labs.Proc.Family.{IsFamily, is_alive}
use xv6_riscv_labs.Proc.Scan.{NoneExited, HasKids, Scanned, scan_children_lem}

-- A zombie is nobody's parent.
zombie-other :
    (init : ℕ) (t : ℕ → Proc) (q j : ℕ)
    → is_zombie (t q).state ≡ true
    → is_alive (t j).state ≡ true
    → q ≢ j
zombie-other init t q j z a e =
    ground (arith, subst (λ x. is_alive (t x).state ≡ true) (sym e) a, z)

module _ (init q : ℕ) (t : ℕ → Proc) (f : IsFamily init t) (z : is_zombie (t q).state ≡ true) where
  abbrev reaped : ℕ → Proc
  reaped = update t q (cleared (t q))

  reaped-other : (j : ℕ) → q ≢ j → reaped j ≡ t j
  reaped-other j d = ground arith

  reaped-used : (j : ℕ) → is_unused (reaped j).state ≡ false → q ≢ j
  reaped-used j u e = ground (arith, subst (λ x. is_unused (reaped x).state ≡ false) (sym e) u)

  reaped-parent : (x j : ℕ) → (reaped x).parent ≡ some j → (q ≢ x) × ((t x).parent ≡ some j)
  reaped-parent x j e = elim (ℕ_discrete q x) [
    | yes same ↦ absurd (ground (arith, subst (λ y. (reaped y).parent ≡ some j) (sym same) e))
    | no d ↦ (d, ap (λ p. p.parent) (sym (reaped-other x d)) ∙ e)
  ]

  pub reaped-IsFamily : IsFamily init reaped
  reaped-IsFamily = record {
    init_small = f.init_small;
    init_alive = rw (reaped-other init (zombie-other init t q init z f.init_alive)) f.init_alive;
    parents = λ x j h e.
        let (d, e') = reaped-parent x j e in
        let (small, a) = f.parents x j h e' in
        (small, rw (reaped-other j (zombie-other init t q j z a)) a);
    raised = λ x h d u.
        let d' = reaped-used x u in
        let (j, e) = f.raised x h d (ap (λ p. is_unused p.state) (sym (reaped-other x d')) ∙ u) in
        (j, ap (λ p. p.parent) (reaped-other x d') ∙ e);
    noticed = λ x j h e dead.
        let (d, e') = reaped-parent x j e in
        let (small, a) = f.parents x j h e' in
        rw (reaped-other j (zombie-other init t q j z a))
          (f.noticed x j h e' (ap (λ p. is_zombie p.state) (sym (reaped-other x d)) ∙ dead));
  }

some-points_to : (p : Option ℕ) (j : ℕ) → p ≡ some j → points_to p j ≡ true
some-points_to none j e = absurd (ground (arith, e))
some-points_to (some a) j e = ground (arith, e)

module _ (init me : ℕ) (t : ℕ → Proc) (f : IsFamily init t) (a : is_alive (t me).state ≡ true)
    (without : NoneExited nproc 0 me t) where
  abbrev resting : ℕ → Proc
  resting = update t me (record (t me) { chan = at_proc me; state = sleeping })

  resting-other : (j : ℕ) → me ≢ j → resting j ≡ t j
  resting-other j d = ground arith

  resting-same :
      (j : ℕ)
      → ((resting j).parent ≡ (t j).parent)
        × (is_unused (resting j).state ≡ is_unused (t j).state)
        × (is_zombie (resting j).state ≡ is_zombie (t j).state)
  resting-same j = elim (ℕ_discrete me j) [
    | yes e ↦
        subst
          (λ x.
            ((resting x).parent ≡ (t x).parent)
            × (is_unused (resting x).state ≡ is_unused (t x).state)
            × (is_zombie (resting x).state ≡ is_zombie (t x).state))
          e (rw (==-refl me) (refl, ground (arith, a), ground (arith, a)))
    | no d ↦ rw (resting-other j d) (refl, refl, refl)
  ]

  pub resting-IsFamily : IsFamily init resting
  resting-IsFamily = record {
    init_small = f.init_small;
    init_alive = rw ((resting-same init).1, (resting-same init).2) f.init_alive;
    parents = λ q j h e.
        let (small, alive) = f.parents q j h (sym (resting-same q).0 ∙ e) in
        (small, rw ((resting-same j).1, (resting-same j).2) alive);
    raised = λ q h d u.
        let (j, e) = f.raised q h d (sym (resting-same q).1 ∙ u) in (j, (resting-same q).0 ∙ e);
    noticed = λ q j h e z.
        let e' = sym (resting-same q).0 ∙ e in
        let z' = sym (resting-same q).2 ∙ z in
        elim (ℕ_discrete me j) [
          | yes same ↦
              let child =
                subst (λ x. points_to (t q).parent x ≡ true) (sym same)
                  (some-points_to (t q).parent j e') in
              absurd (ground (arith, without q (omega arith) (omega arith) child, z'))
          | no d ↦ rw (resting-other j d) (f.noticed q j h e' z')
        ];
  }

-- What a round of `wait` by `me` may do.
abbrev pub Waited : ℕ → Bool → Kernel → Outcome × Kernel → Type 0
Waited me fault k (o, k') =
    ((q : ℕ) × (q < nproc)
      × (points_to (k.proc q).parent me ≡ true)
      × (is_zombie (k.proc q).state ≡ true)
      × (((fault ≡ false) × (o ≡ returned (k.proc q).pid) × (k' ≡ freeproc q k))
          ⊎ ((fault ≡ true) × (o ≡ failed) × (k' ≡ k))))
    ⊎ (NoneExited nproc 0 me k.proc
        × (((¬ HasKids nproc 0 me k.proc ⊎ ((k.proc me).killed ≡ true)) × (o ≡ failed) × (k' ≡ k))
            ⊎ (HasKids nproc 0 me k.proc
                × ((k.proc me).killed ≡ false)
                × (o ≡ asleep)
                × (k' ≡ sleep me (at_proc me) k))))

after_scan-Waited :
    (me : ℕ) (fault : Bool) (k : Kernel) (s : Scan)
    → Scanned nproc 0 me false k.proc s
    → Waited me fault k (after_scan me fault k s)
unfolding after_scan
after_scan-Waited me true k (exited q) h =
    inl (q, omega (arith, h.high), h.child, h.dead, inr (refl, refl, refl))
after_scan-Waited me false k (exited q) h =
    inl (q, omega (arith, h.high), h.child, h.dead, inl (refl, refl, refl))
after_scan-Waited me fault k (none_exited false) (h, kids) = inr (h, inl (inl no_kids, refl, refl))
  where
    no_kids : ¬ HasKids nproc 0 me k.proc
    no_kids = elim kids [ inl (e, _) ↦ absurd (ground (arith, e)) | inr (_, _, w) ↦ w ]
after_scan-Waited me fault k (none_exited true) (h, kids) = elim (Bool-cases (k.proc me).killed) [
  | inl e ↦ rw e (inr (h, inl (inr refl, refl, refl)))
  | inr e ↦ rw e (inr (h, inr (has_kids, refl, refl, refl)))
]
  where
    has_kids : HasKids nproc 0 me k.proc
    has_kids = elim kids [
      | inl (_, inl e) ↦ absurd (ground (arith, e))
      | inl (_, inr some_kid) ↦ some_kid
      | inr (e, _, _) ↦ absurd (ground (arith, e))
    ]

pub wait_lem : (me : ℕ) (fault : Bool) (k : Kernel) → Waited me fault k (wait me fault k)
wait_lem me fault k =
    after_scan-Waited me fault k (scan_children nproc 0 me false k.proc)
      (scan_children_lem nproc 0 me false k.proc)

Waited-IsFamily :
    (me : ℕ) (fault : Bool) (k : Kernel) (r : Outcome × Kernel)
    → IsFamily k.initproc k.proc
    → is_alive (k.proc me).state ≡ true
    → Waited me fault k r
    → IsFamily r.1.initproc r.1.proc
unfolding freeproc sleep
Waited-IsFamily me fault k (o, k') f a w = elim w [
  | inl (q, small, child, dead, inl (e, eo, ek)) ↦
      subst (λ x. IsFamily x.initproc x.proc) (sym ek) (reaped-IsFamily k.initproc q k.proc f dead)
  | inl (q, small, child, dead, inr (e, eo, ek)) ↦
      subst (λ x. IsFamily x.initproc x.proc) (sym ek) f
  | inr (h, inl (why, eo, ek)) ↦ subst (λ x. IsFamily x.initproc x.proc) (sym ek) f
  | inr (h, inr (kids, e, eo, ek)) ↦
      subst (λ x. IsFamily x.initproc x.proc) (sym ek) (resting-IsFamily k.initproc me k.proc f a h)
]

-- A round of `wait` by a process that is alive keeps the family well formed.
pub wait-IsFamily :
    (me : ℕ) (fault : Bool) (k : Kernel)
    → IsFamily k.initproc k.proc
    → is_alive (k.proc me).state ≡ true
    → IsFamily (wait me fault k).1.initproc (wait me fault k).1.proc
wait-IsFamily me fault k f a =
    Waited-IsFamily me fault k (wait me fault k) f a (wait_lem me fault k)
