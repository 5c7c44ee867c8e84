-- ===== src/Proc/Slot.antt =====
-- `allocproc` of kernel/proc.c: the slot that it takes, and the family of processes.
use xv6_riscv_labs.Prelude.{
  ==-refl, ==-false, subst, ℕ, zero, suc, ◌+◌, ◌<◌, ◌≤◌, ◌≡◌, ◌≢◌, refl, ap, sym, ◌∙◌, true, false,
  Option, none, some, update, arith, Bool-cases, ◌⊎◌, inl, inr, ℕ_discrete,
}
use xv6_riscv_labs.Proc.Defs.{
  used, Proc, Kernel, is_zombie, is_unused, nproc, freeproc, cleared, allocproc, take_slot,
  find_unused,
}
use xv6_riscv_labs.Proc.Family.{IsFamily, is_alive}

pub find_unused_lem :
    (n i : ℕ) (t : ℕ → Proc)
    → ((find_unused n i t ≡ none) × ((q : ℕ) → i ≤ q → q < i + n → is_unused (t q).state ≡ false))
      ⊎ ((q : ℕ) × (find_unused n i t ≡ some q) × (q < i + n) × (is_unused (t q).state ≡ true))
unfolding find_unused
find_unused_lem zero i t = inl (refl, λ q low high. absurd (omega arith))
find_unused_lem (suc n) i t = elim (Bool-cases (is_unused (t i).state)) [
  | inl e ↦ inr (i, rw (e, find_unused) refl, omega arith, e)
  | inr e ↦ elim (find_unused_lem n (i + 1) t) [
    | inl (none_left, h) ↦ inl (
      rw (e, find_unused) none_left,
      λ q low high. elim (ℕ_discrete i q) [
        | yes same ↦ subst (λ x. is_unused (t x).state ≡ false) same e
        | no d ↦ h q (omega arith) (omega arith)
      ],
    )
    | inr (q, found, high, u) ↦ inr (q, rw (e, find_unused) found, omega arith, u)
  ]
]

-- An unused slot is nobody's parent.
pub unused-other :
    (t : ℕ → Proc) (q j : ℕ) → is_unused (t q).state ≡ true → is_alive (t j).state ≡ true → q ≢ j
unused-other t q j u a e = ground (arith, subst (λ x. is_alive (t x).state ≡ true) (sym e) a, u)

-- A new content for an unused slot.
module _ (init q : ℕ) (t : ℕ → Proc) (p : Proc) (f : IsFamily init t)
    (u : is_unused (t q).state ≡ true) (live : is_zombie p.state ≡ false)
    (adult : (j : ℕ) → p.parent ≡ some j → (j < nproc) × (is_alive (t j).state ≡ true))
    (child : is_unused p.state ≡ false → (j : ℕ) × (p.parent ≡ some j)) where
  abbrev filled : ℕ → Proc
  filled = update t q p

  filled-other : (j : ℕ) → q ≢ j → filled j ≡ t j
  filled-other j d = ground arith

  filled_self : (x : ℕ) → q ≡ x → filled x ≡ p
  filled_self x e = subst (λ y. filled y ≡ p) e (rw (==-refl q) refl)

  filled-parents :
      (x j : ℕ)
      → x < nproc
      → (filled x).parent ≡ some j
      → (j < nproc) × (is_alive (t j).state ≡ true)
  filled-parents x j h e = elim (ℕ_discrete q x) [
    | yes same ↦ adult j (ap (λ y. y.parent) (sym (filled_self x same)) ∙ e)
    | no d ↦ f.parents x j h (ap (λ y. y.parent) (sym (filled-other x d)) ∙ e)
  ]

  pub filled-IsFamily : IsFamily init filled
  filled-IsFamily = record {
    init_small = f.init_small;
    init_alive = rw (filled-other init (unused-other t q init u f.init_alive)) f.init_alive;
    parents = λ x j h e.
        let (small, a) = filled-parents x j h e in
        (small, rw (filled-other j (unused-other t q j u a)) a);
    raised = λ x h d busy. elim (ℕ_discrete q x) [
      | yes same ↦
          let (j, e) = child (ap (λ y. is_unused y.state) (sym (filled_self x same)) ∙ busy) in
          (j, ap (λ y. y.parent) (filled_self x same) ∙ e)
      | no d' ↦
          let (j, e) =
            f.raised x h d (ap (λ y. is_unused y.state) (sym (filled-other x d')) ∙ busy) in
          (j, ap (λ y. y.parent) (filled-other x d') ∙ e)
    ];
    noticed = λ x j h e z.
        let (small, a) = filled-parents x j h e in
        rw (filled-other j (unused-other t q j u a)) (elim (ℕ_discrete q x) [
          | yes same ↦
              absurd
                (ground (arith, live, ap (λ y. is_zombie y.state) (sym (filled_self x same)) ∙ z))
          | no d ↦
              f.noticed x j h (ap (λ y. y.parent) (sym (filled-other x d)) ∙ e)
                (ap (λ y. is_zombie y.state) (sym (filled-other x d)) ∙ z)
        ]);
  }

-- What is left of a slot that `allocproc` or `fork` gives back.
abbrev pub given_up : ℕ → (ℕ → Proc) → ℕ → Proc
given_up q t = update t q (cleared (t q))

-- The slot that `allocproc` hands out.
abbrev pub new_proc : ℕ → ℕ → ℕ → Proc → Proc
new_proc pid frame pt p = record p {
  pid = pid;
  state = used;
  trapframe = some frame;
  pagetable = some pt;
}

-- The table after a call that takes no process: as before, or with an unused slot cleared.
abbrev pub SameOrGivenUp : (ℕ → Proc) → (ℕ → Proc) → Type 0
SameOrGivenUp t t' =
    (t' ≡ t)
    ⊎ ((q : ℕ) × (q < nproc) × (is_unused (t q).state ≡ true) × ((j : ℕ) → t' j ≡ given_up q t j))

abbrev pub Allocated : Kernel → Option ℕ × Kernel → Type 0
Allocated k (none, k') = (k'.initproc ≡ k.initproc) × SameOrGivenUp k.proc k'.proc
Allocated k (some q, k') =
    (q < nproc)
    × (is_unused (k.proc q).state ≡ true)
    × (k'.initproc ≡ k.initproc)
    × ((frame : ℕ) × (pt : ℕ) × ((j : ℕ)
          → k'.proc j ≡ update k.proc q (new_proc k.next_pid frame pt (k.proc q)) j))

pub take_slot-Allocated :
    (frame pt : Option ℕ) (k : Kernel) (q : ℕ)
    → q < nproc
    → is_unused (k.proc q).state ≡ true
    → Allocated k (take_slot frame pt k (some q))
unfolding take_slot freeproc
take_slot-Allocated none pt k q h u = (refl, inr (q, h, u, same))
  where
    same : (j : ℕ) → (take_slot none pt k (some q)).1.proc j ≡ given_up q k.proc j
    same j = elim (ℕ_discrete q j) [
      | yes e ↦
          subst (λ x. (take_slot none pt k (some q)).1.proc x ≡ given_up q k.proc x) e
            (rw (==-refl q) refl)
      | no d ↦ rw (==-false q j d) refl
    ]
take_slot-Allocated (some f) none k q h u = (refl, inr (q, h, u, same))
  where
    same : (j : ℕ) → (take_slot (some f) none k (some q)).1.proc j ≡ given_up q k.proc j
    same j = elim (ℕ_discrete q j) [
      | yes e ↦
          subst (λ x. (take_slot (some f) none k (some q)).1.proc x ≡ given_up q k.proc x) e
            (rw (==-refl q) refl)
      | no d ↦ rw (==-false q j d) refl
    ]
take_slot-Allocated (some f) (some root) k q h u = (h, u, refl, (f, root, same))
  where
    same :
        (j : ℕ)
        → (take_slot (some f) (some root) k (some q)).1.proc j
          ≡ update k.proc q (new_proc k.next_pid f root (k.proc q)) j
    same j = elim (ℕ_discrete q j) [
      | yes e ↦
          subst
            (λ x.
              (take_slot (some f) (some root) k (some q)).1.proc x
              ≡ update k.proc q (new_proc k.next_pid f root (k.proc q)) x)
            e (rw (==-refl q) refl)
      | no d ↦ rw (==-false q j d) refl
    ]

pub allocproc-Allocated : (frame pt : Option ℕ) (k : Kernel) → Allocated k (allocproc frame pt k)
unfolding take_slot
allocproc-Allocated frame pt k = elim (find_unused_lem nproc 0 k.proc) [
  | inl (e, h) ↦ subst (λ x. Allocated k (take_slot frame pt k x)) (sym e) (refl, inl refl)
  | inr (q, e, high, u) ↦
      subst (λ x. Allocated k (take_slot frame pt k x)) (sym e)
        (take_slot-Allocated frame pt k q (omega arith) u)
]
