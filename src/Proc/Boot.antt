-- ===== src/Proc/Boot.antt =====
-- `userinit` of kernel/proc.c sets up a family of one process.

use xv6_riscv_labs.Prelude.{
  update-at, update-other, subst, ℕ, ◌<◌, ◌≡◌, ◌≢◌, refl, ap, sym, ◌∙◌, true, Option, none, some,
  update, arith, inl, inr, ℕ_discrete,
}
use xv6_riscv_labs.Proc.Defs.{runnable, Proc, Kernel, is_unused, nproc, take_slot}
use xv6_riscv_labs.Proc.Calls.{userinit, userinit_from}
use xv6_riscv_labs.Proc.Family.{IsFamily, is_alive}
use xv6_riscv_labs.Proc.Fork.{update-over}
use xv6_riscv_labs.Proc.Slot.{new_proc, Allocated, find_unused_lem, take_slot-Allocated}

-- The table at boot.
pub record AtBoot (t : ℕ → Proc) : Type 0 where
  pub all_unused : (q : ℕ) → is_unused (t q).state ≡ true
  pub no_parent : (q : ℕ) → (t q).parent ≡ none

-- One process in use, without a parent, is a family.
pub one-IsFamily :
    (init : ℕ) (t : ℕ → Proc)
    → init < nproc
    → is_alive (t init).state ≡ true
    → ((q : ℕ) → (t q).parent ≡ none)
    → ((q : ℕ) → init ≢ q → is_unused (t q).state ≡ true)
    → IsFamily init t
one-IsFamily init t small a orphan others = record {
  init_small = small;
  init_alive = a;
  parents = λ q j h e. absurd (ground (arith, orphan q, e));
  raised = λ q h d u. absurd (ground (arith, others q (λ e. d (sym e)), u));
  noticed = λ q j h e z. absurd (ground (arith, orphan q, e));
}

module _ (frame pt : ℕ) (root : Option ℕ) (k : Kernel) (b : AtBoot k.proc) where
  module _ (q : ℕ) (k1 : Kernel) (al : Allocated k (some q, k1)) where
    abbrev first : Proc
    first = record (k1.proc q) { sz = 4096; cwd = root; state = runnable }

    other : (x : ℕ) → q ≢ x → update k1.proc q first x ≡ k.proc x
    other x d =
        let (h, u, init, (f, r, e)) = al in
        update-over k.proc k1.proc q (new_proc k.next_pid f r (k.proc q)) first e x
        ∙ update-other k.proc q first x d

    orphan : (x : ℕ) → (update k1.proc q first x).parent ≡ none
    orphan x = elim (ℕ_discrete q x) [
      | yes same ↦
          let (h, u, init, (f, r, e)) = al in
          subst (λ y. (update k1.proc q first y).parent ≡ none) same
            (ap (λ p. p.parent) (update-at k1.proc q first)
              ∙ ap (λ p. p.parent) (e q ∙ update-at k.proc q (new_proc k.next_pid f r (k.proc q)))
              ∙ b.no_parent q)
      | no d ↦ ap (λ p. p.parent) (other x d) ∙ b.no_parent x
    ]

    booted :
        (k' : Kernel) × (userinit_from root (some q, k1) ≡ some k') × IsFamily k'.initproc k'.proc
    unfolding userinit_from
    booted = (
      record k1 { initproc = q; proc = update k1.proc q first },
      refl,
      one-IsFamily q (update k1.proc q first) al.0
          (ap (λ p. is_alive p.state) (update-at k1.proc q first)) orphan
          (λ x d. ap (λ p. is_unused p.state) (other x d) ∙ b.all_unused x),
    )

  -- With a page and a page table, `userinit` on a table without processes makes one process, and
  -- the family is well formed.
  pub userinit_lem :
      (k' : Kernel) × (userinit (some frame) (some pt) root k ≡ some k')
      × IsFamily k'.initproc k'.proc
  unfolding take_slot
  userinit_lem = elim (find_unused_lem nproc 0 k.proc) [
    | inl (e, h) ↦ absurd (ground (arith, h 0, b.all_unused 0))
    | inr (q, e, high, u) ↦
        subst
          (λ s.
            (k' : Kernel) × (userinit_from root (take_slot (some frame) (some pt) k s) ≡ some k')
            × IsFamily k'.initproc k'.proc)
          (sym e) (booted q _ (take_slot-Allocated (some frame) (some pt) k q (omega arith) u))
  ]
