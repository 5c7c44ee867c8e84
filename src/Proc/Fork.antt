-- ===== src/Proc/Fork.antt =====
-- `fork` of kernel/proc.c: the child, or what a failure leaves.
use mathlib.Core.Option.{some-injective}
use xv6_riscv_labs.Prelude.{
  update-at, update-other, ==-false, subst, ℕ, ◌<◌, ◌≡◌, ◌≢◌, refl, ap, sym, ◌∙◌, Bool, true, false,
  Option, none, some, update, arith, ◌⊎◌, inl, inr, ℕ_discrete,
}
use xv6_riscv_labs.File.{Ftable}
use xv6_riscv_labs.Proc.Defs.{
  runnable, Proc, Kernel, is_unused, nproc, freeproc, cleared, allocproc,
}
use xv6_riscv_labs.Proc.Calls.{
  Outcome, returned, failed, start_child, fork_into, fork, dup_files, nofile,
}
use xv6_riscv_labs.Proc.Family.{IsFamily, is_alive, Calm, Calm-IsFamily, Calm-refl}
use xv6_riscv_labs.Proc.Exit.{map-some}
use xv6_riscv_labs.Proc.Slot.{
  unused-other, filled-IsFamily, given_up, new_proc, SameOrGivenUp, Allocated, allocproc-Allocated,
}

same-IsFamily :
    (init : ℕ) (t t' : ℕ → Proc) → ((j : ℕ) → t' j ≡ t j) → IsFamily init t → IsFamily init t'
same-IsFamily init t t' e f =
    Calm-IsFamily init t t' (λ j. subst (λ p. Calm j (t j) p) (sym (e j)) (Calm-refl j (t j))) f

SameOrGivenUp-IsFamily :
    (init : ℕ) (t t' : ℕ → Proc) → SameOrGivenUp t t' → IsFamily init t → IsFamily init t'
SameOrGivenUp-IsFamily init t t' (inl e) f = subst (IsFamily init) (sym e) f
SameOrGivenUp-IsFamily init t t' (inr (q, h, u, e)) f = same-IsFamily init (given_up q t) t' e (
    filled-IsFamily init q t (cleared (t q)) f u refl (λ j e. absurd (ground (arith, e)))
      (λ e. absurd (ground (arith, e))))

pub update-over :
    (t t1 : ℕ → Proc) (q : ℕ) (p p' : Proc)
    → ((j : ℕ) → t1 j ≡ update t q p j)
    → (j : ℕ) → update t1 q p' j ≡ update t q p' j
update-over t t1 q p p' e j = elim (ℕ_discrete q j) [
  | yes same ↦ ground arith
  | no d ↦ rw (==-false q j d) (e j ∙ rw (==-false q j d) refl)
]

-- The child of `me` in slot `q`.
pub record Child (me q : ℕ) (k : Kernel) (o : Outcome) (k' : Kernel) : Type 0 where
  pub slot_small : q < nproc
  pub slot_unused : is_unused (k.proc q).state ≡ true
  pub outcome : o ≡ returned k.next_pid
  pub pid : (k'.proc q).pid ≡ k.next_pid
  pub state : (k'.proc q).state ≡ runnable
  pub parent : (k'.proc q).parent ≡ some me
  pub size : (k'.proc q).sz ≡ (k.proc me).sz
  pub directory : (k'.proc q).cwd ≡ (k.proc me).cwd
  pub others : (j : ℕ) → q ≢ j → k'.proc j ≡ k.proc j

-- What a `fork` by `me` leaves.
pub record Forked (me : ℕ) (k : Kernel) (r : Outcome × Kernel) : Type 0 where
  pub family : IsFamily (r.1).initproc (r.1).proc
  pub how : ((r.0 ≡ failed) × SameOrGivenUp k.proc (r.1).proc) ⊎ ((q : ℕ) × Child me q k r.0 r.1)

module _ (me : ℕ) (k : Kernel) (f : IsFamily k.initproc k.proc) (small : me < nproc)
    (a : is_alive (k.proc me).state ≡ true) where
  start_child-Forked :
      (q : ℕ) (k1 : Kernel)
      → Allocated k (some q, k1)
      → (files : (ℕ → Option ℕ) × Ftable) → Forked me k (start_child me q k1 files)
  start_child-Forked q k1 (h, u, init, (frame, pt, e)) (ofile, ftable) = record {
    family =
        subst (λ i. IsFamily i (update k1.proc q started)) (sym init)
          (same-IsFamily k.initproc (update k.proc q started) (update k1.proc q started) over (
            filled-IsFamily k.initproc q k.proc started f u refl
              (λ j same. (ground (arith, small, same), ground (arith, a, same)))
              (λ _. (me, refl))));
    how = inr (
      q,
      record {
        slot_small = h;
        slot_unused = u;
        outcome = ap (λ p. returned p.pid) at_q;
        pid = ap (λ p. p.pid) (update-at k1.proc q started) ∙ ap (λ p. p.pid) at_q;
        state = ap (λ p. p.state) (update-at k1.proc q started);
        parent = ap (λ p. p.parent) (update-at k1.proc q started);
        size = ap (λ p. p.sz) (update-at k1.proc q started) ∙ ap (λ p. p.sz) at_me;
        directory = ap (λ p. p.cwd) (update-at k1.proc q started) ∙ ap (λ p. p.cwd) at_me;
        others = λ j d. over j ∙ update-other k.proc q started j d;
      },
    );
  }
    where
      started : Proc
      started = record (k1.proc q) {
        sz = (k1.proc me).sz;
        ofile = ofile;
        cwd = (k1.proc me).cwd;
        parent = some me;
        state = runnable;
      }

      over : (j : ℕ) → update k1.proc q started j ≡ update k.proc q started j
      over = update-over k.proc k1.proc q (new_proc k.next_pid frame pt (k.proc q)) started e

      at_q : k1.proc q ≡ new_proc k.next_pid frame pt (k.proc q)
      at_q = e q ∙ update-at k.proc q (new_proc k.next_pid frame pt (k.proc q))

      at_me : k1.proc me ≡ k.proc me
      at_me =
          e me
          ∙ update-other k.proc q (new_proc k.next_pid frame pt (k.proc q)) me
              (unused-other k.proc q me u a)

  give_up-Forked :
      (q : ℕ) (k1 : Kernel) → Allocated k (some q, k1) → Forked me k (failed, freeproc q k1)
  unfolding freeproc
  give_up-Forked q k1 (h, u, init, (frame, pt, e)) = record {
    family =
        subst (λ i. IsFamily i (given_up q k1.proc)) (sym init)
          (SameOrGivenUp-IsFamily k.initproc k.proc (given_up q k1.proc) up f);
    how = inl (refl, up);
  }
    where
      at_q : k1.proc q ≡ new_proc k.next_pid frame pt (k.proc q)
      at_q = e q ∙ update-at k.proc q (new_proc k.next_pid frame pt (k.proc q))

      up : SameOrGivenUp k.proc (given_up q k1.proc)
      up = inr (
        q,
        h,
        u,
        λ j.
            update-over k.proc k1.proc q (new_proc k.next_pid frame pt (k.proc q))
              (cleared (k1.proc q)) e j
            ∙ ap (λ p. update k.proc q (cleared p) j) at_q,
      )

  fork_into-Forked :
      (copied : Bool) (r : Option ℕ × Kernel) (o : Outcome) (k' : Kernel)
      → Allocated k r
      → fork_into me copied r ≡ some (o, k')
      → Forked me k (o, k')
  unfolding fork_into
  fork_into-Forked copied (none, k1) o k' (init, t) e =
      subst (Forked me k) (some-injective (failed, k1) (o, k') e) (record {
        family =
            subst (λ i. IsFamily i k1.proc) (sym init)
              (SameOrGivenUp-IsFamily k.initproc k.proc k1.proc t f);
        how = inl (refl, t);
      })
  fork_into-Forked false (some q, k1) o k' al e =
      subst (Forked me k) (some-injective (failed, freeproc q k1) (o, k') e)
        (give_up-Forked q k1 al)
  fork_into-Forked true (some q, k1) o k' al e =
      let (files, same) =
        map-some (start_child me q k1)
          (dup_files nofile 0 (k1.proc me).ofile (k1.proc q).ofile k1.ftable) (o, k') e in
      subst (Forked me k) same (start_child-Forked q k1 al files)

  -- `fork` by a live process, if it does not panic, keeps the family well formed. It fails, and
  -- then at most clears a slot that was unused, or it returns the next pid, with a runnable child of
  -- the caller in a slot that was unused, of the caller's size and directory, and no other process
  -- changed.
  pub fork-Forked :
      (frame pt : Option ℕ) (copied : Bool) (o : Outcome) (k' : Kernel)
      → fork me frame pt copied k ≡ some (o, k')
      → Forked me k (o, k')
  fork-Forked frame pt copied o k' e =
      fork_into-Forked copied (allocproc frame pt k) o k' (allocproc-Allocated frame pt k) e
