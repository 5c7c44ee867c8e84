-- ===== src/Proc/Kill.antt =====
-- `kill` of kernel/proc.c.
use xv6_riscv_labs.Prelude.{
  ==-refl, ==-false, subst, ℕ, zero, suc, ◌+◌, ◌<◌, ◌≤◌, ◌≡◌, ◌≢◌, refl, ap, true, update, arith,
  Bool-cases, sym, ◌∙◌, update-at, update-other, ◌⊎◌, inl, inr, ℕ_discrete,
}
use xv6_riscv_labs.Proc.Defs.{sleeping, runnable, Proc, Kernel, is_sleeping, nproc}
use xv6_riscv_labs.Proc.Wakeup.{Kept, sleeping_lem}
use xv6_riscv_labs.Proc.Calls.{returned, failed, kill, kill_from, kill_proc}

-- `kill` finds the first process with the pid.
pub kill_from_lem :
    (n i pid : ℕ) (t : ℕ → Proc)
    → ((kill_from n i pid t ≡ (failed, t)) × ((q : ℕ) → i ≤ q → q < i + n → (t q).pid ≢ pid))
      ⊎ ((q : ℕ) × (i ≤ q)
          × (q < i + n)
          × ((t q).pid ≡ pid)
          × (kill_from n i pid t ≡ (returned 0, update t q (kill_proc (t q)))))
unfolding kill_from
kill_from_lem zero i pid t = inl (refl, λ q low high. absurd (omega arith))
kill_from_lem (suc n) i pid t = elim (ℕ_discrete (t i).pid pid) [
  | yes e ↦ inr (i, omega arith, omega arith, e, rw (e, ==-refl pid, kill_from) refl)
  | no d ↦ elim (kill_from_lem n (i + 1) pid t) [
    | inl (e, h) ↦ inl (
      rw (==-false (t i).pid pid d, kill_from) e,
      λ q low high. elim (ℕ_discrete i q) [
        | yes same ↦ subst (λ x. (t x).pid ≢ pid) same d
        | no d' ↦ h q (omega arith) (omega arith)
      ],
    )
    | inr (q, low, high, e, r) ↦
        inr (q, omega arith, omega arith, e, rw (==-false (t i).pid pid d, kill_from) r)
  ]
]

-- What a kill makes of process `p`.
pub record IsKilled (p p' : Proc) : Type 0 where
  pub killed : p'.killed ≡ true
  pub woken : p.state ≡ sleeping → p'.state ≡ runnable
  pub awake : p.state ≢ sleeping → p'.state ≡ p.state
  pub others : p' ≡ record p { killed = p'.killed; state = p'.state }

kill_proc-IsKilled : (p : Proc) → IsKilled p (kill_proc p)
unfolding kill_proc
kill_proc-IsKilled p = elim (Bool-cases (is_sleeping p.state)) [
  | inl e ↦ rw e (record {
    killed = refl;
    woken = λ s. refl;
    awake = λ n. absurd (n (sleeping_lem p.state e));
    others = refl;
  })
  | inr e ↦ rw e (record {
    killed = refl;
    woken = λ s. absurd (ground (arith, e, ap is_sleeping s));
    awake = λ n. refl;
    others = refl;
  })
]

-- `kill` takes the first process with the pid.
pub kill_cases :
    (pid : ℕ) (k : Kernel)
    → (((kill pid k).0 ≡ failed)
        × ((kill pid k).1.proc ≡ k.proc)
        × ((q : ℕ) → q < nproc → (k.proc q).pid ≢ pid))
      ⊎ ((q : ℕ) × (q < nproc)
          × ((k.proc q).pid ≡ pid)
          × ((kill pid k).0 ≡ returned 0)
          × ((kill pid k).1.proc ≡ update k.proc q (kill_proc (k.proc q))))
unfolding kill kill_proc
kill_cases pid k = elim (kill_from_lem nproc 0 pid k.proc) [
  | inl (e, h) ↦ inl (ap (λ r. r.0) e, ap (λ r. r.1) e, λ q small. h q (omega arith) (omega arith))
  | inr (q, low, high, e, r) ↦ inr (q, omega arith, e, ap (λ x. x.0) r, ap (λ x. x.1) r)
]

-- `kill` returns -1 and changes nothing if no process has the pid. Else it returns 0, and one
-- process with the pid is marked as killed, and made runnable if it slept and left in its state if
-- not; nothing else of it and no other process changes.
pub kill_lem :
    (pid : ℕ) (k : Kernel)
    → (((kill pid k).0 ≡ failed)
        × ((kill pid k).1.proc ≡ k.proc)
        × ((q : ℕ) → q < nproc → (k.proc q).pid ≢ pid))
      ⊎ ((q : ℕ) × (q < nproc)
          × ((k.proc q).pid ≡ pid)
          × ((kill pid k).0 ≡ returned 0)
          × IsKilled (k.proc q) ((kill pid k).1.proc q)
          × ((j : ℕ) → q ≢ j → (kill pid k).1.proc j ≡ k.proc j))
kill_lem pid k = elim (kill_cases pid k) [
  | inl none_has ↦ inl none_has
  | inr (q, small, e, out, table) ↦ inr (
    q,
    small,
    e,
    out,
    subst (IsKilled (k.proc q))
        (sym (update-at k.proc q (kill_proc (k.proc q))) ∙ sym (ap (λ t. t q) table))
        (kill_proc-IsKilled (k.proc q)),
    λ j n. ap (λ t. t j) table ∙ update-other k.proc q (kill_proc (k.proc q)) j n,
  )
]

pub kill_proc-Kept : (p : Proc) → Kept p (kill_proc p) × ((kill_proc p).parent ≡ p.parent)
unfolding kill_proc
kill_proc-Kept p = elim (Bool-cases (is_sleeping p.state)) [
  | inl e ↦
      rw e (record { chan = refl; pid = refl; state = inr (sleeping_lem p.state e, refl) }, refl)
  | inr e ↦ rw e (record { chan = refl; pid = refl; state = inl refl }, refl)
]
