-- ===== src/Proc/Exit.antt =====
-- `exit` of kernel/proc.c keeps the family of processes.
use mathlib.Core.Option
use xv6_riscv_labs.Prelude.{
  ==-refl, ==-false, subst, ℕ, ◌+◌, ◌<◌, ◌≡◌, ◌≢◌, refl, ap, sym, ◌∙◌, Bool, true, false, ◌&&◌,
  Option, none, some, List, ltb, leb, update, arith, ◌⊎◌, inl, inr, ℕ_discrete,
}
use xv6_riscv_labs.File.{Closing, Ftable}
use xv6_riscv_labs.Proc.Defs.{
  zombie, at_proc, Proc, Kernel, is_zombie, is_unused, points_to, wakeup, reparent_from, nproc,
}
use xv6_riscv_labs.Proc.Wakeup.{
  Kept, waits, new_parent, wakeup-Kept, reparent_from_lem, reparent_from-waits, wakeup-waits,
  Kept-waits, Kept-trans,
}
use xv6_riscv_labs.Proc.Calls.{
  become_zombie, exit, no_files, leave, close_files, nofile, parent_chan,
}
use xv6_riscv_labs.Proc.Family.{IsFamily, is_alive, Kept-same, Calm-IsFamily, set-Calm}

in_table : (q : ℕ) (b : Bool) → q < nproc → (leb 0 q && ltb q (0 + nproc) && b) ≡ b
in_table q b h = ground arith

new_parent-cases :
    (p : Option ℕ) (me init j : ℕ)
    → new_parent (points_to p me) init p ≡ some j
    → ((init ≡ j) × (points_to p me ≡ true)) ⊎ ((p ≡ some j) × (me ≢ j))
new_parent-cases none me init j e = absurd (ground (arith, e))
new_parent-cases (some a) me init j e = elim (ℕ_discrete a me) [
  | yes same ↦ inl (ground (arith, e), ground arith)
  | no d ↦ inr (ground (arith, e), ground (arith, e))
]

new_parent-some :
    (b : Bool) (init : ℕ) (p : Option ℕ) (j : ℕ)
    → p ≡ some j
    → (x : ℕ) × (new_parent b init p ≡ some x)
new_parent-some true init p j e = (init, refl)
new_parent-some false init p j e = (j, e)

-- What the locked part of `exit` by `me` does to the table.
module _ (init me status : ℕ) (t : ℕ → Proc) (f : IsFamily init t) (small : me < nproc)
    (busy : is_unused (t me).state ≡ false) (ne : me ≢ init) where
  abbrev moved : ℕ → Proc
  moved = reparent_from nproc 0 me init t

  abbrev woken : ℕ → Proc
  woken = wakeup (some me) (parent_chan (moved me).parent) moved

  abbrev left : ℕ → Proc
  left = update woken me (record (woken me) { xstate = status; state = zombie })

  woken-Kept :
      (q : ℕ)
      → q < nproc
      → Kept (t q) (woken q)
        × ((woken q).parent ≡ new_parent (points_to (t q).parent me) init (t q).parent)
  woken-Kept q h =
      let (kept, parent) = reparent_from_lem nproc 0 me init t q in
      let (kept', parent') = wakeup-Kept (some me) (parent_chan (moved me).parent) moved q in
      (
        Kept-trans (t q) (moved q) (woken q) kept kept',
        parent' ∙ parent ne ∙ ap (λ b. new_parent b init (t q).parent) (in_table q _ h),
      )

  left-other : (j : ℕ) → me ≢ j → left j ≡ woken j
  left-other j d = ground arith

  left-parent : (q : ℕ) → (left q).parent ≡ (woken q).parent
  left-parent q = elim (ℕ_discrete me q) [
    | yes e ↦ subst (λ x. (left x).parent ≡ (woken x).parent) e (rw (==-refl me) refl)
    | no d ↦ ap (λ p. p.parent) (left-other q d)
  ]

  parent-left :
      (q : ℕ)
      → q < nproc
      → (left q).parent ≡ new_parent (points_to (t q).parent me) init (t q).parent
  parent-left q h = left-parent q ∙ (woken-Kept q h).1

  alive-left :
      (j : ℕ) → j < nproc → me ≢ j → is_alive (t j).state ≡ true → is_alive (left j).state ≡ true
  alive-left j h d a =
      let (u, z) = Kept-same (t j) (woken j) (woken-Kept j h).0 in rw (left-other j d, u, z) a

  parents-left :
      (q j : ℕ)
      → q < nproc
      → (left q).parent ≡ some j
      → (j < nproc) × (is_alive (left j).state ≡ true) × (me ≢ j)
  parents-left q j h e =
      elim (new_parent-cases (t q).parent me init j (sym (parent-left q h) ∙ e)) [
        | inl (same, _) ↦
            subst (λ x. (x < nproc) × (is_alive (left x).state ≡ true) × (me ≢ x)) same
              (f.init_small, alive-left init f.init_small ne f.init_alive, ne)
        | inr (old, d) ↦
            let (small_j, a) = f.parents q j h old in (small_j, alive-left j small_j d a, d)
      ]

  -- The parent of the new zombie was woken.
  noticed-me : (j : ℕ) → (left me).parent ≡ some j → waits (left j) j ≡ false
  noticed-me j e =
      let (small_j, a, d) = parents-left me j small e in
      let parent : (moved me).parent ≡ some j =
        sym (wakeup-Kept (some me) (parent_chan (moved me).parent) moved me).1
        ∙ sym (left-parent me)
        ∙ e in
      let chan_j : parent_chan (moved me).parent ≡ at_proc j = ap parent_chan parent in
      rw (left-other j d) (rw (chan_j) (wakeup-waits me j moved small_j d))

  noticed-other :
      (q j : ℕ)
      → q < nproc
      → me ≢ q
      → (left q).parent ≡ some j
      → is_zombie (left q).state ≡ true
      → waits (left j) j ≡ false
  noticed-other q j h d e z =
      let was_zombie : is_zombie (t q).state ≡ true =
        sym (Kept-same (t q) (woken q) (woken-Kept q h).0).1
        ∙ ap (λ p. is_zombie p.state) (sym (left-other q d))
        ∙ z in
      elim (new_parent-cases (t q).parent me init j (sym (parent-left q h) ∙ e)) [
        | inl (same, child) ↦
            subst (λ x. waits (left x) x ≡ false) same
              (rw (left-other init ne) (
                Kept-waits (moved init) (woken init) init
                  (wakeup-Kept (some me) (parent_chan (moved me).parent) moved init).0
                  (reparent_from-waits nproc 0 me init t f.init_small ne
                    (inr (q, omega arith, omega arith, child)))))
        | inr (old, dj) ↦ rw (left-other j dj) (
            Kept-waits (t j) (woken j) j (woken-Kept j (f.parents q j h old).0).0
              (f.noticed q j h old was_zombie))
      ]

  was_used : (q : ℕ) → q < nproc → is_unused (left q).state ≡ false → is_unused (t q).state ≡ false
  was_used q h u = elim (ℕ_discrete me q) [
    | yes same ↦ subst (λ x. is_unused (t x).state ≡ false) same busy
    | no d ↦
        sym (Kept-same (t q) (woken q) (woken-Kept q h).0).0
        ∙ ap (λ p. is_unused p.state) (sym (left-other q d))
        ∙ u
  ]

  pub left-IsFamily : IsFamily init left
  left-IsFamily = record {
    init_small = f.init_small;
    init_alive = alive-left init f.init_small ne f.init_alive;
    parents = λ q j h e. let (small_j, a, d) = parents-left q j h e in (small_j, a);
    raised = λ q h d u.
        let (j, e) = f.raised q h d (was_used q h u) in
        let (x, e') = new_parent-some (points_to (t q).parent me) init (t q).parent j e in
        (x, parent-left q h ∙ e');
    noticed = λ q j h e z. elim (ℕ_discrete me q) [
      | yes same ↦ noticed-me j (ap (λ x. (left x).parent) same ∙ e)
      | no d ↦ noticed-other q j h d e z
    ];
  }

pub map-some :
    {A B : Type 0}
    → (g : A → B) (o : Option A) (y : B) → Option.map g o ≡ some y
    → (x : A) × (g x ≡ y)
map-some g none y e = absurd (ground (arith, e))
map-some g (some x) y e = (x, ground (arith, e))

-- How `exit` comes to its result.
exit-some :
    (me status : ℕ) (k : Kernel) (cs : List Closing) (k' : Kernel)
    → exit me status k ≡ some (cs, k')
    → (me ≢ k.initproc) × ((r : List Closing × Ftable) × (leave me status k r ≡ (cs, k')))
unfolding exit
exit-some me status k cs k' e = elim (ℕ_discrete me k.initproc) [
  | yes same ↦ absurd (ground (arith, e))
  | no d ↦ (
    d,
    map-some (leave me status k) (close_files nofile 0 (k.proc me).ofile k.ftable) (cs, k')
        (ground (arith, e)),
  )
]

points_to-none : (p : Option ℕ) (me : ℕ) → ((j : ℕ) → p ≡ some j → me ≢ j) → points_to p me ≡ false
points_to-none none me h = refl
points_to-none (some j) me h = ==-false j me (λ e. h j refl (sym e))

module _ (me status : ℕ) (k : Kernel) (f : IsFamily k.initproc k.proc) (small : me < nproc)
    (busy : is_unused (k.proc me).state ≡ false) where
  -- The process without its files.
  abbrev bare : ℕ → Proc
  bare = update k.proc me (record (k.proc me) { ofile = no_files (k.proc me).ofile; cwd = none })

  bare-IsFamily : IsFamily k.initproc bare
  bare-IsFamily =
      Calm-IsFamily k.initproc k.proc bare
        (set-Calm me k.proc (record (k.proc me) { ofile = no_files (k.proc me).ofile; cwd = none })
          (record { parent = refl; unused_same = refl; zombie_same = refl; waits_less = λ h. h }))
        f

  bare-busy : is_unused (bare me).state ≡ false
  bare-busy = rw (==-refl me) busy

  leave_lem :
      (r : List Closing × Ftable)
      → me ≢ k.initproc
      → let k' = (leave me status k r).1 in
        IsFamily k'.initproc k'.proc
        × ((k'.proc me).state ≡ zombie)
        × ((k'.proc me).xstate ≡ status)
        × ((q : ℕ) → q < nproc → points_to (k'.proc q).parent me ≡ false)
  unfolding become_zombie
  leave_lem (cs, ftable) ne = (
    left-IsFamily k.initproc me status bare bare-IsFamily small bare-busy ne,
    rw (==-refl me) refl,
    rw (==-refl me) refl,
    λ q h.
        points_to-none (left k.initproc me status bare bare-IsFamily small bare-busy ne q).parent me
          (λ j e.
            (parents-left k.initproc me status bare bare-IsFamily small bare-busy ne q j h e).2),
  )

  -- `exit` by a process in use, if it does not panic, leaves a zombie with the status and without
  -- children, whose parent does not sleep in `wait`: the family stays well formed.
  pub exit_lem :
      (cs : List Closing) (k' : Kernel)
      → exit me status k ≡ some (cs, k')
      → IsFamily k'.initproc k'.proc
        × ((k'.proc me).state ≡ zombie)
        × ((k'.proc me).xstate ≡ status)
        × ((q : ℕ) → q < nproc → points_to (k'.proc q).parent me ≡ false)
  exit_lem cs k' e =
      let (ne, (r, same)) = exit-some me status k cs k' e in
      subst
        (λ x.
          IsFamily x.1.initproc x.1.proc
          × ((x.1.proc me).state ≡ zombie)
          × ((x.1.proc me).xstate ≡ status)
          × ((q : ℕ) → q < nproc → points_to (x.1.proc q).parent me ≡ false))
        same (leave_lem r ne)
