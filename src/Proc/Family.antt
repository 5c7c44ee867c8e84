-- ===== src/Proc/Family.antt =====
-- Parents and children in the table of kernel/proc.c: the invariant, and `exit` and `wait`.
use xv6_riscv_labs.Prelude.{
  ==-refl, ==-false, subst, ℕ, ◌<◌, ◌≡◌, ◌≢◌, refl, sym, ◌∙◌, Bool, true, false, not, ◌&&◌, some,
  update, inl, inr, ℕ_discrete,
}
use xv6_riscv_labs.Proc.Defs.{State, Proc, is_zombie, is_unused, nproc}
use xv6_riscv_labs.Proc.Wakeup.{Kept, waits, Kept-waits}

abbrev pub is_alive : State → Bool
is_alive s = not (is_unused s) && not (is_zombie s)

-- The processes form a family below `init`: a parent is alive, every process but `init` has one,
-- and the parent of a zombie does not sleep in `wait`.
pub record IsFamily (init : ℕ) (t : ℕ → Proc) : Type 0 where
  pub init_small : init < nproc
  pub init_alive : is_alive (t init).state ≡ true
  pub parents :
      (q j : ℕ) → q < nproc → (t q).parent ≡ some j → (j < nproc) × (is_alive (t j).state ≡ true)
  pub raised :
      (q : ℕ)
      → q < nproc
      → q ≢ init
      → is_unused (t q).state ≡ false
      → (j : ℕ) × ((t q).parent ≡ some j)
  pub noticed :
      (q j : ℕ)
      → q < nproc
      → (t q).parent ≡ some j
      → is_zombie (t q).state ≡ true
      → waits (t j) j ≡ false

-- A change of process `j` that the family does not notice.
pub record Calm (j : ℕ) (p p' : Proc) : Type 0 where
  pub parent : p'.parent ≡ p.parent
  pub unused_same : is_unused p'.state ≡ is_unused p.state
  pub zombie_same : is_zombie p'.state ≡ is_zombie p.state
  pub waits_less : waits p j ≡ false → waits p' j ≡ false

pub Calm-refl : (j : ℕ) (p : Proc) → Calm j p p
Calm-refl j p = record {
  parent = refl;
  unused_same = refl;
  zombie_same = refl;
  waits_less = λ h. h;
}

pub Calm-IsFamily :
    (init : ℕ) (t t' : ℕ → Proc)
    → ((j : ℕ) → Calm j (t j) (t' j))
    → IsFamily init t
    → IsFamily init t'
Calm-IsFamily init t t' c f = record {
  init_small = f.init_small;
  init_alive = rw ((c init).unused_same, (c init).zombie_same) f.init_alive;
  parents =
      λ q j h e. rw ((c j).unused_same, (c j).zombie_same) (f.parents q j h (sym (c q).parent ∙ e));
  raised =
      λ q h ne u. let (j, e) = f.raised q h ne (sym (c q).unused_same ∙ u) in (j, (c q).parent ∙ e);
  noticed = λ q j h e z.
      (c j).waits_less (f.noticed q j h (sym (c q).parent ∙ e) (sym (c q).zombie_same ∙ z));
}

pub set-Calm :
    (me : ℕ) (t : ℕ → Proc) (p : Proc) → Calm me (t me) p → (j : ℕ) → Calm j (t j) (update t me p j)
set-Calm me t p c j = elim (ℕ_discrete me j) [
  | yes e ↦ subst (λ x. Calm x (t x) (update t me p x)) e (rw (==-refl me) c)
  | no ne ↦ rw (==-false me j ne) (Calm-refl j (t j))
]

pub Kept-same :
    (p p' : Proc)
    → Kept p p'
    → (is_unused p'.state ≡ is_unused p.state) × (is_zombie p'.state ≡ is_zombie p.state)
Kept-same p p' k = elim k.state [
  | inl e ↦ rw e (refl, refl)
  | inr (e, e') ↦ rw (e, e') (refl, refl)
]

pub Kept-Calm : (j : ℕ) (p p' : Proc) → Kept p p' → p'.parent ≡ p.parent → Calm j p p'
Kept-Calm j p p' k e = record {
  parent = e;
  unused_same = (Kept-same p p' k).0;
  zombie_same = (Kept-same p p' k).1;
  waits_less = Kept-waits p p' j k;
}
