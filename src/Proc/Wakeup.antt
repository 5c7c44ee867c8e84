-- ===== src/Proc/Wakeup.antt =====
-- What `wakeup` and `reparent` of kernel/proc.c do to each process.
use xv6_riscv_labs.Prelude.{
  ℕ, zero, suc, ◌+◌, ◌<◌, ◌≤◌, ◌≡◌, ◌≢◌, refl, ◌∙◌, Bool, true, false, not, ◌&&◌, Option, some,
  ◌==◌, ltb, leb, if◌then◌else◌, update, arith, Bool-cases, ◌⊎◌, inl, inr, ℕ_discrete,
}
use xv6_riscv_labs.Proc.Defs.{
  State, unused, used, sleeping, runnable, running, zombie, Chan, at_proc, Proc, is_sleeping,
  eq_chan, points_to, wake, wakeup_from, wakeup, reparent_from, nproc,
}

wakeup_from_lem :
    (n i : ℕ) (me : Option ℕ) (c : Chan) (t : ℕ → Proc) (q : ℕ)
    → wakeup_from n i me c t q
      ≡ (if leb i q && ltb q (i + n) && not (points_to me q) then wake c (t q) else t q)
unfolding wakeup_from
wakeup_from_lem zero i me c t q = ground arith
wakeup_from_lem (suc n) i me c t q = ground (
  arith,
  wakeup_from_lem n (i + 1) me c (if points_to me i then t else update t i (wake c (t i))) q,
)

-- `wakeup` wakes every other process of the table that sleeps on the address, and changes nothing
-- else.
pub wakeup_lem :
    (me : Option ℕ) (c : Chan) (t : ℕ → Proc) (q : ℕ)
    → wakeup me c t q ≡ (if ltb q nproc && not (points_to me q) then wake c (t q) else t q)
wakeup_lem me c t q = ground (arith, wakeup_from_lem nproc 0 me c t q)

-- What the loops may do to a process besides its parent: wake it.
pub record Kept (p p' : Proc) : Type 0 where
  pub chan : p'.chan ≡ p.chan
  pub pid : p'.pid ≡ p.pid
  pub state : (p'.state ≡ p.state) ⊎ ((p.state ≡ sleeping) × (p'.state ≡ runnable))

pub Kept-refl : (p : Proc) → Kept p p
Kept-refl p = record { chan = refl; pid = refl; state = inl refl }

pub Kept-trans : (p p' p'' : Proc) → Kept p p' → Kept p' p'' → Kept p p''
Kept-trans p p' p'' h k = record {
  chan = k.chan ∙ h.chan;
  pid = k.pid ∙ h.pid;
  state = ground (arith, h.state, k.state);
}

pub sleeping_lem : (s : State) → is_sleeping s ≡ true → s ≡ sleeping
sleeping_lem unused h = absurd (ground (arith, h))
sleeping_lem used h = absurd (ground (arith, h))
sleeping_lem sleeping h = refl
sleeping_lem runnable h = absurd (ground (arith, h))
sleeping_lem running h = absurd (ground (arith, h))
sleeping_lem zombie h = absurd (ground (arith, h))

wake-Kept : (c : Chan) (p : Proc) → Kept p (wake c p) × ((wake c p).parent ≡ p.parent)
unfolding wake
wake-Kept c p = elim (Bool-cases (is_sleeping p.state && eq_chan p.chan c)) [
  | inl e ↦ rw e (
    record {
      chan = refl;
      pid = refl;
      state = inr (sleeping_lem p.state (ground (arith, e)), refl);
    },
    refl,
  )
  | inr e ↦ rw e (Kept-refl p, refl)
]

pub wakeup-Kept :
    (me : Option ℕ) (c : Chan) (t : ℕ → Proc) (q : ℕ)
    → Kept (t q) (wakeup me c t q) × ((wakeup me c t q).parent ≡ (t q).parent)
wakeup-Kept me c t q =
    rw (wakeup_lem me c t q) (elim (Bool-cases (ltb q nproc && not (points_to me q))) [
      | inl e ↦ rw e (wake-Kept c (t q))
      | inr e ↦ rw e (Kept-refl (t q), refl)
    ])

-- Does a process sleep on the address of process `j`, as `j` itself does in `wait`.
abbrev pub waits : Proc → ℕ → Bool
waits p j = is_sleeping p.state && eq_chan p.chan (at_proc j)

pub Kept-waits : (p p' : Proc) (j : ℕ) → Kept p p' → waits p j ≡ false → waits p' j ≡ false
Kept-waits p p' j k h = rw k.chan (elim k.state [ inl e ↦ rw e h | inr (e, e') ↦ rw e' refl ])

wake-waits : (p : Proc) (j : ℕ) → waits (wake (at_proc j) p) j ≡ false
unfolding wake
wake-waits p j = elim (Bool-cases (waits p j)) [ inl e ↦ rw e refl | inr e ↦ rw e e ]

-- A `wakeup` on the address of another process leaves that process awake.
pub wakeup-waits :
    (me j : ℕ) (t : ℕ → Proc)
    → j < nproc
    → me ≢ j
    → waits (wakeup (some me) (at_proc j) t j) j ≡ false
wakeup-waits me j t h ne =
    rw (wakeup_lem (some me) (at_proc j) t j) (rw (the_test) (wake-waits (t j) j))
  where
    the_test : (ltb j nproc && not (me == j)) ≡ true
    the_test = ground arith

abbrev pub new_parent : Bool → ℕ → Option ℕ → Option ℕ
new_parent b init p = if b then some init else p

give-Kept :
    (i init : ℕ) (t : ℕ → Proc) (q : ℕ)
    → Kept (t q) (update t i (record (t i) { parent = some init }) q)
      × ((update t i (record (t i) { parent = some init }) q).parent
          ≡ new_parent (i == q) init (t q).parent)
give-Kept i init t q = elim (ℕ_discrete i q) [
  | yes eq ↦
      (record { chan = ground arith; pid = ground arith; state = inl (ground arith) }, ground arith)
  | no ne ↦
      (record { chan = ground arith; pid = ground arith; state = inl (ground arith) }, ground arith)
]

-- One round of the loop of `reparent`.
abbrev adopt : ℕ → ℕ → ℕ → (ℕ → Proc) → ℕ → Proc
adopt i me init t =
    if points_to (t i).parent me
    then wakeup (some me) (at_proc init) (update t i (record (t i) { parent = some init }))
    else t

adopt-Kept :
    (i me init : ℕ) (t : ℕ → Proc) (q : ℕ)
    → Kept (t q) (adopt i me init t q)
      × ((adopt i me init t q).parent
          ≡ new_parent (i == q && points_to (t q).parent me) init (t q).parent)
adopt-Kept i me init t q = elim (Bool-cases (points_to (t i).parent me)) [
  | inr e ↦ rw e (Kept-refl (t q), ground arith)
  | inl e ↦
      let t' : ℕ → Proc = update t i (record (t i) { parent = some init }) in
      let (given, parent) = give-Kept i init t q in
      let (kept, same) = wakeup-Kept (some me) (at_proc init) t' q in
      rw e (Kept-trans (t q) (t' q) _ given kept, same ∙ parent ∙ ground arith)
]

-- The loop of `reparent` gives the children of `me` to `init`, and wakes no process for another
-- reason than that.
pub reparent_from_lem :
    (n i me init : ℕ) (t : ℕ → Proc) (q : ℕ)
    → Kept (t q) (reparent_from n i me init t q)
      × ((me ≢ init)
          → (reparent_from n i me init t q).parent
            ≡ new_parent (leb i q && ltb q (i + n) && points_to (t q).parent me) init (t q).parent)
unfolding reparent_from
reparent_from_lem zero i me init t q = (Kept-refl (t q), λ ne. ground arith)
reparent_from_lem (suc n) i me init t q =
    let (kept, parent) = adopt-Kept i me init t q in
    let (rest, rest_parent) = reparent_from_lem n (i + 1) me init (adopt i me init t) q in
    (
      Kept-trans (t q) (adopt i me init t q) _ kept rest,
      λ ne. rest_parent ne ∙ rw parent (ground arith),
    )

-- Once a child has been given away, `init` does not sleep in `wait`.
pub reparent_from-waits :
    (n i me init : ℕ) (t : ℕ → Proc)
    → init < nproc
    → me ≢ init
    → (waits (t init) init ≡ false)
      ⊎ ((q : ℕ) × (i ≤ q) × (q < i + n) × (points_to (t q).parent me ≡ true))
    → waits (reparent_from n i me init t init) init ≡ false
unfolding reparent_from
reparent_from-waits zero i me init t h ne c = ground (arith, c)
reparent_from-waits (suc n) i me init t h ne c = elim (Bool-cases (points_to (t i).parent me)) [
  | inl e ↦
      rw (e, reparent_from)
        (reparent_from-waits n (i + 1) me init _ h ne (inl (wakeup-waits me init _ h ne)))
  | inr e ↦ rw (e, reparent_from) (reparent_from-waits n (i + 1) me init t h ne (ground (arith, c)))
]
