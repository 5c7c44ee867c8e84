-- ===== src/Proc/Scan.antt =====
-- The scan of `wait` of kernel/proc.c: which child it finds.
use xv6_riscv_labs.Prelude.{
  subst, ℕ, zero, suc, ◌+◌, ◌<◌, ◌≤◌, ◌≡◌, Bool, true, false, arith, Bool-cases, ◌⊎◌, inl, inr,
  ℕ_discrete,
}
use xv6_riscv_labs.Proc.Defs.{Proc, is_zombie, points_to}
use xv6_riscv_labs.Proc.Calls.{Scan, exited, none_exited, scan_children}

-- What the scan says of the children of `me` among `n` processes from `i` on.
pub record Exited (n i me : ℕ) (t : ℕ → Proc) (q : ℕ) : Type 0 where
  pub low : i ≤ q
  pub high : q < i + n
  pub child : points_to (t q).parent me ≡ true
  pub dead : is_zombie (t q).state ≡ true

abbrev pub NoneExited : ℕ → ℕ → ℕ → (ℕ → Proc) → Type 0
NoneExited n i me t =
    (q : ℕ) → i ≤ q → q < i + n → points_to (t q).parent me ≡ true → is_zombie (t q).state ≡ false

abbrev pub HasKids : ℕ → ℕ → ℕ → (ℕ → Proc) → Type 0
HasKids n i me t = (q : ℕ) × (i ≤ q) × (q < i + n) × (points_to (t q).parent me ≡ true)

abbrev pub Scanned : ℕ → ℕ → ℕ → Bool → (ℕ → Proc) → Scan → Type 0
Scanned n i me havekids t (exited q) = Exited n i me t q
Scanned n i me havekids t (none_exited kids) =
    NoneExited n i me t
    × (((kids ≡ true) × ((havekids ≡ true) ⊎ HasKids n i me t))
        ⊎ ((kids ≡ false) × (havekids ≡ false) × ¬ HasKids n i me t))

Scanned-child :
    (n i me : ℕ) (havekids : Bool) (t : ℕ → Proc) (s : Scan)
    → points_to (t i).parent me ≡ true
    → is_zombie (t i).state ≡ false
    → Scanned n (i + 1) me true t s
    → Scanned (suc n) i me havekids t s
Scanned-child n i me havekids t (exited q) c z h = record {
  low = omega (arith, h.low);
  high = omega (arith, h.high);
  child = h.child;
  dead = h.dead;
}
Scanned-child n i me havekids t (none_exited kids) c z (h, k) = (
  λ q low high child. elim (ℕ_discrete i q) [
    | yes e ↦ subst (λ x. is_zombie (t x).state ≡ false) e z
    | no d ↦ h q (omega arith) (omega arith) child
  ],
  elim k [
    | inl (e, _) ↦ inl (e, inr (i, omega arith, omega arith, c))
    | inr (e, e', _) ↦ absurd (ground (arith, e'))
  ],
)

Scanned-other :
    (n i me : ℕ) (havekids : Bool) (t : ℕ → Proc) (s : Scan)
    → points_to (t i).parent me ≡ false
    → Scanned n (i + 1) me havekids t s
    → Scanned (suc n) i me havekids t s
Scanned-other n i me havekids t (exited q) c h = record {
  low = omega (arith, h.low);
  high = omega (arith, h.high);
  child = h.child;
  dead = h.dead;
}
Scanned-other n i me havekids t (none_exited kids) c (h, k) = (
  λ q low high child. h q (later q low child) (omega arith) child,
  elim k [
    | inl (e, inl had) ↦ inl (e, inl had)
    | inl (e, inr (q, low, high, child)) ↦ inl (e, inr (q, omega arith, omega arith, child))
    | inr (e, e', without) ↦
        inr (e, e', λ (q, low, high, child). without (q, later q low child, omega arith, child))
  ],
)
  where
    later : (q : ℕ) → i ≤ q → points_to (t q).parent me ≡ true → i + 1 ≤ q
    later q low child = elim (ℕ_discrete i q) [
      | yes e ↦ absurd (ground (arith, subst (λ x. points_to (t x).parent me ≡ false) e c, child))
      | no d ↦ omega arith
    ]

pub scan_children_lem :
    (n i me : ℕ) (havekids : Bool) (t : ℕ → Proc)
    → Scanned n i me havekids t (scan_children n i me havekids t)
unfolding scan_children
scan_children_lem zero i me havekids t = (
  λ q low high child. absurd (omega arith),
  elim (Bool-cases havekids) [
    | inl e ↦ inl (e, inl e)
    | inr e ↦ inr (e, e, λ (q, low, high, child). absurd (omega arith))
  ],
)
scan_children_lem (suc n) i me havekids t = elim (Bool-cases (points_to (t i).parent me)) [
  | inr other ↦
      rw (other, scan_children)
        (Scanned-other n i me havekids t _ other (scan_children_lem n (i + 1) me havekids t))
  | inl child ↦ elim (Bool-cases (is_zombie (t i).state)) [
    | inl dead ↦
        rw (child, dead, scan_children)
          (record { low = omega arith; high = omega arith; child = child; dead = dead })
    | inr lives ↦
        rw (child, lives, scan_children)
          (Scanned-child n i me havekids t _ child lives (scan_children_lem n (i + 1) me true t))
  ]
]
