-- ===== src/Lock/Nesting.antt =====
-- push_off and pop_off of kernel/spinlock.c match.
use xv6_riscv_labs.Prelude.{
  ◌-◌, ◌<◌, ◌≡◌, ◌≢◌, refl, sym, ◌∙◌, true, false, ◌&&◌, Option, none, some, ◌==◌, ltb, arith,
  ℕ_discrete,
}
use xv6_riscv_labs.Lock.Defs.{Cpu, push_off, pop_off}

-- Calls that match: each `push_off` has its `pop_off`, and calls between them match too.
pub data Nested : Type 0 where
  nothing : Nested
  pair : (between after : Nested) → Nested

-- A run of the calls.
unfoldable pub run : Nested → Cpu → Option Cpu
run nothing c = some c
run (pair between after) c = elim (run between (push_off c)) [
  | none ↦ none
  | some c1 ↦ elim (pop_off c1) [ none ↦ none | some c2 ↦ run after c2 ]
]

-- With a call outstanding, interrupts are off.
abbrev pub IsOff : Cpu → Type 0
IsOff c = (0 < c.noff) → c.intr ≡ false

-- Everything but `intena` without a call outstanding, when no code reads it.
pub record Restored (c c' : Cpu) : Type 0 where
  pub intr : c'.intr ≡ c.intr
  pub noff : c'.noff ≡ c.noff
  pub intena : (0 < c.noff) → c'.intena ≡ c.intena

push_off-IsOff : (c : Cpu) → IsOff (push_off c)
unfolding push_off
push_off-IsOff c h = refl

pop_off-push_off :
    (c c1 : Cpu)
    → IsOff c
    → Restored (push_off c) c1
    → (c2 : Cpu) × (pop_off c1 ≡ some c2) × Restored c c2
unfolding push_off pop_off
pop_off-push_off c c1 o r = (
  record { intr = c1.noff - 1 == 0 && c1.intena; noff = c1.noff - 1; intena = c1.intena },
  rw (r.intr, guard) refl,
  record {
    intr = elim (ℕ_discrete c.noff 0) [
      | yes e ↦ rw (last e, first e) refl
      | no ne ↦ rw (inner ne) (sym (o (omega arith)))
    ];
    noff = omega (arith, r.noff);
    intena = λ h. r.intena (omega arith) ∙ rw (not_first h) refl;
  },
)
  where
    guard : ltb c1.noff 1 ≡ false
    guard = ground (arith, r.noff)

    last : c.noff ≡ 0 → (c1.noff - 1 == 0) ≡ true
    last e = ground (arith, r.noff, e)

    inner : c.noff ≢ 0 → (c1.noff - 1 == 0) ≡ false
    inner ne = ground (arith, r.noff, ne)

    first : c.noff ≡ 0 → c1.intena ≡ c.intr
    first e = r.intena (omega arith) ∙ ground (arith, e)

    not_first : 0 < c.noff → (c.noff == 0) ≡ false
    not_first h = ground (arith, h)

Restored-IsOff : (c c' : Cpu) → Restored c c' → IsOff c → IsOff c'
Restored-IsOff c c' r o h = r.intr ∙ o (omega (arith, r.noff))

Restored-trans : (c c' c'' : Cpu) → Restored c c' → Restored c' c'' → Restored c c''
Restored-trans c c' c'' r s = record {
  intr = s.intr ∙ r.intr;
  noff = s.noff ∙ r.noff;
  intena = λ h. s.intena (omega (arith, r.noff)) ∙ r.intena h;
}

-- Calls of `push_off` and `pop_off` that match never panic, and leave the interrupts of a CPU and
-- its count as they were, however deep the calls are nested.
pub run-Restored :
    (s : Nested) (c : Cpu) → IsOff c → (c' : Cpu) × (run s c ≡ some c') × Restored c c'
unfolding run
run-Restored nothing c o = (c, refl, record { intr = refl; noff = refl; intena = λ h. refl })
run-Restored (pair between after) c o =
    let (c1, e1, r1) = run-Restored between (push_off c) (push_off-IsOff c) in
    let (c2, e2, r2) = pop_off-push_off c c1 o r1 in
    let (c3, e3, r3) = run-Restored after c2 (Restored-IsOff c c2 r2 o) in
    (c3, rw (e1, e2, run) e3, Restored-trans c c2 c3 r2 r3)
