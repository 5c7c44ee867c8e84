-- ===== src/Vm/Copyout.antt =====
-- What `copyout` of kernel/vm.c puts into the pages of a process.
use mathlib.Core.Bool.{false≢true}
use mathlib.Core.Option.{some-injective}
use native.Mathlib.Nat.{add-zero}
use xv6_riscv_labs.Prelude.{
  subst, ℕ, zero, suc, ◌+◌, ◌-◌, ◌%◌, ◌<◌, ◌≤◌, ◌≡◌, ◌≢◌, refl, ap, sym, ◌∙◌, Bool, true, false,
  Option, none, some, not, ◌||◌, ◌↔◌, ◌^◌, ◌*◌, ◌/◌, leb, if◌then◌else◌, arith, Bool-cases, ◌⊎◌,
  inl, inr, ℕ_discrete, dec_lt,
}
use xv6_riscv_labs.Str.{memmove, memmove_lem}
use xv6_riscv_labs.Vm.Defs.{
  maxva, walk_from, pte_v, pte_u, pte_w, pte2pa, pgsize, pg_round_down, chunk, copyout_from,
  copyout, writable, Tables,
}
use xv6_riscv_labs.Vm.Copyin.{
  phys, IsChunk, chunk-IsChunk, same_page, phys-chunk, in_range, ==-zero, ==-nonzero,
}

abbrev pub frame_at : (ℕ → Option ℕ) → ℕ → ℕ
frame_at page va0 = elim (page va0) [ none ↦ 0 | some pa0 ↦ pa0 ]

-- The physical address of a byte that may be written.
abbrev pub target : (ℕ → Option ℕ) → ℕ → ℕ
target page va = phys (frame_at page) va

pub record Sent (page : ℕ → Option ℕ) (dstva src len : ℕ) (m m' : ℕ → ℕ) : Type 0 where
  pub mapped : (i : ℕ) → i < len → (pa0 : ℕ) × (page (pg_round_down (dstva + i)) ≡ some pa0)
  pub bytes : (i : ℕ) → i < len → m' (target page (dstva + i)) ≡ m (src + i)
  pub others : (q : ℕ) → ((i : ℕ) → i < len → target page (dstva + i) ≢ q) → m' q ≡ m q

pub record Refused (page : ℕ → Option ℕ) (dstva src len : ℕ) (m m' : ℕ → ℕ) : Type 0 where
  pub unmapped : (i : ℕ) × (i < len) × (page (pg_round_down (dstva + i)) ≡ none)
  pub others : (q : ℕ) → ((i : ℕ) → i < len → target page (dstva + i) ≢ q) → m' q ≡ m q

abbrev pub CopyoutResult : (ℕ → Option ℕ) → ℕ → ℕ → ℕ → (ℕ → ℕ) → Bool → (ℕ → ℕ) → Type 0
CopyoutResult page dstva src len m ok m' =
    ((ok ≡ true) × Sent page dstva src len m m') ⊎ ((ok ≡ false) × Refused page dstva src len m m')

-- No two of the bytes are mapped to one place, and none to the source.
pub record Distinct (page : ℕ → Option ℕ) (dstva src len : ℕ) : Type 0 where
  pub targets :
      (i j : ℕ) → i < len → j < len → target page (dstva + i) ≡ target page (dstva + j) → i ≡ j
  pub apart : (i j : ℕ) → i < len → j < len → target page (dstva + i) ≢ src + j

module _ (page : ℕ → Option ℕ) (dstva src len n b : ℕ) (m m1 : ℕ → ℕ) (c : IsChunk dstva len n)
    (d : Distinct page dstva src len) (frame : (pa0 : ℕ) × (page (pg_round_down dstva) ≡ some pa0))
    (base : (i : ℕ) → i < n → target page (dstva + i) ≡ b + i)
    (copied : (q : ℕ) → m1 q ≡ (if in_range b n q then m (src + (q - b)) else m q)) where
  next_target :
      (i : ℕ)
      → i < len - n
      → target page (pg_round_down dstva + pgsize + i) ≡ target page (dstva + (n + i))
  next_target i h = ap (target page) (c.next i h)

  rest-Distinct : Distinct page (pg_round_down dstva + pgsize) (src + n) (len - n)
  rest-Distinct = record {
    targets = λ i j h l e.
        let same =
          d.targets (n + i) (n + j) (omega arith) (omega arith)
            (sym (next_target i h) ∙ e ∙ next_target j l) in
        omega arith;
    apart = λ i j h l e.
        d.apart (n + i) (n + j) (omega arith) (omega arith)
          (sym (next_target i h) ∙ e ∙ omega arith);
  }

  kept : (q : ℕ) → ((i : ℕ) → i < n → target page (dstva + i) ≢ q) → m1 q ≡ m q
  kept q far = copied q ∙ rw outside refl
    where
      outside : in_range b n q ≡ false
      outside = elim (Bool-cases (in_range b n q)) [
        | inr e ↦ e
        | inl e ↦
            absurd (
              far (q - b) (ground (arith, e))
                (base (q - b) (ground (arith, e)) ∙ ground (arith, e)))
      ]

  others-step :
      (m' : ℕ → ℕ)
      → ((q : ℕ)
          → ((i : ℕ) → i < len - n → target page (pg_round_down dstva + pgsize + i) ≢ q)
          → m' q ≡ m1 q)
      → (q : ℕ) → ((i : ℕ) → i < len → target page (dstva + i) ≢ q)
      → m' q ≡ m q
  others-step m' r q far =
      r q (λ i h e. far (n + i) (omega arith) (sym (next_target i h) ∙ e))
      ∙ kept q (λ i h. far i (omega (arith, c.within)))

  first_bytes : (i : ℕ) → i < n → m1 (target page (dstva + i)) ≡ m (src + i)
  first_bytes i h = rw (base i h) (copied (b + i) ∙ rw inside (ap m (omega arith)))
    where
      inside : in_range b n (b + i) ≡ true
      inside = ground arith

  Sent-step :
      (m' : ℕ → ℕ)
      → Sent page (pg_round_down dstva + pgsize) (src + n) (len - n) m1 m'
      → Sent page dstva src len m m'
  Sent-step m' r = record {
    mapped = λ i h. elim (dec_lt i n) [
      | yes l ↦ rw (same_page dstva n i c.one_page l) frame
      | no l ↦
          subst (λ x. (pa0 : ℕ) × (page (pg_round_down x) ≡ some pa0))
            (c.next (i - n) (omega arith) ∙ omega arith) (r.mapped (i - n) (omega arith))
    ];
    bytes = λ i h. elim (dec_lt i n) [
      | yes l ↦
          r.others (target page (dstva + i)) (λ j k e.
            let same = d.targets (n + j) i (omega arith) h (sym (next_target j k) ∙ e) in
            absurd (omega arith))
          ∙ first_bytes i l
      | no l ↦
          ap m' (ap (target page) (omega arith) ∙ sym (next_target (i - n) (omega arith)))
          ∙ r.bytes (i - n) (omega arith)
          ∙ ap m1 (omega arith)
          ∙ kept (src + i) (λ j k. d.apart j i (omega (arith, c.within)) h)
    ];
    others = others-step m' r.others;
  }

  Refused-step :
      (m' : ℕ → ℕ)
      → Refused page (pg_round_down dstva + pgsize) (src + n) (len - n) m1 m'
      → Refused page dstva src len m m'
  Refused-step m' r = record {
    unmapped =
        let (i, h, e) = r.unmapped in
        (n + i, omega (arith, c.within), subst (λ x. page (pg_round_down x) ≡ none) (c.next i h) e);
    others = others-step m' r.others;
  }

Option-cases : (o : Option ℕ) → (o ≡ none) ⊎ ((x : ℕ) × (o ≡ some x))
Option-cases none = inl refl
Option-cases (some x) = inr (x, refl)

nothing-Sent :
    (page : ℕ → Option ℕ) (dstva src len : ℕ) (m : ℕ → ℕ) → len ≡ 0 → Sent page dstva src len m m
nothing-Sent page dstva src len m e = record {
  mapped = λ i l. absurd (omega arith);
  bytes = λ i l. absurd (omega arith);
  others = λ q far. refl;
}

pub frame-base :
    (page : ℕ → Option ℕ) (dstva n pa0 i : ℕ)
    → page (pg_round_down dstva) ≡ some pa0
    → dstva % pgsize + n ≤ pgsize
    → i < n
    → target page (dstva + i) ≡ pa0 + (dstva - pg_round_down dstva) + i
frame-base page dstva n pa0 i e h l =
    phys-chunk (frame_at page) dstva n i h l
    ∙ ap (λ o. (elim o as (λ x. ℕ) [ none ↦ 0 | some p ↦ p ]) + (dstva - pg_round_down dstva) + i) e

copyout_from_lem :
    (k : ℕ) (page : ℕ → Option ℕ) (dstva src len : ℕ) (m : ℕ → ℕ)
    → len ≤ k
    → Distinct page dstva src len
    → CopyoutResult page dstva src len m
        (copyout_from k page dstva src len m).0
        (copyout_from k page dstva src len m).1
unfolding copyout_from
copyout_from_lem zero page dstva src len m h d =
    inl (ground arith, nothing-Sent page dstva src len m (omega arith))
copyout_from_lem (suc k) page dstva src len m h d = elim (ℕ_discrete len 0) [
  | yes e ↦ rw (==-zero len e) (inl (refl, nothing-Sent page dstva src len m e))
  | no ne ↦ elim (Option-cases (page (pg_round_down dstva))) [
    | inl fault ↦
        rw (==-nonzero len ne, fault)
          (inr (
            refl,
            record {
              unmapped =
                  (0, omega arith, ap (λ x. page (pg_round_down x)) (add-zero dstva) ∙ fault);
              others = λ q far. refl;
            },
          ))
    | inr (pa0, e) ↦
        let n = chunk dstva len in
        let c = chunk-IsChunk dstva len ne in
        let b = pa0 + (dstva - pg_round_down dstva) in
        let m1 = memmove b src n m in
        let base : (i : ℕ) → i < n → target page (dstva + i) ≡ b + i =
          λ i l. frame-base page dstva n pa0 i e c.one_page l in
        let copied = memmove_lem b src n m in
        rw (==-nonzero len ne, e)
          (elim (copyout_from_lem k page (pg_round_down dstva + pgsize) (src + n) (len - n) m1
            (omega (arith, c.some_bytes))
            (rest-Distinct page dstva src len n b m m1 c d (pa0, e) base copied)) [
              | inl (t, r) ↦
                  inl (t, Sent-step page dstva src len n b m m1 c d (pa0, e) base copied _ r)
              | inr (t, r) ↦
                  inr (t, Refused-step page dstva src len n b m m1 c d (pa0, e) base copied _ r)
            ])
  ]
]

-- A page that the process may write: below `MAXVA` the walk finds a leaf whose bits for valid,
-- user and write are set, and the page is the one in it.
abbrev pub MayWrite : ℕ → Tables → ℕ → ℕ → Type 0
MayWrite pagetable t va0 pa0 =
    (va0 < maxva)
    × ((pte : ℕ) × ((walk_from 2 pagetable va0 false t).0 ≡ some pte)
        × (t.words pte % 2 ≡ 1)
        × (t.words pte / 16 % 2 ≡ 1)
        × (t.words pte / 4 % 2 ≡ 1)
        × (pa0 ≡ t.words pte / 2 ^ 10 * 2 ^ 12 % 2 ^ 64))

leb_small : (va : ℕ) → va < maxva → leb maxva va ≡ false
leb_small va h = ground arith

leb-true : (a b : ℕ) → a ≤ b → leb a b ≡ true
leb-true a b h = ground arith

-- The bits of a word.
module _ (w : ℕ) where
  pte_tests :
      (not (pte_v w) || not (pte_u w) || not (pte_w w)) ≡ false
      → (w % 2 ≡ 1) × (w / 16 % 2 ≡ 1) × (w / 4 % 2 ≡ 1)
  pte_tests h = (ground (arith, h), ground (arith, h), ground (arith, h))

  pte_passes :
      w % 2 ≡ 1
      → w / 16 % 2 ≡ 1
      → w / 4 % 2 ≡ 1
      → (not (pte_v w) || not (pte_u w) || not (pte_w w)) ≡ false
  pte_passes v u x = ground (arith, v, u, x)

module _ (pagetable : ℕ) (t : Tables) (va0 : ℕ) where
  -- The page that may be written, or why there is none.
  IsPage : Option ℕ → Type 0
  IsPage none = (pa0 : ℕ) → MayWrite pagetable t va0 pa0 → ⊥
  IsPage (some pa) =
      MayWrite pagetable t va0 pa × ((pa0 : ℕ) → MayWrite pagetable t va0 pa0 → pa0 ≡ pa)

  same_leaf :
      (pte pa0 : ℕ)
      → (walk_from 2 pagetable va0 false t).0 ≡ some pte
      → MayWrite pagetable t va0 pa0
      → (t.words pte % 2 ≡ 1)
        × (t.words pte / 16 % 2 ≡ 1)
        × (t.words pte / 4 % 2 ≡ 1)
        × (pa0 ≡ pte2pa (t.words pte))
  same_leaf pte pa0 e (small, (pte', e', v, u, x, pa)) =
      let same : pte' ≡ pte = some-injective pte' pte (sym e' ∙ e) in
      subst
        (λ z.
          (t.words z % 2 ≡ 1)
          × (t.words z / 16 % 2 ≡ 1)
          × (t.words z / 4 % 2 ≡ 1)
          × (pa0 ≡ pte2pa (t.words z)))
        same (v, u, x, pa)

  writable-IsPage : IsPage (writable pagetable t va0)
  unfolding writable IsPage
  writable-IsPage = elim (dec_lt va0 maxva) [
    | no n ↦ rw (leb-true maxva va0 (omega (arith, n))) (λ pa0 w. absurd (n w.0))
    | yes small ↦ elim (Option-cases (walk_from 2 pagetable va0 false t).0) [
      | inl e ↦ rw (leb_small va0 small, e) (λ pa0 w. ground (arith, e, w.1.1))
      | inr (pte, e) ↦
          elim (Bool-cases
            (not (pte_v (t.words pte)) || not (pte_u (t.words pte)) || not (pte_w (t.words pte)))) [
              | inl fails ↦
                  rw (leb_small va0 small, e, fails)
                    (λ pa0 w.
                      let (v, u, x, pa) = same_leaf pte pa0 e w in
                      false≢true (sym (pte_passes (t.words pte) v u x) ∙ fails))
              | inr passes ↦
                  rw (leb_small va0 small, e, passes)
                    (
                      (
                        small,
                        (
                          pte,
                          e,
                          (pte_tests (t.words pte) passes).0,
                          (pte_tests (t.words pte) passes).1,
                          (pte_tests (t.words pte) passes).2,
                          refl,
                        ),
                      ),
                      λ pa0 w. (same_leaf pte pa0 e w).3,
                    )
            ]
    ]
  ]

  -- `writable` gives a page exactly if it may be written.
  writable-MayWrite :
      (pa0 : ℕ) → (writable pagetable t va0 ≡ some pa0) ↔ MayWrite pagetable t va0 pa0
  unfolding IsPage
  writable-MayWrite pa0 = go (writable pagetable t va0) writable-IsPage
    where
      go : (r : Option ℕ) → IsPage r → (r ≡ some pa0) ↔ MayWrite pagetable t va0 pa0
      go none h = (λ e. ground (arith, e), λ w. absurd (h pa0 w))
      go (some pa) (w, only) = (
        λ e. subst (MayWrite pagetable t va0) (some-injective pa pa0 e) w,
        λ w'. ap some (sym (only pa0 w')),
      )

-- `copyout`, to bytes that the page table maps to different places, none of them in the source,
-- either finds a page for each byte and copies every one, or fails at a byte that has none. No byte
-- outside the destination changes. A page is found for an address exactly if it is below `MAXVA`
-- and the walk ends at an entry that is valid, user and writable, and it is the page of the entry.
pub copyout_lem :
    (pagetable : ℕ) (t : Tables) (dstva src len : ℕ) (m : ℕ → ℕ)
    → Distinct (writable pagetable t) dstva src len
    → CopyoutResult
        (writable pagetable t)
        dstva
        src
        len
        m
        (copyout pagetable t dstva src len m).0
        (copyout pagetable t dstva src len m).1
      × ((va0 pa0 : ℕ) → (writable pagetable t va0 ≡ some pa0) ↔ MayWrite pagetable t va0 pa0)
unfolding copyout
copyout_lem pagetable t dstva src len m d = (
  copyout_from_lem len (writable pagetable t) dstva src len m (omega arith) d,
  writable-MayWrite pagetable t,
)
