-- ===== src/Vm/Copyin.antt =====
-- What `copyin` of kernel/vm.c puts into the kernel's memory.
use native.Mathlib.Nat.{add-zero}
use xv6_riscv_labs.Prelude.{
  subst, ℕ, zero, suc, ◌+◌, ◌-◌, ◌%◌, ◌<◌, ◌≤◌, ◌≡◌, ◌≢◌, refl, ap, sym, ◌∙◌, Bool, true, false,
  ◌&&◌, ◌==◌, ltb, leb, if◌then◌else◌, arith, Bool-cases, ◌⊎◌, inl, inr, ℕ_discrete, dec_lt,
}
use xv6_riscv_labs.Str.{memmove, memmove_lem}
use xv6_riscv_labs.Vm.Defs.{pgsize, pg_round_down, chunk, copyin_from, copyin, walkaddr, Tables}

-- The physical address of a byte.
abbrev pub phys : (ℕ → ℕ) → ℕ → ℕ
phys pa va = pa (pg_round_down va) + va % pgsize

-- One round handles the bytes of one page.
pub record IsChunk (va len n : ℕ) : Type 0 where
  pub some_bytes : 1 ≤ n
  pub within : n ≤ len
  pub one_page : va % pgsize + n ≤ pgsize
  pub next : (i : ℕ) → i < len - n → pg_round_down va + pgsize + i ≡ va + (n + i)

pub chunk-IsChunk : (va len : ℕ) → len ≢ 0 → IsChunk va len (chunk va len)
chunk-IsChunk va len ne = record {
  some_bytes = ground arith;
  within = ground arith;
  one_page = ground arith;
  next = λ i h. ground arith;
}

pub same_page :
    (va n i : ℕ) → va % pgsize + n ≤ pgsize → i < n → pg_round_down (va + i) ≡ pg_round_down va
same_page va n i h l = omega arith

pub same_offset :
    (va n i : ℕ) → va % pgsize + n ≤ pgsize → i < n → (va + i) % pgsize ≡ va % pgsize + i
same_offset va n i h l = omega arith

pub offset : (va : ℕ) → va - pg_round_down va ≡ va % pgsize
offset va = omega arith

pub phys-chunk :
    (pa : ℕ → ℕ) (va n i : ℕ)
    → va % pgsize + n ≤ pgsize
    → i < n
    → phys pa (va + i) ≡ pa (pg_round_down va) + (va - pg_round_down va) + i
phys-chunk pa va n i h l =
    rw (same_page va n i h l, same_offset va n i h l, offset va) (omega arith)

abbrev pub in_range : ℕ → ℕ → ℕ → Bool
in_range a len q = leb a q && ltb q (a + len)

-- What a run of `copyin` leaves.
pub record Copied (pa : ℕ → ℕ) (dst srcva len : ℕ) (m m' : ℕ → ℕ) : Type 0 where
  pub mapped : (i : ℕ) → i < len → pa (pg_round_down (srcva + i)) ≢ 0
  pub bytes : (q : ℕ) → m' q ≡ (if in_range dst len q then m (phys pa (srcva + (q - dst))) else m q)

pub record Faulted (pa : ℕ → ℕ) (dst srcva len : ℕ) (m m' : ℕ → ℕ) : Type 0 where
  pub unmapped : (i : ℕ) × (i < len) × (pa (pg_round_down (srcva + i)) ≡ 0)
  pub others : (q : ℕ) → in_range dst len q ≡ false → m' q ≡ m q

abbrev pub CopyinResult : (ℕ → ℕ) → ℕ → ℕ → ℕ → (ℕ → ℕ) → Bool → (ℕ → ℕ) → Type 0
CopyinResult pa dst srcva len m ok m' =
    ((ok ≡ true) × Copied pa dst srcva len m m') ⊎ ((ok ≡ false) × Faulted pa dst srcva len m m')

abbrev pub Apart : (ℕ → ℕ) → ℕ → ℕ → ℕ → Type 0
Apart pa dst srcva len = (i j : ℕ) → i < len → j < len → phys pa (srcva + i) ≢ dst + j

module _ (pa : ℕ → ℕ) (dst srcva len n : ℕ) (m m1 : ℕ → ℕ) (c : IsChunk srcva len n)
    (apart : Apart pa dst srcva len) (page : pa (pg_round_down srcva) ≢ 0)
    (copied : (q : ℕ)
      → m1 q ≡ (
          if in_range dst n q
          then m (pa (pg_round_down srcva) + (srcva - pg_round_down srcva) + (q - dst))
          else m q)) where
  rest-Apart : Apart pa (dst + n) (pg_round_down srcva + pgsize) (len - n)
  rest-Apart i j h l e =
      apart (n + i) (n + j) (omega arith) (omega arith)
        (ap (phys pa) (sym (c.next i h)) ∙ e ∙ omega arith)

  outside : (q : ℕ) → in_range dst len q ≡ false → in_range dst n q ≡ false
  outside q o = ground (arith, c.within, o)

  -- No byte of the source is overwritten.
  source_kept : (i : ℕ) → i < len → m1 (phys pa (srcva + i)) ≡ m (phys pa (srcva + i))
  source_kept i h = copied (phys pa (srcva + i)) ∙ rw not_inside refl
    where
      apart_y : (j : ℕ) → j < len → phys pa (srcva + i) ≢ dst + j
      apart_y j l = apart i j h l

      not_inside : in_range dst n (phys pa (srcva + i)) ≡ false
      not_inside = elim (Bool-cases (in_range dst n (phys pa (srcva + i)))) [
        | inr e ↦ e
        | inl e ↦
            absurd (
              apart_y (phys pa (srcva + i) - dst) (ground (arith, e, c.within)) (ground (arith, e)))
      ]

  bytes-first : (q : ℕ) → in_range dst n q ≡ true → m1 q ≡ m (phys pa (srcva + (q - dst)))
  bytes-first q a =
      copied q ∙ rw (a, phys-chunk pa srcva n (q - dst) c.one_page (ground (arith, a))) refl

  bytes-rest :
      (q : ℕ)
      → in_range (dst + n) (len - n) q ≡ true
      → m1 (phys pa (pg_round_down srcva + pgsize + (q - (dst + n))))
        ≡ m (phys pa (srcva + (q - dst)))
  bytes-rest q b =
      ap (λ x. m1 (phys pa x)) (c.next (q - (dst + n)) (ground (arith, b)) ∙ ground (arith, b))
      ∙ source_kept (q - dst) (ground (arith, b, c.within))

  Copied-step :
      (m' : ℕ → ℕ)
      → Copied pa (dst + n) (pg_round_down srcva + pgsize) (len - n) m1 m'
      → Copied pa dst srcva len m m'
  Copied-step m' r = record {
    mapped = λ i h. elim (dec_lt i n) [
      | yes l ↦ rw (same_page srcva n i c.one_page l) page
      | no l ↦ λ e. r.mapped (i - n) (omega arith) (
          subst (λ x. pa (pg_round_down x) ≡ 0) (omega arith ∙ sym (c.next (i - n) (omega arith)))
            e)
    ];
    bytes = λ q. elim (Bool-cases (in_range dst n q)) [
      | inl a ↦ r.bytes q ∙ rw (not_rest q a) (rw (whole q (inl a)) (bytes-first q a))
      | inr a ↦ elim (Bool-cases (in_range (dst + n) (len - n) q)) [
        | inl b ↦ r.bytes q ∙ rw b (rw (whole q (inr b)) (bytes-rest q b))
        | inr b ↦ r.bytes q ∙ rw b (rw (neither q a b) (copied q ∙ rw a refl))
      ]
    ];
  }
    where
      not_rest : (q : ℕ) → in_range dst n q ≡ true → in_range (dst + n) (len - n) q ≡ false
      not_rest q a = ground (arith, a)

      whole :
          (q : ℕ)
          → (in_range dst n q ≡ true) ⊎ (in_range (dst + n) (len - n) q ≡ true)
          → in_range dst len q ≡ true
      whole q (inl a) = ground (arith, a, c.within)
      whole q (inr b) = ground (arith, b, c.within)

      neither :
          (q : ℕ)
          → in_range dst n q ≡ false
          → in_range (dst + n) (len - n) q ≡ false
          → in_range dst len q ≡ false
      neither q a b = ground (arith, a, b, c.within)

  Faulted-step :
      (m' : ℕ → ℕ)
      → Faulted pa (dst + n) (pg_round_down srcva + pgsize) (len - n) m1 m'
      → Faulted pa dst srcva len m m'
  Faulted-step m' r = record {
    unmapped =
        let (i, h, e) = r.unmapped in
        (n + i, omega (arith, c.within), subst (λ x. pa (pg_round_down x) ≡ 0) (c.next i h) e);
    others = λ q o. r.others q (ground (arith, c.within, o)) ∙ copied q ∙ rw (outside q o) refl;
  }

nothing-Copied :
    (pa : ℕ → ℕ) (dst srcva len : ℕ) (m : ℕ → ℕ) → len ≡ 0 → Copied pa dst srcva len m m
nothing-Copied pa dst srcva len m e = record {
  mapped = λ i l. absurd (omega arith);
  bytes = λ q. rw (empty q) refl;
}
  where
    empty : (q : ℕ) → in_range dst len q ≡ false
    empty q = ground (arith, e)

pub ==-zero : (a : ℕ) → a ≡ 0 → (a == 0) ≡ true
==-zero a e = ground (arith, e)

pub ==-nonzero : (a : ℕ) → a ≢ 0 → (a == 0) ≡ false
==-nonzero a e = ground (arith, e)

copyin_from_lem :
    (k : ℕ) (pa : ℕ → ℕ) (dst srcva len : ℕ) (m : ℕ → ℕ)
    → len ≤ k
    → Apart pa dst srcva len
    → CopyinResult pa dst srcva len m
        (copyin_from k pa dst srcva len m).0
        (copyin_from k pa dst srcva len m).1
unfolding copyin_from
copyin_from_lem zero pa dst srcva len m h apart =
    inl (ground arith, nothing-Copied pa dst srcva len m (omega arith))
copyin_from_lem (suc k) pa dst srcva len m h apart = elim (ℕ_discrete len 0) [
  | yes e ↦ rw (==-zero len e) (inl (refl, nothing-Copied pa dst srcva len m e))
  | no ne ↦ elim (ℕ_discrete (pa (pg_round_down srcva)) 0) [
    | yes fault ↦
        rw (==-nonzero len ne, ==-zero (pa (pg_round_down srcva)) fault)
          (inr (
            refl,
            record {
              unmapped = (0, omega arith, ap (λ x. pa (pg_round_down x)) (add-zero srcva) ∙ fault);
              others = λ q o. refl;
            },
          ))
    | no page ↦
        let n = chunk srcva len in
        let c = chunk-IsChunk srcva len ne in
        let from = pa (pg_round_down srcva) + (srcva - pg_round_down srcva) in
        let m1 = memmove dst from n m in
        let copied = memmove_lem dst from n m in
        rw (==-nonzero len ne, ==-nonzero (pa (pg_round_down srcva)) page)
          (elim (copyin_from_lem k pa (dst + n) (pg_round_down srcva + pgsize) (len - n) m1
            (omega (arith, c.some_bytes))
            (rest-Apart pa dst srcva len n m m1 c apart page copied)) [
              | inl (t, r) ↦ inl (t, Copied-step pa dst srcva len n m m1 c apart page copied _ r)
              | inr (t, r) ↦ inr (t, Faulted-step pa dst srcva len n m m1 c apart page copied _ r)
            ])
  ]
]

-- `copyin`, of bytes whose pages do not meet the destination, either finds a page for each byte and
-- copies every one, or fails at a byte that has none. Bytes outside the destination never change.
pub copyin_lem :
    (pagetable : ℕ) (t : Tables) (dst srcva len : ℕ) (m : ℕ → ℕ)
    → Apart (walkaddr pagetable t) dst srcva len
    → CopyinResult
        (walkaddr pagetable t)
        dst
        srcva
        len
        m
        (copyin pagetable t dst srcva len m).0
        (copyin pagetable t dst srcva len m).1
unfolding copyin
copyin_lem pagetable t dst srcva len m apart =
    copyin_from_lem len (walkaddr pagetable t) dst srcva len m (omega arith) apart
