-- ===== src/Str/Copy.antt =====
-- strncpy and safestrcpy of kernel/string.c.
use xv6_riscv_labs.Prelude.{
  ℕ, zero, suc, ◌+◌, ◌≤◌, ◌<◌, ◌≡◌, ◌≢◌, refl, false, ◌&&◌, arith, ltb, leb, ◌==◌, if◌then◌else◌,
  update, ℕ_discrete, ==-false, ◌⊎◌, inl, inr,
}
use xv6_riscv_labs.Bits.{IsBytes}
use xv6_riscv_labs.Str.Move.{Memory}

-- `while(n-- > 0) *s++ = 0;`
pad : ℕ → ℕ → Memory → Memory
pad zero s m = m
pad (suc n) s m = pad n (s + 1) (update m s 0)

-- `while(n-- > 0 && (*s++ = *t++) != 0) ;`, and the padding after the NUL.
unfoldable pub strncpy : ℕ → ℕ → ℕ → Memory → Memory
unfolding pad
strncpy s t zero m = m
strncpy s t (suc n) m =
    let m' = update m s (m t) in
    let rest = strncpy (s + 1) (t + 1) n m' in if m t == 0 then pad n (s + 1) m' else rest

-- `while(--n > 0 && (*s++ = *t++) != 0) ; *s = 0;` with `n` bytes left after the decrement.
safe_from : ℕ → ℕ → ℕ → Memory → Memory
safe_from s t zero m = update m s 0
safe_from s t (suc n) m =
    let m' = update m s (m t) in
    let rest = safe_from (s + 1) (t + 1) n m' in if m t == 0 then update m' (s + 1) 0 else rest

-- `n` is the `int` argument where it is positive; nothing is done where it is not.
unfoldable pub safestrcpy : ℕ → ℕ → ℕ → Memory → Memory
unfolding safe_from
safestrcpy s t zero m = m
safestrcpy s t (suc n) m = safe_from s t n m

-- The two runs of `n` bytes do not overlap.
abbrev pub Disjoint : ℕ → ℕ → ℕ → Type 0
Disjoint s t n = (s + n ≤ t) ⊎ (t + n ≤ s)

pad_lem :
    (n s : ℕ) (m : Memory) (q : ℕ) → pad n s m q ≡ (if leb s q && ltb q (s + n) then 0 else m q)
unfolding pad
pad_lem zero s m q = ground arith
pad_lem (suc n) s m q = ground (arith, pad_lem n (s + 1) (update m s 0) q)

pad-IsBytes : (n s : ℕ) (m : Memory) → IsBytes m → IsBytes (pad n s m)
pad-IsBytes n s m h q = ground (arith, pad_lem n s m q, h q)

pub strncpy-IsBytes : (s t n : ℕ) (m : Memory) → IsBytes m → IsBytes (strncpy s t n m)
unfolding strncpy
strncpy-IsBytes s t zero m h = h
strncpy-IsBytes s t (suc n) m h =
    let stored : IsBytes (update m s (m t)) = λ q. ground (arith, h q, h t) in
    elim (ℕ_discrete (m t) 0) [
      | yes z ↦ rw z (pad-IsBytes n (s + 1) (update m s 0) (λ q. ground (arith, h q)))
      | no z ↦ rw (==-false (m t) 0 z) (strncpy-IsBytes (s + 1) (t + 1) n (update m s (m t)) stored)
    ]

-- `strncpy` between disjoint runs: a byte of the first `n` is the source's up to and including its
-- first NUL, and 0 after it; no byte outside the run changes.
pub strncpy_lem :
    (s t n : ℕ) (m : Memory)
    → Disjoint s t n
    → ((i : ℕ) → i < n → ((j : ℕ) → j < i → m (t + j) ≢ 0) → strncpy s t n m (s + i) ≡ m (t + i))
      × ((i j : ℕ) → i < n → j < i → m (t + j) ≡ 0 → strncpy s t n m (s + i) ≡ 0)
      × ((q : ℕ) → (q < s) ⊎ (s + n ≤ q) → strncpy s t n m q ≡ m q)
unfolding strncpy
strncpy_lem s t zero m d =
    (λ i h f. absurd (omega arith), λ i j h k z. absurd (omega arith), λ q o. refl)
strncpy_lem s t (suc n) m d = elim (ℕ_discrete (m t) 0) [
  | yes z ↦ (
    λ i h f. elim (ℕ_discrete i 0) [
      | yes e ↦ ground (arith, pad_lem n (s + 1) (update m s (m t)) (s + i))
      | no ne ↦ absurd (f 0 (omega arith) (ground arith))
    ],
    λ i j h k e. ground (arith, pad_lem n (s + 1) (update m s (m t)) (s + i)),
    λ q o. ground (arith, pad_lem n (s + 1) (update m s (m t)) q),
  )
  | no nz ↦
      let (copied, nul, outside) = strncpy_lem (s + 1) (t + 1) n (update m s (m t)) (next d) in
      (
        step_copied nz copied (outside s (inl (omega arith))),
        step_nul nz nul,
        λ q o. ground (arith, outside q (later q o), o),
      )
]
  where
    next : Disjoint s t (suc n) → Disjoint (s + 1) (t + 1) n
    next (inl p) = inl (omega arith)
    next (inr p) = inr (omega arith)

    later : (q : ℕ) → (q < s) ⊎ (s + suc n ≤ q) → (q < s + 1) ⊎ (s + 1 + n ≤ q)
    later q (inl p) = inl (omega arith)
    later q (inr p) = inr (omega arith)

    step_copied :
        m t ≢ 0
        → ((i : ℕ)
            → i < n
            → ((j : ℕ) → j < i → update m s (m t) (t + 1 + j) ≢ 0)
            → strncpy (s + 1) (t + 1) n (update m s (m t)) (s + 1 + i)
              ≡ update m s (m t) (t + 1 + i))
        → strncpy (s + 1) (t + 1) n (update m s (m t)) s ≡ update m s (m t) s
        → (i : ℕ) → i < suc n
        → ((j : ℕ) → j < i → m (t + j) ≢ 0)
        → strncpy s t (suc n) m (s + i) ≡ m (t + i)
    step_copied nz copied first zero h f = ground (arith, first)
    step_copied nz copied first (suc i) h f =
        ground (
          arith,
          d,
          copied i (omega arith) (λ j k e. f (suc j) (omega arith) (ground (arith, d, e))),
        )

    step_nul :
        m t ≢ 0
        → ((i j : ℕ)
            → i < n
            → j < i
            → update m s (m t) (t + 1 + j) ≡ 0
            → strncpy (s + 1) (t + 1) n (update m s (m t)) (s + 1 + i) ≡ 0)
        → (i j : ℕ) → i < suc n
        → j < i
        → m (t + j) ≡ 0
        → strncpy s t (suc n) m (s + i) ≡ 0
    step_nul nz nul i zero h k e = absurd (nz (ground (arith, e)))
    step_nul nz nul zero (suc j) h k e = absurd (omega arith)
    step_nul nz nul (suc i) (suc j) h k e =
        ground (arith, d, nul i j (omega arith) (omega arith) (ground (arith, d, e)))

-- A NUL-terminated copy: bytes of the source other than NUL, then a NUL in the run of `n` bytes.
pub record Terminated (s t n : ℕ) (m m' : Memory) : Type 0 where
  pub size : ℕ
  pub within : size < n
  pub nul : m' (s + size) ≡ 0
  pub copied : (i : ℕ) → i < size → (m' (s + i) ≡ m (t + i)) × (m (t + i) ≢ 0)
  pub whole : (m (t + size) ≡ 0) ⊎ (size + 1 ≡ n)
  pub outside : (q : ℕ) → (q < s) ⊎ (s + n ≤ q) → m' q ≡ m q

safe_from_step :
    (s t n : ℕ) (m m' : Memory)
    → m t ≢ 0
    → Disjoint s t (suc (suc n))
    → Terminated (s + 1) (t + 1) (suc n) (update m s (m t)) m'
    → Terminated s t (suc (suc n)) m m'
safe_from_step s t n m m' nz d r = record {
  size = suc r.size;
  within = omega (arith, r.within);
  nul = ground (arith, r.nul);
  copied = copied;
  whole = ground (arith, d, r.whole, r.within);
  outside = λ q o. ground (arith, r.outside q (later q o), o);
}
  where
    later : (q : ℕ) → (q < s) ⊎ (s + suc (suc n) ≤ q) → (q < s + 1) ⊎ (s + 1 + suc n ≤ q)
    later q (inl p) = inl (omega arith)
    later q (inr p) = inr (omega arith)

    copied : (i : ℕ) → i < suc r.size → (m' (s + i) ≡ m (t + i)) × (m (t + i) ≢ 0)
    copied zero h = (ground (arith, r.outside s (inl (omega arith))), ground arith)
    copied (suc i) h =
        let (same, ne) = r.copied i (omega arith) in
        (ground (arith, d, same, r.within), λ e. ne (ground (arith, d, e, r.within)))

safe_from-Terminated :
    (s t n : ℕ) (m : Memory) → Disjoint s t (suc n) → Terminated s t (suc n) m (safe_from s t n m)
unfolding safe_from
safe_from-Terminated s t zero m d = record {
  size = 0;
  within = omega arith;
  nul = ground arith;
  copied = λ i h. absurd (omega arith);
  whole = inr (omega arith);
  outside = λ q o. ground (arith, o);
}
safe_from-Terminated s t (suc n) m d = elim (ℕ_discrete (m t) 0) [
  | yes z ↦ record {
    size = 0;
    within = omega arith;
    nul = ground arith;
    copied = λ i h. absurd (omega arith);
    whole = inl (ground arith);
    outside = λ q o. ground (arith, o);
  }
  | no nz ↦
      let go_on : (m t == 0) ≡ false = ground arith in
      rw go_on (
        safe_from_step s t n m (safe_from (s + 1) (t + 1) n (update m s (m t))) nz d
          (safe_from-Terminated (s + 1) (t + 1) n (update m s (m t)) (next d)))
]
  where
    next : Disjoint s t (suc (suc n)) → Disjoint (s + 1) (t + 1) (suc n)
    next (inl p) = inl (omega arith)
    next (inr p) = inr (omega arith)

-- `safestrcpy` between disjoint runs leaves a NUL-terminated string of at most `n - 1` characters:
-- the whole source if it is shorter, or its first `n - 1` characters.
pub safestrcpy-Terminated :
    (s t n : ℕ) (m : Memory) → 0 < n → Disjoint s t n → Terminated s t n m (safestrcpy s t n m)
unfolding safestrcpy
safestrcpy-Terminated s t zero m h d = absurd (omega arith)
safestrcpy-Terminated s t (suc n) m h d = safe_from-Terminated s t n m d
