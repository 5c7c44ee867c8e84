-- ===== src/Str/Compare.antt =====
-- memcmp, strncmp and strlen of kernel/string.c.
use xv6_riscv_labs.Prelude.{
  ℕ, zero, suc, ◌+◌, ◌<◌, ◌≡◌, ◌≢◌, ◌⊎◌, inl, inr, refl, Option, none, some, ◌&&◌, not, arith, ◌==◌,
  if◌then◌else◌, ℕ_discrete,
}
use xv6_riscv_labs.Prelude.Int.{ℤ, pos, sub_ℕ}
use xv6_riscv_labs.Str.Move.{Memory}

-- `n` is the count of bytes left.
unfoldable pub memcmp : ℕ → ℕ → ℕ → Memory → ℤ
memcmp s1 s2 zero m = pos 0
memcmp s1 s2 (suc n) m = if m s1 == m s2 then memcmp (s1 + 1) (s2 + 1) n m else sub_ℕ (m s1) (m s2)

unfoldable pub strncmp : ℕ → ℕ → ℕ → Memory → ℤ
strncmp p q zero m = pos 0
strncmp p q (suc n) m =
    if not (m p == 0) && (m p == m q) then strncmp (p + 1) (q + 1) n m else sub_ℕ (m p) (m q)

-- `for(n = 0; s[n]; n++)` from index `n`, on fuel: `none` is a run off the memory.
unfoldable pub strlen_from : ℕ → ℕ → ℕ → Memory → Option ℕ
strlen_from zero s n m = none
strlen_from (suc f) s n m =
    let rest = strlen_from f s (n + 1) m in if m (s + n) == 0 then some n else rest

unfoldable pub strlen : ℕ → ℕ → Memory → Option ℕ
unfolding strlen_from
strlen fuel s m = strlen_from fuel s 0 m

-- The first place where the runs differ, with nothing but equal bytes before it.
pub record DiffersAt (s1 s2 n i : ℕ) (m : Memory) : Type 0 where
  pub inside : i < n
  pub differ : m (s1 + i) ≢ m (s2 + i)
  pub same : (j : ℕ) → j < i → m (s1 + j) ≡ m (s2 + j)

memcmp_here : (s1 s2 n : ℕ) (m : Memory) → m s1 ≢ m s2 → DiffersAt s1 s2 (suc n) 0 m
memcmp_here s1 s2 n m h = record {
  inside = omega arith;
  differ = λ e. h (ground (arith, e));
  same = λ j k. absurd (omega arith);
}

DiffersAt-later :
    (s1 s2 n i : ℕ) (m : Memory)
    → m s1 ≡ m s2
    → DiffersAt (s1 + 1) (s2 + 1) n i m
    → DiffersAt s1 s2 (suc n) (suc i) m
DiffersAt-later s1 s2 n i m e d = record {
  inside = omega (arith, d.inside);
  differ = λ h. d.differ (ground arith);
  same = later;
}
  where
    later : (j : ℕ) → j < suc i → m (s1 + j) ≡ m (s2 + j)
    later zero k = ground arith
    later (suc j) k = ground (arith, d.same j)

-- `memcmp` returns 0 exactly if the two runs of `n` bytes are equal; else it returns the
-- difference of the bytes at the first place where they differ.
pub memcmp_lem :
    (s1 s2 n : ℕ) (m : Memory)
    → ((memcmp s1 s2 n m ≡ pos 0) × ((j : ℕ) → j < n → m (s1 + j) ≡ m (s2 + j)))
      ⊎ ((i : ℕ) × DiffersAt s1 s2 n i m × (memcmp s1 s2 n m ≡ sub_ℕ (m (s1 + i)) (m (s2 + i))))
unfolding memcmp
memcmp_lem s1 s2 zero m = inl (refl, λ j k. absurd (omega arith))
memcmp_lem s1 s2 (suc n) m = elim (ℕ_discrete (m s1) (m s2)) [
  | no ne ↦ inr (0, memcmp_here s1 s2 n m ne, ground arith)
  | yes e ↦ elim (memcmp_lem (s1 + 1) (s2 + 1) n m) [
    | inl same ↦ inl (ground (arith, same), all_same e same.1)
    | inr (i, d, r) ↦ inr (suc i, DiffersAt-later s1 s2 n i m e d, ground arith)
  ]
]
  where
    all_same :
        m s1 ≡ m s2
        → ((j : ℕ) → j < n → m (s1 + 1 + j) ≡ m (s2 + 1 + j))
        → (j : ℕ) → j < suc n
        → m (s1 + j) ≡ m (s2 + j)
    all_same e h zero k = ground arith
    all_same e h (suc j) k = ground (arith, h j)
