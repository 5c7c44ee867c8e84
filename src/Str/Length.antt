-- ===== src/Str/Length.antt =====
-- strlen and strncmp of kernel/string.c.
use xv6_riscv_labs.Prelude.{
  ℕ, zero, suc, ◌+◌, ◌≤◌, ◌<◌, ◌≡◌, ◌≢◌, refl, some, arith, ℕ_discrete, ◌⊎◌, inl, inr,
}
use xv6_riscv_labs.Prelude.Int.{pos, sub_ℕ}
use xv6_riscv_labs.Str.Move.{Memory}
use xv6_riscv_labs.Str.Compare.{strlen, strlen_from, strncmp}

-- A string of `n` characters stands at `s`.
pub record IsString (s n : ℕ) (m : Memory) : Type 0 where
  pub plain : (i : ℕ) → i < n → m (s + i) ≢ 0
  pub nul : m (s + n) ≡ 0

strlen_from_lem :
    (f s i n : ℕ) (m : Memory) → IsString s n m → i ≤ n → n < i + f → strlen_from f s i m ≡ some n
unfolding strlen_from
strlen_from_lem zero s i n m h lo hi = absurd (omega arith)
strlen_from_lem (suc f) s i n m h lo hi = elim (ℕ_discrete i n) [
  | yes e ↦ ground (arith, h.nul)
  | no ne ↦ ground (
    arith,
    h.plain i (omega arith),
    strlen_from_lem f s (i + 1) n m h (omega arith) (omega arith),
  )
]

-- `strlen` ends on every string, within one round for each character and one for the NUL, and
-- returns the number of its characters.
pub strlen_lem : (fuel s n : ℕ) (m : Memory) → IsString s n m → n < fuel → strlen fuel s m ≡ some n
unfolding strlen
strlen_lem fuel s n m h enough = strlen_from_lem fuel s 0 n m h (omega arith) (omega arith)

-- Where two strings differ within `n` bytes, after equal bytes none of which is NUL.
pub record Parts (p q n i : ℕ) (m : Memory) : Type 0 where
  pub inside : i < n
  pub differ : m (p + i) ≢ m (q + i)
  pub same : (j : ℕ) → j < i → (m (p + j) ≡ m (q + j)) × (m (p + j) ≢ 0)

-- Equal bytes up to the `n`-th, or up to a NUL in both.
pub record Agrees (p q n i : ℕ) (m : Memory) : Type 0 where
  pub inside : i ≤ n
  pub ends : (i ≡ n) ⊎ ((m (p + i) ≡ 0) × (m (q + i) ≡ 0))
  pub same : (j : ℕ) → j < i → (m (p + j) ≡ m (q + j)) × (m (p + j) ≢ 0)

shift :
    (p q i : ℕ) (m : Memory)
    → m p ≡ m q
    → m p ≢ 0
    → ((j : ℕ) → j < i → (m (p + 1 + j) ≡ m (q + 1 + j)) × (m (p + 1 + j) ≢ 0))
    → (j : ℕ) → j < suc i
    → (m (p + j) ≡ m (q + j)) × (m (p + j) ≢ 0)
shift p q i m e ne h zero k = (ground arith, λ z. ne (ground (arith, z)))
shift p q i m e ne h (suc j) k =
    let (same, plain) = h j (omega arith) in (ground (arith, same), λ z. plain (ground (arith, z)))

-- `strncmp` returns 0 exactly if the strings agree in their first `n` bytes or end there alike;
-- else it returns the difference of the first bytes that differ.
pub strncmp_lem :
    (p q n : ℕ) (m : Memory)
    → ((i : ℕ) × Agrees p q n i m × (strncmp p q n m ≡ pos 0))
      ⊎ ((i : ℕ) × Parts p q n i m × (strncmp p q n m ≡ sub_ℕ (m (p + i)) (m (q + i))))
unfolding strncmp
strncmp_lem p q zero m =
    inl (
      0,
      record { inside = omega arith; ends = inl refl; same = λ j k. absurd (omega arith) },
      refl,
    )
strncmp_lem p q (suc n) m = elim (ℕ_discrete (m p) (m q)) [
  | no ne ↦ inr (
    0,
    record {
      inside = omega arith;
      differ = λ e. ne (ground (arith, e));
      same = λ j k. absurd (omega arith);
    },
    ground arith,
  )
  | yes e ↦ elim (ℕ_discrete (m p) 0) [
    | yes z ↦ inl (
      0,
      record {
        inside = omega arith;
        ends = inr (ground arith, ground arith);
        same = λ j k. absurd (omega arith);
      },
      ground arith,
    )
    | no nz ↦ elim (strncmp_lem (p + 1) (q + 1) n m) [
      | inl (i, a, r) ↦ inl (
        suc i,
        record {
          inside = omega (arith, a.inside);
          ends = ground (arith, a.ends);
          same = shift p q i m e nz a.same;
        },
        ground (arith, r),
      )
      | inr (i, d, r) ↦ inr (
        suc i,
        record {
          inside = omega (arith, d.inside);
          differ = λ h. d.differ (ground (arith, h));
          same = shift p q i m e nz d.same;
        },
        ground (arith, r),
      )
    ]
  ]
]
