-- ===== src/Print/Digits.antt =====
-- How many characters printint of user/printf.c and kernel/printf.c store.
use xv6_riscv_labs.Prelude.{
  ℕ, zero, suc, ◌*◌, ◌/◌, ◌^◌, ◌≤◌, ◌<◌, ◌≡◌, Bool, false, ◌&&◌, [], ◌∷◌, arith, ◌⊎◌, inl, inr,
  Bool-cases, ℕ_discrete, dec_lt, ==-false, length, length-append,
}
use native.Mathlib.Nat.{div-lt_iff_lt-mul, le-div_iff_mul-le, mul-pos}
use xv6_riscv_labs.Print.Defs.{store_digits, store_int, is_negative, negate}

abbrev pub power : ℕ → ℕ → ℕ
power base zero = 1
power base (suc j) = power base j * base

module _ (letter base : ℕ) (h : 0 < base) where
  div_small : (x y : ℕ) → x < y * base → x / base < y
  div_small x y l = (div-lt_iff_lt-mul {k = base} {x = x} {y = y} h).1 l

  div_large : (x y : ℕ) → y * base ≤ x → y ≤ x / base
  div_large x y l = (le-div_iff_mul-le {k = base} {x = y} {y = x} h).1 l

  power_some : (j : ℕ) → 0 < power base j
  power_some zero = omega arith
  power_some (suc j) = mul-pos {m = power base j} {n = base} (power_some j) h

  -- At most `j` digits below the power, and more from the power on.
  few_digits : (k j x : ℕ) → 0 < j → x < power base j → length (store_digits k letter base x) ≤ j
  unfolding store_digits
  few_digits zero j x p l = omega arith
  few_digits (suc k) zero x p l = elim p [ ]
  few_digits (suc k) (suc zero) x p l =
      let none_left : x / base ≡ 0 = omega (arith, div_small x 1 (omega (arith, l))) in
      rw none_left (omega arith)
  few_digits (suc k) (suc (suc j)) x p l = elim (ℕ_discrete (x / base) 0) [
    | yes z ↦ rw z (omega arith)
    | no n ↦ rw (==-false (x / base) 0 n) (
        omega (
          arith,
          few_digits k (suc j) (x / base) (omega arith) (div_small x (power base (suc j)) l),
        ))
  ]

  many_digits : (k j x : ℕ) → j < k → power base j ≤ x → j < length (store_digits k letter base x)
  unfolding store_digits
  many_digits zero j x p l = absurd (omega (arith, p))
  many_digits (suc k) zero x p l = omega arith
  many_digits (suc k) (suc j) x p l =
      let left : power base j ≤ x / base = div_large x (power base j) l in
      rw (==-false (x / base) 0 (λ z. absurd (omega (arith, left, power_some j, z))))
        (omega (arith, many_digits k j (x / base) (omega (arith, p)) left))

-- A number of 32 bits in a base in which its digits are few.
user_fits :
    (base j xx : ℕ) (sgn : Bool)
    → 0 < base
    → 0 < j
    → j < 16
    → 2 ^ 32 ≤ power base j
    → xx < 2 ^ 32
    → length (store_int 32 b'A' xx base sgn) ≤ 16
unfolding store_int
user_fits base j xx sgn b p l small h = elim (Bool-cases (sgn && is_negative 32 xx)) [
  | inl t ↦ rw t (
      omega (
        arith,
        length-append (store_digits 32 b'A' base (negate 32 xx)) (b'-' ∷ []),
        few_digits b'A' base b 32 j (negate 32 xx) p (omega (arith, small)),
        l,
      ))
  | inr f ↦ rw f (omega (arith, few_digits b'A' base b 32 j xx p (omega (arith, small, h)), l))
]

-- In the 16 characters of `buf`, printint of user/printf.c stores every number of 32 bits, in base
-- 10 or 16 and with or without sign, and printint of kernel/printf.c every number of 64 bits in
-- base 16 without sign; in base 10 without sign the latter stays in them if the number is below
-- 10 ^ 16, and stores more than 16 characters otherwise.
pub store_int_bounds :
    (xx yy : ℕ) (sgn : Bool)
    → xx < 2 ^ 32
    → yy < 2 ^ 64
    → (length (store_int 32 b'A' xx 10 sgn) ≤ 16)
      × (length (store_int 32 b'A' xx 16 sgn) ≤ 16)
      × (length (store_int 64 b'a' yy 16 false) ≤ 16)
      × (((yy < 10 ^ 16) × (length (store_int 64 b'a' yy 10 false) ≤ 16))
          ⊎ ((10 ^ 16 ≤ yy) × (16 < length (store_int 64 b'a' yy 10 false))))
unfolding store_int
store_int_bounds xx yy sgn h k = (
  user_fits 10 10 xx sgn (omega arith) (omega arith) (omega arith) (omega arith) h,
  user_fits 16 8 xx sgn (omega arith) (omega arith) (omega arith) (omega arith) h,
  few_digits b'a' 16 (omega arith) 64 16 yy (omega arith) k,
  elim (dec_lt yy (10 ^ 16)) [
    | yes l ↦ inl (l, few_digits b'a' 10 (omega arith) 64 16 yy (omega arith) l)
    | no g ↦ inr (
      omega (arith, g),
      many_digits b'a' 10 (omega arith) 64 16 yy (omega arith) (omega (arith, g)),
    )
  ],
)
