-- ===== src/Print/Back.antt =====
-- atoi of user/ulib.c reads what printint of user/printf.c prints.
use xv6_riscv_labs.Prelude.{
  ℕ, zero, suc, ◌+◌, ◌-◌, ◌*◌, ◌/◌, ◌%◌, ◌^◌, ◌<◌, ◌≡◌, ◌⊎◌, refl, ◌∙◌, Bool, true, false, ◌&&◌,
  List, [], ◌∷◌, ◌++◌, arith, inl, inr, ℕ_discrete, ==-false, Bool-cases,
}
use xv6_riscv_labs.Print.Digits.{power}
use xv6_riscv_labs.Print.Defs.{
  digit, store_digits, is_negative, negate, store_int, put_back, user_printint, is_digit, atoi_from,
  atoi,
}

abbrev AllDigits : List ℕ → Type 0
AllDigits [] = Unit
AllDigits (c ∷ cs) = (is_digit c ≡ true) × AllDigits cs

AllDigits-append : (s t : List ℕ) → AllDigits s → AllDigits t → AllDigits (s ++ t)
AllDigits-append [] t a b = b
AllDigits-append (c ∷ cs) t (d, a) b = (d, AllDigits-append cs t a b)

atoi_from-append :
    (n : ℕ) (s t : List ℕ) → AllDigits s → atoi_from n (s ++ t) ≡ atoi_from (atoi_from n s) t
unfolding atoi_from
atoi_from-append n [] t a = refl
atoi_from-append n (c ∷ cs) t (d, a) =
    rw d (atoi_from-append ((n * 10 + (c - b'0')) % 2 ^ 32) cs t a)

abbrev char10 : ℕ → ℕ
char10 d = digit b'A' d

char10_lem : (d : ℕ) → d < 10 → (is_digit (char10 d) ≡ true) × (char10 d - b'0' ≡ d)
char10_lem d h = (ground (arith, h), ground (arith, h))

last_digit : (n d : ℕ) → d < 10 → atoi_from n (char10 d ∷ []) ≡ (n * 10 + d) % 2 ^ 32
unfolding atoi_from
last_digit n d h = rw ((char10_lem d h).0, (char10_lem d h).1) refl

-- The digits of `x`, with fuel.
record IsNumeral (x : ℕ) (s : List ℕ) : Type 0 where
  digits : AllDigits s
  number : atoi s ≡ x

one_digit : (x : ℕ) → x / 10 ≡ 0 → IsNumeral x ([] ++ char10 (x % 10) ∷ [])
one_digit x z = record {
  digits = ((char10_lem (x % 10) (omega arith)).0, tt);
  number = last_digit 0 (x % 10) (omega arith) ∙ omega (arith, z);
}

more_digits :
    (x : ℕ) (s : List ℕ)
    → x < 2 ^ 32
    → IsNumeral (x / 10) s
    → IsNumeral x (s ++ char10 (x % 10) ∷ [])
more_digits x s h r = record {
  digits =
      AllDigits-append s (char10 (x % 10) ∷ []) r.digits
        ((char10_lem (x % 10) (omega arith)).0, tt);
  number =
      atoi_from-append 0 s (char10 (x % 10) ∷ []) r.digits
      ∙ last_digit (atoi s) (x % 10) (omega arith)
      ∙ omega (arith, r.number, h);
}

store_digits-IsNumeral :
    (k x : ℕ)
    → x < power 2 k
    → 0 < k
    → x < 2 ^ 32
    → IsNumeral x (put_back (store_digits k b'A' 10 x))
unfolding store_digits put_back
store_digits-IsNumeral zero x small p h = elim p [ ]
store_digits-IsNumeral (suc zero) x small p h =
    let z : x / 10 ≡ 0 = omega (arith, small) in rw z (one_digit x z)
store_digits-IsNumeral (suc (suc k)) x small p h = elim (ℕ_discrete (x / 10) 0) [
  | yes z ↦ rw z (one_digit x z)
  | no n ↦ rw (==-false (x / 10) 0 n) (
      more_digits x (put_back (store_digits (suc k) b'A' 10 (x / 10))) h (
        store_digits-IsNumeral (suc k) (x / 10) (omega (arith, small)) (omega arith)
          (omega (arith, h))))
]

put_back-append : (s : List ℕ) (c : ℕ) → put_back (s ++ c ∷ []) ≡ c ∷ put_back s
unfolding put_back
put_back-append [] c = refl
put_back-append (d ∷ ds) c = rw (put_back-append ds c) refl

-- printint of user/printf.c in base 10 prints, without sign or for a number that is not negative,
-- characters that atoi of user/ulib.c reads back as the same number of 32 bits; for a negative
-- number with sign it prints a minus and then characters that atoi reads back as the number's
-- negation.
pub atoi-user_printint :
    (xx : ℕ) (sgn : Bool)
    → xx < 2 ^ 32
    → (((sgn && is_negative 32 xx) ≡ false) × (atoi (user_printint xx 10 sgn) ≡ xx))
      ⊎ (((sgn && is_negative 32 xx) ≡ true)
          × ((s : List ℕ) × (user_printint xx 10 sgn ≡ b'-' ∷ s) × (atoi s ≡ negate 32 xx)))
unfolding store_int
atoi-user_printint xx sgn h = elim (Bool-cases (sgn && is_negative 32 xx)) [
  | inr f ↦ inl (f, rw f (store_digits-IsNumeral 32 xx h (omega arith) h).number)
  | inl t ↦ inr (
    t,
    (
      put_back (store_digits 32 b'A' 10 (negate 32 xx)),
      rw t (put_back-append (store_digits 32 b'A' 10 (negate 32 xx)) b'-'),
      (store_digits-IsNumeral 32 (negate 32 xx) (omega arith) (omega arith) (omega arith)).number,
    ),
  )
]
