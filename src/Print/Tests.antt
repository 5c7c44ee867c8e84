-- ===== src/Print/Tests.antt =====
-- Runs of printint and atoi.
use xv6_riscv_labs.Prelude.{
  ℕ, ◌^◌, ◌≤◌, ◌<◌, ◌≡◌, refl, true, false, ◌&&◌, List, [], ◌∷◌, ◌⊎◌, arith, length,
}
use xv6_riscv_labs.Print.Defs.{
  store_digits, store_int, put_back, user_printint, is_negative, negate, atoi,
}
use xv6_riscv_labs.Print.Digits.{store_int_bounds}
use xv6_riscv_labs.Print.Back.{atoi-user_printint}

prints : user_printint 4294967254 10 true ≡ b'-' ∷ b'4' ∷ b'2' ∷ []
unfolding store_digits store_int put_back
prints = refl

-- Seventeen digits.
overflows : length (store_int 64 b'a' 12345678901234567 10 false) ≡ 17
unfolding store_digits store_int
overflows = refl

store_int_bounds_example :
    (length (store_int 32 b'A' 4294967254 10 true) ≤ 16)
    × (length (store_int 32 b'A' 4294967254 16 true) ≤ 16)
    × (length (store_int 64 b'a' 12345678901234567 16 false) ≤ 16)
    × (((12345678901234567 < 10 ^ 16)
          × (length (store_int 64 b'a' 12345678901234567 10 false) ≤ 16))
        ⊎ ((10 ^ 16 ≤ 12345678901234567)
            × (16 < length (store_int 64 b'a' 12345678901234567 10 false))))
store_int_bounds_example =
    store_int_bounds 4294967254 12345678901234567 true (omega arith) (omega arith)

atoi-user_printint_example :
    ((true && is_negative 32 4294967254 ≡ false)
      × (atoi (user_printint 4294967254 10 true) ≡ 4294967254))
    ⊎ ((true && is_negative 32 4294967254 ≡ true)
        × ((s : List ℕ) × (user_printint 4294967254 10 true ≡ b'-' ∷ s)
            × (atoi s ≡ negate 32 4294967254)))
atoi-user_printint_example = atoi-user_printint 4294967254 true (omega arith)
