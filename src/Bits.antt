-- ===== src/Bits.antt =====
-- Bits of byte arrays, as the bitmaps of kernel/fs.c and kernel/buddy.c use them.
use Prim.Native.Nat.{bit_and, bit_or, bit_xor}
use xv6_riscv_labs.Prelude.{
  ℕ, zero, suc, ◌/◌, ◌%◌, ◌^◌, ◌<◌, ◌≡◌, refl, Bool, true, false, not, ◌&&◌, ◌||◌, ◌==◌, ltb,
  if◌then◌else◌, update, arith, ℕ_discrete,
}

abbrev pub ByteArray : Type 0
ByteArray = ℕ → ℕ

abbrev pub IsBytes : ByteArray → Type 0
IsBytes a = (i : ℕ) → a i < 256

-- `1 << (i % 8)`
abbrev pub mask : ℕ → ℕ
mask i = 2 ^ (i % 8)

-- Bit `k` of the byte `b` is set: `(b & m) != 0`.
unfoldable pub has_bit : ℕ → ℕ → Bool
has_bit b k = not (bit_and b (2 ^ k) == 0)

-- `b | m`
unfoldable pub with_bit : ℕ → ℕ → ℕ
with_bit b k = bit_or b (2 ^ k)

-- `b & ~m`, of which a byte is kept.
unfoldable pub without_bit : ℕ → ℕ → ℕ
without_bit b k = bit_and b (bit_xor 255 (2 ^ k))

same : Bool → Bool → Bool
same a b = if a then b else not b

-- A test that passes at every number below a bound.
passes : (ℕ → Bool) → ℕ → Bool
passes test zero = true
passes test (suc n) = if test n then passes test n else false

passes_at : (test : ℕ → Bool) (n x : ℕ) → x < n → passes test n ≡ true → test x ≡ true
unfolding passes
passes_at test zero x lt h = absurd (omega arith)
passes_at test (suc n) x lt h = elim (ℕ_discrete x n) [
  | yes e ↦ rw e (ground arith)
  | no ne ↦ passes_at test n x (omega arith) (ground arith)
]

same_sound : (a b : Bool) → same a b ≡ true → a ≡ b
unfolding same
same_sound a b h = ground arith

-- A law of a byte and two bit numbers, checked at every value.
abbrev Law : Type 0
Law = ℕ → ℕ → ℕ → Bool

abbrev checked : Law → Bool
checked p = passes (λ b. passes (λ k. passes (p b k) 8) 8) 256

checked_at : (p : Law) (b k j : ℕ) → checked p ≡ true → b < 256 → k < 8 → j < 8 → p b k j ≡ true
checked_at p b k j h lb lk lj =
    let byte = passes_at (λ b. passes (λ k. passes (p b k) 8) 8) 256 b lb h in
    passes_at (p b k) 8 j lj (passes_at (λ k. passes (p b k) 8) 8 k lk byte)

abbrev with_law : Law
with_law b k j = same (has_bit (with_bit b k) j) (k == j || has_bit b j) && ltb (with_bit b k) 256

abbrev without_law : Law
without_law b k j =
    same (has_bit (without_bit b k) j) (not (k == j) && has_bit b j) && ltb (without_bit b k) 256

-- `(b & m) == m` is `(b & m) != 0` for a mask of one bit.
abbrev whole_law : Law
whole_law b k j = same (bit_and b (2 ^ k) == 2 ^ k) (has_bit b k)

with_table : checked with_law ≡ true
unfolding passes same has_bit with_bit
with_table = refl

without_table : checked without_law ≡ true
unfolding passes same has_bit without_bit
without_table = refl

whole_table : checked whole_law ≡ true
unfolding passes same has_bit
whole_table = refl

module _ (b k j : ℕ) (lb : b < 256) (lk : k < 8) (lj : j < 8) where
  pub with_bit_lem : (has_bit (with_bit b k) j ≡ (k == j || has_bit b j)) × (with_bit b k < 256)
  with_bit_lem =
      let h = checked_at with_law b k j with_table lb lk lj in
      (same_sound _ _ (ground arith), ground arith)

  pub without_bit_lem :
      (has_bit (without_bit b k) j ≡ (not (k == j) && has_bit b j)) × (without_bit b k < 256)
  without_bit_lem =
      let h = checked_at without_law b k j without_table lb lk lj in
      (same_sound _ _ (ground arith), ground arith)

-- `(b & m) == m`, as kernel/buddy.c tests a bit.
unfoldable pub whole_bit : ℕ → ℕ → Bool
whole_bit b k = bit_and b (2 ^ k) == 2 ^ k

pub whole_bit_lem : (b k : ℕ) → b < 256 → k < 8 → whole_bit b k ≡ has_bit b k
unfolding whole_bit
whole_bit_lem b k lb lk = same_sound _ _ (checked_at whole_law b k k whole_table lb lk lk)

-- Bit `i` of an array, and the array with it set or cleared.
unfoldable pub isset : ByteArray → ℕ → Bool
isset a i = has_bit (a (i / 8)) (i % 8)

unfoldable pub setbit : ByteArray → ℕ → ByteArray
setbit a i = update a (i / 8) (with_bit (a (i / 8)) (i % 8))

unfoldable pub clearbit : ByteArray → ℕ → ByteArray
clearbit a i = update a (i / 8) (without_bit (a (i / 8)) (i % 8))

module _ (a : ByteArray) (bytes : IsBytes a) where
  pub isset-setbit : (i j : ℕ) → isset (setbit a i) j ≡ (i == j || isset a j)
  unfolding isset setbit
  isset-setbit i j =
      ground (
        arith,
        with_bit_lem (a (i / 8)) (i % 8) (j % 8) (bytes (i / 8)) (omega arith) (omega arith),
      )

  pub isset-clearbit : (i j : ℕ) → isset (clearbit a i) j ≡ (not (i == j) && isset a j)
  unfolding isset clearbit
  isset-clearbit i j = ground (
    arith,
    without_bit_lem (a (i / 8)) (i % 8) (j % 8) (bytes (i / 8)) (omega arith) (omega arith),
  )

  pub setbit-IsBytes : (i : ℕ) → IsBytes (setbit a i)
  unfolding setbit
  setbit-IsBytes i j = ground (
    arith,
    bytes j,
    with_bit_lem (a (i / 8)) (i % 8) 0 (bytes (i / 8)) (omega arith) (omega arith),
  )

  pub clearbit-IsBytes : (i : ℕ) → IsBytes (clearbit a i)
  unfolding clearbit
  clearbit-IsBytes i j = ground (
    arith,
    bytes j,
    without_bit_lem (a (i / 8)) (i % 8) 0 (bytes (i / 8)) (omega arith) (omega arith),
  )
