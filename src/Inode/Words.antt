-- ===== src/Inode/Words.antt =====
-- Little-endian numbers in the bytes of a block.
use xv6_riscv_labs.Prelude.{ℕ, ◌+◌, ◌*◌, ◌/◌, ◌%◌, ◌^◌, ◌≤◌, ◌<◌, ◌≡◌, ◌⊎◌, arith, update}
use xv6_riscv_labs.Bits.{ByteArray, IsBytes}

abbrev pub le16 : ByteArray → ℕ → ℕ
le16 a i = a i + 256 * a (i + 1)

abbrev pub le32 : ByteArray → ℕ → ℕ
le32 a i = a i + 2 ^ 8 * a (i + 1) + 2 ^ 16 * a (i + 2) + 2 ^ 24 * a (i + 3)

unfoldable pub put16 : ByteArray → ℕ → ℕ → ByteArray
put16 a i v = update (update a i (v % 256)) (i + 1) (v / 256 % 256)

unfoldable pub put32 : ByteArray → ℕ → ℕ → ByteArray
put32 a i v =
    update
      (update (update (update a i (v % 256)) (i + 1) (v / 2 ^ 8 % 256)) (i + 2) (v / 2 ^ 16 % 256))
      (i + 3) (v / 2 ^ 24 % 256)

pub put16-at : (a : ByteArray) (i v : ℕ) → v < 2 ^ 16 → le16 (put16 a i v) i ≡ v
unfolding put16
put16-at a i v h = ground arith

pub put32-at : (a : ByteArray) (i v : ℕ) → v < 2 ^ 32 → le32 (put32 a i v) i ≡ v
unfolding put32
put32-at a i v h = ground arith

pub put16-other : (a : ByteArray) (i v q : ℕ) → (q < i) ⊎ (i + 2 ≤ q) → put16 a i v q ≡ a q
unfolding put16
put16-other a i v q h = ground (arith, h)

pub put32-other : (a : ByteArray) (i v q : ℕ) → (q < i) ⊎ (i + 4 ≤ q) → put32 a i v q ≡ a q
unfolding put32
put32-other a i v q h = ground (arith, h)

pub put16-IsBytes : (a : ByteArray) (i v : ℕ) → IsBytes a → IsBytes (put16 a i v)
unfolding put16
put16-IsBytes a i v h q = ground (arith, h q)

pub put32-IsBytes : (a : ByteArray) (i v : ℕ) → IsBytes a → IsBytes (put32 a i v)
unfolding put32
put32-IsBytes a i v h q = ground (arith, h q)

pub le32-put32 :
    (a : ByteArray) (i v j : ℕ) → (j + 4 ≤ i) ⊎ (i + 4 ≤ j) → le32 (put32 a i v) j ≡ le32 a j
unfolding put32
le32-put32 a i v j h = ground (arith, h)
