-- ===== src/Str/Move.antt =====
-- memset, memmove and memcpy of kernel/string.c.
use xv6_riscv_labs.Prelude.{
  ℕ, zero, suc, ◌+◌, ◌-◌, ◌%◌, ◌<◌, ◌≤◌, ◌≡◌, ◌&&◌, arith, ltb, leb, ◌==◌, if◌then◌else◌, update,
}

abbrev pub Memory : Type 0
Memory = ℕ → ℕ

-- The loop of `memset` from index `i`, with `k` bytes left.
memset_from : ℕ → ℕ → ℕ → ℕ → Memory → Memory
memset_from zero i dst c m = m
memset_from (suc k) i dst c m = memset_from k (i + 1) dst c (update m (dst + i) (c % 256))

unfoldable pub memset : ℕ → ℕ → ℕ → Memory → Memory
unfolding memset_from
memset dst c n m = memset_from n 0 dst c m

-- `while(n-- > 0) *--d = *--s;`
copy_down : ℕ → ℕ → ℕ → Memory → Memory
copy_down zero d s m = m
copy_down (suc n) d s m = copy_down n (d - 1) (s - 1) (update m (d - 1) (m (s - 1)))

-- `while(n-- > 0) *d++ = *s++;`
copy_up : ℕ → ℕ → ℕ → Memory → Memory
copy_up zero d s m = m
copy_up (suc n) d s m = copy_up n (d + 1) (s + 1) (update m d (m s))

unfoldable pub memmove : ℕ → ℕ → ℕ → Memory → Memory
unfolding copy_down copy_up
memmove dst src n m =
    if n == 0
    then m
    else if ltb src dst && ltb dst (src + n)
    then copy_down n (dst + n) (src + n) m
    else copy_up n dst src m

unfoldable pub memcpy : ℕ → ℕ → ℕ → Memory → Memory
unfolding memmove
memcpy dst src n m = memmove dst src n m

copy_up_lem :
    (n d s : ℕ) (m : Memory) (q : ℕ)
    → ¬ ((s < d) × (d < s + n))
    → copy_up n d s m q ≡ (if leb d q && ltb q (d + n) then m (s + (q - d)) else m q)
unfolding copy_up
copy_up_lem zero d s m q h = ground arith
copy_up_lem (suc n) d s m q h = ground (arith, copy_up_lem n (d + 1) (s + 1) (update m d (m s)) q)

copy_down_step :
    (n e t r : ℕ) (m : Memory) (q : ℕ)
    → suc n ≤ t
    → t < e
    → r ≡ (
        if leb (e - 1 - n) q && ltb q (e - 1)
        then update m (e - 1) (m (t - 1)) (t - 1 - n + (q - (e - 1 - n)))
        else update m (e - 1) (m (t - 1)) q)
    → r ≡ (if leb (e - suc n) q && ltb q e then m (t - suc n + (q - (e - suc n))) else m q)
copy_down_step n e t r m q k h ih = ground arith

copy_down_lem :
    (n e t : ℕ) (m : Memory) (q : ℕ)
    → n ≤ t
    → t < e
    → copy_down n e t m q ≡ (if leb (e - n) q && ltb q e then m (t - n + (q - (e - n))) else m q)
unfolding copy_down
copy_down_lem zero e t m q k h = ground arith
copy_down_lem (suc n) e t m q k h =
    copy_down_step n e t _ m q k h
      (copy_down_lem n (e - 1) (t - 1) (update m (e - 1) (m (t - 1))) q (omega arith) (omega arith))

-- `memmove` copies the `n` bytes that stood at `src` before the call to `dst`, whether or not the
-- two runs overlap, and changes no other byte.
pub memmove_lem :
    (dst src n : ℕ) (m : Memory) (q : ℕ)
    → memmove dst src n m q ≡ (if leb dst q && ltb q (dst + n) then m (src + (q - dst)) else m q)
unfolding memmove
memmove_lem dst src n m q =
    ground (arith, copy_up_lem n dst src m q, copy_down_lem n (dst + n) (src + n) m q)

memset_from_lem :
    (k i dst c : ℕ) (m : Memory) (q : ℕ)
    → memset_from k i dst c m q ≡ (if leb (dst + i) q && ltb q (dst + i + k) then c % 256 else m q)
unfolding memset_from
memset_from_lem zero i dst c m q = ground arith
memset_from_lem (suc k) i dst c m q =
    ground (arith, memset_from_lem k (i + 1) dst c (update m (dst + i) (c % 256)) q)

-- `memset` stores the low byte of `c` in the `n` bytes from `dst` on, and changes no other byte.
pub memset_lem :
    (dst c n : ℕ) (m : Memory) (q : ℕ)
    → memset dst c n m q ≡ (if leb dst q && ltb q (dst + n) then c % 256 else m q)
unfolding memset
memset_lem dst c n m q = ground (arith, memset_from_lem n 0 dst c m q)
