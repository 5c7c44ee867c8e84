-- ===== src/Bio/Defs.antt =====
-- kernel/bio.c: the buffers, and the list of them in the order of their last use. The buffers are
-- numbered, and the list's head has the number after them.
use xv6_riscv_labs.Prelude.{
  ℕ, zero, suc, ◌+◌, ◌-◌, Bool, true, false, ◌&&◌, Option, none, some, ◌==◌, if◌then◌else◌, update,
}
use xv6_riscv_labs.Bits.{ByteArray}
use xv6_riscv_labs.Links.Defs.{Links, set_next, set_prev}

abbrev pub nbuf : ℕ
nbuf = 30

-- `&bcache.head`
abbrev pub head : ℕ
head = nbuf

-- `struct buf`, less its lock and links.
pub record Buf : Type 0 where
  pub valid : Bool
  pub dev : ℕ
  pub blockno : ℕ
  pub refcnt : ℕ
  pub bytes : ByteArray

pub record Bcache : Type 0 where
  pub buf : ℕ → Buf
  pub links : Links

-- The assignments of `binit` and `brelse` that put a buffer after the head.
unfoldable pub put_first : ℕ → Links → Links
put_first b m =
    let m1 = set_next b (m.next head) m in
    let m2 = set_prev b head m1 in let m3 = set_prev (m2.next head) b m2 in set_next head b m3

-- The loop of `binit` from buffer `b`, with `k` left.
unfoldable pub binit_from : ℕ → ℕ → Links → Links
binit_from zero b m = m
binit_from (suc k) b m = binit_from k (b + 1) (put_first b m)

unfoldable pub binit : Bcache → Bcache
binit c = record c { links = binit_from nbuf 0 (set_next head head (set_prev head head c.links)) }

-- The loops of `bget` from buffer `b` over the links `step`, with fuel: the first buffer that
-- passes the test.
unfoldable pub first_from : (ℕ → ℕ) → (ℕ → Bool) → ℕ → ℕ → Option ℕ
first_from step test zero b = none
first_from step test (suc k) b =
    let rest = first_from step test k (step b) in
    if b == head then none else if test b then some b else rest

abbrev pub is_for : ℕ → ℕ → Buf → Bool
is_for dev blockno b = b.dev == dev && b.blockno == blockno

-- The first loop, from the buffer used last.
abbrev pub find_cached : ℕ → ℕ → Bcache → Option ℕ
find_cached dev blockno c =
    first_from c.links.next (λ b. is_for dev blockno (c.buf b)) nbuf (c.links.next head)

-- The second loop, from the other end.
abbrev pub find_free : Bcache → Option ℕ
find_free c = first_from c.links.prev (λ b. (c.buf b).refcnt == 0) nbuf (c.links.prev head)

abbrev pub set_buf : ℕ → Buf → Bcache → Bcache
set_buf b v c = record c { buf = update c.buf b v }

-- What `bget` does with what its loops find.
unfoldable pub take_buf : ℕ → ℕ → Bcache → Option ℕ → Option ℕ → Option (ℕ × Bcache)
take_buf dev blockno c (some b) unused =
    some (b, set_buf b (record (c.buf b) { refcnt = (c.buf b).refcnt + 1 }) c)
take_buf dev blockno c none (some b) =
    some (
      b,
      set_buf b (record (c.buf b) { dev = dev; blockno = blockno; valid = false; refcnt = 1 }) c,
    )
take_buf dev blockno c none none = none

-- `none` is the panic.
unfoldable pub bget : ℕ → ℕ → Bcache → Option (ℕ × Bcache)
bget dev blockno c = take_buf dev blockno c (find_cached dev blockno c) (find_free c)

-- `bread`, with the disk that gives the bytes of each block of each device.
unfoldable pub bread : (ℕ → ℕ → ByteArray) → ℕ → ℕ → Bcache → Option (ℕ × Bcache)
bread disk dev blockno c = elim (bget dev blockno c) [
  | none ↦ none
  | some (b, c') ↦
      let v = c'.buf b in
      some (
        b,
        (if v.valid
            then c'
            else set_buf b (record v { bytes = disk v.dev v.blockno; valid = true }) c'),
      )
]

-- The assignments of `brelse` that take a buffer out of the list.
abbrev pub unlink : ℕ → Links → Links
unlink b m = let m1 = set_prev (m.next b) (m.prev b) m in set_next (m1.prev b) (m1.next b) m1

unfoldable pub brelse : ℕ → Bcache → Bcache
brelse b c =
    let c' = set_buf b (record (c.buf b) { refcnt = (c.buf b).refcnt - 1 }) c in
    if (c'.buf b).refcnt == 0 then record c' { links = put_first b (unlink b c'.links) } else c'
