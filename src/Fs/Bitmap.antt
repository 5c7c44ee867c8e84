-- ===== src/Fs/Bitmap.antt =====
-- The block allocator of kernel/fs.c: `bzero`, `balloc` and `bfree` on the free map.
use xv6_riscv_labs.Prelude.{
  ℕ, zero, suc, ◌+◌, ◌/◌, ◌%◌, Bool, false, ◌||◌, ◌==◌, Option, none, some, List, [], ◌∷◌, ltb, leb,
  if◌then◌else◌, update,
}
use xv6_riscv_labs.Bits.{ByteArray, isset, setbit, clearbit}

-- Bits in a block of the free map: `BPB`.
abbrev pub bpb : ℕ
bpb = 8192

-- The superblock's part, the data of each block as `bread` gives it, the blocks passed to
-- `log_write` since the last commit, the last one first, and how many different ones the log takes:
-- `LOGSIZE` or `log.size - 1`, whichever is less, and 0 outside of a transaction.
pub record Disk : Type 0 where
  pub size : ℕ
  pub bmapstart : ℕ
  pub block : ℕ → ByteArray
  pub logged : List ℕ
  pub limit : ℕ

-- A change of the data of block `b`, and its `log_write`.
abbrev pub write_block : ℕ → ByteArray → Disk → Disk
write_block b v d = record d { block = update d.block b v; logged = b ∷ d.logged }

abbrev is_logged : ℕ → List ℕ → Bool
is_logged b [] = false
is_logged b (c ∷ logged) = b == c || is_logged b logged

-- `log.lh.n` after these calls of `log_write`, with log absorption.
unfoldable pub log_n : List ℕ → ℕ
log_n [] = 0
log_n (b ∷ logged) = if is_logged b logged then log_n logged else suc (log_n logged)

-- Whether the last call of `log_write` panics: the transaction is too big, or there is none. If an
-- earlier one does, so does the last.
abbrev pub last_panics : ℕ → List ℕ → Bool
last_panics limit [] = false
last_panics limit (b ∷ logged) = leb limit (log_n logged)

abbrev pub log_panics : Disk → Bool
log_panics d = last_panics d.limit d.logged

-- `BBLOCK(b, sb)`
abbrev pub bitmap_block : Disk → ℕ → ℕ
bitmap_block d b = b / bpb + d.bmapstart

abbrev pub bsize : ℕ
bsize = 1024

-- `memset(bp->data, 0, BSIZE)`
abbrev pub zeroed : ByteArray → ByteArray
zeroed a i = if ltb i bsize then 0 else a i

unfoldable pub bzero : ℕ → Disk → Disk
bzero b d = write_block b (zeroed (d.block b)) d

-- The inner loop of `balloc` from bit `bi`, with `k` bits of the block left.
unfoldable pub scan : ℕ → ℕ → ℕ → ℕ → ByteArray → Option ℕ
scan size zero bi b bitmap = none
scan size (suc k) bi b bitmap =
    let rest = scan size k (bi + 1) b bitmap in
    if ltb (b + bi) size then (if isset bitmap bi then rest else some bi) else none

-- The outer loop of `balloc` from block `b`, with fuel for `r` blocks of the free map.
unfoldable pub balloc_from : ℕ → ℕ → Disk → ℕ × Disk
balloc_from zero b d = (0, d)
balloc_from (suc r) b d =
    let rest = balloc_from r (b + bpb) d in
    let bitmap = d.block (bitmap_block d b) in
    if ltb b d.size
    then elim (scan d.size bpb 0 b bitmap) [
      | some bi ↦ (b + bi, bzero (b + bi) (write_block (bitmap_block d b) (setbit bitmap bi) d))
      | none ↦ rest
    ]
    else (0, d)

-- One round for each `BPB` blocks of the disk.
unfoldable pub balloc : Disk → ℕ × Disk
balloc d = balloc_from (d.size / bpb + 1) 0 d

-- `none` is the panic.
unfoldable pub bfree : ℕ → Disk → Option Disk
bfree b d =
    let bitmap = d.block (bitmap_block d b) in
    if isset bitmap (b % bpb)
    then some (write_block (bitmap_block d b) (clearbit bitmap (b % bpb)) d)
    else none

-- The free map's bit of block `b`.
abbrev pub used : Disk → ℕ → Bool
used d b = isset (d.block (bitmap_block d b)) (b % bpb)
