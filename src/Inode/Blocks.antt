-- ===== src/Inode/Blocks.antt =====
-- What `balloc` and `log_write` of kernel/fs.c do to a disk with a free map.
use xv6_riscv_labs.Prelude.{
  ℕ, ◌%◌, ◌^◌, ◌≤◌, ◌<◌, ◌≡◌, ◌≢◌, refl, ap, sym, ◌∙◌, true, false, ◌||◌, ◌==◌, arith, ◌⊎◌, inl,
  inr, subst, update-other, update_all, update,
}
use mathlib.Core.Bool.{false≢true}
use xv6_riscv_labs.Bits.{ByteArray, IsBytes, isset, setbit, setbit-IsBytes}
use xv6_riscv_labs.Fs.Bitmap.{
  Disk, bpb, bsize, write_block, bitmap_block, bzero, balloc, used, zeroed,
}
use xv6_riscv_labs.Fs.Alloc.{IsMapped, taken_block, balloc_lem, used-taken_block}

-- Not a block of the free map.
abbrev pub IsData : Disk → ℕ → Type 0
IsData d b = (y : ℕ) → y < d.size → b ≢ bitmap_block d y

-- A disk whose free map lies on it, in use like block 0, with block numbers that fit a `uint`.
pub record IsDisk (d : Disk) : Type 0 where
  pub mapped : IsMapped d
  pub boot : used d 0 ≡ true
  pub some_block : 0 < d.size
  pub low : (y : ℕ) → y < d.size → bitmap_block d y < d.size
  pub small : d.size ≤ 2 ^ 32

-- Block `b` was free and is taken; only it, the free map and block `w` have changed.
pub record IsTaken (w : ℕ) (d : Disk) (b : ℕ) (d' : Disk) : Type 0 where
  pub disk : IsDisk d'
  pub size : d'.size ≡ d.size
  pub bmapstart : d'.bmapstart ≡ d.bmapstart
  pub small : b < d.size
  pub free : used d b ≡ false
  pub off_map : IsData d b
  pub in_use : (y : ℕ) → y < d.size → used d' y ≡ (b == y || used d y)
  pub zeroes : (i : ℕ) → i < bsize → d'.block b i ≡ 0
  pub frame : (y : ℕ) → y ≢ b → y ≢ w → IsData d y → d'.block y ≡ d.block y

zeroed-IsBytes : (a : ByteArray) → IsBytes a → IsBytes (zeroed a)
zeroed-IsBytes a h i = ground (arith, h i)

module _ (d : Disk) (b : ℕ) (disk : IsDisk d) (small : b < d.size) (free : used d b ≡ false) where
  apart : (y : ℕ) → used d y ≡ true → b ≢ y
  apart y u e = false≢true (sym free ∙ ap (used d) e ∙ u)

  free-IsData : IsData d b
  free-IsData y h = apart (bitmap_block d y) (disk.mapped.reserved y h)

  abbrev marked : ByteArray
  marked = setbit (d.block (bitmap_block d b)) (b % bpb)

  marked-IsBytes : IsBytes marked
  marked-IsBytes =
      setbit-IsBytes (d.block (bitmap_block d b)) (disk.mapped.bytes (bitmap_block d b)) (b % bpb)

  marked-IsBytes' : (y : ℕ) → IsBytes (update d.block (bitmap_block d b) marked y)
  marked-IsBytes' y =
      update_all IsBytes d.block (bitmap_block d b) marked y marked-IsBytes (disk.mapped.bytes y)

  taken-IsBytes : (y : ℕ) → IsBytes ((taken_block b d).block y)
  unfolding bzero
  taken-IsBytes y =
      update_all IsBytes (update d.block (bitmap_block d b) marked) b
        (zeroed (update d.block (bitmap_block d b) marked b)) y
        (zeroed-IsBytes (update d.block (bitmap_block d b) marked b) (marked-IsBytes' b))
        (marked-IsBytes' y)

  taken_frame : (y : ℕ) → y ≢ b → IsData d y → (taken_block b d).block y ≡ d.block y
  unfolding bzero
  taken_frame y n o =
      update-other (update d.block (bitmap_block d b) marked) b _ y (λ e. n (sym e))
      ∙ update-other d.block (bitmap_block d b) marked y (λ e. o b small (sym e))

  module _ (e : balloc d ≡ (b, taken_block b d)) where
    taken_used : (y : ℕ) → y < d.size → used (taken_block b d) y ≡ (b == y || used d y)
    taken_used y h =
        sym (ap (λ r. used (r.1) y) e) ∙ (used-taken_block d b disk.mapped e free).0 y h

    still_used : (y : ℕ) → y < d.size → used d y ≡ true → used (taken_block b d) y ≡ true
    still_used y h u = taken_used y h ∙ rw u (ground arith)

    taken_block-IsDisk : IsDisk (taken_block b d)
    unfolding bzero
    taken_block-IsDisk = record {
      mapped = record {
        bytes = taken-IsBytes;
        reserved = λ y h. still_used (bitmap_block d y) (disk.low y h) (disk.mapped.reserved y h);
      };
      boot = still_used 0 disk.some_block disk.boot;
      some_block = disk.some_block;
      low = disk.low;
      small = disk.small;
    }

    -- `balloc` itself writes no other block.
    taken_block-IsTaken : (w : ℕ) → IsTaken w d b (taken_block b d)
    unfolding bzero
    taken_block-IsTaken w = record {
      disk = taken_block-IsDisk;
      size = refl;
      bmapstart = refl;
      small = small;
      free = free;
      off_map = free-IsData;
      in_use = taken_used;
      zeroes =
          λ i h. sym (ap (λ r. r.1.block b i) e) ∙ (used-taken_block d b disk.mapped e free).1 i h;
      frame = λ y n m o. taken_frame y n o;
    }

-- `balloc` returns 0 only if the disk is full; otherwise a taken block.
pub balloc-IsTaken :
    (d : Disk)
    → IsDisk d
    → ((balloc d ≡ (0, d)) × ((y : ℕ) → y < d.size → used d y ≡ true))
      ⊎ ((b : ℕ) × (balloc d ≡ (b, taken_block b d))
          × (b ≢ 0)
          × ((w : ℕ) → IsTaken w d b (taken_block b d)))
balloc-IsTaken d disk = elim (balloc_lem d) [
  | inl full ↦ inl full
  | inr (b, small, free, first, e) ↦ inr (
    b,
    e,
    (λ z. false≢true (sym free ∙ ap (used d) z ∙ disk.boot)),
    taken_block-IsTaken d b disk small free e,
  )
]

-- A write of bytes to a block off the free map.
module _ (w : ℕ) (a : ByteArray) (d : Disk) (bytes : IsBytes a) (off : IsData d w) where
  pub used-write_block : (y : ℕ) → y < d.size → used (write_block w a d) y ≡ used d y
  used-write_block y h =
      ap (λ v. isset v (y % bpb)) (update-other d.block w a (bitmap_block d y) (off y h))

  pub write_block-IsDisk : IsDisk d → IsDisk (write_block w a d)
  write_block-IsDisk g = record {
    mapped = record {
      bytes = λ y. update_all IsBytes d.block w a y bytes (g.mapped.bytes y);
      reserved = λ y h. used-write_block (bitmap_block d y) (g.low y h) ∙ g.mapped.reserved y h;
    };
    boot = used-write_block 0 g.some_block ∙ g.boot;
    some_block = g.some_block;
    low = g.low;
    small = g.small;
  }

-- A write to block `w` after another block was taken.
pub write_block-IsTaken :
    (w : ℕ) (a : ByteArray) (d : Disk) (b : ℕ) (d' : Disk)
    → IsBytes a
    → IsData d' w
    → w ≢ b
    → IsTaken w d b d'
    → IsTaken w d b (write_block w a d')
write_block-IsTaken w a d b d' bytes o n t = record {
  disk = write_block-IsDisk w a d' bytes o t.disk;
  size = t.size;
  bmapstart = t.bmapstart;
  small = t.small;
  free = t.free;
  off_map = t.off_map;
  in_use =
      λ y h. used-write_block w a d' bytes o y (subst (λ x. y < x) (sym t.size) h) ∙ t.in_use y h;
  zeroes = λ i h. ap (λ v. v i) (update-other d'.block w a b n) ∙ t.zeroes i h;
  frame = λ y m m' off. update-other d'.block w a y (λ e. m' (sym e)) ∙ t.frame y m m' off;
}
