-- ===== src/Inode/Steps.antt =====
-- The two places where `bmap` of kernel/fs.c stores a new block.
use xv6_riscv_labs.Prelude.{
  ℕ, ◌+◌, ◌-◌, ◌*◌, ◌^◌, ◌≤◌, ◌<◌, ◌≡◌, ◌≢◌, refl, ap, sym, ◌∙◌, true, false, ◌==◌, arith,
  if◌then◌else◌, ◌⊎◌, inl, inr, ℕ_discrete, dec_lt, ==-false, lt→ltb, ltb-false, update, update-at,
  update-other,
}
use mathlib.Core.Bool.{false≢true}
use xv6_riscv_labs.Bits.{ByteArray}
use xv6_riscv_labs.Fs.Bitmap.{Disk, bsize, write_block, used}
use xv6_riscv_labs.Inode.Words.{le32, put32, put32-at, le32-put32, put32-IsBytes}
use xv6_riscv_labs.Inode.Defs.{Inode, ndirect, nindirect}
use xv6_riscv_labs.Inode.Blocks.{IsTaken, write_block-IsTaken}
use xv6_riscv_labs.Inode.File.{nslot, ptr, IsFile, IsKept, IsData-kept, step-IsKept}

-- Pointer `s` is now `b`: it was before, or `b` is a new block of zeros; 0 only if the disk is full.
pub record IsMapping (s b : ℕ) (ip : Inode) (d : Disk) (ip' : Inode) (d' : Disk) : Type 0 where
  pub kept : IsKept s ip d ip' d'
  pub now : ptr ip' d' s ≡ b
  pub outcome :
      ((b ≢ 0) × (ptr ip d s ≡ b))
      ⊎ ((b ≢ 0) × (ptr ip d s ≡ 0) × (used d b ≡ false) × ((i : ℕ) → i < bsize → d'.block b i ≡ 0))
      ⊎ ((b ≡ 0) × (ptr ip d s ≡ 0) × ((y : ℕ) → y < d'.size → used d' y ≡ true))

le32_zero : (a : ByteArray) (i : ℕ) → i + 4 ≤ bsize → ((q : ℕ) → q < bsize → a q ≡ 0) → le32 a i ≡ 0
le32_zero a i h z = omega (
  arith,
  z i (omega arith),
  z (i + 1) (omega arith),
  z (i + 2) (omega arith),
  z (i + 3) (omega arith),
)

-- The entry of pointer `x` in the indirect block `p`.
abbrev pub entry : ℕ → Disk → ℕ → ℕ
entry p d x = if p == 0 then 0 else le32 (d.block p) (4 * (x - 13))

pub ptr_direct : (ip : Inode) (d : Disk) (x : ℕ) → x < 13 → ptr ip d x ≡ ip.addrs x
ptr_direct ip d x h = rw (lt→ltb x 13 h)

pub ptr_entry : (ip : Inode) (d : Disk) (x : ℕ) → 13 ≤ x → ptr ip d x ≡ entry (ip.addrs ndirect) d x
ptr_entry ip d x h = rw (ltb-false x 13 h)

pub entry_same :
    (p : ℕ) (d d' : Disk) (x : ℕ) → (p ≢ 0 → d'.block p ≡ d.block p) → entry p d' x ≡ entry p d x
entry_same p d d' x same = elim (ℕ_discrete p 0) [
  | yes e ↦ rw e refl
  | no n ↦ rw (==-false p 0 n) (ap (λ a. le32 a (4 * (x - 13))) (same n))
]

module _ (ip : Inode) (d : Disk) (file : IsFile ip d) where
  module _ (b : ℕ) (d' : Disk) (t : (w : ℕ) → IsTaken w d b d') where
    indirect_fresh : ip.addrs ndirect ≢ 0 → ip.addrs ndirect ≢ b
    indirect_fresh n e =
        false≢true (sym ((t 0).free) ∙ sym (ap (used d) e) ∙ file.in_use ndirect (omega arith) n)

    -- Taking a block leaves the indirect block.
    indirect_kept : ip.addrs ndirect ≢ 0 → d'.block (ip.addrs ndirect) ≡ d.block (ip.addrs ndirect)
    indirect_kept n =
        (t b).frame (ip.addrs ndirect) (indirect_fresh n) (indirect_fresh n)
          (file.off_map ndirect (omega arith) n)

    entry_kept : (x : ℕ) → entry (ip.addrs ndirect) d' x ≡ entry (ip.addrs ndirect) d x
    entry_kept x = entry_same (ip.addrs ndirect) d d' x indirect_kept

    module _ (i : ℕ) (h : i < 13) (was : ip.addrs i ≡ 0) (b_some : b ≢ 0) where
      abbrev pub with_direct : Inode
      with_direct = record ip { addrs = update ip.addrs i b }

      direct_entry : (x : ℕ) → x < nslot → 13 ≤ x → ptr with_direct d' x ≡ ptr ip d x
      direct_entry x s l = elim (ℕ_discrete i ndirect) [
        | yes e ↦
            ptr_entry with_direct d' x l
            ∙ ap (λ p. entry p d' x) (ap (update ip.addrs i b) (sym e) ∙ update-at ip.addrs i b)
            ∙ rw (==-false b 0 b_some)
                (le32_zero (d'.block b) (4 * (x - 13)) (omega arith) ((t 0).zeroes))
            ∙ sym (ptr_entry ip d x l ∙ ap (λ p. entry p d x) (ap ip.addrs (sym e) ∙ was))
        | no n ↦
            ptr_entry with_direct d' x l
            ∙ ap (λ p. entry p d' x) (update-other ip.addrs i b ndirect n)
            ∙ entry_kept x
            ∙ sym (ptr_entry ip d x l)
      ]

      direct_others : (x : ℕ) → x < nslot → x ≢ i → ptr with_direct d' x ≡ ptr ip d x
      direct_others x s n = elim (dec_lt x 13) [
        | yes l ↦
            ptr_direct with_direct d' x l
            ∙ update-other ip.addrs i b x (λ e. n (sym e))
            ∙ sym (ptr_direct ip d x l)
        | no g ↦ direct_entry x s (omega arith)
      ]

      direct_now : ptr with_direct d' i ≡ b
      direct_now = ptr_direct with_direct d' i h ∙ update-at ip.addrs i b

      pub direct-IsMapping : IsMapping i b ip d with_direct d'
      direct-IsMapping = record {
        kept =
            step-IsKept ip d with_direct d' i b file (t (ip.addrs ndirect)) (omega arith)
              (ptr_direct ip d i h ∙ was) direct_now direct_others refl;
        now = direct_now;
        outcome = inr (inl (b_some, ptr_direct ip d i h ∙ was, (t 0).free, (t 0).zeroes));
      }

    module _ (j : ℕ) (h : j < nindirect) (n : ip.addrs ndirect ≢ 0) (b_some : b ≢ 0)
        (small : b < 2 ^ 32) where
      abbrev pub p : ℕ
      p = ip.addrs ndirect

      abbrev pub with_entry : Disk
      with_entry = write_block p (put32 (d'.block p) (4 * j) b) d'

      entry_at :
          (x : ℕ)
          → 13 ≤ x
          → ptr ip with_entry x ≡ le32 (put32 (d'.block p) (4 * j) b) (4 * (x - 13))
      entry_at x l =
          ptr_entry ip with_entry x l
          ∙ rw (==-false p 0 n) (
              ap (λ a. le32 a (4 * (x - 13))) (update-at d'.block p (put32 (d'.block p) (4 * j) b)))

      entry_now : ptr ip with_entry (13 + j) ≡ b
      entry_now =
          entry_at (13 + j) (omega arith)
          ∙ ap (λ y. le32 (put32 (d'.block p) (4 * j) b) (4 * y)) (omega arith)
          ∙ put32-at (d'.block p) (4 * j) b small

      entry_others : (x : ℕ) → x < nslot → x ≢ 13 + j → ptr ip with_entry x ≡ ptr ip d x
      entry_others x s m = elim (dec_lt x 13) [
        | yes l ↦ ptr_direct ip with_entry x l ∙ sym (ptr_direct ip d x l)
        | no g ↦
            entry_at x (omega arith)
            ∙ le32-put32 (d'.block p) (4 * j) b (4 * (x - 13)) (ground (arith, m))
            ∙ ap (λ a. le32 a (4 * (x - 13))) (indirect_kept n)
            ∙ sym (ptr_entry ip d x (omega arith) ∙ rw (==-false p 0 n) refl)
      ]

      pub entry-IsMapping : ptr ip d (13 + j) ≡ 0 → IsMapping (13 + j) b ip d ip with_entry
      entry-IsMapping was =
          let taken =
            write_block-IsTaken p (put32 (d'.block p) (4 * j) b) d b d'
              (put32-IsBytes (d'.block p) (4 * j) b ((t p).disk.mapped.bytes p))
              (IsData-kept ip d ip d' (t p).size (t p).bmapstart p
                (file.off_map ndirect (omega arith) n))
              (indirect_fresh n) (t p) in
          record {
            kept =
                step-IsKept ip d ip with_entry (13 + j) b file taken (omega arith) was entry_now
                  entry_others refl;
            now = entry_now;
            outcome = inr (inl (b_some, was, taken.free, taken.zeroes));
          }
