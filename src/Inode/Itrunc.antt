-- ===== src/Inode/Itrunc.antt =====
-- `itrunc` of kernel/fs.c empties a file.
use xv6_riscv_labs.Prelude.{
  ℕ, ◌<◌, ◌≡◌, ◌≢◌, refl, ap, sym, ◌∙◌, false, some, arith, inr, dec_lt, ℕ_discrete, subst,
  update-other,
}
use xv6_riscv_labs.Fs.Bitmap.{Disk, used}
use xv6_riscv_labs.Inode.Defs.{
  Inode, ndirect, iblock, dinode_at, put_dinode, iupdate, free_direct, free_indirect, set_empty,
  itrunc,
}
use xv6_riscv_labs.Inode.Put.{put_dinode-IsBytes}
use xv6_riscv_labs.Inode.Blocks.{IsData, IsDisk, used-write_block}
use xv6_riscv_labs.Inode.File.{nslot, ptr, IsFile, IsData-kept}
use xv6_riscv_labs.Inode.Steps.{ptr_direct, ptr_entry}
use xv6_riscv_labs.Inode.Free.{IsFreed, front-IsFreeable, after-IsFreeable, append-IsFreed}
use xv6_riscv_labs.Inode.Trunc.{IsCleared, free_direct_lem}
use xv6_riscv_labs.Inode.Empty.{IsDirect, free_indirect_lem, file-IsFreeable, none_left, some_left}

-- The empty file that `itrunc` leaves.
pub record IsEmptied (inodestart : ℕ) (ip : Inode) (d : Disk) (ip' : Inode) (d' : Disk)
    : Type 0 where
  pub size : ip'.size ≡ 0
  pub pointers : (s : ℕ) → s < nslot → ptr ip' d' s ≡ 0
  pub gone : (s : ℕ) → s < nslot → ptr ip d s ≢ 0 → used d' (ptr ip d s) ≡ false
  pub stay :
      (y : ℕ)
      → y < d.size
      → ((s : ℕ) → s < nslot → ptr ip d s ≢ 0 → ptr ip d s ≢ y)
      → used d' y ≡ used d y
  pub content : (y : ℕ) → IsData d y → iblock inodestart ip.inum ≢ y → d'.block y ≡ d.block y

zero_ptr : (ip : Inode) (d : Disk) → ((x : ℕ) → x < 13 → ip.addrs x ≡ 0) → (s : ℕ) → ptr ip d s ≡ 0
zero_ptr ip d z s = elim (dec_lt s 13) [
  | yes l ↦ ptr_direct ip d s l ∙ z s l
  | no g ↦ ptr_entry ip d s (omega arith) ∙ rw (z 12 (omega arith)) refl
]

itrunc_result :
    (inodestart : ℕ) (ip : Inode) (d : Disk) (ip1 : Inode) (d1 : Disk) (r : Inode × Disk)
    → free_direct ndirect 0 ip d ≡ some (ip1, d1)
    → free_indirect ip1 d1 ≡ some r
    → itrunc inodestart ip d ≡ some (set_empty inodestart r)
unfolding itrunc
itrunc_result inodestart ip d ip1 d1 r e e' = rw (e, e', itrunc) refl

module _ (inodestart : ℕ) (ip : Inode) (d : Disk) (disk : IsDisk d) (file : IsFile ip d) where
  direct-IsCleared : IsCleared (ptr ip d) 0 12 ip d (free_direct ndirect 0 ip d)
  direct-IsCleared =
      free_direct_lem (ptr ip d) 12 0 ip d disk
        (front-IsFreeable (ptr ip d) 0 12 257 d (file-IsFreeable ip d file))
        (λ x low high. sym (ptr_direct ip d x (omega arith)))

  module _ (c : IsCleared (ptr ip d) 0 12 ip d (free_direct ndirect 0 ip d)) where
    same_indirect : c.ip'.addrs ndirect ≡ ip.addrs ndirect
    same_indirect = c.others ndirect (inr (omega arith))

    then-IsDirect : IsDirect (ptr ip d) c.ip' c.d' (free_indirect c.ip' c.d')
    then-IsDirect =
        free_indirect_lem (ptr ip d) c.ip' c.d' c.freed.disk
          (after-IsFreeable (ptr ip d) 0 12 257 d c.d' (file-IsFreeable ip d file) c.freed)
          same_indirect (none_left ip d file)
          (λ n.
            some_left ip d file (c.d'.block (ip.addrs ndirect)) n
              (c.freed.content (ip.addrs ndirect) (file.off_map ndirect (omega arith) n)))

    module _ (r : IsDirect (ptr ip d) c.ip' c.d' (free_indirect c.ip' c.d'))
        (home : IsData d (iblock inodestart ip.inum)) where
      all-IsFreed : IsFreed (ptr ip d) 0 269 d r.d'
      all-IsFreed =
          append-IsFreed (ptr ip d) 0 12 257 d c.d' (file-IsFreeable ip d file) c.freed r.d' r.freed

      no_pointer : (x : ℕ) → x < 13 → r.ip'.addrs x ≡ 0
      no_pointer x h = elim (ℕ_discrete x 12) [
        | yes e ↦ ap r.ip'.addrs e ∙ r.zero_indirect
        | no n ↦ r.others x (omega arith) ∙ c.zeroes x (omega arith) (omega arith)
      ]

      same_inum : r.ip'.inum ≡ ip.inum
      same_inum = ap (λ i. i.inum) r.fields ∙ ap (λ i. i.inum) c.fields

      abbrev empty : Inode
      empty = record r.ip' { size = 0 }

      abbrev h : ℕ
      h = iblock inodestart r.ip'.inum

      home_off : IsData r.d' h
      home_off =
          IsData-kept ip d r.ip' r.d' all-IsFreed.size all-IsFreed.bmapstart h
            (subst (λ i. IsData d (iblock inodestart i)) (sym same_inum) home)

      used_after : (y : ℕ) → y < d.size → used (iupdate inodestart empty r.d') y ≡ used r.d' y
      unfolding iupdate
      used_after y l =
          used-write_block h (put_dinode (dinode_at empty.inum) empty (r.d'.block h)) r.d'
            (put_dinode-IsBytes (dinode_at empty.inum) empty (r.d'.block h)
              (all-IsFreed.disk.mapped.bytes h))
            home_off y (rw all-IsFreed.size l)

      kept_after :
          (y : ℕ)
          → IsData d y
          → iblock inodestart ip.inum ≢ y
          → (iupdate inodestart empty r.d').block y ≡ d.block y
      unfolding iupdate
      kept_after y o n =
          update-other r.d'.block h _ y (subst (λ i. iblock inodestart i ≢ y) (sym same_inum) n)
          ∙ all-IsFreed.content y o

      empty-IsEmptied : IsEmptied inodestart ip d empty (iupdate inodestart empty r.d')
      empty-IsEmptied = record {
        size = refl;
        pointers = λ s l. zero_ptr empty (iupdate inodestart empty r.d') no_pointer s;
        gone = λ s l n.
            used_after (ptr ip d s) (file.small s l n) ∙ all-IsFreed.gone s (omega arith) l n;
        stay = λ y l out. used_after y l ∙ all-IsFreed.stay y l (λ s low high. out s high);
        content = kept_after;
      }

-- `itrunc` of a file of distinct blocks in use, whose inode's block is not of the free map, does
-- not panic: it leaves a file of size 0 without pointers, frees in the free map each block that
-- the file had, direct, indirect or the indirect block itself, leaves the mark of every other
-- block, and writes to no block but those of the free map and the inode's.
pub itrunc_lem :
    (inodestart : ℕ) (ip : Inode) (d : Disk)
    → IsDisk d
    → IsFile ip d
    → IsData d (iblock inodestart ip.inum)
    → (ip' : Inode) × (d' : Disk) × (itrunc inodestart ip d ≡ some (ip', d'))
      × IsEmptied inodestart ip d ip' d'
itrunc_lem inodestart ip d disk file home =
    let c = direct-IsCleared inodestart ip d disk file in
    let r = then-IsDirect inodestart ip d disk file c in
    (
      empty inodestart ip d disk file c r home,
      iupdate inodestart (empty inodestart ip d disk file c r home) r.d',
      itrunc_result inodestart ip d c.ip' c.d' (r.ip', r.d') c.result r.result,
      empty-IsEmptied inodestart ip d disk file c r home,
    )
