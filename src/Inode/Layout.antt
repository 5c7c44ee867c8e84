-- ===== src/Inode/Layout.antt =====
-- `iupdate` of kernel/fs.c writes what `ilock` reads.
use xv6_riscv_labs.Prelude.{
  ℕ, ◌+◌, ◌%◌, ◌≤◌, ◌<◌, ◌≡◌, ◌≢◌, ap, sym, ◌∙◌, false, some, arith, ◌⊎◌, inl, inr, ℕ_discrete,
  dec_lt, subst, ==-false, update-at, update-other, ltb-false,
}
use xv6_riscv_labs.Bits.{ByteArray}
use xv6_riscv_labs.Fs.Bitmap.{Disk}
use xv6_riscv_labs.Inode.Words.{le16}
use xv6_riscv_labs.Inode.Defs.{Inode, iblock, dinode_at, put_dinode, iupdate, get_dinode, ilock}
use xv6_riscv_labs.Inode.Put.{IsFitting, SameOnDisk, put_dinode-other, get_put_dinode}

ilock-cold :
    (inodestart : ℕ) (d : Disk) (ip : Inode)
    → ip.valid ≡ false
    → 0 < ip.ref
    → le16 (d.block (iblock inodestart ip.inum)) (dinode_at ip.inum) ≢ 0
    → ilock inodestart d ip
      ≡ some (get_dinode (dinode_at ip.inum) (d.block (iblock inodestart ip.inum)) ip)
unfolding ilock
ilock-cold inodestart d ip v r t = rw (ltb-false ip.ref 1 (omega (arith, r)), v, ==-false _ 0 t)

-- Two inodes of one block stand apart.
dinode_at_apart :
    (inodestart i j q : ℕ)
    → iblock inodestart i ≡ iblock inodestart j
    → i ≢ j
    → q < 64
    → (dinode_at i + q < dinode_at j) ⊎ (dinode_at j + 64 ≤ dinode_at i + q)
dinode_at_apart inodestart i j q e d h = elim (dec_lt (i % 16) (j % 16)) [
  | yes l ↦ inl (omega (arith, l, h))
  | no g ↦ inr (omega (arith, g, h, e, d))
]

module _ (inodestart : ℕ) (d : Disk) (ip : Inode) where
  -- The bytes that `iupdate` writes.
  abbrev written : ByteArray
  written = put_dinode (dinode_at ip.inum) ip (d.block (iblock inodestart ip.inum))

  iupdate-at : (iupdate inodestart ip d).block (iblock inodestart ip.inum) ≡ written
  unfolding iupdate
  iupdate-at = update-at d.block (iblock inodestart ip.inum) written

  iupdate-other :
      (inum q : ℕ)
      → inum ≢ ip.inum
      → q < 64
      → (iupdate inodestart ip d).block (iblock inodestart inum) (dinode_at inum + q)
        ≡ d.block (iblock inodestart inum) (dinode_at inum + q)
  unfolding iupdate
  iupdate-other inum q n h =
      elim (ℕ_discrete (iblock inodestart inum) (iblock inodestart ip.inum)) [
        | yes e ↦
            subst
              (λ b.
                (iupdate inodestart ip d).block b (dinode_at inum + q)
                ≡ d.block b (dinode_at inum + q))
              (sym e)
              (ap (λ a. a (dinode_at inum + q)) iupdate-at
                ∙ put_dinode-other (dinode_at ip.inum) ip (d.block (iblock inodestart ip.inum))
                    (dinode_at inum + q) (dinode_at_apart inodestart inum ip.inum q e n h))
        | no g ↦
            ap (λ a. a (dinode_at inum + q))
              (update-other d.block (iblock inodestart ip.inum) written (iblock inodestart inum)
                (λ e. g (sym e)))
      ]

  iupdate_back :
      (cold : Inode)
      → IsFitting ip
      → ip.type ≢ 0
      → cold.inum ≡ ip.inum
      → cold.valid ≡ false
      → 0 < cold.ref
      → (ip' : Inode) × (ilock inodestart (iupdate inodestart ip d) cold ≡ some ip')
        × SameOnDisk ip ip'
  iupdate_back cold f t same v r =
      let kept =
        subst
          (λ i.
            SameOnDisk ip (
              get_dinode (dinode_at i) ((iupdate inodestart ip d).block (iblock inodestart i))
                cold))
          (sym same)
          (subst (λ a. SameOnDisk ip (get_dinode (dinode_at ip.inum) a cold)) (sym iupdate-at)
            (get_put_dinode (dinode_at ip.inum) ip (d.block (iblock inodestart ip.inum)) f cold)) in
      (
        get_dinode (dinode_at cold.inum)
            ((iupdate inodestart ip d).block (iblock inodestart cold.inum)) cold,
        ilock-cold inodestart (iupdate inodestart ip d) cold v r (λ z. t (sym kept.type ∙ z)),
        kept,
      )

-- `iupdate` of an inode in use, and then `ilock` of the same inode by an entry that has not read
-- it, gives what was written; every other inode on the disk keeps its bytes.
pub iupdate-ilock :
    (inodestart : ℕ) (d : Disk) (ip cold : Inode)
    → IsFitting ip
    → ip.type ≢ 0
    → cold.inum ≡ ip.inum
    → cold.valid ≡ false
    → 0 < cold.ref
    → ((ip' : Inode) × (ilock inodestart (iupdate inodestart ip d) cold ≡ some ip')
        × SameOnDisk ip ip')
      × ((inum q : ℕ)
          → inum ≢ ip.inum
          → q < 64
          → (iupdate inodestart ip d).block (iblock inodestart inum) (dinode_at inum + q)
            ≡ d.block (iblock inodestart inum) (dinode_at inum + q))
iupdate-ilock inodestart d ip cold f t same v r =
    (iupdate_back inodestart d ip cold f t same v r, iupdate-other inodestart d ip)
