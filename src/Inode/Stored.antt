-- ===== src/Inode/Stored.antt =====
-- `writei` of kernel/fs.c stores the bytes, the size and the inode.
use xv6_riscv_labs.Prelude.{
  ℕ, ◌+◌, ◌-◌, ◌/◌, ◌%◌, ◌^◌, ◌≤◌, ◌<◌, ◌≡◌, ◌≢◌, refl, none, false, ap, sym, ◌∙◌, true, Option,
  some, ltb, arith, if◌then◌else◌, ltb-false, subst,
}
use xv6_riscv_labs.Bits.{ByteArray, IsBytes}
use xv6_riscv_labs.Fs.Bitmap.{Disk, bsize, used, log_panics}
use xv6_riscv_labs.Inode.Defs.{Inode, ndirect, iblock, dinode_at, put_dinode, iupdate}
use xv6_riscv_labs.Inode.Put.{put_dinode-IsBytes}
use xv6_riscv_labs.Inode.Blocks.{IsDisk, write_block-IsDisk}
use xv6_riscv_labs.Inode.File.{ptr, IsFile}
use xv6_riscv_labs.Inode.Map.{slot_of}
use xv6_riscv_labs.Inode.Content.{max_size, Copies, write_blocks, after_write, writei}
use xv6_riscv_labs.Inode.Bytes.{byte, IsOther, slot_small}
use xv6_riscv_labs.Inode.Write.{
  ptr_stays, write_block-IsFile, byte_stays, IsOther-stays, used_stays,
}
use xv6_riscv_labs.Inode.Room.{HasRoom, no_panic}
use xv6_riscv_labs.Inode.Writei.{Whole, stored, Written, write_blocks_lem}

IsFile-size : (ip : Inode) (d : Disk) (n : ℕ) → IsFile ip d → IsFile (record ip { size = n }) d
IsFile-size ip d n f = record {
  small = f.small;
  in_use = f.in_use;
  off_map = f.off_map;
  apart = f.apart;
}

IsOther-size :
    (ip : Inode) (d : Disk) (n y : ℕ) → IsOther ip d y → IsOther (record ip { size = n }) d y
IsOther-size ip d n y o = record {
  small = o.small;
  in_use = o.in_use;
  some_block = o.some_block;
  off_map = o.off_map;
  apart = o.apart;
}

-- `iupdate` to a block that is not of the file.
module _ (inodestart : ℕ) (ip : Inode) (d : Disk) (disk : IsDisk d) (file : IsFile ip d)
    (home : IsOther ip d (iblock inodestart ip.inum)) where
  abbrev h : ℕ
  h = iblock inodestart ip.inum

  abbrev v : ByteArray
  v = put_dinode (dinode_at ip.inum) ip (d.block h)

  v-IsBytes : IsBytes v
  v-IsBytes = put_dinode-IsBytes (dinode_at ip.inum) ip (d.block h) (disk.mapped.bytes h)

  direct : ip.addrs ndirect ≢ 0 → h ≢ ip.addrs ndirect
  direct n e = home.apart ndirect (omega arith) (sym e)

  iupdate-IsDisk : IsDisk (iupdate inodestart ip d)
  unfolding iupdate
  iupdate-IsDisk = write_block-IsDisk h v d v-IsBytes home.off_map disk

  iupdate-IsFile : IsFile ip (iupdate inodestart ip d)
  unfolding iupdate
  iupdate-IsFile = write_block-IsFile ip d h v disk file v-IsBytes home.off_map direct

  ptr-iupdate : (x : ℕ) → ptr ip (iupdate inodestart ip d) x ≡ ptr ip d x
  unfolding iupdate
  ptr-iupdate = ptr_stays ip d h v disk file v-IsBytes home.off_map direct

  used-iupdate : (y : ℕ) → y < d.size → used (iupdate inodestart ip d) y ≡ used d y
  unfolding iupdate
  used-iupdate = used_stays ip d h v disk file v-IsBytes home.off_map direct

  size-iupdate : (iupdate inodestart ip d).size ≡ d.size
  unfolding iupdate
  size-iupdate = refl

  byte-iupdate : (q : ℕ) → q < max_size → byte ip (iupdate inodestart ip d) q ≡ byte ip d q
  unfolding iupdate
  byte-iupdate q l =
      byte_stays ip d h v disk file v-IsBytes home.off_map direct q
        (λ e. home.apart (slot_of (q / bsize)) (slot_small q l).0 (sym e))

  iupdate_other : (y : ℕ) → h ≢ y → IsOther ip d y → (iupdate inodestart ip d).block y ≡ d.block y
  unfolding iupdate
  iupdate_other y n o = (IsOther-stays ip d h v disk file v-IsBytes home.off_map direct y n o).1

-- The file after `count` bytes were written from offset `off` on.
pub record IsStored (inodestart : ℕ) (mem : ByteArray) (off n src : ℕ) (ip : Inode) (d : Disk)
    (count : ℕ) (ip' : Inode) (d' : Disk) : Type 0 where
  pub at_most : count ≤ n
  pub disk : IsDisk d'
  pub file : IsFile ip' d'
  pub size : ip'.size ≡ (if ltb ip.size (off + count) then off + count else ip.size)
  pub bytes : (q : ℕ) → q < max_size → byte ip' d' q ≡ stored ip d mem off src count q
  pub mapped : (q : ℕ) → off ≤ q → q < off + count → ptr ip' d' (slot_of (q / bsize)) ≢ 0
  pub short : count < n → (y : ℕ) → y < d'.size → used d' y ≡ true
  pub others : (y : ℕ) → IsOther ip d y → iblock inodestart ip.inum ≢ y → d'.block y ≡ d.block y

module _ (inodestart : ℕ) (mem : ByteArray) (off n src : ℕ) (ip : Inode) (d : Disk) where
  module _ (r : Option (ℕ × ℕ × Inode × Disk)) (w : Written mem n 0 off src ip d r)
      (home : IsOther ip d (iblock inodestart ip.inum)) where
    abbrev grown : Inode
    grown = record w.ip' {
      size = if ltb w.ip'.size (off + w.count) then off + w.count else w.ip'.size;
    }

    same_inum : grown.inum ≡ ip.inum
    same_inum = ap (λ i. i.inum) w.rewritten.fields

    grown-IsFile : IsFile grown w.d'
    grown-IsFile = IsFile-size w.ip' w.d' grown.size w.rewritten.file

    grown-IsOther : (y : ℕ) → IsOther ip d y → IsOther grown w.d' y
    grown-IsOther y o = IsOther-size w.ip' w.d' grown.size y (w.rewritten.others y o).0

    grown_home : IsOther grown w.d' (iblock inodestart grown.inum)
    grown_home =
        subst (λ i. IsOther grown w.d' (iblock inodestart i)) (sym same_inum)
          (grown-IsOther (iblock inodestart ip.inum) home)

    abbrev d' : Disk
    d' = iupdate inodestart grown w.d'

    end_write-IsStored : IsStored inodestart mem off n src ip d w.count grown d'
    end_write-IsStored = record {
      at_most = omega (arith, w.at_most);
      disk = iupdate-IsDisk inodestart grown w.d' w.rewritten.disk grown-IsFile grown_home;
      file = iupdate-IsFile inodestart grown w.d' w.rewritten.disk grown-IsFile grown_home;
      size =
          ap (λ i. if ltb i.size (off + w.count) then off + w.count else i.size) w.rewritten.fields;
      bytes = λ q l.
          byte-iupdate inodestart grown w.d' w.rewritten.disk grown-IsFile grown_home q l
          ∙ w.rewritten.bytes q l;
      mapped = λ q low high.
          rw
            (ptr-iupdate inodestart grown w.d' w.rewritten.disk grown-IsFile grown_home
              (slot_of (q / bsize)))
            (w.mapped q low high);
      short = λ l y k.
          let k' : y < w.d'.size =
            subst (λ s. y < s)
              (size-iupdate inodestart grown w.d' w.rewritten.disk grown-IsFile grown_home) k in
          used-iupdate inodestart grown w.d' w.rewritten.disk grown-IsFile grown_home y k'
          ∙ w.short (omega (arith, l)) y k';
      others = λ y o ne.
          iupdate_other inodestart grown w.d' w.rewritten.disk grown-IsFile grown_home y
            (subst (λ i. iblock inodestart i ≢ y) (sym same_inum) ne) (grown-IsOther y o)
          ∙ (w.rewritten.others y o).1;
    }

    inode_logged : log_panics d' ≡ false
    unfolding iupdate
    inode_logged = no_panic d' (omega (arith, w.room))

    end_write_result : after_write inodestart r ≡ some (some w.count, grown, d')
    end_write_result =
        let from_0 : 0 + w.count ≡ w.count = omega arith in
        ap (after_write inodestart) w.result
        ∙ ap (λ p. if p then none else some (some (0 + w.count), grown, d')) inode_logged
        ∙ ap (λ c. some (some c, grown, d')) from_0

-- `writei` from memory of bytes of the kernel to a file of distinct data blocks, with the inode's
-- block in use and none of them, at an offset within the file and up to the largest file, in a
-- transaction with room in the log for six blocks for each block of the file that the bytes touch
-- and for one more, does not panic, neither in `bmap` nor in `log_write`, and returns a count of at
-- most `n` bytes, fewer only if the disk is full afterwards. The file
-- then has these bytes from the offset on and its old ones elsewhere, and each of them has a
-- block; its size is the larger of the old one and the end of the write; and every block in use
-- that is not of the file, of the free map or the inode's own is as before.
pub writei_lem :
    (inodestart : ℕ) (copies : Copies) (mem : ByteArray) (off n src : ℕ) (ip : Inode) (d : Disk)
    → Whole copies
    → IsBytes mem
    → IsDisk d
    → IsFile ip d
    → IsOther ip d (iblock inodestart ip.inum)
    → off ≤ ip.size
    → off + n ≤ max_size
    → HasRoom d off n
    → (count : ℕ) × (ip' : Inode) × (d' : Disk) × (writei inodestart copies mem off n src ip d
        ≡ some (some count, ip', d'))
      × IsStored inodestart mem off n src ip d count ip' d'
unfolding writei
writei_lem inodestart copies mem off n src ip d whole bytes disk file home h fits room =
    let w =
      write_blocks_lem mem n copies whole bytes n 0 off src ip d disk file (omega arith)
        (omega arith) (omega arith)
        (subst (HasRoom d off) {x = n} {y = n - 0} (omega arith) room) in
    (
      w.count,
      grown inodestart mem off n src ip d (write_blocks n copies mem n 0 off src ip d) w home,
      d' inodestart mem off n src ip d (write_blocks n copies mem n 0 off src ip d) w home,
      rw
          (
            ltb-false ip.size off h,
            ltb-false ((off + n) % 2 ^ 32) off (omega arith),
            ltb-false max_size ((off + n) % 2 ^ 32) (omega arith),
          )
          (end_write_result inodestart mem off n src ip d
            (write_blocks n copies mem n 0 off src ip d) w home),
      end_write-IsStored inodestart mem off n src ip d (write_blocks n copies mem n 0 off src ip d)
          w home,
    )
