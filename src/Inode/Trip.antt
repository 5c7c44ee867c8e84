-- ===== src/Inode/Trip.antt =====
-- What `writei` of kernel/fs.c stored, `readi` returns.
use xv6_riscv_labs.Prelude.{
  ℕ, ◌+◌, ◌-◌, ◌≤◌, ◌<◌, ◌≡◌, ap, ◌∙◌, Option, some, arith, dec_lt, subst, min,
}
use xv6_riscv_labs.Bits.{ByteArray, IsBytes}
use xv6_riscv_labs.Fs.Bitmap.{Disk}
use xv6_riscv_labs.Inode.Defs.{Inode, iblock}
use xv6_riscv_labs.Inode.Blocks.{IsDisk}
use xv6_riscv_labs.Inode.File.{IsFile}
use xv6_riscv_labs.Inode.Content.{max_size, Copies, writei, readi}
use xv6_riscv_labs.Inode.Bytes.{byte, IsOther}
use xv6_riscv_labs.Inode.Overlay.{overlay_in}
use xv6_riscv_labs.Inode.Room.{HasRoom}
use xv6_riscv_labs.Inode.Writei.{Whole}
use xv6_riscv_labs.Inode.Stored.{IsStored, writei_lem}
use xv6_riscv_labs.Inode.Readi.{IsRead, readi_lem}

-- `count` bytes read back to `dst` are those that were at `src`.
pub record IsBack (mem : ByteArray) (src count dst : ℕ)
    (r : Option (Option ℕ × ByteArray × Inode × Disk)) : Type 0 where
  pub mem' : ByteArray
  pub ip' : Inode
  pub d' : Disk
  pub result : r ≡ some (some count, mem', ip', d')
  pub bytes : (i : ℕ) → i < count → mem' (dst + i) ≡ mem (src + i)

module _ (inodestart : ℕ) (mem : ByteArray) (off n src : ℕ) (ip : Inode) (d : Disk) (count : ℕ)
    (ip' : Inode) (d' : Disk) (w : IsStored inodestart mem off n src ip d count ip' d')
    (fits : off + n ≤ max_size) (mem0 : ByteArray) (dst : ℕ)
    (r : Option (Option ℕ × ByteArray × Inode × Disk))
    (read : IsRead count 0 off dst mem0 ip' d' r) where
  whole_count : read.count ≡ count
  whole_count = elim (dec_lt read.count count) [
    | yes l ↦
        absurd (
          w.mapped (off + read.count) (omega arith) (omega arith) (read.short (omega (arith, l))).0)
    | no g ↦ omega (arith, g, read.at_most)
  ]

  read_byte : (i : ℕ) → i < count → read.mem' (dst + i) ≡ mem (src + i)
  read_byte i h =
      let there : dst + i - dst ≡ i = omega arith in
      let here : off + i - off ≡ i = omega arith in
      read.bytes (dst + i)
      ∙ overlay_in mem0 dst read.count (λ j. byte ip' d' (off + j)) (dst + i) (omega arith)
          (omega (arith, whole_count))
      ∙ ap (λ j. byte ip' d' (off + j)) there
      ∙ w.bytes (off + i) (omega (arith, w.at_most))
      ∙ overlay_in (byte ip d) off count (λ j. mem (src + j)) (off + i) (omega arith) (omega arith)
      ∙ ap (λ j. mem (src + j)) here

  read-IsBack : IsBack mem src count dst r
  read-IsBack = record {
    mem' = read.mem';
    ip' = read.ip';
    d' = read.d';
    result =
        let from_0 : 0 + read.count ≡ count = omega (arith, whole_count) in
        read.result ∙ ap (λ c. some (some c, read.mem', read.ip', read.d')) from_0;
    bytes = read_byte;
  }

-- `writei` from memory of bytes of the kernel to a file of distinct data blocks of at most the
-- largest size, with the inode's block in use and none of them, at an offset within the file and up
-- to the largest file, in a transaction with room in the log for six blocks for each block of the
-- file that the bytes touch and for one more, returns a count; and `readi` of
-- that many bytes at the same offset of the file that it left, to any address of the kernel's,
-- returns the same count and the bytes that were written.
pub writei-readi :
    (inodestart : ℕ) (copies : Copies) (mem : ByteArray) (off n src : ℕ) (ip : Inode) (d : Disk)
    → Whole copies
    → IsBytes mem
    → IsDisk d
    → IsFile ip d
    → IsOther ip d (iblock inodestart ip.inum)
    → ip.size ≤ max_size
    → off ≤ ip.size
    → off + n ≤ max_size
    → HasRoom d off n
    → (mem0 : ByteArray) (dst : ℕ)
    → (count : ℕ) × (ip' : Inode) × (d' : Disk) × (writei inodestart copies mem off n src ip d
        ≡ some (some count, ip', d'))
      × IsBack mem src count dst (readi copies off count dst mem0 ip' d')
writei-readi inodestart copies mem off n src ip d whole bytes disk file home small h fits room mem0
      dst =
    let (count, ip', d', e, w) =
      writei_lem inodestart copies mem off n src ip d whole bytes disk file home h fits room in
    let size_small : ip'.size ≤ max_size = ground (arith, w.size, w.at_most) in
    let within : off + count ≤ ip'.size = ground (arith, w.size) in
    let all : min count (ip'.size - off) ≡ count = omega (arith, within) in
    (
      count,
      ip',
      d',
      e,
      read-IsBack inodestart mem off n src ip d count ip' d' w fits mem0 dst _ (
          subst (λ k. IsRead k 0 off dst mem0 ip' d' (readi copies off count dst mem0 ip' d')) all
            (readi_lem copies off count dst mem0 ip' d' whole w.disk w.file size_small
              (omega (arith, within)) (omega (arith, w.at_most)))),
    )
