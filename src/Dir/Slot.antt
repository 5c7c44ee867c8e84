-- ===== src/Dir/Slot.antt =====
-- The loop of dirlink of kernel/fs.c finds the first free entry, or the end.
use xv6_riscv_labs.Prelude.{
  ℕ, zero, suc, ◌+◌, ◌*◌, ◌%◌, ◌≤◌, ◌<◌, ◌≡◌, ◌≢◌, refl, ap, ◌∙◌, Option, some, arith, ℕ_discrete,
  dec_lt, ==-false, lt→ltb, ltb-false,
}
use xv6_riscv_labs.Bits.{ByteArray, IsBytes}
use xv6_riscv_labs.Fs.Bitmap.{Disk}
use xv6_riscv_labs.Inode.Words.{le16}
use xv6_riscv_labs.Inode.Defs.{Inode}
use xv6_riscv_labs.Inode.Content.{max_size, readi}
use xv6_riscv_labs.Inode.Bytes.{byte}
use xv6_riscv_labs.Dir.Defs.{kernel_copies, dirent_size, free_from}
use xv6_riscv_labs.Dir.Lookup.{image, read-IsEntry}
use xv6_riscv_labs.Dir.Find.{IsAt, same_size, same_image, entry-IsAt}

-- The first entry from `off` on whose number is 0, or the end of the directory.
pub record IsSlot (mem : ByteArray) (de off : ℕ) (dp : Inode) (d : Disk) (o : ℕ) : Type 0 where
  pub low : off ≤ o
  pub high : o ≤ dp.size
  pub aligned : o % dirent_size ≡ 0
  pub unused : o < dp.size → le16 (image (byte dp d) mem de o) de ≡ 0
  pub before :
      (o' : ℕ)
      → off ≤ o'
      → o' < o
      → o' % dirent_size ≡ 0
      → le16 (image (byte dp d) mem de o') de ≢ 0

pub record IsFree (mem : ByteArray) (name de off : ℕ) (dp : Inode) (d : Disk)
    (r : Option (ℕ × ByteArray × Inode × Disk)) : Type 0 where
  pub o : ℕ
  pub mem' : ByteArray
  pub dp' : Inode
  pub d' : Disk
  pub result : r ≡ some (o, mem', dp', d')
  pub slot : IsSlot mem de off dp d o
  pub at : IsAt dp d mem name de mem' dp' d'

module _ (dp0 : Inode) (d0 : Disk) (mem0 : ByteArray) (name de : ℕ) where
  passed-IsFree :
      (off : ℕ) (r : Option (ℕ × ByteArray × Inode × Disk))
      → off % dirent_size ≡ 0
      → le16 (image (byte dp0 d0) mem0 de off) de ≢ 0
      → IsFree mem0 name de (off + dirent_size) dp0 d0 r
      → IsFree mem0 name de off dp0 d0 r
  passed-IsFree off r a used w = record {
    o = w.o;
    mem' = w.mem';
    dp' = w.dp';
    d' = w.d';
    result = w.result;
    slot = record {
      low = omega (arith, w.slot.low);
      high = w.slot.high;
      aligned = w.slot.aligned;
      unused = w.slot.unused;
      before = λ o' low high b. elim (ℕ_discrete o' off) [
        | yes e ↦ rw e used
        | no n ↦ w.slot.before o' (omega (arith, n, low, a, b)) high b
      ];
    };
    at = w.at;
  }

  stop-IsFree :
      (off : ℕ) (mem : ByteArray) (dp : Inode) (d : Disk)
      → IsAt dp0 d0 mem0 name de mem dp d
      → off % dirent_size ≡ 0
      → off ≤ dp0.size
      → (off < dp0.size → le16 (image (byte dp0 d0) mem0 de off) de ≡ 0)
      → IsFree mem0 name de off dp0 d0 (some (off, mem, dp, d))
  stop-IsFree off mem dp d s a h unused = record {
    o = off;
    mem' = mem;
    dp' = dp;
    d' = d;
    result = refl;
    slot = record {
      low = omega arith;
      high = h;
      aligned = a;
      unused = unused;
      before = λ o' low high b. absurd (omega (arith, low, high));
    };
    at = s;
  }

  pub free_from_lem :
      (k off : ℕ) (mem : ByteArray) (dp : Inode) (d : Disk)
      → ((b : ℕ) → IsBytes (d0.block b))
      → IsAt dp0 d0 mem0 name de mem dp d
      → off % dirent_size ≡ 0
      → off ≤ dp0.size
      → dp0.size < off + dirent_size * k
      → IsFree mem0 name de off dp0 d0 (free_from k de off (mem, dp, d))
  unfolding free_from
  free_from_lem zero off mem dp d blocks s a low enough = absurd (omega (arith, low, enough))
  free_from_lem (suc k) off mem dp d blocks s a low enough =
      let size : dp.size ≡ dp0.size = same_size dp0 d0 mem0 name de mem dp d s in
      elim (dec_lt off dp.size) [
        | no n ↦
            rw (ltb-false off dp.size (omega (arith, n)))
              (stop-IsFree off mem dp d s a low (λ l. absurd (omega (arith, n, l, size))))
        | yes l ↦
            let e = read-IsEntry off de mem dp d s.directory l a in
            let small : off + dirent_size ≤ max_size =
              omega (arith, l, a, s.directory.small, s.directory.entries) in
            let next = entry-IsAt dp0 d0 mem0 name de mem dp d off blocks s small e in
            let m = image (byte dp0 d0) mem0 de off in
            let rest =
              free_from_lem k (off + dirent_size) m e.dp' e.d' blocks next (omega (arith, a))
                (omega (arith, a, l, size, s.directory.entries)) (omega (arith, enough)) in
            let read : readi kernel_copies off dirent_size de mem dp d
                ≡ some (some dirent_size, m, e.dp', e.d') =
              e.result
              ∙ ap (λ x. some (some dirent_size, x, e.dp', e.d'))
                  (same_image dp0 d0 mem0 name de mem dp d off s small) in
            rw (lt→ltb off dp.size l, read)
              (elim (ℕ_discrete (le16 m de) 0) [
                | yes unused ↦ rw unused (stop-IsFree off m e.dp' e.d' next a low (λ l. unused))
                | no used ↦ rw (==-false (le16 m de) 0 used) (passed-IsFree off _ a used rest)
              ])
      ]
