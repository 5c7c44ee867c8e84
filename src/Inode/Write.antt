-- ===== src/Inode/Write.antt =====
-- One write of `writei` of kernel/fs.c to a block of a file.
use xv6_riscv_labs.Prelude.{
  ℕ, ◌/◌, ◌%◌, ◌<◌, ◌≡◌, ◌≢◌, refl, ap, sym, ◌∙◌, ◌==◌, arith, if◌then◌else◌, ℕ_discrete, dec_lt,
  ==-refl, ==-false, update-at, update-other,
}
use xv6_riscv_labs.Bits.{ByteArray, IsBytes}
use xv6_riscv_labs.Fs.Bitmap.{Disk, bsize, write_block, used}
use xv6_riscv_labs.Inode.Defs.{Inode, ndirect}
use xv6_riscv_labs.Inode.Blocks.{IsData, IsDisk, write_block-IsDisk, used-write_block}
use xv6_riscv_labs.Inode.File.{nslot, ptr, IsFile}
use xv6_riscv_labs.Inode.Steps.{entry_same, ptr_direct, ptr_entry}
use xv6_riscv_labs.Inode.Map.{slot_of}
use xv6_riscv_labs.Inode.Content.{max_size}
use xv6_riscv_labs.Inode.Bytes.{byte, IsOther, IsRewritten, slot_small}

-- A write to a block that is neither of the free map nor the indirect block.
module _ (ip : Inode) (d : Disk) (w : ℕ) (v : ByteArray) (disk : IsDisk d) (file : IsFile ip d)
    (bytes : IsBytes v) (off : IsData d w)
    (direct : ip.addrs ndirect ≢ 0 → w ≢ ip.addrs ndirect) where
  abbrev d' : Disk
  d' = write_block w v d

  pub ptr_stays : (x : ℕ) → ptr ip d' x ≡ ptr ip d x
  ptr_stays x = elim (dec_lt x 13) [
    | yes l ↦ ptr_direct ip d' x l ∙ sym (ptr_direct ip d x l)
    | no g ↦
        ptr_entry ip d' x (omega arith)
        ∙ entry_same (ip.addrs ndirect) d d' x
            (λ n. update-other d.block w v (ip.addrs ndirect) (direct n))
        ∙ sym (ptr_entry ip d x (omega arith))
  ]

  pub used_stays : (y : ℕ) → y < d.size → used d' y ≡ used d y
  used_stays = used-write_block w v d bytes off

  pub write_block-IsFile : IsFile ip d'
  write_block-IsFile = record {
    small = λ x l. rw (ptr_stays x) (file.small x l);
    in_use = λ x l.
        rw (ptr_stays x) (λ m. used_stays (ptr ip d x) (file.small x l m) ∙ file.in_use x l m);
    off_map = λ x l. rw (ptr_stays x) (file.off_map x l);
    apart = λ x y l k. rw (ptr_stays x, ptr_stays y) (file.apart x y l k);
  }

  -- A byte of a block other than the one written.
  pub byte_stays : (q : ℕ) → w ≢ ptr ip d (slot_of (q / bsize)) → byte ip d' q ≡ byte ip d q
  byte_stays q n =
      rw (ptr_stays (slot_of (q / bsize))) (elim (ℕ_discrete (ptr ip d (slot_of (q / bsize))) 0) [
        | yes z ↦ rw z refl
        | no z ↦
            rw (==-false (ptr ip d (slot_of (q / bsize))) 0 z) (
              ap (λ a. a (q % bsize)) (update-other d.block w v (ptr ip d (slot_of (q / bsize))) n))
      ])

  pub IsOther-stays : (y : ℕ) → w ≢ y → IsOther ip d y → IsOther ip d' y × (d'.block y ≡ d.block y)
  IsOther-stays y n o = (
    record {
      small = o.small;
      in_use = used_stays y o.small ∙ o.in_use;
      some_block = o.some_block;
      off_map = o.off_map;
      apart = λ x l. rw (ptr_stays x) (o.apart x l);
    },
    update-other d.block w v y n,
  )

-- A write to a data block of the file.
module _ (ip : Inode) (d : Disk) (s : ℕ) (v : ByteArray) (disk : IsDisk d) (file : IsFile ip d)
    (h : s < nslot) (not_indirect : s ≢ ndirect) (n : ptr ip d s ≢ 0) (bytes : IsBytes v) where
  abbrev w : ℕ
  w = ptr ip d s

  direct_lem : ip.addrs ndirect ≢ 0 → w ≢ ip.addrs ndirect
  direct_lem m e = not_indirect (file.apart s ndirect h (omega arith) n e)

  data_ptr : (x : ℕ) → ptr ip (write_block w v d) x ≡ ptr ip d x
  data_ptr = ptr_stays ip d w v disk file bytes (file.off_map s h n) direct_lem

  data_byte :
      (q : ℕ)
      → q < max_size
      → byte ip (write_block w v d) q
        ≡ (if slot_of (q / bsize) == s then v (q % bsize) else byte ip d q)
  data_byte q l = elim (ℕ_discrete (slot_of (q / bsize)) s) [
    | yes e ↦
        rw (data_ptr (slot_of (q / bsize)), e, ==-refl s, ==-false w 0 n)
          (ap (λ a. a (q % bsize)) (update-at d.block w v))
    | no m ↦ rw (==-false (slot_of (q / bsize)) s m) (
        byte_stays ip d w v disk file bytes (file.off_map s h n) direct_lem q
          (λ e. m (sym (file.apart s (slot_of (q / bsize)) h (slot_small q l).0 n e))))
  ]

  pub data-IsRewritten :
      IsRewritten ip d ip
        (write_block w v d)
        (λ q. if slot_of (q / bsize) == s then v (q % bsize) else byte ip d q)
  data-IsRewritten = record {
    disk = write_block-IsDisk w v d bytes (file.off_map s h n) disk;
    file = write_block-IsFile ip d w v disk file bytes (file.off_map s h n) direct_lem;
    fields = refl;
    pointers = λ x l m. rw (data_ptr x) m;
    bytes = data_byte;
    others = λ y o.
        IsOther-stays ip d w v disk file bytes (file.off_map s h n) direct_lem y (o.apart s h) o;
  }
