-- ===== src/Inode/Tests.antt =====
-- Runs of the inode layer.
use xv6_riscv_labs.Prelude.{
  ℕ, ◌+◌, ◌/◌, ◌≤◌, ◌<◌, ◌≡◌, ◌≢◌, refl, sym, ◌∙◌, true, false, none, some, [], update, arith, ◌⊎◌,
}
use xv6_riscv_labs.Bits.{ByteArray, IsBytes, isset, has_bit}
use xv6_riscv_labs.Fs.Bitmap.{Disk, bpb}
use xv6_riscv_labs.Inode.Defs.{
  Inode, ndirect, nindirect, ninode, iblock, dinode_at, iupdate, ilock, iget, bmap, itrunc,
}
use xv6_riscv_labs.Inode.Layout.{iupdate-ilock}
use xv6_riscv_labs.Inode.Put.{IsFitting, SameOnDisk}
use xv6_riscv_labs.Inode.Table.{holds, IsTable, Got, iget-IsTable}
use xv6_riscv_labs.Inode.Blocks.{IsData, IsDisk}
use xv6_riscv_labs.Inode.File.{ptr, IsFile}
use xv6_riscv_labs.Inode.Steps.{IsMapping}
use xv6_riscv_labs.Inode.Map.{slot_of, bmap_lem}
use xv6_riscv_labs.Inode.Content.{Copies, writei, readi}
use xv6_riscv_labs.Inode.Bytes.{IsOther}
use xv6_riscv_labs.Inode.Writei.{Whole}
use xv6_riscv_labs.Inode.Stored.{IsStored, writei_lem}
use xv6_riscv_labs.Inode.Trip.{IsBack, writei-readi}
use xv6_riscv_labs.Inode.Itrunc.{IsEmptied, itrunc_lem}

-- Eight blocks: block 1 holds the free map, block 2 the inodes; block 3 belongs to the file
-- and holds the directory entry of inode 7, named "a".
abbrev pub disk : Disk
disk = record {
  size = 8;
  bmapstart = 1;
  block =
      update (update (λ _ _. 0) 1 (update (λ _. 0) 0 15)) 3 (update (update (λ _. 0) 0 7) 2 b'a');
  logged = [];
  limit = 30;
}

pub disk-IsDisk : IsDisk disk
unfolding isset has_bit
disk-IsDisk = record {
  mapped = record {
    bytes = λ b i. ground arith;
    reserved = λ y h. let e : y / bpb ≡ 0 = omega arith in rw e;
  };
  boot = refl;
  some_block = omega arith;
  low = λ y h. omega arith;
  small = omega arith;
}

-- A file of 100 bytes.
abbrev pub file : Inode
file = record {
  dev = 1;
  inum = 5;
  ref = 1;
  valid = true;
  type = 2;
  major = 0;
  minor = 0;
  nlink = 1;
  size = 100;
  addrs = update (λ _. 0) 0 3;
}

file_ptr : (s : ℕ) → ptr file disk s ≢ 0 → (s ≡ 0) × (ptr file disk s ≡ 3)
file_ptr s n = (ground (arith, n), ground (arith, n))

file_off : IsData disk 3
file_off y h e = absurd (omega arith)

pub file-IsFile : IsFile file disk
unfolding isset has_bit
file-IsFile = record {
  small = λ s h n. rw (file_ptr s n).1 (omega arith);
  in_use = λ s h n. rw (file_ptr s n).1 refl;
  off_map = λ s h n. rw (file_ptr s n).1 file_off;
  apart = λ s s' h h' n e. (file_ptr s n).0 ∙ sym (file_ptr s' (λ z. n (e ∙ z))).0;
}

pub home-IsOther : IsOther file disk 2
unfolding isset has_bit
home-IsOther = record {
  small = omega arith;
  in_use = refl;
  some_block = λ e. absurd (omega arith);
  off_map = λ y h e. absurd (omega arith);
  apart = λ s h e. ground (arith, e);
}

abbrev all_copies : Copies
all_copies a m = m

all_copies-Whole : Whole all_copies
all_copies-Whole a m = refl

-- Memory full of letters.
abbrev letters : ByteArray
letters a = b'x'

letters-IsBytes : IsBytes letters
letters-IsBytes a = omega arith

file-IsFitting : IsFitting file
file-IsFitting = record {
  type = omega arith;
  major = omega arith;
  minor = omega arith;
  nlink = omega arith;
  size = omega arith;
  addrs = λ i h. ground arith;
}

abbrev cold : Inode
cold = record file { ref = 2; valid = false; size = 7 }

iupdate-ilock_example :
    ((ip' : Inode) × (ilock 2 (iupdate 2 file disk) cold ≡ some ip') × SameOnDisk file ip')
    × ((inum q : ℕ)
        → inum ≢ 5
        → q < 64
        → (iupdate 2 file disk).block (iblock 2 inum) (dinode_at inum + q)
          ≡ disk.block (iblock 2 inum) (dinode_at inum + q))
iupdate-ilock_example =
    iupdate-ilock 2 disk file cold file-IsFitting (λ e. absurd (omega arith)) refl refl
      (omega arith)

-- The table with the file in entry 3.
abbrev table : ℕ → Inode
table = update (λ _. record file { ref = 0 }) 3 file

table-IsTable : IsTable table
table-IsTable dev inum i j h h' e e' = ground (arith, e, e')

iget-IsTable_example :
    ((iget 1 6 table ≡ none)
      × ((j : ℕ) → j < ninode → (holds (table j) 1 6 ≡ false) × ((table j).ref ≢ 0)))
    ⊎ ((i : ℕ) × (t' : ℕ → Inode) × (iget 1 6 table ≡ some (i, t'))
        × Got 1 6 table i t'
        × IsTable t')
iget-IsTable_example = iget-IsTable 1 6 table table-IsTable

bmap_lem_example :
    ((ndirect + nindirect ≤ 20) × (bmap 20 file disk ≡ none))
    ⊎ ((20 < ndirect + nindirect)
        × ((b : ℕ) × (ip' : Inode) × (d' : Disk) × (bmap 20 file disk ≡ some (b, ip', d'))
            × IsMapping (slot_of 20) b file disk ip' d'))
bmap_lem_example = bmap_lem file disk 20 disk-IsDisk file-IsFile

itrunc_lem_example :
    (ip' : Inode) × (d' : Disk) × (itrunc 2 file disk ≡ some (ip', d'))
    × IsEmptied 2 file disk ip' d'
itrunc_lem_example = itrunc_lem 2 file disk disk-IsDisk file-IsFile home-IsOther.off_map

writei_lem_example :
    (count : ℕ) × (ip' : Inode) × (d' : Disk) × (writei 2 all_copies letters 100 2000 7 file disk
      ≡ some (some count, ip', d'))
    × IsStored 2 letters 100 2000 7 file disk count ip' d'
writei_lem_example =
    writei_lem 2 all_copies letters 100 2000 7 file disk all_copies-Whole letters-IsBytes
      disk-IsDisk file-IsFile home-IsOther (omega arith) (omega arith) (omega arith)

writei-readi_example :
    (count : ℕ) × (ip' : Inode) × (d' : Disk) × (writei 2 all_copies letters 100 2000 7 file disk
      ≡ some (some count, ip', d'))
    × IsBack letters 7 count 9 (readi all_copies 100 count 9 (λ _. 0) ip' d')
writei-readi_example =
    writei-readi 2 all_copies letters 100 2000 7 file disk all_copies-Whole letters-IsBytes
      disk-IsDisk file-IsFile home-IsOther (omega arith) (omega arith) (omega arith) (omega arith)
      (λ _. 0) 9
