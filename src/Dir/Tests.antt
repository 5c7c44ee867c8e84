-- ===== src/Dir/Tests.antt =====
-- Runs of dirlookup and dirlink of kernel/fs.c.
use xv6_riscv_labs.Prelude.{ℕ, ◌/◌, ◌≡◌, refl, some, none, Option, update, inr, arith}
use xv6_riscv_labs.Bits.{ByteArray, IsBytes}
use xv6_riscv_labs.Fs.Bitmap.{Disk, bsize}
use xv6_riscv_labs.Inode.Defs.{Inode, bmap, bmap_direct, iblock}
use xv6_riscv_labs.Inode.Content.{read_blocks, readi}
use xv6_riscv_labs.Str.{strncmp}
use xv6_riscv_labs.Inode.Tests.{disk, disk-IsDisk, file, file-IsFile, home-IsOther}
use xv6_riscv_labs.Dir.Defs.{t_dir, lookup_from, find_entry, dirlink}
use xv6_riscv_labs.Dir.Lookup.{IsDirectory}
use xv6_riscv_labs.Inode.Bytes.{byte, IsOther}
use xv6_riscv_labs.Dir.Link.{IsNew, IsLinked, dirlink_lem}

-- A directory of one entry.
abbrev directory : Inode
directory = record file { type = t_dir; size = 16 }

directory-IsDirectory : IsDirectory directory disk
directory-IsDirectory = record {
  disk = disk-IsDisk;
  file = record {
    small = file-IsFile.small;
    in_use = file-IsFile.in_use;
    off_map = file-IsFile.off_map;
    apart = file-IsFile.apart;
  };
  entries = refl;
  small = omega arith;
  mapped = λ q h. let e : q / bsize ≡ 0 = omega arith in rw e (λ z. absurd (omega arith));
}

-- The name "a" at address 100.
abbrev memory : ByteArray
memory = update (λ _. 0) 100 b'a'

abbrev inodes : ℕ → Inode
inodes = update (λ _. record file { ref = 0 }) 2 directory

-- What the loop finds.
abbrev entry_found : Option (Option (ℕ × ℕ) × ByteArray × Inode × Disk) → Option (ℕ × ℕ)
entry_found none = none
entry_found (some (r, mem, dp, d)) = r

finds_a : entry_found (find_entry 100 8 (memory, directory, disk)) ≡ some (0, 7)
unfolding find_entry lookup_from readi read_blocks bmap bmap_direct strncmp
finds_a = refl

finds_no_b : entry_found (find_entry 100 8 (update memory 100 b'b', directory, disk)) ≡ none
unfolding find_entry lookup_from readi read_blocks bmap bmap_direct strncmp
finds_no_b = refl

-- The name "b" at address 100.
abbrev other : ByteArray
other = update (λ _. 0) 100 b'b'

other-IsBytes : IsBytes other
other-IsBytes q = ground arith

home : IsOther directory disk (iblock 2 5)
home = record {
  small = home-IsOther.small;
  in_use = home-IsOther.in_use;
  some_block = home-IsOther.some_block;
  off_map = home-IsOther.off_map;
  apart = home-IsOther.apart;
}

b-IsNew : IsNew (byte directory disk) other 100 8 16
unfolding strncmp
b-IsNew o h a = let e : o ≡ 0 = omega arith in rw e refl

dirlink_lem_example : IsLinked 2 100 8 9 other inodes disk (dirlink 2 2 100 8 9 other inodes disk)
dirlink_lem_example =
    dirlink_lem 2 2 100 8 9 other inodes disk refl directory-IsDirectory other-IsBytes home
      (omega arith) (omega arith) (inr (omega arith)) (omega arith) b-IsNew
