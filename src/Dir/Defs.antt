-- ===== src/Dir/Defs.antt =====
-- dirlookup and dirlink of kernel/fs.c. The memory of the kernel holds the name and the entry `de`
-- at addresses; a directory is an entry of the table of inodes.
use xv6_riscv_labs.Prelude.{
  ℕ, zero, suc, ◌+◌, ◌/◌, Bool, false, Option, none, some, ◌==◌, ltb, if◌then◌else◌, update,
}
use xv6_riscv_labs.Prelude.Int.{ℤ, pos, negsuc}
use xv6_riscv_labs.Bits.{ByteArray}
use xv6_riscv_labs.Fs.Bitmap.{Disk}
use xv6_riscv_labs.Fs.Path.{dirsiz}
use xv6_riscv_labs.Str.{strncmp, strncpy}
use xv6_riscv_labs.Inode.Words.{le16, put16}
use xv6_riscv_labs.Inode.Defs.{Inode, iget, iput}
use xv6_riscv_labs.Inode.Content.{Copies, readi, writei}

-- `either_copyin` and `either_copyout` with an address of the kernel.
abbrev pub kernel_copies : Copies
kernel_copies a m = m

-- `sizeof(de)`
abbrev pub dirent_size : ℕ
dirent_size = 16

abbrev pub is_whole : Option ℕ → Bool
is_whole none = false
is_whole (some n) = n == dirent_size

-- `namecmp(name, de.name) == 0`
abbrev pub is_zero : ℤ → Bool
is_zero (pos n) = n == 0
is_zero (negsuc n) = false

abbrev pub same_name : ℕ → ℕ → ByteArray → Bool
same_name name de mem = is_zero (strncmp name (de + 2) dirsiz mem)

-- The loop of `dirlookup`, with fuel: the offset and number of the entry found; `none` is the
-- panic.
unfoldable pub lookup_from :
    ℕ → ℕ → ℕ → ℕ → ByteArray × Inode × Disk → Option (Option (ℕ × ℕ) × ByteArray × Inode × Disk)
lookup_from zero name de off s = none
lookup_from (suc k) name de off (mem, dp, d) =
    if ltb off dp.size
    then elim (readi kernel_copies off dirent_size de mem dp d) [
      | none ↦ none
      | some (r, mem', dp', d') ↦
          let rest = lookup_from k name de (off + dirent_size) (mem', dp', d') in
          if is_whole r
          then (if le16 mem' de == 0
              then rest
              else if same_name name de mem'
              then some (some (off, le16 mem' de), mem', dp', d')
              else rest)
          else none
    ]
    else some (none, mem, dp, d)

-- `T_DIR`
abbrev pub t_dir : ℕ
t_dir = 1

-- `dirlookup` up to its `iget`.
unfoldable pub find_entry :
    ℕ → ℕ → ByteArray × Inode × Disk → Option (Option (ℕ × ℕ) × ByteArray × Inode × Disk)
find_entry name de (mem, dp, d) =
    if dp.type == t_dir
    then lookup_from (dp.size / dirent_size + 1) name de 0 (mem, dp, d)
    else none

-- What `dirlookup` returns: the offset and the entry of the table that holds the inode, if the
-- name is there.
abbrev pub Found : Type 0
Found = Option (ℕ × ℕ) × ByteArray × (ℕ → Inode) × Disk

abbrev pub get_found : ℕ → (ℕ → Inode) → Option (ℕ × ℕ) × ByteArray × Inode × Disk → Option Found
get_found dev t (none, mem, dp, d) = some (none, mem, t, d)
get_found dev t (some (off, inum), mem, dp, d) = elim (iget dev inum t) [
  | none ↦ none
  | some (i, t') ↦ some (some (off, i), mem, t', d)
]

abbrev pub after_find :
    ℕ → (ℕ → Inode) → Option (Option (ℕ × ℕ) × ByteArray × Inode × Disk) → Option Found
after_find p t none = none
after_find p t (some (r, mem, dp, d)) = get_found dp.dev (update t p dp) (r, mem, dp, d)

-- `dirlookup` in the directory that entry `p` of the table holds.
unfoldable pub dirlookup : ℕ → ℕ → ℕ → ByteArray → (ℕ → Inode) → Disk → Option Found
dirlookup p name de mem t d = after_find p t (find_entry name de (mem, t p, d))

-- The second loop of `dirlink`, with fuel: the offset of the first free entry, or the size.
unfoldable pub free_from :
    ℕ → ℕ → ℕ → ByteArray × Inode × Disk → Option (ℕ × ByteArray × Inode × Disk)
free_from zero de off s = none
free_from (suc k) de off (mem, dp, d) =
    if ltb off dp.size
    then elim (readi kernel_copies off dirent_size de mem dp d) [
      | none ↦ none
      | some (r, mem', dp', d') ↦
          let rest = free_from k de (off + dirent_size) (mem', dp', d') in
          if is_whole r
          then (if le16 mem' de == 0 then some (off, mem', dp', d') else rest)
          else none
    ]
    else some (off, mem, dp, d)

-- `dirlink` after its second loop: whether it returns 0.
unfoldable pub add_entry :
    ℕ → ℕ → ℕ → ℕ → ℕ × ByteArray × Inode × Disk → Option (Bool × ByteArray × Inode × Disk)
add_entry inodestart name de inum (off, mem, dp, d) =
    let mem' = put16 (strncpy (de + 2) name dirsiz mem) de inum in
    elim (writei inodestart kernel_copies mem' off dirent_size de dp d) [
      | none ↦ none
      | some (r, dp', d') ↦ some (is_whole r, mem', dp', d')
    ]

abbrev pub end_link :
    ℕ
    → (ℕ → Inode)
    → Option (Bool × ByteArray × Inode × Disk)
    → Option (Bool × ByteArray × (ℕ → Inode) × Disk)
end_link p t none = none
end_link p t (some (ok, mem, dp, d)) = some (ok, mem, update t p dp, d)

abbrev pub after_free :
    ℕ
    → ℕ
    → ℕ
    → ℕ
    → ℕ
    → (ℕ → Inode)
    → Option (ℕ × ByteArray × Inode × Disk)
    → Option (Bool × ByteArray × (ℕ → Inode) × Disk)
after_free inodestart p name de inum t none = none
after_free inodestart p name de inum t (some s) = end_link p t (add_entry inodestart name de inum s)

-- `dirlink` after its `dirlookup`; it returns 0 for true and -1 for false.
abbrev pub link_after : ℕ → ℕ → ℕ → ℕ → ℕ → Found → Option (Bool × ByteArray × (ℕ → Inode) × Disk)
link_after inodestart p name de inum (some (off, i), mem, t, d) = elim (iput inodestart (t i) d) [
  | none ↦ none
  | some (ip, d') ↦ some (false, mem, update t i ip, d')
]
link_after inodestart p name de inum (none, mem, t, d) =
    after_free inodestart p name de inum t
      (free_from ((t p).size / dirent_size + 1) de 0 (mem, t p, d))

abbrev pub after_lookup :
    ℕ → ℕ → ℕ → ℕ → ℕ → Option Found → Option (Bool × ByteArray × (ℕ → Inode) × Disk)
after_lookup inodestart p name de inum none = none
after_lookup inodestart p name de inum (some found) = link_after inodestart p name de inum found

unfoldable pub dirlink :
    ℕ
    → ℕ
    → ℕ
    → ℕ
    → ℕ
    → ByteArray
    → (ℕ → Inode)
    → Disk
    → Option (Bool × ByteArray × (ℕ → Inode) × Disk)
dirlink inodestart p name de inum mem t d =
    after_lookup inodestart p name de inum (dirlookup p name de mem t d)
