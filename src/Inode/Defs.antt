-- ===== src/Inode/Defs.antt =====
-- Inodes of kernel/fs.c: on the disk, in memory and in the table. A short is its bit pattern.
use xv6_riscv_labs.Prelude.{
  ℕ, zero, suc, ◌+◌, ◌-◌, ◌*◌, ◌/◌, ◌%◌, Bool, true, false, ◌&&◌, Option, none, some, ◌==◌, ltb,
  leb, if◌then◌else◌, update,
}
use xv6_riscv_labs.Bits.{ByteArray}
use xv6_riscv_labs.Fs.Bitmap.{Disk, write_block, balloc, bfree}
use xv6_riscv_labs.Inode.Words.{le16, le32, put16, put32}

abbrev pub ndirect : ℕ
ndirect = 12

abbrev pub nindirect : ℕ
nindirect = 256

-- `struct inode`, less its lock.
pub record Inode : Type 0 where
  pub dev : ℕ
  pub inum : ℕ
  pub ref : ℕ
  pub valid : Bool
  pub type : ℕ
  pub major : ℕ
  pub minor : ℕ
  pub nlink : ℕ
  pub size : ℕ
  pub addrs : ℕ → ℕ

-- `sb.inodestart`
abbrev pub iblock : ℕ → ℕ → ℕ
iblock inodestart inum = inum / 16 + inodestart

-- Where the disk inode stands in its block.
abbrev pub dinode_at : ℕ → ℕ
dinode_at inum = 64 * (inum % 16)

-- `memmove(dip->addrs, ip->addrs, sizeof(ip->addrs))` from address `i` on, with `k` left.
unfoldable pub put_addrs : ℕ → ℕ → ℕ → (ℕ → ℕ) → ByteArray → ByteArray
put_addrs zero i o addrs a = a
put_addrs (suc k) i o addrs a = put_addrs k (i + 1) o addrs (put32 a (o + 12 + 4 * i) (addrs i))

-- The assignments of `iupdate`, at the offset `o` of the disk inode.
unfoldable pub put_dinode : ℕ → Inode → ByteArray → ByteArray
put_dinode o ip a = put_addrs 13 0 o ip.addrs (
    put32
      (put16 (put16 (put16 (put16 a o ip.type) (o + 2) ip.major) (o + 4) ip.minor) (o + 6) ip.nlink)
      (o + 8) ip.size)

unfoldable pub iupdate : ℕ → Inode → Disk → Disk
iupdate inodestart ip d =
    let b = iblock inodestart ip.inum in
    write_block b (put_dinode (dinode_at ip.inum) ip (d.block b)) d

-- `memmove(ip->addrs, dip->addrs, sizeof(ip->addrs))`
abbrev pub get_addrs : ℕ → ByteArray → (ℕ → ℕ) → ℕ → ℕ
get_addrs o a addrs i = if ltb i 13 then le32 a (o + 12 + 4 * i) else addrs i

-- The assignments of `ilock`.
abbrev pub get_dinode : ℕ → ByteArray → Inode → Inode
get_dinode o a ip = record ip {
  type = le16 a o;
  major = le16 a (o + 2);
  minor = le16 a (o + 4);
  nlink = le16 a (o + 6);
  size = le32 a (o + 8);
  addrs = get_addrs o a ip.addrs;
  valid = true;
}

-- `none` is a panic.
unfoldable pub ilock : ℕ → Disk → Inode → Option Inode
ilock inodestart d ip =
    let ip' = get_dinode (dinode_at ip.inum) (d.block (iblock inodestart ip.inum)) ip in
    if ltb ip.ref 1
    then none
    else if ip.valid
    then some ip
    else if ip'.type == 0
    then none
    else some ip'

abbrev pub ninode : ℕ
ninode = 50

-- The loop of `iget`: the entry of the inode, or the first free entry.
pub data Search : Type 0 where
  hit : ℕ → Search
  miss : (empty : Option ℕ) → Search

abbrev pub or_else : Option ℕ → Option ℕ → Option ℕ
or_else none b = b
or_else (some a) b = some a

unfoldable pub iget_from : ℕ → ℕ → Option ℕ → ℕ → ℕ → (ℕ → Inode) → Search
iget_from zero i empty dev inum t = miss empty
iget_from (suc k) i empty dev inum t =
    let rest =
      iget_from k (i + 1) (or_else empty (if (t i).ref == 0 then some i else none)) dev inum t in
    if ltb 0 (t i).ref && (t i).dev == dev && (t i).inum == inum then hit i else rest

-- What `iget` does with the entry found; `none` is the panic.
unfoldable pub take_entry : ℕ → ℕ → (ℕ → Inode) → Search → Option (ℕ × (ℕ → Inode))
take_entry dev inum t (hit i) = some (i, update t i (record (t i) { ref = (t i).ref + 1 }))
take_entry dev inum t (miss none) = none
take_entry dev inum t (miss (some i)) =
    some (i, update t i (record (t i) { dev = dev; inum = inum; ref = 1; valid = false }))

abbrev pub iget : ℕ → ℕ → (ℕ → Inode) → Option (ℕ × (ℕ → Inode))
iget dev inum t = take_entry dev inum t (iget_from ninode 0 none dev inum t)

-- The first loop of `itrunc` from direct block `i`, with `k` left.
unfoldable pub free_direct : ℕ → ℕ → Inode → Disk → Option (Inode × Disk)
free_direct zero i ip d = some (ip, d)
free_direct (suc k) i ip d =
    let rest = free_direct k (i + 1) ip d in
    if ip.addrs i == 0 then rest else elim (bfree (ip.addrs i) d) [
      | none ↦ none
      | some d' ↦ free_direct k (i + 1) (record ip { addrs = update ip.addrs i 0 }) d'
    ]

-- The second loop, over the entries of the indirect block `b`.
unfoldable pub free_entries : ℕ → ℕ → ℕ → Disk → Option Disk
free_entries zero j b d = some d
free_entries (suc k) j b d =
    let rest = free_entries k (j + 1) b d in
    if le32 (d.block b) (4 * j) == 0 then rest else elim (bfree (le32 (d.block b) (4 * j)) d) [
      | none ↦ none
      | some d' ↦ free_entries k (j + 1) b d'
    ]

unfoldable pub free_indirect : Inode → Disk → Option (Inode × Disk)
free_indirect ip d =
    if ip.addrs ndirect == 0
    then some (ip, d)
    else elim (free_entries nindirect 0 (ip.addrs ndirect) d) [
      | none ↦ none
      | some d' ↦ elim (bfree (ip.addrs ndirect) d') [
        | none ↦ none
        | some d'' ↦ some (record ip { addrs = update ip.addrs ndirect 0 }, d'')
      ]
    ]

-- `ip->size = 0; iupdate(ip);`
abbrev pub set_empty : ℕ → Inode × Disk → Inode × Disk
set_empty inodestart (ip, d) =
    (record ip { size = 0 }, iupdate inodestart (record ip { size = 0 }) d)

unfoldable pub itrunc : ℕ → Inode → Disk → Option (Inode × Disk)
itrunc inodestart ip d = elim (free_direct ndirect 0 ip d) [
  | none ↦ none
  | some (ip', d') ↦ elim (free_indirect ip' d') [
    | none ↦ none
    | some r ↦ some (set_empty inodestart r)
  ]
]

-- `ip->type = 0; iupdate(ip); ip->valid = 0;` and the `ip->ref--` of `iput`.
abbrev pub free_inode : ℕ → Inode × Disk → Inode × Disk
free_inode inodestart (ip, d) = (
  record ip { type = 0; valid = false; ref = ip.ref - 1 },
  iupdate inodestart (record ip { type = 0 }) d,
)

unfoldable pub iput : ℕ → Inode → Disk → Option (Inode × Disk)
iput inodestart ip d =
    if ip.ref == 1 && ip.valid && ip.nlink == 0
    then elim (itrunc inodestart ip d) [ none ↦ none | some r ↦ some (free_inode inodestart r) ]
    else some (record ip { ref = ip.ref - 1 }, d)

-- `memset(dip, 0, sizeof(*dip)); dip->type = type;`
abbrev pub clear_dinode : ℕ → ℕ → ByteArray → ByteArray
clear_dinode o type a = put16 (λ i. if leb o i && ltb i (o + 64) then 0 else a i) o type

-- The loop of `ialloc` from inode `inum`, with `k` left: the inode that it takes.
unfoldable pub ialloc_from : ℕ → ℕ → ℕ → ℕ → Disk → Option ℕ × Disk
ialloc_from zero inodestart type inum d = (none, d)
ialloc_from (suc k) inodestart type inum d =
    let rest = ialloc_from k inodestart type (inum + 1) d in
    let b = iblock inodestart inum in
    if le16 (d.block b) (dinode_at inum) == 0
    then (some inum, write_block b (clear_dinode (dinode_at inum) type (d.block b)) d)
    else rest

-- `ialloc` up to its `iget`.
abbrev pub ialloc : ℕ → ℕ → ℕ → Disk → Option ℕ × Disk
ialloc ninodes inodestart type d = ialloc_from (ninodes - 1) inodestart type 1 d

-- `balloc` for the pointer `addrs[i]`.
abbrev pub fill_direct : ℕ → Inode → ℕ × Disk → ℕ × Inode × Disk
fill_direct i ip (b, d) = (b, (if b == 0 then ip else record ip { addrs = update ip.addrs i b }), d)

-- `bmap` of a pointer in `ip->addrs`.
unfoldable pub bmap_direct : ℕ → Inode → Disk → ℕ × Inode × Disk
bmap_direct i ip d = if ip.addrs i == 0 then fill_direct i ip (balloc d) else (ip.addrs i, ip, d)

-- `balloc` for entry `j` of the indirect block `x`.
abbrev pub fill_entry : ℕ → ℕ → Inode → ℕ × Disk → ℕ × Inode × Disk
fill_entry x j ip (b, d) =
    (b, ip, (if b == 0 then d else write_block x (put32 (d.block x) (4 * j) b) d))

-- The rest of `bmap` with the indirect block, 0 if there is none.
unfoldable pub bmap_entry : ℕ → ℕ × Inode × Disk → ℕ × Inode × Disk
bmap_entry j (x, ip, d) =
    if x == 0
    then (0, ip, d)
    else if le32 (d.block x) (4 * j) == 0
    then fill_entry x j ip (balloc d)
    else (le32 (d.block x) (4 * j), ip, d)

-- `bmap`: the block, 0 if the disk is full; `none` is the panic.
unfoldable pub bmap : ℕ → Inode → Disk → Option (ℕ × Inode × Disk)
bmap bn ip d =
    if ltb bn ndirect
    then some (bmap_direct bn ip d)
    else if ltb (bn - ndirect) nindirect
    then some (bmap_entry (bn - ndirect) (bmap_direct ndirect ip d))
    else none
