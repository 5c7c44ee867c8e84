-- ===== src/Inode/Content.antt =====
-- `readi` and `writei` of kernel/fs.c. Addresses and bytes of the caller's memory are numbers.
use xv6_riscv_labs.Prelude.{
  ℕ, zero, suc, ◌+◌, ◌-◌, ◌*◌, ◌/◌, ◌%◌, ◌^◌, min, ◌&&◌, ◌||◌, Option, none, some, ◌==◌, ltb, leb,
  if◌then◌else◌, update,
}
use xv6_riscv_labs.Bits.{ByteArray}
use xv6_riscv_labs.Fs.Bitmap.{Disk, bsize, write_block, log_panics}
use xv6_riscv_labs.Inode.Defs.{Inode, iupdate, bmap}

-- `MAXFILE * BSIZE`
abbrev pub max_size : ℕ
max_size = 268 * bsize

-- `memmove` of `m` bytes from `src` on over the bytes of `a` from `i` on.
abbrev pub overlay : ByteArray → ℕ → ℕ → ByteArray → ByteArray
overlay a i m src q = if leb i q && ltb q (i + m) then src (q - i) else a q

-- The bytes left of the block, at most those left of the request.
abbrev pub chunk : ℕ → ℕ → ℕ
chunk rest off = min rest (bsize - off % bsize)

-- How many of `m` bytes from address `a` on are copied: fewer than `m` if the copy fails.
abbrev pub Copies : Type 0
Copies = ℕ → ℕ → ℕ

-- A write to the buffer of block `b` that is not logged.
abbrev pub spoil_block : ℕ → ByteArray → Disk → Disk
spoil_block b v d = record d { block = update d.block b v }

-- The loop of `readi`, with fuel: the count, none for -1, and the caller's memory.
unfoldable pub read_blocks :
    ℕ
    → Copies
    → ℕ
    → ℕ
    → ℕ
    → ℕ
    → ByteArray
    → Inode
    → Disk
    → Option (Option ℕ × ByteArray × Inode × Disk)
read_blocks zero copies n tot off dst mem ip d = some (some tot, mem, ip, d)
read_blocks (suc k) copies n tot off dst mem ip d =
    if ltb tot n
    then elim (bmap (off / bsize) ip d) [
      | none ↦ none
      | some (b, ip', d') ↦
          let m = chunk (n - tot) off in
          let from : ByteArray = λ i. d'.block b (off % bsize + i) in
          let rest =
            read_blocks k copies n (tot + m) (off + m) (dst + m) (overlay mem dst m from) ip' d' in
          if b == 0
          then some (some tot, mem, ip', d')
          else if ltb (copies dst m) m
          then some (none, overlay mem dst (copies dst m) from, ip', d')
          else rest
    ]
    else some (some tot, mem, ip, d)

-- The bytes that `readi` asks for.
abbrev pub clip : ℕ → ℕ → ℕ → ℕ
clip off n size = if ltb size ((off + n) % 2 ^ 32) then size - off else n

-- `readi` of `n` bytes to address `dst`, with fuel `n` for the loop.
unfoldable pub readi :
    Copies → ℕ → ℕ → ℕ → ByteArray → Inode → Disk → Option (Option ℕ × ByteArray × Inode × Disk)
readi copies off n dst mem ip d =
    if ltb ip.size off || ltb ((off + n) % 2 ^ 32) off
    then some (some 0, mem, ip, d)
    else read_blocks (clip off n ip.size) copies (clip off n ip.size) 0 off dst mem ip d

-- The loop of `writei` from the bytes of memory `mem`, with fuel: `tot`, `off` and the disk;
-- `none` is a panic, of `bmap` or of `log_write`.
unfoldable pub write_blocks :
    ℕ → Copies → ByteArray → ℕ → ℕ → ℕ → ℕ → Inode → Disk → Option (ℕ × ℕ × Inode × Disk)
write_blocks zero copies mem n tot off src ip d = some (tot, off, ip, d)
write_blocks (suc k) copies mem n tot off src ip d =
    if ltb tot n
    then elim (bmap (off / bsize) ip d) [
      | none ↦ none
      | some (b, ip', d') ↦
          let m = chunk (n - tot) off in
          let copied : ℕ → ByteArray =
            λ l. overlay (d'.block b) (off % bsize) l (λ i. mem (src + i)) in
          let d'' = write_block b (copied m) d' in
          let rest = write_blocks k copies mem n (tot + m) (off + m) (src + m) ip' d'' in
          if b == 0
          then some (tot, off, ip', d')
          else if ltb (copies src m) m
          then some (tot, off, ip', spoil_block b (copied (copies src m)) d')
          else if log_panics d''
          then none
          else rest
    ]
    else some (tot, off, ip, d)

-- `writei` after its loop.
abbrev pub end_write : ℕ → ℕ × ℕ × Inode × Disk → Option ℕ × Inode × Disk
end_write inodestart (tot, off, ip, d) =
    let ip' : Inode = record ip { size = if ltb ip.size off then off else ip.size } in
    (some tot, ip', iupdate inodestart ip' d)

-- The result of a call, unless `log_write` panics in it.
abbrev pub unless_panic : Option ℕ × Inode × Disk → Option (Option ℕ × Inode × Disk)
unless_panic (r, ip, d) = if log_panics d then none else some (r, ip, d)

abbrev pub after_write : ℕ → Option (ℕ × ℕ × Inode × Disk) → Option (Option ℕ × Inode × Disk)
after_write inodestart none = none
after_write inodestart (some r) = unless_panic (end_write inodestart r)

-- `writei` of `n` bytes from address `src`, with fuel `n` for the loop; the count, none for -1.
unfoldable pub writei :
    ℕ → Copies → ByteArray → ℕ → ℕ → ℕ → Inode → Disk → Option (Option ℕ × Inode × Disk)
writei inodestart copies mem off n src ip d =
    if ltb ip.size off || ltb ((off + n) % 2 ^ 32) off
    then some (none, ip, d)
    else if ltb max_size ((off + n) % 2 ^ 32)
    then some (none, ip, d)
    else after_write inodestart (write_blocks n copies mem n 0 off src ip d)
