-- ===== src/File/Table.antt =====
-- `filealloc`, `filedup` and `fileclose` of kernel/file.c. Each runs with the table's lock held.
use xv6_riscv_labs.Prelude.{
  ℕ, zero, suc, ◌+◌, ◌-◌, Bool, Option, none, some, ◌==◌, ltb, if◌then◌else◌, update,
}

abbrev pub nfile : ℕ
nfile = 100

pub data FileType : Type 0 where
  fd_none fd_pipe fd_inode fd_device : FileType

-- `struct file`; a pointer to a pipe or to an inode is a number.
pub record File : Type 0 where
  pub type : FileType
  pub ref : ℕ
  pub readable : Bool
  pub writable : Bool
  pub pipe : ℕ
  pub ip : ℕ
  pub off : ℕ
  pub major : ℕ

-- `ftable.file`
abbrev pub Ftable : Type 0
Ftable = ℕ → File

-- The loop of `filealloc` from file `i`, with `k` files left: the file found, and the table.
unfoldable pub filealloc_from : ℕ → ℕ → Ftable → Option ℕ × Ftable
filealloc_from zero i t = (none, t)
filealloc_from (suc k) i t =
    if (t i).ref == 0
    then (some i, update t i (record (t i) { ref = 1 }))
    else filealloc_from k (i + 1) t

unfoldable pub filealloc : Ftable → Option ℕ × Ftable
filealloc t = filealloc_from nfile 0 t

-- `none` is the panic.
unfoldable pub filedup : ℕ → Ftable → Option Ftable
filedup f t =
    if ltb (t f).ref 1 then none else some (update t f (record (t f) { ref = (t f).ref + 1 }))

-- What `fileclose` does after it has released the table: nothing, `pipeclose` of a pipe, or `iput`
-- of an inode inside a transaction.
pub data Closing : Type 0 where
  nothing : Closing
  close_pipe : (pipe : ℕ) (writable : Bool) → Closing
  put_inode : (ip : ℕ) → Closing

abbrev pub closing : File → Closing
closing ff = elim ff.type [
  | fd_pipe ↦ close_pipe ff.pipe ff.writable
  | fd_inode ↦ put_inode ff.ip
  | fd_device ↦ put_inode ff.ip
  | fd_none ↦ nothing
]

-- `none` is the panic.
unfoldable pub fileclose : ℕ → Ftable → Option (Closing × Ftable)
fileclose f t =
    if ltb (t f).ref 1
    then none
    else if ltb 0 ((t f).ref - 1)
    then some (nothing, update t f (record (t f) { ref = (t f).ref - 1 }))
    else some (closing (t f), update t f (record (t f) { ref = 0; type = fd_none }))
