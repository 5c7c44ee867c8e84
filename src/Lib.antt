-- ===== src/Lib.antt =====
-- xv6 for RISC-V with the laboratory changes: a verification library beside the C sources.
--
-- The kernel is a set of C files that share a few tables. The file system stands on the disk in
-- layers: the buffer cache (kernel/bio.c), the log (kernel/log.c), the block and inode layer and
-- the names (kernel/fs.c), open files (kernel/file.c) and pipes (kernel/pipe.c). The system calls
-- reach them through kernel/sysfile.c. User programs run above the system calls.
--
-- - Prelude: Boolean tests, lists, integers and maps shared by all modules. `update f k v` is the
--   array, memory or table `f` with `v` at `k`.
-- - Bits: the bit operations on byte arrays that the free map of kernel/fs.c uses; laws of one
--   byte are checked at every value.
-- - Str: kernel/string.c, over a memory that gives the byte at each address. `Str.Move` has
--   memset, memmove, memcpy; `Str.Compare` memcmp, strncmp, strlen; `Str.Copy` strncpy, safestrcpy;
--   `Str.Length` what strlen and strncmp return. `strlen` takes fuel, enough for a string of fewer
--   characters than that.
-- - Grep: the matcher of user/grep.c. `Grep.Defs` has match, matchhere, matchstar;
--   `Grep.Language` says what an expression means, by its tokens.
-- - Log: kernel/log.c. `Log.Disk` is the disk with the buffers above it and the power left before
--   a crash; `Log.Defs` has the operations, each loop a function of its rounds; `Log.States` what a
--   disk can hold; `Log.Commit`, `Log.Recover` and `Log.Atomic` follow commit and recovery through
--   crashes; `Log.Write`, `Log.End` and `Log.Reserve` treat log_write, end_op and transactions of
--   several operations.
-- - Pipe: kernel/pipe.c. `Pipe.Defs` has the operations, `Pipe.Queue` the queue of a pipe,
--   `Pipe.Fifo` pipewrite, `Pipe.Read` piperead and histories of calls.
-- - Console: kernel/console.c. `Console.Defs` has the handler of typed characters and the loop of
--   consoleread, `Console.Edit` what a character does to the lines, `Console.Read` what a reader
--   gets. The loop that kills a line has fuel for a full buffer.
-- - Fs: kernel/fs.c. `Fs.Bitmap` has bzero, balloc and bfree, `Fs.Alloc` what they promise;
--   `Fs.Path` is skipelem. The outer loop of balloc has one round of fuel for each block of the
--   free map and one more.
-- - Inode: the inode layer of kernel/fs.c. `Inode.Defs` has ialloc, iupdate, iget, ilock, itrunc,
--   iput and bmap, `Inode.Content` readi and writei; `Inode.Words` and `Inode.Put` are the numbers
--   in a block, `Inode.Layout` the disk inode, `Inode.Table` the table of inodes. `Inode.Blocks` is
--   the disk with its free map, `Inode.File` the pointers of a file, `Inode.Steps` and `Inode.Map`
--   follow bmap. `Inode.Room` counts what bmap puts into the log. `Inode.Bytes` sees a file as
--   bytes; `Inode.Overlay`, `Inode.Write`, `Inode.Writei`, `Inode.Stored`, `Inode.Readi` and
--   `Inode.Trip` treat reads and writes, `Inode.Free`, `Inode.Trunc`, `Inode.Empty` and
--   `Inode.Itrunc` the end of a file. The loops of readi and writei have a round of fuel for each
--   byte, and each round copies a byte or more. A buffer is its block on the disk, and a short is
--   its bit pattern. How many bytes a copy to or from the caller moves is a parameter; the memory
--   of the kernel gets all. The disk keeps the blocks passed to log_write since the last commit,
--   and writei panics where log_write does because these are too many; all other calls take it that
--   the log has room, as the different blocks that they write are few. The pieces that filewrite
--   writes, of three blocks at most, touch four blocks of the file, and 24 blocks and the inode's
--   fit into an empty log. The locks of inodes are left out: a call that holds one is one step.
-- - Links: kernel/list.c. `Links.Defs` has the operations on links at addresses, `Links.Seg`
--   nodes in a row, `Links.Ring` what each operation does, `Links.Runs` calls one after the other
--   against a sequence.
-- - Bio: kernel/bio.c, with the list of buffers and the reference counts. `Bio.Defs` has binit,
--   bget, bread and brelse, `Bio.Scan` the two loops of bget, `Bio.Cache` bget, `Bio.Release` binit
--   and brelse, `Bio.Steps` the calls in any order. The loops over the list have fuel for all
--   buffers. What the disk holds is an argument. bwrite, bpin and bunpin are in `Log.Disk`, as the
--   log sees them.
-- - Print: printint of user/printf.c and kernel/printf.c, and atoi of user/ulib.c. `Print.Defs`
--   has them, `Print.Digits` how much of `buf` they use, `Print.Back` what atoi reads of it. The
--   loop of digits has a round of fuel for each bit of the number.
-- - Dir: the directories of kernel/fs.c. `Dir.Defs` has namecmp, dirlookup and dirlink; the entry
--   `de` of a caller stands at an address of memory, and dirlookup returns the offset with the
--   inode. `Dir.Lookup` reads one entry, `Dir.Find` is the loop of dirlookup, `Dir.Slot` that of
--   dirlink, `Dir.Link` what dirlink writes. The loops have a round of fuel for each entry and one
--   more for the end.
-- - Sleeplock: kernel/sleeplock.c. `Sleeplock.Defs` has the functions, a turn of the loop of
--   acquiresleep as one step, `Sleeplock.Guard` the steps of the processes. The spin lock in the
--   sleep lock is left out: what runs under it is one step, and sleep and wakeup are the changes of
--   place of the processes.
-- - Proc: kernel/proc.c. `Proc.Defs` has the table and the operations on it (wakeup, reparent,
--   freeproc, allocproc), `Proc.Calls` the calls; `Proc.Family` is the invariant on parents and
--   children, which `Proc.Exit`, `Proc.Wait` and `Proc.Fork` keep; `Proc.Steps` interleaves the
--   calls of all processes. fork, exit and a round of wait are one step each, from their first lock
--   to their last; besides wait, no process sleeps on its own address. `nextpid` is kept modulo 2 ^
--   32. Pages and page tables that the calls ask for are arguments, and so is whether a copy of
--   memory succeeds.
-- - Vm: kernel/vm.c, with the macros of kernel/riscv.h that it uses. `Vm.Defs` has walk,
--   walkaddr, copyin and copyout, `Vm.Entry` and `Vm.Walk` what a walk that makes page tables
--   leaves, `Vm.Copyin` and `Vm.Copyout` what the copies do. The words of page-table pages are kept
--   apart from the bytes of all other pages. A copy has one round of fuel for each byte, and each
--   round copies a byte or more.
-- - Lock: kernel/spinlock.c. `Lock.Defs` cuts acquire and release at each access to the lock;
--   `Lock.Steps` has all interleavings of the CPUs on one lock, `Lock.Owner`, `Lock.Masked` and
--   `Lock.Exclusion` treat them, `Lock.Nesting` push_off and pop_off.
-- - Kalloc: kernel/kalloc.c. `Kalloc.Defs` has kalloc and kfree, `Kalloc.Pages` the list of free
--   pages.
-- - File: kernel/file.c, the table of open files. `File.Table` has filealloc, filedup and
--   fileclose, `File.Holders` the reference counts against the references held.
-- Panics are `none`. A call that sleeps ends its run in the model and tests again in a later run;
-- the calls of other processes run in between. The other models have no locks: a function that
-- holds one lock from its start to its end is one step. Bytes are numbers below 256, pointers are
-- numbers, and no address passes the end of the address space. Code that only drives hardware
-- (UART, PLIC, virtio, trap entry) and the tests are not modelled.
pub mod Prelude
pub mod Bits
pub mod Str
pub mod Grep
pub mod Log
pub mod Pipe
pub mod Fs
pub mod File
pub mod Console
pub mod Proc
pub mod Vm
pub mod Lock
pub mod Kalloc
pub mod Inode
pub mod Links
pub mod Bio
pub mod Print
pub mod Dir
pub mod Sleeplock
