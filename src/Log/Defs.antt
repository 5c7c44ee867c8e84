-- ===== src/Log/Defs.antt =====
-- The operations of kernel/log.c.
use xv6_riscv_labs.Prelude.{
  ℕ, zero, suc, ◌+◌, ◌*◌, ◌||◌, Bool, true, false, Option, none, some, ltb, leb, ◌==◌,
  if◌then◌else◌, update,
}
use xv6_riscv_labs.Prelude.Int.{ℤ, pos, negsuc}
use xv6_riscv_labs.Log.Disk.{Block, Io, set_data, bwrite, bpin, bunpin}

abbrev pub max_op_blocks : ℕ
max_op_blocks = 10

abbrev pub log_size : ℕ
log_size = 30

-- `struct logheader`
pub record LogHeader : Type 0 where
  pub n : ℕ
  pub block : ℕ → ℕ

-- `struct log`, with the disk and the buffer cache that it works on.
pub record Log : Type 0 where
  pub start : ℕ
  pub size : ℕ
  pub outstanding : ℤ
  pub committing : Bool
  pub lh : LogHeader
  pub io : Io

-- One round of `install_trans`.
abbrev pub install_one : ℕ → (ℕ → ℕ) → Bool → ℕ → Io → Io
unfolding bwrite
install_one start block recovering tail io =
    let io' = bwrite (block tail) (set_data io (block tail) (io.cache (start + tail + 1))) in
    if recovering then io' else bunpin (block tail) io'

-- The loop of `install_trans` from `tail` on, with `k` rounds left.
unfoldable pub install_from : ℕ → (ℕ → ℕ) → Bool → ℕ → ℕ → Io → Io
install_from start block recovering zero tail io = io
install_from start block recovering (suc k) tail io =
    install_from start block recovering k (tail + 1) (install_one start block recovering tail io)

unfoldable pub install_trans : Bool → Log → Log
install_trans recovering log = record log {
  io = install_from log.start log.lh.block recovering log.lh.n 0 log.io;
}

-- The loop of `read_head`: the words of the header block from 1 on are the block numbers.
unfoldable pub read_blocks : ℕ → ℕ → Block → (ℕ → ℕ) → ℕ → ℕ
read_blocks zero i buf block = block
read_blocks (suc k) i buf block = read_blocks k (i + 1) buf (update block i (buf (1 + i)))

unfoldable pub read_head : Log → Log
unfolding read_blocks
read_head log =
    let buf = log.io.cache log.start in
    record log { lh = record { n = buf 0; block = read_blocks (buf 0) 0 buf log.lh.block } }

-- The loop of `write_head`.
unfoldable pub put_blocks : ℕ → ℕ → (ℕ → ℕ) → Block → Block
put_blocks zero i block hb = hb
put_blocks (suc k) i block hb = put_blocks k (i + 1) block (update hb (1 + i) (block i))

abbrev pub header_block : LogHeader → Block → Block
header_block lh hb = put_blocks lh.n 0 lh.block (update hb 0 lh.n)

unfoldable pub write_head : Log → Log
write_head log = record log {
  io = bwrite log.start (set_data log.io log.start (header_block log.lh (log.io.cache log.start)));
}

abbrev pub clear : Log → Log
clear log = record log { lh = record { n = 0; block = log.lh.block } }

unfoldable pub recover_from_log : Log → Log
recover_from_log log = write_head (clear (install_trans true (read_head log)))

-- One round of `write_log`.
abbrev pub write_one : ℕ → (ℕ → ℕ) → ℕ → Io → Io
unfolding bwrite
write_one start block tail io =
    bwrite (start + tail + 1) (set_data io (start + tail + 1) (io.cache (block tail)))

unfoldable pub write_log_from : ℕ → (ℕ → ℕ) → ℕ → ℕ → Io → Io
write_log_from start block zero tail io = io
write_log_from start block (suc k) tail io =
    write_log_from start block k (tail + 1) (write_one start block tail io)

unfoldable pub write_log : Log → Log
write_log log = record log { io = write_log_from log.start log.lh.block log.lh.n 0 log.io }

unfoldable pub commit : Log → Log
commit log =
    if ltb 0 log.lh.n
    then write_head (clear (install_trans false (write_head (write_log log))))
    else log

-- `log.lh.n + (log.outstanding+1)*MAXOPBLOCKS > LOGSIZE` on `int`s.
abbrev pub exhausts : ℕ → ℤ → Bool
exhausts n (pos o) = ltb log_size (n + (o + 1) * max_op_blocks)
exhausts n (negsuc o) = ltb (log_size + o * max_op_blocks) n

abbrev pub succ_ℤ : ℤ → ℤ
succ_ℤ (pos n) = pos (suc n)
succ_ℤ (negsuc zero) = pos 0
succ_ℤ (negsuc (suc n)) = negsuc n

abbrev pub pred_ℤ : ℤ → ℤ
pred_ℤ (pos zero) = negsuc 0
pred_ℤ (pos (suc n)) = pos n
pred_ℤ (negsuc n) = negsuc (suc n)

abbrev pub is_pos_zero : ℤ → Bool
is_pos_zero (pos n) = n == 0
is_pos_zero (negsuc n) = false

abbrev pub is_below_one : ℤ → Bool
is_below_one (pos n) = n == 0
is_below_one (negsuc n) = true

-- One round of the loop of `begin_op`: `none` is a `sleep`, after which the loop tests again.
unfoldable pub begin_op : Log → Option Log
begin_op log =
    if log.committing
    then none
    else if exhausts log.lh.n log.outstanding
    then none
    else some (record log { outstanding = succ_ℤ log.outstanding })

-- `none` is the panic.
unfoldable pub end_op : Log → Option Log
unfolding commit
end_op log =
    let less = record log { outstanding = pred_ℤ log.outstanding } in
    if log.committing
    then none
    else if is_pos_zero less.outstanding
    then some (record (commit (record less { committing = true })) { committing = false })
    else some less

-- The search of `log_write`: the first index below `i + k` that holds `b`, or `i + k`.
unfoldable pub find_from : ℕ → ℕ → (ℕ → ℕ) → ℕ → ℕ
find_from zero i block b = i
find_from (suc k) i block b =
    let rest = find_from k (i + 1) block b in if block i == b then i else rest

-- The second half of `log_write`: record the block number, and pin its buffer if it is new.
unfoldable pub add_block : ℕ → Log → Log
add_block b log =
    let i = find_from log.lh.n 0 log.lh.block b in
    let block' = update log.lh.block i b in
    if i == log.lh.n
    then record log { lh = record { n = log.lh.n + 1; block = block' }; io = bpin b log.io }
    else record log { lh = record { n = log.lh.n; block = block' } }

-- `log_write` of the buffer of block `b`; `none` is a panic. `log.size - 1` is signed.
unfoldable pub log_write : ℕ → Log → Option Log
unfolding add_block
log_write b log =
    if leb log_size log.lh.n || leb log.size (log.lh.n + 1)
    then none
    else if is_below_one log.outstanding
    then none
    else some (add_block b log)

-- A crash loses all that is in memory; the machine starts again with power for `p` disk writes.
unfoldable pub reboot : ℕ → Log → Log
reboot p log = record {
  start = log.start;
  size = log.size;
  outstanding = pos 0;
  committing = false;
  lh = record { n = 0; block = λ _. 0 };
  io = record { cache = log.io.disk; disk = log.io.disk; pins = λ _. 0; power = p };
}
