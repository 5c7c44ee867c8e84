-- ===== src/Log/Write.antt =====
-- `begin_op` and `log_write` of kernel/log.c: what they admit, and what they keep.
use xv6_riscv_labs.Prelude.{
  ℕ, zero, suc, ◌+◌, ◌≤◌, ◌<◌, ◌≡◌, ◌≢◌, some, arith, ◌==◌, if◌then◌else◌, update, ℕ_discrete,
}
use xv6_riscv_labs.Prelude.Int.{pos}
use xv6_riscv_labs.Log.Disk.{Block, set_data}
use xv6_riscv_labs.Log.Defs.{Log, log_size, find_from, log_write, add_block}
use xv6_riscv_labs.Log.States.{Outside, Unlogged, IsReady}

-- The caller's change of the buffer of block `b`, which `log_write` follows.
abbrev pub modify : ℕ → Block → Log → Log
modify b v log = record log { io = set_data log.io b v }

-- `find_from` gives the first place of `b`, or the end.
find_from_lem :
    (k i : ℕ) (block : ℕ → ℕ) (b : ℕ)
    → (i ≤ find_from k i block b)
      × (find_from k i block b ≤ i + k)
      × ((find_from k i block b < i + k) → block (find_from k i block b) ≡ b)
unfolding find_from
find_from_lem zero i block b = (omega arith, omega arith, λ p. absurd (omega arith))
find_from_lem (suc k) i block b = elim (ℕ_discrete (block i) b) [
  | yes e ↦ (ground arith, ground arith, λ p. ground arith)
  | no ne ↦
      let ih = find_from_lem k (i + 1) block b in
      (ground (arith, ih), ground (arith, ih), λ p. ground (arith, ih.2 (ground arith)))
]

find_from_first :
    (k i : ℕ) (block : ℕ → ℕ) (b j : ℕ) → i ≤ j → j < find_from k i block b → block j ≢ b
unfolding find_from
find_from_first zero i block b j lo hi e = absurd (omega arith)
find_from_first (suc k) i block b j lo hi e = elim (ℕ_discrete (block i) b) [
  | yes same ↦ ground arith
  | no ne ↦ elim (ℕ_discrete i j) [
    | yes here ↦ ne (ground arith)
    | no later ↦ find_from_first k (i + 1) block b j (omega arith) (ground arith) e
  ]
]

module _ (b : ℕ) (v : Block) (log : Log) where
  abbrev place : ℕ
  place = find_from log.lh.n 0 log.lh.block b

  abbrev after : Log
  after = add_block b (modify b v log)

  -- What `log_write` changes: the list of blocks.
  add_block_lem :
      (after.start ≡ log.start)
      × (after.size ≡ log.size)
      × (after.io.disk ≡ log.io.disk)
      × (after.io.cache ≡ update log.io.cache b v)
      × (after.lh.n ≡ (if place == log.lh.n then log.lh.n + 1 else log.lh.n))
      × (after.lh.block ≡ update log.lh.block place b)
  unfolding add_block
  add_block_lem = ground arith

  module _ (ready : IsReady log) (o : Outside log b) (room : log.lh.n < log_size)
      (fits : log.lh.n + 1 < log.size) where
    placed : (place < after.lh.n) × (after.lh.block place ≡ b) × (place ≤ log.lh.n)
    placed = ground (arith, add_block_lem, find_from_lem log.lh.n 0 log.lh.block b)

    after_distinct :
        (i j : ℕ) → i < after.lh.n → j < after.lh.n → after.lh.block i ≡ after.lh.block j → i ≡ j
    after_distinct i j p q e = ground (
      arith,
      add_block_lem,
      find_from_lem log.lh.n 0 log.lh.block b,
      find_from_first log.lh.n 0 log.lh.block b i,
      find_from_first log.lh.n 0 log.lh.block b j,
      ready.distinct i j,
      ready.distinct i place,
      ready.distinct j place,
    )

    after_away : (i : ℕ) → i < after.lh.n → Outside after (after.lh.block i)
    after_away i p =
        ground (arith, o, add_block_lem, find_from_lem log.lh.n 0 log.lh.block b, ready.away i)

    after_clean : (c : ℕ) → Outside after c → Unlogged after c → after.io.cache c ≡ after.io.disk c
    after_clean c out u =
        ground
          (arith, add_block_lem, placed, u place, ready.clean c (ground (arith, add_block_lem)) old)
      where
        old : Unlogged log c
        old i p e =
            u i (ground (arith, add_block_lem))
              (ground (arith, add_block_lem, find_from_lem log.lh.n 0 log.lh.block b))

    add_block-IsReady : IsReady after
    add_block-IsReady = record {
      fits = ground (arith, add_block_lem);
      room = ground (arith, add_block_lem);
      distinct = after_distinct;
      away = after_away;
      clean = after_clean;
      erased = ground (arith, add_block_lem, ready.erased);
    }

-- `log_write` inverted: no panic, and the blocks recorded.
log_write_inv :
    (b : ℕ) (log : Log) {log' : Log}
    → log_write b log ≡ some log'
    → (log.lh.n < log_size) × (log.lh.n + 1 < log.size) × (add_block b log ≡ log')
unfolding log_write
log_write_inv b log e = ground arith

pub log_write_rest :
    (b : ℕ) (log : Log) {log' : Log}
    → log_write b log ≡ some log'
    → (log'.outstanding ≡ log.outstanding)
      × (log'.committing ≡ log.committing)
      × (log'.size ≡ log.size)
unfolding log_write add_block
log_write_rest b log e = ground arith

-- `log_write` does not panic in a transaction, while there is room in the log.
pub log_write-some :
    (b o : ℕ) (log : Log)
    → log.lh.n < log_size
    → log.lh.n + 1 < log.size
    → log.outstanding ≡ pos (suc o)
    → log_write b log ≡ some (add_block b log)
unfolding log_write
log_write-some b o log p q e = ground arith

-- The caller changes the buffer of a block outside the log and calls `log_write`. If that does not
-- panic, the log is ready to commit again: the block is logged, at most one block is added, and
-- the disk is not touched.
pub log_write-IsReady :
    (b : ℕ) (v : Block) (log : Log) {log' : Log}
    → IsReady log
    → Outside log b
    → log_write b (modify b v log) ≡ some log'
    → IsReady log'
      × (log.lh.n ≤ log'.lh.n)
      × (log'.lh.n ≤ log.lh.n + 1)
      × ((i : ℕ) × (i < log'.lh.n) × (log'.lh.block i ≡ b))
      × (log'.io.cache b ≡ v)
      × (log'.io.disk ≡ log.io.disk)
log_write-IsReady b v log {log'} ready o e =
    let inv = log_write_inv b (modify b v log) e in
    rw (← inv.2) (
      add_block-IsReady b v log ready o inv.0 inv.1,
      ground (arith, add_block_lem b v log),
      ground (arith, add_block_lem b v log),
      (
        place b v log,
        (placed b v log ready o inv.0 inv.1).0,
        (placed b v log ready o inv.0 inv.1).1,
      ),
      ground (arith, add_block_lem b v log),
      (add_block_lem b v log).2,
    )
