-- ===== src/Log/States.antt =====
-- What the disk can hold between the writes of the log, and the state before a commit.
use xv6_riscv_labs.Prelude.{
  ℕ, zero, suc, ◌+◌, ◌-◌, ◌≤◌, ◌<◌, ◌≡◌, ◌≢◌, arith, update, ℕ_discrete, ◌⊎◌, inl, inr,
}
use xv6_riscv_labs.Log.Disk.{Block, Io, bwrite}
use xv6_riscv_labs.Log.Defs.{Log, LogHeader, log_size, header_block}
use xv6_riscv_labs.Log.Install.{put_blocks_lem}

-- A block number outside the log's area of the disk.
abbrev pub Outside : Log → ℕ → Type 0
Outside log b = (b < log.start) ⊎ (log.start + log.size ≤ b)

abbrev pub Unlogged : Log → ℕ → Type 0
Unlogged log b = (i : ℕ) → i < log.lh.n → log.lh.block i ≢ b

-- A log between two operations of the file system, before its commit: the logged blocks are
-- distinct and outside the log, only they differ from the disk, and the disk holds no transaction.
pub record IsReady (log : Log) : Type 0 where
  pub fits : log.lh.n ≤ log_size
  pub room : log.lh.n + 1 ≤ log.size
  pub distinct : (i j : ℕ) → i < log.lh.n → j < log.lh.n → log.lh.block i ≡ log.lh.block j → i ≡ j
  pub away : (i : ℕ) → i < log.lh.n → Outside log (log.lh.block i)
  pub clean : (b : ℕ) → Outside log b → Unlogged log b → log.io.cache b ≡ log.io.disk b
  pub erased : log.io.disk log.start 0 ≡ 0

pub bwrite_on :
    (b : ℕ) (io : Io)
    → 1 ≤ io.power
    → ((bwrite b io).disk ≡ update io.disk b (io.cache b))
      × ((bwrite b io).cache ≡ io.cache)
      × ((bwrite b io).power ≡ io.power - 1)
unfolding bwrite
bwrite_on b io p = ground arith

pub bwrite_off : (b : ℕ) (io : Io) → io.power ≡ 0 → bwrite b io ≡ io
unfolding bwrite
bwrite_off b io p = ground arith

module _ (block : ℕ → ℕ) (b : ℕ) where
  pub find_logged : (n : ℕ) → ((i : ℕ) × (i < n) × (block i ≡ b)) ⊎ ((i : ℕ) → i < n → block i ≢ b)
  find_logged zero = inr (λ i p. absurd (omega arith))
  find_logged (suc n) = elim (ℕ_discrete (block n) b) [
    | yes e ↦ inl (n, omega arith, e)
    | no ne ↦ elim (find_logged n) [
      | inl (i, p, e) ↦ inl (i, omega arith, e)
      | inr none_below ↦ inr (λ i p. elim (ℕ_discrete i n) [
        | yes same ↦ rw same ne
        | no other ↦ none_below i (omega arith)
      ])
    ]
  ]

-- A disk with an empty log, whose other blocks are those of `target`.
pub record Holds (log : Log) (target disk : ℕ → Block) : Type 0 where
  pub empty : disk log.start 0 ≡ 0
  pub blocks : (b : ℕ) → Outside log b → disk b ≡ target b

-- A disk whose log holds the transaction of `log`, installed or not.
pub record IsCommitted (log : Log) (disk : ℕ → Block) : Type 0 where
  pub count : disk log.start 0 ≡ log.lh.n
  pub numbers : (i : ℕ) → i < log.lh.n → disk log.start (1 + i) ≡ log.lh.block i
  pub copies : (i : ℕ) → i < log.lh.n → disk (log.start + i + 1) ≡ log.io.cache (log.lh.block i)
  pub others : (b : ℕ) → Outside log b → Unlogged log b → disk b ≡ log.io.cache b

pub header_count : (lh : LogHeader) (hb : Block) → header_block lh hb 0 ≡ lh.n
header_count lh hb = ground (arith, put_blocks_lem lh.n 0 lh.block (update hb 0 lh.n) 0)

pub header_number :
    (lh : LogHeader) (hb : Block) (i : ℕ) → i < lh.n → header_block lh hb (1 + i) ≡ lh.block i
header_number lh hb i p = ground (arith, put_blocks_lem lh.n 0 lh.block (update hb 0 lh.n) (1 + i))
