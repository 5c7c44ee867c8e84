-- ===== src/Log/Recover.antt =====
-- `recover_from_log` of kernel/log.c, run after a crash and perhaps cut short by another.
use xv6_riscv_labs.Prelude.{
  ℕ, ◌+◌, ◌-◌, ◌≤◌, ◌<◌, ◌≡◌, refl, true, arith, update, inl, inr, dec_lt, fun_ext, ap, ◌∙◌,
}
use xv6_riscv_labs.Log.Disk.{Block, Io, set_data, bwrite}
use xv6_riscv_labs.Log.Defs.{
  Log, install_from, install_trans, write_head, read_head, read_blocks, header_block,
  recover_from_log, reboot,
}
use xv6_riscv_labs.Log.Install.{
  install_from_cong, install_from_other, install_from_power, install_from_hit, read_blocks_lem,
}
use xv6_riscv_labs.Log.States.{
  Outside, Unlogged, IsReady, bwrite_on, bwrite_off, find_logged, Holds, IsCommitted, header_count,
}
use xv6_riscv_labs.Log.Commit.{start_apart, not_log_block, elsewhere_start}

-- `initlog` after a crash: recovery with power for `p` writes.
unfoldable pub restart : ℕ → Log → Log
unfolding reboot recover_from_log
restart p log = recover_from_log (reboot p log)

-- The block numbers that `read_head` finds on a disk.
abbrev pub found : ℕ → (ℕ → Block) → ℕ → ℕ
found start disk = read_blocks (disk start 0) 0 (disk start) (λ _. 0)

abbrev pub booted : ℕ → (ℕ → Block) → Io
booted p disk = record { cache = disk; disk = disk; pins = λ _. 0; power = p }

-- The steps of recovery.
abbrev pub replayed : ℕ → ℕ → (ℕ → Block) → Io
replayed start p disk = install_from start (found start disk) true (disk start 0) 0 (booted p disk)

abbrev pub recovered : ℕ → ℕ → (ℕ → Block) → Io
recovered start p disk = bwrite start (
    set_data (replayed start p disk) start (
      header_block (record { n = 0; block = found start disk })
        ((replayed start p disk).cache start)))

pub restart_lem :
    (p : ℕ) (log : Log)
    → ((restart p log).io ≡ recovered log.start p log.io.disk)
      × ((restart p log).start ≡ log.start)
      × ((restart p log).size ≡ log.size)
unfolding restart read_head write_head install_trans
restart_lem p log = (refl, refl, refl)

module _ (start p : ℕ) (disk : ℕ → Block) where
  final_on :
      1 ≤ (replayed start p disk).power
      → (recovered start p disk).disk
        ≡ update (replayed start p disk).disk start (
            header_block
              (record { n = 0; block = found start disk })
              ((replayed start p disk).cache start))
  final_on q = ground (
    arith,
    bwrite_on start (
        set_data (replayed start p disk) start (
          header_block (record { n = 0; block = found start disk })
            ((replayed start p disk).cache start))),
  )

  final_off :
      (replayed start p disk).power ≡ 0
      → (recovered start p disk).disk ≡ (replayed start p disk).disk
  final_off q =
      ap (λ (io : Io). io.disk)
        (bwrite_off start
          (set_data (replayed start p disk) start (
            header_block (record { n = 0; block = found start disk })
              ((replayed start p disk).cache start)))
          q)

  final_count :
      header_block
        (record { n = 0; block = found start disk })
        ((replayed start p disk).cache start)
        0
      ≡ 0
  final_count =
      header_count (record { n = 0; block = found start disk })
        ((replayed start p disk).cache start)

  replayed_power : (replayed start p disk).power ≡ p - disk start 0
  replayed_power = install_from_power start (found start disk) true (disk start 0) 0 (booted p disk)

  replayed_empty : disk start 0 ≡ 0 → (replayed start p disk).disk ≡ disk
  replayed_empty e = fun_ext (λ b.
      (install_from_other start (found start disk) true (disk start 0) 0 (booted p disk) b
        (λ i q r. absurd (omega arith))).0)

module _ (log : Log) (ready : IsReady log) (target disk : ℕ → Block) (p : ℕ)
    (h : Holds log target disk) where
  -- Recovery finds an empty log and keeps the blocks.
  pub recovered_empty : Holds log target (recovered log.start p disk).disk
  recovered_empty = elim (dec_lt 0 (replayed log.start p disk).power) [
    | yes on ↦ record {
      empty = ground (arith, final_on log.start p disk on, final_count log.start p disk);
      blocks = λ b o. ground (
        arith,
        final_on log.start p disk on,
        replayed_empty log.start p disk h.empty,
        h.blocks b o,
        elsewhere_start log ready b o,
      );
    }
    | no off ↦ record {
      empty = ground (
        arith,
        final_off log.start p disk (omega arith),
        replayed_empty log.start p disk h.empty,
        h.empty,
      );
      blocks = λ b o. ground (
        arith,
        final_off log.start p disk (omega arith),
        replayed_empty log.start p disk h.empty,
        h.blocks b o,
      );
    }
  ]

module _ (log : Log) (ready : IsReady log) (disk : ℕ → Block) (p : ℕ)
    (h : IsCommitted log disk) where
  -- The header of the disk gives back the block numbers of the transaction.
  found_lem : (i : ℕ) → i < log.lh.n → found log.start disk i ≡ log.lh.block i
  found_lem i q = ground (
    arith,
    read_blocks_lem (disk log.start 0) 0 (disk log.start) (λ _. 0) i,
    h.count,
    h.numbers i q,
  )

  replay_lem :
      replayed log.start p disk
      ≡ install_from log.start log.lh.block true log.lh.n 0 (booted p disk)
  replay_lem =
      install_from_cong log.start (found log.start disk) log.lh.block true (disk log.start 0) 0
        (booted p disk) (λ i a b. found_lem i (omega (arith, h.count)))
      ∙ ap (λ k. install_from log.start log.lh.block true k 0 (booted p disk)) h.count

  replay_other : (b : ℕ) → Unlogged log b → (replayed log.start p disk).disk b ≡ disk b
  replay_other b u =
      rw replay_lem
        (install_from_other log.start log.lh.block true log.lh.n 0 (booted p disk) b
          (λ i a q. u i (omega arith))).0

  replay_hit :
      log.lh.n ≤ p
      → (i : ℕ) → i < log.lh.n
      → (replayed log.start p disk).disk (log.lh.block i) ≡ log.io.cache (log.lh.block i)
  replay_hit enough i q = rw replay_lem (
      (install_from_hit log.start log.lh.block true log.lh.n 0 (booted p disk) i enough
        (λ j l a b. not_log_block log ready j l (omega arith) (omega arith))
        (λ j l a b. ready.distinct j l (omega arith) (omega arith)) (omega arith) (omega arith)).0
      ∙ h.copies i q)

  replay-IsCommitted : IsCommitted log (replayed log.start p disk).disk
  replay-IsCommitted = record {
    count = rw (replay_other log.start (start_apart log ready)) h.count;
    numbers = λ i q. rw (replay_other log.start (start_apart log ready)) (h.numbers i q);
    copies = λ i q.
        rw (replay_other (log.start + i + 1) (λ j a. not_log_block log ready j i a q))
          (h.copies i q);
    others = λ b o u. rw (replay_other b u) (h.others b o u);
  }

  replay_block :
      log.lh.n ≤ p → (b : ℕ) → Outside log b → (replayed log.start p disk).disk b ≡ log.io.cache b
  replay_block enough b o = elim (find_logged log.lh.block b log.lh.n) [
    | inl (i, q, e) ↦ rw (← e) (replay_hit enough i q)
    | inr u ↦ replay_other b u ∙ h.others b o u
  ]

  -- Enough power to install the blocks and to clear the header.
  pub recovered_whole : log.lh.n < p → Holds log log.io.cache (recovered log.start p disk).disk
  recovered_whole enough = record {
    empty = ground (arith, final_on log.start p disk on, final_count log.start p disk);
    blocks = λ b o. ground (
      arith,
      final_on log.start p disk on,
      elsewhere_start log ready b o,
      replay_block (omega arith) b o,
    );
  }
    where
      on : 1 ≤ (replayed log.start p disk).power
      on = omega (arith, replayed_power log.start p disk, h.count)

  -- Less power: the transaction stays in the log.
  pub recovered_cut : p ≤ log.lh.n → IsCommitted log (recovered log.start p disk).disk
  recovered_cut few =
      rw (final_off log.start p disk (omega (arith, replayed_power log.start p disk, h.count)))
        replay-IsCommitted
