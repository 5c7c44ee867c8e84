-- ===== src/Log/Commit.antt =====
-- `commit` of kernel/log.c, cut short after any number of disk writes.
use xv6_riscv_labs.Prelude.{
  ℕ, ◌+◌, ◌-◌, ◌≤◌, ◌<◌, ◌≡◌, ◌≢◌, refl, sym, dec_lt, false, arith, update, ◌⊎◌, inl, inr, dec_lt,
}
use xv6_riscv_labs.Log.Disk.{Io, set_data, bwrite}
use xv6_riscv_labs.Log.Defs.{
  Log, install_from, install_trans, write_log_from, write_log, write_head, header_block, commit,
}
use xv6_riscv_labs.Log.Install.{
  install_from_other, install_from_power, install_from_hit, install_from_dead, write_log_from_power,
  write_log_from_other, write_log_from_hit,
}
use xv6_riscv_labs.Log.States.{
  Outside, Unlogged, IsReady, bwrite_on, bwrite_off, find_logged, Holds, IsCommitted, header_count,
  header_number,
}

-- The steps of `commit`.
abbrev pub after_log : Log → Io
after_log log = write_log_from log.start log.lh.block log.lh.n 0 log.io

abbrev pub after_head : Log → Io
after_head log =
    bwrite log.start
      (set_data (after_log log) log.start (header_block log.lh ((after_log log).cache log.start)))

abbrev pub after_install : Log → Io
after_install log = install_from log.start log.lh.block false log.lh.n 0 (after_head log)

abbrev pub after_clear : Log → Io
after_clear log = bwrite log.start (
    set_data (after_install log) log.start
      (header_block (record { n = 0; block = log.lh.block }) ((after_install log).cache log.start)))

pub commit_io : (log : Log) → 0 < log.lh.n → (commit log).io ≡ after_clear log
unfolding commit write_head install_trans write_log
commit_io log p = ground arith

pub commit_nothing : (log : Log) → ¬ (0 < log.lh.n) → commit log ≡ log
unfolding commit
commit_nothing log none_logged = ground arith

pub commit_start : (log : Log) → ((commit log).start ≡ log.start) × ((commit log).size ≡ log.size)
unfolding commit write_head install_trans write_log
commit_start log = ground arith

module _ (log : Log) (ready : IsReady log) where
  open ready use {room, distinct, away, clean, erased}

  pub not_log_block : (i l : ℕ) → i < log.lh.n → l < log.lh.n → log.lh.block i ≢ log.start + l + 1
  not_log_block i l p q e = elim (away i p) [ inl low ↦ omega arith | inr high ↦ omega arith ]

  pub log_elsewhere :
      (b : ℕ)
      → Outside log b
      → ((after_log log).disk b ≡ log.io.disk b) × ((after_log log).cache b ≡ log.io.cache b)
  log_elsewhere b o =
      write_log_from_other log.start log.lh.block log.lh.n 0 log.io b
        (λ i p q e. elim o [ inl low ↦ omega arith | inr high ↦ omega arith ])

  log_start : (after_log log).disk log.start ≡ log.io.disk log.start
  log_start =
      (write_log_from_other log.start log.lh.block log.lh.n 0 log.io log.start
        (λ i p q e. omega arith)).0

  pub start_apart : (i : ℕ) → i < log.lh.n → log.lh.block i ≢ log.start
  start_apart i p e = elim (away i p) [ inl low ↦ omega arith | inr high ↦ omega arith ]

  elsewhere_apart : (b i : ℕ) → Outside log b → i < log.lh.n → b ≢ log.start + i + 1
  elsewhere_apart b i o p e = elim o [ inl low ↦ omega arith | inr high ↦ omega arith ]

  pub elsewhere_start : (b : ℕ) → Outside log b → b ≢ log.start
  elsewhere_start b o e = elim o [ inl low ↦ omega arith | inr high ↦ omega arith ]

  log_power : (after_log log).power ≡ log.io.power - log.lh.n
  log_power = write_log_from_power log.start log.lh.block log.lh.n 0 log.io

  pub install_power : (after_install log).power ≡ (after_head log).power - log.lh.n
  install_power = install_from_power log.start log.lh.block false log.lh.n 0 (after_head log)

  -- Power lost before the header is written: the header of the disk is the old one.
  pub early_disk : log.io.power ≤ log.lh.n → (after_clear log).disk ≡ (after_log log).disk
  early_disk p = ground (
    arith,
    log_power,
    install_power,
    bwrite_off log.start (
        set_data (after_log log) log.start (header_block log.lh ((after_log log).cache log.start))),
    install_from_dead log.start log.lh.block false log.lh.n 0 (after_head log),
    bwrite_off log.start (
        set_data (after_install log) log.start (
          header_block (record { n = 0; block = log.lh.block })
            ((after_install log).cache log.start))),
  )

  pub commit_early :
      0 < log.lh.n → log.io.power ≤ log.lh.n → Holds log log.io.disk (commit log).io.disk
  commit_early logged p = record {
    empty = rw (commit_io log logged, early_disk p, log_start) erased;
    blocks = λ b o. rw (commit_io log logged, early_disk p) (log_elsewhere b o).0;
  }

  module _ (late : log.lh.n < log.io.power) where
    pub head_lem :
        ((after_head log).disk
          ≡ update
              (after_log log).disk
              log.start
              (header_block log.lh ((after_log log).cache log.start)))
        × ((after_head log).cache
            ≡ update
                (after_log log).cache
                log.start
                (header_block log.lh ((after_log log).cache log.start)))
        × ((after_head log).power ≡ log.io.power - log.lh.n - 1)
    head_lem = ground (
      arith,
      log_power,
      bwrite_on log.start (
          set_data (after_log log) log.start
            (header_block log.lh ((after_log log).cache log.start))),
    )

    pub copied :
        (i : ℕ)
        → i < log.lh.n
        → ((after_log log).disk (log.start + i + 1) ≡ log.io.cache (log.lh.block i))
          × ((after_log log).cache (log.start + i + 1) ≡ log.io.cache (log.lh.block i))
    copied i p =
        write_log_from_hit log.start log.lh.block log.lh.n 0 log.io i (omega arith)
          (λ j l q r. not_log_block j l (omega arith) (omega arith)) (omega arith) (omega arith)

    install_other : (b : ℕ) → Unlogged log b → (after_install log).disk b ≡ (after_head log).disk b
    install_other b u =
        (install_from_other log.start log.lh.block false log.lh.n 0 (after_head log) b
          (λ i p q. u i (omega arith))).0

    install_start :
        (after_install log).disk log.start ≡ header_block log.lh ((after_log log).cache log.start)
    install_start = ground (arith, install_other log.start start_apart, head_lem)

    install_copy :
        (i : ℕ)
        → i < log.lh.n
        → (after_install log).disk (log.start + i + 1) ≡ log.io.cache (log.lh.block i)
    install_copy i p = ground (
      arith,
      install_other (log.start + i + 1) (λ j q. not_log_block j i q p),
      head_lem,
      copied i p,
    )

    install_rest :
        (b : ℕ) → Outside log b → Unlogged log b → (after_install log).disk b ≡ log.io.cache b
    install_rest b o u =
        ground
          (arith, install_other b u, head_lem, elsewhere_start b o, log_elsewhere b o, clean b o u)

    -- The header is on the disk.
    pub committed : IsCommitted log (after_install log).disk
    committed = record {
      count = rw install_start (header_count log.lh ((after_log log).cache log.start));
      numbers =
          λ i p. rw install_start (header_number log.lh ((after_log log).cache log.start) i p);
      copies = install_copy;
      others = install_rest;
    }

    cut_disk :
        ¬ (log.lh.n + log.lh.n + 1 < log.io.power)
        → (after_clear log).disk ≡ (after_install log).disk
    cut_disk partly = ground (
      arith,
      head_lem,
      install_power,
      bwrite_off log.start (
          set_data (after_install log) log.start (
            header_block (record { n = 0; block = log.lh.block })
              ((after_install log).cache log.start))),
    )

    module _ (whole : log.lh.n + log.lh.n + 1 < log.io.power) where
      clear_disk :
          (after_clear log).disk
          ≡ update (after_install log).disk log.start (
              header_block
                (record { n = 0; block = log.lh.block })
                ((after_install log).cache log.start))
      clear_disk = ground (
        arith,
        head_lem,
        install_power,
        bwrite_on log.start (
            set_data (after_install log) log.start (
              header_block (record { n = 0; block = log.lh.block })
                ((after_install log).cache log.start))),
      )

      installed :
          (i : ℕ)
          → i < log.lh.n
          → (after_install log).disk (log.lh.block i) ≡ log.io.cache (log.lh.block i)
      installed i p = ground (
        arith,
        install_from_hit log.start log.lh.block false log.lh.n 0 (after_head log) i
            (omega (arith, head_lem)) (λ j l q r. not_log_block j l (omega arith) (omega arith))
            (λ j l q r. distinct j l (omega arith) (omega arith)) (omega arith) (omega arith),
        head_lem,
        copied i p,
      )

      clear_block : (b : ℕ) → Outside log b → (after_install log).disk b ≡ log.io.cache b
      clear_block b o = elim (find_logged log.lh.block b log.lh.n) [
        | inl (i, p, e) ↦ rw (← e) (installed i p)
        | inr u ↦ install_rest b o u
      ]

      pub cleared : Holds log log.io.cache (after_clear log).disk
      cleared = record {
        empty = ground (
          arith,
          clear_disk,
          header_count (record { n = 0; block = log.lh.block })
              ((after_install log).cache log.start),
        );
        blocks = λ b o. ground (arith, clear_disk, elsewhere_start b o, clear_block b o);
      }

module _ (log : Log) (ready : IsReady log) where
  -- The power fails before the header is written: the disk holds the old blocks.
  pub commit_before : log.io.power ≤ log.lh.n → Holds log log.io.disk (commit log).io.disk
  commit_before early = elim (dec_lt 0 log.lh.n) [
    | yes logged ↦ commit_early log ready logged early
    | no none_logged ↦
        rw (commit_nothing log none_logged) (record { empty = ready.erased; blocks = λ b o. refl })
  ]

  -- The header is written: the transaction is in the log, or installed.
  pub commit_after :
      log.lh.n < log.io.power
      → IsCommitted log (commit log).io.disk ⊎ Holds log log.io.cache (commit log).io.disk
  commit_after late = elim (dec_lt 0 log.lh.n) [
    | no none_logged ↦ inr (
        rw (commit_nothing log none_logged) (record {
          empty = ready.erased;
          blocks = λ b o. sym (ready.clean b o (λ i p. absurd (omega arith)));
        }))
    | yes logged ↦ elim (dec_lt (log.lh.n + log.lh.n + 1) log.io.power) [
      | yes whole ↦ inr (rw (commit_io log logged) (cleared log ready late whole))
      | no partly ↦
          inl (rw (commit_io log logged, cut_disk log ready late partly) (committed log ready late))
    ]
  ]
