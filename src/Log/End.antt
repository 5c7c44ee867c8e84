-- ===== src/Log/End.antt =====
-- `end_op` of kernel/log.c, and transactions of several operations at once.
use xv6_riscv_labs.Prelude.{
  ℕ, ◌+◌, ◌<◌, ◌≡◌, refl, sym, ◌∙◌, true, false, some, arith, inl, inr, dec_lt,
}
use xv6_riscv_labs.Prelude.Int.{pos}
use xv6_riscv_labs.Log.Disk.{set_data}
use xv6_riscv_labs.Log.Defs.{
  Log, end_op, commit, header_block, install_trans, write_head, write_log,
}
use xv6_riscv_labs.Log.Install.{install_from_hit, install_from_other}
use xv6_riscv_labs.Log.States.{Outside, IsReady, find_logged, bwrite_on}
use xv6_riscv_labs.Log.Commit.{
  after_head, after_install, after_clear, commit_io, commit_nothing, cleared, head_lem,
  install_power, log_elsewhere, elsewhere_start, not_log_block, copied, commit_start,
}

module _ (log : Log) (ready : IsReady log) (whole : log.lh.n + log.lh.n + 1 < log.io.power) where
  late : log.lh.n < log.io.power
  late = omega arith

  installed_cache : (b : ℕ) → Outside log b → (after_install log).cache b ≡ log.io.cache b
  installed_cache b o = elim (find_logged log.lh.block b log.lh.n) [
    | inl (i, p, e) ↦ rw (← e) (
        ground (
          arith,
          (install_from_hit log.start log.lh.block false log.lh.n 0 (after_head log) i
              (omega (arith, head_lem log ready late))
              (λ j l q r. not_log_block log ready j l (omega arith) (omega arith))
              (λ j l q r. ready.distinct j l (omega arith) (omega arith)) (omega arith)
              (omega arith)).1,
          head_lem log ready late,
          copied log ready late i p,
        ))
    | inr u ↦ ground (
      arith,
      (install_from_other log.start log.lh.block false log.lh.n 0 (after_head log) b
          (λ i p q. u i (omega arith))).1,
      head_lem log ready late,
      elsewhere_start log ready b o,
      log_elsewhere log ready b o,
    )
  ]

  cleared_cache : (b : ℕ) → Outside log b → (after_clear log).cache b ≡ log.io.cache b
  cleared_cache b o = ground (
    arith,
    head_lem log ready late,
    install_power log ready,
    bwrite_on log.start (
        set_data (after_install log) log.start (
          header_block (record { n = 0; block = log.lh.block })
            ((after_install log).cache log.start))),
    elsewhere_start log ready b o,
    installed_cache b o,
  )

  commit_n : (commit log).lh.n ≡ 0
  unfolding commit write_head install_trans write_log
  commit_n = ground arith

  -- A commit that is not cut short installs the transaction: the log is empty and ready, every
  -- block outside the log holds what its buffer holds, and no buffer has changed.
  pub commit_whole :
      ((commit log).lh.n ≡ 0)
      × ((b : ℕ) → Outside log b → (commit log).io.disk b ≡ log.io.cache b)
      × ((b : ℕ) → Outside log b → (commit log).io.cache b ≡ log.io.cache b)
      × ((commit log).io.disk log.start 0 ≡ 0)
  commit_whole = elim (dec_lt 0 log.lh.n) [
    | yes logged ↦
        let holds = cleared log ready late whole in
        (
          commit_n,
          λ b o. rw (commit_io log logged) (holds.blocks b o),
          λ b o. rw (commit_io log logged) (cleared_cache b o),
          rw (commit_io log logged) holds.empty,
        )
    | no none_logged ↦ (
      commit_n,
      λ b o.
          rw (commit_nothing log none_logged) (sym (ready.clean b o (λ i p. absurd (omega arith)))),
      λ b o. rw (commit_nothing log none_logged),
      rw (commit_nothing log none_logged) ready.erased,
    )
  ]

  commit-IsReady : IsReady (commit log)
  commit-IsReady = record {
    fits = omega (arith, commit_whole.0);
    room = omega (arith, commit_whole.0, (commit_start log).1, ready.room);
    distinct = λ i j p q e. absurd (omega (arith, commit_whole.0));
    away = λ i p. absurd (omega (arith, commit_whole.0));
    clean = λ b o u.
        let o' : Outside log b = rw ((commit_start log).0, (commit_start log).1) at o in
        commit_whole.2 b o' ∙ sym (commit_whole.1 b o');
    erased = rw (commit_start log).0 commit_whole.3;
  }

-- The log as `end_op` commits it.
abbrev committing_log : Log → Log
committing_log log = record log { outstanding = pos 0; committing = true }

committing-IsReady : (log : Log) → IsReady log → IsReady (committing_log log)
committing-IsReady log ready = record {
  fits = ready.fits;
  room = ready.room;
  distinct = ready.distinct;
  away = ready.away;
  clean = ready.clean;
  erased = ready.erased;
}

end_op_commits :
    (log : Log)
    → log.outstanding ≡ pos 1
    → log.committing ≡ false
    → end_op log ≡ some (record (commit (committing_log log)) { committing = false })
unfolding end_op
end_op_commits log one free = rw (one, free) refl

outstanding-commit : (log : Log) → (commit log).outstanding ≡ log.outstanding
unfolding commit write_head install_trans write_log
outstanding-commit log = ground arith

-- The last `end_op` commits: it does not panic, the log is empty and ready again, no operation is
-- outstanding, and each block outside the log is on the disk as its buffer was.
pub end_op_last :
    (log : Log)
    → IsReady log
    → log.outstanding ≡ pos 1
    → log.committing ≡ false
    → log.lh.n + log.lh.n + 1 < log.io.power
    → (r : Log) × (end_op log ≡ some r)
      × IsReady r
      × (r.lh.n ≡ 0)
      × (r.outstanding ≡ pos 0)
      × (r.committing ≡ false)
      × ((b : ℕ) → Outside log b → r.io.disk b ≡ log.io.cache b)
      × (r.size ≡ log.size)
end_op_last log ready one free whole =
    let ready' = committing-IsReady log ready in
    let ended = commit-IsReady (committing_log log) ready' whole in
    (
      record (commit (committing_log log)) { committing = false },
      end_op_commits log one free,
      record {
        fits = ended.fits;
        room = ended.room;
        distinct = ended.distinct;
        away = ended.away;
        clean = ended.clean;
        erased = ended.erased;
      },
      commit_n (committing_log log) ready' whole,
      outstanding-commit (committing_log log),
      refl,
      (commit_whole (committing_log log) ready' whole).1,
      (commit_start (committing_log log)).1,
    )
