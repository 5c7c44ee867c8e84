-- ===== src/Log/Atomic.antt =====
-- Transactions of kernel/log.c survive crashes whole or not at all.
use xv6_riscv_labs.Prelude.{
  ℕ, ◌<◌, ◌≡◌, arith, ltb, ◌∙◌, if◌then◌else◌, ◌⊎◌, inl, inr, List, [], ◌∷◌, dec_lt,
}
use xv6_riscv_labs.Log.Disk.{Block}
use xv6_riscv_labs.Log.Defs.{Log, commit}
use xv6_riscv_labs.Log.States.{Outside, IsReady, Holds, IsCommitted}
use xv6_riscv_labs.Log.Commit.{commit_start, commit_before, commit_after}
use xv6_riscv_labs.Log.Recover.{
  restart, restart_lem, recovered_empty, recovered_whole, recovered_cut,
}

-- Crash upon crash: each restart has power for so many disk writes.
unfoldable pub restarts : List ℕ → Log → Log
restarts [] log = log
restarts (p ∷ ps) log = restarts ps (restart p log)

module _ (log : Log) (ready : IsReady log) where
  -- `l` runs on the log area of `log`, and its disk holds `target` or still the transaction.
  record Survives (target : ℕ → Block) (l : Log) : Type 0 where
    place : l.start ≡ log.start
    held : Holds log target l.io.disk

  record IsPending (l : Log) : Type 0 where
    place : l.start ≡ log.start
    state : IsCommitted log l.io.disk ⊎ Holds log log.io.cache l.io.disk

  restart-Survives :
      (target : ℕ → Block) (p : ℕ) (l : Log) → Survives target l → Survives target (restart p l)
  restart-Survives target p l s = record {
    place = (restart_lem p l).1 ∙ s.place;
    held = rw ((restart_lem p l).0, s.place) (recovered_empty log ready target l.io.disk p s.held);
  }

  restart-IsPending : (p : ℕ) (l : Log) → IsPending l → IsPending (restart p l)
  restart-IsPending p l s = record {
    place = (restart_lem p l).1 ∙ s.place;
    state =
        rw ((restart_lem p l).0, s.place)
          (elim s.state [
            | inr done ↦ inr (recovered_empty log ready log.io.cache l.io.disk p done)
            | inl pending ↦ elim (dec_lt log.lh.n p) [
              | yes enough ↦ inr (recovered_whole log ready l.io.disk p pending enough)
              | no few ↦ inl (recovered_cut log ready l.io.disk p pending (omega arith))
            ]
          ]);
  }

  restarts-Survives :
      (target : ℕ → Block) (ps : List ℕ) (l : Log)
      → Survives target l
      → Survives target (restarts ps l)
  unfolding restarts
  restarts-Survives target [] l s = s
  restarts-Survives target (p ∷ ps) l s =
      restarts-Survives target ps (restart p l) (restart-Survives target p l s)

  restarts-IsPending : (ps : List ℕ) (l : Log) → IsPending l → IsPending (restarts ps l)
  unfolding restarts
  restarts-IsPending [] l s = s
  restarts-IsPending (p ∷ ps) l s = restarts-IsPending ps (restart p l) (restart-IsPending p l s)

  last-IsPending :
      (p : ℕ) (l : Log) → log.lh.n < p → IsPending l → Holds log log.io.cache (restart p l).io.disk
  last-IsPending p l enough s =
      rw ((restart_lem p l).0, s.place)
        (elim s.state [
          | inr done ↦ recovered_empty log ready log.io.cache l.io.disk p done
          | inl pending ↦ recovered_whole log ready l.io.disk p pending enough
        ])

  -- The power fails at any disk write of `commit`, and again in any number of recoveries; the last
  -- recovery has power enough. Then each block outside the log holds what its buffer held before
  -- the commit if the header write of `commit` was made, and else what the disk held before it.
  pub commit_atomic :
      (ps : List ℕ) (p : ℕ)
      → log.lh.n < p
      → (b : ℕ) → Outside log b
      → (restart p (restarts ps (commit log))).io.disk b
        ≡ (if ltb log.lh.n log.io.power then log.io.cache b else log.io.disk b)
  commit_atomic ps p enough b o = elim (dec_lt log.lh.n log.io.power) [
    | yes late ↦
        let pending : IsPending (commit log) = record {
          place = (commit_start log).0;
          state = commit_after log ready late;
        } in
        let whole =
          last-IsPending p (restarts ps (commit log)) enough
            (restarts-IsPending ps (commit log) pending) in
        ground (arith, whole.blocks b o)
    | no early ↦
        let kept : Survives log.io.disk (commit log) = record {
          place = (commit_start log).0;
          held = commit_before log ready (omega arith);
        } in
        let whole =
          restart-Survives log.io.disk p (restarts ps (commit log))
            (restarts-Survives log.io.disk ps (commit log) kept) in
        ground (arith, whole.held.blocks b o)
  ]
