-- ===== src/Log/Reserve.antt =====
-- Operations of the file system that share a transaction: `begin_op` reserves room for each, so
-- `log_write` never finds the log too small.
use xv6_riscv_labs.Prelude.{
  ℕ, zero, suc, ◌+◌, ◌*◌, ◌≤◌, ◌<◌, ◌≡◌, refl, sym, ◌∙◌, ap, false, some, arith, List, [], ◌∷◌,
  ◌++◌, length, length-append,
}
use xv6_riscv_labs.Prelude.Int.{pos}
use xv6_riscv_labs.Log.Disk.{Block}
use xv6_riscv_labs.Log.Defs.{Log, log_size, max_op_blocks, begin_op, end_op, log_write}
use xv6_riscv_labs.Log.States.{Outside, IsReady}
use xv6_riscv_labs.Log.Write.{modify, log_write-IsReady, log_write_rest}
use xv6_riscv_labs.Log.End.{end_op_last}

-- How many more blocks each outstanding operation may write.
abbrev total : List ℕ → ℕ
total [] = 0
total (x ∷ xs) = x + total xs

abbrev AllFit : List ℕ → Type 0
AllFit [] = Unit
AllFit (x ∷ xs) = (x ≤ max_op_blocks) × AllFit xs

-- A step of some operation: it begins, changes and logs one block, or ends.
pub data Step (log : Log) : List ℕ → Log → List ℕ → Type 0 where
  begin :
      {ops : List ℕ} {log' : Log}
      → begin_op log ≡ some log'
      → Step log ops log' (max_op_blocks ∷ ops)
  write :
      {ops ops' : List ℕ} {log' : Log} (xs ys : List ℕ) (left b : ℕ) (v : Block)
      → Outside log b
      → ops ≡ xs ++ (suc left ∷ ys)
      → ops' ≡ xs ++ (left ∷ ys)
      → log_write b (modify b v log) ≡ some log'
      → Step log ops log' ops'
  finish :
      {ops ops' : List ℕ} {log' : Log} (xs ys : List ℕ) (left : ℕ)
      → ops ≡ xs ++ (left ∷ ys)
      → ops' ≡ xs ++ ys
      → log.lh.n + log.lh.n + 1 < log.io.power
      → end_op log ≡ some log'
      → Step log ops log' ops'

pub record IsReserved (log : Log) (ops : List ℕ) : Type 0 where
  pub ready : IsReady log
  pub free : log.committing ≡ false
  pub counted : log.outstanding ≡ pos (length ops)
  pub reserved : log.lh.n + total ops ≤ log_size
  pub fit : AllFit ops
  pub big : log_size < log.size

total-append : (xs ys : List ℕ) → total (xs ++ ys) ≡ total xs + total ys
total-append [] ys = omega arith
total-append (x ∷ xs) ys = omega (arith, total-append xs ys)

total-le : (ops : List ℕ) → AllFit ops → total ops ≤ length ops * max_op_blocks
total-le [] h = omega arith
total-le (x ∷ ops) h = omega (arith, total-le ops h.1, h.0)

AllFit-change :
    (xs ys : List ℕ) (x y : ℕ) → y ≤ x → AllFit (xs ++ (x ∷ ys)) → AllFit (xs ++ (y ∷ ys))
AllFit-change [] ys x y p h = (omega (arith, h.0), h.1)
AllFit-change (a ∷ xs) ys x y p h = (h.0, AllFit-change xs ys x y p h.1)

AllFit-drop : (xs ys : List ℕ) (x : ℕ) → AllFit (xs ++ (x ∷ ys)) → AllFit (xs ++ ys)
AllFit-drop [] ys x h = h.1
AllFit-drop (a ∷ xs) ys x h = (h.0, AllFit-drop xs ys x h.1)

begin_inv :
    (log : Log) (k : ℕ) {log' : Log}
    → log.outstanding ≡ pos k
    → begin_op log ≡ some log'
    → (log.lh.n + (k + 1) * max_op_blocks ≤ log_size)
      × (log' ≡ record log { outstanding = pos (suc k) })
unfolding begin_op
begin_inv log k e b = ground arith

begin-IsReserved :
    (log : Log) (ops : List ℕ) {log' : Log}
    → IsReserved log ops
    → begin_op log ≡ some log'
    → IsReserved log' (max_op_blocks ∷ ops)
begin-IsReserved log ops {log'} r e =
    let inv = begin_inv log (length ops) r.counted e in
    rw inv.1 (record {
      ready = record {
        fits = r.ready.fits;
        room = r.ready.room;
        distinct = r.ready.distinct;
        away = r.ready.away;
        clean = r.ready.clean;
        erased = r.ready.erased;
      };
      free = r.free;
      counted = refl;
      reserved = omega (arith, inv.0, total-le ops r.fit);
      fit = (omega arith, r.fit);
      big = r.big;
    })

write-IsReserved :
    (log : Log) (xs ys : List ℕ) (left b : ℕ) (v : Block) {log' : Log}
    → IsReserved log (xs ++ (suc left ∷ ys))
    → Outside log b
    → log_write b (modify b v log) ≡ some log'
    → IsReserved log' (xs ++ (left ∷ ys))
write-IsReserved log xs ys left b v {log'} r o e =
    let kept = log_write-IsReady b v log r.ready o e in
    let rest = log_write_rest b (modify b v log) e in
    record {
      ready = kept.0;
      free = rest.1 ∙ r.free;
      counted =
          rest.0
          ∙ r.counted
          ∙ ap pos (omega (arith, length-append xs (suc left ∷ ys), length-append xs (left ∷ ys)));
      reserved =
          omega (
            arith,
            kept.2,
            r.reserved,
            total-append xs (suc left ∷ ys),
            total-append xs (left ∷ ys),
          );
      fit = AllFit-change xs ys (suc left) left (omega arith) r.fit;
      big = omega (arith, rest.2, r.big);
    }

end_op_early :
    (log : Log) (k : ℕ) {log' : Log}
    → log.outstanding ≡ pos (suc (suc k))
    → end_op log ≡ some log'
    → log' ≡ record log { outstanding = pos (suc k) }
unfolding end_op
end_op_early log k e f = ground arith

finish-IsReserved :
    (log : Log) (xs ys : List ℕ) (left : ℕ) {log' : Log}
    → IsReserved log (xs ++ (left ∷ ys))
    → log.lh.n + log.lh.n + 1 < log.io.power
    → end_op log ≡ some log'
    → IsReserved log' (xs ++ ys)
finish-IsReserved log xs ys left {log'} r whole e = go (length (xs ++ ys)) refl
  where
    size_lem : length (xs ++ (left ∷ ys)) ≡ suc (length (xs ++ ys))
    size_lem = omega (arith, length-append xs (left ∷ ys), length-append xs ys)

    go : (k : ℕ) → length (xs ++ ys) ≡ k → IsReserved log' (xs ++ ys)
    go zero z =
        let (s, ended, ready, n, out, free, blocks, big) =
          end_op_last log r.ready (r.counted ∙ ap pos (omega (arith, size_lem, z))) r.free whole in
        let same : s ≡ log' = cc (ended, e) in
        rw (← same) (record {
          ready = ready;
          free = free;
          counted = out ∙ ap pos (sym z);
          reserved = omega (arith, n, r.reserved, total-append xs (left ∷ ys), total-append xs ys);
          fit = AllFit-drop xs ys left r.fit;
          big = omega (arith, big, r.big);
        })
    go (suc k) z =
        rw (end_op_early log k (r.counted ∙ ap pos (omega (arith, size_lem, z))) e) (record {
          ready = record {
            fits = r.ready.fits;
            room = r.ready.room;
            distinct = r.ready.distinct;
            away = r.ready.away;
            clean = r.ready.clean;
            erased = r.ready.erased;
          };
          free = r.free;
          counted = ap pos (sym z);
          reserved = omega (arith, r.reserved, total-append xs (left ∷ ys), total-append xs ys);
          fit = AllFit-drop xs ys left r.fit;
          big = r.big;
        })

-- Every step keeps the reservation.
pub Step-IsReserved :
    {log log' : Log} {ops ops' : List ℕ}
    → Step log ops log' ops'
    → IsReserved log ops
    → IsReserved log' ops'
Step-IsReserved {log} {ops = ops} (begin e) r = begin-IsReserved log ops r e
Step-IsReserved {log} (write xs ys left b v o p p' e) r =
    rw p' (write-IsReserved log xs ys left b v (rw p at r) o e)
Step-IsReserved {log} (finish xs ys left p p' whole e) r =
    rw p' (finish-IsReserved log xs ys left (rw p at r) whole e)

pub data Steps (log : Log) (ops : List ℕ) : Log → List ℕ → Type 0 where
  stay : Steps log ops log ops
  next : {l l' : Log} {o o' : List ℕ} → Steps log ops l o → Step l o l' o' → Steps log ops l' o'

pub Steps-IsReserved :
    {log : Log} {ops : List ℕ} {log' : Log} {ops' : List ℕ}
    → IsReserved log ops
    → Steps log ops log' ops'
    → IsReserved log' ops'
Steps-IsReserved r stay = r
Steps-IsReserved r (next s step) = Step-IsReserved step (Steps-IsReserved r s)
